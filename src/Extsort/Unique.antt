-- ===== src/Extsort/Unique.antt =====
-- `Unique` in `mergeRuns` of internal/extsort/sort.go: runs that are merged hold no key twice.
use mathlib.Core.List.{Perm, Pairwise, Pairwise-cons}
use mathlib.Core.List.Perm
use mathlib.Core.Path.{subst}
use mathlib.Core.HLevel.{¬_prop}
use mathlib.Core.Bool.{Bool-set}
use backup.Base.{
  ℕ, zero, suc, ◌≡◌, ◌≢◌, refl, sym, ap, ◌∙◌, Bool, true, false, ◌&&◌, List, [], ◌∷◌, ◌++◌, map,
  Option, none, some, some-eq, append-nil, All, All-append, All-map, All-Among, All-of-Among, ok,
  err-ne-ok, bind-eq-ok, refuse_then, inl, inr, Bool-cases, not_both, ◌>>=◌,
}
use backup.Base.Bytes.{Bytes, equal, less, equal_iff, less_total, equal-false}
use backup.Format.Rows.Split.{ok-injective}
use backup.Extsort.{
  Record, Options, before, advance, is_previous, remember, merge_loop, merge_round, merge_runs,
  pending,
}
use backup.Extsort.Order.{before-false}
use backup.Extsort.Sorted.{All-perm, All-Mem}
use backup.Extsort.Files.{reader_of}
use backup.Extsort.Merges.Queue.{Head, node_of, records_of, IsRun, AreRuns, pop-nodes}
use backup.Extsort.Merges.{
  Apart, HasNoDuplicates, IsNew, Distinct, Distinct-perm, requeued, requeued-records,
  requeued-AreRuns, advance-reader_of,
}
use backup.Extsort.Runs.{joined, files, opened, opened-AreRuns, opened-perm, open_runs-files}

abbrev pub HasKey : Record → Type 0
HasKey r = r.key ≢ []

-- No record is before the key that was written last.
abbrev below : Option Bytes → Record → Bool
below none r = false
below (some p) r = less r.key p

abbrev NotBelow : Option Bytes → List Record → Type 0
NotBelow previous = All (λ r. below previous r ≡ false)

remember-some :
    (previous : Option Bytes) (key : Bytes) → key ≢ [] → remember previous key ≡ some key
unfolding remember
remember-some none [] h = absurd (h refl)
remember-some none (c ∷ key) h = refl
remember-some (some p) [] h = refl
remember-some (some p) (c ∷ key) h = refl

other_key :
    (previous : Option Bytes) (key : Bytes) → is_previous previous key ≡ false → previous ≢ some key
unfolding is_previous
other_key none key h e = cc
other_key (some p) key h e = not_both ((equal_iff p key).1 (some-eq e)) h

-- A key that is not below the last, nor the last itself, has none of it behind.
pub later_key :
    (previous : Option Bytes) (least r : Record)
    → is_previous previous least.key ≡ false
    → below previous least ≡ false
    → before r least ≡ false
    → previous ≢ some r.key
later_key previous least r other up behind e =
    let down = subst (λ q. below q least ≡ false) e up in
    let same : equal least.key r.key ≡ true = elim (Bool-cases (equal least.key r.key)) [
      | inl s ↦ s
      | inr apart ↦
          absurd (not_both (less_between least.key r.key apart down) (before-false r least behind))
    ] in
    other_key previous least.key other (e ∙ ap some (sym ((equal_iff least.key r.key).0 same)))
  where
    less_between : (a b : Bytes) → equal a b ≡ false → less a b ≡ false → less b a ≡ true
    less_between a b apart down = elim (Bool-cases (less b a)) [
      | inl up ↦ up
      | inr off ↦ absurd (equal-false a b apart (less_total a b down off))
    ]

module _ (options : Options) where
  Distinct-cons :
      (previous : Option Bytes) (least : Record) (l : List Record)
      → (options.unique && is_previous previous least.key) ≡ false
      → All HasKey (least ∷ l)
      → All (λ r. before r least ≡ false) l
      → NotBelow previous (least ∷ l)
      → Distinct options (remember previous least.key) l
      → Distinct options previous (least ∷ l)
  unfolding Distinct
  Distinct-cons previous least l fresh (some_key, _) behind (up, _) d on =
      let (new, apart) = d on in
      let other : is_previous previous least.key ≡ false = rw on at fresh in
      let after : IsNew (some least.key) l =
        subst (λ q. IsNew q l) (remember-some previous least.key some_key) new in
      (
        (
          other_key previous least.key other,
          All-of-Among (λ r. previous ≢ some r.key) l
              (λ r m.
                later_key previous least r other up
                  (All-Among (λ r. before r least ≡ false) r l behind m)),
        ),
        Pairwise-cons.1 (
          All-Mem (Apart least) (λ r. ¬_prop) l
              (All-of-Among (Apart least) l
                (λ r m e. All-Among (λ r. some least.key ≢ some r.key) r l after m (ap some e))),
          apart,
        ),
      )

  NotBelow-rest :
      (previous : Option Bytes) (least : Record) (l : List Record)
      → least.key ≢ []
      → All (λ r. before r least ≡ false) l
      → NotBelow (remember previous least.key) l
  NotBelow-rest previous least l some_key behind =
      subst (λ q. NotBelow q l) (sym (remember-some previous least.key some_key))
        (All-map (λ r k. before-false r least k) l behind)

  -- If the loop ends, the keys behind the queue differ from each other and from the one before.
  merge_loop-Distinct :
      (fuel : ℕ) (previous : Option Bytes) (hs : List Head) {out : Bytes}
      → AreRuns options hs
      → All HasKey (records_of hs)
      → NotBelow previous (records_of hs)
      → merge_loop options fuel previous (map node_of hs) ≡ ok out
      → Distinct options previous (records_of hs)
  unfolding merge_loop
  merge_loop-Distinct fuel previous [] runs keyed up h = unfold Distinct in λ on. (tt, Pairwise.nil)
  merge_loop-Distinct zero previous (g ∷ hs) runs keyed up h = absurd (err-ne-ok h)
  merge_loop-Distinct (suc fuel) previous (g ∷ hs) runs keyed up h =
      let (least, others, (popped, same, behind, good)) = pop-nodes options g hs runs in
      let left = requeued-records options least.1 others in
      let back = Perm.symm same in
      let keyed' = All-perm HasKey (λ r. ¬_prop) back keyed in
      let up' =
        All-perm (λ r. below previous r ≡ false) (λ r. Bool-set (below previous r) false) back up in
      let rest = least.1 ++ records_of others in
      let behind' =
        All-append (λ r. before r least.0 ≡ false) least.1 (records_of others) good.0.1.0 behind in
      let round = ap (merge_round options (merge_loop options fuel) previous) (sym popped) ∙ h in
      let (fresh, h1) =
        refuse_then (options.unique && is_previous previous least.0.key) _ _
          (unfold merge_round in round) in
      let (queue, next, h2) =
        bind-eq-ok (advance options (reader_of least.1) (map node_of others)) _ h1 in
      let (end, loop, _) =
        bind-eq-ok (merge_loop options fuel (remember previous least.0.key) queue) _ h2 in
      let requeue = ok-injective (sym next ∙ advance-reader_of options least.1 others good.0.0.1) in
      let later =
        merge_loop-Distinct fuel (remember previous least.0.key) (requeued options least.1 others)
          (requeued-AreRuns options least.1 others (good.0.0.1, good.0.1.1) good.1)
          (subst (All HasKey) (sym left) keyed'.1)
          (subst (NotBelow (remember previous least.0.key)) (sym left)
            (NotBelow-rest previous least.0 rest keyed'.0 behind'))
          (subst (λ q. merge_loop options fuel (remember previous least.0.key) q ≡ ok end) requeue
            loop) in
      Distinct-perm options previous same (
        Distinct-cons previous least.0 rest fresh keyed' behind' up'
          (subst (Distinct options (remember previous least.0.key)) left later))

  -- Runs of sorted records that `mergeRuns` merges with `Unique` hold no key twice.
  pub merge_runs-HasNoDuplicates :
      (runs : List (List Record)) {out : Bytes}
      → All (IsRun options) runs
      → All HasKey (joined runs)
      → merge_runs options (files runs) ≡ ok out
      → HasNoDuplicates options (joined runs)
  unfolding merge_runs Distinct
  merge_runs-HasNoDuplicates runs good keyed h =
      let hs = opened options runs [] in
      let same =
        subst (Perm (records_of hs)) (append-nil (joined runs)) (opened-perm options runs []) in
      let loop =
        ap (λ q. q >>= (λ queue. merge_loop options (pending queue) none queue))
          (sym (open_runs-files options runs [] good))
        ∙ h in
      let d =
        merge_loop-Distinct (pending (map node_of hs)) none hs
          (opened-AreRuns options runs [] good tt)
          (All-perm HasKey (λ r. ¬_prop) (Perm.symm same) keyed)
          (All-of-Among _ (records_of hs) (λ r m. refl)) loop in
      λ on. Perm.pairwise (λ a b. ¬_prop) (λ a b n e. n (sym e)) same (d on).1

-- ===== src/Extsort/Duplicates.antt =====
-- `Unique` of internal/extsort/sort.go, in a chunk and in the passes of `SortFiles`.
use mathlib.Core.List.{Perm, Pairwise, Pairwise-cons, Pairwise-singleton}
use mathlib.Core.List.Perm
use mathlib.Core.Path.{subst}
use mathlib.Core.HLevel.{¬_prop}
use backup.Base.{
  ℕ, zero, suc, ◌≡◌, sym, ap, ◌∙◌, false, List, [], ◌∷◌, ◌++◌, some, append-nil, length, take, drop,
  take-map, drop-map, All, All-take, All-drop, All-Among, All-of-Among, Among-append, ok, err-ne-ok,
  bind-eq-ok, refuse_then, inl, inr,
}
use backup.Base.Bytes.{Bytes, equal, equal-false}
use backup.Format.Rows.Split.{ok-injective}
use backup.Extsort.{
  Record, Options, before, sort_records, write_records, check_unique, is_previous, merge_runs,
  merge_pass, merge_passes,
}
use backup.Extsort.Order.{before-false}
use backup.Extsort.Sorted.{
  Ascending, sort_records-perm, sort_records-Ascending, All-sort_records, All-perm, All-Mem,
}
use backup.Extsort.Files.{IsKeyed}
use backup.Extsort.Merges.Queue.{IsRun}
use backup.Extsort.Merges.{Apart, HasNoDuplicates}
use backup.Extsort.Runs.{joined, files, merge_runs-files}
use backup.Extsort.Passes.{HasNoDuplicates-perm, joined-parts, joined-AreKeyed}
use backup.Extsort.Unique.{HasKey, later_key, merge_runs-HasNoDuplicates}

pub check_unique-Pairwise :
    (l : List Record) {u : Unit {0}} → Ascending l → check_unique l ≡ ok u → Pairwise Apart l
unfolding check_unique is_previous
check_unique-Pairwise [] up h = Pairwise.nil
check_unique-Pairwise (a ∷ []) up h = Pairwise-singleton Apart a
check_unique-Pairwise (a ∷ b ∷ l) ((first, _), (behind, up)) h =
    let (other, h1) = refuse_then (equal a.key b.key) _ (check_unique (b ∷ l)) h in
    Pairwise-cons.1 (
      All-Mem (Apart a) (λ r. ¬_prop) (b ∷ l)
          (
            equal-false a.key b.key other,
            All-of-Among (Apart a) l (λ r m e.
                later_key (some a.key) b r other (before-false b a first)
                  (All-Among (λ r. before r b ≡ false) r l behind m) (ap some e)),
          ),
      check_unique-Pairwise (b ∷ l) (behind, up) h1,
    )

All-parts : (a b : List Record) → All HasKey (a ++ b) → All HasKey a × All HasKey b
All-parts a b h = (
  All-of-Among HasKey a (λ r m. All-Among HasKey r (a ++ b) h (Among-append r a b (inl m))),
  All-of-Among HasKey b (λ r m. All-Among HasKey r (a ++ b) h (Among-append r a b (inr m))),
)

module _ (options : Options) where
  -- The runs that a pass makes hold no key twice.
  abbrev Unique : List Bytes → List (List Record) → Type 0
  Unique out runs =
      (next : List (List Record)) × ((out ≡ files next)
        × Perm (joined next) (joined runs)
        × All (IsRun options) next
        × All (HasNoDuplicates options) next)

  merge_pass-Unique :
      (fuel : ℕ) (runs : List (List Record)) {out : List Bytes}
      → All (IsRun options) runs
      → All HasKey (joined runs)
      → merge_pass options fuel (files runs) ≡ ok out
      → Unique out runs
  unfolding merge_pass
  merge_pass-Unique fuel [] good keyed h = ([], (sym (ok-injective h), Perm.rfl, tt, tt))
  merge_pass-Unique zero (l ∷ runs) good keyed h = absurd (err-ne-ok h)
  merge_pass-Unique (suc fuel) (l ∷ runs) {out} good keyed h =
      let k = options.max_open_files in
      let all : List (List Record) = l ∷ runs in
      let parts = joined-parts options k all in
      let (keyed1, keyed2) =
        All-parts (joined (take k all)) (joined (drop k all))
          (subst (All HasKey) (sym parts) keyed) in
      let good1 = All-take (IsRun options) k all good in
      let (merged, first, h1) = bind-eq-ok (merge_runs options (take k (files all))) _ h in
      let (rest, passed, h2) = bind-eq-ok (merge_pass options fuel (drop k (files all))) _ h1 in
      let first' =
        subst (λ f. merge_runs options f ≡ ok merged) (take-map write_records k all) first in
      let apart = merge_runs-HasNoDuplicates options (take k all) good1 keyed1 first' in
      let one = ok-injective (sym first' ∙ merge_runs-files options (take k all) good1 apart) in
      let (next, (written, same, sorted, unique)) =
        merge_pass-Unique fuel (drop k all) (All-drop (IsRun options) k all good) keyed2 (
          subst (λ f. merge_pass options fuel f ≡ ok rest) (drop-map write_records k all) passed) in
      let sorts = sort_records-perm (joined (take k all)) in
      (
        sort_records (joined (take k all)) ∷ next,
        (
          sym (ok-injective h2)
              ∙ ap (λ m. m ∷ rest) one
              ∙ ap (◌∷◌ (write_records (sort_records (joined (take k all))))) written,
          subst (Perm (sort_records (joined (take k all)) ++ joined next)) parts
              (Perm.append sorts same),
          (
            (
              All-sort_records (IsKeyed options) (joined (take k all))
                  (joined-AreKeyed options (take k all) good1),
              sort_records-Ascending (joined (take k all)),
            ),
            sorted,
          ),
          (HasNoDuplicates-perm options (Perm.symm sorts) apart, unique),
        ),
      )

  pub merge_passes-HasNoDuplicates :
      (fuel : ℕ) (runs : List (List Record)) {out : Bytes}
      → All (IsRun options) runs
      → All HasKey (joined runs)
      → All (HasNoDuplicates options) runs
      → merge_passes options fuel (files runs) ≡ ok out
      → HasNoDuplicates options (joined runs)
  unfolding merge_passes
  merge_passes-HasNoDuplicates fuel [] good keyed unique h = λ on. Pairwise.nil
  merge_passes-HasNoDuplicates fuel (l ∷ []) good keyed unique h =
      subst (HasNoDuplicates options) (sym (append-nil l)) unique.0
  merge_passes-HasNoDuplicates zero (l ∷ m ∷ runs) good keyed unique h = absurd (err-ne-ok h)
  merge_passes-HasNoDuplicates (suc fuel) (l ∷ m ∷ runs) {out} good keyed unique h =
      let all : List (List Record) = l ∷ m ∷ runs in
      let (merged, passed, h1) =
        bind-eq-ok (merge_pass options (length (files all)) (files all)) _ h in
      let (next, (written, same, sorted, apart)) =
        merge_pass-Unique (length (files all)) all good keyed passed in
      HasNoDuplicates-perm options same (
        merge_passes-HasNoDuplicates fuel next sorted
          (All-perm HasKey (λ r. ¬_prop) (Perm.symm same) keyed) apart
          (subst (λ f. merge_passes options fuel f ≡ ok out) written h1))

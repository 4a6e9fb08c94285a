-- ===== src/Extsort/Merges.antt =====
-- `mergeRuns` of internal/extsort/sort.go, on runs that hold sorted records.
pub mod Queue
use mathlib.Core.List.{Perm, Pairwise, Pairwise-cons, perm_append_comm}
use mathlib.Core.List.Perm
use mathlib.Core.Path.{subst}
use mathlib.Core.HLevel.{¬_prop}
use backup.Base.{
  ℕ, zero, suc, ◌+◌, ◌≤◌, ◌≡◌, ◌≢◌, refl, sym, ap, ◌∙◌, Bool, true, false, ◌&&◌, List, [], ◌∷◌,
  ◌++◌, map, Option, none, some, some-eq, append-nil, arith, length, length-append, All, All-append,
  All-map, ok, inl, inr, Bool-cases, not_both,
}
use backup.Base.Bytes.{Bytes, lf, equal, equal_iff}
use backup.Extsort.{
  Record, Options, MergeNode, before, write_records, extract_key, advance, open_runs, is_previous,
  remember, merge_loop, merge_round, pending, merge_runs, pop, key_or,
}
use backup.Extsort.Sorted.{
  All-perm, Mem-All, length-perm, Below, Ascending, Below-trans, Below-perm,
}
use backup.Extsort.Files.{IsKeyed, reader_of, open_line_reader-write_records}
use backup.Extsort.Merges.Queue.{Head, node_of, records_of, IsRun, AreRuns, pop-nodes}

-- The keys differ, where the records have to be unique.
abbrev pub Apart : Record → Record → Type 0
Apart a b = a.key ≢ b.key

abbrev pub HasNoDuplicates : Options → List Record → Type 0
HasNoDuplicates options l = options.unique ≡ true → Pairwise Apart l

abbrev pub IsNew : Option Bytes → List Record → Type 0
IsNew previous = All (λ r. previous ≢ some r.key)

module _ (options : Options) where
  -- The queue after the reader behind a record was advanced.
  abbrev pub requeued : List Record → List Head → List Head
  requeued [] hs = hs
  requeued (r ∷ l) hs = (r, l) ∷ hs

  pub requeued-records :
      (l : List Record) (hs : List Head) → records_of (requeued l hs) ≡ l ++ records_of hs
  requeued-records [] hs = refl
  requeued-records (r ∷ l) hs = refl

  pub requeued-AreRuns :
      (l : List Record) (hs : List Head)
      → IsRun options l
      → AreRuns options hs
      → AreRuns options (requeued l hs)
  requeued-AreRuns [] hs run runs = runs
  requeued-AreRuns (r ∷ l) hs run runs = (run, runs)

  -- A reader of records with their keys is advanced to the next of them.
  pub advance-reader_of :
      (l : List Record) (hs : List Head)
      → All (IsKeyed options) l
      → advance options (reader_of l) (map node_of hs) ≡ ok (map node_of (requeued l hs))
  unfolding advance extract_key
  advance-reader_of [] hs keyed = refl
  advance-reader_of (r ∷ l) hs ((line, key), keyed) = rw key refl

  remember-ne :
      (previous : Option Bytes) (key other : Bytes)
      → key ≢ other
      → remember previous key ≢ some other
  unfolding remember
  remember-ne none [] other h = λ e. cc
  remember-ne none (c ∷ key) other h = λ e. h (some-eq e)
  remember-ne (some previous) [] other h = λ e. h (some-eq e)
  remember-ne (some previous) (c ∷ key) other h = λ e. h (some-eq e)

  IsNew-remember :
      (previous : Option Bytes) (entry : Record) (l : List Record)
      → All (Apart entry) l
      → IsNew (remember previous entry.key) l
  IsNew-remember previous entry l = All-map (λ r. remember-ne previous entry.key r.key) l

  not_previous :
      (previous : Option Bytes) (key : Bytes)
      → previous ≢ some key
      → is_previous previous key ≡ false
  unfolding is_previous
  not_previous none key h = refl
  not_previous (some previous) key h = elim (Bool-cases (equal previous key)) [
    | inr other ↦ other
    | inl same ↦ absurd (h (ap some ((equal_iff previous key).0 same)))
  ]

  -- What the loop makes of the runs behind the queue.
  abbrev pub Merged : ℕ → Option Bytes → List Head → Type 0
  Merged fuel previous hs =
      (out : List Record) × ((merge_loop options fuel previous (map node_of hs)
          ≡ ok (write_records out))
        × Perm out (records_of hs)
        × Ascending out)

  unfoldable pub Distinct : Option Bytes → List Record → Type 0
  Distinct previous l = options.unique ≡ true → IsNew previous l × Pairwise Apart l

  -- Before the first record, nothing is remembered.
  pub Distinct-start : {l m : List Record} → Perm l m → HasNoDuplicates options l → Distinct none m
  unfolding Distinct
  Distinct-start {l} {m} same h u = (
    Mem-All (λ r. none ≢ some r.key) (λ r. ¬_prop) m (λ r m e. cc),
    Perm.pairwise (λ a b. ¬_prop) (λ a b n e. n (sym e)) same (h u),
  )

  pub Distinct-perm :
      (previous : Option Bytes) {l m : List Record}
      → Perm l m
      → Distinct previous l
      → Distinct previous m
  unfolding Distinct
  Distinct-perm previous same h u =
      let (new, apart) = h u in
      (
        All-perm (λ r. previous ≢ some r.key) (λ r. ¬_prop) same new,
        Perm.pairwise (λ a b. ¬_prop) (λ a b n e. n (sym e)) same apart,
      )

  -- Behind a record, what is left is distinct from it.
  Distinct-rest :
      (previous : Option Bytes) (entry : Record) (l : List Record)
      → Distinct previous (entry ∷ l)
      → Distinct (remember previous entry.key) l
  unfolding Distinct
  Distinct-rest previous entry l h u =
      let (apart, rest) = Pairwise-cons.0 ((h u).1) in
      (IsNew-remember previous entry l (Mem-All (Apart entry) (λ r. ¬_prop) l apart), rest)

  Distinct-first :
      (previous : Option Bytes) (entry : Record) (l : List Record)
      → Distinct previous (entry ∷ l)
      → (options.unique && is_previous previous entry.key) ≡ false
  unfolding Distinct
  Distinct-first previous entry l h = elim (Bool-cases options.unique) [
    | inr off ↦ rw off refl
    | inl on ↦ rw on (not_previous previous entry.key ((h on).0.0))
  ]

  merge_loop_step :
      (fuel : ℕ) (previous : Option Bytes) (node : MergeNode) (nodes : List MergeNode)
      (least : MergeNode) (others queue : List MergeNode) (rest : Bytes)
      → pop node nodes ≡ (least, others)
      → (options.unique && is_previous previous least.item.key) ≡ false
      → advance options least.reader others ≡ ok queue
      → merge_loop options fuel (remember previous least.item.key) queue ≡ ok rest
      → merge_loop options (suc fuel) previous (node ∷ nodes) ≡ ok (least.item.content ++ lf ∷ rest)
  unfolding merge_loop
  merge_loop_step fuel previous node nodes least others queue rest popped fresh next loop =
      ap (merge_round options (merge_loop options fuel) previous) popped
      ∙ unfold merge_round in rw (fresh, next, loop) refl

  pub merge_loop_nodes :
      (fuel : ℕ) (previous : Option Bytes) (hs : List Head)
      → AreRuns options hs
      → length (records_of hs) ≤ fuel
      → Distinct previous (records_of hs)
      → Merged fuel previous hs
  unfolding merge_loop write_records
  merge_loop_nodes fuel previous [] runs enough new = ([], (refl, Perm.rfl, tt))
  merge_loop_nodes zero previous (h ∷ hs) runs enough new = absurd (omega arith)
  merge_loop_nodes (suc fuel) previous (h ∷ hs) runs enough new =
      let (least, others, (popped, same, behind, good)) = pop-nodes options h hs runs in
      let queue = requeued least.1 others in
      let left = requeued-records least.1 others in
      let new' = Distinct-perm previous (Perm.symm same) new in
      let new'' = Distinct-rest previous least.0 (least.1 ++ records_of others) new' in
      let enough' : length (least.1 ++ records_of others) ≤ fuel =
        omega (arith, length-perm same) in
      let (out, (loop, whole, sorted)) =
        merge_loop_nodes fuel (remember previous least.0.key) queue
          (requeued-AreRuns least.1 others (good.0.0.1, good.0.1.1) good.1) (rw left enough')
          (rw left new'') in
      let whole' = subst (Perm out) left whole in
      (
        least.0 ∷ out,
        (
          merge_loop_step fuel previous (node_of h) (map node_of hs) (node_of least)
              (map node_of others) (map node_of queue) (write_records out) popped
              (Distinct-first previous least.0 (least.1 ++ records_of others) new')
              (advance-reader_of least.1 others good.0.0.1) loop,
          Perm.trans (Perm.cons least.0 whole') same,
          (
            Below-perm least.0 (Perm.symm whole') (
                All-append (λ r. before r least.0 ≡ false) least.1 (records_of others) good.0.1.0
                  behind),
            sorted,
          ),
        ),
      )

-- ===== src/Extsort/Runs.antt =====
-- `mergeRuns` of internal/extsort/sort.go, on files of sorted records.
use mathlib.Core.List.{Perm}
use mathlib.Core.List.Perm
use mathlib.Core.Path.{subst}
use backup.Base.{
  ◌≤◌, ◌≡◌, refl, sym, ap, ◌∙◌, List, [], ◌∷◌, ◌++◌, map, none, append-nil, append_assoc, arith,
  length, length-append, length-map, All, All-map, ok,
}
use backup.Base.Bytes.{Bytes}
use backup.Extsort.{Record, Options, sort_records, write_records, open_runs, pending, merge_runs}
use backup.Extsort.Sorted.{Ascending-sort_records}
use backup.Extsort.Files.{open_line_reader-write_records}
use backup.Extsort.Merges.Queue.{Head, IsRun, node_of, records_of, AreRuns, swap_parts}
use backup.Extsort.Merges.{
  HasNoDuplicates, Distinct-start, requeued, requeued-records, requeued-AreRuns, advance-reader_of,
  merge_loop_nodes,
}

-- The records of the runs.
abbrev pub joined : List (List Record) → List Record
joined [] = []
joined (l ∷ runs) = l ++ joined runs

pub joined-append : (a b : List (List Record)) → joined (a ++ b) ≡ joined a ++ joined b
joined-append [] b = refl
joined-append (l ∷ a) b =
    ap (◌++◌ l) (joined-append a b) ∙ sym (append_assoc l (joined a) (joined b))

abbrev pub files : List (List Record) → List Bytes
files = map write_records

module _ (options : Options) where
  unfoldable pub opened : List (List Record) → List Head → List Head
  opened [] hs = hs
  opened (l ∷ runs) hs = opened runs (requeued options l hs)

  pub opened-AreRuns :
      (runs : List (List Record)) (hs : List Head)
      → All (IsRun options) runs
      → AreRuns options hs
      → AreRuns options (opened runs hs)
  unfolding opened
  opened-AreRuns [] hs good h = h
  opened-AreRuns (l ∷ runs) hs (g, good) h =
      opened-AreRuns runs (requeued options l hs) good (requeued-AreRuns options l hs g h)

  pub opened-perm :
      (runs : List (List Record)) (hs : List Head)
      → Perm (records_of (opened runs hs)) (joined runs ++ records_of hs)
  unfolding opened
  opened-perm [] hs = Perm.rfl
  opened-perm (l ∷ runs) hs =
      let behind =
        subst (λ r. Perm (records_of (opened runs (requeued options l hs))) (joined runs ++ r))
          (requeued-records options l hs) (opened-perm runs (requeued options l hs)) in
      subst (Perm (records_of (opened runs (requeued options l hs))))
        (sym (append_assoc l (joined runs) (records_of hs)))
        (Perm.trans behind (swap_parts (joined runs) l (records_of hs)))

  pub open_runs-files :
      (runs : List (List Record)) (hs : List Head)
      → All (IsRun options) runs
      → open_runs options (files runs) (map node_of hs) ≡ ok (map node_of (opened runs hs))
  unfolding open_runs opened
  open_runs-files [] hs good = refl
  open_runs-files (l ∷ runs) hs (g, good) =
      rw
        (
          open_line_reader-write_records options.max_line_bytes l (All-map (λ r k. k.0) l g.0),
          advance-reader_of options l hs g.0,
        )
        (open_runs-files runs (requeued options l hs) good)

  pending-records_of : (hs : List Head) → length (records_of hs) ≤ pending (map node_of hs)
  unfolding pending
  pending-records_of [] = omega arith
  pending-records_of (h ∷ hs) = omega (
    arith,
    length-append h.1 (records_of hs),
    length-map (λ r. r.content) h.1,
    pending-records_of hs,
  )

  -- Files of sorted records are merged into the file of all their records, sorted.
  pub merge_runs-files :
      (runs : List (List Record))
      → All (IsRun options) runs
      → HasNoDuplicates options (joined runs)
      → merge_runs options (files runs) ≡ ok (write_records (sort_records (joined runs)))
  unfolding merge_runs
  merge_runs-files runs good apart =
      let hs = opened runs [] in
      let same = subst (Perm (records_of hs)) (append-nil (joined runs)) (opened-perm runs []) in
      let (out, (loop, whole, sorted)) =
        merge_loop_nodes options (pending (map node_of hs)) none hs (opened-AreRuns runs [] good tt)
          (pending-records_of hs) (Distinct-start options (Perm.symm same) apart) in
      let result = Ascending-sort_records out (joined runs) sorted (Perm.trans whole same) in
      rw (open_runs-files runs [] good) (loop ∙ ap (λ l. ok (write_records l)) result)

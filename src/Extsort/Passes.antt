-- ===== src/Extsort/Passes.antt =====
-- The passes of `SortFiles` (internal/extsort/sort.go), on files of sorted records.
use mathlib.Core.List.{Perm, Pairwise-append}
use mathlib.Core.List.Perm
use mathlib.Core.Path.{subst}
use mathlib.Core.HLevel.{¬_prop}
use backup.Base.{
  ℕ, zero, suc, ◌≤◌, ◌≡◌, refl, sym, ap, ◌∙◌, List, [], ◌∷◌, ◌++◌, append-nil, arith, length,
  length-drop, length-map, ◌>>=◌, take, drop, take-append-drop, take-map, drop-map, All, All-append,
  All-take, All-drop, ok,
}
use backup.Extsort.{Record, Options, sort_records, write_records, merge_pass, merge_passes}
use backup.Extsort.Sorted.{
  Ascending-sort_records, sort_records-perm, sort_records-Ascending, All-sort_records,
}
use backup.Extsort.Files.{IsKeyed}
use backup.Extsort.Merges.Queue.{IsRun}
use backup.Extsort.Merges.{Apart, HasNoDuplicates}
use backup.Extsort.Runs.{joined, joined-append, files, merge_runs-files}

module _ (options : Options) where
  pub joined-AreKeyed :
      (runs : List (List Record)) → All (IsRun options) runs → All (IsKeyed options) (joined runs)
  joined-AreKeyed [] h = tt
  joined-AreKeyed (l ∷ runs) (h, hs) =
      All-append (IsKeyed options) l (joined runs) h.0 (joined-AreKeyed runs hs)

  pub HasNoDuplicates-perm :
      {l m : List Record} → Perm l m → HasNoDuplicates options l → HasNoDuplicates options m
  HasNoDuplicates-perm same h u = Perm.pairwise (λ a b. ¬_prop) (λ a b n e. n (sym e)) same (h u)

  pub HasNoDuplicates-parts :
      (a b : List Record)
      → HasNoDuplicates options (a ++ b)
      → HasNoDuplicates options a × HasNoDuplicates options b
  HasNoDuplicates-parts a b h =
      let split = Pairwise-append {R = Apart} (λ x y. ¬_prop) {l₁ = a} {l₂ = b} in
      (λ u. (split.0 (h u)).0, λ u. (split.0 (h u)).1)

  pub joined-parts :
      (n : ℕ) (runs : List (List Record))
      → joined (take n runs) ++ joined (drop n runs) ≡ joined runs
  joined-parts n runs =
      sym (joined-append (take n runs) (drop n runs)) ∙ ap joined (take-append-drop n runs)

  -- The runs that a pass makes hold the same records; there are fewer, if there were several.
  abbrev pub Passed : ℕ → List (List Record) → Type 0
  Passed fuel runs =
      (next : List (List Record)) × ((merge_pass options fuel (files runs) ≡ ok (files next))
        × Perm (joined next) (joined runs)
        × All (IsRun options) next
        × (length next ≤ length runs)
        × (2 ≤ length runs → suc (length next) ≤ length runs))

  merge_pass-files :
      (fuel : ℕ) (runs : List (List Record))
      → 2 ≤ options.max_open_files
      → length runs ≤ fuel
      → All (IsRun options) runs
      → HasNoDuplicates options (joined runs)
      → Passed fuel runs
  unfolding merge_pass
  merge_pass-files fuel [] two enough good apart =
      ([], (refl, Perm.rfl, tt, omega arith, λ h. omega arith))
  merge_pass-files zero (l ∷ runs) two enough good apart = absurd (omega arith)
  merge_pass-files (suc fuel) (l ∷ runs) two enough good apart =
      let k = options.max_open_files in
      let all : List (List Record) = l ∷ runs in
      let parts = joined-parts k all in
      let (apart1, apart2) =
        HasNoDuplicates-parts (joined (take k all)) (joined (drop k all))
          (subst (HasNoDuplicates options) (sym parts) apart) in
      let good1 = All-take (IsRun options) k all good in
      let one = merge_runs-files options (take k all) good1 apart1 in
      let left = length-drop k all in
      let (next, (merged, same, sorted, bound, _)) =
        merge_pass-files fuel (drop k all) two (omega arith) (All-drop (IsRun options) k all good)
          apart2 in
      (
        sort_records (joined (take k all)) ∷ next,
        (
          rw (take-map write_records k all, one, drop-map write_records k all, merged) refl,
          subst (Perm (sort_records (joined (take k all)) ++ joined next)) parts
              (Perm.append (sort_records-perm (joined (take k all))) same),
          (
            (
              All-sort_records (IsKeyed options) (joined (take k all))
                  (joined-AreKeyed (take k all) good1),
              sort_records-Ascending (joined (take k all)),
            ),
            sorted,
          ),
          omega arith,
          λ h. omega arith,
        ),
      )

  -- Enough passes leave the file of all records, sorted.
  pub merge_passes-files :
      (fuel : ℕ) (runs : List (List Record))
      → 2 ≤ options.max_open_files
      → length runs ≤ fuel
      → All (IsRun options) runs
      → HasNoDuplicates options (joined runs)
      → merge_passes options fuel (files runs) ≡ ok (write_records (sort_records (joined runs)))
  unfolding merge_passes
  merge_passes-files fuel [] two enough good apart = unfold sort_records write_records in refl
  merge_passes-files fuel (l ∷ []) two enough good apart =
      ap (λ r. ok (write_records r))
        (Ascending-sort_records l (l ++ []) good.0.1 (subst (Perm l) (sym (append-nil l)) Perm.rfl))
  merge_passes-files zero (l ∷ m ∷ runs) two enough good apart = absurd (omega arith)
  merge_passes-files (suc fuel) (l ∷ m ∷ runs) two enough good apart =
      let all : List (List Record) = l ∷ m ∷ runs in
      let (next, (merged, same, sorted, _, fewer)) =
        merge_pass-files (length all) all two (omega arith) good apart in
      let less_left = fewer (omega arith) in
      let rest =
        merge_passes-files fuel next two (omega arith) sorted
          (HasNoDuplicates-perm (Perm.symm same) apart) in
      let one_list =
        Ascending-sort_records (sort_records (joined next)) (joined all)
          (sort_records-Ascending (joined next))
          (Perm.trans (sort_records-perm (joined next)) same) in
      ap (λ m. m >>= merge_passes options fuel)
        (ap (λ n. merge_pass options n (files all)) (length-map write_records all) ∙ merged)
      ∙ rest
      ∙ ap (λ s. ok (write_records s)) one_list

-- ===== src/Extsort/Whole.antt =====
-- `SortFiles` of internal/extsort/sort.go, from its inputs to what it publishes.
use mathlib.Core.List.{Perm}
use mathlib.Core.List.Perm
use mathlib.Core.Path.{subst}
use backup.Base.{
  ◌≤◌, ◌≡◌, refl, ap, ◌∙◌, List, [], ◌∷◌, ◌++◌, append-nil, length, arith, All, ok, ltb, Bool-cases,
  inl, inr, length-map,
}
use backup.Base.Bytes.{Bytes}
use backup.Extsort.{
  Record, Options, Stage, add_inputs, normalized, begun, write_records, sort_records, sort_files,
  spill, merge_passes,
}
use backup.Extsort.Sorted.{Ascending-sort_records, sort_records-perm, sort_records-Ascending}
use backup.Extsort.Merges.{HasNoDuplicates}
use backup.Extsort.Runs.{joined, files}
use backup.Extsort.Passes.{HasNoDuplicates-perm, merge_passes-files}
use backup.Extsort.Spills.{IsTaken, spill-Holds, add_inputs-Holds}

pub normalized_open : (options : Options) → 2 ≤ (normalized options).max_open_files
unfolding normalized
normalized_open options = elim (Bool-cases (ltb options.max_open_files 2)) [
  | inl low ↦ rw low (omega arith)
  | inr high ↦ rw high (ground arith)
]

sort_files_steps :
    (options : Options) (input : Bytes) (inputs : List Bytes) (filled stage : Stage)
    → add_inputs (normalized options) begun (input ∷ inputs) ≡ ok filled
    → spill (normalized options) filled ≡ ok stage
    → sort_files (input ∷ inputs) options
      ≡ merge_passes (normalized options) (length stage.runs) stage.runs
unfolding sort_files
sort_files_steps options input inputs filled stage added spilled = rw (added, spilled) refl

-- Of inputs that are files of records, each with the key of its line, which is not empty, and with a
-- line that fits the scanner and holds neither CR nor LF, `SortFiles` publishes the file of all
-- their records in ascending order of key and then of line, whatever the limits of memory and of
-- open files are; with `Unique`, if no two of the records have one key.
pub sort_files-sort_records :
    (options : Options) (input : List Record) (inputs : List (List Record))
    → All (All (IsTaken (normalized options))) (input ∷ inputs)
    → HasNoDuplicates options (joined (input ∷ inputs))
    → sort_files (files (input ∷ inputs)) options
      ≡ ok (write_records (sort_records (joined (input ∷ inputs))))
sort_files-sort_records options input inputs taken apart =
    let normal = normalized options in
    let all = joined (input ∷ inputs) in
    let apart' : HasNoDuplicates normal all = unfold normalized in apart in
    let (filled, (added, held)) =
      add_inputs-Holds normal (input ∷ inputs) begun [] ([], (refl, Perm.rfl, tt, tt)) taken
        apart' in
    let (stage, (spilled, (runs, (written, same, good, _)), nothing)) =
      spill-Holds normal filled all held apart' in
    let same' : Perm (joined runs) all =
      subst (λ m. Perm m all) (ap (◌++◌ (joined runs)) nothing ∙ append-nil (joined runs)) same in
    let passes =
      merge_passes-files normal (length runs) runs (normalized_open options) (omega arith) good
        (HasNoDuplicates-perm normal (Perm.symm same') apart') in
    let result =
      Ascending-sort_records (sort_records (joined runs)) all (sort_records-Ascending (joined runs))
        (Perm.trans (sort_records-perm (joined runs)) same') in
    let sizes : length (files runs) ≡ length runs = length-map write_records runs in
    sort_files_steps options (write_records input) (files inputs) filled stage added spilled
    ∙ ap (λ r. merge_passes normal (length r) r) written
    ∙ ap (λ n. merge_passes normal n (files runs)) sizes
    ∙ passes
    ∙ ap (λ l. ok (write_records l)) result

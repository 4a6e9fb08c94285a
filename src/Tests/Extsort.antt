-- ===== src/Tests/Extsort.antt =====
-- The external sort on three lines, held one at a time and merged two runs at a time.
use mathlib.Core.List.{Pairwise, Pairwise-singleton}
use mathlib.Core.HLevel.{¬_prop}
use backup.Base.{ℕ, ◌≤◌, ◌≡◌, ◌≢◌, refl, true, List, [], ◌∷◌, ok, err, none, arith, All}
use backup.Base.Bytes.{Bytes, codes, cr, lf, equal, equal-false, less}
use backup.Format.Rows.{scan_lines, last_token}
use backup.Extsort.{
  Options, Record, normalized, key_or, sort_files, write_records, sort_records, insert, before,
  out_of_fuel, line_too_long, no_final_lf, duplicate_key, add_record, add_line, add_lines,
  add_input, add_inputs, spill, check_unique, printable_key, open_line_reader, drop_cr, extract_key,
  pop, advance, open_runs, is_previous, remember, merge_round, merge_loop, pending, merge_runs,
  merge_pass, merge_passes,
}
use backup.Extsort.Sorted.{All-Mem}
use backup.Extsort.Spills.{IsTaken}
use backup.Extsort.Merges.{Apart, HasNoDuplicates}
use backup.Extsort.Refused.{sort_files-HasNoDuplicates}
use backup.Repository.DerivedRows.{Row}
use backup.Repository.Sorting.{row_line, tabbed, rows_file, by_first_field, sort_rows}
use backup.Repository.Sorting.Laws.{IsSortable, sort_files-rows_file}
use backup.Extsort.Returns.{sort_files_ends}
use backup.Extsort.Whole.{sort_files-sort_records}

abbrev small : Options
small = record {
  memory_bytes = 1;
  max_line_bytes = 8;
  max_open_files = 2;
  unique = true;
  key = none;
}

abbrev entry : Bytes → Record
entry line = record { content = line; key = line }

abbrev first_input : List Record
first_input = entry (codes "b") ∷ entry (codes "c") ∷ []

abbrev second_input : List Record
second_input = entry (codes "a") ∷ []

sorted_lines :
    sort_files ((98 ∷ lf ∷ 99 ∷ lf ∷ []) ∷ (97 ∷ lf ∷ []) ∷ []) small
    ≡ ok (97 ∷ lf ∷ 98 ∷ lf ∷ 99 ∷ lf ∷ [])
unfolding equal less scan_lines last_token normalized key_or sort_files write_records sort_records
    insert before add_record add_line add_lines add_input add_inputs spill check_unique
    printable_key open_line_reader drop_cr extract_key pop advance open_runs is_previous remember
    merge_round merge_loop pending merge_runs merge_pass merge_passes
sorted_lines = refl

-- A key that comes twice is an error where keys are unique.
duplicate_line :
    sort_files ((98 ∷ lf ∷ 97 ∷ lf ∷ []) ∷ (98 ∷ lf ∷ []) ∷ []) small
    ≡ err (duplicate_key (98 ∷ []))
unfolding equal less scan_lines last_token normalized key_or sort_files write_records sort_records
    insert before add_record add_line add_lines add_input add_inputs spill check_unique
    printable_key open_line_reader drop_cr extract_key pop advance open_runs is_previous remember
    merge_round merge_loop pending merge_runs merge_pass merge_passes
duplicate_line = refl

long_line :
    sort_files ((98 ∷ 98 ∷ 98 ∷ 98 ∷ 98 ∷ 98 ∷ 98 ∷ 98 ∷ 98 ∷ lf ∷ []) ∷ []) small
    ≡ err line_too_long
unfolding scan_lines normalized sort_files add_inputs add_input add_lines open_line_reader
long_line = refl

no_line_end : sort_files ((98 ∷ []) ∷ []) small ≡ err no_final_lf
unfolding scan_lines normalized sort_files add_inputs add_input add_lines open_line_reader
no_line_end = refl

one_letter : (c : ℕ) → c ≢ lf → c ≢ cr → IsTaken (normalized small) (entry (c ∷ []))
unfolding normalized key_or
one_letter c no_lf no_cr = ((((no_lf, tt), (no_cr, tt), omega arith), refl), λ e. cc)

all-IsTaken : All (All (IsTaken (normalized small))) (first_input ∷ second_input ∷ [])
all-IsTaken = (
  (one_letter 98 (omega arith) (omega arith), (one_letter 99 (omega arith) (omega arith), tt)),
  ((one_letter 97 (omega arith) (omega arith), tt), tt),
)

different : Pairwise Apart (entry (codes "b") ∷ entry (codes "c") ∷ entry (codes "a") ∷ [])
unfolding equal
different =
    Pairwise.cons
      (All-Mem (Apart (entry (codes "b"))) (λ r. ¬_prop)
        (entry (codes "c") ∷ entry (codes "a") ∷ [])
        (equal-false (codes "b") (codes "c") refl, (equal-false (codes "b") (codes "a") refl, tt)))
      (Pairwise.cons
        (All-Mem (Apart (entry (codes "c"))) (λ r. ¬_prop) (entry (codes "a") ∷ [])
          (equal-false (codes "c") (codes "a") refl, tt))
        (Pairwise-singleton _ (entry (codes "a"))))

sort_files-sort_records_example :
    sort_files (write_records first_input ∷ write_records second_input ∷ []) small
    ≡ ok (
        write_records
          (sort_records (entry (codes "b") ∷ entry (codes "c") ∷ entry (codes "a") ∷ [])))
sort_files-sort_records_example =
    sort_files-sort_records small first_input (second_input ∷ []) all-IsTaken (λ u. different)

-- The second input does not end in a line feed.
sort_files_ends_example : sort_files (codes "b\na\n" ∷ codes "c" ∷ []) small ≢ err out_of_fuel
sort_files_ends_example = sort_files_ends (codes "b\na\n" ∷ codes "c" ∷ []) small

-- Of what is published, no key comes twice.
sort_files-HasNoDuplicates_example :
    HasNoDuplicates small (entry (codes "b") ∷ entry (codes "c") ∷ entry (codes "a") ∷ [])
unfolding write_records
sort_files-HasNoDuplicates_example =
    sort_files-HasNoDuplicates small first_input (second_input ∷ []) all-IsTaken sorted_lines

letter_row : (a b : ℕ) → 32 ≤ a → 32 ≤ b → IsSortable 9 ((a ∷ []) ∷ (b ∷ []) ∷ [])
unfolding row_line tabbed
letter_row a b h k = (
  (λ e. cc),
  (omega arith, tt),
  (((omega arith, tt), (omega arith, tt)), (((omega arith, tt), (omega arith, tt)), tt)),
  omega arith,
)

abbrev unsorted : List Row
unsorted = (codes "q" ∷ codes "1" ∷ []) ∷ (codes "p" ∷ codes "2" ∷ []) ∷ []

-- Two rows, sorted by their first field.
sort_files-rows_file_example :
    sort_files (rows_file unsorted ∷ []) (by_first_field 9) ≡ ok (rows_file (sort_rows unsorted))
sort_files-rows_file_example = sort_files-rows_file 9 (omega arith) unsorted (
  letter_row 113 49 (omega arith) (omega arith),
  (letter_row 112 50 (omega arith) (omega arith), tt),
)

-- ===== src/Repository/Sorting.antt =====
-- The calls of `extsort.SortFiles` in internal/repository (stream_transition.go, stream_state.go,
-- history_validate.go): they sort rows by the first field.
pub mod Laws
pub mod Places
use backup.Base.{
  ℕ, false, List, [], ◌∷◌, ◌++◌, map, Option, none, some, length, ◌==◌, if◌then◌else◌,
}
use backup.Base.Bytes.{Bytes, tab, lf}
use backup.Extsort.{Record, Options, before}
use backup.Repository.DerivedRows.{Row, field}

-- The text of a row, and the file of rows.
unfoldable pub tabbed : Row → Bytes
tabbed [] = []
tabbed (value ∷ values) = tab ∷ value ++ tabbed values

unfoldable pub row_line : Row → Bytes
unfolding tabbed
row_line [] = []
row_line (value ∷ values) = value ++ tabbed values

unfoldable pub rows_file : List Row → Bytes
unfolding row_line
rows_file [] = []
rows_file (row ∷ rows) = row_line row ++ lf ∷ rows_file rows

-- `bytes.Cut(record, []byte{'\t'})`: the field before the first tab, if there is one.
unfoldable pub cut_tab : Bytes → Bytes → Option Bytes
cut_tab before_tab [] = none
cut_tab before_tab (c ∷ line) =
    let rest = cut_tab (before_tab ++ c ∷ []) line in if c == tab then some before_tab else rest

abbrev pub not_empty : Option Bytes → Option Bytes
not_empty none = none
not_empty (some []) = none
not_empty (some (c ∷ key)) = some (c ∷ key)

-- The closures `firstField` and `keyFirstField`.
unfoldable pub first_field : Bytes → Option Bytes
unfolding cut_tab
first_field line = not_empty (cut_tab [] line)

-- The options of the calls.
abbrev pub by_first_field : ℕ → Options
by_first_field max_line_bytes = record {
  memory_bytes = 0;
  max_line_bytes = max_line_bytes;
  max_open_files = 0;
  unique = false;
  key = some first_field;
}

abbrev pub record_of : Row → Record
record_of row = record { content = row_line row; key = field row 0 }

-- What a reader of the sorted file gets: the rows by first field and then by text.
unfoldable pub insert_row : Row → List Row → List Row
unfolding row_line before
insert_row row [] = row ∷ []
insert_row row (next ∷ rows) =
    let inserted = insert_row row rows in
    if before (record_of next) (record_of row) then next ∷ inserted else row ∷ next ∷ rows

unfoldable pub sort_rows : List Row → List Row
unfolding insert_row
sort_rows [] = []
sort_rows (row ∷ rows) = insert_row row (sort_rows rows)

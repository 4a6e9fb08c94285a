-- ===== src/Tests/Rows.antt =====
-- Tests of rows and of the limits of their reader.
use backup.Base.{◌≡◌, refl, List, [], ◌∷◌, arith, ok, err, All, ◌++◌}
use backup.Base.Bytes.{codes, Bytes, contains, equal, has_prefix, less, trim_prefix}
use backup.Format.Errors.{missing_lf, empty_field, has_bom, field_bom, empty_record}
use backup.Format.Rows.{
  marshal_rows, read_rows, validate_limits, append_row, check_end, check_fields, check_line,
  cons_head, last_token, marshal_fields, marshal_row, scan_lines, scan_rows, split_fields,
  validate_raw_field, visit_lines,
}
use backup.Format.Rows.Split.{rows_text}
use backup.Format.Rows.RoundTrip.{FitsLimits, reader, read_rows-marshal_rows}
use backup.Format.Rows.Canonical.{IsReadRow, rows_text-read_rows}
use backup.Tests.Data.{limits}
use backup.Format.Utf8.{continues, lead, utf8_valid}

abbrev rows : List (List Bytes)
rows = (codes "name" ∷ codes "a b" ∷ []) ∷ (codes "x" ∷ []) ∷ []

abbrev text : Bytes
text = codes "name\ta b\nx\n"

marshal_rows-rows : marshal_rows rows ≡ ok text
unfolding equal less contains has_prefix trim_prefix marshal_rows marshal_row marshal_fields
    validate_raw_field utf8_valid lead continues
marshal_rows-rows = refl

read_rows-text : read_rows (reader text) limits ≡ ok rows
unfolding equal less contains has_prefix trim_prefix read_rows append_row scan_rows visit_lines
    check_line check_end check_fields split_fields cons_head scan_lines last_token validate_limits
    utf8_valid lead continues
read_rows-text = refl

errors :
    (read_rows (reader (codes "a\nb")) limits ≡ err missing_lf)
    × (read_rows (reader (codes "a\t\tb\n")) limits ≡ err empty_field)
    × (read_rows (reader (codes "a\n\nb\n")) limits ≡ err empty_record)
    × (read_rows (reader (0xef ∷ 0xbb ∷ 0xbf ∷ codes "a\n")) limits ≡ err has_bom)
unfolding equal less contains has_prefix trim_prefix read_rows append_row scan_rows visit_lines
    check_line check_end check_fields split_fields cons_head scan_lines last_token validate_limits
    utf8_valid lead continues
errors = (refl, refl, refl, refl)

-- A byte order mark behind the first field is read, but is not written.
bom_inside :
    (read_rows (reader (codes "a\t" ++ (0xef ∷ 0xbb ∷ 0xbf ∷ codes "b\n"))) limits
      ≡ ok ((codes "a" ∷ (0xef ∷ 0xbb ∷ 0xbf ∷ codes "b") ∷ []) ∷ []))
    × (marshal_rows ((codes "a" ∷ (0xef ∷ 0xbb ∷ 0xbf ∷ codes "b") ∷ []) ∷ []) ≡ err field_bom)
unfolding equal less contains has_prefix trim_prefix read_rows append_row scan_rows visit_lines
    check_line check_end check_fields split_fields cons_head scan_lines last_token validate_limits
    marshal_rows marshal_row marshal_fields validate_raw_field utf8_valid lead continues
bom_inside = (refl, refl)

fits : FitsLimits limits rows
unfolding validate_limits
fits = record {
  positive = refl;
  each = (
    record { line = omega arith; fields = (omega arith, (omega arith, tt)) },
    (record { line = omega arith; fields = (omega arith, tt) }, tt),
  );
  count = omega arith;
  size = omega arith;
}

read_rows-marshal_rows_example : read_rows (reader text) limits ≡ ok rows
read_rows-marshal_rows_example = read_rows-marshal_rows limits rows marshal_rows-rows fits

rows_text-read_rows_example : (rows_text rows ≡ text) × All IsReadRow rows
rows_text-read_rows_example = rows_text-read_rows (reader text) limits read_rows-text

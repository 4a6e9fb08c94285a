-- ===== src/Format/Rows.antt =====
-- internal/format/canonical.go: rows of tab-separated fields, a line to each, and the limits under
-- which they are read.
-- A reader is the bytes that it delivers and whether it then fails; a limit that is not positive
-- is 0, since the code only refuses it. The chunks in which a reader delivers do not matter.
pub mod Split
pub mod RoundTrip
pub mod Unique
pub mod Lines
pub mod Canonical
use backup.Base.{
  ℕ, zero, suc, ◌+◌, Bool, true, false, not, ◌&&◌, ◌||◌, List, [], ◌∷◌, ◌++◌, ltb, leb, ◌==◌,
  if◌then◌else◌, length, take, last_or, Result, ok, err, ◌>>=◌, ◌>>◌, require, refuse,
}
use backup.Base.Bytes.{Bytes, tab, lf, cr, has_prefix, contains}
use backup.Format.Errors.{
  Error, limits_not_positive, line_over_file, field_over_line, line_too_long, too_many_records,
  not_utf8, has_bom, empty_record, forbidden_control, empty_field, field_too_long, read_failed,
  file_too_large, missing_lf, no_fields, field_not_utf8, field_control, field_bom, field_count,
}
use backup.Format.Utf8.{utf8_valid}

-- `Limits`
pub record Limits : Type 0 where
  pub max_file_bytes : ℕ
  pub max_line_bytes : ℕ
  pub max_field_bytes : ℕ
  pub max_records : ℕ

-- `DefaultLimits`
abbrev pub default_limits : Limits
default_limits = record {
  max_file_bytes = 9223372036854775807;
  max_line_bytes = 16384;
  max_field_bytes = 8192;
  max_records = 9223372036854775807;
}

-- `Limits.validate`
unfoldable pub validate_limits : Limits → Result Error (Unit {0})
validate_limits limits = do
  refuse
      (limits.max_file_bytes == 0
        || limits.max_line_bytes == 0
        || limits.max_field_bytes == 0
        || limits.max_records == 0)
      limits_not_positive
  refuse (ltb limits.max_file_bytes limits.max_line_bytes) line_over_file
  refuse (ltb limits.max_line_bytes limits.max_field_bytes) field_over_line

pub record Reader : Type 0 where
  pub bytes : Bytes
  pub fails : Bool

-- What `trackedReader` lets through, and `over`: more bytes than `max` were there.
abbrev pub delivered : Limits → Reader → Bytes
delivered limits input = take limits.max_file_bytes input.bytes

abbrev pub over : Limits → Reader → Bool
over limits input = ltb limits.max_file_bytes (length input.bytes)

-- What the scanner hands out: its tokens, and whether it stopped at a line over its buffer.
pub record Tokens : Type 0 where
  pub lines : List Bytes
  pub too_long : Bool

abbrev pub push : Bytes → Tokens → Tokens
push line t = record t { lines = line ∷ t.lines }

-- At the end of the input what is left is a token, if it is not empty.
unfoldable pub last_token : Bytes → Tokens
last_token [] = record { lines = []; too_long = false }
last_token (c ∷ line) = record { lines = (c ∷ line) ∷ []; too_long = false }

-- `bufio.Scanner` with `splitLF` and a buffer of `max + 1` bytes; `line` is the token so far.
unfoldable pub scan_lines : ℕ → Bytes → Bytes → Tokens
unfolding last_token
scan_lines max line [] = last_token line
scan_lines max line (c ∷ s) = elim (c == lf) [
  | true ↦ push line (scan_lines max [] s)
  | false ↦ elim (ltb (length line) max) [
    | true ↦ scan_lines max (line ++ c ∷ []) s
    | false ↦ record { lines = []; too_long = true }
  ]
]

unfoldable pub cons_head : ℕ → List Bytes → List Bytes
cons_head c [] = (c ∷ []) ∷ []
cons_head c (field ∷ fields) = (c ∷ field) ∷ fields

-- `bytes.Split(line, []byte{'\t'})`
unfoldable pub split_fields : Bytes → List Bytes
unfolding cons_head
split_fields [] = [] ∷ []
split_fields (c ∷ line) =
    let rest = split_fields line in if c == tab then [] ∷ rest else cons_head c rest

abbrev pub bom : Bytes
bom = 0xef ∷ 0xbb ∷ 0xbf ∷ []

unfoldable pub check_fields : Limits → List Bytes → Result Error (Unit {0})
check_fields limits [] = ok tt
check_fields limits (field ∷ fields) = do
  refuse (length field == 0) empty_field
  refuse (ltb limits.max_field_bytes (length field)) field_too_long
  check_fields limits fields

-- The body of the loop of `scanRows`, before the visit; `seen` records precede the line.
unfoldable pub check_line : Limits → ℕ → Bytes → Result Error (List Bytes)
unfolding check_fields
check_line limits seen line = do
  refuse (ltb limits.max_line_bytes (length line)) line_too_long
  refuse (leb limits.max_records seen) too_many_records
  require (utf8_valid line) not_utf8
  refuse (seen == 0 && has_prefix line bom) has_bom
  refuse (length line == 0) empty_record
  refuse (contains 0 line || contains cr line) forbidden_control
  check_fields limits (split_fields line)
  ok (split_fields line)

-- The checks behind the loop of `scanRows`: the scanner's error, and the last byte.
unfoldable pub check_end : Bool → Bool → Bool → Bool → Result Error (Unit {0})
check_end too_long over fails ended = do
  refuse too_long line_too_long
  refuse over file_too_large
  refuse fails read_failed
  require ended missing_lf

module _ {S : Type 0} (visit : S → ℕ → List Bytes → Result Error S) where
  -- The loop of `scanRows`; the visitor's state is passed along.
  unfoldable pub visit_lines : Limits → ℕ → List Bytes → S → Result Error S
  visit_lines limits seen [] s = ok s
  visit_lines limits seen (line ∷ lines) s = do
    fields ← check_line limits seen line
    s' ← visit s (seen + 1) fields
    visit_lines limits (seen + 1) lines s'

  -- `scanRows`
  unfoldable pub scan_rows : Reader → Limits → S → Result Error S
  unfolding check_end
  scan_rows input limits s = do
    validate_limits limits
    let text = delivered limits input
    let tokens = scan_lines limits.max_line_bytes [] text
    s' ← visit_lines limits 0 tokens.lines s
    check_end tokens.too_long (over limits input) input.fails (last_or lf text == lf)
    ok s'

unfoldable pub append_row : List (List Bytes) → ℕ → List Bytes → Result Error (List (List Bytes))
append_row rows seen fields = ok (rows ++ fields ∷ [])

-- `readRows`
unfoldable pub read_rows : Reader → Limits → Result Error (List (List Bytes))
unfolding append_row
read_rows input limits = scan_rows append_row input limits []

-- `validateRawField`
unfoldable pub validate_raw_field : Bytes → Result Error (Unit {0})
validate_raw_field value = do
  refuse (length value == 0) empty_field
  require (utf8_valid value) field_not_utf8
  refuse (contains 0 value || contains tab value || contains cr value || contains lf value)
      field_control
  refuse (has_prefix value bom) field_bom

-- The fields behind the first, each after a tab.
unfoldable pub marshal_fields : List Bytes → Result Error Bytes
marshal_fields [] = ok (lf ∷ [])
marshal_fields (field ∷ fields) = do
  validate_raw_field field
  rest ← marshal_fields fields
  ok (tab ∷ (field ++ rest))

unfoldable pub marshal_row : List Bytes → Result Error Bytes
unfolding marshal_fields
marshal_row [] = err no_fields
marshal_row (field ∷ fields) = do
  validate_raw_field field
  rest ← marshal_fields fields
  ok (field ++ rest)

-- `marshalRows`
unfoldable pub marshal_rows : List (List Bytes) → Result Error Bytes
marshal_rows [] = ok []
marshal_rows (row ∷ rows) = do line ← marshal_row row; rest ← marshal_rows rows; ok (line ++ rest)

-- `requireFieldCount`
unfoldable pub require_field_count : List Bytes → ℕ → Result Error (Unit {0})
require_field_count row count = require (length row == count) field_count

-- ===== src/Format/Ignore.antt =====
-- internal/format/configtext.go: the lines of a configuration file, and the ignore file. The regular
-- expressions of package regexp are a parameter: a type of expressions, and what compiles and
-- matches them.
pub mod Laws
use backup.Base.{
  ℕ, ◌+◌, Bool, true, false, ◌&&◌, ◌||◌, List, [], ◌∷◌, Option, none, some, ltb, leb, ◌==◌, length,
  last_or, if◌then◌else◌, Result, ok, err, ◌>>=◌, ◌>>◌, require, refuse,
}
use backup.Base.Bytes.{Bytes, lf, cr, equal, has_prefix, contains}
use backup.Format.Errors.{
  Error, line_too_long, too_many_records, not_utf8, has_bom, forbidden_control, bad_pattern,
}
use backup.Format.Utf8.{utf8_valid}
use backup.Format.Rows.{
  Reader, Limits, delivered, over, bom, validate_limits, scan_lines, check_end,
}

-- The checks of a line in `readConfigLines`, behind `seen` lines.
unfoldable pub check_config_line : Limits → ℕ → Bytes → Result Error (Unit {0})
check_config_line limits seen line = do
  refuse (leb limits.max_records seen) too_many_records
  refuse (ltb limits.max_line_bytes (length line)) line_too_long
  require (utf8_valid line) not_utf8
  refuse (seen == 0 && has_prefix line bom) has_bom
  refuse (contains 0 line || contains cr line) forbidden_control

unfoldable pub config_lines : Limits → ℕ → List Bytes → Result Error (List Bytes)
unfolding check_config_line
config_lines limits seen [] = ok []
config_lines limits seen (line ∷ lines) = do
  check_config_line limits seen line
  rest ← config_lines limits (seen + 1) lines
  ok (line ∷ rest)

-- `readConfigLines`
unfoldable pub read_config_lines : Reader → Limits → Result Error (List Bytes)
unfolding config_lines check_end
read_config_lines input limits = do
  validate_limits limits
  let text = delivered limits input
  let tokens = scan_lines limits.max_line_bytes [] text
  lines ← config_lines limits 0 tokens.lines
  check_end tokens.too_long (over limits input) input.fails (last_or lf text == lf)
  ok lines

-- `Ignore`
pub record Ignore (R : Type 0) : Type 0 where
  pub patterns : List Bytes
  pub compiled : List R

module _ {R : Type 0} where
  -- `ignore` with one more expression before the others.
  abbrev pub put_pattern : Bytes → R → Ignore R → Ignore R
  put_pattern line expression ignore = record {
    patterns = line ∷ ignore.patterns;
    compiled = expression ∷ ignore.compiled;
  }

  abbrev pub compiled_or : Option R → Result Error R
  compiled_or none = err bad_pattern
  compiled_or (some expression) = ok expression

  module _ (compile : Bytes → Option R) where
    -- The loop of `ParseIgnore`.
    unfoldable pub compile_lines : List Bytes → Result Error (Ignore R)
    compile_lines [] = ok (record { patterns = []; compiled = [] })
    compile_lines ([] ∷ lines) = compile_lines lines
    compile_lines ((c ∷ line) ∷ lines) = do
      expression ← compiled_or (compile (c ∷ line))
      ignore ← compile_lines lines
      ok (put_pattern (c ∷ line) expression ignore)

    -- `ParseIgnore`
    unfoldable pub parse_ignore : Reader → Limits → Result Error (Ignore R)
    parse_ignore input limits = do lines ← read_config_lines input limits; compile_lines lines

  -- The loop of `Ignore.Match`.
  unfoldable pub match_any : (R → Bytes → Bool) → List R → Bytes → Bool
  match_any match_string [] value = false
  match_any match_string (expression ∷ expressions) value =
      match_string expression value || match_any match_string expressions value

  -- `Ignore.Match`
  unfoldable pub ignores : (R → Bytes → Bool) → Ignore R → Bytes → Bool
  unfolding match_any
  ignores match_string ignore value = match_any match_string ignore.compiled value

-- ===== src/Tests/Ignore.antt =====
-- Tests of the ignore file, with prefixes for expressions, of which one does not compile.
use backup.Base.{
  Bool, ◌≡◌, ◌↔◌, refl, true, false, Option, none, some, List, [], ◌∷◌, if◌then◌else◌, ok, err,
}
use backup.Base.Bytes.{has_prefix, Bytes, codes, equal, contains, less, trim_prefix}
use backup.Format.Errors.{bad_pattern, missing_lf}
use backup.Format.Rows.Lines.{lines_text}
use backup.Format.Rows.RoundTrip.{reader}
use backup.Format.Ignore.{
  ignores, parse_ignore, Ignore, check_config_line, compile_lines, config_lines, match_any,
  read_config_lines,
}
use backup.Format.Ignore.Laws.{MatchedBy, parse_ignore-MatchedBy}
use backup.Tests.Data.{limits}
use backup.Format.Utf8.{continues, lead, utf8_valid}
use backup.Format.Rows.{check_end, last_token, scan_lines, validate_limits}

abbrev pub compile : Bytes → Option Bytes
compile line = if equal line (codes "(") then none else some line

abbrev match_string : Bytes → Bytes → Bool
match_string expression value = has_prefix value expression

abbrev text : Bytes
text = codes "./tmp\n\n./cache\n"

abbrev ignore : Ignore Bytes
ignore = record {
  patterns = codes "./tmp" ∷ codes "./cache" ∷ [];
  compiled = codes "./tmp" ∷ codes "./cache" ∷ [];
}

parsed_text : parse_ignore compile (reader text) limits ≡ ok ignore
unfolding equal less contains has_prefix trim_prefix utf8_valid lead continues validate_limits
    scan_lines last_token check_end check_config_line config_lines read_config_lines compile_lines
    parse_ignore match_any ignores
parsed_text = refl

errors :
    (parse_ignore compile (reader (codes "a\n(\n")) limits ≡ err bad_pattern)
    × (parse_ignore compile (reader (codes "a\nb")) limits ≡ err missing_lf)
unfolding equal less contains has_prefix trim_prefix utf8_valid lead continues validate_limits
    scan_lines last_token check_end check_config_line config_lines read_config_lines compile_lines
    parse_ignore match_any ignores
errors = (refl, refl)

matches_values :
    (ignores match_string ignore (codes "./cache/x") ≡ true)
    × (ignores match_string ignore (codes "./src") ≡ false)
unfolding equal less contains has_prefix trim_prefix check_config_line config_lines
    read_config_lines compile_lines parse_ignore match_any ignores
matches_values = (refl, refl)

parse_ignore-MatchedBy_example :
    (lines : List Bytes) × (lines_text lines ≡ text)
    × ((value : Bytes)
        → (ignores match_string ignore value ≡ true) ↔ MatchedBy compile match_string lines value)
parse_ignore-MatchedBy_example =
    parse_ignore-MatchedBy compile match_string (reader text) limits parsed_text

-- ===== src/Tests/Objects.antt =====
-- Tests of objects.tsv.
use backup.Base.{◌≡◌, refl, List, [], ◌∷◌, ◌++◌, map, arith, ok, err, All}
use backup.Base.Bytes.{codes, Bytes, contains, equal, has_prefix, less, trim_prefix}
use backup.Format.Errors.{not_sorted}
use backup.Format.Rows.{
  validate_limits, append_row, check_end, check_fields, check_line, cons_head, last_token,
  marshal_fields, marshal_row, marshal_rows, read_rows, scan_lines, scan_rows, split_fields,
  validate_raw_field, visit_lines,
}
use backup.Format.Rows.RoundTrip.{FitsLimits, reader}
use backup.Format.Objects.{
  ObjectEntry, validate_object_entry, object_row, object_not_after, object_rows, marshal_objects,
  parse_object_row, advance_object, walk_objects, parse_objects,
}
use backup.Format.Objects.Laws.{
  IsObject, parse_objects-marshal_objects, marshal_objects-parse_objects,
}
use backup.Tests.Data.{limits, hash_a, hash_b}
use backup.Format.Decimal.{
  all_digits, canonical_negative, canonical_signed, canonical_unsigned, digits, int_text, negative,
  nonnegative, parse_digits, parse_int64, parse_integer, parse_uint, uint_text, value_from,
  within_text,
}
use backup.Format.Utf8.{continues, lead, utf8_valid}
use backup.Format.Patterns.{
  blake2b_pattern, commit_pattern, is_hex, matches, md5_pattern, object_id_pattern, sha256_pattern,
  uuid_pattern,
}
use backup.Format.Tables.{collect, visit_entry, walk}

abbrev entry : ObjectEntry
entry = record { plaintext_hash = hash_a; plaintext_size = 7; pack_hash = hash_b }

abbrev entries : List ObjectEntry
entries = entry ∷ record { plaintext_hash = hash_b; plaintext_size = 0; pack_hash = hash_b } ∷ []

abbrev text : Bytes
text =
    hash_a
    ++ codes "\t7\t"
    ++ hash_b
    ++ codes "\n"
    ++ hash_b
    ++ codes "\t0\t"
    ++ hash_b
    ++ codes "\n"

marshal_objects-entries : marshal_objects entries ≡ ok text
unfolding equal less contains has_prefix trim_prefix parse_uint parse_digits canonical_unsigned
    all_digits within_text value_from digits uint_text parse_int64 int_text canonical_signed
    canonical_negative negative nonnegative parse_integer marshal_rows marshal_row marshal_fields
    validate_raw_field utf8_valid lead continues matches is_hex object_id_pattern md5_pattern
    sha256_pattern commit_pattern blake2b_pattern uuid_pattern marshal_objects object_rows
    object_row object_not_after validate_object_entry
marshal_objects-entries = refl

parse_objects-text : parse_objects (reader text) limits ≡ ok entries
unfolding equal less contains has_prefix trim_prefix parse_uint parse_digits canonical_unsigned
    all_digits within_text value_from digits uint_text parse_int64 int_text canonical_signed
    canonical_negative negative nonnegative parse_integer read_rows append_row scan_rows visit_lines
    check_line check_end check_fields split_fields cons_head scan_lines last_token validate_limits
    utf8_valid lead continues matches is_hex object_id_pattern md5_pattern sha256_pattern
    commit_pattern blake2b_pattern uuid_pattern walk visit_entry collect parse_objects walk_objects
    parse_object_row advance_object validate_object_entry
parse_objects-text = refl

unsorted : marshal_objects (entry ∷ entry ∷ []) ≡ err not_sorted
unfolding equal less contains has_prefix trim_prefix parse_uint parse_digits canonical_unsigned
    all_digits within_text value_from digits uint_text parse_int64 int_text canonical_signed
    canonical_negative negative nonnegative parse_integer marshal_rows marshal_row marshal_fields
    validate_raw_field utf8_valid lead continues matches is_hex object_id_pattern md5_pattern
    sha256_pattern commit_pattern blake2b_pattern uuid_pattern marshal_objects object_rows
    object_row object_not_after validate_object_entry
unsorted = refl

fits : FitsLimits limits (map object_row entries)
unfolding parse_uint parse_digits canonical_unsigned all_digits within_text value_from digits
    uint_text parse_int64 int_text canonical_signed canonical_negative negative nonnegative
    parse_integer equal less contains has_prefix trim_prefix validate_limits object_row
fits = record {
  positive = refl;
  each = (
    record { line = omega arith; fields = (omega arith, (omega arith, (omega arith, tt))) },
    (record { line = omega arith; fields = (omega arith, (omega arith, (omega arith, tt))) }, tt),
  );
  count = omega arith;
  size = omega arith;
}

parse_objects-marshal_objects_example : parse_objects (reader text) limits ≡ ok entries
parse_objects-marshal_objects_example =
    parse_objects-marshal_objects limits entries marshal_objects-entries
      (omega arith, (omega arith, tt)) fits

marshal_objects-parse_objects_example : (marshal_objects entries ≡ ok text) × All IsObject entries
marshal_objects-parse_objects_example =
    marshal_objects-parse_objects (reader text) limits parse_objects-text

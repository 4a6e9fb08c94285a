-- ===== src/Tests/Index.antt =====
-- Tests of index.tsv and of its paths.
use backup.Base.{◌≡◌, ◌↔◌, refl, List, [], ◌∷◌, ◌++◌, map, arith, ok, err, All}
use backup.Base.Bytes.{Bytes, codes, contains, equal, has_prefix, less, trim_prefix}
use backup.Format.Errors.{leaf_is_ancestor, noncanonical_path, absolute_path, bad_component}
use backup.Format.Decimal.{
  pos, negsuc, all_digits, canonical_negative, canonical_signed, canonical_unsigned, digits,
  int_text, negative, nonnegative, parse_digits, parse_int64, parse_integer, parse_uint, uint_text,
  value_from, within_text,
}
use backup.Format.Paths.{
  validate_path, after_slash, check_components, clean, clean_components, cons_component, join_slash,
  or_dot, split_slash, step_back, turn, validate_symlink_target,
}
use backup.Format.Paths.Components.{IsPath, validate_path_iff}
use backup.Format.Rows.{
  validate_limits, validate_raw_field, append_row, check_end, check_fields, check_line, cons_head,
  last_token, marshal_fields, marshal_row, marshal_rows, read_rows, scan_lines, scan_rows,
  split_fields, visit_lines,
}
use backup.Format.Rows.RoundTrip.{FitsLimits, reader}
use backup.Format.Index.{
  marshal_index, kind_symlink, parse_symlink, parse_mode, parse_file, parse_index_row,
  advance_index, walk_index, member, IndexEntry, index_fields, kind_file, parse_index,
  validate_index_order, any_member, before_last_slash, check_order, index_row, index_rows,
  mode_text, not_after, parents_in, validate_file, validate_index_entry, validate_symlink,
}
use backup.Format.Index.Order.{AllSeparate, validate_index_order_iff}
use backup.Format.Index.Rows.{HasWidths}
use backup.Format.Index.Laws.{parse_index-marshal_index, marshal_index-parse_index}
use backup.Tests.Data.{limits, hash_a}
use backup.Format.Utf8.{continues, lead, utf8_valid}
use backup.Format.Patterns.{
  blake2b_pattern, commit_pattern, is_hex, matches, md5_pattern, object_id_pattern, sha256_pattern,
  uuid_pattern,
}
use backup.Format.Tables.{collect, visit_entry, walk}

abbrev file : IndexEntry
file = record {
  path = codes "./a/b.txt";
  kind = kind_file;
  ref = codes "blake2b:" ++ hash_a;
  size = 7;
  mode = 0o644;
  mtime_ns = negsuc 4;
}

abbrev link : IndexEntry
link = record {
  path = codes "./a/c";
  kind = kind_symlink;
  ref = codes "target:./a/b.txt";
  size = 0;
  mode = 0;
  mtime_ns = pos 0;
}

abbrev entries : List IndexEntry
entries = file ∷ link ∷ []

abbrev text : Bytes
text =
    codes "./a/b.txt\tfile\tblake2b:"
    ++ hash_a
    ++ codes "\t7\t0644\t-5\n"
    ++ codes "./a/c\tsymlink\ttarget:./a/b.txt\t0\t-\t-\n"

marshal_index-entries : marshal_index entries ≡ ok text
unfolding equal less contains has_prefix trim_prefix parse_uint parse_digits canonical_unsigned
    all_digits within_text value_from digits uint_text parse_int64 int_text canonical_signed
    canonical_negative negative nonnegative parse_integer marshal_rows marshal_row marshal_fields
    validate_raw_field utf8_valid lead continues matches is_hex object_id_pattern md5_pattern
    sha256_pattern commit_pattern blake2b_pattern uuid_pattern validate_path validate_symlink_target
    check_components clean clean_components step_back turn or_dot split_slash join_slash after_slash
    cons_component validate_index_entry validate_file validate_symlink index_row index_fields
    index_rows mode_text validate_index_order check_order not_after any_member member parents_in
    before_last_slash marshal_index
marshal_index-entries = refl

parse_index-text : parse_index (reader text) limits ≡ ok entries
unfolding equal less contains has_prefix trim_prefix parse_uint parse_digits canonical_unsigned
    all_digits within_text value_from digits uint_text parse_int64 int_text canonical_signed
    canonical_negative negative nonnegative parse_integer read_rows append_row scan_rows visit_lines
    check_line check_end check_fields split_fields cons_head scan_lines last_token validate_limits
    utf8_valid lead continues matches is_hex object_id_pattern md5_pattern sha256_pattern
    commit_pattern blake2b_pattern uuid_pattern validate_path validate_symlink_target
    check_components clean clean_components step_back turn or_dot split_slash join_slash after_slash
    cons_component validate_index_entry validate_file validate_symlink index_row index_fields
    index_rows mode_text validate_index_order check_order not_after any_member member parents_in
    before_last_slash walk visit_entry collect validate_raw_field parse_index walk_index
    parse_index_row parse_file parse_symlink parse_mode advance_index
parse_index-text = refl

-- A file under a path that is an entry itself, even with another entry between them.
ancestor :
    validate_index_order
      (record file { path = codes "./a" } ∷ record file { path = codes "./a-b" } ∷ file ∷ [])
    ≡ err leaf_is_ancestor
unfolding equal less contains has_prefix trim_prefix validate_index_entry validate_file
    validate_symlink index_row index_fields index_rows mode_text validate_index_order check_order
    not_after any_member member parents_in before_last_slash
ancestor = refl

bad_paths :
    (validate_path (codes "./a//b") ≡ err noncanonical_path)
    × (validate_path (codes "./a/../b") ≡ err noncanonical_path)
    × (validate_path (codes "./..") ≡ err absolute_path)
    × (validate_path (codes "./../b") ≡ err bad_component)
    × (validate_path (codes ".//b") ≡ err absolute_path)
unfolding equal less contains has_prefix trim_prefix utf8_valid lead continues validate_path
    validate_symlink_target check_components clean clean_components step_back turn or_dot
    split_slash join_slash after_slash cons_component validate_raw_field
bad_paths = (refl, refl, refl, refl, refl)

fits : FitsLimits limits (map index_fields entries)
unfolding parse_uint parse_digits canonical_unsigned all_digits within_text value_from digits
    uint_text parse_int64 int_text canonical_signed canonical_negative negative nonnegative
    parse_integer equal less contains has_prefix trim_prefix validate_index_entry validate_file
    validate_symlink index_row index_fields index_rows mode_text validate_index_order check_order
    not_after any_member member parents_in before_last_slash validate_limits
fits = record {
  positive = refl;
  each = (
    record {
      line = omega arith;
      fields = (
        omega arith,
        (omega arith, (omega arith, (omega arith, (omega arith, (omega arith, tt))))),
      );
    },
    (
      record {
        line = omega arith;
        fields = (
          omega arith,
          (omega arith, (omega arith, (omega arith, (omega arith, (omega arith, tt))))),
        );
      },
      tt,
    ),
  );
  count = omega arith;
  size = omega arith;
}

widths : All HasWidths entries
widths = (
  record { size = omega arith; mtime_ns = omega arith },
  (record { size = omega arith; mtime_ns = omega arith }, tt),
)

parse_index-marshal_index_example : parse_index (reader text) limits ≡ ok entries
parse_index-marshal_index_example =
    parse_index-marshal_index limits entries marshal_index-entries widths fits

marshal_index-parse_index_example : (marshal_index entries ≡ ok text) × All HasWidths entries
marshal_index-parse_index_example = marshal_index-parse_index (reader text) limits parse_index-text

validate_index_order_iff_example : (validate_index_order entries ≡ ok tt) ↔ AllSeparate entries
validate_index_order_iff_example = validate_index_order_iff entries (omega arith, (omega arith, tt))

validate_path_iff_example :
    (validate_path (codes "./a/b") ≡ ok tt) ↔ ((relative : Bytes) × IsPath (codes "./a/b") relative)
validate_path_iff_example = validate_path_iff (codes "./a/b")

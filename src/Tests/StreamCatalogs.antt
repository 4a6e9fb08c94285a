-- ===== src/Tests/StreamCatalogs.antt =====
-- Tests of the catalogs of a snapshot, from their texts and as their references are sorted and merged.
use backup.Base.{
  All, Bool, List, [], and_true, arith, err, length, ltb, map, ok, refl, true, ◌&&◌, ◌<◌, ◌^◌, ◌↔◌,
  ◌∷◌, ◌≡◌,
}
use backup.Base.Bytes.{Bytes, codes, contains, equal, has_prefix, less, trim_prefix}
use backup.Extsort.{before}
use backup.Repository.DerivedRows.{leaf_above}
use backup.Repository.Sorting.{insert_row, row_line, sort_rows, tabbed}
use backup.Repository.AncestorEvents.{
  all_events, ancestor_events, hex_text, scan_events, validate_ancestor_events, visit_event,
}
use backup.Repository.AncestorEvents.Order.{IsByte}
use backup.Repository.AncestorEvents.Laws.{NoneAbove, validate_ancestor_events_iff}
use backup.Repository.StreamCatalogs.{validate_stream_catalogs, written}
use backup.Format.Rows.{
  append_row, check_end, check_fields, check_line, cons_head, last_token, marshal_fields,
  marshal_row, marshal_rows, read_rows, require_field_count, scan_lines, scan_rows, split_fields,
  validate_limits, validate_raw_field, visit_lines,
}
use backup.Format.Rows.Split.{rows_text}
use backup.Format.Rows.RoundTrip.{reader}
use backup.Format.Index.{
  advance_index, any_member, before_last_slash, check_order, index_fields, index_row, index_rows,
  member, mode_text, not_after, parents_in, parse_file, parse_index, parse_index_row, parse_mode,
  parse_symlink, validate_file, validate_index_entry, validate_index_order, validate_symlink,
  walk_index,
}
use backup.Format.Objects.{
  advance_object, object_not_after, object_row, parse_object_row, parse_objects,
  validate_object_entry, walk_objects,
}
use backup.Format.Packs.{
  advance_pack, check_place, check_sequence, finish_packs, last_for_pack, pack_fields,
  parse_pack_row, parse_packs, validate_pack_entry, validate_pack_sequence, walk_packs,
}
use backup.Format.Catalogs.{
  check_objects, check_reference, check_references, check_size, find_object, has_pack,
  store_objects, validate_catalogs,
}
use backup.Repository.StreamCatalogs.Texts.{IsParsed, validate_stream_catalogs_iff}
use backup.Tests.Data.{limits}
use backup.Tests.Catalogs.{index, object, packs}
use backup.Format.Utf8.{continues, lead, utf8_valid}
use backup.Format.Patterns.{
  blake2b_pattern, commit_pattern, is_hex, matches, md5_pattern, object_id_pattern, sha256_pattern,
  uuid_pattern,
}
use backup.Format.Paths.{
  after_slash, check_components, clean, clean_components, cons_component, join_slash, or_dot,
  split_slash, step_back, turn, validate_path, validate_symlink_target,
}
use backup.Format.Decimal.{
  all_digits, canonical_negative, canonical_signed, canonical_unsigned, digits, int_text, negative,
  nonnegative, parse_digits, parse_int64, parse_integer, parse_uint, uint_text, value_from,
  within_text,
}
use backup.Format.Tables.{collect, visit_entry, walk}

abbrev two_paths : List Bytes
two_paths = codes "./a/b" ∷ codes "./a0" ∷ []

two_paths-IsByte : All (All IsByte) two_paths
two_paths-IsByte = (
  (omega arith, (omega arith, (omega arith, (omega arith, (omega arith, tt))))),
  ((omega arith, (omega arith, (omega arith, (omega arith, tt)))), tt),
)

validate_ancestor_events_iff_example :
    (validate_ancestor_events (written (sort_rows (all_events two_paths))) ≡ ok tt)
    ↔ NoneAbove two_paths
validate_ancestor_events_iff_example =
    validate_ancestor_events_iff two_paths two_paths-IsByte (omega arith)

-- A leaf that stands above another is found, wherever it comes.
above :
    (validate_ancestor_events (written (sort_rows (all_events two_paths))) ≡ ok tt)
    × (validate_ancestor_events (written (sort_rows (all_events (codes "./a" ∷ two_paths))))
        ≡ err leaf_above)
unfolding equal less before tabbed row_line insert_row sort_rows hex_text ancestor_events all_events
    visit_event scan_events validate_ancestor_events
above = (refl, refl)

-- The catalogs of a repository of one file.
abbrev pub index_text : Bytes
index_text = rows_text (map index_fields index)

abbrev pub objects_text : Bytes
objects_text = rows_text (map object_row (object ∷ []))

abbrev pub packs_text : Bytes
packs_text = rows_text (map pack_fields packs)

catalogs-IsParsed : IsParsed limits (reader index_text) (reader objects_text) (reader packs_text)
unfolding equal less contains has_prefix trim_prefix utf8_valid lead continues matches is_hex
    object_id_pattern md5_pattern sha256_pattern commit_pattern blake2b_pattern uuid_pattern
    validate_path validate_symlink_target check_components clean clean_components step_back turn
    or_dot split_slash join_slash after_slash cons_component marshal_rows marshal_row marshal_fields
    validate_raw_field read_rows append_row scan_rows visit_lines check_line check_end check_fields
    split_fields cons_head scan_lines last_token validate_limits parse_uint parse_digits
    canonical_unsigned all_digits within_text value_from digits uint_text parse_int64 int_text
    canonical_signed canonical_negative negative nonnegative parse_integer walk visit_entry collect
    validate_index_entry validate_file validate_symlink index_row index_fields index_rows mode_text
    validate_index_order check_order not_after any_member member parents_in before_last_slash
    validate_object_entry object_not_after validate_pack_entry validate_pack_sequence check_sequence
    check_place last_for_pack parse_index parse_objects parse_packs object_row pack_fields
    walk_index walk_objects walk_packs parse_index_row parse_object_row parse_pack_row advance_index
    advance_object advance_pack finish_packs parse_mode parse_file parse_symlink validate_catalogs
    store_objects check_objects has_pack check_references check_reference check_size find_object
    require_field_count
catalogs-IsParsed = record {
  entries = index;
  object_entries = object ∷ [];
  pack_entries = packs;
  index_parsed = refl;
  objects_parsed = refl;
  packs_parsed = refl;
  valid = refl;
}

abbrev all_bytes : Bytes → Bool
all_bytes [] = true
all_bytes (c ∷ bytes) = ltb c 256 && all_bytes bytes

all_bytes-All : (bytes : Bytes) → all_bytes bytes ≡ true → All IsByte bytes
all_bytes-All [] h = tt
all_bytes-All (c ∷ bytes) h =
    let (low, rest) = and_true (ltb c 256) (all_bytes bytes) h in
    (ground arith, all_bytes-All bytes rest)

pub index-IsByte : All IsByte index_text
unfolding marshal_rows marshal_row marshal_fields validate_raw_field parse_uint parse_digits
    canonical_unsigned all_digits within_text value_from digits uint_text parse_int64 int_text
    canonical_signed canonical_negative negative nonnegative parse_integer index_fields mode_text
    equal
index-IsByte = all_bytes-All index_text refl

pub index-few : length index_text < 2 ^ 63
unfolding marshal_rows marshal_row marshal_fields validate_raw_field parse_uint parse_digits
    canonical_unsigned all_digits within_text value_from digits uint_text parse_int64 int_text
    canonical_signed canonical_negative negative nonnegative parse_integer index_fields mode_text
    equal
index-few = omega arith

validate_stream_catalogs_iff_example :
    (validate_stream_catalogs limits (reader index_text) (reader objects_text) (reader packs_text)
      ≡ ok tt)
    ↔ IsParsed limits (reader index_text) (reader objects_text) (reader packs_text)
validate_stream_catalogs_iff_example =
    validate_stream_catalogs_iff limits (reader index_text) (reader objects_text)
      (reader packs_text) index-IsByte index-few

pub catalogs-valid :
    validate_stream_catalogs limits (reader index_text) (reader objects_text) (reader packs_text)
    ≡ ok tt
catalogs-valid =
    (validate_stream_catalogs_iff limits (reader index_text) (reader objects_text)
        (reader packs_text) index-IsByte index-few).1
      catalogs-IsParsed

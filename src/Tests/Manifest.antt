-- ===== src/Tests/Manifest.antt =====
-- Tests of metadata manifests.
use backup.Base.{ℕ, ◌<◌, ◌≤◌, ◌≡◌, refl, [], ◌∷◌, ◌++◌, arith, ok, err, All}
use backup.Base.Bytes.{Bytes, codes, contains, equal, has_prefix, less, trim_prefix}
use backup.Format.Errors.{bad_total, part_overflow, bad_sequence}
use backup.Format.Rows.{
  validate_limits, require_field_count, append_row, check_end, check_fields, check_line, cons_head,
  last_token, marshal_fields, marshal_row, marshal_rows, read_rows, scan_lines, scan_rows,
  split_fields, validate_raw_field, visit_lines,
}
use backup.Format.Rows.RoundTrip.{FitsLimits, reader}
use backup.Format.Manifest.{
  parse_part, parse_manifest, manifest_limits, check_tags, parse_manifest_rows, parse_parts,
  ManifestPart, bundle_full, manifest_rows, unmarshal_manifest, marshal_manifest, validate_manifest,
  MetadataManifest, add_part, add_parts, part_row, validate_kind,
}
use backup.Format.Manifest.Sizes.{Numbered, sum_sizes, validate_manifest-Numbered}
use backup.Format.Manifest.RoundTrip.{HasWidths, parse_manifest-marshal_manifest}
use backup.Format.Manifest.Canonical.{marshal_manifest-parse_manifest}
use backup.Tests.Data.{limits, hash_a, hash_b, sha, commit, digest, id}
use backup.Format.Patterns.{
  blake2b_pattern, commit_pattern, is_hex, matches, md5_pattern, object_id_pattern, sha256_pattern,
  uuid_pattern,
}
use backup.Format.Decimal.{
  all_digits, canonical_negative, canonical_signed, canonical_unsigned, digits, int_text, negative,
  nonnegative, parse_digits, parse_int64, parse_integer, parse_uint, uint_text, value_from,
  within_text,
}
use backup.Format.Utf8.{continues, lead, utf8_valid}

abbrev part : ℕ → ℕ → ManifestPart
part number size = record {
  number = number;
  count = 2;
  object_id = id;
  hash = hash_b;
  sha256 = sha;
  md5 = digest;
  size = size;
}

abbrev manifest : MetadataManifest
manifest = record {
  repository_uuid = codes "0f8fad5b-d9cb-469f-a165-70867728950e";
  sequence = 0;
  base_commit = codes "-";
  tip_commit = commit;
  kind = bundle_full;
  bundle_hash = hash_a;
  bundle_size = 7;
  parts = part 0 5 ∷ part 1 2 ∷ [];
}

abbrev part_text : Bytes
part_text = id ++ codes "\t" ++ hash_b ++ codes "\t" ++ sha ++ codes "\t" ++ digest ++ codes "\t"

abbrev text : Bytes
text =
    codes "repository-uuid\t0f8fad5b-d9cb-469f-a165-70867728950e\nmanifest-format\t1\nsequence\t0\n"
    ++ codes "base-commit\t-\ntip-commit\t"
    ++ commit
    ++ codes "\nkind\tfull\nbundle-blake2b\t"
    ++ hash_a
    ++ codes "\nbundle-size\t7\npart-count\t2\npart\t0\t2\t"
    ++ part_text
    ++ codes "5\npart\t1\t2\t"
    ++ part_text
    ++ codes "2\n"

valid : validate_manifest manifest ≡ ok tt
unfolding equal less contains has_prefix trim_prefix matches is_hex object_id_pattern md5_pattern
    sha256_pattern commit_pattern blake2b_pattern uuid_pattern validate_manifest validate_kind
    add_parts add_part manifest_rows part_row manifest_limits
valid = refl

errors :
    (validate_manifest (record manifest { bundle_size = 8 }) ≡ err bad_total)
    × (validate_manifest (record manifest { sequence = 1 }) ≡ err bad_sequence)
    × (validate_manifest (record manifest { parts = part 0 18446744073709551615 ∷ part 1 8 ∷ [] })
        ≡ err part_overflow)
unfolding equal less contains has_prefix trim_prefix matches is_hex object_id_pattern md5_pattern
    sha256_pattern commit_pattern blake2b_pattern uuid_pattern validate_manifest validate_kind
    add_parts add_part manifest_rows part_row manifest_limits
errors = (refl, refl, refl)

marshal_manifest-manifest : marshal_manifest manifest ≡ ok text
unfolding equal less contains has_prefix trim_prefix parse_uint parse_digits canonical_unsigned
    all_digits within_text value_from digits uint_text parse_int64 int_text canonical_signed
    canonical_negative negative nonnegative parse_integer marshal_rows marshal_row marshal_fields
    validate_raw_field utf8_valid lead continues matches is_hex object_id_pattern md5_pattern
    sha256_pattern commit_pattern blake2b_pattern uuid_pattern validate_manifest validate_kind
    add_parts add_part manifest_rows part_row manifest_limits marshal_manifest
marshal_manifest-manifest = refl

parse_manifest-text : parse_manifest (reader text) limits ≡ ok manifest
unfolding equal less contains has_prefix trim_prefix parse_uint parse_digits canonical_unsigned
    all_digits within_text value_from digits uint_text parse_int64 int_text canonical_signed
    canonical_negative negative nonnegative parse_integer read_rows append_row scan_rows visit_lines
    check_line check_end check_fields split_fields cons_head scan_lines last_token validate_limits
    utf8_valid lead continues matches is_hex object_id_pattern md5_pattern sha256_pattern
    commit_pattern blake2b_pattern uuid_pattern validate_manifest validate_kind add_parts add_part
    manifest_rows part_row manifest_limits require_field_count parse_manifest parse_manifest_rows
    check_tags parse_parts parse_part
parse_manifest-text = refl

unmarshal_manifest-text : unmarshal_manifest text ≡ ok manifest
unfolding equal less contains has_prefix trim_prefix parse_uint parse_digits canonical_unsigned
    all_digits within_text value_from digits uint_text parse_int64 int_text canonical_signed
    canonical_negative negative nonnegative parse_integer read_rows append_row scan_rows visit_lines
    check_line check_end check_fields split_fields cons_head scan_lines last_token validate_limits
    utf8_valid lead continues matches is_hex object_id_pattern md5_pattern sha256_pattern
    commit_pattern blake2b_pattern uuid_pattern validate_manifest validate_kind add_parts add_part
    manifest_rows part_row manifest_limits require_field_count unmarshal_manifest parse_manifest
    parse_manifest_rows check_tags parse_parts parse_part
unmarshal_manifest-text = refl

fits : FitsLimits (manifest_limits limits) (manifest_rows manifest)
unfolding parse_uint parse_digits canonical_unsigned all_digits within_text value_from digits
    uint_text parse_int64 int_text canonical_signed canonical_negative negative nonnegative
    parse_integer equal less contains has_prefix trim_prefix validate_manifest validate_kind
    add_parts add_part manifest_rows part_row manifest_limits validate_limits
fits = record {
  positive = refl;
  each = (
    record { line = omega arith; fields = (omega arith, (omega arith, tt)) },
    (
      record { line = omega arith; fields = (omega arith, (omega arith, tt)) },
      (
        record { line = omega arith; fields = (omega arith, (omega arith, tt)) },
        (
          record { line = omega arith; fields = (omega arith, (omega arith, tt)) },
          (
            record { line = omega arith; fields = (omega arith, (omega arith, tt)) },
            (
              record { line = omega arith; fields = (omega arith, (omega arith, tt)) },
              (
                record { line = omega arith; fields = (omega arith, (omega arith, tt)) },
                (
                  record { line = omega arith; fields = (omega arith, (omega arith, tt)) },
                  (
                    record { line = omega arith; fields = (omega arith, (omega arith, tt)) },
                    (
                      record {
                        line = omega arith;
                        fields = (
                          omega arith,
                          (
                            omega arith,
                            (
                              omega arith,
                              (
                                omega arith,
                                (omega arith, (omega arith, (omega arith, (omega arith, tt)))),
                              ),
                            ),
                          ),
                        );
                      },
                      (
                        record {
                          line = omega arith;
                          fields = (
                            omega arith,
                            (
                              omega arith,
                              (
                                omega arith,
                                (
                                  omega arith,
                                  (omega arith, (omega arith, (omega arith, (omega arith, tt)))),
                                ),
                              ),
                            ),
                          );
                        },
                        tt,
                      ),
                    ),
                  ),
                ),
              ),
            ),
          ),
        ),
      ),
    ),
  );
  count = omega arith;
  size = omega arith;
}

widths : All HasWidths manifest.parts
widths = (
  record { number = omega arith; count = omega arith; size = omega arith },
  (record { number = omega arith; count = omega arith; size = omega arith }, tt),
)

validate_manifest-Numbered_example :
    Numbered 2 0 manifest.parts × (0 < 2) × (2 ≤ 3869) × (sum_sizes manifest.parts ≡ 7)
validate_manifest-Numbered_example = validate_manifest-Numbered manifest valid

parse_manifest-marshal_manifest_example : parse_manifest (reader text) limits ≡ ok manifest
parse_manifest-marshal_manifest_example =
    parse_manifest-marshal_manifest limits manifest marshal_manifest-manifest (omega arith)
      (omega arith) widths fits

marshal_manifest-parse_manifest_example : marshal_manifest manifest ≡ ok text
marshal_manifest-parse_manifest_example =
    marshal_manifest-parse_manifest (reader text) limits parse_manifest-text

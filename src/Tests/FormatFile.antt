-- ===== src/Tests/FormatFile.antt =====
-- Tests of the FORMAT file.
use backup.Base.{◌≡◌, refl, ◌++◌, arith, ok, err}
use backup.Base.Bytes.{Bytes, codes, contains, equal, has_prefix, less, trim_prefix}
use backup.Format.Errors.{unsupported}
use backup.Format.Rows.{
  validate_limits, require_field_count, append_row, check_end, check_fields, check_line, cons_head,
  last_token, marshal_fields, marshal_row, marshal_rows, read_rows, scan_lines, scan_rows,
  split_fields, validate_raw_field, visit_lines,
}
use backup.Format.Rows.RoundTrip.{FitsLimits, reader}
use backup.Format.FormatFile.{
  new_repository_format, format_rows, validate_format, marshal_format, check_keys, parse_format,
}
use backup.Format.FormatFile.Laws.{parse_format-marshal_format}
use backup.Tests.Data.{limits}
use backup.Format.Utf8.{continues, lead, utf8_valid}
use backup.Format.Patterns.{
  blake2b_pattern, commit_pattern, is_hex, matches, md5_pattern, object_id_pattern, sha256_pattern,
  uuid_pattern,
}

abbrev pub uuid : Bytes
uuid = codes "0f8fad5b-d9cb-469f-a165-70867728950e"

abbrev pub format_text : Bytes
format_text =
    codes "checksum-algorithms\tblake2b-512,sha256,md5\ncompression-algorithm\tzstd\n"
    ++ codes "content-hash-algorithm\tblake2b-512\n"
    ++ codes "encryption-algorithm\tgo-libsodium-recipient-stream-v1\nformat-version\t2\n"
    ++ codes "git-object-format\tsha256\npack-format-version\t1\npack-hash-algorithm\tblake2b-512\n"
    ++ codes "repository-uuid\t"
    ++ uuid
    ++ codes "\ntar-algorithm\tposix-pax-go-archive-tar-v1\n"

marshal_format-new : marshal_format (new_repository_format uuid) ≡ ok format_text
unfolding equal less contains has_prefix trim_prefix marshal_rows marshal_row marshal_fields
    validate_raw_field utf8_valid lead continues matches is_hex object_id_pattern md5_pattern
    sha256_pattern commit_pattern blake2b_pattern uuid_pattern marshal_format validate_format
    format_rows new_repository_format
marshal_format-new = refl

validate_format-format : validate_format (new_repository_format uuid) ≡ ok tt
unfolding equal less contains has_prefix trim_prefix matches is_hex object_id_pattern md5_pattern
    sha256_pattern commit_pattern blake2b_pattern uuid_pattern validate_format new_repository_format
validate_format-format = refl

version_three :
    validate_format (record (new_repository_format uuid) { format_version = codes "3" })
    ≡ err unsupported
unfolding equal less contains has_prefix trim_prefix matches is_hex object_id_pattern md5_pattern
    sha256_pattern commit_pattern blake2b_pattern uuid_pattern validate_format new_repository_format
version_three = refl

pub parse_format-format_text :
    parse_format (reader format_text) limits ≡ ok (new_repository_format uuid)
unfolding equal less contains has_prefix trim_prefix read_rows append_row scan_rows visit_lines
    check_line check_end check_fields split_fields cons_head scan_lines last_token validate_limits
    utf8_valid lead continues matches is_hex object_id_pattern md5_pattern sha256_pattern
    commit_pattern blake2b_pattern uuid_pattern require_field_count parse_format check_keys
    validate_format format_rows new_repository_format
parse_format-format_text = refl

fits : FitsLimits limits (format_rows (new_repository_format uuid))
unfolding equal less contains has_prefix trim_prefix validate_limits format_rows
    new_repository_format
fits = record {
  positive = refl;
  each = (
    record { line = omega arith; fields = (omega arith, (omega arith, tt)) },
    (
      record { line = omega arith; fields = (omega arith, (omega arith, tt)) },
      (
        record { line = omega arith; fields = (omega arith, (omega arith, tt)) },
        (
          record { line = omega arith; fields = (omega arith, (omega arith, tt)) },
          (
            record { line = omega arith; fields = (omega arith, (omega arith, tt)) },
            (
              record { line = omega arith; fields = (omega arith, (omega arith, tt)) },
              (
                record { line = omega arith; fields = (omega arith, (omega arith, tt)) },
                (
                  record { line = omega arith; fields = (omega arith, (omega arith, tt)) },
                  (
                    record { line = omega arith; fields = (omega arith, (omega arith, tt)) },
                    (record { line = omega arith; fields = (omega arith, (omega arith, tt)) }, tt),
                  ),
                ),
              ),
            ),
          ),
        ),
      ),
    ),
  );
  count = omega arith;
  size = omega arith;
}

parse_format-marshal_format_example :
    parse_format (reader format_text) limits ≡ ok (new_repository_format uuid)
parse_format-marshal_format_example =
    parse_format-marshal_format limits (new_repository_format uuid) marshal_format-new fits

abbrev same_uuid : Bytes
same_uuid = (new_repository_format uuid).repository_uuid

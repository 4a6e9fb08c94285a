-- ===== src/Tests/Packs.antt =====
-- Tests of packs.tsv.
use backup.Base.{ℕ, ◌≡◌, refl, List, [], ◌∷◌, ◌++◌, map, arith, ok, err, All}
use backup.Base.Bytes.{codes, Bytes, contains, equal, has_prefix, less, trim_prefix}
use backup.Format.Errors.{missing_terminal, noncontiguous, bad_start}
use backup.Format.Rows.{
  validate_limits, append_row, check_end, check_fields, check_line, cons_head, last_token,
  marshal_fields, marshal_row, marshal_rows, read_rows, scan_lines, scan_rows, split_fields,
  validate_raw_field, visit_lines,
}
use backup.Format.Rows.RoundTrip.{FitsLimits, reader}
use backup.Format.Packs.{
  PackEntry, validate_pack_entry, pack_fields, pack_row, check_place, last_for_pack, check_sequence,
  validate_pack_sequence, pack_rows, marshal_packs, parse_pack_row, advance_pack, finish_packs,
  walk_packs, parse_packs,
}
use backup.Format.Packs.Laws.{HasWidths, parse_packs-marshal_packs, marshal_packs-parse_packs}
use backup.Format.Packs.Complete.{IsComplete, validate_pack_sequence-IsComplete}
use backup.Tests.Data.{limits, hash_a, hash_b, sha, digest, id}
use backup.Format.Decimal.{
  all_digits, canonical_negative, canonical_signed, canonical_unsigned, digits, int_text, negative,
  nonnegative, parse_digits, parse_int64, parse_integer, parse_uint, uint_text, value_from,
  within_text,
}
use backup.Format.Utf8.{continues, lead, utf8_valid}
use backup.Format.Patterns.{
  blake2b_pattern, commit_pattern, is_hex, matches, md5_pattern, object_id_pattern, sha256_pattern,
  uuid_pattern,
}
use backup.Format.Tables.{collect, visit_entry, walk}

-- A part of the pack `hash`.
abbrev part : Bytes → ℕ → ℕ → PackEntry
part hash number count = record {
  pack_hash = hash;
  part_number = number;
  part_count = count;
  part_hash = hash_b;
  part_sha256 = sha;
  part_md5 = digest;
  part_size = 5;
  object_id = id;
}

abbrev entries : List PackEntry
entries = part hash_a 0 2 ∷ part hash_a 1 2 ∷ part hash_b 0 1 ∷ []

abbrev line : Bytes → Bytes → Bytes
line hash place =
    hash
    ++ place
    ++ hash_b
    ++ codes "\t"
    ++ sha
    ++ codes "\t"
    ++ digest
    ++ codes "\t5\t"
    ++ id
    ++ codes "\n"

abbrev text : Bytes
text =
    line hash_a (codes "\t0\t2\t")
    ++ line hash_a (codes "\t1\t2\t")
    ++ line hash_b (codes "\t0\t1\t")

marshal_packs-entries : marshal_packs entries ≡ ok text
unfolding equal less contains has_prefix trim_prefix parse_uint parse_digits canonical_unsigned
    all_digits within_text value_from digits uint_text parse_int64 int_text canonical_signed
    canonical_negative negative nonnegative parse_integer marshal_rows marshal_row marshal_fields
    validate_raw_field utf8_valid lead continues matches is_hex object_id_pattern md5_pattern
    sha256_pattern commit_pattern blake2b_pattern uuid_pattern marshal_packs pack_rows pack_row
    pack_fields validate_pack_entry validate_pack_sequence check_sequence check_place last_for_pack
marshal_packs-entries = refl

parse_packs-text : parse_packs (reader text) limits ≡ ok entries
unfolding equal less contains has_prefix trim_prefix parse_uint parse_digits canonical_unsigned
    all_digits within_text value_from digits uint_text parse_int64 int_text canonical_signed
    canonical_negative negative nonnegative parse_integer read_rows append_row scan_rows visit_lines
    check_line check_end check_fields split_fields cons_head scan_lines last_token validate_limits
    utf8_valid lead continues matches is_hex object_id_pattern md5_pattern sha256_pattern
    commit_pattern blake2b_pattern uuid_pattern walk visit_entry collect parse_packs walk_packs
    parse_pack_row advance_pack finish_packs validate_pack_entry
parse_packs-text = refl

validate_pack_sequence-entries : validate_pack_sequence entries ≡ ok tt
unfolding equal less contains has_prefix trim_prefix matches is_hex object_id_pattern md5_pattern
    sha256_pattern commit_pattern blake2b_pattern uuid_pattern validate_pack_entry
    validate_pack_sequence check_sequence check_place last_for_pack
validate_pack_sequence-entries = refl

errors :
    (validate_pack_sequence (part hash_a 0 2 ∷ part hash_b 0 1 ∷ []) ≡ err missing_terminal)
    × (validate_pack_sequence (part hash_a 0 3 ∷ part hash_a 2 3 ∷ []) ≡ err noncontiguous)
    × (validate_pack_sequence (part hash_a 1 2 ∷ []) ≡ err bad_start)
unfolding equal less contains has_prefix trim_prefix matches is_hex object_id_pattern md5_pattern
    sha256_pattern commit_pattern blake2b_pattern uuid_pattern validate_pack_entry
    validate_pack_sequence check_sequence check_place last_for_pack
errors = (refl, refl, refl)

fits : FitsLimits limits (map pack_fields entries)
unfolding parse_uint parse_digits canonical_unsigned all_digits within_text value_from digits
    uint_text parse_int64 int_text canonical_signed canonical_negative negative nonnegative
    parse_integer equal less contains has_prefix trim_prefix validate_limits pack_fields
fits = record {
  positive = refl;
  each = (
    record {
      line = omega arith;
      fields = (
        omega arith,
        (
          omega arith,
          (
            omega arith,
            (omega arith, (omega arith, (omega arith, (omega arith, (omega arith, tt))))),
          ),
        ),
      );
    },
    (
      record {
        line = omega arith;
        fields = (
          omega arith,
          (
            omega arith,
            (
              omega arith,
              (omega arith, (omega arith, (omega arith, (omega arith, (omega arith, tt))))),
            ),
          ),
        );
      },
      (
        record {
          line = omega arith;
          fields = (
            omega arith,
            (
              omega arith,
              (
                omega arith,
                (omega arith, (omega arith, (omega arith, (omega arith, (omega arith, tt))))),
              ),
            ),
          );
        },
        tt,
      ),
    ),
  );
  count = omega arith;
  size = omega arith;
}

widths : All HasWidths entries
widths = (
  record { number = omega arith; count = omega arith; size = omega arith },
  (
    record { number = omega arith; count = omega arith; size = omega arith },
    (record { number = omega arith; count = omega arith; size = omega arith }, tt),
  ),
)

parse_packs-marshal_packs_example : parse_packs (reader text) limits ≡ ok entries
parse_packs-marshal_packs_example =
    parse_packs-marshal_packs limits entries marshal_packs-entries widths fits

marshal_packs-parse_packs_example : (marshal_packs entries ≡ ok text) × All HasWidths entries
marshal_packs-parse_packs_example = marshal_packs-parse_packs (reader text) limits parse_packs-text

validate_pack_sequence-IsComplete_example : IsComplete entries
validate_pack_sequence-IsComplete_example =
    validate_pack_sequence-IsComplete entries widths validate_pack_sequence-entries

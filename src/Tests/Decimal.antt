-- ===== src/Tests/Decimal.antt =====
-- Tests of the decimal texts.
use backup.Base.{◌≡◌, refl, ok, err}
use backup.Base.Bytes.{codes, contains, equal, has_prefix, less, trim_prefix}
use backup.Format.Errors.{not_canonical, out_of_range}
use backup.Format.Decimal.{
  uint_text, canonical_unsigned, parse_uint, parse_int64, int_text, negsuc, all_digits,
  canonical_negative, canonical_signed, digits, negative, nonnegative, parse_digits, parse_integer,
  value_from, within_text,
}

uint_texts :
    (parse_uint (codes "0") 32 ≡ ok 0)
    × (parse_uint (codes "18446744073709551615") 64 ≡ ok 18446744073709551615)
    × (parse_uint (codes "18446744073709551616") 64 ≡ err not_canonical)
    × (parse_uint (codes "007") 32 ≡ err not_canonical)
    × (parse_uint (codes "") 32 ≡ err not_canonical)
    × (parse_uint (codes "4294967296") 32 ≡ err out_of_range)
unfolding equal less contains has_prefix trim_prefix parse_uint parse_digits canonical_unsigned
    all_digits within_text value_from digits uint_text parse_int64 int_text canonical_signed
    canonical_negative negative nonnegative parse_integer
uint_texts = (refl, refl, refl, refl, refl, refl)

int_texts :
    (parse_int64 (codes "-1") ≡ ok (negsuc 0))
    × (parse_int64 (codes "-9223372036854775808") ≡ ok (negsuc 9223372036854775807))
    × (parse_int64 (codes "9223372036854775808") ≡ err not_canonical)
    × (parse_int64 (codes "-0") ≡ err not_canonical)
unfolding equal less contains has_prefix trim_prefix parse_uint parse_digits canonical_unsigned
    all_digits within_text value_from digits uint_text parse_int64 int_text canonical_signed
    canonical_negative negative nonnegative parse_integer
int_texts = (refl, refl, refl, refl)

-- ===== src/Format/Decimal.antt =====
-- The canonical decimal numbers of internal/format/canonical.go, and the functions of strconv that
-- they call. A uint64 is an ℕ below 2 ^ 64, an int64 an integer between its two bounds.
pub mod Digits
pub mod Order
pub mod Unsigned
pub mod Signed
use backup.Base.{
  ℕ, zero, suc, ◌+◌, ◌-◌, ◌*◌, ◌/◌, ◌%◌, ◌^◌, Bool, true, false, not, ◌&&◌, ◌||◌, List, [], ◌∷◌,
  ◌++◌, ltb, leb, ◌==◌, if◌then◌else◌, length, drop, Result, ok, err,
}
use backup.Base.Bytes.{Bytes, codes, equal, at_most, less}
use backup.Format.Errors.{Error, not_canonical, out_of_range}

abbrev pub max_uint64_text : Bytes
max_uint64_text = codes "18446744073709551615"

abbrev pub max_int64_text : Bytes
max_int64_text = codes "9223372036854775807"

abbrev pub min_int64_text : Bytes
min_int64_text = codes "-9223372036854775808"

-- `negsuc n` is -(n + 1).
pub data ℤ : Type 0 where
  pos : ℕ → ℤ
  negsuc : ℕ → ℤ

abbrev pub is_digit : ℕ → Bool
is_digit c = leb b'0' c && leb c b'9'

-- `for _, char := range []byte(value) { if char < '0' || char > '9' { return false } }`
unfoldable pub all_digits : Bytes → Bool
all_digits [] = true
all_digits (c ∷ value) = is_digit c && all_digits value

-- `len(value) < len(bound) || len(value) == len(bound) && value <= bound`
unfoldable pub within_text : Bytes → Bytes → Bool
within_text value bound =
    ltb (length value) (length bound) || (length value == length bound && at_most value bound)

-- `canonicalUnsigned`
unfoldable pub canonical_unsigned : Bytes → Bool
canonical_unsigned [] = false
canonical_unsigned (c ∷ value) =
    if equal (c ∷ value) (b'0' ∷ [])
    then true
    else if c == b'0'
    then false
    else all_digits (c ∷ value) && within_text (c ∷ value) max_uint64_text

unfoldable pub canonical_negative : Bytes → Bool
canonical_negative [] = false
canonical_negative (m ∷ []) = false
canonical_negative (m ∷ c ∷ value) =
    if not (m == b'-') || c == b'0'
    then false
    else all_digits (c ∷ value) && within_text (m ∷ c ∷ value) min_int64_text

-- `canonicalSigned`
unfoldable pub canonical_signed : Bytes → Bool
unfolding canonical_negative
canonical_signed value =
    if canonical_unsigned value then within_text value max_int64_text else canonical_negative value

-- The number that digits spell behind `n`.
unfoldable pub value_from : ℕ → Bytes → ℕ
value_from n [] = n
value_from n (c ∷ value) = value_from (n * 10 + (c - b'0')) value

-- `strconv.ParseUint(value, 10, bits)`: digits, at least one, that spell a number of that width.
unfoldable pub parse_digits : Bytes → ℕ → Result Error ℕ
unfolding all_digits value_from
parse_digits [] limit = err out_of_range
parse_digits (c ∷ value) limit =
    if all_digits (c ∷ value) && ltb (value_from 0 (c ∷ value)) limit
    then ok (value_from 0 (c ∷ value))
    else err out_of_range

-- `parseUint`
unfoldable pub parse_uint : Bytes → ℕ → Result Error ℕ
unfolding canonical_unsigned parse_digits
parse_uint value bits =
    if canonical_unsigned value then parse_digits value (2 ^ bits) else err not_canonical

unfoldable pub negative : Result Error ℕ → Result Error ℤ
negative (err e) = err e
negative (ok zero) = ok (pos 0)
negative (ok (suc n)) = ok (negsuc n)

unfoldable pub nonnegative : Result Error ℕ → Result Error ℤ
nonnegative (err e) = err e
nonnegative (ok n) = ok (pos n)

-- `strconv.ParseInt(value, 10, 64)`, on a value with no plus sign.
unfoldable pub parse_integer : Bytes → Result Error ℤ
unfolding parse_digits negative nonnegative
parse_integer [] = err out_of_range
parse_integer (c ∷ value) =
    if c == b'-'
    then negative (parse_digits value (2 ^ 63 + 1))
    else nonnegative (parse_digits (c ∷ value) (2 ^ 63))

-- `parseInt64`
unfoldable pub parse_int64 : Bytes → Result Error ℤ
unfolding canonical_signed parse_integer
parse_int64 value = if canonical_signed value then parse_integer value else err not_canonical

-- The decimal digits of `n`, for as many of them as the first argument allows.
unfoldable pub digits : ℕ → ℕ → Bytes
digits zero n = []
digits (suc k) n =
    let rest = digits k (n / 10) in
    if ltb n 10 then (b'0' + n) ∷ [] else rest ++ (b'0' + n % 10) ∷ []

-- `strconv.FormatUint(value, 10)`; a uint64 has at most 20 digits.
unfoldable pub uint_text : ℕ → Bytes
unfolding digits
uint_text n = digits 20 n

-- `strconv.FormatInt(value, 10)`
unfoldable pub int_text : ℤ → Bytes
unfolding uint_text
int_text (pos n) = uint_text n
int_text (negsuc n) = b'-' ∷ uint_text (n + 1)

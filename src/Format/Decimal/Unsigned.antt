-- ===== src/Format/Decimal/Unsigned.antt =====
-- `parseUint` reads exactly the prints of the numbers of its width.
use native.Mathlib.Nat.{pow-le-pow_right}
use backup.Base.{
  ℕ, zero, suc, ◌+◌, ◌-◌, ◌*◌, ◌^◌, ◌≤◌, ◌<◌, ◌≡◌, ◌≢◌, ◌↔◌, ◌⊎◌, refl, ap, ◌∙◌, true, [], ◌∷◌,
  ◌++◌, inl, inr, arith, length, Bool-cases, ok, lt→ltb,
}
use backup.Base.Bytes.{Bytes, codes, equal, equal_iff}
use backup.Format.Decimal.{
  all_digits, value_from, within_text, canonical_unsigned, parse_digits, parse_uint, digits,
  uint_text, max_uint64_text,
}
use backup.Format.Decimal.Digits.{
  first, value_from-digits, all_digits-digits, first-digits, digits-value_from,
}
use backup.Format.Decimal.Order.{within_text-of_le, within_text-le}

-- A text with no leading zero that spells no more than 2 ^ 64 - 1 is canonical.
canonical_of_first :
    (s : Bytes)
    → all_digits s ≡ true
    → first s ≢ b'0'
    → value_from 0 s < 2 ^ 64
    → canonical_unsigned s ≡ true
canonical_of_first [] h nz l = absurd (nz refl)
canonical_of_first (c ∷ s) h nz l =
    let fits =
      within_text-of_le c s max_uint64_text h nz (unfold all_digits in refl)
        (unfold value_from in omega arith) in
    unfold canonical_unsigned in ground arith

pub value_from-uint_text : (n : ℕ) → n < 2 ^ 64 → value_from 0 (uint_text n) ≡ n
unfolding uint_text
value_from-uint_text n h = value_from-digits 20 n (omega arith)

pub all_digits-uint_text : (n : ℕ) → all_digits (uint_text n) ≡ true
unfolding uint_text
all_digits-uint_text n = all_digits-digits 20 n

pub first-uint_text : (n : ℕ) → 0 < n → n < 2 ^ 64 → first (uint_text n) ≢ b'0'
unfolding uint_text
first-uint_text n p h = first-digits 20 n p (omega arith)

pub canonical_unsigned-uint_text : (n : ℕ) → n < 2 ^ 64 → canonical_unsigned (uint_text n) ≡ true
canonical_unsigned-uint_text zero h = unfold uint_text canonical_unsigned equal in refl
canonical_unsigned-uint_text (suc n) h =
    canonical_of_first (uint_text (suc n)) (all_digits-uint_text (suc n))
      (first-uint_text (suc n) (omega arith) h) (rw (value_from-uint_text (suc n) h) h)

pub uint_text-ne-nil : (n : ℕ) → n < 2 ^ 64 → uint_text n ≢ []
uint_text-ne-nil zero h e = unfold uint_text in cc
uint_text-ne-nil (suc n) h e = first-uint_text (suc n) (omega arith) h (ap first e)

pub parse_digits-of :
    (s : Bytes) (limit : ℕ)
    → s ≢ []
    → all_digits s ≡ true
    → value_from 0 s < limit
    → parse_digits s limit ≡ ok (value_from 0 s)
unfolding parse_digits
parse_digits-of [] limit ne h l = absurd (ne refl)
parse_digits-of (c ∷ s) limit ne h l = rw (h, lt→ltb _ _ l) refl

pub parse_digits-eq-ok :
    (s : Bytes) (limit : ℕ) {n : ℕ}
    → parse_digits s limit ≡ ok n
    → (s ≢ []) × (all_digits s ≡ true) × (n ≡ value_from 0 s) × (n < limit)
unfolding parse_digits
parse_digits-eq-ok [] limit h = cc
parse_digits-eq-ok (c ∷ s) limit h = ground arith

-- A canonical text is `0`, or digits that begin with no zero and pass the test against 2 ^ 64 - 1.
canonical-cases :
    (c : ℕ) (s : Bytes)
    → canonical_unsigned (c ∷ s) ≡ true
    → (c ∷ s ≡ b'0' ∷ [])
      ⊎ ((c ≢ b'0') × (all_digits (c ∷ s) ≡ true) × (within_text (c ∷ s) max_uint64_text ≡ true))
unfolding canonical_unsigned
canonical-cases c s h = ground (arith, equal_iff (c ∷ s) (b'0' ∷ []))

digits_one : (k c : ℕ) → b'0' ≤ c → c ≤ b'9' → digits (suc k) (0 * 10 + (c - b'0')) ≡ c ∷ []
unfolding digits
digits_one k c lo hi = ground arith

-- The print of what up to 20 digits with no leading zero spell is those digits.
pub uint_text_of_digits :
    (c : ℕ) (s : Bytes)
    → all_digits (c ∷ s) ≡ true
    → c ≢ b'0'
    → length (c ∷ s) ≤ 20
    → uint_text (value_from 0 (c ∷ s)) ≡ c ∷ s
unfolding uint_text value_from all_digits
uint_text_of_digits c s h nz l =
    let d = 0 * 10 + (c - b'0') in
    let k = 19 - length s in
    let fuel : 20 ≡ length s + suc k = omega arith in
    ap (λ f. digits f (value_from d s)) fuel
    ∙ digits-value_from s (suc k) d (ground arith) (ground arith)
    ∙ ap (λ t. t ++ s) (digits_one k c (ground arith) (ground arith))

-- The print of a canonical text's number is that text.
pub uint_text-value_from :
    (s : Bytes) → canonical_unsigned s ≡ true → uint_text (value_from 0 s) ≡ s
uint_text-value_from [] h = unfold canonical_unsigned in cc
uint_text-value_from (c ∷ s) h = elim (canonical-cases c s h) [
  | inl e ↦ rw e (unfold uint_text value_from in refl)
  | inr (nz, ds, w) ↦ uint_text_of_digits c s ds nz (unfold within_text in ground arith)
]

-- Every number of the width is read back from its print.
pub parse_uint-uint_text :
    (n bits : ℕ) → n < 2 ^ bits → bits ≤ 64 → parse_uint (uint_text n) bits ≡ ok n
unfolding parse_uint
parse_uint-uint_text n bits h k =
    let grow = pow-le-pow_right {n = 2} (omega arith) {i = bits} {j = 64} k in
    let wide : n < 2 ^ 64 = omega (arith, grow) in
    let v = value_from-uint_text n wide in
    rw (canonical_unsigned-uint_text n wide) (
      parse_digits-of (uint_text n) (2 ^ bits) (uint_text-ne-nil n wide) (all_digits-uint_text n)
        (rw v h)
      ∙ ap ok v)

-- A text that is read is the print of the number that it is read as, which has the width.
pub uint_text-parse_uint :
    (s : Bytes) (bits : ℕ) {n : ℕ} → parse_uint s bits ≡ ok n → (uint_text n ≡ s) × (n < 2 ^ bits)
unfolding parse_uint
uint_text-parse_uint s bits {n} h = elim (Bool-cases (canonical_unsigned s)) [
  | inr f ↦ absurd (ground arith)
  | inl c ↦
      let read : parse_digits s (2 ^ bits) ≡ ok n = ground arith in
      let parts = parse_digits-eq-ok s (2 ^ bits) read in
      (rw (parts.2) (uint_text-value_from s c), parts.3)
]

canonical_small : (s : Bytes) → canonical_unsigned s ≡ true → value_from 0 s < 2 ^ 64
canonical_small [] h = unfold canonical_unsigned in cc
canonical_small (c ∷ s) h = elim (canonical-cases c s h) [
  | inl e ↦ rw e (unfold value_from in omega arith)
  | inr (nz, ds, w) ↦
      let bound =
        within_text-le (c ∷ s) (codes "8446744073709551615") b'1' ds (unfold all_digits in refl)
          (omega arith) w in
      let top : value_from 0 max_uint64_text ≡ 18446744073709551615 = unfold value_from in refl in
      omega (arith, bound, top)
]

-- `canonicalUnsigned` accepts exactly the decimal prints of the uint64 numbers.
canonical_unsigned_iff :
    (s : Bytes) → (canonical_unsigned s ≡ true) ↔ ((n : ℕ) × (n < 2 ^ 64) × (uint_text n ≡ s))
canonical_unsigned_iff s = (
  λ h. (value_from 0 s, canonical_small s h, uint_text-value_from s h),
  λ p. rw (p.2) at (canonical_unsigned-uint_text p.0 p.1),
)

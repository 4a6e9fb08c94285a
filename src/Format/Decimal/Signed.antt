-- ===== src/Format/Decimal/Signed.antt =====
-- `parseInt64` reads exactly the prints of the int64 numbers.
use backup.Base.{
  ℕ, zero, suc, ◌+◌, ◌^◌, ◌≤◌, ◌<◌, ◌≡◌, ◌≢◌, refl, sym, ap, true, false, [], ◌∷◌, inl, inr, arith,
  length, Bool-cases, ◌==◌, ok, err, Result,
}
use backup.Base.Bytes.{Bytes, codes, equal, less}
use backup.Format.Decimal.{
  ℤ, pos, negsuc, all_digits, value_from, within_text, canonical_unsigned, canonical_negative,
  canonical_signed, parse_digits, parse_integer, parse_int64, negative, nonnegative, uint_text,
  int_text, max_int64_text, min_int64_text,
}
use backup.Format.Errors.{Error}
use backup.Format.Decimal.Digits.{first}
use backup.Format.Decimal.Order.{within_text-of_le}
use backup.Format.Decimal.Unsigned.{
  value_from-uint_text, all_digits-uint_text, first-uint_text, canonical_unsigned-uint_text,
  uint_text-ne-nil, parse_digits-of, parse_digits-eq-ok, uint_text_of_digits, uint_text-value_from,
}

-- The range of an int64.
abbrev pub IsInt64 : ℤ → Type 0
IsInt64 (pos n) = n < 2 ^ 63
IsInt64 (negsuc n) = n < 2 ^ 63

within_int64 : (n : ℕ) → n < 2 ^ 63 → within_text (uint_text n) max_int64_text ≡ true
within_int64 zero h = unfold uint_text within_text in refl
within_int64 (suc n) h = go (uint_text (suc n)) refl
  where
    go : (s : Bytes) → uint_text (suc n) ≡ s → within_text s max_int64_text ≡ true
    go [] e = absurd (uint_text-ne-nil (suc n) (omega arith) e)
    go (c ∷ s) e =
        within_text-of_le c s max_int64_text (rw e at (all_digits-uint_text (suc n)))
          (rw e at (first-uint_text (suc n) (omega arith) (omega arith)))
          (unfold all_digits in refl)
          (rw (← e)
            (rw (value_from-uint_text (suc n) (omega arith)) (unfold value_from in omega arith)))

abbrev min_magnitude_text : Bytes
min_magnitude_text = codes "9223372036854775808"

within_text_behind : (m : ℕ) (s b : Bytes) → within_text (m ∷ s) (m ∷ b) ≡ within_text s b
unfolding within_text less
within_text_behind m s b = ground arith

-- A minus sign before a positive print, in range, is canonical.
canonical_negative_text :
    (n : ℕ) → n < 2 ^ 63 → canonical_negative (b'-' ∷ uint_text (suc n)) ≡ true
canonical_negative_text n h = go (uint_text (suc n)) refl
  where
    go : (s : Bytes) → uint_text (suc n) ≡ s → canonical_negative (b'-' ∷ s) ≡ true
    go [] e = absurd (uint_text-ne-nil (suc n) (omega arith) e)
    go (c ∷ s) e =
        let ds = rw e at (all_digits-uint_text (suc n)) in
        let nz = rw e at (first-uint_text (suc n) (omega arith) (omega arith)) in
        let fits = within_text-of_le c s min_magnitude_text ds nz (unfold all_digits in refl) (
          rw (← e)
            (rw (value_from-uint_text (suc n) (omega arith)) (unfold value_from in omega arith))) in
        let same = within_text_behind b'-' (c ∷ s) min_magnitude_text in
        unfold canonical_negative in ground arith

not_canonical_minus : (s : Bytes) → canonical_unsigned (b'-' ∷ s) ≡ false
unfolding canonical_unsigned all_digits equal
not_canonical_minus s = ground arith

-- Every int64 is read back from its print.
pub parse_int64-int_text : (i : ℤ) → IsInt64 i → parse_int64 (int_text i) ≡ ok i
unfolding parse_int64 int_text canonical_signed
parse_int64-int_text (pos n) h =
    rw (canonical_unsigned-uint_text n (omega arith))
      (rw (within_int64 n h) (go (uint_text n) refl))
  where
    go : (s : Bytes) → uint_text n ≡ s → parse_integer s ≡ ok (pos n)
    go [] e = absurd (uint_text-ne-nil n (omega arith) e)
    go (c ∷ s) e =
        let ds = rw e at (all_digits-uint_text n) in
        let v = rw e at (value_from-uint_text n (omega arith)) in
        let read = parse_digits-of (c ∷ s) (2 ^ 63) (cc) ds (rw v h) in
        unfold parse_integer nonnegative all_digits in ground arith
parse_int64-int_text (negsuc n) h =
    let e : n + 1 ≡ suc n = omega arith in
    rw e (
      rw (not_canonical_minus (uint_text (suc n))) (
        rw (canonical_negative_text n h) (
          let v = value_from-uint_text (suc n) (omega arith) in
          let read =
            parse_digits-of (uint_text (suc n)) (2 ^ 63 + 1)
              (uint_text-ne-nil (suc n) (omega arith)) (all_digits-uint_text (suc n))
              (rw v (omega arith)) in
          unfold parse_integer negative in ground arith)))

-- A canonical negative text is a minus sign before a canonical positive magnitude.
canonical_negative-cases :
    (m c : ℕ) (s : Bytes)
    → canonical_negative (m ∷ c ∷ s) ≡ true
    → (m ≡ b'-')
      × (c ≢ b'0')
      × (all_digits (c ∷ s) ≡ true)
      × (within_text (m ∷ c ∷ s) min_int64_text ≡ true)
unfolding canonical_negative
canonical_negative-cases m c s h = ground arith

abbrev negated : ℕ → ℤ
negated zero = pos 0
negated (suc n) = negsuc n

negative-eq-ok :
    (r : Result Error ℕ) {i : ℤ} → negative r ≡ ok i → (n : ℕ) × (r ≡ ok n) × (i ≡ negated n)
unfolding negative
negative-eq-ok (err e) h = cc
negative-eq-ok (ok zero) h = (0, refl, cc)
negative-eq-ok (ok (suc n)) h = (suc n, refl, cc)

nonnegative-eq-ok :
    (r : Result Error ℕ) {i : ℤ} → nonnegative r ≡ ok i → (n : ℕ) × (r ≡ ok n) × (i ≡ pos n)
unfolding nonnegative
nonnegative-eq-ok (err e) h = cc
nonnegative-eq-ok (ok n) h = (n, refl, cc)

negated_text :
    (n c : ℕ) (s : Bytes)
    → c ≢ b'0'
    → uint_text n ≡ c ∷ s
    → n < 2 ^ 63 + 1
    → (int_text (negated n) ≡ b'-' ∷ c ∷ s) × IsInt64 (negated n)
negated_text zero c s nz e l = unfold uint_text in absurd (nz (sym (ap first e)))
negated_text (suc n) c s nz e l =
    let plus : n + 1 ≡ suc n = omega arith in (unfold int_text in rw plus (rw e), omega arith)

read_negative :
    (c : ℕ) (s : Bytes) {i : ℤ}
    → c ≢ b'0'
    → all_digits (c ∷ s) ≡ true
    → length (c ∷ s) ≤ 20
    → parse_integer (b'-' ∷ c ∷ s) ≡ ok i
    → (int_text i ≡ b'-' ∷ c ∷ s) × IsInt64 i
unfolding parse_integer
read_negative c s {i} nz ds l h =
    let (n, read, e) = negative-eq-ok (parse_digits (c ∷ s) (2 ^ 63 + 1)) h in
    let parts = parse_digits-eq-ok (c ∷ s) (2 ^ 63 + 1) read in
    let shown : uint_text n ≡ c ∷ s = rw (parts.2) (uint_text_of_digits c s ds nz l) in
    rw e (negated_text n c s nz shown parts.3)

nonnegative_read :
    (s : Bytes) {i : ℤ}
    → canonical_unsigned s ≡ true
    → parse_integer s ≡ ok i
    → nonnegative (parse_digits s (2 ^ 63)) ≡ ok i
unfolding parse_integer nonnegative
nonnegative_read [] c h = cc
nonnegative_read (m ∷ s) c h = elim (Bool-cases (m == b'-')) [
  | inl e ↦
      let minus : m ≡ b'-' = ground arith in absurd (cc (not_canonical_minus s, rw minus at c))
  | inr n ↦ ground arith
]

read_nonnegative :
    (s : Bytes) {i : ℤ}
    → canonical_unsigned s ≡ true
    → parse_integer s ≡ ok i
    → (int_text i ≡ s) × IsInt64 i
read_nonnegative s {i} c h =
    let (n, read, e) = nonnegative-eq-ok (parse_digits s (2 ^ 63)) (nonnegative_read s c h) in
    let parts = parse_digits-eq-ok s (2 ^ 63) read in
    rw e (unfold int_text in rw (parts.2) (uint_text-value_from s c), parts.3)

read_signed :
    (s : Bytes) {i : ℤ}
    → canonical_negative s ≡ true
    → parse_integer s ≡ ok i
    → (int_text i ≡ s) × IsInt64 i
read_signed [] n h = unfold canonical_negative in cc
read_signed (m ∷ []) n h = unfold canonical_negative in cc
read_signed (m ∷ c ∷ s) n h =
    let (minus, nz, ds, w) = canonical_negative-cases m c s n in
    let l : length (c ∷ s) ≤ 20 = unfold within_text in ground arith in
    rw minus (read_negative c s nz ds l (rw minus at h))

-- A text that is read is the print of the number that it is read as, which is an int64.
pub int_text-parse_int64 : (s : Bytes) {i : ℤ} → parse_int64 s ≡ ok i → (int_text i ≡ s) × IsInt64 i
unfolding parse_int64 canonical_signed
int_text-parse_int64 s {i} h = elim (Bool-cases (canonical_unsigned s)) [
  | inl c ↦ read_nonnegative s c (ground arith)
  | inr n ↦ read_signed s (ground arith) (ground arith)
]

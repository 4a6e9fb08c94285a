-- ===== src/Format/Decimal/Digits.antt =====
-- What the digits of a number are, and what number digits spell.
use Prim.Native.Nat.{◌≤◌, ◌<◌}
use backup.Base.{
  ℕ, zero, suc, ◌+◌, ◌-◌, ◌*◌, ◌/◌, ◌%◌, ◌^◌, ◌≡◌, refl, ap, ◌∙◌, true, false, [], ◌∷◌, ◌++◌, ◌≢◌,
  inl, inr, arith, length, length-append, Bool-cases, ltb, append_assoc,
}
use backup.Base.Bytes.{Bytes}
use backup.Format.Decimal.{all_digits, value_from, digits}
use native.Mathlib.Nat.{pow-suc}

all_digits-append :
    (a b : Bytes) → all_digits a ≡ true → all_digits b ≡ true → all_digits (a ++ b) ≡ true
unfolding all_digits
all_digits-append [] b h k = k
all_digits-append (c ∷ a) b h k = ground (arith, all_digits-append a b)

value_from-snoc :
    (n : ℕ) (a : Bytes) (c : ℕ) → value_from n (a ++ c ∷ []) ≡ value_from n a * 10 + (c - b'0')
unfolding value_from
value_from-snoc n [] c = refl
value_from-snoc n (x ∷ a) c = value_from-snoc (n * 10 + (x - b'0')) a c

-- The first byte, or `0` where there is none.
abbrev pub first : Bytes → ℕ
first [] = b'0'
first (c ∷ value) = c

first-append : (a b : Bytes) → first a ≢ b'0' → first (a ++ b) ≡ first a
first-append [] b h = absurd (h refl)
first-append (c ∷ a) b h = refl

pub value_from-digits : (k n : ℕ) → n < 10 ^ k → value_from 0 (digits k n) ≡ n
unfolding digits
value_from-digits zero n h = unfold value_from in omega arith
value_from-digits (suc k) n h = elim (Bool-cases (ltb n 10)) [
  | inl small ↦ rw small (unfold value_from in omega arith)
  | inr large ↦ rw large (
      value_from-snoc 0 (digits k (n / 10)) (b'0' + n % 10)
      ∙ ground (arith, pow-suc 10 k, value_from-digits k (n / 10)))
]

pub all_digits-digits : (k n : ℕ) → all_digits (digits k n) ≡ true
unfolding digits
all_digits-digits zero n = unfold all_digits in refl
all_digits-digits (suc k) n = elim (Bool-cases (ltb n 10)) [
  | inl small ↦ rw small (unfold all_digits in ground arith)
  | inr large ↦ rw large (
      all_digits-append (digits k (n / 10)) _ (all_digits-digits k (n / 10))
        (unfold all_digits in ground arith))
]

length-digits : (k n : ℕ) → length (digits k n) ≤ k
unfolding digits
length-digits zero n = omega arith
length-digits (suc k) n = elim (Bool-cases (ltb n 10)) [
  | inl small ↦ rw small (omega arith)
  | inr large ↦ rw large (
      omega
        (arith, length-append (digits k (n / 10)) ((b'0' + n % 10) ∷ []), length-digits k (n / 10)))
]

pub first-digits : (k n : ℕ) → 0 < n → n < 10 ^ k → first (digits k n) ≢ b'0'
unfolding digits
first-digits zero n p h = absurd (omega arith)
first-digits (suc k) n p h = elim (Bool-cases (ltb n 10)) [
  | inl small ↦ rw small (omega arith)
  | inr large ↦ rw large (
      let ih : first (digits k (n / 10)) ≢ b'0' =
        first-digits k (n / 10) (ground arith) (ground (arith, pow-suc 10 k)) in
      rw (first-append (digits k (n / 10)) ((b'0' + n % 10) ∷ []) ih) ih)
]

digits_zero : (k : ℕ) → digits (suc k) 0 ≡ b'0' ∷ []
unfolding digits
digits_zero k = refl

-- A digit behind a positive number is its last digit.
digits_last :
    (k n d : ℕ) → 0 < n → d < 10 → digits (suc k) (n * 10 + d) ≡ digits k n ++ (b'0' + d) ∷ []
unfolding digits
digits_last k n d p h =
    let e : (n * 10 + d) / 10 ≡ n = omega arith in
    let m : (n * 10 + d) % 10 ≡ d = omega arith in
    let large : ltb (n * 10 + d) 10 ≡ false = ground arith in rw (large, e, m)

-- The digits of what `s` spells behind a positive number are that number's digits, then `s`.
pub digits-value_from :
    (s : Bytes) (k n : ℕ)
    → 0 < n
    → all_digits s ≡ true
    → digits (length s + k) (value_from n s) ≡ digits k n ++ s
unfolding value_from all_digits
digits-value_from [] k n p h =
    rw (mathlib.Core.List.append-nil) (ap (λ j. digits j n) (omega arith))
digits-value_from (c ∷ s) k n p h =
    let m = n * 10 + (c - b'0') in
    let ih = digits-value_from s (suc k) m (omega arith) (ground arith) in
    let e : suc (length s) + k ≡ length s + suc k = omega arith in
    let back : b'0' + (c - b'0') ≡ c = ground arith in
    let last = digits_last k n (c - b'0') p (ground arith) in
    ap (λ j. digits j (value_from m s)) e
    ∙ ih
    ∙ ap (λ t. t ++ s) last
    ∙ rw (append_assoc (digits k n) ((b'0' + (c - b'0')) ∷ []) s) (rw back refl)

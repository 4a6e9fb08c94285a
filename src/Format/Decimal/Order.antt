-- ===== src/Format/Decimal/Order.antt =====
-- Among digit strings, Go's comparison by length and then by bytes is the order of the numbers.
use native.Mathlib.Nat.{pow-suc, pow-le-pow_right}
use backup.Base.{
  ℕ, ◌+◌, ◌-◌, ◌*◌, ◌^◌, ◌≤◌, ◌<◌, ◌≡◌, ◌≢◌, ap, true, [], ◌∷◌, inl, inr, arith, length, Bool-cases,
  ltb, ◌==◌, ltb→lt,
}
use backup.Base.Bytes.{Bytes, less, less_total}
use backup.Format.Decimal.{all_digits, value_from, within_text}

le-value_from : (n : ℕ) (s : Bytes) → n * 10 ^ length s ≤ value_from n s
unfolding value_from
le-value_from n [] = omega arith
le-value_from n (c ∷ s) =
    rw (pow-suc 10 (length s)) (omega (arith, le-value_from (n * 10 + (c - b'0')) s))

mul_mono_left : (a b p : ℕ) → a ≤ b → a * p ≤ b * p
mul_mono_left a b p h = grind arith

value_from-lt : (n : ℕ) (s : Bytes) → all_digits s ≡ true → value_from n s < (n + 1) * 10 ^ length s
unfolding value_from all_digits
value_from-lt n [] h = omega arith
value_from-lt n (c ∷ s) h =
    let ih = value_from-lt (n * 10 + (c - b'0')) s (ground arith) in
    let d = mul_mono_left (c - b'0' + 1) 10 (10 ^ length s) (ground arith) in
    rw (pow-suc 10 (length s)) (omega (arith, ih, d))

less_value :
    (n : ℕ) (a b : Bytes)
    → length a ≡ length b
    → all_digits a ≡ true
    → all_digits b ≡ true
    → less a b ≡ true
    → value_from n a < value_from n b
unfolding all_digits less value_from
less_value n [] [] l h k t = cc
less_value n [] (y ∷ b) l h k t = absurd (omega arith)
less_value n (x ∷ a) [] l h k t = absurd (omega arith)
less_value n (x ∷ a) (y ∷ b) l h k t = elim (Bool-cases (ltb x y)) [
  | inl lower ↦
      let upper = value_from-lt (n * 10 + (x - b'0')) a (ground arith) in
      let low = le-value_from (n * 10 + (y - b'0')) b in
      let same : length a ≡ length b = omega arith in
      let step =
        mul_mono_left (n * 10 + (x - b'0') + 1) (n * 10 + (y - b'0')) (10 ^ length b)
          (ground arith) in
      omega (arith, rw same at upper, low, step)
  | inr other ↦
      let same : x ≡ y = ground arith in
      rw same (
        less_value (n * 10 + (y - b'0')) a b (omega arith) (ground arith) (ground arith)
          (ground arith))
]

-- A digit string with no leading zero is no longer than one that spells as much.
length_of_le :
    (c : ℕ) (s b : Bytes)
    → all_digits (c ∷ s) ≡ true
    → c ≢ b'0'
    → all_digits b ≡ true
    → value_from 0 (c ∷ s) ≤ value_from 0 b
    → length (c ∷ s) ≤ length b
unfolding all_digits value_from
length_of_le c s b h nz k le = elim (Bool-cases (ltb (length s) (length b))) [
  | inl fits ↦ ground arith
  | inr longer ↦
      let upper = value_from-lt 0 b k in
      let low = le-value_from (0 * 10 + (c - b'0')) s in
      let grow =
        pow-le-pow_right {n = 10} (omega arith) {i = length b} {j = length s} (ground arith) in
      let scale = mul_mono_left 1 (c - b'0') (10 ^ length s) (ground arith) in
      absurd (omega (arith, upper, low, grow, scale))
]

-- A digit string with no leading zero that spells no more than the bound passes the test.
pub within_text-of_le :
    (c : ℕ) (s b : Bytes)
    → all_digits (c ∷ s) ≡ true
    → c ≢ b'0'
    → all_digits b ≡ true
    → value_from 0 (c ∷ s) ≤ value_from 0 b
    → within_text (c ∷ s) b ≡ true
unfolding within_text
within_text-of_le c s b h nz k le =
    let short = length_of_le c s b h nz k le in
    elim (Bool-cases (less b (c ∷ s))) [
      | inr f ↦ ground arith
      | inl t ↦ elim (Bool-cases (length (c ∷ s) == length b)) [
        | inl e ↦
            let same : length b ≡ length (c ∷ s) = ground arith in
            absurd (omega (arith, less_value 0 b (c ∷ s) same k h t))
        | inr d ↦ ground arith
      ]
    ]

shorter_value :
    (s b : Bytes) (d : ℕ)
    → all_digits s ≡ true
    → length s < length (d ∷ b)
    → b'0' < d
    → value_from 0 s < value_from 0 (d ∷ b)
unfolding value_from
shorter_value s b d h l p =
    let upper = value_from-lt 0 s h in
    let low = le-value_from (0 * 10 + (d - b'0')) b in
    let grow =
      pow-le-pow_right {n = 10} (omega arith) {i = length s} {j = length b} (omega arith) in
    let scale = mul_mono_left 1 (d - b'0') (10 ^ length b) (omega arith) in
    omega (arith, upper, low, grow, scale)

-- And one that passes it spells no more than the bound.
pub within_text-le :
    (s b : Bytes) (d : ℕ)
    → all_digits s ≡ true
    → all_digits (d ∷ b) ≡ true
    → b'0' < d
    → within_text s (d ∷ b) ≡ true
    → value_from 0 s ≤ value_from 0 (d ∷ b)
unfolding within_text
within_text-le s b d h k p w = elim (Bool-cases (ltb (length s) (length (d ∷ b)))) [
  | inl shorter ↦ omega (arith, shorter_value s b d h (ltb→lt _ _ shorter) p)
  | inr other ↦ elim (Bool-cases (less s (d ∷ b))) [
    | inl t ↦ omega (arith, less_value 0 s (d ∷ b) (ground arith) h k t)
    | inr f ↦ omega (arith, ap (value_from 0) (less_total s (d ∷ b) f (ground arith)))
  ]
]

-- ===== src/Format/Utf8.antt =====
-- `utf8.Valid` of the standard library, which internal/format calls on every line and field.
use backup.Base.{
  ℕ, zero, suc, ◌≤◌, ◌≡◌, refl, Bool, true, false, ◌&&◌, Option, none, some, [], ◌∷◌, ◌++◌, ltb,
  leb, if◌then◌else◌, arith, Option-cases, inl, inr,
}
use backup.Base.Bytes.{Bytes}

-- After a first byte: how many bytes follow, and the range of the next one.
pub record Expect : Type 0 where
  pub count : ℕ
  pub low : ℕ
  pub high : ℕ

abbrev expect : ℕ → ℕ → ℕ → Option Expect
expect n lo hi = some (record { count = n; low = lo; high = hi })

unfoldable pub lead : ℕ → Option Expect
lead c =
    if ltb c 0x80
    then expect 0 0x80 0xbf
    else if ltb c 0xc2
    then none
    else if ltb c 0xe0
    then expect 1 0x80 0xbf
    else if leb c 0xe0
    then expect 2 0xa0 0xbf
    else if ltb c 0xed
    then expect 2 0x80 0xbf
    else if leb c 0xed
    then expect 2 0x80 0x9f
    else if ltb c 0xf0
    then expect 2 0x80 0xbf
    else if leb c 0xf0
    then expect 3 0x90 0xbf
    else if ltb c 0xf4
    then expect 3 0x80 0xbf
    else if leb c 0xf4
    then expect 3 0x80 0x8f
    else none

-- Valid UTF-8 whose first `n` bytes continue a character, the first of them from `low` to `high`.
unfoldable pub continues : ℕ → ℕ → ℕ → Bytes → Bool
continues zero low high [] = true
continues zero low high (c ∷ s) = elim (lead c) [
  | none ↦ false
  | some e ↦ continues e.count e.low e.high s
]
continues (suc n) low high [] = false
continues (suc n) low high (c ∷ s) = leb low c && leb c high && continues n 0x80 0xbf s

unfoldable pub utf8_valid : Bytes → Bool
unfolding continues lead
utf8_valid s = continues 0 0x80 0xbf s

lead_low : (c : ℕ) {e : Expect} → lead c ≡ some e → 0x80 ≤ e.low
unfolding lead
lead_low c h = ground arith

-- What begins a character of one byte cuts a text into parts that are valid on their own.
continues_cut :
    (a : Bytes) (n low high c : ℕ) (b : Bytes)
    → 0x80 ≤ low
    → c ≤ 0x7f
    → continues n low high (a ++ c ∷ b) ≡ (continues n low high a && utf8_valid b)
unfolding continues utf8_valid
continues_cut [] zero low high c b l h = unfold lead in ground arith
continues_cut [] (suc n) low high c b l h = ground arith
continues_cut (x ∷ a) zero low high c b l h = elim (Option-cases (lead x)) [
  | inl bad ↦ rw (bad, continues) refl
  | inr (e, fine) ↦
      rw (fine, continues) (continues_cut a e.count e.low e.high c b (lead_low x fine) h)
]
continues_cut (x ∷ a) (suc n) low high c b l h =
    ground (arith, continues_cut a n 0x80 0xbf c b (omega arith) h)

pub utf8_valid_cut :
    (a : Bytes) (c : ℕ) (b : Bytes)
    → c ≤ 0x7f
    → utf8_valid (a ++ c ∷ b) ≡ (utf8_valid a && utf8_valid b)
utf8_valid_cut a c b h = unfold utf8_valid in continues_cut a 0 0x80 0xbf c b (omega arith) h

pub utf8_valid_ascii : (c : ℕ) (s : Bytes) → c ≤ 0x7f → utf8_valid (c ∷ s) ≡ utf8_valid s
utf8_valid_ascii c s h =
    let cut = utf8_valid_cut [] c s h in
    let empty : utf8_valid [] ≡ true = unfold utf8_valid in refl in ground arith

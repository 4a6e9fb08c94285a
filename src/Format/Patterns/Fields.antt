-- ===== src/Format/Patterns/Fields.antt =====
-- Hexadecimal texts and decimal prints are acceptable fields of a row.
use backup.Base.{
  ℕ, zero, suc, ◌^◌, ◌≤◌, ◌<◌, ◌≡◌, ◌≢◌, ◌∙◌, refl, true, false, [], ◌∷◌, arith, and_true, All,
}
use backup.Base.Bytes.{Bytes, tab, lf, cr, contains, has_prefix}
use backup.Format.Decimal.{all_digits, uint_text}
use backup.Format.Decimal.Unsigned.{all_digits-uint_text, uint_text-ne-nil}
use backup.Format.Utf8.{utf8_valid, utf8_valid_ascii}
use backup.Format.Rows.{bom}
use backup.Format.Rows.Split.{IsField}
use backup.Format.Patterns.{
  is_hex, repeat, matches, object_id_pattern, md5_pattern, sha256_pattern, commit_pattern,
  blake2b_pattern,
}

-- Printable ASCII but the control bytes of the format.
abbrev pub IsPlain : Bytes → Type 0
IsPlain = All (λ c. (0x20 ≤ c) × (c ≤ 0x7e))

plain_contains : (b : ℕ) (s : Bytes) → b < 0x20 → IsPlain s → contains b s ≡ false
unfolding contains
plain_contains b [] l h = refl
plain_contains b (c ∷ s) l (h, hs) = let rest = plain_contains b s l hs in ground arith

plain_valid : (s : Bytes) → IsPlain s → utf8_valid s ≡ true
plain_valid [] h = unfold utf8_valid in refl
plain_valid (c ∷ s) (h, hs) = utf8_valid_ascii c s (omega arith) ∙ plain_valid s hs

plain_no_bom : (s : Bytes) → IsPlain s → has_prefix s bom ≡ false
unfolding has_prefix
plain_no_bom [] h = refl
plain_no_bom (c ∷ s) (h, hs) = ground arith

-- A text of printable ASCII is an acceptable field, if it is not empty.
IsPlain-IsField : (s : Bytes) → s ≢ [] → IsPlain s → IsField s
IsPlain-IsField [] n h = absurd (n refl)
IsPlain-IsField (c ∷ s) n h = record {
  clean = record {
    nonempty = ground arith;
    valid = plain_valid (c ∷ s) h;
    no_nul = plain_contains 0 (c ∷ s) (omega arith) h;
    no_tab = plain_contains tab (c ∷ s) (omega arith) h;
    no_cr = plain_contains cr (c ∷ s) (omega arith) h;
    no_lf = plain_contains lf (c ∷ s) (omega arith) h;
  };
  no_bom = plain_no_bom (c ∷ s) h;
}

hex-IsPlain : (n : ℕ) (s : Bytes) → matches (repeat n is_hex []) s ≡ true → IsPlain s
unfolding matches
hex-IsPlain zero [] h = tt
hex-IsPlain zero (c ∷ s) h = cc
hex-IsPlain (suc n) [] h = tt
hex-IsPlain (suc n) (c ∷ s) h =
    let (d, ds) = and_true (is_hex c) _ h in (unfold is_hex in ground arith, hex-IsPlain n s ds)

hex-ne-nil : (n : ℕ) (s : Bytes) → matches (repeat (suc n) is_hex []) s ≡ true → s ≢ []
unfolding matches
hex-ne-nil n [] h e = cc
hex-ne-nil n (c ∷ s) h e = cc

-- Hexadecimal digits, at least one, are an acceptable field.
hex-IsField : (n : ℕ) (s : Bytes) → matches (repeat (suc n) is_hex []) s ≡ true → IsField s
hex-IsField n s h = IsPlain-IsField s (hex-ne-nil n s h) (hex-IsPlain (suc n) s h)

digits-IsPlain : (s : Bytes) → all_digits s ≡ true → IsPlain s
unfolding all_digits
digits-IsPlain [] h = tt
digits-IsPlain (c ∷ s) h = (ground arith, digits-IsPlain s (ground arith))

pub uint_text-IsField : (n : ℕ) → n < 2 ^ 64 → IsField (uint_text n)
uint_text-IsField n h =
    IsPlain-IsField (uint_text n) (uint_text-ne-nil n h) (digits-IsPlain _ (all_digits-uint_text n))

pub blake2b-IsField : (s : Bytes) → blake2b_pattern s ≡ true → IsField s
unfolding blake2b_pattern
blake2b-IsField s h = hex-IsField 127 s h

pub sha256-IsField : (s : Bytes) → sha256_pattern s ≡ true → IsField s
unfolding sha256_pattern
sha256-IsField s h = hex-IsField 63 s h

pub commit-IsField : (s : Bytes) → commit_pattern s ≡ true → IsField s
unfolding commit_pattern
commit-IsField s h = hex-IsField 63 s h

pub md5-IsField : (s : Bytes) → md5_pattern s ≡ true → IsField s
unfolding md5_pattern
md5-IsField s h = hex-IsField 31 s h

pub object_id-IsField : (s : Bytes) → object_id_pattern s ≡ true → IsField s
unfolding object_id_pattern
object_id-IsField s h = hex-IsField 31 s h

pub blake2b-ne-nil : (s : Bytes) → blake2b_pattern s ≡ true → s ≢ []
unfolding blake2b_pattern
blake2b-ne-nil s h = hex-ne-nil 127 s h

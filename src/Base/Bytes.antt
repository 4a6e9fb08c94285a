-- ===== src/Base/Bytes.antt =====
-- Go strings and byte slices as lists of numbers below 256, with Go's comparison of strings.
use Prim.Native.Char.{code}
use Prim.Native.String.{String}
use Prim.Native.Nat.{ℕ}
use mathlib.Core.Path.{◌≡◌, refl}
use mathlib.Core.Logic.{inl, inr, ◌≢◌, ◌↔◌}
use mathlib.Core.Bool.{Bool, true, false, ◌&&◌, ◌||◌, not}
use mathlib.Core.List.{List, [], ◌∷◌, ◌++◌}
use native.Mathlib.Omega.{arith}
use backup.Base.Tests.{Bool-cases, not_both, ltb, ◌==◌, if◌then◌else◌}
use backup.Base.Lists.{All, length, drop}

abbrev pub Bytes : Type 0
Bytes = List ℕ

-- The bytes of an ASCII literal.
abbrev pub codes : String → Bytes
codes String.[] = []
codes (String.◌∷◌ c s) = code c ∷ codes s

abbrev pub tab : ℕ
tab = 9

abbrev pub lf : ℕ
lf = 10

abbrev pub cr : ℕ
cr = 13

-- `left == right`
unfoldable pub equal : Bytes → Bytes → Bool
equal [] [] = true
equal (x ∷ xs) (y ∷ ys) = x == y && equal xs ys
equal _ _ = false

-- `left < right`
unfoldable pub less : Bytes → Bytes → Bool
less [] [] = false
less [] (y ∷ ys) = true
less (x ∷ xs) [] = false
less (x ∷ xs) (y ∷ ys) = ltb x y || x == y && less xs ys

-- `left <= right`
abbrev pub at_most : Bytes → Bytes → Bool
at_most a b = not (less b a)

-- `left >= right`
abbrev pub at_least : Bytes → Bytes → Bool
at_least a b = not (less a b)

-- `strings.HasPrefix(value, prefix)`
unfoldable pub has_prefix : Bytes → Bytes → Bool
has_prefix value [] = true
has_prefix [] (p ∷ prefix) = false
has_prefix (c ∷ value) (p ∷ prefix) = c == p && has_prefix value prefix

-- `strings.TrimPrefix(value, prefix)`
unfoldable pub trim_prefix : Bytes → Bytes → Bytes
unfolding has_prefix
trim_prefix value prefix = if has_prefix value prefix then drop (length prefix) value else value

-- `bytes.IndexByte(value, b) >= 0`
unfoldable pub contains : ℕ → Bytes → Bool
contains b [] = false
contains b (c ∷ value) = c == b || contains b value

abbrev pub Lacks : ℕ → Bytes → Type 0
Lacks b = All (λ c. c ≢ b)

-- Go's `==` on strings holds exactly of equal texts.
pub equal_iff : (left right : Bytes) → (equal left right ≡ true) ↔ (left ≡ right)
unfolding equal
equal_iff [] [] = ground arith
equal_iff [] (y ∷ right) = ground arith
equal_iff (x ∷ left) [] = ground arith
equal_iff (x ∷ left) (y ∷ right) = ground (arith, equal_iff left right)

pub equal_refl : (a : Bytes) → equal a a ≡ true
equal_refl a = (equal_iff a a).1 refl

pub less_irrefl : (a : Bytes) → less a a ≡ false
unfolding less
less_irrefl [] = refl
less_irrefl (x ∷ a) = ground (arith, less_irrefl a)

pub less_trans : (a b c : Bytes) → less a b ≡ true → less b c ≡ true → less a c ≡ true
unfolding less
less_trans [] [] c h k = cc
less_trans [] (y ∷ b) [] h k = cc
less_trans [] (y ∷ b) (z ∷ c) h k = refl
less_trans (x ∷ a) [] c h k = cc
less_trans (x ∷ a) (y ∷ b) [] h k = cc
less_trans (x ∷ a) (y ∷ b) (z ∷ c) h k = ground (arith, less_trans a b c)

pub less_total : (a b : Bytes) → less a b ≡ false → less b a ≡ false → a ≡ b
unfolding less
less_total [] [] h k = refl
less_total [] (y ∷ b) h k = cc
less_total (x ∷ a) [] h k = cc
less_total (x ∷ a) (y ∷ b) h k = ground (arith, less_total a b)

pub contains-Lacks : (b : ℕ) (s : Bytes) → contains b s ≡ false → Lacks b s
unfolding contains
contains-Lacks b [] h = tt
contains-Lacks b (c ∷ s) h = ground (arith, contains-Lacks b s)

pub Lacks-contains : (b : ℕ) (s : Bytes) → Lacks b s → contains b s ≡ false
unfolding contains
Lacks-contains b [] h = refl
Lacks-contains b (c ∷ s) h = ground (arith, Lacks-contains b s)

pub contains-append : (b : ℕ) (s t : Bytes) → contains b (s ++ t) ≡ (contains b s || contains b t)
unfolding contains
contains-append b [] t = refl
contains-append b (c ∷ s) t = ground (arith, contains-append b s t)

pub equal_nil : (s : Bytes) → s ≢ [] → equal s [] ≡ false
unfolding equal
equal_nil [] h = absurd (h refl)
equal_nil (c ∷ s) h = refl

pub equal-false : (a b : Bytes) → equal a b ≡ false → a ≢ b
equal-false a b h same = not_both ((equal_iff a b).1 same) h

pub ne-equal : (a b : Bytes) → a ≢ b → equal a b ≡ false
ne-equal a b h = elim (Bool-cases (equal a b)) [
  | inl e ↦ absurd (h ((equal_iff a b).0 e))
  | inr e ↦ e
]

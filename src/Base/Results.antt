-- ===== src/Base/Results.antt =====
-- A call that returns `(value, error)` is a value of `Result`; the error is the reason.
use mathlib.Core.Path.{◌≡◌, refl}
use mathlib.Core.Logic.{◌⊎◌, inl, inr}
use mathlib.Core.Bool.{Bool, true, false}

pub data Result {ℓ} (E : Type 0) (A : Type ℓ) : Type ℓ where
  ok : A → Result E A
  err : E → Result E A

infixl 5 ◌>>=◌ ◌>>◌
abbrev pub ◌>>=◌ {ℓ κ} :
    {E : Type 0} {A : Type ℓ} {B : Type κ} → Result E A → (A → Result E B) → Result E B
ok a >>= f = f a
err e >>= f = err e

abbrev pub ◌>>◌ {ℓ} : {E : Type 0} {B : Type ℓ} → Result E (Unit {0}) → Result E B → Result E B
m >> k = m >>= λ _. k

-- `if !test { return err }`
abbrev pub require : {E : Type 0} → Bool → E → Result E (Unit {0})
require true e = ok tt
require false e = err e

-- `if test { return err }`
abbrev pub refuse : {E : Type 0} → Bool → E → Result E (Unit {0})
refuse true e = err e
refuse false e = ok tt

-- The parts of a chain that succeeds.
pub bind-eq-ok {ℓ κ} :
    {E : Type 0} {A : Type ℓ} {B : Type κ} (first : Result E A) (next : A → Result E B) {end : B}
    → (first >>= next) ≡ ok end
    → (mid : A) × (first ≡ ok mid) × (next mid ≡ ok end)
bind-eq-ok (err reason) next h = cc
bind-eq-ok (ok mid) next h = (mid, refl, h)

pub require-eq-ok : {E : Type 0} (t : Bool) (e : E) {u : Unit {0}} → require t e ≡ ok u → t ≡ true
require-eq-ok true e h = refl
require-eq-ok false e h = cc

pub refuse-eq-ok : {E : Type 0} (t : Bool) (e : E) {u : Unit {0}} → refuse t e ≡ ok u → t ≡ false
refuse-eq-ok true e h = cc
refuse-eq-ok false e h = refl

-- `require t e >> k` succeeds only if the test holds and `k` succeeds.
pub require_then {ℓ} :
    {E : Type 0} {B : Type ℓ} (t : Bool) (e : E) (k : Result E B) {b : B}
    → (require t e >> k) ≡ ok b
    → (t ≡ true) × (k ≡ ok b)
require_then true e k h = (refl, h)
require_then false e k h = cc

pub refuse_then {ℓ} :
    {E : Type 0} {B : Type ℓ} (t : Bool) (e : E) (k : Result E B) {b : B}
    → (refuse t e >> k) ≡ ok b
    → (t ≡ false) × (k ≡ ok b)
refuse_then true e k h = cc
refuse_then false e k h = (refl, h)

pub Result-cases {ℓ} :
    {E : Type 0} {A : Type ℓ} (r : Result E A) → ((a : A) × (r ≡ ok a)) ⊎ ((e : E) × (r ≡ err e))
Result-cases (ok a) = inl (a, refl)
Result-cases (err e) = inr (e, refl)

-- An error is no success.
pub err-ne-ok {ℓ} :
    {E : Type 0} {A : Type ℓ} {e : E} {a : A} → ◌≡◌ {A = Result E A} (err e) (ok a) → ⊥
err-ne-ok h = cc

-- ===== src/Repository/StreamCatalogs/Objects.antt =====
-- The map `objectByHash` of `ValidateCatalogs`: what is stored in it and found under a hash.
use mathlib.Core.Path.{subst}
use backup.Base.{
  ◌≡◌, ◌⊎◌, refl, sym, ap, ◌∙◌, true, not, List, [], ◌∷◌, Option, none, some, inl, inr, Bool-cases,
  not_both, ok, bind-eq-ok, refuse_then, All, All-map, All-Among, Among, arith,
}
use backup.Base.Bytes.{Bytes, equal, equal_iff, less, less_trans, less_irrefl}
use backup.Format.Rows.Split.{ok-injective}
use backup.Format.Objects.{ObjectEntry, validate_object_entry, object_not_after}
use backup.Format.Catalogs.{find_object, store_objects}

-- The hashes go up strictly.
abbrev pub Climbing : List ObjectEntry → Type 0
Climbing [] = Unit
Climbing (o ∷ os) = All (λ p. less o.plaintext_hash p.plaintext_hash ≡ true) os × Climbing os

store_objects-behind :
    (previous : ObjectEntry) (before objects : List ObjectEntry) {stored : List ObjectEntry}
    → store_objects (some previous) before objects ≡ ok stored
    → All (λ p. less previous.plaintext_hash p.plaintext_hash ≡ true) objects × Climbing objects
unfolding store_objects object_not_after
store_objects-behind previous before [] h = (tt, tt)
store_objects-behind previous before (o ∷ os) h =
    let (_, _, h1) = bind-eq-ok (validate_object_entry o) _ h in
    let (t, h2) = refuse_then (not (less previous.plaintext_hash o.plaintext_hash)) _ _ h1 in
    let up : less previous.plaintext_hash o.plaintext_hash ≡ true = ground arith in
    let (behind, climbing) = store_objects-behind o (o ∷ before) os h2 in
    (
      (
        up,
        All-map (λ p k. less_trans previous.plaintext_hash o.plaintext_hash p.plaintext_hash up k)
            os behind,
      ),
      (behind, climbing),
    )

pub store_objects-Climbing :
    (objects : List ObjectEntry) {stored : List ObjectEntry}
    → store_objects none [] objects ≡ ok stored
    → Climbing objects
unfolding store_objects object_not_after
store_objects-Climbing [] h = tt
store_objects-Climbing (o ∷ os) h =
    let (_, _, h1) = bind-eq-ok (validate_object_entry o) _ h in
    store_objects-behind o (o ∷ []) os h1

-- Everything is stored.
pub Among-store_objects :
    (previous : Option ObjectEntry) (before objects : List ObjectEntry) {stored : List ObjectEntry}
    → store_objects previous before objects ≡ ok stored
    → (o : ObjectEntry) → Among o before ⊎ Among o objects
    → Among o stored
unfolding store_objects
Among-store_objects previous before [] h o (inl m) = subst (Among o) (ok-injective h) m
Among-store_objects previous before [] h o (inr m) = absurd m
Among-store_objects previous before (p ∷ ps) h o m =
    let (_, _, h1) = bind-eq-ok (validate_object_entry p) _ h in
    let (_, h2) = refuse_then (object_not_after previous p) _ _ h1 in
    Among-store_objects (some p) (p ∷ before) ps h2 o (moved m)
  where
    moved : Among o before ⊎ Among o (p ∷ ps) → Among o (p ∷ before) ⊎ Among o ps
    moved (inl b) = inl (inr b)
    moved (inr (inl e)) = inl (inl e)
    moved (inr (inr n)) = inr n

-- An object is found under the hash of a stored one.
pub find_object-some :
    (hash : Bytes) (stored : List ObjectEntry) (o : ObjectEntry)
    → Among o stored
    → o.plaintext_hash ≡ hash
    → (found : ObjectEntry) × (find_object hash stored ≡ some found)
unfolding find_object
find_object-some hash [] o m e = absurd m
find_object-some hash (p ∷ ps) o (inl here) e =
    (p, rw ((equal_iff p.plaintext_hash hash).1 (sym (ap (λ x. x.plaintext_hash) here) ∙ e)) refl)
find_object-some hash (p ∷ ps) o (inr there) e = elim (Bool-cases (equal p.plaintext_hash hash)) [
  | inl same ↦ (p, rw same refl)
  | inr other ↦ let (found, k) = find_object-some hash ps o there e in (found, rw other k)
]

pub one_hash :
    (objects : List ObjectEntry) (a b : ObjectEntry)
    → Climbing objects
    → Among a objects
    → Among b objects
    → a.plaintext_hash ≡ b.plaintext_hash
    → a ≡ b
one_hash [] a b c m n e = absurd m
one_hash (o ∷ os) a b c (inl i) (inl j) e = i ∙ sym j
one_hash (o ∷ os) a b (c, cs) (inl i) (inr n) e =
    absurd (clash o b (sym (ap (λ x. x.plaintext_hash) i) ∙ e) (All-Among _ b os c n))
  where
    clash :
        (o b : ObjectEntry)
        → o.plaintext_hash ≡ b.plaintext_hash
        → less o.plaintext_hash b.plaintext_hash ≡ true
        → ⊥
    clash o b same up =
        not_both (subst (λ x. less x b.plaintext_hash ≡ true) same up)
          (less_irrefl b.plaintext_hash)
one_hash (o ∷ os) a b (c, cs) (inr m) (inl j) e =
    let up = All-Among (λ p. less o.plaintext_hash p.plaintext_hash ≡ true) a os c m in
    let same = sym (ap (λ x. x.plaintext_hash) j) ∙ sym e in
    absurd (
      not_both (subst (λ x. less x a.plaintext_hash ≡ true) same up) (less_irrefl a.plaintext_hash))
one_hash (o ∷ os) a b (c, cs) (inr m) (inr n) e = one_hash os a b cs m n e

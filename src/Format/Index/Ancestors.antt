-- ===== src/Format/Index/Ancestors.antt =====
-- The directories above a path, as `validateIndexOrder` finds them.
use native.Mathlib.Nat.{le_trans}
use backup.Base.{
  ℕ, zero, suc, ◌≤◌, ◌<◌, ◌≡◌, ◌↔◌, ◌⊎◌, refl, ap, ◌∙◌, Bool, true, false, ◌||◌, [], ◌∷◌, ◌++◌,
  some, arith, leb, ◌==◌, length, length-append, inl, inr, Bool-cases, Option-cases, some-eq,
  append_assoc,
}
use backup.Base.Bytes.{Bytes, equal, equal_iff, equal_refl, less}
use backup.Format.Paths.{slash}
use backup.Format.Index.{before_last_slash, parents_in, parents, member}

less_behind : (c : ℕ) (s t : Bytes) → less s t ≡ true → less (c ∷ s) (c ∷ t) ≡ true
unfolding less
less_behind c s t h = ground arith

pub less-append : (q r : Bytes) → less q (q ++ slash ∷ r) ≡ true
less-append [] r = unfold less in refl
less-append (c ∷ q) r = less_behind c q (q ++ slash ∷ r) (less-append q r)

-- `q` is a directory above `p`, and longer than one byte.
abbrev pub IsParent : Bytes → Bytes → Type 0
IsParent q p = (r : Bytes) × (p ≡ q ++ slash ∷ r) × (1 < length q)

-- What stands before the last slash of `q ++ "/" ++ r`: `q`, or a longer path of this form.
record Cut (q r : Bytes) : Type 0 where
  parent : Bytes
  found : before_last_slash (q ++ slash ∷ r) ≡ some parent
  shorter : length parent < length (q ++ slash ∷ r)
  long : length q ≤ length parent
  either : (parent ≡ q) ⊎ ((rest : Bytes) × (parent ≡ q ++ slash ∷ rest))

before_last_slash-length :
    (p : Bytes) {q : Bytes} → before_last_slash p ≡ some q → length q < length p
unfolding before_last_slash
before_last_slash-length [] h = absurd (cc)
before_last_slash-length (c ∷ p) h = elim (Option-cases (before_last_slash p)) [
  | inl e ↦ let h' = rw (e, before_last_slash) at h in ground arith
  | inr (s, e) ↦
      let ih = before_last_slash-length p e in
      let h' = rw (e, before_last_slash) at h in ground arith
]

before_last_slash-Cut : (q r : Bytes) → Cut q r
before_last_slash-Cut [] r = elim (Option-cases (before_last_slash r)) [
  | inl e ↦ record {
    parent = [];
    found = unfold before_last_slash in rw (e, before_last_slash) refl;
    shorter = omega arith;
    long = omega arith;
    either = inl refl;
  }
  | inr (s, e) ↦ record {
    parent = slash ∷ s;
    found = unfold before_last_slash in rw (e, before_last_slash) refl;
    shorter = omega (arith, before_last_slash-length r e);
    long = omega arith;
    either = inr (s, refl);
  }
]
before_last_slash-Cut (c ∷ q) r =
    let ih = before_last_slash-Cut q r in
    record {
      parent = c ∷ ih.parent;
      found = grow q r ih.parent ih.found;
      shorter = omega (arith, ih.shorter);
      long = omega (arith, ih.long);
      either = elim (ih.either) [
        | inl e ↦ inl (ap (◌∷◌ c) e)
        | inr (rest, e) ↦ inr (rest, ap (◌∷◌ c) e)
      ];
    }
  where
    grow :
        (q' r' parent : Bytes)
        → before_last_slash (q' ++ slash ∷ r') ≡ some parent
        → before_last_slash (c ∷ (q' ++ slash ∷ r')) ≡ some (c ∷ parent)
    grow q' r' parent e = unfold before_last_slash in rw (e, before_last_slash) refl

parents_complete :
    (fuel : ℕ) (q r : Bytes)
    → 1 < length q
    → length (q ++ slash ∷ r) ≤ fuel
    → member q (parents_in fuel (q ++ slash ∷ r)) ≡ true
unfolding parents_in member
parents_complete zero q r l h = absurd (omega (arith, length-append q (slash ∷ r)))
parents_complete (suc fuel) q r l h =
    let cut = before_last_slash-Cut q r in
    let high : leb (length cut.parent) 1 ≡ false = high_of (le_trans l cut.long) in
    rw (cut.found, parents_in)
      (rw high (elim (cut.either) [
        | inl e ↦ rw e (rw (equal_refl q) refl)
        | inr (rest, e) ↦
            let shorter = rw e at (cut.shorter) in
            let ih = parents_complete fuel q rest l (omega (arith, shorter, h)) in
            rw e (rw ih (or_true (equal q (q ++ slash ∷ rest))))
      ]))
  where
    high_of : {n : ℕ} → 1 < n → leb n 1 ≡ false
    high_of k = ground arith

    or_true : (b : Bool) → (b || true) ≡ true
    or_true b = ground arith

before_last_slash-eq :
    (p : Bytes) {q : Bytes} → before_last_slash p ≡ some q → (r : Bytes) × (p ≡ q ++ slash ∷ r)
unfolding before_last_slash
before_last_slash-eq [] h = absurd (cc)
before_last_slash-eq (c ∷ p) {q} h = elim (Option-cases (before_last_slash p)) [
  | inr (s, e) ↦
      let (r, ih) = before_last_slash-eq p e in
      let same : c ∷ s ≡ q = some-eq (rw (e, before_last_slash) at h) in
      (r, rw (← same) (ap (◌∷◌ c) ih))
  | inl e ↦ elim (Bool-cases (c == slash)) [
    | inl t ↦
        let same : [] ≡ q = some-eq (rw t at (rw (e, before_last_slash) at h)) in
        (p, rw (← same) (ap (λ b. b ∷ p) (ground arith)))
    | inr f ↦ absurd (cc (rw f at (rw (e, before_last_slash) at h)))
  ]
]

parents_sound : (fuel : ℕ) (q p : Bytes) → member q (parents_in fuel p) ≡ true → IsParent q p
unfolding parents_in member
parents_sound zero q p h = absurd (cc)
parents_sound (suc fuel) q p h = elim (Option-cases (before_last_slash p)) [
  | inl e ↦ absurd (cc (rw (e, parents_in) at h))
  | inr (parent, e) ↦
      let (r, cut) = before_last_slash-eq p e in
      let h1 = rw (e, parents_in) at h in
      elim (Bool-cases (leb (length parent) 1)) [
        | inl short ↦ absurd (cc (rw short at h1))
        | inr long ↦
            let h2 = rw long at h1 in
            elim (Bool-cases (equal q parent)) [
              | inl t ↦
                  let same = (equal_iff q parent).0 t in (r, rw same cut, rw same (ground arith))
              | inr f ↦
                  let (rest, above, l) = parents_sound fuel q parent (rw f at h2) in
                  (
                    rest ++ slash ∷ r,
                    cut ∙ rw above (rw (append_assoc q (slash ∷ rest) (slash ∷ r))),
                    l,
                  )
            ]
      ]
]

-- The fuel is enough: the parents of a path are exactly the directories above it that are longer than one byte.
pub parents_iff : (q p : Bytes) → (member q (parents p) ≡ true) ↔ IsParent q p
parents_iff q p = (
  parents_sound (length p) q p,
  λ a. rw (a.1) (parents_complete (length (q ++ slash ∷ a.0)) q a.0 a.2 (omega arith)),
)

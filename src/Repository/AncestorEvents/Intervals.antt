-- ===== src/Repository/AncestorEvents/Intervals.antt =====
-- The interval of a path holds exactly the paths that it is a directory above of.
use backup.Base.{
  ℕ, ◌≡◌, ◌↔◌, refl, ap, Bool, true, false, not, ◌&&◌, ◌||◌, [], ◌∷◌, ◌++◌, arith, inl, inr, ==_iff,
  not_both, Bool-cases, ltb, ◌==◌,
}
use backup.Base.Bytes.{Bytes, codes, equal, less}
use backup.Format.Paths.{slash}
use backup.Extsort.{Record, before}

-- The three events of a path.
abbrev pub leaf_of : Bytes → Record
leaf_of path = record { content = codes "2"; key = path }

abbrev pub start_of : Bytes → Record
start_of path = record { content = codes "1"; key = path ++ codes "/" }

abbrev pub end_of : Bytes → Record
end_of path = record { content = codes "0"; key = path ++ codes "0" }

abbrev pub Above : Bytes → Bytes → Type 0
Above q p = (r : Bytes) × (p ≡ q ++ slash ∷ r)

-- `s` is `p` or before it.
reach : Bytes → Bytes → Bool
reach s p = equal s p || less s p

start_reach : (q p : Bytes) → before (start_of q) (leaf_of p) ≡ reach (q ++ codes "/") p
unfolding before reach less
start_reach q p = elim (Bool-cases (equal (q ++ codes "/") p)) [
  | inl same ↦ rw same refl
  | inr other ↦ rw other refl
]

end_reach : (q p : Bytes) → before (end_of q) (leaf_of p) ≡ reach (q ++ codes "0") p
unfolding before reach less
end_reach q p = elim (Bool-cases (equal (q ++ codes "0") p)) [
  | inl same ↦ rw same refl
  | inr other ↦ rw other refl
]

-- Whether the interval of `q` is open at `p`.
abbrev pub open_at : Bytes → Bytes → Bool
open_at p q = before (start_of q) (leaf_of p) && not (before (end_of q) (leaf_of p))

reach_tail : (c : ℕ) (s p : Bytes) → reach (c ∷ s) (c ∷ p) ≡ reach s p
unfolding reach equal less
reach_tail c s p = ground arith

reach_apart : (d c : ℕ) (s p : Bytes) → (d == c) ≡ false → reach (d ∷ s) (c ∷ p) ≡ ltb d c
unfolding reach equal less
reach_apart d c s p h = ground arith

reach_first :
    (c : ℕ) (p : Bytes)
    → (reach (codes "/") (c ∷ p) && not (reach (codes "0") (c ∷ p))) ≡ (c == slash)
unfolding reach equal less
reach_first c [] = ground arith
reach_first c (d ∷ p) = ground arith

within : Bytes → Bytes → Bool
unfolding reach
within q p = reach (q ++ codes "/") p && not (reach (q ++ codes "0") p)

within_iff : (q p : Bytes) → (within q p ≡ true) ↔ Above q p
unfolding within
within_iff [] [] = (λ h. absurd (unfold reach equal less in cc), λ (r, e). absurd (cc))
within_iff [] (c ∷ p) =
    rw (reach_first c p)
      (λ h. (p, ap (λ x. x ∷ p) ((==_iff c slash).0 h)), λ (r, e). (==_iff c slash).1 (cc))
within_iff (d ∷ q) [] = (λ h. absurd (unfold reach equal less in cc), λ (r, e). absurd (cc))
within_iff (d ∷ q) (c ∷ p) = elim (Bool-cases (d == c)) [
  | inl same ↦
      let e = (==_iff d c).0 same in
      let (into, from) = within_iff q p in
      rw (e, reach_tail c (q ++ codes "/") p, reach_tail c (q ++ codes "0") p)
        (λ h. let (r, k) = into h in (r, ap (◌∷◌ c) k), λ (r, k). from (r, tail_eq k))
  | inr other ↦
      rw (reach_apart d c (q ++ codes "/") p other, reach_apart d c (q ++ codes "0") p other)
        (λ h. absurd (ground arith), λ (r, e). absurd (not_both ((==_iff d c).1 (head_eq e)) other))
]
  where
    tail_eq : {a b : ℕ} {x y : Bytes} → ◌≡◌ {A = Bytes} (a ∷ x) (b ∷ y) → x ≡ y
    tail_eq h = cc

    head_eq : {a b : ℕ} {x y : Bytes} → ◌≡◌ {A = Bytes} (b ∷ x) (a ∷ y) → a ≡ b
    head_eq h = cc

-- The interval of `q` is open at `p` exactly if `q` is a directory above `p`.
pub open_at_iff : (q p : Bytes) → (open_at p q ≡ true) ↔ Above q p
open_at_iff q p = rw (start_reach q p, end_reach q p) (unfold within in within_iff q p)

-- The start of an interval is before its end.
pub start_before_end : (q : Bytes) → before (start_of q) (end_of q) ≡ true
unfolding before equal less
start_before_end [] = refl
start_before_end (c ∷ q) = let ih = start_before_end q in ground (arith, ih)

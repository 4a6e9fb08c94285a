-- ===== src/Repository/PackRows/Repair.antt =====
-- A repair moves parts to other objects and changes nothing else.
use backup.Base.{
  ℕ, ◌+◌, ◌≤◌, ◌<◌, ◌≡◌, ◌↔◌, ◌≢◌, ◌⊎◌, refl, sym, false, ◌&&◌, List, [], ◌∷◌, take, length, arith,
  ◌==◌, ==_iff, inl, inr, ok, bind-eq-ok, refuse, require_then, refuse-eq-ok, Bool-cases,
}
use backup.Base.Bytes.{equal, equal_iff, equal-false}
use backup.Format.Rows.Split.{ok-injective}
use backup.Repository.DerivedRows.{
  no_relocation, Row, DerivedRows, join_errors, field, equal_fields, equal_fields_iff,
}
use backup.Repository.PackRows.{count_relocated, check_relocation}

-- Row for row, both of eight fields and the same in the first seven.
abbrev pub Aligned : List Row → List Row → Type 0
Aligned [] [] = Unit
Aligned (old ∷ olds) (new ∷ news) =
    (length old ≡ 8) × (length new ≡ 8) × (take 7 old ≡ take 7 new) × Aligned olds news
Aligned _ _ = ⊥

-- Some row differs from its counterpart in the last field.
abbrev pub Relocated : List Row → List Row → Type 0
Relocated (old ∷ olds) (new ∷ news) = (field old 7 ≢ field new 7) ⊎ Relocated olds news
Relocated _ _ = ⊥

count_relocated-Aligned :
    (changed : ℕ) (olds news : List Row) {total : ℕ}
    → count_relocated changed olds news ≡ ok total
    → Aligned olds news × (((total ≡ changed) ⊎ Relocated olds news) × (changed ≤ total))
unfolding count_relocated
count_relocated-Aligned changed [] [] h = (tt, (inl (sym (ok-injective h)), ground arith))
count_relocated-Aligned changed (old ∷ olds) [] h = cc
count_relocated-Aligned changed [] (new ∷ news) h = cc
count_relocated-Aligned changed (old ∷ olds) (new ∷ news) h =
    let (w, h1) = require_then (length old == 8 && length new == 8) _ _ h in
    let (s, h2) = require_then (equal_fields (take 7 old) (take 7 new)) _ _ h1 in
    let wide : (length old ≡ 8) × (length new ≡ 8) = (ground arith, ground arith) in
    let alike = (equal_fields_iff (take 7 old) (take 7 new)).0 s in
    elim (Bool-cases (equal (field old 7) (field new 7))) [
      | inl e ↦
          let (a, (r, l)) = count_relocated-Aligned changed olds news (rw e at h2) in
          ((wide.0, wide.1, alike, a), (later r, l))
      | inr e ↦
          let (a, (r, l)) = count_relocated-Aligned (changed + 1) olds news (rw e at h2) in
          (
            (wide.0, wide.1, alike, a),
            (inr (inl (equal-false (field old 7) (field new 7) e)), omega arith),
          )
    ]
  where
    later : {P Q R : Type 0} → P ⊎ R → P ⊎ (Q ⊎ R)
    later (inl p) = inl p
    later (inr r) = inr (inr r)

-- How many parts are counted for aligned rows.
record Counted (changed : ℕ) (olds news : List Row) : Type 0 where
  total : ℕ
  found : count_relocated changed olds news ≡ ok total
  least : changed ≤ total
  more : Relocated olds news → changed < total

Aligned-count_relocated :
    (changed : ℕ) (olds news : List Row) → Aligned olds news → Counted changed olds news
unfolding count_relocated
Aligned-count_relocated changed [] [] a = record {
  total = changed;
  found = refl;
  least = omega arith;
  more = λ r. absurd r;
}
Aligned-count_relocated changed (old ∷ olds) [] a = absurd a
Aligned-count_relocated changed [] (new ∷ news) a = absurd a
Aligned-count_relocated changed (old ∷ olds) (new ∷ news) (w, w', s, a) =
    let wide = (==_iff (length old) 8).1 w in
    let wide' = (==_iff (length new) 8).1 w' in
    let alike = (equal_fields_iff (take 7 old) (take 7 new)).1 s in
    elim (Bool-cases (equal (field old 7) (field new 7))) [
      | inl e ↦
          let c = Aligned-count_relocated changed olds news a in
          record {
            total = c.total;
            found = rw (wide, wide', alike, e) c.found;
            least = c.least;
            more = λ r. elim r [
              | inl d ↦ absurd (d ((equal_iff (field old 7) (field new 7)).0 e))
              | inr later ↦ c.more later
            ];
          }
      | inr e ↦
          let c = Aligned-count_relocated (changed + 1) olds news a in
          let least = c.least in
          record {
            total = c.total;
            found = rw (wide, wide', alike, e) c.found;
            least = omega arith;
            more = λ r. omega arith;
          }
    ]

-- `isStreamRepairTransition` accepts two packs.tsv exactly if they have as many rows, all of eight
-- fields, the rows agree in all fields but the object, some row has another object, and neither
-- file fails.
pub check_relocation_iff :
    (old new : DerivedRows)
    → (check_relocation old new ≡ ok tt)
      ↔ (Aligned old.rows new.rows × Relocated old.rows new.rows × (join_errors old new ≡ ok tt))
unfolding check_relocation
check_relocation_iff old new = (
  λ h.
      let (total, counted, h1) = bind-eq-ok (count_relocated 0 old.rows new.rows) _ h in
      let (u, joined, h2) = bind-eq-ok (join_errors old new) _ h1 in
      let (a, (r, l)) = count_relocated-Aligned 0 old.rows new.rows counted in
      (
        a,
        elim r [
          | inl none_moved ↦
              absurd (positive (refuse-eq-ok (total == 0) no_relocation h2) none_moved)
          | inr moved ↦ moved
        ],
        joined,
      ),
  λ p.
      let c = Aligned-count_relocated 0 old.rows new.rows p.0 in
      rw (c.found, p.2) (counted_some (c.more p.1)),
)
  where
    positive : {n : ℕ} → (n == 0) ≡ false → n ≡ 0 → ⊥
    positive h e = ground arith

    counted_some : {n : ℕ} → 0 < n → refuse (n == 0) no_relocation ≡ ok tt
    counted_some h = ground arith

-- ===== src/Repository/History/Topology.antt =====
-- What `compactMirrorTopology` keeps of the mirror rows of a history.
use mathlib.Core.Path.{subst}
use backup.Base.{
  ◌≡◌, ◌≢◌, ◌⊎◌, refl, sym, ap, ◌∙◌, true, false, not, ◌&&◌, List, [], ◌∷◌, inl, inr, Bool-cases,
  not_both, leb, length, ok, bind-eq-ok, require_then, All, All-map, All-Among, Among, arith,
}
use backup.Base.Bytes.{
  Bytes, equal, equal_iff, equal-false, less, less_irrefl, less_trans, less_total,
}
use backup.Format.Rows.Split.{ok-injective}
use backup.Repository.DerivedRows.{Row, field, rebound_mirror, equal_fields, equal_fields_iff}
use backup.Repository.Extension.Laws.{Sorted}
use backup.Repository.PackRows.Ordinary.{Grouped}
use backup.Repository.Sorting.{sort_rows}
use backup.Repository.Sorting.Laws.{sort_rows-Among, Among-sort_rows}
use backup.Repository.Sorting.Places.{sort_rows-Grouped, All-sort_rows}
use backup.Repository.History.{compact_rows, compact_mirror_topology}

-- A row of a name and more.
abbrev pub IsNamed : Row → Type 0
IsNamed r = (leb 2 (length r) && not (equal (field r 0) [])) ≡ true

-- What the loop leaves of sorted rows, behind a row whose name none of them is before.
record Compacted (name : Bytes) (row : Row) (rows out : List Row) : Type 0 where
  named : All IsNamed rows
  kept : (r : Row) → Among r rows → ((field r 0 ≡ name) × (r ≡ row)) ⊎ Among r out
  from : (r : Row) → Among r out → Among r rows
  later : All (λ r. less name (field r 0) ≡ true) out
  sorted : Sorted out

compact_rows-Compacted :
    (name : Bytes) (row : Row) (rows : List Row) {out : List Row}
    → All (λ r. less (field r 0) name ≡ false) rows
    → Grouped rows
    → compact_rows name row rows ≡ ok out
    → Compacted name row rows out
unfolding compact_rows
compact_rows-Compacted name row [] {out} b g h =
    subst (Compacted name row []) (ok-injective h)
      (record { named = tt; kept = λ r m. absurd m; from = λ r m. m; later = tt; sorted = tt })
compact_rows-Compacted name row (r ∷ rows) {out} (b, bs) (g, gs) h =
    let (wide, h1) = require_then (leb 2 (length r) && not (equal (field r 0) [])) _ _ h in
    elim (Bool-cases (equal (field r 0) name)) [
      | inl e ↦
          let (t, h2) =
            require_then (equal_fields r row) rebound_mirror (compact_rows name row rows)
              (rw e at h1) in
          let alike = (equal_fields_iff r row).0 t in
          let c = compact_rows-Compacted name row rows bs gs h2 in
          record {
            named = (wide, c.named);
            kept = λ x m. elim m [
              | inl i ↦ inl (ap (λ z. field z 0) i ∙ (equal_iff (field r 0) name).0 e, i ∙ alike)
              | inr n ↦ c.kept x n
            ];
            from = λ x m. inr (c.from x m);
            later = c.later;
            sorted = c.sorted;
          }
      | inr e ↦
          let (rest, compacted, h2) = bind-eq-ok (compact_rows (field r 0) r rows) _ (rw e at h1) in
          let c = compact_rows-Compacted (field r 0) r rows g gs compacted in
          let up = first_up name (field r 0) b e in
          subst (Compacted name row (r ∷ rows)) (ok-injective h2) (record {
            named = (wide, c.named);
            kept = λ x m. elim m [
              | inl i ↦ inr (inl i)
              | inr n ↦ elim (c.kept x n) [ inl i ↦ inr (inl i.1) | inr k ↦ inr (inr k) ]
            ];
            from = λ x m. elim m [ inl i ↦ inl i | inr n ↦ inr (c.from x n) ];
            later =
                (up, All-map (λ x k. less_trans name (field r 0) (field x 0) up k) rest c.later);
            sorted = (c.later, c.sorted);
          })
    ]
  where
    first_up : (a b : Bytes) → less b a ≡ false → equal b a ≡ false → less a b ≡ true
    first_up a b h other = elim (Bool-cases (less a b)) [
      | inl up ↦ up
      | inr no_less ↦ absurd (equal-false b a other (less_total b a h no_less))
    ]

-- Of rows whose keys go up strictly, one has the key.
pub Sorted-one :
    (rows : List Row) (a b : Row)
    → Sorted rows
    → Among a rows
    → Among b rows
    → field a 0 ≡ field b 0
    → a ≡ b
Sorted-one [] a b s m n e = absurd m
Sorted-one (r ∷ rows) a b s (inl i) (inl j) e = i ∙ sym j
Sorted-one (r ∷ rows) a b (s, ss) (inr m) (inr n) e = Sorted-one rows a b ss m n e
Sorted-one (r ∷ rows) a b (s, ss) (inl i) (inr n) e =
    absurd (same_key r b (All-Among _ b rows s n) (sym (ap (λ x. field x 0) i) ∙ e))
  where
    same_key : (x y : Row) → less (field x 0) (field y 0) ≡ true → field x 0 ≡ field y 0 → ⊥
    same_key x y up k =
        not_both (subst (λ z. less z (field y 0) ≡ true) k up) (less_irrefl (field y 0))
Sorted-one (r ∷ rows) a b (s, ss) (inr m) (inl j) e =
    let up = All-Among (λ x. less (field r 0) (field x 0) ≡ true) a rows s m in
    let k = sym (ap (λ x. field x 0) j) ∙ sym e in
    absurd (not_both (subst (λ z. less z (field a 0) ≡ true) k up) (less_irrefl (field a 0)))

-- The rows that are kept: one for each name, in the order of the names.
pub record IsTopology (raw out : List Row) : Type 0 where
  pub named : All IsNamed raw
  pub kept : (r : Row) → Among r raw → Among r out
  pub from : (r : Row) → Among r out → Among r raw
  pub sorted : Sorted out

none_before_nil : (rows : List Row) → All (λ r. less (field r 0) [] ≡ false) rows
none_before_nil [] = tt
none_before_nil (r ∷ rows) = (not_below (field r 0), none_before_nil rows)
  where
    not_below : (s : Bytes) → less s [] ≡ false
    not_below [] = unfold less in refl
    not_below (c ∷ s) = unfold less in refl

pub has_name : (r : Row) → IsNamed r → field r 0 ≢ []
has_name r h =
    let some_name : equal (field r 0) [] ≡ false = ground arith in
    equal-false (field r 0) [] some_name

-- Rows that `compactMirrorTopology` accepts are compacted to the same rows, each once, in strict
-- order of their names: two different rows of one name are refused.
pub compact_mirror_topology-IsTopology :
    (raw : List Row) {out : List Row} → compact_mirror_topology raw ≡ ok out → IsTopology raw out
unfolding compact_mirror_topology
compact_mirror_topology-IsTopology raw {out} h =
    let c =
      compact_rows-Compacted [] [] (sort_rows raw) (none_before_nil (sort_rows raw))
        (sort_rows-Grouped raw) h in
    record {
      named = (All-sort_rows IsNamed raw).1 c.named;
      kept = λ r m. elim (c.kept r (Among-sort_rows raw r m)) [
        | inr n ↦ n
        | inl (empty, _) ↦ absurd (
            has_name r (All-Among IsNamed r (sort_rows raw) c.named (Among-sort_rows raw r m))
              empty)
      ];
      from = λ r m. sort_rows-Among raw r (c.from r m);
      sorted = c.sorted;
    }

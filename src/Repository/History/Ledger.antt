-- ===== src/Repository/History/Ledger.antt =====
-- `compactMirrorTopology` looks only at which rows there are.
use mathlib.Core.Path.{subst}
use backup.Base.{
  ◌≡◌, ◌≢◌, ◌∙◌, refl, sym, ap, ap₂, true, List, [], ◌∷◌, inl, inr, Bool-cases, not_both, ok, All,
  All-Among, All-of-Among, Among,
}
use backup.Base.Bytes.{Bytes, equal, equal_iff, less, less_irrefl, less_trans}
use backup.Repository.DerivedRows.{Row, field, equal_fields_iff}
use backup.Repository.Extension.Laws.{Sorted}
use backup.Repository.Sorting.{sort_rows}
use backup.Repository.Sorting.Laws.{sort_rows-Among}
use backup.Repository.Sorting.Places.{All-sort_rows}
use backup.Repository.History.{compact_rows, compact_mirror_topology}
use backup.Repository.History.Topology.{
  IsNamed, has_name, compact_mirror_topology-IsTopology, Sorted-one,
}

-- Two lists of the same rows.
abbrev pub SameRows : List Row → List Row → Type 0
SameRows xs ys = ((r : Row) → Among r xs → Among r ys) × ((r : Row) → Among r ys → Among r xs)

not_twice : (x y : Row) → less (field x 0) (field y 0) ≡ true → x ≢ y
not_twice x y up e =
    not_both (subst (λ z. less (field z 0) (field y 0) ≡ true) e up) (less_irrefl (field y 0))

same_head :
    (x y : Row) (xs ys : List Row)
    → All (λ r. less (field x 0) (field r 0) ≡ true) xs
    → All (λ r. less (field y 0) (field r 0) ≡ true) ys
    → Among x (y ∷ ys)
    → Among y (x ∷ xs)
    → x ≡ y
same_head x y xs ys s t (inl e) n = e
same_head x y xs ys s t (inr m) (inl e) = sym e
same_head x y xs ys s t (inr m) (inr n) =
    let up = All-Among (λ r. less (field x 0) (field r 0) ≡ true) y xs s n in
    let down = All-Among (λ r. less (field y 0) (field r 0) ≡ true) x ys t m in
    absurd
      (not_both (less_trans (field x 0) (field y 0) (field x 0) up down) (less_irrefl (field x 0)))

tail-Among :
    (x y : Row) (xs ys : List Row)
    → x ≡ y
    → All (λ r. less (field x 0) (field r 0) ≡ true) xs
    → ((r : Row) → Among r (x ∷ xs) → Among r (y ∷ ys))
    → (r : Row) → Among r xs
    → Among r ys
tail-Among x y xs ys e s h r m = elim (h r (inr m)) [
  | inr n ↦ n
  | inl i ↦
      absurd
        (not_twice x r (All-Among (λ z. less (field x 0) (field z 0) ≡ true) r xs s m) (e ∙ sym i))
]

-- Lists of rows with strictly rising keys that hold the same rows are one list.
Sorted-unique : (xs ys : List Row) → Sorted xs → Sorted ys → SameRows xs ys → xs ≡ ys
Sorted-unique [] [] s t h = refl
Sorted-unique [] (y ∷ ys) s t h = absurd (h.1 y (inl refl))
Sorted-unique (x ∷ xs) [] s t h = absurd (h.0 x (inl refl))
Sorted-unique (x ∷ xs) (y ∷ ys) (s, ss) (t, ts) (h, k) =
    let e = same_head x y xs ys s t (h x (inl refl)) (k y (inl refl)) in
    ap₂ ◌∷◌ e
      (Sorted-unique xs ys ss ts (tail-Among x y xs ys e s h, tail-Among y x ys xs (sym e) t k))

-- The loop accepts rows of which none has the name of another row.
compact_rows-of :
    (name : Bytes) (row : Row) (rows : List Row)
    → All IsNamed rows
    → ((r : Row) → Among r rows → field r 0 ≡ name → r ≡ row)
    → ((a b : Row) → Among a rows → Among b rows → field a 0 ≡ field b 0 → a ≡ b)
    → (out : List Row) × (compact_rows name row rows ≡ ok out)
unfolding compact_rows
compact_rows-of name row [] named once one = ([], refl)
compact_rows-of name row (r ∷ rows) (n, named) once one =
    elim (Bool-cases (equal (field r 0) name)) [
      | inl e ↦
          let alike =
            (equal_fields_iff r row).1 (once r (inl refl) ((equal_iff (field r 0) name).0 e)) in
          let (out, h) =
            compact_rows-of name row rows named (λ x m. once x (inr m))
              (λ a b i j. one a b (inr i) (inr j)) in
          (out, rw (n, e, alike) h)
      | inr e ↦
          let (out, h) =
            compact_rows-of (field r 0) r rows named (λ x m k. one x r (inr m) (inl refl) k)
              (λ a b i j. one a b (inr i) (inr j)) in
          (r ∷ out, rw (n, e, h) refl)
    ]

-- Rows with names, of which no two different ones have one name, are compacted.
pub compact_mirror_topology-of :
    (rows : List Row)
    → All IsNamed rows
    → ((a b : Row) → Among a rows → Among b rows → field a 0 ≡ field b 0 → a ≡ b)
    → (out : List Row) × (compact_mirror_topology rows ≡ ok out)
unfolding compact_mirror_topology
compact_mirror_topology-of rows named one =
    compact_rows-of [] [] (sort_rows rows) ((All-sort_rows IsNamed rows).0 named)
      (λ r m empty.
        absurd (has_name r (All-Among IsNamed r rows named (sort_rows-Among rows r m)) empty))
      (λ a b m n e. one a b (sort_rows-Among rows a m) (sort_rows-Among rows b n) e)

-- Rows that are compacted are compacted alike, in whatever order and however often they come.
pub compact_mirror_topology-SameRows :
    (raw other : List Row) {out : List Row}
    → SameRows raw other
    → compact_mirror_topology raw ≡ ok out
    → compact_mirror_topology other ≡ ok out
compact_mirror_topology-SameRows raw other {out} (into, from) h =
    let t = compact_mirror_topology-IsTopology raw h in
    let (out', compacted) =
      compact_mirror_topology-of other
        (All-of-Among IsNamed other (λ r m. All-Among IsNamed r raw t.named (from r m)))
        (λ a b m n e. Sorted-one out a b t.sorted (t.kept a (from a m)) (t.kept b (from b n)) e) in
    let t' = compact_mirror_topology-IsTopology other compacted in
    let same =
      Sorted-unique out' out t'.sorted t.sorted
        (λ r m. t.kept r (from r (t'.from r m)), λ r m. t'.kept r (into r (t.from r m))) in
    compacted ∙ ap ok same

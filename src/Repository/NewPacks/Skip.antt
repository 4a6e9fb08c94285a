-- ===== src/Repository/NewPacks/Skip.antt =====
-- What the inner loop of `requireNewPackReferences` leaves.
use backup.Base.{◌≡◌, ◌≢◌, ap, ◌∙◌, false, List, [], ◌∷◌, inl, inr, Bool-cases, All, Among}
use mathlib.Core.Path.{subst}
use backup.Base.Bytes.{Bytes, equal, equal_iff, equal-false, less, less_total}
use backup.Repository.DerivedRows.{Row, field}
use backup.Repository.PackRows.Ordinary.{Grouped}
use backup.Repository.NewPacks.{skip_same}

pub skip_same-Among :
    (key : Bytes) (rows : List Row) (r : Row) → Among r (skip_same key rows) → Among r rows
unfolding skip_same
skip_same-Among key [] r h = h
skip_same-Among key (row ∷ rows) r h = elim (Bool-cases (equal (field row 0) key)) [
  | inl e ↦ inr (skip_same-Among key rows r (rw e at h))
  | inr e ↦ rw e at h
]

pub Among-skip_same :
    (key : Bytes) (rows : List Row) (r : Row)
    → field r 0 ≢ key
    → Among r rows
    → Among r (skip_same key rows)
unfolding skip_same
Among-skip_same key [] r d h = h
Among-skip_same key (row ∷ rows) r d h = elim (Bool-cases (equal (field row 0) key)) [
  | inl e ↦ rw e (elim h [
    | inl same ↦ absurd (d (ap (λ x. field x 0) same ∙ (equal_iff (field row 0) key).0 e))
    | inr later ↦ Among-skip_same key rows r d later
  ])
  | inr e ↦ rw e h
]

-- What a property of all rows says of those that are left.
pub skip_same-All :
    (P : Row → Type 0) (key : Bytes) (rows : List Row) → All P rows → All P (skip_same key rows)
unfolding skip_same
skip_same-All P key [] h = h
skip_same-All P key (row ∷ rows) (h, hs) = elim (Bool-cases (equal (field row 0) key)) [
  | inl e ↦ rw e (skip_same-All P key rows hs)
  | inr e ↦ rw e (h, hs)
]

pub skip_same-Grouped :
    (key : Bytes) (rows : List Row) → Grouped rows → Grouped (skip_same key rows)
unfolding skip_same
skip_same-Grouped key [] g = g
skip_same-Grouped key (row ∷ rows) (g, gs) = elim (Bool-cases (equal (field row 0) key)) [
  | inl e ↦ rw e (skip_same-Grouped key rows gs)
  | inr e ↦ rw e (g, gs)
]

-- Rows that begin at a key and do not go down have it no more once another key was met.
above :
    (key : Bytes) (row : Row) (rows : List Row)
    → less (field row 0) key ≡ false
    → field row 0 ≢ key
    → All (λ r. less (field r 0) (field row 0) ≡ false) rows
    → All (λ r. field r 0 ≢ key) rows
above key row [] l d g = tt
above key row (r ∷ rows) l d (g, gs) = (
  λ same. d (less_total (field row 0) key l (subst (λ x. less x (field row 0) ≡ false) same g)),
  above key row rows l d gs,
)

pub skip_same-differs :
    (key : Bytes) (rows : List Row)
    → Grouped rows
    → All (λ r. less (field r 0) key ≡ false) rows
    → All (λ r. field r 0 ≢ key) (skip_same key rows)
unfolding skip_same
skip_same-differs key [] g l = tt
skip_same-differs key (row ∷ rows) (g, gs) (l, ls) = elim (Bool-cases (equal (field row 0) key)) [
  | inl e ↦ rw e (skip_same-differs key rows gs ls)
  | inr e ↦ let d = equal-false (field row 0) key e in rw e (d, above key row rows l d g)
]

-- ===== src/Repository/References/Laws.antt =====
-- The merges accept exactly the files whose references are all found.
use backup.Base.{
  ℕ, ◌≡◌, ◌↔◌, refl, sym, ap, true, false, ◌&&◌, List, [], ◌∷◌, length, arith, ◌==◌, ==_iff, inl,
  inr, Bool-cases, Result, ok, err, ◌>>◌, bind-eq-ok, require, require_then, All, All-map, Among,
  All-Among,
}
use mathlib.Core.Path.{subst}
use backup.Base.Bytes.{Bytes, equal, equal_iff, less, less_irrefl}
use backup.Repository.DerivedRows.{
  Error, missing_object, unknown_pack, Row, DerivedRows, join_errors, field,
}
use backup.Repository.Extension.Laws.{HasWidth, Sorted}
use backup.Repository.PackRows.Ordinary.{Grouped}
use backup.Repository.References.{
  skip_before, follow, check_sizes, merge_index_objects, merge_object_packs, no_check,
}

-- Nothing new is among the rows that are left.
skip_before-Among :
    (key : Bytes) (rows : List Row) (r : Row) → Among r (skip_before key rows) → Among r rows
unfolding skip_before
skip_before-Among key [] r h = h
skip_before-Among key (row ∷ rows) r h = elim (Bool-cases (less (field row 0) key)) [
  | inl l ↦ inr (skip_before-Among key rows r (rw l at h))
  | inr l ↦ rw l at h
]

-- A row that is not before the key is not passed over.
Among-skip_before :
    (key : Bytes) (rows : List Row) (r : Row)
    → less (field r 0) key ≡ false
    → Among r rows
    → Among r (skip_before key rows)
unfolding skip_before
Among-skip_before key [] r l h = h
Among-skip_before key (row ∷ rows) r l (inl e) =
    rw (subst (λ x. less (field x 0) key ≡ false) e l) (inl e)
Among-skip_before key (row ∷ rows) r l (inr h) = elim (Bool-cases (less (field row 0) key)) [
  | inl b ↦ rw b (Among-skip_before key rows r l h)
  | inr b ↦ rw b (inr h)
]

skip_before-Sorted : (key : Bytes) (rows : List Row) → Sorted rows → Sorted (skip_before key rows)
unfolding skip_before
skip_before-Sorted key [] s = s
skip_before-Sorted key (row ∷ rows) (s, ss) = elim (Bool-cases (less (field row 0) key)) [
  | inl b ↦ rw b (skip_before-Sorted key rows ss)
  | inr b ↦ rw b (s, ss)
]

-- A row with the key is the first one left.
skip_before-first :
    (key : Bytes) (rows : List Row) (r : Row)
    → Sorted rows
    → field r 0 ≡ key
    → Among r rows
    → (rest : List Row) × (skip_before key rows ≡ r ∷ rest)
unfolding skip_before
skip_before-first key [] r s e h = absurd h
skip_before-first key (row ∷ rows) r (s, ss) e (inl same) =
    let here =
      subst (λ x. less (field x 0) key ≡ false) same
        (subst (λ k. less (field r 0) k ≡ false) e (less_irrefl (field r 0))) in
    (rows, rw here (ap (λ x. x ∷ rows) (sym same)))
skip_before-first key (row ∷ rows) r (s, ss) e (inr h) =
    let (rest, found) = skip_before-first key rows r ss e h in
    let early = All-Among (λ x. less (field row 0) (field x 0) ≡ true) r rows s h in
    (rest, rw (subst (λ k. less (field row 0) k ≡ true) e early) found)

module _ (left_width right_width : ℕ) (missing : Error)
    (check : Row → Row → Result Error (Unit {0})) where
  -- The row is found among the right ones, and agrees with what is found.
  abbrev pub IsFound : List Row → Row → Type 0
  IsFound rights left =
      (right : Row) × Among right rights
      × (field right 0 ≡ field left 0)
      × (check right left ≡ ok tt)

  -- A step of the loop that succeeds.
  follow_step-IsFound :
      (left : Row) (lefts rights : List Row)
      → elim rights as (λ _. Result Error (Unit {0})) [
        | [] ↦ err missing
        | right ∷ rest ↦
            require (length right == right_width && equal (field right 0) (field left 0)) missing
            >> check right left
            >> follow left_width right_width missing check lefts (right ∷ rest)
      ]
        ≡ ok tt
      → IsFound rights left × (follow left_width right_width missing check lefts rights ≡ ok tt)
  follow_step-IsFound left lefts [] h = cc
  follow_step-IsFound left lefts (right ∷ rest) h =
      let (u, passed, h2) =
        bind-eq-ok
          (require (length right == right_width && equal (field right 0) (field left 0)) missing
            >> check right left)
          _ h in
      let (t, agrees) =
        require_then (length right == right_width && equal (field right 0) (field left 0)) missing
          (check right left) passed in
      let keyed : equal (field right 0) (field left 0) ≡ true = ground arith in
      ((right, inl refl, (equal_iff (field right 0) (field left 0)).0 keyed, agrees), h2)

  follow-IsFound :
      (lefts rights : List Row)
      → follow left_width right_width missing check lefts rights ≡ ok tt
      → HasWidth left_width lefts × All (IsFound rights) lefts
  unfolding follow
  follow-IsFound [] rights h = (tt, tt)
  follow-IsFound (left ∷ lefts) rights h =
      let (w, h1) = require_then (length left == left_width) _ _ h in
      let key = field left 0 in
      let (found, h2) = follow_step-IsFound left lefts (skip_before key rights) h1 in
      let (ws, rest) = follow-IsFound lefts (skip_before key rights) h2 in
      (
        ((==_iff (length left) left_width).0 w, ws),
        (
          (found.0, skip_before-Among key rights found.0 found.1, found.2, found.3),
          All-map (λ l f. (f.0, skip_before-Among key rights f.0 f.1, f.2, f.3)) lefts rest,
        ),
      )

  -- What later rows refer to is not passed over for an earlier one.
  skip_before-IsFound :
      (key : Bytes) (lefts rights : List Row)
      → All (λ l. less (field l 0) key ≡ false) lefts
      → All (IsFound rights) lefts
      → All (IsFound (skip_before key rights)) lefts
  skip_before-IsFound key [] rights g f = tt
  skip_before-IsFound key (l ∷ lefts) rights (g, gs) ((right, has, same, agrees), fs) = (
    (
      right,
      Among-skip_before key rights right (subst (λ x. less x key ≡ false) (sym same) g) has,
      same,
      agrees,
    ),
    skip_before-IsFound key lefts rights gs fs,
  )

  IsFound-follow :
      (lefts rights : List Row)
      → Grouped lefts
      → Sorted rights
      → HasWidth left_width lefts
      → HasWidth right_width rights
      → All (IsFound rights) lefts
      → follow left_width right_width missing check lefts rights ≡ ok tt
  unfolding follow
  IsFound-follow [] rights g s w v f = refl
  IsFound-follow (left ∷ lefts) rights (g, gs) s (w, ws) v ((right, has, same, agrees), fs) =
      let key = field left 0 in
      let (rest, first) = skip_before-first key rights right s same has in
      let wide = (==_iff (length left) left_width).1 w in
      let wide' =
        (==_iff (length right) right_width).1
          (All-Among (λ r. length r ≡ right_width) right rights v has) in
      let keyed = (equal_iff (field right 0) key).1 same in
      let left_over = skip_before-IsFound key lefts rights g fs in
      let narrow : HasWidth right_width (skip_before key rights) = widths key rights v in
      let sorted = skip_before-Sorted key rights s in
      let again = IsFound-follow lefts (skip_before key rights) gs sorted ws narrow left_over in
      rw (wide, first, wide', keyed, agrees) (rw first at again)
    where
      widths :
          (k : Bytes) (rows : List Row)
          → HasWidth right_width rows
          → HasWidth right_width (skip_before k rows)
      widths k [] h = unfold skip_before in h
      widths k (r ∷ rows) (h, hs) = elim (Bool-cases (less (field r 0) k)) [
        | inl b ↦ unfold skip_before in rw b (widths k rows hs)
        | inr b ↦ unfold skip_before in rw b (h, hs)
      ]

-- What `mergeIndexObjects` accepts, by its own comparison of sizes.
pub merge_index_objects-IsFound :
    (index objects : DerivedRows)
    → Grouped index.rows
    → Sorted objects.rows
    → HasWidth 3 index.rows
    → HasWidth 3 objects.rows
    → (merge_index_objects index objects ≡ ok tt) ↔ (
        All (IsFound 3 3 missing_object check_sizes objects.rows) index.rows
        × (join_errors index objects ≡ ok tt))
unfolding merge_index_objects
merge_index_objects-IsFound index objects g s w v = (
  λ h.
      let (u, followed, joined) =
        bind-eq-ok (follow 3 3 missing_object check_sizes index.rows objects.rows) _ h in
      ((follow-IsFound 3 3 missing_object check_sizes index.rows objects.rows followed).1, joined),
  λ p. rw (IsFound-follow 3 3 missing_object check_sizes index.rows objects.rows g s w v p.0) (p.1),
)

-- Of objects of two fields whose pack hashes do not go down, and packs of one field whose hashes go
-- up strictly, `mergeObjectPacks` accepts exactly those where every object has its pack among the
-- packs, and no file fails.
pub merge_object_packs_iff :
    (objects packs : DerivedRows)
    → Grouped objects.rows
    → Sorted packs.rows
    → HasWidth 2 objects.rows
    → HasWidth 1 packs.rows
    → (merge_object_packs objects packs ≡ ok tt) ↔ (
        All (IsFound 2 1 unknown_pack no_check packs.rows) objects.rows
        × (join_errors objects packs ≡ ok tt))
unfolding merge_object_packs
merge_object_packs_iff objects packs g s w v = (
  λ h.
      let (u, followed, joined) =
        bind-eq-ok (follow 2 1 unknown_pack no_check objects.rows packs.rows) _ h in
      ((follow-IsFound 2 1 unknown_pack no_check objects.rows packs.rows followed).1, joined),
  λ p. rw (IsFound-follow 2 1 unknown_pack no_check objects.rows packs.rows g s w v p.0) (p.1),
)

-- ===== src/Repository/AncestorEvents/Visits.antt =====
-- What the visitor of `validateAncestorEvents` does of each kind of event, and how it keeps count.
use mathlib.Core.List.{Perm}
use backup.Base.{
  ℕ, ◌+◌, ◌-◌, ◌^◌, ◌<◌, ◌≡◌, ◌↔◌, refl, sym, Bool, false, not, ◌&&◌, List, [], ◌∷◌, ◌++◌, arith,
  ◌==◌, ==_iff, All, ok, require_then, refuse_then,
}
use backup.Base.Bytes.{Bytes, codes, equal, equal-false}
use backup.Extsort.{Record, before}
use backup.Extsort.Order.{before_chain}
use backup.Format.Rows.Split.{ok-injective}
use backup.Extsort.Sorted.{Ascending}
use backup.Repository.AncestorEvents.{visit_event}
use backup.Repository.AncestorEvents.Counts.{count, count-append, count_split}
use backup.Repository.AncestorEvents.Order.{row_of}
use backup.Repository.AncestorEvents.Intervals.{
  leaf_of, start_of, end_of, open_at, start_before_end,
}
use backup.Repository.AncestorEvents.Places.{event_list, is_start, is_end, starts_front, ends_front}

-- The kinds of event.
pub data IsKind (e : Record) : Type 0 where
  ending : e.content ≡ codes "0" → IsKind e
  starting : e.content ≡ codes "1" → IsKind e
  leaf : (p : Bytes) → e ≡ leaf_of p → IsKind e

pub event_list-IsKind : (ps : List Bytes) → All IsKind (event_list ps)
event_list-IsKind [] = tt
event_list-IsKind (p ∷ ps) = (leaf p refl, (starting refl, (ending refl, event_list-IsKind ps)))

-- What the visitor does of each kind of event.
pub visit_ending :
    (active : ℕ) (e : Record)
    → e.content ≡ codes "0"
    → 0 < active
    → visit_event active (row_of e) ≡ ok (active - 1)
unfolding visit_event equal
visit_ending active e h some_open = let t : (active == 0) ≡ false = ground arith in rw h (rw t refl)

pub visit_starting :
    (active : ℕ) (e : Record)
    → e.content ≡ codes "1"
    → active < 2 ^ 63 - 1
    → visit_event active (row_of e) ≡ ok (active + 1)
unfolding visit_event equal
visit_starting active e h room =
    let t : (active == 2 ^ 63 - 1) ≡ false = ground arith in rw h (rw t refl)

pub visit_leaf : (p : Bytes) → visit_event 0 (row_of (leaf_of p)) ≡ ok 0
unfolding visit_event equal
visit_leaf p = refl

pub visit_ending-ok :
    (active next : ℕ) (e : Record)
    → e.content ≡ codes "0"
    → visit_event active (row_of e) ≡ ok next
    → next + 1 ≡ active
unfolding visit_event equal
visit_ending-ok active next e h k =
    let (t, k1) = refuse_then (active == 0) _ _ (rw h at k) in
    let same = ok-injective k1 in ground arith

pub visit_starting-ok :
    (active next : ℕ) (e : Record)
    → e.content ≡ codes "1"
    → visit_event active (row_of e) ≡ ok next
    → next ≡ active + 1
unfolding visit_event equal
visit_starting-ok active next e h k =
    let (t, k1) = refuse_then (active == 2 ^ 63 - 1) _ _ (rw h at k) in sym (ok-injective k1)

pub visit_leaf-ok :
    (active next : ℕ) (p : Bytes)
    → visit_event active (row_of (leaf_of p)) ≡ ok next
    → (active ≡ 0) × (next ≡ active)
unfolding visit_event equal
visit_leaf-ok active next p k =
    let (t, k1) = require_then (active == 0) _ _ k in ((==_iff active 0).0 t, sym (ok-injective k1))

abbrev pub Balanced : ℕ → List Record → Type 0
Balanced active pre = active + count is_end pre ≡ count is_start pre

module _ (ps : List Bytes) where
  -- At the event of a path no interval is open.
  unfoldable pub closed_test : Record → Bool
  closed_test e = equal e.content (codes "2") && not (count (open_at e.key) ps == 0)

  pub closed_other :
      (e : Record) (kind : Bytes)
      → e.content ≡ kind
      → equal kind (codes "2") ≡ false
      → closed_test e ≡ false
  unfolding closed_test
  closed_other e kind h other = rw (h, other) refl

  pub closed_leaf : (p : Bytes) → (closed_test (leaf_of p) ≡ false) ↔ (count (open_at p) ps ≡ 0)
  unfolding closed_test equal
  closed_leaf p = ground arith

  -- The intervals that are open in front of a path.
  pub open_front :
      (pre : List Record) (p : Bytes) (post : List Record)
      → Ascending (pre ++ leaf_of p ∷ post)
      → Perm (pre ++ leaf_of p ∷ post) (event_list ps)
      → count is_start pre ≡ count is_end pre + count (open_at p) ps
  unfolding equal
  open_front pre p post sorted same =
      let starts =
        starts_front ps pre (leaf_of p) post sorted same
          (equal-false (codes "2") (codes "1") refl) in
      let ends =
        ends_front ps pre (leaf_of p) post sorted same (equal-false (codes "2") (codes "0") refl) in
      let split =
        count_split (λ q. before (end_of q) (leaf_of p)) (λ q. before (start_of q) (leaf_of p)) ps
          (λ q. before_chain (start_of q) (end_of q) (leaf_of p) (start_before_end q)) in
      omega (arith, starts, ends, split)

  pub Balanced-start :
      (active : ℕ) (pre : List Record) (r : Record)
      → r.content ≡ codes "1"
      → Balanced active pre
      → Balanced (active + 1) (pre ++ r ∷ [])
  unfolding equal
  Balanced-start active pre r h b =
      let one = count-append is_start pre (r ∷ []) in
      let none_left = count-append is_end pre (r ∷ []) in rw (one, none_left, h) (omega arith)

  pub Balanced-end :
      (active : ℕ) (pre : List Record) (r : Record)
      → r.content ≡ codes "0"
      → Balanced (active + 1) pre
      → Balanced active (pre ++ r ∷ [])
  unfolding equal
  Balanced-end active pre r h b =
      rw (count-append is_start pre (r ∷ []), count-append is_end pre (r ∷ []), h) (omega arith)

  pub Balanced-leaf :
      (active : ℕ) (pre : List Record) (p : Bytes)
      → Balanced active pre
      → Balanced active (pre ++ leaf_of p ∷ [])
  unfolding equal
  Balanced-leaf active pre p b =
      rw (count-append is_start pre (leaf_of p ∷ []), count-append is_end pre (leaf_of p ∷ []))
        (omega arith)

-- ===== src/Repository/Extension/Laws.antt =====
-- The merge accepts exactly the catalogs that hold the old rows, unchanged, among new ones.
use backup.Base.{
  err-ne-ok, All-Among, ℕ, ◌≡◌, ◌↔◌, refl, sym, true, ◌&&◌, List, [], ◌∷◌, length, arith, ◌==◌,
  ==_iff, inl, inr, ok, bind-eq-ok, require_then, All, Among,
}
use mathlib.Core.Path.{subst}
use backup.Base.Bytes.{less}
use backup.Format.Rows.Split.{ok-injective}
use backup.Repository.DerivedRows.{
  Comparison-cases, Row, DerivedRows, join_errors, field, compare_bytes, compare_bytes_refl,
  compare_bytes-behind, equal_fields, equal_fields_iff,
}
use backup.Repository.Extension.{merge_rows, merge_catalog_extension}

-- The new rows are the old ones, unchanged and in their order, with the added ones put among them.
pub data Interleaved : List Row → List Row → List Row → Type 0 where
  none_left : Interleaved [] [] []
  kept :
      (row : Row) {old added new : List Row}
      → Interleaved old added new
      → Interleaved (row ∷ old) added (row ∷ new)
  put :
      (row : Row) {old added new : List Row}
      → Interleaved old added new
      → Interleaved old (row ∷ added) (row ∷ new)

abbrev pub HasWidth : ℕ → List Row → Type 0
HasWidth count = All (λ row. length row ≡ count)

-- The first fields go up strictly.
abbrev pub Sorted : List Row → Type 0
Sorted [] = Unit
Sorted (row ∷ rows) = All (λ r. less (field row 0) (field r 0) ≡ true) rows × Sorted rows

merge_rows-Interleaved :
    (count : ℕ) (old new : List Row) {added : List Row}
    → merge_rows count old new ≡ ok added
    → Interleaved old added new × HasWidth count new
unfolding merge_rows
merge_rows-Interleaved count [] [] h =
    (subst (λ a. Interleaved [] a []) (ok-injective h) none_left, tt)
merge_rows-Interleaved count (o ∷ os) [] h =
    let (w, h1) = require_then (length o == count) _ _ h in cc
merge_rows-Interleaved count [] (n ∷ ns) h =
    let (w, h1) = require_then (length n == count) _ _ h in
    let (rest, r, h2) = bind-eq-ok (merge_rows count [] ns) _ h1 in
    let (i, ws) = merge_rows-Interleaved count [] ns r in
    (
      subst (λ a. Interleaved [] a (n ∷ ns)) (ok-injective h2) (put n i),
      ((==_iff (length n) count).0 w, ws),
    )
merge_rows-Interleaved count (o ∷ os) (n ∷ ns) {added} h =
    let (w, h1) = require_then (length o == count && length n == count) _ _ h in
    let wide : (length n == count) ≡ true = ground arith in
    let width = (==_iff (length n) count).0 wide in
    elim (Comparison-cases (compare_bytes (field o 0) (field n 0))) [
      | inl e ↦
          let (f, h2) = require_then (equal_fields o n) _ _ (rw e at h1) in
          let (i, ws) = merge_rows-Interleaved count os ns h2 in
          (
            subst (λ r. Interleaved (r ∷ os) added (n ∷ ns)) (sym ((equal_fields_iff o n).0 f))
                (kept n i),
            (width, ws),
          )
      | inr (inl e) ↦ absurd (err-ne-ok (rw e at h1))
      | inr (inr e) ↦
          let (rest, r, h2) = bind-eq-ok (merge_rows count (o ∷ os) ns) _ (rw e at h1) in
          let (i, ws) = merge_rows-Interleaved count (o ∷ os) ns r in
          (subst (λ a. Interleaved (o ∷ os) a (n ∷ ns)) (ok-injective h2) (put n i), (width, ws))
    ]

pub merge_catalog_extension-Interleaved :
    (old new : DerivedRows) (count : ℕ) {added : List Row}
    → merge_catalog_extension old new count ≡ ok added
    → Interleaved old.rows added new.rows × HasWidth count new.rows × (join_errors old new ≡ ok tt)
unfolding merge_catalog_extension
merge_catalog_extension-Interleaved old new count h =
    let (rows, merged, h1) = bind-eq-ok (merge_rows count old.rows new.rows) _ h in
    let (u, joined, h2) = bind-eq-ok (join_errors old new) _ h1 in
    let (i, w) = merge_rows-Interleaved count old.rows new.rows merged in
    (subst (λ a. Interleaved old.rows a new.rows) (ok-injective h2) i, w, joined)

pub Interleaved-Among :
    (o : Row) (os added new : List Row) → Interleaved (o ∷ os) added new → Among o new
Interleaved-Among o os added [] i = elim i [ ]
Interleaved-Among o os added (_ ∷ new) (kept n i) = inl refl
Interleaved-Among o os (_ ∷ added) (_ ∷ new) (put n i) = inr (Interleaved-Among o os added new i)

merge_rows-of :
    (count : ℕ) (old added new : List Row)
    → Interleaved old added new
    → HasWidth count new
    → Sorted new
    → merge_rows count old new ≡ ok added
unfolding merge_rows
merge_rows-of count [] [] [] none_left w s = refl
merge_rows-of count [] [] (_ ∷ new) i w s = elim i [ ]
merge_rows-of count [] (_ ∷ added) [] i w s = elim i [ ]
merge_rows-of count (o ∷ old) added [] i w s = elim i [ ]
merge_rows-of count (_ ∷ old) added (_ ∷ new) (kept n i) (w, ws) (s, ss) =
    let wide = (==_iff (length n) count).1 w in
    let alike = (equal_fields_iff n n).1 refl in
    rw (wide, compare_bytes_refl (field n 0), alike) (merge_rows-of count old added new i ws ss)
merge_rows-of count [] (_ ∷ added) (_ ∷ new) (put n i) (w, ws) (s, ss) =
    let wide = (==_iff (length n) count).1 w in
    rw (wide, merge_rows-of count [] added new i ws ss) refl
merge_rows-of count (o ∷ old) (_ ∷ added) (_ ∷ new) (put n i) (w, ws) (s, ss) =
    let wide = (==_iff (length n) count).1 w in
    let has = Interleaved-Among o old added new i in
    let wide' = (==_iff (length o) count).1 (All-Among (λ r. length r ≡ count) o new ws has) in
    let order =
      compare_bytes-behind (field o 0) (field n 0)
        (All-Among (λ r. less (field n 0) (field r 0) ≡ true) o new s has) in
    rw (wide', wide, order, merge_rows-of count (o ∷ old) added new i ws ss) refl

-- Of new rows whose first fields go up strictly, `mergeCatalogExtension` accepts exactly those of
-- the width asked for that are the old rows, unchanged and in order, with other rows put among
-- them, if neither file fails; and the rows it hands to its callback are those others.
pub merge_catalog_extension_iff :
    (old new : DerivedRows) (count : ℕ) (added : List Row)
    → Sorted new.rows
    → (merge_catalog_extension old new count ≡ ok added) ↔ (
        Interleaved old.rows added new.rows
        × HasWidth count new.rows
        × (join_errors old new ≡ ok tt))
unfolding merge_catalog_extension
merge_catalog_extension_iff old new count added s = (
  merge_catalog_extension-Interleaved old new count,
  λ p. rw (merge_rows-of count old.rows added new.rows p.0 p.1 s, p.2) refl,
)

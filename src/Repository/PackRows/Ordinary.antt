-- ===== src/Repository/PackRows/Ordinary.antt =====
-- An ordinary transition adds whole packs: it keeps every row and gives no part to an old pack.
use backup.Base.{
  if◌then◌else◌, err-ne-ok, ◌≡◌, ◌≢◌, refl, sym, ap, ◌∙◌, Bool, false, ◌&&◌, ◌||◌, List, [], ◌∷◌,
  length, arith, ◌==◌, inl, inr, Result, ok, bind-eq-ok, require_then, refuse_then, All, All-map,
  All-Among,
}
use mathlib.Core.Path.{subst}
use backup.Base.Bytes.{Bytes, codes, equal, equal-false, less, less_total}
use backup.Format.Rows.Split.{ok-injective}
use backup.Repository.DerivedRows.{
  Comparison-cases, Error, Row, DerivedRows, join_errors, field, compare_pack_fields, equal_fields,
  equal_fields_iff,
}
use backup.Repository.Extension.Laws.{Interleaved, Interleaved-Among, none_left, kept, put}
use backup.Repository.PackRows.{begin_pack, merge_packs, added_packs}

-- The hashes of the packs do not go down.
abbrev pub Grouped : List Row → Type 0
Grouped [] = Unit
Grouped (row ∷ rows) = All (λ r. less (field r 0) (field row 0) ≡ false) rows × Grouped rows

-- The row belongs to the pack of none of the others.
abbrev pub IsFresh : List Row → Row → Type 0
IsFresh old row = All (λ o. field row 0 ≢ field o 0) old

-- The hashes of the packs that begin in the rows: those of the rows of part 0, in order.
abbrev pub begun : List Row → List Bytes
begun [] = []
begun (row ∷ rows) =
    let rest = begun rows in if equal (field row 1) (codes "0") then field row 0 ∷ rest else rest

-- What the merge says when it accepts, with the hash of the last old row that it matched.
record Merged (last : Bytes) (old new : List Row) (hashes : List Bytes) : Type 0 where
  added : List Row
  interleaved : Interleaved old added new
  spelled : hashes ≡ begun added
  fresh : All (λ row. (field row 0 ≢ last) × IsFresh old row) added

Interleaved-added :
    (P : Row → Type 0) (old added new : List Row)
    → Interleaved old added new
    → All P new
    → All P added
Interleaved-added P [] [] [] none_left h = tt
Interleaved-added P [] (_ ∷ added) [] i h = elim i [ ]
Interleaved-added P (_ ∷ old) added [] i h = elim i [ ]
Interleaved-added P (_ ∷ old) added (_ ∷ new) (kept n i) (h, hs) =
    Interleaved-added P old added new i hs
Interleaved-added P old (_ ∷ added) (_ ∷ new) (put n i) (h, hs) =
    (h, Interleaved-added P old added new i hs)

-- A row before which the others do not come, and whose pack is another than that of the next one.
IsFresh-before :
    (n o : Row) (os : List Row)
    → less (field o 0) (field n 0) ≡ false
    → field n 0 ≢ field o 0
    → All (λ r. less (field r 0) (field o 0) ≡ false) os
    → IsFresh os n
IsFresh-before n o [] l d g = tt
IsFresh-before n o (r ∷ os) l d (g, gs) = (
  λ same. d (
      sym (
        less_total (field o 0) (field n 0) l
          (subst (λ x. less x (field o 0) ≡ false) (sym same) g))),
  IsFresh-before n o os l d gs,
)

-- Rows that are not before `last` and fresh after a match of `o` were fresh before it.
IsFresh-again :
    (last : Bytes) (o : Row) (os rows : List Row)
    → less (field o 0) last ≡ false
    → All (λ r. less (field r 0) (field o 0) ≡ false) rows
    → All (λ row. (field row 0 ≢ field o 0) × IsFresh os row) rows
    → All (λ row. (field row 0 ≢ last) × IsFresh (o ∷ os) row) rows
IsFresh-again last o os [] l g h = tt
IsFresh-again last o os (row ∷ rows) l (g, gs) ((d, f), hs) = (
  (
    λ same. d (
        less_total (field row 0) (field o 0) g
          (subst (λ x. less (field o 0) x ≡ false) (sym same) l)),
    (d, f),
  ),
  IsFresh-again last o os rows l gs hs,
)

-- A row that is put among the new ones.
Merged-put :
    (last : Bytes) (old : List Row) (n : Row) (news : List Row) {hashes rest : List Bytes}
    → field n 0 ≢ last
    → IsFresh old n
    → Merged last old news rest
    → ◌≡◌ {A = Result Error (List Bytes)} (ok (begin_pack n rest)) (ok hashes)
    → Merged last old (n ∷ news) hashes
unfolding begin_pack
Merged-put last old n news d f m h = record {
  added = n ∷ m.added;
  interleaved = put n m.interleaved;
  spelled = sym (ok-injective h) ∙ ap (begin_pack n) m.spelled;
  fresh = ((d, f), m.fresh);
}

merge_packs-Merged :
    (last : Bytes) (old new : List Row) {hashes : List Bytes}
    → Grouped old
    → Grouped new
    → All (λ r. less (field r 0) last ≡ false) new
    → merge_packs last old new ≡ ok hashes
    → Merged last old new hashes
unfolding merge_packs
merge_packs-Merged last [] [] g k b h = record {
  added = [];
  interleaved = none_left;
  spelled = sym (ok-injective h);
  fresh = tt;
}
merge_packs-Merged last (o ∷ os) [] g k b h =
    let (w, h1) = require_then (length o == 8) _ _ h in absurd (err-ne-ok h1)
merge_packs-Merged last [] (n ∷ ns) g (k, ks) (b, bs) h =
    let (w, h1) = require_then (length n == 8) _ _ h in
    let (d, h2) = refuse_then (equal (field n 0) last) _ _ h1 in
    let (rest, r, h3) = bind-eq-ok (merge_packs last [] ns) _ h2 in
    Merged-put last [] n ns (equal-false (field n 0) last d) tt
      (merge_packs-Merged last [] ns tt ks bs r) h3
merge_packs-Merged last (o ∷ os) (n ∷ ns) {hashes} (g, gs) (k, ks) (b, bs) h =
    let (w, h1) = require_then (length o == 8 && length n == 8) _ _ h in
    elim (Comparison-cases (compare_pack_fields o n)) [
      | inl e ↦
          let (f, h2) = require_then (equal_fields o n) _ _ (rw e at h1) in
          let alike = (equal_fields_iff o n).0 f in
          let low = subst (λ r. All (λ x. less (field x 0) (field r 0) ≡ false) ns) (sym alike) k in
          let m = merge_packs-Merged (field o 0) os ns gs ks low h2 in
          let first = subst (λ r. less (field r 0) last ≡ false) (sym alike) b in
          record {
            added = m.added;
            interleaved =
                subst (λ r. Interleaved (r ∷ os) m.added (n ∷ ns)) (sym alike)
                  (kept n m.interleaved);
            spelled = m.spelled;
            fresh =
                IsFresh-again last o os m.added first
                  (Interleaved-added _ os m.added ns m.interleaved low) m.fresh;
          }
      | inr (inl e) ↦ absurd (err-ne-ok (rw e at h1))
      | inr (inr e) ↦
          let (d, h2) =
            refuse_then (equal (field n 0) last || equal (field n 0) (field o 0)) _ _
              (rw e at h1) in
          let (rest, r, h3) = bind-eq-ok (merge_packs last (o ∷ os) ns) _ h2 in
          let m = merge_packs-Merged last (o ∷ os) ns (g, gs) ks bs r in
          let apart : (equal (field n 0) last ≡ false) × (equal (field n 0) (field o 0) ≡ false) =
            or_false d in
          let other = equal-false (field n 0) (field o 0) apart.1 in
          let has = Interleaved-Among o os m.added ns m.interleaved in
          let after = All-Among (λ r. less (field r 0) (field n 0) ≡ false) o ns k has in
          Merged-put last (o ∷ os) n ns (equal-false (field n 0) last apart.0)
            (other, IsFresh-before n o os after other g) m h3
    ]
  where
    or_false : {p q : Bool} → (p || q) ≡ false → (p ≡ false) × (q ≡ false)
    or_false t = ground arith

-- Of packs whose hashes do not go down, what `validateStreamOrdinaryExtension` accepts is the old
-- rows, unchanged and in order, with rows put among them that belong to no pack of the old ones;
-- and the hashes that it hands on are those of the packs that begin in these rows: of each of them
-- with part number 0, in order.
pub added_packs-IsFresh :
    (old new : DerivedRows) {hashes : List Bytes}
    → Grouped old.rows
    → Grouped new.rows
    → added_packs old new ≡ ok hashes
    → (added : List Row) × Interleaved old.rows added new.rows
      × (hashes ≡ begun added)
      × All (IsFresh old.rows) added
unfolding added_packs
added_packs-IsFresh old new g k h =
    let (found, merged, h1) = bind-eq-ok (merge_packs [] old.rows new.rows) _ h in
    let (u, joined, h2) = bind-eq-ok (join_errors old new) _ h1 in
    let m = merge_packs-Merged [] old.rows new.rows g k (lowest new.rows) merged in
    (
      m.added,
      m.interleaved,
      sym (ok-injective h2) ∙ m.spelled,
      All-map (λ row f. f.1) m.added m.fresh,
    )
  where
    least : (a : Bytes) → less a [] ≡ false
    least [] = unfold less in refl
    least (c ∷ a) = unfold less in refl

    lowest : (rows : List Row) → All (λ r. less (field r 0) [] ≡ false) rows
    lowest [] = tt
    lowest (r ∷ rows) = (least (field r 0), lowest rows)

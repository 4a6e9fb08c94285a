-- ===== src/Repository/StreamCatalogs/Packs.antt =====
-- The merge of the objects' packs finds what `ValidateCatalogs` finds in its set of packs.
use mathlib.Core.Path.{subst}
use backup.Base.{
  ◌≡◌, ◌≢◌, ◌⊎◌, ◌↔◌, refl, sym, ap, ◌∙◌, true, false, not, ◌&&◌, List, [], ◌∷◌, map, none, some,
  inl, inr, Bool-cases, and_true, ok, bind-eq-ok, require_then, refuse_then, All, All-map, Among,
  arith, length,
}
use backup.Base.Bytes.{Bytes, equal, equal_iff, equal_nil, less, less_trans}
use backup.Format.Patterns.{blake2b_pattern, matches}
use backup.Format.Packs.Sequence.{equal_comm}
use backup.Format.Objects.{ObjectEntry}
use backup.Format.Packs.{
  PackEntry, validate_pack_entry, check_place, check_sequence, validate_pack_sequence,
  last_for_pack, is_terminal,
}
use backup.Format.Catalogs.{has_pack, check_objects}
use backup.Format.Catalogs.Laws.{check_objects-All}
use backup.Repository.DerivedRows.{unknown_pack, Row, field, join_errors}
use backup.Repository.Sorting.{sort_rows}
use backup.Repository.Sorting.Places.{sort_rows-Grouped, All-sort_rows}
use backup.Repository.Extension.Laws.{HasWidth, Sorted}
use backup.Repository.References.{merge_object_packs, no_check}
use backup.Repository.References.Laws.{IsFound, merge_object_packs_iff}
use backup.Repository.StreamCatalogs.{pack_reference, pack_hashes, written}

All-check_objects :
    (packs : List PackEntry) (objects : List ObjectEntry)
    → All (λ o. has_pack o.pack_hash packs ≡ true) objects
    → check_objects packs objects ≡ ok tt
unfolding check_objects
All-check_objects packs [] h = refl
All-check_objects packs (o ∷ os) (h, hs) = rw h (All-check_objects packs os hs)

hashes_behind :
    (previous : PackEntry) (packs : List PackEntry)
    → check_sequence (some previous) packs ≡ ok tt
    → All (λ r. less previous.pack_hash (field r 0) ≡ true) (pack_hashes previous.pack_hash packs)
      × Sorted (pack_hashes previous.pack_hash packs)
unfolding check_sequence check_place pack_hashes
hashes_behind previous [] h = (tt, tt)
hashes_behind previous (entry ∷ packs) h =
    let (_, valid, h1) = bind-eq-ok (validate_pack_entry entry) _ h in
    let (_, placed, h2) = bind-eq-ok (check_place (some previous) entry) _ h1 in
    let (_, h3) = refuse_then (last_for_pack entry packs && not (is_terminal entry)) _ _ h2 in
    let ih = hashes_behind entry packs h3 in
    elim (Bool-cases (equal entry.pack_hash previous.pack_hash)) [
      | inl same ↦
          let e = (equal_iff entry.pack_hash previous.pack_hash).0 same in
          rw same (
            subst
              (λ x.
                All (λ r. less x (field r 0) ≡ true) (pack_hashes x packs)
                × Sorted (pack_hashes x packs))
              e ih)
      | inr other ↦
          let apart = equal_comm previous.pack_hash entry.pack_hash ∙ other in
          let (t, _) =
            refuse_then (not (less previous.pack_hash entry.pack_hash)) _ _ (rw apart at placed) in
          let up : less previous.pack_hash entry.pack_hash ≡ true = ground arith in
          rw other (
            (
              up,
              All-map (λ r k. less_trans previous.pack_hash entry.pack_hash (field r 0) up k)
                  (pack_hashes entry.pack_hash packs) ih.0,
            ),
            ih,
          )
    ]

pub blake2b_some : (s : Bytes) → blake2b_pattern s ≡ true → s ≢ []
unfolding blake2b_pattern matches
blake2b_some [] h = absurd (cc)
blake2b_some (c ∷ s) h = λ e. cc

pack_named : (e : PackEntry) → validate_pack_entry e ≡ ok tt → equal e.pack_hash [] ≡ false
unfolding validate_pack_entry
pack_named e h =
    let (t, _) = require_then (blake2b_pattern e.pack_hash && blake2b_pattern e.part_hash) _ _ h in
    equal_nil e.pack_hash (
      blake2b_some e.pack_hash
        ((and_true (blake2b_pattern e.pack_hash) (blake2b_pattern e.part_hash) t).0))

pack_hashes-Sorted :
    (packs : List PackEntry) → validate_pack_sequence packs ≡ ok tt → Sorted (pack_hashes [] packs)
unfolding validate_pack_sequence check_sequence pack_hashes
pack_hashes-Sorted [] h = tt
pack_hashes-Sorted (entry ∷ packs) h =
    let (_, valid, h1) = bind-eq-ok (validate_pack_entry entry) _ h in
    let (_, _, h2) = bind-eq-ok (check_place none entry) _ h1 in
    let (_, h3) = refuse_then (last_for_pack entry packs && not (is_terminal entry)) _ _ h2 in
    rw (pack_named entry valid) (hashes_behind entry packs h3)

pack_hashes-HasWidth :
    (previous : Bytes) (packs : List PackEntry) → HasWidth 1 (pack_hashes previous packs)
unfolding pack_hashes
pack_hashes-HasWidth previous [] = tt
pack_hashes-HasWidth previous (entry ∷ packs) = elim (Bool-cases (equal entry.pack_hash previous)) [
  | inl same ↦ rw same (pack_hashes-HasWidth previous packs)
  | inr other ↦ rw other (refl, pack_hashes-HasWidth entry.pack_hash packs)
]

pack_hashes-has_pack :
    (previous : Bytes) (packs : List PackEntry) (row : Row)
    → Among row (pack_hashes previous packs)
    → has_pack (field row 0) packs ≡ true
unfolding pack_hashes has_pack
pack_hashes-has_pack previous [] row h = absurd h
pack_hashes-has_pack previous (entry ∷ packs) row h =
    elim (Bool-cases (equal entry.pack_hash previous)) [
      | inl same ↦ let ih = pack_hashes-has_pack previous packs row (rw same at h) in ground arith
      | inr other ↦ elim (rw other at h) [
        | inl e ↦
            let here = (equal_iff entry.pack_hash (field row 0)).1 (sym (ap (λ r. field r 0) e)) in
            ground arith
        | inr m ↦ let ih = pack_hashes-has_pack entry.pack_hash packs row m in ground arith
      ]
    ]

has_pack-pack_hashes :
    (hash previous : Bytes) (packs : List PackEntry)
    → has_pack hash packs ≡ true
    → (hash ≡ previous) ⊎ Among (hash ∷ []) (pack_hashes previous packs)
unfolding pack_hashes has_pack
has_pack-pack_hashes hash previous [] h = absurd (cc)
has_pack-pack_hashes hash previous (entry ∷ packs) h =
    elim (Bool-cases (equal entry.pack_hash hash)) [
      | inl here ↦ elim (Bool-cases (equal entry.pack_hash previous)) [
        | inl same ↦ inl (
            sym ((equal_iff entry.pack_hash hash).0 here)
            ∙ (equal_iff entry.pack_hash previous).0 same)
        | inr other ↦
            rw other (inr (inl (ap (λ x. x ∷ []) (sym ((equal_iff entry.pack_hash hash).0 here)))))
      ]
      | inr there ↦ elim (Bool-cases (equal entry.pack_hash previous)) [
        | inl same ↦ rw same (has_pack-pack_hashes hash previous packs (rw there at h))
        | inr other ↦ elim (has_pack-pack_hashes hash entry.pack_hash packs (rw there at h)) [
          | inl e ↦ rw other (inr (inl (ap (λ x. x ∷ []) e)))
          | inr m ↦ rw other (inr (inr m))
        ]
      ]
    ]

map-HasWidth : (objects : List ObjectEntry) → HasWidth 2 (map pack_reference objects)
map-HasWidth [] = tt
map-HasWidth (o ∷ os) = (refl, map-HasWidth os)

IsFound-of :
    (packs : List PackEntry) (o : ObjectEntry)
    → o.pack_hash ≢ []
    → has_pack o.pack_hash packs ≡ true
    → IsFound 2 1 unknown_pack no_check (pack_hashes [] packs) (pack_reference o)
IsFound-of packs o some_pack h = elim (has_pack-pack_hashes o.pack_hash [] packs h) [
  | inl e ↦ absurd (some_pack e)
  | inr m ↦ (o.pack_hash ∷ [], m, refl, refl)
]

all-IsFound :
    (packs : List PackEntry) (objects : List ObjectEntry)
    → All (λ o. o.pack_hash ≢ []) objects
    → All (λ o. has_pack o.pack_hash packs ≡ true) objects
    → All (IsFound 2 1 unknown_pack no_check (pack_hashes [] packs)) (map pack_reference objects)
all-IsFound packs [] n h = tt
all-IsFound packs (o ∷ os) (n, ns) (h, hs) = (IsFound-of packs o n h, all-IsFound packs os ns hs)

all_listed :
    (packs : List PackEntry) (objects : List ObjectEntry)
    → All (IsFound 2 1 unknown_pack no_check (pack_hashes [] packs)) (map pack_reference objects)
    → All (λ o. has_pack o.pack_hash packs ≡ true) objects
all_listed packs [] h = tt
all_listed packs (o ∷ os) ((row, m, e, _), hs) = (
  subst (λ x. has_pack x packs ≡ true) e (pack_hashes-has_pack [] packs row m),
  all_listed packs os hs,
)

-- The merge of the objects' packs accepts what the loop over `packSet` accepts.
pub merge_object_packs-check_objects :
    (objects : List ObjectEntry) (packs : List PackEntry)
    → All (λ o. o.pack_hash ≢ []) objects
    → validate_pack_sequence packs ≡ ok tt
    → (merge_object_packs
          (written (sort_rows (map pack_reference objects)))
          (written (pack_hashes [] packs))
        ≡ ok tt)
      ↔ (check_objects packs objects ≡ ok tt)
unfolding join_errors
merge_object_packs-check_objects objects packs named sequence =
    let rows = map pack_reference objects in
    let found = IsFound 2 1 unknown_pack no_check (pack_hashes [] packs) in
    let (into, from) =
      merge_object_packs_iff (written (sort_rows rows)) (written (pack_hashes [] packs))
        (sort_rows-Grouped rows) (pack_hashes-Sorted packs sequence)
        ((All-sort_rows (λ r. length r ≡ 2) rows).0 (map-HasWidth objects))
        (pack_hashes-HasWidth [] packs) in
    (
      λ h.
          All-check_objects packs objects
            (all_listed packs objects ((All-sort_rows found rows).1 ((into h).0))),
      λ h. from (
        (All-sort_rows found rows).0
            (all-IsFound packs objects named (check_objects-All packs objects h)),
        refl,
      ),
    )

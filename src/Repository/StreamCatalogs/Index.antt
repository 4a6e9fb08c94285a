-- ===== src/Repository/StreamCatalogs/Index.antt =====
-- The merge of the index with the objects finds what `ValidateCatalogs` finds in its map of objects.
use mathlib.Core.Path.{subst}
use backup.Base.{
  ℕ, ◌<◌, ◌^◌, ◌≡◌, ◌↔◌, refl, sym, ap, ◌∙◌, true, List, [], ◌∷◌, map, none, some, inl, inr,
  Bool-cases, ok, require-eq-ok, All, All-Among, Among-map, map-Among, arith, length, ◌==◌, ==_iff,
  err-ne-ok, require,
}
use backup.Base.Bytes.{codes, equal, equal_iff, less, trim_prefix}
use backup.Format.Decimal.{uint_text, parse_digits, parse_uint, canonical_unsigned}
use backup.Format.Index.{IndexEntry, kind_file, validate_index_entry}
use backup.Format.Objects.{ObjectEntry, object_row}
use backup.Format.Catalogs.{
  find_object, store_objects, check_size, check_reference, check_references,
}
use backup.Format.Catalogs.Laws.{
  find_object-Among, stored-Among, check_references-All, check_size-of, check_reference-file,
}
use backup.Repository.DerivedRows.{missing_object, size_disagrees, Row, field, join_errors}
use backup.Repository.Sorting.{sort_rows}
use backup.Repository.Sorting.Places.{sort_rows-Grouped, All-sort_rows}
use backup.Repository.Extension.Laws.{HasWidth, Sorted}
use backup.Repository.References.{merge_index_objects, check_sizes, parsed_size, same_size}
use backup.Repository.References.Laws.{IsFound, merge_index_objects-IsFound}
use backup.Repository.StreamCatalogs.{reference_row, index_references, written}
use backup.Format.Decimal.Unsigned.{parse_uint-uint_text}
use backup.Repository.StreamCatalogs.Objects.{
  Climbing, store_objects-Climbing, Among-store_objects, find_object-some, one_hash,
}

-- The size that is written is the size that is read.
parsed_size-uint_text : (n : ℕ) → n < 2 ^ 64 → parsed_size (uint_text n) ≡ some n
unfolding parsed_size parse_uint
parsed_size-uint_text n h =
    let whole = parse_uint-uint_text n 64 h (omega arith) in
    elim (Bool-cases (canonical_unsigned (uint_text n))) [
      | inl c ↦
          let read : parse_digits (uint_text n) (2 ^ 64) ≡ ok n = rw c at whole in
          rw (read, parsed_size) refl
      | inr f ↦ absurd (err-ne-ok (rw f at whole))
    ]

sizes_agree :
    (o : ObjectEntry) (e : IndexEntry)
    → o.plaintext_size < 2 ^ 64
    → e.size < 2 ^ 64
    → check_sizes (object_row o) (reference_row e)
      ≡ require (o.plaintext_size == e.size) size_disagrees
unfolding check_sizes object_row same_size
sizes_agree o e h k =
    rw (parsed_size-uint_text o.plaintext_size h, parsed_size-uint_text e.size k) refl

objects-HasWidth : (objects : List ObjectEntry) → HasWidth 3 (map object_row objects)
unfolding object_row
objects-HasWidth [] = tt
objects-HasWidth (o ∷ os) = (refl, objects-HasWidth os)

index-HasWidth : (es : List IndexEntry) → HasWidth 3 (index_references es)
unfolding index_references
index-HasWidth [] = tt
index-HasWidth (e ∷ es) = elim (Bool-cases (equal e.kind kind_file)) [
  | inl file ↦ rw file (refl, index-HasWidth es)
  | inr other ↦ rw other (index-HasWidth es)
]

Climbing-Sorted : (objects : List ObjectEntry) → Climbing objects → Sorted (map object_row objects)
unfolding object_row
Climbing-Sorted [] h = tt
Climbing-Sorted (o ∷ os) (h, hs) = (behind o os h, Climbing-Sorted os hs)
  where
    behind :
        (o : ObjectEntry) (os : List ObjectEntry)
        → All (λ p. less o.plaintext_hash p.plaintext_hash ≡ true) os
        → All (λ r. less o.plaintext_hash (field r 0) ≡ true) (map object_row os)
    behind o [] h = tt
    behind o (p ∷ ps) (h, hs) = (h, behind o ps hs)

check_size-some :
    (o : ObjectEntry) (e : IndexEntry) → o.plaintext_size ≡ e.size → check_size (some o) e ≡ ok tt
unfolding check_size
check_size-some o e h = rw ((==_iff o.plaintext_size e.size).1 h) refl

module _ (objects stored : List ObjectEntry) (made : store_objects none [] objects ≡ ok stored)
    (sizes : All (λ o. o.plaintext_size < 2 ^ 64) objects) where
  Found : Row → Type 0
  Found = IsFound 3 3 missing_object check_sizes (map object_row objects)

  reference-Found :
      (e : IndexEntry)
      → e.size < 2 ^ 64
      → e.kind ≡ kind_file
      → check_reference stored e ≡ ok tt
      → Found (reference_row e)
  unfolding Found
  reference-Found e size file h =
      let hash = trim_prefix e.ref (codes "blake2b:") in
      let (o, found, sized) =
        check_size-of (find_object hash stored) e (check_reference-file stored e file h) in
      let (has, named) = find_object-Among hash stored found in
      let listed = stored-Among objects made o has in
      let small = All-Among (λ x. x.plaintext_size < 2 ^ 64) o objects sizes listed in
      (
        object_row o,
        map-Among object_row o objects listed,
        unfold object_row in named,
        sizes_agree o e small size
            ∙ ap (λ t. require t size_disagrees) ((==_iff o.plaintext_size e.size).1 sized),
      )

  Found-reference :
      (e : IndexEntry)
      → e.size < 2 ^ 64
      → Found (reference_row e)
      → check_size (find_object (trim_prefix e.ref (codes "blake2b:")) stored) e ≡ ok tt
  unfolding Found
  Found-reference e size (row, m, same, agrees) =
      let hash = trim_prefix e.ref (codes "blake2b:") in
      let (o, listed, is) = Among-map object_row row objects m in
      let named : o.plaintext_hash ≡ hash =
        unfold object_row in sym (ap (λ r. field r 0) is) ∙ same in
      let small = All-Among (λ x. x.plaintext_size < 2 ^ 64) o objects sizes listed in
      let agrees' =
        sym (sizes_agree o e small size)
        ∙ subst (λ r. check_sizes r (reference_row e) ≡ ok tt) is agrees in
      let sized = require-eq-ok (o.plaintext_size == e.size) size_disagrees agrees' in
      let (p, found) =
        find_object-some hash stored o (Among-store_objects none [] objects made o (inr listed))
          named in
      let (has, named') = find_object-Among hash stored found in
      let one =
        one_hash objects p o (store_objects-Climbing objects made) (stored-Among objects made p has)
          listed (named' ∙ sym named) in
      rw found (
        check_size-some p e
          (ap (λ x. x.plaintext_size) one ∙ (==_iff o.plaintext_size e.size).0 sized))

  references-Found :
      (es : List IndexEntry)
      → All (λ e. e.size < 2 ^ 64) es
      → All (λ e. check_reference stored e ≡ ok tt) es
      → All Found (index_references es)
  unfolding index_references
  references-Found [] small h = tt
  references-Found (e ∷ es) (s, ss) (h, hs) = elim (Bool-cases (equal e.kind kind_file)) [
    | inl file ↦
        rw file
          (reference-Found e s ((equal_iff e.kind kind_file).0 file) h, references-Found es ss hs)
    | inr other ↦ rw other (references-Found es ss hs)
  ]

  Found-references :
      (es : List IndexEntry)
      → All (λ e. e.size < 2 ^ 64) es
      → All (λ e. validate_index_entry e ≡ ok tt) es
      → All Found (index_references es)
      → check_references stored es ≡ ok tt
  unfolding index_references check_references check_reference
  Found-references [] small valid h = refl
  Found-references (e ∷ es) (s, ss) (v, vs) h = elim (Bool-cases (equal e.kind kind_file)) [
    | inl file ↦
        let (here, there) = rw file at h in
        rw (v, file, Found-reference e s here) (Found-references es ss vs there)
    | inr other ↦ rw (v, other) (Found-references es ss vs (rw other at h))
  ]

  -- The merge of the index with the objects accepts what the loop over the index accepts.
  pub merge_index_objects-check_references :
      (es : List IndexEntry)
      → All (λ e. e.size < 2 ^ 64) es
      → All (λ e. validate_index_entry e ≡ ok tt) es
      → (merge_index_objects
            (written (sort_rows (index_references es)))
            (written (map object_row objects))
          ≡ ok tt)
        ↔ (check_references stored es ≡ ok tt)
  unfolding join_errors Found
  merge_index_objects-check_references es small valid =
      let rows = index_references es in
      let (into, from) =
        merge_index_objects-IsFound (written (sort_rows rows)) (written (map object_row objects))
          (sort_rows-Grouped rows) (Climbing-Sorted objects (store_objects-Climbing objects made))
          ((All-sort_rows (λ r. length r ≡ 3) rows).0 (index-HasWidth es))
          (objects-HasWidth objects) in
      (
        λ h. Found-references es small valid ((All-sort_rows Found rows).1 ((into h).0)),
        λ h. from (
          (All-sort_rows Found rows).0
              (references-Found es small (check_references-All stored es h)),
          refl,
        ),
      )

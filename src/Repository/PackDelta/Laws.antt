-- ===== src/Repository/PackDelta/Laws.antt =====
-- What is visited of an ordinary transition, and what an alternate catalog keeps.
use backup.Base.{
  err-ne-ok, ◌≡◌, refl, sym, Bool, true, false, ◌&&◌, List, [], ◌∷◌, take, length, arith, ◌==◌,
  ==_iff, inl, inr, Bool-cases, Result, ok, err, ◌>>◌, bind-eq-ok, require, require_then, All,
  All-map, Among,
}
use mathlib.Core.Path.{subst}
use backup.Format.Packs.{PackEntry}
use backup.Format.Rows.Split.{ok-injective}
use backup.Repository.DerivedRows.{
  Comparison-cases, Error, Row, DerivedRows, join_errors, compare_pack_fields, equal_fields,
  equal_fields_iff, missing_part, immutable_field,
}
use backup.Repository.Extension.Laws.{Interleaved, none_left, kept, put}
use backup.Repository.PackDelta.{
  transition_ordinary, pack_entry_from_fields, visit_added, visit_common, changed_packs,
  walk_changed_packs, is_before, is_same, skip_parts, check_snapshot, validate_catalog_for_snapshot,
}

-- The entries are those of the rows, one for each.
abbrev pub Entries : List Row → List PackEntry → Type 0
Entries [] [] = Unit
Entries (row ∷ rows) (entry ∷ entries) =
    (pack_entry_from_fields row ≡ ok entry) × Entries rows entries
Entries _ _ = ⊥

record Visited (old new : List Row) (entries : List PackEntry) : Type 0 where
  added : List Row
  interleaved : Interleaved old added new
  visited : Entries added entries

visit_added-Visited :
    (old news : List Row) (n : Row) (rest : Result Error (List PackEntry))
    {entries : List PackEntry}
    → ((more : List PackEntry) → rest ≡ ok more → Visited old news more)
    → visit_added transition_ordinary n rest ≡ ok entries
    → Visited old (n ∷ news) entries
unfolding visit_added
visit_added-Visited old news n rest later h =
    let (entry, read, h1) = bind-eq-ok (pack_entry_from_fields n) _ h in
    let (more, found, h2) = bind-eq-ok rest _ h1 in
    let v = later more found in
    record {
      added = n ∷ v.added;
      interleaved = put n v.interleaved;
      visited = subst (Entries (n ∷ v.added)) (ok-injective h2) (read, v.visited);
    }

visit_common-Visited :
    (old new : Row) (rest : Result Error (List PackEntry)) {entries : List PackEntry}
    → visit_common transition_ordinary old new rest ≡ ok entries
    → (old ≡ new) × (rest ≡ ok entries)
unfolding visit_common
visit_common-Visited old new rest h = elim (Bool-cases (equal_fields old new)) [
  | inl e ↦ ((equal_fields_iff old new).0 e, rw e at h)
  | inr e ↦ absurd (err-ne-ok (rw e at h))
]

changed_packs-Visited :
    (old new : List Row) {entries : List PackEntry}
    → changed_packs transition_ordinary old new ≡ ok entries
    → Visited old new entries
unfolding changed_packs
changed_packs-Visited [] [] h = record {
  added = [];
  interleaved = none_left;
  visited = subst (Entries []) (ok-injective h) tt;
}
changed_packs-Visited (o ∷ os) [] h = absurd (err-ne-ok h)
changed_packs-Visited [] (n ∷ ns) h =
    let (w, h1) = require_then (length n == 8) _ _ h in
    visit_added-Visited [] ns n (changed_packs transition_ordinary [] ns)
      (λ more found. changed_packs-Visited [] ns found) h1
changed_packs-Visited (o ∷ os) (n ∷ ns) h =
    let (w, h1) = require_then (length n == 8 && length o == 8) _ _ h in
    elim (Comparison-cases (compare_pack_fields o n)) [
      | inl e ↦
          let (alike, rest) =
            visit_common-Visited o n (changed_packs transition_ordinary os ns) (rw e at h1) in
          let v = changed_packs-Visited os ns rest in
          record {
            added = v.added;
            interleaved =
                subst (λ r. Interleaved (r ∷ os) v.added (n ∷ ns)) (sym alike)
                  (kept n v.interleaved);
            visited = v.visited;
          }
      | inr (inl e) ↦ absurd (err-ne-ok (rw e at h1))
      | inr (inr e) ↦
          visit_added-Visited (o ∷ os) ns n (changed_packs transition_ordinary (o ∷ os) ns)
            (λ more found. changed_packs-Visited (o ∷ os) ns found) (rw e at h1)
    ]

-- What `WalkChangedPacks` visits of an ordinary transition, if it ends without an error, is the
-- entries of the rows that the candidate has beside the old ones, each of them once and in order;
-- the old rows are all in the candidate, unchanged and in order.
pub walk_changed_packs-Interleaved :
    (old new : DerivedRows) {entries : List PackEntry}
    → walk_changed_packs transition_ordinary old new ≡ ok entries
    → (added : List Row) × Interleaved old.rows added new.rows × Entries added entries
unfolding walk_changed_packs
walk_changed_packs-Interleaved old new h =
    let (found, merged, h1) =
      bind-eq-ok (changed_packs transition_ordinary old.rows new.rows) _ h in
    let (u, joined, h2) = bind-eq-ok (join_errors old new) _ h1 in
    let v = changed_packs-Visited old.rows new.rows merged in
    (v.added, v.interleaved, subst (Entries v.added) (ok-injective h2) v.visited)

-- A row of the alternate catalog that agrees with the row in all fields but the object.
abbrev pub HasPart : List Row → Row → Type 0
HasPart rights left =
    (right : Row) × Among right rights × (length right ≡ 8) × (take 7 left ≡ take 7 right)

skip_parts-Among :
    (left : Row) (rights : List Row) (r : Row) → Among r (skip_parts left rights) → Among r rights
unfolding skip_parts
skip_parts-Among left [] r h = h
skip_parts-Among left (right ∷ rights) r h =
    elim (Bool-cases (is_before (compare_pack_fields right left))) [
      | inl b ↦ inr (skip_parts-Among left rights r (rw b at h))
      | inr b ↦ rw b at h
    ]

check_right :
    (left : Row) (lefts rights : List Row)
    → elim rights as (λ _. Result Error (Unit {0})) [
      | [] ↦ err missing_part
      | right ∷ rest ↦
          require (length right == 8 && is_same (compare_pack_fields right left)) missing_part
          >> require (equal_fields (take 7 left) (take 7 right)) immutable_field
          >> check_snapshot lefts rest
    ]
      ≡ ok tt
    → HasPart rights left
      × ((rest : List Row) × ((r : Row) → Among r rest → Among r rights)
          × (check_snapshot lefts rest ≡ ok tt))
check_right left lefts [] h = absurd (err-ne-ok h)
check_right left lefts (right ∷ rest) h =
    let (u, passed, h1) =
      bind-eq-ok
        (require (length right == 8 && is_same (compare_pack_fields right left)) missing_part
          >> require (equal_fields (take 7 left) (take 7 right)) immutable_field)
        _ h in
    let (t, h2) =
      require_then (length right == 8 && is_same (compare_pack_fields right left)) missing_part
        (require (equal_fields (take 7 left) (take 7 right)) immutable_field) passed in
    let wide : (length right == 8) ≡ true = ground arith in
    let agree = require_true (equal_fields (take 7 left) (take 7 right)) h2 in
    (
      (
        right,
        inl refl,
        (==_iff (length right) 8).0 wide,
        (equal_fields_iff (take 7 left) (take 7 right)).0 agree,
      ),
      (rest, (λ r has. inr has), h1),
    )
  where
    require_true : (t : Bool) → require t immutable_field ≡ ok tt → t ≡ true
    require_true true p = refl
    require_true false p = absurd (err-ne-ok p)

check_snapshot-HasPart :
    (lefts rights : List Row) → check_snapshot lefts rights ≡ ok tt → All (HasPart rights) lefts
unfolding check_snapshot
check_snapshot-HasPart [] rights h = tt
check_snapshot-HasPart (left ∷ lefts) rights h =
    let (w, h1) = require_then (length left == 8) _ _ h in
    let (found, (rest, from, h2)) = check_right left lefts (skip_parts left rights) h1 in
    (
      (found.0, skip_parts-Among left rights found.0 found.1, found.2, found.3),
      All-map (λ l f. (f.0, skip_parts-Among left rights f.0 (from f.0 f.1), f.2, f.3)) lefts
          (check_snapshot-HasPart lefts rest h2),
    )

-- A catalog that `ValidateCatalogStateForSnapshot` accepts in place of that of a snapshot has for
-- every row of the snapshot a row of eight fields that agrees with it in all but the last.
pub validate_catalog_for_snapshot-HasPart :
    (snapshot alternate : DerivedRows)
    → validate_catalog_for_snapshot snapshot alternate ≡ ok tt
    → All (HasPart alternate.rows) snapshot.rows
unfolding validate_catalog_for_snapshot
validate_catalog_for_snapshot-HasPart snapshot alternate h =
    let (u, checked, joined) = bind-eq-ok (check_snapshot snapshot.rows alternate.rows) _ h in
    check_snapshot-HasPart snapshot.rows alternate.rows checked

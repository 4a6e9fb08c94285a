-- ===== src/Repository/PackDelta.antt =====
-- internal/repository/pack_delta.go: the packs that a transition changes, and the catalogs that can
-- stand in for that of a snapshot. The visitor's entries are collected.
pub mod Laws
use backup.Base.{
  ℕ, ◌^◌, Bool, true, false, not, ◌&&◌, List, [], ◌∷◌, Option, none, some, take, length, ◌==◌,
  if◌then◌else◌, Result, ok, err, ◌>>=◌, ◌>>◌, require, refuse,
}
use backup.Base.Bytes.{Bytes, equal}
use backup.Format.Decimal.{parse_digits}
use backup.Format.Packs.{PackEntry}
use backup.Repository.DerivedRows.{
  Error, invalid_row, removed_rows, altered_row, added_rows, missing_part, immutable_field,
  bad_number, Row, DerivedRows, join_errors, field, Comparison, before, same, behind,
  compare_pack_fields, equal_fields,
}

-- `TransitionKind`
pub data TransitionKind : Type 0 where
  transition_invalid transition_ordinary transition_repair : TransitionKind

-- `strconv.ParseUint(text, 10, bits)`, where its error ends the function.
unfoldable pub parsed : Bytes → ℕ → Result Error ℕ
parsed text bits = elim (parse_digits text (2 ^ bits)) [ ok n ↦ ok n | err e ↦ err bad_number ]

-- `packEntryFromFields`
unfoldable pub pack_entry_from_fields : Row → Result Error PackEntry
unfolding parsed
pack_entry_from_fields fields = do
  require (length fields == 8) invalid_row
  part_number ← parsed (field fields 1) 32
  part_count ← parsed (field fields 2) 32
  part_size ← parsed (field fields 6) 64
  ok (record {
    pack_hash = field fields 0;
    part_number = part_number;
    part_count = part_count;
    part_hash = field fields 3;
    part_sha256 = field fields 4;
    part_md5 = field fields 5;
    part_size = part_size;
    object_id = field fields 7;
  })

abbrev pub is_ordinary : TransitionKind → Bool
is_ordinary transition_ordinary = true
is_ordinary _ = false

abbrev pub is_repair : TransitionKind → Bool
is_repair transition_repair = true
is_repair _ = false

-- A row that only the candidate has: its entry is visited before the others.
unfoldable pub visit_added :
    TransitionKind → Row → Result Error (List PackEntry) → Result Error (List PackEntry)
unfolding pack_entry_from_fields
visit_added kind new rest = do
  require (is_ordinary kind) added_rows
  entry ← pack_entry_from_fields new
  entries ← rest
  ok (entry ∷ entries)

-- A row that both have.
unfoldable pub visit_common :
    TransitionKind → Row → Row → Result Error (List PackEntry) → Result Error (List PackEntry)
unfolding equal_fields pack_entry_from_fields
visit_common kind old new rest = do
  let changed = not (equal_fields old new)
  refuse (is_ordinary kind && changed) altered_row
  (if is_repair kind && changed
      then (pack_entry_from_fields new >>= λ entry. rest >>= λ entries. ok (entry ∷ entries))
      else rest)

-- The loop of `WalkChangedPacks`.
unfoldable pub changed_packs : TransitionKind → List Row → List Row → Result Error (List PackEntry)
unfolding compare_pack_fields visit_added visit_common
changed_packs kind [] [] = ok []
changed_packs kind (old ∷ olds) [] = err removed_rows
changed_packs kind [] (new ∷ news) = do
  require (length new == 8) invalid_row
  visit_added kind new (changed_packs kind [] news)
changed_packs kind (old ∷ olds) (new ∷ news) = do
  require (length new == 8 && length old == 8) invalid_row
  elim (compare_pack_fields old new) [
    | same ↦ visit_common kind old new (changed_packs kind olds news)
    | before ↦ err removed_rows
    | behind ↦ visit_added kind new (changed_packs kind (old ∷ olds) news)
  ]

-- `WalkChangedPacks`, of a transition that is not invalid.
unfoldable pub walk_changed_packs :
    TransitionKind → DerivedRows → DerivedRows → Result Error (List PackEntry)
walk_changed_packs kind old new = do
  entries ← changed_packs kind old.rows new.rows
  join_errors old new
  ok entries

-- The visitor of `FindPackPart`: the last entry of that hash and number.
unfoldable pub find_pack_part : Option PackEntry → Bytes → ℕ → List PackEntry → Option PackEntry
find_pack_part found hash number [] = found
find_pack_part found hash number (entry ∷ entries) =
    find_pack_part
      (if equal entry.pack_hash hash && entry.part_number == number then some entry else found) hash
      number entries

abbrev pub is_before : Comparison → Bool
is_before before = true
is_before _ = false

abbrev pub is_same : Comparison → Bool
is_same same = true
is_same _ = false

-- The inner loop of `ValidateCatalogStateForSnapshot`.
unfoldable pub skip_parts : Row → List Row → List Row
unfolding compare_pack_fields
skip_parts left [] = []
skip_parts left (right ∷ rights) =
    let rest = skip_parts left rights in
    if is_before (compare_pack_fields right left) then rest else right ∷ rights

-- The loop of `ValidateCatalogStateForSnapshot`.
unfoldable pub check_snapshot : List Row → List Row → Result Error (Unit {0})
unfolding skip_parts compare_pack_fields equal_fields
check_snapshot [] rights = ok tt
check_snapshot (left ∷ lefts) rights = do
  require (length left == 8) invalid_row
  elim (skip_parts left rights) [
    | [] ↦ err missing_part
    | right ∷ rest ↦
        require (length right == 8 && is_same (compare_pack_fields right left)) missing_part
        >> require (equal_fields (take 7 left) (take 7 right)) immutable_field
        >> check_snapshot lefts rest
  ]

-- `ValidateCatalogStateForSnapshot`
unfoldable pub validate_catalog_for_snapshot : DerivedRows → DerivedRows → Result Error (Unit {0})
validate_catalog_for_snapshot snapshot alternate = do
  check_snapshot snapshot.rows alternate.rows
  join_errors snapshot alternate

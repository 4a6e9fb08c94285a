-- ===== src/Tests/Merges.antt =====
-- Tests of the merges of catalogs. Their fields are short: the merges do not look into them.
use backup.Base.{ℕ, ◌≡◌, ◌↔◌, refl, false, List, [], ◌∷◌, ok, err, All}
use backup.Base.Bytes.{codes, Bytes, less, contains, equal, has_prefix, trim_prefix}
use backup.Format.Packs.{PackEntry}
use backup.Repository.DerivedRows.{
  missing_object, unknown_pack, join_errors, altered_row, DerivedRows, unreferenced_pack, Row,
  removed_rows, no_relocation, missing_part, added_parts, compare_bytes, compare_pack_fields,
  compare_second, equal_fields, part_digits, part_value,
}
use backup.Repository.Extension.{merge_catalog_extension, merge_rows}
use backup.Repository.Extension.Laws.{Interleaved, HasWidth, merge_catalog_extension_iff}
use backup.Repository.PackRows.{
  added_packs, check_relocation, begin_pack, count_relocated, merge_packs,
}
use backup.Repository.PackRows.Ordinary.{IsFresh, begun, added_packs-IsFresh}
use backup.Repository.PackRows.Repair.{Aligned, Relocated, check_relocation_iff}
use backup.Repository.References.{
  no_check, merge_object_packs, check_sizes, merge_index_objects, follow, merge_object_packs,
  parsed_size, same_size, skip_before,
}
use backup.Repository.References.Laws.{IsFound, merge_object_packs_iff}
use backup.Repository.References.Sizes.{HasObject, merge_index_objects_iff}
use backup.Repository.NewPacks.{require_new_pack_references, match_packs, skip_same}
use backup.Repository.NewPacks.Laws.{Matched, require_new_pack_references_iff}
use backup.Repository.PackDelta.{
  transition_ordinary, validate_catalog_for_snapshot, walk_changed_packs, changed_packs,
  check_snapshot, find_pack_part, pack_entry_from_fields, parsed, skip_parts, visit_added,
  visit_common,
}
use backup.Repository.PackDelta.Laws.{
  Entries, HasPart, walk_changed_packs-Interleaved, validate_catalog_for_snapshot-HasPart,
}
use backup.Format.Decimal.{
  all_digits, canonical_negative, canonical_signed, canonical_unsigned, digits, int_text, negative,
  nonnegative, parse_digits, parse_int64, parse_integer, parse_uint, uint_text, value_from,
  within_text,
}

abbrev file : List Row → DerivedRows
file rows = record { rows = rows; fails = false }

abbrev object : Bytes → Bytes → Row
object hash pack = hash ∷ codes "7" ∷ pack ∷ []

abbrev part : Bytes → Bytes → Bytes → Row
part pack number id =
    pack ∷ number ∷ codes "2" ∷ codes "h" ∷ codes "s" ∷ codes "m" ∷ codes "9" ∷ id ∷ []

abbrev old_objects : List Row
old_objects = object (codes "b") (codes "p") ∷ []

abbrev new_objects : List Row
new_objects = object (codes "a") (codes "q") ∷ object (codes "b") (codes "p") ∷ []

abbrev old_packs : List Row
old_packs = part (codes "p") (codes "0") (codes "x") ∷ part (codes "p") (codes "1") (codes "x") ∷ []

abbrev new_packs : List Row
new_packs =
    part (codes "p") (codes "0") (codes "x")
    ∷ part (codes "p") (codes "1") (codes "x")
    ∷ part (codes "q") (codes "0") (codes "x")
    ∷ part (codes "q") (codes "1") (codes "x")
    ∷ []

-- The second part of the old pack is elsewhere.
abbrev moved_packs : List Row
moved_packs =
    part (codes "p") (codes "0") (codes "x") ∷ part (codes "p") (codes "1") (codes "y") ∷ []

extension_errors :
    (merge_catalog_extension (file new_objects) (file old_objects) 3 ≡ err removed_rows)
    × (merge_catalog_extension (file old_objects) (file (object (codes "b") (codes "q") ∷ [])) 3
        ≡ err altered_row)
unfolding equal less contains has_prefix trim_prefix compare_bytes compare_second
    compare_pack_fields equal_fields join_errors part_value part_digits merge_rows
    merge_catalog_extension
extension_errors = (refl, refl)

added : added_packs (file old_packs) (file new_packs) ≡ ok (codes "q" ∷ [])
unfolding equal less contains has_prefix trim_prefix compare_bytes compare_second
    compare_pack_fields equal_fields join_errors part_value part_digits begin_pack merge_packs
    added_packs count_relocated check_relocation
added = refl

-- A third part of a pack that is there already.
third_part :
    added_packs (file old_packs) (
      file (
        part (codes "p") (codes "0") (codes "x")
        ∷ part (codes "p") (codes "1") (codes "x")
        ∷ part (codes "p") (codes "2") (codes "x")
        ∷ []))
    ≡ err added_parts
unfolding equal less contains has_prefix trim_prefix compare_bytes compare_second
    compare_pack_fields equal_fields join_errors part_value part_digits begin_pack merge_packs
    added_packs count_relocated check_relocation
third_part = refl

relocation :
    (check_relocation (file old_packs) (file moved_packs) ≡ ok tt)
    × (check_relocation (file old_packs) (file old_packs) ≡ err no_relocation)
unfolding equal less contains has_prefix trim_prefix compare_bytes compare_second
    compare_pack_fields equal_fields join_errors part_value part_digits begin_pack merge_packs
    added_packs count_relocated check_relocation
relocation = (refl, refl)

-- Part 10 comes behind part 9.
abbrev many : List Row
many = part (codes "p") (codes "9") (codes "x") ∷ part (codes "p") (codes "10") (codes "x") ∷ []

snapshot :
    (validate_catalog_for_snapshot (file old_packs) (file moved_packs) ≡ ok tt)
    × (validate_catalog_for_snapshot (file many) (file many) ≡ ok tt)
    × (validate_catalog_for_snapshot (file new_packs) (file old_packs) ≡ err missing_part)
unfolding equal less contains has_prefix trim_prefix compare_bytes compare_second
    compare_pack_fields equal_fields join_errors part_value part_digits parsed
    pack_entry_from_fields visit_added visit_common changed_packs walk_changed_packs find_pack_part
    skip_parts check_snapshot validate_catalog_for_snapshot
snapshot = (refl, refl, refl)

abbrev entry : Bytes → ℕ → PackEntry
entry pack number = record {
  pack_hash = pack;
  part_number = number;
  part_count = 2;
  part_hash = codes "h";
  part_sha256 = codes "s";
  part_md5 = codes "m";
  part_size = 9;
  object_id = codes "x";
}

walked :
    walk_changed_packs transition_ordinary (file old_packs) (file new_packs)
    ≡ ok (entry (codes "q") 0 ∷ entry (codes "q") 1 ∷ [])
unfolding equal less contains has_prefix trim_prefix parse_uint parse_digits canonical_unsigned
    all_digits within_text value_from digits uint_text parse_int64 int_text canonical_signed
    canonical_negative negative nonnegative parse_integer compare_bytes compare_second
    compare_pack_fields equal_fields join_errors part_value part_digits parsed
    pack_entry_from_fields visit_added visit_common changed_packs walk_changed_packs find_pack_part
    skip_parts check_snapshot validate_catalog_for_snapshot
walked = refl

abbrev index : List Row
index = (codes "a" ∷ codes "7" ∷ codes "f" ∷ []) ∷ (codes "a" ∷ codes "7" ∷ codes "g" ∷ []) ∷ []

references :
    (merge_index_objects (file index) (file new_objects) ≡ ok tt)
    × (merge_index_objects (file index) (file old_objects) ≡ err missing_object)
unfolding equal less contains has_prefix trim_prefix parse_uint parse_digits canonical_unsigned
    all_digits within_text value_from digits uint_text parse_int64 int_text canonical_signed
    canonical_negative negative nonnegative parse_integer compare_bytes compare_second
    compare_pack_fields equal_fields join_errors part_value part_digits skip_before follow
    parsed_size same_size check_sizes merge_index_objects merge_object_packs
references = (refl, refl)

abbrev object_packs : List Row
object_packs = (codes "q" ∷ codes "a" ∷ []) ∷ (codes "q" ∷ codes "c" ∷ []) ∷ []

abbrev pack_hashes : List Row
pack_hashes = (codes "q" ∷ []) ∷ []

new_references :
    (require_new_pack_references (file object_packs) (file pack_hashes) ≡ ok tt)
    × (require_new_pack_references (file []) (file pack_hashes) ≡ err unreferenced_pack)
unfolding equal less contains has_prefix trim_prefix compare_bytes compare_second
    compare_pack_fields equal_fields join_errors part_value part_digits skip_same match_packs
    require_new_pack_references
new_references = (refl, refl)

merge_catalog_extension_iff_example :
    (merge_catalog_extension (file old_objects) (file new_objects) 3
      ≡ ok (object (codes "a") (codes "q") ∷ []))
    ↔ (Interleaved old_objects (object (codes "a") (codes "q") ∷ []) new_objects
        × HasWidth 3 new_objects
        × (join_errors (file old_objects) (file new_objects) ≡ ok tt))
unfolding less
merge_catalog_extension_iff_example =
    merge_catalog_extension_iff (file old_objects) (file new_objects) 3
      (object (codes "a") (codes "q") ∷ []) ((refl, tt), (tt, tt))

added_packs-IsFresh_example :
    (rows : List Row) × Interleaved old_packs rows new_packs
    × (codes "q" ∷ [] ≡ begun rows)
    × All (IsFresh old_packs) rows
unfolding less
added_packs-IsFresh_example =
    added_packs-IsFresh (file old_packs) (file new_packs) ((refl, tt), (tt, tt))
      ((refl, (refl, (refl, tt))), ((refl, (refl, tt)), ((refl, tt), (tt, tt)))) added

check_relocation_iff_example : (check_relocation (file old_packs) (file moved_packs) ≡ ok tt) ↔ (
    Aligned old_packs moved_packs
    × Relocated old_packs moved_packs
    × (join_errors (file old_packs) (file moved_packs) ≡ ok tt))
check_relocation_iff_example = check_relocation_iff (file old_packs) (file moved_packs)

merge_index_objects_iff_example :
    (merge_index_objects (file index) (file new_objects) ≡ ok tt)
    ↔ (All (HasObject new_objects) index × (false ≡ false) × (false ≡ false))
unfolding less
merge_index_objects_iff_example =
    merge_index_objects_iff (file index) (file new_objects) ((refl, tt), (tt, tt))
      ((refl, tt), (tt, tt)) (refl, (refl, tt)) (refl, (refl, tt))

require_new_pack_references_iff_example :
    (require_new_pack_references (file object_packs) (file pack_hashes) ≡ ok tt) ↔ (
      Matched object_packs pack_hashes
      × (join_errors (file object_packs) (file pack_hashes) ≡ ok tt))
unfolding less
require_new_pack_references_iff_example =
    require_new_pack_references_iff (file object_packs) (file pack_hashes) ((refl, tt), (tt, tt))
      (tt, tt) (refl, (refl, tt)) (refl, tt)

walk_changed_packs-Interleaved_example :
    (rows : List Row) × Interleaved old_packs rows new_packs
    × Entries rows (entry (codes "q") 0 ∷ entry (codes "q") 1 ∷ [])
walk_changed_packs-Interleaved_example =
    walk_changed_packs-Interleaved (file old_packs) (file new_packs) walked

validate_catalog_for_snapshot-HasPart_example : All (HasPart moved_packs) old_packs
validate_catalog_for_snapshot-HasPart_example =
    validate_catalog_for_snapshot-HasPart (file old_packs) (file moved_packs) (snapshot.0)

merge_object_packs_iff_example :
    (merge_object_packs (file object_packs) (file pack_hashes) ≡ ok tt) ↔ (
      All (IsFound 2 1 unknown_pack no_check pack_hashes) object_packs
      × (join_errors (file object_packs) (file pack_hashes) ≡ ok tt))
unfolding less
merge_object_packs_iff_example =
    merge_object_packs_iff (file object_packs) (file pack_hashes) ((refl, tt), (tt, tt)) (tt, tt)
      (refl, (refl, tt)) (refl, tt)

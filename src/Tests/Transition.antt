-- ===== src/Tests/Transition.antt =====
-- Tests of transitions, with key chains that are numbers.
use backup.Base.{ℕ, ◌≡◌, refl, Bool, true, false, List, [], ◌∷◌, some, leb, if◌then◌else◌, ok, err}
use backup.Base.Bytes.{codes, equal, less, Bytes, contains, has_prefix, trim_prefix}
use backup.Format.FormatFile.{new_repository_format}
use backup.Format.Mirrors.{mirror_row}
use backup.Tests.Mirrors.{disk}
use backup.Repository.DerivedRows.{
  Row, no_changes, format_changed, compare_bytes, compare_pack_fields, compare_second, equal_fields,
  join_errors, part_digits, part_value,
}
use backup.Repository.PackDelta.{transition_ordinary, transition_repair}
use backup.Repository.Transition.{
  State, file, states_equal, validate_transition, blob_equal, blobs_equal, check_mirror,
  find_mirror, ordinary_extension, validate_mirror_identity, validate_ordinary, validate_repair,
  validate_state,
}
use backup.Repository.Transition.Laws.{IsAllowed, validate_transition-IsAllowed}
use backup.Extsort.{before}
use backup.Repository.Sorting.{row_line, tabbed, insert_row, sort_rows}
use backup.Repository.Extension.{merge_catalog_extension, merge_rows}
use backup.Repository.PackRows.{
  added_packs, begin_pack, check_relocation, count_relocated, merge_packs,
}
use backup.Repository.NewPacks.{match_packs, require_new_pack_references, skip_same}

abbrev pub latest : ℕ → Bool
latest keys = leb 1 keys

abbrev pub chain_allows : ℕ → ℕ → Bool
chain_allows old new = leb old new

abbrev part : Bytes → Bytes → Row
part number id =
    codes "p" ∷ number ∷ codes "2" ∷ codes "h" ∷ codes "s" ∷ codes "m" ∷ codes "9" ∷ id ∷ []

-- A state whose objects.tsv and packs.tsv have the hashes.
abbrev state : Bytes → Bytes → List Row → List Row → State ℕ
state objects_hash packs_hash objects packs = record {
  format = new_repository_format (codes "u");
  public_keys = 1;
  mirrors = disk ∷ [];
  has_source = true;
  blob_hashes = λ name. some (
      if equal name (codes "objects.tsv")
      then objects_hash
      else if equal name (codes "packs.tsv")
      then packs_hash
      else codes "0");
  hash_count = 7;
  blob_sizes = λ name. 5;
  size_count = 7;
  objects = file objects;
  packs = file packs;
}

abbrev pub first : State ℕ
first = state (codes "1") (codes "1") [] []

abbrev pub second : State ℕ
second =
    state (codes "2") (codes "2") ((codes "a" ∷ codes "7" ∷ codes "p" ∷ []) ∷ [])
      (part (codes "0") (codes "x") ∷ part (codes "1") (codes "x") ∷ [])

-- The parts of the pack are elsewhere.
abbrev third : State ℕ
third =
    state (codes "2") (codes "3") ((codes "a" ∷ codes "7" ∷ codes "p" ∷ []) ∷ [])
      (part (codes "0") (codes "y") ∷ part (codes "1") (codes "y") ∷ [])

kinds :
    (validate_transition latest chain_allows first second ≡ ok transition_ordinary)
    × (validate_transition latest chain_allows second third ≡ ok transition_repair)
    × (validate_transition latest chain_allows third third ≡ err no_changes)
    × (validate_transition latest chain_allows first
          (record second { format = new_repository_format (codes "v") })
        ≡ err format_changed)
unfolding equal less contains has_prefix trim_prefix compare_bytes compare_second
    compare_pack_fields equal_fields join_errors part_value part_digits merge_rows
    merge_catalog_extension begin_pack merge_packs added_packs count_relocated check_relocation
    skip_same match_packs require_new_pack_references find_mirror check_mirror
    validate_mirror_identity ordinary_extension blob_equal blobs_equal states_equal validate_state
    validate_repair validate_ordinary validate_transition row_line tabbed insert_row sort_rows
    before new_repository_format mirror_row
kinds = (refl, refl, refl, refl)

validate_transition-IsAllowed_example :
    IsAllowed latest chain_allows transition_ordinary first second
    × (states_equal first second ≡ false)
unfolding less
validate_transition-IsAllowed_example =
    validate_transition-IsAllowed latest chain_allows first second tt ((refl, tt), (tt, tt))
      (kinds.0)

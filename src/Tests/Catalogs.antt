-- ===== src/Tests/Catalogs.antt =====
-- Tests of the references between catalogs.
use backup.Base.{◌≡◌, refl, List, [], ◌∷◌, ◌++◌, arith, ok, err, All}
use backup.Base.Bytes.{codes, contains, equal, has_prefix, less, trim_prefix}
use backup.Format.Errors.{missing_object, missing_pack, size_disagrees, bad_hash}
use backup.Format.Decimal.{pos}
use backup.Format.Rows.{validate_raw_field}
use backup.Format.Index.{
  kind_file, IndexEntry, any_member, before_last_slash, check_order, index_fields, index_row,
  index_rows, member, mode_text, not_after, parents_in, validate_file, validate_index_entry,
  validate_index_order, validate_symlink,
}
use backup.Format.Objects.{ObjectEntry, object_not_after, validate_object_entry}
use backup.Format.Packs.{
  PackEntry, check_place, check_sequence, last_for_pack, validate_pack_entry,
  validate_pack_sequence,
}
use backup.Format.Catalogs.{
  find_object, store_objects, has_pack, check_objects, check_size, check_reference,
  check_references, validate_catalogs, object_key,
}
use backup.Format.Catalogs.Laws.{IsRestorable, validate_catalogs-IsRestorable}
use backup.Tests.Data.{hash_a, hash_b, sha, digest, id}
use backup.Format.Utf8.{continues, lead, utf8_valid}
use backup.Format.Patterns.{
  blake2b_pattern, commit_pattern, is_hex, matches, md5_pattern, object_id_pattern, sha256_pattern,
  uuid_pattern,
}
use backup.Format.Paths.{
  after_slash, check_components, clean, clean_components, cons_component, join_slash, or_dot,
  split_slash, step_back, turn, validate_path, validate_symlink_target,
}

abbrev pub index : List IndexEntry
index =
    record {
      path = codes "./a";
      kind = kind_file;
      ref = codes "blake2b:" ++ hash_a;
      size = 7;
      mode = 0o600;
      mtime_ns = pos 1;
    }
    ∷ []

abbrev pub object : ObjectEntry
object = record { plaintext_hash = hash_a; plaintext_size = 7; pack_hash = hash_b }

abbrev pub packs : List PackEntry
packs =
    record {
      pack_hash = hash_b;
      part_number = 0;
      part_count = 1;
      part_hash = hash_a;
      part_sha256 = sha;
      part_md5 = digest;
      part_size = 9;
      object_id = id;
    }
    ∷ []

accepted : validate_catalogs index (object ∷ []) packs ≡ ok tt
unfolding equal less contains has_prefix trim_prefix utf8_valid lead continues matches is_hex
    object_id_pattern md5_pattern sha256_pattern commit_pattern blake2b_pattern uuid_pattern
    validate_path validate_symlink_target check_components clean clean_components step_back turn
    or_dot split_slash join_slash after_slash cons_component validate_index_entry validate_file
    validate_symlink index_row index_fields index_rows mode_text validate_index_order check_order
    not_after any_member member parents_in before_last_slash validate_object_entry object_not_after
    validate_pack_entry validate_pack_sequence check_sequence check_place last_for_pack
    validate_raw_field validate_catalogs store_objects check_objects has_pack check_references
    check_reference check_size find_object
accepted = refl

errors :
    (validate_catalogs index [] packs ≡ err missing_object)
    × (validate_catalogs index (object ∷ []) [] ≡ err missing_pack)
    × (validate_catalogs index (record object { plaintext_size = 8 } ∷ []) packs
        ≡ err size_disagrees)
unfolding equal less contains has_prefix trim_prefix utf8_valid lead continues matches is_hex
    object_id_pattern md5_pattern sha256_pattern commit_pattern blake2b_pattern uuid_pattern
    validate_path validate_symlink_target check_components clean clean_components step_back turn
    or_dot split_slash join_slash after_slash cons_component validate_index_entry validate_file
    validate_symlink index_row index_fields index_rows mode_text validate_index_order check_order
    not_after any_member member parents_in before_last_slash validate_object_entry object_not_after
    validate_pack_entry validate_pack_sequence check_sequence check_place last_for_pack
    validate_raw_field validate_catalogs store_objects check_objects has_pack check_references
    check_reference check_size find_object
errors = (refl, refl, refl)

keys :
    (object_key hash_a id ≡ ok (codes "objects/" ++ hash_a ++ codes "/" ++ id))
    × (object_key (codes "a") id ≡ err bad_hash)
unfolding matches is_hex object_id_pattern md5_pattern sha256_pattern commit_pattern blake2b_pattern
    uuid_pattern object_key
keys = (refl, refl)

validate_catalogs-IsRestorable_example :
    All (λ e. e.kind ≡ kind_file → IsRestorable e (object ∷ []) packs) index
validate_catalogs-IsRestorable_example =
    validate_catalogs-IsRestorable index (object ∷ []) packs
      (record { number = omega arith; count = omega arith; size = omega arith }, tt) accepted

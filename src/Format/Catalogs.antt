-- ===== src/Format/Catalogs.antt =====
-- `ValidateCatalogs` and `ObjectKey` of internal/format/metadata.go: the references between the
-- three catalogs of a snapshot. A Go map is the list of what was stored in it, the latest first.
pub mod Laws
use backup.Base.{
  Bool, true, false, ◌&&◌, ◌||◌, List, [], ◌∷◌, ◌++◌, Option, none, some, ◌==◌, if◌then◌else◌,
  Result, ok, err, ◌>>=◌, ◌>>◌, require, refuse,
}
use backup.Base.Bytes.{Bytes, codes, equal, trim_prefix}
use backup.Format.Errors.{Error, bad_hash, not_sorted, missing_pack, missing_object, size_disagrees}
use backup.Format.Patterns.{blake2b_pattern, object_id_pattern}
use backup.Format.Index.{IndexEntry, kind_file, validate_index_entry, validate_index_order}
use backup.Format.Objects.{ObjectEntry, validate_object_entry, object_not_after}
use backup.Format.Packs.{PackEntry, validate_pack_sequence}

-- `objectByHash[hash]`
unfoldable pub find_object : Bytes → List ObjectEntry → Option ObjectEntry
find_object hash [] = none
find_object hash (object ∷ objects) =
    if equal object.plaintext_hash hash then some object else find_object hash objects

-- The loop of `ValidateCatalogs` that fills `objectByHash`.
unfoldable pub store_objects :
    Option ObjectEntry → List ObjectEntry → List ObjectEntry → Result Error (List ObjectEntry)
unfolding object_not_after
store_objects previous stored [] = ok stored
store_objects previous stored (object ∷ objects) = do
  validate_object_entry object
  refuse (object_not_after previous object) not_sorted
  store_objects (some object) (object ∷ stored) objects

-- `packSet[hash]`
unfoldable pub has_pack : Bytes → List PackEntry → Bool
has_pack hash [] = false
has_pack hash (pack ∷ packs) = equal pack.pack_hash hash || has_pack hash packs

-- The loop of `ValidateCatalogs` over the objects and `packSet`.
unfoldable pub check_objects : List PackEntry → List ObjectEntry → Result Error (Unit {0})
check_objects packs [] = ok tt
check_objects packs (object ∷ objects) = do
  require (has_pack object.pack_hash packs) missing_pack
  check_objects packs objects

-- A file of the index: its object, if there is one, and the size of that.
unfoldable pub check_size : Option ObjectEntry → IndexEntry → Result Error (Unit {0})
check_size none entry = err missing_object
check_size (some object) entry = require (object.plaintext_size == entry.size) size_disagrees

unfoldable pub check_reference : List ObjectEntry → IndexEntry → Result Error (Unit {0})
check_reference stored entry =
    if equal entry.kind kind_file
    then check_size (find_object (trim_prefix entry.ref (codes "blake2b:")) stored) entry
    else ok tt

-- The loop of `ValidateCatalogs` over the index.
unfoldable pub check_references : List ObjectEntry → List IndexEntry → Result Error (Unit {0})
check_references stored [] = ok tt
check_references stored (entry ∷ entries) = do
  validate_index_entry entry
  check_reference stored entry
  check_references stored entries

-- `ValidateCatalogs`
unfoldable pub validate_catalogs :
    List IndexEntry → List ObjectEntry → List PackEntry → Result Error (Unit {0})
validate_catalogs index objects packs = do
  validate_index_order index
  validate_pack_sequence packs
  stored ← store_objects none [] objects
  check_objects packs objects
  check_references stored index

-- `ObjectKey`
unfoldable pub object_key : Bytes → Bytes → Result Error Bytes
object_key part_hash object_id = do
  require (blake2b_pattern part_hash && object_id_pattern object_id) bad_hash
  ok (codes "objects/" ++ part_hash ++ codes "/" ++ object_id)

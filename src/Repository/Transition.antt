-- ===== src/Repository/Transition.antt =====
-- validateStreamTransition (internal/repository/stream_transition.go and state.go): what a commit may
-- change. Creating and removing the workspace is not part of the model; the rows of a catalog are
-- those that a scan of its copy there delivers.
pub mod Blobs
pub mod Mirrors
pub mod Laws
use backup.Base.{
  ℕ, Bool, true, false, not, ◌&&◌, ◌||◌, List, [], ◌∷◌, map, Option, none, some, ◌==◌,
  if◌then◌else◌, Result, ok, err, ◌>>=◌, ◌>>◌, require, refuse,
}
use backup.Base.Bytes.{Bytes, codes, equal}
use backup.Format.FormatFile.{RepositoryFormat}
use backup.Format.Mirrors.{Mirror, mirror_row}
use backup.Repository.DerivedRows.{
  Error, incomplete_state, bad_key_chain, format_changed, no_changes, rebound_mirror, Row,
  DerivedRows, field, equal_fields,
}
use backup.Repository.Sorting.{sort_rows}
use backup.Repository.Extension.{merge_catalog_extension}
use backup.Repository.PackRows.{added_packs, check_relocation}
use backup.Repository.NewPacks.{require_new_pack_references}
use backup.Repository.PackDelta.{TransitionKind, transition_ordinary, transition_repair}

-- The names of `RequiredBlobNames`, but that of the packs, and all of them.
abbrev pub other_blob_names : List Bytes
other_blob_names =
    codes ".publickeys"
    ∷ codes "FORMAT"
    ∷ codes "ignore"
    ∷ codes "index.tsv"
    ∷ codes "mirrors.tsv"
    ∷ codes "objects.tsv"
    ∷ []

abbrev pub packs_name : Bytes
packs_name = codes "packs.tsv"

abbrev pub required_blob_names : List Bytes
required_blob_names = packs_name ∷ other_blob_names

-- `State`, with key chains `K`: the maps of its blobs, and the rows of its objects and packs.
pub record State (K : Type 0) : Type 0 where
  pub format : RepositoryFormat
  pub public_keys : K
  pub mirrors : List Mirror
  pub has_source : Bool
  pub blob_hashes : Bytes → Option Bytes
  pub hash_count : ℕ
  pub blob_sizes : Bytes → ℕ
  pub size_count : ℕ
  pub objects : DerivedRows
  pub packs : DerivedRows

abbrev pub same_hash : Option Bytes → Option Bytes → Bool
same_hash (some left) (some right) = equal left right
same_hash _ _ = false

-- `oldState.Format != newState.Format` compares field by field.
abbrev pub format_values : RepositoryFormat → List Bytes
format_values format =
    format.checksum_algorithms ∷ format.compression_algorithm ∷ format.content_hash_algorithm
    ∷ format.encryption_algorithm ∷ format.format_version ∷ format.git_object_format
    ∷ format.pack_format_version ∷ format.pack_hash_algorithm ∷ format.repository_uuid
    ∷ format.tar_algorithm ∷ []

-- `oldByName[name]`: what was stored last under the name.
unfoldable pub find_mirror : Option Mirror → Bytes → List Mirror → Option Mirror
find_mirror found name [] = found
find_mirror found name (mirror ∷ mirrors) =
    find_mirror (if equal mirror.name name then some mirror else found) name mirrors

unfoldable pub check_mirror : Option Mirror → Mirror → Result Error (Unit {0})
unfolding equal_fields mirror_row
check_mirror none mirror = ok tt
check_mirror (some previous) mirror =
    require (equal_fields (mirror_row previous) (mirror_row mirror)) rebound_mirror

-- `validateMirrorImmediateIdentity`
unfoldable pub validate_mirror_identity : List Mirror → List Mirror → Result Error (Unit {0})
unfolding find_mirror check_mirror
validate_mirror_identity olds [] = ok tt
validate_mirror_identity olds (new ∷ news) = do
  check_mirror (find_mirror none new.name olds) new
  validate_mirror_identity olds news

-- The rows that `validateStreamOrdinaryExtension` writes to its workspace and reads back.
abbrev pub object_pack : Row → Row
object_pack fields = field fields 2 ∷ field fields 0 ∷ []

abbrev pub hash_row : Bytes → Row
hash_row hash = hash ∷ []

abbrev pub file : List Row → DerivedRows
file rows = record { rows = rows; fails = false }

-- `validateStreamOrdinaryExtension`
unfoldable pub ordinary_extension :
    DerivedRows → DerivedRows → DerivedRows → DerivedRows → Result Error (Unit {0})
ordinary_extension old_objects new_objects old_packs new_packs = do
  added ← merge_catalog_extension old_objects new_objects 3
  hashes ← added_packs old_packs new_packs
  require_new_pack_references (file (sort_rows (map object_pack added)))
      (file (map hash_row hashes))

module _ {K : Type 0} where
  -- `State.blobEqual`
  unfoldable pub blob_equal : State K → State K → Bytes → Bool
  blob_equal left right name =
      same_hash (left.blob_hashes name) (right.blob_hashes name)
      && left.blob_sizes name == right.blob_sizes name

  unfoldable pub blobs_equal : State K → State K → List Bytes → Bool
  unfolding blob_equal
  blobs_equal left right [] = true
  blobs_equal left right (name ∷ names) = blob_equal left right name && blobs_equal left right names

  -- `statesEqual`
  unfoldable pub states_equal : State K → State K → Bool
  unfolding blobs_equal
  states_equal left right = blobs_equal left right required_blob_names

  -- `latest` is whether `KeyChains.Latest` succeeds, `chain_allows` whether
  -- `libsodium.ValidateKeyChainTransition` does.
  module _ (latest : K → Bool) (chain_allows : K → K → Bool) where
    -- `State.Validate`
    unfoldable pub validate_state : State K → Result Error (Unit {0})
    validate_state state = do
      refuse (not state.has_source || not (state.hash_count == 7) || not (state.size_count == 7))
          incomplete_state
      require (latest state.public_keys) bad_key_chain

    -- The two kinds of transition.
    unfoldable pub validate_repair : State K → State K → Result Error TransitionKind
    validate_repair old new = do check_relocation old.packs new.packs; ok transition_repair

    unfoldable pub validate_ordinary : State K → State K → Result Error TransitionKind
    validate_ordinary old new = do
      ordinary_extension old.objects new.objects old.packs new.packs
      validate_mirror_identity old.mirrors new.mirrors
      ok transition_ordinary

    -- `validateStreamTransition`
    unfoldable pub validate_transition : State K → State K → Result Error TransitionKind
    unfolding validate_state blob_equal states_equal blobs_equal validate_repair validate_ordinary
    validate_transition old new = do
      validate_state old
      validate_state new
      refuse
          (not (blob_equal old new (codes "FORMAT"))
            || not (equal_fields (format_values old.format) (format_values new.format)))
          format_changed
      require (chain_allows old.public_keys new.public_keys) bad_key_chain
      refuse (states_equal old new) no_changes
      (if blobs_equal old new other_blob_names
          then validate_repair old new
          else validate_ordinary old new)

-- ===== src/Format/Manifest.antt =====
-- internal/format/manifest.go: the manifest of an encrypted metadata bundle and its parts.
-- Part numbers and counts are uint32, sizes and the sequence number uint64; sums on them wrap.
pub mod Sizes
pub mod RoundTrip
mod Fields
pub mod Canonical
use backup.Base.{
  ℕ, ◌+◌, ◌-◌, ◌%◌, ◌^◌, Bool, true, false, not, ◌&&◌, ◌||◌, List, [], ◌∷◌, ◌++◌, map, length, drop,
  get_or, ltb, ◌==◌, if◌then◌else◌, Result, ok, err, ◌>>=◌, ◌>>◌, require, refuse,
}
use backup.Base.Bytes.{Bytes, codes, equal}
use backup.Format.Errors.{
  Error, field_count, bad_key, unsupported, bad_uuid, bad_commit, bad_sequence, bad_kind, bad_hash,
  part_count, noncontiguous, empty_part, empty_bundle, bad_checksum, part_overflow, bad_total,
  file_too_large,
}
use backup.Format.Decimal.{parse_uint, uint_text}
use backup.Format.Patterns.{
  uuid_pattern, commit_pattern, blake2b_pattern, sha256_pattern, md5_pattern, object_id_pattern,
}
use backup.Format.Rows.{
  Reader, Limits, default_limits, marshal_rows, read_rows, require_field_count,
}

-- `BundleFull` and `BundleIncremental`
abbrev pub bundle_full : Bytes
bundle_full = codes "full"

abbrev pub bundle_incremental : Bytes
bundle_incremental = codes "incremental"

-- `MaximumMetadataManifestBytes`
abbrev pub maximum_manifest_bytes : ℕ
maximum_manifest_bytes = 1048576

-- `MaximumMetadataManifestParts`: the bytes by 271, rounded down.
abbrev pub maximum_manifest_parts : ℕ
maximum_manifest_parts = 3869

-- `ManifestPart`
pub record ManifestPart : Type 0 where
  pub number : ℕ
  pub count : ℕ
  pub object_id : Bytes
  pub hash : Bytes
  pub sha256 : Bytes
  pub md5 : Bytes
  pub size : ℕ

-- `MetadataManifest`
pub record MetadataManifest : Type 0 where
  pub repository_uuid : Bytes
  pub sequence : ℕ
  pub base_commit : Bytes
  pub tip_commit : Bytes
  pub kind : Bytes
  pub bundle_hash : Bytes
  pub bundle_size : ℕ
  pub parts : List ManifestPart

-- The switch on the kind in `MetadataManifest.validate`.
unfoldable pub validate_kind : MetadataManifest → Result Error (Unit {0})
validate_kind manifest =
    if equal manifest.kind bundle_full
    then refuse (not (manifest.sequence == 0) || not (equal manifest.base_commit (codes "-")))
        bad_sequence
    else if equal manifest.kind bundle_incremental
    then refuse
        (manifest.sequence == 0
          || not (commit_pattern manifest.base_commit)
          || equal manifest.base_commit manifest.tip_commit)
        bad_sequence
    else err bad_kind

-- A round of the loop of `MetadataManifest.validate` over the parts: the sum with this part.
unfoldable pub add_part : ℕ → ℕ → ℕ → ManifestPart → Result Error ℕ
add_part count index total part = do
  refuse (not (part.number == index % 2 ^ 32) || not (part.count == count % 2 ^ 32)) noncontiguous
  refuse (part.size == 0) empty_part
  require
      (object_id_pattern part.object_id
        && blake2b_pattern part.hash
        && sha256_pattern part.sha256
        && md5_pattern part.md5)
      bad_checksum
  refuse (ltb (2 ^ 64 - 1 - total) part.size) part_overflow
  ok ((total + part.size) % 2 ^ 64)

unfoldable pub add_parts : ℕ → ℕ → ℕ → List ManifestPart → Result Error ℕ
add_parts count index total [] = ok total
add_parts count index total (part ∷ parts) = do
  total' ← add_part count index total part
  add_parts count (index + 1) total' parts

-- `MetadataManifest.validate`
unfoldable pub validate_manifest : MetadataManifest → Result Error (Unit {0})
validate_manifest manifest = do
  require (uuid_pattern manifest.repository_uuid) bad_uuid
  require (commit_pattern manifest.tip_commit) bad_commit
  validate_kind manifest
  require (blake2b_pattern manifest.bundle_hash) bad_hash
  refuse (length manifest.parts == 0 || ltb maximum_manifest_parts (length manifest.parts))
      part_count
  refuse (manifest.bundle_size == 0) empty_bundle
  total ← add_parts (length manifest.parts) 0 0 manifest.parts
  require (total == manifest.bundle_size) bad_total

unfoldable pub part_row : ManifestPart → List Bytes
part_row part =
    codes "part"
    ∷ uint_text part.number
    ∷ uint_text part.count
    ∷ part.object_id
    ∷ part.hash
    ∷ part.sha256
    ∷ part.md5
    ∷ uint_text part.size
    ∷ []

unfoldable pub manifest_rows : MetadataManifest → List (List Bytes)
manifest_rows manifest =
    (codes "repository-uuid" ∷ manifest.repository_uuid ∷ [])
    ∷ (codes "manifest-format" ∷ codes "1" ∷ [])
    ∷ (codes "sequence" ∷ uint_text manifest.sequence ∷ [])
    ∷ (codes "base-commit" ∷ manifest.base_commit ∷ [])
    ∷ (codes "tip-commit" ∷ manifest.tip_commit ∷ [])
    ∷ (codes "kind" ∷ manifest.kind ∷ [])
    ∷ (codes "bundle-blake2b" ∷ manifest.bundle_hash ∷ [])
    ∷ (codes "bundle-size" ∷ uint_text manifest.bundle_size ∷ [])
    ∷ (codes "part-count" ∷ uint_text (length manifest.parts) ∷ [])
    ∷ map part_row manifest.parts

-- `MetadataManifest.MarshalText`
unfoldable pub marshal_manifest : MetadataManifest → Result Error Bytes
marshal_manifest manifest = do
  validate_manifest manifest
  data_bytes ← marshal_rows (manifest_rows manifest)
  refuse (ltb maximum_manifest_bytes (length data_bytes)) file_too_large
  ok data_bytes

abbrev pub at_most_number : ℕ → ℕ → ℕ
at_most_number limit n = if ltb limit n then limit else n

-- The limits of `ParseMetadataManifest`, no wider than those of the format.
unfoldable pub manifest_limits : Limits → Limits
manifest_limits limits = record limits {
  max_file_bytes = at_most_number maximum_manifest_bytes limits.max_file_bytes;
  max_records = at_most_number (9 + maximum_manifest_parts) limits.max_records;
}

abbrev pub tags : List Bytes
tags =
    codes "repository-uuid"
    ∷ codes "manifest-format"
    ∷ codes "sequence"
    ∷ codes "base-commit"
    ∷ codes "tip-commit"
    ∷ codes "kind"
    ∷ codes "bundle-blake2b"
    ∷ codes "bundle-size"
    ∷ codes "part-count"
    ∷ []

-- The loop of `ParseMetadataManifest` over the tags.
unfoldable pub check_tags : List Bytes → List (List Bytes) → Result Error (Unit {0})
unfolding require_field_count
check_tags (tag ∷ rest) (row ∷ rows) = do
  require_field_count row 2
  require (equal (get_or row 0 []) tag) bad_key
  check_tags rest rows
check_tags _ _ = ok tt

-- The loop of `ParseMetadataManifest` over the rows behind the tags.
unfoldable pub parse_part : List Bytes → Result Error ManifestPart
parse_part (tag ∷ number_text ∷ count_text ∷ id ∷ hash ∷ sha256 ∷ md5 ∷ size_text ∷ []) = do
  require (equal tag (codes "part")) bad_key
  number ← parse_uint number_text 32
  count ← parse_uint count_text 32
  size ← parse_uint size_text 64
  ok (record {
    number = number;
    count = count;
    object_id = id;
    hash = hash;
    sha256 = sha256;
    md5 = md5;
    size = size;
  })
parse_part _ = err field_count

unfoldable pub parse_parts : List (List Bytes) → Result Error (List ManifestPart)
parse_parts [] = ok []
parse_parts (row ∷ rows) = do part ← parse_part row; parts ← parse_parts rows; ok (part ∷ parts)

-- `rows[index][1]`
abbrev pub second_at : List (List Bytes) → ℕ → Bytes
second_at rows index = get_or (get_or rows index []) 1 []

-- `ParseMetadataManifest` behind `readRows`. The difference of an int below 9 wraps.
unfoldable pub parse_manifest_rows : Limits → List (List Bytes) → Result Error MetadataManifest
parse_manifest_rows limits rows = do
  refuse (ltb (length rows) 10) field_count
  check_tags tags rows
  require (equal (second_at rows 1) (codes "1")) unsupported
  sequence ← parse_uint (second_at rows 2) 64
  bundle_size ← parse_uint (second_at rows 7) 64
  count ← parse_uint (second_at rows 8) 32
  refuse
      (count == 0
        || ltb ((limits.max_records + 2 ^ 64 - 9) % 2 ^ 64) count
        || not (length rows == 9 + count))
      part_count
  parts ← parse_parts (drop 9 rows)
  let manifest : MetadataManifest = record {
    repository_uuid = second_at rows 0;
    sequence = sequence;
    base_commit = second_at rows 3;
    tip_commit = second_at rows 4;
    kind = second_at rows 5;
    bundle_hash = second_at rows 6;
    bundle_size = bundle_size;
    parts = parts;
  }
  validate_manifest manifest
  ok manifest

-- `ParseMetadataManifest`
unfoldable pub parse_manifest : Reader → Limits → Result Error MetadataManifest
parse_manifest input limits = do
  let narrow = manifest_limits limits
  rows ← read_rows input narrow
  parse_manifest_rows narrow rows

-- `MetadataManifest.UnmarshalText`, of a receiver that is not nil.
unfoldable pub unmarshal_manifest : Bytes → Result Error MetadataManifest
unmarshal_manifest text =
    parse_manifest (record { bytes = text; fails = false })
      (record default_limits {
        max_file_bytes = maximum_manifest_bytes;
        max_records = 9 + maximum_manifest_parts;
      })

-- `MetadataPartKey`
unfoldable pub metadata_part_key : ManifestPart → Result Error Bytes
metadata_part_key part = do
  refuse (not (blake2b_pattern part.hash) || not (object_id_pattern part.object_id)) bad_hash
  ok (codes "metadata/parts/" ++ part.hash ++ codes "/" ++ part.object_id)

-- `MetadataManifestKey`
unfoldable pub metadata_manifest_key : Bytes → Bytes → Bytes → Result Error Bytes
metadata_manifest_key tip_commit manifest_hash object_id = do
  refuse
      (not (commit_pattern tip_commit)
        || not (blake2b_pattern manifest_hash)
        || not (object_id_pattern object_id))
      bad_hash
  ok (
      codes "metadata/manifests/"
      ++ tip_commit
      ++ codes "/"
      ++ manifest_hash
      ++ codes "/"
      ++ object_id)

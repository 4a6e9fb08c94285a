-- ===== src/Format/FormatFile.antt =====
-- The FORMAT file (internal/format/metadata.go): ten keys, in order, of which only the repository's
-- UUID is free.
pub mod Laws
use backup.Base.{
  ℕ, Bool, ◌&&◌, List, [], ◌∷◌, length, get_or, ◌==◌, Result, ok, err, ◌>>=◌, ◌>>◌, require,
}
use backup.Base.Bytes.{Bytes, codes, equal}
use backup.Format.Errors.{Error, bad_key, unsupported, bad_uuid, field_count}
use backup.Format.Patterns.{uuid_pattern}
use backup.Format.Rows.{Reader, Limits, marshal_rows, read_rows, require_field_count}

-- `RepositoryFormat`
pub record RepositoryFormat : Type 0 where
  pub checksum_algorithms : Bytes
  pub compression_algorithm : Bytes
  pub content_hash_algorithm : Bytes
  pub encryption_algorithm : Bytes
  pub format_version : Bytes
  pub git_object_format : Bytes
  pub pack_format_version : Bytes
  pub pack_hash_algorithm : Bytes
  pub repository_uuid : Bytes
  pub tar_algorithm : Bytes

-- `NewRepositoryFormat`
unfoldable pub new_repository_format : Bytes → RepositoryFormat
new_repository_format uuid = record {
  checksum_algorithms = codes "blake2b-512,sha256,md5";
  compression_algorithm = codes "zstd";
  content_hash_algorithm = codes "blake2b-512";
  encryption_algorithm = codes "go-libsodium-recipient-stream-v1";
  format_version = codes "2";
  git_object_format = codes "sha256";
  pack_format_version = codes "1";
  pack_hash_algorithm = codes "blake2b-512";
  repository_uuid = uuid;
  tar_algorithm = codes "posix-pax-go-archive-tar-v1";
}

-- `RepositoryFormat.rows`
unfoldable pub format_rows : RepositoryFormat → List (List Bytes)
format_rows format =
    (codes "checksum-algorithms" ∷ format.checksum_algorithms ∷ [])
    ∷ (codes "compression-algorithm" ∷ format.compression_algorithm ∷ [])
    ∷ (codes "content-hash-algorithm" ∷ format.content_hash_algorithm ∷ [])
    ∷ (codes "encryption-algorithm" ∷ format.encryption_algorithm ∷ [])
    ∷ (codes "format-version" ∷ format.format_version ∷ [])
    ∷ (codes "git-object-format" ∷ format.git_object_format ∷ [])
    ∷ (codes "pack-format-version" ∷ format.pack_format_version ∷ [])
    ∷ (codes "pack-hash-algorithm" ∷ format.pack_hash_algorithm ∷ [])
    ∷ (codes "repository-uuid" ∷ format.repository_uuid ∷ [])
    ∷ (codes "tar-algorithm" ∷ format.tar_algorithm ∷ [])
    ∷ []

-- `RepositoryFormat.validate`. The source goes through the fixed values in any order; every one of
-- them that differs is the same error here.
unfoldable pub validate_format : RepositoryFormat → Result Error (Unit {0})
validate_format format = do
  require
      (equal format.checksum_algorithms (codes "blake2b-512,sha256,md5")
        && equal format.compression_algorithm (codes "zstd")
        && equal format.content_hash_algorithm (codes "blake2b-512")
        && equal format.encryption_algorithm (codes "go-libsodium-recipient-stream-v1")
        && equal format.format_version (codes "2")
        && equal format.git_object_format (codes "sha256")
        && equal format.pack_format_version (codes "1")
        && equal format.pack_hash_algorithm (codes "blake2b-512")
        && equal format.tar_algorithm (codes "posix-pax-go-archive-tar-v1"))
      unsupported
  require (uuid_pattern format.repository_uuid) bad_uuid

-- `RepositoryFormat.MarshalText`
unfoldable pub marshal_format : RepositoryFormat → Result Error Bytes
marshal_format format = do validate_format format; marshal_rows (format_rows format)

-- The loop of `ParseRepositoryFormat`: the keys are those expected, each with one value.
unfoldable pub check_keys : List (List Bytes) → List (List Bytes) → Result Error (Unit {0})
unfolding require_field_count
check_keys (key ∷ keys) (row ∷ rows) = do
  require_field_count row 2
  require (equal (get_or row 0 []) (get_or key 0 [])) bad_key
  check_keys keys rows
check_keys _ _ = ok tt

-- `values[key]`, where the key is that of the row at this place.
abbrev pub value_at : List (List Bytes) → ℕ → Bytes
value_at rows index = get_or (get_or rows index []) 1 []

-- `ParseRepositoryFormat`
unfoldable pub parse_format : Reader → Limits → Result Error RepositoryFormat
parse_format input limits = do
  rows ← read_rows input limits
  let expected = format_rows (new_repository_format (codes "00000000-0000-4000-8000-000000000000"))
  require (length rows == length expected) field_count
  check_keys expected rows
  let format : RepositoryFormat = record {
    checksum_algorithms = value_at rows 0;
    compression_algorithm = value_at rows 1;
    content_hash_algorithm = value_at rows 2;
    encryption_algorithm = value_at rows 3;
    format_version = value_at rows 4;
    git_object_format = value_at rows 5;
    pack_format_version = value_at rows 6;
    pack_hash_algorithm = value_at rows 7;
    repository_uuid = value_at rows 8;
    tar_algorithm = value_at rows 9;
  }
  validate_format format
  ok format

-- ===== src/Format/FormatFile/Laws.antt =====
-- FORMAT is read back as it was written, and has one text for each UUID.
use backup.Base.{◌≡◌, refl, true, arith, ok, bind-eq-ok}
use backup.Base.Bytes.{Bytes, codes, equal, equal_iff}
use backup.Format.Rows.{Limits}
use backup.Format.Rows.RoundTrip.{FitsLimits, reader, read_rows-marshal_rows}
use backup.Format.FormatFile.{
  RepositoryFormat, new_repository_format, format_rows, validate_format, marshal_format, check_keys,
  parse_format,
}

keys_match :
    (format : RepositoryFormat) (uuid : Bytes)
    → check_keys (format_rows (new_repository_format uuid)) (format_rows format) ≡ ok tt
unfolding check_keys format_rows new_repository_format equal
keys_match format uuid = refl

-- A FORMAT file that `MarshalText` writes is read back, within the limits of the reader.
pub parse_format-marshal_format :
    (limits : Limits) (format : RepositoryFormat) {text : Bytes}
    → marshal_format format ≡ ok text
    → FitsLimits limits (format_rows format)
    → parse_format (reader text) limits ≡ ok format
unfolding marshal_format parse_format
parse_format-marshal_format limits format {text} h f =
    let (u, valid, written) = bind-eq-ok (validate_format format) _ h in
    let read = read_rows-marshal_rows limits (format_rows format) written f in
    rw read (rw (keys_match format _) (unfold format_rows new_repository_format in rw valid refl))

-- A format that `validate` accepts is the one that `NewRepositoryFormat` makes for its UUID.
validate_format-new :
    (format : RepositoryFormat)
    → validate_format format ≡ ok tt
    → format ≡ new_repository_format format.repository_uuid
unfolding validate_format new_repository_format
validate_format-new format h =
    let fixed = λ (value text : Bytes) (e : equal value text ≡ true). (equal_iff value text).0 e in
    let a = fixed format.checksum_algorithms (codes "blake2b-512,sha256,md5") (ground arith) in
    let b = fixed format.compression_algorithm (codes "zstd") (ground arith) in
    let c = fixed format.content_hash_algorithm (codes "blake2b-512") (ground arith) in
    let d =
      fixed format.encryption_algorithm (codes "go-libsodium-recipient-stream-v1") (ground arith) in
    let e = fixed format.format_version (codes "2") (ground arith) in
    let f = fixed format.git_object_format (codes "sha256") (ground arith) in
    let g = fixed format.pack_format_version (codes "1") (ground arith) in
    let k = fixed format.pack_hash_algorithm (codes "blake2b-512") (ground arith) in
    let t = fixed format.tar_algorithm (codes "posix-pax-go-archive-tar-v1") (ground arith) in
    λ i. record {
      checksum_algorithms = a i;
      compression_algorithm = b i;
      content_hash_algorithm = c i;
      encryption_algorithm = d i;
      format_version = e i;
      git_object_format = f i;
      pack_format_version = g i;
      pack_hash_algorithm = k i;
      repository_uuid = format.repository_uuid;
      tar_algorithm = t i;
    }

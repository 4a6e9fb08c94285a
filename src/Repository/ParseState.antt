-- ===== src/Repository/ParseState.antt =====
-- ParseState, ParsePreparationState and parseStreamState (internal/repository/state.go and
-- stream_state.go): a state is parsed from its seven blobs in memory. The compiled expressions and
-- the counts of rows, which nothing else here reads, are not kept; making and removing the workspace
-- is not part of the model.
pub mod Accepted
pub mod Laws
use backup.Base.{
  ℕ, Bool, true, false, not, ◌&&◌, List, [], ◌∷◌, map, Option, none, some, ltb, ◌==◌, length,
  if◌then◌else◌, Result, ok, err, ◌>>=◌, ◌>>◌, require, refuse,
}
use backup.Base.Bytes.{Bytes, codes, equal, tab}
use backup.Extsort.{drop_cr}
use backup.Format.Rows.{Limits, default_limits, scan_lines, split_fields}
use backup.Format.Rows.RoundTrip.{reader}
use backup.Format.FormatFile.{parse_format}
use backup.Format.Ignore.{parse_ignore}
use backup.Format.Mirrors.{Url, parse_mirrors}
use backup.Repository.DerivedRows.{
  Error, wrong_blob_count, missing_blob, unexpected_blob, too_large, bad_config, empty_keys,
  catalogs_given, DerivedRows,
}
use backup.Repository.StreamCatalogs.{validate_stream_catalogs}
use backup.Repository.Transition.{State, required_blob_names}

-- What is not of this repository: `libsodium.ParseKeyChains` with the length of its result and the
-- size that it allows, the hexadecimal BLAKE2b-512 of bytes, `url.Parse`, and package regexp.
pub record Libraries (K R : Type 0) : Type 0 where
  pub parse_key_chains : Bytes → Option K
  pub no_key_chains : K → Bool
  pub maximum_key_bytes : ℕ
  pub blake2b : Bytes → Bytes
  pub url_parse : Bytes → Option Url
  pub compile : Bytes → Option R

-- The blobs, by their names.
abbrev pub Blobs : Type 0
Blobs = List (Bytes × Bytes)

unfoldable pub find_blob : Bytes → Blobs → Option Bytes
find_blob name [] = none
find_blob name ((key, blob) ∷ blobs) = if equal key name then some blob else find_blob name blobs

-- An option or a result of another package, its error passed on.
abbrev pub found_or : {A : Type 0} → Error → Option A → Result Error A
found_or e none = err e
found_or e (some a) = ok a

abbrev pub config_or : {E A : Type 0} → Result E A → Result Error A
config_or (ok a) = ok a
config_or (err e) = err bad_config

-- `minInt64`
abbrev pub min_int64 : ℕ → ℕ → ℕ
min_int64 left right = if ltb left right then left else right

-- The closure `readConfig`, with `readBounded`.
unfoldable pub read_config : Blobs → Bytes → ℕ → Result Error Bytes
unfolding find_blob
read_config blobs name maximum = do
  blob ← found_or missing_blob (find_blob name blobs)
  refuse (ltb maximum (length blob)) too_large
  ok blob

abbrev pub member_name : Bytes → List Bytes → Bool
member_name name [] = false
member_name name (other ∷ names) = if equal name other then true else member_name name names

-- The rows that `derivedRows` delivers of a copy of the blob.
unfoldable pub rows_of_blob : Bytes → DerivedRows
unfolding scan_lines split_fields drop_cr
rows_of_blob blob =
    let tokens = scan_lines default_limits.max_line_bytes [] blob in
    record {
      rows = map (λ line. split_fields (drop_cr line)) tokens.lines;
      fails = tokens.too_long;
    }

-- The tests of `parseMemoryState` on the names.
unfoldable pub check_required : List Bytes → Blobs → Result Error (Unit {0})
unfolding find_blob
check_required [] blobs = ok tt
check_required (name ∷ names) blobs = do
  blob ← found_or missing_blob (find_blob name blobs)
  check_required names blobs

unfoldable pub check_expected : Blobs → Result Error (Unit {0})
check_expected [] = ok tt
check_expected ((name, blob) ∷ blobs) = do
  require (member_name name required_blob_names) unexpected_blob
  check_expected blobs

abbrev pub no_bytes : Option Bytes → Bool
no_bytes none = true
no_bytes (some blob) = length blob == 0

module _ {K R : Type 0} (libraries : Libraries K R) where
  -- The entries that `readConfig` and `validateStreamCatalogs` make in `BlobHashes` and `BlobSizes`.
  abbrev pub hash_of : Option Bytes → Option Bytes
  hash_of none = none
  hash_of (some blob) = some (libraries.blake2b blob)

  abbrev pub size_of : Option Bytes → ℕ
  size_of none = 0
  size_of (some blob) = length blob

  -- `parseStreamState`. The catalogs are looked up first, where the source looks each up as it comes to
  -- it; `parseMemoryState` has found them all.
  unfoldable pub parse_stream_state : Blobs → Limits → Bool → Result Error (State K)
  unfolding read_config rows_of_blob
  parse_stream_state blobs limits preparation = do
    format_bytes ← read_config blobs (codes "FORMAT") (min_int64 limits.max_file_bytes 65536)
    format ← config_or (parse_format (reader format_bytes) limits)
    ignore_bytes ← read_config blobs (codes "ignore") (min_int64 limits.max_file_bytes 268435456)
    ignore ← config_or (parse_ignore libraries.compile (reader ignore_bytes) limits)
    key_bytes ←
        read_config blobs (codes ".publickeys")
          (min_int64 limits.max_file_bytes libraries.maximum_key_bytes)
    public_keys ← found_or bad_config (libraries.parse_key_chains key_bytes)
    mirror_bytes ←
        read_config blobs (codes "mirrors.tsv") (min_int64 limits.max_file_bytes 67108864)
    mirrors ← config_or (parse_mirrors libraries.url_parse (reader mirror_bytes) limits)
    index ← found_or missing_blob (find_blob (codes "index.tsv") blobs)
    objects ← found_or missing_blob (find_blob (codes "objects.tsv") blobs)
    packs ← found_or missing_blob (find_blob (codes "packs.tsv") blobs)
    validate_stream_catalogs limits (reader index) (reader objects) (reader packs)
    refuse (not preparation && libraries.no_key_chains public_keys) empty_keys
    ok (record {
      format = format;
      public_keys = public_keys;
      mirrors = mirrors;
      has_source = true;
      blob_hashes = λ name. hash_of (find_blob name blobs);
      hash_count = 7;
      blob_sizes = λ name. size_of (find_blob name blobs);
      size_count = 7;
      objects = rows_of_blob objects;
      packs = rows_of_blob packs;
    })

  -- `parseMemoryState`
  unfoldable pub parse_memory_state : Blobs → Limits → Bool → Result Error (State K)
  unfolding check_required check_expected parse_stream_state
  parse_memory_state blobs limits preparation = do
    require (length blobs == 7) wrong_blob_count
    check_required required_blob_names blobs
    check_expected blobs
    parse_stream_state blobs limits preparation

  -- `ParseState`
  unfoldable pub parse_state : Blobs → Limits → Result Error (State K)
  unfolding parse_memory_state
  parse_state blobs limits = parse_memory_state blobs limits false

  -- `ParsePreparationState`
  unfoldable pub parse_preparation_state : Blobs → Limits → Result Error (State K)
  unfolding parse_memory_state find_blob
  parse_preparation_state blobs limits = do
    require
        (no_bytes (find_blob (codes "index.tsv") blobs)
          && no_bytes (find_blob (codes "objects.tsv") blobs)
          && no_bytes (find_blob (codes "packs.tsv") blobs))
        catalogs_given
    parse_memory_state blobs limits true

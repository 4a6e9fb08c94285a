-- ===== src/Repository/ValidationCache.antt =====
-- The cache of a validated ancestor (internal/repository/cache.go, and topologySnapshot of history.go):
-- what `writeValidationCache` writes of a history. Reading and writing its file is not part of the
-- model; `fits` is whether the text that encoding/json makes of a cache has at most 4 MiB. A cache
-- stands for one of the current version, and its identifiers for a map of the blobs that are
-- required.
pub mod Laws
pub mod Runs
use backup.Base.{
  ℕ, ◌-◌, Bool, true, false, ◌&&◌, ◌||◌, not, List, [], ◌∷◌, Option, none, some, ltb, ◌==◌, length,
  if◌then◌else◌, Result, ok, err, ◌>>=◌, ◌>>◌, require,
}
use backup.Base.Bytes.{Bytes}
use backup.Format.Patterns.{is_hex, all_of}
use backup.Format.Rows.{default_limits}
use backup.Format.Rows.Split.{rows_text}
use backup.Format.Rows.RoundTrip.{reader}
use backup.Format.Mirrors.{Mirror, Url, marshal_mirrors, parse_mirrors}
use backup.Repository.DerivedRows.{Error, Row, bad_cache, invalid_mirrors}
use backup.Repository.PackDelta.{
  TransitionKind, transition_invalid, transition_ordinary, transition_repair,
}
use backup.Repository.History.{Cache, History}

-- `isGitOID`; a value of these digits is its own lower case.
unfoldable pub is_git_oid : Bytes → Bool
unfolding all_of is_hex
is_git_oid value = length value == 64 && all_of is_hex value

-- `validTransition`
abbrev pub valid_transition : ℕ → TransitionKind → Bool
valid_transition sequence transition_invalid = sequence == 0
valid_transition sequence transition_ordinary = ltb 0 sequence
valid_transition sequence transition_repair = ltb 0 sequence

unfoldable pub all_oids : List Bytes → Bool
unfolding is_git_oid
all_oids [] = true
all_oids (id ∷ ids) = is_git_oid id && all_oids ids

-- A call of package format, its error passed on.
abbrev pub mirrors_or : {E A : Type 0} → Result E A → Result Error A
mirrors_or (ok a) = ok a
mirrors_or (err e) = err invalid_mirrors

module _ (url_parse : Bytes → Option Url) where
  -- `validateValidationCache`
  unfoldable pub validate_cache : Cache → Result Error (Unit {0})
  unfolding is_git_oid all_oids
  validate_cache cache = do
    require
        (is_git_oid cache.commit_id
          && valid_transition cache.sequence cache.transition
          && length cache.blob_ids == 7)
        bad_cache
    require (all_oids cache.blob_ids) bad_cache
    text ← mirrors_or (marshal_mirrors url_parse cache.topology)
    ok tt

  -- `History.topologySnapshot`: the mirrors of the ledger, if its file is not too large.
  unfoldable pub topology_snapshot : ℕ → List Row → Result Error (Option (List Mirror))
  topology_snapshot maximum topology =
      if ltb maximum (length (rows_text topology)) then ok none else (do
        mirrors ← mirrors_or (parse_mirrors url_parse (reader (rows_text topology)) default_limits)
        ok (some mirrors))

  module _ {K : Type 0} (fits : Cache → Bool) where
    -- The cache of a history whose mirrors could be read.
    abbrev pub cache_of : History K → List Mirror → Cache
    cache_of history mirrors = record {
      commit_id = history.tip.commit_id;
      sequence = history.count - 1;
      transition = history.tip.transition;
      blob_ids = history.tip.content.blob_ids;
      topology = mirrors;
    }

    -- `writeValidationCache`: the cache that is written, or none where the old one is left.
    unfoldable pub write_cache : History K → Result Error (Option Cache)
    unfolding validate_cache topology_snapshot
    write_cache history = do
      snapshot ← topology_snapshot 2097152 history.topology
      elim snapshot [
        | none ↦ ok none
        | some mirrors ↦ do
          validate_cache (cache_of history mirrors)
          ok (if fits (cache_of history mirrors) then some (cache_of history mirrors) else none)
      ]

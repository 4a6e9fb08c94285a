-- ===== src/Repository/ValidationCache/Runs.antt =====
-- Runs of `ValidateHistory` on a history that grows between them, each with the cache that the runs
-- before it left.
use mathlib.Core.Path.{subst}
use backup.Base.{
  ◌≡◌, ◌↔◌, sym, Bool, List, [], ◌++◌, append-nil, append_assoc, Option, none, some, ok,
}
use backup.Base.Bytes.{Bytes}
use backup.Repository.History.{Environment, Cache, History, validate_history}
use backup.Repository.History.Resume.{IsCacheOf}
use backup.Repository.History.Cached.{validate_history-cached}
use backup.Repository.ValidationCache.{write_cache}
use backup.Repository.ValidationCache.Laws.{write_cache-IsCacheOf}

-- The cache on disk, after a write that may leave the old one.
abbrev pub replaced : Option Cache → Option Cache → Option Cache
replaced old none = old
replaced old (some new) = some new

module _ {K : Type 0} (env : Environment K) (fits : Cache → Bool) where
  -- The histories and caches that runs lead to: none yet, more commits, or a run that accepts and
  -- writes.
  pub data Reached : List Bytes → Option Cache → Type 0 where
    start : Reached [] none
    grow :
        (ids more longer : List Bytes) (cache : Option Cache)
        → Reached ids cache
        → longer ≡ ids ++ more
        → Reached longer cache
    run :
        (ids : List Bytes) (tip_id : Bytes) (cache written next : Option Cache) (h : History K)
        → Reached ids cache
        → validate_history env cache ids tip_id ≡ ok h
        → write_cache env.url_parse fits h ≡ ok written
        → next ≡ replaced cache written
        → Reached ids next

  -- The cache is of the first commits, and stays so whatever is appended.
  abbrev Serves : List Bytes → Option Cache → Type 0
  Serves ids none = Unit
  Serves ids (some cache) = (more : List Bytes) → IsCacheOf env cache (ids ++ more)

  Serves-append :
      (ids more : List Bytes) (cache : Option Cache) → Serves ids cache → Serves (ids ++ more) cache
  Serves-append ids more none s = tt
  Serves-append ids more (some cache) s =
      λ rest. subst (IsCacheOf env cache) (sym (append_assoc ids more rest)) (s (more ++ rest))

  Serves-replaced :
      (ids : List Bytes) (tip_id : Bytes) (cache written : Option Cache) {h : History K}
      → Serves ids cache
      → validate_history env none ids tip_id ≡ ok h
      → write_cache env.url_parse fits h ≡ ok written
      → Serves ids (replaced cache written)
  Serves-replaced ids tip_id cache none s v w = s
  Serves-replaced ids tip_id cache (some new) {h} s v w =
      λ more. write_cache-IsCacheOf env fits ids more tip_id h new v w

  -- With a cache that serves, the answers are those without.
  Serves-validate_history :
      (ids : List Bytes) (tip_id : Bytes) (cache : Option Cache) (h : History K)
      → Serves ids cache
      → (validate_history env cache ids tip_id ≡ ok h)
        ↔ (validate_history env none ids tip_id ≡ ok h)
  Serves-validate_history ids tip_id none h s = (λ v. v, λ v. v)
  Serves-validate_history ids tip_id (some cache) h s =
      validate_history-cached env cache ids tip_id h
        (subst (IsCacheOf env cache) (append-nil ids) (s []))

  Reached-Serves : {ids : List Bytes} {cache : Option Cache} → Reached ids cache → Serves ids cache
  Reached-Serves start = tt
  Reached-Serves (grow ids more longer cache r e) =
      subst (λ i. Serves i cache) (sym e) (Serves-append ids more cache (Reached-Serves r))
  Reached-Serves (run ids tip_id cache written next h r v w e) =
      let s = Reached-Serves r in
      subst (Serves ids) (sym e) (
        Serves-replaced ids tip_id cache written s
          ((Serves-validate_history ids tip_id cache h s).0 v) w)

  -- Of a history that only grows, whatever runs of `ValidateHistory` came before and whichever of
  -- their caches were written: with the cache that they left, `ValidateHistory` accepts exactly what
  -- it accepts from the genesis, with the same result.
  pub Reached-validate_history :
      (ids : List Bytes) (tip_id : Bytes) (cache : Option Cache) (h : History K)
      → Reached ids cache
      → (validate_history env cache ids tip_id ≡ ok h)
        ↔ (validate_history env none ids tip_id ≡ ok h)
  Reached-validate_history ids tip_id cache h r =
      Serves-validate_history ids tip_id cache h (Reached-Serves r)

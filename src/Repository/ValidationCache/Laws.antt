-- ===== src/Repository/ValidationCache/Laws.antt =====
-- The cache that `writeValidationCache` writes serves every longer history.
use mathlib.Core.Path.{subst}
use backup.Base.{
  ℕ, suc, ◌-◌, ◌≡◌, ◌↔◌, refl, sym, ap, ◌∙◌, Bool, false, ◌&&◌, List, [], ◌∷◌, ◌++◌, map, arith,
  Option, none, some, some-eq, Option-cases, inl, inr, Bool-cases, ltb, ◌==◌, length, take, Result,
  ok, err, err-ne-ok, bind-eq-ok, require_then, All, All-Among, All-of-Among,
}
use backup.Base.Bytes.{Bytes}
use backup.Format.Rows.{default_limits}
use backup.Format.Rows.Split.{IsRow, rows_text, ok-injective}
use backup.Format.Rows.RoundTrip.{reader}
use backup.Format.Rows.Unique.{rows_text_injective}
use backup.Format.Mirrors.{Mirror, Url, mirror_row, marshal_mirrors, parse_mirrors}
use backup.Format.Mirrors.Laws.{rows_text-parse_mirrors}
use backup.Repository.DerivedRows.{Error, Row}
use backup.Repository.History.{Environment, Cache, History, walk_cached, validate_history}
use backup.Repository.History.Topology.{compact_mirror_topology-IsTopology}
use backup.Repository.History.Genesis.{history_parts}
use backup.Repository.History.Marshalled.{HasText, HasText-IsRow, walk_ids-IsMarshalled}
use backup.Repository.History.Resume.{IsCacheOf}
use backup.Repository.History.Cached.{validate_history-cached}
use backup.Repository.ValidationCache.{
  is_git_oid, valid_transition, all_oids, mirrors_or, validate_cache, topology_snapshot, cache_of,
  write_cache,
}

mirrors_or-ok : {E A : Type 0} (r : Result E A) {a : A} → mirrors_or r ≡ ok a → r ≡ ok a
mirrors_or-ok (ok b) h = ap ok (ok-injective h)
mirrors_or-ok (err e) h = absurd (err-ne-ok h)

not_written : {A : Type 0} {a : A} → ◌≡◌ {A = Result Error (Option A)} (ok none) (ok (some a)) → ⊥
not_written h = cc

take_all : (ids more : List Bytes) → take (length ids) (ids ++ more) ≡ ids
take_all [] [] = refl
take_all [] (id ∷ more) = refl
take_all (id ∷ ids) more = ap (◌∷◌ id) (take_all ids more)

module _ (url_parse : Bytes → Option Url) where
  -- The mirrors of a snapshot are the rows of the ledger.
  topology_snapshot-rows :
      (maximum : ℕ) (topology : List Row) {mirrors : List Mirror}
      → topology_snapshot url_parse maximum topology ≡ ok (some mirrors)
      → rows_text (map mirror_row mirrors) ≡ rows_text topology
  unfolding topology_snapshot
  topology_snapshot-rows maximum topology h =
      elim (Bool-cases (ltb maximum (length (rows_text topology)))) [
        | inl large ↦ absurd (not_written (rw (large, topology_snapshot) at h))
        | inr small ↦
            let (mirrors', read, made) =
              bind-eq-ok
                (mirrors_or (parse_mirrors url_parse (reader (rows_text topology)) default_limits))
                _ (rw (small, topology_snapshot) at h) in
            let same = some-eq (ok-injective made) in
            ap (λ ms. rows_text (map mirror_row ms)) (sym same)
            ∙ (rows_text-parse_mirrors url_parse (reader (rows_text topology)) default_limits (
                mirrors_or-ok (parse_mirrors url_parse (reader (rows_text topology)) default_limits)
                  read)).0
      ]

  validate_cache-HasText :
      (cache : Cache) → validate_cache url_parse cache ≡ ok tt → HasText url_parse cache.topology
  unfolding validate_cache
  validate_cache-HasText cache h =
      let (_, h1) =
        require_then
          (is_git_oid cache.commit_id
            && valid_transition cache.sequence cache.transition
            && length cache.blob_ids == 7)
          _ _ h in
      let (_, h2) = require_then (all_oids cache.blob_ids) _ _ h1 in
      let (text, written, _) =
        bind-eq-ok (mirrors_or (marshal_mirrors url_parse cache.topology)) _ h2 in
      (text, mirrors_or-ok (marshal_mirrors url_parse cache.topology) written)

  module _ {K : Type 0} (fits : Cache → Bool) where
    -- What is written.
    write_cache-parts :
        (h : History K) {cache : Cache}
        → write_cache url_parse fits h ≡ ok (some cache)
        → (mirrors : List Mirror) × ((cache ≡ cache_of url_parse fits h mirrors)
            × (topology_snapshot url_parse 2097152 h.topology ≡ ok (some mirrors))
            × (validate_cache url_parse cache ≡ ok tt))
    unfolding write_cache
    write_cache-parts h w =
        let (snapshot, got, w1) = bind-eq-ok (topology_snapshot url_parse 2097152 h.topology) _ w in
        elim (Option-cases snapshot) [
          | inl e ↦ absurd (not_written (rw (e, write_cache) at w1))
          | inr (mirrors, e) ↦
              let cache' = cache_of url_parse fits h mirrors in
              let (_, valid, w2) =
                bind-eq-ok (validate_cache url_parse cache') _ (rw (e, write_cache) at w1) in
              elim (Bool-cases (fits cache')) [
                | inr large ↦ absurd (not_written (rw (large, write_cache) at w2))
                | inl small ↦
                    let same = some-eq (ok-injective (rw (small, write_cache) at w2)) in
                    (
                      mirrors,
                      (
                        sym same,
                        got ∙ ap ok e,
                        subst (λ c. validate_cache url_parse c ≡ ok tt) same valid,
                      ),
                    )
              ]
        ]

module _ {K : Type 0} (env : Environment K) (fits : Cache → Bool) where
  -- The ledger of a history holds rows that can be written.
  topology-IsRow :
      (ids : List Bytes) (tip_id : Bytes) {h : History K}
      → validate_history env none ids tip_id ≡ ok h
      → All IsRow h.topology
  topology-IsRow ids tip_id {h} v =
      let (walk, (walked, _, compacted, _, _, _, _)) = history_parts env none ids tip_id v in
      let t = compact_mirror_topology-IsTopology walk.raw compacted in
      let m = walk_ids-IsMarshalled env ids walk (unfold walk_cached in walked) in
      All-of-Among IsRow h.topology (λ r i. All-Among IsRow r walk.raw m.rows (t.from r i))

  pub write_cache-IsCacheOf :
      (ids more : List Bytes) (tip_id : Bytes) (h : History K) (cache : Cache)
      → validate_history env none ids tip_id ≡ ok h
      → write_cache env.url_parse fits h ≡ ok (some cache)
      → IsCacheOf env cache (ids ++ more)
  write_cache-IsCacheOf ids more tip_id h cache v w =
      let (walk, (_, tip, _, counted, tips, _, some_ids)) = history_parts env none ids tip_id v in
      let (mirrors, (same, got, valid)) = write_cache-parts env.url_parse fits h w in
      let sequence : suc cache.sequence ≡ length ids =
        ap (λ c. suc c.sequence) same ∙ last_position h.count (length ids) counted some_ids in
      let text = validate_cache-HasText env.url_parse cache valid in
      let text' = subst (λ c. HasText env.url_parse c.topology) same text in
      let firsts : take (suc cache.sequence) (ids ++ more) ≡ ids =
        ap (λ n. take n (ids ++ more)) sequence ∙ take_all ids more in
      let named : cache.commit_id ≡ tip_id =
        ap (λ c. c.commit_id) same ∙ ap (λ c. c.commit_id) tips ∙ tip in
      record {
        history = h;
        accepted =
            subst (λ i. validate_history env none i cache.commit_id ≡ ok h) (sym firsts)
              (subst (λ t. validate_history env none ids t ≡ ok h) (sym named) v);
        transition = ap (λ c. c.transition) same;
        topology =
            ap (λ c. map mirror_row c.topology) same
            ∙ rows_text_injective (map mirror_row mirrors) h.topology
                (HasText-IsRow env.url_parse mirrors text') (topology-IsRow ids tip_id v)
                (topology_snapshot-rows env.url_parse 2097152 h.topology got);
        readable = text;
      }
    where
      last_position : (n m : ℕ) → n ≡ m → (m == 0) ≡ false → suc (n - 1) ≡ m
      last_position n m e some_m = ground arith

  -- The cache that `writeValidationCache` writes of an accepted history changes no later answer: of
  -- every history that goes on behind the last commit, `ValidateHistory` accepts with the cache
  -- exactly what it accepts without, with the same result. That holds whatever sizes the texts of
  -- encoding/json have.
  validate_history-write_cache :
      (ids more : List Bytes) (tip_id later_id : Bytes) (h later : History K) (cache : Cache)
      → validate_history env none ids tip_id ≡ ok h
      → write_cache env.url_parse fits h ≡ ok (some cache)
      → (validate_history env (some cache) (ids ++ more) later_id ≡ ok later)
        ↔ (validate_history env none (ids ++ more) later_id ≡ ok later)
  validate_history-write_cache ids more tip_id later_id h later cache v w =
      validate_history-cached env cache (ids ++ more) later_id later
        (write_cache-IsCacheOf ids more tip_id h cache v w)

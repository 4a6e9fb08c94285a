-- ===== src/Repository/History/Cached.antt =====
-- A history is accepted from a cached ancestor if and only if it is from its genesis.
use mathlib.Core.Path.{subst}
use backup.Base.{
  suc, ◌≡◌, ◌↔◌, ◌∙◌, refl, sym, ap, ap₂, false, List, ◌++◌, Option, none, some, Option-cases, inl,
  inr, ok, bind-eq-ok, length, Among, Among-append, append-Among, take, drop, take-append-drop,
  ◌==◌,
}
use backup.Base.Bytes.{Bytes, equal_iff}
use backup.Repository.DerivedRows.{Row}
use backup.Repository.History.{
  Environment, Cache, Walk, History, anchor_of, compact_mirror_topology, follow_ids, resume,
  validate_history, walk_cached, walk_ids,
}
use backup.Repository.History.Ledger.{SameRows, compact_mirror_topology-SameRows}
use backup.Repository.History.Genesis.{history_parts}
use backup.Repository.History.Rounds.{with_rows, follow_ids-other, walk_ids-append}
use backup.Repository.History.Resume.{IsCacheOf, anchor_of-read, resume-with_rows, resume-ok}

SameRows-append : (xs ys more : List Row) → SameRows xs ys → SameRows (xs ++ more) (ys ++ more)
SameRows-append xs ys more (into, from) =
    (λ r m. side r xs ys (into r) m, λ r m. side r ys xs (from r) m)
  where
    side :
        (r : Row) (xs' ys' : List Row)
        → (Among r xs' → Among r ys')
        → Among r (xs' ++ more)
        → Among r (ys' ++ more)
    side r xs' ys' f m = elim (append-Among r xs' more m) [
      | inl n ↦ Among-append r ys' more (inl (f n))
      | inr n ↦ Among-append r ys' more (inr n)
    ]

module _ {K : Type 0} (env : Environment K) where
  -- What the loop walks over behind a cache is what it walks over from the genesis.
  walk_cached-walk_ids :
      (cache : Cache) (ids : List Bytes) {walk : Walk K}
      → IsCacheOf env cache ids
      → walk_cached env (some cache) ids ≡ ok walk
      → (full : Walk K) × ((walk_ids env ids ≡ ok full)
          × (walk ≡ with_rows walk.raw full)
          × SameRows walk.raw full.raw)
  unfolding walk_cached
  walk_cached-walk_ids cache ids {walk} k w = elim (Option-cases (anchor_of env cache ids)) [
    | inl e ↦ (walk, (rw (e, walk_cached) at w, refl, (λ r m. m, λ r m. m)))
    | inr (content, e) ↦
        let was_read = anchor_of-read env cache ids content e in
        let rest = drop (suc cache.sequence) ids in
        let (start, resumed, followed) =
          bind-eq-ok (resume env cache content) _ (rw (e, walk_cached) at w) in
        let (mid, (walked, named, same, rows)) =
          resume-with_rows env cache ids content k was_read resumed in
        let (more, (all, followed')) =
          follow_ids-other env start walk mid.raw cache.commit_id rest
            (ap (λ v. v.tip.commit_id) same ∙ named) followed in
        let from_mid : follow_ids env mid cache.commit_id rest
            ≡ ok (with_rows (mid.raw ++ more) walk) =
          ap (λ v. follow_ids env (with_rows mid.raw v) cache.commit_id rest) (sym same)
          ∙ followed' in
        (
          with_rows (mid.raw ++ more) walk,
          (
            ap (walk_ids env) (sym (take-append-drop (suc cache.sequence) ids))
                ∙ walk_ids-append env mid (take (suc cache.sequence) ids) rest walked
                ∙ ap (λ i. follow_ids env mid i rest) named
                ∙ from_mid,
            refl,
            subst (λ r. SameRows r (mid.raw ++ more)) (sym all)
                (SameRows-append start.raw mid.raw more rows),
          ),
        )
  ]

  -- From the genesis to the cached commit, and from there on.
  follow_ids-rest :
      (mid full : Walk K) (ids rest : List Bytes)
      → walk_ids env ids ≡ ok mid
      → walk_ids env (ids ++ rest) ≡ ok full
      → follow_ids env mid mid.tip.commit_id rest ≡ ok full
  follow_ids-rest mid full ids rest walked whole =
      sym (walk_ids-append env mid ids rest walked) ∙ whole

  -- What the loop walks over from the genesis is what it walks over behind a cache.
  walk_ids-walk_cached :
      (cache : Cache) (ids : List Bytes) {full : Walk K}
      → IsCacheOf env cache ids
      → walk_ids env ids ≡ ok full
      → (walk : Walk K) × ((walk_cached env (some cache) ids ≡ ok walk)
          × (walk ≡ with_rows walk.raw full)
          × SameRows full.raw walk.raw)
  unfolding walk_cached
  walk_ids-walk_cached cache ids {full} k w = elim (Option-cases (anchor_of env cache ids)) [
    | inl e ↦ (full, (rw (e, walk_cached) w, refl, (λ r m. m, λ r m. m)))
    | inr (content, e) ↦
        let was_read = anchor_of-read env cache ids content e in
        let first = take (suc cache.sequence) ids in
        let rest = drop (suc cache.sequence) ids in
        let (start, resumed) = resume-ok env cache ids content k was_read in
        let (mid, (walked, named, same, (into, from))) =
          resume-with_rows env cache ids content k was_read resumed in
        let followed =
          follow_ids-rest mid full first rest walked
            (ap (walk_ids env) (take-append-drop (suc cache.sequence) ids) ∙ w) in
        let (more, (all, followed')) =
          follow_ids-other env mid full start.raw mid.tip.commit_id rest refl followed in
        (
          with_rows (start.raw ++ more) full,
          (
            rw (e, walk_cached)
                (rw resumed (ap₂ (λ v i. follow_ids env v i rest) same (sym named) ∙ followed')),
            refl,
            subst (λ r. SameRows r (start.raw ++ more)) (sym all)
                (SameRows-append mid.raw start.raw more (from, into)),
          ),
        )
  ]

  validate_history-of :
      (cache : Option Cache) (ids : List Bytes) (tip_id : Bytes) (walk : Walk K) (h : History K)
      → (length ids == 0) ≡ false
      → walk_cached env cache ids ≡ ok walk
      → walk.tip.commit_id ≡ tip_id
      → compact_mirror_topology walk.raw ≡ ok h.topology
      → h.count ≡ length ids
      → h.tip ≡ walk.tip
      → h.genesis_format ≡ walk.genesis_format
      → validate_history env cache ids tip_id ≡ ok h
  unfolding validate_history
  validate_history-of cache ids tip_id walk h some_ids walked named compacted counted tip format =
      let t = (equal_iff walk.tip.commit_id tip_id).1 named in
      rw (some_ids, walked, t, compacted)
        (ap₂
            (λ n c. ok (record {
              count = n;
              tip = c;
              genesis_format = walk.genesis_format;
              topology = h.topology;
            }))
            (sym counted) (sym tip)
          ∙ ap
              (λ f. ok (record {
                count = h.count;
                tip = h.tip;
                genesis_format = f;
                topology = h.topology;
              }))
              (sym format))

  same_history :
      (cache : Option Cache) (ids : List Bytes) (tip_id : Bytes) (h : History K)
      (walk other : Walk K)
      → (length ids == 0) ≡ false
      → walk_cached env cache ids ≡ ok other
      → walk ≡ with_rows walk.raw other
      → walk.tip.commit_id ≡ tip_id
      → compact_mirror_topology other.raw ≡ ok h.topology
      → h.count ≡ length ids
      → h.tip ≡ walk.tip
      → h.genesis_format ≡ walk.genesis_format
      → validate_history env cache ids tip_id ≡ ok h
  same_history cache ids tip_id h walk other some_ids walked alike tip compacted counted tips
        formats =
      let same_tip = ap (λ w. w.tip) alike in
      validate_history-of cache ids tip_id other h some_ids walked
        (sym (ap (λ c. c.commit_id) same_tip) ∙ tip) compacted counted (tips ∙ same_tip)
        (formats ∙ ap (λ w. w.genesis_format) alike)

  mirrored : (walk full : Walk K) → walk ≡ with_rows walk.raw full → full ≡ with_rows full.raw walk
  mirrored walk full alike = ap (with_rows full.raw) (sym alike)

  -- If the cache is of an accepted history of the first commits, as `writeValidationCache` leaves
  -- it, `ValidateHistory` accepts with the cache exactly the histories that it accepts without, with
  -- the same tip, format, ledger and length.
  pub validate_history-cached :
      (cache : Cache) (ids : List Bytes) (tip_id : Bytes) (h : History K)
      → IsCacheOf env cache ids
      → (validate_history env (some cache) ids tip_id ≡ ok h)
        ↔ (validate_history env none ids tip_id ≡ ok h)
  unfolding walk_cached
  validate_history-cached cache ids tip_id h k = (
    λ v.
        let (walk, (walked, tip, compacted, counted, tips, formats, some_ids)) =
          history_parts env (some cache) ids tip_id v in
        let (full, (from_genesis, alike, rows)) = walk_cached-walk_ids cache ids k walked in
        same_history none ids tip_id h walk full some_ids from_genesis alike tip
          (compact_mirror_topology-SameRows walk.raw full.raw rows compacted) counted tips formats,
    λ v.
        let (full, (walked, tip, compacted, counted, tips, formats, some_ids)) =
          history_parts env none ids tip_id v in
        let (walk, (cached, alike, rows)) = walk_ids-walk_cached cache ids k walked in
        same_history (some cache) ids tip_id h full walk some_ids cached (mirrored walk full alike)
          tip (compact_mirror_topology-SameRows full.raw walk.raw rows compacted) counted tips
          formats,
  )

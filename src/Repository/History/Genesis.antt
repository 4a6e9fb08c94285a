-- ===== src/Repository/History/Genesis.antt =====
-- What a history that `ValidateHistory` accepts is, from its genesis to its tip.
use mathlib.Core.Path.{subst}
use backup.Base.{
  ◌<◌, ◌&&◌, ◌||◌, true, not, arith, require-eq-ok, ◌≡◌, ◌∙◌, refl, sym, ap, false, List, [], ◌∷◌,
  ◌++◌, Option, none, ok, err-ne-ok, bind-eq-ok, require_then, refuse_then, length, last_or, All,
  Among, ◌==◌,
}
use backup.Base.Bytes.{Bytes, codes, equal, equal_iff}
use backup.Format.Rows.Split.{ok-injective}
use backup.Format.Mirrors.{Mirror, mirror_row}
use backup.Repository.DerivedRows.{Row, bad_key_chain}
use backup.Repository.PackDelta.{transition_invalid}
use backup.Repository.Transition.{State, format_values, validate_state}
use backup.Repository.History.{
  Environment, Cache, Commit, Walk, History, walk_cached, append_mirrors, compact_mirror_topology,
  follow_ids, validate_first, validate_genesis, validate_history, walk_ids,
}
use backup.Repository.History.Topology.{IsTopology, compact_mirror_topology-IsTopology, Sorted-one}
use backup.Repository.History.Chain.{
  mirrors_of, ids_of, Among-mirrors_of, transition_format, IsChain, append_mirrors-ok,
  follow_ids-Walked,
}

module _ {K : Type 0} (env : Environment K) where
  -- A state to begin with: it is complete, its key chain has a latest key, its catalogs are empty
  -- files, and it has a mirror.
  pub record IsGenesis (state : State K) : Type 0 where
    pub sourced : state.has_source ≡ true
    pub hashes : state.hash_count ≡ 7
    pub sizes : state.size_count ≡ 7
    pub keyed : env.latest state.public_keys ≡ true
    pub no_index : state.blob_sizes (codes "index.tsv") ≡ 0
    pub no_objects : state.blob_sizes (codes "objects.tsv") ≡ 0
    pub no_packs : state.blob_sizes (codes "packs.tsv") ≡ 0
    pub mirrored : 0 < length state.mirrors

  validate_genesis-IsGenesis :
      (state : State K) → validate_genesis env state ≡ ok tt → IsGenesis state
  unfolding validate_genesis validate_state
  validate_genesis-IsGenesis state h =
      let (_, valid, h1) = bind-eq-ok (validate_state env.latest env.chain_allows state) _ h in
      let (complete, keyed) =
        refuse_then
          (not state.has_source || not (state.hash_count == 7) || not (state.size_count == 7)) _ _
          valid in
      let (empty, some_mirror) =
        require_then
          (state.blob_sizes (codes "index.tsv") == 0
            && state.blob_sizes (codes "objects.tsv") == 0
            && state.blob_sizes (codes "packs.tsv") == 0)
          _ _ h1 in
      record {
        sourced = ground arith;
        hashes = ground arith;
        sizes = ground arith;
        keyed = require-eq-ok (env.latest state.public_keys) bad_key_chain keyed;
        no_index = ground arith;
        no_objects = ground arith;
        no_packs = ground arith;
        mirrored = ground arith;
      }

  -- What the loop has walked over from the genesis on.
  pub record Begun (ids : List Bytes) (end : Walk K) : Type 0 where
    pub genesis : Commit K
    pub later : List (Commit K)
    pub named : ids_of (genesis ∷ later) ≡ ids
    pub was_read : env.read_commit genesis.commit_id ≡ ok genesis.content
    pub root : genesis.content.parent_id ≡ []
    pub genesis_valid : IsGenesis genesis.content.state
    pub chain : IsChain env genesis later
    pub tip : end.tip ≡ last_or genesis later
    pub format : end.genesis_format ≡ genesis.content.state.format
    pub rows : end.raw ≡ mirrors_of (genesis ∷ later)

  walk_ids-Begun : (ids : List Bytes) (end : Walk K) → walk_ids env ids ≡ ok end → Begun ids end
  unfolding walk_ids validate_first
  walk_ids-Begun [] end h = absurd (err-ne-ok h)
  walk_ids-Begun (id ∷ ids) end h =
      let (first, begun, h1) = bind-eq-ok (validate_first env id) _ h in
      let (content, was_read, h2) = bind-eq-ok (env.read_commit id) _ begun in
      let (t, h3) = require_then (equal content.parent_id []) _ _ h2 in
      let (_, valid, h4) = bind-eq-ok (validate_genesis env content.state) _ h3 in
      let (raw, appended, h5) = bind-eq-ok (append_mirrors env [] content.state.mirrors) _ h4 in
      let genesis : Commit K = record {
        commit_id = id;
        content = content;
        transition = transition_invalid;
      } in
      let start : Walk K = record {
        tip = genesis;
        genesis_format = content.state.format;
        raw = raw;
      } in
      let w =
        follow_ids-Walked env start end id ids refl
          (subst (λ f. follow_ids env f id ids ≡ ok end) (sym (ok-injective h5)) h1) in
      record {
        genesis = genesis;
        later = w.commits;
        named = ap (◌∷◌ id) w.named;
        was_read = was_read;
        root = (equal_iff content.parent_id []).0 t;
        genesis_valid = validate_genesis-IsGenesis content.state valid;
        chain = w.chain;
        tip = w.tip;
        format = w.format;
        rows =
            w.rows
            ∙ ap (λ r. r ++ mirrors_of w.commits)
                (append_mirrors-ok env [] content.state.mirrors appended);
      }

  -- What a history consists of.
  pub history_parts :
      (cache : Option Cache) (ids : List Bytes) (tip_id : Bytes) {h : History K}
      → validate_history env cache ids tip_id ≡ ok h
      → (walk : Walk K) × ((walk_cached env cache ids ≡ ok walk)
          × (walk.tip.commit_id ≡ tip_id)
          × (compact_mirror_topology walk.raw ≡ ok h.topology)
          × (h.count ≡ length ids)
          × (h.tip ≡ walk.tip)
          × (h.genesis_format ≡ walk.genesis_format)
          × ((length ids == 0) ≡ false))
  unfolding validate_history
  history_parts cache ids tip_id {h} v =
      let (some_ids, v1) = refuse_then (length ids == 0) _ _ v in
      let (walk, walked, v2) = bind-eq-ok (walk_cached env cache ids) _ v1 in
      let (t, v3) = require_then (equal walk.tip.commit_id tip_id) _ _ v2 in
      let (out, compacted, v4) = bind-eq-ok (compact_mirror_topology walk.raw) _ v3 in
      let made = ok-injective v4 in
      (
        walk,
        (
          walked,
          (equal_iff walk.tip.commit_id tip_id).0 t,
          compacted ∙ ap (λ x. ok x.topology) made,
          sym (ap (λ x. x.count) made),
          sym (ap (λ x. x.tip) made),
          sym (ap (λ x. x.genesis_format) made),
          some_ids,
        ),
      )

  -- A history: it begins with a valid genesis, every later commit is a child of the one before by a
  -- valid transition, all have one FORMAT, and a name stands for one mirror in all of it.
  pub record IsHistory (ids : List Bytes) (tip_id : Bytes) (h : History K) : Type 0 where
    pub genesis : Commit K
    pub later : List (Commit K)
    pub named : ids_of (genesis ∷ later) ≡ ids
    pub was_read : env.read_commit genesis.commit_id ≡ ok genesis.content
    pub root : genesis.content.parent_id ≡ []
    pub genesis_valid : IsGenesis genesis.content.state
    pub chain : IsChain env genesis later
    pub tip : h.tip ≡ last_or genesis later
    pub tip_named : h.tip.commit_id ≡ tip_id
    pub counted : h.count ≡ length ids
    pub one_format :
        All
          (λ c. format_values c.content.state.format ≡ format_values h.genesis_format)
          (genesis ∷ later)
    pub ledger : IsTopology (mirrors_of (genesis ∷ later)) h.topology
    pub bound_once :
        (c d : Commit K) (m n : Mirror)
        → Among c (genesis ∷ later)
        → Among d (genesis ∷ later)
        → Among m c.content.state.mirrors
        → Among n d.content.state.mirrors
        → m.name ≡ n.name
        → mirror_row m ≡ mirror_row n

  chain_format :
      (c : Commit K) (cs : List (Commit K)) (values : List Bytes)
      → format_values c.content.state.format ≡ values
      → IsChain env c cs
      → All (λ d. format_values d.content.state.format ≡ values) cs
  chain_format c [] values e h = tt
  chain_format c (d ∷ ds) values e (h, hs) =
      let same =
        transition_format env.latest env.chain_allows c.content.state d.content.state h.allowed in
      let e' = sym same ∙ e in (e', chain_format d ds values e' hs)

  one_binding :
      (cs : List (Commit K)) (out : List Row) (c d : Commit K) (m n : Mirror)
      → IsTopology (mirrors_of cs) out
      → Among c cs
      → Among d cs
      → Among m c.content.state.mirrors
      → Among n d.content.state.mirrors
      → m.name ≡ n.name
      → mirror_row m ≡ mirror_row n
  one_binding cs out c d m n t i j k l e =
      Sorted-one out (mirror_row m) (mirror_row n) t.sorted
        (t.kept (mirror_row m) (Among-mirrors_of cs c m i k))
        (t.kept (mirror_row n) (Among-mirrors_of cs d n j l)) (unfold mirror_row in e)

  -- A history that `ValidateHistory` accepts without a cache is a chain of the listed commits to the
  -- tip. Its genesis has no parent, a complete state with a latest key, three empty catalogs and at
  -- least one mirror. Each later commit was read, has the one before as parent and follows it by a
  -- transition that `ValidateTransition` accepts as its kind. All have the FORMAT of the genesis, the
  -- ledger holds the mirrors of all commits, and no name stands for two mirrors.
  pub validate_history-IsHistory :
      (ids : List Bytes) (tip_id : Bytes) {h : History K}
      → validate_history env none ids tip_id ≡ ok h
      → IsHistory ids tip_id h
  validate_history-IsHistory ids tip_id {h} v =
      let (walk, (walked, tip, compacted, counted, tips, formats, _)) =
        history_parts none ids tip_id v in
      let b = walk_ids-Begun ids walk (unfold walk_cached in walked) in
      let ledger =
        subst (λ r. IsTopology r h.topology) b.rows
          (compact_mirror_topology-IsTopology walk.raw compacted) in
      let first : format_values b.genesis.content.state.format ≡ format_values h.genesis_format =
        ap format_values (sym (formats ∙ b.format)) in
      record {
        genesis = b.genesis;
        later = b.later;
        named = b.named;
        was_read = b.was_read;
        root = b.root;
        genesis_valid = b.genesis_valid;
        chain = b.chain;
        tip = tips ∙ b.tip;
        tip_named = ap (λ c. c.commit_id) tips ∙ tip;
        counted = counted;
        one_format = (first, chain_format b.genesis b.later _ first b.chain);
        ledger = ledger;
        bound_once = λ c d m n. one_binding (b.genesis ∷ b.later) h.topology c d m n ledger;
      }

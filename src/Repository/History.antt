-- ===== src/Repository/History.antt =====
-- Validator.ValidateHistory (internal/repository/history_validate.go): a history is a chain of commits
-- from a genesis, each a valid transition from the one before. `git` is a parameter: the identifiers
-- that `rev-list` lists, oldest first, and what `validateCommit` reads of a commit.
pub mod Topology
pub mod Chain
pub mod Genesis
pub mod Ledger
pub mod Rounds
pub mod Resume
pub mod Marshalled
pub mod Cached
use backup.Base.{
  ℕ, suc, Bool, true, false, not, ◌&&◌, ◌||◌, List, [], ◌∷◌, ◌++◌, map, Option, none, some, ltb,
  leb, ◌==◌, if◌then◌else◌, length, drop, get_or, Result, ok, err, ◌>>=◌, ◌>>◌, require, refuse,
}
use backup.Base.Bytes.{Bytes, codes, equal}
use backup.Format.FormatFile.{RepositoryFormat}
use backup.Format.Mirrors.{Mirror, Url, mirror_row, marshal_mirrors}
use backup.Repository.DerivedRows.{
  Error, empty_history, genesis_has_parent, catalogs_not_empty, no_mirrors, wrong_parent, wrong_tip,
  invalid_mirrors, invalid_row, rebound_mirror, Row, field, equal_fields,
}
use backup.Repository.PackDelta.{TransitionKind, transition_invalid}
use backup.Repository.Sorting.{sort_rows}
use backup.Repository.Transition.{State, validate_state, validate_transition}

-- What `validateCommit` reads of a commit: its parent (empty for none), its state, and the
-- identifiers of its blobs in the order of `RequiredBlobNames`.
pub record Content (K : Type 0) : Type 0 where
  pub parent_id : Bytes
  pub state : State K
  pub blob_ids : List Bytes

-- `ValidatedCommit`
pub record Commit (K : Type 0) : Type 0 where
  pub commit_id : Bytes
  pub content : Content K
  pub transition : TransitionKind

-- `validationCache`, as it was loaded.
pub record Cache : Type 0 where
  pub commit_id : Bytes
  pub sequence : ℕ
  pub transition : TransitionKind
  pub blob_ids : List Bytes
  pub topology : List Mirror

-- `History`
pub record History (K : Type 0) : Type 0 where
  pub count : ℕ
  pub tip : Commit K
  pub genesis_format : RepositoryFormat
  pub topology : List Row

-- The variables of the loop: the commit before, the format of the genesis, and the rows of all
-- mirrors so far.
pub record Walk (K : Type 0) : Type 0 where
  pub tip : Commit K
  pub genesis_format : RepositoryFormat
  pub raw : List Row

-- What is not of this repository: whether `KeyChains.Latest` succeeds and
-- `libsodium.ValidateKeyChainTransition` does, `url.Parse`, and what git knows of a commit.
pub record Environment (K : Type 0) : Type 0 where
  pub latest : K → Bool
  pub chain_allows : K → K → Bool
  pub url_parse : Bytes → Option Url
  pub read_commit : Bytes → Result Error (Content K)

-- The loop of `compactMirrorTopology` over the sorted rows.
unfoldable pub compact_rows : Bytes → Row → List Row → Result Error (List Row)
unfolding equal_fields
compact_rows previous_name previous_row [] = ok []
compact_rows previous_name previous_row (row ∷ rows) = do
  require (leb 2 (length row) && not (equal (field row 0) [])) invalid_row
  elim (equal (field row 0) previous_name) [
    | true ↦
        require (equal_fields row previous_row) rebound_mirror
        >> compact_rows previous_name previous_row rows
    | false ↦ compact_rows (field row 0) row rows >>= λ rest. ok (row ∷ rest)
  ]

-- `compactMirrorTopology`
unfoldable pub compact_mirror_topology : List Row → Result Error (List Row)
unfolding compact_rows
compact_mirror_topology raw = compact_rows [] [] (sort_rows raw)

module _ {K : Type 0} (env : Environment K) where
  -- `State.ValidateGenesis`
  unfoldable pub validate_genesis : State K → Result Error (Unit {0})
  validate_genesis state = do
    validate_state env.latest env.chain_allows state
    require
        (state.blob_sizes (codes "index.tsv") == 0
          && state.blob_sizes (codes "objects.tsv") == 0
          && state.blob_sizes (codes "packs.tsv") == 0)
        catalogs_not_empty
    refuse (length state.mirrors == 0) no_mirrors

  -- The closure `appendMirrors`, which writes what `MarshalMirrors` returns.
  unfoldable pub append_mirrors : List Row → List Mirror → Result Error (List Row)
  append_mirrors raw mirrors = elim (marshal_mirrors env.url_parse mirrors) [
    | ok text ↦ ok (raw ++ map mirror_row mirrors)
    | err e ↦ err invalid_mirrors
  ]

  -- A round of the loop for the first commit.
  unfoldable pub validate_first : Bytes → Result Error (Walk K)
  unfolding validate_genesis append_mirrors
  validate_first id = do
    content ← env.read_commit id
    require (equal content.parent_id []) genesis_has_parent
    validate_genesis content.state
    raw ← append_mirrors [] content.state.mirrors
    ok (record {
      tip = record { commit_id = id; content = content; transition = transition_invalid };
      genesis_format = content.state.format;
      raw = raw;
    })

  -- A round of the loop for a later commit.
  unfoldable pub validate_next : Walk K → Bytes → Bytes → Result Error (Walk K)
  unfolding append_mirrors
  validate_next walk previous_id id = do
    content ← env.read_commit id
    require (equal content.parent_id previous_id) wrong_parent
    kind ← validate_transition env.latest env.chain_allows walk.tip.content.state content.state
    raw ← append_mirrors walk.raw content.state.mirrors
    ok (record {
      tip = record { commit_id = id; content = content; transition = kind };
      genesis_format = walk.genesis_format;
      raw = raw;
    })

  unfoldable pub follow_ids : Walk K → Bytes → List Bytes → Result Error (Walk K)
  unfolding validate_next
  follow_ids walk previous_id [] = ok walk
  follow_ids walk previous_id (id ∷ ids) = do
    next ← validate_next walk previous_id id
    follow_ids next id ids

  -- The loop from the genesis.
  unfoldable pub walk_ids : List Bytes → Result Error (Walk K)
  unfolding validate_first follow_ids
  walk_ids [] = err empty_history
  walk_ids (id ∷ ids) = do first ← validate_first id; follow_ids first id ids

  -- `parentOK && genesisOK`
  unfoldable pub anchor_placed : Cache → List Bytes → Content K → Bool
  unfolding validate_genesis
  anchor_placed cache ids content = elim cache.sequence [
    | ℕ.zero ↦
        equal content.parent_id []
        && (elim (validate_genesis content.state) [ ok _ ↦ true | err _ ↦ false ])
    | suc n ↦ equal content.parent_id (get_or ids n [])
  ]

  -- The commit that the cache stands for, if it can be used.
  unfoldable pub anchor_of : Cache → List Bytes → Option (Content K)
  unfolding anchor_placed equal_fields
  anchor_of cache ids =
      if ltb cache.sequence (length ids) && equal (get_or ids cache.sequence []) cache.commit_id
      then (elim (env.read_commit cache.commit_id) [
        | ok content ↦
            if equal_fields content.blob_ids cache.blob_ids && anchor_placed cache ids content
            then some content
            else none
        | err _ ↦ none
      ])
      else none

  -- The walk that goes on behind the cached commit.
  unfoldable pub resume : Cache → Content K → Result Error (Walk K)
  unfolding append_mirrors
  resume cache content = do
    cached ← append_mirrors [] cache.topology
    raw ← append_mirrors cached content.state.mirrors
    ok (record {
      tip = record {
        commit_id = cache.commit_id;
        content = content;
        transition = cache.transition;
      };
      genesis_format = content.state.format;
      raw = raw;
    })

  unfoldable pub walk_cached : Option Cache → List Bytes → Result Error (Walk K)
  unfolding walk_ids anchor_of resume follow_ids
  walk_cached none ids = walk_ids ids
  walk_cached (some cache) ids = elim (anchor_of cache ids) [
    | none ↦ walk_ids ids
    | some content ↦ resume cache content >>= λ walk.
        follow_ids walk cache.commit_id (drop (suc cache.sequence) ids)
  ]

  -- `ValidateHistory`, of the identifiers behind the tip; what is written of the cache is in
  -- Repository.ValidationCache.
  unfoldable pub validate_history : Option Cache → List Bytes → Bytes → Result Error (History K)
  unfolding walk_cached compact_mirror_topology
  validate_history cache ids tip_id = do
    refuse (length ids == 0) empty_history
    walk ← walk_cached cache ids
    require (equal walk.tip.commit_id tip_id) wrong_tip
    topology ← compact_mirror_topology walk.raw
    ok (record {
      count = length ids;
      tip = walk.tip;
      genesis_format = walk.genesis_format;
      topology = topology;
    })

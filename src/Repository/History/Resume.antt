-- ===== src/Repository/History/Resume.antt =====
-- The walk that `ValidateHistory` resumes from a cache is the walk to the cached commit.
use mathlib.Core.Path.{subst}
use backup.Base.{
  suc, ◌≡◌, ◌∙◌, sym, ap, ap₂, ◌&&◌, List, [], ◌∷◌, ◌++◌, map, Option, none, some, some-eq, inl,
  inr, Result-cases, Bool-cases, ok, ltb, bind-eq-ok, length, last_or, get_or, All-Among, Among,
  Among-map, Among-append, append-Among, last_or-Among, take,
}
use backup.Base.Bytes.{Bytes, equal}
use backup.Format.FormatFile.{RepositoryFormat}
use backup.Format.Mirrors.{mirror_row}
use backup.Format.Rows.Split.{ok-injective}
use backup.Repository.DerivedRows.{Row, equal_fields}
use backup.Repository.Transition.{format_values}
use backup.Repository.History.{
  Environment, Cache, Content, Commit, Walk, History, anchor_of, anchor_placed, append_mirrors,
  resume, validate_history, walk_cached, walk_ids,
}
use backup.Repository.History.Topology.{compact_mirror_topology-IsTopology}
use backup.Repository.History.Ledger.{SameRows}
use backup.Repository.History.Chain.{Among-mirrors_of, IsChain, append_mirrors-ok}
use backup.Repository.History.Genesis.{IsHistory, validate_history-IsHistory, history_parts}
use backup.Repository.History.Marshalled.{HasText, HasText-append_mirrors, walk_ids-IsMarshalled}
use backup.Repository.History.Rounds.{with_rows}

none_is : {A : Type 0} {a : A} → ◌≡◌ {A = Option A} none (some a) → ⊥
none_is h = cc

-- A format is its values.
format-injective : (f g : RepositoryFormat) → format_values f ≡ format_values g → f ≡ g
format-injective f g h = ap of_values h
  where
    of_values : List Bytes → RepositoryFormat
    of_values values = record {
      checksum_algorithms = get_or values 0 [];
      compression_algorithm = get_or values 1 [];
      content_hash_algorithm = get_or values 2 [];
      encryption_algorithm = get_or values 3 [];
      format_version = get_or values 4 [];
      git_object_format = get_or values 5 [];
      pack_format_version = get_or values 6 [];
      pack_hash_algorithm = get_or values 7 [];
      repository_uuid = get_or values 8 [];
      tar_algorithm = get_or values 9 [];
    }

module _ {K : Type 0} where
  Walk-ext :
      (v w : Walk K) → v.tip ≡ w.tip → v.genesis_format ≡ w.genesis_format → v ≡ with_rows v.raw w
  Walk-ext v w e f = ap₂ (λ t g. record { tip = t; genesis_format = g; raw = v.raw }) e f

  Commit-ext :
      (c d : Commit K)
      → c.commit_id ≡ d.commit_id
      → c.content ≡ d.content
      → c.transition ≡ d.transition
      → c ≡ d
  Commit-ext c d e f g =
      ap₂ (λ i s. record { commit_id = i; content = s; transition = c.transition }) e f
      ∙ ap (λ t. record { commit_id = d.commit_id; content = d.content; transition = t }) g

module _ {K : Type 0} (env : Environment K) where
  last_read :
      (c : Commit K) (cs : List (Commit K))
      → env.read_commit c.commit_id ≡ ok c.content
      → IsChain env c cs
      → env.read_commit (last_or c cs).commit_id ≡ ok (last_or c cs).content
  last_read c [] h k = h
  last_read c (d ∷ ds) h (k, ks) = last_read d ds k.was_read ks

  pub anchor_of-read :
      (cache : Cache) (ids : List Bytes) (content : Content K)
      → anchor_of env cache ids ≡ some content
      → env.read_commit cache.commit_id ≡ ok content
  unfolding anchor_of
  anchor_of-read cache ids content h =
      elim (Bool-cases
        (ltb cache.sequence (length ids) && equal (get_or ids cache.sequence []) cache.commit_id)) [
          | inr e ↦ absurd (none_is (rw (e, anchor_of) at h))
          | inl e ↦ elim (Result-cases (env.read_commit cache.commit_id)) [
            | inr (reason, was_refused) ↦ absurd (none_is (rw (e, was_refused, anchor_of) at h))
            | inl (found, was_read) ↦
                elim (Bool-cases (
                  equal_fields found.blob_ids cache.blob_ids
                  && anchor_placed env cache ids found)) [
                    | inr t ↦ absurd (none_is (rw (e, was_read, t, anchor_of) at h))
                    | inl t ↦ was_read ∙ ap ok (some-eq (rw (e, was_read, t, anchor_of) at h))
                  ]
          ]
        ]

  -- The cache is of the history of the first commits.
  pub record IsCacheOf (cache : Cache) (ids : List Bytes) : Type 0 where
    pub history : History K
    pub accepted :
        validate_history env none (take (suc cache.sequence) ids) cache.commit_id ≡ ok history
    pub transition : cache.transition ≡ history.tip.transition
    pub topology : map mirror_row cache.topology ≡ history.topology
    pub readable : HasText env.url_parse cache.topology

  -- What was read of the tip of a history.
  tip_content :
      (ids : List Bytes) (tip_id : Bytes) (h : History K) (content : Content K)
      → IsHistory env ids tip_id h
      → env.read_commit tip_id ≡ ok content
      → h.tip.content ≡ content
  tip_content ids tip_id h content past was_read =
      let found = last_read past.genesis past.later past.was_read past.chain in
      let found' : env.read_commit h.tip.commit_id ≡ ok h.tip.content =
        subst (λ c. env.read_commit c.commit_id ≡ ok c.content) (sym past.tip) found in
      ok-injective (sym found' ∙ ap env.read_commit past.tip_named ∙ was_read)

  tip-Among :
      (ids : List Bytes) (tip_id : Bytes) (h : History K)
      → (past : IsHistory env ids tip_id h) → Among h.tip (past.genesis ∷ past.later)
  tip-Among ids tip_id h past =
      subst (λ c. Among c (past.genesis ∷ past.later)) (sym past.tip)
        (last_or-Among past.genesis past.later)

  -- The rows of the last commit are in the ledger.
  ledger-Among :
      (ids : List Bytes) (tip_id : Bytes) (h : History K) (r : Row)
      → IsHistory env ids tip_id h
      → Among r (h.topology ++ map mirror_row h.tip.content.state.mirrors)
      → Among r h.topology
  ledger-Among ids tip_id h r past m =
      elim (append-Among r h.topology (map mirror_row h.tip.content.state.mirrors) m) [
        | inl n ↦ n
        | inr n ↦
            let (x, own, e) = Among-map mirror_row r h.tip.content.state.mirrors n in
            subst (λ z. Among z h.topology) (sym e)
              (past.ledger.kept (mirror_row x) (
                Among-mirrors_of (past.genesis ∷ past.later) h.tip x (tip-Among ids tip_id h past)
                  own))
      ]

  -- A cache of an accepted history is resumed.
  pub resume-ok :
      (cache : Cache) (ids : List Bytes) (content : Content K)
      → IsCacheOf cache ids
      → env.read_commit cache.commit_id ≡ ok content
      → (start : Walk K) × (resume env cache content ≡ ok start)
  unfolding resume
  resume-ok cache ids content k was_read =
      let firsts = take (suc cache.sequence) ids in
      let (mid, (walked, _, _, _, tips, _, _)) =
        history_parts env none firsts cache.commit_id k.accepted in
      let past = validate_history-IsHistory env firsts cache.commit_id k.accepted in
      let last_content =
        sym (ap (λ c. c.content) tips)
        ∙ tip_content firsts cache.commit_id k.history content past was_read in
      let m = walk_ids-IsMarshalled env firsts mid (unfold walk_cached in walked) in
      let last = subst (λ c. HasText env.url_parse c.state.mirrors) last_content m.last in
      let cached = [] ++ map mirror_row cache.topology in
      (
        record {
          tip = record {
            commit_id = cache.commit_id;
            content = content;
            transition = cache.transition;
          };
          genesis_format = content.state.format;
          raw = cached ++ map mirror_row content.state.mirrors;
        },
        rw (
          HasText-append_mirrors env [] cache.topology k.readable,
          HasText-append_mirrors env cached content.state.mirrors last,
        ),
      )

  -- The walk that a cache resumes is the walk to its commit, with the rows of the ledger.
  pub resume-with_rows :
      (cache : Cache) (ids : List Bytes) (content : Content K) {start : Walk K}
      → IsCacheOf cache ids
      → env.read_commit cache.commit_id ≡ ok content
      → resume env cache content ≡ ok start
      → (mid : Walk K) × ((walk_ids env (take (suc cache.sequence) ids) ≡ ok mid)
          × (mid.tip.commit_id ≡ cache.commit_id)
          × (start ≡ with_rows start.raw mid)
          × SameRows start.raw mid.raw)
  unfolding resume
  resume-with_rows cache ids content {start} k was_read h =
      let firsts = take (suc cache.sequence) ids in
      let (cached, cached_rows, h1) = bind-eq-ok (append_mirrors env [] cache.topology) _ h in
      let (rows, all_rows, h2) =
        bind-eq-ok (append_mirrors env cached content.state.mirrors) _ h1 in
      let made = ok-injective h2 in
      let (mid, (walked, tip, compacted, counted, tips, formats, some_ids)) =
        history_parts env none firsts cache.commit_id k.accepted in
      let past = validate_history-IsHistory env firsts cache.commit_id k.accepted in
      let last_content = tip_content firsts cache.commit_id k.history content past was_read in
      let raw : start.raw ≡ map mirror_row cache.topology ++ map mirror_row content.state.mirrors =
        sym (ap (λ w. w.raw) made)
        ∙ append_mirrors-ok env cached content.state.mirrors all_rows
        ∙ ap (λ r. r ++ map mirror_row content.state.mirrors)
            (append_mirrors-ok env [] cache.topology cached_rows) in
      let t = compact_mirror_topology-IsTopology mid.raw compacted in
      let all_rows' : start.raw
          ≡ k.history.topology ++ map mirror_row k.history.tip.content.state.mirrors =
        raw ∙ ap₂ (λ r c. r ++ map mirror_row c.state.mirrors) k.topology (sym last_content) in
      let same_tip : start.tip ≡ mid.tip =
        sym (ap (λ w. w.tip) made)
        ∙ Commit-ext
            (record {
              commit_id = cache.commit_id;
              content = content;
              transition = cache.transition;
            })
            mid.tip (sym tip) (sym last_content ∙ ap (λ c. c.content) tips)
            (k.transition ∙ ap (λ c. c.transition) tips) in
      let its_format : format_values k.history.tip.content.state.format
          ≡ format_values k.history.genesis_format =
        All-Among
          (λ c. format_values c.content.state.format ≡ format_values k.history.genesis_format)
          k.history.tip (past.genesis ∷ past.later) past.one_format
          (tip-Among firsts cache.commit_id k.history past) in
      let same_format : start.genesis_format ≡ mid.genesis_format =
        sym (ap (λ w. w.genesis_format) made)
        ∙ ap (λ c. c.state.format) (sym last_content)
        ∙ format-injective k.history.tip.content.state.format k.history.genesis_format its_format
        ∙ formats in
      (
        mid,
        (
          unfold walk_cached in walked,
          tip,
          Walk-ext start mid same_tip same_format,
          (
            (λ r m. t.from r (
                ledger-Among firsts cache.commit_id k.history r past
                  (subst (Among r) all_rows' m))),
            λ r m. subst (Among r) (sym all_rows') (
                Among-append r k.history.topology
                  (map mirror_row k.history.tip.content.state.mirrors) (inl (t.kept r m))),
          ),
        ),
      )

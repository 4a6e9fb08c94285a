-- ===== src/Repository/History/Chain.antt =====
-- What the loop of `ValidateHistory` has walked over.
use mathlib.Core.Path.{subst}
use backup.Base.{
  ◌≡◌, ◌∙◌, refl, sym, ap, ap₂, Bool, not, ◌||◌, List, [], ◌∷◌, ◌++◌, map, append-nil, append_assoc,
  arith, inl, inr, Result-cases, ok, err-ne-ok, bind-eq-ok, require_then, refuse_then, last_or,
  Among, map-Among, Among-append,
}
use backup.Base.Bytes.{Bytes, codes, equal, equal_iff}
use backup.Format.Rows.Split.{ok-injective}
use backup.Format.Mirrors.{Mirror, mirror_row, marshal_mirrors}
use backup.Repository.DerivedRows.{Row, equal_fields, equal_fields_iff}
use backup.Repository.PackDelta.{TransitionKind}
use backup.Repository.Transition.{
  State, format_values, blob_equal, validate_state, validate_transition,
}
use backup.Repository.History.{Environment, Commit, Walk, append_mirrors, follow_ids, validate_next}

module _ {K : Type 0} where
  abbrev pub mirrors_of : List (Commit K) → List Row
  mirrors_of [] = []
  mirrors_of (c ∷ cs) = map mirror_row c.content.state.mirrors ++ mirrors_of cs

  abbrev pub ids_of : List (Commit K) → List Bytes
  ids_of = map (λ c. c.commit_id)

  pub Among-mirrors_of :
      (cs : List (Commit K)) (c : Commit K) (m : Mirror)
      → Among c cs
      → Among m c.content.state.mirrors
      → Among (mirror_row m) (mirrors_of cs)
  Among-mirrors_of [] c m h k = absurd h
  Among-mirrors_of (d ∷ ds) c m (inl e) k =
      Among-append (mirror_row m) (map mirror_row d.content.state.mirrors) (mirrors_of ds) (
        inl (
          map-Among mirror_row m d.content.state.mirrors
            (subst (λ x. Among m x.content.state.mirrors) e k)))
  Among-mirrors_of (d ∷ ds) c m (inr h) k =
      Among-append (mirror_row m) (map mirror_row d.content.state.mirrors) (mirrors_of ds)
        (inr (Among-mirrors_of ds c m h k))

  pub transition_format :
      (latest : K → Bool) (chain_allows : K → K → Bool) (old new : State K) {kind : TransitionKind}
      → validate_transition latest chain_allows old new ≡ ok kind
      → format_values old.format ≡ format_values new.format
  unfolding validate_transition
  transition_format latest chain_allows old new h =
      let (_, _, h1) = bind-eq-ok (validate_state latest chain_allows old) _ h in
      let (_, _, h2) = bind-eq-ok (validate_state latest chain_allows new) _ h1 in
      let alike = equal_fields (format_values old.format) (format_values new.format) in
      let (f, _) = refuse_then (not (blob_equal old new (codes "FORMAT")) || not alike) _ _ h2 in
      (equal_fields_iff (format_values old.format) (format_values new.format)).0 (ground arith)

module _ {K : Type 0} (env : Environment K) where
  -- The commit follows the other: it is its child, by a valid transition of its kind.
  pub record Follows (previous next : Commit K) : Type 0 where
    pub was_read : env.read_commit next.commit_id ≡ ok next.content
    pub parent : next.content.parent_id ≡ previous.commit_id
    pub allowed :
        validate_transition env.latest env.chain_allows previous.content.state next.content.state
        ≡ ok next.transition

  -- A chain of commits behind the first.
  abbrev pub IsChain : Commit K → List (Commit K) → Type 0
  IsChain c [] = Unit
  IsChain c (d ∷ ds) = Follows c d × IsChain d ds

  pub append_mirrors-ok :
      (raw : List Row) (mirrors : List Mirror) {rows : List Row}
      → append_mirrors env raw mirrors ≡ ok rows
      → rows ≡ raw ++ map mirror_row mirrors
  unfolding append_mirrors
  append_mirrors-ok raw mirrors h = elim (Result-cases (marshal_mirrors env.url_parse mirrors)) [
    | inl (text, e) ↦ sym (ok-injective (rw (e, append_mirrors) at h))
    | inr (reason, e) ↦ absurd (err-ne-ok (rw (e, append_mirrors) at h))
  ]

  pub validate_next-ok :
      (walk next : Walk K) (previous_id id : Bytes)
      → walk.tip.commit_id ≡ previous_id
      → validate_next env walk previous_id id ≡ ok next
      → Follows walk.tip next.tip
        × (next.tip.commit_id ≡ id)
        × (next.genesis_format ≡ walk.genesis_format)
        × (next.raw ≡ walk.raw ++ map mirror_row next.tip.content.state.mirrors)
  unfolding validate_next
  validate_next-ok walk next previous_id id e h =
      let (content, was_read, h1) = bind-eq-ok (env.read_commit id) _ h in
      let (t, h2) = require_then (equal content.parent_id previous_id) _ _ h1 in
      let (kind, allowed, h3) =
        bind-eq-ok
          (validate_transition env.latest env.chain_allows walk.tip.content.state content.state) _
          h2 in
      let (raw, appended, h4) =
        bind-eq-ok (append_mirrors env walk.raw content.state.mirrors) _ h3 in
      subst
        (λ w.
          Follows walk.tip w.tip
          × (w.tip.commit_id ≡ id)
          × (w.genesis_format ≡ walk.genesis_format)
          × (w.raw ≡ walk.raw ++ map mirror_row w.tip.content.state.mirrors))
        (ok-injective h4)
        (
          record {
            was_read = was_read;
            parent = (equal_iff content.parent_id previous_id).0 t ∙ sym e;
            allowed = allowed;
          },
          refl,
          refl,
          append_mirrors-ok walk.raw content.state.mirrors appended,
        )

  -- What the loop has walked over.
  pub record Walked (walk : Walk K) (ids : List Bytes) (end : Walk K) : Type 0 where
    pub commits : List (Commit K)
    pub named : ids_of commits ≡ ids
    pub chain : IsChain walk.tip commits
    pub tip : end.tip ≡ last_or walk.tip commits
    pub format : end.genesis_format ≡ walk.genesis_format
    pub rows : end.raw ≡ walk.raw ++ mirrors_of commits

  pub follow_ids-Walked :
      (walk end : Walk K) (previous_id : Bytes) (ids : List Bytes)
      → walk.tip.commit_id ≡ previous_id
      → follow_ids env walk previous_id ids ≡ ok end
      → Walked walk ids end
  unfolding follow_ids
  follow_ids-Walked walk end previous_id [] e h = subst (Walked walk []) (ok-injective h) (record {
    commits = [];
    named = refl;
    chain = tt;
    tip = refl;
    format = refl;
    rows = sym (append-nil walk.raw);
  })
  follow_ids-Walked walk end previous_id (id ∷ ids) e h =
      let (next, stepped, h1) = bind-eq-ok (validate_next env walk previous_id id) _ h in
      let (follows, named, format, rows) = validate_next-ok walk next previous_id id e stepped in
      let w = follow_ids-Walked next end id ids named h1 in
      record {
        commits = next.tip ∷ w.commits;
        named = ap₂ ◌∷◌ named w.named;
        chain = (follows, w.chain);
        tip = w.tip;
        format = w.format ∙ format;
        rows =
            w.rows
            ∙ ap (λ r. r ++ mirrors_of w.commits) rows
            ∙ append_assoc walk.raw (map mirror_row next.tip.content.state.mirrors)
                (mirrors_of w.commits);
      }

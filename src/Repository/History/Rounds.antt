-- ===== src/Repository/History/Rounds.antt =====
-- The loop of `ValidateHistory` in two parts, and from other rows: a round does not look at the rows so
-- far.
use mathlib.Core.Path.{subst}
use backup.Base.{
  ◌≡◌, ◌∙◌, refl, sym, ap, List, [], ◌∷◌, ◌++◌, map, append-nil, append_assoc, inl, inr,
  Result-cases, ok, err-ne-ok, bind-eq-ok, require_then,
}
use backup.Base.Bytes.{Bytes, equal}
use backup.Format.Mirrors.{Mirror, mirror_row, marshal_mirrors}
use backup.Format.Rows.Split.{ok-injective}
use backup.Repository.DerivedRows.{Row}
use backup.Repository.Transition.{validate_transition}
use backup.Repository.History.{
  Environment, Walk, append_mirrors, follow_ids, validate_first, validate_genesis, validate_next,
  walk_ids,
}
use backup.Repository.History.Chain.{validate_next-ok}

module _ {K : Type 0} where
  abbrev pub with_rows : List Row → Walk K → Walk K
  with_rows rows walk = record { tip = walk.tip; genesis_format = walk.genesis_format; raw = rows }

module _ {K : Type 0} (env : Environment K) where
  append_mirrors-other :
      (raw other : List Row) (mirrors : List Mirror) {rows : List Row}
      → append_mirrors env raw mirrors ≡ ok rows
      → append_mirrors env other mirrors ≡ ok (other ++ map mirror_row mirrors)
  unfolding append_mirrors
  append_mirrors-other raw other mirrors h =
      elim (Result-cases (marshal_mirrors env.url_parse mirrors)) [
        | inl (text, e) ↦ rw (e, append_mirrors) refl
        | inr (reason, e) ↦ absurd (err-ne-ok (rw (e, append_mirrors) at h))
      ]

  -- What a round does does not depend on the rows so far.
  validate_next-other :
      (walk next : Walk K) (other : List Row) (previous_id id : Bytes)
      → validate_next env walk previous_id id ≡ ok next
      → validate_next env (with_rows other walk) previous_id id
        ≡ ok (with_rows (other ++ map mirror_row next.tip.content.state.mirrors) next)
  unfolding validate_next
  validate_next-other walk next other previous_id id h =
      let (content, was_read, h1) = bind-eq-ok (env.read_commit id) _ h in
      let (t, h2) = require_then (equal content.parent_id previous_id) _ _ h1 in
      let (kind, allowed, h3) =
        bind-eq-ok
          (validate_transition env.latest env.chain_allows walk.tip.content.state content.state) _
          h2 in
      let (raw, appended, h4) =
        bind-eq-ok (append_mirrors env walk.raw content.state.mirrors) _ h3 in
      let appended' = append_mirrors-other walk.raw other content.state.mirrors appended in
      subst
        (λ w.
          validate_next env (with_rows other walk) previous_id id
          ≡ ok (with_rows (other ++ map mirror_row w.tip.content.state.mirrors) w))
        (ok-injective h4) (rw (was_read, t, allowed, appended') refl)

  pub follow_ids-other :
      (walk end : Walk K) (other : List Row) (previous_id : Bytes) (ids : List Bytes)
      → walk.tip.commit_id ≡ previous_id
      → follow_ids env walk previous_id ids ≡ ok end
      → (more : List Row) × ((end.raw ≡ walk.raw ++ more)
          × (follow_ids env (with_rows other walk) previous_id ids
              ≡ ok (with_rows (other ++ more) end)))
  unfolding follow_ids
  follow_ids-other walk end other previous_id [] e h =
      subst
        (λ w.
          (more : List Row) × ((w.raw ≡ walk.raw ++ more)
            × (follow_ids env (with_rows other walk) previous_id []
                ≡ ok (with_rows (other ++ more) w))))
        (ok-injective h)
        ([], (sym (append-nil walk.raw), ap (λ r. ok (with_rows r walk)) (sym (append-nil other))))
  follow_ids-other walk end other previous_id (id ∷ ids) e h =
      let (next, stepped, h1) = bind-eq-ok (validate_next env walk previous_id id) _ h in
      let (_, named, _, rows) = validate_next-ok env walk next previous_id id e stepped in
      let own = map mirror_row next.tip.content.state.mirrors in
      let (more, (all, followed)) = follow_ids-other next end (other ++ own) id ids named h1 in
      (
        own ++ more,
        (
          all ∙ ap (λ r. r ++ more) rows ∙ append_assoc walk.raw own more,
          rw (validate_next-other walk next other previous_id id stepped)
              (followed ∙ ap (λ r. ok (with_rows r end)) (append_assoc other own more)),
        ),
      )

  first_named :
      (first : Walk K) (id : Bytes) → validate_first env id ≡ ok first → first.tip.commit_id ≡ id
  unfolding validate_first
  first_named first id h =
      let (content, _, h1) = bind-eq-ok (env.read_commit id) _ h in
      let (_, h2) = require_then (equal content.parent_id []) _ _ h1 in
      let (_, _, h3) = bind-eq-ok (validate_genesis env content.state) _ h2 in
      let (raw, _, h4) = bind-eq-ok (append_mirrors env [] content.state.mirrors) _ h3 in
      sym (ap (λ w. w.tip.commit_id) (ok-injective h4))

  follow_ids-append :
      (walk mid : Walk K) (previous_id : Bytes) (ids more : List Bytes)
      → walk.tip.commit_id ≡ previous_id
      → follow_ids env walk previous_id ids ≡ ok mid
      → follow_ids env walk previous_id (ids ++ more) ≡ follow_ids env mid mid.tip.commit_id more
  unfolding follow_ids
  follow_ids-append walk mid previous_id [] more e h =
      subst (λ w. follow_ids env walk previous_id more ≡ follow_ids env w w.tip.commit_id more)
        (ok-injective h) (ap (λ p. follow_ids env walk p more) (sym e))
  follow_ids-append walk mid previous_id (id ∷ ids) more e h =
      let (next, stepped, h1) = bind-eq-ok (validate_next env walk previous_id id) _ h in
      let (_, named, _, _) = validate_next-ok env walk next previous_id id e stepped in
      rw stepped (follow_ids-append next mid id ids more named h1)

  pub walk_ids-append :
      (mid : Walk K) (ids more : List Bytes)
      → walk_ids env ids ≡ ok mid
      → walk_ids env (ids ++ more) ≡ follow_ids env mid mid.tip.commit_id more
  unfolding walk_ids
  walk_ids-append mid [] more h = absurd (err-ne-ok h)
  walk_ids-append mid (id ∷ ids) more h =
      let (first, begun, h1) = bind-eq-ok (validate_first env id) _ h in
      rw begun (follow_ids-append first mid id ids more (first_named first id begun) h1)

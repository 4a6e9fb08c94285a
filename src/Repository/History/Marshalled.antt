-- ===== src/Repository/History/Marshalled.antt =====
-- What `appendMirrors` of `ValidateHistory` leaves: mirrors that `MarshalMirrors` writes.
use mathlib.Core.Path.{subst}
use backup.Base.{
  ◌≡◌, refl, sym, List, [], ◌∷◌, ◌++◌, map, Option, inl, inr, Result-cases, ok, err-ne-ok,
  bind-eq-ok, require_then, All, All-append,
}
use backup.Base.Bytes.{Bytes, equal}
use backup.Format.Mirrors.{Mirror, Url, mirror_row, mirror_rows, marshal_mirrors}
use backup.Format.Mirrors.Laws.{mirror_rows-eq-ok}
use backup.Format.Rows.Split.{IsRow, ok-injective, marshal_rows_iff}
use backup.Repository.DerivedRows.{Row}
use backup.Repository.Transition.{validate_transition}
use backup.Repository.History.{
  Environment, Walk, append_mirrors, follow_ids, validate_first, validate_next, validate_genesis,
  walk_ids,
}
use backup.Repository.History.Chain.{append_mirrors-ok}
use backup.Base.{none}

-- The mirrors have a text.
abbrev pub HasText : (Bytes → Option Url) → List Mirror → Type 0
HasText url_parse mirrors = (text : Bytes) × (marshal_mirrors url_parse mirrors ≡ ok text)

pub HasText-IsRow :
    (url_parse : Bytes → Option Url) (mirrors : List Mirror)
    → HasText url_parse mirrors
    → All IsRow (map mirror_row mirrors)
unfolding marshal_mirrors
HasText-IsRow url_parse mirrors (text, h) =
    let (rows, made, written) = bind-eq-ok (mirror_rows url_parse none mirrors) _ h in
    let (same, _) = mirror_rows-eq-ok url_parse none mirrors made in
    subst (All IsRow) same ((marshal_rows_iff rows text).0 written).0

module _ {K : Type 0} (env : Environment K) where
  append_mirrors-HasText :
      (raw : List Row) (mirrors : List Mirror) {rows : List Row}
      → append_mirrors env raw mirrors ≡ ok rows
      → HasText env.url_parse mirrors
  unfolding append_mirrors
  append_mirrors-HasText raw mirrors h =
      elim (Result-cases (marshal_mirrors env.url_parse mirrors)) [
        | inl found ↦ found
        | inr (reason, e) ↦ absurd (err-ne-ok (rw (e, append_mirrors) at h))
      ]

  pub HasText-append_mirrors :
      (raw : List Row) (mirrors : List Mirror)
      → HasText env.url_parse mirrors
      → append_mirrors env raw mirrors ≡ ok (raw ++ map mirror_row mirrors)
  unfolding append_mirrors
  HasText-append_mirrors raw mirrors (text, e) = rw (e, append_mirrors) refl

  -- All rows so far can be written, and so can the mirrors of the last commit.
  pub record IsMarshalled (walk : Walk K) : Type 0 where
    pub last : HasText env.url_parse walk.tip.content.state.mirrors
    pub rows : All IsRow walk.raw

  appended-IsRow :
      (raw : List Row) (mirrors : List Mirror) {rows : List Row}
      → All IsRow raw
      → append_mirrors env raw mirrors ≡ ok rows
      → All IsRow rows
  appended-IsRow raw mirrors good h =
      subst (All IsRow) (sym (append_mirrors-ok env raw mirrors h)) (
        All-append IsRow raw (map mirror_row mirrors) good
          (HasText-IsRow env.url_parse mirrors (append_mirrors-HasText raw mirrors h)))

  follow_ids-IsMarshalled :
      (walk end : Walk K) (previous_id : Bytes) (ids : List Bytes)
      → IsMarshalled walk
      → follow_ids env walk previous_id ids ≡ ok end
      → IsMarshalled end
  unfolding follow_ids validate_next
  follow_ids-IsMarshalled walk end previous_id [] m h = subst IsMarshalled (ok-injective h) m
  follow_ids-IsMarshalled walk end previous_id (id ∷ ids) m h =
      let (next, stepped, h1) = bind-eq-ok (validate_next env walk previous_id id) _ h in
      let (content, _, h2) = bind-eq-ok (env.read_commit id) _ stepped in
      let (_, h3) = require_then (equal content.parent_id previous_id) _ _ h2 in
      let (_, _, h4) =
        bind-eq-ok
          (validate_transition env.latest env.chain_allows walk.tip.content.state content.state) _
          h3 in
      let (raw, appended, h5) =
        bind-eq-ok (append_mirrors env walk.raw content.state.mirrors) _ h4 in
      let m' : IsMarshalled next = subst IsMarshalled (ok-injective h5) (record {
        last = append_mirrors-HasText walk.raw content.state.mirrors appended;
        rows = appended-IsRow walk.raw content.state.mirrors m.rows appended;
      }) in
      follow_ids-IsMarshalled next end id ids m' h1

  pub walk_ids-IsMarshalled :
      (ids : List Bytes) (end : Walk K) → walk_ids env ids ≡ ok end → IsMarshalled end
  unfolding walk_ids validate_first
  walk_ids-IsMarshalled [] end h = absurd (err-ne-ok h)
  walk_ids-IsMarshalled (id ∷ ids) end h =
      let (first, begun, h1) = bind-eq-ok (validate_first env id) _ h in
      let (content, _, h2) = bind-eq-ok (env.read_commit id) _ begun in
      let (_, h3) = require_then (equal content.parent_id []) _ _ h2 in
      let (_, _, h4) = bind-eq-ok (validate_genesis env content.state) _ h3 in
      let (raw, appended, h5) = bind-eq-ok (append_mirrors env [] content.state.mirrors) _ h4 in
      let m : IsMarshalled first = subst IsMarshalled (ok-injective h5) (record {
        last = append_mirrors-HasText [] content.state.mirrors appended;
        rows = appended-IsRow [] content.state.mirrors tt appended;
      }) in
      follow_ids-IsMarshalled first end id ids m h1

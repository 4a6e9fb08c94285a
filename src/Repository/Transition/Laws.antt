-- ===== src/Repository/Transition/Laws.antt =====
-- What the transitions that `validateStreamTransition` accepts leave as it was.
use mathlib.Core.Path.{subst}
use backup.Base.{
  All-map, ◌≡◌, sym, ap, ◌∙◌, Bool, true, false, not, ◌||◌, List, [], ◌∷◌, map, inl, inr,
  Bool-cases, ok, bind-eq-ok, require_then, refuse_then, All, Among, All-Among, All-of-Among,
  map-Among, Among-map,
}
use backup.Base.Bytes.{Bytes, codes}
use backup.Format.Rows.Split.{ok-injective}
use backup.Repository.DerivedRows.{Row, DerivedRows, field, equal_fields}
use backup.Repository.Sorting.{sort_rows}
use backup.Repository.Sorting.Laws.{sort_rows-Among, Among-sort_rows}
use backup.Repository.Extension.{merge_catalog_extension}
use backup.Repository.Extension.Laws.{Interleaved, merge_catalog_extension-Interleaved}
use backup.Repository.PackRows.{added_packs, check_relocation}
use backup.Repository.PackRows.Ordinary.{Grouped, IsFresh, begun, added_packs-IsFresh}
use backup.Repository.PackRows.Repair.{Aligned, Relocated, check_relocation_iff}
use backup.Repository.NewPacks.Laws.{HasKey, Matched, require_new_pack_references-Matched}
use backup.Repository.PackDelta.{
  TransitionKind, transition_invalid, transition_ordinary, transition_repair,
}
use backup.Repository.Transition.Blobs.{SameBlob, blobs_equal-All, blob_equal-SameBlob}
use backup.Repository.Transition.Mirrors.{NotRebound, validate_mirror_identity-NotRebound}
use backup.Repository.Transition.{
  State, validate_mirror_identity, object_pack, hash_row, file, ordinary_extension, blob_equal,
  blobs_equal, states_equal, other_blob_names, format_values, validate_state, validate_repair,
  validate_ordinary, validate_transition,
}

-- The old rows of both catalogs stay; new parts belong to new packs; and the packs that begin are
-- those that hold new objects.
pub record IsExtension (old_objects new_objects old_packs new_packs : List Row) : Type 0 where
  pub objects : List Row
  pub objects_kept : Interleaved old_objects objects new_objects
  pub parts : List Row
  pub parts_kept : Interleaved old_packs parts new_packs
  pub fresh : All (IsFresh old_packs) parts
  pub placed : All (λ o. Among (field o 2) (begun parts)) objects
  pub used : All (λ hash. (o : Row) × Among o objects × (field o 2 ≡ hash)) (begun parts)

-- The pack of an added object is among the hashes.
placed_object :
    (objects : List Row) (hashes : List Bytes)
    → Matched (sort_rows (map object_pack objects)) (map hash_row hashes)
    → (o : Row) → Among o objects
    → Among (field o 2) hashes
placed_object objects hashes (a, b) o has =
    let listed =
      Among-sort_rows (map object_pack objects) (object_pack o)
        (map-Among object_pack o objects has) in
    let (p, m, e) =
      All-Among (HasKey (map hash_row hashes)) (object_pack o) (sort_rows (map object_pack objects))
        a listed in
    let (hash, m', e') = Among-map hash_row p hashes m in
    let same : hash ≡ field o 2 = sym (ap (λ r. field r 0) e') ∙ e in
    moved hash (field o 2) hashes same m'
  where
    moved : (x y : Bytes) (xs : List Bytes) → x ≡ y → Among x xs → Among y xs
    moved x y [] e h = absurd h
    moved x y (z ∷ xs) e (inl h) = inl (sym e ∙ h)
    moved x y (z ∷ xs) e (inr h) = inr (moved x y xs e h)

used_hash :
    (objects : List Row) (hashes : List Bytes)
    → Matched (sort_rows (map object_pack objects)) (map hash_row hashes)
    → (hash : Bytes) → Among hash hashes
    → (o : Row) × Among o objects × (field o 2 ≡ hash)
used_hash objects hashes (a, b) hash has =
    let (r, m, e) =
      All-Among (HasKey (sort_rows (map object_pack objects))) (hash_row hash) (map hash_row hashes)
        b (map-Among hash_row hash hashes has) in
    let (o, m', e') =
      Among-map object_pack r objects (sort_rows-Among (map object_pack objects) r m) in
    (o, m', sym (ap (λ x. field x 0) e') ∙ e)

ordinary_extension-IsExtension :
    (old_objects new_objects old_packs new_packs : DerivedRows)
    → Grouped old_packs.rows
    → Grouped new_packs.rows
    → ordinary_extension old_objects new_objects old_packs new_packs ≡ ok tt
    → IsExtension old_objects.rows new_objects.rows old_packs.rows new_packs.rows
unfolding ordinary_extension
ordinary_extension-IsExtension old_objects new_objects old_packs new_packs g k h =
    let (added, extended, h1) =
      bind-eq-ok (merge_catalog_extension old_objects new_objects 3) _ h in
    let (hashes, packed, h2) = bind-eq-ok (added_packs old_packs new_packs) _ h1 in
    let (i, w, joined) = merge_catalog_extension-Interleaved old_objects new_objects 3 extended in
    let (parts, j, spelled, fresh) = added_packs-IsFresh old_packs new_packs g k packed in
    let (matched, read) =
      require_new_pack_references-Matched (file (sort_rows (map object_pack added)))
        (file (map hash_row hashes)) h2 in
    let m =
      subst (λ hs. Matched (sort_rows (map object_pack added)) (map hash_row hs)) spelled matched in
    record {
      objects = added;
      objects_kept = i;
      parts = parts;
      parts_kept = j;
      fresh = fresh;
      placed =
          All-of-Among (λ o. Among (field o 2) (begun parts)) added
            (placed_object added (begun parts) m);
      used =
          All-of-Among (λ hash. (o : Row) × Among o added × (field o 2 ≡ hash)) (begun parts)
            (used_hash added (begun parts) m);
    }

module _ {K : Type 0} (latest : K → Bool) (chain_allows : K → K → Bool) where
  -- What each kind of transition leaves: a repair changes the objects of pack parts and nothing
  -- else, an ordinary one extends the catalogs and rebinds no mirror.
  abbrev pub IsAllowed : TransitionKind → State K → State K → Type 0
  IsAllowed transition_invalid old new = ⊥
  IsAllowed transition_repair old new =
      All (SameBlob old new) other_blob_names
      × Aligned old.packs.rows new.packs.rows
      × Relocated old.packs.rows new.packs.rows
  IsAllowed transition_ordinary old new =
      IsExtension old.objects.rows new.objects.rows old.packs.rows new.packs.rows
      × All (NotRebound old.mirrors) new.mirrors

  validate_repair-IsAllowed :
      (old new : State K) {kind : TransitionKind}
      → blobs_equal old new other_blob_names ≡ true
      → validate_repair latest chain_allows old new ≡ ok kind
      → IsAllowed kind old new
  unfolding validate_repair
  validate_repair-IsAllowed old new same h =
      let (u, moved, h1) = bind-eq-ok (check_relocation old.packs new.packs) _ h in
      let (aligned, relocated, joined) = (check_relocation_iff old.packs new.packs).0 moved in
      subst (λ kind. IsAllowed kind old new) (ok-injective h1)
        (
          All-map (blob_equal-SameBlob old new) other_blob_names
              ((blobs_equal-All old new other_blob_names).0 same),
          aligned,
          relocated,
        )

  validate_ordinary-IsAllowed :
      (old new : State K) {kind : TransitionKind}
      → Grouped old.packs.rows
      → Grouped new.packs.rows
      → validate_ordinary latest chain_allows old new ≡ ok kind
      → IsAllowed kind old new
  unfolding validate_ordinary
  validate_ordinary-IsAllowed old new g k h =
      let (u, extended, h1) =
        bind-eq-ok (ordinary_extension old.objects new.objects old.packs new.packs) _ h in
      let (u', bound, h2) = bind-eq-ok (validate_mirror_identity old.mirrors new.mirrors) _ h1 in
      subst (λ kind. IsAllowed kind old new) (ok-injective h2)
        (
          ordinary_extension-IsExtension old.objects new.objects old.packs new.packs g k extended,
          validate_mirror_identity-NotRebound old.mirrors new.mirrors bound,
        )

  -- A transition that `validateStreamTransition` accepts, of states whose packs are listed in the
  -- order of their hashes, is a repair or ordinary, and not to an equal state. A repair keeps
  -- hash and size of every blob but packs.tsv, and in that every field but the object of a part, of which some
  -- differ. An ordinary one keeps all rows of objects.tsv and packs.tsv, unchanged and in order,
  -- adds parts to no old pack, begins exactly the packs that added objects are in, and leaves a
  -- mirror that has an old name as it was. That holds whatever the key chains allow.
  pub validate_transition-IsAllowed :
      (old new : State K) {kind : TransitionKind}
      → Grouped old.packs.rows
      → Grouped new.packs.rows
      → validate_transition latest chain_allows old new ≡ ok kind
      → IsAllowed kind old new × (states_equal old new ≡ false)
  unfolding validate_transition
  validate_transition-IsAllowed old new g k h =
      let (u, a, h1) = bind-eq-ok (validate_state latest chain_allows old) _ h in
      let (u', b, h2) = bind-eq-ok (validate_state latest chain_allows new) _ h1 in
      let (f, h3) =
        refuse_then
          (not (blob_equal old new (codes "FORMAT"))
            || not (equal_fields (format_values old.format) (format_values new.format)))
          _ _ h2 in
      let (c, h4) = require_then (chain_allows old.public_keys new.public_keys) _ _ h3 in
      let (changed, h5) = refuse_then (states_equal old new) _ _ h4 in
      (
        elim (Bool-cases (blobs_equal old new other_blob_names)) [
          | inl e ↦ validate_repair-IsAllowed old new e (rw e at h5)
          | inr e ↦ validate_ordinary-IsAllowed old new g k (rw e at h5)
        ],
        changed,
      )

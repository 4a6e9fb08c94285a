-- ===== src/Format/Catalogs/Laws.antt =====
-- What the catalogs that `ValidateCatalogs` accepts promise to a restore.
use mathlib.Core.Path.{subst}
use backup.Base.{
  ℕ, ◌<◌, ◌≡◌, ◌⊎◌, refl, sym, ap, ◌∙◌, true, List, [], ◌∷◌, Option, none, some, ◌==◌, ==_iff, inl,
  inr, Bool-cases, some-eq, ok, refuse_then, require_then, require-eq-ok, bind-eq-ok, All, All-map,
  All-Among, Among,
}
use backup.Base.Bytes.{Bytes, codes, equal, equal_iff, trim_prefix}
use backup.Format.Errors.{size_disagrees}
use backup.Format.Rows.Split.{ok-injective}
use backup.Format.Index.{IndexEntry, kind_file, validate_index_entry, validate_index_order}
use backup.Format.Objects.{ObjectEntry, validate_object_entry, object_not_after}
use backup.Format.Packs.{PackEntry, validate_pack_sequence}
use backup.Format.Packs.Laws.{HasWidths}
use backup.Format.Packs.Complete.{HasPart, IsComplete, validate_pack_sequence-IsComplete}
use backup.Format.Catalogs.{
  find_object, store_objects, has_pack, check_objects, check_size, check_reference,
  check_references, validate_catalogs,
}

-- Some entry of the pack is listed, and with it all the parts that it counts.
pub record IsStored (hash : Bytes) (packs : List PackEntry) : Type 0 where
  pub entry : PackEntry
  pub named : entry.pack_hash ≡ hash
  pub listed : Among entry packs
  pub parts : (k : ℕ) → k < entry.part_count → HasPart hash k packs

-- The object that holds the content of a file is listed with the file's size, in a stored pack.
pub record IsRestorable (entry : IndexEntry) (objects : List ObjectEntry) (packs : List PackEntry)
    : Type 0 where
  pub object : ObjectEntry
  pub named : object.plaintext_hash ≡ trim_prefix entry.ref (codes "blake2b:")
  pub sized : object.plaintext_size ≡ entry.size
  pub listed : Among object objects
  pub stored : IsStored object.pack_hash packs

pub find_object-Among :
    (hash : Bytes) (objects : List ObjectEntry) {object : ObjectEntry}
    → find_object hash objects ≡ some object
    → Among object objects × (object.plaintext_hash ≡ hash)
unfolding find_object
find_object-Among hash [] h = cc
find_object-Among hash (o ∷ os) {object} h = elim (Bool-cases (equal o.plaintext_hash hash)) [
  | inl e ↦
      let same = some-eq (rw e at h) in
      (
        inl (sym same),
        ap (λ x. x.plaintext_hash) (sym same) ∙ (equal_iff o.plaintext_hash hash).0 e,
      )
  | inr e ↦ let (has, named) = find_object-Among hash os (rw e at h) in (inr has, named)
]

-- Everything stored was stored before or is one of the objects.
store_objects-Among :
    (previous : Option ObjectEntry) (before objects : List ObjectEntry) {stored : List ObjectEntry}
    → store_objects previous before objects ≡ ok stored
    → (object : ObjectEntry) → Among object stored
    → Among object before ⊎ Among object objects
unfolding store_objects
store_objects-Among previous before [] h object has =
    inl (subst (Among object) (sym (ok-injective h)) has)
store_objects-Among previous before (o ∷ os) h object has =
    let (u, valid, h1) = bind-eq-ok (validate_object_entry o) _ h in
    let (after, h2) = refuse_then (object_not_after previous o) _ _ h1 in
    elim (store_objects-Among (some o) (o ∷ before) os h2 object has) [
      | inl (inl here) ↦ inr (inl here)
      | inl (inr there) ↦ inl there
      | inr there ↦ inr (inr there)
    ]

pub stored-Among :
    (objects : List ObjectEntry) {stored : List ObjectEntry}
    → store_objects none [] objects ≡ ok stored
    → (object : ObjectEntry) → Among object stored
    → Among object objects
stored-Among objects made object has = elim (store_objects-Among none [] objects made object has) [
  | inl before ↦ absurd before
  | inr listed ↦ listed
]

has_pack-Among :
    (hash : Bytes) (packs : List PackEntry)
    → has_pack hash packs ≡ true
    → (entry : PackEntry) × Among entry packs × (entry.pack_hash ≡ hash)
unfolding has_pack
has_pack-Among hash [] h = cc
has_pack-Among hash (p ∷ ps) h = elim (Bool-cases (equal p.pack_hash hash)) [
  | inl e ↦ (p, inl refl, (equal_iff p.pack_hash hash).0 e)
  | inr e ↦ let (entry, has, named) = has_pack-Among hash ps (rw e at h) in (entry, inr has, named)
]

pub check_objects-All :
    (packs : List PackEntry) (objects : List ObjectEntry)
    → check_objects packs objects ≡ ok tt
    → All (λ o. has_pack o.pack_hash packs ≡ true) objects
unfolding check_objects
check_objects-All packs [] h = tt
check_objects-All packs (o ∷ os) h =
    let (has, rest) = require_then (has_pack o.pack_hash packs) _ _ h in
    (has, check_objects-All packs os rest)

pub check_references-All :
    (stored : List ObjectEntry) (entries : List IndexEntry)
    → check_references stored entries ≡ ok tt
    → All (λ e. check_reference stored e ≡ ok tt) entries
unfolding check_references
check_references-All stored [] h = tt
check_references-All stored (e ∷ es) h =
    let (u, valid, h1) = bind-eq-ok (validate_index_entry e) _ h in
    let (u', refers, rest) = bind-eq-ok (check_reference stored e) _ h1 in
    (refers, check_references-All stored es rest)

pub check_size-of :
    (o : Option ObjectEntry) (entry : IndexEntry)
    → check_size o entry ≡ ok tt
    → (object : ObjectEntry) × (o ≡ some object) × (object.plaintext_size ≡ entry.size)
unfolding check_size
check_size-of none entry h = cc
check_size-of (some object) entry h =
    let t = require-eq-ok (object.plaintext_size == entry.size) size_disagrees h in
    (object, refl, (==_iff object.plaintext_size entry.size).0 t)

pub check_reference-file :
    (stored : List ObjectEntry) (entry : IndexEntry)
    → entry.kind ≡ kind_file
    → check_reference stored entry ≡ ok tt
    → check_size (find_object (trim_prefix entry.ref (codes "blake2b:")) stored) entry ≡ ok tt
unfolding check_reference
check_reference-file stored entry k h = rw ((equal_iff entry.kind kind_file).1 k) at h

IsStored-of :
    (hash : Bytes) (packs : List PackEntry)
    → IsComplete packs
    → has_pack hash packs ≡ true
    → IsStored hash packs
IsStored-of hash packs complete h =
    let (entry, has, same) = has_pack-Among hash packs h in
    record {
      entry = entry;
      named = same;
      listed = has;
      parts = λ k high.
          subst (λ x. HasPart x k packs) same (All-Among _ entry packs complete has k high);
    }

IsRestorable-of :
    (entry : IndexEntry) (stored objects : List ObjectEntry) (packs : List PackEntry)
    → ((object : ObjectEntry) → Among object stored → Among object objects)
    → All (λ o. has_pack o.pack_hash packs ≡ true) objects
    → IsComplete packs
    → check_reference stored entry ≡ ok tt
    → entry.kind ≡ kind_file
    → IsRestorable entry objects packs
IsRestorable-of entry stored objects packs from packed complete h k =
    let hash = trim_prefix entry.ref (codes "blake2b:") in
    let (object, found, sized) =
      check_size-of (find_object hash stored) entry (check_reference-file stored entry k h) in
    let (has, same) = find_object-Among hash stored found in
    let listed = from object has in
    record {
      object = object;
      named = same;
      sized = sized;
      listed = listed;
      stored =
          IsStored-of object.pack_hash packs complete (All-Among _ object objects packed listed);
    }

-- In catalogs that `ValidateCatalogs` accepts, with pack numbers that are uint32 and uint64, every
-- index entry of kind `file` has an object listed under the hash of its reference with the size
-- of the file, and the pack of that object is listed with every part from 0 to its part count.
pub validate_catalogs-IsRestorable :
    (index : List IndexEntry) (objects : List ObjectEntry) (packs : List PackEntry)
    → All HasWidths packs
    → validate_catalogs index objects packs ≡ ok tt
    → All (λ e. e.kind ≡ kind_file → IsRestorable e objects packs) index
unfolding validate_catalogs
validate_catalogs-IsRestorable index objects packs ws h =
    let (u, ordered, h1) = bind-eq-ok (validate_index_order index) _ h in
    let (u', sequence, h2) = bind-eq-ok (validate_pack_sequence packs) _ h1 in
    let (stored, made, h3) = bind-eq-ok (store_objects none [] objects) _ h2 in
    let (u'', packed, h4) = bind-eq-ok (check_objects packs objects) _ h3 in
    All-map
      (λ e r k.
        IsRestorable-of e stored objects packs (stored-Among objects made)
          (check_objects-All packs objects packed)
          (validate_pack_sequence-IsComplete packs ws sequence) r k)
      index (check_references-All stored index h4)

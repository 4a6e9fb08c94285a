-- ===== src/Repository/ParseState/Laws.antt =====
-- What ParseState accepts, and when two states are equal.
use mathlib.Core.Path.{subst₂}
use backup.Base.{
  ◌<◌, ◌^◌, ◌≡◌, ◌↔◌, refl, sym, ap, ◌∙◌, true, false, Option, none, some, ◌==◌, ==_iff, length,
  inl, inr, Bool-cases, ok, All, All-map, and_true,
}
use backup.Base.Bytes.{Bytes, codes, equal_iff}
use backup.Format.Rows.{Limits}
use backup.Format.Rows.RoundTrip.{reader}
use backup.Format.Index.{kind_file}
use backup.Format.Packs.Laws.{marshal_packs-parse_packs}
use backup.Format.Catalogs.Laws.{IsRestorable, validate_catalogs-IsRestorable}
use backup.Repository.AncestorEvents.Order.{IsByte}
use backup.Repository.StreamCatalogs.Texts.{IsParsed, validate_stream_catalogs_iff}
use backup.Repository.Transition.{State, required_blob_names, same_hash, blob_equal, states_equal}
use backup.Repository.Transition.Blobs.{blobs_equal-All}
use backup.Repository.ParseState.{Libraries, Blobs, find_blob, member_name, hash_of, parse_state}
use backup.Repository.ParseState.Accepted.{
  Accepted, check_expected-none, member_name-All, parse_memory_state-Accepted,
}

module _ {K R : Type 0} (libraries : Libraries K R) where
  same_hash-eq :
      (o p : Option Bytes)
      → ((a b : Bytes)
          → o ≡ some a
          → p ≡ some b
          → libraries.blake2b a ≡ libraries.blake2b b
          → a ≡ b)
      → same_hash (hash_of libraries o) (hash_of libraries p) ≡ true
      → o ≡ p
  same_hash-eq none p apart h = cc
  same_hash-eq (some a) none apart h = cc
  same_hash-eq (some a) (some b) apart h =
      ap some (apart a b refl refl ((equal_iff (libraries.blake2b a) (libraries.blake2b b)).0 h))

  module _ {blobs others : Blobs} {limits limits' : Limits} {s t : State K}
      (left : Accepted libraries blobs limits s) (right : Accepted libraries others limits' t) where
    blob_equal-eq :
        (name : Bytes)
        → ((a b : Bytes)
            → find_blob name blobs ≡ some a
            → find_blob name others ≡ some b
            → libraries.blake2b a ≡ libraries.blake2b b
            → a ≡ b)
        → blob_equal s t name ≡ true
        → find_blob name blobs ≡ find_blob name others
    unfolding blob_equal
    blob_equal-eq name apart h = same_hash-eq (find_blob name blobs) (find_blob name others) apart (
        subst₂ (λ x y. same_hash x y ≡ true) (left.hashes name) (right.hashes name)
          (and_true (same_hash (s.blob_hashes name) (t.blob_hashes name))
            (s.blob_sizes name == t.blob_sizes name) h).0)

    eq-blob_equal :
        {blob : Bytes} (name : Bytes)
        → find_blob name blobs ≡ some blob
        → find_blob name blobs ≡ find_blob name others
        → blob_equal s t name ≡ true
    unfolding blob_equal
    eq-blob_equal {blob} name found same = rw (
      left.hashes name,
      right.hashes name,
      left.sizes name,
      right.sizes name,
      sym same,
      found,
      (equal_iff (libraries.blake2b blob) (libraries.blake2b blob)).1 refl,
      (==_iff (length blob) (length blob)).1 refl,
    )

    unrequired-eq :
        (name : Bytes)
        → member_name name required_blob_names ≡ false
        → find_blob name blobs ≡ find_blob name others
    unrequired-eq name other =
        check_expected-none name blobs left.expected other
        ∙ sym (check_expected-none name others right.expected other)

    states_equal-eq :
        ((name a b : Bytes)
          → find_blob name blobs ≡ some a
          → find_blob name others ≡ some b
          → libraries.blake2b a ≡ libraries.blake2b b
          → a ≡ b)
        → (states_equal s t ≡ true)
          ↔ ((name : Bytes) → find_blob name blobs ≡ find_blob name others)
    unfolding states_equal
    states_equal-eq apart = (
      λ h name. elim (Bool-cases (member_name name required_blob_names)) [
        | inr other ↦ unrequired-eq name other
        | inl m ↦ blob_equal-eq name (apart name) (
            member_name-All (λ n. blob_equal s t n ≡ true) name required_blob_names m
              ((blobs_equal-All s t required_blob_names).0 h))
      ],
      λ same. (blobs_equal-All s t required_blob_names).1 (
          All-map {P = λ name. (blob : Bytes) × (find_blob name blobs ≡ some blob)}
            (λ n has. eq-blob_equal n has.1 (same n)) required_blob_names left.required),
    )

  -- Of two states that `ParseState` accepts, whose blobs of one name have one BLAKE2b hash only where
  -- they are the same bytes: `statesEqual`, which compares the hashes and the sizes of the seven
  -- required blobs, is true exactly where every name has the same blob in both or in neither.
  pub states_equal_iff :
      (blobs others : Blobs) (limits limits' : Limits) {s t : State K}
      → parse_state libraries blobs limits ≡ ok s
      → parse_state libraries others limits' ≡ ok t
      → ((name a b : Bytes)
          → find_blob name blobs ≡ some a
          → find_blob name others ≡ some b
          → libraries.blake2b a ≡ libraries.blake2b b
          → a ≡ b)
      → (states_equal s t ≡ true) ↔ ((name : Bytes) → find_blob name blobs ≡ find_blob name others)
  unfolding parse_state
  states_equal_iff blobs others limits limits' h k apart =
      states_equal-eq (parse_memory_state-Accepted libraries blobs limits false h)
        (parse_memory_state-Accepted libraries others limits' false k) apart

  -- Of a state that `ParseState` accepts, its index.tsv bytes and fewer than 2^63: its three catalogs
  -- are parsed, and every `file` entry of the index has an object listed under the hash of its
  -- reference with its size, in a pack that is listed with all its parts.
  pub parse_state-IsRestorable :
      (blobs : Blobs) (limits : Limits) {s : State K}
      → parse_state libraries blobs limits ≡ ok s
      → ((index : Bytes)
          → find_blob (codes "index.tsv") blobs ≡ some index
          → All IsByte index × (length index < 2 ^ 63))
      → (index objects packs : Bytes) × (find_blob (codes "index.tsv") blobs ≡ some index)
        × (find_blob (codes "objects.tsv") blobs ≡ some objects)
        × (find_blob (codes "packs.tsv") blobs ≡ some packs)
        × ((r : IsParsed limits (reader index) (reader objects) (reader packs)) × All
              (λ e. e.kind ≡ kind_file → IsRestorable e r.object_entries r.pack_entries)
              r.entries)
  unfolding parse_state
  parse_state-IsRestorable blobs limits h sane =
      let a = parse_memory_state-Accepted libraries blobs limits false h in
      let (bytes, few) = sane a.index a.index_found in
      let r =
        (validate_stream_catalogs_iff limits (reader a.index) (reader a.objects) (reader a.packs)
            bytes few).0
          a.catalogs in
      (
        a.index,
        a.objects,
        a.packs,
        a.index_found,
        a.objects_found,
        a.packs_found,
        (
          r,
          validate_catalogs-IsRestorable r.entries r.object_entries r.pack_entries
              (marshal_packs-parse_packs (reader a.packs) limits r.packs_parsed).1 r.valid,
        ),
      )

-- ===== src/Repository/ParseState/Accepted.antt =====
-- What parseMemoryState has checked of the blobs when it accepts them.
use mathlib.Core.Path.{subst}
use backup.Base.{
  ◌≡◌, refl, sym, ap, Bool, true, false, not, ◌&&◌, List, [], ◌∷◌, Option, none, some, ◌==◌, length,
  inl, inr, Bool-cases, not_both, ok, err-ne-ok, bind-eq-ok, require_then, refuse_then, All,
}
use backup.Base.Bytes.{Bytes, codes, equal, equal_iff}
use backup.Format.Rows.{Limits}
use backup.Format.Rows.Split.{ok-injective}
use backup.Format.Rows.RoundTrip.{reader}
use backup.Format.FormatFile.{parse_format}
use backup.Format.Ignore.{parse_ignore}
use backup.Format.Mirrors.{parse_mirrors}
use backup.Repository.DerivedRows.{Error, missing_blob, bad_config}
use backup.Repository.StreamCatalogs.{validate_stream_catalogs}
use backup.Repository.Transition.{State, required_blob_names}
use backup.Repository.ParseState.{
  Libraries, Blobs, find_blob, found_or, config_or, read_config, member_name, check_required,
  check_expected, hash_of, size_of, min_int64, parse_stream_state, parse_memory_state,
}

found_or-ok : {A : Type 0} (e : Error) (o : Option A) {a : A} → found_or e o ≡ ok a → o ≡ some a
found_or-ok e none h = absurd (err-ne-ok h)
found_or-ok e (some b) h = ap some (ok-injective h)

check_required-All :
    (names : List Bytes) (blobs : Blobs)
    → check_required names blobs ≡ ok tt
    → All (λ name. (blob : Bytes) × (find_blob name blobs ≡ some blob)) names
unfolding check_required
check_required-All [] blobs h = tt
check_required-All (name ∷ names) blobs h =
    let (blob, found, h1) = bind-eq-ok (found_or missing_blob (find_blob name blobs)) _ h in
    (
      (blob, found_or-ok missing_blob (find_blob name blobs) found),
      check_required-All names blobs h1,
    )

-- A name that is not required has no blob.
pub check_expected-none :
    (name : Bytes) (blobs : Blobs)
    → check_expected blobs ≡ ok tt
    → member_name name required_blob_names ≡ false
    → find_blob name blobs ≡ none
unfolding check_expected find_blob
check_expected-none name [] h other = refl
check_expected-none name ((key, blob) ∷ blobs) h other =
    let (expected, h1) = require_then (member_name key required_blob_names) _ _ h in
    elim (Bool-cases (equal key name)) [
      | inr e ↦ rw e (check_expected-none name blobs h1 other)
      | inl e ↦ absurd (
          not_both
            (subst (λ k. member_name k required_blob_names ≡ true) ((equal_iff key name).0 e)
              expected)
            other)
    ]

pub member_name-All :
    (P : Bytes → Type 0) (name : Bytes) (names : List Bytes)
    → member_name name names ≡ true
    → All P names
    → P name
member_name-All P name [] h ps = cc
member_name-All P name (other ∷ names) h (p, ps) = elim (Bool-cases (equal name other)) [
  | inl e ↦ subst P (sym ((equal_iff name other).0 e)) p
  | inr e ↦ member_name-All P name names (rw e at h) ps
]

module _ {K R : Type 0} (libraries : Libraries K R) where
  -- What `parseMemoryState` has checked, and what it keeps of the blobs.
  pub record Accepted (blobs : Blobs) (limits : Limits) (s : State K) : Type 0 where
    pub required :
        All (λ name. (blob : Bytes) × (find_blob name blobs ≡ some blob)) required_blob_names
    pub expected : check_expected blobs ≡ ok tt
    pub hashes : (name : Bytes) → s.blob_hashes name ≡ hash_of libraries (find_blob name blobs)
    pub sizes : (name : Bytes) → s.blob_sizes name ≡ size_of libraries (find_blob name blobs)
    pub index : Bytes
    pub objects : Bytes
    pub packs : Bytes
    pub index_found : find_blob (codes "index.tsv") blobs ≡ some index
    pub objects_found : find_blob (codes "objects.tsv") blobs ≡ some objects
    pub packs_found : find_blob (codes "packs.tsv") blobs ≡ some packs
    pub catalogs :
        validate_stream_catalogs limits (reader index) (reader objects) (reader packs) ≡ ok tt

  pub parse_memory_state-Accepted :
      (blobs : Blobs) (limits : Limits) (preparation : Bool) {s : State K}
      → parse_memory_state libraries blobs limits preparation ≡ ok s
      → Accepted blobs limits s
  unfolding parse_memory_state parse_stream_state
  parse_memory_state-Accepted blobs limits preparation {s} h =
      let top = limits.max_file_bytes in
      let (_, h1) = require_then (length blobs == 7) _ _ h in
      let (_, required, h2) = bind-eq-ok (check_required required_blob_names blobs) _ h1 in
      let (_, expected, h3) = bind-eq-ok (check_expected blobs) _ h2 in
      let (f, _, h4) = bind-eq-ok (read_config blobs (codes "FORMAT") (min_int64 top 65536)) _ h3 in
      let (_, _, h5) = bind-eq-ok (config_or (parse_format (reader f) limits)) _ h4 in
      let (i, _, h6) =
        bind-eq-ok (read_config blobs (codes "ignore") (min_int64 top 268435456)) _ h5 in
      let (_, _, h7) =
        bind-eq-ok (config_or (parse_ignore libraries.compile (reader i) limits)) _ h6 in
      let (k, _, h8) =
        bind-eq-ok
          (read_config blobs (codes ".publickeys") (min_int64 top libraries.maximum_key_bytes)) _
          h7 in
      let (keys, _, h9) = bind-eq-ok (found_or bad_config (libraries.parse_key_chains k)) _ h8 in
      let (m, _, h10) =
        bind-eq-ok (read_config blobs (codes "mirrors.tsv") (min_int64 top 67108864)) _ h9 in
      let (_, _, h11) =
        bind-eq-ok (config_or (parse_mirrors libraries.url_parse (reader m) limits)) _ h10 in
      let (index, found, h12) =
        bind-eq-ok (found_or missing_blob (find_blob (codes "index.tsv") blobs)) _ h11 in
      let (objects, found', h13) =
        bind-eq-ok (found_or missing_blob (find_blob (codes "objects.tsv") blobs)) _ h12 in
      let (packs, found'', h14) =
        bind-eq-ok (found_or missing_blob (find_blob (codes "packs.tsv") blobs)) _ h13 in
      let (_, catalogs, h15) =
        bind-eq-ok (validate_stream_catalogs limits (reader index) (reader objects) (reader packs))
          _ h14 in
      let (_, h16) = refuse_then (not preparation && libraries.no_key_chains keys) _ _ h15 in
      subst (Accepted blobs limits) (ok-injective h16) (record {
        required = check_required-All required_blob_names blobs required;
        expected = expected;
        hashes = λ name. refl;
        sizes = λ name. refl;
        index = index;
        objects = objects;
        packs = packs;
        index_found = found_or-ok missing_blob (find_blob (codes "index.tsv") blobs) found;
        objects_found = found_or-ok missing_blob (find_blob (codes "objects.tsv") blobs) found';
        packs_found = found_or-ok missing_blob (find_blob (codes "packs.tsv") blobs) found'';
        catalogs = catalogs;
      })

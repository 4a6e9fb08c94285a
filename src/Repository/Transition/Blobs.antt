-- ===== src/Repository/Transition/Blobs.antt =====
-- What State.blobEqual and the loops over it compare.
use backup.Base.{
  ◌↔◌, ◌==◌, ==_iff, refl, and_true, ◌≡◌, sym, ap, true, List, [], ◌∷◌, Option, none, some, All,
}
use backup.Base.Bytes.{Bytes, equal_iff}
use backup.Repository.Transition.{State, same_hash, blob_equal, blobs_equal}

pub blobs_equal-All :
    {K : Type 0} (left right : State K) (names : List Bytes)
    → (blobs_equal left right names ≡ true) ↔ All (λ name. blob_equal left right name ≡ true) names
unfolding blobs_equal
blobs_equal-All left right [] = (λ h. tt, λ ps. refl)
blobs_equal-All left right (name ∷ names) =
    let rest = blobs_equal-All left right names in
    (
      λ h.
          let (p, ps) = and_true (blob_equal left right name) (blobs_equal left right names) h in
          (p, rest.0 ps),
      λ (p, ps). rw (p) (rest.1 ps),
    )

-- The blob of the name is in both states, of one hash and one size.
abbrev pub SameBlob : {K : Type 0} → State K → State K → Bytes → Type 0
SameBlob old new name =
    (hash : Bytes) × (old.blob_hashes name ≡ some hash)
    × (new.blob_hashes name ≡ some hash)
    × (old.blob_sizes name ≡ new.blob_sizes name)

same_hash-some :
    (left right : Option Bytes)
    → same_hash left right ≡ true
    → (hash : Bytes) × (left ≡ some hash) × (right ≡ some hash)
same_hash-some none right h = absurd (cc)
same_hash-some (some a) none h = absurd (cc)
same_hash-some (some a) (some b) h = (a, refl, ap some (sym ((equal_iff a b).0 h)))

pub blob_equal-SameBlob :
    {K : Type 0} (old new : State K) (name : Bytes)
    → blob_equal old new name ≡ true
    → SameBlob old new name
unfolding blob_equal
blob_equal-SameBlob old new name h =
    let (hashes, sizes) =
      and_true (same_hash (old.blob_hashes name) (new.blob_hashes name))
        (old.blob_sizes name == new.blob_sizes name) h in
    let (hash, e, f) = same_hash-some (old.blob_hashes name) (new.blob_hashes name) hashes in
    (hash, e, f, (==_iff (old.blob_sizes name) (new.blob_sizes name)).0 sizes)

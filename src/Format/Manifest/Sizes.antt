-- ===== src/Format/Manifest/Sizes.antt =====
-- The parts of a valid manifest make up its bundle.
use backup.Base.{
  ℕ, ◌+◌, ◌^◌, ◌≤◌, ◌<◌, ◌≡◌, ap, ◌∙◌, true, ◌||◌, List, [], ◌∷◌, length, arith, ltb, ◌==◌, ==_iff,
  ok, refuse_then, require_then, require-eq-ok, bind-eq-ok,
}
use backup.Format.Errors.{bad_total}
use backup.Format.Patterns.{uuid_pattern, commit_pattern, blake2b_pattern}
use backup.Format.Manifest.{
  ManifestPart, MetadataManifest, validate_kind, add_part, add_parts, validate_manifest,
  maximum_manifest_parts,
}

-- The sum of the sizes, as a number without bound.
abbrev pub sum_sizes : List ManifestPart → ℕ
sum_sizes [] = 0
sum_sizes (part ∷ parts) = part.size + sum_sizes parts

-- The parts are numbered from `index` on, of `count` parts, and none of them is empty.
abbrev pub Numbered : ℕ → ℕ → List ManifestPart → Type 0
Numbered count index [] = Unit
Numbered count index (part ∷ parts) =
    (part.number ≡ index)
    × (part.count ≡ count)
    × (0 < part.size)
    × Numbered count (index + 1) parts

add_part-eq-ok :
    (count index total : ℕ) (part : ManifestPart) {total' : ℕ}
    → index < 2 ^ 32
    → count < 2 ^ 32
    → total < 2 ^ 64
    → add_part count index total part ≡ ok total'
    → (part.number ≡ index)
      × (part.count ≡ count)
      × (0 < part.size)
      × (total' ≡ total + part.size)
      × (total' < 2 ^ 64)
unfolding add_part
add_part-eq-ok count index total part i c t h =
    (ground arith, ground arith, ground arith, ground arith, ground arith)

add_parts-Numbered :
    (count index total : ℕ) (parts : List ManifestPart) {sum : ℕ}
    → index + length parts ≤ 3869
    → count ≤ 3869
    → total < 2 ^ 64
    → add_parts count index total parts ≡ ok sum
    → Numbered count index parts × (sum ≡ total + sum_sizes parts)
unfolding add_parts
add_parts-Numbered count index total [] i c t h = (tt, ground arith)
add_parts-Numbered count index total (part ∷ parts) i c t h =
    let (total', added, h1) = bind-eq-ok (add_part count index total part) _ h in
    let (number, counted, positive, next, small) =
      add_part-eq-ok count index total part (omega arith) (omega arith) t added in
    let (rest, sum) = add_parts-Numbered count (index + 1) total' parts (omega arith) c small h1 in
    ((number, counted, positive, rest), omega arith)

-- The tests that a valid manifest passes.
pub record IsManifest (manifest : MetadataManifest) : Type 0 where
  pub uuid : uuid_pattern manifest.repository_uuid ≡ true
  pub tip : commit_pattern manifest.tip_commit ≡ true
  pub kind : validate_kind manifest ≡ ok tt
  pub bundle : blake2b_pattern manifest.bundle_hash ≡ true
  pub some_part : 0 < length manifest.parts
  pub few_parts : length manifest.parts ≤ 3869
  pub total : add_parts (length manifest.parts) 0 0 manifest.parts ≡ ok manifest.bundle_size

pub validate_manifest-IsManifest :
    (manifest : MetadataManifest) → validate_manifest manifest ≡ ok tt → IsManifest manifest
unfolding validate_manifest
validate_manifest-IsManifest manifest h =
    let (uuid, h1) = require_then (uuid_pattern manifest.repository_uuid) _ _ h in
    let (tip, h2) = require_then (commit_pattern manifest.tip_commit) _ _ h1 in
    let (u, kind, h3) = bind-eq-ok (validate_kind manifest) _ h2 in
    let (bundle, h4) = require_then (blake2b_pattern manifest.bundle_hash) _ _ h3 in
    let (count, h5) =
      refuse_then (length manifest.parts == 0 || ltb maximum_manifest_parts (length manifest.parts))
        _ _ h4 in
    let (size, h6) = refuse_then (manifest.bundle_size == 0) _ _ h5 in
    let (total, added, h7) =
      bind-eq-ok (add_parts (length manifest.parts) 0 0 manifest.parts) _ h6 in
    let same =
      (==_iff total manifest.bundle_size).0
        (require-eq-ok (total == manifest.bundle_size) bad_total h7) in
    record {
      uuid = uuid;
      tip = tip;
      kind = kind;
      bundle = bundle;
      some_part = ground arith;
      few_parts = ground arith;
      total = added ∙ ap ok same;
    }

-- The parts of a manifest that `validate` accepts are numbered 0, 1, 2 and so on, each counts all
-- of them, none is empty, there are between 1 and 3869, and the sizes of the parts, added up
-- without wrapping, are the size of the bundle.
pub validate_manifest-Numbered :
    (manifest : MetadataManifest)
    → validate_manifest manifest ≡ ok tt
    → Numbered (length manifest.parts) 0 manifest.parts
      × (0 < length manifest.parts)
      × (length manifest.parts ≤ 3869)
      × (sum_sizes manifest.parts ≡ manifest.bundle_size)
validate_manifest-Numbered manifest h =
    let v = validate_manifest-IsManifest manifest h in
    let few = v.few_parts in
    let (numbered, sum) =
      add_parts-Numbered (length manifest.parts) 0 0 manifest.parts (omega arith) few (omega arith)
        v.total in
    (numbered, v.some_part, few, omega arith)

-- ===== src/Format/Manifest/Fields.antt =====
-- The fields of the rows of a valid manifest.
use backup.Base.{
  ℕ, ◌+◌, ◌^◌, ◌<◌, ◌≡◌, inl, inr, refl, true, false, List, [], ◌∷◌, map, length, arith, ◌==◌,
  Bool-cases, ok, bind-eq-ok, All, and_true,
}
use backup.Base.Bytes.{Bytes, codes, equal, equal_iff, has_prefix}
use backup.Format.Patterns.{uuid_pattern, is_hex, matches}
use backup.Format.Patterns.Fields.{
  commit-IsField, blake2b-IsField, sha256-IsField, md5-IsField, object_id-IsField,
  uint_text-IsField,
}
use backup.Format.Rows.Canonical.{NoBom}
use backup.Format.Manifest.{
  ManifestPart, MetadataManifest, validate_kind, bundle_full, bundle_incremental, add_part,
  add_parts, validate_manifest, part_row, manifest_rows,
}
use backup.Format.Manifest.Sizes.{validate_manifest-IsManifest}
use backup.Format.Manifest.RoundTrip.{HasWidths}

hex_first : (c : ℕ) → is_hex c ≡ true → (c == 0xef) ≡ false
unfolding is_hex
hex_first c h = ground arith

uuid_pattern-NoBom : (s : Bytes) → uuid_pattern s ≡ true → NoBom s
unfolding uuid_pattern matches has_prefix
uuid_pattern-NoBom [] h = refl
uuid_pattern-NoBom (c ∷ s) h =
    let (digit, rest) = and_true (is_hex c) _ h in
    let other : (c == 0xef) ≡ false = hex_first c digit in rw other refl

validate_kind-NoBom :
    (manifest : MetadataManifest)
    → validate_kind manifest ≡ ok tt
    → NoBom manifest.kind × NoBom manifest.base_commit
unfolding validate_kind
validate_kind-NoBom manifest h = elim (Bool-cases (equal manifest.kind bundle_full)) [
  | inl full ↦
      let kind = (equal_iff manifest.kind bundle_full).0 full in
      let base = (equal_iff manifest.base_commit (codes "-")).0 (ground arith) in
      (rw kind (unfold has_prefix in refl), rw base (unfold has_prefix in refl))
  | inr other ↦
      let incremental : equal manifest.kind bundle_incremental ≡ true = ground arith in
      let kind = (equal_iff manifest.kind bundle_incremental).0 incremental in
      let base = commit-IsField manifest.base_commit (ground arith) in
      (rw kind (unfold has_prefix in refl), base.no_bom)
]

part_row-NoBom :
    (count index total : ℕ) (part : ManifestPart) {sum : ℕ}
    → HasWidths part
    → add_part count index total part ≡ ok sum
    → All NoBom (part_row part)
unfolding add_part part_row
part_row-NoBom count index total part w h =
    let id = object_id-IsField part.object_id (ground arith) in
    let hash = blake2b-IsField part.hash (ground arith) in
    let sha256 = sha256-IsField part.sha256 (ground arith) in
    let md5 = md5-IsField part.md5 (ground arith) in
    let number = uint_text-IsField part.number (omega (arith, w.number)) in
    let counted = uint_text-IsField part.count (omega (arith, w.count)) in
    let size = uint_text-IsField part.size w.size in
    (
      unfold has_prefix in refl,
      (
        number.no_bom,
        (
          counted.no_bom,
          (id.no_bom, (hash.no_bom, (sha256.no_bom, (md5.no_bom, (size.no_bom, tt))))),
        ),
      ),
    )

parts-NoBom :
    (count index total : ℕ) (parts : List ManifestPart) {sum : ℕ}
    → All HasWidths parts
    → add_parts count index total parts ≡ ok sum
    → All (All NoBom) (map part_row parts)
unfolding add_parts
parts-NoBom count index total [] w h = tt
parts-NoBom count index total (part ∷ parts) (w, ws) h =
    let (total', added, h1) = bind-eq-ok (add_part count index total part) _ h in
    (
      part_row-NoBom count index total part w added,
      parts-NoBom count (index + 1) total' parts ws h1,
    )

-- No field of a valid manifest begins with a byte order mark.
pub manifest_rows-NoBom :
    (manifest : MetadataManifest)
    → validate_manifest manifest ≡ ok tt
    → manifest.sequence < 2 ^ 64
    → manifest.bundle_size < 2 ^ 64
    → All HasWidths manifest.parts
    → All (All NoBom) (manifest_rows manifest)
unfolding manifest_rows has_prefix
manifest_rows-NoBom manifest h s b ws =
    let v = validate_manifest-IsManifest manifest h in
    let (kind, base) = validate_kind-NoBom manifest v.kind in
    let few = v.few_parts in
    let sequence = uint_text-IsField manifest.sequence s in
    let size = uint_text-IsField manifest.bundle_size b in
    let count = uint_text-IsField (length manifest.parts) (omega arith) in
    let tip = commit-IsField manifest.tip_commit v.tip in
    let bundle = blake2b-IsField manifest.bundle_hash v.bundle in
    (
      (refl, (uuid_pattern-NoBom manifest.repository_uuid v.uuid, tt)),
      (
        (refl, (refl, tt)),
        (
          (refl, (sequence.no_bom, tt)),
          (
            (refl, (base, tt)),
            (
              (refl, (tip.no_bom, tt)),
              (
                (refl, (kind, tt)),
                (
                  (refl, (bundle.no_bom, tt)),
                  (
                    (refl, (size.no_bom, tt)),
                    (
                      (refl, (count.no_bom, tt)),
                      parts-NoBom (length manifest.parts) 0 0 manifest.parts ws v.total,
                    ),
                  ),
                ),
              ),
            ),
          ),
        ),
      ),
    )

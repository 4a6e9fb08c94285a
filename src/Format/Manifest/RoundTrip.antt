-- ===== src/Format/Manifest/RoundTrip.antt =====
-- A manifest is read back as it was written.
use backup.Base.{
  ℕ, ◌+◌, ◌-◌, ◌%◌, ◌^◌, ◌≤◌, ◌<◌, ◌≡◌, refl, true, false, not, ◌||◌, List, [], ◌∷◌, map, length,
  length-map, drop, arith, ltb, ◌==◌, ok, refuse_then, bind-eq-ok, All,
}
use backup.Base.Bytes.{Bytes, codes, equal, equal_refl}
use backup.Format.Errors.{file_too_large}
use backup.Format.Decimal.{parse_uint}
use backup.Format.Decimal.Unsigned.{parse_uint-uint_text}
use backup.Format.Rows.{Limits, marshal_rows}
use backup.Format.Rows.Split.{ok-injective}
use backup.Format.Rows.RoundTrip.{FitsLimits, reader, read_rows-marshal_rows}
use backup.Format.Manifest.{
  ManifestPart, MetadataManifest, validate_manifest, part_row, manifest_rows, marshal_manifest,
  maximum_manifest_bytes, maximum_manifest_parts, manifest_limits, tags, check_tags, parse_part,
  parse_parts, second_at, parse_manifest_rows, parse_manifest,
}
use backup.Format.Manifest.Sizes.{validate_manifest-IsManifest}

-- The widths of the numbers of a part: uint32 number and count, and a uint64 size.
pub record HasWidths (part : ManifestPart) : Type 0 where
  pub number : part.number < 2 ^ 32
  pub count : part.count < 2 ^ 32
  pub size : part.size < 2 ^ 64

parse_part-part_row : (part : ManifestPart) → HasWidths part → parse_part (part_row part) ≡ ok part
unfolding parse_part part_row
parse_part-part_row part w =
    let same = equal_refl (codes "part") in
    let number = parse_uint-uint_text part.number 32 w.number (omega arith) in
    let count = parse_uint-uint_text part.count 32 w.count (omega arith) in
    let size = parse_uint-uint_text part.size 64 w.size (omega arith) in
    rw (same, number, count, size) refl

parse_parts-part_row :
    (parts : List ManifestPart) → All HasWidths parts → parse_parts (map part_row parts) ≡ ok parts
unfolding parse_parts
parse_parts-part_row [] w = refl
parse_parts-part_row (part ∷ parts) (w, ws) =
    let here = parse_part-part_row part w in
    let rest = parse_parts-part_row parts ws in rw (here, rest) refl

tags_match : (manifest : MetadataManifest) → check_tags tags (manifest_rows manifest) ≡ ok tt
unfolding check_tags manifest_rows equal
tags_match manifest = refl

length-manifest_rows :
    (manifest : MetadataManifest) → length (manifest_rows manifest) ≡ 9 + length manifest.parts
unfolding manifest_rows
length-manifest_rows manifest = let n = length-map part_row manifest.parts in omega (arith, n)

-- The test of the part count passes.
count_accepted :
    (limits : Limits) (rows : List (List Bytes)) (count : ℕ)
    → 0 < count
    → length rows ≡ 9 + count
    → length rows ≤ limits.max_records
    → limits.max_records ≤ 3878
    → (count == 0
        || ltb ((limits.max_records + 2 ^ 64 - 9) % 2 ^ 64) count
        || not (length rows == 9 + count))
      ≡ false
count_accepted limits rows count p n many few = ground arith

parse_manifest_rows-manifest_rows :
    (limits : Limits) (manifest : MetadataManifest)
    → validate_manifest manifest ≡ ok tt
    → manifest.sequence < 2 ^ 64
    → manifest.bundle_size < 2 ^ 64
    → All HasWidths manifest.parts
    → length (manifest_rows manifest) ≤ limits.max_records
    → limits.max_records ≤ 9 + maximum_manifest_parts
    → parse_manifest_rows limits (manifest_rows manifest) ≡ ok manifest
unfolding parse_manifest_rows
parse_manifest_rows-manifest_rows limits manifest h s b ws many few =
    let rows = manifest_rows manifest in
    let v = validate_manifest-IsManifest manifest h in
    let n = length-manifest_rows manifest in
    let positive = v.some_part in
    let enough : ltb (length rows) 10 ≡ false = ground arith in
    let format : equal (second_at rows 1) (codes "1") ≡ true = unfold manifest_rows equal in refl in
    let sequence : parse_uint (second_at rows 2) 64 ≡ ok manifest.sequence =
      unfold manifest_rows in parse_uint-uint_text manifest.sequence 64 s (omega arith) in
    let size : parse_uint (second_at rows 7) 64 ≡ ok manifest.bundle_size =
      unfold manifest_rows in parse_uint-uint_text manifest.bundle_size 64 b (omega arith) in
    let count : parse_uint (second_at rows 8) 32 ≡ ok (length manifest.parts) =
      unfold manifest_rows in
      parse_uint-uint_text (length manifest.parts) 32 (small v.few_parts) (omega arith) in
    let accepted = count_accepted limits rows (length manifest.parts) positive n many few in
    let parts : parse_parts (drop 9 rows) ≡ ok manifest.parts =
      unfold manifest_rows in parse_parts-part_row manifest.parts ws in
    rw (enough, tags_match manifest, format, sequence, size, count, accepted, parts)
      (unfold manifest_rows in rw h refl)
  where
    small : {n : ℕ} → n ≤ 3869 → n < 2 ^ 32
    small l = omega arith

-- A manifest that `MarshalText` writes, with a sequence number and sizes that are uint64 and part
-- numbers and counts that are uint32, `ParseMetadataManifest` reads back as it was, if its rows
-- keep the limits of the reader as the format narrows them.
pub parse_manifest-marshal_manifest :
    (limits : Limits) (manifest : MetadataManifest) {text : Bytes}
    → marshal_manifest manifest ≡ ok text
    → manifest.sequence < 2 ^ 64
    → manifest.bundle_size < 2 ^ 64
    → All HasWidths manifest.parts
    → FitsLimits (manifest_limits limits) (manifest_rows manifest)
    → parse_manifest (reader text) limits ≡ ok manifest
unfolding marshal_manifest parse_manifest
parse_manifest-marshal_manifest limits manifest {text} h s b ws f =
    let (u, valid, h1) = bind-eq-ok (validate_manifest manifest) _ h in
    let (written, marshalled, h2) = bind-eq-ok (marshal_rows (manifest_rows manifest)) _ h1 in
    let (small, h3) =
      refuse_then (ltb maximum_manifest_bytes (length written)) file_too_large (ok written) h2 in
    let read =
      read_rows-marshal_rows (manifest_limits limits) (manifest_rows manifest) marshalled f in
    rw (← ok-injective h3) (
      rw read (
        parse_manifest_rows-manifest_rows (manifest_limits limits) manifest valid s b ws f.count
          (narrow limits)))
  where
    narrow : (l : Limits) → (manifest_limits l).max_records ≤ 9 + maximum_manifest_parts
    narrow l = unfold manifest_limits in ground arith

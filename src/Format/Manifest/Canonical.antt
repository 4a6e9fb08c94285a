-- ===== src/Format/Manifest/Canonical.antt =====
-- A manifest has one text: the one that `MarshalText` writes is the only one that is read as it.
use backup.Base.{
  ℕ, suc, ◌+◌, ◌-◌, ◌%◌, ◌^◌, ◌≤◌, ◌<◌, ◌≡◌, refl, sym, ap, ◌∙◌, true, false, not, ◌||◌, List, [],
  ◌∷◌, map, length, get_or, arith, ltb, ◌==◌, ok, refuse_then, require_then, bind-eq-ok, All,
}
use backup.Base.Bytes.{Bytes, codes, equal, equal_iff}
use backup.Format.Decimal.{parse_uint, uint_text}
use backup.Format.Decimal.Unsigned.{uint_text-parse_uint}
use backup.Format.Rows.{Reader, Limits, read_rows, require_field_count}
use backup.Format.Rows.Split.{ok-injective, IsRow, marshal_rows-of}
use backup.Format.Rows.Canonical.{
  IsReadRow, IsReadRow-IsRow, NoBom, rows_text-read_rows, length-read_rows,
}
use backup.Format.Manifest.{
  ManifestPart, MetadataManifest, validate_manifest, part_row, manifest_rows, marshal_manifest,
  maximum_manifest_bytes, manifest_limits, tags, check_tags, parse_part, parse_parts, second_at,
  parse_manifest_rows, parse_manifest,
}
use backup.Format.Manifest.RoundTrip.{HasWidths}
use backup.Format.Manifest.Fields.{manifest_rows-NoBom}

part_row-parse_part :
    (row : List Bytes) {part : ManifestPart}
    → parse_part row ≡ ok part
    → (part_row part ≡ row) × HasWidths part
unfolding parse_part part_row
part_row-parse_part (tag ∷ number_text ∷ count_text ∷ id ∷ hash ∷ sha256 ∷ md5 ∷ size_text ∷ []) h =
    let (tagged, h1) = require_then (equal tag (codes "part")) _ _ h in
    let (number, r1, h2) = bind-eq-ok (parse_uint number_text 32) _ h1 in
    let (count, r2, h3) = bind-eq-ok (parse_uint count_text 32) _ h2 in
    let (size, r3, h4) = bind-eq-ok (parse_uint size_text 64) _ h3 in
    let (shown1, small1) = uint_text-parse_uint number_text 32 r1 in
    let (shown2, small2) = uint_text-parse_uint count_text 32 r2 in
    let (shown3, small3) = uint_text-parse_uint size_text 64 r3 in
    let named = sym ((equal_iff tag (codes "part")).0 tagged) in
    rw (← ok-injective h4) (
      rw (shown1, shown2, shown3)
          (ap (λ t. t ∷ number_text ∷ count_text ∷ id ∷ hash ∷ sha256 ∷ md5 ∷ size_text ∷ [])
            named),
      record { number = small1; count = small2; size = small3 },
    )
part_row-parse_part _ h = cc

part_row-parse_parts :
    (rows : List (List Bytes)) {parts : List ManifestPart}
    → parse_parts rows ≡ ok parts
    → (map part_row parts ≡ rows) × All HasWidths parts
unfolding parse_parts
part_row-parse_parts [] h = rw (← ok-injective h) (refl, tt)
part_row-parse_parts (row ∷ rows) h =
    let (part, read, h1) = bind-eq-ok (parse_part row) _ h in
    let (parts, reads, h2) = bind-eq-ok (parse_parts rows) _ h1 in
    let (here, width) = part_row-parse_part row read in
    let (there, widths) = part_row-parse_parts rows reads in
    rw (← ok-injective h2) (rw (here, there) refl, (width, widths))

-- The rows with the tags for their first fields, and no third ones.
abbrev tagged_rows : List Bytes → List (List Bytes) → List (List Bytes)
tagged_rows [] rows = rows
tagged_rows (tag ∷ rest) [] = []
tagged_rows (tag ∷ rest) (row ∷ rows) = (tag ∷ get_or row 1 [] ∷ []) ∷ tagged_rows rest rows

tagged_row :
    (tag : Bytes) (row : List Bytes)
    → require_field_count row 2 ≡ ok tt
    → equal (get_or row 0 []) tag ≡ true
    → tag ∷ get_or row 1 [] ∷ [] ≡ row
unfolding require_field_count
tagged_row tag (a ∷ b ∷ []) h e = ap (λ t. t ∷ b ∷ []) (sym ((equal_iff a tag).0 e))
tagged_row tag [] h e = absurd (ground arith)
tagged_row tag (a ∷ []) h e = absurd (ground arith)
tagged_row tag (a ∷ b ∷ c ∷ d) h e = absurd (ground arith)

check_tags-tagged_rows :
    (texts : List Bytes) (rows : List (List Bytes))
    → check_tags texts rows ≡ ok tt
    → tagged_rows texts rows ≡ rows
unfolding check_tags
check_tags-tagged_rows [] rows h = refl
check_tags-tagged_rows (tag ∷ texts) [] h = refl
check_tags-tagged_rows (tag ∷ texts) (row ∷ rows) h =
    let (u, two, h1) = bind-eq-ok (require_field_count row 2) _ h in
    let (same, h2) = require_then (equal (get_or row 0 []) tag) _ _ h1 in
    let here = tagged_row tag row two same in
    let there = check_tags-tagged_rows texts rows h2 in rw (here, there) refl

-- The rows that are read as a manifest are those that it is written as.
record Read (rows : List (List Bytes)) (manifest : MetadataManifest) : Type 0 where
  spelled : manifest_rows manifest ≡ rows
  valid : validate_manifest manifest ≡ ok tt
  sequence : manifest.sequence < 2 ^ 64
  size : manifest.bundle_size < 2 ^ 64
  widths : All HasWidths manifest.parts

length-map : (parts : List ManifestPart) → length (map part_row parts) ≡ length parts
length-map [] = refl
length-map (part ∷ parts) = ap suc (length-map parts)

-- The manifest that `ParseMetadataManifest` builds of the rows and what it read of them.
abbrev built : List (List Bytes) → ℕ → ℕ → List ManifestPart → MetadataManifest
built rows sequence size parts = record {
  repository_uuid = second_at rows 0;
  sequence = sequence;
  base_commit = second_at rows 3;
  tip_commit = second_at rows 4;
  kind = second_at rows 5;
  bundle_hash = second_at rows 6;
  bundle_size = size;
  parts = parts;
}

built-tagged_rows :
    (r0 r1 r2 r3 r4 r5 r6 r7 r8 : List Bytes) (rest : List (List Bytes)) (sequence size : ℕ)
    (parts : List ManifestPart)
    → get_or r1 1 [] ≡ codes "1"
    → uint_text sequence ≡ get_or r2 1 []
    → uint_text size ≡ get_or r7 1 []
    → uint_text (length parts) ≡ get_or r8 1 []
    → map part_row parts ≡ rest
    → manifest_rows (built (r0 ∷ r1 ∷ r2 ∷ r3 ∷ r4 ∷ r5 ∷ r6 ∷ r7 ∷ r8 ∷ rest) sequence size parts)
      ≡ tagged_rows tags (r0 ∷ r1 ∷ r2 ∷ r3 ∷ r4 ∷ r5 ∷ r6 ∷ r7 ∷ r8 ∷ rest)
unfolding manifest_rows
built-tagged_rows r0 r1 r2 r3 r4 r5 r6 r7 r8 rest sequence size parts e1 e2 e7 e8 es =
    rw (e1, e2, e7, e8, es) refl

parse_manifest_rows-Read :
    (limits : Limits) (rows : List (List Bytes)) {manifest : MetadataManifest}
    → parse_manifest_rows limits rows ≡ ok manifest
    → Read rows manifest
unfolding parse_manifest_rows
parse_manifest_rows-Read limits (r0 ∷ r1 ∷ r2 ∷ r3 ∷ r4 ∷ r5 ∷ r6 ∷ r7 ∷ r8 ∷ rest) {manifest} h =
    let rows = r0 ∷ r1 ∷ r2 ∷ r3 ∷ r4 ∷ r5 ∷ r6 ∷ r7 ∷ r8 ∷ rest in
    let (enough, h1) = refuse_then (ltb (length rows) 10) _ _ h in
    let (u, tagged, h2) = bind-eq-ok (check_tags tags rows) _ h1 in
    let (one, h3) = require_then (equal (second_at rows 1) (codes "1")) _ _ h2 in
    let (sequence, r, h4) = bind-eq-ok (parse_uint (second_at rows 2) 64) _ h3 in
    let (size, r', h5) = bind-eq-ok (parse_uint (second_at rows 7) 64) _ h4 in
    let (count, r'', h6) = bind-eq-ok (parse_uint (second_at rows 8) 32) _ h5 in
    let (counted, h7) =
      refuse_then
        (count == 0
          || ltb ((limits.max_records + 2 ^ 64 - 9) % 2 ^ 64) count
          || not (length rows == 9 + count))
        _ _ h6 in
    let (parts, reads, h8) = bind-eq-ok (parse_parts rest) _ h7 in
    let read = built rows sequence size parts in
    let (u', valid, h9) = bind-eq-ok (validate_manifest read) _ h8 in
    let (shown, small) = uint_text-parse_uint (second_at rows 2) 64 r in
    let (shown', small') = uint_text-parse_uint (second_at rows 7) 64 r' in
    let (shown'', small'') = uint_text-parse_uint (second_at rows 8) 32 r'' in
    let (spelled, widths) = part_row-parse_parts rest reads in
    let first = (equal_iff (second_at rows 1) (codes "1")).0 one in
    let long : length rest ≡ count = ground arith in
    let all : length parts ≡ count = sym (length-map parts) ∙ ap length spelled ∙ long in
    let same =
      built-tagged_rows r0 r1 r2 r3 r4 r5 r6 r7 r8 rest sequence size parts first shown shown'
        (ap uint_text all ∙ shown'') spelled in
    rw (← ok-injective h9) (record {
      spelled = same ∙ check_tags-tagged_rows tags rows tagged;
      valid = valid;
      sequence = small;
      size = small';
      widths = widths;
    })
parse_manifest_rows-Read limits _ h = cc

rows_writable :
    (rows : List (List Bytes)) → All IsReadRow rows → All (All NoBom) rows → All IsRow rows
rows_writable [] r n = tt
rows_writable (row ∷ rows) (r, rs) (n, ns) = (IsReadRow-IsRow row r n, rows_writable rows rs ns)

-- A text that `ParseMetadataManifest` accepts is the one that `MarshalText` writes for the manifest
-- read: each manifest has one text.
pub marshal_manifest-parse_manifest :
    (input : Reader) (limits : Limits) {manifest : MetadataManifest}
    → parse_manifest input limits ≡ ok manifest
    → marshal_manifest manifest ≡ ok input.bytes
unfolding parse_manifest marshal_manifest
marshal_manifest-parse_manifest input limits {manifest} h =
    let (rows, read, h1) = bind-eq-ok (read_rows input (manifest_limits limits)) _ h in
    let r = parse_manifest_rows-Read (manifest_limits limits) rows h1 in
    let (text, clean) = rows_text-read_rows input (manifest_limits limits) read in
    let plain = manifest_rows-NoBom manifest r.valid r.sequence r.size r.widths in
    let writable = rows_writable rows clean (rw (r.spelled) at plain) in
    let written = marshal_rows-of rows writable ∙ ap ok text in
    let small = fits (length-read_rows input (manifest_limits limits) read) in
    rw (r.valid) (rw (r.spelled) (rw written (rw small refl)))
  where
    fits :
        length input.bytes ≤ (manifest_limits limits).max_file_bytes
        → ltb maximum_manifest_bytes (length input.bytes) ≡ false
    fits l = unfold manifest_limits in ground arith

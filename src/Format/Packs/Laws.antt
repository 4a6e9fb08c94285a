-- ===== src/Format/Packs/Laws.antt =====
-- packs.tsv is read back as it was written, and has one text for each list of entries.
use backup.Base.{
  ◌^◌, ◌<◌, ◌≡◌, refl, sym, ap, ◌∙◌, List, [], ◌∷◌, map, none, arith, ok, bind-eq-ok, All, All-map,
}
use backup.Base.Bytes.{Bytes}
use backup.Format.Decimal.{parse_uint}
use backup.Format.Decimal.Unsigned.{parse_uint-uint_text, uint_text-parse_uint}
use backup.Format.Patterns.Fields.{
  blake2b-IsField, sha256-IsField, md5-IsField, object_id-IsField, uint_text-IsField,
}
use backup.Format.Rows.{Reader, Limits}
use backup.Format.Rows.Split.{
  rows_text, IsField, IsRow, ok-injective, marshal_rows-of, marshal_rows_iff,
}
use backup.Format.Rows.RoundTrip.{FitsLimits, reader}
use backup.Format.Tables.{walk, collect}
use backup.Format.Tables.Laws.{walk-rows_text, walk-Collected}
use backup.Format.Packs.{
  PackEntry, validate_pack_entry, pack_fields, pack_row, pack_rows, validate_pack_sequence,
  check_sequence, marshal_packs, parse_pack_row, advance_pack, finish_packs, walk_packs,
  parse_packs,
}
use backup.Format.Packs.Sequence.{IsValid, check_sequence-Accepted, Accepted-check_sequence}

-- The widths of the fields of an entry: uint32 part numbers, and a uint64 size.
pub record HasWidths (entry : PackEntry) : Type 0 where
  pub number : entry.part_number < 2 ^ 32
  pub count : entry.part_count < 2 ^ 32
  pub size : entry.part_size < 2 ^ 64

-- The acceptable texts among the fields of an entry that `validatePackEntry` accepts.
record ValidTexts (entry : PackEntry) : Type 0 where
  pack : IsField entry.pack_hash
  part : IsField entry.part_hash
  sha256 : IsField entry.part_sha256
  md5 : IsField entry.part_md5
  id : IsField entry.object_id

IsValid-ValidTexts : (entry : PackEntry) → IsValid entry → ValidTexts entry
unfolding validate_pack_entry
IsValid-ValidTexts entry v = record {
  pack = blake2b-IsField entry.pack_hash (ground arith);
  part = blake2b-IsField entry.part_hash (ground arith);
  sha256 = sha256-IsField entry.part_sha256 (ground arith);
  md5 = md5-IsField entry.part_md5 (ground arith);
  id = object_id-IsField entry.object_id (ground arith);
}

pack_fields-IsRow :
    (entry : PackEntry) → IsValid entry → HasWidths entry → IsRow (pack_fields entry)
unfolding pack_fields
pack_fields-IsRow entry v w =
    let t = IsValid-ValidTexts entry v in
    (
      t.pack,
      (
        uint_text-IsField entry.part_number (omega arith),
        (
          uint_text-IsField entry.part_count (omega arith),
          (t.part, (t.sha256, (t.md5, (uint_text-IsField entry.part_size w.size, (t.id, tt))))),
        ),
      ),
    )

parse_pack_row-pack_fields :
    (entry : PackEntry)
    → IsValid entry
    → HasWidths entry
    → parse_pack_row (pack_fields entry) ≡ ok entry
unfolding parse_pack_row pack_fields
parse_pack_row-pack_fields entry v w =
    rw (parse_uint-uint_text entry.part_number 32 w.number (omega arith)) (
      rw (parse_uint-uint_text entry.part_count 32 w.count (omega arith))
        (rw (parse_uint-uint_text entry.part_size 64 w.size (omega arith)) (rw v)))

print_read :
    (row : List Bytes) (entry : PackEntry)
    → parse_pack_row row ≡ ok entry
    → (pack_fields entry ≡ row) × IsValid entry × HasWidths entry
unfolding parse_pack_row
print_read (pack ∷ number ∷ count ∷ hash ∷ sha256 ∷ md5 ∷ size ∷ id ∷ []) entry h =
    let (n, read_n, h1) = bind-eq-ok (parse_uint number 32) _ h in
    let (c, read_c, h2) = bind-eq-ok (parse_uint count 32) _ h1 in
    let (s, read_s, h3) = bind-eq-ok (parse_uint size 64) _ h2 in
    let built : PackEntry = record {
      pack_hash = pack;
      part_number = n;
      part_count = c;
      part_hash = hash;
      part_sha256 = sha256;
      part_md5 = md5;
      part_size = s;
      object_id = id;
    } in
    let (u, valid, h4) = bind-eq-ok (validate_pack_entry built) _ h3 in
    let (shown_n, small_n) = uint_text-parse_uint number 32 read_n in
    let (shown_c, small_c) = uint_text-parse_uint count 32 read_c in
    let (shown_s, small_s) = uint_text-parse_uint size 64 read_s in
    rw (← ok-injective h4) (
      unfold pack_fields in rw shown_n (rw shown_c (rw shown_s)),
      valid,
      record { number = small_n; count = small_c; size = small_s },
    )
print_read _ entry h = cc

pack_rows-of :
    (entries : List PackEntry)
    → All IsValid entries
    → pack_rows entries ≡ ok (map pack_fields entries)
unfolding pack_rows pack_row
pack_rows-of [] h = refl
pack_rows-of (entry ∷ entries) (h, hs) = rw h (rw (pack_rows-of entries hs))

All-IsRow :
    (entries : List PackEntry)
    → All IsValid entries
    → All HasWidths entries
    → All IsRow (map pack_fields entries)
All-IsRow [] v w = tt
All-IsRow (entry ∷ entries) (v, vs) (w, ws) = (pack_fields-IsRow entry v w, All-IsRow entries vs ws)

All-parse :
    (entries : List PackEntry)
    → All IsValid entries
    → All HasWidths entries
    → All (λ e. parse_pack_row (pack_fields e) ≡ ok e) entries
All-parse [] v w = tt
All-parse (entry ∷ entries) (v, vs) (w, ws) =
    (parse_pack_row-pack_fields entry v w, All-parse entries vs ws)

-- Every packs.tsv that `MarshalPacks` writes, of numbers of their widths and within the limits of
-- the reader, `ParsePacks` reads back as the same entries.
pub parse_packs-marshal_packs :
    (limits : Limits) (entries : List PackEntry) {text : Bytes}
    → marshal_packs entries ≡ ok text
    → All HasWidths entries
    → FitsLimits limits (map pack_fields entries)
    → parse_packs (reader text) limits ≡ ok entries
unfolding marshal_packs parse_packs walk_packs validate_pack_sequence
parse_packs-marshal_packs limits entries {text} h widths f =
    let (u, sequence, h1) = bind-eq-ok (check_sequence none entries) _ h in
    let (accepted, valids) = check_sequence-Accepted none entries tt sequence in
    let (rows, made, written) = bind-eq-ok (pack_rows entries) _ h1 in
    let same : rows ≡ map pack_fields entries =
      ok-injective (sym made ∙ pack_rows-of entries valids) in
    let spelled = ((marshal_rows_iff rows text).0 written).1 ∙ ap rows_text same in
    let walked =
      walk-rows_text pack_fields parse_pack_row advance_pack limits entries none
        (All-IsRow entries valids widths) (All-parse entries valids widths) f in
    rw spelled (rw walked (rw (accepted.compared) (rw (accepted.finished))))

-- A text that `ParsePacks` accepts is the one that `MarshalPacks` writes for its entries, so
-- `validatePackSequence` accepts them: each list of entries has one text. The numbers read have
-- their widths.
pub marshal_packs-parse_packs :
    (input : Reader) (limits : Limits) {entries : List PackEntry}
    → parse_packs input limits ≡ ok entries
    → (marshal_packs entries ≡ ok input.bytes) × All HasWidths entries
unfolding marshal_packs parse_packs walk_packs validate_pack_sequence
marshal_packs-parse_packs input limits {entries} h =
    let ((last, out), walked, h1) =
      bind-eq-ok (walk parse_pack_row advance_pack collect input limits (none, [])) _ h in
    let (u, finished, h2) = bind-eq-ok (finish_packs last) _ h1 in
    let c =
      walk-Collected pack_fields parse_pack_row advance_pack (λ row e p. (print_read row e p).0)
        input limits none walked in
    let valids = All-map (λ e p. (print_read (pack_fields e) e p).1) out c.parsed in
    let widths = All-map (λ e p. (print_read (pack_fields e) e p).2) out c.parsed in
    let (sequence, _) =
      Accepted-check_sequence none out valids
        (record { last = last; compared = c.compared; finished = finished }) in
    let written = marshal_rows-of (map pack_fields out) (All-IsRow out valids widths) in
    rw (← ok-injective h2)
      (rw sequence (rw (pack_rows-of out valids) (written ∙ ap ok (c.spelled))), widths)

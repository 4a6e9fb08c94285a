-- ===== src/Repository/StreamCatalogs/Texts.antt =====
-- validateStreamCatalogs, from the texts of the catalogs.
use mathlib.Core.Path.{subst}
use backup.Base.{
  ◌<◌, ◌≤◌, ◌^◌, ◌≡◌, ◌↔◌, refl, sym, ap, ◌∙◌, true, false, not, ◌&&◌, List, [], ◌∷◌, ◌++◌, map,
  arith, Option, none, some, Result, ok, err, err-ne-ok, bind-eq-ok, refuse_then, length,
  length-append, length-map, All, All-map,
}
use backup.Base.Bytes.{Bytes, lf, equal, less, less_trans, at_least}
use backup.Format.Rows.{Reader, Limits}
use backup.Format.Rows.Split.{row_text, rows_text, ok-injective}
use backup.Format.Tables.{walk, collect}
use backup.Format.Tables.Laws.{advance_all, walk-Collected}
use backup.Format.Index.{
  IndexEntry, index_fields, parse_index_row, advance_index, walk_index, parse_index,
  validate_index_entry, validate_index_order,
}
use backup.Format.Index.Rows.{parse_index_row-IsRead}
use backup.Format.Objects.{
  ObjectEntry, parse_objects, marshal_objects, object_rows, object_not_after, validate_object_entry,
}
use backup.Format.Objects.Laws.{marshal_objects-parse_objects}
use backup.Format.Packs.{PackEntry, parse_packs, marshal_packs, validate_pack_sequence}
use backup.Format.Packs.Laws.{marshal_packs-parse_packs}
use backup.Format.Catalogs.{store_objects, validate_catalogs}
use backup.Repository.AncestorEvents.Order.{IsByte}
use backup.Repository.StreamCatalogs.{pass_on, validate_stream_catalogs}
use backup.Repository.StreamCatalogs.Paths.{paths_of, Rising, validate_index_entry-IsLong}
use backup.Repository.StreamCatalogs.Laws.{IsWalked, validate_references-validate_catalogs}

pass_on-ok : {E A : Type 0} (r : Result E A) {a : A} → pass_on r ≡ ok a → r ≡ ok a
pass_on-ok (ok b) h = ap ok (ok-injective h)
pass_on-ok (err e) h = absurd (err-ne-ok h)

-- A row is at least its line feed.
length-rows_text : (rows : List (List Bytes)) → length rows ≤ length (rows_text rows)
length-rows_text [] = omega arith
length-rows_text (row ∷ rows) =
    omega (arith, length-append (row_text row) (lf ∷ rows_text rows), length-rows_text rows)

All-parts : (a b : Bytes) → All IsByte (a ++ b) → All IsByte a × All IsByte b
All-parts [] b h = (tt, h)
All-parts (c ∷ a) b (h, hs) = let (k, l) = All-parts a b hs in ((h, k), l)

-- The first fields of rows whose text is bytes.
paths-IsByte :
    (entries : List IndexEntry)
    → All IsByte (rows_text (map index_fields entries))
    → All (All IsByte) (paths_of entries)
unfolding index_fields
paths-IsByte [] h = tt
paths-IsByte (e ∷ es) h =
    let (row, rest) =
      All-parts (row_text (index_fields e)) (lf ∷ rows_text (map index_fields es)) h in
    ((All-parts e.path _ row).0, paths-IsByte es rest.1)

-- The paths that a walk accepts rise.
advance_all-Rising :
    (previous : Bytes) (entries : List IndexEntry) {last : Bytes}
    → All (λ e. validate_index_entry e ≡ ok tt) entries
    → advance_all advance_index previous entries ≡ ok last
    → Rising entries
      × ((equal previous [] ≡ false) → All (λ e. less previous e.path ≡ true) entries)
unfolding advance_index equal
advance_all-Rising previous [] v h = (tt, λ n. tt)
advance_all-Rising previous (e ∷ es) {last} (v, vs) h =
    let (next, step, h1) = bind-eq-ok (advance_index previous e) _ h in
    let (up, h2) = refuse_then (not (equal previous []) && at_least previous e.path) _ _ step in
    let (rising, above) =
      advance_all-Rising e.path es vs
        (subst (λ p. advance_all advance_index p es ≡ ok last) (sym (ok-injective h2)) h1) in
    let later = above (some_path e.path (validate_index_entry-IsLong e v)) in
    (
      (later, rising),
      λ n.
          let first = rises previous e.path n up in
          (first, All-map (λ f k. less_trans previous e.path f.path first k) es later),
    )
  where
    some_path : (p : Bytes) → 2 < length p → equal p [] ≡ false
    some_path [] h' = absurd (omega arith)
    some_path (c ∷ p) h' = refl

    rises :
        (p q : Bytes)
        → equal p [] ≡ false
        → (not (equal p []) && at_least p q) ≡ false
        → less p q ≡ true
    rises p q n h' = ground arith

-- What a walk over the index leaves checked.
record Walked (input : Reader) (entries : List IndexEntry) : Type 0 where
  valid : All (λ e. validate_index_entry e ≡ ok tt) entries
  rising : Rising entries
  sizes : All (λ e. e.size < 2 ^ 64) entries
  spelled : rows_text (map index_fields entries) ≡ input.bytes

walk_index-Walked :
    (input : Reader) (limits : Limits) {entries : List IndexEntry}
    → walk_index collect input limits [] ≡ ok entries
    → Walked input entries
unfolding walk_index
walk_index-Walked input limits {entries} h =
    let ((last, out), walked, h1) =
      bind-eq-ok (walk parse_index_row advance_index collect input limits ([], [])) _ h in
    let c =
      walk-Collected index_fields parse_index_row advance_index
        (λ row e p. (parse_index_row-IsRead row e p).shown) input limits [] walked in
    let reads = All-map (λ e p. parse_index_row-IsRead (index_fields e) e p) out c.parsed in
    let valid = All-map (λ e r. r.valid) out reads in
    subst (Walked input) (ok-injective h1) (record {
      valid = valid;
      rising = (advance_all-Rising [] out valid c.compared).0;
      sizes = All-map (λ e r. r.widths.size) out reads;
      spelled = c.spelled;
    })

object_rows-store_objects :
    (previous : Option ObjectEntry) (stored objects : List ObjectEntry) {rows : List (List Bytes)}
    → object_rows previous objects ≡ ok rows
    → (all : List ObjectEntry) × (store_objects previous stored objects ≡ ok all)
unfolding object_rows store_objects
object_rows-store_objects previous stored [] h = (stored, refl)
object_rows-store_objects previous stored (o ∷ os) h =
    let (_, valid, h1) = bind-eq-ok (validate_object_entry o) _ h in
    let (after, h2) = refuse_then (object_not_after previous o) _ _ h1 in
    let (_, made, _) = bind-eq-ok (object_rows (some o) os) _ h2 in
    let (all, s) = object_rows-store_objects (some o) (o ∷ stored) os made in
    (all, rw (valid, after) s)

-- The catalogs that the walks deliver.
walks-IsWalked :
    (limits : Limits) (index objects packs : Reader) {es : List IndexEntry} {os : List ObjectEntry}
    {ps : List PackEntry}
    → All IsByte index.bytes
    → length index.bytes < 2 ^ 63
    → walk_index collect index limits [] ≡ ok es
    → parse_objects objects limits ≡ ok os
    → parse_packs packs limits ≡ ok ps
    → IsWalked es os ps
unfolding marshal_objects marshal_packs
walks-IsWalked limits index objects packs {es} {os} {ps} bytes few i o p =
    let w = walk_index-Walked index limits i in
    let (written, objects') = marshal_objects-parse_objects objects limits o in
    let (_, made, _) = bind-eq-ok (object_rows none os) _ written in
    let (stored, s) = object_rows-store_objects none [] os made in
    let (packed, _) = marshal_packs-parse_packs packs limits p in
    let (_, sequence, _) = bind-eq-ok (validate_pack_sequence ps) _ packed in
    record {
      entries = w.valid;
      rising = w.rising;
      bytes = paths-IsByte es (subst (All IsByte) (sym w.spelled) bytes);
      few = omega (
        arith,
        length-rows_text (map index_fields es),
        length-map index_fields es,
        ap length w.spelled,
      );
      file_sizes = w.sizes;
      stored = stored;
      objects_stored = s;
      object_sizes = All-map (λ e k. k.size) os objects';
      packed = All-map (λ e k. k.valid) os objects';
      sequence = sequence;
    }

-- The three texts are parsed, and what was parsed is valid together.
pub record IsParsed (limits : Limits) (index objects packs : Reader) : Type 0 where
  pub entries : List IndexEntry
  pub object_entries : List ObjectEntry
  pub pack_entries : List PackEntry
  pub index_parsed : parse_index index limits ≡ ok entries
  pub objects_parsed : parse_objects objects limits ≡ ok object_entries
  pub packs_parsed : parse_packs packs limits ≡ ok pack_entries
  pub valid : validate_catalogs entries object_entries pack_entries ≡ ok tt

-- Of an index.tsv of bytes, fewer than 2^63: `validateStreamCatalogs`, which keeps no catalog in
-- memory, accepts exactly the texts that `ParseIndex`, `ParseObjects` and `ParsePacks` accept and
-- whose entries `ValidateCatalogs` accepts.
pub validate_stream_catalogs_iff :
    (limits : Limits) (index objects packs : Reader)
    → All IsByte index.bytes
    → length index.bytes < 2 ^ 63
    → (validate_stream_catalogs limits index objects packs ≡ ok tt)
      ↔ IsParsed limits index objects packs
unfolding validate_stream_catalogs parse_index validate_catalogs
validate_stream_catalogs_iff limits index objects packs bytes few = (
  λ h.
      let (es, i, h1) = bind-eq-ok (pass_on (walk_index collect index limits [])) _ h in
      let (os, o, h2) = bind-eq-ok (pass_on (parse_objects objects limits)) _ h1 in
      let (ps, p, referred) = bind-eq-ok (pass_on (parse_packs packs limits)) _ h2 in
      let i' = pass_on-ok (walk_index collect index limits []) i in
      let o' = pass_on-ok (parse_objects objects limits) o in
      let p' = pass_on-ok (parse_packs packs limits) p in
      let w = walks-IsWalked limits index objects packs bytes few i' o' p' in
      let valid = (validate_references-validate_catalogs es os ps w).0 referred in
      let (_, ordered, _) = bind-eq-ok (validate_index_order es) _ valid in
      record {
        entries = es;
        object_entries = os;
        pack_entries = ps;
        index_parsed = rw i' (rw ordered refl);
        objects_parsed = o';
        packs_parsed = p';
        valid = valid;
      },
  λ r.
      let (es, i, h1) = bind-eq-ok (walk_index collect index limits []) _ r.index_parsed in
      let (_, _, h2) = bind-eq-ok (validate_index_order es) _ h1 in
      let i' = i ∙ ap ok (ok-injective h2) in
      let w =
        walks-IsWalked limits index objects packs bytes few i' r.objects_parsed r.packs_parsed in
      let referred =
        (validate_references-validate_catalogs r.entries r.object_entries r.pack_entries w).1
          r.valid in
      rw (i', r.objects_parsed, r.packs_parsed) referred,
)

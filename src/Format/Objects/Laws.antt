-- ===== src/Format/Objects/Laws.antt =====
-- objects.tsv is read back as it was written, and has one text for each list of entries.
use backup.Base.{
  ◌^◌, ◌<◌, ◌≡◌, ◌≢◌, refl, sym, ap, ◌∙◌, false, not, ◌&&◌, List, [], ◌∷◌, map, Option, none, some,
  arith, ok, bind-eq-ok, refuse_then, All, All-map,
}
use backup.Base.Bytes.{Bytes, equal, equal_nil, at_least}
use backup.Format.Decimal.{parse_uint}
use backup.Format.Decimal.Unsigned.{parse_uint-uint_text, uint_text-parse_uint}
use backup.Format.Patterns.Fields.{blake2b-IsField, uint_text-IsField, blake2b-ne-nil}
use backup.Format.Rows.{Reader, Limits}
use backup.Format.Rows.Split.{rows_text, IsRow, ok-injective, marshal_rows-of, marshal_rows_iff}
use backup.Format.Rows.RoundTrip.{FitsLimits, reader}
use backup.Format.Tables.{walk, collect}
use backup.Format.Tables.Laws.{advance_all, walk-rows_text, walk-Collected}
use backup.Format.Objects.{
  ObjectEntry, validate_object_entry, object_row, object_not_after, object_rows, marshal_objects,
  parse_object_row, advance_object, walk_objects, parse_objects,
}

-- An entry that `validateObjectEntry` accepts, with a uint64 size.
pub record IsObject (entry : ObjectEntry) : Type 0 where
  pub valid : validate_object_entry entry ≡ ok tt
  pub size : entry.plaintext_size < 2 ^ 64

object_row-IsRow : (entry : ObjectEntry) → IsObject entry → IsRow (object_row entry)
unfolding object_row validate_object_entry
object_row-IsRow entry h =
    let v = h.valid in
    (
      blake2b-IsField entry.plaintext_hash (ground arith),
      (
        uint_text-IsField entry.plaintext_size h.size,
        (blake2b-IsField entry.pack_hash (ground arith), tt),
      ),
    )

parse_object_row-object_row :
    (entry : ObjectEntry) → IsObject entry → parse_object_row (object_row entry) ≡ ok entry
unfolding parse_object_row object_row
parse_object_row-object_row entry h =
    rw (parse_uint-uint_text entry.plaintext_size 64 h.size (omega arith)) (rw (h.valid))

print_read :
    (row : List Bytes) (entry : ObjectEntry)
    → parse_object_row row ≡ ok entry
    → (object_row entry ≡ row) × IsObject entry
unfolding parse_object_row
print_read (hash ∷ size_text ∷ pack ∷ []) entry h =
    let (size, read, h1) = bind-eq-ok (parse_uint size_text 64) _ h in
    let built : ObjectEntry = record {
      plaintext_hash = hash;
      plaintext_size = size;
      pack_hash = pack;
    } in
    let (u, valid, h2) = bind-eq-ok (validate_object_entry built) _ h1 in
    let (shown, small) = uint_text-parse_uint size_text 64 read in
    rw (← ok-injective h2) (unfold object_row in rw shown, record { valid = valid; size = small })
print_read _ entry h = cc

-- What is kept of the entry before: nothing, or its hash.
abbrev key : Option ObjectEntry → Bytes
key none = []
key (some previous) = previous.plaintext_hash

abbrev IsValid : Option ObjectEntry → Type 0
IsValid none = Unit
IsValid (some previous) = validate_object_entry previous ≡ ok tt

hash-ne-nil :
    (entry : ObjectEntry) → validate_object_entry entry ≡ ok tt → entry.plaintext_hash ≢ []
unfolding validate_object_entry
hash-ne-nil entry v = blake2b-ne-nil entry.plaintext_hash (ground arith)

-- Both loops compare an entry with the one before it alike.
same_test :
    (previous : Option ObjectEntry) (entry : ObjectEntry)
    → IsValid previous
    → (not (equal (key previous) []) && at_least (key previous) entry.plaintext_hash)
      ≡ object_not_after previous entry
unfolding object_not_after
same_test none entry v = unfold equal in refl
same_test (some previous) entry v = rw (equal_nil previous.plaintext_hash (hash-ne-nil previous v))

-- The loop of `MarshalObjects` succeeds as the comparisons of `WalkObjects` do, on valid entries.
record Ordered (previous : Option ObjectEntry) (entries : List ObjectEntry) : Type 0 where
  last : Bytes
  compared : advance_all advance_object (key previous) entries ≡ ok last

object_rows-Ordered :
    (previous : Option ObjectEntry) (entries : List ObjectEntry) {rows : List (List Bytes)}
    → IsValid previous
    → object_rows previous entries ≡ ok rows
    → (rows ≡ map object_row entries)
      × All (λ e. validate_object_entry e ≡ ok tt) entries
      × Ordered previous entries
unfolding object_rows
object_rows-Ordered previous [] v h =
    (sym (ok-injective h), tt, record { last = key previous; compared = refl })
object_rows-Ordered previous (entry ∷ entries) v h =
    let (u, valid, h1) = bind-eq-ok (validate_object_entry entry) _ h in
    let (after, h2) = refuse_then (object_not_after previous entry) _ _ h1 in
    let (rest, read, h3) = bind-eq-ok (object_rows (some entry) entries) _ h2 in
    let (same, valids, ordered) = object_rows-Ordered (some entry) entries valid read in
    let step : advance_object (key previous) entry ≡ ok (entry.plaintext_hash) =
      unfold advance_object in rw (same_test previous entry v) (rw after) in
    (
      sym (ok-injective h3) ∙ ap (λ t. object_row entry ∷ t) same,
      (valid, valids),
      record { last = ordered.last; compared = rw step ordered.compared },
    )

Ordered-object_rows :
    (previous : Option ObjectEntry) (entries : List ObjectEntry) {last : Bytes}
    → IsValid previous
    → All (λ e. validate_object_entry e ≡ ok tt) entries
    → advance_all advance_object (key previous) entries ≡ ok last
    → object_rows previous entries ≡ ok (map object_row entries)
unfolding object_rows
Ordered-object_rows previous [] v vs h = refl
Ordered-object_rows previous (entry ∷ entries) v (valid, valids) h =
    let (next, step, h1) = bind-eq-ok (advance_object (key previous) entry) _ h in
    let (after, same) = advance_object-eq-ok (key previous) entry step in
    let here = sym (same_test previous entry v) ∙ after in
    let rest = Ordered-object_rows (some entry) entries valid valids (rw same at h1) in
    rw valid (rw here (rw rest))
  where
    advance_object-eq-ok :
        (before : Bytes) (e : ObjectEntry) {next : Bytes}
        → advance_object before e ≡ ok next
        → ((not (equal before []) && at_least before e.plaintext_hash) ≡ false)
          × (next ≡ e.plaintext_hash)
    advance_object-eq-ok before e h' = unfold advance_object in (ground arith, ground arith)

All-IsObject :
    (entries : List ObjectEntry)
    → All (λ e. validate_object_entry e ≡ ok tt) entries
    → All (λ e. e.plaintext_size < 2 ^ 64) entries
    → All IsObject entries
All-IsObject [] v s = tt
All-IsObject (entry ∷ entries) (v, vs) (s, ss) =
    (record { valid = v; size = s }, All-IsObject entries vs ss)

All-IsRow : (entries : List ObjectEntry) → All IsObject entries → All IsRow (map object_row entries)
All-IsRow [] h = tt
All-IsRow (entry ∷ entries) (h, hs) = (object_row-IsRow entry h, All-IsRow entries hs)

-- Every objects.tsv that `MarshalObjects` writes, of sizes that are uint64 and within the limits of
-- the reader, `ParseObjects` reads back as the same entries.
pub parse_objects-marshal_objects :
    (limits : Limits) (entries : List ObjectEntry) {text : Bytes}
    → marshal_objects entries ≡ ok text
    → All (λ e. e.plaintext_size < 2 ^ 64) entries
    → FitsLimits limits (map object_row entries)
    → parse_objects (reader text) limits ≡ ok entries
unfolding marshal_objects parse_objects walk_objects
parse_objects-marshal_objects limits entries {text} h sizes f =
    let (rows, made, written) = bind-eq-ok (object_rows none entries) _ h in
    let (same, valids, ordered) = object_rows-Ordered none entries tt made in
    let objects = All-IsObject entries valids sizes in
    let spelled = ((marshal_rows_iff rows text).0 written).1 ∙ ap rows_text same in
    let walked =
      walk-rows_text object_row parse_object_row advance_object limits entries []
        (All-IsRow entries objects) (All-map parse_object_row-object_row entries objects) f in
    rw spelled (rw walked (rw (ordered.compared)))

-- A text that `ParseObjects` accepts is the one that `MarshalObjects` writes for its entries: each
-- list of entries has one text. The sizes read are uint64.
pub marshal_objects-parse_objects :
    (input : Reader) (limits : Limits) {entries : List ObjectEntry}
    → parse_objects input limits ≡ ok entries
    → (marshal_objects entries ≡ ok input.bytes) × All IsObject entries
unfolding marshal_objects parse_objects walk_objects
marshal_objects-parse_objects input limits {entries} h =
    let ((last, out), walked, h1) =
      bind-eq-ok (walk parse_object_row advance_object collect input limits ([], [])) _ h in
    let c =
      walk-Collected object_row parse_object_row advance_object (λ row e p. (print_read row e p).0)
        input limits [] walked in
    let same = ok-injective h1 in
    let objects = All-map (λ e p. (print_read (object_row e) e p).1) out c.parsed in
    let made = Ordered-object_rows none out tt (All-map (λ e o. o.valid) out objects) c.compared in
    let written = marshal_rows-of (map object_row out) (All-IsRow out objects) in
    rw (← same) (rw made (written ∙ ap ok (c.spelled)), objects)

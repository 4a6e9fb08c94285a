-- ===== src/Format/Index/Laws.antt =====
-- index.tsv is read back as it was written, and has one text for each list of entries.
use backup.Base.{
  ℕ, ◌≡◌, ◌≢◌, refl, sym, ap, ◌∙◌, true, List, [], ◌∷◌, map, arith, inl, inr, Bool-cases, ok,
  bind-eq-ok, All, All-map,
}
use backup.Base.Bytes.{Bytes, codes, equal, equal_iff, less, has_prefix}
use backup.Format.Decimal.{ℤ, pos, negsuc, int_text}
use backup.Format.Decimal.Signed.{IsInt64}
use backup.Format.Patterns.Fields.{uint_text-IsField}
use backup.Format.Paths.{validate_path}
use backup.Format.Paths.Components.{validate_path-IsPath}
use backup.Format.Rows.{Reader, Limits}
use backup.Format.Rows.Split.{rows_text, IsRow, ok-injective, marshal_rows-of, marshal_rows_iff}
use backup.Format.Rows.RoundTrip.{FitsLimits, reader}
use backup.Format.Rows.Canonical.{IsReadRow, NoBom, IsReadRow-IsRow}
use backup.Format.Tables.{walk, collect}
use backup.Format.Tables.Laws.{advance_all, walk-rows_text, walk-Collected}
use backup.Format.Index.{
  IndexEntry, kind_file, kind_symlink, validate_index_entry, mode_text, index_fields, index_row,
  index_rows, validate_index_order, marshal_index, parse_index_row, advance_index, walk_index,
  parse_index,
}
use backup.Format.Index.Order.{AllApart, validate_index_order-AllApart}
use backup.Format.Index.Rows.{
  IsValid, HasWidths, parse_index_row-index_fields, parse_index_row-IsRead,
}

index_rows-eq-ok :
    (entries : List IndexEntry) {rows : List (List Bytes)}
    → index_rows entries ≡ ok rows
    → (rows ≡ map index_fields entries) × All IsValid entries
unfolding index_rows index_row
index_rows-eq-ok [] h = (sym (ok-injective h), tt)
index_rows-eq-ok (entry ∷ entries) h =
    let (row, made, h1) = bind-eq-ok (index_row entry) _ h in
    let (u, valid, h2) = bind-eq-ok (validate_index_entry entry) _ made in
    let (rows, later, h3) = bind-eq-ok (index_rows entries) _ h1 in
    let (same, valids) = index_rows-eq-ok entries later in
    let row_is : index_fields entry ≡ row = ok-injective h2 in
    (sym (ok-injective h3) ∙ rw (← row_is) (ap (◌∷◌ (index_fields entry)) same), (valid, valids))

index_rows-of :
    (entries : List IndexEntry)
    → All IsValid entries
    → index_rows entries ≡ ok (map index_fields entries)
unfolding index_rows index_row
index_rows-of [] v = refl
index_rows-of (entry ∷ entries) (v, vs) = rw v (rw (index_rows-of entries vs))

-- How a walk ends that accepts sorted entries.
record Sorted (previous : Bytes) (entries : List IndexEntry) : Type 0 where
  last : Bytes
  compared : advance_all advance_index previous entries ≡ ok last

advance_index-less :
    (previous : Bytes) (entry : IndexEntry)
    → less previous entry.path ≡ true
    → advance_index previous entry ≡ ok (entry.path)
unfolding advance_index
advance_index-less previous entry l = ground arith

AllApart-Sorted :
    (entries : List IndexEntry) (previous : Bytes)
    → All (λ e. less previous e.path ≡ true) entries
    → AllApart entries
    → Sorted previous entries
AllApart-Sorted [] previous l a = record { last = previous; compared = refl }
AllApart-Sorted (entry ∷ entries) previous (l, ls) (first, apart) =
    let rest = AllApart-Sorted entries entry.path (All-map (λ e p. p.sorted) entries first) apart in
    record { last = rest.last; compared = rw (advance_index-less previous entry l) rest.compared }

AllApart-Sorted_first : (entries : List IndexEntry) → AllApart entries → Sorted [] entries
AllApart-Sorted_first [] a = record { last = []; compared = refl }
AllApart-Sorted_first (entry ∷ entries) (first, apart) =
    let rest = AllApart-Sorted entries entry.path (All-map (λ e p. p.sorted) entries first) apart in
    let start : advance_index [] entry ≡ ok (entry.path) = unfold advance_index equal in refl in
    record { last = rest.last; compared = rw start rest.compared }

All-parse :
    (entries : List IndexEntry)
    → All IsValid entries
    → All HasWidths entries
    → All (λ e. parse_index_row (index_fields e) ≡ ok e) entries
All-parse [] v w = tt
All-parse (entry ∷ entries) (v, vs) (w, ws) =
    (parse_index_row-index_fields entry v w, All-parse entries vs ws)

-- Every index.tsv that `MarshalIndex` writes, of uint64 sizes and int64 times and within the limits
-- of the reader, `ParseIndex` reads back as the same entries.
pub parse_index-marshal_index :
    (limits : Limits) (entries : List IndexEntry) {text : Bytes}
    → marshal_index entries ≡ ok text
    → All HasWidths entries
    → FitsLimits limits (map index_fields entries)
    → parse_index (reader text) limits ≡ ok entries
unfolding marshal_index parse_index walk_index
parse_index-marshal_index limits entries {text} h widths f =
    let (rows, made, h1) = bind-eq-ok (index_rows entries) _ h in
    let (u, ordered, written) = bind-eq-ok (validate_index_order entries) _ h1 in
    let (same, valids) = index_rows-eq-ok entries made in
    let (all, spelled) = (marshal_rows_iff rows text).0 written in
    let sorted =
      AllApart-Sorted_first entries ((validate_index_order-AllApart entries).0 ordered) in
    let walked =
      walk-rows_text index_fields parse_index_row advance_index limits entries [] (rw same at all)
        (All-parse entries valids widths) f in
    rw (spelled ∙ ap rows_text same) (rw walked (rw (sorted.compared) (rw ordered)))

ref-NoBom :
    (ref : Bytes) (c : ℕ) (rest : Bytes) → c ≢ 0xef → has_prefix ref (c ∷ rest) ≡ true → NoBom ref
unfolding has_prefix
ref-NoBom [] c rest n h = cc
ref-NoBom (x ∷ ref) c rest n h = ground arith

int_text-NoBom : (i : ℤ) → IsInt64 i → NoBom (int_text i)
unfolding int_text
int_text-NoBom (pos n) h = (uint_text-IsField n (omega arith)).no_bom
int_text-NoBom (negsuc n) h = unfold has_prefix in refl

mode_text-NoBom : (mode : ℕ) → NoBom (mode_text mode)
unfolding mode_text has_prefix
mode_text-NoBom mode = ground arith

path-NoBom : (entry : IndexEntry) → IsValid entry → NoBom entry.path
unfolding validate_index_entry
path-NoBom entry v =
    let (u, valid, h) = bind-eq-ok (validate_path entry.path) _ v in
    (validate_path-IsPath entry.path valid).field.no_bom

kind-NoBom : (entry : IndexEntry) → IsValid entry → NoBom entry.kind × NoBom entry.ref
unfolding validate_index_entry
kind-NoBom entry v = elim (Bool-cases (equal entry.kind kind_file)) [
  | inl k ↦ (
    rw ((equal_iff entry.kind kind_file).0 k) (unfold has_prefix in refl),
    ref-NoBom entry.ref b'b' (codes "lake2b:") (omega arith) (ground arith),
  )
  | inr k ↦
      let l : equal entry.kind kind_symlink ≡ true = ground arith in
      (
        rw ((equal_iff entry.kind kind_symlink).0 l) (unfold has_prefix in refl),
        ref-NoBom entry.ref b't' (codes "arget:") (omega arith) (ground arith),
      )
]

index_fields-NoBom :
    (entry : IndexEntry) → IsValid entry → HasWidths entry → All NoBom (index_fields entry)
unfolding index_fields
index_fields-NoBom entry v w =
    let p = path-NoBom entry v in
    let (k, t) = kind-NoBom entry v in
    let s = (uint_text-IsField entry.size w.size).no_bom in
    let i = int_text-NoBom entry.mtime_ns w.mtime_ns in
    elim (Bool-cases (equal entry.kind kind_symlink)) [
      | inl link ↦ rw link (p, (k, (t, unfold has_prefix in (refl, (refl, (refl, tt))))))
      | inr file ↦ rw file (p, (k, (t, (s, (mode_text-NoBom entry.mode, (i, tt))))))
    ]

All-IsRow :
    (entries : List IndexEntry)
    → All IsReadRow (map index_fields entries)
    → All IsValid entries
    → All HasWidths entries
    → All IsRow (map index_fields entries)
All-IsRow [] r v w = tt
All-IsRow (entry ∷ entries) (r, rs) (v, vs) (w, ws) = (
  IsReadRow-IsRow (index_fields entry) r (index_fields-NoBom entry v w),
  All-IsRow entries rs vs ws,
)

-- A text that `ParseIndex` accepts is the one that `MarshalIndex` writes for its entries: each list
-- of entries has one text. The sizes read are uint64 and the times int64.
pub marshal_index-parse_index :
    (input : Reader) (limits : Limits) {entries : List IndexEntry}
    → parse_index input limits ≡ ok entries
    → (marshal_index entries ≡ ok input.bytes) × All HasWidths entries
unfolding marshal_index parse_index walk_index
marshal_index-parse_index input limits {entries} h =
    let (found, walked_all, h1) = bind-eq-ok (walk_index collect input limits []) _ h in
    let ((last, out), walked, h2) =
      bind-eq-ok (walk parse_index_row advance_index collect input limits ([], [])) _ walked_all in
    let (u, ordered, h3) = bind-eq-ok (validate_index_order found) _ h1 in
    let same : out ≡ entries = ok-injective h2 ∙ ok-injective h3 in
    let c =
      walk-Collected index_fields parse_index_row advance_index
        (λ row e p. (parse_index_row-IsRead row e p).shown) input limits [] walked in
    let reads = All-map (λ e p. parse_index_row-IsRead (index_fields e) e p) out c.parsed in
    let valids = All-map (λ e r. r.valid) out reads in
    let widths = All-map (λ e r. r.widths) out reads in
    let order : validate_index_order out ≡ ok tt = rw (ok-injective h2) ordered in
    let written = marshal_rows-of (map index_fields out) (All-IsRow out c.read valids widths) in
    rw (← same) (rw (index_rows-of out valids) (rw order (written ∙ ap ok (c.spelled))), widths)

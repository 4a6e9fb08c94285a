-- ===== src/Format/Tables/Laws.antt =====
-- Walking a table, for any type of entry whose rows are read back.
use backup.Base.{
  ℕ, ◌+◌, ◌≡◌, refl, sym, ap, ap₂, ◌∙◌, List, [], ◌∷◌, ◌++◌, map, append-nil, append_assoc, Result,
  ok, ◌>>=◌, bind-eq-ok, Result-cases, All, inl, inr,
}
use backup.Base.Bytes.{Bytes}
use backup.Format.Errors.{Error}
use backup.Format.Rows.{Reader, Limits}
use backup.Format.Rows.Split.{rows_text, IsRow, ok-injective}
use backup.Format.Rows.RoundTrip.{FitsLimits, reader, visit_rows, scan_rows-rows_text}
use backup.Format.Rows.Canonical.{IsReadRow, scan_rows-Visited}
use backup.Format.Tables.{visit_entry, walk, collect}

module _ {E P : Type 0} (advance : P → E → Result Error P) where
  -- The comparisons of entries, one after the other.
  abbrev pub advance_all : P → List E → Result Error P
  advance_all p [] = ok p
  advance_all p (entry ∷ entries) = do p' ← advance p entry; advance_all p' entries

module _ {E P : Type 0} (row_of : E → List Bytes) (parse_row : List Bytes → Result Error E)
    (advance : P → E → Result Error P) where
  visit_rows-entries :
      (entries done : List E) (seen : ℕ) (p : P)
      → All (λ e. parse_row (row_of e) ≡ ok e) entries
      → visit_rows (visit_entry parse_row advance collect) seen (map row_of entries) (p, done)
        ≡ (advance_all advance p entries >>= λ p'. ok (p', done ++ entries))
  unfolding visit_entry collect
  visit_rows-entries [] done seen p h = rw (append-nil done)
  visit_rows-entries (entry ∷ entries) done seen p (h, hs) = elim (Result-cases (advance p entry)) [
    | inl (p', e) ↦ rw h (
        rw e (
          visit_rows-entries entries (done ++ entry ∷ []) (seen + 1) p' hs
          ∙ rw (append_assoc done (entry ∷ []) entries)))
    | inr (why, e) ↦ rw h (rw e)
  ]

  -- Walking the text of the rows of entries compares these entries, and collects them.
  pub walk-rows_text :
      (limits : Limits) (entries : List E) (p : P)
      → All IsRow (map row_of entries)
      → All (λ e. parse_row (row_of e) ≡ ok e) entries
      → FitsLimits limits (map row_of entries)
      → walk parse_row advance collect (reader (rows_text (map row_of entries))) limits (p, [])
        ≡ (advance_all advance p entries >>= λ p'. ok (p', entries))
  unfolding walk
  walk-rows_text limits entries p rs hs f =
      scan_rows-rows_text (visit_entry parse_row advance collect) limits (map row_of entries)
        (p, []) rs f
      ∙ visit_rows-entries entries [] 0 p hs

  -- What a walk collects is parsed from the rows of the text.
  pub record Collected (text : Bytes) (p p' : P) (entries : List E) : Type 0 where
    pub spelled : rows_text (map row_of entries) ≡ text
    pub read : All IsReadRow (map row_of entries)
    pub parsed : All (λ e. parse_row (row_of e) ≡ ok e) entries
    pub compared : advance_all advance p entries ≡ ok p'

  -- What a walk has visited of a list of rows.
  record Walked (rows : List (List Bytes)) (p p' : P) (done out : List E) : Type 0 where
    entries : List E
    rows_are : map row_of entries ≡ rows
    parsed : All (λ e. parse_row (row_of e) ≡ ok e) entries
    compared : advance_all advance p entries ≡ ok p'
    out_is : out ≡ done ++ entries

  visit_entry-eq-ok :
      (p : P) (done : List E) (seen : ℕ) (row : List Bytes) (mid : P × List E)
      → visit_entry parse_row advance collect (p, done) seen row ≡ ok mid
      → (e : E) × (parse_row row ≡ ok e) × (advance p e ≡ ok (mid.0)) × (mid.1 ≡ done ++ e ∷ [])
  unfolding visit_entry collect
  visit_entry-eq-ok p done seen row mid h =
      let (e, parsed, h1) = bind-eq-ok (parse_row row) _ h in
      let (p', advanced, h2) = bind-eq-ok (advance p e) _ h1 in
      let same = ok-injective h2 in
      (e, parsed, advanced ∙ ap (λ t. ok (t.0)) same, ap (λ t. t.1) (sym same))

  module _ (print_read : (row : List Bytes) (e : E) → parse_row row ≡ ok e → row_of e ≡ row) where
    visit_rows-Walked :
        (rows : List (List Bytes)) (seen : ℕ) (p : P) (done : List E) {p' : P} {out : List E}
        → visit_rows (visit_entry parse_row advance collect) seen rows (p, done) ≡ ok (p', out)
        → Walked rows p p' done out
    visit_rows-Walked [] seen p done {p'} {out} h =
        let same = ok-injective h in
        record {
          entries = [];
          rows_are = refl;
          parsed = tt;
          compared = ap (λ t. ok (t.0)) same;
          out_is = ap (λ t. t.1) (sym same) ∙ sym (append-nil done);
        }
    visit_rows-Walked (row ∷ rows) seen p done {p'} {out} h =
        let (mid, v, h1) =
          bind-eq-ok (visit_entry parse_row advance collect (p, done) (seen + 1) row) _ h in
        let (entry, parsed, advanced, grown) = visit_entry-eq-ok p done (seen + 1) row mid v in
        let rest = visit_rows-Walked rows (seen + 1) mid.0 mid.1 h1 in
        let same = print_read row entry parsed in
        record {
          entries = entry ∷ rest.entries;
          rows_are = ap₂ (λ x xs. x ∷ xs) same rest.rows_are;
          parsed = (rw same parsed, rest.parsed);
          compared = rw advanced rest.compared;
          out_is = rest.out_is ∙ rw grown (append_assoc done (entry ∷ []) rest.entries);
        }

    -- Whatever a walk accepts is, byte for byte, the text of the rows of what it collects.
    pub walk-Collected :
        (input : Reader) (limits : Limits) (p : P) {p' : P} {entries : List E}
        → walk parse_row advance collect input limits (p, []) ≡ ok (p', entries)
        → Collected input.bytes p p' entries
    unfolding walk
    walk-Collected input limits p {p'} {entries} h =
        let v = scan_rows-Visited (visit_entry parse_row advance collect) input limits (p, []) h in
        let w = visit_rows-Walked v.rows 0 p [] v.visits in
        let same : w.entries ≡ entries = sym (w.out_is) in
        rw (← same) (record {
          spelled = rw (w.rows_are) (v.spelled);
          read = rw (w.rows_are) (v.read);
          parsed = w.parsed;
          compared = w.compared;
        })

-- ===== src/Format/Rows/RoundTrip.antt =====
-- Reading the text of rows gives the rows, under limits that they keep.
use backup.Base.{
  ℕ, ◌+◌, ◌≤◌, ◌<◌, ◌≡◌, ◌≢◌, refl, ap, ◌∙◌, true, false, List, [], ◌∷◌, ◌++◌, map, append-nil,
  append_assoc, arith, ltb, ◌==◌, length, length-append, All, All-map, take_all, last_or, Result,
  ok, err, ◌>>=◌,
}
use backup.Base.Bytes.{
  Bytes, tab, lf, cr, Lacks, contains, contains-append, has_prefix, contains-Lacks,
}
use backup.Format.Errors.{Error}
use backup.Format.Utf8.{utf8_valid, utf8_valid_cut}
use backup.Format.Rows.{
  Limits, validate_limits, Reader, over, push, scan_lines, split_fields, bom, check_fields,
  check_line, visit_lines, scan_rows, append_row, read_rows, marshal_rows,
}
use backup.Format.Rows.Split.{
  tail_text, row_text, rows_text, IsField, IsRow, split_fields-row_text, scan_lines-append,
  marshal_rows_iff,
}

-- A row whose line and fields keep the limits.
pub record FitsRow (limits : Limits) (row : List Bytes) : Type 0 where
  pub line : length (row_text row) ≤ limits.max_line_bytes
  pub fields : All (λ field. length field ≤ limits.max_field_bytes) row

pub record FitsLimits (limits : Limits) (rows : List (List Bytes)) : Type 0 where
  pub positive : validate_limits limits ≡ ok tt
  pub each : All (FitsRow limits) rows
  pub count : length rows ≤ limits.max_records
  pub size : length (rows_text rows) ≤ limits.max_file_bytes

-- A reader that delivers these bytes and then ends.
abbrev pub reader : Bytes → Reader
reader text = record { bytes = text; fails = false }

tail_text-contains :
    (b : ℕ) (fields : List Bytes)
    → b ≢ tab
    → All (λ field. contains b field ≡ false) fields
    → contains b (tail_text fields) ≡ false
unfolding contains
tail_text-contains b [] n h = refl
tail_text-contains b (field ∷ fields) n (h, hs) =
    let cut = contains-append b field (tail_text fields) in
    let rest = tail_text-contains b fields n hs in ground arith

row_text-contains :
    (b : ℕ) (row : List Bytes)
    → b ≢ tab
    → All (λ field. contains b field ≡ false) row
    → contains b (row_text row) ≡ false
row_text-contains b [] n h = unfold contains in refl
row_text-contains b (field ∷ fields) n (h, hs) =
    let cut = contains-append b field (tail_text fields) in
    let rest = tail_text-contains b fields n hs in ground arith

row_text-utf8_valid :
    (field : Bytes) (fields : List Bytes)
    → utf8_valid field ≡ true
    → All (λ f. utf8_valid f ≡ true) fields
    → utf8_valid (row_text (field ∷ fields)) ≡ true
row_text-utf8_valid field [] h hs = rw (append-nil field) h
row_text-utf8_valid field (next ∷ fields) h (k, ks) =
    utf8_valid_cut field tab (row_text (next ∷ fields)) (omega arith)
    ∙ rw (h, row_text-utf8_valid next fields k ks)

-- No field but the first decides whether a line begins with a byte order mark.
has_prefix-bom :
    (field : Bytes) (fields : List Bytes)
    → has_prefix field bom ≡ false
    → has_prefix (row_text (field ∷ fields)) bom ≡ false
unfolding has_prefix
has_prefix-bom [] [] h = refl
has_prefix-bom [] (next ∷ fields) h = refl
has_prefix-bom (x ∷ []) [] h = ground arith
has_prefix-bom (x ∷ []) (next ∷ fields) h = ground arith
has_prefix-bom (x ∷ y ∷ []) [] h = ground arith
has_prefix-bom (x ∷ y ∷ []) (next ∷ fields) h = ground arith
has_prefix-bom (x ∷ y ∷ z ∷ field) fields h = ground arith

check_fields-ok :
    (limits : Limits) (fields : List Bytes)
    → All IsField fields
    → All (λ field. length field ≤ limits.max_field_bytes) fields
    → check_fields limits fields ≡ ok tt
unfolding check_fields
check_fields-ok limits [] h l = refl
check_fields-ok limits (field ∷ fields) (h, hs) (l, ls) =
    let nonempty = h.clean.nonempty in
    let rest = check_fields-ok limits fields hs ls in ground arith

-- The checks of a line, one fact for each.
check_line-of :
    (limits : Limits) (seen : ℕ) (line : Bytes) (fields : List Bytes)
    → length line ≤ limits.max_line_bytes
    → seen < limits.max_records
    → utf8_valid line ≡ true
    → has_prefix line bom ≡ false
    → (length line == 0) ≡ false
    → contains 0 line ≡ false
    → contains cr line ≡ false
    → split_fields line ≡ fields
    → check_fields limits fields ≡ ok tt
    → check_line limits seen line ≡ ok fields
unfolding check_line
check_line-of limits seen line fields l s v m n z r split c = ground arith

bind-ok {ℓ} : {E : Type 0} {A : Type ℓ} (r : Result E A) → (r >>= λ a. ok a) ≡ r
bind-ok (ok a) = refl
bind-ok (err e) = refl

over_false : {a b : ℕ} → b ≤ a → ltb a b ≡ false
over_false h = ground arith

length-row_text :
    (field : Bytes) (fields : List Bytes)
    → (length field == 0) ≡ false
    → (length (row_text (field ∷ fields)) == 0) ≡ false
length-row_text field fields h = let sum = length-append field (tail_text fields) in ground arith

-- The line of a row passes every check of `scanRows`, and its fields are the row's.
check_line-row_text :
    (limits : Limits) (seen : ℕ) (row : List Bytes)
    → IsRow row
    → FitsRow limits row
    → seen < limits.max_records
    → check_line limits seen (row_text row) ≡ ok row
check_line-row_text limits seen [] r f s = absurd r
check_line-row_text limits seen (field ∷ fields) (r, rs) f s =
    let all : All IsField (field ∷ fields) = (r, rs) in
    let split =
      split_fields-row_text field fields (contains-Lacks tab field r.clean.no_tab)
        (All-map (λ g h. contains-Lacks tab g h.clean.no_tab) fields rs) in
    let valid =
      row_text-utf8_valid field fields r.clean.valid (All-map (λ g h. h.clean.valid) fields rs) in
    let mark = has_prefix-bom field fields r.no_bom in
    let filled = length-row_text field fields r.clean.nonempty in
    let nul =
      row_text-contains 0 (field ∷ fields) (omega arith)
        (All-map (λ g h. h.clean.no_nul) (field ∷ fields) all) in
    let return =
      row_text-contains cr (field ∷ fields) (omega arith)
        (All-map (λ g h. h.clean.no_cr) (field ∷ fields) all) in
    let checked = check_fields-ok limits (field ∷ fields) all f.fields in
    check_line-of limits seen (row_text (field ∷ fields)) (field ∷ fields) f.line s valid mark
      filled nul return split checked

pub row_text-Lacks-lf : (row : List Bytes) → IsRow row → Lacks lf (row_text row)
row_text-Lacks-lf [] h = tt
row_text-Lacks-lf (field ∷ fields) (h, hs) = contains-Lacks lf (row_text (field ∷ fields)) (
    row_text-contains lf (field ∷ fields) (omega arith)
      (h.clean.no_lf, All-map (λ g k. k.clean.no_lf) fields hs))

-- The lines of the text of rows are the texts of the rows.
scan_lines-rows_text :
    (max : ℕ) (rows : List (List Bytes))
    → All IsRow rows
    → All (λ row. length (row_text row) ≤ max) rows
    → scan_lines max [] (rows_text rows) ≡ record { lines = map row_text rows; too_long = false }
scan_lines-rows_text max [] h l = unfold scan_lines in refl
scan_lines-rows_text max (row ∷ rows) (h, hs) (l, ls) =
    scan_lines-append (row_text row) max [] (rows_text rows) (row_text-Lacks-lf row h)
      (omega (arith, l))
    ∙ ap (push (row_text row)) (scan_lines-rows_text max rows hs ls)

last_or-append : (d : ℕ) (a : Bytes) (c : ℕ) (b : Bytes) → last_or d (a ++ c ∷ b) ≡ last_or c b
last_or-append d [] c b = refl
last_or-append d (x ∷ a) c b = last_or-append x a c b

last_or-rows_text : (rows : List (List Bytes)) → last_or lf (rows_text rows) ≡ lf
last_or-rows_text [] = refl
last_or-rows_text (row ∷ rows) =
    last_or-append lf (row_text row) lf (rows_text rows) ∙ last_or-rows_text rows

module _ {S : Type 0} (visit : S → ℕ → List Bytes → Result Error S) where
  -- The visits of rows, one after the other.
  abbrev pub visit_rows : ℕ → List (List Bytes) → S → Result Error S
  visit_rows seen [] s = ok s
  visit_rows seen (row ∷ rows) s = do s' ← visit s (seen + 1) row; visit_rows (seen + 1) rows s'

  visit_lines-rows :
      (limits : Limits) (seen : ℕ) (rows : List (List Bytes)) (s : S)
      → All IsRow rows
      → All (FitsRow limits) rows
      → seen + length rows ≤ limits.max_records
      → visit_lines visit limits seen (map row_text rows) s ≡ visit_rows seen rows s
  unfolding visit_lines
  visit_lines-rows limits seen [] s h f n = refl
  visit_lines-rows limits seen (row ∷ rows) s (h, hs) (f, fs) n =
      rw (check_line-row_text limits seen row h f (omega arith)) (λ i.
        visit s (seen + 1) row >>= λ s'.
        visit_lines-rows limits (seen + 1) rows s' hs fs (omega arith) i)

  -- `scanRows` on the text of acceptable rows makes exactly the visits of these rows, in order.
  pub scan_rows-rows_text :
      (limits : Limits) (rows : List (List Bytes)) (s : S)
      → All IsRow rows
      → FitsLimits limits rows
      → scan_rows visit (reader (rows_text rows)) limits s ≡ visit_rows 0 rows s
  unfolding scan_rows
  scan_rows-rows_text limits rows s h f =
      let whole = take_all limits.max_file_bytes (rows_text rows) f.size in
      let scanned =
        scan_lines-rows_text limits.max_line_bytes rows h (All-map (λ row g. g.line) rows f.each) in
      let visits = visit_lines-rows limits 0 rows s h f.each (omega (arith, f.count)) in
      let bounded : over limits (reader (rows_text rows)) ≡ false = over_false f.size in
      let ended : (last_or lf (rows_text rows) == lf) ≡ true = rw (last_or-rows_text rows) refl in
      rw (f.positive, whole, scanned, visits, bounded, ended) (bind-ok (visit_rows 0 rows s))

pub append_row-visit_rows :
    (seen : ℕ) (rows done : List (List Bytes))
    → visit_rows append_row seen rows done ≡ ok (done ++ rows)
unfolding append_row
append_row-visit_rows seen [] done = rw (append-nil done)
append_row-visit_rows seen (row ∷ rows) done =
    append_row-visit_rows (seen + 1) rows (done ++ row ∷ [])
    ∙ rw (append_assoc done (row ∷ []) rows)

-- What `marshalRows` writes, `readRows` reads back, where the rows keep the limits.
pub read_rows-marshal_rows :
    (limits : Limits) (rows : List (List Bytes)) {text : Bytes}
    → marshal_rows rows ≡ ok text
    → FitsLimits limits rows
    → read_rows (reader text) limits ≡ ok rows
unfolding read_rows
read_rows-marshal_rows limits rows {text} h f =
    let (rs, e) = (marshal_rows_iff rows text).0 h in
    rw e (scan_rows-rows_text append_row limits rows [] rs f ∙ append_row-visit_rows 0 rows [])

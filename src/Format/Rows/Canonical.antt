-- ===== src/Format/Rows/Canonical.antt =====
-- What `scanRows` accepts is the text of the rows that it visits, byte for byte.
use backup.Base.{
  ℕ, ◌+◌, ◌≤◌, ◌≡◌, refl, sym, ap, ◌∙◌, Bool, true, false, List, [], ◌∷◌, append-nil, arith, ltb,
  ◌==◌, length, All, take_all, last_or, Result, ok, bind-eq-ok, refuse_then, and_true,
}
use backup.Base.Bytes.{Bytes, tab, lf, cr, Lacks, contains, has_prefix, Lacks-contains}
use backup.Format.Errors.{Error}
use backup.Format.Utf8.{utf8_valid, utf8_valid_cut}
use backup.Format.Rows.{
  Limits, validate_limits, Reader, delivered, over, scan_lines, split_fields, bom, check_fields,
  check_line, visit_lines, check_end, scan_rows, append_row, read_rows,
}
use backup.Format.Rows.Split.{
  row_text, rows_text, IsClean, IsField, IsRow, ok-injective, split_fields-ne-nil,
  row_text-split_fields,
}
use backup.Format.Rows.RoundTrip.{visit_rows, append_row-visit_rows}
use backup.Format.Rows.Lines.{
  lines_text, Ends, lines_text-scan_lines, scan_lines-Lacks, split_fields-Lacks, contains_parts,
}

-- What is known of a field before its length is checked.
fields_clean :
    (limits : Limits) (field : Bytes) (fields : List Bytes)
    → utf8_valid (row_text (field ∷ fields)) ≡ true
    → contains 0 (row_text (field ∷ fields)) ≡ false
    → contains cr (row_text (field ∷ fields)) ≡ false
    → contains lf (row_text (field ∷ fields)) ≡ false
    → All (Lacks tab) (field ∷ fields)
    → check_fields limits (field ∷ fields) ≡ ok tt
    → All IsClean (field ∷ fields)
unfolding check_fields
fields_clean limits field [] v z r l (t, ts) c =
    let same = append-nil field in
    let no_tab = Lacks-contains tab field t in
    (
      record {
        nonempty = ground arith;
        valid = rw same at v;
        no_nul = rw same at z;
        no_tab = no_tab;
        no_cr = rw same at r;
        no_lf = rw same at l;
      },
      tt,
    )
fields_clean limits field (next ∷ fields) v z r l (t, ts) c =
    let both =
      and_true (utf8_valid field) (utf8_valid (row_text (next ∷ fields)))
        (sym (utf8_valid_cut field tab (row_text (next ∷ fields)) (omega arith)) ∙ v) in
    let z' = contains_parts 0 field (row_text (next ∷ fields)) z in
    let r' = contains_parts cr field (row_text (next ∷ fields)) r in
    let l' = contains_parts lf field (row_text (next ∷ fields)) l in
    let (filled, c1) = refuse_then _ _ _ c in
    let (short, c2) = refuse_then _ _ _ c1 in
    (
      record {
        nonempty = filled;
        valid = both.0;
        no_nul = z'.0;
        no_tab = Lacks-contains tab field t;
        no_cr = r'.0;
        no_lf = l'.0;
      },
      fields_clean limits next fields both.1 z'.1 r'.1 l'.1 ts c2,
    )

-- The checks of a line that is accepted.
record Checked (limits : Limits) (line : Bytes) (fields : List Bytes) : Type 0 where
  split : fields ≡ split_fields line
  valid : utf8_valid line ≡ true
  no_nul : contains 0 line ≡ false
  no_cr : contains cr line ≡ false
  filled : check_fields limits (split_fields line) ≡ ok tt

check_line-Checked :
    (limits : Limits) (seen : ℕ) (line : Bytes) {fields : List Bytes}
    → check_line limits seen line ≡ ok fields
    → Checked limits line fields
unfolding check_line
check_line-Checked limits seen line {fields} h = record {
  split = ground arith;
  valid = ground arith;
  no_nul = ground arith;
  no_cr = ground arith;
  filled = ground arith;
}

abbrev pub IsReadRow : List Bytes → Type 0
IsReadRow [] = ⊥
IsReadRow (field ∷ fields) = All IsClean (field ∷ fields)

-- The fields of an accepted line are clean, and spell it.
fields-IsReadRow :
    (limits : Limits) (line : Bytes) (fields : List Bytes)
    → Lacks lf line
    → Checked limits line fields
    → IsReadRow fields × (row_text fields ≡ line)
fields-IsReadRow limits line [] n c = absurd (split_fields-ne-nil line (sym c.split))
fields-IsReadRow limits line (field ∷ fields) n c =
    let text : row_text (field ∷ fields) ≡ line =
      ap row_text c.split ∙ row_text-split_fields line in
    let seps = rw (← c.split) at (split_fields-Lacks line) in
    let filled = rw (← c.split) at (c.filled) in
    (
      fields_clean limits field fields (rw text c.valid) (rw text c.no_nul) (rw text c.no_cr)
          (rw text (Lacks-contains lf line n)) seps filled,
      text,
    )

pub check_end-eq-ok :
    (a b c d : Bool) {u : Unit {0}}
    → check_end a b c d ≡ ok u
    → (a ≡ false) × (b ≡ false) × (d ≡ true)
unfolding check_end
check_end-eq-ok a b c d h = ground arith

pub le_of_over : {a b : ℕ} → ltb a b ≡ false → b ≤ a
le_of_over h = ground arith

pub Ends-last : (s : Bytes) → (last_or lf s == lf) ≡ true → Ends [] s
Ends-last [] h = refl
Ends-last (c ∷ s) h = ground arith

module _ {S : Type 0} (visit : S → ℕ → List Bytes → Result Error S) where
  -- Rows that the accepted lines spell, and that the visitor was called on, one after the other.
  pub record Visited (seen : ℕ) (text : Bytes) (s s' : S) : Type 0 where
    pub rows : List (List Bytes)
    pub spelled : rows_text rows ≡ text
    pub read : All IsReadRow rows
    pub visits : visit_rows visit seen rows s ≡ ok s'

  visit_lines-Visited :
      (limits : Limits) (lines : List Bytes) (seen : ℕ) (s : S) {s' : S}
      → All (Lacks lf) lines
      → visit_lines visit limits seen lines s ≡ ok s'
      → Visited seen (lines_text lines) s s'
  unfolding visit_lines
  visit_lines-Visited limits [] seen s n h = record {
    rows = [];
    spelled = refl;
    read = tt;
    visits = h;
  }
  visit_lines-Visited limits (line ∷ lines) seen s (n, ns) h =
      let (fields, c, h1) = bind-eq-ok (check_line limits seen line) _ h in
      let (mid, v, h2) = bind-eq-ok (visit s (seen + 1) fields) _ h1 in
      let (clean, text) =
        fields-IsReadRow limits line fields n (check_line-Checked limits seen line c) in
      let rest = visit_lines-Visited limits lines (seen + 1) mid ns h2 in
      record {
        rows = fields ∷ rest.rows;
        spelled = rw (text, rest.spelled);
        read = (clean, rest.read);
        visits = rw v rest.visits;
      }

  -- What `scanRows` accepts is, byte for byte, the text of the rows that it visits.
  pub scan_rows-Visited :
      (input : Reader) (limits : Limits) (s : S) {s' : S}
      → scan_rows visit input limits s ≡ ok s'
      → Visited 0 input.bytes s s'
  unfolding scan_rows
  scan_rows-Visited input limits s {s'} h =
      let text = delivered limits input in
      let (u, valid, h1) = bind-eq-ok (validate_limits limits) _ h in
      let (mid, v, h2) =
        bind-eq-ok (visit_lines visit limits 0 (scan_lines limits.max_line_bytes [] text).lines s) _
          h1 in
      let (u', c, h3) = bind-eq-ok (check_end _ (over limits input) input.fails _) _ h2 in
      let (fits, bounded, ended) = check_end-eq-ok _ _ _ _ c in
      let all = take_all limits.max_file_bytes input.bytes (le_of_over bounded) in
      let lines = lines_text-scan_lines text limits.max_line_bytes [] (Ends-last text ended) fits in
      let visited =
        visit_lines-Visited limits _ 0 s (scan_lines-Lacks text limits.max_line_bytes [] tt) v in
      record {
        rows = visited.rows;
        spelled = visited.spelled ∙ lines ∙ all;
        read = visited.read;
        visits = visited.visits ∙ h3;
      }

-- What `readRows` accepts is no longer than the limit on a file.
pub length-read_rows :
    (input : Reader) (limits : Limits) {rows : List (List Bytes)}
    → read_rows input limits ≡ ok rows
    → length input.bytes ≤ limits.max_file_bytes
unfolding read_rows scan_rows
length-read_rows input limits h =
    let (u, valid, h1) = bind-eq-ok (validate_limits limits) _ h in
    let (mid, v, h2) = bind-eq-ok (visit_lines append_row limits 0 _ []) _ h1 in
    let (u', c, h3) = bind-eq-ok (check_end _ (over limits input) input.fails _) _ h2 in
    let (fits, bounded, ended) = check_end-eq-ok _ _ _ _ c in le_of_over bounded

-- What `readRows` accepts is the text of the rows that it returns: no other text has them.
pub rows_text-read_rows :
    (input : Reader) (limits : Limits) {rows : List (List Bytes)}
    → read_rows input limits ≡ ok rows
    → (rows_text rows ≡ input.bytes) × All IsReadRow rows
unfolding read_rows
rows_text-read_rows input limits {rows} h =
    let v = scan_rows-Visited append_row input limits [] h in
    let same : v.rows ≡ rows = ok-injective (sym (append_row-visit_rows 0 v.rows []) ∙ v.visits) in
    (rw (← same) (v.spelled), rw (← same) (v.read))

abbrev pub NoBom : Bytes → Type 0
NoBom field = has_prefix field bom ≡ false

fields-All : (fields : List Bytes) → All IsClean fields → All NoBom fields → All IsField fields
fields-All [] c n = tt
fields-All (field ∷ fields) (c, cs) (n, ns) =
    (record { clean = c; no_bom = n }, fields-All fields cs ns)

-- A row that was read can be written, if no field begins with a byte order mark.
pub IsReadRow-IsRow : (row : List Bytes) → IsReadRow row → All NoBom row → IsRow row
IsReadRow-IsRow [] r n = absurd r
IsReadRow-IsRow (field ∷ fields) r n = fields-All (field ∷ fields) r n

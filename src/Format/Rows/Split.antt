-- ===== src/Format/Rows/Split.antt =====
-- The text of rows, how it is cut into lines and fields, and what `marshalRows` writes.
use backup.Base.{
  ℕ, ◌+◌, ◌≤◌, ◌≡◌, ◌≢◌, ◌↔◌, refl, sym, ap, ◌∙◌, true, false, List, [], ◌∷◌, ◌++◌, append-nil,
  append_assoc, arith, ltb, ◌==◌, inl, inr, Bool-cases, length, length-append, All, Result, ok,
  bind-eq-ok,
}
use backup.Base.Bytes.{Bytes, tab, lf, cr, Lacks, contains, has_prefix}
use backup.Format.Utf8.{utf8_valid}
use backup.Format.Rows.{
  push, scan_lines, split_fields, cons_head, bom, validate_raw_field, marshal_fields, marshal_row,
  marshal_rows,
}

-- The fields behind the first, each after a tab.
abbrev pub tail_text : List Bytes → Bytes
tail_text [] = []
tail_text (field ∷ fields) = tab ∷ (field ++ tail_text fields)

abbrev pub row_text : List Bytes → Bytes
row_text [] = []
row_text (field ∷ fields) = field ++ tail_text fields

abbrev pub rows_text : List (List Bytes) → Bytes
rows_text [] = []
rows_text (row ∷ rows) = row_text row ++ lf ∷ rows_text rows

-- No text is empty, and none holds what parts fields and lines, or a control byte of the format.
pub record IsClean (field : Bytes) : Type 0 where
  pub nonempty : (length field == 0) ≡ false
  pub valid : utf8_valid field ≡ true
  pub no_nul : contains 0 field ≡ false
  pub no_tab : contains tab field ≡ false
  pub no_cr : contains cr field ≡ false
  pub no_lf : contains lf field ≡ false

-- A field that `validateRawField` accepts.
pub record IsField (field : Bytes) : Type 0 where
  pub clean : IsClean field
  pub no_bom : has_prefix field bom ≡ false

abbrev pub IsRow : List Bytes → Type 0
IsRow [] = ⊥
IsRow (field ∷ fields) = IsField field × All IsField fields

-- `validateRawField` accepts exactly the clean fields that begin with no byte order mark.
pub validate_raw_field-IsField :
    (field : Bytes) {u : Unit {0}} → validate_raw_field field ≡ ok u → IsField field
unfolding validate_raw_field
validate_raw_field-IsField field h = ground arith

pub IsField-validate_raw_field : (field : Bytes) → IsField field → validate_raw_field field ≡ ok tt
unfolding validate_raw_field
IsField-validate_raw_field field h = ground arith

marshal_fields-of :
    (fields : List Bytes)
    → All IsField fields
    → marshal_fields fields ≡ ok (tail_text fields ++ lf ∷ [])
unfolding marshal_fields
marshal_fields-of [] h = refl
marshal_fields-of (field ∷ fields) (h, hs) =
    rw (IsField-validate_raw_field field h)
      (rw (marshal_fields-of fields hs) (rw (append_assoc field (tail_text fields) (lf ∷ []))))

marshal_row-of : (row : List Bytes) → IsRow row → marshal_row row ≡ ok (row_text row ++ lf ∷ [])
unfolding marshal_row
marshal_row-of [] h = absurd h
marshal_row-of (field ∷ fields) (h, hs) =
    rw (IsField-validate_raw_field field h)
      (rw (marshal_fields-of fields hs) (rw (append_assoc field (tail_text fields) (lf ∷ []))))

pub marshal_rows-of :
    (rows : List (List Bytes)) → All IsRow rows → marshal_rows rows ≡ ok (rows_text rows)
unfolding marshal_rows
marshal_rows-of [] h = refl
marshal_rows-of (row ∷ rows) (h, hs) =
    rw (marshal_row-of row h)
      (rw (marshal_rows-of rows hs) (rw (append_assoc (row_text row) (lf ∷ []) (rows_text rows))))

marshal_fields-All :
    (fields : List Bytes) {text : Bytes} → marshal_fields fields ≡ ok text → All IsField fields
unfolding marshal_fields
marshal_fields-All [] h = tt
marshal_fields-All (field ∷ fields) h =
    let (u, v, k) = bind-eq-ok (validate_raw_field field) _ h in
    let (rest, w, e) = bind-eq-ok (marshal_fields fields) _ k in
    (validate_raw_field-IsField field v, marshal_fields-All fields w)

marshal_row-IsRow : (row : List Bytes) {text : Bytes} → marshal_row row ≡ ok text → IsRow row
unfolding marshal_row
marshal_row-IsRow [] h = cc
marshal_row-IsRow (field ∷ fields) h =
    let (u, v, k) = bind-eq-ok (validate_raw_field field) _ h in
    let (rest, w, e) = bind-eq-ok (marshal_fields fields) _ k in
    (validate_raw_field-IsField field v, marshal_fields-All fields w)

marshal_rows-All :
    (rows : List (List Bytes)) {text : Bytes} → marshal_rows rows ≡ ok text → All IsRow rows
unfolding marshal_rows
marshal_rows-All [] h = tt
marshal_rows-All (row ∷ rows) h =
    let (line, v, k) = bind-eq-ok (marshal_row row) _ h in
    let (rest, w, e) = bind-eq-ok (marshal_rows rows) _ k in
    (marshal_row-IsRow row v, marshal_rows-All rows w)

pub ok-injective {ℓ} :
    {E : Type 0} {A : Type ℓ} {a b : A} → ◌≡◌ {A = Result E A} (ok a) (ok b) → a ≡ b
ok-injective h = cc

-- `marshalRows` succeeds exactly on rows of acceptable fields, and then writes their text.
pub marshal_rows_iff :
    (rows : List (List Bytes)) (text : Bytes)
    → (marshal_rows rows ≡ ok text) ↔ (All IsRow rows × (text ≡ rows_text rows))
marshal_rows_iff rows text = (
  λ h. let rs = marshal_rows-All rows h in (rs, ok-injective (sym h ∙ marshal_rows-of rows rs)),
  λ p. marshal_rows-of rows p.0 ∙ ap ok (sym (p.1)),
)

cons_head-append :
    (c : ℕ) (fields : List Bytes)
    → fields ≢ []
    → row_text (cons_head c fields) ≡ c ∷ row_text fields
unfolding cons_head
cons_head-append c [] h = absurd (h refl)
cons_head-append c (field ∷ fields) h = refl

pub split_fields-ne-nil : (s : Bytes) → split_fields s ≢ []
unfolding split_fields cons_head
split_fields-ne-nil [] h = cc
split_fields-ne-nil (c ∷ s) h = elim (Bool-cases (c == tab)) [
  | inl t ↦ cc (rw t at h)
  | inr f ↦ absurd (cons_head-ne-nil c (split_fields s) (rw f at h))
]
  where
    cons_head-ne-nil : (c : ℕ) (fields : List Bytes) → cons_head c fields ≡ [] → ⊥
    cons_head-ne-nil c [] e = cc
    cons_head-ne-nil c (field ∷ fields) e = cc

tail_text-row_text : (fields : List Bytes) → fields ≢ [] → tail_text fields ≡ tab ∷ row_text fields
tail_text-row_text [] h = absurd (h refl)
tail_text-row_text (field ∷ fields) h = refl

-- Joining the fields of a line by tabs gives the line back.
pub row_text-split_fields : (s : Bytes) → row_text (split_fields s) ≡ s
unfolding split_fields
row_text-split_fields [] = refl
row_text-split_fields (c ∷ s) = elim (Bool-cases (c == tab)) [
  | inl t ↦ rw t (
      tail_text-row_text (split_fields s) (split_fields-ne-nil s)
      ∙ rw (row_text-split_fields s) (ap (λ b. b ∷ s) (ground arith)))
  | inr f ↦ rw f (
      cons_head-append c (split_fields s) (split_fields-ne-nil s)
      ∙ ap (◌∷◌ c) (row_text-split_fields s))
]

split_fields-append :
    (field s : Bytes) → Lacks tab field → split_fields (field ++ tab ∷ s) ≡ field ∷ split_fields s
unfolding split_fields cons_head
split_fields-append [] s h = refl
split_fields-append (c ∷ field) s (h, hs) = rw (split_fields-append field s hs) (ground arith)

split_fields-one : (field : Bytes) → Lacks tab field → split_fields field ≡ field ∷ []
unfolding split_fields cons_head
split_fields-one [] h = refl
split_fields-one (c ∷ field) (h, hs) = rw (split_fields-one field hs) (ground arith)

-- Splitting the text of a row whose fields hold no tab gives the fields back.
pub split_fields-row_text :
    (field : Bytes) (fields : List Bytes)
    → Lacks tab field
    → All (Lacks tab) fields
    → split_fields (row_text (field ∷ fields)) ≡ field ∷ fields
split_fields-row_text field [] h hs = rw (append-nil field) (split_fields-one field h)
split_fields-row_text field (next ∷ fields) h (k, ks) =
    split_fields-append field (row_text (next ∷ fields)) h
    ∙ ap (◌∷◌ field) (split_fields-row_text next fields k ks)

-- A line that fits the buffer is one token.
pub scan_lines-append :
    (p : Bytes) (max : ℕ) (line s : Bytes)
    → Lacks lf p
    → length line + length p ≤ max
    → scan_lines max line (p ++ lf ∷ s) ≡ push (line ++ p) (scan_lines max [] s)
unfolding scan_lines
scan_lines-append [] max line s h l = rw append-nil
scan_lines-append (c ∷ p) max line s (h, hs) l =
    let other : (c == lf) ≡ false = ground arith in
    let room : ltb (length line) max ≡ true = ground arith in
    let grown = length-append line (c ∷ []) in
    rw (other, scan_lines)
      (rw (room, scan_lines)
        (scan_lines-append p max (line ++ c ∷ []) s hs (omega (arith, grown))
          ∙ rw (append_assoc line (c ∷ []) p)))

-- ===== src/Repository/Sorting/Laws.antt =====
-- Sorting rows keeps the rows, and is what the external sort makes of their file.
use mathlib.Core.Path.{subst₂}
use backup.Base.{
  ℕ, ◌≤◌, ◌≡◌, ◌≢◌, refl, sym, ap, ◌∙◌, false, List, [], ◌∷◌, ◌++◌, map, some, append_assoc,
  append-nil, arith, length, inl, inr, Bool-cases, ok, All, Among, All-map, not_both, ◌==◌,
}
use backup.Base.Bytes.{Bytes, tab, lf, cr, Lacks}
use backup.Extsort.{
  Record, before, insert, sort_records, sort_files, write_records, normalized, key_or,
}
use backup.Extsort.Spills.{IsTaken}
use backup.Extsort.Whole.{sort_files-sort_records}
use backup.Repository.DerivedRows.{Row}
use backup.Repository.Sorting.{
  tabbed, row_line, rows_file, cut_tab, first_field, not_empty, by_first_field, record_of,
  insert_row, sort_rows,
}

insert_row-Among :
    (row : Row) (rows : List Row) (r : Row) → Among r (insert_row row rows) → Among r (row ∷ rows)
unfolding insert_row
insert_row-Among row [] r h = h
insert_row-Among row (next ∷ rows) r h =
    elim (Bool-cases (before (record_of next) (record_of row))) [
      | inr stay ↦ rw stay at h
      | inl up ↦ elim (rw up at h) [
        | inl e ↦ inr (inl e)
        | inr m ↦ elim (insert_row-Among row rows r m) [ inl e ↦ inl e | inr m' ↦ inr (inr m') ]
      ]
    ]

Among-insert_row :
    (row : Row) (rows : List Row) (r : Row) → Among r (row ∷ rows) → Among r (insert_row row rows)
unfolding insert_row
Among-insert_row row [] r h = h
Among-insert_row row (next ∷ rows) r h =
    elim (Bool-cases (before (record_of next) (record_of row))) [
      | inr stay ↦ rw stay h
      | inl up ↦ elim h [
        | inl e ↦ rw up (inr (Among-insert_row row rows r (inl e)))
        | inr (inl e) ↦ rw up (inl e)
        | inr (inr m) ↦ rw up (inr (Among-insert_row row rows r (inr m)))
      ]
    ]

pub sort_rows-Among : (rows : List Row) (r : Row) → Among r (sort_rows rows) → Among r rows
unfolding sort_rows
sort_rows-Among [] r h = h
sort_rows-Among (row ∷ rows) r h = elim (insert_row-Among row (sort_rows rows) r h) [
  | inl e ↦ inl e
  | inr m ↦ inr (sort_rows-Among rows r m)
]

pub Among-sort_rows : (rows : List Row) (r : Row) → Among r rows → Among r (sort_rows rows)
unfolding sort_rows
Among-sort_rows [] r h = h
Among-sort_rows (row ∷ rows) r (inl e) = Among-insert_row row (sort_rows rows) r (inl e)
Among-sort_rows (row ∷ rows) r (inr m) =
    Among-insert_row row (sort_rows rows) r (inr (Among-sort_rows rows r m))

map-insert :
    (row : Row) (rows : List Row)
    → map record_of (insert_row row rows) ≡ insert (record_of row) (map record_of rows)
unfolding insert_row insert
map-insert row [] = refl
map-insert row (next ∷ rows) = elim (Bool-cases (before (record_of next) (record_of row))) [
  | inl up ↦ rw up (ap (◌∷◌ (record_of next)) (map-insert row rows))
  | inr stay ↦ rw stay refl
]

pub map-sort_rows :
    (rows : List Row) → map record_of (sort_rows rows) ≡ sort_records (map record_of rows)
unfolding sort_rows sort_records
map-sort_rows [] = refl
map-sort_rows (row ∷ rows) =
    map-insert row (sort_rows rows) ∙ ap (insert (record_of row)) (map-sort_rows rows)

write_records-map : (rows : List Row) → write_records (map record_of rows) ≡ rows_file rows
unfolding write_records rows_file
write_records-map [] = refl
write_records-map (row ∷ rows) = ap (λ s. row_line row ++ lf ∷ s) (write_records-map rows)

-- A row of two or more fields, the first not empty, whose line fits.
abbrev pub IsSortable : ℕ → Row → Type 0
IsSortable max_line [] = ⊥
IsSortable max_line (value ∷ []) = ⊥
IsSortable max_line (value ∷ next ∷ values) =
    (value ≢ [])
    × Lacks tab value
    × All (λ v. Lacks lf v × Lacks cr v) (value ∷ next ∷ values)
    × (length (row_line (value ∷ next ∷ values)) ≤ max_line)

cut_tab-Lacks :
    (start value rest : Bytes)
    → Lacks tab value
    → cut_tab start (value ++ tab ∷ rest) ≡ some (start ++ value)
unfolding cut_tab
cut_tab-Lacks start [] rest h = ap some (sym (append-nil start))
cut_tab-Lacks start (c ∷ value) rest (h, hs) =
    let other : (c == tab) ≡ false = ground arith in
    rw other
      (cut_tab-Lacks (start ++ c ∷ []) value rest hs ∙ ap some (append_assoc start (c ∷ []) value))

Lacks-parts : (b : ℕ) (s t : Bytes) → Lacks b s → Lacks b t → Lacks b (s ++ t)
Lacks-parts b [] t h k = k
Lacks-parts b (c ∷ s) t (h, hs) k = (h, Lacks-parts b s t hs k)

tabbed-Lacks :
    (b : ℕ) (values : List Bytes) → tab ≢ b → All (Lacks b) values → Lacks b (tabbed values)
unfolding tabbed
tabbed-Lacks b [] n h = tt
tabbed-Lacks b (v ∷ values) n (h, hs) =
    (n, Lacks-parts b v (tabbed values) h (tabbed-Lacks b values n hs))

row_line-Lacks : (b : ℕ) (row : Row) → tab ≢ b → All (Lacks b) row → Lacks b (row_line row)
unfolding row_line
row_line-Lacks b [] n h = tt
row_line-Lacks b (v ∷ values) n (h, hs) =
    Lacks-parts b v (tabbed values) h (tabbed-Lacks b values n hs)

first_field-row_line :
    (value next : Bytes) (values : Row)
    → value ≢ []
    → Lacks tab value
    → first_field (row_line (value ∷ next ∷ values)) ≡ some value
unfolding first_field row_line tabbed
first_field-row_line value next values some_key no_tab =
    ap not_empty (cut_tab-Lacks [] value (next ++ tabbed values) no_tab) ∙ kept value some_key
  where
    kept : (v : Bytes) → v ≢ [] → not_empty (some v) ≡ some v
    kept [] h = absurd (h refl)
    kept (c ∷ v) h = refl

All-records :
    (P : Record → Type 0) (rows : List Row)
    → All (λ row. P (record_of row)) rows
    → All P (map record_of rows)
All-records P [] h = tt
All-records P (row ∷ rows) (h, hs) = (h, All-records P rows hs)

module _ (max_line : ℕ) (positive : 1 ≤ max_line) where
  max_line_kept : (normalized (by_first_field max_line)).max_line_bytes ≡ max_line
  unfolding normalized
  max_line_kept = let used : (max_line == 0) ≡ false = ground arith in rw used refl

  record_of-IsTaken :
      (row : Row)
      → IsSortable max_line row
      → IsTaken (normalized (by_first_field max_line)) (record_of row)
  unfolding normalized key_or
  record_of-IsTaken [] h = absurd h
  record_of-IsTaken (value ∷ []) h = absurd h
  record_of-IsTaken (value ∷ next ∷ values) (some_key, no_tab, plain, short) =
      let used : (max_line == 0) ≡ false = ground arith in
      let row = value ∷ next ∷ values in
      (
        (
          (
            row_line-Lacks lf row (omega arith) (All-map (λ v l. l.0) row plain),
            row_line-Lacks cr row (omega arith) (All-map (λ v l. l.1) row plain),
            rw used short,
          ),
          first_field-row_line value next values some_key no_tab,
        ),
        some_key,
      )

  -- `SortFiles` by the first field, of a file of rows that have two or more fields and a first one
  -- that is not empty and holds no tab, with no CR or LF in a field and no line over the limit,
  -- publishes the file of the sorted rows.
  pub sort_files-rows_file :
      (rows : List Row)
      → All (IsSortable max_line) rows
      → sort_files (rows_file rows ∷ []) (by_first_field max_line) ≡ ok (rows_file (sort_rows rows))
  sort_files-rows_file rows h =
      subst₂ (λ input output. sort_files (input ∷ []) (by_first_field max_line) ≡ ok output)
        (write_records-map rows)
        (ap (λ l. write_records (sort_records l)) (append-nil (map record_of rows))
          ∙ ap write_records (sym (map-sort_rows rows))
          ∙ write_records-map (sort_rows rows))
        (sort_files-sort_records (by_first_field max_line) (map record_of rows) []
          (
            All-records (IsTaken (normalized (by_first_field max_line))) rows
                (All-map record_of-IsTaken rows h),
            tt,
          )
          (λ u. absurd (not_both u refl)))

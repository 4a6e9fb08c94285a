-- ===== src/Extsort/Files.antt =====
-- The files of internal/extsort/sort.go: what `writeRecords` writes, a line reader hands out again.
use backup.Base.{
  ℕ, ◌+◌, ◌≤◌, ◌≡◌, refl, sym, ap, ap₂, ◌∙◌, false, List, [], ◌∷◌, ◌++◌, map, some, append-nil,
  append_assoc, arith, ◌==◌, ==_iff, lt→ltb, length, length-append, last_or, All, ok,
}
use backup.Base.Bytes.{Bytes, lf, cr, Lacks}
use backup.Format.Rows.{scan_lines, push, last_token}
use backup.Extsort.{Record, Options, LineReader, drop_cr, write_records, open_line_reader, key_or}

-- A line that the scanner hands out as it was written.
abbrev pub IsLine : ℕ → Bytes → Type 0
IsLine max_line line = Lacks lf line × Lacks cr line × (length line ≤ max_line)

-- A record whose line the scanner hands out, and whose key is its line's.
abbrev pub IsKeyed : Options → Record → Type 0
IsKeyed options r =
    IsLine options.max_line_bytes r.content × (key_or options.key r.content ≡ some r.key)

drop_cr-Lacks : (line : Bytes) → Lacks cr line → drop_cr line ≡ line
unfolding drop_cr
drop_cr-Lacks [] h = refl
drop_cr-Lacks (c ∷ []) (h, _) = ground arith
drop_cr-Lacks (c ∷ d ∷ line) (h, hs) = ap (◌∷◌ c) (drop_cr-Lacks (d ∷ line) hs)

scan_lines_line :
    (max : ℕ) (line content rest : Bytes)
    → Lacks lf content
    → length line + length content ≤ max
    → scan_lines max line (content ++ lf ∷ rest) ≡ push (line ++ content) (scan_lines max [] rest)
unfolding scan_lines
scan_lines_line max line [] rest h room =
    ap (λ l. push l (scan_lines max [] rest)) (sym (append-nil line))
scan_lines_line max line (c ∷ content) rest (h, hs) room =
    let other : (c == lf) ≡ false = ground arith in
    let fits = lt→ltb (length line) max (omega arith) in
    let ih =
      scan_lines_line max (line ++ c ∷ []) content rest hs
        (omega (arith, length-append line (c ∷ []))) in
    rw (other, scan_lines)
      (rw (fits, scan_lines)
        (ih ∙ ap (λ l. push l (scan_lines max [] rest)) (append_assoc line (c ∷ []) content)))

last_or-lf : (content rest : Bytes) (d e : ℕ) → last_or d (content ++ lf ∷ rest) ≡ last_or lf rest
last_or-lf [] rest d e = refl
last_or-lf (c ∷ content) rest d e = last_or-lf content rest c e

last_or-write_records : (l : List Record) → last_or lf (write_records l) ≡ lf
unfolding write_records
last_or-write_records [] = refl
last_or-write_records (r ∷ l) =
    last_or-lf r.content (write_records l) lf lf ∙ last_or-write_records l

-- The reader of a file that holds the records.
abbrev pub reader_of : List Record → LineReader
reader_of l = record { lines = map (λ r. r.content) l; too_long = false }

module _ (max_line : ℕ) where
  scan_lines-write_records :
      (l : List Record)
      → All (λ r. IsLine max_line r.content) l
      → (map drop_cr (scan_lines max_line [] (write_records l)).lines ≡ map (λ r. r.content) l)
        × ((scan_lines max_line [] (write_records l)).too_long ≡ false)
  unfolding write_records
  scan_lines-write_records [] h = unfold scan_lines last_token in (refl, refl)
  scan_lines-write_records (r ∷ l) ((no_lf, no_cr, short), hs) =
      let (lines, fits) = scan_lines-write_records l hs in
      rw (scan_lines_line max_line [] r.content (write_records l) no_lf (omega arith))
        (rw (drop_cr-Lacks r.content no_cr, lines) refl, fits)

  -- A file of records is opened, and its reader hands out their lines.
  pub open_line_reader-write_records :
      (l : List Record)
      → All (λ r. IsLine max_line r.content) l
      → open_line_reader max_line (write_records l) ≡ ok (reader_of l)
  unfolding open_line_reader
  open_line_reader-write_records l h =
      let (lines, fits) = scan_lines-write_records l h in
      let ends = (==_iff (last_or lf (write_records l)) lf).1 (last_or-write_records l) in
      rw ends (ap₂ (λ ls t. ok (record { lines = ls; too_long = t })) lines fits)

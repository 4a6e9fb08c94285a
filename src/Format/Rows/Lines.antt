-- ===== src/Format/Rows/Lines.antt =====
-- The lines that the scanner of `scanRows` hands out, and their fields.
use backup.Base.{
  ℕ, ◌≡◌, ◌≢◌, refl, ◌∙◌, false, List, [], ◌∷◌, ◌++◌, append_assoc, arith, ltb, ◌==◌, inl, inr,
  Bool-cases, length, All, last_or,
}
use backup.Base.Bytes.{Bytes, tab, lf, Lacks, contains, contains-append}
use backup.Format.Rows.{scan_lines, last_token, split_fields, cons_head}

abbrev pub lines_text : List Bytes → Bytes
lines_text [] = []
lines_text (line ∷ lines) = line ++ lf ∷ lines_text lines

-- The text ends in LF, or nothing is left of it.
abbrev pub Ends : Bytes → Bytes → Type 0
Ends line [] = line ≡ []
Ends line (c ∷ s) = last_or c s ≡ lf

Ends-tail : (s : Bytes) (c : ℕ) → last_or c s ≡ lf → Ends [] s
Ends-tail [] c h = refl
Ends-tail (x ∷ s) c h = h

Ends-grown : (s line : Bytes) (c : ℕ) → c ≢ lf → last_or c s ≡ lf → Ends (line ++ c ∷ []) s
Ends-grown [] line c n h = absurd (n h)
Ends-grown (x ∷ s) line c n h = h

-- Where no line was too long and the text ends in LF, the tokens are the lines of the whole text.
pub lines_text-scan_lines :
    (s : Bytes) (max : ℕ) (line : Bytes)
    → Ends line s
    → (scan_lines max line s).too_long ≡ false
    → lines_text (scan_lines max line s).lines ≡ line ++ s
unfolding scan_lines
lines_text-scan_lines [] max line e t = rw e (unfold last_token in refl)
lines_text-scan_lines (c ∷ s) max line e t = elim (Bool-cases (c == lf)) [
  | inl at_lf ↦
      let same : c ≡ lf = ground arith in
      let ih = lines_text-scan_lines s max [] (Ends-tail s c e) (rw (at_lf, scan_lines) at t) in
      rw (at_lf, scan_lines) (rw ih (rw same refl))
  | inr other ↦ elim (Bool-cases (ltb (length line) max)) [
    | inl room ↦
        let t' = rw (room, scan_lines) at (rw (other, scan_lines) at t) in
        let grown = Ends-grown s line c (ground arith) e in
        rw (other, scan_lines)
          (rw (room, scan_lines)
            (lines_text-scan_lines s max (line ++ c ∷ []) grown t' ∙ append_assoc line (c ∷ []) s))
    | inr full ↦ absurd (cc (rw (full, scan_lines) at (rw (other, scan_lines) at t)))
  ]
]

Lacks-append : (b : ℕ) (line : Bytes) (c : ℕ) → Lacks b line → c ≢ b → Lacks b (line ++ c ∷ [])
Lacks-append b [] c h n = (n, tt)
Lacks-append b (x ∷ line) c (h, hs) n = (h, Lacks-append b line c hs n)

pub scan_lines-Lacks :
    (s : Bytes) (max : ℕ) (line : Bytes)
    → Lacks lf line
    → All (Lacks lf) (scan_lines max line s).lines
unfolding scan_lines
scan_lines-Lacks [] max [] h = unfold last_token in tt
scan_lines-Lacks [] max (x ∷ line) h = unfold last_token in (h, tt)
scan_lines-Lacks (c ∷ s) max line h = elim (Bool-cases (c == lf)) [
  | inl at_lf ↦ rw (at_lf, scan_lines) (h, scan_lines-Lacks s max [] tt)
  | inr other ↦ elim (Bool-cases (ltb (length line) max)) [
    | inl room ↦
        rw (other, scan_lines)
          (rw (room, scan_lines)
            (scan_lines-Lacks s max (line ++ c ∷ []) (Lacks-append lf line c h (ground arith))))
    | inr full ↦ rw (other, scan_lines) (rw (full, scan_lines) tt)
  ]
]

cons_head-Lacks :
    (c : ℕ) (fields : List Bytes)
    → c ≢ tab
    → All (Lacks tab) fields
    → All (Lacks tab) (cons_head c fields)
unfolding cons_head
cons_head-Lacks c [] n h = ((n, tt), tt)
cons_head-Lacks c (field ∷ fields) n (h, hs) = ((n, h), hs)

pub split_fields-Lacks : (s : Bytes) → All (Lacks tab) (split_fields s)
unfolding split_fields
split_fields-Lacks [] = (tt, tt)
split_fields-Lacks (c ∷ s) = elim (Bool-cases (c == tab)) [
  | inl t ↦ rw t (tt, split_fields-Lacks s)
  | inr f ↦ rw f (cons_head-Lacks c (split_fields s) (ground arith) (split_fields-Lacks s))
]

pub contains_parts :
    (b : ℕ) (field rest : Bytes)
    → contains b (field ++ tab ∷ rest) ≡ false
    → (contains b field ≡ false) × (contains b rest ≡ false)
unfolding contains
contains_parts b field rest h =
    let cut = contains-append b field (tab ∷ rest) in (ground arith, ground arith)

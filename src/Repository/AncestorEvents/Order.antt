-- ===== src/Repository/AncestorEvents/Order.antt =====
-- The order of ancestor events: sorting the rows by hexadecimal path is sorting the events by path
-- and, at one path, by kind.
use mathlib.Core.Path.{subst}
use backup.Base.{
  ℕ, ◌/◌, ◌%◌, ◌<◌, ◌≡◌, refl, sym, ap, ap₂, ◌∙◌, ◌&&◌, ◌||◌, List, [], ◌∷◌, ◌++◌, map, arith, inl,
  inr, Bool-cases, ltb, ◌==◌, All, append-nil,
}
use backup.Base.Bytes.{Bytes, tab, equal, less, equal_iff}
use backup.Extsort.{Record, before, insert, sort_records}
use backup.Extsort.Sorted.{All-sort_records}
use backup.Repository.DerivedRows.{Row}
use backup.Repository.Sorting.{tabbed, row_line, record_of, insert_row, sort_rows}
use backup.Repository.AncestorEvents.{hex_digit, hex_text}

abbrev pub IsByte : ℕ → Type 0
IsByte c = c < 256

digit-eq : (m n : ℕ) → m < 16 → n < 16 → (hex_digit m == hex_digit n) ≡ (m == n)
digit-eq m n h k = ground arith

digit_less : (m n : ℕ) → m < 16 → n < 16 → ltb (hex_digit m) (hex_digit n) ≡ ltb m n
digit_less m n h k = ground arith

byte-eq : (c d : ℕ) → (c / 16 == d / 16 && c % 16 == d % 16) ≡ (c == d)
byte-eq c d = ground arith

byte_less :
    (c d : ℕ) → (ltb (c / 16) (d / 16) || c / 16 == d / 16 && ltb (c % 16) (d % 16)) ≡ ltb c d
byte_less c d = ground arith

hex_text-equal :
    (a b : Bytes) → All IsByte a → All IsByte b → equal (hex_text a) (hex_text b) ≡ equal a b
unfolding hex_text equal
hex_text-equal [] [] h k = refl
hex_text-equal [] (d ∷ b) h k = refl
hex_text-equal (c ∷ a) [] h k = refl
hex_text-equal (c ∷ a) (d ∷ b) (h, hs) (k, ks) =
    rw
      (
        digit-eq (c / 16) (d / 16) (omega arith) (omega arith),
        digit-eq (c % 16) (d % 16) (omega arith) (omega arith),
        hex_text-equal a b hs ks,
        sym (byte-eq c d),
      )
      (ground arith)

less-hex_text :
    (a b : Bytes) → All IsByte a → All IsByte b → less (hex_text a) (hex_text b) ≡ less a b
unfolding hex_text less
less-hex_text [] [] h k = refl
less-hex_text [] (d ∷ b) h k = refl
less-hex_text (c ∷ a) [] h k = refl
less-hex_text (c ∷ a) (d ∷ b) (h, hs) (k, ks) =
    rw
      (
        digit-eq (c / 16) (d / 16) (omega arith) (omega arith),
        digit-eq (c % 16) (d % 16) (omega arith) (omega arith),
        digit_less (c / 16) (d / 16) (omega arith) (omega arith),
        digit_less (c % 16) (d % 16) (omega arith) (omega arith),
        less-hex_text a b hs ks,
        sym (byte-eq c d),
        sym (byte_less c d),
      )
      (ground arith)

-- A common beginning does not count.
less-append : (s x y : Bytes) → less (s ++ x) (s ++ y) ≡ less x y
unfolding less
less-append [] x y = refl
less-append (c ∷ s) x y = ground (arith, less-append s x y)

-- An event: its path, and its kind as content.
abbrev pub row_of : Record → Row
row_of e = hex_text e.key ∷ e.content ∷ []

abbrev pub HasBytes : Record → Type 0
HasBytes e = All IsByte e.key

row_line-row_of : (e : Record) → row_line (row_of e) ≡ hex_text e.key ++ tab ∷ e.content
unfolding row_line tabbed
row_line-row_of e = ap (λ s. hex_text e.key ++ tab ∷ s) (append-nil e.content)

before-row_of :
    (d e : Record)
    → HasBytes d
    → HasBytes e
    → before (record_of (row_of d)) (record_of (row_of e)) ≡ before d e
unfolding before
before-row_of d e h k = elim (Bool-cases (equal d.key e.key)) [
  | inl same ↦
      let key = (equal_iff d.key e.key).0 same in
      rw (hex_text-equal d.key e.key h k, same)
        (ap₂ less (row_line-row_of d) (row_line-row_of e)
          ∙ subst
              (λ x.
                less (hex_text d.key ++ tab ∷ d.content) (hex_text x ++ tab ∷ e.content)
                ≡ less d.content e.content)
              key
              (less-append (hex_text d.key) (tab ∷ d.content) (tab ∷ e.content)
                ∙ less-append (tab ∷ []) d.content e.content))
  | inr other ↦ rw (hex_text-equal d.key e.key h k, other) (less-hex_text d.key e.key h k)
]

map-insert_row :
    (e : Record) (l : List Record)
    → HasBytes e
    → All HasBytes l
    → insert_row (row_of e) (map row_of l) ≡ map row_of (insert e l)
unfolding insert_row insert
map-insert_row e [] h k = refl
map-insert_row e (next ∷ l) h (k, ks) =
    let order = before-row_of next e k h in
    elim (Bool-cases (before next e)) [
      | inl up ↦ rw (order, up) (ap (◌∷◌ (row_of next)) (map-insert_row e l h ks))
      | inr stay ↦ rw (order, stay) refl
    ]

-- Sorting the rows of events is sorting the events.
pub map-sort_rows :
    (l : List Record) → All HasBytes l → sort_rows (map row_of l) ≡ map row_of (sort_records l)
unfolding sort_rows sort_records
map-sort_rows [] h = refl
map-sort_rows (e ∷ l) (h, hs) =
    ap (insert_row (row_of e)) (map-sort_rows l hs)
    ∙ map-insert_row e (sort_records l) h (All-sort_records HasBytes l hs)

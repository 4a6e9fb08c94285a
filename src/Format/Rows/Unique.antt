-- ===== src/Format/Rows/Unique.antt =====
-- Rows of acceptable fields (internal/format/canonical.go) are known by their text.
use backup.Base.{◌≡◌, ◌≢◌, refl, sym, ap, ap₂, ◌∙◌, List, [], ◌∷◌, ◌++◌, All, All-map}
use backup.Base.Bytes.{Bytes, lf, tab, Lacks, contains-Lacks}
use backup.Format.Rows.{split_fields}
use backup.Format.Rows.Split.{row_text, rows_text, IsRow, split_fields-row_text}
use backup.Format.Rows.RoundTrip.{row_text-Lacks-lf}

-- What stands before the first line feed, and behind it.
cut_injective :
    (p q s t : Bytes) → Lacks lf p → Lacks lf q → p ++ lf ∷ s ≡ q ++ lf ∷ t → (p ≡ q) × (s ≡ t)
cut_injective [] [] s t h k e = (refl, cc)
cut_injective [] (c ∷ q) s t h (k, ks) e = absurd (k (cc))
cut_injective (c ∷ p) [] s t (h, hs) k e = absurd (h (cc))
cut_injective (c ∷ p) (d ∷ q) s t (h, hs) (k, ks) e =
    let (same, rest) = cut_injective p q s t hs ks (cc) in (ap₂ ◌∷◌ (cc) same, rest)

append-ne-nil : (p s : Bytes) → p ++ lf ∷ s ≢ []
append-ne-nil [] s e = cc
append-ne-nil (c ∷ p) s e = cc

split_row : (row : List Bytes) → IsRow row → split_fields (row_text row) ≡ row
split_row [] h = absurd h
split_row (field ∷ fields) (h, hs) =
    split_fields-row_text field fields (contains-Lacks tab field h.clean.no_tab)
      (All-map (λ g k. contains-Lacks tab g k.clean.no_tab) fields hs)

pub rows_text_injective :
    (xs ys : List (List Bytes))
    → All IsRow xs
    → All IsRow ys
    → rows_text xs ≡ rows_text ys
    → xs ≡ ys
rows_text_injective [] [] h k e = refl
rows_text_injective [] (y ∷ ys) h k e = absurd (append-ne-nil (row_text y) (rows_text ys) (sym e))
rows_text_injective (x ∷ xs) [] h k e = absurd (append-ne-nil (row_text x) (rows_text xs) e)
rows_text_injective (x ∷ xs) (y ∷ ys) (h, hs) (k, ks) e =
    let (same, rest) =
      cut_injective (row_text x) (row_text y) (rows_text xs) (rows_text ys) (row_text-Lacks-lf x h)
        (row_text-Lacks-lf y k) e in
    ap₂ ◌∷◌ (sym (split_row x h) ∙ ap split_fields same ∙ split_row y k)
      (rows_text_injective xs ys hs ks rest)

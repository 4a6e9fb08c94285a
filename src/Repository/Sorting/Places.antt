-- ===== src/Repository/Sorting/Places.antt =====
-- The keys of sorted rows do not go down.
use mathlib.Core.Path.{subst}
use backup.Base.{◌≡◌, ◌↔◌, sym, false, List, [], ◌∷◌, map, All, All-Among, All-of-Among}
use backup.Base.Bytes.{less}
use backup.Extsort.{before}
use backup.Extsort.Order.{before-false}
use backup.Extsort.Sorted.{Ascending, sort_records-Ascending}
use backup.Repository.DerivedRows.{Row, field}
use backup.Repository.PackRows.Ordinary.{Grouped}
use backup.Repository.Sorting.{record_of, sort_rows}
use backup.Repository.Sorting.Laws.{map-sort_rows, sort_rows-Among, Among-sort_rows}

keys_behind :
    (row : Row) (rows : List Row)
    → All (λ r. before r (record_of row) ≡ false) (map record_of rows)
    → All (λ r. less (field r 0) (field row 0) ≡ false) rows
keys_behind row [] h = tt
keys_behind row (r ∷ rows) (h, hs) =
    (before-false (record_of r) (record_of row) h, keys_behind row rows hs)

Ascending-Grouped : (rows : List Row) → Ascending (map record_of rows) → Grouped rows
Ascending-Grouped [] h = tt
Ascending-Grouped (row ∷ rows) (h, hs) = (keys_behind row rows h, Ascending-Grouped rows hs)

pub sort_rows-Grouped : (rows : List Row) → Grouped (sort_rows rows)
sort_rows-Grouped rows =
    Ascending-Grouped (sort_rows rows)
      (subst Ascending (sym (map-sort_rows rows)) (sort_records-Ascending (map record_of rows)))

-- What holds of all rows holds of all sorted rows, and the other way.
pub All-sort_rows : (P : Row → Type 0) (rows : List Row) → All P rows ↔ All P (sort_rows rows)
All-sort_rows P rows = (
  λ h. All-of-Among P (sort_rows rows) (λ r m. All-Among P r rows h (sort_rows-Among rows r m)),
  λ h. All-of-Among P rows (λ r m. All-Among P r (sort_rows rows) h (Among-sort_rows rows r m)),
)

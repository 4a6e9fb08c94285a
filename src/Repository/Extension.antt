-- ===== src/Repository/Extension.antt =====
-- mergeCatalogExtension (internal/repository/stream_transition.go): an ordinary transition only adds
-- rows to objects.tsv. The callback's rows are collected.
pub mod Laws
use backup.Base.{ℕ, Bool, ◌&&◌, List, [], ◌∷◌, length, ◌==◌, Result, ok, err, ◌>>=◌, ◌>>◌, require}
use backup.Repository.DerivedRows.{
  Error, invalid_row, removed_rows, altered_row, Row, DerivedRows, join_errors, field, Comparison,
  before, same, behind, compare_bytes, equal_fields,
}

-- The loop of `mergeCatalogExtension`.
unfoldable pub merge_rows : ℕ → List Row → List Row → Result Error (List Row)
unfolding compare_bytes equal_fields
merge_rows count [] [] = ok []
merge_rows count (old ∷ olds) [] = do require (length old == count) invalid_row; err removed_rows
merge_rows count [] (new ∷ news) = do
  require (length new == count) invalid_row
  rest ← merge_rows count [] news
  ok (new ∷ rest)
merge_rows count (old ∷ olds) (new ∷ news) = do
  require (length old == count && length new == count) invalid_row
  elim (compare_bytes (field old 0) (field new 0)) [
    | same ↦ require (equal_fields old new) altered_row >> merge_rows count olds news
    | before ↦ err removed_rows
    | behind ↦ merge_rows count (old ∷ olds) news >>= λ rest. ok (new ∷ rest)
  ]

-- `mergeCatalogExtension`
unfoldable pub merge_catalog_extension : DerivedRows → DerivedRows → ℕ → Result Error (List Row)
merge_catalog_extension old new count = do
  added ← merge_rows count old.rows new.rows
  join_errors old new
  ok added

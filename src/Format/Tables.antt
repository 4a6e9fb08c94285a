-- ===== src/Format/Tables.antt =====
-- The visitor that `WalkIndex`, `WalkObjects` and `WalkPacks` (internal/format/stream.go) hand to
-- `scanRows`: parse the row, compare it with what is kept of the rows before it, visit the entry.
pub mod Laws
use backup.Base.{ℕ, List, [], ◌∷◌, ◌++◌, Result, ok, ◌>>=◌, ◌>>◌}
use backup.Base.Bytes.{Bytes}
use backup.Format.Errors.{Error}
use backup.Format.Rows.{Reader, Limits, scan_rows}

-- `P` is what is kept of the rows before, `advance` the comparison with it and its update.
module _ {E P : Type 0} (parse_row : List Bytes → Result Error E) (advance : P → E → Result Error P)
    {U : Type 0} (visit : U → E → Result Error U) where
  unfoldable pub visit_entry : P × U → ℕ → List Bytes → Result Error (P × U)
  visit_entry (previous, u) seen row = do
    entry ← parse_row row
    next ← advance previous entry
    u' ← visit u entry
    ok (next, u')

  unfoldable pub walk : Reader → Limits → P × U → Result Error (P × U)
  walk input limits start = scan_rows visit_entry input limits start

-- The visitor of the `Parse` functions: `entries = append(entries, entry)`.
unfoldable pub collect : {E : Type 0} → List E → E → Result Error (List E)
collect entries entry = ok (entries ++ entry ∷ [])

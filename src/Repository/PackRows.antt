-- ===== src/Repository/PackRows.antt =====
-- The merges of two packs.tsv in internal/repository: an ordinary transition and a repair
-- (stream_transition.go), and an alternate catalog for a snapshot (pack_delta.go).
pub mod Ordinary
pub mod Repair
use backup.Base.{
  ℕ, ◌+◌, Bool, true, false, not, ◌&&◌, ◌||◌, List, [], ◌∷◌, take, length, ltb, ◌==◌, if◌then◌else◌,
  Result, ok, err, ◌>>=◌, ◌>>◌, require, refuse,
}
use backup.Base.Bytes.{Bytes, codes, equal}
use backup.Repository.DerivedRows.{
  Error, invalid_row, removed_rows, altered_row, added_parts, rows_differ, logical_field,
  no_relocation, missing_part, immutable_field, Row, DerivedRows, join_errors, field, Comparison,
  before, same, behind, compare_pack_fields, equal_fields,
}

-- The hash of the pack that begins with an added row, before the others.
unfoldable pub begin_pack : Row → List Bytes → List Bytes
begin_pack row hashes = if equal (field row 1) (codes "0") then field row 0 ∷ hashes else hashes

-- The loop over the packs of `validateStreamOrdinaryExtension`; `last` is `lastMatchedOldHash`.
unfoldable pub merge_packs : Bytes → List Row → List Row → Result Error (List Bytes)
unfolding compare_pack_fields equal_fields begin_pack
merge_packs last [] [] = ok []
merge_packs last (old ∷ olds) [] = do require (length old == 8) invalid_row; err removed_rows
merge_packs last [] (new ∷ news) = do
  require (length new == 8) invalid_row
  refuse (equal (field new 0) last) added_parts
  hashes ← merge_packs last [] news
  ok (begin_pack new hashes)
merge_packs last (old ∷ olds) (new ∷ news) = do
  require (length old == 8 && length new == 8) invalid_row
  elim (compare_pack_fields old new) [
    | same ↦ require (equal_fields old new) altered_row >> merge_packs (field old 0) olds news
    | before ↦ err removed_rows
    | behind ↦
        refuse (equal (field new 0) last || equal (field new 0) (field old 0)) added_parts
        >> (merge_packs last (old ∷ olds) news >>= λ hashes. ok (begin_pack new hashes))
  ]

-- The packs of `validateStreamOrdinaryExtension`: the hashes that it writes to its workspace.
unfoldable pub added_packs : DerivedRows → DerivedRows → Result Error (List Bytes)
added_packs old new = do hashes ← merge_packs [] old.rows new.rows; join_errors old new; ok hashes

-- The loop of `isStreamRepairTransition`: how many parts changed their object.
unfoldable pub count_relocated : ℕ → List Row → List Row → Result Error ℕ
unfolding equal_fields
count_relocated changed [] [] = ok changed
count_relocated changed (old ∷ olds) (new ∷ news) = do
  require (length old == 8 && length new == 8) invalid_row
  require (equal_fields (take 7 old) (take 7 new)) logical_field
  count_relocated (if equal (field old 7) (field new 7) then changed else changed + 1) olds news
count_relocated changed _ _ = err rows_differ

-- `isStreamRepairTransition`, of states that differ in packs.tsv only.
unfoldable pub check_relocation : DerivedRows → DerivedRows → Result Error (Unit {0})
check_relocation old new = do
  changed ← count_relocated 0 old.rows new.rows
  join_errors old new
  refuse (changed == 0) no_relocation

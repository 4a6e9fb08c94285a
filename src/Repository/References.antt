-- ===== src/Repository/References.antt =====
-- mergeIndexObjects and mergeObjectPacks (internal/repository/stream_state.go): the references of
-- index.tsv to objects and of objects.tsv to packs, followed by merging sorted files.
pub mod Laws
pub mod Sizes
use backup.Base.{
  ℕ, ◌^◌, Bool, true, false, ◌&&◌, List, [], ◌∷◌, Option, none, some, length, ◌==◌, if◌then◌else◌,
  Result, ok, err, ◌>>=◌, ◌>>◌, require,
}
use backup.Base.Bytes.{Bytes, equal, less}
use backup.Format.Decimal.{parse_digits}
use backup.Repository.DerivedRows.{
  Error, invalid_row, missing_object, size_disagrees, unknown_pack, Row, DerivedRows, join_errors,
  field,
}

-- The inner loop: rows whose first field is before the key are passed over.
unfoldable pub skip_before : Bytes → List Row → List Row
skip_before key [] = []
skip_before key (row ∷ rows) =
    let rest = skip_before key rows in if less (field row 0) key then rest else row ∷ rows

-- The loop that both merges run: each row of the left file looks for its row of the right one.
module _ (left_width right_width : ℕ) (missing : Error)
    (check : Row → Row → Result Error (Unit {0})) where
  unfoldable pub follow : List Row → List Row → Result Error (Unit {0})
  unfolding skip_before
  follow [] rights = ok tt
  follow (left ∷ lefts) rights = do
    require (length left == left_width) invalid_row
    elim (skip_before (field left 0) rights) [
      | [] ↦ err missing
      | right ∷ rest ↦
          require (length right == right_width && equal (field right 0) (field left 0)) missing
          >> check right left
          >> follow lefts (right ∷ rest)
    ]

-- `strconv.ParseUint(text, 10, 64)`, if it is no error.
unfoldable pub parsed_size : Bytes → Option ℕ
parsed_size text = elim (parse_digits text (2 ^ 64)) [ ok n ↦ some n | err e ↦ none ]

unfoldable pub same_size : Option ℕ → Option ℕ → Bool
same_size (some a) (some b) = a == b
same_size _ _ = false

-- The sizes of an object and of a file that refers to it.
unfoldable pub check_sizes : Row → Row → Result Error (Unit {0})
unfolding parsed_size same_size
check_sizes object index =
    require (same_size (parsed_size (field object 1)) (parsed_size (field index 1))) size_disagrees

-- `mergeIndexObjects`
unfoldable pub merge_index_objects : DerivedRows → DerivedRows → Result Error (Unit {0})
unfolding check_sizes
merge_index_objects index objects = do
  follow 3 3 missing_object check_sizes index.rows objects.rows
  join_errors index objects

abbrev pub no_check : Row → Row → Result Error (Unit {0})
no_check right left = ok tt

-- `mergeObjectPacks`
unfoldable pub merge_object_packs : DerivedRows → DerivedRows → Result Error (Unit {0})
merge_object_packs objects packs = do
  follow 2 1 unknown_pack no_check objects.rows packs.rows
  join_errors objects packs

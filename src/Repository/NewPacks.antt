-- ===== src/Repository/NewPacks.antt =====
-- requireNewPackReferences (internal/repository/stream_transition.go): the packs that a transition
-- adds are those that its new objects refer to.
mod Skip
pub mod Laws
use backup.Base.{
  Bool, ◌&&◌, List, [], ◌∷◌, length, ◌==◌, if◌then◌else◌, Result, ok, err, ◌>>=◌, ◌>>◌, require,
  refuse,
}
use backup.Base.Bytes.{Bytes, equal, less}
use backup.Repository.DerivedRows.{
  Error, invalid_row, unreferenced_pack, unknown_pack, Row, DerivedRows, join_errors, field,
}

-- The inner loop: the rows of the hash that was matched.
unfoldable pub skip_same : Bytes → List Row → List Row
skip_same key [] = []
skip_same key (row ∷ rows) =
    let rest = skip_same key rows in if equal (field row 0) key then rest else row ∷ rows

-- The loop of `requireNewPackReferences`.
unfoldable pub match_packs : List Row → List Row → Result Error (Unit {0})
unfolding skip_same
match_packs [] [] = ok tt
match_packs (object ∷ objects) [] = do require (length object == 2) invalid_row; err unknown_pack
match_packs [] (pack ∷ packs) = do require (length pack == 1) invalid_row; err unreferenced_pack
match_packs (object ∷ objects) (pack ∷ packs) = do
  require (length object == 2 && length pack == 1) invalid_row
  refuse (less (field object 0) (field pack 0)) unknown_pack
  refuse (less (field pack 0) (field object 0)) unreferenced_pack
  match_packs (skip_same (field object 0) (object ∷ objects)) packs

-- `requireNewPackReferences`
unfoldable pub require_new_pack_references : DerivedRows → DerivedRows → Result Error (Unit {0})
require_new_pack_references objects packs = do
  match_packs objects.rows packs.rows
  join_errors objects packs

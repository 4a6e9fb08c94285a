-- ===== src/Repository/MirrorLedger.antt =====
-- History.ValidateMirrorTopology (internal/repository/history.go): the mirrors of a candidate are
-- compared with the ledger of a validated history. Opening and scanning the file of the ledger is not
-- part of the model.
pub mod Laws
use backup.Base.{
  Bool, true, false, not, ◌&&◌, List, [], ◌∷◌, map, Option, none, some, leb, length, if◌then◌else◌,
  Result, ok, err, ◌>>=◌, ◌>>◌, require,
}
use backup.Base.Bytes.{Bytes, equal}
use backup.Format.Mirrors.{Mirror, Url, mirror_row, marshal_mirrors}
use backup.Repository.DerivedRows.{
  Error, Row, field, equal_fields, invalid_row, rebound_mirror, invalid_mirrors,
}

-- `candidate[name]`: the row of the canonical text that was stored last under the name.
unfoldable pub find_row : Option Row → Bytes → List Row → Option Row
find_row found name [] = found
find_row found name (row ∷ rows) =
    find_row (if equal (field row 0) name then some row else found) name rows

unfoldable pub check_row : Option Row → Row → Result Error (Unit {0})
unfolding equal_fields
check_row none row = ok tt
check_row (some expected) row = require (equal_fields expected row) rebound_mirror

-- The loop over the ledger.
unfoldable pub check_ledger : List Row → List Row → Result Error (Unit {0})
unfolding find_row check_row
check_ledger candidate [] = ok tt
check_ledger candidate (row ∷ rows) = do
  require (leb 2 (length row) && not (equal (field row 0) [])) invalid_row
  check_row (find_row none (field row 0) candidate) row
  check_ledger candidate rows

-- `ValidateMirrorTopology`
unfoldable pub validate_mirror_topology :
    (Bytes → Option Url) → List Row → List Mirror → Result Error (Unit {0})
unfolding check_ledger
validate_mirror_topology url_parse topology mirrors = elim (marshal_mirrors url_parse mirrors) [
  | ok text ↦ check_ledger (map mirror_row mirrors) topology
  | err e ↦ err invalid_mirrors
]

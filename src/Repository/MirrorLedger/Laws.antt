-- ===== src/Repository/MirrorLedger/Laws.antt =====
-- What `ValidateMirrorTopology` accepts, `compactMirrorTopology` accepts of the longer history.
use backup.Base.{◌≡◌, List, Among}
use backup.Base.Bytes.{Bytes}
use backup.Repository.DerivedRows.{Row, field}

-- No row of the ledger has the name of another row of the candidates.
abbrev Agree : List Row → List Row → Type 0
Agree candidate topology =
    (r e : Row) → Among r topology → Among e candidate → field e 0 ≡ field r 0 → e ≡ r

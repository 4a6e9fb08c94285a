-- ===== src/Repository/AncestorEvents.antt =====
-- The ancestor events of validateStreamCatalogs and validateAncestorEvents
-- (internal/repository/stream_state.go): a leaf of the index that stands above another is found by
-- counting, over the sorted events, the intervals of paths that are open.
pub mod Counts
pub mod Order
pub mod Intervals
pub mod Places
pub mod Visits
pub mod Laws
use backup.Base.{
  ℕ, suc, ◌+◌, ◌-◌, ◌^◌, ◌/◌, ◌%◌, Bool, true, false, not, List, [], ◌∷◌, ◌++◌, ltb, ◌==◌, length,
  if◌then◌else◌, Result, ok, err, ◌>>=◌, ◌>>◌, require, refuse,
}
use backup.Base.Bytes.{Bytes, codes, equal}
use backup.Repository.DerivedRows.{
  Error, read_failed, bad_event, open_below_zero, too_many_open, leaf_above, left_open, Row,
  DerivedRows, field,
}

-- `hex.EncodeToString`
abbrev pub hex_digit : ℕ → ℕ
hex_digit n = if ltb n 10 then b'0' + n else 87 + n

unfoldable pub hex_text : Bytes → Bytes
hex_text [] = []
hex_text (c ∷ s) = hex_digit (c / 16) ∷ hex_digit (c % 16) ∷ hex_text s

-- The events that are written for the path of an entry: the path itself, and the interval of the
-- paths below it, from `path/` up to, but not, `path0`.
unfoldable pub ancestor_events : Bytes → List Row
unfolding hex_text
ancestor_events path =
    (hex_text path ∷ codes "2" ∷ [])
    ∷ (hex_text (path ++ codes "/") ∷ codes "1" ∷ [])
    ∷ (hex_text (path ++ codes "0") ∷ codes "0" ∷ [])
    ∷ []

unfoldable pub all_events : List Bytes → List Row
unfolding ancestor_events
all_events [] = []
all_events (path ∷ paths) = ancestor_events path ++ all_events paths

-- The visitor of `validateAncestorEvents`: the intervals that are open behind the event.
unfoldable pub visit_event : ℕ → Row → Result Error ℕ
visit_event active row = do
  require (length row == 2) bad_event
  (if equal (field row 1) (codes "0")
      then (do refuse (active == 0) open_below_zero; ok (active - 1))
      else if equal (field row 1) (codes "1")
      then (do refuse (active == 2 ^ 63 - 1) too_many_open; ok (active + 1))
      else if equal (field row 1) (codes "2")
      then (do require (active == 0) leaf_above; ok active)
      else err bad_event)

-- `scanDerived` with that visitor, and its `finish`.
unfoldable pub scan_events : ℕ → List Row → Result Error ℕ
unfolding visit_event
scan_events active [] = ok active
scan_events active (row ∷ rows) = do next ← visit_event active row; scan_events next rows

unfoldable pub validate_ancestor_events : DerivedRows → Result Error (Unit {0})
unfolding scan_events
validate_ancestor_events events = do
  active ← scan_events 0 events.rows
  refuse events.fails read_failed
  require (active == 0) left_open

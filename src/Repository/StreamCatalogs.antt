-- ===== src/Repository/StreamCatalogs.antt =====
-- validateStreamCatalogs (internal/repository/stream_state.go): the catalogs of a snapshot are checked
-- against each other by sorting files of their references. The hashes and sizes that it notes of the
-- blobs are in Repository.ParseState; that a sorted file is the file of sorted rows is shown in
-- Repository.Sorting.
pub mod Paths
pub mod Packs
pub mod Objects
pub mod Index
pub mod Laws
pub mod Texts
use backup.Base.{Bool, true, false, List, [], ◌∷◌, map, if◌then◌else◌, Result, ok, err, ◌>>=◌, ◌>>◌}
use backup.Base.Bytes.{Bytes, codes, equal, trim_prefix}
use backup.Format.Decimal.{uint_text}
use backup.Format.Rows.{Reader, Limits}
use backup.Format.Index.{IndexEntry, kind_file, walk_index}
use backup.Format.Tables.{collect}
use backup.Format.Objects.{ObjectEntry, object_row, parse_objects}
use backup.Format.Packs.{PackEntry, parse_packs}
use backup.Repository.DerivedRows.{Error, invalid_catalog, Row, DerivedRows}
use backup.Repository.Sorting.{sort_rows}
use backup.Repository.AncestorEvents.{all_events, validate_ancestor_events}
use backup.Repository.References.{merge_index_objects, merge_object_packs}

-- The visitor of `WalkIndex`: what it writes to `indexRefs`.
abbrev pub reference_row : IndexEntry → Row
reference_row entry =
    trim_prefix entry.ref (codes "blake2b:") ∷ uint_text entry.size ∷ entry.path ∷ []

unfoldable pub index_references : List IndexEntry → List Row
index_references [] = []
index_references (entry ∷ entries) =
    let rest = index_references entries in
    if equal entry.kind kind_file then reference_row entry ∷ rest else rest

-- The visitor of `WalkObjects`: what it writes to `objectPacks`.
abbrev pub pack_reference : ObjectEntry → Row
pack_reference entry = entry.pack_hash ∷ entry.plaintext_hash ∷ []

-- The visitor of `WalkPacks`: each hash is written once, where it differs from `previousPack`.
unfoldable pub pack_hashes : Bytes → List PackEntry → List Row
pack_hashes previous [] = []
pack_hashes previous (entry ∷ entries) =
    let same = pack_hashes previous entries in
    let next = pack_hashes entry.pack_hash entries in
    if equal entry.pack_hash previous then same else (entry.pack_hash ∷ []) ∷ next

abbrev pub written : List Row → DerivedRows
written rows = record { rows = rows; fails = false }

-- `validateStreamCatalogs` behind the walks: sorting and the three merges.
unfoldable pub validate_references :
    List IndexEntry → List ObjectEntry → List PackEntry → Result Error (Unit {0})
unfolding index_references pack_hashes
validate_references index objects packs = do
  validate_ancestor_events (written (sort_rows (all_events (map (λ e. e.path) index))))
  merge_index_objects (written (sort_rows (index_references index)))
      (written (map object_row objects))
  merge_object_packs (written (sort_rows (map pack_reference objects)))
      (written (pack_hashes [] packs))

-- The error of a walk is passed on.
abbrev pub pass_on : {E A : Type 0} → Result E A → Result Error A
pass_on (ok a) = ok a
pass_on (err e) = err invalid_catalog

-- `validateStreamCatalogs`, its visitors after the walks.
unfoldable pub validate_stream_catalogs :
    Limits → Reader → Reader → Reader → Result Error (Unit {0})
unfolding validate_references
validate_stream_catalogs limits index objects packs = do
  index_entries ← pass_on (walk_index collect index limits [])
  object_entries ← pass_on (parse_objects objects limits)
  pack_entries ← pass_on (parse_packs packs limits)
  validate_references index_entries object_entries pack_entries

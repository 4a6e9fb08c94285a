-- ===== src/Repository/StreamCatalogs/Laws.antt =====
-- validateStreamCatalogs accepts the catalogs that ValidateCatalogs accepts.
use backup.Base.{
  ◌<◌, ◌^◌, ◌≡◌, ◌≢◌, ◌↔◌, List, [], map, none, ok, bind-eq-ok, require_then, require-eq-ok, All,
  All-map, length, length-map,
}
use backup.Format.Errors.{bad_hash}
use backup.Format.Patterns.{blake2b_pattern}
use backup.Format.Index.{IndexEntry, validate_index_entry, validate_index_order}
use backup.Format.Objects.{ObjectEntry, object_row, validate_object_entry}
use backup.Format.Packs.{PackEntry, validate_pack_sequence}
use backup.Format.Catalogs.{store_objects, check_objects, validate_catalogs}
use backup.Repository.AncestorEvents.{all_events, validate_ancestor_events}
use backup.Repository.AncestorEvents.Order.{IsByte}
use backup.Repository.AncestorEvents.Laws.{validate_ancestor_events_iff}
use backup.Repository.References.{merge_index_objects}
use backup.Repository.Sorting.{sort_rows}
use backup.Repository.StreamCatalogs.{index_references, written, validate_references}
use backup.Repository.StreamCatalogs.Paths.{paths_of, Rising, NoneAbove-validate_index_order}
use backup.Repository.StreamCatalogs.Packs.{blake2b_some, merge_object_packs-check_objects}
use backup.Repository.StreamCatalogs.Index.{merge_index_objects-check_references}

-- What the walks over the catalogs leave checked.
pub record IsWalked (index : List IndexEntry) (objects : List ObjectEntry) (packs : List PackEntry)
    : Type 0 where
  pub entries : All (λ e. validate_index_entry e ≡ ok tt) index
  pub rising : Rising index
  pub bytes : All (All IsByte) (paths_of index)
  pub few : length index < 2 ^ 63
  pub file_sizes : All (λ e. e.size < 2 ^ 64) index
  pub stored : List ObjectEntry
  pub objects_stored : store_objects none [] objects ≡ ok stored
  pub object_sizes : All (λ o. o.plaintext_size < 2 ^ 64) objects
  pub packed : All (λ o. validate_object_entry o ≡ ok tt) objects
  pub sequence : validate_pack_sequence packs ≡ ok tt

object_named : (o : ObjectEntry) → validate_object_entry o ≡ ok tt → o.pack_hash ≢ []
unfolding validate_object_entry
object_named o h =
    let (_, h1) = require_then (blake2b_pattern o.plaintext_hash) _ _ h in
    blake2b_some o.pack_hash (require-eq-ok (blake2b_pattern o.pack_hash) bad_hash h1)

-- Of catalogs as the walks deliver them, with fewer than 2^63 entries of the index and sizes that
-- are uint64, the sorting and merging of `validateStreamCatalogs` accepts exactly those that
-- `ValidateCatalogs` accepts: no path is above another, every file has an object of its size, and
-- every object a pack.
pub validate_references-validate_catalogs :
    (index : List IndexEntry) (objects : List ObjectEntry) (packs : List PackEntry)
    → IsWalked index objects packs
    → (validate_references index objects packs ≡ ok tt)
      ↔ (validate_catalogs index objects packs ≡ ok tt)
unfolding validate_references validate_catalogs
validate_references-validate_catalogs index objects packs w =
    let events =
      validate_ancestor_events_iff (paths_of index) w.bytes
        (rw (length-map (λ e. e.path) index) w.few) in
    let order = NoneAbove-validate_index_order index w.entries w.rising in
    let packs' =
      merge_object_packs-check_objects objects packs (All-map object_named objects w.packed)
        w.sequence in
    let refs =
      merge_index_objects-check_references objects w.stored w.objects_stored w.object_sizes index
        w.file_sizes w.entries in
    (
      λ h.
          let (_, sorted, h1) =
            bind-eq-ok
              (validate_ancestor_events (written (sort_rows (all_events (paths_of index))))) _ h in
          let (_, referred, placed) =
            bind-eq-ok
              (merge_index_objects (written (sort_rows (index_references index)))
                (written (map object_row objects)))
              _ h1 in
          rw (order.0 (events.0 sorted), w.sequence, w.objects_stored, packs'.0 placed)
            (refs.0 referred),
      λ h.
          let (_, ordered, h1) = bind-eq-ok (validate_index_order index) _ h in
          let (_, _, h2) = bind-eq-ok (validate_pack_sequence packs) _ h1 in
          let (_, placed, referred) =
            bind-eq-ok (check_objects packs objects) _ (rw w.objects_stored at h2) in
          rw (events.1 (order.1 ordered), refs.1 referred) (packs'.1 placed),
    )

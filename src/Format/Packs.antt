-- ===== src/Format/Packs.antt =====
-- packs.tsv (internal/format/metadata.go and stream.go): the encrypted parts of every pack.
-- Part numbers and counts are uint32, and `+ 1` on them wraps.
pub mod Sequence
pub mod Laws
pub mod Complete
use backup.Base.{
  ℕ, ◌+◌, ◌%◌, ◌^◌, Bool, true, false, not, ◌&&◌, ◌||◌, List, [], ◌∷◌, map, Option, none, some, leb,
  ◌==◌, if◌then◌else◌, Result, ok, err, ◌>>=◌, ◌>>◌, require, refuse,
}
use backup.Base.Bytes.{Bytes, equal, at_least}
use backup.Format.Errors.{
  Error, field_count, bad_hash, bad_checksum, bad_part, empty_part, bad_object_id, not_sorted,
  bad_start, noncontiguous, missing_terminal,
}
use backup.Format.Decimal.{parse_uint, uint_text}
use backup.Format.Patterns.{blake2b_pattern, sha256_pattern, md5_pattern, object_id_pattern}
use backup.Format.Rows.{Reader, Limits, marshal_rows}
use backup.Format.Tables.{walk, collect}

-- `PackEntry`
pub record PackEntry : Type 0 where
  pub pack_hash : Bytes
  pub part_number : ℕ
  pub part_count : ℕ
  pub part_hash : Bytes
  pub part_sha256 : Bytes
  pub part_md5 : Bytes
  pub part_size : ℕ
  pub object_id : Bytes

-- `validatePackEntry`
unfoldable pub validate_pack_entry : PackEntry → Result Error (Unit {0})
validate_pack_entry entry = do
  require (blake2b_pattern entry.pack_hash && blake2b_pattern entry.part_hash) bad_hash
  require (sha256_pattern entry.part_sha256 && md5_pattern entry.part_md5) bad_checksum
  refuse (entry.part_count == 0 || leb entry.part_count entry.part_number) bad_part
  refuse (entry.part_size == 0) empty_part
  require (object_id_pattern entry.object_id) bad_object_id

unfoldable pub pack_fields : PackEntry → List Bytes
pack_fields entry =
    entry.pack_hash
    ∷ uint_text entry.part_number
    ∷ uint_text entry.part_count
    ∷ entry.part_hash
    ∷ entry.part_sha256
    ∷ entry.part_md5
    ∷ uint_text entry.part_size
    ∷ entry.object_id
    ∷ []

-- `PackEntry.row`
unfoldable pub pack_row : PackEntry → Result Error (List Bytes)
pack_row entry = do validate_pack_entry entry; ok (pack_fields entry)

abbrev pub next_part : PackEntry → ℕ
next_part entry = (entry.part_number + 1) % 2 ^ 32

-- `entry.PartNumber+1 == entry.PartCount`
abbrev pub is_terminal : PackEntry → Bool
is_terminal entry = next_part entry == entry.part_count

-- `entry` goes on with the pack of `previous`.
abbrev pub continues_pack : PackEntry → PackEntry → Result Error (Unit {0})
continues_pack previous entry =
    require (entry.part_count == previous.part_count && entry.part_number == next_part previous)
      noncontiguous

-- `entry` starts another pack than that of `previous`.
abbrev pub starts_pack : PackEntry → PackEntry → Result Error (Unit {0})
starts_pack previous entry = do
  refuse (at_least previous.pack_hash entry.pack_hash) not_sorted
  require (entry.part_number == 0) bad_start

-- The place of an entry behind the one before it, in the loop of `validatePackSequence`.
unfoldable pub check_place : Option PackEntry → PackEntry → Result Error (Unit {0})
check_place none entry = require (entry.part_number == 0) bad_start
check_place (some previous) entry =
    if not (equal previous.pack_hash entry.pack_hash)
    then starts_pack previous entry
    else continues_pack previous entry

-- `index == len(entries)-1 || entries[index+1].PackHash != entry.PackHash`
unfoldable pub last_for_pack : PackEntry → List PackEntry → Bool
last_for_pack entry [] = true
last_for_pack entry (next ∷ entries) = not (equal next.pack_hash entry.pack_hash)

-- The loop of `validatePackSequence`.
unfoldable pub check_sequence : Option PackEntry → List PackEntry → Result Error (Unit {0})
check_sequence previous [] = ok tt
check_sequence previous (entry ∷ entries) = do
  validate_pack_entry entry
  check_place previous entry
  refuse (last_for_pack entry entries && not (is_terminal entry)) missing_terminal
  check_sequence (some entry) entries

-- `validatePackSequence`
unfoldable pub validate_pack_sequence : List PackEntry → Result Error (Unit {0})
unfolding check_sequence check_place last_for_pack
validate_pack_sequence entries = check_sequence none entries

unfoldable pub pack_rows : List PackEntry → Result Error (List (List Bytes))
pack_rows [] = ok []
pack_rows (entry ∷ entries) = do row ← pack_row entry; rows ← pack_rows entries; ok (row ∷ rows)

-- `MarshalPacks`
unfoldable pub marshal_packs : List PackEntry → Result Error Bytes
unfolding pack_rows
marshal_packs entries = do
  validate_pack_sequence entries
  rows ← pack_rows entries
  marshal_rows rows

-- `MarshalPackEntry`
unfoldable pub marshal_pack_entry : PackEntry → Result Error Bytes
marshal_pack_entry entry = do row ← pack_row entry; marshal_rows (row ∷ [])

-- `parsePackRow`
unfoldable pub parse_pack_row : List Bytes → Result Error PackEntry
parse_pack_row (pack ∷ number ∷ count ∷ hash ∷ sha256 ∷ md5 ∷ size ∷ id ∷ []) = do
  part_number ← parse_uint number 32
  part_count ← parse_uint count 32
  part_size ← parse_uint size 64
  let entry : PackEntry = record {
    pack_hash = pack;
    part_number = part_number;
    part_count = part_count;
    part_hash = hash;
    part_sha256 = sha256;
    part_md5 = md5;
    part_size = part_size;
    object_id = id;
  }
  validate_pack_entry entry
  ok entry
parse_pack_row _ = err field_count

-- The comparison of `WalkPacks` with the row before, which it keeps.
unfoldable pub advance_pack : Option PackEntry → PackEntry → Result Error (Option PackEntry)
advance_pack none entry = do require (entry.part_number == 0) bad_start; ok (some entry)
advance_pack (some previous) entry = do
  (if not (equal previous.pack_hash entry.pack_hash)
      then require (is_terminal previous) missing_terminal >> starts_pack previous entry
      else continues_pack previous entry)
  ok (some entry)

-- `WalkPacks` behind its loop.
unfoldable pub finish_packs : Option PackEntry → Result Error (Unit {0})
finish_packs none = ok tt
finish_packs (some previous) = require (is_terminal previous) missing_terminal

-- `WalkPacks`
unfoldable pub walk_packs :
    {U : Type 0} → (U → PackEntry → Result Error U) → Reader → Limits → U → Result Error U
walk_packs visit input limits u = do
  end ← walk parse_pack_row advance_pack visit input limits (none, u)
  finish_packs end.0
  ok end.1

-- `ParsePacks`
unfoldable pub parse_packs : Reader → Limits → Result Error (List PackEntry)
parse_packs input limits = walk_packs collect input limits []

-- ===== src/Format/Index.antt =====
-- index.tsv (internal/format/metadata.go and stream.go): the files and symbolic links of a snapshot.
pub mod Ancestors
pub mod Order
pub mod Rows
pub mod Laws
use backup.Base.{
  ℕ, zero, suc, ◌+◌, ◌-◌, ◌*◌, ◌/◌, ◌%◌, Bool, true, false, not, ◌&&◌, ◌||◌, List, [], ◌∷◌, ◌++◌,
  map, Option, none, some, ltb, leb, ◌==◌, if◌then◌else◌, length, Result, ok, err, ◌>>=◌, ◌>>◌,
  require, refuse,
}
use backup.Base.Bytes.{Bytes, codes, equal, at_least, has_prefix, trim_prefix}
use backup.Format.Errors.{
  Error, field_count, bad_mode, bad_kind, bad_reference, symlink_metadata, not_sorted,
  leaf_is_ancestor,
}
use backup.Format.Decimal.{ℤ, pos, negsuc, parse_uint, parse_int64, uint_text, int_text}
use backup.Format.Patterns.{blake2b_pattern}
use backup.Format.Paths.{slash, validate_path, validate_symlink_target}
use backup.Format.Rows.{Reader, Limits, marshal_rows}
use backup.Format.Tables.{walk, collect}

abbrev pub kind_file : Bytes
kind_file = codes "file"

abbrev pub kind_symlink : Bytes
kind_symlink = codes "symlink"

-- `IndexEntry`; the mode is a uint32, the time an int64.
pub record IndexEntry : Type 0 where
  pub path : Bytes
  pub kind : Bytes
  pub ref : Bytes
  pub size : ℕ
  pub mode : ℕ
  pub mtime_ns : ℤ

abbrev pub is_zero : ℤ → Bool
is_zero (pos n) = n == 0
is_zero (negsuc n) = false

-- The two cases of the switch of `validateIndexEntry`.
unfoldable pub validate_file : IndexEntry → Result Error (Unit {0})
validate_file entry = do
  require
      (has_prefix entry.ref (codes "blake2b:")
        && blake2b_pattern (trim_prefix entry.ref (codes "blake2b:")))
      bad_reference
  refuse (ltb 0o777 entry.mode) bad_mode

unfoldable pub validate_symlink : IndexEntry → Result Error (Unit {0})
validate_symlink entry = do
  require (entry.size == 0 && entry.mode == 0 && is_zero entry.mtime_ns) symlink_metadata
  require (has_prefix entry.ref (codes "target:")) bad_reference
  validate_symlink_target (trim_prefix entry.ref (codes "target:"))

-- `validateIndexEntry`
unfoldable pub validate_index_entry : IndexEntry → Result Error (Unit {0})
unfolding validate_file validate_symlink
validate_index_entry entry = do
  validate_path entry.path
  (if equal entry.kind kind_file
      then validate_file entry
      else if equal entry.kind kind_symlink
      then validate_symlink entry
      else err bad_kind)

abbrev pub octal : ℕ → ℕ
octal digit = b'0' + digit % 8

-- `fmt.Sprintf("%04o", mode)`, of a mode of at most four octal digits.
unfoldable pub mode_text : ℕ → Bytes
mode_text mode = octal (mode / 512) ∷ octal (mode / 64) ∷ octal (mode / 8) ∷ octal mode ∷ []

unfoldable pub index_fields : IndexEntry → List Bytes
index_fields entry =
    entry.path
    ∷ entry.kind
    ∷ entry.ref
    ∷ (if equal entry.kind kind_symlink
        then codes "0" ∷ codes "-" ∷ codes "-" ∷ []
        else uint_text entry.size ∷ mode_text entry.mode ∷ int_text entry.mtime_ns ∷ [])

-- `IndexEntry.row`
unfoldable pub index_row : IndexEntry → Result Error (List Bytes)
index_row entry = do validate_index_entry entry; ok (index_fields entry)

-- The text before the last slash, if there is a slash: `parent[:strings.LastIndexByte(parent, '/')]`.
unfoldable pub before_last_slash : Bytes → Option Bytes
before_last_slash [] = none
before_last_slash (c ∷ s) = elim (before_last_slash s) [
  | some q ↦ some (c ∷ q)
  | none ↦ if c == slash then some [] else none
]

-- The parents that the inner loop of `validateIndexOrder` looks up, the nearest one first. A round
-- shortens the path, so its length is fuel enough.
unfoldable pub parents_in : ℕ → Bytes → List Bytes
parents_in zero path = []
parents_in (suc fuel) path = elim (before_last_slash path) [
  | none ↦ []
  | some parent ↦ if leb (length parent) 1 then [] else parent ∷ parents_in fuel parent
]

abbrev pub parents : Bytes → List Bytes
parents path = parents_in (length path) path

unfoldable pub member : Bytes → List Bytes → Bool
member path [] = false
member path (other ∷ seen) = equal path other || member path seen

unfoldable pub any_member : List Bytes → List Bytes → Bool
unfolding member
any_member [] seen = false
any_member (path ∷ paths) seen = member path seen || any_member paths seen

-- `index > 0 && previous >= entry.Path`; the paths seen are kept with the last one first.
unfoldable pub not_after : List Bytes → Bytes → Bool
not_after [] path = false
not_after (previous ∷ seen) path = at_least previous path

-- The loop of `validateIndexOrder`.
unfoldable pub check_order : List Bytes → List IndexEntry → Result Error (Unit {0})
check_order seen [] = ok tt
check_order seen (entry ∷ entries) = do
  refuse (not_after seen entry.path) not_sorted
  refuse (any_member (parents entry.path) seen) leaf_is_ancestor
  check_order (entry.path ∷ seen) entries

-- `validateIndexOrder`
unfoldable pub validate_index_order : List IndexEntry → Result Error (Unit {0})
unfolding check_order not_after
validate_index_order entries = check_order [] entries

unfoldable pub index_rows : List IndexEntry → Result Error (List (List Bytes))
index_rows [] = ok []
index_rows (entry ∷ entries) = do row ← index_row entry; rows ← index_rows entries; ok (row ∷ rows)

-- `MarshalIndex`
unfoldable pub marshal_index : List IndexEntry → Result Error Bytes
unfolding index_rows
marshal_index entries = do
  rows ← index_rows entries
  validate_index_order entries
  marshal_rows rows

-- `MarshalIndexEntry`
unfoldable pub marshal_index_entry : IndexEntry → Result Error Bytes
marshal_index_entry entry = do row ← index_row entry; marshal_rows (row ∷ [])

abbrev pub is_octal : ℕ → Bool
is_octal c = leb b'0' c && leb c b'7'

-- Four octal digits, the first of them `0`: `strconv.ParseUint(row[4], 8, 12)` and the tests by it.
unfoldable pub parse_mode : Bytes → Result Error ℕ
parse_mode (a ∷ b ∷ c ∷ d ∷ []) = do
  require (a == b'0') bad_mode
  require (is_octal a && is_octal b && is_octal c && is_octal d) bad_mode
  let mode = (((a - b'0') * 8 + (b - b'0')) * 8 + (c - b'0')) * 8 + (d - b'0')
  refuse (ltb 0o777 mode) bad_mode
  ok mode
parse_mode _ = err bad_mode

-- The two cases of the switch of `parseIndexRow`.
unfoldable pub parse_file : Bytes → Bytes → Bytes → ℕ → Bytes → Bytes → Result Error IndexEntry
parse_file path kind ref size mode_field mtime_field = do
  mode ← parse_mode mode_field
  mtime ← parse_int64 mtime_field
  ok (record { path = path; kind = kind; ref = ref; size = size; mode = mode; mtime_ns = mtime })

unfoldable pub parse_symlink : Bytes → Bytes → Bytes → ℕ → Bytes → Bytes → Result Error IndexEntry
parse_symlink path kind ref size mode_field mtime_field = do
  require (equal mode_field (codes "-") && equal mtime_field (codes "-")) symlink_metadata
  ok (record { path = path; kind = kind; ref = ref; size = size; mode = 0; mtime_ns = pos 0 })

-- `parseIndexRow`
unfoldable pub parse_index_row : List Bytes → Result Error IndexEntry
unfolding parse_file parse_symlink
parse_index_row (path ∷ kind ∷ ref ∷ size_field ∷ mode_field ∷ mtime_field ∷ []) = do
  size ← parse_uint size_field 64
  entry ←
      (if equal kind kind_file
        then parse_file path kind ref size mode_field mtime_field
        else if equal kind kind_symlink
        then parse_symlink path kind ref size mode_field mtime_field
        else err bad_kind)
  validate_index_entry entry
  ok entry
parse_index_row _ = err field_count

-- The comparison of `WalkIndex` with the path of the row before; it is empty before the first.
unfoldable pub advance_index : Bytes → IndexEntry → Result Error Bytes
advance_index previous entry = do
  refuse (not (equal previous []) && at_least previous entry.path) not_sorted
  ok entry.path

-- `WalkIndex`
unfoldable pub walk_index :
    {U : Type 0} → (U → IndexEntry → Result Error U) → Reader → Limits → U → Result Error U
walk_index visit input limits u = do
  end ← walk parse_index_row advance_index visit input limits ([], u)
  ok end.1

-- `ParseIndex`
unfoldable pub parse_index : Reader → Limits → Result Error (List IndexEntry)
parse_index input limits = do
  entries ← walk_index collect input limits []
  validate_index_order entries
  ok entries

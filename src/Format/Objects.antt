-- ===== src/Format/Objects.antt =====
-- objects.tsv (internal/format/metadata.go and stream.go): which pack holds each plaintext object.
pub mod Laws
use backup.Base.{
  ℕ, Bool, false, not, ◌&&◌, List, [], ◌∷◌, Option, none, some, Result, ok, err, ◌>>=◌, ◌>>◌,
  require, refuse,
}
use backup.Base.Bytes.{Bytes, equal, at_least}
use backup.Format.Errors.{Error, field_count, bad_hash, not_sorted}
use backup.Format.Decimal.{parse_uint, uint_text}
use backup.Format.Patterns.{blake2b_pattern}
use backup.Format.Rows.{Reader, Limits, marshal_rows}
use backup.Format.Tables.{walk, collect}

-- `ObjectEntry`
pub record ObjectEntry : Type 0 where
  pub plaintext_hash : Bytes
  pub plaintext_size : ℕ
  pub pack_hash : Bytes

-- `validateObjectEntry`
unfoldable pub validate_object_entry : ObjectEntry → Result Error (Unit {0})
validate_object_entry entry = do
  require (blake2b_pattern entry.plaintext_hash) bad_hash
  require (blake2b_pattern entry.pack_hash) bad_hash

unfoldable pub object_row : ObjectEntry → List Bytes
object_row entry = entry.plaintext_hash ∷ uint_text entry.plaintext_size ∷ entry.pack_hash ∷ []

-- `index > 0 && entries[index-1].PlaintextHash >= entry.PlaintextHash`
unfoldable pub object_not_after : Option ObjectEntry → ObjectEntry → Bool
object_not_after none entry = false
object_not_after (some previous) entry = at_least previous.plaintext_hash entry.plaintext_hash

-- The loop of `MarshalObjects`.
unfoldable pub object_rows :
    Option ObjectEntry → List ObjectEntry → Result Error (List (List Bytes))
object_rows previous [] = ok []
object_rows previous (entry ∷ entries) = do
  validate_object_entry entry
  refuse (object_not_after previous entry) not_sorted
  rest ← object_rows (some entry) entries
  ok (object_row entry ∷ rest)

-- `MarshalObjects`
unfoldable pub marshal_objects : List ObjectEntry → Result Error Bytes
unfolding object_rows object_not_after
marshal_objects entries = do rows ← object_rows none entries; marshal_rows rows

-- `MarshalObjectEntry`
unfoldable pub marshal_object_entry : ObjectEntry → Result Error Bytes
marshal_object_entry entry = do validate_object_entry entry; marshal_rows (object_row entry ∷ [])

-- `parseObjectRow`
unfoldable pub parse_object_row : List Bytes → Result Error ObjectEntry
parse_object_row (hash ∷ size_text ∷ pack ∷ []) = do
  size ← parse_uint size_text 64
  let entry : ObjectEntry = record {
    plaintext_hash = hash;
    plaintext_size = size;
    pack_hash = pack;
  }
  validate_object_entry entry
  ok entry
parse_object_row _ = err field_count

-- The comparison of `WalkObjects` with the hash of the row before; it is empty before the first.
unfoldable pub advance_object : Bytes → ObjectEntry → Result Error Bytes
advance_object previous entry = do
  refuse (not (equal previous []) && at_least previous entry.plaintext_hash) not_sorted
  ok entry.plaintext_hash

-- `WalkObjects`
unfoldable pub walk_objects :
    {U : Type 0} → (U → ObjectEntry → Result Error U) → Reader → Limits → U → Result Error U
walk_objects visit input limits u = do
  end ← walk parse_object_row advance_object visit input limits ([], u)
  ok (end.1)

-- `ParseObjects`
unfoldable pub parse_objects : Reader → Limits → Result Error (List ObjectEntry)
parse_objects input limits = walk_objects collect input limits []

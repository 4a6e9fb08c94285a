-- ===== src/Format/Patterns.antt =====
-- The regular expressions of internal/format/metadata.go, as matchers of whole texts: a list of
-- character classes, or a first class and at most 62 bytes of another.
pub mod Fields
use backup.Base.{
  ℕ, zero, suc, Bool, true, false, ◌&&◌, ◌||◌, List, [], ◌∷◌, ◌++◌, leb, ◌==◌, length,
}
use backup.Base.Bytes.{Bytes}

abbrev within : ℕ → ℕ → ℕ → Bool
within lo hi c = leb lo c && leb c hi

-- `[0-9a-f]`
unfoldable pub is_hex : ℕ → Bool
is_hex c = within b'0' b'9' c || within b'a' b'f' c

abbrev pub Class : Type 0
Class = ℕ → Bool

abbrev pub repeat : ℕ → Class → List Class → List Class
repeat zero class rest = rest
repeat (suc n) class rest = class ∷ repeat n class rest

-- `^` a class for each byte `$`
unfoldable pub matches : List Class → Bytes → Bool
matches [] [] = true
matches (class ∷ classes) (c ∷ value) = class c && matches classes value
matches _ _ = false

abbrev dash : Class
dash c = c == b'-'

-- `uuidPattern`
unfoldable pub uuid_pattern : Bytes → Bool
unfolding matches is_hex
uuid_pattern = matches (
    repeat 8 is_hex (
      dash
      ∷ repeat 4 is_hex (
          dash
          ∷ within b'1' b'5'
          ∷ repeat 3 is_hex (
              dash
              ∷ (λ c. c == b'8' || c == b'9' || c == b'a' || c == b'b')
              ∷ repeat 3 is_hex (dash ∷ repeat 12 is_hex [])))))

-- `objectIDPattern`, `md5Pattern`: 32 hexadecimal digits.
unfoldable pub object_id_pattern : Bytes → Bool
object_id_pattern = matches (repeat 32 is_hex [])

unfoldable pub md5_pattern : Bytes → Bool
md5_pattern = matches (repeat 32 is_hex [])

-- `sha256Pattern`, `commitPattern`
unfoldable pub sha256_pattern : Bytes → Bool
sha256_pattern = matches (repeat 64 is_hex [])

unfoldable pub commit_pattern : Bytes → Bool
commit_pattern = matches (repeat 64 is_hex [])

-- `blake2bPattern`
unfoldable pub blake2b_pattern : Bytes → Bool
blake2b_pattern = matches (repeat 128 is_hex [])

-- `[a-z0-9]`
abbrev is_name_start : Class
is_name_start c = within b'a' b'z' c || within b'0' b'9' c

unfoldable pub all_of : Class → Bytes → Bool
all_of class [] = true
all_of class (c ∷ value) = class c && all_of class value

unfoldable pub begins : Class → Class → Bytes → Bool
begins head rest [] = false
begins head rest (c ∷ value) = head c && all_of rest value && leb (length value) 62

-- `namePattern`
unfoldable pub name_pattern : Bytes → Bool
unfolding begins all_of
name_pattern = begins is_name_start (λ c. is_name_start c || c == b'.' || c == b'_' || c == b'-')

-- `regionPattern`
unfoldable pub region_pattern : Bytes → Bool
unfolding begins all_of
region_pattern = begins is_name_start (λ c. is_name_start c || c == b'-')

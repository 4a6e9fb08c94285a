-- ===== src/Tests/Data.antt =====
-- Texts and limits that the tests share.
use backup.Base.Bytes.{Bytes, codes}
use backup.Format.Rows.{Limits}

abbrev pub limits : Limits
limits = record {
  max_file_bytes = 65536;
  max_line_bytes = 4096;
  max_field_bytes = 1024;
  max_records = 100;
}

-- 128, 64 and 32 hexadecimal digits.
abbrev pub hash_a : Bytes
hash_a =
    codes
      "aaaaaaaaaaaaaaaaaaaaaaaaaaaaaaaaaaaaaaaaaaaaaaaaaaaaaaaaaaaaaaaaaaaaaaaaaaaaaaaaaaaaaaaaaaaaaaaaaaaaaaaaaaaaaaaaaaaaaaaaaaaaaaaa"

abbrev pub hash_b : Bytes
hash_b =
    codes
      "bbbbbbbbbbbbbbbbbbbbbbbbbbbbbbbbbbbbbbbbbbbbbbbbbbbbbbbbbbbbbbbbbbbbbbbbbbbbbbbbbbbbbbbbbbbbbbbbbbbbbbbbbbbbbbbbbbbbbbbbbbbbbbbb"

abbrev pub sha : Bytes
sha = codes "3333333333333333333333333333333333333333333333333333333333333333"

abbrev pub commit : Bytes
commit = codes "cccccccccccccccccccccccccccccccccccccccccccccccccccccccccccccccc"

abbrev pub digest : Bytes
digest = codes "55555555555555555555555555555555"

abbrev pub id : Bytes
id = codes "11111111111111111111111111111111"

-- ===== src/Tests/ParseState.antt =====
-- A repository of one file, its state parsed.
use mathlib.Core.Path.{subst}
use backup.Base.{
  All, [], err, false, length, ok, refl, some, some-eq, true, ℕ, ◌<◌, ◌==◌, ◌^◌, ◌↔◌, ◌∷◌, ◌≡◌,
}
use backup.Base.Bytes.{Bytes, codes, contains, equal, has_prefix, less, trim_prefix}
use backup.Format.Rows.{
  append_row, check_end, check_fields, check_line, cons_head, last_token, read_rows, scan_lines,
  scan_rows, split_fields, validate_limits, visit_lines,
}
use backup.Format.Rows.RoundTrip.{reader}
use backup.Format.Index.{index_fields, kind_file, mode_text}
use backup.Format.Objects.{object_row}
use backup.Format.Packs.{pack_fields}
use backup.Format.FormatFile.{new_repository_format}
use backup.Format.Catalogs.Laws.{IsRestorable}
use backup.Repository.AncestorEvents.Order.{IsByte}
use backup.Repository.Transition.{State, blob_equal, blobs_equal, states_equal}
use backup.Repository.DerivedRows.{catalogs_given, missing_blob, wrong_blob_count}
use backup.Repository.StreamCatalogs.Texts.{IsParsed}
use backup.Repository.ParseState.{
  Blobs, Libraries, check_expected, check_required, find_blob, hash_of, parse_memory_state,
  parse_preparation_state, parse_state, parse_stream_state, read_config, rows_of_blob, size_of,
}
use backup.Repository.ParseState.Laws.{parse_state-IsRestorable, states_equal_iff}
use backup.Tests.Data.{limits}
use backup.Tests.Catalogs.{index, packs}
use backup.Tests.FormatFile.{format_text, parse_format-format_text, uuid}
use backup.Tests.Ignore.{compile}
use backup.Tests.Mirrors.{mirror_text, mirrors, parse_mirrors-text, url_parse}
use backup.Format.Utf8.{continues, lead, utf8_valid}
use backup.Format.Decimal.{int_text, uint_text}
use backup.Format.Ignore.{
  check_config_line, compile_lines, config_lines, ignores, match_any, parse_ignore,
  read_config_lines,
}
use backup.Tests.StreamCatalogs.{
  catalogs-valid, index-IsByte, index-few, index_text, objects_text, packs_text,
}

-- The hash of bytes is the bytes, and each byte of the file of keys is a key.
abbrev libraries : Libraries ℕ Bytes
libraries = record {
  parse_key_chains = λ blob. some (length blob);
  no_key_chains = λ keys. keys == 0;
  maximum_key_bytes = 4096;
  blake2b = λ blob. blob;
  url_parse = url_parse;
  compile = compile;
}

abbrev blobs_of : Bytes → Bytes → Bytes → Bytes → Blobs
blobs_of ignore index objects packs =
    (codes ".publickeys", codes "k")
    ∷ (codes "FORMAT", format_text)
    ∷ (codes "ignore", ignore)
    ∷ (codes "index.tsv", index)
    ∷ (codes "mirrors.tsv", mirror_text)
    ∷ (codes "objects.tsv", objects)
    ∷ (codes "packs.tsv", packs)
    ∷ []

abbrev blobs : Blobs
blobs = blobs_of (codes "./tmp\n") index_text objects_text packs_text

abbrev state_of : Blobs → Bytes → Bytes → State ℕ
state_of from objects packs = record {
  format = new_repository_format uuid;
  public_keys = 1;
  mirrors = mirrors;
  has_source = true;
  blob_hashes = λ name. hash_of libraries (find_blob name from);
  hash_count = 7;
  blob_sizes = λ name. size_of libraries (find_blob name from);
  size_count = 7;
  objects = rows_of_blob objects;
  packs = rows_of_blob packs;
}

abbrev state : State ℕ
state = state_of blobs objects_text packs_text

parsed : parse_state libraries blobs limits ≡ ok state
unfolding equal less contains has_prefix trim_prefix utf8_valid lead continues read_rows append_row
    scan_rows visit_lines check_line check_end check_fields split_fields cons_head scan_lines
    last_token validate_limits check_config_line config_lines read_config_lines compile_lines
    parse_ignore match_any ignores find_blob read_config check_required check_expected
    parse_stream_state parse_memory_state parse_state
parsed = rw (parse_format-format_text, parse_mirrors-text, catalogs-valid)

parse_state-IsRestorable_example :
    (index objects packs : Bytes) × (find_blob (codes "index.tsv") blobs ≡ some index)
    × (find_blob (codes "objects.tsv") blobs ≡ some objects)
    × (find_blob (codes "packs.tsv") blobs ≡ some packs)
    × ((r : IsParsed limits (reader index) (reader objects) (reader packs)) × All
          (λ e. e.kind ≡ kind_file → IsRestorable e r.object_entries r.pack_entries)
          r.entries)
unfolding find_blob equal
parse_state-IsRestorable_example =
    parse_state-IsRestorable libraries blobs limits parsed (λ text found.
      subst (λ bytes. All IsByte bytes × (length bytes < 2 ^ 63)) (some-eq found)
        (index-IsByte, index-few))

-- The same repository with another ignore file.
abbrev changed : Blobs
changed = blobs_of (codes "./cache\n") index_text objects_text packs_text

parsed_changed :
    parse_state libraries changed limits ≡ ok (state_of changed objects_text packs_text)
unfolding equal less contains has_prefix trim_prefix utf8_valid lead continues read_rows append_row
    scan_rows visit_lines check_line check_end check_fields split_fields cons_head scan_lines
    last_token validate_limits check_config_line config_lines read_config_lines compile_lines
    parse_ignore match_any ignores find_blob read_config check_required check_expected
    parse_stream_state parse_memory_state parse_state
parsed_changed = rw (parse_format-format_text, parse_mirrors-text, catalogs-valid)

states_equal_iff_example :
    (states_equal state (state_of changed objects_text packs_text) ≡ true)
    ↔ ((name : Bytes) → find_blob name blobs ≡ find_blob name changed)
states_equal_iff_example =
    states_equal_iff libraries blobs changed limits limits parsed parsed_changed
      (λ name a b found found' same. same)

-- A state is the same as itself, and not as the changed one.
compared :
    (states_equal state state ≡ true)
    × (states_equal state (state_of changed objects_text packs_text) ≡ false)
unfolding equal find_blob blob_equal blobs_equal states_equal pack_fields uint_text index_fields
    mode_text int_text object_row
compared = (refl, refl)

abbrev other_blobs : Blobs
other_blobs =
    (codes "FORMAT", format_text)
    ∷ (codes "ignore", [])
    ∷ (codes "index.tsv", [])
    ∷ (codes "mirrors.tsv", [])
    ∷ (codes "objects.tsv", [])
    ∷ (codes "packs.tsv", [])
    ∷ []

-- Too few blobs, another than `.publickeys`, and a preparation that has catalogs.
errors :
    (parse_state libraries [] limits ≡ err wrong_blob_count)
    × (parse_state libraries ((codes "x", []) ∷ other_blobs) limits ≡ err missing_blob)
    × (parse_preparation_state libraries blobs limits ≡ err catalogs_given)
unfolding equal index_fields mode_text uint_text int_text find_blob check_required check_expected
    parse_memory_state parse_state parse_preparation_state
errors = (refl, refl, refl)

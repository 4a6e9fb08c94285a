-- ===== src/Tests/History.antt =====
-- A history of two commits, from git that knows them, with and without a cache.
use backup.Format.Rows.Split.{rows_text}
use backup.Base.{
  ◌↔◌, ℕ, suc, take, ◌≡◌, refl, List, [], ◌∷◌, map, none, some, if◌then◌else◌, Result, ok, err,
}
use backup.Base.Bytes.{Bytes, contains, codes, equal, has_prefix, less, trim_prefix}
use backup.Extsort.{before}
use backup.Format.FormatFile.{new_repository_format}
use backup.Format.Mirrors.{
  validate_endpoint, all_hex, parse_mirror_rows, validate_remote, parse_mirrors, validate_mirror,
  marshal_mirrors, name_not_after, validate_store, mirror_rows, mirror_row, validate_s3_url,
}
use backup.Repository.DerivedRows.{
  Row, read_failed, Error, compare_bytes, compare_pack_fields, compare_second, equal_fields,
  join_errors, part_digits, part_value,
}
use backup.Repository.PackDelta.{transition_invalid, transition_ordinary}
use backup.Repository.Transition.{
  blob_equal, blobs_equal, check_mirror, find_mirror, ordinary_extension, states_equal,
  validate_mirror_identity, validate_ordinary, validate_repair, validate_state, validate_transition,
}
use backup.Repository.History.{
  Environment, Content, Cache, validate_history, History, anchor_of, anchor_placed, append_mirrors,
  compact_mirror_topology, compact_rows, follow_ids, resume, validate_first, validate_genesis,
  validate_next, walk_cached, walk_ids,
}
use backup.Repository.History.Resume.{IsCacheOf}
use backup.Repository.History.Cached.{validate_history-cached}
use backup.Repository.History.Topology.{IsTopology, compact_mirror_topology-IsTopology}
use backup.Repository.History.Genesis.{IsHistory, validate_history-IsHistory}
use backup.Tests.Transition.{latest, chain_allows, first, second}
use backup.Tests.Mirrors.{url_parse, disk, remote}
use backup.Format.Utf8.{lead, continues, utf8_valid}
use backup.Format.Patterns.{region_pattern, all_of, begins, matches, is_hex, name_pattern}
use backup.Format.Paths.{
  validate_symlink_target, clean_components, join_slash, or_dot, turn, clean, after_slash,
  validate_path, cons_component, check_components, split_slash, step_back,
}
use backup.Format.Rows.{validate_raw_field, marshal_rows, marshal_row, marshal_fields}
use backup.Repository.Extension.{merge_catalog_extension, merge_rows}
use backup.Repository.PackRows.{
  added_packs, begin_pack, check_relocation, count_relocated, merge_packs,
}
use backup.Repository.NewPacks.{match_packs, require_new_pack_references, skip_same}
use backup.Repository.Sorting.{insert_row, row_line, sort_rows, tabbed}

-- 64 digits.
abbrev pub oid : ℕ → Bytes
oid c = map (λ _. c) (codes "0123456789abcdef0123456789abcdef0123456789abcdef0123456789abcdef")

abbrev pub first_id : Bytes
first_id = oid b'1'

abbrev pub second_id : Bytes
second_id = oid b'2'

abbrev pub seven_blobs : List Bytes
seven_blobs = map oid (codes "3456789")

abbrev pub root : Content ℕ
root = record {
  parent_id = [];
  state = record first { mirrors = disk ∷ []; blob_sizes = λ name. 0 };
  blob_ids = seven_blobs;
}

abbrev pub child : Content ℕ
child = record {
  parent_id = first_id;
  state = record second {
    mirrors = disk ∷ remote ∷ [];
    blob_sizes = λ name. if equal name (codes "FORMAT") then 0 else 9;
  };
  blob_ids = seven_blobs;
}

abbrev pub read_commit : Bytes → Result Error (Content ℕ)
read_commit id =
    if equal id (first_id)
    then ok root
    else if equal id (second_id)
    then ok child
    else err read_failed

abbrev pub env : Environment ℕ
env = record {
  latest = latest;
  chain_allows = chain_allows;
  url_parse = url_parse;
  read_commit = read_commit;
}

abbrev pub ids : List Bytes
ids = first_id ∷ second_id ∷ []

abbrev pub result : History ℕ
result = record {
  count = 2;
  tip = record { commit_id = second_id; content = child; transition = transition_ordinary };
  genesis_format = new_repository_format (codes "u");
  topology = map mirror_row (disk ∷ remote ∷ []);
}

pub accepted : validate_history env none ids (second_id) ≡ ok result
unfolding equal less contains has_prefix trim_prefix utf8_valid lead continues name_pattern
    region_pattern all_of begins is_hex matches all_hex validate_store validate_s3_url
    validate_endpoint mirror_row name_not_after validate_remote validate_mirror mirror_rows
    marshal_mirrors parse_mirror_rows parse_mirrors validate_path validate_symlink_target
    check_components clean clean_components step_back turn or_dot split_slash join_slash after_slash
    cons_component marshal_rows marshal_row marshal_fields validate_raw_field compare_bytes
    compare_second compare_pack_fields equal_fields join_errors part_value part_digits merge_rows
    merge_catalog_extension begin_pack merge_packs added_packs count_relocated check_relocation
    skip_same match_packs require_new_pack_references find_mirror check_mirror
    validate_mirror_identity ordinary_extension blob_equal blobs_equal states_equal validate_state
    validate_repair validate_ordinary validate_transition compact_rows compact_mirror_topology
    validate_genesis append_mirrors validate_first validate_next follow_ids walk_ids anchor_placed
    anchor_of resume walk_cached validate_history row_line tabbed insert_row sort_rows before
    new_repository_format
accepted = refl

validate_history-IsHistory_example : IsHistory env ids (second_id) result
validate_history-IsHistory_example = validate_history-IsHistory env ids (second_id) accepted

-- What is written down of the first commit.
abbrev pub cache : Cache
cache = record {
  commit_id = first_id;
  sequence = 0;
  transition = transition_invalid;
  blob_ids = seven_blobs;
  topology = disk ∷ [];
}

abbrev pub beginning : History ℕ
beginning = record {
  count = 1;
  tip = record { commit_id = first_id; content = root; transition = transition_invalid };
  genesis_format = new_repository_format (codes "u");
  topology = mirror_row disk ∷ [];
}

cached : validate_history env (some cache) ids (second_id) ≡ ok result
unfolding equal less contains has_prefix trim_prefix utf8_valid lead continues name_pattern
    region_pattern all_of begins is_hex matches all_hex validate_store validate_s3_url
    validate_endpoint mirror_row name_not_after validate_remote validate_mirror mirror_rows
    marshal_mirrors parse_mirror_rows parse_mirrors validate_path validate_symlink_target
    check_components clean clean_components step_back turn or_dot split_slash join_slash after_slash
    cons_component marshal_rows marshal_row marshal_fields validate_raw_field compare_bytes
    compare_second compare_pack_fields equal_fields join_errors part_value part_digits merge_rows
    merge_catalog_extension begin_pack merge_packs added_packs count_relocated check_relocation
    skip_same match_packs require_new_pack_references find_mirror check_mirror
    validate_mirror_identity ordinary_extension blob_equal blobs_equal states_equal validate_state
    validate_repair validate_ordinary validate_transition compact_rows compact_mirror_topology
    validate_genesis append_mirrors validate_first validate_next follow_ids walk_ids anchor_placed
    anchor_of resume walk_cached validate_history row_line tabbed insert_row sort_rows before
    new_repository_format
cached = refl

pub begun : validate_history env none (take (suc cache.sequence) ids) (first_id) ≡ ok beginning
unfolding equal less contains has_prefix trim_prefix utf8_valid lead continues name_pattern
    region_pattern all_of begins is_hex matches all_hex validate_store validate_s3_url
    validate_endpoint mirror_row name_not_after validate_remote validate_mirror mirror_rows
    marshal_mirrors parse_mirror_rows parse_mirrors validate_path validate_symlink_target
    check_components clean clean_components step_back turn or_dot split_slash join_slash after_slash
    cons_component marshal_rows marshal_row marshal_fields validate_raw_field compare_bytes
    compare_second compare_pack_fields equal_fields join_errors part_value part_digits merge_rows
    merge_catalog_extension begin_pack merge_packs added_packs count_relocated check_relocation
    skip_same match_packs require_new_pack_references find_mirror check_mirror
    validate_mirror_identity ordinary_extension blob_equal blobs_equal states_equal validate_state
    validate_repair validate_ordinary validate_transition compact_rows compact_mirror_topology
    validate_genesis append_mirrors validate_first validate_next follow_ids walk_ids anchor_placed
    anchor_of resume walk_cached validate_history row_line tabbed insert_row sort_rows before
    new_repository_format
begun = refl

pub marshalled : marshal_mirrors url_parse (disk ∷ []) ≡ ok (rows_text (mirror_row disk ∷ []))
unfolding equal less contains has_prefix trim_prefix utf8_valid lead continues name_pattern
    region_pattern all_of begins is_hex matches all_hex validate_store validate_s3_url
    validate_endpoint mirror_row name_not_after validate_remote validate_mirror mirror_rows
    marshal_mirrors parse_mirror_rows parse_mirrors validate_path validate_symlink_target
    check_components clean clean_components step_back turn or_dot split_slash join_slash after_slash
    cons_component marshal_rows marshal_row marshal_fields validate_raw_field
marshalled = refl

cache-IsCacheOf : IsCacheOf env cache ids
cache-IsCacheOf = record {
  history = beginning;
  accepted = begun;
  transition = refl;
  topology = refl;
  readable = (rows_text (mirror_row disk ∷ []), marshalled);
}

validate_history-cached_example :
    (validate_history env (some cache) ids second_id ≡ ok result)
    ↔ (validate_history env none ids second_id ≡ ok result)
validate_history-cached_example =
    validate_history-cached env cache ids second_id result cache-IsCacheOf

-- The rows of one mirror, that come twice, and of another.
abbrev pub rows : List Row
rows = mirror_row remote ∷ mirror_row disk ∷ mirror_row remote ∷ []

abbrev pub ledger : List Row
ledger = mirror_row disk ∷ mirror_row remote ∷ []

pub compacted : compact_mirror_topology rows ≡ ok ledger
unfolding equal less mirror_row equal_fields compact_rows compact_mirror_topology row_line tabbed
    insert_row sort_rows before
compacted = refl

compact_mirror_topology-IsTopology_example : IsTopology rows ledger
compact_mirror_topology-IsTopology_example = compact_mirror_topology-IsTopology rows compacted

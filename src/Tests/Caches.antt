-- ===== src/Tests/Caches.antt =====
-- Runs of `ValidateHistory` that leave a cache, and candidates compared with the ledger of a history.
use backup.Base.{◌≡◌, ◌↔◌, refl, Bool, true, [], ◌∷◌, none, some, ok, err}
use backup.Base.Bytes.{trim_prefix, less, equal, has_prefix, contains}
use backup.Format.Mirrors.{
  marshal_mirrors, validate_endpoint, all_hex, validate_mirror, validate_remote, parse_mirror_rows,
  parse_mirrors, mirror_row, validate_store, mirror_rows, name_not_after, validate_s3_url,
}
use backup.Repository.DerivedRows.{
  rebound_mirror, compare_bytes, compare_pack_fields, compare_second, equal_fields, join_errors,
  part_digits, part_value,
}
use backup.Repository.History.{Cache, validate_history}
use backup.Repository.ValidationCache.{
  write_cache, validate_cache, topology_snapshot, all_oids, is_git_oid,
}
use backup.Repository.ValidationCache.Runs.{Reached, Reached-validate_history}
use backup.Repository.MirrorLedger.{find_row, check_row, check_ledger, validate_mirror_topology}
use backup.Tests.Mirrors.{url_parse, disk, remote}
use backup.Tests.History.{env, ids, first_id, second_id, beginning, result, cache, begun, ledger}
use backup.Format.Utf8.{continues, utf8_valid, lead}
use backup.Format.Patterns.{all_of, begins, matches, name_pattern, region_pattern, is_hex}
use backup.Format.Paths.{
  or_dot, check_components, join_slash, validate_path, after_slash, cons_component, step_back,
  split_slash, validate_symlink_target, turn, clean_components, clean,
}
use backup.Format.Rows.{
  cons_head, check_line, visit_lines, marshal_row, append_row, last_token, marshal_rows,
  validate_raw_field, read_rows, validate_limits, check_end, check_fields, scan_rows, split_fields,
  marshal_fields, scan_lines,
}

-- A text of any cache is small enough.
abbrev fits : Cache → Bool
fits c = true

-- The cache that is written of the first commit.
left : write_cache url_parse fits beginning ≡ ok (some cache)
unfolding equal less contains has_prefix trim_prefix utf8_valid lead continues name_pattern
    region_pattern all_of begins is_hex matches all_hex validate_store validate_s3_url
    validate_endpoint mirror_row name_not_after validate_remote validate_mirror mirror_rows
    marshal_mirrors parse_mirror_rows parse_mirrors validate_path validate_symlink_target
    check_components clean clean_components step_back turn or_dot split_slash join_slash after_slash
    cons_component marshal_rows marshal_row marshal_fields validate_raw_field read_rows append_row
    scan_rows visit_lines check_line check_end check_fields split_fields cons_head scan_lines
    last_token validate_limits validate_cache topology_snapshot all_oids is_git_oid write_cache
left = refl

-- The first commit is made and validated, then the second is made.
reached : Reached env fits ids (some cache)
reached =
    Reached.grow (first_id ∷ []) (second_id ∷ []) ids (some cache)
      (Reached.run (first_id ∷ []) first_id none (some cache) (some cache) beginning
        (Reached.grow [] (first_id ∷ []) (first_id ∷ []) none Reached.start refl) begun left refl)
      refl

Reached-validate_history_example :
    (validate_history env (some cache) ids second_id ≡ ok result)
    ↔ (validate_history env none ids second_id ≡ ok result)
Reached-validate_history_example =
    Reached-validate_history env fits ids second_id (some cache) result reached

-- Another mirror under the name of one in the ledger.
renamed :
    validate_mirror_topology url_parse ledger (record disk { name = remote.name } ∷ [])
    ≡ err rebound_mirror
unfolding equal less contains has_prefix trim_prefix utf8_valid lead continues name_pattern
    region_pattern all_of begins is_hex matches all_hex validate_store validate_s3_url
    validate_endpoint mirror_row name_not_after validate_remote validate_mirror mirror_rows
    marshal_mirrors parse_mirror_rows parse_mirrors validate_path validate_symlink_target
    check_components clean clean_components step_back turn or_dot split_slash join_slash after_slash
    cons_component marshal_rows marshal_row marshal_fields validate_raw_field compare_bytes
    compare_second compare_pack_fields equal_fields join_errors part_value part_digits find_row
    check_row check_ledger validate_mirror_topology
renamed = refl

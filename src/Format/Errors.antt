-- ===== src/Format/Errors.antt =====
-- The errors of internal/format. A Go error of that package is a message; each message is a
-- constructor here, without the record number and the offending text that it prints.
pub data Error : Type 0 where
  limits_not_positive line_over_file field_over_line : Error
  line_too_long too_many_records not_utf8 has_bom empty_record forbidden_control : Error
  empty_field field_too_long read_failed file_too_large missing_lf : Error
  no_fields field_not_utf8 field_control field_bom : Error
  field_count not_canonical out_of_range : Error
  bad_key unsupported bad_uuid : Error
  bad_path absolute_path noncanonical_path bad_component : Error
  bad_mode bad_kind bad_reference bad_target symlink_metadata not_sorted leaf_is_ancestor : Error
  bad_hash bad_checksum bad_part empty_part bad_object_id : Error
  bad_start noncontiguous missing_terminal : Error
  bad_pattern bad_name bad_store bad_url bad_endpoint bad_region : Error
  missing_pack missing_object size_disagrees : Error
  bad_commit bad_sequence part_count part_overflow empty_bundle bad_total : Error

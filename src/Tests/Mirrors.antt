-- ===== src/Tests/Mirrors.antt =====
-- Tests of mirrors.tsv, with a parser that knows one URL.
use backup.Base.{
  ◌≡◌, refl, false, Option, none, some, List, [], ◌∷◌, ◌++◌, map, arith, if◌then◌else◌, ok, err,
}
use backup.Base.Bytes.{codes, equal, Bytes, contains, has_prefix, less, trim_prefix}
use backup.Format.Errors.{bad_url, bad_store}
use backup.Format.Rows.{
  validate_limits, append_row, check_end, check_fields, check_line, cons_head, last_token,
  marshal_fields, marshal_row, marshal_rows, read_rows, scan_lines, scan_rows, split_fields,
  validate_raw_field, visit_lines,
}
use backup.Format.Rows.RoundTrip.{FitsLimits, reader}
use backup.Format.Mirrors.{
  mirror_row, mirror_rows, mirror_aws_s3, parse_mirrors, mirror_filesystem, marshal_mirrors,
  validate_mirror, Mirror, Url, all_hex, name_not_after, parse_mirror_rows, validate_endpoint,
  validate_remote, validate_s3_url, validate_store,
}
use backup.Format.Mirrors.Laws.{parse_mirrors-marshal_mirrors}
use backup.Tests.Data.{limits, id}
use backup.Format.Utf8.{continues, lead, utf8_valid}
use backup.Format.Patterns.{all_of, begins, is_hex, matches, name_pattern, region_pattern}
use backup.Format.Paths.{
  after_slash, check_components, clean, clean_components, cons_component, join_slash, or_dot,
  split_slash, step_back, turn, validate_path, validate_symlink_target,
}

abbrev known : Url
known = record {
  scheme = codes "s3";
  host = codes "bucket";
  has_user = false;
  path = codes "/backup";
  raw_query = [];
  fragment = [];
}

abbrev pub url_parse : Bytes → Option Url
url_parse text = if equal text (codes "s3://bucket/backup") then some known else none

abbrev pub disk : Mirror
disk = record {
  name = codes "disk";
  kind = mirror_filesystem;
  s3_url = codes "filesystem://" ++ id;
  endpoint = codes "-";
  region = codes "-";
}

abbrev pub remote : Mirror
remote = record {
  name = codes "remote";
  kind = mirror_aws_s3;
  s3_url = codes "s3://bucket/backup";
  endpoint = codes "-";
  region = codes "eu-west-1";
}

abbrev pub mirrors : List Mirror
mirrors = disk ∷ remote ∷ []

abbrev pub mirror_text : Bytes
mirror_text =
    codes "disk\tfilesystem\tfilesystem://"
    ++ id
    ++ codes "\t-\t-\nremote\taws-s3\ts3://bucket/backup\t-\teu-west-1\n"

marshal_mirrors-mirrors : marshal_mirrors url_parse mirrors ≡ ok mirror_text
unfolding equal less contains has_prefix trim_prefix marshal_rows marshal_row marshal_fields
    validate_raw_field utf8_valid lead continues name_pattern region_pattern all_of begins is_hex
    matches all_hex validate_store validate_s3_url validate_endpoint mirror_row name_not_after
    validate_remote validate_mirror mirror_rows marshal_mirrors parse_mirror_rows parse_mirrors
    validate_path validate_symlink_target check_components clean clean_components step_back turn
    or_dot split_slash join_slash after_slash cons_component
marshal_mirrors-mirrors = refl

pub parse_mirrors-text : parse_mirrors url_parse (reader mirror_text) limits ≡ ok mirrors
unfolding equal less contains has_prefix trim_prefix read_rows append_row scan_rows visit_lines
    check_line check_end check_fields split_fields cons_head scan_lines last_token validate_limits
    utf8_valid lead continues name_pattern region_pattern all_of begins is_hex matches all_hex
    validate_store validate_s3_url validate_endpoint mirror_row name_not_after validate_remote
    validate_mirror mirror_rows marshal_mirrors parse_mirror_rows parse_mirrors validate_path
    validate_symlink_target check_components clean clean_components step_back turn or_dot
    split_slash join_slash after_slash cons_component
parse_mirrors-text = refl

errors :
    (validate_mirror url_parse (record remote { s3_url = codes "s3://other" }) ≡ err bad_url)
    × (validate_mirror url_parse (record disk { region = codes "eu" }) ≡ err bad_store)
unfolding equal less contains has_prefix trim_prefix name_pattern region_pattern all_of begins
    is_hex matches all_hex validate_store validate_s3_url validate_endpoint mirror_row
    name_not_after validate_remote validate_mirror mirror_rows marshal_mirrors parse_mirror_rows
    parse_mirrors validate_path validate_symlink_target check_components clean clean_components
    step_back turn or_dot split_slash join_slash after_slash cons_component
errors = (refl, refl)

fits : FitsLimits limits (map mirror_row mirrors)
unfolding equal less contains has_prefix trim_prefix all_hex validate_store validate_s3_url
    validate_endpoint mirror_row name_not_after validate_remote validate_mirror mirror_rows
    marshal_mirrors parse_mirror_rows parse_mirrors validate_limits
fits = record {
  positive = refl;
  each = (
    record {
      line = omega arith;
      fields = (omega arith, (omega arith, (omega arith, (omega arith, (omega arith, tt)))));
    },
    (
      record {
        line = omega arith;
        fields = (omega arith, (omega arith, (omega arith, (omega arith, (omega arith, tt)))));
      },
      tt,
    ),
  );
  count = omega arith;
  size = omega arith;
}

parse_mirrors-marshal_mirrors_example :
    parse_mirrors url_parse (reader mirror_text) limits ≡ ok mirrors
parse_mirrors-marshal_mirrors_example =
    parse_mirrors-marshal_mirrors url_parse limits mirrors marshal_mirrors-mirrors fits

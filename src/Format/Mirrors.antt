-- ===== src/Format/Mirrors.antt =====
-- mirrors.tsv (internal/format/metadata.go): the mirrors of a repository. `url.Parse` of net/url is a
-- parameter of what validates a mirror.
pub mod Laws
use backup.Base.{
  Bool, true, false, not, ◌&&◌, ◌||◌, List, [], ◌∷◌, Option, none, some, length, last_or, ◌==◌,
  if◌then◌else◌, Result, ok, err, ◌>>=◌, ◌>>◌, require, refuse,
}
use backup.Base.Bytes.{Bytes, codes, equal, at_least, has_prefix, trim_prefix}
use backup.Format.Errors.{
  Error, bad_name, bad_store, bad_kind, bad_url, bad_endpoint, bad_region, not_sorted, field_count,
}
use backup.Format.Paths.{slash, clean}
use backup.Format.Patterns.{is_hex, name_pattern, region_pattern}
use backup.Format.Rows.{Reader, Limits, marshal_rows, read_rows}

-- `Mirror`
pub record Mirror : Type 0 where
  pub name : Bytes
  pub kind : Bytes
  pub s3_url : Bytes
  pub endpoint : Bytes
  pub region : Bytes

abbrev pub mirror_filesystem : Bytes
mirror_filesystem = codes "filesystem"

abbrev pub mirror_backup_server : Bytes
mirror_backup_server = codes "backup-server"

abbrev pub mirror_aws_s3 : Bytes
mirror_aws_s3 = codes "aws-s3"

abbrev pub mirror_cloudflare_r2 : Bytes
mirror_cloudflare_r2 = codes "cloudflare-r2"

-- What the code reads of a `url.URL`.
pub record Url : Type 0 where
  pub scheme : Bytes
  pub host : Bytes
  pub has_user : Bool
  pub path : Bytes
  pub raw_query : Bytes
  pub fragment : Bytes

-- `strings.Trim(id, "0123456789abcdef") == ""`
unfoldable pub all_hex : Bytes → Bool
all_hex [] = true
all_hex (c ∷ id) = is_hex c && all_hex id

-- The mirror is on a file system.
unfoldable pub validate_store : Mirror → Result Error (Unit {0})
unfolding all_hex
validate_store mirror =
    let id = trim_prefix mirror.s3_url (codes "filesystem://") in
    refuse
      (not (has_prefix mirror.s3_url (codes "filesystem://"))
        || not (length id == 32)
        || not (all_hex id)
        || not (equal mirror.endpoint (codes "-"))
        || not (equal mirror.region (codes "-")))
      bad_store

-- `s3://bucket/prefix`, as `url.Parse` took it apart.
unfoldable pub validate_s3_url : Option Url → Result Error (Unit {0})
validate_s3_url none = err bad_url
validate_s3_url (some url) = do
  refuse
      (not (equal url.scheme (codes "s3"))
        || equal url.host []
        || url.has_user
        || not (equal url.raw_query [])
        || not (equal url.fragment []))
      bad_url
  refuse
      (not (equal url.path [])
        && (last_or 0 url.path == slash || not (equal (clean url.path) url.path)))
      bad_url

unfoldable pub validate_endpoint : Option Url → Result Error (Unit {0})
validate_endpoint none = err bad_endpoint
validate_endpoint (some url) =
    refuse
      (not (equal url.scheme (codes "https"))
        || equal url.host []
        || url.has_user
        || not (equal url.path [])
        || not (equal url.raw_query [])
        || not (equal url.fragment []))
      bad_endpoint

unfoldable pub mirror_row : Mirror → List Bytes
mirror_row mirror = mirror.name ∷ mirror.kind ∷ mirror.s3_url ∷ mirror.endpoint ∷ mirror.region ∷ []

-- `index > 0 && mirrors[index-1].Name >= mirror.Name`
unfoldable pub name_not_after : Option Mirror → Mirror → Bool
name_not_after none mirror = false
name_not_after (some previous) mirror = at_least previous.name mirror.name

module _ (url_parse : Bytes → Option Url) where
  unfoldable pub validate_remote : Mirror → Result Error (Unit {0})
  unfolding validate_s3_url validate_endpoint
  validate_remote mirror = do
    require
        (equal mirror.kind mirror_backup_server
          || equal mirror.kind mirror_aws_s3
          || equal mirror.kind mirror_cloudflare_r2)
        bad_kind
    validate_s3_url (url_parse mirror.s3_url)
    (if not (equal mirror.endpoint (codes "-"))
        then validate_endpoint (url_parse mirror.endpoint)
        else ok tt)
    refuse (equal mirror.kind mirror_aws_s3 && not (equal mirror.endpoint (codes "-"))) bad_endpoint
    require (region_pattern mirror.region) bad_region

  -- `validateMirror`
  unfoldable pub validate_mirror : Mirror → Result Error (Unit {0})
  unfolding validate_store validate_remote
  validate_mirror mirror = do
    require (name_pattern mirror.name) bad_name
    (if equal mirror.kind mirror_filesystem then validate_store mirror else validate_remote mirror)

  -- The loop of `MarshalMirrors`.
  unfoldable pub mirror_rows : Option Mirror → List Mirror → Result Error (List (List Bytes))
  unfolding validate_mirror name_not_after mirror_row
  mirror_rows previous [] = ok []
  mirror_rows previous (mirror ∷ mirrors) = do
    validate_mirror mirror
    refuse (name_not_after previous mirror) not_sorted
    rows ← mirror_rows (some mirror) mirrors
    ok (mirror_row mirror ∷ rows)

  -- `MarshalMirrors`
  unfoldable pub marshal_mirrors : List Mirror → Result Error Bytes
  marshal_mirrors mirrors = do rows ← mirror_rows none mirrors; marshal_rows rows

  -- The loop of `ParseMirrors`.
  unfoldable pub parse_mirror_rows : Option Mirror → List (List Bytes) → Result Error (List Mirror)
  unfolding validate_mirror name_not_after
  parse_mirror_rows previous [] = ok []
  parse_mirror_rows previous ((name ∷ kind ∷ s3_url ∷ endpoint ∷ region ∷ []) ∷ rows) = do
    let mirror : Mirror = record {
      name = name;
      kind = kind;
      s3_url = s3_url;
      endpoint = endpoint;
      region = region;
    }
    validate_mirror mirror
    refuse (name_not_after previous mirror) not_sorted
    mirrors ← parse_mirror_rows (some mirror) rows
    ok (mirror ∷ mirrors)
  parse_mirror_rows previous (_ ∷ rows) = err field_count

  -- `ParseMirrors`
  unfoldable pub parse_mirrors : Reader → Limits → Result Error (List Mirror)
  parse_mirrors input limits = do rows ← read_rows input limits; parse_mirror_rows none rows

-- ===== src/Format/Mirrors/Laws.antt =====
-- mirrors.tsv is read back as it was written, and nothing else is read as its mirrors.
use backup.Base.{
  ◌≡◌, refl, sym, ap, ◌∙◌, List, [], ◌∷◌, map, Option, none, some, ok, err-ne-ok, bind-eq-ok,
  refuse_then,
}
use backup.Base.Bytes.{Bytes}
use backup.Format.Rows.{Reader, Limits, read_rows}
use backup.Format.Rows.Split.{ok-injective, rows_text}
use backup.Format.Rows.RoundTrip.{FitsLimits, reader, read_rows-marshal_rows}
use backup.Format.Rows.Canonical.{rows_text-read_rows}
use backup.Format.Mirrors.{
  Mirror, Url, mirror_row, name_not_after, validate_mirror, mirror_rows, marshal_mirrors,
  parse_mirror_rows, parse_mirrors,
}

module _ (url_parse : Bytes → Option Url) where
  pub mirror_rows-eq-ok :
      (previous : Option Mirror) (mirrors : List Mirror) {rows : List (List Bytes)}
      → mirror_rows url_parse previous mirrors ≡ ok rows
      → (rows ≡ map mirror_row mirrors)
        × (parse_mirror_rows url_parse previous (map mirror_row mirrors) ≡ ok mirrors)
  unfolding mirror_rows parse_mirror_rows mirror_row
  mirror_rows-eq-ok previous [] h = (sym (ok-injective h), refl)
  mirror_rows-eq-ok previous (m ∷ ms) h =
      let (u, valid, h1) = bind-eq-ok (validate_mirror url_parse m) _ h in
      let (after, h2) = refuse_then (name_not_after previous m) _ _ h1 in
      let (rest, made, h3) = bind-eq-ok (mirror_rows url_parse (some m) ms) _ h2 in
      let (same, read) = mirror_rows-eq-ok (some m) ms made in
      (sym (ok-injective h3) ∙ ap (λ t. mirror_row m ∷ t) same, rw (valid, after, read) refl)

  parse_mirror_rows-eq-ok :
      (previous : Option Mirror) (rows : List (List Bytes)) {mirrors : List Mirror}
      → parse_mirror_rows url_parse previous rows ≡ ok mirrors
      → (map mirror_row mirrors ≡ rows) × (mirror_rows url_parse previous mirrors ≡ ok rows)
  unfolding mirror_rows parse_mirror_rows mirror_row
  parse_mirror_rows-eq-ok previous [] h = rw (← ok-injective h) (refl, refl)
  parse_mirror_rows-eq-ok previous ((name ∷ kind ∷ s3_url ∷ endpoint ∷ region ∷ []) ∷ rows) h =
      let m : Mirror = record {
        name = name;
        kind = kind;
        s3_url = s3_url;
        endpoint = endpoint;
        region = region;
      } in
      let (u, valid, h1) = bind-eq-ok (validate_mirror url_parse m) _ h in
      let (after, h2) = refuse_then (name_not_after previous m) _ _ h1 in
      let (rest, read, h3) = bind-eq-ok (parse_mirror_rows url_parse (some m) rows) _ h2 in
      let (same, made) = parse_mirror_rows-eq-ok (some m) rows read in
      rw (← ok-injective h3) (
        ap (λ t. (name ∷ kind ∷ s3_url ∷ endpoint ∷ region ∷ []) ∷ t) same,
        rw (valid, after, made) refl,
      )
  parse_mirror_rows-eq-ok previous (_ ∷ rows) h = absurd (err-ne-ok h)

  -- Whatever `url.Parse` does: every mirrors.tsv that `MarshalMirrors` writes, within the limits of
  -- the reader, `ParseMirrors` reads back as the same mirrors.
  pub parse_mirrors-marshal_mirrors :
      (limits : Limits) (mirrors : List Mirror) {text : Bytes}
      → marshal_mirrors url_parse mirrors ≡ ok text
      → FitsLimits limits (map mirror_row mirrors)
      → parse_mirrors url_parse (reader text) limits ≡ ok mirrors
  unfolding marshal_mirrors parse_mirrors
  parse_mirrors-marshal_mirrors limits mirrors {text} h f =
      let (rows, made, written) = bind-eq-ok (mirror_rows url_parse none mirrors) _ h in
      let (same, read) = mirror_rows-eq-ok none mirrors made in
      rw (read_rows-marshal_rows limits (map mirror_row mirrors) (rw same at written) f) read

  -- Whatever `url.Parse` does: a text that `ParseMirrors` accepts is the text of the rows of the
  -- mirrors read, and the loop of `MarshalMirrors` accepts these mirrors and makes these rows.
  pub rows_text-parse_mirrors :
      (input : Reader) (limits : Limits) {mirrors : List Mirror}
      → parse_mirrors url_parse input limits ≡ ok mirrors
      → (rows_text (map mirror_row mirrors) ≡ input.bytes)
        × (mirror_rows url_parse none mirrors ≡ ok (map mirror_row mirrors))
  unfolding parse_mirrors
  rows_text-parse_mirrors input limits {mirrors} h =
      let (rows, read, parsed) = bind-eq-ok (read_rows input limits) _ h in
      let (text, clean) = rows_text-read_rows input limits read in
      let (same, made) = parse_mirror_rows-eq-ok none rows parsed in
      (ap rows_text same ∙ text, made ∙ ap ok (sym same))

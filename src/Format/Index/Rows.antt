-- ===== src/Format/Index/Rows.antt =====
-- The row of an index entry is read back as the entry, and is the only row that is.
use backup.Base.{
  ℕ, ◌^◌, ◌≤◌, ◌<◌, ◌≡◌, refl, sym, ap, ◌∙◌, true, false, ◌&&◌, List, [], ◌∷◌, arith, ok,
  bind-eq-ok, require_then, and_true, inl, inr, Bool-cases,
}
use backup.Base.Bytes.{Bytes, codes, equal, equal_iff, equal_refl}
use backup.Format.Decimal.{ℤ, pos, negsuc, parse_uint, parse_int64, uint_text}
use backup.Format.Decimal.Unsigned.{parse_uint-uint_text, uint_text-parse_uint}
use backup.Format.Decimal.Signed.{IsInt64, parse_int64-int_text, int_text-parse_int64}
use backup.Format.Rows.Split.{ok-injective}
use backup.Format.Index.{
  IndexEntry, kind_file, kind_symlink, is_zero, validate_index_entry, mode_text, index_fields,
  parse_mode, parse_file, parse_symlink, parse_index_row,
}

abbrev pub IsValid : IndexEntry → Type 0
IsValid entry = validate_index_entry entry ≡ ok tt

pub record HasWidths (entry : IndexEntry) : Type 0 where
  pub size : entry.size < 2 ^ 64
  pub mtime_ns : IsInt64 entry.mtime_ns

parse_mode-mode_text : (mode : ℕ) → mode ≤ 0o777 → parse_mode (mode_text mode) ≡ ok mode
unfolding parse_mode mode_text
parse_mode-mode_text mode h = ground arith

mode_text-parse_mode :
    (text : Bytes) {mode : ℕ} → parse_mode text ≡ ok mode → (mode_text mode ≡ text) × (mode ≤ 0o777)
unfolding parse_mode mode_text
mode_text-parse_mode (a ∷ b ∷ c ∷ d ∷ []) h = ground arith
mode_text-parse_mode _ h = cc

file_facts :
    (entry : IndexEntry)
    → IsValid entry
    → equal entry.kind kind_symlink ≡ false
    → (equal entry.kind kind_file ≡ true) × (entry.mode ≤ 0o777)
unfolding validate_index_entry
file_facts entry v file = (ground arith, ground arith)

-- No text is both kinds.
one_kind : (kind : Bytes) → equal kind kind_symlink ≡ true → equal kind kind_file ≡ false
one_kind kind h = rw ((equal_iff kind kind_symlink).0 h) (unfold equal in refl)

is_zero-eq : (i : ℤ) → is_zero i ≡ true → i ≡ pos 0
is_zero-eq (pos n) h = ap pos (ground arith)
is_zero-eq (negsuc n) h = cc

symlink_facts :
    (entry : IndexEntry)
    → IsValid entry
    → equal entry.kind kind_symlink ≡ true
    → (entry.size ≡ 0) × (entry.mode ≡ 0) × (entry.mtime_ns ≡ pos 0)
unfolding validate_index_entry
symlink_facts entry v link =
    let other = one_kind entry.kind link in
    (ground arith, ground arith, is_zero-eq entry.mtime_ns (ground arith))

symlink_entry :
    (entry : IndexEntry)
    → entry.size ≡ 0
    → entry.mode ≡ 0
    → entry.mtime_ns ≡ pos 0
    → ◌≡◌ {A = IndexEntry}
        (record {
          path = entry.path;
          kind = entry.kind;
          ref = entry.ref;
          size = 0;
          mode = 0;
          mtime_ns = pos 0;
        })
        entry
symlink_entry entry s m t = λ i. record {
  path = entry.path;
  kind = entry.kind;
  ref = entry.ref;
  size = sym s i;
  mode = sym m i;
  mtime_ns = sym t i;
}

read_zero : parse_uint (codes "0") 64 ≡ ok 0
unfolding parse_uint equal
read_zero = refl

dashes : equal (codes "-") (codes "-") ≡ true
dashes = equal_refl (codes "-")

-- The fields of a valid entry are read back as the entry.
pub parse_index_row-index_fields :
    (entry : IndexEntry)
    → IsValid entry
    → HasWidths entry
    → parse_index_row (index_fields entry) ≡ ok entry
unfolding parse_index_row index_fields
parse_index_row-index_fields entry v w = elim (Bool-cases (equal entry.kind kind_symlink)) [
  | inl link ↦
      let (no_size, no_mode, no_time) = symlink_facts entry v link in
      let same = symlink_entry entry no_size no_mode no_time in
      let valid = rw (← same) at v in
      rw link
        (rw read_zero (rw (one_kind entry.kind link) (rw link (rw dashes (rw valid (ap ok same))))))
  | inr file ↦
      let (kind, small) = file_facts entry v file in
      rw file (
        rw (parse_uint-uint_text entry.size 64 w.size (omega arith)) (
          rw kind (
            rw (parse_mode-mode_text entry.mode small)
              (rw (parse_int64-int_text entry.mtime_ns w.mtime_ns) (rw v refl)))))
]

-- What `parseIndexRow` reads is a valid entry of this row.
pub record IsRead (row : List Bytes) (entry : IndexEntry) : Type 0 where
  pub shown : index_fields entry ≡ row
  pub valid : IsValid entry
  pub widths : HasWidths entry

parse_file-IsRead :
    (path kind ref : Bytes) (size : ℕ) (size_field mode_field mtime_field : Bytes)
    {entry : IndexEntry}
    → equal kind kind_file ≡ true
    → (uint_text size ≡ size_field) × (size < 2 ^ 64)
    → parse_file path kind ref size mode_field mtime_field ≡ ok entry
    → IsValid entry
    → IsRead (path ∷ kind ∷ ref ∷ size_field ∷ mode_field ∷ mtime_field ∷ []) entry
unfolding parse_file
parse_file-IsRead path kind ref size size_field mode_field mtime_field {entry} k (shown, small) h
      v =
    let (mode, read_mode, h1) = bind-eq-ok (parse_mode mode_field) _ h in
    let (mtime, read_time, h2) = bind-eq-ok (parse_int64 mtime_field) _ h1 in
    let built : IndexEntry = record {
      path = path;
      kind = kind;
      ref = ref;
      size = size;
      mode = mode;
      mtime_ns = mtime;
    } in
    let same : built ≡ entry = ok-injective h2 in
    let (mode_shown, _) = mode_text-parse_mode mode_field read_mode in
    let (time_shown, in_range) = int_text-parse_int64 mtime_field read_time in
    let no_link = not_link kind k in
    rw (← same) (record {
      shown = unfold index_fields in rw no_link (rw (shown, mode_shown, time_shown) refl);
      valid = rw same v;
      widths = record { size = small; mtime_ns = in_range };
    })
  where
    not_link : (name : Bytes) → equal name kind_file ≡ true → equal name kind_symlink ≡ false
    not_link name e = rw ((equal_iff name kind_file).0 e) (unfold equal in refl)

zero_text : uint_text 0 ≡ codes "0"
unfolding uint_text
zero_text = refl

parse_symlink-IsRead :
    (path kind ref : Bytes) (size : ℕ) (size_field mode_field mtime_field : Bytes)
    {entry : IndexEntry}
    → equal kind kind_symlink ≡ true
    → (uint_text size ≡ size_field) × (size < 2 ^ 64)
    → parse_symlink path kind ref size mode_field mtime_field ≡ ok entry
    → IsValid entry
    → IsRead (path ∷ kind ∷ ref ∷ size_field ∷ mode_field ∷ mtime_field ∷ []) entry
unfolding parse_symlink
parse_symlink-IsRead path kind ref size size_field mode_field mtime_field {entry} k (shown, small) h
      v =
    let (marks, h1) =
      require_then (equal mode_field (codes "-") && equal mtime_field (codes "-")) _ _ h in
    let (mode_mark, time_mark) = and_true (equal mode_field (codes "-")) _ marks in
    let built : IndexEntry = record {
      path = path;
      kind = kind;
      ref = ref;
      size = size;
      mode = 0;
      mtime_ns = pos 0;
    } in
    let same : built ≡ entry = ok-injective h1 in
    let (empty, _, _) = symlink_facts built (rw same v) k in
    let zero_shown : codes "0" ≡ size_field = sym zero_text ∙ ap uint_text (sym empty) ∙ shown in
    let mode_is = sym ((equal_iff mode_field (codes "-")).0 mode_mark) in
    let time_is = sym ((equal_iff mtime_field (codes "-")).0 time_mark) in
    rw (← same) (record {
      shown =
          unfold index_fields in
          rw k (λ i. path ∷ kind ∷ ref ∷ zero_shown i ∷ mode_is i ∷ time_is i ∷ []);
      valid = rw same v;
      widths = record { size = small; mtime_ns = omega arith };
    })

pub parse_index_row-IsRead :
    (row : List Bytes) (entry : IndexEntry) → parse_index_row row ≡ ok entry → IsRead row entry
unfolding parse_index_row
parse_index_row-IsRead (path ∷ kind ∷ ref ∷ size_field ∷ mode_field ∷ mtime_field ∷ []) entry h =
    let (size, read, h1) = bind-eq-ok (parse_uint size_field 64) _ h in
    let shown = uint_text-parse_uint size_field 64 read in
    elim (Bool-cases (equal kind kind_file)) [
      | inl k ↦
          let (built, parsed, h2) =
            bind-eq-ok (parse_file path kind ref size mode_field mtime_field) _ (rw k at h1) in
          let (u, valid, h3) = bind-eq-ok (validate_index_entry built) _ h2 in
          let same = ok-injective h3 in
          rw (← same) (
            parse_file-IsRead path kind ref size size_field mode_field mtime_field k shown parsed
              valid)
      | inr k ↦ elim (Bool-cases (equal kind kind_symlink)) [
        | inl l ↦
            let (built, parsed, h2) =
              bind-eq-ok (parse_symlink path kind ref size mode_field mtime_field) _
                (rw l at (rw k at h1)) in
            let (u, valid, h3) = bind-eq-ok (validate_index_entry built) _ h2 in
            let same = ok-injective h3 in
            rw (← same) (
              parse_symlink-IsRead path kind ref size size_field mode_field mtime_field l shown
                parsed valid)
        | inr l ↦ absurd (cc (rw l at (rw k at h1)))
      ]
    ]
parse_index_row-IsRead _ entry h = cc

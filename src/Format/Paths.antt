-- ===== src/Format/Paths.antt =====
-- `ValidatePath` and `ValidateSymlinkTarget` of internal/format/metadata.go, with `path.Clean`.
pub mod Components
use backup.Base.{
  ℕ, zero, suc, Bool, true, false, not, ◌&&◌, ◌||◌, List, [], ◌∷◌, ◌++◌, leb, ◌==◌, if◌then◌else◌,
  length, Result, ok, err, ◌>>=◌, ◌>>◌, require, refuse,
}
use backup.Base.Bytes.{Bytes, codes, equal, has_prefix, trim_prefix}
use backup.Format.Errors.{Error, bad_path, absolute_path, noncanonical_path, bad_component}
use backup.Format.Rows.{validate_raw_field}

abbrev pub slash : ℕ
slash = b'/'

unfoldable pub cons_component : ℕ → List Bytes → List Bytes
cons_component c [] = (c ∷ []) ∷ []
cons_component c (part ∷ parts) = (c ∷ part) ∷ parts

-- `strings.SplitSeq(relative, "/")`
unfoldable pub split_slash : Bytes → List Bytes
unfolding cons_component
split_slash [] = [] ∷ []
split_slash (c ∷ s) =
    let rest = split_slash s in if c == slash then [] ∷ rest else cons_component c rest

unfoldable pub after_slash : List Bytes → Bytes
after_slash [] = []
after_slash (part ∷ parts) = slash ∷ (part ++ after_slash parts)

unfoldable pub join_slash : List Bytes → Bytes
unfolding after_slash
join_slash [] = []
join_slash (part ∷ parts) = part ++ after_slash parts

abbrev pub dot : Bytes
dot = codes "."

abbrev pub dot_dot : Bytes
dot_dot = codes ".."

-- What `path.Clean` does at `..`: it drops the component before, if that is not `..` itself.
unfoldable pub step_back : Bool → List Bytes → List Bytes
step_back true [] = []
step_back false [] = dot_dot ∷ []
step_back rooted (part ∷ kept) = if equal part dot_dot then dot_dot ∷ part ∷ kept else kept

-- The components that `path.Clean` keeps, the last one first.
unfoldable pub clean_components : Bool → List Bytes → List Bytes → List Bytes
clean_components rooted kept [] = kept
clean_components rooted kept (part ∷ parts) =
    clean_components rooted
      (if equal part [] || equal part dot
        then kept
        else if equal part dot_dot
        then step_back rooted kept
        else part ∷ kept)
      parts

unfoldable pub turn : List Bytes → List Bytes → List Bytes
turn [] done = done
turn (part ∷ parts) done = turn parts (part ∷ done)

unfoldable pub or_dot : Bytes → Bytes
or_dot [] = dot
or_dot (c ∷ s) = c ∷ s

-- `path.Clean`
unfoldable pub clean : Bytes → Bytes
unfolding split_slash join_slash clean_components step_back turn or_dot
clean value =
    let rooted = has_prefix value (codes "/") in
    let text = join_slash (turn (clean_components rooted [] (split_slash value)) []) in
    if rooted then slash ∷ text else or_dot text

-- The loop of `ValidatePath` over the components.
unfoldable pub check_components : List Bytes → Result Error (Unit {0})
check_components [] = ok tt
check_components (part ∷ parts) = do
  refuse (equal part [] || equal part dot || equal part dot_dot) bad_component
  check_components parts

-- `ValidatePath`
unfoldable pub validate_path : Bytes → Result Error (Unit {0})
validate_path value = do
  refuse (not (has_prefix value (codes "./")) || leb (length value) 2) bad_path
  validate_raw_field value
  let relative = trim_prefix value (codes "./")
  refuse (has_prefix relative (codes "/") || equal relative dot || equal relative dot_dot)
      absolute_path
  refuse (not (equal (clean relative) relative)) noncanonical_path
  check_components (split_slash relative)

-- `ValidateSymlinkTarget`
unfoldable pub validate_symlink_target : Bytes → Result Error (Unit {0})
validate_symlink_target value = if equal value (codes "./") then ok tt else validate_path value

-- ===== src/Format/Paths/Components.antt =====
-- Which paths `ValidatePath` accepts.
use backup.Base.{
  ℕ, ◌≡◌, ◌≢◌, ◌↔◌, refl, sym, ap, ◌∙◌, Bool, true, false, ◌||◌, List, [], ◌∷◌, ◌++◌, append-nil,
  append_assoc, arith, ◌==◌, All, inl, inr, Bool-cases, ok,
}
use mathlib.Core.Path.{subst}
use backup.Base.Bytes.{Bytes, codes, equal, equal_iff, equal_refl, has_prefix, trim_prefix}
use backup.Format.Rows.Split.{IsField, validate_raw_field-IsField, IsField-validate_raw_field}
use backup.Format.Paths.{
  slash, cons_component, split_slash, after_slash, join_slash, dot, dot_dot, clean_components, turn,
  clean, check_components, validate_path,
}

-- A component that names a file or directory.
abbrev pub IsName : Bytes → Type 0
IsName part = (part ≢ []) × (part ≢ dot) × (part ≢ dot_dot)

cons_component-after :
    (c : ℕ) (parts : List Bytes)
    → parts ≢ []
    → join_slash (cons_component c parts) ≡ c ∷ join_slash parts
unfolding join_slash cons_component
cons_component-after c [] h = absurd (h refl)
cons_component-after c (part ∷ parts) h = refl

split_slash-ne-nil : (s : Bytes) → split_slash s ≢ []
unfolding split_slash cons_component
split_slash-ne-nil [] h = cc
split_slash-ne-nil (c ∷ s) h = ground arith

after_slash-join : (parts : List Bytes) → parts ≢ [] → after_slash parts ≡ slash ∷ join_slash parts
unfolding join_slash after_slash
after_slash-join [] h = absurd (h refl)
after_slash-join (part ∷ parts) h = refl

-- Joining the components of a path gives the path back.
join_slash-split_slash : (s : Bytes) → join_slash (split_slash s) ≡ s
unfolding split_slash join_slash
join_slash-split_slash [] = refl
join_slash-split_slash (c ∷ s) = elim (Bool-cases (c == slash)) [
  | inl t ↦ rw t (
      after_slash-join (split_slash s) (split_slash-ne-nil s)
      ∙ rw (join_slash-split_slash s) (ap (λ b. b ∷ s) (ground arith)))
  | inr f ↦ rw f (
      cons_component-after c (split_slash s) (split_slash-ne-nil s)
      ∙ ap (◌∷◌ c) (join_slash-split_slash s))
]

name_tests :
    (part : Bytes)
    → IsName part
    → ((equal part [] || equal part dot) ≡ false) × (equal part dot_dot ≡ false)
name_tests part h =
    let a = equal_iff part [] in
    let b = equal_iff part dot in let c = equal_iff part dot_dot in (ground arith, ground arith)

tests-IsName :
    (part : Bytes) → (equal part [] || equal part dot || equal part dot_dot) ≡ false → IsName part
tests-IsName part h = (
  (λ e. absurd (ground (arith, equal_iff part []))),
  (λ e. absurd (ground (arith, equal_iff part dot))),
  (λ e. absurd (ground (arith, equal_iff part dot_dot))),
)

turn-append : (kept done : List Bytes) → turn kept done ≡ turn kept [] ++ done
unfolding turn
turn-append [] done = refl
turn-append (part ∷ kept) done =
    turn-append kept (part ∷ done)
    ∙ sym (
        ap (λ t. t ++ done) (turn-append kept (part ∷ []))
        ∙ append_assoc (turn kept []) (part ∷ []) done)

-- Names are all kept by `path.Clean`.
clean_components-names :
    (rooted : Bool) (parts kept : List Bytes)
    → All IsName parts
    → turn (clean_components rooted kept parts) [] ≡ turn kept [] ++ parts
unfolding clean_components turn
clean_components-names rooted [] kept h = sym (append-nil (turn kept []))
clean_components-names rooted (part ∷ parts) kept (h, hs) =
    let (plain, up) = name_tests part h in
    rw (plain, up)
      (clean_components-names rooted parts (part ∷ kept) hs
        ∙ ap (λ t. t ++ parts) (turn-append kept (part ∷ []))
        ∙ append_assoc (turn kept []) (part ∷ []) parts)

-- `path.Clean` leaves a relative path of names alone.
clean-names :
    (c : ℕ) (s : Bytes)
    → has_prefix (c ∷ s) (codes "/") ≡ false
    → All IsName (split_slash (c ∷ s))
    → clean (c ∷ s) ≡ c ∷ s
unfolding clean
clean-names c s r h =
    let kept = clean_components-names false (split_slash (c ∷ s)) [] h in
    rw r (rw kept (rw (join_slash-split_slash (c ∷ s)) refl))

check_components-All :
    (parts : List Bytes) {u : Unit {0}} → check_components parts ≡ ok u → All IsName parts
unfolding check_components
check_components-All [] h = tt
check_components-All (part ∷ parts) h =
    (tests-IsName part (ground arith), check_components-All parts {u = tt} (ground arith))

All-check_components : (parts : List Bytes) → All IsName parts → check_components parts ≡ ok tt
unfolding check_components
All-check_components [] h = refl
All-check_components (part ∷ parts) (h, hs) =
    let (plain, up) = name_tests part h in let rest = All-check_components parts hs in ground arith

dot_slash :
    (value : Bytes)
    → has_prefix value (codes "./") ≡ true
    → value ≡ codes "./" ++ trim_prefix value (codes "./")
unfolding has_prefix trim_prefix
dot_slash [] h = cc
dot_slash (a ∷ []) h = ground arith
dot_slash (a ∷ b ∷ value) h = ground arith

trim_dot_slash : (relative : Bytes) → trim_prefix (codes "./" ++ relative) (codes "./") ≡ relative
unfolding trim_prefix
trim_dot_slash relative = refl

has_dot_slash : (relative : Bytes) → has_prefix (codes "./" ++ relative) (codes "./") ≡ true
unfolding has_prefix
has_dot_slash relative = refl

-- The parts of a path that `ValidatePath` accepts.
pub record IsPath (value relative : Bytes) : Type 0 where
  pub spelled : value ≡ codes "./" ++ relative
  pub field : IsField value
  pub names : All IsName (split_slash relative)

pub validate_path-IsPath :
    (value : Bytes) {u : Unit {0}}
    → validate_path value ≡ ok u
    → IsPath value (trim_prefix value (codes "./"))
unfolding validate_path
validate_path-IsPath value h = record {
  spelled = dot_slash value (ground arith);
  field = validate_raw_field-IsField value {u = tt} (ground arith);
  names = check_components-All _ {u = tt} (ground arith);
}

not_dot : ¬ All IsName (split_slash dot)
unfolding split_slash
not_dot h = h.0.1 refl

not_dot_dot : ¬ All IsName (split_slash dot_dot)
unfolding split_slash
not_dot_dot h = h.0.2 refl

-- A path of names is none of what the early tests refuse.
names-plain :
    (relative : Bytes)
    → All IsName (split_slash relative)
    → (relative ≢ [])
      × (relative ≢ dot)
      × (relative ≢ dot_dot)
      × (has_prefix relative (codes "/") ≡ false)
unfolding split_slash cons_component has_prefix
names-plain [] h = absurd (h.0.0 refl)
names-plain (c ∷ s) h = (
  cc,
  (λ e. not_dot (subst (λ r. All IsName (split_slash r)) e h)),
  (λ e. not_dot_dot (subst (λ r. All IsName (split_slash r)) e h)),
  elim (Bool-cases (c == slash)) [ inl t ↦ absurd ((rw t at h).0.0 refl) | inr f ↦ ground arith ],
)

IsPath-path : (value relative : Bytes) → IsPath value relative → validate_path value ≡ ok tt
unfolding validate_path
IsPath-path value [] p = absurd ((names-plain [] p.names).0 refl)
IsPath-path value (c ∷ s) p =
    let relative = c ∷ s in
    let (filled, a, b, start) = names-plain relative p.names in
    let raw = rw (p.spelled) at (IsField-validate_raw_field value p.field) in
    let cleaned = clean-names c s start p.names in
    let parts = All-check_components (split_slash relative) p.names in
    rw (p.spelled) (
      rw (has_dot_slash relative) (
        rw raw (
          rw (trim_dot_slash relative) (
            rw (start, cleaned, equal_refl relative, parts)
              (ground (arith, equal_iff relative dot, equal_iff relative dot_dot))))))

-- `ValidatePath` accepts exactly `./` before one or more names parted by slashes, none of them
-- empty, `.` or `..`, that make an acceptable field: so no path is absolute or leaves its root.
pub validate_path_iff :
    (value : Bytes) → (validate_path value ≡ ok tt) ↔ ((relative : Bytes) × IsPath value relative)
validate_path_iff value = (
  λ h. (trim_prefix value (codes "./"), validate_path-IsPath value h),
  λ p. IsPath-path value p.0 p.1,
)

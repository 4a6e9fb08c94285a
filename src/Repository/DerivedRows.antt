-- ===== src/Repository/DerivedRows.antt =====
-- The rows that internal/repository streams from its workspace files (stream_state.go: derivedRows),
-- and the comparisons that its merges make of them (stream_transition.go).
-- A file is the rows that its scanner delivers, and whether it then fails.
use backup.Base.{
  ℕ, ◌+◌, ◌-◌, ◌^◌, ◌≡◌, ◌⊎◌, ◌↔◌, refl, inl, inr, Bool, true, false, ◌&&◌, ◌||◌, List, [], ◌∷◌,
  arith, get_or, ltb, leb, not, ◌*◌, if◌then◌else◌, Result, refuse, Bool-cases, not_both,
}
use backup.Base.Bytes.{Bytes, equal, equal_iff, equal_refl, less, less_irrefl, less_trans}

-- The errors of the merges.
pub data Error : Type 0 where
  read_failed invalid_row removed_rows altered_row added_parts : Error
  rows_differ logical_field no_relocation : Error
  unreferenced_pack unknown_pack missing_object size_disagrees : Error
  missing_part immutable_field added_rows bad_number : Error
  wrong_blob_count missing_blob unexpected_blob too_large bad_config empty_keys : Error
  catalogs_given : Error
  empty_history genesis_has_parent catalogs_not_empty no_mirrors : Error
  wrong_parent wrong_tip invalid_mirrors bad_cache : Error
  invalid_catalog bad_event open_below_zero too_many_open leaf_above left_open : Error
  incomplete_state bad_key_chain format_changed no_changes rebound_mirror : Error

abbrev pub Row : Type 0
Row = List Bytes

pub record DerivedRows : Type 0 where
  pub rows : List Row
  pub fails : Bool

-- `errors.Join(left.Err(), right.Err())`
unfoldable pub join_errors : DerivedRows → DerivedRows → Result Error (Unit {0})
join_errors left right = refuse (left.fails || right.fails) read_failed

-- `rows.Fields()[index]`
abbrev pub field : Row → ℕ → Bytes
field row index = get_or row index []

-- The sign of `bytes.Compare`.
pub data Comparison : Type 0 where
  before same behind : Comparison

-- `bytes.Compare(left, right)`
unfoldable pub compare_bytes : Bytes → Bytes → Comparison
compare_bytes left right =
    if equal left right then same else if less left right then before else behind

-- `equalFields`
unfoldable pub equal_fields : Row → Row → Bool
equal_fields [] [] = true
equal_fields (x ∷ left) (y ∷ right) = equal x y && equal_fields left right
equal_fields _ _ = false

-- The loop of `strconv.ParseUint(text, 10, 32)`: the number that it returns beside its error, which
-- is 0 at a byte that is no digit, and the largest number where it would be larger.
unfoldable pub part_digits : ℕ → Bytes → ℕ
part_digits n [] = n
part_digits n (c ∷ text) =
    let next = n * 10 + (c - b'0') in
    let rest = part_digits next text in
    if not (leb b'0' c && leb c b'9') then 0 else if leb (2 ^ 32) next then 2 ^ 32 - 1 else rest

unfoldable pub part_value : Bytes → ℕ
unfolding part_digits
part_value text = part_digits 0 text

abbrev pub compare_parts : ℕ → ℕ → Comparison
compare_parts left right =
    if ltb left right then before else if ltb right left then behind else same

unfoldable pub compare_second : Comparison → Row → Row → Comparison
unfolding part_value
compare_second same left right =
    compare_parts (part_value (field left 1)) (part_value (field right 1))
compare_second other left right = other

-- `comparePackFields`
unfoldable pub compare_pack_fields : Row → Row → Comparison
unfolding compare_bytes compare_second
compare_pack_fields left right =
    compare_second (compare_bytes (field left 0) (field right 0)) left right

pub equal_fields_iff : (left right : Row) → (equal_fields left right ≡ true) ↔ (left ≡ right)
unfolding equal_fields
equal_fields_iff [] [] = ground arith
equal_fields_iff [] (y ∷ right) = ground arith
equal_fields_iff (x ∷ left) [] = ground arith
equal_fields_iff (x ∷ left) (y ∷ right) = ground (arith, equal_iff x y, equal_fields_iff left right)

compare_bytes-same : (a b : Bytes) → compare_bytes a b ≡ same → a ≡ b
unfolding compare_bytes
compare_bytes-same a b h = elim (Bool-cases (equal a b)) [
  | inl e ↦ (equal_iff a b).0 e
  | inr e ↦ absurd (ground arith)
]

pub compare_bytes_refl : (a : Bytes) → compare_bytes a a ≡ same
unfolding compare_bytes
compare_bytes_refl a = let e = equal_refl a in ground arith

-- What is behind in Go's order compares so.
pub compare_bytes-behind : (a b : Bytes) → less b a ≡ true → compare_bytes a b ≡ behind
unfolding compare_bytes
compare_bytes-behind a b h = elim (Bool-cases (equal a b)) [
  | inl e ↦
      let same_text = (equal_iff a b).0 e in
      let never = less_irrefl a in absurd (not_both (rw (← same_text) at h) never)
  | inr e ↦ elim (Bool-cases (less a b)) [
    | inl l ↦ absurd (not_both (less_trans a b a l h) (less_irrefl a))
    | inr l ↦ rw (e, l) refl
  ]
]

pub Comparison-cases : (c : Comparison) → (c ≡ same) ⊎ ((c ≡ before) ⊎ (c ≡ behind))
Comparison-cases same = inl refl
Comparison-cases before = inr (inl refl)
Comparison-cases behind = inr (inr refl)

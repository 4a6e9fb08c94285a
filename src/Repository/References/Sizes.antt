-- ===== src/Repository/References/Sizes.antt =====
-- The sizes that mergeIndexObjects compares, as numbers.
use native.Mathlib.Nat.{pow-suc}
use backup.Base.{
  ℕ, ◌+◌, ◌*◌, ◌-◌, ◌^◌, ◌<◌, ◌≤◌, ◌≡◌, ◌≢◌, ◌↔◌, refl, sym, ap, ◌∙◌, true, false, List, [], ◌∷◌,
  length, arith, Option, none, some, some-eq, ==_iff, inl, inr, Result-cases, ok, require-eq-ok,
  All, All-map, Among,
}
use backup.Base.Bytes.{Bytes}
use backup.Format.Decimal.{all_digits, value_from, parse_digits}
use backup.Format.Decimal.Unsigned.{parse_digits-of, parse_digits-eq-ok}
use backup.Repository.DerivedRows.{size_disagrees, Row, DerivedRows, join_errors, field}
use backup.Repository.Extension.Laws.{HasWidth, Sorted}
use backup.Repository.PackRows.Ordinary.{Grouped}
use backup.Repository.References.{parsed_size, same_size, check_sizes, merge_index_objects}
use backup.Repository.References.Laws.{merge_index_objects-IsFound}

-- The sum of the digits of a text, each times the power of ten of its place.
abbrev pub weight : Bytes → ℕ
weight [] = 0
weight (c ∷ text) = (c - b'0') * 10 ^ length text + weight text

abbrev pub IsDigit : ℕ → Type 0
IsDigit c = (b'0' ≤ c) × (c ≤ b'9')

-- The text is digits, at least one, that spell the number, a uint64.
abbrev pub Spells : Bytes → ℕ → Type 0
Spells text n = (text ≢ []) × All IsDigit text × (weight text ≡ n) × (n < 2 ^ 64)

-- An object of the hash of the reference is listed, and both give one number as the size.
abbrev pub HasObject : List Row → Row → Type 0
HasObject objects reference =
    (object : Row) × Among object objects
    × (field object 0 ≡ field reference 0)
    × ((n : ℕ) × Spells (field object 1) n × Spells (field reference 1) n)

value_from-weight : (n : ℕ) (s : Bytes) → value_from n s ≡ n * 10 ^ length s + weight s
unfolding value_from
value_from-weight n [] = omega arith
value_from-weight n (c ∷ s) =
    rw (pow-suc 10 (length s)) (omega (arith, value_from-weight (n * 10 + (c - b'0')) s))

all_digits-All : (s : Bytes) → (all_digits s ≡ true) ↔ All IsDigit s
unfolding all_digits
all_digits-All [] = (λ h. tt, λ h. refl)
all_digits-All (c ∷ s) =
    let rest = all_digits-All s in
    (
      λ h. ((ground arith, ground arith), rest.0 (ground arith)),
      λ (d, ds). let more = rest.1 ds in ground arith,
    )

parsed_size-Spells : (text : Bytes) (n : ℕ) → (parsed_size text ≡ some n) ↔ Spells text n
unfolding parsed_size
parsed_size-Spells text n = (
  λ h. elim (Result-cases (parse_digits text (2 ^ 64))) [
    | inl (m, e) ↦
        let same : m ≡ n = some-eq (rw (e, parsed_size) at h) in
        let (ne, ds, v, l) = parse_digits-eq-ok text (2 ^ 64) (e ∙ ap ok same) in
        let w = value_from-weight 0 text in (ne, (all_digits-All text).0 ds, omega (arith, v, w), l)
    | inr (e, f) ↦ absurd (cc (rw (f, parsed_size) at h))
  ],
  λ (ne, ds, v, l).
      let w : value_from 0 text ≡ n = omega (arith, value_from-weight 0 text, v) in
      let read = parse_digits-of text (2 ^ 64) ne ((all_digits-All text).1 ds) (rw w l) ∙ ap ok w in
      rw (read, parsed_size) refl,
)

same_size-some : (a b : Option ℕ) → (same_size a b ≡ true) ↔ ((n : ℕ) × (a ≡ some n) × (b ≡ some n))
unfolding same_size
same_size-some none b = (λ h. absurd (cc), λ h. absurd (cc (h.1)))
same_size-some (some a) none = (λ h. absurd (cc), λ h. absurd (cc (h.2)))
same_size-some (some a) (some b) = (
  λ h. (a, refl, ap some (sym ((==_iff a b).0 h))),
  λ (n, e, f). (==_iff a b).1 (some-eq (e ∙ sym f)),
)

check_sizes-Spells :
    (object reference : Row)
    → (check_sizes object reference ≡ ok tt)
      ↔ ((n : ℕ) × Spells (field object 1) n × Spells (field reference 1) n)
unfolding check_sizes
check_sizes-Spells object reference =
    let a = parsed_size (field object 1) in
    let b = parsed_size (field reference 1) in
    (
      λ h.
          let (n, e, f) = (same_size-some a b).0 (require-eq-ok (same_size a b) size_disagrees h) in
          (
            n,
            (parsed_size-Spells (field object 1) n).0 e,
            (parsed_size-Spells (field reference 1) n).0 f,
          ),
      λ (n, s, t).
          let same = (same_size-some a b).1 (
            n,
            (parsed_size-Spells (field object 1) n).1 s,
            (parsed_size-Spells (field reference 1) n).1 t,
          ) in
          rw same refl,
    )

join_errors_iff :
    (left right : DerivedRows)
    → (join_errors left right ≡ ok tt) ↔ ((left.fails ≡ false) × (right.fails ≡ false))
unfolding join_errors
join_errors_iff left right = (λ h. (ground arith, ground arith), λ (f, g). rw (f, g) refl)

-- Of references of three fields whose hashes do not go down, and objects of three fields whose
-- hashes go up strictly, `mergeIndexObjects` accepts exactly those where every reference has an
-- object of its hash, and the sizes in both are decimal digits of one number below 2^64, and no
-- file fails.
pub merge_index_objects_iff :
    (index objects : DerivedRows)
    → Grouped index.rows
    → Sorted objects.rows
    → HasWidth 3 index.rows
    → HasWidth 3 objects.rows
    → (merge_index_objects index objects ≡ ok tt)
      ↔ (All (HasObject objects.rows) index.rows × (index.fails ≡ false) × (objects.fails ≡ false))
merge_index_objects_iff index objects g s w v =
    let (into, from) = merge_index_objects-IsFound index objects g s w v in
    let (joined, join) = join_errors_iff index objects in
    (
      λ h.
          let (found, j) = into h in
          (
            All-map (λ l f. (f.0, f.1, f.2, (check_sizes-Spells f.0 l).0 f.3)) index.rows found,
            (joined j).0,
            (joined j).1,
          ),
      λ (found, i, o). from (
        All-map (λ l f. (f.0, f.1, f.2, (check_sizes-Spells f.0 l).1 f.3)) index.rows found,
        join (i, o),
      ),
    )

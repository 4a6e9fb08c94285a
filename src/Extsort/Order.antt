-- ===== src/Extsort/Order.antt =====
-- The order of records in internal/extsort/sort.go.
use mathlib.Core.Path.{subst}
use backup.Base.{◌≡◌, refl, sym, ◌∙◌, ap₂, true, false, inl, inr, Bool-cases, not_both}
use backup.Base.Bytes.{
  Bytes, equal, less, equal_iff, equal_refl, equal-false, less_irrefl, less_trans, less_total,
}
use backup.Extsort.{Record, before}

pub before_irrefl : (a : Record) → before a a ≡ false
unfolding before
before_irrefl a = rw (equal_refl a.key) (less_irrefl a.content)

less_one_way : (a b : Bytes) → less a b ≡ true → less b a ≡ false
less_one_way a b h = elim (Bool-cases (less b a)) [
  | inl back ↦ absurd (not_both (less_trans a b a h back) (less_irrefl a))
  | inr done ↦ done
]

equal_swapped : (a b : Bytes) → equal a b ≡ false → equal b a ≡ false
equal_swapped a b h = elim (Bool-cases (equal b a)) [
  | inr done ↦ done
  | inl same ↦ absurd (equal-false a b h (sym ((equal_iff b a).0 same)))
]

not_less_trans : (a b c : Bytes) → less b a ≡ false → less c b ≡ false → less c a ≡ false
not_less_trans a b c h k = elim (Bool-cases (less c a)) [
  | inr done ↦ done
  | inl up ↦ elim (Bool-cases (less a b)) [
    | inl on ↦ absurd (not_both (less_trans c a b up on) k)
    | inr off ↦ absurd (not_both up (subst (λ x. less c x ≡ false) (sym (less_total a b off h)) k))
  ]
]

same_record : (a b : Record) → a.key ≡ b.key → a.content ≡ b.content → a ≡ b
same_record a b k c = ap₂ (λ content key. record { content = content; key = key }) c k

same_keys : (a b : Record) → a.key ≡ b.key → before a b ≡ less a.content b.content
unfolding before
same_keys a b e = rw ((equal_iff a.key b.key).1 e) refl

apart_keys : (a b : Record) → equal a.key b.key ≡ false → before a b ≡ less a.key b.key
unfolding before
apart_keys a b e = rw e refl

-- What `before` refuses, by the keys and then by the contents.
pub before-false : (a b : Record) → before a b ≡ false → less a.key b.key ≡ false
before-false a b h = elim (Bool-cases (equal a.key b.key)) [
  | inl same ↦
      subst (λ k. less a.key k ≡ false) ((equal_iff a.key b.key).0 same) (less_irrefl a.key)
  | inr apart ↦ sym (apart_keys a b apart) ∙ h
]

-- An entry that precedes none of the second's successors precedes none of the first's.
pub before_trans : (a b c : Record) → before b a ≡ false → before c b ≡ false → before c a ≡ false
before_trans a b c h k = elim (Bool-cases (equal c.key a.key)) [
  | inr apart ↦
      apart_keys c a apart
      ∙ not_less_trans a.key b.key c.key (before-false b a h) (before-false c b k)
  | inl same ↦
      let ca = (equal_iff c.key a.key).0 same in
      let bc =
        less_total b.key c.key (subst (λ x. less b.key x ≡ false) (sym ca) (before-false b a h))
          (before-false c b k) in
      same_keys c a ca
      ∙ not_less_trans a.content b.content c.content (sym (same_keys b a (bc ∙ ca)) ∙ h)
          (sym (same_keys c b (sym bc)) ∙ k)
]

pub before_total : (a b : Record) → before a b ≡ false → before b a ≡ false → a ≡ b
before_total a b h k =
    let same = less_total a.key b.key (before-false a b h) (before-false b a k) in
    same_record a b same (
      less_total a.content b.content (sym (same_keys a b same) ∙ h)
        (sym (same_keys b a (sym same)) ∙ k))

pub before_one_way : (a b : Record) → before a b ≡ true → before b a ≡ false
before_one_way a b h = elim (Bool-cases (before b a)) [
  | inr done ↦ done
  | inl back ↦ elim (Bool-cases (equal a.key b.key)) [
    | inl same ↦
        let e = (equal_iff a.key b.key).0 same in
        absurd (
          not_both (sym (same_keys b a (sym e)) ∙ back)
            (less_one_way a.content b.content (sym (same_keys a b e) ∙ h)))
    | inr apart ↦
        let apart' : equal b.key a.key ≡ false = equal_swapped a.key b.key apart in
        absurd (
          not_both (sym (apart_keys b a apart') ∙ back)
            (less_one_way a.key b.key (sym (apart_keys a b apart) ∙ h)))
  ]
]

-- "precedes" is transitive
pub before_chain : (a b c : Record) → before a b ≡ true → before b c ≡ true → before a c ≡ true
before_chain a b c h k = elim (Bool-cases (before a c)) [
  | inl done ↦ done
  | inr refused ↦
      let back = before_trans a b c (before_one_way a b h) (before_one_way b c k) in
      let same = before_total a c refused back in
      absurd (not_both (subst (λ x. before x b ≡ true) same h) (before_one_way b c k))
]

-- ===== src/Repository/AncestorEvents/Counts.antt =====
-- How many elements of a list pass a test.
use mathlib.Core.List.{Perm, Permᴰ}
use mathlib.Core.Logic.{∥∥₁_elim}
use native.Mathlib.Nat.{ℕ_set}
use backup.Base.{
  ℕ, ◌+◌, ◌≤◌, ◌≡◌, refl, ap, ap₂, ◌∙◌, Bool, true, false, not, ◌&&◌, List, [], ◌∷◌, ◌++◌, arith,
  inl, inr, Bool-cases, length, All,
}

abbrev pub one_if : Bool → ℕ
one_if true = 1
one_if false = 0

module _ {A : Type 0} where
  abbrev pub count : (A → Bool) → List A → ℕ
  count test [] = 0
  count test (x ∷ xs) = one_if (test x) + count test xs

  pub count-append :
      (test : A → Bool) (xs ys : List A) → count test (xs ++ ys) ≡ count test xs + count test ys
  count-append test [] ys = omega arith
  count-append test (x ∷ xs) ys = omega (arith, count-append test xs ys)

  count_rearranged :
      (test : A → Bool) {xs ys : List A} → Permᴰ xs ys → count test xs ≡ count test ys
  count_rearranged test Permᴰ.nil = refl
  count_rearranged test (Permᴰ.cons e p) =
      omega (arith, ap (λ x. one_if (test x)) e, count_rearranged test p)
  count_rearranged test (Permᴰ.swap e f) =
      omega (arith, ap (λ x. one_if (test x)) e, ap (λ x. one_if (test x)) f)
  count_rearranged test (Permᴰ.trans p q) = count_rearranged test p ∙ count_rearranged test q

  pub count-perm : (test : A → Bool) {xs ys : List A} → Perm xs ys → count test xs ≡ count test ys
  count-perm test {xs} {ys} same =
      ∥∥₁_elim same (ℕ_set (count test xs) (count test ys)) (count_rearranged test)

  -- Tests that agree on the list count alike.
  pub count-agree :
      (f g : A → Bool) (xs : List A) → All (λ x. f x ≡ g x) xs → count f xs ≡ count g xs
  count-agree f g [] h = refl
  count-agree f g (x ∷ xs) (h, hs) = ap₂ (λ b n. one_if b + n) h (count-agree f g xs hs)

  pub count_none :
      (test : A → Bool) (xs : List A) → All (λ x. test x ≡ false) xs → count test xs ≡ 0
  count_none test [] h = refl
  count_none test (x ∷ xs) (h, hs) = rw h (omega (arith, count_none test xs hs))

  pub none_count :
      (test : A → Bool) (xs : List A) → count test xs ≡ 0 → All (λ x. test x ≡ false) xs
  none_count test [] h = tt
  none_count test (x ∷ xs) h = elim (Bool-cases (test x)) [
    | inl on ↦ absurd (let h' = rw on at h in omega arith)
    | inr off ↦ (off, none_count test xs (let h' = rw off at h in omega arith))
  ]

  -- A stronger test counts no more.
  pub count-le :
      (f g : A → Bool) (xs : List A) → ((x : A) → f x ≡ true → g x ≡ true) → count f xs ≤ count g xs
  count-le f g [] h = omega arith
  count-le f g (x ∷ xs) h = elim (Bool-cases (f x)) [
    | inl on ↦ rw (on, h x on) (omega (arith, count-le f g xs h))
    | inr off ↦ rw off (omega (arith, count-le f g xs h))
  ]

  -- What passes the weaker test passes the stronger one or the weaker alone.
  pub count_split :
      (f g : A → Bool) (xs : List A)
      → ((x : A) → f x ≡ true → g x ≡ true)
      → count g xs ≡ count f xs + count (λ x. g x && not (f x)) xs
  count_split f g [] h = omega arith
  count_split f g (x ∷ xs) h = elim (Bool-cases (f x)) [
    | inl on ↦ rw (on, h x on) (omega (arith, count_split f g xs h))
    | inr off ↦ elim (Bool-cases (g x)) [
      | inl weak ↦ rw (off, weak) (omega (arith, count_split f g xs h))
      | inr fails ↦ rw (off, fails) (omega (arith, count_split f g xs h))
    ]
  ]

  count_bound : (test : A → Bool) (xs : List A) → count test xs ≤ length xs
  count_bound test [] = omega arith
  count_bound test (x ∷ xs) = elim (Bool-cases (test x)) [
    | inl on ↦ rw on (omega (arith, count_bound test xs))
    | inr off ↦ rw off (omega (arith, count_bound test xs))
  ]

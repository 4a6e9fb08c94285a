-- ===== src/Extsort/Sorted.antt =====
-- Lists in the order of internal/extsort/sort.go, and what `sort.Slice` makes of a list.
use mathlib.Core.Bool.{Bool-set}
use mathlib.Core.List.{Perm, Permᴰ, Mem, not-mem-nil, forall_mem-cons}
use mathlib.Core.List.Perm
use native.Mathlib.Nat.{ℕ_set}
use mathlib.Core.Logic.{∥∥₁_elim}
use backup.Base.{
  suc, ◌≡◌, refl, ap, ap₂, ◌∙◌, false, List, [], ◌∷◌, inl, inr, Bool-cases, All, All-map, length,
}
use backup.Extsort.{Record, before, insert, sort_records}
use backup.Extsort.Order.{before_irrefl, before_trans, before_total, before_one_way}

pub All-Mem :
    {A : Type 0} (P : A → Type 0)
    → ((a : A) → IsProp (P a))
    → (xs : List A) → All P xs
    → (x : A) → Mem x xs
    → P x
All-Mem P p [] h = λ x m. absurd (not-mem-nil m)
All-Mem P p (y ∷ ys) h = (forall_mem-cons p).1 (h.0, All-Mem P p ys h.1)

pub Mem-All :
    {A : Type 0} (P : A → Type 0)
    → ((a : A) → IsProp (P a))
    → (xs : List A) → ((x : A) → Mem x xs → P x)
    → All P xs
Mem-All P p [] h = tt
Mem-All P p (y ∷ ys) h = let (f, g) = (forall_mem-cons p).0 h in (f, Mem-All P p ys g)

-- What holds of all elements holds of all in another order.
pub All-perm :
    {A : Type 0} (P : A → Type 0)
    → ((a : A) → IsProp (P a))
    → {xs ys : List A} → Perm xs ys
    → All P xs
    → All P ys
All-perm P p {xs} {ys} same h = Mem-All P p ys λ x m. All-Mem P p xs h x ((Perm.mem_iff same).1 m)

-- Lists with the same elements in some order are of one length.
same_length : {A : Type 0} {xs ys : List A} → Permᴰ xs ys → length xs ≡ length ys
same_length Permᴰ.nil = refl
same_length (Permᴰ.cons e p) = ap suc (same_length p)
same_length (Permᴰ.swap e f) = refl
same_length (Permᴰ.trans p q) = same_length p ∙ same_length q

pub length-perm : {A : Type 0} {xs ys : List A} → Perm xs ys → length xs ≡ length ys
length-perm {A} {xs} {ys} same = ∥∥₁_elim same (ℕ_set (length xs) (length ys)) same_length

-- None of the list precedes the entry.
abbrev pub Below : Record → List Record → Type 0
Below entry = All (λ r. before r entry ≡ false)

abbrev pub Ascending : List Record → Type 0
Ascending [] = Unit
Ascending (r ∷ rs) = Below r rs × Ascending rs

pub Below-perm : (entry : Record) {l r : List Record} → Perm l r → Below entry l → Below entry r
Below-perm entry = All-perm (λ r. before r entry ≡ false) (λ r. Bool-set (before r entry) false)

pub Below-trans : (a b : Record) (l : List Record) → before b a ≡ false → Below b l → Below a l
Below-trans a b l h = All-map (λ c k. before_trans a b c h k) l

insert-perm : (entry : Record) (l : List Record) → Perm (insert entry l) (entry ∷ l)
unfolding insert
insert-perm entry [] = Perm.rfl
insert-perm entry (next ∷ l) = elim (Bool-cases (before next entry)) [
  | inl up ↦ rw up (Perm.trans (Perm.cons next (insert-perm entry l)) (Perm.swap entry next l))
  | inr stay ↦ rw stay Perm.rfl
]

insert-Ascending : (entry : Record) (l : List Record) → Ascending l → Ascending (insert entry l)
unfolding insert
insert-Ascending entry [] h = (tt, tt)
insert-Ascending entry (next ∷ l) (h, hs) = elim (Bool-cases (before next entry)) [
  | inl up ↦ rw up (
    Below-perm next (Perm.symm (insert-perm entry l)) (before_one_way next entry up, h),
    insert-Ascending entry l hs,
  )
  | inr stay ↦ rw stay ((stay, Below-trans entry next l stay h), (h, hs))
]

All-insert :
    (P : Record → Type 0) (entry : Record) (l : List Record)
    → P entry
    → All P l
    → All P (insert entry l)
unfolding insert
All-insert P entry [] p ps = (p, tt)
All-insert P entry (next ∷ l) p (q, ps) = elim (Bool-cases (before next entry)) [
  | inl up ↦ rw up (q, All-insert P entry l p ps)
  | inr stay ↦ rw stay (p, (q, ps))
]

pub All-sort_records : (P : Record → Type 0) (l : List Record) → All P l → All P (sort_records l)
unfolding sort_records
All-sort_records P [] h = tt
All-sort_records P (entry ∷ l) (p, ps) =
    All-insert P entry (sort_records l) p (All-sort_records P l ps)

pub sort_records-perm : (l : List Record) → Perm (sort_records l) l
unfolding sort_records
sort_records-perm [] = Perm.rfl
sort_records-perm (entry ∷ l) =
    Perm.trans (insert-perm entry (sort_records l)) (Perm.cons entry (sort_records-perm l))

pub sort_records-Ascending : (l : List Record) → Ascending (sort_records l)
unfolding sort_records
sort_records-Ascending [] = tt
sort_records-Ascending (entry ∷ l) =
    insert-Ascending entry (sort_records l) (sort_records-Ascending l)

-- The head of an ascending list is no later than the head of any arrangement of it.
head_first :
    (a b : Record) (l r : List Record)
    → Ascending (a ∷ l)
    → Perm (a ∷ l) (b ∷ r)
    → before b a ≡ false
head_first a b l r (h, hs) same = (Below-perm a same (before_irrefl a, h)).0

-- An ascending list is the only ascending arrangement of its records.
Ascending-unique : (l r : List Record) → Ascending l → Ascending r → Perm l r → l ≡ r
Ascending-unique [] r hl hr same = Perm.nil-eq same
Ascending-unique (a ∷ l) [] hl hr same = Perm.eq-nil same
Ascending-unique (a ∷ l) (b ∷ r) hl hr same =
    let heads =
      before_total a b (head_first b a r l hr (Perm.symm same)) (head_first a b l r hl same) in
    let tails = Perm.cons_inv (Perm.trans same (Perm.symm (Perm.cons' heads Perm.rfl))) in
    ap₂ ◌∷◌ heads (Ascending-unique l r hl.1 hr.1 tails)

pub Ascending-sort_records : (l r : List Record) → Ascending l → Perm l r → l ≡ sort_records r
Ascending-sort_records l r h same =
    Ascending-unique l (sort_records r) h (sort_records-Ascending r)
      (Perm.trans same (Perm.symm (sort_records-perm r)))

-- ===== src/Format/Index/Order.antt =====
-- Which lists of entries `validateIndexOrder` accepts.
use backup.Format.Paths.{slash}
use backup.Base.{
  ◌<◌, ◌++◌, length, ◌≡◌, ◌↔◌, refl, true, false, List, [], ◌∷◌, arith, ok, refuse_then, inl, inr,
  Bool-cases, All, All-map,
}
use backup.Base.Bytes.{Bytes, equal, equal_iff, less, less_irrefl, less_trans}
use backup.Format.Index.{
  IndexEntry, parents, member, any_member, not_after, check_order, validate_index_order,
}
use backup.Format.Index.Ancestors.{less-append, IsParent, parents_iff}

-- Two entries, the first before the second: sorted, and neither is a directory above the other.
pub record Apart (q p : Bytes) : Type 0 where
  pub sorted : less q p ≡ true
  pub not_above : ¬ IsParent q p
  pub not_below : ¬ IsParent p q

Apart-of : (q p : Bytes) → less q p ≡ true → ¬ IsParent q p → Apart q p
Apart-of q p l n = record {
  sorted = l;
  not_above = n;
  not_below = λ a.
      let back = rw (← a.1) at (less-append p a.0) in
      absurd (cc (less_trans q p q l back, less_irrefl q));
}

member-false :
    (p : Bytes) (seen : List Bytes) → member p seen ≡ false → All (λ q. equal q p ≡ false) seen
unfolding member
member-false p [] h = tt
member-false p (q ∷ seen) h =
    let a = equal_iff p q in
    let b = equal_iff q p in (ground arith, member-false p seen (ground arith))

All-zip {ℓ κ μ ν} :
    {A : Type ℓ} {P : A → Type κ} {Q : A → Type μ} {R : A → Type ν} (f : (a : A) → P a → Q a → R a)
    (xs : List A)
    → All P xs
    → All Q xs
    → All R xs
All-zip f [] h k = tt
All-zip f (x ∷ xs) (h, hs) (k, ks) = (f x h k, All-zip f xs hs ks)

any_member-All :
    (paths seen : List Bytes)
    → any_member paths seen ≡ false
    → All (λ q. member q paths ≡ false) seen
unfolding any_member
any_member-All [] seen h = none_member seen
  where
    none_member : (xs : List Bytes) → All (λ q. member q [] ≡ false) xs
    none_member [] = tt
    none_member (x ∷ xs) = (unfold member in refl, none_member xs)
any_member-All (path ∷ paths) seen h =
    All-zip (λ q e ih. join q e ih) seen (member-false path seen (ground arith))
      (any_member-All paths seen (ground arith))
  where
    join :
        (q : Bytes)
        → equal q path ≡ false
        → member q paths ≡ false
        → member q (path ∷ paths) ≡ false
    join q e ih = unfold member in ground arith

member-All :
    (p : Bytes) (seen : List Bytes) → All (λ q. equal q p ≡ false) seen → member p seen ≡ false
unfolding member
member-All p [] h = refl
member-All p (q ∷ seen) (h, hs) =
    let a = equal_iff p q in
    let b = equal_iff q p in let rest = member-All p seen hs in ground arith

member_parts :
    (q path : Bytes) (paths : List Bytes)
    → member q (path ∷ paths) ≡ false
    → (equal q path ≡ false) × (member q paths ≡ false)
unfolding member
member_parts q path paths h = (ground arith, ground arith)

All-any_member :
    (paths seen : List Bytes)
    → All (λ q. member q paths ≡ false) seen
    → any_member paths seen ≡ false
unfolding any_member
All-any_member [] seen h = refl
All-any_member (path ∷ paths) seen h =
    let first = member-All path seen (All-map (λ q e. (member_parts q path paths e).0) seen h) in
    let rest =
      All-any_member paths seen (All-map (λ q e. (member_parts q path paths e).1) seen h) in
    rw first rest

-- The paths seen, the last one first, fall.
abbrev Falls : List Bytes → Type 0
Falls [] = Unit
Falls (p ∷ []) = Unit
Falls (p ∷ q ∷ seen) = (less q p ≡ true) × Falls (q ∷ seen)

below-All :
    (path : Bytes) (seen : List Bytes)
    → Falls seen
    → not_after seen path ≡ false
    → All (λ q. less q path ≡ true) seen
unfolding not_after
below-All path [] f h = tt
below-All path (p ∷ []) f h = (ground arith, tt)
below-All path (p ∷ q ∷ seen) (l, f) h =
    let here : less p path ≡ true = ground arith in
    (here, below-All path (q ∷ seen) f (rw (less_trans q p path l here) refl))

Falls-cons :
    (path : Bytes) (seen : List Bytes)
    → Falls seen
    → not_after seen path ≡ false
    → Falls (path ∷ seen)
unfolding not_after
Falls-cons path [] f h = tt
Falls-cons path (p ∷ seen) f h = (ground arith, f)

-- Any two entries, the first before the second in the list, are apart.
abbrev pub AllApart : List IndexEntry → Type 0
AllApart [] = Unit
AllApart (entry ∷ entries) = All (λ e. Apart entry.path e.path) entries × AllApart entries

check_order-Apart :
    (entries : List IndexEntry) (seen : List Bytes)
    → Falls seen
    → check_order seen entries ≡ ok tt
    → All (λ q. All (λ e. Apart q e.path) entries) seen × AllApart entries
unfolding check_order
check_order-Apart [] seen f h = (nothing seen, tt)
  where
    nothing : (xs : List Bytes) → All (λ q. Unit {0}) xs
    nothing [] = tt
    nothing (x ∷ xs) = (tt, nothing xs)
check_order-Apart (entry ∷ entries) seen f h =
    let (after, h1) = refuse_then (not_after seen entry.path) _ _ h in
    let (free, h2) = refuse_then (any_member (parents entry.path) seen) _ _ h1 in
    let sorted = below-All entry.path seen f after in
    let clear = any_member-All (parents entry.path) seen free in
    let here =
      All-zip
        (λ q l m. Apart-of q entry.path l (λ a. absurd (cc ((parents_iff q entry.path).1 a, m))))
        seen sorted clear in
    let ((first, rest), apart) =
      check_order-Apart entries (entry.path ∷ seen) (Falls-cons entry.path seen f after) h2 in
    (All-zip (λ q a later. (a, later)) seen here rest, (first, apart))

Apart-check_order :
    (entries : List IndexEntry) (seen : List Bytes)
    → All (λ q. All (λ e. Apart q e.path) entries) seen
    → AllApart entries
    → check_order seen entries ≡ ok tt
unfolding check_order
Apart-check_order [] seen h a = refl
Apart-check_order (entry ∷ entries) seen h (first, apart) =
    let here = All-map (λ q p. p.0) seen h in
    let rest = All-map (λ q p. p.1) seen h in
    let free =
      All-any_member (parents entry.path) seen
        (All-map (λ q a. not_member q entry.path a) seen here) in
    rw (after_of seen here)
      (rw free (Apart-check_order entries (entry.path ∷ seen) (first, rest) apart))
  where
    after_of :
        (xs : List Bytes) → All (λ q. Apart q entry.path) xs → not_after xs entry.path ≡ false
    after_of [] a = unfold not_after in refl
    after_of (x ∷ xs) (a, later) = unfold not_after in rw (a.sorted) refl

    not_member : (q p : Bytes) → Apart q p → member q (parents p) ≡ false
    not_member q p a = elim (Bool-cases (member q (parents p))) [
      | inl t ↦ absurd (a.not_above ((parents_iff q p).0 t))
      | inr f ↦ f
    ]

-- The paths seen are all that the loop looks at.
pub validate_index_order-AllApart :
    (entries : List IndexEntry) → (validate_index_order entries ≡ ok tt) ↔ AllApart entries
unfolding validate_index_order
validate_index_order-AllApart entries =
    (λ h. (check_order-Apart entries [] tt h).1, λ a. Apart-check_order entries [] tt a)

-- `q` is a directory above `p`.
abbrev pub IsAncestor : Bytes → Bytes → Type 0
IsAncestor q p = (r : Bytes) × (p ≡ q ++ slash ∷ r)

-- Any two paths, the first before the second in the list, rise, and neither is above the other.
abbrev pub AllSeparate : List IndexEntry → Type 0
AllSeparate [] = Unit
AllSeparate (entry ∷ entries) =
    All
      (λ e.
        (less entry.path e.path ≡ true)
        × (¬ IsAncestor entry.path e.path)
        × (¬ IsAncestor e.path entry.path))
      entries
    × AllSeparate entries

AllApart-AllSeparate :
    (entries : List IndexEntry)
    → All (λ e. 1 < length e.path) entries
    → AllApart entries ↔ AllSeparate entries
AllApart-AllSeparate [] l = (λ a. tt, λ a. tt)
AllApart-AllSeparate (entry ∷ entries) (l, ls) =
    let rest = AllApart-AllSeparate entries ls in
    (
      λ (a, more). (
        All-zip
            (λ e k b. (b.sorted, λ u. b.not_above (u.0, u.1, l), λ u. b.not_below (u.0, u.1, k)))
            entries ls a,
        rest.0 more,
      ),
      λ (a, more). (
        All-map
            (λ e b. record {
              sorted = b.0;
              not_above = λ u. b.1 (u.0, u.1);
              not_below = λ u. b.2 (u.0, u.1);
            })
            entries a,
        rest.1 more,
      ),
    )

-- Of entries whose paths have two bytes or more, as all paths have that `ValidatePath` accepts:
-- `validateIndexOrder` accepts exactly the lists that are strictly sorted by path and in which no
-- entry is a directory above another: looking only at the paths seen before is enough.
pub validate_index_order_iff :
    (entries : List IndexEntry)
    → All (λ e. 1 < length e.path) entries
    → (validate_index_order entries ≡ ok tt) ↔ AllSeparate entries
validate_index_order_iff entries l =
    let (into, from) = validate_index_order-AllApart entries in
    let (apart, separate) = AllApart-AllSeparate entries l in
    (λ h. apart (into h), λ a. from (separate a))

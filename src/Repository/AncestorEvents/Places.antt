-- ===== src/Repository/AncestorEvents/Places.antt =====
-- How many intervals are open at a place of the sorted events.
use mathlib.Core.List.{Perm}
use backup.Base.{
  ◌≤◌, ◌<◌, ◌≡◌, ◌≢◌, refl, sym, ap, ◌∙◌, Bool, true, false, not, ◌&&◌, List, [], ◌∷◌, ◌++◌, map,
  arith, inl, inr, Bool-cases, not_both, All, All-append, All-map, length,
}
use backup.Base.Bytes.{Bytes, codes, equal, equal_iff, equal-false}
use backup.Extsort.{Record, before}
use backup.Extsort.Order.{before_irrefl, before_trans, before_total}
use backup.Extsort.Sorted.{Ascending}
use backup.Repository.AncestorEvents.{ancestor_events, all_events}
use backup.Repository.AncestorEvents.Counts.{
  count, count-append, count-perm, count-agree, count_none, count-le,
}
use backup.Repository.AncestorEvents.Order.{row_of, HasBytes, IsByte}
use backup.Repository.AncestorEvents.Intervals.{leaf_of, start_of, end_of, start_before_end}

abbrev pub event_list : List Bytes → List Record
event_list [] = []
event_list (p ∷ ps) = leaf_of p ∷ start_of p ∷ end_of p ∷ event_list ps

pub map-event_list : (ps : List Bytes) → map row_of (event_list ps) ≡ all_events ps
unfolding all_events ancestor_events
map-event_list [] = refl
map-event_list (p ∷ ps) = ap (λ rows. ancestor_events p ++ rows) (map-event_list ps)

pub event_list-HasBytes : (ps : List Bytes) → All (All IsByte) ps → All HasBytes (event_list ps)
event_list-HasBytes [] h = tt
event_list-HasBytes (p ∷ ps) (h, hs) = (
  h,
  (
    All-append IsByte p (codes "/") h (omega arith, tt),
    (All-append IsByte p (codes "0") h (omega arith, tt), event_list-HasBytes ps hs),
  ),
)

abbrev pub is_start : Record → Bool
is_start e = equal e.content (codes "1")

abbrev pub is_end : Record → Bool
is_end e = equal e.content (codes "0")

count_starts :
    (test : Record → Bool) (ps : List Bytes)
    → count (λ e. is_start e && test e) (event_list ps) ≡ count (λ q. test (start_of q)) ps
unfolding equal
count_starts test [] = refl
count_starts test (p ∷ ps) = omega (arith, count_starts test ps)

count_ends :
    (test : Record → Bool) (ps : List Bytes)
    → count (λ e. is_end e && test e) (event_list ps) ≡ count (λ q. test (end_of q)) ps
unfolding equal
count_ends test [] = refl
count_ends test (p ∷ ps) = omega (arith, count_ends test ps)

pub count_start_all : (ps : List Bytes) → count is_start (event_list ps) ≡ length ps
unfolding equal
count_start_all [] = refl
count_start_all (p ∷ ps) = omega (arith, count_start_all ps)

pub count_end_all : (ps : List Bytes) → count is_end (event_list ps) ≡ length ps
unfolding equal
count_end_all [] = refl
count_end_all (p ∷ ps) = omega (arith, count_end_all ps)

-- An event of another content that is not behind the place is before it.
apart_before : (x r : Record) → x.content ≢ r.content → before r x ≡ false → before x r ≡ true
apart_before x r n h = elim (Bool-cases (before x r)) [
  | inl done ↦ done
  | inr refused ↦ absurd (n (ap (λ e. e.content) (before_total x r refused h)))
]

All-middle :
    (P : Record → Type 0) (pre : List Record) (r : Record) (post : List Record)
    → All P (pre ++ r ∷ post)
    → P r
All-middle P [] r post h = h.0
All-middle P (x ∷ pre) r post h = All-middle P pre r post h.1

zero-ne-one : codes "0" ≢ codes "1"
unfolding equal
zero-ne-one = equal-false (codes "0") (codes "1") refl

front_behind :
    (pre : List Record) (r : Record) (post : List Record)
    → Ascending (pre ++ r ∷ post)
    → All (λ x. before r x ≡ false) pre × All (λ x. before x r ≡ false) (r ∷ post)
front_behind [] r post h = (tt, (before_irrefl r, h.0))
front_behind (x ∷ pre) r post (h, hs) =
    let (front, back) = front_behind pre r post hs in
    ((All-middle (λ y. before y x ≡ false) pre r post h, front), back)

module _ (ps : List Bytes) (pre : List Record) (r : Record) (post : List Record)
    (sorted : Ascending (pre ++ r ∷ post)) (same : Perm (pre ++ r ∷ post) (event_list ps)) where
  -- What passes a test in front of the place is what passes it and is before the place.
  count_front :
      (test : Record → Bool)
      → ((x : Record) → test x ≡ true → x.content ≢ r.content)
      → count test pre ≡ count (λ x. test x && before x r) (event_list ps)
  count_front test apart =
      let (front, back) = front_behind pre r post sorted in
      let in_front =
        count-agree test (λ x. test x && before x r) pre (All-map (λ x h. agree x h) pre front) in
      let behind =
        count_none (λ x. test x && before x r) (r ∷ post)
          (All-map (λ x h. none_of x h) (r ∷ post) back) in
      omega (
        arith,
        in_front,
        behind,
        count-append (λ x. test x && before x r) pre (r ∷ post),
        count-perm (λ x. test x && before x r) same,
      )
    where
      agree : (x : Record) → before r x ≡ false → test x ≡ (test x && before x r)
      agree x h = elim (Bool-cases (test x)) [
        | inl on ↦ rw (on, apart_before x r (apart x on) h) refl
        | inr off ↦ rw off refl
      ]

      none_of : (x : Record) → before x r ≡ false → (test x && before x r) ≡ false
      none_of x h = ground arith

  pub starts_front :
      r.content ≢ codes "1" → count is_start pre ≡ count (λ q. before (start_of q) r) ps
  starts_front n =
      count_front is_start (λ x on e. n (sym e ∙ (equal_iff x.content (codes "1")).0 on))
      ∙ count_starts (λ x. before x r) ps

  pub ends_front : r.content ≢ codes "0" → count is_end pre ≡ count (λ q. before (end_of q) r) ps
  ends_front n =
      count_front is_end (λ x on e. n (sym e ∙ (equal_iff x.content (codes "0")).0 on))
      ∙ count_ends (λ x. before x r) ps

  -- In front of an end, more intervals have started than ended.
  pub ends_below_starts : r.content ≡ codes "0" → count is_end pre < count is_start pre
  ends_below_starts e =
      let (front, _) = front_behind pre r post sorted in
      let test : Record → Bool = λ x. is_end x && not (before r x) in
      let in_front = count-agree is_end test pre (All-map (λ x h. agree x h) pre front) in
      let counted = count_ends (λ x. not (before r x)) ps in
      let started = starts_front (λ k. zero-ne-one (sym e ∙ k)) in
      let fewer =
        count-le (λ q. not (before r (end_of q))) (λ q. before (start_of q) r) ps started_of in
      omega (
        arith,
        in_front,
        here,
        counted,
        started,
        fewer,
        count-append test pre (r ∷ post),
        count-perm test same,
      )
    where
      agree : (x : Record) → before r x ≡ false → is_end x ≡ (is_end x && not (before r x))
      agree x h = ground arith

      here : 1 ≤ count (λ x. is_end x && not (before r x)) (r ∷ post)
      here = rw ((equal_iff r.content (codes "0")).1 e, before_irrefl r) (omega arith)

      started_of : (q : Bytes) → not (before r (end_of q)) ≡ true → before (start_of q) r ≡ true
      started_of q h = elim (Bool-cases (before (start_of q) r)) [
        | inl done ↦ done
        | inr refused ↦
            let off : before r (end_of q) ≡ false = ground arith in
            absurd
              (not_both (start_before_end q) (before_trans (end_of q) r (start_of q) off refused))
      ]

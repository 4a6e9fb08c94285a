-- ===== src/Repository/AncestorEvents/Laws.antt =====
-- What `validateAncestorEvents` accepts: the sorted events of paths none of which is above another.
use mathlib.Core.List.{Perm}
use mathlib.Core.Path.{subst, subst₂}
use mathlib.Core.Bool.{Bool-set}
use backup.Base.{
  ℕ, ◌+◌, ◌-◌, ◌^◌, ◌<◌, ◌≡◌, ◌↔◌, refl, sym, ap, ◌∙◌, true, false, List, [], ◌∷◌, ◌++◌, map, arith,
  inl, inr, append_assoc, Bool-cases, not_both, All, All-map, length, ok, bind-eq-ok,
}
use backup.Base.Bytes.{Bytes, codes, equal, equal_iff}
use backup.Extsort.{Record, sort_records}
use backup.Extsort.Sorted.{
  Ascending, All-perm, All-sort_records, sort_records-perm, sort_records-Ascending,
}
use backup.Repository.Sorting.{sort_rows}
use backup.Repository.AncestorEvents.{
  all_events, visit_event, scan_events, validate_ancestor_events,
}
use backup.Repository.AncestorEvents.Counts.{
  count, count-append, count-perm, count_none, none_count,
}
use backup.Repository.AncestorEvents.Order.{row_of, IsByte, map-sort_rows}
use backup.Repository.AncestorEvents.Intervals.{Above, start_of, end_of, open_at, open_at_iff}
use backup.Repository.AncestorEvents.Places.{
  event_list, map-event_list, event_list-HasBytes, is_start, is_end, count_start_all, count_end_all,
  ends_below_starts,
}
use backup.Repository.AncestorEvents.Visits.{
  IsKind, ending, starting, leaf, event_list-IsKind, visit_ending, visit_starting, visit_leaf,
  visit_ending-ok, visit_starting-ok, visit_leaf-ok, Balanced, closed_test, closed_other,
  closed_leaf, open_front, Balanced-start, Balanced-end, Balanced-leaf,
}

module _ (ps : List Bytes) (l : List Record) (sorted : Ascending l)
    (same : Perm l (event_list ps)) where
  -- A scan that succeeds finds no interval open at a path.
  scan_events-closed :
      (active final : ℕ) (pre rem : List Record)
      → l ≡ pre ++ rem
      → All IsKind rem
      → Balanced active pre
      → scan_events active (map row_of rem) ≡ ok final
      → All (λ e. closed_test ps e ≡ false) rem
  unfolding scan_events
  scan_events-closed active final pre [] e kinds b h = tt
  scan_events-closed active final pre (r ∷ rem) e (kind, kinds) b h =
      let (next, visited, rest) = bind-eq-ok (visit_event active (row_of r)) _ h in
      let e' = e ∙ sym (append_assoc pre (r ∷ []) rem) in
      elim kind [
        | ending k ↦
            let less_open = visit_ending-ok active next r k visited in
            (
              closed_other ps r (codes "0") k (unfold equal in refl),
              scan_events-closed next final (pre ++ r ∷ []) rem e' kinds
                  (Balanced-end ps next pre r k (omega arith)) rest,
            )
        | starting k ↦
            let more_open = visit_starting-ok active next r k visited in
            (
              closed_other ps r (codes "1") k (unfold equal in refl),
              scan_events-closed next final (pre ++ r ∷ []) rem e' kinds
                  (rw more_open (Balanced-start ps active pre r k b)) rest,
            )
        | leaf p k ↦
            let here = e ∙ ap (λ x. pre ++ x ∷ rem) k in
            let (nothing, kept) =
              visit_leaf-ok active next p
                (subst (λ x. visit_event active (row_of x) ≡ ok next) k visited) in
            let counted =
              open_front ps pre p rem (subst Ascending here sorted)
                (subst (λ m. Perm m (event_list ps)) here same) in
            (
              subst (λ x. closed_test ps x ≡ false) (sym k) ((closed_leaf ps p).1 (omega arith)),
              scan_events-closed next final (pre ++ r ∷ []) rem e' kinds
                  (subst (λ x. Balanced next (pre ++ x ∷ [])) (sym k)
                    (Balanced-leaf ps next pre p (rw kept b)))
                  rest,
            )
      ]

  ends_all :
      (pre rem : List Record) → l ≡ pre ++ rem → count is_end pre + count is_end rem ≡ length ps
  ends_all pre rem e =
      sym (count-append is_end pre rem)
      ∙ ap (count is_end) (sym e)
      ∙ count-perm is_end same
      ∙ count_end_all ps

  starts_all :
      (pre rem : List Record) → l ≡ pre ++ rem → count is_start pre + count is_start rem ≡ length ps
  starts_all pre rem e =
      sym (count-append is_start pre rem)
      ∙ ap (count is_start) (sym e)
      ∙ count-perm is_start same
      ∙ count_start_all ps

  -- A scan succeeds, and leaves no interval open, if none is open at a path.
  closed-scan_events :
      (active : ℕ) (pre rem : List Record)
      → length ps < 2 ^ 63
      → l ≡ pre ++ rem
      → All IsKind rem
      → Balanced active pre
      → All (λ e. closed_test ps e ≡ false) rem
      → scan_events active (map row_of rem) ≡ ok 0
  unfolding scan_events
  closed-scan_events active pre [] few e kinds b closed =
      let ends = ends_all pre [] e in
      let starts = starts_all pre [] e in let nothing : active ≡ 0 = omega arith in ap ok nothing
  closed-scan_events active pre (r ∷ rem) few e (kind, kinds) b (closed, closeds) =
      let e' = e ∙ sym (append_assoc pre (r ∷ []) rem) in
      elim kind [
        | ending k ↦
            let fewer =
              ends_below_starts ps pre r rem (subst Ascending e sorted)
                (subst (λ m. Perm m (event_list ps)) e same) k in
            rw (visit_ending active r k (omega arith)) (
              closed-scan_events (active - 1) (pre ++ r ∷ []) rem few e' kinds
                (Balanced-end ps (active - 1) pre r k (omega arith)) closeds)
        | starting k ↦
            let starts = starts_all pre (r ∷ rem) e in
            let is : is_start r ≡ true = (equal_iff r.content (codes "1")).1 k in
            let counted = rw is at starts in
            let room : active < 2 ^ 63 - 1 = omega arith in
            rw (visit_starting active r k room) (
              closed-scan_events (active + 1) (pre ++ r ∷ []) rem few e' kinds
                (Balanced-start ps active pre r k b) closeds)
        | leaf p k ↦
            let here = e ∙ ap (λ x. pre ++ x ∷ rem) k in
            let counted =
              open_front ps pre p rem (subst Ascending here sorted)
                (subst (λ m. Perm m (event_list ps)) here same) in
            let none_open = (closed_leaf ps p).0 (subst (λ x. closed_test ps x ≡ false) k closed) in
            let nothing : active ≡ 0 = omega arith in
            let visited : visit_event active (row_of r) ≡ ok 0 =
              subst₂ (λ a x. visit_event a (row_of x) ≡ ok 0) (sym nothing) (sym k)
                (visit_leaf p) in
            rw visited (
              closed-scan_events 0 (pre ++ r ∷ []) rem few e' kinds
                (subst (λ x. Balanced 0 (pre ++ x ∷ [])) (sym k)
                  (Balanced-leaf ps 0 pre p (omega arith)))
                closeds)
      ]

abbrev pub NoneAbove : List Bytes → Type 0
NoneAbove ps = All (λ p. All (λ q. ¬ Above q p) ps) ps

not-Above : (p : Bytes) (ps : List Bytes) → count (open_at p) ps ≡ 0 → All (λ q. ¬ Above q p) ps
not-Above p ps h =
    All-map (λ q off above. not_both ((open_at_iff q p).1 above) off) ps
      (none_count (open_at p) ps h)

none_open : (p : Bytes) (ps : List Bytes) → All (λ q. ¬ Above q p) ps → count (open_at p) ps ≡ 0
none_open p ps h = count_none (open_at p) ps (All-map (λ q n. off_of q n) ps h)
  where
    off_of : (q : Bytes) → ¬ Above q p → open_at p q ≡ false
    off_of q n = elim (Bool-cases (open_at p q)) [
      | inl on ↦ absurd (n ((open_at_iff q p).0 on))
      | inr off ↦ off
    ]

closed_leaves :
    (all ps : List Bytes)
    → All (λ e. closed_test all e ≡ false) (event_list ps)
    → All (λ p. All (λ q. ¬ Above q p) all) ps
closed_leaves all [] h = tt
closed_leaves all (p ∷ ps) (h, (_, (_, hs))) =
    (not-Above p all ((closed_leaf all p).0 h), closed_leaves all ps hs)

leaves_closed :
    (all ps : List Bytes)
    → All (λ p. All (λ q. ¬ Above q p) all) ps
    → All (λ e. closed_test all e ≡ false) (event_list ps)
leaves_closed all [] h = tt
leaves_closed all (p ∷ ps) (h, hs) = (
  (closed_leaf all p).1 (none_open p all h),
  (
    closed_other all (start_of p) (codes "1") refl (unfold equal in refl),
    (closed_other all (end_of p) (codes "0") refl (unfold equal in refl), leaves_closed all ps hs),
  ),
)

sorted_rows :
    (ps : List Bytes)
    → All (All IsByte) ps
    → sort_rows (all_events ps) ≡ map row_of (sort_records (event_list ps))
sorted_rows ps bytes =
    ap sort_rows (sym (map-event_list ps))
    ∙ map-sort_rows (event_list ps) (event_list-HasBytes ps bytes)

-- Of the sorted events of fewer than 2^63 paths, whose bytes are bytes, `validateAncestorEvents`
-- accepts exactly those where no path is a directory above another.
pub validate_ancestor_events_iff :
    (ps : List Bytes)
    → All (All IsByte) ps
    → length ps < 2 ^ 63
    → (validate_ancestor_events (record { rows = sort_rows (all_events ps); fails = false })
        ≡ ok tt)
      ↔ NoneAbove ps
unfolding validate_ancestor_events
validate_ancestor_events_iff ps bytes few =
    let l = sort_records (event_list ps) in
    let same = sort_records-perm (event_list ps) in
    let sorted = sort_records-Ascending (event_list ps) in
    let kinds = All-sort_records IsKind (event_list ps) (event_list-IsKind ps) in
    rw (sorted_rows ps bytes) (
      λ h.
          let (final, scanned, _) = bind-eq-ok (scan_events 0 (map row_of l)) _ h in
          let closed = scan_events-closed ps l sorted same 0 final [] l refl kinds refl scanned in
          closed_leaves ps ps (
            All-perm (λ e. closed_test ps e ≡ false) (λ e. Bool-set (closed_test ps e) false) same
              closed),
      λ n.
          let closed =
            All-sort_records (λ e. closed_test ps e ≡ false) (event_list ps)
              (leaves_closed ps ps n) in
          rw (closed-scan_events ps l sorted same 0 [] l few refl kinds refl closed) refl,
    )

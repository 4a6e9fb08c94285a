-- ===== src/Extsort/Spills.antt =====
-- The chunks of `SortFiles` (internal/extsort/sort.go): what is held in memory and what is spilled.
use mathlib.Core.List.{Perm, Pairwise, Pairwise-cons, mem-cons_self}
use mathlib.Core.List.Perm
use mathlib.Core.Path.{subst}
use backup.Base.{
  ◌+◌, ◌≡◌, ◌≢◌, refl, sym, ap, ◌∙◌, true, false, not, ◌&&◌, List, [], ◌∷◌, ◌++◌, map, ltb,
  append-nil, append_assoc, arith, length, ◌==◌, All, All-append, All-map, Result, ok, inl, inr,
  Bool-cases,
}
use backup.Base.Bytes.{Bytes, equal, equal_iff}
use backup.Extsort.{
  Error, Record, Options, Stage, sort_records, write_records, check_unique, spill, add_record,
  add_line, add_lines, add_input, add_inputs, extract_key, no_records, cost_of, hold,
}
use backup.Extsort.Sorted.{sort_records-perm, sort_records-Ascending, All-sort_records}
use backup.Extsort.Files.{IsKeyed, open_line_reader-write_records}
use backup.Extsort.Merges.Queue.{IsRun}
use backup.Extsort.Merges.{Apart, HasNoDuplicates}
use backup.Extsort.Runs.{joined, joined-append, files}
use backup.Extsort.Passes.{HasNoDuplicates-perm, HasNoDuplicates-parts}

check_unique-Apart : (l : List Record) → Pairwise Apart l → check_unique l ≡ ok tt
unfolding check_unique
check_unique-Apart [] h = refl
check_unique-Apart (a ∷ []) h = refl
check_unique-Apart (a ∷ b ∷ l) h =
    let (first, rest) = Pairwise-cons.0 h in
    elim (Bool-cases (equal a.key b.key)) [
      | inl same ↦ absurd (first b mem-cons_self ((equal_iff a.key b.key).0 same))
      | inr other ↦ rw other (check_unique-Apart (b ∷ l) rest)
    ]

-- A record that the loop over the lines takes from its line.
abbrev pub IsTaken : Options → Record → Type 0
IsTaken options r = IsKeyed options r × (r.key ≢ [])

pub no_length : (key : Bytes) → key ≢ [] → (length key == 0) ≡ false
no_length [] h = absurd (h refl)
no_length (c ∷ key) h = ground arith

module _ (options : Options) where
  -- The runs and the chunk are the records so far; the runs are sorted.
  abbrev pub Holds : Stage → List Record → Type 0
  Holds s l =
      (runs : List (List Record)) × ((s.runs ≡ files runs)
        × Perm (joined runs ++ s.chunk) l
        × All (IsRun options) runs
        × All (IsKeyed options) s.chunk)

  spill-ne :
      (s : Stage)
      → no_records s.chunk ≡ false
      → (options.unique ≡ true → check_unique (sort_records s.chunk) ≡ ok tt)
      → spill options s
        ≡ ok (record {
          chunk = [];
          used = 0;
          runs = s.runs ++ write_records (sort_records s.chunk) ∷ [];
        })
  unfolding spill
  spill-ne s some_left unique = elim (Bool-cases options.unique) [
    | inl on ↦ rw (some_left, on, unique on) refl
    | inr off ↦ rw (some_left, off) refl
  ]

  spill-nil : (s : Stage) → no_records s.chunk ≡ true → spill options s ≡ ok s
  unfolding spill
  spill-nil s nothing = rw nothing refl

  pub no_records-nil : (l : List Record) → no_records l ≡ true → l ≡ []
  no_records-nil [] h = refl
  no_records-nil (r ∷ l) h = cc

  pub joined_spilled :
      (runs : List (List Record)) (sorted chunk l : List Record)
      → Perm sorted chunk
      → Perm (joined runs ++ chunk) l
      → Perm (joined (runs ++ sorted ∷ []) ++ []) l
  joined_spilled runs sorted chunk l same whole =
      let flat : joined (runs ++ sorted ∷ []) ++ [] ≡ joined runs ++ sorted =
        append-nil (joined (runs ++ sorted ∷ []))
        ∙ joined-append runs (sorted ∷ [])
        ∙ ap (◌++◌ (joined runs)) (append-nil sorted) in
      subst (λ m. Perm m l) (sym flat) (Perm.trans (Perm.append_left (joined runs) same) whole)

  pub files-append : (a b : List (List Record)) → files (a ++ b) ≡ files a ++ files b
  files-append [] b = refl
  files-append (l ∷ a) b = ap (◌∷◌ (write_records l)) (files-append a b)

  -- A spill keeps the records and leaves none in memory.
  pub spill-Holds :
      (s : Stage) (l : List Record)
      → Holds s l
      → HasNoDuplicates options l
      → (t : Stage) × ((spill options s ≡ ok t) × Holds t l × (t.chunk ≡ []))
  spill-Holds s l (runs, (written, same, good, keyed)) apart =
      elim (Bool-cases (no_records s.chunk)) [
        | inl none_left ↦ (
          s,
          (
            spill-nil s none_left,
            (runs, (written, same, good, keyed)),
            no_records-nil s.chunk none_left,
          ),
        )
        | inr some_left ↦
            let sorted = sort_records s.chunk in
            let apart' =
              (HasNoDuplicates-parts options (joined runs) s.chunk
                (HasNoDuplicates-perm options (Perm.symm same) apart)).1 in
            let unique : options.unique ≡ true → check_unique sorted ≡ ok tt = λ on.
              check_unique-Apart sorted
                (HasNoDuplicates-perm options (Perm.symm (sort_records-perm s.chunk)) apart' on) in
            (
              record { chunk = []; used = 0; runs = s.runs ++ write_records sorted ∷ [] },
              (
                spill-ne s some_left unique,
                (
                  runs ++ sorted ∷ [],
                  (
                    ap (λ r. r ++ write_records sorted ∷ []) written
                        ∙ sym (files-append runs (sorted ∷ [])),
                    joined_spilled runs sorted s.chunk l (sort_records-perm s.chunk) same,
                    All-append (IsRun options) runs (sorted ∷ []) good (
                      (
                        All-sort_records (IsKeyed options) s.chunk keyed,
                        sort_records-Ascending s.chunk,
                      ),
                      tt,
                    ),
                    tt,
                  ),
                ),
                refl,
              ),
            )
      ]

  hold-Holds :
      (s : Stage) (l : List Record) (r : Record)
      → Holds s l
      → IsKeyed options r
      → Holds (hold s r) (l ++ r ∷ [])
  hold-Holds s l r (runs, (written, same, good, keyed)) key = (
    runs,
    (
      written,
      subst (λ m. Perm m (l ++ r ∷ [])) (append_assoc (joined runs) s.chunk (r ∷ []))
          (Perm.append_right (r ∷ []) same),
      good,
      All-append (IsKeyed options) s.chunk (r ∷ []) keyed (key, tt),
    ),
  )

  abbrev pub Held : Result Error Stage → List Record → Type 0
  Held result l = (t : Stage) × ((result ≡ ok t) × Holds t l)

  add_record-Holds :
      (s : Stage) (l : List Record) (r : Record)
      → Holds s l
      → IsKeyed options r
      → HasNoDuplicates options l
      → Held (add_record options s r) (l ++ r ∷ [])
  unfolding add_record
  add_record-Holds s l r h key apart =
      elim (Bool-cases
        (not (no_records s.chunk) && ltb options.memory_bytes (s.used + cost_of r))) [
          | inl full ↦
              let (t, (spilled, held, _)) = spill-Holds s l h apart in
              (hold t r, (rw (full, spilled) refl, hold-Holds t l r held key))
          | inr fits ↦ (hold s r, (rw fits refl, hold-Holds s l r h key))
        ]

  add_lines-Holds :
      (m : List Record) (s : Stage) (l : List Record)
      → Holds s l
      → All (IsTaken options) m
      → HasNoDuplicates options (l ++ m)
      → Held (add_lines options s (map (λ r. r.content) m)) (l ++ m)
  unfolding add_lines add_line extract_key
  add_lines-Holds [] s l h taken apart = (s, (refl, rw append-nil h))
  add_lines-Holds (r ∷ m) s l h (((line, key), some_key), taken) apart =
      let whole = append_assoc l (r ∷ []) m in
      let apart' = subst (HasNoDuplicates options) (sym whole) apart in
      let (t, (added, held)) =
        add_record-Holds s l r h (line, key) (HasNoDuplicates-parts options l (r ∷ m) apart).0 in
      let (u, (rest, held')) = add_lines-Holds m t (l ++ r ∷ []) held taken apart' in
      (u, (rw (key, no_length r.key some_key, added) rest, subst (Holds u) whole held'))

  pub add_inputs-Holds :
      (ms : List (List Record)) (s : Stage) (l : List Record)
      → Holds s l
      → All (All (IsTaken options)) ms
      → HasNoDuplicates options (l ++ joined ms)
      → Held (add_inputs options s (files ms)) (l ++ joined ms)
  unfolding add_inputs add_input
  add_inputs-Holds [] s l h taken apart = (s, (refl, rw append-nil h))
  add_inputs-Holds (m ∷ ms) s l h (taken, takens) apart =
      let whole = append_assoc l m (joined ms) in
      let apart' = subst (HasNoDuplicates options) (sym whole) apart in
      let reader =
        open_line_reader-write_records options.max_line_bytes m (All-map (λ r k. k.0.0) m taken) in
      let (t, (added, held)) =
        add_lines-Holds m s l h taken
          (HasNoDuplicates-parts options (l ++ m) (joined ms) apart').0 in
      let (u, (rest, held')) = add_inputs-Holds ms t (l ++ m) held takens apart' in
      (u, (rw (reader, added) rest, subst (Holds u) whole held'))

-- ===== src/Extsort/Refused.antt =====
-- `Unique` of internal/extsort/sort.go, from the inputs to what `SortFiles` publishes.
use mathlib.Core.List.{Perm}
use mathlib.Core.List.Perm
use mathlib.Core.Path.{subst}
use mathlib.Core.HLevel.{¬_prop}
use backup.Base.{
  ◌+◌, ◌≡◌, refl, sym, ap, ◌∙◌, not, ◌&&◌, List, [], ◌∷◌, ◌++◌, map, ltb, append-nil, append_assoc,
  length, All, All-append, All-map, ok, bind-eq-ok, inl, inr, Bool-cases, if◌then◌else◌,
}
use backup.Base.Bytes.{Bytes}
use backup.Format.Rows.Split.{ok-injective}
use backup.Extsort.{
  Record, Options, Stage, sort_records, write_records, check_unique, spill, add_record, add_line,
  add_lines, add_input, add_inputs, extract_key, no_records, cost_of, hold, merge_passes,
  normalized, begun, sort_files,
}
use backup.Extsort.Sorted.{sort_records-perm, sort_records-Ascending, All-sort_records, All-perm}
use backup.Extsort.Files.{IsKeyed, open_line_reader-write_records}
use backup.Extsort.Merges.Queue.{IsRun}
use backup.Extsort.Merges.{HasNoDuplicates}
use backup.Extsort.Runs.{joined, files}
use backup.Extsort.Passes.{HasNoDuplicates-perm}
use backup.Extsort.Spills.{IsTaken, no_length, joined_spilled, files-append, no_records-nil}
use backup.Extsort.Unique.{HasKey}
use backup.Extsort.Duplicates.{check_unique-Pairwise, merge_passes-HasNoDuplicates}

module _ (options : Options) where
  -- The runs and the chunk are the records so far; the runs are sorted and hold no key twice.
  abbrev Keeps : Stage → List Record → Type 0
  Keeps s l =
      (runs : List (List Record)) × ((s.runs ≡ files runs)
        × Perm (joined runs ++ s.chunk) l
        × All (IsRun options) runs
        × All (IsKeyed options) s.chunk
        × All (HasNoDuplicates options) runs)

  spilled-HasNoDuplicates :
      (l : List Record) {u : Unit {0}}
      → (if options.unique then check_unique (sort_records l) else ok tt) ≡ ok u
      → HasNoDuplicates options (sort_records l)
  spilled-HasNoDuplicates l h on =
      check_unique-Pairwise (sort_records l) (sort_records-Ascending l) (rw on at h)

  spill-Keeps :
      (s t : Stage) (l : List Record)
      → Keeps s l
      → spill options s ≡ ok t
      → Keeps t l × (t.chunk ≡ [])
  unfolding spill
  spill-Keeps s t l (runs, (written, same, good, keyed, unique)) h =
      elim (Bool-cases (no_records s.chunk)) [
        | inl none_left ↦
            subst (λ v. Keeps v l × (v.chunk ≡ [])) (ok-injective (rw (none_left, spill) at h))
              (
                (runs, (written, same, good, keyed, unique)),
                no_records-nil options s.chunk none_left,
              )
        | inr some_left ↦
            let sorted = sort_records s.chunk in
            let (_, checked, made) =
              bind-eq-ok (if options.unique then check_unique sorted else ok tt) _
                (rw (some_left, spill) at h) in
            subst (λ v. Keeps v l × (v.chunk ≡ [])) (ok-injective made)
              (
                (
                  runs ++ sorted ∷ [],
                  (
                    ap (λ r. r ++ write_records sorted ∷ []) written
                        ∙ sym (files-append options runs (sorted ∷ [])),
                    joined_spilled options runs sorted s.chunk l (sort_records-perm s.chunk) same,
                    All-append (IsRun options) runs (sorted ∷ []) good (
                      (
                        All-sort_records (IsKeyed options) s.chunk keyed,
                        sort_records-Ascending s.chunk,
                      ),
                      tt,
                    ),
                    tt,
                    All-append (HasNoDuplicates options) runs (sorted ∷ []) unique
                        (spilled-HasNoDuplicates s.chunk checked, tt),
                  ),
                ),
                refl,
              )
      ]

  hold-Keeps :
      (s : Stage) (l : List Record) (r : Record)
      → Keeps s l
      → IsKeyed options r
      → Keeps (hold s r) (l ++ r ∷ [])
  hold-Keeps s l r (runs, (written, same, good, keyed, unique)) key = (
    runs,
    (
      written,
      subst (λ m. Perm m (l ++ r ∷ [])) (append_assoc (joined runs) s.chunk (r ∷ []))
          (Perm.append_right (r ∷ []) same),
      good,
      All-append (IsKeyed options) s.chunk (r ∷ []) keyed (key, tt),
      unique,
    ),
  )

  add_record-Keeps :
      (s t : Stage) (l : List Record) (r : Record)
      → Keeps s l
      → IsKeyed options r
      → add_record options s r ≡ ok t
      → Keeps t (l ++ r ∷ [])
  unfolding add_record
  add_record-Keeps s t l r k key h =
      let full = not (no_records s.chunk) && ltb options.memory_bytes (s.used + cost_of r) in
      let (room, made, h1) = bind-eq-ok (if full then spill options s else ok s) _ h in
      let kept : Keeps room l = elim (Bool-cases full) [
        | inl yes_full ↦ (spill-Keeps s room l k (rw yes_full at made)).0
        | inr fits ↦ subst (λ v. Keeps v l) (ok-injective (rw fits at made)) k
      ] in
      subst (λ v. Keeps v (l ++ r ∷ [])) (ok-injective h1) (hold-Keeps room l r kept key)

  add_lines-Keeps :
      (m : List Record) (s t : Stage) (l : List Record)
      → Keeps s l
      → All (IsTaken options) m
      → add_lines options s (map (λ r. r.content) m) ≡ ok t
      → Keeps t (l ++ m)
  unfolding add_lines add_line extract_key
  add_lines-Keeps [] s t l k taken h =
      subst (λ v. Keeps v (l ++ [])) (ok-injective h) (rw append-nil k)
  add_lines-Keeps (r ∷ m) s t l k (((line, key), some_key), taken) h =
      let (next, added, h1) = bind-eq-ok (add_line options s r.content) _ h in
      let kept =
        add_record-Keeps s next l r k (line, key) (rw (key, no_length r.key some_key) at added) in
      subst (Keeps t) (append_assoc l (r ∷ []) m)
        (add_lines-Keeps m next t (l ++ r ∷ []) kept taken h1)

  add_inputs-Keeps :
      (ms : List (List Record)) (s t : Stage) (l : List Record)
      → Keeps s l
      → All (All (IsTaken options)) ms
      → add_inputs options s (files ms) ≡ ok t
      → Keeps t (l ++ joined ms)
  unfolding add_inputs add_input
  add_inputs-Keeps [] s t l k taken h =
      subst (λ v. Keeps v (l ++ [])) (ok-injective h) (rw append-nil k)
  add_inputs-Keeps (m ∷ ms) s t l k (taken, takens) h =
      let reader =
        open_line_reader-write_records options.max_line_bytes m (All-map (λ r k. k.0.0) m taken) in
      let (next, added, h1) = bind-eq-ok (add_input options s (write_records m)) _ h in
      let (filled, lines, h2) =
        bind-eq-ok (add_lines options s (map (λ r. r.content) m)) _ (rw reader at added) in
      let kept =
        subst (λ v. Keeps v (l ++ m)) (ok-injective h2)
          (add_lines-Keeps m s filled l k taken lines) in
      subst (Keeps t) (append_assoc l m (joined ms))
        (add_inputs-Keeps ms next t (l ++ m) kept takens h1)

taken_keys :
    (options : Options) (ms : List (List Record))
    → All (All (IsTaken options)) ms
    → All HasKey (joined ms)
taken_keys options [] h = tt
taken_keys options (m ∷ ms) (h, hs) =
    All-append HasKey m (joined ms) (All-map (λ r k. k.1) m h) (taken_keys options ms hs)

-- With `Unique`, `SortFiles` publishes nothing of inputs in which a key comes twice, in one input or
-- in two, in one chunk or in two: if it publishes something of files of records, each with the key
-- of its line, which is not empty, and with a line that fits the scanner and holds neither CR nor
-- LF, then no two of the records have one key.
pub sort_files-HasNoDuplicates :
    (options : Options) (input : List Record) (inputs : List (List Record)) {out : Bytes}
    → All (All (IsTaken (normalized options))) (input ∷ inputs)
    → sort_files (files (input ∷ inputs)) options ≡ ok out
    → HasNoDuplicates options (joined (input ∷ inputs))
unfolding sort_files
sort_files-HasNoDuplicates options input inputs {out} taken h =
    let normal = normalized options in
    let all = joined (input ∷ inputs) in
    let (filled, added, h1) = bind-eq-ok (add_inputs normal begun (files (input ∷ inputs))) _ h in
    let (stage, spilled, h2) = bind-eq-ok (spill normal filled) _ h1 in
    let kept =
      add_inputs-Keeps normal (input ∷ inputs) begun filled [] ([], (refl, Perm.rfl, tt, tt, tt))
        taken added in
    let ((runs, (written, same, good, _, unique)), nothing) =
      spill-Keeps normal filled stage all kept spilled in
    let same' : Perm (joined runs) all =
      subst (λ m. Perm m all) (ap (◌++◌ (joined runs)) nothing ∙ append-nil (joined runs)) same in
    let passes = subst (λ r. merge_passes normal (length r) r ≡ ok out) written h2 in
    let apart =
      merge_passes-HasNoDuplicates normal (length (files runs)) runs good
        (All-perm HasKey (λ r. ¬_prop) (Perm.symm same') (taken_keys normal (input ∷ inputs) taken))
        unique passes in
    unfold normalized in HasNoDuplicates-perm normal same' apart

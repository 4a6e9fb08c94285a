-- ===== src/Extsort/Returns.antt =====
-- The loops of internal/extsort/sort.go that run on fuel, on any input: the fuel is enough.
use mathlib.Core.Path.{subst}
use backup.Base.{
  ℕ, zero, suc, ◌+◌, ◌≤◌, ◌≡◌, ◌≢◌, refl, sym, ap, ◌∙◌, ◌&&◌, List, [], ◌∷◌, Option, none, arith,
  length, length-drop, take, drop, inl, inr, Bool-cases, ok, err, err-ne-ok, bind-eq-ok,
  refuse_then, refuse,
}
use backup.Base.Bytes.{Bytes}
use backup.Format.Rows.Split.{ok-injective}
use backup.Extsort.Whole.{normalized_open}
use backup.Extsort.{
  line_too_long, duplicate_key, out_of_fuel, Options, LineReader, MergeNode, normalized,
  extract_key, open_line_reader, printable_key, spill, add_inputs, begun, before, pop, advance,
  open_runs, is_previous, remember, merge_round, merge_loop, pending, merge_runs, merge_pass,
  merge_passes, sort_files,
}
use backup.Extsort.Ends.{
  Ends, Ends-ne, bind-Ends, refuse-Ends, open_line_reader-Ends, extract_key-Ends, spill-Ends,
  add_inputs-Ends,
}

pop-pending :
    (first : MergeNode) (nodes : List MergeNode)
    → pending ((pop first nodes).0 ∷ (pop first nodes).1) ≡ pending (first ∷ nodes)
unfolding pop pending
pop-pending first [] = refl
pop-pending first (node ∷ nodes) = elim (Bool-cases (before (pop node nodes).0.item first.item)) [
  | inl e ↦ rw e (omega (arith, pop-pending node nodes))
  | inr e ↦ rw e refl
]

module _ (options : Options) where
  advance-Ends :
      (reader : LineReader) (queue : List MergeNode) → Ends (advance options reader queue)
  unfolding advance
  advance-Ends reader queue = from reader.lines
    where
      from : (lines : List Bytes) → Ends (advance options (record reader { lines = lines }) queue)
      from [] =
          bind-Ends (refuse reader.too_long line_too_long) _
            (refuse-Ends reader.too_long line_too_long refl) (λ u h. tt)
      from (line ∷ lines) =
          bind-Ends (extract_key options line) _ (extract_key-Ends options line) (λ key h. tt)

  -- What is read of a run goes from its reader to the queue.
  advance-pending :
      (reader : LineReader) (queue : List MergeNode) {next : List MergeNode}
      → advance options reader queue ≡ ok next
      → pending next ≡ length reader.lines + pending queue
  unfolding advance pending
  advance-pending reader queue {next} = from reader.lines
    where
      from :
          (lines : List Bytes)
          → advance options (record reader { lines = lines }) queue ≡ ok next
          → pending next ≡ length lines + pending queue
      from [] h =
          let (fits, h1) = refuse_then reader.too_long _ _ h in
          ap pending (sym (ok-injective h1)) ∙ omega arith
      from (line ∷ lines) h =
          let (key, read, h1) = bind-eq-ok (extract_key options line) _ h in
          ap pending (sym (ok-injective h1)) ∙ omega arith

  open_runs-Ends :
      (runs : List Bytes) (queue : List MergeNode) → Ends (open_runs options runs queue)
  unfolding open_runs
  open_runs-Ends [] queue = tt
  open_runs-Ends (run ∷ runs) queue =
      bind-Ends (open_line_reader options.max_line_bytes run) _
        (open_line_reader-Ends options.max_line_bytes run)
        (λ reader h.
          bind-Ends (advance options reader queue) _ (advance-Ends reader queue)
            (λ next h'. open_runs-Ends runs next))

  merge_loop-Ends :
      (fuel : ℕ) (previous : Option Bytes) (nodes : List MergeNode)
      → pending nodes ≤ fuel
      → Ends (merge_loop options fuel previous nodes)
  unfolding merge_loop merge_round pending
  merge_loop-Ends zero previous [] enough = tt
  merge_loop-Ends (suc fuel) previous [] enough = tt
  merge_loop-Ends zero previous (node ∷ nodes) enough = absurd (omega (arith, enough))
  merge_loop-Ends (suc fuel) previous (node ∷ nodes) enough =
      let least = (pop node nodes).0 in
      let others = (pop node nodes).1 in
      let again = options.unique && is_previous previous least.item.key in
      bind-Ends (refuse again (duplicate_key (printable_key least.item.key))) _
        (refuse-Ends again _ refl)
        (λ u h.
          bind-Ends (advance options least.reader others) _ (advance-Ends least.reader others)
            (λ queue advanced.
              bind-Ends (merge_loop options fuel (remember previous least.item.key) queue) _
                (merge_loop-Ends fuel (remember previous least.item.key) queue (
                  omega (
                    arith,
                    enough,
                    pop-pending node nodes,
                    advance-pending least.reader others advanced,
                  )))
                (λ rest h'. tt)))

  merge_runs-Ends : (runs : List Bytes) → Ends (merge_runs options runs)
  unfolding merge_runs
  merge_runs-Ends runs =
      bind-Ends (open_runs options runs []) _ (open_runs-Ends runs [])
        (λ queue h. merge_loop-Ends (pending queue) none queue (omega arith))

  module _ (several : 2 ≤ options.max_open_files) where
    merge_pass-Ends :
        (fuel : ℕ) (runs : List Bytes) → length runs ≤ fuel → Ends (merge_pass options fuel runs)
    unfolding merge_pass
    merge_pass-Ends zero [] enough = tt
    merge_pass-Ends (suc fuel) [] enough = tt
    merge_pass-Ends zero (run ∷ runs) enough = absurd (omega (arith, enough))
    merge_pass-Ends (suc fuel) (run ∷ runs) enough =
        let open_now = options.max_open_files in
        bind-Ends (merge_runs options (take open_now (run ∷ runs))) _
          (merge_runs-Ends (take open_now (run ∷ runs)))
          (λ merged h.
            bind-Ends (merge_pass options fuel (drop open_now (run ∷ runs))) _
              (merge_pass-Ends fuel (drop open_now (run ∷ runs))
                (omega (arith, enough, several, length-drop open_now (run ∷ runs))))
              (λ rest h'. tt))

    -- A pass leaves at most half of the runs, rounded up.
    merge_pass-halves :
        (fuel : ℕ) (runs : List Bytes) {out : List Bytes}
        → merge_pass options fuel runs ≡ ok out
        → length out + length out ≤ suc (length runs)
    unfolding merge_pass
    merge_pass-halves fuel [] h =
        subst (λ o. length o + length o ≤ 1) (ok-injective h) (omega arith)
    merge_pass-halves zero (run ∷ runs) h = absurd (err-ne-ok h)
    merge_pass-halves (suc fuel) (run ∷ runs) h =
        let open_now = options.max_open_files in
        let (merged, _, h1) = bind-eq-ok (merge_runs options (take open_now (run ∷ runs))) _ h in
        let (rest, passed, h2) =
          bind-eq-ok (merge_pass options fuel (drop open_now (run ∷ runs))) _ h1 in
        subst (λ o. length o + length o ≤ suc (length (run ∷ runs))) (ok-injective h2)
          (omega (
            arith,
            several,
            merge_pass-halves fuel (drop open_now (run ∷ runs)) passed,
            length-drop open_now (run ∷ runs),
          ))

    merge_passes-Ends :
        (fuel : ℕ) (runs : List Bytes)
        → length runs ≤ suc fuel
        → Ends (merge_passes options fuel runs)
    unfolding merge_passes
    merge_passes-Ends fuel [] enough = tt
    merge_passes-Ends fuel (run ∷ []) enough = tt
    merge_passes-Ends zero (run ∷ next ∷ runs) enough = absurd (omega (arith, enough))
    merge_passes-Ends (suc fuel) (run ∷ next ∷ runs) enough =
        let all = run ∷ next ∷ runs in
        bind-Ends (merge_pass options (length all) all) _
          (merge_pass-Ends (length all) all (omega arith))
          (λ merged passed.
            merge_passes-Ends fuel merged
              (omega (arith, enough, merge_pass-halves (length all) all passed)))

-- Of any inputs and options, `SortFiles` returns: a file, or one of the errors of the code. None of
-- its loops runs out of the fuel that it has here.
pub sort_files_ends :
    (inputs : List Bytes) (options : Options) → sort_files inputs options ≢ err out_of_fuel
unfolding sort_files
sort_files_ends [] options = λ h. cc
sort_files_ends (input ∷ inputs) options =
    let normal = normalized options in
    Ends-ne (sort_files (input ∷ inputs) options) (
      bind-Ends (add_inputs normal begun (input ∷ inputs)) _
        (add_inputs-Ends normal begun (input ∷ inputs))
        (λ filled h. bind-Ends (spill normal filled) _ (spill-Ends normal filled) (λ stage h'.
          merge_passes-Ends normal (normalized_open options) (length stage.runs) stage.runs
            (omega arith))))

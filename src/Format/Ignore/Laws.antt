-- ===== src/Format/Ignore/Laws.antt =====
-- The ignore file ignores what one of its lines matches.
use mathlib.Core.Path.{subst}
use backup.Base.{
  ℕ, ◌+◌, ◌≡◌, ◌≢◌, ◌↔◌, ◌⊎◌, refl, sym, ap, ◌∙◌, Bool, true, false, ◌||◌, List, [], ◌∷◌, Option,
  none, some, inl, inr, some-eq, take_all, ok, err-ne-ok, bind-eq-ok, Among,
}
use backup.Base.Bytes.{Bytes}
use backup.Format.Rows.{Reader, Limits, delivered, over, validate_limits, scan_lines, check_end}
use backup.Format.Rows.Split.{ok-injective}
use backup.Format.Rows.Lines.{lines_text, lines_text-scan_lines}
use backup.Format.Rows.Canonical.{check_end-eq-ok, le_of_over, Ends-last}
use backup.Format.Ignore.{
  check_config_line, config_lines, read_config_lines, Ignore, compiled_or, compile_lines,
  parse_ignore, match_any, ignores,
}

config_lines-eq-ok :
    (limits : Limits) (seen : ℕ) (tokens : List Bytes) {lines : List Bytes}
    → config_lines limits seen tokens ≡ ok lines
    → lines ≡ tokens
unfolding config_lines
config_lines-eq-ok limits seen [] h = sym (ok-injective h)
config_lines-eq-ok limits seen (line ∷ tokens) h =
    let (u, checked, h1) = bind-eq-ok (check_config_line limits seen line) _ h in
    let (rest, r, h2) = bind-eq-ok (config_lines limits (seen + 1) tokens) _ h1 in
    sym (ok-injective h2) ∙ ap (λ t. line ∷ t) (config_lines-eq-ok limits (seen + 1) tokens r)

-- The lines that `readConfigLines` returns spell the text: each is ended by LF, and nothing else is
-- there.
lines_text-read_config_lines :
    (input : Reader) (limits : Limits) {lines : List Bytes}
    → read_config_lines input limits ≡ ok lines
    → lines_text lines ≡ input.bytes
unfolding read_config_lines
lines_text-read_config_lines input limits {lines} h =
    let text = delivered limits input in
    let (u, valid, h1) = bind-eq-ok (validate_limits limits) _ h in
    let (found, v, h2) =
      bind-eq-ok (config_lines limits 0 (scan_lines limits.max_line_bytes [] text).lines) _ h1 in
    let (u', c, h3) = bind-eq-ok (check_end _ (over limits input) input.fails _) _ h2 in
    let (fits, bounded, ended) = check_end-eq-ok _ _ _ _ c in
    let all = take_all limits.max_file_bytes input.bytes (le_of_over bounded) in
    let spelled = lines_text-scan_lines text limits.max_line_bytes [] (Ends-last text ended) fits in
    ap lines_text (sym (ok-injective h3) ∙ config_lines-eq-ok limits 0 _ v) ∙ spelled ∙ all

module _ {R : Type 0} (compile : Bytes → Option R) (match_string : R → Bytes → Bool) where
  -- A line that is not empty and whose expression matches the value.
  abbrev pub MatchedBy : List Bytes → Bytes → Type 0
  MatchedBy lines value =
      (line : Bytes) × Among line lines
      × (line ≢ [])
      × ((expression : R) × (compile line ≡ some expression)
          × (match_string expression value ≡ true))

  compiled_or-eq-ok :
      (found : Option R) {expression : R}
      → compiled_or found ≡ ok expression
      → found ≡ some expression
  compiled_or-eq-ok none h = absurd (err-ne-ok h)
  compiled_or-eq-ok (some other) h = ap some (ok-injective h)

  MatchedBy-later :
      (first : Bytes) (lines : List Bytes) (value : Bytes)
      → MatchedBy lines value
      → MatchedBy (first ∷ lines) value
  MatchedBy-later first lines value (line, has, some_text, e) = (line, inr has, some_text, e)

  MatchedBy-cases :
      (first : Bytes) (lines : List Bytes) (value : Bytes)
      → MatchedBy (first ∷ lines) value
      → ((first ≢ [])
          × ((expression : R) × (compile first ≡ some expression)
              × (match_string expression value ≡ true)))
        ⊎ MatchedBy lines value
  MatchedBy-cases first lines value (line, inl e, some_text, (expression, compiled, hit)) = inl (
    (λ empty. some_text (e ∙ empty)),
    (expression, subst (λ l. compile l ≡ some expression) e compiled, hit),
  )
  MatchedBy-cases first lines value (line, inr has, some_text, e) = inr (line, has, some_text, e)

  match_any-MatchedBy :
      (lines : List Bytes) (ignore : Ignore R) (value : Bytes)
      → compile_lines compile lines ≡ ok ignore
      → (match_any match_string ignore.compiled value ≡ true) ↔ MatchedBy lines value
  unfolding compile_lines match_any
  match_any-MatchedBy [] ignore value h =
      let none_here = ap (λ i. i.compiled) (ok-injective h) in
      (λ t. absurd (nothing (rw (← none_here) at t)), λ p. absurd (p.1))
    where
      nothing : ◌≡◌ {A = Bool} false true → ⊥
      nothing p = cc
  match_any-MatchedBy ([] ∷ lines) ignore value h =
      let (there, back) = match_any-MatchedBy lines ignore value h in
      (
        λ t. MatchedBy-later [] lines value (there t),
        λ p. elim (MatchedBy-cases [] lines value p) [
          | inl here ↦ absurd (here.0 refl)
          | inr later ↦ back later
        ],
      )
  match_any-MatchedBy ((c ∷ line) ∷ lines) ignore value h =
      let (expression, read, h1) = bind-eq-ok (compiled_or (compile (c ∷ line))) _ h in
      let (rest, made, h2) = bind-eq-ok (compile_lines compile lines) _ h1 in
      let (there, back) = match_any-MatchedBy lines rest value made in
      let found = compiled_or-eq-ok (compile (c ∷ line)) read in
      rw (← ok-injective h2) (
        λ t. elim (either (match_string expression value) _ t) [
          | inl here ↦ (c ∷ line, inl refl, cons-ne-nil c line, (expression, found, here))
          | inr later ↦ MatchedBy-later (c ∷ line) lines value (there later)
        ],
        λ p. elim (MatchedBy-cases (c ∷ line) lines value p) [
          | inl (some_text, (other, compiled, hit)) ↦
              let same = some-eq (sym found ∙ compiled) in
              rw (subst (λ r. match_string r value ≡ true) (sym same) hit) refl
          | inr later ↦ or_right (match_string expression value) (back later)
        ],
      )
    where
      either : (a b : Bool) → (a || b) ≡ true → (a ≡ true) ⊎ (b ≡ true)
      either true b t' = inl refl
      either false b t' = inr t'

      or_right : (a : Bool) {b : Bool} → b ≡ true → (a || b) ≡ true
      or_right true e = refl
      or_right false e = e

      cons-ne-nil : (x : ℕ) (xs : Bytes) → x ∷ xs ≢ []
      cons-ne-nil x xs e = cc

  -- For any compiler and matcher of expressions: a text that `ParseIgnore` accepts is a sequence of
  -- lines, each ended by LF, and `Match` ignores exactly the values that the expression of one of
  -- these lines matches, a line that is not empty.
  pub parse_ignore-MatchedBy :
      (input : Reader) (limits : Limits) {ignore : Ignore R}
      → parse_ignore compile input limits ≡ ok ignore
      → (lines : List Bytes) × (lines_text lines ≡ input.bytes)
        × ((value : Bytes) → (ignores match_string ignore value ≡ true) ↔ MatchedBy lines value)
  unfolding parse_ignore ignores
  parse_ignore-MatchedBy input limits {ignore} h =
      let (lines, read, made) = bind-eq-ok (read_config_lines input limits) _ h in
      (
        lines,
        lines_text-read_config_lines input limits read,
        λ value. match_any-MatchedBy lines ignore value made,
      )

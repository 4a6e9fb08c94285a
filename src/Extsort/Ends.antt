-- ===== src/Extsort/Ends.antt =====
-- Results of internal/extsort/sort.go that are not the end of the fuel, and the spills of SortFiles.
use mathlib.Core.Path.{subst}
use backup.Base.{
  ℕ, ◌+◌, ◌≡◌, ◌≢◌, refl, Bool, true, false, not, ◌&&◌, List, [], ◌∷◌, Option, none, some, ltb,
  ◌==◌, length, last_or, Result, ok, err, ◌>>=◌, require, refuse, if◌then◌else◌,
}
use backup.Base.Bytes.{Bytes, lf, equal}
use backup.Extsort.{
  Error, no_final_lf, empty_key, line_too_long, duplicate_key, out_of_fuel, Record, Options, Stage,
  key_or, check_unique, no_records, require_key, extract_key, open_line_reader, sort_records,
  printable_key, spill, add_record, add_line, add_lines, add_input, add_inputs, cost_of,
}

abbrev pub is_fuel : Error → Bool
is_fuel out_of_fuel = true
is_fuel _ = false

-- The result does not say that the fuel was too little.
abbrev pub Ends : {A : Type 0} → Result Error A → Type 0
Ends (ok a) = Unit
Ends (err e) = is_fuel e ≡ false

pub Ends-ne : {A : Type 0} (r : Result Error A) → Ends r → r ≢ err out_of_fuel
Ends-ne (ok a) ends h = cc
Ends-ne (err e) ends h = let wrong : true ≡ false = subst (λ r. Ends r) h ends in cc

pub bind-Ends :
    {A B : Type 0} (m : Result Error A) (f : A → Result Error B)
    → Ends m
    → ((a : A) → m ≡ ok a → Ends (f a))
    → Ends (m >>= f)
bind-Ends (ok a) f ends k = k a refl
bind-Ends (err e) f ends k = ends

pub refuse-Ends : (b : Bool) (e : Error) → is_fuel e ≡ false → Ends (refuse b e)
refuse-Ends true e h = h
refuse-Ends false e h = tt

require-Ends : (b : Bool) (e : Error) → is_fuel e ≡ false → Ends (require b e)
require-Ends true e h = tt
require-Ends false e h = h

if-Ends :
    {A : Type 0} (b : Bool) (r s : Result Error A) → Ends r → Ends s → Ends (if b then r else s)
if-Ends true r s h k = h
if-Ends false r s h k = k

require_key-Ends : (o : Option Bytes) → Ends (require_key o)
require_key-Ends none = refl
require_key-Ends (some key) = tt

pub extract_key-Ends : (options : Options) (line : Bytes) → Ends (extract_key options line)
unfolding extract_key
extract_key-Ends options line = require_key-Ends (key_or options.key line)

check_unique-Ends : (entries : List Record) → Ends (check_unique entries)
unfolding check_unique
check_unique-Ends [] = tt
check_unique-Ends (entry ∷ []) = tt
check_unique-Ends (entry ∷ next ∷ rest) =
    bind-Ends (refuse (equal entry.key next.key) (duplicate_key (printable_key next.key))) _
      (refuse-Ends (equal entry.key next.key) _ refl) (λ u h. check_unique-Ends (next ∷ rest))

pub open_line_reader-Ends : (max_line : ℕ) (file : Bytes) → Ends (open_line_reader max_line file)
unfolding open_line_reader
open_line_reader-Ends max_line file =
    bind-Ends (require (last_or lf file == lf) no_final_lf) _
      (require-Ends (last_or lf file == lf) no_final_lf refl) (λ u h. tt)

module _ (options : Options) where
  pub spill-Ends : (stage : Stage) → Ends (spill options stage)
  unfolding spill
  spill-Ends stage =
      let sorted = sort_records stage.chunk in
      let checked = if options.unique then check_unique sorted else ok tt in
      if-Ends (no_records stage.chunk) (ok stage) _ tt (
        bind-Ends checked _
          (if-Ends options.unique (check_unique sorted) (ok tt) (check_unique-Ends sorted) tt)
          (λ u h. tt))

  add_line-Ends : (stage : Stage) (line : Bytes) → Ends (add_line options stage line)
  unfolding add_line add_record
  add_line-Ends stage line =
      bind-Ends (extract_key options line) _ (extract_key-Ends options line) (λ key h.
        let full =
          not (no_records stage.chunk)
          && ltb options.memory_bytes
              (stage.used + cost_of (record { content = line; key = key })) in
        bind-Ends (refuse (length key == 0) empty_key) _
          (refuse-Ends (length key == 0) empty_key refl)
          (λ u h'.
            bind-Ends (if full then spill options stage else ok stage) _
              (if-Ends full (spill options stage) (ok stage) (spill-Ends stage) tt)
              (λ room h''. tt)))

  add_lines-Ends : (stage : Stage) (lines : List Bytes) → Ends (add_lines options stage lines)
  unfolding add_lines
  add_lines-Ends stage [] = tt
  add_lines-Ends stage (line ∷ lines) =
      bind-Ends (add_line options stage line) _ (add_line-Ends stage line)
        (λ next h. add_lines-Ends next lines)

  pub add_inputs-Ends :
      (stage : Stage) (inputs : List Bytes) → Ends (add_inputs options stage inputs)
  unfolding add_inputs add_input
  add_inputs-Ends stage [] = tt
  add_inputs-Ends stage (input ∷ inputs) =
      bind-Ends (add_input options stage input) _
        (bind-Ends (open_line_reader options.max_line_bytes input) _
          (open_line_reader-Ends options.max_line_bytes input)
          (λ reader h.
            bind-Ends (add_lines options stage reader.lines) _ (add_lines-Ends stage reader.lines)
              (λ next h'.
                bind-Ends (refuse reader.too_long line_too_long) _
                  (refuse-Ends reader.too_long line_too_long refl) (λ u h''. tt))))
        (λ next h. add_inputs-Ends next inputs)

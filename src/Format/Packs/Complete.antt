-- ===== src/Format/Packs/Complete.antt =====
-- A sequence of parts that `validatePackSequence` accepts has every part of its packs.
use backup.Base.{
  ℕ, suc, ◌≤◌, ◌<◌, ◌≡◌, ◌⊎◌, refl, sym, true, false, not, ◌&&◌, List, [], ◌∷◌, Option, none, some,
  arith, inl, inr, Bool-cases, ok, refuse_then, bind-eq-ok, All, All-map,
}
use mathlib.Core.Path.{subst}
use backup.Base.Bytes.{Bytes, equal}
use backup.Base.Bytes.{equal_iff}
use backup.Format.Errors.{missing_terminal}
use backup.Format.Packs.{
  PackEntry, validate_pack_entry, is_terminal, check_place, last_for_pack, check_sequence,
  validate_pack_sequence,
}
use backup.Format.Packs.Laws.{HasWidths}
use backup.Format.Packs.Sequence.{IsValid, Pending, equal_comm}

-- Part `k` of the pack is among the entries.
abbrev pub HasPart : Bytes → ℕ → List PackEntry → Type 0
HasPart hash k [] = ⊥
HasPart hash k (entry ∷ entries) =
    ((entry.pack_hash ≡ hash) × (entry.part_number ≡ k)) ⊎ HasPart hash k entries

-- Every part of the pack of each entry is among all the entries.
abbrev pub IsComplete : List PackEntry → Type 0
IsComplete entries = All (λ e. (k : ℕ) → k < e.part_count → HasPart e.pack_hash k entries) entries

number_lt : (entry : PackEntry) → IsValid entry → entry.part_number < entry.part_count
unfolding validate_pack_entry
number_lt entry v = ground arith

-- What an entry is that goes on with the pack before it.
goes_on :
    (previous entry : PackEntry)
    → previous.part_number < previous.part_count
    → HasWidths previous
    → check_place (some previous) entry ≡ ok tt
    → equal previous.pack_hash entry.pack_hash ≡ true
    → (entry.pack_hash ≡ previous.pack_hash)
      × (entry.part_number ≡ suc previous.part_number)
      × (entry.part_count ≡ previous.part_count)
unfolding check_place
goes_on previous entry l w h e =
    let small = w.count in
    (sym ((equal_iff previous.pack_hash entry.pack_hash).0 e), ground arith, ground arith)

-- A pack with parts to come does not end before another pack.
not_ended :
    (previous entry : PackEntry)
    → HasWidths previous
    → (k : ℕ) → Pending (some previous) (entry ∷ [])
    → equal previous.pack_hash entry.pack_hash ≡ false
    → previous.part_number < previous.part_count
    → previous.part_number < k
    → k < previous.part_count
    → ⊥
unfolding last_for_pack
not_ended previous entry w k p e l low high =
    let swap = equal_comm previous.pack_hash entry.pack_hash in
    let small = w.count in absurd (ground arith)

split3 : (k n : ℕ) → (k < n) ⊎ ((k ≡ n) ⊎ (n < k))
split3 k n = omega arith

split : (k n : ℕ) → n ≤ k → (k ≡ n) ⊎ (n < k)
split k n h = omega arith

-- The parts behind an entry of its pack follow it.
later_parts :
    (previous : PackEntry) (entries : List PackEntry)
    → previous.part_number < previous.part_count
    → HasWidths previous
    → All HasWidths entries
    → Pending (some previous) entries
    → check_sequence (some previous) entries ≡ ok tt
    → (k : ℕ) → previous.part_number < k
    → k < previous.part_count
    → HasPart previous.pack_hash k entries
unfolding check_sequence last_for_pack
later_parts previous [] l w ws p h k low high =
    absurd (terminal_end previous w p (omega arith) high low)
  where
    terminal_end :
        (e : PackEntry)
        → HasWidths e
        → (true && not (is_terminal e)) ≡ false
        → e.part_number < e.part_count
        → k < e.part_count
        → e.part_number < k
        → ⊥
    terminal_end e w' t n u v = let small = w'.count in absurd (ground arith)
later_parts previous (entry ∷ entries) l w (w1, ws) p h k low high =
    let (u, valid, h1) = bind-eq-ok (validate_pack_entry entry) _ h in
    let (u', place, h2) = bind-eq-ok (check_place (some previous) entry) _ h1 in
    let (pending, h3) =
      refuse_then (last_for_pack entry entries && not (is_terminal entry)) missing_terminal
        (check_sequence (some entry) entries) h2 in
    let n = number_lt entry valid in
    let later =
      later_parts entry entries n w1 ws (unfold last_for_pack in pending)
        (unfold check_sequence in h3) k in
    elim (Bool-cases (equal previous.pack_hash entry.pack_hash)) [
      | inl e ↦
          let (hash, number, count) = goes_on previous entry l w place e in
          elim (split k (entry.part_number) (omega arith)) [
            | inl at ↦ inl (hash, sym at)
            | inr above ↦ inr (subst (λ x. HasPart x k entries) hash (later above (omega arith)))
          ]
      | inr e ↦ absurd (not_ended previous entry w k p e l low high)
    ]

-- Part `k` of the pack is among the entries, or is not behind the entry before them.
abbrev Covered : Option PackEntry → Bytes → ℕ → List PackEntry → Type 0
Covered none hash k entries = HasPart hash k entries
Covered (some previous) hash k entries =
    HasPart hash k entries ⊎ ((hash ≡ previous.pack_hash) × (k ≤ previous.part_number))

Covered-of :
    (previous : Option PackEntry) (hash : Bytes) (k : ℕ) (entries : List PackEntry)
    → HasPart hash k entries
    → Covered previous hash k entries
Covered-of none hash k entries h = h
Covered-of (some previous) hash k entries h = inl h

-- What is known of the entry before.
abbrev IsBefore : Option PackEntry → Type 0
IsBefore none = Unit
IsBefore (some previous) = (previous.part_number < previous.part_count) × HasWidths previous

-- The parts before an entry of its pack are at or before the entry before it.
earlier_parts :
    (previous : Option PackEntry) (entry : PackEntry) (entries : List PackEntry)
    → IsBefore previous
    → check_place previous entry ≡ ok tt
    → (k : ℕ) → k < entry.part_number
    → Covered previous entry.pack_hash k entries
unfolding check_place
earlier_parts none entry entries b h k low = absurd (ground arith)
earlier_parts (some previous) entry entries (l, w) h k low =
    elim (Bool-cases (equal previous.pack_hash entry.pack_hash)) [
      | inl e ↦
          let (hash, number, count) = goes_on previous entry l w (unfold check_place in h) e in
          inr (hash, omega arith)
      | inr e ↦ absurd (ground arith)
    ]

own_parts :
    (previous : Option PackEntry) (entry : PackEntry) (entries : List PackEntry)
    → IsBefore previous
    → IsValid entry
    → HasWidths entry
    → All HasWidths entries
    → check_place previous entry ≡ ok tt
    → Pending (some entry) entries
    → check_sequence (some entry) entries ≡ ok tt
    → (k : ℕ) → k < entry.part_count
    → Covered previous entry.pack_hash k (entry ∷ entries)
own_parts previous entry entries b v w ws place p h k high =
    let n = number_lt entry v in
    elim (split3 k entry.part_number) [
      | inl low ↦ earlier_parts previous entry (entry ∷ entries) b place k low
      | inr (inl at) ↦ Covered-of previous entry.pack_hash k (entry ∷ entries) (inl (refl, sym at))
      | inr (inr above) ↦
          Covered-of previous entry.pack_hash k (entry ∷ entries)
            (inr (later_parts entry entries n w ws p h k above high))
    ]

check_sequence-Covered :
    (previous : Option PackEntry) (entries : List PackEntry)
    → IsBefore previous
    → All HasWidths entries
    → check_sequence previous entries ≡ ok tt
    → All (λ e. (k : ℕ) → k < e.part_count → Covered previous e.pack_hash k entries) entries
unfolding check_sequence
check_sequence-Covered previous [] b ws h = tt
check_sequence-Covered previous (entry ∷ entries) b (w, ws) h =
    let (u, valid, h1) = bind-eq-ok (validate_pack_entry entry) _ h in
    let (u', place, h2) = bind-eq-ok (check_place previous entry) _ h1 in
    let (pending, h3) =
      refuse_then (last_for_pack entry entries && not (is_terminal entry)) missing_terminal
        (check_sequence (some entry) entries) h2 in
    let n = number_lt entry valid in
    let own =
      own_parts previous entry entries b valid w ws place pending (unfold check_sequence in h3) in
    (
      own,
      All-map
          (λ e c k high. elim (c k high) [
            | inl has ↦ Covered-of previous e.pack_hash k (entry ∷ entries) (inr has)
            | inr (same, le) ↦
                subst (λ x. Covered previous x k (entry ∷ entries)) (sym same) (own k (omega arith))
          ])
          entries (check_sequence-Covered (some entry) entries (n, w) ws h3),
    )

-- A list of pack entries that `validatePackSequence` accepts, whose numbers are those of
-- `uint32` and `uint64`, holds for each of its entries every part of that entry's pack, from 0
-- up to its part count.
pub validate_pack_sequence-IsComplete :
    (entries : List PackEntry)
    → All HasWidths entries
    → validate_pack_sequence entries ≡ ok tt
    → IsComplete entries
unfolding validate_pack_sequence
validate_pack_sequence-IsComplete entries ws h = check_sequence-Covered none entries tt ws h

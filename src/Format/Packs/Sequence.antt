-- ===== src/Format/Packs/Sequence.antt =====
-- `WalkPacks`, which keeps one row, accepts the sequences that `validatePackSequence` accepts.
use backup.Base.{
  ◌≡◌, refl, true, false, not, ◌&&◌, List, [], ◌∷◌, Option, none, some, arith, Result, ok,
  require-eq-ok, refuse_then, bind-eq-ok, All,
}
use backup.Base.Bytes.{Bytes, equal, equal_iff}
use backup.Format.Errors.{Error, missing_terminal}
use backup.Format.Rows.Split.{ok-injective}
use backup.Format.Tables.Laws.{advance_all}
use backup.Format.Packs.{
  PackEntry, validate_pack_entry, is_terminal, check_place, last_for_pack, check_sequence,
  advance_pack, finish_packs,
}

-- The row before is terminal, unless the next row goes on with its pack.
abbrev pub Pending : Option PackEntry → List PackEntry → Type 0
Pending none entries = Unit
Pending (some previous) entries =
    (last_for_pack previous entries && not (is_terminal previous)) ≡ false

abbrev pub IsValid : PackEntry → Type 0
IsValid entry = validate_pack_entry entry ≡ ok tt

pub equal_comm : (a b : Bytes) → equal a b ≡ equal b a
equal_comm a b = ground (arith, equal_iff a b, equal_iff b a)

advance_pack-of :
    (previous : Option PackEntry) (entry : PackEntry) (entries : List PackEntry)
    → check_place previous entry ≡ ok tt
    → Pending previous (entry ∷ entries)
    → advance_pack previous entry ≡ ok (some entry)
unfolding check_place advance_pack last_for_pack
advance_pack-of none entry entries h p = ground arith
advance_pack-of (some previous) entry entries h p =
    let swap = equal_comm previous.pack_hash entry.pack_hash in ground arith

advance_pack-eq-ok :
    (previous : Option PackEntry) (entry : PackEntry) (entries : List PackEntry)
    {next : Option PackEntry}
    → advance_pack previous entry ≡ ok next
    → (next ≡ some entry)
      × (check_place previous entry ≡ ok tt)
      × Pending previous (entry ∷ entries)
unfolding check_place advance_pack last_for_pack
advance_pack-eq-ok none entry entries h = (ground arith, ground arith, tt)
advance_pack-eq-ok (some previous) entry entries h =
    let swap = equal_comm previous.pack_hash entry.pack_hash in
    (ground arith, ground arith, ground arith)

-- How a walk ends that accepts the entries.
pub record Accepted (previous : Option PackEntry) (entries : List PackEntry) : Type 0 where
  pub last : Option PackEntry
  pub compared : advance_all advance_pack previous entries ≡ ok last
  pub finished : finish_packs last ≡ ok tt

pub check_sequence-Accepted :
    (previous : Option PackEntry) (entries : List PackEntry)
    → Pending previous entries
    → check_sequence previous entries ≡ ok tt
    → Accepted previous entries × All IsValid entries
unfolding check_sequence
check_sequence-Accepted none [] p h =
    (record { last = none; compared = refl; finished = unfold finish_packs in refl }, tt)
check_sequence-Accepted (some previous) [] p h = (
  record {
    last = some previous;
    compared = refl;
    finished = unfold finish_packs last_for_pack in ground arith;
  },
  tt,
)
check_sequence-Accepted previous (entry ∷ entries) p h =
    let (u, valid, h1) = bind-eq-ok (validate_pack_entry entry) _ h in
    let (u', place, h2) = bind-eq-ok (check_place previous entry) _ h1 in
    let (pending, h3) =
      refuse_then (last_for_pack entry entries && not (is_terminal entry)) missing_terminal
        (check_sequence (some entry) entries) h2 in
    let step = advance_pack-of previous entry entries place p in
    let (rest, valids) = check_sequence-Accepted (some entry) entries pending h3 in
    (
      record { last = rest.last; compared = rw step (rest.compared); finished = rest.finished },
      (valid, valids),
    )

accepted_end :
    (previous : PackEntry) {last : Option PackEntry}
    → ◌≡◌ {A = Result Error (Option PackEntry)} (ok (some previous)) (ok last)
    → finish_packs last ≡ ok tt
    → (true && not (is_terminal previous)) ≡ false
unfolding finish_packs
accepted_end previous h f =
    let ended = rw (← ok-injective h) at f in
    let t = require-eq-ok (is_terminal previous) missing_terminal ended in ground arith

pub Accepted-check_sequence :
    (previous : Option PackEntry) (entries : List PackEntry)
    → All IsValid entries
    → Accepted previous entries
    → (check_sequence previous entries ≡ ok tt) × Pending previous entries
unfolding check_sequence
Accepted-check_sequence none [] v a = (refl, tt)
Accepted-check_sequence (some previous) [] v a =
    (refl, unfold last_for_pack in accepted_end previous a.compared a.finished)
Accepted-check_sequence previous (entry ∷ entries) (v, vs) a =
    let (next, step, h1) = bind-eq-ok (advance_pack previous entry) _ a.compared in
    let (same, place, pending) = advance_pack-eq-ok previous entry entries step in
    let (rest, later) =
      Accepted-check_sequence (some entry) entries vs
        (record { last = a.last; compared = rw same at h1; finished = a.finished }) in
    (rw (v, place, later) rest, pending)

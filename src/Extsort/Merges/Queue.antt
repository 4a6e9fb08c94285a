-- ===== src/Extsort/Merges/Queue.antt =====
-- The queue of `mergeRuns` in internal/extsort/sort.go: what `heap.Pop` takes from it.
use mathlib.Core.List.{Perm, perm_append_comm}
use mathlib.Core.List.Perm
use backup.Base.{
  ◌≡◌, refl, false, List, [], ◌∷◌, ◌++◌, map, append_assoc, All, All-append, inl, inr, Bool-cases,
}
use mathlib.Core.Path.{subst₂}
use backup.Extsort.{Record, Options, MergeNode, before, pop}
use backup.Extsort.Sorted.{Below, Below-perm, Below-trans, Ascending}
use backup.Extsort.Order.{before_one_way}
use backup.Extsort.Files.{IsKeyed, reader_of}

-- A record in the queue, with the records behind it in its run.
abbrev pub Head : Type 0
Head = Record × List Record

abbrev pub node_of : Head → MergeNode
node_of h = record { item = h.0; reader = reader_of h.1 }

abbrev pub records_of : List Head → List Record
records_of [] = []
records_of (h ∷ hs) = (h.0 ∷ h.1) ++ records_of hs

-- A sorted run of records that have their line's key.
abbrev pub IsRun : Options → List Record → Type 0
IsRun options l = All (IsKeyed options) l × Ascending l

abbrev pub AreRuns : Options → List Head → Type 0
AreRuns options = All (λ g. IsRun options (g.0 ∷ g.1))

-- What `pop` takes: a head that no other record precedes; with the others it is the whole queue.
abbrev pub Popped : Options → Head → List Head → Type 0
Popped options h hs =
    (least : Head) × (others : List Head) × ((pop (node_of h) (map node_of hs)
        ≡ (node_of least, map node_of others))
      × Perm (records_of (least ∷ others)) (records_of (h ∷ hs))
      × Below least.0 (records_of others)
      × AreRuns options (least ∷ others))

run_behind :
    (options : Options) (a : Record) (h : Head)
    → before h.0 a ≡ false
    → IsRun options (h.0 ∷ h.1)
    → Below a (h.0 ∷ h.1)
run_behind options a h first (_, (below, _)) = (first, Below-trans a h.0 h.1 first below)

pub swap_parts : (a b c : List Record) → Perm (a ++ (b ++ c)) (b ++ (a ++ c))
swap_parts a b c =
    subst₂ Perm (append_assoc a b c) (append_assoc b a c)
      (Perm.append_right c (perm_append_comm a b))

pub pop-nodes :
    (options : Options) (h : Head) (hs : List Head) → AreRuns options (h ∷ hs) → Popped options h hs
unfolding pop
pop-nodes options h [] runs = (h, [], (refl, Perm.rfl, tt, runs))
pop-nodes options h (g ∷ gs) (run, runs) =
    let (least, others, (popped, same, behind, good)) = pop-nodes options g gs runs in
    elim (Bool-cases (before least.0 h.0)) [
      | inl up ↦ (
        least,
        h ∷ others,
        (
          rw popped (rw up refl),
          Perm.trans (swap_parts (least.0 ∷ least.1) (h.0 ∷ h.1) (records_of others))
              (Perm.append_left (h.0 ∷ h.1) same),
          All-append (λ r. before r least.0 ≡ false) (h.0 ∷ h.1) (records_of others)
              (run_behind options least.0 h (before_one_way least.0 h.0 up) run) behind,
          (good.0, (run, good.1)),
        ),
      )
      | inr stay ↦ (
        h,
        g ∷ gs,
        (
          rw popped (rw stay refl),
          Perm.rfl,
          Below-perm h.0 same (
              All-append (λ r. before r h.0 ≡ false) (least.0 ∷ least.1) (records_of others)
                (run_behind options h.0 least stay good.0)
                (Below-trans h.0 least.0 (records_of others) stay behind)),
          (run, runs),
        ),
      )
    ]

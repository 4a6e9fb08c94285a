-- ===== src/Repository/NewPacks/Laws.antt =====
-- New packs and the packs of new objects are the same.
use backup.Base.{
  err-ne-ok, ◌≡◌, ◌≢◌, ◌↔◌, refl, sym, ap, ◌∙◌, true, false, ◌&&◌, List, [], ◌∷◌, length, ◌==◌,
  ==_iff, inl, inr, Bool-cases, not_both, ok, bind-eq-ok, require_then, refuse_then, All, All-map,
  Among, All-Among,
}
use mathlib.Core.Path.{subst}
use backup.Base.Bytes.{Bytes, equal, equal_iff, less, less_irrefl, less_total, less_trans}
use backup.Repository.DerivedRows.{Row, DerivedRows, join_errors, field}
use backup.Repository.Extension.Laws.{HasWidth, Sorted}
use backup.Repository.PackRows.Ordinary.{Grouped}
use backup.Repository.NewPacks.{skip_same, match_packs, require_new_pack_references}
use backup.Repository.NewPacks.Skip.{
  skip_same-Among, Among-skip_same, skip_same-All, skip_same-Grouped, skip_same-differs,
}

-- Some row has the same first field.
abbrev pub HasKey : List Row → Row → Type 0
HasKey rows row = (other : Row) × Among other rows × (field other 0 ≡ field row 0)

-- Each object has its pack among the packs, and each pack an object.
abbrev pub Matched : List Row → List Row → Type 0
Matched objects packs = All (HasKey packs) objects × All (HasKey objects) packs

-- Objects whose rows that are left have packs among the later packs have packs.
widen :
    (pack : Row) (packs : List Row) (key : Bytes) (rows : List Row)
    → field pack 0 ≡ key
    → All (HasKey packs) (skip_same key rows)
    → All (HasKey (pack ∷ packs)) rows
unfolding skip_same
widen pack packs key [] e h = tt
widen pack packs key (row ∷ rows) e h = elim (Bool-cases (equal (field row 0) key)) [
  | inl s ↦
      let same = (equal_iff (field row 0) key).0 s in
      ((pack, inl refl, e ∙ sym same), widen pack packs key rows e (rw s at h))
  | inr s ↦ All-map (λ r f. (f.0, inr (f.1), f.2)) (row ∷ rows) (rw s at h)
]

match_packs-Matched :
    (objects packs : List Row) → match_packs objects packs ≡ ok tt → Matched objects packs
unfolding match_packs
match_packs-Matched [] [] h = (tt, tt)
match_packs-Matched (o ∷ os) [] h =
    let (w, h1) = require_then (length o == 2) _ _ h in absurd (err-ne-ok h1)
match_packs-Matched [] (p ∷ ps) h =
    let (w, h1) = require_then (length p == 1) _ _ h in absurd (err-ne-ok h1)
match_packs-Matched (o ∷ os) (p ∷ ps) h =
    let (w, h1) = require_then (length o == 2 && length p == 1) _ _ h in
    let (l, h2) = refuse_then (less (field o 0) (field p 0)) _ _ h1 in
    let (l', h3) = refuse_then (less (field p 0) (field o 0)) _ _ h2 in
    let key = field o 0 in
    let same = less_total (field p 0) key l' l in
    let (a, b) = match_packs-Matched (skip_same key (o ∷ os)) ps h3 in
    (
      widen p ps key (o ∷ os) same a,
      (
        (o, inl refl, sym same),
        All-map (λ r f. (f.0, skip_same-Among key (o ∷ os) f.0 f.1, f.2)) ps b,
      ),
    )

pub require_new_pack_references-Matched :
    (objects packs : DerivedRows)
    → require_new_pack_references objects packs ≡ ok tt
    → Matched objects.rows packs.rows × (join_errors objects packs ≡ ok tt)
unfolding require_new_pack_references
require_new_pack_references-Matched objects packs h =
    let (u, matched, joined) = bind-eq-ok (match_packs objects.rows packs.rows) _ h in
    (match_packs-Matched objects.rows packs.rows matched, joined)

-- The first fields of a group are not before the first of them.
lowest :
    (row : Row) (rows : List Row) (r : Row)
    → All (λ x. less (field x 0) (field row 0) ≡ false) rows
    → Among r (row ∷ rows)
    → less (field r 0) (field row 0) ≡ false
lowest row rows r g (inl e) =
    subst (λ x. less (field x 0) (field row 0) ≡ false) (sym e) (less_irrefl (field row 0))
lowest row rows r g (inr h) = All-Among (λ x. less (field x 0) (field row 0) ≡ false) r rows g h

-- In a sorted file nothing is before its first row.
first_least :
    (p : Row) (ps : List Row) (r : Row)
    → All (λ x. less (field p 0) (field x 0) ≡ true) ps
    → Among r (p ∷ ps)
    → less (field r 0) (field p 0) ≡ false
first_least p ps r s (inl e) =
    subst (λ x. less (field x 0) (field p 0) ≡ false) (sym e) (less_irrefl (field p 0))
first_least p ps r s (inr h) =
    let above_first = All-Among (λ x. less (field p 0) (field x 0) ≡ true) r ps s h in
    elim (Bool-cases (less (field r 0) (field p 0))) [
      | inl l ↦ absurd (
          not_both (less_trans (field p 0) (field r 0) (field p 0) above_first l)
            (less_irrefl (field p 0)))
      | inr l ↦ l
    ]

-- Of what is left no row has the pack that was matched, so that the later packs are enough for it.
narrow :
    (p : Row) (ps : List Row) (key : Bytes) (rows : List Row)
    → field p 0 ≡ key
    → All (λ r. field r 0 ≢ key) rows
    → All (HasKey (p ∷ ps)) rows
    → All (HasKey ps) rows
narrow p ps key [] e d h = tt
narrow p ps key (row ∷ rows) e (d, ds) ((other, inl same, k), hs) =
    absurd (d (sym k ∙ ap (λ x. field x 0) same ∙ e))
narrow p ps key (row ∷ rows) e (d, ds) ((other, inr has, k), hs) =
    ((other, has, k), narrow p ps key rows e ds hs)

-- The later packs keep their objects.
keep :
    (key : Bytes) (rows packs : List Row)
    → All (λ p. field p 0 ≢ key) packs
    → All (HasKey rows) packs
    → All (HasKey (skip_same key rows)) packs
keep key rows [] d h = tt
keep key rows (p ∷ packs) (d, ds) ((other, has, k), hs) = (
  (other, Among-skip_same key rows other (λ same. d (sym k ∙ same)) has, k),
  keep key rows packs ds hs,
)

later_differ :
    (p : Row) (key : Bytes) (ps : List Row)
    → field p 0 ≡ key
    → All (λ x. less (field p 0) (field x 0) ≡ true) ps
    → All (λ x. field x 0 ≢ key) ps
later_differ p key ps e s =
    All-map
      (λ x l same.
        not_both (subst (λ t. less (field p 0) t ≡ true) (same ∙ sym e) l)
          (less_irrefl (field p 0)))
      ps s

Matched-match_packs :
    (objects packs : List Row)
    → Grouped objects
    → Sorted packs
    → HasWidth 2 objects
    → HasWidth 1 packs
    → Matched objects packs
    → match_packs objects packs ≡ ok tt
unfolding match_packs
Matched-match_packs [] [] g s w v m = refl
Matched-match_packs (o ∷ os) [] g s w v ((f, fs), b) = absurd (f.1)
Matched-match_packs [] (p ∷ ps) g s w v (a, (f, fs)) = absurd (f.1)
Matched-match_packs (o ∷ os) (p ∷ ps) (g, gs) (s, ss) (w, ws) (v, vs) ((f, fs), (b, bs)) =
    let key = field o 0 in
    let l = subst (λ x. less x (field p 0) ≡ false) f.2 (first_least p ps f.0 s f.1) in
    let l' = subst (λ x. less x key ≡ false) b.2 (lowest o os b.0 g b.1) in
    let same = less_total (field p 0) key l' l in
    let wide = (==_iff (length o) 2).1 w in
    let wide' = (==_iff (length p) 1).1 v in
    let differs = skip_same-differs key (o ∷ os) (g, gs) (less_irrefl key, g) in
    let rest =
      Matched-match_packs (skip_same key (o ∷ os)) ps (skip_same-Grouped key (o ∷ os) (g, gs)) ss
        (skip_same-All (λ r. length r ≡ 2) key (o ∷ os) (w, ws)) vs
        (
          narrow p ps key (skip_same key (o ∷ os)) same differs
              (skip_same-All (HasKey (p ∷ ps)) key (o ∷ os) (f, fs)),
          keep key (o ∷ os) ps (later_differ p key ps same s) bs,
        ) in
    rw (wide, wide', l, l') rest

-- Of object rows whose pack hashes do not go down and pack rows whose hashes go up strictly, of two
-- fields and of one, `requireNewPackReferences` accepts exactly those where each object row has its
-- pack among the pack rows and each pack row has an object row, and no file fails.
pub require_new_pack_references_iff :
    (objects packs : DerivedRows)
    → Grouped objects.rows
    → Sorted packs.rows
    → HasWidth 2 objects.rows
    → HasWidth 1 packs.rows
    → (require_new_pack_references objects packs ≡ ok tt)
      ↔ (Matched objects.rows packs.rows × (join_errors objects packs ≡ ok tt))
unfolding require_new_pack_references
require_new_pack_references_iff objects packs g s w v = (
  require_new_pack_references-Matched objects packs,
  λ p. rw (Matched-match_packs objects.rows packs.rows g s w v p.0) (p.1),
)

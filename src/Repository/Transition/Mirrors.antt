-- ===== src/Repository/Transition/Mirrors.antt =====
-- What validateMirrorImmediateIdentity asks of mirrors.
use backup.Base.{
  ◌≢◌, ◌++◌, refl, if◌then◌else◌, ◌≡◌, sym, ap, ◌∙◌, List, [], ◌∷◌, Option, none, some, ok,
  bind-eq-ok, require-eq-ok, All,
}
use backup.Base.Bytes.{Bytes, equal, equal_iff, ne-equal}
use backup.Format.Mirrors.{Mirror, mirror_row}
use backup.Repository.DerivedRows.{rebound_mirror, equal_fields, equal_fields_iff}
use backup.Repository.Transition.{find_mirror, check_mirror, validate_mirror_identity}

-- A new mirror that has the name of an old one, of the last one if several have it, is that one.
abbrev pub NotRebound : List Mirror → Mirror → Type 0
NotRebound olds new =
    (front : List Mirror) (previous : Mirror) (back : List Mirror)
    → olds ≡ front ++ previous ∷ back
    → previous.name ≡ new.name
    → All (λ m. m.name ≢ new.name) back
    → mirror_row previous ≡ mirror_row new

find_mirror-none :
    (found : Option Mirror) (name : Bytes) (mirrors : List Mirror)
    → All (λ m. m.name ≢ name) mirrors
    → find_mirror found name mirrors ≡ found
unfolding find_mirror
find_mirror-none found name [] h = refl
find_mirror-none found name (m ∷ ms) (h, hs) =
    rw (ne-equal m.name name h) (find_mirror-none found name ms hs)

find_mirror-last :
    (found : Option Mirror) (name : Bytes) (front : List Mirror) (previous : Mirror)
    (back : List Mirror)
    → previous.name ≡ name
    → All (λ m. m.name ≢ name) back
    → find_mirror found name (front ++ previous ∷ back) ≡ some previous
unfolding find_mirror
find_mirror-last found name [] previous back e h =
    rw ((equal_iff previous.name name).1 e, find_mirror)
      (find_mirror-none (some previous) name back h)
find_mirror-last found name (m ∷ front) previous back e h =
    find_mirror-last (if equal m.name name then some m else found) name front previous back e h

check_mirror-eq-ok :
    (found : Option Mirror) (new previous : Mirror)
    → check_mirror found new ≡ ok tt
    → found ≡ some previous
    → mirror_row previous ≡ mirror_row new
unfolding check_mirror
check_mirror-eq-ok none new previous h e = cc
check_mirror-eq-ok (some other) new previous h e =
    let t = require-eq-ok (equal_fields (mirror_row other) (mirror_row new)) rebound_mirror h in
    let same : other ≡ previous = cc in
    ap mirror_row (sym same) ∙ (equal_fields_iff (mirror_row other) (mirror_row new)).0 t

pub validate_mirror_identity-NotRebound :
    (olds news : List Mirror)
    → validate_mirror_identity olds news ≡ ok tt
    → All (NotRebound olds) news
unfolding validate_mirror_identity
validate_mirror_identity-NotRebound olds [] h = tt
validate_mirror_identity-NotRebound olds (new ∷ news) h =
    let (u, c, h1) = bind-eq-ok (check_mirror (find_mirror none new.name olds) new) _ h in
    (
      (λ front previous back split named others.
          check_mirror-eq-ok (find_mirror none new.name olds) new previous c (
            ap (find_mirror none new.name) split
            ∙ find_mirror-last none new.name front previous back named others)),
      validate_mirror_identity-NotRebound olds news h1,
    )

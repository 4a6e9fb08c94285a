-- ===== src/Repository/StreamCatalogs/Paths.antt =====
-- The ancestor events find what `validateIndexOrder` finds.
use backup.Base.{
  ◌<◌, ◌≡◌, ◌↔◌, ap, true, List, [], ◌∷◌, ◌++◌, map, arith, length, length-append, leb, not, ◌||◌,
  ok, refuse_then, bind-eq-ok, All, All-map,
}
use backup.Base.Bytes.{Bytes, codes, less, has_prefix}
use backup.Format.Paths.{slash, validate_path}
use backup.Format.Index.{IndexEntry, validate_index_entry, validate_index_order}
use backup.Format.Index.Order.{Apart, AllApart, validate_index_order-AllApart}
use backup.Repository.AncestorEvents.Intervals.{Above}
use backup.Repository.AncestorEvents.Laws.{NoneAbove}

abbrev pub paths_of : List IndexEntry → List Bytes
paths_of = map (λ e. e.path)

-- The paths go up strictly.
abbrev pub Rising : List IndexEntry → Type 0
Rising [] = Unit
Rising (e ∷ es) = All (λ f. less e.path f.path ≡ true) es × Rising es

abbrev pub IsLong : IndexEntry → Type 0
IsLong e = 2 < length e.path

pub validate_index_entry-IsLong : (e : IndexEntry) → validate_index_entry e ≡ ok tt → IsLong e
unfolding validate_index_entry validate_path
validate_index_entry-IsLong e h =
    let (u, valid, _) = bind-eq-ok (validate_path e.path) _ h in
    let (t, _) =
      refuse_then (not (has_prefix e.path (codes "./")) || leb (length e.path) 2) _ _ valid in
    ground arith

not_own : (p : Bytes) → ¬ Above p p
not_own p (r, e) =
    let size = length-append p (slash ∷ r) in
    let same : length p ≡ length (p ++ slash ∷ r) = ap length e in omega arith

pairs_below :
    (e : IndexEntry) (es : List IndexEntry)
    → IsLong e
    → All IsLong es
    → All (λ f. Apart e.path f.path) es
    → All (λ q. ¬ Above q e.path) (paths_of es) × All (λ f. ¬ Above e.path f.path) es
pairs_below e [] long longs h = (tt, tt)
pairs_below e (f ∷ es) long (l, longs) (apart, aparts) =
    let (downs, ups) = pairs_below e es long longs aparts in
    (
      ((λ (r, k). apart.not_below (r, k, omega arith)), downs),
      ((λ (r, k). apart.not_above (r, k, omega arith)), ups),
    )

put_first :
    (e : IndexEntry) (ps : List Bytes) (es : List IndexEntry)
    → All (λ f. ¬ Above e.path f.path) es
    → All (λ p. All (λ q. ¬ Above q p) ps) (paths_of es)
    → All (λ p. All (λ q. ¬ Above q p) (e.path ∷ ps)) (paths_of es)
put_first e ps [] h k = tt
put_first e ps (f ∷ es) (h, hs) (k, ks) = ((h, k), put_first e ps es hs ks)

AllApart-NoneAbove : (es : List IndexEntry) → All IsLong es → AllApart es → NoneAbove (paths_of es)
AllApart-NoneAbove [] long h = tt
AllApart-NoneAbove (e ∷ es) (long, longs) (apart, aparts) =
    let (downs, ups) = pairs_below e es long longs apart in
    ((not_own e.path, downs), put_first e (paths_of es) es ups (AllApart-NoneAbove es longs aparts))

aparts_of :
    (e : IndexEntry) (es : List IndexEntry)
    → All (λ f. less e.path f.path ≡ true) es
    → All (λ q. ¬ Above q e.path) (paths_of es)
    → All (λ p. All (λ q. ¬ Above q p) (e.path ∷ paths_of es)) (paths_of es)
    → All (λ f. Apart e.path f.path) es
aparts_of e es rising below above = go es rising below (heads (paths_of es) (paths_of es) above)
  where
    heads :
        (ps qs : List Bytes)
        → All (λ p. All (λ q. ¬ Above q p) (e.path ∷ qs)) ps
        → All (λ p. ¬ Above e.path p) ps
    heads [] qs h = tt
    heads (p ∷ ps) qs (h, hs) = (h.0, heads ps qs hs)

    go :
        (fs : List IndexEntry)
        → All (λ f. less e.path f.path ≡ true) fs
        → All (λ q. ¬ Above q e.path) (paths_of fs)
        → All (λ p. ¬ Above e.path p) (paths_of fs)
        → All (λ f. Apart e.path f.path) fs
    go [] r b a = tt
    go (f ∷ fs) (r, rs) (b, bs) (a, as') = (
      record { sorted = r; not_above = λ (s, k, _). a (s, k); not_below = λ (s, k, _). b (s, k) },
      go fs rs bs as',
    )

NoneAbove-AllApart : (es : List IndexEntry) → Rising es → NoneAbove (paths_of es) → AllApart es
NoneAbove-AllApart [] rising h = tt
NoneAbove-AllApart (e ∷ es) (rising, risings) ((_, below), above) = (
  aparts_of e es rising below above,
  NoneAbove-AllApart es risings (tails (paths_of es) e.path (paths_of es) above),
)
  where
    tails :
        (ps : List Bytes) (p : Bytes) (qs : List Bytes)
        → All (λ x. All (λ q. ¬ Above q x) (p ∷ qs)) ps
        → All (λ x. All (λ q. ¬ Above q x) qs) ps
    tails [] p qs h = tt
    tails (x ∷ ps) p qs (h, hs) = (h.1, tails ps p qs hs)

-- Of valid entries in ascending order, no path is above another exactly where `validateIndexOrder`
-- accepts them.
pub NoneAbove-validate_index_order :
    (es : List IndexEntry)
    → All (λ e. validate_index_entry e ≡ ok tt) es
    → Rising es
    → NoneAbove (paths_of es) ↔ (validate_index_order es ≡ ok tt)
NoneAbove-validate_index_order es valid rising =
    let (into, from) = validate_index_order-AllApart es in
    (
      λ n. from (NoneAbove-AllApart es rising n),
      λ h. AllApart-NoneAbove es (All-map validate_index_entry-IsLong es valid) (into h),
    )

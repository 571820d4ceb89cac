-- ===== src/Lock/Listing.antt =====
-- Lists of locks in which no key stands twice, read by key. Neither a reordering of such a list nor
-- the concatenation with other keys changes what is found.
use mathlib.Core.HLevel.{×_prop, Unit-prop, Π_prop}
use mathlib.Core.Logic.{∥∥₁_elim}
use mathlib.Core.List.Perm
use mathlib.Core.List.{Perm, Permᴰ}
use mathlib.Core.List.Permᴰ.{nil, cons, swap, trans}
use distributed_locking.Base.{
  ◌≡◌, refl, sym, eq_refl, inl, inr, Bool-cases, ◌∙◌, String, List, [], ◌∷◌, ◌++◌, Option, none,
  some, arith, eq_iff, ◌==◌, if◌then◌else◌,
}
use distributed_locking.Base.Text.{String-set}
use distributed_locking.Lock.{Lock}
use distributed_locking.Map.{Map, IsMap, RangeOrder, lookup, insert, remove, values}

pub Lock-set : IsSet (Option Lock)
Lock-set = hlevel String-set

-- the first lock with a key
unfoldable pub find : String → List Lock → Option Lock
find k [] = none
find k (l ∷ ls) = if l.key == k then some l else find k ls

abbrev pub Distinct : List Lock → Type 0
Distinct [] = Unit
Distinct (l ∷ ls) = (find l.key ls ≡ none) × Distinct ls

Distinct-prop : (ls : List Lock) → IsProp (Distinct ls)
Distinct-prop [] = Unit-prop
Distinct-prop (l ∷ ls) = ×_prop (Lock-set _ _) (Distinct-prop ls)

-- what a reordering keeps
abbrev Same : List Lock → List Lock → Type 0
Same xs ys = Distinct ys × ((k : String) → find k xs ≡ find k ys)

Same-of_permᴰ : (xs ys : List Lock) → Permᴰ xs ys → Distinct xs → Same xs ys
unfolding find
Same-of_permᴰ _ _ nil d = (tt, λ k. refl)
Same-of_permᴰ _ _ (cons {a} {b} {l₁ = xs} {l₂ = ys} p r) d =
    let (dy, same) = Same-of_permᴰ xs ys r d.1 in
    ((ground (arith, same a.key), dy), λ k. ground (arith, same k))
Same-of_permᴰ _ _ (swap {a} {b} {l = xs} p q) d = (
  (ground (arith, eq_iff a.key b.key, eq_iff b.key a.key), (ground arith, d.1.1)),
  λ k. ground (arith, eq_iff a.key b.key, eq_iff a.key k, eq_iff b.key k),
)
Same-of_permᴰ _ _ (trans {l₁ = xs} {l₂ = ys} {l₃ = zs} r t) d =
    let (dy, same) = Same-of_permᴰ xs ys r d in
    let (dz, same') = Same-of_permᴰ ys zs t dy in (dz, λ k. same k ∙ same' k)

-- A reordering of a list of distinct keys has distinct keys, and the same lock at each key.
pub Same-of_perm : {xs ys : List Lock} → Perm xs ys → Distinct xs → Same xs ys
Same-of_perm {xs} {ys} p d =
    ∥∥₁_elim p (×_prop (Distinct-prop ys) (Π_prop λ k. Lock-set _ _)) (λ r. Same-of_permᴰ xs ys r d)

pub find-append :
    (k : String) (xs ys : List Lock)
    → find k (xs ++ ys) ≡ elim (find k xs) [ none ↦ find k ys | some l ↦ some l ]
unfolding find
find-append k [] ys = refl
find-append k (x ∷ xs) ys = ground (arith, find-append k xs ys)

pub find-key : (k : String) (xs : List Lock) (l : Lock) → find k xs ≡ some l → l.key ≡ k
unfolding find
find-key k [] l h = cc
find-key k (x ∷ xs) l h = ground (arith, eq_iff x.key k, find-key k xs l)

-- Two lists of distinct keys that share no key make one.
pub Distinct-append :
    (xs ys : List Lock)
    → Distinct xs
    → Distinct ys
    → ((k : String) (l : Lock) → find k xs ≡ some l → find k ys ≡ none)
    → Distinct (xs ++ ys)
unfolding find
Distinct-append [] ys dx dy apart = dy
Distinct-append (x ∷ xs) ys dx dy apart = (
  rw (find-append, dx.0) (apart x.key x (rw eq_refl)),
  Distinct-append xs ys dx.1 dy (λ k l h. elim (Bool-cases (x.key == k)) [
    | inl same ↦ apart k x (rw same)
    | inr other ↦ apart k l (rw other h)
  ]),
)

-- the lock of each entry bears the entry's key
abbrev pub IsKeyed : Map Lock → Type 0
IsKeyed [] = Unit
IsKeyed ((k, l) ∷ m) = (l.key ≡ k) × IsKeyed m

pub find-values : (k : String) (m : Map Lock) → IsKeyed m → find k (values m) ≡ lookup k m
unfolding find values lookup
find-values k [] h = refl
find-values k ((j, l) ∷ m) h = ground (arith, find-values k m h.1)

pub values-Distinct : (m : Map Lock) → IsMap m → IsKeyed m → Distinct (values m)
unfolding values
values-Distinct [] h d = tt
values-Distinct ((k, l) ∷ m) h d = (find-values l.key m d.1 ∙ rw d.0 h.0, values-Distinct m h.1 d.1)

-- What one `range` over a valid map lists: each key once, with the lock that the map holds.
pub find-arrange :
    (o : RangeOrder Lock) (m : Map Lock)
    → IsMap m
    → IsKeyed m
    → Distinct (o.arrange (values m)) × ((k : String) → find k (o.arrange (values m)) ≡ lookup k m)
find-arrange o m h d =
    let (distinct, same) =
      Same-of_perm (Perm.symm (o.arrange-perm (values m))) (values-Distinct m h d) in
    (distinct, λ k. sym (same k) ∙ find-values k m d)

pub insert-IsKeyed :
    (k : String) (l : Lock) (m : Map Lock) → l.key ≡ k → IsKeyed m → IsKeyed (insert k l m)
unfolding insert
insert-IsKeyed k l [] e h = (e, tt)
insert-IsKeyed k l ((j, x) ∷ m) e h = elim (Bool-cases (j == k)) [
  | inl same ↦ rw same (e, h.1)
  | inr other ↦ rw other (h.0, insert-IsKeyed k l m e h.1)
]

pub remove-IsKeyed : (k : String) (m : Map Lock) → IsKeyed m → IsKeyed (remove k m)
unfolding remove
remove-IsKeyed k [] h = tt
remove-IsKeyed k ((j, x) ∷ m) h = elim (Bool-cases (j == k)) [
  | inl same ↦ rw same h.1
  | inr other ↦ rw other (h.0, remove-IsKeyed k m h.1)
]

-- ===== src/Bench/Stats/Sorted.antt =====
-- `sort` sorts, and keeps how many samples lie on each side of a value.
use distributed_locking.Base.{
  ℕ, zero, suc, ◌+◌, ◌≤◌, ◌≡◌, refl, ap, ◌∙◌, some, List, [], ◌∷◌, length, get_elem?, leb, leb→le,
  All, inl, inr, Bool-cases, if◌then◌else◌, arith,
}
use distributed_locking.Bench.Stats.{insert_sorted, sort}

abbrev pub IsSorted : List ℕ → Type 0
IsSorted [] = Unit
IsSorted (x ∷ xs) = All (λ y. x ≤ y) xs × IsSorted xs

-- how many samples are at most, and at least, a value
abbrev pub count_le : ℕ → List ℕ → ℕ
count_le v [] = 0
count_le v (x ∷ xs) = (if leb x v then 1 else 0) + count_le v xs

abbrev pub count_ge : ℕ → List ℕ → ℕ
count_ge v [] = 0
count_ge v (x ∷ xs) = (if leb v x then 1 else 0) + count_ge v xs

All-le_trans : (x y : ℕ) (ys : List ℕ) → x ≤ y → All (λ z. y ≤ z) ys → All (λ z. x ≤ z) ys
All-le_trans x y [] h a = tt
All-le_trans x y (z ∷ zs) h a = (omega arith, All-le_trans x y zs h a.1)

All-insert_sorted :
    (b x : ℕ) (ys : List ℕ) → b ≤ x → All (λ z. b ≤ z) ys → All (λ z. b ≤ z) (insert_sorted x ys)
unfolding insert_sorted
All-insert_sorted b x [] h a = (h, tt)
All-insert_sorted b x (y ∷ ys) h a = elim (Bool-cases (leb x y)) [
  | inl first ↦ rw first (h, a)
  | inr later ↦ rw later (a.0, All-insert_sorted b x ys h a.1)
]

insert_sorted-IsSorted : (x : ℕ) (ys : List ℕ) → IsSorted ys → IsSorted (insert_sorted x ys)
unfolding insert_sorted
insert_sorted-IsSorted x [] s = (tt, tt)
insert_sorted-IsSorted x (y ∷ ys) s = elim (Bool-cases (leb x y)) [
  | inl first ↦ rw first ((leb→le x y first, All-le_trans x y ys (leb→le x y first) s.0), s)
  | inr later ↦
      rw later (All-insert_sorted y x ys (ground arith) s.0, insert_sorted-IsSorted x ys s.1)
]

pub sort-IsSorted : (xs : List ℕ) → IsSorted (sort xs)
unfolding sort
sort-IsSorted [] = tt
sort-IsSorted (x ∷ xs) = insert_sorted-IsSorted x (sort xs) (sort-IsSorted xs)

length-insert_sorted : (x : ℕ) (ys : List ℕ) → length (insert_sorted x ys) ≡ suc (length ys)
unfolding insert_sorted
length-insert_sorted x [] = refl
length-insert_sorted x (y ∷ ys) = ground (arith, length-insert_sorted x ys)

pub length-sort : (xs : List ℕ) → length (sort xs) ≡ length xs
unfolding sort
length-sort [] = refl
length-sort (x ∷ xs) = length-insert_sorted x (sort xs) ∙ ap suc (length-sort xs)

count_le-insert_sorted :
    (v x : ℕ) (ys : List ℕ) → count_le v (insert_sorted x ys) ≡ count_le v (x ∷ ys)
unfolding insert_sorted
count_le-insert_sorted v x [] = refl
count_le-insert_sorted v x (y ∷ ys) = ground (arith, count_le-insert_sorted v x ys)

pub count_le-sort : (v : ℕ) (xs : List ℕ) → count_le v (sort xs) ≡ count_le v xs
unfolding sort
count_le-sort v [] = refl
count_le-sort v (x ∷ xs) =
    count_le-insert_sorted v x (sort xs)
    ∙ ap (λ n. (if leb x v then 1 else 0) + n) (count_le-sort v xs)

count_ge-insert_sorted :
    (v x : ℕ) (ys : List ℕ) → count_ge v (insert_sorted x ys) ≡ count_ge v (x ∷ ys)
unfolding insert_sorted
count_ge-insert_sorted v x [] = refl
count_ge-insert_sorted v x (y ∷ ys) = ground (arith, count_ge-insert_sorted v x ys)

pub count_ge-sort : (v : ℕ) (xs : List ℕ) → count_ge v (sort xs) ≡ count_ge v xs
unfolding sort
count_ge-sort v [] = refl
count_ge-sort v (x ∷ xs) =
    count_ge-insert_sorted v x (sort xs)
    ∙ ap (λ n. (if leb v x then 1 else 0) + n) (count_ge-sort v xs)

-- in a sorted list, all elements in front of a place are at most what stands there, and those behind
-- it at least
le_of_All : (b : ℕ) (xs : List ℕ) (i v : ℕ) → All (λ z. b ≤ z) xs → get_elem? xs i ≡ some v → b ≤ v
le_of_All b [] i v a h = absurd (cc)
le_of_All b (x ∷ xs) zero v a h = ground arith
le_of_All b (x ∷ xs) (suc i) v a h = le_of_All b xs i v a.1 h

pub get_elem?-mono :
    (xs : List ℕ) (i j v w : ℕ)
    → IsSorted xs
    → i ≤ j
    → get_elem? xs i ≡ some v
    → get_elem? xs j ≡ some w
    → v ≤ w
get_elem?-mono [] i j v w s h p q = absurd (cc)
get_elem?-mono (x ∷ xs) zero zero v w s h p q = ground arith
get_elem?-mono (x ∷ xs) zero (suc j) v w s h p q =
    let e : x ≡ v = ground arith in rw e at (le_of_All x xs j w s.0 q)
get_elem?-mono (x ∷ xs) (suc i) zero v w s h p q = absurd (omega arith)
get_elem?-mono (x ∷ xs) (suc i) (suc j) v w s h p q =
    get_elem?-mono xs i j v w s.1 (omega arith) p q

pub count_le-get :
    (xs : List ℕ) (i v : ℕ) → IsSorted xs → get_elem? xs i ≡ some v → suc i ≤ count_le v xs
count_le-get [] i v s h = absurd (cc)
count_le-get (x ∷ xs) zero v s h = ground arith
count_le-get (x ∷ xs) (suc i) v s h =
    ground (arith, le_of_All x xs i v s.0 h, count_le-get xs i v s.1 h)

count_ge-All : (v : ℕ) (xs : List ℕ) → All (λ z. v ≤ z) xs → count_ge v xs ≡ length xs
count_ge-All v [] a = refl
count_ge-All v (x ∷ xs) a = ground (arith, count_ge-All v xs a.1)

pub count_ge-get :
    (xs : List ℕ) (i v : ℕ) → IsSorted xs → get_elem? xs i ≡ some v → length xs ≤ count_ge v xs + i
count_ge-get [] i v s h = absurd (cc)
count_ge-get (x ∷ xs) zero v s h =
    let e : x ≡ v = ground arith in ground (arith, rw e at (count_ge-All x xs s.0))
count_ge-get (x ∷ xs) (suc i) v s h = ground (arith, count_ge-get xs i v s.1 h)

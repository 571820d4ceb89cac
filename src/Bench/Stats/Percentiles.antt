-- ===== src/Bench/Stats/Percentiles.antt =====
-- What `percentileMs` and `maxMs` return of any samples.
use native.Mathlib.Nat.{div-le_of_le-mul}
use distributed_locking.Base.{
  ℕ, suc, ◌+◌, ◌-◌, ◌*◌, ◌≤◌, ◌<◌, ◌≡◌, refl, sym, ap, ◌∙◌, false, some, List, [], ◌∷◌, length,
  get_elem?, get_elem?-lt, nat_eq, arith,
}
use distributed_locking.Bench.Stats.{sort, rank, percentile_ms, max_from, max_ms}
use distributed_locking.Bench.Stats.Sorted.{
  count_le, count_ge, sort-IsSorted, length-sort, count_le-sort, count_ge-sort, get_elem?-mono,
  count_le-get, count_ge-get,
}

scaled_le : (a p : ℕ) → p ≤ 100 → a * p ≤ 100 * a
scaled_le a p h = grind arith

rank-lt : (n p : ℕ) → 0 < n → p ≤ 100 → rank n p < n
unfolding rank
rank-lt n p pos h = omega (arith, div-le_of_le-mul 100 (scaled_le (n - 1) p h))

suc-nonzero : (n : ℕ) → nat_eq (suc n) 0 ≡ false
suc-nonzero n = ground arith

-- the sample that a percentile picks
percentile-get :
    (samples : List ℕ) (p : ℕ)
    → 0 < length samples
    → percentile_ms samples p ≡ get_elem? (sort samples) (rank (length samples) p)
unfolding percentile_ms
percentile-get [] p pos = absurd (omega arith)
percentile-get (x ∷ xs) p pos =
    rw (suc-nonzero (length xs))
      (ap (λ n. get_elem? (sort (x ∷ xs)) (rank n p)) (length-sort (x ∷ xs)))

-- Of at least one sample, a percentile up to 100 picks one with more than `rank` samples at most as
-- large, and all but `rank` at least as large; the index is never out of range.
pub percentile_ms-rank :
    (samples : List ℕ) (p : ℕ)
    → 0 < length samples
    → p ≤ 100
    → (v : ℕ) × (percentile_ms samples p ≡ some v)
      × (rank (length samples) p < count_le v samples)
      × (length samples ≤ count_ge v samples + rank (length samples) p)
percentile_ms-rank samples p pos h =
    let i = rank (length samples) p in
    let (v, e) =
      get_elem?-lt (sort samples) i
        (omega (arith, length-sort samples, rank-lt (length samples) p pos h)) in
    (
      v,
      percentile-get samples p pos ∙ e,
      rw (count_le-sort v samples) at (count_le-get (sort samples) i v (sort-IsSorted samples) e),
      rw (length-sort samples, count_ge-sort v samples) at
          (count_ge-get (sort samples) i v (sort-IsSorted samples) e),
    )

rank_mono : (n p q : ℕ) → p ≤ q → rank n p ≤ rank n q
unfolding rank
rank_mono n p q h = grind arith

-- no sample: 0
none_taken : (p : ℕ) → percentile_ms [] p ≡ some 0
unfolding percentile_ms
none_taken p = refl

-- A higher percentile is never smaller: p50 ≤ p95 ≤ p99.
pub percentile_ms_mono :
    (samples : List ℕ) (p q v w : ℕ)
    → p ≤ q
    → percentile_ms samples p ≡ some v
    → percentile_ms samples q ≡ some w
    → v ≤ w
percentile_ms_mono [] p q v w h a b = let e = none_taken p in let f = none_taken q in ground arith
percentile_ms_mono (x ∷ xs) p q v w h a b =
    get_elem?-mono (sort (x ∷ xs)) (rank (length (x ∷ xs)) p) (rank (length (x ∷ xs)) q) v w
      (sort-IsSorted (x ∷ xs)) (rank_mono (length (x ∷ xs)) p q h)
      (sym (percentile-get (x ∷ xs) p (omega arith)) ∙ a)
      (sym (percentile-get (x ∷ xs) q (omega arith)) ∙ b)

count_le-le-length : (v : ℕ) (xs : List ℕ) → count_le v xs ≤ length xs
count_le-le-length v [] = omega arith
count_le-le-length v (x ∷ xs) = ground (arith, count_le-le-length v xs)

le-max_from : (m : ℕ) (xs : List ℕ) → m ≤ max_from m xs
unfolding max_from
le-max_from m [] = omega arith
le-max_from m (x ∷ xs) = ground (arith, le-max_from m xs, le-max_from x xs)

max_from-le : (m v : ℕ) (xs : List ℕ) → m ≤ v → length xs ≤ count_le v xs → max_from m xs ≤ v
unfolding max_from
max_from-le m v [] h all = h
max_from-le m v (x ∷ xs) h all =
    ground (arith, count_le-le-length v xs, max_from-le m v xs, max_from-le x v xs)

max_from-ge : (m v : ℕ) (xs : List ℕ) → 0 < count_ge v xs → v ≤ max_from m xs
unfolding max_from
max_from-ge m v [] h = absurd (omega arith)
max_from-ge m v (x ∷ xs) h =
    ground (arith, le-max_from m xs, le-max_from x xs, max_from-ge m v xs, max_from-ge x v xs)

rank_all : (n : ℕ) → rank n 100 ≡ n - 1
unfolding rank
rank_all n = omega arith

max_ms-nil : percentile_ms [] 100 ≡ some (max_ms [])
unfolding percentile_ms max_ms
max_ms-nil = refl

max_ms-cons : (samples : List ℕ) → 0 < length samples → max_ms samples ≡ max_from 0 samples
unfolding max_ms
max_ms-cons [] pos = absurd (omega arith)
max_ms-cons (x ∷ xs) pos = rw (suc-nonzero (length xs)) refl

-- a value with all samples below it and one above it is the maximum
max_ms-of_bounds :
    (v : ℕ) (samples : List ℕ)
    → 0 < length samples
    → rank (length samples) 100 < count_le v samples
    → length samples ≤ count_ge v samples + rank (length samples) 100
    → v ≡ max_ms samples
max_ms-of_bounds v samples pos low high =
    let e = rank_all (length samples) in
    omega (
      arith,
      e,
      max_ms-cons samples pos,
      max_from-le 0 v samples (omega arith) (omega (arith, e)),
      max_from-ge 0 v samples (omega (arith, e)),
    )

-- `maxMs` is the hundredth percentile.
pub max_ms-eq-percentile : (samples : List ℕ) → percentile_ms samples 100 ≡ some (max_ms samples)
max_ms-eq-percentile [] = max_ms-nil
max_ms-eq-percentile (x ∷ xs) =
    let (v, picked, low, high) = percentile_ms-rank (x ∷ xs) 100 (omega arith) (omega arith) in
    picked ∙ ap some (max_ms-of_bounds v (x ∷ xs) (omega arith) low high)

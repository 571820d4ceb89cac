-- ===== src/Bench/Stats.antt =====
-- benchmark/stats.go. Latencies are nanoseconds in ℕ (a duration measured by the monotonic clock is
-- not negative). A result in milliseconds is the sample divided by 10⁶, and is kept as the sample.
-- `int(float64(n-1) * p / 100.0)` is the quotient in ℕ: below 2⁵³ the product is exact, and a quotient
-- by 100 that is no integer is too far from one for its rounding to reach it.
pub mod Sorted
pub mod Percentiles
use distributed_locking.Base.{
  ℕ, zero, suc, ◌+◌, ◌-◌, ◌*◌, ◌/◌, Bool, true, false, Option, some, none, List, [], ◌∷◌, length,
  get_elem?, ltb, leb, nat_eq, if◌then◌else◌,
}

-- `sort.Slice` with `<`: the samples in increasing order
insert_sorted : ℕ → List ℕ → List ℕ
insert_sorted x [] = x ∷ []
insert_sorted x (y ∷ ys) = if leb x y then x ∷ y ∷ ys else y ∷ insert_sorted x ys

unfoldable pub sort : List ℕ → List ℕ
unfolding insert_sorted
sort [] = []
sort (x ∷ xs) = insert_sorted x (sort xs)

-- the index of a percentile among `n` sorted samples
unfoldable pub rank : ℕ → ℕ → ℕ
rank n p = (n - 1) * p / 100

-- `percentileMs`; `none` is an index out of range
unfoldable pub percentile_ms : List ℕ → ℕ → Option ℕ
unfolding rank
percentile_ms samples p =
    if nat_eq (length samples) 0
    then some 0
    else (let sorted = sort samples in get_elem? sorted (rank (length sorted) p))

-- the loop of `maxMs`
max_from : ℕ → List ℕ → ℕ
max_from m [] = m
max_from m (v ∷ vs) = max_from (if ltb m v then v else m) vs

unfoldable pub max_ms : List ℕ → ℕ
unfolding max_from
max_ms samples = if nat_eq (length samples) 0 then 0 else max_from 0 samples

-- what `isTimeout` looks for in an error's chain
pub record NetError : Type 0 where
  pub is_deadline_exceeded : Bool
  pub as_net_error : Option Bool  -- whether there is a `net.Error`, and its `Timeout()`

unfoldable pub is_timeout : NetError → Bool
is_timeout err =
    if err.is_deadline_exceeded
    then true
    else elim err.as_net_error [ none ↦ false | some timeout ↦ timeout ]

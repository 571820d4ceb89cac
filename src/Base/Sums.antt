-- ===== src/Base/Sums.antt =====
-- Families over ℕ changed at one place, and sums of weights below a bound.
use Prim.Native.Nat.{ℕ, zero, suc, ◌+◌, ◌≤◌, ◌<◌}
use mathlib.Core.Path.{◌≡◌, refl, ap, sym, ◌∙◌}
use mathlib.Core.Logic.{◌≢◌, inl, inr}
use native.Mathlib.Omega.{arith}
use native.Mathlib.Decide.{dec_lt, ℕ_discrete}
use distributed_locking.Base.Tests.{◌==◌, ==_iff, Bool-cases, if◌then◌else◌}

module _ {ℓ} {A : Type ℓ} where
  abbrev pub update : (ℕ → A) → ℕ → A → ℕ → A
  update f i a j = if i == j then a else f j

  pub update_self : (f : ℕ → A) (i j : ℕ) (a : A) → i ≡ j → update f i a j ≡ a
  update_self f i j a e = rw ((==_iff i j).1 e)

  pub update_other : (f : ℕ → A) (i j : ℕ) (a : A) → i ≢ j → update f i a j ≡ f j
  update_other f i j a ne = elim (Bool-cases (i == j)) [
    | inl same ↦ absurd (ne ((==_iff i j).0 same))
    | inr other ↦ rw other
  ]

pub sum_below : (ℕ → ℕ) → ℕ → ℕ
sum_below w zero = 0
sum_below w (suc n) = sum_below w n + w n

pub sum_below-same :
    (v w : ℕ → ℕ) (n : ℕ) → ((j : ℕ) → j < n → v j ≡ w j) → sum_below v n ≡ sum_below w n
unfolding sum_below
sum_below-same v w zero same = refl
sum_below-same v w (suc n) same =
    omega (arith, sum_below-same v w n (λ j lt. same j (omega arith)), same n (omega arith))

-- a change of one weight
pub sum_below-change :
    (v w : ℕ → ℕ) (i n : ℕ)
    → i < n
    → ((j : ℕ) → i ≢ j → v j ≡ w j)
    → sum_below v n + w i ≡ sum_below w n + v i
unfolding sum_below
sum_below-change v w i zero lt same = absurd (omega arith)
sum_below-change v w i (suc n) lt same = elim (ℕ_discrete i n) [
  | yes last ↦
      let front = sum_below-same v w n (λ j before. same j (λ e. absurd (omega arith))) in
      rw last (omega (arith, front))
  | no earlier ↦
      omega (arith, sum_below-change v w i n (omega (arith, earlier)) same, same n earlier)
]

pub weight_le : (w : ℕ → ℕ) (i n : ℕ) → i < n → w i ≤ sum_below w n
unfolding sum_below
weight_le w i zero lt = absurd (omega arith)
weight_le w i (suc n) lt = elim (ℕ_discrete i n) [
  | yes last ↦ rw last (omega arith)
  | no earlier ↦ omega (arith, weight_le w i n (omega (arith, earlier)))
]

pub weights_le : (w : ℕ → ℕ) (i j n : ℕ) → i ≢ j → i < n → j < n → w i + w j ≤ sum_below w n
unfolding sum_below
weights_le w i j zero ne hi hj = absurd (omega arith)
weights_le w i j (suc n) ne hi hj = elim (ℕ_discrete i n) [
  | yes last ↦
      let other = weight_le w j n (omega (arith, λ (e : j ≡ n). ne (last ∙ sym e))) in
      rw last (omega (arith, other))
  | no earlier ↦ elim (ℕ_discrete j n) [
    | yes last ↦
        let other = weight_le w i n (omega (arith, earlier)) in rw last (omega (arith, other))
    | no before ↦
        omega (arith, weights_le w i j n ne (omega (arith, earlier)) (omega (arith, before)))
  ]
]

-- a sum that is not 0 has a weight that is not
pub some_weight : (w : ℕ → ℕ) (n : ℕ) → 0 < sum_below w n → (j : ℕ) × (j < n) × (0 < w j)
unfolding sum_below
some_weight w zero pos = absurd (omega arith)
some_weight w (suc n) pos = elim (dec_lt 0 (w n)) [
  | yes here ↦ (n, omega arith, here)
  | no there ↦
      let (j, lt, found) = some_weight w n (omega (arith, there)) in (j, omega arith, found)
]

pub sum_below-zero : (w : ℕ → ℕ) (n : ℕ) → ((j : ℕ) → w j ≡ 0) → sum_below w n ≡ 0
unfolding sum_below
sum_below-zero w zero none_in = refl
sum_below-zero w (suc n) none_in = omega (arith, sum_below-zero w n none_in, none_in n)

pub sum_below_mono : (v w : ℕ → ℕ) (n : ℕ) → ((j : ℕ) → v j ≤ w j) → sum_below v n ≤ sum_below w n
unfolding sum_below
sum_below_mono v w zero le = omega arith
sum_below_mono v w (suc n) le = omega (arith, sum_below_mono v w n le, le n)

-- the weight of one member that changes
pub sum_below-update {ℓ} :
    {A : Type ℓ} (weight : A → ℕ) (f : ℕ → A) (i : ℕ) (a : A) (n : ℕ)
    → i < n
    → sum_below (λ j. weight (update f i a j)) n + weight (f i)
      ≡ sum_below (λ j. weight (f j)) n + weight a
sum_below-update weight f i a n lt =
    sum_below-change (λ j. weight (update f i a j)) (λ j. weight (f j)) i n lt
      (λ j ne. ap weight (update_other f i j a ne))
    ∙ ap (λ x. sum_below (λ j. weight (f j)) n + x) (ap weight (update_self f i i a refl))

-- ===== src/Bench/Cut/Orders.antt =====
-- Each worker is met once, in whatever order.
use mathlib.Core.Logic.{∥∥₁_elim}
use mathlib.Core.List.{Permᴰ}
use mathlib.Core.List.Permᴰ.{nil, cons, swap, trans}
use distributed_locking.Base.{ℕ, zero, suc, ◌≡◌, refl, ap, ◌∙◌, List, length}
use native.Mathlib.Nat.{ℕ_set}
use distributed_locking.Bench.Cut.{End, below}

length-permᴰ : (xs ys : List ℕ) → Permᴰ xs ys → length xs ≡ length ys
length-permᴰ _ _ nil = refl
length-permᴰ _ _ (cons {l₁ = xs} {l₂ = ys} p r) = ap suc (length-permᴰ xs ys r)
length-permᴰ _ _ (swap p q) = refl
length-permᴰ _ _ (trans {l₁ = xs} {l₂ = ys} {l₃ = zs} r t) =
    length-permᴰ xs ys r ∙ length-permᴰ ys zs t

length-below : (n : ℕ) → length (below n) ≡ n
length-below zero = refl
length-below (suc n) = ap suc (length-below n)

pub length-arrange : (last : End) (n : ℕ) → length (last.arrange (below n)) ≡ n
length-arrange last n =
    ∥∥₁_elim (last.arrange-perm (below n)) (ℕ_set _ _)
      (λ r. length-permᴰ (last.arrange (below n)) (below n) r)
    ∙ length-below n

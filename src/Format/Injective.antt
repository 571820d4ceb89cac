-- ===== src/Format/Injective.antt =====
-- Different numbers are printed differently: the digits that `decimal` writes can be read back.
use Prim.Native.Char.{code}
use Prim.Native.String.{◌++◌, len}
use text.Mathlib.TextPositions.{len-append}
use mathlib.Core.List.{◌++◌ as append}
use text.Mathlib.TextLemmas.{nil-append, cons-append, append_cancel_left}
use distributed_locking.Base.{
  ℕ, zero, suc, ◌+◌, ◌-◌, ◌*◌, ◌/◌, ◌%◌, ◌<◌, ◌≡◌, refl, sym, ap, ◌∙◌, String, List, [], ◌∷◌, ltb,
  inl, inr, Bool-cases, ltb→lt, ◌==◌, eq_iff, false, arith,
}
use distributed_locking.Format.{digit, digits, decimal}

abbrev codes : String → List ℕ
codes String.[] = []
codes (String.◌∷◌ c s) = code c ∷ codes s

codes-append : (s t : String) → codes (s ++ t) ≡ append (codes s) (codes t)
codes-append String.[] t = ap codes (nil-append t)
codes-append (String.◌∷◌ c s) t =
    ap codes (cons-append c s t) ∙ ap (λ l. code c ∷ l) (codes-append s t)

-- reading digits back, from the number that the digits before stand for
value : ℕ → List ℕ → ℕ
value n [] = n
value n (c ∷ cs) = value (n * 10 + (c - 48)) cs

value-append : (n : ℕ) (cs ds : List ℕ) → value n (append cs ds) ≡ value (value n cs) ds
unfolding value
value-append n [] ds = refl
value-append n (c ∷ cs) ds = value-append (n * 10 + (c - 48)) cs ds

codes-digit : (d : ℕ) → d < 10 → codes (digit d) ≡ (48 + d) ∷ []
unfolding digit
codes-digit zero h = refl
codes-digit (suc zero) h = refl
codes-digit (suc (suc zero)) h = refl
codes-digit (suc (suc (suc zero))) h = refl
codes-digit (suc (suc (suc (suc zero)))) h = refl
codes-digit (suc (suc (suc (suc (suc zero))))) h = refl
codes-digit (suc (suc (suc (suc (suc (suc zero)))))) h = refl
codes-digit (suc (suc (suc (suc (suc (suc (suc zero))))))) h = refl
codes-digit (suc (suc (suc (suc (suc (suc (suc (suc zero)))))))) h = refl
codes-digit (suc (suc (suc (suc (suc (suc (suc (suc (suc zero))))))))) h = refl
codes-digit (suc (suc (suc (suc (suc (suc (suc (suc (suc (suc n)))))))))) h = absurd (omega arith)

value-digit : (n d : ℕ) → d < 10 → value n (codes (digit d)) ≡ n * 10 + d
unfolding value
value-digit n d h = rw (codes-digit d h) (omega arith)

value-digits : (fuel n : ℕ) → n < fuel → value 0 (codes (digits fuel n)) ≡ n
unfolding digits
value-digits zero n h = absurd (omega arith)
value-digits (suc fuel) n h = elim (Bool-cases (ltb n 10)) [
  | inl small ↦ rw small (value-digit 0 n (ltb→lt n 10 small) ∙ omega arith)
  | inr large ↦
      let big : n / 10 < fuel = ground (arith) in
      rw large (
        rw (codes-append (digits fuel (n / 10)) (digit (n % 10))) (
          value-append 0 (codes (digits fuel (n / 10))) (codes (digit (n % 10)))
          ∙ value-digit _ (n % 10) (omega arith)
          ∙ omega (arith, value-digits fuel (n / 10) big)))
]

-- The text of a number determines it.
pub decimal-injective : (m n : ℕ) → decimal m ≡ decimal n → m ≡ n
unfolding decimal
decimal-injective m n e =
    sym (value-digits (suc m) m (omega arith))
    ∙ ap (λ s. value 0 (codes s)) e
    ∙ value-digits (suc n) n (omega arith)

-- so does the text behind a prefix
pub prefixed-injective :
    (prefix : String) (m n : ℕ) → prefix ++ decimal m ≡ prefix ++ decimal n → m ≡ n
prefixed-injective prefix m n e =
    decimal-injective m n (append_cancel_left prefix (decimal m) (decimal n) e)

-- and a text behind a prefix is not empty
pub prefixed-present :
    (prefix : String) (n : ℕ) → 0 < len prefix → (prefix ++ decimal n == "") ≡ false
prefixed-present prefix n pos = elim (Bool-cases (prefix ++ decimal n == "")) [
  | inl same ↦ absurd (
      omega
        (arith, len-append prefix (decimal n), ap len ((eq_iff (prefix ++ decimal n) "").0 same)))
  | inr other ↦ other
]

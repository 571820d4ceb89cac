-- ===== src/Spec/Laws.antt =====
-- Equality of the answers of the specification: tables are equal key by key.
use mathlib.Core.Path.{fun_ext}
use distributed_locking.Base.{◌≡◌, String}
use distributed_locking.Spec.{Table}

pub table_path₂ {ℓ κ} :
    {A : Type ℓ} {B : Type κ} {t u : Table} {a b : A} {c d : B}
    → ((key : String) → t key ≡ u key)
    → a ≡ b
    → c ≡ d
    → ◌≡◌ {A = Table × A × B} (t, a, c) (u, b, d)
table_path₂ h p q = λ i. (fun_ext h i, p i, q i)

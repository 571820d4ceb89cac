-- ===== src/Bench/Race/Owned.antt =====
-- Workers that share no key.
use distributed_locking.Base.{
  ℕ, ◌≡◌, ◌≢◌, ◌<◌, String, true, false, some, inl, inr, Bool-cases, get_elem?, length, nat_eq,
  ◌==◌, eq_iff, arith,
}
use distributed_locking.Http.Api.{is_missing}
use distributed_locking.Bench.Worker.{Worker, Phase}
use distributed_locking.Bench.Race.{Phases, move}

-- Every worker has a key, two workers have none in common, and all are texts that the API takes.
pub record IsPartition (workers : ℕ → Worker) : Type 0 where
  pub has_key : (a : ℕ) → 0 < length (workers a).keys
  pub apart :
      (a b i j : ℕ) (k l : String)
      → a ≢ b
      → get_elem? (workers a).keys i ≡ some k
      → get_elem? (workers b).keys j ≡ some l
      → k ≢ l
  pub present :
      (a i : ℕ) (k : String)
      → get_elem? (workers a).keys i ≡ some k
      → is_missing k (workers a).lockee ≡ false

module _ (workers : ℕ → Worker) where
  abbrev pub HasKey : ℕ → String → Type 0
  HasKey j k = (n : ℕ) × (get_elem? (workers j).keys n ≡ some k)

module _ (workers : ℕ → Worker) (part : IsPartition workers) where
  pub other_key :
      (a b : ℕ) (k l : String)
      → nat_eq a b ≡ false
      → HasKey workers a k
      → HasKey workers b l
      → (k == l) ≡ false
  other_key a b k l ne (i, p) (j, q) = elim (Bool-cases (k == l)) [
    | inl same ↦ absurd (part.apart a b i j k l (λ e. ground (arith)) p q ((eq_iff k l).0 same))
    | inr other ↦ other
  ]

  pub move_self :
      (phases : Phases) (j a : ℕ) (p : Phase) → nat_eq j a ≡ true → move phases j p a ≡ p
  move_self phases j a p same = rw same

  pub move_other :
      (phases : Phases) (j a : ℕ) (p : Phase) → nat_eq j a ≡ false → move phases j p a ≡ phases a
  move_other phases j a p other = rw other

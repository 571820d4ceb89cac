-- ===== src/Bench/Race/Mine.antt =====
-- A weaker form of ownership, which outlives a phase: a key of a worker may be left held by it.
use distributed_locking.Base.{
  ℕ, ◌≡◌, refl, sym, ◌∙◌, String, true, false, none, inl, inr, Bool-cases, nat_eq, nat_eq_iff, ◌==◌,
  eq_iff, eq_refl, arith,
}
use distributed_locking.Lock.{Time}
use distributed_locking.Spec
use distributed_locking.Bench.Worker.{Worker, Phase, releasing}
use distributed_locking.Bench.Race.{Phases, start, move}
use distributed_locking.Bench.Race.Owned.{IsPartition, HasKey, other_key, move_self, move_other}

-- A request for a key of a worker would be granted to it: the key is free, or the worker holds it.
pub record IsMine (workers : ℕ → Worker) (phases : Phases) (t : Spec.Table) : Type 0 where
  pub holds :
      (j i : ℕ) (k : String)
      → phases j ≡ releasing i k
      → HasKey workers j k × (Spec.is_held_by (workers j).lockee (t k) ≡ true)
  pub mine :
      (j : ℕ) (k : String) → HasKey workers j k → Spec.granted (t k) (workers j).lockee false ≡ true

-- a new phase: every loop starts again, and the locks stay
pub start-IsMine :
    (workers : ℕ → Worker) (phases : Phases) (t : Spec.Table)
    → IsMine workers phases t
    → IsMine workers start t
start-IsMine workers phases t own = record {
  holds = λ j i k e. absurd (cc);
  mine = λ j k has. own.mine j k has;
}

pub free-IsMine :
    (workers : ℕ → Worker) (t : Spec.Table)
    → ((j : ℕ) (k : String) → HasKey workers j k → t k ≡ none)
    → IsMine workers start t
free-IsMine workers t free = record {
  holds = λ j i k e. absurd (cc);
  mine = λ j k has. rw (free j k has) refl;
}

pub acquire-held :
    (t : Spec.Table) (key lockee : String) (now : Time)
    → Spec.granted (t key) lockee false ≡ true
    → Spec.is_held_by lockee ((Spec.acquire t key lockee false now).0 key) ≡ true
acquire-held t key lockee now h = ground (arith, eq_refl key, eq_refl lockee)

pub acquire-apart :
    (t : Spec.Table) (key lockee k : String) (now : Time)
    → (key == k) ≡ false
    → (Spec.acquire t key lockee false now).0 k ≡ t k
acquire-apart t key lockee k now h = ground arith

pub release-free :
    (t : Spec.Table) (key lockee : String)
    → Spec.is_held_by lockee (t key) ≡ true
    → (Spec.release t key lockee).0 key ≡ none
release-free t key lockee h = rw h (rw (eq_refl key) refl)

pub release-apart :
    (t : Spec.Table) (key lockee k : String)
    → (key == k) ≡ false
    → (Spec.release t key lockee).0 k ≡ t k
release-apart t key lockee k h = ground arith

module _ (workers : ℕ → Worker) (part : IsPartition workers) (phases : Phases) (t t' : Spec.Table)
    (j : ℕ) (key : String) (phase : Phase) (own : IsMine workers phases t)
    (has : HasKey workers j key) (same_elsewhere : (k : String) → (key == k) ≡ false → t' k ≡ t k)
    (granted : Spec.granted (t' key) (workers j).lockee false ≡ true)
    (held : (i : ℕ) (k : String)
      → phase ≡ releasing i k
      → (k ≡ key) × (Spec.is_held_by (workers j).lockee (t' key) ≡ true)) where
  holds_self :
      (a i : ℕ) (k : String)
      → a ≡ j
      → phase ≡ releasing i k
      → HasKey workers a k × (Spec.is_held_by (workers a).lockee (t' k) ≡ true)
  holds_self a i k self e = let (same, h) = held i k e in rw (self, same) (has, h)

  mine_self :
      (a : ℕ) (k : String)
      → a ≡ j
      → HasKey workers a k
      → Spec.granted (t' k) (workers a).lockee false ≡ true
  mine_self a k self has_k = elim (Bool-cases (key == k)) [
    | inl same ↦ let e : k ≡ key = sym ((eq_iff key k).0 same) in rw (self, e) granted
    | inr other ↦ rw (same_elsewhere k other) (own.mine a k has_k)
  ]

  -- one worker moves, and only the entry of its key changes
  pub move-IsMine : IsMine workers (move phases j phase) t'
  move-IsMine = record {
    holds = λ a i k e. elim (Bool-cases (nat_eq j a)) [
      | inl self ↦
          holds_self a i k (sym ((nat_eq_iff j a).0 self))
            (sym (move_self workers part phases j a phase self) ∙ e)
      | inr other ↦
          let (has_k, h) =
            own.holds a i k (sym (move_other workers part phases j a phase other) ∙ e) in
          (has_k, rw (same_elsewhere k (other_key workers part j a key k other has has_k)) h)
    ];
    mine = λ a k has_k. elim (Bool-cases (nat_eq j a)) [
      | inl self ↦ mine_self a k (sym ((nat_eq_iff j a).0 self)) has_k
      | inr other ↦
          rw (same_elsewhere k (other_key workers part j a key k other has has_k))
            (own.mine a k has_k)
    ];
  }

-- ===== src/Threads/Ready.antt =====
-- As long as a call has not returned, some goroutine is not held up by a mutex.
use distributed_locking.Base.{
  ℕ, zero, suc, [], ◌≤◌, ◌<◌, ◌≡◌, String, false, arith, inl, inr, ◌⊎◌, dec_lt, nat_eq,
}
use distributed_locking.Base.Sums.{sum_below, some_weight, weight_le, sum_below_mono}
use distributed_locking.Store.{in_order}
use distributed_locking.Threads.{
  Layout, key_of, Memory, Pc, waiting, inside, found, leaving, scanning, reading, ranging, gathered,
  returned, Advance, lock, look, put, unlock, rlock, range, read, read_last, runlock, all_read,
}
use distributed_locking.Threads.System.{System}
use distributed_locking.Threads.Exclusion.{
  one_if, one_if_le, flag-unset, writes_at, reads_at, IsCounted,
}

module _ (layout : Layout) (home : String → ℕ) where
  module _ (n : ℕ) where
    -- whether a goroutine waits in `mu.Lock()`, and whether it holds a mutex
    abbrev pub waits_at : ℕ → Pc → ℕ
    waits_at k (waiting w) = one_if (nat_eq (home (key_of w)) k)
    waits_at k _ = 0

    abbrev waits : Pc → ℕ
    waits (waiting w) = 1
    waits _ = 0

    abbrev holds : Pc → ℕ
    holds (waiting w) = 0
    holds (scanning k ls) = 0
    holds (returned a) = 0
    holds _ = 1

    -- whether a goroutine may make its access, where `RLock` also waits for those that wait in `Lock`
    abbrev pub IsReady : System → Pc → Type 0
    IsReady s (waiting w) =
        ((s.mem.mu (home (key_of w))).writer ≡ false) × ((s.mem.mu (home (key_of w))).readers ≡ 0)
    IsReady s (scanning k ls) =
        (layout.count ≤ k)
        ⊎ ((s.mem.mu k).writer ≡ false) × ((j : ℕ) → j < n → waits_at k (s.pc j) ≡ 0)
    IsReady s (returned a) = ⊥
    IsReady s _ = Unit

    abbrev pub HasReturned : Pc → Type 0
    HasReturned (returned a) = Unit
    HasReturned _ = ⊥

    pub ready-Advance :
        (s : System) (p : Pc)
        → IsReady s p
        → (m : Memory) × (p' : Pc) × Advance layout home s.mem p m p'
    ready-Advance s (waiting w) (free, none_in) = (_, _, lock free none_in)
    ready-Advance s (inside w) r = (_, _, look)
    ready-Advance s (found w existing) r = (_, _, put 0)
    ready-Advance s (leaving k a) r = (_, _, unlock)
    ready-Advance s (scanning k ls) (inl le) = (_, _, all_read le)
    ready-Advance s (scanning k ls) (inr (free, unwanted)) = elim (dec_lt k layout.count) [
      | yes lt ↦ (_, _, rlock lt free)
      | no ge ↦ (_, _, all_read (omega (arith, ge)))
    ]
    ready-Advance s (reading k ls) r = (_, _, range (in_order 0))
    ready-Advance s (ranging k ls got keys zero) r = (_, _, read_last)
    ready-Advance s (ranging k ls got keys (suc c)) r = (_, _, read [] keys)
    ready-Advance s (gathered k ls) r = (_, _, runlock)
    ready-Advance s (returned a) r = elim r [ ]

    holds-IsReady : (s : System) (p : Pc) → 0 < holds p → IsReady s p
    holds-IsReady s (waiting w) h = absurd (omega arith)
    holds-IsReady s (inside w) h = tt
    holds-IsReady s (found w existing) h = tt
    holds-IsReady s (leaving k a) h = tt
    holds-IsReady s (scanning k ls) h = absurd (omega arith)
    holds-IsReady s (reading k ls) h = tt
    holds-IsReady s (ranging k ls got keys c) h = tt
    holds-IsReady s (gathered k ls) h = tt
    holds-IsReady s (returned a) h = absurd (omega arith)

    writes_at_le : (k : ℕ) (p : Pc) → writes_at home k p ≤ holds p
    writes_at_le k (waiting w) = omega arith
    writes_at_le k (inside w) = one_if_le _
    writes_at_le k (found w existing) = one_if_le _
    writes_at_le k (leaving j a) = one_if_le _
    writes_at_le k (scanning j ls) = omega arith
    writes_at_le k (reading j ls) = omega arith
    writes_at_le k (ranging j ls got keys c) = omega arith
    writes_at_le k (gathered j ls) = omega arith
    writes_at_le k (returned a) = omega arith

    reads_at_le : (k : ℕ) (p : Pc) → reads_at home k p ≤ holds p
    reads_at_le k (waiting w) = omega arith
    reads_at_le k (inside w) = omega arith
    reads_at_le k (found w existing) = omega arith
    reads_at_le k (leaving j a) = omega arith
    reads_at_le k (scanning j ls) = omega arith
    reads_at_le k (reading j ls) = one_if_le _
    reads_at_le k (ranging j ls got keys c) = one_if_le _
    reads_at_le k (gathered j ls) = one_if_le _
    reads_at_le k (returned a) = omega arith

    waits_at_le : (k : ℕ) (p : Pc) → waits_at k p ≤ waits p
    waits_at_le k (waiting w) = one_if_le _
    waits_at_le k (inside w) = omega arith
    waits_at_le k (found w existing) = omega arith
    waits_at_le k (leaving j a) = omega arith
    waits_at_le k (scanning j ls) = omega arith
    waits_at_le k (reading j ls) = omega arith
    waits_at_le k (ranging j ls got keys c) = omega arith
    waits_at_le k (gathered j ls) = omega arith
    waits_at_le k (returned a) = omega arith

    module _ {s : System} (c : IsCounted home n s) where
      -- while nobody holds a mutex all are free
      unheld-free :
          (k : ℕ)
          → sum_below (λ j. holds (s.pc j)) n ≡ 0
          → ((s.mem.mu k).writer ≡ false) × ((s.mem.mu k).readers ≡ 0)
      unheld-free k none_in =
          let w =
            sum_below_mono (λ j. writes_at home k (s.pc j)) (λ j. holds (s.pc j)) n
              (λ j. writes_at_le k (s.pc j)) in
          let r =
            sum_below_mono (λ j. reads_at home k (s.pc j)) (λ j. holds (s.pc j)) n
              (λ j. reads_at_le k (s.pc j)) in
          (
            flag-unset (s.mem.mu k).writer (omega (arith, w, c.writer_count k, none_in)),
            omega (arith, r, c.reader_count k, none_in),
          )

      waits-IsReady : (p : Pc) → sum_below (λ j. holds (s.pc j)) n ≡ 0 → 0 < waits p → IsReady s p
      waits-IsReady (waiting w) none_in h = unheld-free (home (key_of w)) none_in
      waits-IsReady (inside w) none_in h = tt
      waits-IsReady (found w existing) none_in h = tt
      waits-IsReady (leaving k a) none_in h = tt
      waits-IsReady (scanning k ls) none_in h = absurd (omega arith)
      waits-IsReady (reading k ls) none_in h = tt
      waits-IsReady (ranging k ls got keys c) none_in h = tt
      waits-IsReady (gathered k ls) none_in h = tt
      waits-IsReady (returned a) none_in h = absurd (omega arith)

      idle-IsReady :
          (p : Pc)
          → sum_below (λ j. holds (s.pc j)) n ≡ 0
          → sum_below (λ j. waits (s.pc j)) n ≡ 0
          → HasReturned p ⊎ IsReady s p
      idle-IsReady (waiting w) none_in unwanted = inr (unheld-free (home (key_of w)) none_in)
      idle-IsReady (inside w) none_in unwanted = inr tt
      idle-IsReady (found w existing) none_in unwanted = inr tt
      idle-IsReady (leaving k a) none_in unwanted = inr tt
      idle-IsReady (scanning k ls) none_in unwanted = inr (
          inr (
            (unheld-free k none_in).0,
            λ j lt.
                omega
                  (arith, waits_at_le k (s.pc j), weight_le (λ a. waits (s.pc a)) j n lt, unwanted),
          ))
      idle-IsReady (reading k ls) none_in unwanted = inr tt
      idle-IsReady (ranging k ls got keys c) none_in unwanted = inr tt
      idle-IsReady (gathered k ls) none_in unwanted = inr tt
      idle-IsReady (returned a) none_in unwanted = inl tt

      -- as long as a goroutine has not returned, one is ready
      pub some-IsReady :
          (i : ℕ) → i < n → HasReturned (s.pc i) ⊎ ((j : ℕ) × (j < n) × IsReady s (s.pc j))
      some-IsReady i lt = elim (dec_lt 0 (sum_below (λ j. holds (s.pc j)) n)) [
        | yes held ↦
            let (j, j_lt, h) = some_weight (λ j. holds (s.pc j)) n held in
            inr (j, j_lt, holds-IsReady s (s.pc j) h)
        | no unheld ↦ elim (dec_lt 0 (sum_below (λ j. waits (s.pc j)) n)) [
          | yes wanted ↦
              let (j, j_lt, h) = some_weight (λ j. waits (s.pc j)) n wanted in
              inr (j, j_lt, waits-IsReady (s.pc j) (omega (arith, unheld)) h)
          | no unwanted ↦
              elim (idle-IsReady (s.pc i) (omega (arith, unheld)) (omega (arith, unwanted))) [
                | inl over ↦ inl over
                | inr ready ↦ inr (i, lt, ready)
              ]
        ]
      ]

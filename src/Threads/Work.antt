-- ===== src/Threads/Work.antt =====
-- Each access brings the end of the calls one nearer.
use distributed_locking.Base.{ℕ, suc, ◌<◌, ◌≤◌, ◌+◌, ◌-◌, ◌*◌, ◌≡◌, refl, ap, String, arith}
use distributed_locking.Base.Sums.{sum_below, sum_below-update}
use distributed_locking.Threads.{
  Layout, Memory, Pc, waiting, inside, found, leaving, scanning, reading, ranging, gathered,
  returned, Advance, lock, look, put, unlock, rlock, range, read, read_last, runlock, all_read,
}
use distributed_locking.Threads.System.{System, Call, init, Step, at, Run, start, next}
use distributed_locking.Threads.Steady.{IsFresh, IsSteady, Run-IsSteady}

module _ (layout : Layout) (home : String → ℕ) where
  -- the accesses to the maps from `k` on
  pub share : ℕ → ℕ
  share k = (layout.parts + 4) * (layout.count - k)

  share-next : (k : ℕ) → k < layout.count → share k ≡ share (suc k) + layout.parts + 4
  unfolding share
  share-next k lt =
      let e : layout.count - k ≡ suc (layout.count - suc k) = omega (arith, lt) in
      rw e (omega arith)

  share-over : (k : ℕ) → layout.count ≤ k → share k ≡ 0
  unfolding share
  share-over k le = let e : layout.count - k ≡ 0 = omega (arith, le) in rw e (omega arith)

  pub share-entry : share 0 ≡ (layout.parts + 4) * layout.count
  unfolding share
  share-entry =
      let e : layout.count - 0 ≡ layout.count = omega arith in ap (λ x. (layout.parts + 4) * x) e

  -- the accesses that a goroutine has yet to make
  abbrev pub work : Pc → ℕ
  work (waiting w) = 4
  work (inside w) = 3
  work (found w existing) = 2
  work (leaving k a) = 1
  work (scanning k ls) = share k + 1
  work (reading k ls) = share (suc k) + layout.parts + 4
  work (ranging k ls got keys c) = share (suc k) + c + 3
  work (gathered k ls) = share (suc k) + 2
  work (returned a) = 0

  Advance-work :
      {m : Memory} {m' : Memory} {p p' : Pc}
      → Advance layout home m p m' p'
      → IsFresh layout home m.maps p
      → work p ≡ suc (work p')
  Advance-work (lock free none_in) f = refl
  Advance-work look f = refl
  Advance-work (put now) f = refl
  Advance-work unlock f = refl
  Advance-work (rlock {k} lt free) f = omega (arith, share-next k lt)
  Advance-work (range {k} o) f = omega arith
  Advance-work (read {k} now later) f = omega arith
  Advance-work (read_last {k}) f = omega arith
  Advance-work (runlock {k}) f = omega arith
  Advance-work (all_read {k} le) f = omega (arith, share-over k le)

  module _ (n : ℕ) where
    -- the accesses that are left
    abbrev pub total_work : (ℕ → Pc) → ℕ
    total_work pc = sum_below (λ i. work (pc i)) n

    pub Step-work :
        {s t : System}
        → IsSteady layout home n s
        → Step layout home n s t
        → total_work s.pc ≡ suc (total_work t.pc)
    Step-work {s} v (at i {m} {p} lt a) =
        omega (arith, sum_below-update work s.pc i p n lt, Advance-work a (v.fresh i lt))

    -- the accesses made so far
    pub accesses : {calls : ℕ → Call} {s : System} → Run layout home n calls s → ℕ
    accesses start = 0
    accesses (next r st) = suc (accesses r)

    pub Run-work :
        {calls : ℕ → Call} {s : System} (r : Run layout home n calls s)
        → accesses r + total_work s.pc ≡ total_work (init calls).pc
    unfolding accesses
    Run-work start = omega arith
    Run-work (next r st) = omega (arith, Run-work r, Step-work (Run-IsSteady layout home n r) st)

-- ===== src/Bench/Cut/Counted.antt =====
-- The counters at the end of a phase, whatever the service does: one request more for each worker at
-- most.
use distributed_locking.Base.{
  ℕ, suc, ◌+◌, ◌<◌, ◌≤◌, ◌≡◌, refl, false, some, length, arith, List, [], ◌∷◌,
}
use distributed_locking.Validate.Client.{Server}
use distributed_locking.Bench.Worker.{
  Worker, Metrics, Phase, locking, releasing, post_lock, delete_lock, add_total, add_error,
}
use distributed_locking.Bench.Worker.Counts.{
  IsCounted, add_total-IsOpen, add_error-IsCounted, round_key,
}
use distributed_locking.Bench.Race.{Phases, move}
use distributed_locking.Bench.Cut.Orders.{length-arrange}
use distributed_locking.Bench.Cut.{
  Cut, before, unsent, sent, reached, End, below, cut_off, cut_each, cut_all,
}

-- the counters fit together, and at most `n` requests were added
abbrev pub Adds : ℕ → Metrics → Metrics → Type 0
Adds n m m' = IsCounted m' × (m.total ≤ m'.total) × (m'.total ≤ m.total + n)

pub given_up-Adds : (m : Metrics) → IsCounted m → Adds 1 m (add_error (add_total m))
unfolding add_error add_total
given_up-Adds m c =
    (add_error-IsCounted (add_total m) (add_total-IsOpen m c), omega arith, omega arith)

module _ (server : Server) (workers : ℕ → Worker)
    (has_key : (id : ℕ) → 0 < length (workers id).keys) where
  open server use {State}

  cut_off-Adds :
      (j : ℕ) (phase : Phase) (cut : Cut) (s : State) (m : Metrics)
      → IsCounted m
      → (p : Phase) × (s' : State) × (m' : Metrics) × (cut_off server (workers j) phase cut s m
          ≡ some (p, s', m'))
        × Adds 1 m m'
  unfolding cut_off
  cut_off-Adds j (locking i) before s m c = (locking i, s, m, refl, (c, omega arith, omega arith))
  cut_off-Adds j (locking i) unsent s m c =
      let (key, e) = round_key (workers j) i (has_key j) in
      (locking (suc i), s, add_error (add_total m), rw (e, cut_off) refl, given_up-Adds m c)
  cut_off-Adds j (locking i) sent s m c =
      let w = workers j in
      let (key, e) = round_key w i (has_key j) in
      (
        locking (suc i),
        (post_lock server key w.lockee false s).1,
        add_error (add_total m),
        rw (e, cut_off) refl,
        given_up-Adds m c,
      )
  cut_off-Adds j (releasing i key) cut s m c = (
    locking (suc i),
    reached server cut (delete_lock server key (workers j).lockee s).1 s,
    add_error (add_total m),
    refl,
    given_up-Adds m c,
  )

  cut_each-Adds :
      (cuts : ℕ → Cut) (ids : List ℕ) (phases : Phases) (s : State) (m : Metrics)
      → IsCounted m
      → (phases' : Phases) × (s' : State) × (m' : Metrics) × (cut_each server workers cuts ids
            phases s m
          ≡ some (phases', s', m'))
        × Adds (length ids) m m'
  unfolding cut_each
  cut_each-Adds cuts [] phases s m c = (phases, s, m, refl, (c, omega arith, omega arith))
  cut_each-Adds cuts (id ∷ ids) phases s m c =
      let (p, s1, m1, e, (c1, l1, u1)) = cut_off-Adds id (phases id) (cuts id) s m c in
      let (phases', s', m', e', (c', l', u')) =
        cut_each-Adds cuts ids (move phases id p) s1 m1 c1 in
      (phases', s', m', rw (e, cut_each) e', (c', omega (arith, l1, l'), omega (arith, u1, u')))

  pub cut_all-Adds :
      (last : End) (count : ℕ) (phases : Phases) (s : State) (m : Metrics)
      → IsCounted m
      → (phases' : Phases) × (s' : State) × (m' : Metrics) × (cut_all server workers last count
            phases s m
          ≡ some (phases', s', m'))
        × Adds count m m'
  unfolding cut_all
  cut_all-Adds last count phases s m c =
      let (phases', s', m', e, (c', l, u)) =
        cut_each-Adds last.cuts (last.arrange (below count)) phases s m c in
      (phases', s', m', e, (c', l, omega (arith, u, length-arrange last count)))

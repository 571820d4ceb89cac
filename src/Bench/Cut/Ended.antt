-- ===== src/Bench/Cut/Ended.antt =====
-- The end of a phase, for workers that share no key: what it costs each of them.
use distributed_locking.Base.{
  ℕ, suc, ◌+◌, ◌%◌, ◌≤◌, ◌≡◌, refl, ap, ◌∙◌, String, false, some, length, arith, List, [], ◌∷◌,
}
use distributed_locking.Spec
use distributed_locking.Store.{LockStore, LockStoreLaws}
use distributed_locking.Validate.Service.{Environment, service}
use distributed_locking.Bench.Worker.{
  Worker, Metrics, Phase, locking, releasing, add_total, add_error,
}
use distributed_locking.Bench.Worker.Counts.{round_key}
use distributed_locking.Bench.Race.{Phases, move}
use distributed_locking.Bench.Race.Owned.{IsPartition, HasKey}
use distributed_locking.Bench.Race.Requests.{post_lock-granted, delete_lock-released}
use distributed_locking.Bench.Race.Mine.{
  IsMine, move-IsMine, acquire-held, acquire-apart, release-free, release-apart,
}
use distributed_locking.Bench.Race.Kept.{held-granted}
use distributed_locking.Bench.Cut.Orders.{length-arrange}
use distributed_locking.Bench.Cut.{
  Cut, before, unsent, sent, End, below, cut_off, cut_each, cut_all,
}

-- one more error and one more request at most, and nothing else
abbrev pub Costs : ℕ → Metrics → Metrics → Type 0
Costs n m m' =
    (m.errors ≤ m'.errors)
    × (m'.errors ≤ m.errors + n)
    × (m'.total + m.errors ≡ m.total + m'.errors)
    × (m'.conflicts ≡ m.conflicts)
    × (m'.abort ≡ m.abort)

pub failed-Costs : (m : Metrics) → Costs 1 m (add_error (add_total m))
unfolding add_error add_total
failed-Costs m = (omega arith, omega arith, omega arith, refl, refl)

module _ (store : LockStore) (laws : LockStoreLaws store) (env : Environment) (workers : ℕ → Worker)
    (part : IsPartition workers) where
  open store use {State}
  open laws use {IsValid, view}

  abbrev Ends : Phases → ℕ → Cut → State → ℕ → Metrics → Type 0
  Ends phases j cut s n m =
      (p : Phase) × (s' : State) × (n' : ℕ) × (m' : Metrics) × (cut_off (service store env)
          (workers j) (phases j) cut (s, n) m
        ≡ some (p, (s', n'), m'))
      × IsValid s'
      × IsMine workers (move phases j p) (view s')
      × Costs 1 m m'

  -- a worker whose table does not change
  stay-IsMine :
      (phases : Phases) (j i : ℕ) (t : Spec.Table) (key : String)
      → IsMine workers phases t
      → HasKey workers j key
      → IsMine workers (move phases j (locking i)) t
  stay-IsMine phases j i t key own has =
      move-IsMine workers part phases t t j key (locking i) own has (λ k e. refl)
        (own.mine j key has) (λ a k q. absurd (cc))

  lock-Ends :
      (phases : Phases) (j i : ℕ) (cut : Cut) (s : State) (n : ℕ) (m : Metrics)
      → phases j ≡ locking i
      → IsValid s
      → IsMine workers phases (view s)
      → Ends phases j cut s n m
  unfolding cut_off
  lock-Ends phases j i before s n m here v own =
      let (key, e) = round_key (workers j) i (part.has_key j) in
      (
        locking i,
        s,
        n,
        m,
        rw here refl,
        v,
        stay-IsMine phases j i (view s) key own (i % length (workers j).keys, e),
        (omega arith, omega arith, refl, refl, refl),
      )
  lock-Ends phases j i unsent s n m here v own =
      let (key, e) = round_key (workers j) i (part.has_key j) in
      (
        locking (suc i),
        s,
        n,
        add_error (add_total m),
        rw (here, e, cut_off) refl,
        v,
        stay-IsMine phases j (suc i) (view s) key own (i % length (workers j).keys, e),
        failed-Costs m,
      )
  lock-Ends phases j i sent s n m here v own =
      let w = workers j in
      let (key, e) = round_key w i (part.has_key j) in
      let has : HasKey workers j key = (i % length w.keys, e) in
      let open_to = own.mine j key has in
      let held = acquire-held (view s) key w.lockee (env.clock n) open_to in
      let (s', handled, vs, p) =
        post_lock-granted store laws env s n key w.lockee v (part.present j _ key e) open_to in
      (
        locking (suc i),
        s',
        suc n,
        add_error (add_total m),
        rw (here, e, cut_off)
            (ap (λ r. some (locking (suc i), r.1, add_error (add_total m))) handled),
        vs,
        rw p (
            move-IsMine workers part phases (view s)
              (Spec.acquire (view s) key w.lockee false (env.clock n)).0 j key (locking (suc i)) own
              has (λ k. acquire-apart (view s) key w.lockee k (env.clock n))
              (held-granted _ w.lockee held) (λ a k q. absurd (cc))),
        failed-Costs m,
      )

  unlock-Ends :
      (phases : Phases) (j i : ℕ) (key : String) (cut : Cut) (s : State) (n : ℕ) (m : Metrics)
      → phases j ≡ releasing i key
      → IsValid s
      → IsMine workers phases (view s)
      → Ends phases j cut s n m
  unfolding cut_off
  unlock-Ends phases j i key before s n m here v own = (
    locking (suc i),
    s,
    n,
    add_error (add_total m),
    rw here refl,
    v,
    stay-IsMine phases j (suc i) (view s) key own (own.holds j i key here).0,
    failed-Costs m,
  )
  unlock-Ends phases j i key unsent s n m here v own = (
    locking (suc i),
    s,
    n,
    add_error (add_total m),
    rw here refl,
    v,
    stay-IsMine phases j (suc i) (view s) key own (own.holds j i key here).0,
    failed-Costs m,
  )
  unlock-Ends phases j i key sent s n m here v own =
      let w = workers j in
      let ((a, e), held) = own.holds j i key here in
      let (s', handled, vs, p) =
        delete_lock-released store laws env s n key w.lockee v (part.present j a key e) held in
      (
        locking (suc i),
        s',
        suc n,
        add_error (add_total m),
        rw (here, cut_off) (ap (λ r. some (locking (suc i), r.1, add_error (add_total m))) handled),
        vs,
        rw p (
            move-IsMine workers part phases (view s) (Spec.release (view s) key w.lockee).0 j key
              (locking (suc i)) own (a, e) (λ k. release-apart (view s) key w.lockee k)
              (rw (release-free (view s) key w.lockee held) refl) (λ b k q. absurd (cc))),
        failed-Costs m,
      )

  phase-Ends :
      (phases : Phases) (j : ℕ) (cut : Cut) (s : State) (n : ℕ) (m : Metrics) (phase : Phase)
      → phases j ≡ phase
      → IsValid s
      → IsMine workers phases (view s)
      → Ends phases j cut s n m
  phase-Ends phases j cut s n m (locking i) here v own = lock-Ends phases j i cut s n m here v own
  phase-Ends phases j cut s n m (releasing i key) here v own =
      unlock-Ends phases j i key cut s n m here v own

  cut_each-Costs :
      (cuts : ℕ → Cut) (ids : List ℕ) (phases : Phases) (s : State) (n : ℕ) (m : Metrics)
      → IsValid s
      → IsMine workers phases (view s)
      → (phases' : Phases) × (s' : State) × (n' : ℕ) × (m' : Metrics) × (cut_each
            (service store env)
            workers
            cuts
            ids
            phases
            (s, n)
            m
          ≡ some (phases', (s', n'), m'))
        × IsValid s'
        × IsMine workers phases' (view s')
        × Costs (length ids) m m'
  unfolding cut_each
  cut_each-Costs cuts [] phases s n m v own =
      (phases, s, n, m, refl, v, own, (omega arith, omega arith, refl, refl, refl))
  cut_each-Costs cuts (id ∷ ids) phases s n m v own =
      let (p, s1, n1, m1, e, v1, own1, (c0, c1, c2, c3, c4)) =
        phase-Ends phases id (cuts id) s n m (phases id) refl v own in
      let (phases', s', n', m', e', v', own', (d0, d1, d2, d3, d4)) =
        cut_each-Costs cuts ids (move phases id p) s1 n1 m1 v1 own1 in
      (
        phases',
        s',
        n',
        m',
        rw (e, cut_each) e',
        v',
        own',
        (omega (arith, c0, d0), omega (arith, c1, d1), omega (arith, c2, d2), d3 ∙ c3, d4 ∙ c4),
      )

  pub cut_all-Costs :
      (last : End) (count : ℕ) (phases : Phases) (s : State) (n : ℕ) (m : Metrics)
      → IsValid s
      → IsMine workers phases (view s)
      → (phases' : Phases) × (s' : State) × (n' : ℕ) × (m' : Metrics) × (cut_all
            (service store env)
            workers
            last
            count
            phases
            (s, n)
            m
          ≡ some (phases', (s', n'), m'))
        × IsValid s'
        × IsMine workers phases' (view s')
        × Costs count m m'
  unfolding cut_all
  cut_all-Costs last count phases s n m v own =
      let (phases', s', n', m', e, v', own', (c0, c1, c2, c3, c4)) =
        cut_each-Costs last.cuts (last.arrange (below count)) phases s n m v own in
      let each_once = length-arrange last count in
      (phases', s', n', m', e, v', own', (c0, omega (arith, c1, each_once), c2, c3, c4))

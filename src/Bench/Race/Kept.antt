-- ===== src/Bench/Race/Kept.antt =====
-- Workers with partitioned keys keep each to its own locks, over requests and phases.
use distributed_locking.Base.{
  ℕ, suc, ◌+◌, ◌%◌, ◌≡◌, refl, ◌∙◌, String, true, false, Option, List, [], ◌∷◌, String, some,
  length, arith,
}
use distributed_locking.Lock.{Lock}
use distributed_locking.Spec
use distributed_locking.Store.{LockStore, LockStoreLaws}
use distributed_locking.Validate.Service.{Environment, service}
use distributed_locking.Bench.Worker.{
  Worker, Metrics, Try, Phase, locking, releasing, send_latency, add_total, advance,
}
use distributed_locking.Bench.Worker.Counts.{round_key}
use distributed_locking.Bench.Race.{Phases, move}
use distributed_locking.Bench.Race.Requests.{
  Clean, send_latency-Clean, advance-post, advance-delete, post_lock-granted, delete_lock-released,
}
use distributed_locking.Bench.Race.{run_schedule}
use distributed_locking.Bench.Race.Owned.{IsPartition, HasKey}
use distributed_locking.Bench.Race.Mine.{
  IsMine, acquire-held, acquire-apart, release-free, release-apart, move-IsMine,
}

pub held-granted :
    (entry : Option Lock) (lockee : String)
    → Spec.is_held_by lockee entry ≡ true
    → Spec.granted entry lockee false ≡ true
held-granted entry lockee h = ground arith

module _ (store : LockStore) (laws : LockStoreLaws store) (env : Environment) (workers : ℕ → Worker)
    (part : IsPartition workers) where
  open store use {State}
  open laws use {IsValid, view}

  abbrev pub Kept : Phases → ℕ → Try → State → ℕ → Metrics → Type 0
  Kept phases j t s n m =
      (p : Phase) × (s' : State) × (m' : Metrics) × (advance (service store env) (workers j)
          (phases j) t (s, n) m
        ≡ some (p, (s', suc n), m'))
      × IsValid s'
      × IsMine workers (move phases j p) (view s')
      × Clean m m'

  lock-Kept :
      (phases : Phases) (j i : ℕ) (t : Try) (s : State) (n : ℕ) (m : Metrics)
      → phases j ≡ locking i
      → IsValid s
      → IsMine workers phases (view s)
      → Kept phases j t s n m
  lock-Kept phases j i t s n m here v own =
      let w = workers j in
      let (key, e) = round_key w i (part.has_key j) in
      let has : HasKey workers j key = (i % length w.keys, e) in
      let open_to = own.mine j key has in
      let held = acquire-held (view s) key w.lockee (env.clock n) open_to in
      let (s', sent, vs, p) =
        post_lock-granted store laws env s n key w.lockee v (part.present j _ key e) open_to in
      (
        releasing i key,
        s',
        send_latency t.elapsed (add_total m),
        rw here (advance-post (service store env) w i key t (s, n) (s', suc n) m e sent),
        vs,
        rw p (
            move-IsMine workers part phases (view s)
              (Spec.acquire (view s) key w.lockee false (env.clock n)).0 j key (releasing i key) own
              has (λ k. acquire-apart (view s) key w.lockee k (env.clock n))
              (held-granted _ w.lockee held) (λ a k q. (ground arith, held))),
        send_latency-Clean t.elapsed m,
      )

  unlock-Kept :
      (phases : Phases) (j i : ℕ) (key : String) (t : Try) (s : State) (n : ℕ) (m : Metrics)
      → phases j ≡ releasing i key
      → IsValid s
      → IsMine workers phases (view s)
      → Kept phases j t s n m
  unlock-Kept phases j i key t s n m here v own =
      let w = workers j in
      let ((a, e), held) = own.holds j i key here in
      let (s', sent, vs, p) =
        delete_lock-released store laws env s n key w.lockee v (part.present j a key e) held in
      (
        locking (suc i),
        s',
        send_latency t.elapsed (add_total m),
        rw here (advance-delete (service store env) w i key t (s, n) (s', suc n) m sent),
        vs,
        rw p (
            move-IsMine workers part phases (view s) (Spec.release (view s) key w.lockee).0 j key
              (locking (suc i)) own (a, e) (λ k. release-apart (view s) key w.lockee k)
              (rw (release-free (view s) key w.lockee held) refl) (λ b k q. absurd (cc))),
        send_latency-Clean t.elapsed m,
      )

  pub phase-Kept :
      (phases : Phases) (j : ℕ) (t : Try) (s : State) (n : ℕ) (m : Metrics) (phase : Phase)
      → phases j ≡ phase
      → IsValid s
      → IsMine workers phases (view s)
      → Kept phases j t s n m
  phase-Kept phases j t s n m (locking i) here v own = lock-Kept phases j i t s n m here v own
  phase-Kept phases j t s n m (releasing i key) here v own =
      unlock-Kept phases j i key t s n m here v own

  pub run_schedule-IsMine :
      (schedule : List (ℕ × Try)) (phases : Phases) (s : State) (n : ℕ) (m : Metrics)
      → IsValid s
      → IsMine workers phases (view s)
      → (phases' : Phases) × (s' : State) × (n' : ℕ) × (m' : Metrics) × (run_schedule
            (service store env)
            workers
            schedule
            phases
            (s, n)
            m
          ≡ some (phases', (s', n'), m'))
        × IsValid s'
        × IsMine workers phases' (view s')
        × (m'.errors ≡ m.errors)
        × (m'.conflicts ≡ m.conflicts)
        × (m'.abort ≡ m.abort)
        × (m'.total ≡ m.total + length schedule)
  unfolding run_schedule
  run_schedule-IsMine [] phases s n m v own =
      (phases, s, n, m, refl, v, own, refl, refl, refl, omega arith)
  run_schedule-IsMine ((j, t) ∷ rest) phases s n m v own =
      let (p, s1, m1, e, v1, own1, (errs, confl, tot, quiet)) =
        phase-Kept phases j t s n m (phases j) refl v own in
      let (phases', s', n', m', e', v', own', errs', confl', quiet', tot') =
        run_schedule-IsMine rest (move phases j p) s1 (suc n) m1 v1 own1 in
      (
        phases',
        s',
        n',
        m',
        rw (e, run_schedule) e',
        v',
        own',
        errs' ∙ errs,
        confl' ∙ confl,
        quiet' ∙ quiet,
        omega (arith, tot, tot'),
      )

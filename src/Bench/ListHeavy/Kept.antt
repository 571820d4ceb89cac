-- ===== src/Bench/ListHeavy/Kept.antt =====
-- A phase of list_heavy against a lawful lock store: the writers' locks stay their own, and its end
-- costs each writer and reader one error at most.
use distributed_locking.Base.{
  ℕ, zero, suc, ◌+◌, ◌≤◌, ◌≡◌, refl, ap, ◌∙◌, String, false, none, some, List, [], ◌∷◌, length,
  arith,
}
use distributed_locking.Spec
use distributed_locking.Store.{LockStore, LockStoreLaws}
use distributed_locking.Http.Api.{is_missing}
use distributed_locking.Http.Messages.{write_json}
use distributed_locking.Http.Handlers.{route, without_body}
use distributed_locking.Format.Injective.{prefixed-present}
use distributed_locking.Validate.Client.{locks_message}
use distributed_locking.Validate.Reads.{after-locks_message}
use distributed_locking.Validate.Service.{Environment, service, round_trip_lem}
use distributed_locking.Bench.Keys.{key_name}
use distributed_locking.Bench.Keys.Disjoint.{make_keys-apart, length-make_keys, make_keys-names}
use distributed_locking.Bench.Worker.{
  Metrics, Try, status_code, read_code, add_total, add_error, send_latency,
}
use distributed_locking.Bench.Race.{Phases, start, move}
use distributed_locking.Bench.Race.Owned.{IsPartition, HasKey}
use distributed_locking.Bench.Race.Requests.{Clean, send_latency-Clean}
use distributed_locking.Bench.Race.Mine.{IsMine, start-IsMine}
use distributed_locking.Bench.Race.Kept.{phase-Kept}
use distributed_locking.Bench.Race.Partition.{key_name-present}
use distributed_locking.Bench.Cut.{Cut, before, unsent, sent}
use distributed_locking.Bench.Cut.Ended.{Costs, failed-Costs, cut_all-Costs}
use distributed_locking.Bench.ListHeavy.{
  Actor, writer, reader, Ends, build_writer, key_pool, writers, readers, after_list, poll_locks,
  run_actors, cut_reader, cut_readers, run_list_phase,
}

writer-present :
    (a : ℕ) (k : String) → (m : ℕ) × (k ≡ key_name m) → is_missing k (build_writer a).lockee ≡ false
unfolding build_writer
writer-present a k (m, named) =
    rw (named, key_name-present m) (prefixed-present "writer-" a (omega arith))

pub build_writer-IsPartition : IsPartition build_writer
unfolding build_writer
build_writer-IsPartition = record {
  has_key = λ a. length-make_keys a key_pool writers;
  apart = λ a b i j k l. make_keys-apart key_pool writers a b i j k l;
  present = λ a i k e. writer-present a k (make_keys-names a key_pool writers i k e);
}

pub pool_free :
    (t : Spec.Table)
    → ((i : ℕ) → t (key_name i) ≡ none)
    → (j : ℕ) (k : String) → HasKey build_writer j k
    → t k ≡ none
unfolding build_writer
pool_free t free j k (i, e) =
    let (m, named) = make_keys-names j key_pool writers i k e in ap t named ∙ free m

module _ (store : LockStore) (laws : LockStoreLaws store) (env : Environment) where
  open store use {State}
  open laws use {IsValid, view}

  -- a reader's request is answered, and leaves the table alone
  poll_locks-Clean :
      (t : Try) (s : State) (n : ℕ) (m : Metrics)
      → IsValid s
      → (s' : State) × (m' : Metrics) × (poll_locks (service store env) t (s, n) m
          ≡ ((s', suc n), m'))
        × IsValid s'
        × (view s' ≡ view s)
        × Clean m m'
  unfolding poll_locks read_code after_list route locks_message without_body write_json
  poll_locks-Clean t s n m v =
      let (s', w, e, v', p, (ls, is, a)) = round_trip_lem store laws env s n locks_message v in
      (
        s',
        send_latency t.elapsed (add_total m),
        ap (λ r. (r.1, after_list t (read_code r.0) (add_total m))) e
            ∙ ap (λ code. ((s', suc n), after_list t (status_code code) (add_total m)))
                (ap (λ x. x.status) a),
        v',
        p ∙ after-locks_message (view s) (env.clock n),
        send_latency-Clean t.elapsed m,
      )

  -- the course of a phase: the writers' locks stay their own, and every request is counted
  abbrev Runs : List (Actor × Try) → Phases → State → ℕ → Metrics → Type 0
  Runs requests phases s n m =
      (phases' : Phases) × (s' : State) × (n' : ℕ) × (m' : Metrics) × (run_actors
          (service store env) requests phases (s, n) m
        ≡ some (phases', (s', n'), m'))
      × IsValid s'
      × IsMine build_writer phases' (view s')
      × (m'.errors ≡ m.errors)
      × (m'.conflicts ≡ m.conflicts)
      × (m'.abort ≡ m.abort)
      × (m'.total ≡ m.total + length requests)

  run_actors-Runs :
      (requests : List (Actor × Try)) (phases : Phases) (s : State) (n : ℕ) (m : Metrics)
      → IsValid s
      → IsMine build_writer phases (view s)
      → Runs requests phases s n m
  unfolding run_actors
  run_actors-Runs [] phases s n m v own =
      (phases, s, n, m, refl, v, own, refl, refl, refl, omega arith)
  run_actors-Runs ((writer id, t) ∷ rest) phases s n m v own =
      let (p, s1, m1, e, v1, own1, (errs, confl, tot, quiet)) =
        phase-Kept store laws env build_writer build_writer-IsPartition phases id t s n m
          (phases id) refl v own in
      let (phases', s', n', m', e', v', own', errs', confl', quiet', tot') =
        run_actors-Runs rest (move phases id p) s1 (suc n) m1 v1 own1 in
      (
        phases',
        s',
        n',
        m',
        rw (e, run_actors) e',
        v',
        own',
        errs' ∙ errs,
        confl' ∙ confl,
        quiet' ∙ quiet,
        omega (arith, tot, tot'),
      )
  run_actors-Runs ((reader, t) ∷ rest) phases s n m v own =
      let (s1, m1, e, v1, same, (errs, confl, tot, quiet)) = poll_locks-Clean t s n m v in
      let own1 : IsMine build_writer phases (view s1) = rw same own in
      let (phases', s', n', m', e', v', own', errs', confl', quiet', tot') =
        run_actors-Runs rest phases s1 (suc n) m1 v1 own1 in
      (
        phases',
        s',
        n',
        m',
        ap (λ r. run_actors (service store env) rest phases r.0 r.1) e ∙ e',
        v',
        own',
        errs' ∙ errs,
        confl' ∙ confl,
        quiet' ∙ quiet,
        omega (arith, tot, tot'),
      )

  -- the end of a phase costs a reader one error, and leaves the table alone
  abbrev Spares : Cut → State → ℕ → Metrics → Type 0
  Spares cut s n m =
      (s' : State) × (n' : ℕ) × (m' : Metrics) × (cut_reader (service store env) cut (s, n) m
        ≡ ((s', n'), m'))
      × IsValid s'
      × (view s' ≡ view s)
      × Costs 1 m m'

  cut_reader-Spares : (cut : Cut) (s : State) (n : ℕ) (m : Metrics) → IsValid s → Spares cut s n m
  unfolding cut_reader
  cut_reader-Spares before s n m v =
      (s, n, m, refl, v, refl, (omega arith, omega arith, refl, refl, refl))
  cut_reader-Spares unsent s n m v = (s, n, add_error (add_total m), refl, v, refl, failed-Costs m)
  cut_reader-Spares sent s n m v =
      let (s', w, e, v', p, rest) = round_trip_lem store laws env s n locks_message v in
      (
        s',
        suc n,
        add_error (add_total m),
        ap (λ r. (r.1, add_error (add_total m))) e,
        v',
        p ∙ after-locks_message (view s) (env.clock n),
        failed-Costs m,
      )

  cut_readers-Costs :
      (cuts : ℕ → Cut) (count : ℕ) (s : State) (n : ℕ) (m : Metrics)
      → IsValid s
      → (s' : State) × (n' : ℕ) × (m' : Metrics) × (cut_readers
            (service store env)
            cuts
            count
            (s, n)
            m
          ≡ ((s', n'), m'))
        × IsValid s'
        × (view s' ≡ view s)
        × Costs count m m'
  unfolding cut_readers
  cut_readers-Costs cuts zero s n m v =
      (s, n, m, refl, v, refl, (omega arith, omega arith, refl, refl, refl))
  cut_readers-Costs cuts (suc count) s n m v =
      let (s1, n1, m1, e, v1, same, (c0, c1, c2, c3, c4)) =
        cut_reader-Spares (cuts count) s n m v in
      let (s', n', m', e', v', same', (d0, d1, d2, d3, d4)) =
        cut_readers-Costs cuts count s1 n1 m1 v1 in
      (
        s',
        n',
        m',
        ap (λ r. cut_readers (service store env) cuts count r.0 r.1) e ∙ e',
        v',
        same' ∙ same,
        (omega (arith, c0, d0), omega (arith, c1, d1), omega (arith, c2, d2), d3 ∙ c3, d4 ∙ c4),
      )

  pub run_list_phase-IsMine :
      (requests : List (Actor × Try)) (ends : Ends) (s : State) (n : ℕ) (m : Metrics)
      → IsValid s
      → IsMine build_writer start (view s)
      → (s' : State) × (n' : ℕ) × (m' : Metrics) × (run_list_phase
            (service store env)
            requests
            ends
            (s, n)
            m
          ≡ some ((s', n'), m'))
        × IsValid s'
        × IsMine build_writer start (view s')
        × (m'.conflicts ≡ m.conflicts)
        × (m'.abort ≡ m.abort)
        × (m'.errors ≤ m.errors + 25)
        × (m'.total + m.errors ≡ m.total + length requests + m'.errors)
  unfolding run_list_phase
  run_list_phase-IsMine requests ends s n m v own =
      let (phases, s1, n1, m1, e1, v1, own1, errs, confl, quiet, tot) =
        run_actors-Runs requests start s n m v own in
      let (phases', s2, n2, m2, e2, v2, own2, (c0, c1, c2, c3, c4)) =
        cut_all-Costs store laws env build_writer build_writer-IsPartition ends.writers_end writers
          phases s1 n1 m1 v1 own1 in
      let (s', n', m', e', v', same, (d0, d1, d2, d3, d4)) =
        cut_readers-Costs ends.reader_cuts readers s2 n2 m2 v2 in
      (
        s',
        n',
        m',
        rw (e1, run_list_phase, e2) (ap some e'),
        v',
        rw same (start-IsMine build_writer phases' (view s2) own2),
        d3 ∙ (c3 ∙ confl),
        d4 ∙ (c4 ∙ quiet),
        omega (arith, d1, c1, errs),
        omega (arith, d2, c2, errs, tot),
      )

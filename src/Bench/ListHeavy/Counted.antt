-- ===== src/Bench/ListHeavy/Counted.antt =====
-- The result of list_heavy, whatever the service does.
use distributed_locking.Base.{
  ℕ, zero, suc, ◌+◌, ◌<◌, ◌≤◌, ◌≡◌, refl, Option, none, some, List, [], ◌∷◌, length, ltb, arith,
  inl, inr, Bool-cases, Option-cases,
}
use distributed_locking.Validate.Client.{Server, locks_message}
use distributed_locking.Bench.Keys.Disjoint.{length-make_keys}
use distributed_locking.Bench.Worker.{
  Metrics, new_metrics, Cause, Try, Reply, read_code, failed, status_code, add_total, add_error,
}
use distributed_locking.Bench.Worker.Counts.{
  IsCounted, IsOpen, add_total-IsOpen, add_error-IsCounted, fail_request-IsCounted,
  fail_request-total, send_latency-IsCounted, send_latency-counters, advance-IsCounted,
}
use distributed_locking.Bench.Race.{Phases, start, move}
use distributed_locking.Bench.Cut.{Cut, before, unsent, sent}
use distributed_locking.Bench.Cut.Counted.{Adds, given_up-Adds, cut_all-Adds}
use distributed_locking.Bench.Scenario.{
  ScenarioResult, no_result, check_leaked_locks, reset, Report,
}
use distributed_locking.Bench.Scenario.Sound.{
  IsSound, make_result-IsSound, no_result-IsSound, new_metrics-IsCounted, reset-IsCounted,
}
use distributed_locking.Bench.ListHeavy.{
  build_writer, after_list, Actor, writer, reader, Ends, Course, poll_locks, run_actors, cut_reader,
  cut_readers, run_list_phase, writers, readers, measure_list, run_list_heavy,
}

after_list-IsCounted :
    (t : Try) (reply : Reply) (m : Metrics) → IsOpen m → IsCounted (after_list t reply m)
unfolding after_list
after_list-IsCounted t failed m c = fail_request-IsCounted "GET /locks" t m c
after_list-IsCounted t (status_code code) m c =
    ground (arith, (send_latency-IsCounted t.elapsed m c).0, add_error-IsCounted m c)

after_list-total :
    (t : Try) (reply : Reply) (m : Metrics) → (after_list t reply (add_total m)).total ≡ m.total + 1
unfolding after_list add_total add_error
after_list-total t failed m = fail_request-total "GET /locks" t (add_total m)
after_list-total t (status_code code) m =
    ground (arith, send_latency-counters t.elapsed (add_total m))

writer-has_key : (id : ℕ) → 0 < length (build_writer id).keys
unfolding build_writer
writer-has_key id = length-make_keys id 1000 20

-- what a report says: nothing of an aborted run, else a count of all measured requests and of those
-- given up at the end, one for each writer and reader at most
abbrev pub CoversList : Course → ScenarioResult × Option Cause → Type 0
CoversList course (r, none) =
    (length course.requests ≤ r.requests_total) × (r.requests_total ≤ length course.requests + 25)
CoversList course (r, some cause) = r ≡ no_result "list_heavy"

module _ (server : Server) where
  open server use {State}

  poll_locks-IsCounted :
      (t : Try) (s : State) (m : Metrics)
      → IsCounted m
      → IsCounted (poll_locks server t s m).1 × ((poll_locks server t s m).1.total ≡ m.total + 1)
  unfolding poll_locks
  poll_locks-IsCounted t s m c =
      let reply = read_code (server.round_trip s locks_message).0 in
      (
        after_list-IsCounted t reply (add_total m) (add_total-IsOpen m c),
        after_list-total t reply m,
      )

  run_actors-IsCounted :
      (schedule : List (Actor × Try)) (phases : Phases) (s : State) (m : Metrics)
      → IsCounted m
      → (phases' : Phases) × (s' : State) × (m' : Metrics) × (run_actors server schedule phases s m
          ≡ some (phases', s', m'))
        × IsCounted m'
        × (m'.total ≡ m.total + length schedule)
  unfolding run_actors
  run_actors-IsCounted [] phases s m c = (phases, s, m, refl, c, omega arith)
  run_actors-IsCounted ((writer j, t) ∷ rest) phases s m c =
      let (p, s1, m1, e, c1, n1) =
        advance-IsCounted server (build_writer j) (writer-has_key j) (phases j) t s m c in
      let (phases', s', m', e', c', n') = run_actors-IsCounted rest (move phases j p) s1 m1 c1 in
      (phases', s', m', rw (e, run_actors) e', c', omega (arith, n1, n'))
  run_actors-IsCounted ((reader, t) ∷ rest) phases s m c =
      let (s1, m1) = poll_locks server t s m in
      let (c1, n1) = poll_locks-IsCounted t s m c in
      let (phases', s', m', e', c', n') = run_actors-IsCounted rest phases s1 m1 c1 in
      (phases', s', m', e', c', omega (arith, n1, n'))

  cut_reader-Adds :
      (cut : Cut) (s : State) (m : Metrics) → IsCounted m → Adds 1 m (cut_reader server cut s m).1
  unfolding cut_reader
  cut_reader-Adds before s m c = (c, omega arith, omega arith)
  cut_reader-Adds unsent s m c = given_up-Adds m c
  cut_reader-Adds sent s m c = given_up-Adds m c

  cut_readers-Adds :
      (cuts : ℕ → Cut) (n : ℕ) (s : State) (m : Metrics)
      → IsCounted m
      → Adds n m (cut_readers server cuts n s m).1
  unfolding cut_readers
  cut_readers-Adds cuts zero s m c = (c, omega arith, omega arith)
  cut_readers-Adds cuts (suc n) s m c =
      let (s1, m1) = cut_reader server (cuts n) s m in
      let (c1, l1, u1) = cut_reader-Adds (cuts n) s m c in
      let (c', l', u') = cut_readers-Adds cuts n s1 m1 c1 in
      (c', omega (arith, l1, l'), omega (arith, u1, u'))

  run_list_phase-IsCounted :
      (requests : List (Actor × Try)) (ends : Ends) (s : State) (m : Metrics)
      → IsCounted m
      → (s' : State) × (m' : Metrics) × (run_list_phase server requests ends s m ≡ some (s', m'))
        × IsCounted m'
        × (m.total + length requests ≤ m'.total)
        × (m'.total ≤ m.total + length requests + 25)
  unfolding run_list_phase
  run_list_phase-IsCounted requests ends s m c =
      let (phases, s1, m1, e1, c1, n1) = run_actors-IsCounted requests start s m c in
      let (phases', s2, m2, e2, (c2, l2, u2)) =
        cut_all-Adds server build_writer writer-has_key ends.writers_end writers phases s1 m1 c1 in
      let (s', m') = cut_readers server ends.reader_cuts readers s2 m2 in
      let (c', l', u') = cut_readers-Adds ends.reader_cuts readers s2 m2 c2 in
      (
        s',
        m',
        rw (e1, run_list_phase, e2) refl,
        c',
        omega (arith, n1, l2, l'),
        omega (arith, n1, u2, u'),
      )

  measure_list-IsSound :
      (course : Course) (s : State) (m : Metrics)
      → IsCounted m
      → m.total ≡ 0
      → (report : Report server) × (t : State) × (measure_list server course s m ≡ some (report, t))
        × IsSound report.0
        × CoversList course report
  unfolding measure_list
  measure_list-IsSound course s m c none_yet =
      let (s', m', e, c', l, u) = run_list_phase-IsCounted course.requests course.ends s m c in
      elim (Option-cases m'.abort) [
        | inl quiet ↦
            let (leaked, t) = check_leaked_locks server s' in
            let (r, made, sound, all) =
              make_result-IsSound "list_heavy" m' course.elapsed leaked c' in
            (
              (r, none),
              t,
              rw (e, measure_list, quiet, made) refl,
              sound,
              (omega (arith, all, l, none_yet), omega (arith, all, u, none_yet)),
            )
        | inr (cause, aborted) ↦ (
          (no_result "list_heavy", some cause),
          s',
          rw (e, measure_list, aborted) refl,
          no_result-IsSound "list_heavy",
          refl,
        )
      ]

  reset-none : (m : Metrics) → (reset m).total ≡ 0
  unfolding reset
  reset-none m = refl

  -- The scenario list_heavy ends with a report, whatever the service answers and however the requests
  -- of its writers and readers interleave: its percentiles are in order, errors and conflicts are no
  -- more than the requests, and it is either the empty result of an aborted scenario or counts each
  -- request of the measurement, and at most one more for each writer and reader that the end of the
  -- phase gives up, and none of the warm-up.
  pub run_list_heavy-IsSound :
      (course : Course) (s : State)
      → (report : Report server) × (t : State) × (run_list_heavy server course s ≡ some (report, t))
        × IsSound report.0
        × CoversList course report
  unfolding run_list_heavy
  run_list_heavy-IsSound course s = elim (Bool-cases (ltb 0 course.warmup)) [
    | inr cold ↦
        let (report, t, e, sound, all) =
          measure_list-IsSound course s new_metrics new_metrics-IsCounted refl in
        (report, t, rw cold e, sound, all)
    | inl warm ↦
        let (s', m, e, c, l, u) =
          run_list_phase-IsCounted course.warmup_requests course.warmup_ends s new_metrics
            new_metrics-IsCounted in
        elim (Option-cases m.abort) [
          | inl quiet ↦
              let (report, t, e', sound, all) =
                measure_list-IsSound course s' (reset m) (reset-IsCounted m) (reset-none m) in
              (report, t, rw (warm, e, run_list_heavy, quiet) e', sound, all)
          | inr (cause, aborted) ↦ (
            (no_result "list_heavy", some cause),
            s',
            rw (warm, e, run_list_heavy, aborted) refl,
            no_result-IsSound "list_heavy",
            refl,
          )
        ]
  ]

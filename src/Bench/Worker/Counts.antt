-- ===== src/Bench/Worker/Counts.antt =====
-- The counters of a scenario fit together, whatever the service and the errors do.
use native.Mathlib.Nat.{mod-lt}
use distributed_locking.Base.{
  ℕ, suc, ◌+◌, ◌≤◌, ◌≡◌, refl, String, false, some, List, [], ◌∷◌, length, length-append, arith,
  ◌%◌, get_elem?, get_elem?-lt, ◌<◌,
}
use distributed_locking.Validate.Client.{Server}
use distributed_locking.Bench.Worker.{
  Worker, Cause, Metrics, capacity, Try, Phase, locking, releasing, Reply, failed, status_code,
  post_lock, delete_lock, send_latency, add_total, add_error, abort_with, fail_request, after_post,
  after_delete, advance, run_from, acquire_release,
}

-- No request counts twice as an error or conflict, each latency is of a request, and the channel
-- holds no more than its capacity.
pub record IsCounted (m : Metrics) : Type 0 where
  pub outcomes_le : m.errors + m.conflicts ≤ m.total
  pub latencies_le : length m.latencies ≤ m.total
  pub within_capacity : length m.latencies ≤ capacity

-- the same with one request counted whose outcome is not
pub record IsOpen (m : Metrics) : Type 0 where
  outcomes_lt : suc (m.errors + m.conflicts) ≤ m.total
  latencies_lt : suc (length m.latencies) ≤ m.total
  within_capacity : length m.latencies ≤ capacity

pub add_total-IsOpen : (m : Metrics) → IsCounted m → IsOpen (add_total m)
unfolding add_total
add_total-IsOpen m c = record {
  outcomes_lt = omega (arith, c.outcomes_le);
  latencies_lt = omega (arith, c.latencies_le);
  within_capacity = c.within_capacity;
}

pub add_error-IsCounted : (m : Metrics) → IsOpen m → IsCounted (add_error m)
unfolding add_error
add_error-IsCounted m c = record {
  outcomes_le = omega (arith, c.outcomes_lt);
  latencies_le = omega (arith, c.latencies_lt);
  within_capacity = c.within_capacity;
}

send_latency-length :
    (ns : ℕ) (m : Metrics)
    → length m.latencies ≤ capacity
    → (length (send_latency ns m).latencies ≤ suc (length m.latencies))
      × (length (send_latency ns m).latencies ≤ capacity)
unfolding send_latency
send_latency-length ns m h = ground (arith, length-append m.latencies (ns ∷ []))

pub send_latency-counters :
    (ns : ℕ) (m : Metrics)
    → ((send_latency ns m).errors ≡ m.errors)
      × ((send_latency ns m).conflicts ≡ m.conflicts)
      × ((send_latency ns m).total ≡ m.total)
      × ((send_latency ns m).abort ≡ m.abort)
unfolding send_latency
send_latency-counters ns m = ground arith

-- after its latency was sent, one outcome more still fits
pub send_latency-IsCounted :
    (ns : ℕ) (m : Metrics)
    → IsOpen m
    → IsCounted (send_latency ns m)
      × (suc ((send_latency ns m).errors + (send_latency ns m).conflicts)
          ≤ (send_latency ns m).total)
send_latency-IsCounted ns m c =
    let (few, fits) = send_latency-length ns m c.within_capacity in
    let (e, k, n, q) = send_latency-counters ns m in
    (
      record {
        outcomes_le = omega (arith, c.outcomes_lt, e, k, n);
        latencies_le = omega (arith, c.latencies_lt, few, n);
        within_capacity = fits;
      },
      omega (arith, c.outcomes_lt, e, k, n),
    )

abort_with-IsOpen : (cause : Cause) (m : Metrics) → IsOpen m → IsOpen (abort_with cause m)
unfolding abort_with
abort_with-IsOpen cause m c = record {
  outcomes_lt = ground (arith, c.outcomes_lt);
  latencies_lt = ground (arith, c.latencies_lt);
  within_capacity = ground (arith, c.within_capacity);
}

pub fail_request-IsCounted :
    (request : String) (t : Try) (m : Metrics) → IsOpen m → IsCounted (fail_request request t m)
unfolding fail_request
fail_request-IsCounted request t m c = ground (
  arith,
  add_error-IsCounted m c,
  add_error-IsCounted (abort_with (record { request = request; elapsed = t.elapsed }) m)
      (abort_with-IsOpen (record { request = request; elapsed = t.elapsed }) m c),
)

-- one more outcome on counters that leave room for it
add_conflict-IsCounted :
    (m : Metrics)
    → IsCounted m × (suc (m.errors + m.conflicts) ≤ m.total)
    → IsCounted (record m { conflicts = m.conflicts + 1 })
add_conflict-IsCounted m (c, room) = record {
  outcomes_le = omega (arith, room);
  latencies_le = c.latencies_le;
  within_capacity = c.within_capacity;
}

add_error-IsCounted_room :
    (m : Metrics) → IsCounted m × (suc (m.errors + m.conflicts) ≤ m.total) → IsCounted (add_error m)
unfolding add_error
add_error-IsCounted_room m (c, room) = record {
  outcomes_le = omega (arith, room);
  latencies_le = c.latencies_le;
  within_capacity = c.within_capacity;
}

after_post-IsCounted :
    (i : ℕ) (key : String) (t : Try) (reply : Reply) (m : Metrics)
    → IsOpen m
    → IsCounted (after_post i key t reply m).1
unfolding after_post
after_post-IsCounted i key t failed m c = fail_request-IsCounted "POST /lock" t m c
after_post-IsCounted i key t (status_code code) m c =
    let sent = send_latency t.elapsed m in
    let fits = send_latency-IsCounted t.elapsed m c in
    ground (arith, fits.0, add_conflict-IsCounted sent fits, add_error-IsCounted_room sent fits)

after_delete-IsCounted :
    (i : ℕ) (t : Try) (reply : Reply) (m : Metrics)
    → IsOpen m
    → IsCounted (after_delete i t reply m).1
unfolding after_delete
after_delete-IsCounted i t failed m c = fail_request-IsCounted "POST /unlock" t m c
after_delete-IsCounted i t (status_code code) m c =
    ground (arith, (send_latency-IsCounted t.elapsed m c).0, add_error-IsCounted m c)

pub fail_request-total :
    (request : String) (t : Try) (m : Metrics) → (fail_request request t m).total ≡ m.total
unfolding fail_request add_error abort_with
fail_request-total request t m = ground arith

after_post-total :
    (i : ℕ) (key : String) (t : Try) (reply : Reply) (m : Metrics)
    → (after_post i key t reply (add_total m)).1.total ≡ m.total + 1
unfolding after_post add_total add_error
after_post-total i key t failed m = fail_request-total "POST /lock" t (add_total m)
after_post-total i key t (status_code code) m =
    ground (arith, send_latency-counters t.elapsed (add_total m))

after_delete-total :
    (i : ℕ) (t : Try) (reply : Reply) (m : Metrics)
    → (after_delete i t reply (add_total m)).1.total ≡ m.total + 1
unfolding after_delete add_total add_error
after_delete-total i t failed m = fail_request-total "POST /unlock" t (add_total m)
after_delete-total i t (status_code code) m =
    ground (arith, send_latency-counters t.elapsed (add_total m))

-- the key of a round
pub round_key :
    (w : Worker) (i : ℕ)
    → 0 < length w.keys
    → (key : String) × (get_elem? w.keys (i % length w.keys) ≡ some key)
round_key w i has_key = get_elem?-lt w.keys (i % length w.keys) (mod-lt i has_key)

module _ (server : Server) (w : Worker) (has_key : 0 < length w.keys) where
  open server use {State}

  -- a request neither panics nor lets the counters drift apart
  pub advance-IsCounted :
      (phase : Phase) (t : Try) (s : State) (m : Metrics)
      → IsCounted m
      → (phase' : Phase) × (s' : State) × (m' : Metrics) × (advance server w phase t s m
          ≡ some (phase', s', m'))
        × IsCounted m'
        × (m'.total ≡ m.total + 1)
  unfolding advance
  advance-IsCounted (locking i) t s m c =
      let (key, e) = round_key w i has_key in
      let (reply, s') = post_lock server key w.lockee false s in
      let (phase, m') = after_post i key t reply (add_total m) in
      (
        phase,
        s',
        m',
        rw (e, advance),
        after_post-IsCounted i key t reply (add_total m) (add_total-IsOpen m c),
        after_post-total i key t reply m,
      )
  advance-IsCounted (releasing i key) t s m c =
      let (reply, s') = delete_lock server key w.lockee s in
      let (phase, m') = after_delete i t reply (add_total m) in
      (
        phase,
        s',
        m',
        refl,
        after_delete-IsCounted i t reply (add_total m) (add_total-IsOpen m c),
        after_delete-total i t reply m,
      )

  run_from-IsCounted :
      (phase : Phase) (tries : List Try) (s : State) (m : Metrics)
      → IsCounted m
      → (phase' : Phase) × (s' : State) × (m' : Metrics) × (run_from server w phase tries s m
          ≡ some (phase', s', m'))
        × IsCounted m'
        × (m'.total ≡ m.total + length tries)
  unfolding run_from
  run_from-IsCounted phase [] s m c = (phase, s, m, refl, c, omega arith)
  run_from-IsCounted phase (t ∷ tries) s m c =
      let (p, s', m', e, c', n) = advance-IsCounted phase t s m c in
      let (q, s'', m'', e', c'', n') = run_from-IsCounted p tries s' m' c' in
      (q, s'', m'', rw (e, run_from) e', c'', omega (arith, n, n'))

  -- Whatever the service answers, a worker with a key never panics, counts each of its requests in the
  -- total, and leaves counters that fit together: errors and conflicts are no more than the requests,
  -- nor are the latencies, which stay within the channel's capacity.
  pub acquire_release-IsCounted :
      (tries : List Try) (s : State) (m : Metrics)
      → IsCounted m
      → (phase : Phase) × (s' : State) × (m' : Metrics) × (acquire_release server w tries s m
          ≡ some (phase, s', m'))
        × IsCounted m'
        × (m'.total ≡ m.total + length tries)
  unfolding acquire_release
  acquire_release-IsCounted tries s m c = run_from-IsCounted (locking 0) tries s m c

-- ===== src/Bench/Worker.antt =====
-- The loop of a benchmark worker: `worker`, `acquireRelease`, `postLock` and `deleteLock` of
-- benchmark/scenarios.go, one request at a time. What the clock, the context and the HTTP client's
-- errors contribute to a request is its `Try`. The counters stay in ℕ: an int64 wraps only after 2⁶³
-- requests.
pub mod Counts
use distributed_locking.Base.{
  ℕ, suc, ◌+◌, ◌%◌, String, Bool, true, false, not, ◌&&◌, Option, none, some, List, [], ◌∷◌, ◌++◌,
  length, get_elem?, ltb, nat_eq, if◌then◌else◌,
}
use distributed_locking.Status
use distributed_locking.Validate.Client.{
  Outcome, no_response, unreadable, received, Server, lock_message, unlock_message,
}
use distributed_locking.Bench.Stats.{NetError, is_timeout}

-- the fields of `worker` that are its own; the others are `Metrics`
pub record Worker : Type 0 where
  pub keys : List String
  pub lockee : String

-- why the scenario is aborted: which request timed out, and after how long
pub record Cause : Type 0 where
  pub request : String
  pub elapsed : ℕ

-- what the workers share: the channel of latencies, three counters, and the cause of an abort
pub record Metrics : Type 0 where
  pub latencies : List ℕ
  pub errors : ℕ
  pub conflicts : ℕ
  pub total : ℕ
  pub abort : Option Cause

abbrev pub new_metrics : Metrics
new_metrics = record { latencies = []; errors = 0; conflicts = 0; total = 0; abort = none }

-- `make(chan int64, 1<<20)`
abbrev pub capacity : ℕ
capacity = 1048576

-- the time a request took, and, if it fails, its error and whether the context is done by then
pub record Try : Type 0 where
  pub elapsed : ℕ
  pub error : NetError
  pub is_done : Bool

-- Where the loop stands when the context is looked at, or a lock is held, in round `i`.
pub data Phase : Type 0 where
  locking : ℕ → Phase
  releasing : ℕ → String → Phase

pub data Reply : Type 0 where
  failed : Reply
  status_code : ℕ → Reply

-- the body is read and its errors are dropped
unfoldable pub read_code : Outcome → Reply
read_code no_response = failed
read_code (unreadable code) = status_code code
read_code (received w) = status_code w.status

module _ (server : Server) where
  open server use {State}

  unfoldable pub post_lock : String → String → Bool → State → Reply × State
  unfolding read_code
  post_lock key lockee force s =
      let (out, t) = server.round_trip s (lock_message key lockee force) in (read_code out, t)

  unfoldable pub delete_lock : String → String → State → Reply × State
  unfolding read_code
  delete_lock key lockee s =
      let (out, t) = server.round_trip s (unlock_message key lockee) in (read_code out, t)

-- the send on `latencies` with a `default`: a full channel drops it
unfoldable pub send_latency : ℕ → Metrics → Metrics
send_latency elapsed m =
    if ltb (length m.latencies) capacity
    then record m { latencies = m.latencies ++ (elapsed ∷ []) }
    else m

unfoldable pub add_total : Metrics → Metrics
add_total m = record m { total = m.total + 1 }

unfoldable pub add_error : Metrics → Metrics
add_error m = record m { errors = m.errors + 1 }

-- `context.WithCancelCause` keeps the first cause
unfoldable pub abort_with : Cause → Metrics → Metrics
abort_with cause m = elim m.abort [ none ↦ record m { abort = some cause } | some first ↦ m ]

-- a request that got no response
unfoldable pub fail_request : String → Try → Metrics → Metrics
unfolding is_timeout abort_with add_error
fail_request request t m = add_error (
    if not t.is_done && is_timeout t.error
    then abort_with (record { request = request; elapsed = t.elapsed }) m
    else m)

-- the rest of a round after `postLock`
unfoldable pub after_post : ℕ → String → Try → Reply → Metrics → Phase × Metrics
unfolding send_latency add_error fail_request
after_post i key t failed m = (locking (suc i), fail_request "POST /lock" t m)
after_post i key t (status_code code) m =
    let sent = send_latency t.elapsed m in
    if nat_eq code Status.conflict
    then (locking (suc i), record sent { conflicts = sent.conflicts + 1 })
    else if nat_eq code Status.ok
    then (releasing i key, sent)
    else (locking (suc i), add_error sent)

-- the rest of a round after `deleteLock`
unfoldable pub after_delete : ℕ → Try → Reply → Metrics → Phase × Metrics
unfolding send_latency add_error fail_request
after_delete i t failed m = (locking (suc i), fail_request "POST /unlock" t m)
after_delete i t (status_code code) m =
    if not (nat_eq code Status.ok) && not (nat_eq code Status.not_found)
    then (locking (suc i), add_error m)
    else (locking (suc i), send_latency t.elapsed m)

module _ (server : Server) (w : Worker) where
  open server use {State}

  -- one request of the worker and what it does with the reply; `none` is the panic of `i % 0`
  unfoldable pub advance : Phase → Try → State → Metrics → Option (Phase × State × Metrics)
  unfolding post_lock delete_lock add_total after_post after_delete
  advance (locking i) t s m = elim (get_elem? w.keys (i % length w.keys)) [
    | none ↦ none
    | some key ↦
        let (reply, s') = post_lock server key w.lockee false s in
        let (phase, m') = after_post i key t reply (add_total m) in some (phase, s', m')
  ]
  advance (releasing i key) t s m =
      let (reply, s') = delete_lock server key w.lockee s in
      let (phase, m') = after_delete i t reply (add_total m) in some (phase, s', m')

  -- the loop, for as many requests as the context leaves time for
  unfoldable pub run_from : Phase → List Try → State → Metrics → Option (Phase × State × Metrics)
  unfolding advance
  run_from phase [] s m = some (phase, s, m)
  run_from phase (t ∷ tries) s m = elim (advance phase t s m) [
    | none ↦ none
    | some (phase', s', m') ↦ run_from phase' tries s' m'
  ]

  unfoldable pub acquire_release : List Try → State → Metrics → Option (Phase × State × Metrics)
  unfolding run_from
  acquire_release tries s m = run_from (locking 0) tries s m

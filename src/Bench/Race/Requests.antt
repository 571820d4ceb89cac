-- ===== src/Bench/Race/Requests.antt =====
-- What the requests of a worker come to, on a server over a lawful lock store: a granted POST /lock and
-- a POST /unlock by the holder.
use distributed_locking.Base.{
  ℕ, suc, ◌+◌, ◌%◌, ◌≡◌, refl, ap, ◌∙◌, String, true, false, Option, some, get_elem?, length,
}
use distributed_locking.Lock.{Lock}
use distributed_locking.Status
use distributed_locking.Spec
use distributed_locking.Store.{LockStore, LockStoreLaws}
use distributed_locking.Http.Messages.{LockRequest, UnlockRequest, write_json, write_header}
use distributed_locking.Http.Api.{is_missing, lock_response, unlock_response}
use distributed_locking.Validate.Client.{Server, received, lock_message, unlock_message}
use distributed_locking.Validate.Reads.{
  after-lock_message, Answers-lock_message, after-unlock_message, Answers-unlock_message,
}
use distributed_locking.Validate.Service.{
  Environment, service, round_trip_lem, read_outcome, Becomes,
}
use distributed_locking.Bench.Worker.{
  Worker, Metrics, Try, locking, releasing, status_code, read_code, post_lock, delete_lock,
  send_latency, add_total, after_post, after_delete, advance,
}
use distributed_locking.Bench.Worker.Counts.{send_latency-counters}

read_code-granted :
    (entry : Option Lock) (req : LockRequest)
    → Spec.granted entry req.lockee req.force ≡ true
    → read_code (received (lock_response entry req)) ≡ status_code Status.ok
unfolding read_code write_json
read_code-granted entry req h = rw h refl

read_code-released :
    (entry : Option Lock) (req : UnlockRequest)
    → Spec.is_held_by req.lockee entry ≡ true
    → read_code (received (unlock_response entry req)) ≡ status_code Status.ok
unfolding read_code write_header
read_code-released entry req h = rw h refl

-- Granted and released requests leave the counters of errors and conflicts alone.
abbrev pub Clean : Metrics → Metrics → Type 0
Clean m m' =
    (m'.errors ≡ m.errors)
    × (m'.conflicts ≡ m.conflicts)
    × (m'.total ≡ m.total + 1)
    × (m'.abort ≡ m.abort)

pub send_latency-Clean : (ns : ℕ) (m : Metrics) → Clean m (send_latency ns (add_total m))
unfolding add_total
send_latency-Clean ns m = send_latency-counters ns (add_total m)

module _ (server : Server) (w : Worker) (i : ℕ) (key : String) (t : Try) (s s' : server.State)
    (m : Metrics) where
  pub advance-post :
      get_elem? w.keys (i % length w.keys) ≡ some key
      → post_lock server key w.lockee false s ≡ (status_code Status.ok, s')
      → advance server w (locking i) t s m
        ≡ some (releasing i key, s', send_latency t.elapsed (add_total m))
  unfolding advance after_post
  advance-post e sent =
      rw (e, advance)
        (ap (λ r. let (p, m') = after_post i key t r.0 (add_total m) in some (p, r.1, m')) sent)

  pub advance-delete :
      delete_lock server key w.lockee s ≡ (status_code Status.ok, s')
      → advance server w (releasing i key) t s m
        ≡ some (locking (suc i), s', send_latency t.elapsed (add_total m))
  unfolding advance after_delete
  advance-delete sent =
      ap (λ r. let (p, m') = after_delete i t r.0 (add_total m) in some (p, r.1, m')) sent

module _ (store : LockStore) (laws : LockStoreLaws store) (env : Environment) where
  open store use {State}
  open laws use {IsValid, view}

  module _ (s : State) (n : ℕ) (key lockee : String) (v : IsValid s)
      (present : is_missing key lockee ≡ false) where
    pub post_lock-granted :
        Spec.granted (view s key) lockee false ≡ true
        → Becomes store laws env
            (post_lock (service store env) key lockee false (s, n))
            (status_code Status.ok)
            n
            (Spec.acquire (view s) key lockee false (env.clock n)).0
    unfolding post_lock
    post_lock-granted h =
        let (t, w, e, vt, p, a) =
          round_trip_lem store laws env s n (lock_message key lockee false) v in
        let right = Answers-lock_message (view s) key lockee false w present a in
        (
          t,
          read_outcome read_code _ (received w) (t, suc n) e
              (rw right (
                read_code-granted (view s key)
                  (record { key = key; lockee = lockee; force = false }) h)),
          vt,
          p ∙ after-lock_message (view s) key lockee false (env.clock n) present,
        )

    pub delete_lock-released :
        Spec.is_held_by lockee (view s key) ≡ true
        → Becomes store laws env
            (delete_lock (service store env) key lockee (s, n))
            (status_code Status.ok)
            n
            (Spec.release (view s) key lockee).0
    unfolding delete_lock
    delete_lock-released held =
        let (t, w, e, vt, p, a) = round_trip_lem store laws env s n (unlock_message key lockee) v in
        let right = Answers-unlock_message (view s) key lockee w present a in
        (
          t,
          read_outcome read_code _ (received w) (t, suc n) e
              (rw right
                (read_code-released (view s key) (record { key = key; lockee = lockee }) held)),
          vt,
          p ∙ after-unlock_message (view s) key lockee (env.clock n) present,
        )

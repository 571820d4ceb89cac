-- ===== src/Validate/Service.antt =====
-- A lock store behind HTTP as the validation meets it, and what each of the client's calls returns.
use distributed_locking.Base.{ℕ, suc, ◌≡◌, ap, ◌∙◌, String, Bool, true, false, Option, none, some}
use distributed_locking.Lock.{Time}
use distributed_locking.Status
use distributed_locking.Spec
use distributed_locking.Store.{Orders, LockStore, LockStoreLaws}
use distributed_locking.Http.Messages.{Request, Response}
use distributed_locking.Http.Handlers.{serve}
use distributed_locking.Http.Api.{is_missing, after, Answers}
use distributed_locking.Http.Refines.{serve-Refines}
use distributed_locking.Validate.Client.{
  Outcome, no_response, received, Server, ok, LockResponse, lock_message, unlock_message,
  locks_message, read_lock, read_unlock, read_since, send_lock, send_unlock, find_lock_since,
}
use distributed_locking.Validate.Reads.{
  after-lock_message, Answers-lock_message, after-unlock_message, Answers-unlock_message,
  read_lock-granted, read_lock-refused, read_unlock-released, Answers-locks_message,
  after-locks_message, since_of,
}

-- The times at which requests are handled, and the orders of their `range` statements, by the number
-- of the request.
pub record Environment : Type 0 where
  pub clock : ℕ → Time
  pub orders : ℕ → Orders

-- a panic closes the connection
answer_of {ℓ} : {S : Type ℓ} → S → ℕ → Option (S × Response) → Outcome × S × ℕ
answer_of s n none = (no_response, s, suc n)
answer_of s n (some (t, w)) = (received w, t, suc n)

unfoldable pub round_trip_of :
    (store : LockStore) → Environment → store.State × ℕ → Request → Outcome × (store.State × ℕ)
unfolding answer_of
round_trip_of store env (s, n) r =
    let (out, t, m) = answer_of s n (serve store (env.orders n) s r (env.clock n)) in (out, (t, m))

abbrev pub service : LockStore → Environment → Server
service store env = record { State = store.State × ℕ; round_trip = round_trip_of store env }

-- a call reads the outcome of its round trip
pub read_outcome :
    {A S : Type 0} (read : Outcome → A) (m : Outcome × S) (out : Outcome) (s : S) {a : A}
    → m ≡ (out, s)
    → read out ≡ a
    → ◌≡◌ {A = A × S} (read m.0, m.1) (a, s)
read_outcome read m out s e right = ap (λ x. (read x.0, x.1)) e ∙ ap (λ a. (a, s)) right

-- What the four kinds of call return, on a service in a valid state.
module _ (store : LockStore) (laws : LockStoreLaws store) (env : Environment) where
  open store use {State}
  open laws use {IsValid, view}

  pub round_trip_lem :
      (s : State) (n : ℕ) (r : Request)
      → IsValid s
      → (t : State) × (w : Response) × (round_trip_of store env (s, n) r ≡ (received w, (t, suc n)))
        × IsValid t
        × (view t ≡ after (view s) r (env.clock n))
        × Answers (view s) r w
  unfolding round_trip_of
  round_trip_lem s n r v =
      let (t, w, e, vt, p, a) = serve-Refines store laws (env.orders n) s r (env.clock n) v in
      (t, w, rw e, vt, p, a)

  -- the state after a call: valid, with the given table
  abbrev pub Becomes : {A : Type 0} → A × (State × ℕ) → A → ℕ → Spec.Table → Type 0
  Becomes m a n t = (s : State) × (m ≡ (a, (s, suc n))) × IsValid s × (view s ≡ t)

  module _ (s : State) (n : ℕ) (key : String) (v : IsValid s) where
    pub find_lock_since-service :
        Becomes (find_lock_since (service store env) key (s, n)) (since_of (view s key)) n (view s)
    unfolding find_lock_since
    find_lock_since-service =
        let (t, w, e, vt, p, a) = round_trip_lem s n locks_message v in
        (
          t,
          read_outcome (read_since key) _ (received w) (t, suc n) e
              (Answers-locks_message (view s) key w a),
          vt,
          p ∙ after-locks_message (view s) (env.clock n),
        )

    module _ (lockee : String) (present : is_missing key lockee ≡ false) where
      pub send_unlock-released :
          Spec.is_held_by lockee (view s key) ≡ true
          → Becomes
              (send_unlock (service store env) key lockee (s, n))
              (ok Status.ok)
              n
              (Spec.release (view s) key lockee).0
      unfolding send_unlock
      send_unlock-released held =
          let (t, w, e, vt, p, a) = round_trip_lem s n (unlock_message key lockee) v in
          let right = Answers-unlock_message (view s) key lockee w present a in
          (
            t,
            read_outcome read_unlock _ (received w) (t, suc n) e
                (rw right
                  (read_unlock-released (view s key) (record { key = key; lockee = lockee }) held)),
            vt,
            p ∙ after-unlock_message (view s) key lockee (env.clock n) present,
          )

      module _ (force : Bool) where
        pub send_lock-granted :
            Spec.granted (view s key) lockee force ≡ true
            → (lr : LockResponse) × (lr.locked ≡ true)
              × Becomes
                  (send_lock (service store env) key lockee force (s, n))
                  (ok (Status.ok, lr))
                  n
                  (Spec.acquire (view s) key lockee force (env.clock n)).0
        unfolding send_lock
        send_lock-granted h =
            let (t, w, e, vt, p, a) = round_trip_lem s n (lock_message key lockee force) v in
            let right = Answers-lock_message (view s) key lockee force w present a in
            let (lr, read, locked) =
              read_lock-granted (view s key) (record { key = key; lockee = lockee; force = force })
                h in
            (
              lr,
              locked,
              (
                t,
                read_outcome read_lock _ (received w) (t, suc n) e (rw right read),
                vt,
                p ∙ after-lock_message (view s) key lockee force (env.clock n) present,
              ),
            )

        pub send_lock-refused :
            Spec.granted (view s key) lockee force ≡ false
            → (lr : LockResponse) × Becomes
                (send_lock (service store env) key lockee force (s, n))
                (ok (Status.conflict, lr))
                n
                (Spec.acquire (view s) key lockee force (env.clock n)).0
        unfolding send_lock
        send_lock-refused h =
            let (t, w, e, vt, p, a) = round_trip_lem s n (lock_message key lockee force) v in
            let right = Answers-lock_message (view s) key lockee force w present a in
            let (lr, read) =
              read_lock-refused (view s key) (record { key = key; lockee = lockee; force = force })
                h in
            (
              lr,
              (
                t,
                read_outcome read_lock _ (received w) (t, suc n) e (rw right read),
                vt,
                p ∙ after-lock_message (view s) key lockee force (env.clock n) present,
              ),
            )

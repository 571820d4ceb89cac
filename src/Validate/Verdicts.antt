-- ===== src/Validate/Verdicts.antt =====
-- What a verdict of the validation says of an arbitrary service, and where it says less than meant.
use distributed_locking.Base.{ℕ, ◌≡◌, refl, String, Bool, true, false, not, eq_iff, nat_eq, arith}
use distributed_locking.Status
use distributed_locking.Validate.Client.{
  Server, Result, ok, err, ClientError, LockResponse, send_lock, send_unlock, find_lock_since,
}
use distributed_locking.Validate.Checks.{
  Verdict, pass, fail, Failure, wrong_status, not_locked, request_failed, listing_failed,
  still_present, Check, ◌>>=◌, continue, validate_key, lockee_a, lockee_b, must_lock, must_conflict,
  must_unlock, since_now, must_be_absent, validate_spec, require, or_fail, is_ok,
}

-- the checks of one answer, from what the call returned
abbrev granted_check : {S : Type 0} → ℕ → Result (ℕ × LockResponse) × S → Verdict Unit × S
granted_check step (r, t) =
    continue (or_fail r (request_failed step))
      (λ answer u.
        let (first, w) = require (nat_eq answer.0 Status.ok) (wrong_status step answer.0) u in
        continue first (λ _. require answer.1.locked (not_locked step)) w)
      t

granted_check-inv :
    {S : Type 0} (step : ℕ) (r : Result (ℕ × LockResponse) × S) (t : S)
    → granted_check step r ≡ (pass tt, t)
    → (lr : LockResponse) × (r ≡ (ok (Status.ok, lr), t)) × (lr.locked ≡ true)
granted_check-inv step (ok (code, lr), u) t h = (lr, ground arith, ground arith)
granted_check-inv step (err x, u) t h = absurd (cc)

abbrev status_check : {S A : Type 0} → ℕ → ℕ → (A → ℕ) → Result A × S → Verdict Unit × S
status_check step code of (r, t) =
    continue (or_fail r (request_failed step))
      (λ answer. require (nat_eq (of answer) code) (wrong_status step (of answer))) t

status_check-inv :
    {S A : Type 0} (step code : ℕ) (of : A → ℕ) (r : Result A × S) (t : S)
    → status_check step code of r ≡ (pass tt, t)
    → (a : A) × (r ≡ (ok a, t)) × (of a ≡ code)
status_check-inv step code of (ok a, u) t h = (a, ground arith, ground arith)
status_check-inv step code of (err x, u) t h = absurd (cc)

since_check-inv :
    {S A : Type 0} (failure : ClientError → Failure) (r : Result A × S) (t : S) (a : A)
    → ◌≡◌ {A = Verdict A × S} (or_fail r.0 failure, r.1) (pass a, t)
    → r ≡ (ok a, t)
since_check-inv failure (ok b, u) t a h = ground arith
since_check-inv failure (err x, u) t a h = absurd (cc)

absent_check-inv :
    {S A : Type 0} (failure : Failure) (r : Result A × S) (t : S)
    → require (not (is_ok r.0)) failure r.1 ≡ (pass tt, t)
    → (e : ClientError) × (r ≡ (err e, t))
absent_check-inv failure (ok a, u) t h = absurd (cc)
absent_check-inv failure (err e, u) t h = (e, ground arith)

-- a passed sequence: its first check passed, and so did the rest
bind-inv :
    {S A : Type 0} (m : Check S A) (f : A → Check S Unit) (s t : S)
    → ◌>>=◌ m f s ≡ (pass tt, t)
    → (a : A) × (u : S) × (m s ≡ (pass a, u)) × (f a u ≡ (pass tt, t))
unfolding ◌>>=◌
bind-inv {S} {A} m f s t h = go (m s) refl h
  where
    go :
        (r : Verdict A × S)
        → m s ≡ r
        → continue r.0 f r.1 ≡ (pass tt, t)
        → (a : A) × (u : S) × (m s ≡ (pass a, u)) × (f a u ≡ (pass tt, t))
    go (pass a, u) e h = (a, u, e, h)
    go (fail x, u) e h = absurd (cc)

-- the same, for what follows from the parts
bind-then :
    {S A R : Type 0} (m : Check S A) (f : A → Check S Unit) (s t : S)
    → ◌>>=◌ m f s ≡ (pass tt, t)
    → ((a : A) (u : S) → m s ≡ (pass a, u) → f a u ≡ (pass tt, t) → R)
    → R
bind-then m f s t h next = let (a, u, e, rest) = bind-inv m f s t h in next a u e rest

require-then :
    {S R : Type 0} (b : Bool) (failure : Failure) (rest : Check S Unit) (s t : S)
    → ◌>>=◌ (require b failure) (λ _. rest) s ≡ (pass tt, t)
    → (b ≡ true → rest s ≡ (pass tt, t) → R)
    → R
unfolding ◌>>=◌
require-then true failure rest s t h next = next refl h
require-then false failure rest s t h next = absurd (cc)

module _ (server : Server) where
  open server use {State}

  -- a request that was granted
  abbrev pub Granted : String → Bool → State → State → Type 0
  Granted lockee force s t =
      (lr : LockResponse) × (send_lock server validate_key lockee force s ≡ (ok (Status.ok, lr), t))
      × (lr.locked ≡ true)

  must_lock-inv :
      (step : ℕ) (lockee : String) (force : Bool) (s t : State)
      → must_lock server step lockee force s ≡ (pass tt, t)
      → Granted lockee force s t
  unfolding must_lock
  must_lock-inv step lockee force s t h =
      granted_check-inv step (send_lock server validate_key lockee force s) t h

  must_conflict-inv :
      (step : ℕ) (lockee : String) (s t : State)
      → must_conflict server step lockee s ≡ (pass tt, t)
      → (a : ℕ × LockResponse) × (send_lock server validate_key lockee false s ≡ (ok a, t))
        × (a.0 ≡ Status.conflict)
  unfolding must_conflict
  must_conflict-inv step lockee s t h =
      status_check-inv step Status.conflict (λ a. a.0)
        (send_lock server validate_key lockee false s) t h

  must_unlock-inv :
      (step : ℕ) (lockee : String) (s t : State)
      → must_unlock server step lockee s ≡ (pass tt, t)
      → (a : ℕ) × (send_unlock server validate_key lockee s ≡ (ok a, t)) × (a ≡ Status.ok)
  unfolding must_unlock
  must_unlock-inv step lockee s t h =
      status_check-inv step Status.ok (λ a. a) (send_unlock server validate_key lockee s) t h

  since_now-inv :
      (step : ℕ) (s t : State) (a : String)
      → since_now server step s ≡ (pass a, t)
      → find_lock_since server validate_key s ≡ (ok a, t)
  unfolding since_now
  since_now-inv step s t a h =
      since_check-inv (listing_failed step) (find_lock_since server validate_key s) t a h

  must_be_absent-inv :
      (s t : State)
      → must_be_absent server s ≡ (pass tt, t)
      → (e : ClientError) × (find_lock_since server validate_key s ≡ (err e, t))
  unfolding must_be_absent
  must_be_absent-inv s t h =
      absent_check-inv still_present (find_lock_since server validate_key s) t h

  -- The requests of a passed validation, in order, and what came back.
  pub record Transcript (s0 s8 : State) : Type 0 where
    pub s1 : State
    pub s2 : State
    pub s3 : State
    pub s4 : State
    pub s5 : State
    pub s6 : State
    pub s7 : State
    pub since : String
    pub acquired : Granted lockee_a false s0 s1
    pub listed : find_lock_since server validate_key s1 ≡ (ok since, s2)
    pub acquired_again : Granted lockee_a false s2 s3
    pub since_kept : find_lock_since server validate_key s3 ≡ (ok since, s4)
    pub refused :
        (a : ℕ × LockResponse) × (send_lock server validate_key lockee_b false s4 ≡ (ok a, s5))
        × (a.0 ≡ Status.conflict)
    pub forced : Granted lockee_b true s5 s6
    pub released :
        (a : ℕ) × (send_unlock server validate_key lockee_b s6 ≡ (ok a, s7)) × (a ≡ Status.ok)
    pub not_listed : (e : ClientError) × (find_lock_since server validate_key s7 ≡ (err e, s8))

  -- An arbitrary service that passes the validation has answered the eight requests as the transcript
  -- says: granted, listed, granted again with the same time stamp, refused with 409, granted by force
  -- and released; of the last listing only that its reading failed in some way is known.
  pub validate_spec-Transcript :
      (s t : State) → validate_spec server s ≡ (pass tt, t) → Transcript s t
  unfolding validate_spec
  validate_spec-Transcript s t h = bind-then _ _ s t h λ _ s1 e1 h1.
      bind-then _ _ s1 t h1 λ since s2 e2 h2. bind-then _ _ s2 t h2 λ _ s3 e3 h3.
        bind-then _ _ s3 t h3 λ since' s4 e4 h4. require-then _ _ _ s4 t h4 λ same h5.
          bind-then _ _ s4 t h5 λ _ s5 e5 h6. bind-then _ _ s5 t h6 λ _ s6 e6 h7.
            bind-then _ _ s6 t h7 λ _ s7 e7 h8.
              let kept : since' ≡ since = (eq_iff since' since).0 same in
              record {
                s1 = s1;
                s2 = s2;
                s3 = s3;
                s4 = s4;
                s5 = s5;
                s6 = s6;
                s7 = s7;
                since = since;
                acquired = must_lock-inv 1 lockee_a false s s1 e1;
                listed = since_now-inv 1 s1 s2 since e2;
                acquired_again = must_lock-inv 2 lockee_a false s2 s3 e3;
                since_kept = rw kept at (since_now-inv 2 s3 s4 since' e4);
                refused = must_conflict-inv 3 lockee_b s4 s5 e5;
                forced = must_lock-inv 4 lockee_b true s5 s6 e6;
                released = must_unlock-inv 5 lockee_b s6 s7 e7;
                not_listed = must_be_absent-inv s7 t h8;
              }

-- ===== src/Validate/Checks.antt =====
-- `validateSpec` of benchmark/validate.go: eight requests, and a check of each answer.
use distributed_locking.Base.{ℕ, String, Bool, true, false, not, ◌==◌, nat_eq}
use distributed_locking.Status
use distributed_locking.Validate.Client.{
  Server, Result, ok, err, ClientError, send_lock, send_unlock, find_lock_since,
}

-- the errors of `validateSpec`, each with the step that it names
pub data Failure : Type 0 where
  request_failed : ℕ → ClientError → Failure
  listing_failed : ℕ → ClientError → Failure
  wrong_status : ℕ → ℕ → Failure
  not_locked : ℕ → Failure
  since_changed : String → String → Failure
  still_present : Failure

pub data Verdict (A : Type 0) : Type 0 where
  pass : A → Verdict A
  fail : Failure → Verdict A

-- A check runs against a service and may end the validation.
abbrev pub Check : Type 0 → Type 0 → Type 0
Check S A = S → Verdict A × S

abbrev pub continue : {S A B : Type 0} → Verdict A → (A → Check S B) → Check S B
continue (pass a) f s = f a s
continue (fail e) f s = (fail e, s)

infixl 5 ◌>>=◌ ◌>>◌
unfoldable pub ◌>>=◌ : {S A B : Type 0} → Check S A → (A → Check S B) → Check S B
◌>>=◌ m f s = let (r, t) = m s in continue r f t

abbrev pub ◌>>◌ : {S B : Type 0} → Check S Unit → Check S B → Check S B
m >> n = m >>= λ _. n

abbrev pub done : {S : Type 0} → Check S Unit
done s = (pass tt, s)

-- `if !b { return failure }`
abbrev pub require : {S : Type 0} → Bool → Failure → Check S Unit
require true failure s = (pass tt, s)
require false failure s = (fail failure, s)

abbrev pub or_fail : {A : Type 0} → Result A → (ClientError → Failure) → Verdict A
or_fail (ok a) failure = pass a
or_fail (err e) failure = fail (failure e)

-- `if err != nil { return … }`
abbrev pub attempt : {S A : Type 0} → (S → Result A × S) → (ClientError → Failure) → Check S A
attempt m failure s = let (r, t) = m s in (or_fail r failure, t)

-- `if err == nil { return failure }`
abbrev pub is_ok : {A : Type 0} → Result A → Bool
is_ok (ok a) = true
is_ok (err e) = false

abbrev pub refute : {S A : Type 0} → (S → Result A × S) → Failure → Check S Unit
refute m failure s = let (r, t) = m s in require (not (is_ok r)) failure t

abbrev pub validate_key : String
validate_key = "__validate__"

abbrev pub lockee_a : String
lockee_a = "lockee-a"

abbrev pub lockee_b : String
lockee_b = "lockee-b"

module _ (server : Server) where
  open server use {State}

  -- POST /lock, which must be granted
  unfoldable pub must_lock : ℕ → String → Bool → Check State Unit
  unfolding ◌>>=◌
  must_lock step lockee force = do
    answer ← attempt (send_lock server validate_key lockee force) (request_failed step)
    require (nat_eq answer.0 Status.ok) (wrong_status step answer.0)
    require answer.1.locked (not_locked step)

  unfoldable pub must_conflict : ℕ → String → Check State Unit
  unfolding ◌>>=◌
  must_conflict step lockee = do
    answer ← attempt (send_lock server validate_key lockee false) (request_failed step)
    require (nat_eq answer.0 Status.conflict) (wrong_status step answer.0)

  unfoldable pub must_unlock : ℕ → String → Check State Unit
  unfolding ◌>>=◌
  must_unlock step lockee = do
    status ← attempt (send_unlock server validate_key lockee) (request_failed step)
    require (nat_eq status Status.ok) (wrong_status step status)

  unfoldable pub since_now : ℕ → Check State String
  since_now step = attempt (find_lock_since server validate_key) (listing_failed step)

  unfoldable pub must_be_absent : Check State Unit
  must_be_absent = refute (find_lock_since server validate_key) still_present

  unfoldable pub validate_spec : Check State Unit
  validate_spec = do
    must_lock 1 lockee_a false
    since1 ← since_now 1
    must_lock 2 lockee_a false
    since2 ← since_now 2
    require (since2 == since1) (since_changed since1 since2)
    must_conflict 3 lockee_b
    must_lock 4 lockee_b true
    must_unlock 5 lockee_b
    must_be_absent

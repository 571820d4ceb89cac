-- ===== src/Validate/Passes.antt =====
-- Every lock store passes the validation, and is left as it was.
use mathlib.Core.Path.{fun_ext}
use distributed_locking.Base.{
  ℕ, suc, ◌≡◌, refl, ap, ◌∙◌, String, Bool, true, false, none, some, eq_iff, eq_refl, arith,
}
use distributed_locking.Format.{rfc3339}
use distributed_locking.Lock.{Lock, Time}
use distributed_locking.Spec
use distributed_locking.Store.{LockStore, LockStoreLaws}
use distributed_locking.Http.Api.{is_missing}
use distributed_locking.Validate.Checks.{
  pass, Check, ◌>>=◌, continue, validate_key, lockee_a, lockee_b, must_lock, must_conflict,
  must_unlock, since_now, must_be_absent, validate_spec, Failure, require, ◌>>◌,
}
use distributed_locking.Validate.Service.{
  Environment, service, Becomes, send_lock-granted, send_lock-refused, send_unlock-released,
  find_lock_since-service,
}

abbrev with_lock : Spec.Table → Lock → Spec.Table
with_lock t l = Spec.update t validate_key (some l)

acquire-with_lock :
    (t : Spec.Table) (lockee : String) (force : Bool) (now : Time)
    → t validate_key ≡ none
    → (Spec.acquire t validate_key lockee force now).0
      ≡ with_lock t (Spec.fresh validate_key lockee now)
acquire-with_lock t lockee force now h = rw h

removed :
    (t : Spec.Table) (a b : Lock)
    → t validate_key ≡ none
    → Spec.update (with_lock (with_lock t a) b) validate_key none ≡ t
removed t a b h =
    fun_ext (λ j. ground (arith, eq_iff validate_key j, ap t {x = validate_key} {y = j}))

module _ (store : LockStore) (laws : LockStoreLaws store) (env : Environment) where
  open store use {State}
  open laws use {IsValid, view}

  module _ (s : State) (n : ℕ) (v : IsValid s) where
    must_lock-passes :
        (step : ℕ) (lockee : String) (force : Bool)
        → is_missing validate_key lockee ≡ false
        → Spec.granted (view s validate_key) lockee force ≡ true
        → Becomes store laws env
            (must_lock (service store env) step lockee force (s, n))
            (pass tt)
            n
            (Spec.acquire (view s) validate_key lockee force (env.clock n)).0
    unfolding must_lock
    must_lock-passes step lockee force present h =
        let (lr, locked, (t, e, vt, p)) =
          send_lock-granted store laws env s n validate_key v lockee present force h in
        (t, rw e (rw locked), vt, p)

    must_conflict-passes :
        (step : ℕ) (lockee : String)
        → is_missing validate_key lockee ≡ false
        → Spec.granted (view s validate_key) lockee false ≡ false
        → Becomes store laws env
            (must_conflict (service store env) step lockee (s, n))
            (pass tt)
            n
            (Spec.acquire (view s) validate_key lockee false (env.clock n)).0
    unfolding must_conflict
    must_conflict-passes step lockee present h =
        let (lr, (t, e, vt, p)) =
          send_lock-refused store laws env s n validate_key v lockee present false h in
        (t, rw e, vt, p)

    must_unlock-passes :
        (step : ℕ) (lockee : String)
        → is_missing validate_key lockee ≡ false
        → Spec.is_held_by lockee (view s validate_key) ≡ true
        → Becomes store laws env
            (must_unlock (service store env) step lockee (s, n))
            (pass tt)
            n
            (Spec.release (view s) validate_key lockee).0
    unfolding must_unlock
    must_unlock-passes step lockee present h =
        let (t, e, vt, p) =
          send_unlock-released store laws env s n validate_key v lockee present h in
        (t, rw e, vt, p)

    since_now-passes :
        (step : ℕ) (l : Lock)
        → view s validate_key ≡ some l
        → Becomes store laws env
            (since_now (service store env) step (s, n))
            (pass (rfc3339 l.since))
            n
            (view s)
    unfolding since_now
    since_now-passes step l h =
        let (t, e, vt, p) = find_lock_since-service store laws env s n validate_key v in
        (t, rw e (rw h), vt, p)

    must_be_absent-passes :
        view s validate_key ≡ none
        → Becomes store laws env (must_be_absent (service store env) (s, n)) (pass tt) n (view s)
    unfolding must_be_absent
    must_be_absent-passes h =
        let (t, e, vt, p) = find_lock_since-service store laws env s n validate_key v in
        (t, rw e (rw h), vt, p)

  -- the validation passes from a state, and ends in a valid one with the given table
  abbrev pub Passes : Check (State × ℕ) Unit → State → ℕ → Spec.Table → Type 0
  Passes m s n t = (u : State) × (k : ℕ) × (m (s, n) ≡ (pass tt, (u, k))) × IsValid u × (view u ≡ t)

  -- one check passes, and the rest from whatever state it leaves
  then-Passes :
      {A : Type 0} (m : Check (State × ℕ) A) (f : A → Check (State × ℕ) Unit) (a : A) (s : State)
      (n : ℕ) (t u : Spec.Table)
      → Becomes store laws env (m (s, n)) (pass a) n t
      → ((s' : State) → IsValid s' → view s' ≡ t → Passes (f a) s' (suc n) u)
      → Passes (m >>= f) s n u
  unfolding ◌>>=◌
  then-Passes m f a s n t u (s', e, v', p) next =
      let (w, k, run, vw, q) = next s' v' p in (w, k, ap (λ x. continue x.0 f x.1) e ∙ run, vw, q)

  last-Passes :
      (m : Check (State × ℕ) Unit) (s : State) (n : ℕ) (t : Spec.Table)
      → Becomes store laws env (m (s, n)) (pass tt) n t
      → Passes m s n t
  last-Passes m s n t (s', e, v', p) = (s', suc n, e, v', p)

  require-Passes :
      (b : Bool) (failure : Failure) (rest : Check (State × ℕ) Unit) (s : State) (n : ℕ)
      (u : Spec.Table)
      → b ≡ true
      → Passes rest s n u
      → Passes (require b failure >> rest) s n u
  unfolding ◌>>=◌
  require-Passes b failure rest s n u h next = rw h next

  -- Against a server over any lawful store, from a valid state that does not hold the validation's key,
  -- the validation passes, and leaves a valid state with the table that it found.
  pub validate_spec-Passes :
      (s : State) (n : ℕ)
      → IsValid s
      → view s validate_key ≡ none
      → Passes (validate_spec (service store env)) s n (view s)
  unfolding validate_spec
  validate_spec-Passes s n v free =
      let t = view s in
      let a = Spec.fresh validate_key lockee_a (env.clock n) in
      let b = Spec.fresh validate_key lockee_b (env.clock (suc (suc (suc (suc (suc n)))))) in
      then-Passes _ _ tt s n _ t (must_lock-passes s n v 1 lockee_a false refl (rw free))
        λ s1 v1 p1.
          let q1 : view s1 ≡ with_lock t a =
            p1 ∙ acquire-with_lock t lockee_a false (env.clock n) free in
          then-Passes _ _ (rfc3339 a.since) s1 _ _ t (since_now-passes s1 _ v1 1 a (rw q1))
            λ s2 v2 p2.
              let q2 : view s2 ≡ with_lock t a = p2 ∙ q1 in
              then-Passes _ _ tt s2 _ _ t (must_lock-passes s2 _ v2 2 lockee_a false refl (rw q2))
                λ s3 v3 p3.
                  let q3 : view s3 ≡ with_lock t a = rw q2 at p3 in
                  then-Passes _ _ (rfc3339 a.since) s3 _ _ t (since_now-passes s3 _ v3 2 a (rw q3))
                    λ s4 v4 p4.
                      let q4 : view s4 ≡ with_lock t a = p4 ∙ q3 in
                      require-Passes _ _ _ s4 _ t (eq_refl (rfc3339 a.since)) (
                        then-Passes _ _ tt s4 _ _ t
                          (must_conflict-passes s4 _ v4 3 lockee_b refl (rw q4))
                          λ s5 v5 p5.
                            let q5 : view s5 ≡ with_lock t a = rw q4 at p5 in
                            then-Passes _ _ tt s5 _ _ t
                              (must_lock-passes s5 _ v5 4 lockee_b true refl (rw q5))
                              λ s6 v6 p6.
                                let q6 : view s6 ≡ with_lock (with_lock t a) b = rw q5 at p6 in
                                then-Passes _ _ tt s6 _ _ t
                                  (must_unlock-passes s6 _ v6 5 lockee_b refl (rw q6))
                                  λ s7 v7 p7.
                                    let q7 : view s7 ≡ t = (rw q6 at p7) ∙ removed t a b free in
                                    let (s8, e8, v8, p8) =
                                      must_be_absent-passes s7 _ v7 (rw q7 free) in
                                    (s8, _, e8, v8, p8 ∙ q7))

-- ===== src/Http/Refines.antt =====
-- The handlers over any lock store answer as the API of spec.md says, and never panic.
use distributed_locking.Base.{
  ℕ, ◌≡◌, refl, ◌∙◌, ap, String, Bool, true, false, Option, none, some, nat_eq, if◌then◌else◌,
  arith, Bool-cases, Option-cases, eq_iff, inl, inr,
}
use distributed_locking.Lock.{Lock, Time}
use distributed_locking.Lock.Listing.{find-key}
use distributed_locking.Status
use distributed_locking.Spec
use distributed_locking.Store.{Orders, LockStore, LockStoreLaws, in_order}
use distributed_locking.Http.Messages.{
  Request, Response, LockRequest, UnlockRequest, decode_lock, decode_unlock, write_json,
  write_header, http_error, lock_ok_resp, lock_conflict_resp,
}
use distributed_locking.Http.Handlers.{
  Route, healthz, lock, unlock, locks, not_allowed, no_route, route, lock_request, unlock_request,
  serve, serve_at, bad_request,
}
use distributed_locking.Http.Api.{
  is_missing, lock_response, unlock_response, after_lock, after_unlock, answer_lock, answer_unlock,
  after_at, after, AnswersAt, Answers,
}

-- the responses that the handlers write, from what the store answers
pub lock_response_lem :
    (t : Spec.Table) (req : LockRequest) (now : Time) (l : Lock) (b : Bool)
    → ((x : Lock) → t req.key ≡ some x → x.key ≡ req.key)
    → l ≡ (Spec.acquire t req.key req.lockee req.force now).1
    → b ≡ (Spec.acquire t req.key req.lockee req.force now).2
    → (if b
        then write_json Status.ok (lock_ok_resp true l.key l.lockee)
        else write_json Status.conflict (lock_conflict_resp false req.key l.lockee))
      ≡ lock_response (t req.key) req
lock_response_lem t req now l b keyed p q = elim (Option-cases (t req.key)) [
  | inl free ↦ ground (arith, p, q)
  | inr (x, held) ↦ ground (arith, p, q, keyed x held, eq_iff x.lockee req.lockee)
]

pub unlock_response_lem :
    (t : Spec.Table) (req : UnlockRequest) (status : ℕ) (msg : String)
    → status ≡ (Spec.release t req.key req.lockee).1
    → msg ≡ (Spec.release t req.key req.lockee).2
    → (if nat_eq status Status.ok then write_header Status.ok else http_error msg status)
      ≡ unlock_response (t req.key) req
unlock_response_lem t req status msg p q = ground arith

module _ (store : LockStore) (laws : LockStoreLaws store) where
  open store use {State, list}
  open laws use {IsValid, view}

  -- the lock of an entry bears the entry's key
  pub view-key :
      (s : State) (key : String) (l : Lock) → IsValid s → view s key ≡ some l → l.key ≡ key
  view-key s key l v e = find-key key _ l (laws.find-list in_order s key v ∙ e)

  -- a step that ends in a valid state with the given table and response
  abbrev Steps : Option (State × Response) → Spec.Table → Response → Type 0
  Steps m t w = (s : State) × (m ≡ some (s, w)) × IsValid s × (view s ≡ t)

  lock_request-Steps :
      (s : State) (req : LockRequest) (now : Time)
      → IsValid s
      → Steps
          (lock_request store s req now)
          (after_lock (view s) (some req) now)
          (answer_lock (view s) (some req))
  unfolding lock_request
  lock_request-Steps s req now v = elim (Bool-cases (is_missing req.key req.lockee)) [
    | inl missing ↦ (s, rw missing, v, rw missing)
    | inr present ↦
        let (t, l, b, e, w, p) = laws.acquire_lem s req.key req.lockee req.force now v in
        let right =
          lock_response_lem (view s) req now l b (λ x. view-key s req.key x v) (ap (λ x. x.1) p)
            (ap (λ x. x.2) p) in
        (t, rw (present, e) (ground (arith, right)), w, rw present (ap (λ x. x.0) p))
  ]

  unlock_request-Steps :
      (s : State) (req : UnlockRequest)
      → IsValid s
      → Steps
          (unlock_request store s req)
          (after_unlock (view s) (some req))
          (answer_unlock (view s) (some req))
  unfolding unlock_request
  unlock_request-Steps s req v = elim (Bool-cases (is_missing req.key req.lockee)) [
    | inl missing ↦ (s, rw missing, v, rw missing)
    | inr present ↦
        let (t, status, msg, e, w, p) = laws.release_lem s req.key req.lockee v in
        let right =
          unlock_response_lem (view s) req status msg (ap (λ x. x.1) p) (ap (λ x. x.2) p) in
        (t, rw (present, e) (ground (arith, right)), w, rw present (ap (λ x. x.0) p))
  ]

  handle_lock-Steps :
      (s : State) (req : Option LockRequest) (now : Time)
      → IsValid s
      → Steps
          (elim req [ none ↦ some (s, bad_request) | some q ↦ lock_request store s q now ])
          (after_lock (view s) req now)
          (answer_lock (view s) req)
  handle_lock-Steps s none now v = (s, refl, v, refl)
  handle_lock-Steps s (some req) now v = lock_request-Steps s req now v

  handle_unlock-Steps :
      (s : State) (req : Option UnlockRequest)
      → IsValid s
      → Steps
          (elim req [ none ↦ some (s, bad_request) | some q ↦ unlock_request store s q ])
          (after_unlock (view s) req)
          (answer_unlock (view s) req)
  handle_unlock-Steps s none v = (s, refl, v, refl)
  handle_unlock-Steps s (some req) v = unlock_request-Steps s req v

  serve_at-Refines :
      (rt : Route) (o : Orders) (s : State) (r : Request) (now : Time)
      → IsValid s
      → (t : State) × (w : Response) × (serve_at store rt o s r now ≡ some (t, w))
        × IsValid t
        × (view t ≡ after_at rt (view s) r now)
        × AnswersAt rt (view s) r w
  unfolding serve_at
  serve_at-Refines lock o s r now v =
      let (t, e, w, p) = handle_lock-Steps s (decode_lock r.body) now v in (t, _, e, w, p, refl)
  serve_at-Refines unlock o s r now v =
      let (t, e, w, p) = handle_unlock-Steps s (decode_unlock r.body) v in (t, _, e, w, p, refl)
  serve_at-Refines locks o s r now v = (
    s,
    _,
    refl,
    v,
    refl,
    (
      list o s,
      record { distinct = laws.list-Distinct o s v; found = λ key. laws.find-list o s key v },
      refl,
    ),
  )
  serve_at-Refines healthz o s r now v = (s, _, refl, v, refl, refl)
  serve_at-Refines not_allowed o s r now v = (s, _, refl, v, refl, refl)
  serve_at-Refines no_route o s r now v = (s, _, refl, v, refl, refl)

  -- From a valid state, the server answers every request as the API says, without a panic, and its
  -- next state is valid and holds the table that the API says.
  pub serve-Refines :
      (o : Orders) (s : State) (r : Request) (now : Time)
      → IsValid s
      → (t : State) × (w : Response) × (serve store o s r now ≡ some (t, w))
        × IsValid t
        × (view t ≡ after (view s) r now)
        × Answers (view s) r w
  unfolding serve
  serve-Refines o s r now v = serve_at-Refines (route r) o s r now v

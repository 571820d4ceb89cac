-- ===== src/Http/Refusals.antt =====
-- What the handlers leave behind when they answer with an error.
use distributed_locking.Base.{
  ◌≡◌, ◌≢◌, refl, sym, ap, ◌∙◌, Option, none, some, Bool-cases, inl, inr,
}
use distributed_locking.Lock.{Time}
use distributed_locking.Status
use distributed_locking.Spec
use distributed_locking.Store.{Orders, LockStore, LockStoreLaws}
use distributed_locking.Http.Messages.{
  Request, Response, LockRequest, UnlockRequest, write_json, write_header, decode_lock,
  decode_unlock,
}
use distributed_locking.Http.Handlers.{
  Route, healthz, lock, unlock, locks, not_allowed, no_route, route, serve,
}
use distributed_locking.Http.Api.{
  is_missing, lock_response, unlock_response, after_lock, after_unlock, answer_lock, answer_unlock,
  after_at, AnswersAt,
}
use distributed_locking.Http.Refines.{serve-Refines}

lock_response-kept :
    (t : Spec.Table) (req : LockRequest) (now : Time)
    → (lock_response (t req.key) req).status ≢ Status.ok
    → (Spec.acquire t req.key req.lockee req.force now).0 ≡ t
unfolding write_json
lock_response-kept t req now h = elim (Bool-cases (Spec.granted (t req.key) req.lockee req.force)) [
  | inl granted ↦ absurd (h (rw granted refl))
  | inr refused ↦ rw refused refl
]

unlock_response-kept :
    (t : Spec.Table) (req : UnlockRequest)
    → (unlock_response (t req.key) req).status ≢ Status.ok
    → (Spec.release t req.key req.lockee).0 ≡ t
unfolding write_header
unlock_response-kept t req h = elim (Bool-cases (Spec.is_held_by req.lockee (t req.key))) [
  | inl held ↦ absurd (h (rw held refl))
  | inr other ↦ rw other refl
]

answer_lock-kept :
    (t : Spec.Table) (req : Option LockRequest) (now : Time)
    → (answer_lock t req).status ≢ Status.ok
    → after_lock t req now ≡ t
answer_lock-kept t none now h = refl
answer_lock-kept t (some req) now h = elim (Bool-cases (is_missing req.key req.lockee)) [
  | inl missing ↦ rw missing refl
  | inr full ↦ rw full (lock_response-kept t req now (rw full at h))
]

answer_unlock-kept :
    (t : Spec.Table) (req : Option UnlockRequest)
    → (answer_unlock t req).status ≢ Status.ok
    → after_unlock t req ≡ t
answer_unlock-kept t none h = refl
answer_unlock-kept t (some req) h = elim (Bool-cases (is_missing req.key req.lockee)) [
  | inl missing ↦ rw missing refl
  | inr full ↦ rw full (unlock_response-kept t req (rw full at h))
]

AnswersAt-kept :
    (at_route : Route) (t : Spec.Table) (r : Request) (w : Response) (now : Time)
    → AnswersAt at_route t r w
    → w.status ≢ Status.ok
    → after_at at_route t r now ≡ t
AnswersAt-kept healthz t r w now a h = refl
AnswersAt-kept lock t r w now a h =
    answer_lock-kept t (decode_lock r.body) now (λ e. h (ap (λ x. x.status) a ∙ e))
AnswersAt-kept unlock t r w now a h =
    answer_unlock-kept t (decode_unlock r.body) (λ e. h (ap (λ x. x.status) a ∙ e))
AnswersAt-kept locks t r w now a h = refl
AnswersAt-kept not_allowed t r w now a h = refl
AnswersAt-kept no_route t r w now a h = refl

module _ (store : LockStore) (laws : LockStoreLaws store) where
  open store use {State}
  open laws use {IsValid, view}

  -- Over any lawful store, from a valid state, a request that is answered with another status than 200
  -- leaves every lock as it was, whatever the request.
  pub serve-kept :
      (o : Orders) (s t : State) (r : Request) (w : Response) (now : Time)
      → IsValid s
      → serve store o s r now ≡ some (t, w)
      → w.status ≢ Status.ok
      → view t ≡ view s
  serve-kept o s t r w now v e h =
      let (t', w', e', v', p, a) = serve-Refines store laws o s r now v in
      let same : some (t, w) ≡ some (t', w') = sym e ∙ e' in
      let table = ap (λ m. elim m [ none ↦ view s | some x ↦ view x.0 ]) same in
      let status = ap (λ m. elim m [ none ↦ 0 | some x ↦ x.1.status ]) same in
      table ∙ (p ∙ AnswersAt-kept (route r) (view s) r w' now a (λ q. h (status ∙ q)))

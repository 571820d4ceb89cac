-- ===== src/Http/Api.antt =====
-- The API of spec.md over the lock table: what each request does to the table and what it answers.
use distributed_locking.Base.{
  ◌≡◌, String, Bool, true, false, ◌||◌, Option, none, some, List, ◌==◌, if◌then◌else◌,
}
use distributed_locking.Lock.{Lock, Time}
use distributed_locking.Lock.Listing.{find, Distinct}
use distributed_locking.Status
use distributed_locking.Spec
use distributed_locking.Http.Messages.{
  Request, Response, LockRequest, UnlockRequest, write_json, http_error, write_header, decode_lock,
  decode_unlock, lock_ok_resp, lock_conflict_resp, lock_list_entries, lock_list_resp,
}
use distributed_locking.Http.Handlers.{
  Route, healthz, lock, unlock, locks, not_allowed, no_route, route, without_body, bad_request,
  missing_field, health_response,
}

-- a text that POST /lock and POST /unlock require
abbrev pub is_missing : String → String → Bool
is_missing key lockee = key == "" || lockee == ""

abbrev pub lock_response : Option Lock → LockRequest → Response
lock_response entry req =
    if Spec.granted entry req.lockee req.force
    then write_json Status.ok (lock_ok_resp true req.key req.lockee)
    else write_json Status.conflict
        (lock_conflict_resp false req.key (Spec.current entry (Spec.fresh "" "" 0)).lockee)

abbrev pub unlock_response : Option Lock → UnlockRequest → Response
unlock_response entry req =
    if Spec.is_held_by req.lockee entry
    then write_header Status.ok
    else http_error (Spec.release_message entry req.lockee) (Spec.release_status entry req.lockee)

-- the table after a request
abbrev pub after_lock : Spec.Table → Option LockRequest → Time → Spec.Table
after_lock t none now = t
after_lock t (some req) now =
    if is_missing req.key req.lockee then t else (Spec.acquire t req.key req.lockee req.force now).0

abbrev pub after_unlock : Spec.Table → Option UnlockRequest → Spec.Table
after_unlock t none = t
after_unlock t (some req) =
    if is_missing req.key req.lockee then t else (Spec.release t req.key req.lockee).0

abbrev pub answer_lock : Spec.Table → Option LockRequest → Response
answer_lock t none = bad_request
answer_lock t (some req) =
    if is_missing req.key req.lockee then missing_field else lock_response (t req.key) req

abbrev pub answer_unlock : Spec.Table → Option UnlockRequest → Response
answer_unlock t none = bad_request
answer_unlock t (some req) =
    if is_missing req.key req.lockee then missing_field else unlock_response (t req.key) req

abbrev pub after_at : Route → Spec.Table → Request → Time → Spec.Table
after_at lock t r now = after_lock t (decode_lock r.body) now
after_at unlock t r now = after_unlock t (decode_unlock r.body)
after_at _ t r now = t

abbrev pub after : Spec.Table → Request → Time → Spec.Table
after t r now = after_at (route r) t r now

-- A listing of a table: each key once, with the lock that the table holds there.
pub record IsListing (t : Spec.Table) (ls : List Lock) : Type 0 where
  pub distinct : Distinct ls
  pub found : (key : String) → find key ls ≡ t key

abbrev pub AnswersAt : Route → Spec.Table → Request → Response → Type 0
AnswersAt healthz t r w = w ≡ without_body r.method health_response
AnswersAt lock t r w = w ≡ answer_lock t (decode_lock r.body)
AnswersAt unlock t r w = w ≡ answer_unlock t (decode_unlock r.body)
AnswersAt locks t r w =
    (ls : List Lock) × IsListing t ls
    × (w ≡ without_body r.method (write_json Status.ok (lock_list_resp (lock_list_entries ls))))
AnswersAt not_allowed t r w =
    w ≡ without_body r.method (http_error "Method Not Allowed" Status.method_not_allowed)
AnswersAt no_route t r w =
    w ≡ without_body r.method (http_error "404 page not found" Status.not_found)

-- `w` is a right response to `r` at the table `t`. The order of a listing is left open.
abbrev pub Answers : Spec.Table → Request → Response → Type 0
Answers t r w = AnswersAt (route r) t r w

-- ===== src/Http/Handlers.antt =====
-- The HTTP handlers that solutions/go-inmemory/main.go and solutions/go-sharded/main.go both
-- register, over the methods of a store, and the routing of `http.ServeMux`.
use distributed_locking.Base.{
  String, true, false, ◌||◌, Option, none, some, ◌==◌, nat_eq, if◌then◌else◌,
}
use distributed_locking.Json.{Json, obj, field, end, str}
use distributed_locking.Lock.{Time}
use distributed_locking.Status
use distributed_locking.Store.{Orders, LockStore}
use distributed_locking.Http.Messages.{
  Request, empty, Response, LockRequest, UnlockRequest, write_json, http_error, write_header,
  decode_lock, decode_unlock, lock_ok_resp, lock_conflict_resp, lock_list_entries, lock_list_resp,
}

pub data Route : Type 0 where
  healthz lock unlock locks : Route
  not_allowed no_route : Route

-- A pattern "GET …" also matches HEAD. A path that other methods have answers 405.
post_route : String → Route → Route
post_route method r = if method == "POST" then r else not_allowed

get_route : String → Route → Route
get_route method r = if method == "GET" || method == "HEAD" then r else not_allowed

unfoldable pub route : Request → Route
unfolding post_route get_route
route r =
    if r.path == "/healthz"
    then get_route r.method healthz
    else if r.path == "/lock"
    then post_route r.method lock
    else if r.path == "/unlock"
    then post_route r.method unlock
    else if r.path == "/locks"
    then get_route r.method locks
    else no_route

-- the answer to HEAD has no body
unfoldable pub without_body : String → Response → Response
without_body method w = if method == "HEAD" then record w { body = empty } else w

unfoldable pub bad_request : Response
unfolding http_error
bad_request = http_error "bad request" Status.bad_request

unfoldable pub missing_field : Response
unfolding http_error
missing_field = http_error "key and lockee are required" Status.bad_request

unfoldable pub health_response : Response
unfolding write_json
health_response = write_json Status.ok (obj (field "status" (str "ok") end))

module _ (store : LockStore) where
  open store use {State, acquire, release, list}

  -- the end of the handler of POST /lock, once the request is decoded
  unfoldable pub lock_request : State → LockRequest → Time → Option (State × Response)
  lock_request s req now =
      if req.key == "" || req.lockee == ""
      then some (s, missing_field)
      else elim (acquire s req.key req.lockee req.force now) [
        | none ↦ none
        | some (t, l, acquired) ↦
            if acquired
            then some (t, write_json Status.ok (lock_ok_resp true l.key l.lockee))
            else some (t, write_json Status.conflict (lock_conflict_resp false req.key l.lockee))
      ]

  unfoldable pub handle_lock : State → Option Json → Time → Option (State × Response)
  unfolding lock_request
  handle_lock s body now = elim (decode_lock body) [
    | none ↦ some (s, bad_request)
    | some req ↦ lock_request s req now
  ]

  unfoldable pub unlock_request : State → UnlockRequest → Option (State × Response)
  unlock_request s req =
      if req.key == "" || req.lockee == ""
      then some (s, missing_field)
      else elim (release s req.key req.lockee) [
        | none ↦ none
        | some (t, status, msg) ↦
            if nat_eq status Status.ok
            then some (t, write_header Status.ok)
            else some (t, http_error msg status)
      ]

  unfoldable pub handle_unlock : State → Option Json → Option (State × Response)
  unfolding unlock_request
  handle_unlock s body = elim (decode_unlock body) [
    | none ↦ some (s, bad_request)
    | some req ↦ unlock_request s req
  ]

  unfoldable pub handle_locks : Orders → State → Response
  handle_locks o s = write_json Status.ok (lock_list_resp (lock_list_entries (list o s)))

  unfoldable pub serve_at : Route → Orders → State → Request → Time → Option (State × Response)
  unfolding without_body handle_lock handle_unlock handle_locks
  serve_at healthz o s r now = some (s, without_body r.method health_response)
  serve_at lock o s r now = handle_lock s r.body now
  serve_at unlock o s r now = handle_unlock s r.body
  serve_at locks o s r now = some (s, without_body r.method (handle_locks o s))
  serve_at not_allowed o s r now =
      some (s, without_body r.method (http_error "Method Not Allowed" Status.method_not_allowed))
  serve_at no_route o s r now =
      some (s, without_body r.method (http_error "404 page not found" Status.not_found))

  -- One request: the state after it, and the response. `none` is a panic in a handler.
  unfoldable pub serve : Orders → State → Request → Time → Option (State × Response)
  unfolding route serve_at
  serve o s r now = serve_at (route r) o s r now

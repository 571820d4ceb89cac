-- ===== src/Http/Messages.antt =====
-- Requests and responses of the lock API, and the JSON of the structs in the handlers: `req`,
-- `lockOKResp`, `lockConflictResp`, `lockListEntry` and `lockListResp`.
use Prim.Native.String.{◌++◌ as str_append}
use mathlib.Core.Option
use distributed_locking.Base.{
  ℕ, String, Bool, true, false, Option, none, some, List, [], ◌∷◌, if◌then◌else◌,
}
use distributed_locking.Json.{
  Json, null, bool, str, arr, obj, Items, nil, cons, Fields, end, field, names, decode_string,
  decode_bool,
}
use distributed_locking.Lock.{Lock}
use distributed_locking.Format.{rfc3339}

-- `body` is the first JSON value of the body, `none` if there is none. `path` is one that `ServeMux`
-- takes as it is: others, such as //lock, it sends away to their clean form before any handler.
pub record Request : Type 0 where
  pub method : String
  pub path : String
  pub body : Option Json

pub data Body : Type 0 where
  empty : Body
  json : Json → Body
  plain : String → Body

pub record Response : Type 0 where
  pub status : ℕ
  pub content_type : Option String
  pub nosniff : Bool  -- `X-Content-Type-Options: nosniff`
  pub body : Body

-- `writeJSON`
unfoldable pub write_json : ℕ → Json → Response
write_json status v = record {
  status = status;
  content_type = some "application/json";
  nosniff = false;
  body = json v;
}

-- `http.Error`
unfoldable pub http_error : String → ℕ → Response
http_error msg code = record {
  status = code;
  content_type = some "text/plain; charset=utf-8";
  nosniff = true;
  body = plain (str_append msg "\n");
}

-- `w.WriteHeader(status)` and no body
unfoldable pub write_header : ℕ → Response
write_header status = record { status = status; content_type = none; nosniff = false; body = empty }

pub record LockRequest : Type 0 where
  pub key : String
  pub lockee : String
  pub force : Bool

pub record UnlockRequest : Type 0 where
  pub key : String
  pub lockee : String

set_lock_field : String → Json → LockRequest → Option LockRequest
unfolding names decode_string decode_bool
set_lock_field name v req =
    if names name "key"
    then Option.map (λ s. record req { key = s }) (decode_string v req.key)
    else if names name "lockee"
    then Option.map (λ s. record req { lockee = s }) (decode_string v req.lockee)
    else if names name "force"
    then Option.map (λ b. record req { force = b }) (decode_bool v req.force)
    else some req

set_unlock_field : String → Json → UnlockRequest → Option UnlockRequest
unfolding names decode_string
set_unlock_field name v req =
    if names name "key"
    then Option.map (λ s. record req { key = s }) (decode_string v req.key)
    else if names name "lockee"
    then Option.map (λ s. record req { lockee = s }) (decode_string v req.lockee)
    else some req

-- A later member overwrites an earlier one.
lock_fields : Fields → LockRequest → Option LockRequest
unfolding set_lock_field
lock_fields end req = some req
lock_fields (field name v rest) req = elim (set_lock_field name v req) [
  | none ↦ none
  | some req' ↦ lock_fields rest req'
]

unlock_fields : Fields → UnlockRequest → Option UnlockRequest
unfolding set_unlock_field
unlock_fields end req = some req
unlock_fields (field name v rest) req = elim (set_unlock_field name v req) [
  | none ↦ none
  | some req' ↦ unlock_fields rest req'
]

-- `json.NewDecoder(r.Body).Decode(&req)`; `none` is an error
unfoldable pub decode_lock : Option Json → Option LockRequest
unfolding lock_fields
decode_lock none = none
decode_lock (some null) = some (record { key = ""; lockee = ""; force = false })
decode_lock (some (obj fields)) =
    lock_fields fields (record { key = ""; lockee = ""; force = false })
decode_lock (some v) = none

unfoldable pub decode_unlock : Option Json → Option UnlockRequest
unfolding unlock_fields
decode_unlock none = none
decode_unlock (some null) = some (record { key = ""; lockee = "" })
decode_unlock (some (obj fields)) = unlock_fields fields (record { key = ""; lockee = "" })
decode_unlock (some v) = none

-- `lockOKResp`
unfoldable pub lock_ok_resp : Bool → String → String → Json
lock_ok_resp locked key lockee =
    obj (field "locked" (bool locked) (field "key" (str key) (field "lockee" (str lockee) end)))

-- `lockConflictResp`
unfoldable pub lock_conflict_resp : Bool → String → String → Json
lock_conflict_resp locked key current_lockee = obj (
    field "locked" (bool locked)
      (field "key" (str key) (field "currentLockee" (str current_lockee) end)))

-- `lockListEntry`
unfoldable pub lock_list_entry : Lock → Json
lock_list_entry l = obj (
    field "key" (str l.key)
      (field "lockee" (str l.lockee) (field "since" (str (rfc3339 l.since)) end)))

-- the loop that fills `entries`
unfoldable pub lock_list_entries : List Lock → Items
unfolding lock_list_entry
lock_list_entries [] = nil
lock_list_entries (l ∷ locks) = cons (lock_list_entry l) (lock_list_entries locks)

-- `lockListResp`
unfoldable pub lock_list_resp : Items → Json
lock_list_resp locks = obj (field "locks" (arr locks) end)

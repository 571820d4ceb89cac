-- ===== src/Validate/Client.antt =====
-- benchmark/validate.go: the HTTP client's calls, with the service behind them as a state that
-- requests change.
use mathlib.Core.Option
use distributed_locking.Base.{
  ℕ, String, Bool, false, Option, none, some, List, [], ◌∷◌, ◌==◌, if◌then◌else◌,
}
use distributed_locking.Json.{
  Json, null, bool, str, arr, obj, Items, nil, cons, Fields, end, field, names, decode_string,
  decode_bool,
}
use distributed_locking.Http.Messages.{Request, Response, Body, json}

-- What `client.Do` and the reading of the body come to.
pub data Outcome : Type 0 where
  no_response : Outcome
  unreadable : ℕ → Outcome
  received : Response → Outcome

-- a service as the client meets it
pub record Server : Type 1 where
  pub State : Type 0
  pub round_trip : State → Request → Outcome × State

pub data ClientError : Type 0 where
  transport : ClientError
  read_body : ClientError
  decode : ℕ → ClientError
  key_absent : ClientError

pub data Result (A : Type 0) : Type 0 where
  ok : A → Result A
  err : ClientError → Result A

-- `lockResponse`
pub record LockResponse : Type 0 where
  pub locked : Bool
  pub key : String
  pub lockee : String
  pub current_lockee : String

-- `lockEntry`
pub record LockEntry : Type 0 where
  pub key : String
  pub lockee : String
  pub since : String

set_response_field : String → Json → LockResponse → Option LockResponse
unfolding names decode_string decode_bool
set_response_field name v r =
    if names name "locked"
    then Option.map (λ b. record r { locked = b }) (decode_bool v r.locked)
    else if names name "key"
    then Option.map (λ s. record r { key = s }) (decode_string v r.key)
    else if names name "lockee"
    then Option.map (λ s. record r { lockee = s }) (decode_string v r.lockee)
    else if names name "currentLockee"
    then Option.map (λ s. record r { current_lockee = s }) (decode_string v r.current_lockee)
    else some r

response_fields : Fields → LockResponse → Option LockResponse
unfolding set_response_field
response_fields end r = some r
response_fields (field name v rest) r = elim (set_response_field name v r) [
  | none ↦ none
  | some r' ↦ response_fields rest r'
]

abbrev pub no_response_yet : LockResponse
no_response_yet = record { locked = false; key = ""; lockee = ""; current_lockee = "" }

-- `json.Unmarshal(rawBody, &lr)` of a lock response; a body that is no JSON is an error
unfoldable pub decode_response : Body → Option LockResponse
unfolding response_fields
decode_response (json (obj fields)) = response_fields fields no_response_yet
decode_response (json null) = some no_response_yet
decode_response _ = none

set_entry_field : String → Json → LockEntry → Option LockEntry
unfolding names decode_string
set_entry_field name v e =
    if names name "key"
    then Option.map (λ s. record e { key = s }) (decode_string v e.key)
    else if names name "lockee"
    then Option.map (λ s. record e { lockee = s }) (decode_string v e.lockee)
    else if names name "since"
    then Option.map (λ s. record e { since = s }) (decode_string v e.since)
    else some e

entry_fields : Fields → LockEntry → Option LockEntry
unfolding set_entry_field
entry_fields end e = some e
entry_fields (field name v rest) e = elim (set_entry_field name v e) [
  | none ↦ none
  | some e' ↦ entry_fields rest e'
]

abbrev no_entry : LockEntry
no_entry = record { key = ""; lockee = ""; since = "" }

unfoldable pub decode_entry : Json → Option LockEntry
unfolding entry_fields
decode_entry (obj fields) = entry_fields fields no_entry
decode_entry null = some no_entry
decode_entry _ = none

unfoldable pub decode_entries : Items → Option (List LockEntry)
unfolding decode_entry
decode_entries nil = some []
decode_entries (cons v rest) = elim (decode_entry v) [
  | none ↦ none
  | some e ↦ Option.map (λ es. e ∷ es) (decode_entries rest)
]

-- the field of `locksResponse`: an array, or null for no array
decode_locks_field : Json → List LockEntry → Option (List LockEntry)
unfolding decode_entries
decode_locks_field (arr items) old = decode_entries items
decode_locks_field null old = some []
decode_locks_field _ old = none

locks_fields : Fields → List LockEntry → Option (List LockEntry)
unfolding decode_locks_field names
locks_fields end es = some es
locks_fields (field name v rest) es =
    let this = if names name "locks" then decode_locks_field v es else some es in
    elim this [ none ↦ none | some es' ↦ locks_fields rest es' ]

-- `json.Unmarshal(rawBody, &lr)` of a `locksResponse`
unfoldable pub decode_locks : Body → Option (List LockEntry)
unfolding locks_fields
decode_locks (json (obj fields)) = locks_fields fields []
decode_locks (json null) = some []
decode_locks _ = none

-- `json.Marshal` of the maps in `sendLock` and `sendUnlock`, with their keys in order
unfoldable pub lock_body : String → String → Bool → Json
lock_body key lockee force =
    obj (field "force" (bool force) (field "key" (str key) (field "lockee" (str lockee) end)))

unfoldable pub unlock_body : String → String → Json
unlock_body key lockee = obj (field "key" (str key) (field "lockee" (str lockee) end))

unfoldable pub lock_message : String → String → Bool → Request
unfolding lock_body
lock_message key lockee force = record {
  method = "POST";
  path = "/lock";
  body = some (lock_body key lockee force);
}

unfoldable pub unlock_message : String → String → Request
unfolding unlock_body
unlock_message key lockee = record {
  method = "POST";
  path = "/unlock";
  body = some (unlock_body key lockee);
}

unfoldable pub locks_message : Request
locks_message = record { method = "GET"; path = "/locks"; body = none }

-- the results of the three calls, from what came back
unfoldable pub read_lock : Outcome → Result (ℕ × LockResponse)
read_lock no_response = err transport
read_lock (unreadable status) = err read_body
read_lock (received w) = elim (decode_response w.body) [
  | none ↦ err (decode w.status)
  | some lr ↦ ok (w.status, lr)
]

-- The body of the answer to POST /unlock is not read.
unfoldable pub read_unlock : Outcome → Result ℕ
read_unlock no_response = err transport
read_unlock (unreadable status) = ok status
read_unlock (received w) = ok w.status

-- the loop of `findLockSince`
unfoldable pub find_entry : String → List LockEntry → Result String
find_entry key [] = err key_absent
find_entry key (e ∷ es) = if e.key == key then ok e.since else find_entry key es

unfoldable pub read_since : String → Outcome → Result String
unfolding find_entry
read_since key no_response = err transport
read_since key (unreadable status) = err read_body
read_since key (received w) = elim (decode_locks w.body) [
  | none ↦ err (decode w.status)
  | some es ↦ find_entry key es
]

module _ (server : Server) where
  open server use {State, round_trip}

  unfoldable pub send_lock : String → String → Bool → State → Result (ℕ × LockResponse) × State
  send_lock key lockee force s =
      let (out, t) = round_trip s (lock_message key lockee force) in (read_lock out, t)

  unfoldable pub send_unlock : String → String → State → Result ℕ × State
  send_unlock key lockee s =
      let (out, t) = round_trip s (unlock_message key lockee) in (read_unlock out, t)

  unfoldable pub find_lock_since : String → State → Result String × State
  find_lock_since key s = let (out, t) = round_trip s locks_message in (read_since key out, t)

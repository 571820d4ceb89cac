-- ===== src/Spec.antt =====
-- The lock service as spec.md promises it: who holds each key, and what POST /lock and POST /unlock
-- do to that. No map, no shard and no order of entries is left.
pub mod Laws
use distributed_locking.Base.{
  ℕ, Bool, true, false, ◌||◌, ◌&&◌, not, String, Option, none, some, ◌==◌, if◌then◌else◌,
}
use distributed_locking.Lock.{Lock, Time}
use distributed_locking.Status

abbrev pub Table : Type 0
Table = String → Option Lock

abbrev pub empty : Table
empty key = none

-- the table with another entry at one key
abbrev pub update : Table → String → Option Lock → Table
update t key entry j = if key == j then entry else t j

abbrev pub is_free : Option Lock → Bool
is_free none = true
is_free (some l) = false

abbrev pub is_held_by : String → Option Lock → Bool
is_held_by lockee none = false
is_held_by lockee (some l) = l.lockee == lockee

-- the lock of an entry, and a new one for a free entry
abbrev pub current : Option Lock → Lock → Lock
current none fresh = fresh
current (some l) fresh = l

abbrev pub fresh : String → String → Time → Lock
fresh key lockee now = record { key = key; lockee = lockee; since = now }

-- POST /lock is granted on a free key, to the holder, and by force.
abbrev pub granted : Option Lock → String → Bool → Bool
granted entry lockee force = is_free entry || is_held_by lockee entry || force

-- An entry is replaced where the request is granted, and not to the holder.
abbrev pub taken : Option Lock → String → Bool → Bool
taken entry lockee force = granted entry lockee force && not (is_held_by lockee entry)

abbrev pub acquire : Table → String → String → Bool → Time → Table × Lock × Bool
acquire t key lockee force now =
    let new = fresh key lockee now in
    let replaced = taken (t key) lockee force in
    (
      (if replaced then update t key (some new) else t),
      (if replaced then new else current (t key) new),
      granted (t key) lockee force,
    )

abbrev pub release_status : Option Lock → String → ℕ
release_status entry lockee =
    if is_free entry
    then Status.not_found
    else if is_held_by lockee entry
    then Status.ok
    else Status.forbidden

-- the text of the response to a refused POST /unlock
abbrev pub release_message : Option Lock → String → String
release_message entry lockee =
    if is_free entry then "not found" else if is_held_by lockee entry then "" else "lockee mismatch"

abbrev pub release : Table → String → String → Table × ℕ × String
release t key lockee = (
  (if is_held_by lockee (t key) then update t key none else t),
  release_status (t key) lockee,
  release_message (t key) lockee,
)

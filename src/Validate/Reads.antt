-- ===== src/Validate/Reads.antt =====
-- The client's messages as the API reads them, and the API's answers as the client reads them.
use distributed_locking.Base.{
  ◌≡◌, refl, ap, String, Bool, true, false, Option, none, some, List, [], ◌∷◌, map, arith,
}
use distributed_locking.Format.{rfc3339}
use distributed_locking.Lock.{Lock, Time}
use distributed_locking.Lock.Listing.{find}
use distributed_locking.Status
use distributed_locking.Spec
use distributed_locking.Http.Messages.{
  Response, json, LockRequest, UnlockRequest, write_json, write_header, lock_ok_resp,
  lock_conflict_resp, lock_list_entries, lock_list_resp, decode_lock, decode_unlock,
}
use distributed_locking.Http.Handlers.{route, without_body}
use distributed_locking.Http.Api.{is_missing, lock_response, unlock_response, after, Answers}
use distributed_locking.Validate.Client.{
  received, Result, ok, err, key_absent, LockResponse, LockEntry, decode_response, decode_entries,
  decode_locks, lock_message, unlock_message, locks_message, read_lock, read_unlock, read_since,
  find_entry,
}

-- The messages, as the API reads them.
module _ (t : Spec.Table) (key lockee : String) where
  pub after-lock_message :
      (force : Bool) (now : Time)
      → is_missing key lockee ≡ false
      → after t (lock_message key lockee force) now ≡ (Spec.acquire t key lockee force now).0
  unfolding route lock_message decode_lock
  after-lock_message force now present = rw present

  pub Answers-lock_message :
      (force : Bool) (w : Response)
      → is_missing key lockee ≡ false
      → Answers t (lock_message key lockee force) w
      → w ≡ lock_response (t key) (record { key = key; lockee = lockee; force = force })
  unfolding route lock_message decode_lock
  Answers-lock_message force w present a = rw present at a

  pub after-unlock_message :
      (now : Time)
      → is_missing key lockee ≡ false
      → after t (unlock_message key lockee) now ≡ (Spec.release t key lockee).0
  unfolding route unlock_message decode_unlock
  after-unlock_message now present = rw present

  pub Answers-unlock_message :
      (w : Response)
      → is_missing key lockee ≡ false
      → Answers t (unlock_message key lockee) w
      → w ≡ unlock_response (t key) (record { key = key; lockee = lockee })
  unfolding route unlock_message decode_unlock
  Answers-unlock_message w present a = rw present at a

-- what the client reads of a granted and of a refused request
pub read_lock-granted :
    (entry : Option Lock) (req : LockRequest)
    → Spec.granted entry req.lockee req.force ≡ true
    → (lr : LockResponse) × (read_lock (received (lock_response entry req)) ≡ ok (Status.ok, lr))
      × (lr.locked ≡ true)
unfolding read_lock write_json lock_ok_resp decode_response
read_lock-granted entry req h =
    (record { locked = true; key = req.key; lockee = req.lockee; current_lockee = "" }, rw h, refl)

pub read_lock-refused :
    (entry : Option Lock) (req : LockRequest)
    → Spec.granted entry req.lockee req.force ≡ false
    → (lr : LockResponse) × (read_lock (received (lock_response entry req))
        ≡ ok (Status.conflict, lr))
unfolding read_lock write_json lock_conflict_resp decode_response
read_lock-refused entry req h = (
  record {
    locked = false;
    key = req.key;
    lockee = "";
    current_lockee = (Spec.current entry (Spec.fresh "" "" 0)).lockee;
  },
  rw h,
)

pub read_unlock-released :
    (entry : Option Lock) (req : UnlockRequest)
    → Spec.is_held_by req.lockee entry ≡ true
    → read_unlock (received (unlock_response entry req)) ≡ ok Status.ok
unfolding read_unlock write_header
read_unlock-released entry req h = rw h

unfoldable pub entry_of : Lock → LockEntry
entry_of l = record { key = l.key; lockee = l.lockee; since = rfc3339 l.since }

decode_entries-lock_list_entries :
    (ls : List Lock) → decode_entries (lock_list_entries ls) ≡ some (map entry_of ls)
unfolding decode_entries lock_list_entries entry_of
decode_entries-lock_list_entries [] = refl
decode_entries-lock_list_entries (l ∷ ls) = rw (decode_entries-lock_list_entries ls)

-- what the client finds for an entry of the table
abbrev pub since_of : Option Lock → Result String
since_of none = err key_absent
since_of (some l) = ok (rfc3339 l.since)

find_entry-map :
    (key : String) (ls : List Lock) → find_entry key (map entry_of ls) ≡ since_of (find key ls)
unfolding find_entry find entry_of
find_entry-map key [] = refl
find_entry-map key (l ∷ ls) = ground (arith, find_entry-map key ls)

pub decode_locks-listing :
    (ls : List Lock)
    → decode_locks (json (lock_list_resp (lock_list_entries ls))) ≡ some (map entry_of ls)
unfolding lock_list_resp decode_locks
decode_locks-listing ls = ground (arith, decode_entries-lock_list_entries ls)

read_since-listing :
    (key : String) (ls : List Lock)
    → read_since key (received (write_json Status.ok (lock_list_resp (lock_list_entries ls))))
      ≡ since_of (find key ls)
unfolding read_since write_json
read_since-listing key ls = ground (arith, decode_locks-listing ls, find_entry-map key ls)

pub Answers-locks_message :
    (t : Spec.Table) (key : String) (w : Response)
    → Answers t locks_message w
    → read_since key (received w) ≡ since_of (t key)
unfolding route locks_message without_body
Answers-locks_message t key w (ls, is, e) =
    rw e (rw (read_since-listing key ls) (ap since_of (is.found key)))

pub after-locks_message : (t : Spec.Table) (now : Time) → after t locks_message now ≡ t
unfolding route locks_message
after-locks_message t now = refl

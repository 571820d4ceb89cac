-- ===== src/Validate/RoundTrip.antt =====
-- What the client of benchmark/validate.go encodes, the servers decode, and the other way round.
use distributed_locking.Base.{◌≡◌, refl, String, Bool, some, List, map}
use distributed_locking.Lock.{Lock}
use distributed_locking.Http.Messages.{
  json, lock_ok_resp, lock_conflict_resp, lock_list_entries, lock_list_resp, decode_lock,
  decode_unlock,
}
use distributed_locking.Validate.Client.{decode_response, decode_locks, lock_body, unlock_body}
use distributed_locking.Validate.Reads.{entry_of, decode_locks-listing}

-- What one side encodes the other decodes, whatever the texts and flags are: the servers read from
-- the client's bodies the key, the lockee and the flag that it put in; the client reads from the
-- servers' bodies the flag, the key and the lockee of a granted request, the holder of a refused one,
-- and every lock of a listing, in order, with its time stamp in RFC 3339.
pub decode-bodies :
    (key lockee : String) (flag : Bool) (ls : List Lock)
    → (decode_lock (some (lock_body key lockee flag))
        ≡ some (record { key = key; lockee = lockee; force = flag }))
      × (decode_unlock (some (unlock_body key lockee))
          ≡ some (record { key = key; lockee = lockee }))
      × (decode_response (json (lock_ok_resp flag key lockee))
          ≡ some (record { locked = flag; key = key; lockee = lockee; current_lockee = "" }))
      × (decode_response (json (lock_conflict_resp flag key lockee))
          ≡ some (record { locked = flag; key = key; lockee = ""; current_lockee = lockee }))
      × (decode_locks (json (lock_list_resp (lock_list_entries ls))) ≡ some (map entry_of ls))
unfolding decode_lock lock_body decode_unlock unlock_body decode_response lock_ok_resp
    lock_conflict_resp
decode-bodies key lockee flag ls = (refl, refl, refl, refl, decode_locks-listing ls)

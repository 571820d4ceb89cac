-- ===== src/Tests/Validation.antt =====
-- The validation: runs, and the theorems at concrete services.
use distributed_locking.Base.{◌≡◌, refl, true, none, some, [], ◌∷◌, map}
use distributed_locking.Map.{lookup, insert, remove, values}
use distributed_locking.Format.{rfc3339}
use distributed_locking.Http.Handlers.{serve}
use distributed_locking.Http.Messages.{
  json, decode_lock, decode_unlock, write_json, http_error, write_header, lock_ok_resp,
  lock_conflict_resp, lock_list_resp, lock_list_entries,
}
use distributed_locking.InMemory
use distributed_locking.InMemory.Refines.{in_memory}
use distributed_locking.Sharded
use distributed_locking.Sharded.Refines.{sharded, sharded_laws}
use distributed_locking.Validate.Client.{
  locks_message, send_lock, send_unlock, find_lock_since, read_lock, read_unlock, read_since,
  decode_response, decode_locks, lock_body, unlock_body, lock_message, unlock_message,
}
use distributed_locking.Validate.Checks.{
  pass, validate_spec, must_be_absent, ◌>>=◌, must_lock, must_conflict, must_unlock, since_now,
}
use distributed_locking.Validate.Service.{service, round_trip_of}
use distributed_locking.Validate.Reads.{entry_of}
use distributed_locking.Validate.RoundTrip
use distributed_locking.Validate.Passes
use distributed_locking.Validate.Passes.{Passes}
use distributed_locking.Validate.Verdicts
use distributed_locking.Validate.Verdicts.{Transcript}
use distributed_locking.Tests.Data.{hash, env, lock_a}

new_view : (sharded_laws hash).view Sharded.new_store "__validate__" ≡ none
unfolding sharded_laws Sharded.new_store Sharded.shard_of lookup
new_view = refl

validate_spec-Passes_example :
    Passes
      (sharded hash)
      (sharded_laws hash)
      env
      (validate_spec (service (sharded hash) env))
      Sharded.new_store
      0
      ((sharded_laws hash).view Sharded.new_store)
validate_spec-Passes_example =
    Passes.validate_spec-Passes (sharded hash) (sharded_laws hash) env Sharded.new_store 0
      ((sharded_laws hash).new_store-IsValid) new_view

-- The validation of go-inmemory, run: it passes and leaves the store empty.
inmemory_run :
    validate_spec (service in_memory env) (InMemory.new_store, 0)
    ≡ (pass tt, (InMemory.new_store, 8))
unfolding validate_spec ◌>>=◌ must_lock must_conflict must_unlock since_now must_be_absent send_lock
    send_unlock find_lock_since read_lock read_unlock read_since decode_response decode_locks
    lock_message unlock_message locks_message round_trip_of serve lookup insert remove values
    InMemory.acquire InMemory.release InMemory.list InMemory.new_store decode_lock decode_unlock
    write_json http_error write_header lock_ok_resp lock_conflict_resp lock_list_resp
    lock_list_entries rfc3339
inmemory_run = refl

validate_spec-Transcript_example :
    Transcript (service in_memory env) (InMemory.new_store, 0) (InMemory.new_store, 8)
validate_spec-Transcript_example =
    Verdicts.validate_spec-Transcript (service in_memory env) (InMemory.new_store, 0)
      (InMemory.new_store, 8) inmemory_run

decode-bodies_example :
    (decode_lock (some (lock_body "a" "ann" true))
      ≡ some (record { key = "a"; lockee = "ann"; force = true }))
    × (decode_unlock (some (unlock_body "a" "ann")) ≡ some (record { key = "a"; lockee = "ann" }))
    × (decode_response (json (lock_ok_resp true "a" "ann"))
        ≡ some (record { locked = true; key = "a"; lockee = "ann"; current_lockee = "" }))
    × (decode_response (json (lock_conflict_resp true "a" "ann"))
        ≡ some (record { locked = true; key = "a"; lockee = ""; current_lockee = "ann" }))
    × (decode_locks (json (lock_list_resp (lock_list_entries (lock_a ∷ []))))
        ≡ some (map entry_of (lock_a ∷ [])))
decode-bodies_example = RoundTrip.decode-bodies "a" "ann" true (lock_a ∷ [])

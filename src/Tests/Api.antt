-- ===== src/Tests/Api.antt =====
-- The handlers: runs, and the theorems at the script.
use distributed_locking.Base.{
  ℕ, ◌≡◌, refl, true, false, Option, some, none, List, [], ◌∷◌, map, All, arith, eq_iff,
}
use distributed_locking.Map.{lookup, insert, remove, values}
use distributed_locking.Json.{names}
use distributed_locking.Status
use distributed_locking.Store.{in_order}
use distributed_locking.Format.{rfc3339, decimal}
use distributed_locking.InMemory
use distributed_locking.InMemory.Refines.{in_memory, in_memory_laws}
use distributed_locking.Sharded
use distributed_locking.Http.Messages.{
  Response, write_json, http_error, write_header, decode_lock, decode_unlock, lock_conflict_resp,
}
use distributed_locking.Http.Handlers.{route, serve, bad_request}
use distributed_locking.Http.Runs.{Call, run, after_all, AnswersAll, AlikeAll}
use distributed_locking.Http.Runs
use distributed_locking.Http.Refusals
use distributed_locking.Http.Holding
use distributed_locking.Http.Holding.{ends, Contends}
use distributed_locking.Servers
use distributed_locking.Servers.{inmemory_main, sharded_main}
use distributed_locking.Validate.Client.{lock_message, unlock_message, locks_message}
use distributed_locking.Tests.Data.{hash, lock_a, holds_a, script, call}

new_year : rfc3339 1704067200000000000 ≡ "2024-01-01T00:00:00Z"
unfolding rfc3339
new_year = refl

leap_day : rfc3339 1709210096000000001 ≡ "2024-02-29T12:34:56Z"
unfolding rfc3339
leap_day = refl

key_number : decimal 1024 ≡ "1024"
unfolding decimal
key_number = refl

unfold_api : Unit {0}
unfolding inmemory_main run serve lookup insert remove values InMemory.acquire InMemory.release
    InMemory.list InMemory.new_store lock_message unlock_message locks_message decode_lock
    decode_unlock write_json http_error write_header names
unfold_api = tt

-- the status codes of the script, which go-inmemory answers in order
statuses : Option (InMemory.Store × List Response) → List ℕ
statuses none = []
statuses (some (s, ws)) = map (λ w. w.status) ws

script-statuses : statuses (inmemory_main script) ≡ 200 ∷ 409 ∷ 200 ∷ 200 ∷ 403 ∷ 200 ∷ 400 ∷ []
unfolding unfold_api statuses bad_request
script-statuses = refl

mains-AlikeAll_example :
    (s : InMemory.Store) × (t : Sharded.Store) × (ws : List Response) × (ws' : List Response)
    × (inmemory_main script ≡ some (s, ws))
    × (sharded_main hash script ≡ some (t, ws'))
    × AlikeAll script ws ws'
mains-AlikeAll_example = Servers.mains-AlikeAll hash script

holds_a-IsValid : in_memory_laws.IsValid holds_a
unfolding in_memory_laws lookup
holds_a-IsValid = record { is_map = (refl, tt); is_keyed = (refl, tt) }

holds_a-view : in_memory_laws.view holds_a "a" ≡ some lock_a
unfolding in_memory_laws lookup
holds_a-view = refl

run-Refines_example :
    (t : InMemory.Store) × (ws : List Response) × (run in_memory holds_a script ≡ some (t, ws))
    × in_memory_laws.IsValid t
    × (in_memory_laws.view t ≡ after_all (in_memory_laws.view holds_a) script)
    × AnswersAll (in_memory_laws.view holds_a) script ws
run-Refines_example = Runs.run-Refines in_memory in_memory_laws holds_a script holds_a-IsValid

-- bob asks for the lock that ann holds
refused :
    serve in_memory in_order holds_a (lock_message "a" "bob" false) 9
    ≡ some (holds_a, write_json Status.conflict (lock_conflict_resp false "a" "ann"))
unfolding unfold_api
refused = refl

serve-kept_example : in_memory_laws.view holds_a ≡ in_memory_laws.view holds_a
unfolding write_json
serve-kept_example =
    Refusals.serve-kept in_memory in_memory_laws in_order holds_a holds_a
      (lock_message "a" "bob" false)
      (write_json Status.conflict (lock_conflict_resp false "a" "ann")) 9 holds_a-IsValid refused
      (omega arith)

-- calls that leave ann's lock alone, and one that contends for it
abbrev quiet : List Call
quiet =
    call (lock_message "b" "bob" true) 1
    ∷ call (unlock_message "a" "bob") 2
    ∷ call locks_message 3
    ∷ []

quiet_keeps : All (λ c. ends "a" lock_a c ≡ false) quiet
unfolding route lock_message unlock_message locks_message decode_lock decode_unlock
quiet_keeps = (refl, (refl, (refl, tt)))

bob-Contends :
    Contends "a" lock_a
      (lock_message "a" "bob" false)
      (record { key = "a"; lockee = "bob"; force = false })
unfolding route lock_message decode_lock
bob-Contends = record {
  is_lock = refl;
  decoded = refl;
  same_key = refl;
  present = refl;
  other = ground (arith, eq_iff "bob" "ann");
  gentle = refl;
}

exclusion_example :
    (t : InMemory.Store) × (ws : List Response) × (u : InMemory.Store) × (run in_memory holds_a
        quiet
      ≡ some (t, ws))
    × (serve in_memory in_order t (lock_message "a" "bob" false) 9
        ≡ some (u, write_json Status.conflict (lock_conflict_resp false "a" "ann")))
    × (in_memory_laws.view u "a" ≡ some lock_a)
exclusion_example =
    Holding.exclusion in_memory in_memory_laws holds_a quiet "a" lock_a in_order
      (lock_message "a" "bob" false) (record { key = "a"; lockee = "bob"; force = false }) 9
      holds_a-IsValid holds_a-view quiet_keeps bob-Contends

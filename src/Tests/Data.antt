-- ===== src/Tests/Data.antt =====
-- Stores, requests and scripts for the tests.
use Prim.Native.String.{len}
use distributed_locking.Base.{ℕ, String, true, false, none, List, [], ◌∷◌}
use distributed_locking.Lock.{Lock, Time}
use distributed_locking.Store.{in_order}
use distributed_locking.Http.Messages.{Request}
use distributed_locking.Http.Runs.{Call}
use distributed_locking.InMemory
use distributed_locking.Validate.Client.{lock_message, unlock_message, locks_message}
use distributed_locking.Validate.Service.{Environment}

-- a hash that puts every short text into a shard of its length
abbrev pub hash : String → ℕ
hash = len

abbrev pub lock_a : Lock
lock_a = record { key = "a"; lockee = "ann"; since = 7 }

abbrev pub holds_a : InMemory.Store
holds_a = record { locks = ("a", lock_a) ∷ [] }

abbrev pub call : Request → Time → Call
call r now = record { request = r; now = now; orders = in_order }

-- ann locks "a", bob is refused, forces, and releases; then a listing and a broken request
abbrev pub script : List Call
script =
    call (lock_message "a" "ann" false) 1
    ∷ call (lock_message "a" "bob" false) 2
    ∷ call (lock_message "a" "bob" true) 3
    ∷ call locks_message 4
    ∷ call (unlock_message "a" "ann") 5
    ∷ call (unlock_message "a" "bob") 6
    ∷ call (record { method = "POST"; path = "/lock"; body = none }) 7
    ∷ []

abbrev pub env : Environment
env = record { clock = λ n. n; orders = λ n. in_order }

-- ===== src/Servers.antt =====
-- The two programs: solutions/go-inmemory and solutions/go-sharded, each a store behind the handlers.
use distributed_locking.Base.{ℕ, ◌≡◌, String, Option, some, List}
use distributed_locking.Http.Messages.{Response}
use distributed_locking.Http.Runs.{Call, run, AlikeAll, run-Alike}
use distributed_locking.InMemory
use distributed_locking.InMemory.Refines.{in_memory, in_memory_laws}
use distributed_locking.Sharded
use distributed_locking.Sharded.Refines.{sharded, sharded_laws}

-- `main` of solutions/go-inmemory/main.go, on the requests that arrive
unfoldable pub inmemory_main : List Call → Option (InMemory.Store × List Response)
inmemory_main calls = run in_memory in_memory.new_store calls

-- `main` of solutions/go-sharded/main.go
unfoldable pub sharded_main : (String → ℕ) → List Call → Option (Sharded.Store × List Response)
sharded_main hash calls = run (sharded hash) (sharded hash).new_store calls

-- Whatever the hash function and the requests, both programs answer every request, none of them
-- panics, and their responses agree: equal but for the order of a listing.
pub mains-AlikeAll :
    (hash : String → ℕ) (calls : List Call)
    → (s : InMemory.Store) × (t : Sharded.Store) × (ws : List Response) × (ws' : List Response)
      × (inmemory_main calls ≡ some (s, ws))
      × (sharded_main hash calls ≡ some (t, ws'))
      × AlikeAll calls ws ws'
unfolding inmemory_main sharded_main
mains-AlikeAll hash calls =
    let (ws, ws', (s, e), (t, f), alike) =
      run-Alike in_memory (sharded hash) in_memory_laws (sharded_laws hash) calls in
    (s, t, ws, ws', e, f, alike)

-- ===== src/Lib.antt =====
-- A verification library for the Go programs of this repository: two lock servers, go-inmemory and
-- go-sharded, and the benchmark that validates and measures such servers over HTTP.
--
-- The program. Each server keeps a table from keys to locks (holder and time stamp) and serves it by
-- `POST /lock`, `POST /unlock`, `GET /locks` and `GET /healthz`. go-inmemory has one map under one
-- lock; go-sharded has 64 maps, and hashes the key to find one. The benchmark first runs a fixed
-- sequence of requests to see that a server keeps to spec.md, then lets workers lock and unlock keys
-- and reports percentiles of what they measured.
--
-- The files.
--   Base       Boolean tests, lists, texts and options; Base/Lists, Base/Text, Base/Bits;
--              Base/Sums families over ℕ and their sums
--   Map        a Go map as an association list, and the order in which one is ranged over
--   Lock       `Lock` of solutions/go-inmemory/main.go and solutions/go-sharded/main.go;
--              Lock/Listing on lists of locks
--   Status     the HTTP status codes used
--   Spec       the lock table of spec.md, as a function from keys to locks
--   Store      what the handlers need of a store, as a record of operations and one of laws
--   InMemory   `store` of solutions/go-inmemory/main.go: newStore, acquire, release, list
--   Sharded    `store` of solutions/go-sharded/main.go: Sharded/Defs its operations, Sharded/Shards
--              one shard, Sharded/Bodies the bodies under a shard's lock, Sharded/Refines the store
--   Threads    goroutines inside `acquire`, `release` and `list` of both servers, one access to
--              shared memory at a time: Threads/System runs in any interleaving, Threads/Exclusion
--              the mutexes, Threads/Loops the loop over a map, Threads/Steady what a goroutine has
--              read, Threads/Serial and Threads/History the calls as a serial execution,
--              Threads/Responses what the handlers answer, Threads/Gathered and Threads/Listings the
--              listings, Threads/Work, Threads/Ready and Threads/Progress the end of the calls
--   Format     decimal numbers and `time.RFC3339`; Format/Integers `int`s and `strconv.Atoi`
--   Json       JSON values, with the field names matched as encoding/json matches them
--   Http       the handlers of `main`: Http/Messages bodies, Http/Handlers the handlers and the
--              mux, Http/Api what the API promises, Http/Refines one request, Http/Runs sequences
--              of requests, Http/Refusals what an error leaves, Http/Holding what holds while a
--              lock is held
--   Servers    the two `main` functions
--   Validate   benchmark/validate.go: Validate/Client its requests, Validate/Checks the steps of
--              validateSpec, Validate/Service a server as the validation sees it, Validate/Passes
--              and Validate/Verdicts what a verdict means, Validate/RoundTrip the bodies of requests
--              and answers
--   Bench      Bench/Keys the keys of workers, Bench/Worker one worker's loop (acquireRelease),
--              Bench/Race the workers of a phase, Bench/Cut the end of a phase, Bench/Scenario a
--              scenario and its result, Bench/ListHeavy the scenario list_heavy, all of
--              benchmark/scenarios.go; Bench/Stats is benchmark/stats.go
--   Effects    the calls that the benchmark makes of the world, and the replies
--   Docker     benchmark/docker.go: Docker/Health is WaitHealthy, Docker/Containers the images and
--              containers
--   Runner     benchmark/runner.go: discoverSolutions, validateSolution, benchmarkSolution;
--              Runner/Cleanup the containers it stops, Runner/Measured and Runner/Order what it
--              measures, Runner/Quiet what it leaves alone; Runner/Main is benchmark/main.go,
--              Runner/Main/Closing its networks and Runner/Main/Judged its exits
--   Report     WriteMarkdown of benchmark/reporter.go; Report/Cells what stands in its table
--   Tests      runs of the models on small inputs
--
-- The correspondence. A method that changes a store takes it and returns the next one with its
-- results, as if it ran alone; Threads has the same methods cut into their accesses to shared
-- memory, for any number of goroutines, each with one call, and any order of their steps:
-- `mu.Lock()`, the reading of the entry, the change of the map with the return, `mu.Unlock()`; and
-- for `list` `RLock`, the loop over one map in any number of parts, `RUnlock`. There `layout` and
-- `home` stand for both servers: 64 maps and the masked hash in go-sharded, one map in
-- go-inmemory; `layout.parts`, in how many parts a loop reads its map, is any number: with as many
-- as the map has entries, every other access may come between any two of them. A panic is `none`.
-- The clock is an argument, in nanoseconds since the epoch. `rapidhash.Hash` is a parameter, any
-- function from keys to numbers; so is the order in which a map is ranged over, which is any
-- rearrangement of its entries. The service that is validated or measured is a parameter too: any
-- function of a state and a request. The loops of the benchmark's workers are cut into single
-- requests, and a phase is any interleaving of them. The runner takes and returns a log of its
-- calls of Docker, of the file system and of the service; the replies are read off a `World`, a
-- function of the log, so that they may depend on all that was done before. What a validation or a
-- scenario is, Validate and Bench say; the runner sees its verdict.
--
-- Bounds. The counters of a scenario and its latencies are numbers without a bound; an int64 would
-- wrap after 2⁶³ requests only. The number of a shard is the hash modulo 64. Formatting a number
-- recurses on fuel above the number, WaitHealthy on a round for each 100 ms of its timeout and two
-- more, and RunContainer on 52 rounds of 100 ms for its 5 s; lemmas show these to be enough. All other
-- loops are structural. Atoi and %d have the range of a 64-bit int.
--
-- Not modelled: sockets and the text of JSON (a body is a JSON value, or no JSON), the redirection
-- of paths that are not clean by `ServeMux`, the lock servers in other languages, the memory model
-- of Go below the mutexes (all accesses to a map are under its mutex), the preference of `RLock`
-- for waiting writers (the model has more interleavings), any other time at which the service
-- handles a request that the end of a phase gives up than before the next phase, and in list_heavy
-- a writer's after a reader's, createTarball, the Docker client, floating-point numbers and their
-- printing, and of benchmark/reporter.go the JSON and the printed summary.
pub mod Base
pub mod Map
pub mod Lock
pub mod Status
pub mod Spec
pub mod Store
pub mod InMemory
pub mod Sharded
pub mod Threads
pub mod Format
pub mod Json
pub mod Http
pub mod Servers
pub mod Bench
pub mod Effects
pub mod Docker
pub mod Validate
pub mod Runner
pub mod Report
mod Tests

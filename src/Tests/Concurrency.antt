-- ===== src/Tests/Concurrency.antt =====
-- Goroutines inside the methods of the stores.
use distributed_locking.Base.{
  List, ◌++◌, some, ℕ, zero, suc, ◌<◌, ◌≡◌, refl, String, true, false, [], ◌∷◌, arith, ◌⊎◌,
}
use distributed_locking.Base.Sums.{sum_below}
use distributed_locking.Map.{Map, lookup, insert, values}
use distributed_locking.Lock.{Lock}
use distributed_locking.Lock.Listing.{Distinct}
use distributed_locking.Store.{in_order}
use distributed_locking.Threads.{
  Layout, acquire, locked, returned, listed, lock, look, put, unlock, rlock, range, read, read_last,
  runlock, all_read, conclude, still,
}
use distributed_locking.Threads.System.{
  System, Call, writes, lists, at, Run, start, next, Steps, here, more, Event,
}
use distributed_locking.Threads.Serial.{Serves, view, answer_in, write_answer}
use distributed_locking.Threads.History.{history, AreCalled, linearizable}
use distributed_locking.Spec
use distributed_locking.Threads.Responses.{
  Post, post_lock, call_of, respond, api_response, respond-serial,
}
use distributed_locking.Threads.Listings.{Moment, list-moments}
use distributed_locking.Threads.Work.{accesses}
use distributed_locking.Threads.Progress.{needed, IsGoingOn, AllReturned, run_length, all_return}
use distributed_locking.Threads.Exclusion.{mutual_exclusion, writes_at, reads_at}

-- one map; goroutine 0 locks "a" for ann, goroutine 1 lists
abbrev home : String → ℕ
home key = 0

-- its loop is in two parts
abbrev one_map : Layout
one_map = record { count = 1; parts = 1 }

abbrev calls : ℕ → Call
calls zero = writes (acquire "a" "ann" false)
calls (suc i) = lists

abbrev Reached : Type 0
Reached = (s : System) × Run one_map home 2 calls s

abbrev r1 : Reached
r1 = (_, next start (at 0 (omega arith) (lock refl refl)))

abbrev r2 : Reached
r2 = (_, next r1.1 (at 0 (omega arith) look))

abbrev r3 : Reached
r3 = (_, next r2.1 (at 0 (omega arith) (put 5)))

abbrev r4 : Reached
r4 = (_, next r3.1 (at 0 (omega arith) unlock))

abbrev r5 : Reached
r5 = (_, next r4.1 (at 1 (omega arith) (rlock (omega arith) refl)))

abbrev r6 : Reached
r6 = (_, next r5.1 (at 1 (omega arith) (range (in_order 0))))

abbrev r7 : Reached
r7 = (_, next r6.1 (at 1 (omega arith) (read [] _)))

abbrev r8 : Reached
r8 = (_, next r7.1 (at 1 (omega arith) read_last))

abbrev r9 : Reached
r9 = (_, next r8.1 (at 1 (omega arith) runlock))

abbrev r10 : Reached
r10 = (_, next r9.1 (at 1 (omega arith) (all_read (omega arith))))

abbrev s5 : Steps one_map home 2 r4.0 r5.0
s5 = more here (at 1 (omega arith) (rlock (omega arith) refl))

abbrev s6 : Steps one_map home 2 r4.0 r6.0
s6 = more s5 (at 1 (omega arith) (range (in_order 0)))

abbrev s7 : Steps one_map home 2 r4.0 r7.0
s7 = more s6 (at 1 (omega arith) (read [] _))

abbrev s8 : Steps one_map home 2 r4.0 r8.0
s8 = more s7 (at 1 (omega arith) read_last)

rest_of_run : Steps one_map home 2 r4.0 r10.0
rest_of_run =
    more (more s8 (at 1 (omega arith) runlock)) (at 1 (omega arith) (all_read (omega arith)))

abbrev ann_lock : Lock
ann_lock = record { key = "a"; lockee = "ann"; since = 5 }

abbrev holds_ann : Map Lock
holds_ann = ("a", ann_lock) ∷ []

unfold_threads : Unit {0}
unfolding lookup insert values conclude still
unfold_threads = tt

listed_at_the_end : r10.0.pc 1 ≡ returned (listed (ann_lock ∷ []))
unfolding unfold_threads
listed_at_the_end = refl

acquired_at_the_end : r10.0.pc 0 ≡ returned (locked ann_lock true)
unfolding unfold_threads
acquired_at_the_end = refl

mutual_exclusion_example : (writes_at home 0 (r1.0.pc 1) ≡ 0) × (reads_at home 0 (r1.0.pc 1) ≡ 0)
mutual_exclusion_example =
    mutual_exclusion home 2 0 1 0 r1.1 (omega arith) (omega arith) refl (omega arith)

linearizable_example :
    Serves (history one_map home 2 calls r10.1) (view home r10.0.mem)
    × AreCalled one_map home calls (history one_map home 2 calls r10.1)
    × ((i : ℕ) → answer_in i (history one_map home 2 calls r10.1) ≡ write_answer (r10.0.pc i))
linearizable_example = linearizable one_map home 2 calls r10.1

list-moments_example : Distinct (ann_lock ∷ []) × Moment home one_map 2 r4.0 r10.0 0 (ann_lock ∷ [])
list-moments_example =
    list-moments home one_map 2 1 0 (ann_lock ∷ []) r4.1 refl rest_of_run listed_at_the_end
      (omega arith)

run_length_example :
    let total = sum_below (λ i. needed one_map home 2 (calls i)) 2 in
    ((accesses one_map home 2 r7.1 < total) × IsGoingOn one_map home 2 r7.0)
    ⊎ ((accesses one_map home 2 r7.1 ≡ total) × AllReturned one_map home 2 r7.0)
run_length_example = run_length one_map home 2 r7.1

all_return_example : (t : System) × Steps one_map home 2 r2.0 t × AllReturned one_map home 2 t
all_return_example = all_return one_map home 2 r2.1

abbrev ann_request : Post
ann_request = post_lock (record { key = "a"; lockee = "ann"; force = false })

respond-serial_example :
    (later : List Event) × (e : Event) × (earlier : List Event) × (u : Spec.Table) × (history
        one_map home 2 calls r10.1
      ≡ later ++ (e ∷ earlier))
    × Serves earlier u
    × (e.thread ≡ 0)
    × (e.answer ≡ locked ann_lock true)
    × (e.call ≡ call_of ann_request)
    × (respond ann_request (locked ann_lock true) ≡ some (api_response ann_request u))
respond-serial_example =
    respond-serial one_map home 2 calls r10.1 0 ann_request (locked ann_lock true) refl
      acquired_at_the_end

-- ===== src/Threads/System.antt =====
-- `n` goroutines over one memory, in any interleaving.
use distributed_locking.Base.{ℕ, ◌<◌, String, false, []}
use distributed_locking.Base.Sums.{update}
use distributed_locking.Lock.{Time}
use distributed_locking.Threads.{Layout, Write, Answer, Memory, Pc, waiting, scanning, Advance}

pub record System : Type 0 where
  pub mem : Memory
  pub pc : ℕ → Pc

-- a call of a goroutine: of `list`, or of the others
pub data Call : Type 0 where
  writes : Write → Call
  lists : Call

abbrev pub entry : Call → Pc
entry (writes w) = waiting w
entry lists = scanning 0 []

-- empty maps, no mutex held, and each goroutine at its call
abbrev pub init : (ℕ → Call) → System
init calls = record {
  mem = record { maps = λ k. []; mu = λ k. record { writer = false; readers = 0 } };
  pc = λ i. entry (calls i);
}

module _ (layout : Layout) (home : String → ℕ) (n : ℕ) where
  pub data Step (s : System) : System → Type 0 where
    at :
        (i : ℕ) {m : Memory} {p : Pc}
        → i < n
        → Advance layout home s.mem (s.pc i) m p
        → Step s (record { mem = m; pc = update s.pc i p })

  pub data Run (calls : ℕ → Call) : System → Type 0 where
    start : Run calls (init calls)
    next : {s t : System} → Run calls s → Step s t → Run calls t

  -- further steps of a run
  pub data Steps (s : System) : System → Type 0 where
    here : Steps s s
    more : {t u : System} → Steps s t → Step t u → Steps s u

-- what a call did to a map: which goroutine, the call, its time and its answer
pub record Event : Type 0 where
  pub thread : ℕ
  pub call : Write
  pub time : Time
  pub answer : Answer

-- ===== src/Threads/History.antt =====
-- The events of a run, and that they are a serial execution of the specification.
use distributed_locking.Base.{
  ℕ, ◌<◌, ◌≡◌, ◌≢◌, refl, sym, ◌∙◌, String, Option, none, some, List, [], ◌∷◌, nat_eq_iff, arith,
  ℕ_discrete, All,
}
use distributed_locking.Base.Sums.{update, update_self, update_other}
use distributed_locking.Map.{Map, lookup}
use distributed_locking.Lock.{Lock, Time}
use distributed_locking.Threads.{
  Layout, Write, acquire, release, key_of, Memory, Pc, waiting, inside, found, Advance, lock, look,
  put, unlock, rlock, range, read, read_last, runlock, all_read, conclude,
}
use distributed_locking.Threads.System.{
  System, Call, writes, lists, entry, at, Run, start, next, Event,
}
use distributed_locking.Threads.Steady.{IsFresh, IsSteady, Run-IsSteady, AreHomeMaps}
use distributed_locking.Threads.Serial.{
  Serves, answer_in, write_answer, of_write, view, conclude-serve_call,
}

module _ (layout : Layout) (home : String → ℕ) where
  -- the event of an access: the one that leaves the map for good
  abbrev pub event_of :
      (i : ℕ) {m m' : Memory} {p p' : Pc} → Advance layout home m p m' p' → Option Event
  event_of i {m} (put {w} {existing} now) = some (record {
    thread = i;
    call = w;
    time = now;
    answer = (conclude w existing now (m.maps (home (key_of w)))).1;
  })
  event_of i _ = none

  abbrev pub log : Option Event → List Event → List Event
  log none es = es
  log (some e) es = e ∷ es

  -- an access leaves the table as the specification would, if it is an event, and else alone
  Advance-Serves :
      (i : ℕ) {m : Memory} {m' : Memory} {p p' : Pc} (es : List Event)
      (a : Advance layout home m p m' p')
      → AreHomeMaps layout home m
      → IsFresh layout home m.maps p
      → Serves es (view home m)
      → Serves (log (event_of i a) es) (view home m')
  Advance-Serves i es (lock free none_in) v f h = h
  Advance-Serves i es look v f h = h
  Advance-Serves i {m} es (put {w} {existing} now) v f h =
      (view home m, h, conclude-serve_call home m w existing now (v (home (key_of w))).is_map f)
  Advance-Serves i es unlock v f h = h
  Advance-Serves i es (rlock lt free) v f h = h
  Advance-Serves i es (range o) v f h = h
  Advance-Serves i es (read now later) v f h = h
  Advance-Serves i es read_last v f h = h
  Advance-Serves i es runlock v f h = h
  Advance-Serves i es (all_read le) v f h = h

  pub of_write-conclude :
      (w : Write) (existing : Option Lock) (now : Time) (entries : Map Lock)
      → of_write (conclude w existing now entries).1 ≡ some (conclude w existing now entries).1
  unfolding conclude
  of_write-conclude (acquire key lockee force) existing now entries = ground arith
  of_write-conclude (release key lockee) existing now entries = ground arith

  Advance-answer :
      (i : ℕ) {m : Memory} {m' : Memory} {p p' : Pc} (es : List Event)
      (a : Advance layout home m p m' p')
      → answer_in i es ≡ write_answer p
      → answer_in i (log (event_of i a) es) ≡ write_answer p'
  Advance-answer i es (lock free none_in) h = h
  Advance-answer i es look h = h
  Advance-answer i {m} es (put {w} {existing} now) h =
      rw ((nat_eq_iff i i).1 refl)
        (sym (of_write-conclude w existing now (m.maps (home (key_of w)))))
  Advance-answer i es unlock h = h
  Advance-answer i es (rlock lt free) h = h
  Advance-answer i es (range o) h = h
  Advance-answer i es (read now later) h = h
  Advance-answer i es read_last h = h
  Advance-answer i es runlock h = h
  Advance-answer i es (all_read le) h = h

  Advance-others :
      (i j : ℕ) {m : Memory} {m' : Memory} {p p' : Pc} (es : List Event)
      (a : Advance layout home m p m' p')
      → i ≢ j
      → answer_in j (log (event_of i a) es) ≡ answer_in j es
  Advance-others i j es (put now) ne = ground (arith, nat_eq_iff i j)
  Advance-others i j es (lock free none_in) ne = refl
  Advance-others i j es look ne = refl
  Advance-others i j es unlock ne = refl
  Advance-others i j es (rlock lt free) ne = refl
  Advance-others i j es (range o) ne = refl
  Advance-others i j es (read now later) ne = refl
  Advance-others i j es read_last ne = refl
  Advance-others i j es runlock ne = refl
  Advance-others i j es (all_read le) ne = refl

  -- the call that a goroutine is in the middle of
  abbrev IsOf : Call → Pc → Type 0
  IsOf c (waiting w) = c ≡ writes w
  IsOf c (inside w) = c ≡ writes w
  IsOf c (found w existing) = c ≡ writes w
  IsOf c _ = Unit

  abbrev pub AreCalled : (ℕ → Call) → List Event → Type 0
  AreCalled calls es = All (λ e. calls e.thread ≡ writes e.call) es

  Advance-IsOf :
      {m : Memory} {m' : Memory} {p p' : Pc} (c : Call)
      → Advance layout home m p m' p'
      → IsOf c p
      → IsOf c p'
  Advance-IsOf c (lock free none_in) h = h
  Advance-IsOf c look h = h
  Advance-IsOf c (put now) h = tt
  Advance-IsOf c unlock h = tt
  Advance-IsOf c (rlock lt free) h = tt
  Advance-IsOf c (range o) h = tt
  Advance-IsOf c (read now later) h = tt
  Advance-IsOf c read_last h = tt
  Advance-IsOf c runlock h = tt
  Advance-IsOf c (all_read le) h = tt

  Advance-AreCalled :
      (i : ℕ) {m : Memory} {m' : Memory} {p p' : Pc} (calls : ℕ → Call) (es : List Event)
      (a : Advance layout home m p m' p')
      → IsOf (calls i) p
      → AreCalled calls es
      → AreCalled calls (log (event_of i a) es)
  Advance-AreCalled i calls es (put now) c h = (c, h)
  Advance-AreCalled i calls es (lock free none_in) c h = h
  Advance-AreCalled i calls es look c h = h
  Advance-AreCalled i calls es unlock c h = h
  Advance-AreCalled i calls es (rlock lt free) c h = h
  Advance-AreCalled i calls es (range o) c h = h
  Advance-AreCalled i calls es (read now later) c h = h
  Advance-AreCalled i calls es read_last c h = h
  Advance-AreCalled i calls es runlock c h = h
  Advance-AreCalled i calls es (all_read le) c h = h

  module _ (n : ℕ) (calls : ℕ → Call) where
    -- the events of a run, the last one first
    unfoldable pub history : {s : System} → Run layout home n calls s → List Event
    history start = []
    history (next r (at i lt a)) = log (event_of i a) (history r)

    record IsLinear (es : List Event) (s : System) : Type 0 where
      served : Serves es (view home s.mem)
      answered : (i : ℕ) → answer_in i es ≡ write_answer (s.pc i)
      is_of : (i : ℕ) → IsOf (calls i) (s.pc i)
      are_called : AreCalled calls es

    entry-answer : (c : Call) → (none ≡ write_answer (entry c)) × IsOf c (entry c)
    entry-answer (writes w) = (refl, refl)
    entry-answer lists = (refl, tt)

    Step-IsLinear :
        (s : System) (es : List Event) (i : ℕ) {m : Memory} {p : Pc}
        → IsSteady layout home n s
        → i < n
        → (a : Advance layout home s.mem (s.pc i) m p) → IsLinear es s
        → IsLinear (log (event_of i a) es) (record { mem = m; pc = update s.pc i p })
    Step-IsLinear s es i {m} {p} v lt a h = record {
      served = Advance-Serves i es a v.home_maps (v.fresh i lt) h.served;
      answered = λ j. elim (ℕ_discrete i j) [
        | yes same ↦
            rw (update_self s.pc i j p same) (rw (← same) (Advance-answer i es a (h.answered i)))
        | no other ↦
            rw (update_other s.pc i j p other) (Advance-others i j es a other ∙ h.answered j)
      ];
      is_of = λ j. elim (ℕ_discrete i j) [
        | yes same ↦
            rw (update_self s.pc i j p same) (rw (← same) (Advance-IsOf (calls i) a (h.is_of i)))
        | no other ↦ rw (update_other s.pc i j p other) (h.is_of j)
      ];
      are_called = Advance-AreCalled i calls es a (h.is_of i) h.are_called;
    }

    history-IsLinear : {s : System} (r : Run layout home n calls s) → IsLinear (history r) s
    unfolding history lookup
    history-IsLinear start = record {
      served = refl;
      answered = λ i. (entry-answer (calls i)).0;
      is_of = λ i. (entry-answer (calls i)).1;
      are_called = tt;
    }
    history-IsLinear (next {s} r (at i lt a)) =
        Step-IsLinear s (history r) i (Run-IsSteady layout home n r) lt a (history-IsLinear r)

    -- In every reachable state the calls that have changed or left their maps, in the order in which
    -- they did, are a serial execution of the specification: served one after another it answers each
    -- as the code did, and ends in the table that the maps hold. Each of these calls was made by its
    -- goroutine, and a goroutine has or returned an answer of `acquire` or `release` if and only if its
    -- call is among them with this answer.
    pub linearizable :
        {s : System} (r : Run layout home n calls s)
        → Serves (history r) (view home s.mem)
          × AreCalled calls (history r)
          × ((i : ℕ) → answer_in i (history r) ≡ write_answer (s.pc i))
    linearizable r = let h = history-IsLinear r in (h.served, h.are_called, h.answered)

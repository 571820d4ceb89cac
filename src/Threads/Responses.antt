-- ===== src/Threads/Responses.antt =====
-- The responses of the handlers of POST /lock and POST /unlock, of solutions/go-inmemory/main.go and
-- solutions/go-sharded/main.go, when they run as goroutines among others.
use distributed_locking.Base.{
  ℕ, ◌≡◌, refl, sym, ap, ◌∙◌, String, true, false, Option, none, some, List, [], ◌∷◌, ◌++◌, nat_eq,
  nat_eq_iff, eq_iff, if◌then◌else◌, arith, inl, inr, Bool-cases, ℕ_discrete,
}
use distributed_locking.Base.Sums.{update_self, update_other}
use distributed_locking.Lock.{Lock, Time}
use distributed_locking.Status
use distributed_locking.Spec
use distributed_locking.Http.Messages.{
  Response, LockRequest, UnlockRequest, write_json, write_header, http_error, lock_ok_resp,
  lock_conflict_resp,
}
use distributed_locking.Http.Api.{lock_response, unlock_response}
use distributed_locking.Http.Refines.{lock_response_lem, unlock_response_lem}
use distributed_locking.Threads.{
  Layout, Write, acquire, release, Answer, locked, released, Pc, leaving, scanning, reading,
  ranging, gathered, returned, Memory, Advance, lock, look, put, unlock, rlock, range, read,
  read_last, runlock, all_read, key_of,
}
use distributed_locking.Threads.System.{System, Call, writes, at, Run, start, next, Event}
use distributed_locking.Threads.Serial.{serve_call, Serves, answer_in, write_answer, of_write, view}
use distributed_locking.Threads.History.{history, AreCalled, linearizable, of_write-conclude}

-- a decoded request that has its key and its lockee
pub data Post : Type 0 where
  post_lock : LockRequest → Post
  post_unlock : UnlockRequest → Post

-- the call that the handler makes of the store, and what it writes of the results
abbrev pub call_of : Post → Write
call_of (post_lock req) = acquire req.key req.lockee req.force
call_of (post_unlock req) = release req.key req.lockee

unfoldable pub respond : Post → Answer → Option Response
respond (post_lock req) (locked l acquired) = some (
    if acquired
    then write_json Status.ok (lock_ok_resp true l.key l.lockee)
    else write_json Status.conflict (lock_conflict_resp false req.key l.lockee))
respond (post_unlock req) (released status msg) =
    some (if nat_eq status Status.ok then write_header Status.ok else http_error msg status)
respond _ _ = none

-- the response of the API at a table
abbrev pub api_response : Post → Spec.Table → Response
api_response (post_lock req) t = lock_response (t req.key) req
api_response (post_unlock req) t = unlock_response (t req.key) req

abbrev IsKeyedTable : Spec.Table → Type 0
IsKeyedTable t = (key : String) (l : Lock) → t key ≡ some l → l.key ≡ key

serve_call-IsKeyedTable :
    (w : Write) (now : Time) (t : Spec.Table) → IsKeyedTable t → IsKeyedTable (serve_call w now t).0
serve_call-IsKeyedTable (acquire key lockee force) now t h j l e =
    ground (arith, e, h j l, eq_iff key j)
serve_call-IsKeyedTable (release key lockee) now t h j l e = ground (arith, e, h j l)

Serves-IsKeyedTable : (es : List Event) (t : Spec.Table) → Serves es t → IsKeyedTable t
Serves-IsKeyedTable [] t s = rw s (λ key l e. absurd (cc e))
Serves-IsKeyedTable (e ∷ es) t (u, s, p) =
    let q : (serve_call e.call e.time u).0 ≡ t = ap (λ x. x.0) p in
    rw q at (serve_call-IsKeyedTable e.call e.time u (Serves-IsKeyedTable es u s))

-- the response to a call that the specification answers
respond-api_response :
    (q : Post) (now : Time) (t : Spec.Table)
    → IsKeyedTable t
    → respond q (serve_call (call_of q) now t).1 ≡ some (api_response q t)
unfolding respond
respond-api_response (post_lock req) now t h =
    ap some (lock_response_lem t req now _ _ (h req.key) refl refl)
respond-api_response (post_unlock req) now t h = ap some (unlock_response_lem t req _ _ refl refl)

-- The event with an answer, and what was served before it.
abbrev Answered : (ℕ → Call) → ℕ → Answer → List Event → Type 0
Answered calls i a es =
    (later : List Event) × (e : Event) × (earlier : List Event) × (u : Spec.Table) × (es
      ≡ later ++ (e ∷ earlier))
    × Serves earlier u
    × (e.thread ≡ i)
    × (e.answer ≡ a)
    × (calls i ≡ writes e.call)
    × ((serve_call e.call e.time u).1 ≡ a)

module _ (layout : Layout) (home : String → ℕ) where
  find-Answered :
      (calls : ℕ → Call) (i : ℕ) (a : Answer) (es : List Event) (t : Spec.Table)
      → Serves es t
      → AreCalled layout home calls es
      → answer_in i es ≡ some a
      → Answered calls i a es
  find-Answered calls i a [] t s c h = absurd (cc h)
  find-Answered calls i a (e ∷ es) t (u, s, p) (c, cs) h = elim (Bool-cases (nat_eq e.thread i)) [
    | inl same ↦ (
      [],
      e,
      es,
      u,
      refl,
      s,
      (nat_eq_iff e.thread i).0 same,
      ground (arith, same, h),
      rw (← (nat_eq_iff e.thread i).0 same) c,
      ap (λ x. x.1) p ∙ ground (arith, same, h),
    )
    | inr other ↦
        let (later, e', earlier, u', q, s', own, given, c', p') =
          find-Answered calls i a es u s cs (ground (arith, other, h)) in
        (e ∷ later, e', earlier, u', ap (λ l. e ∷ l) q, s', own, given, c', p')
  ]

  -- a goroutine that is not in `list`
  abbrev IsWriting : Pc → Type 0
  IsWriting (scanning k ls) = ⊥
  IsWriting (reading k ls) = ⊥
  IsWriting (ranging k ls got keys c) = ⊥
  IsWriting (gathered k ls) = ⊥
  IsWriting (leaving k a) = of_write a ≡ some a
  IsWriting (returned a) = of_write a ≡ some a
  IsWriting p = Unit

  Advance-IsWriting :
      {m : Memory} {m' : Memory} {p p' : Pc}
      → Advance layout home m p m' p'
      → IsWriting p
      → IsWriting p'
  Advance-IsWriting (lock free none_in) h = tt
  Advance-IsWriting look h = tt
  Advance-IsWriting {m} (put {w} {existing} now) h =
      of_write-conclude layout home w existing now (m.maps (home (key_of w)))
  Advance-IsWriting unlock h = h
  Advance-IsWriting (rlock lt free) h = elim h [ ]
  Advance-IsWriting (range o) h = elim h [ ]
  Advance-IsWriting (read now later) h = elim h [ ]
  Advance-IsWriting read_last h = elim h [ ]
  Advance-IsWriting runlock h = elim h [ ]
  Advance-IsWriting (all_read le) h = elim h [ ]

  module _ (n : ℕ) (calls : ℕ → Call) where
    Run-IsWriting :
        (s : System) (i : ℕ) (w : Write)
        → Run layout home n calls s
        → calls i ≡ writes w
        → IsWriting (s.pc i)
    Run-IsWriting _ i w start mine = rw mine tt
    Run-IsWriting _ i w (next {s} r (at j {m} {p} lt a)) mine = elim (ℕ_discrete j i) [
      | yes same ↦
          let before : IsWriting (s.pc j) = rw same (Run-IsWriting s i w r mine) in
          rw (update_self s.pc j i p same) (Advance-IsWriting a before)
      | no other ↦ rw (update_other s.pc j i p other) (Run-IsWriting s i w r mine)
    ]

    writes-injective : (v w : Write) → writes v ≡ writes w → v ≡ w
    writes-injective v w e = cc

    -- A request to lock or unlock, handled among other goroutines, is answered as the API answers it at
    -- a table of the serial execution: the one that the calls before its goroutine's own call leave,
    -- which stands there with the answer that the goroutine returns.
    pub respond-serial :
        {s : System} (r : Run layout home n calls s) (i : ℕ) (q : Post) (a : Answer)
        → calls i ≡ writes (call_of q)
        → s.pc i ≡ returned a
        → (later : List Event) × (e : Event) × (earlier : List Event) × (u : Spec.Table) × (history
              layout home n calls r
            ≡ later ++ (e ∷ earlier))
          × Serves earlier u
          × (e.thread ≡ i)
          × (e.answer ≡ a)
          × (e.call ≡ call_of q)
          × (respond q a ≡ some (api_response q u))
    respond-serial {s} r i q a mine over =
        let (served, called, answered) = linearizable layout home n calls r in
        let writing : of_write a ≡ some a = rw over at (Run-IsWriting s i (call_of q) r mine) in
        let known : answer_in i (history layout home n calls r) ≡ some a =
          answered i ∙ ap write_answer over ∙ writing in
        let (later, e, earlier, u, p, before, own, given, c, answer) =
          find-Answered calls i a (history layout home n calls r) (view home s.mem) served called
            known in
        let same : e.call ≡ call_of q = writes-injective e.call (call_of q) (sym c ∙ mine) in
        let as_served : (serve_call (call_of q) e.time u).1 ≡ a =
          ap (λ w. (serve_call w e.time u).1) (sym same) ∙ answer in
        (
          later,
          e,
          earlier,
          u,
          p,
          before,
          own,
          given,
          same,
          ap (respond q) (sym as_served)
              ∙ respond-api_response q e.time u (Serves-IsKeyedTable earlier u before),
        )

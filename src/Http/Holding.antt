-- ===== src/Http/Holding.antt =====
-- Mutual exclusion over time: a lock stays, with its holder and its time stamp, until its holder
-- releases it or another client takes it by force.
use distributed_locking.Base.{
  ◌≡◌, ◌≢◌, ap, ◌∙◌, String, Bool, false, not, ◌&&◌, Option, none, some, List, [], ◌∷◌, ◌==◌,
  eq_iff, arith, All,
}
use distributed_locking.Lock.{Lock, Time}
use distributed_locking.Status
use distributed_locking.Spec
use distributed_locking.Store.{Orders, LockStore, LockStoreLaws}
use distributed_locking.Http.Messages.{
  Request, Response, LockRequest, UnlockRequest, decode_lock, decode_unlock, write_json,
  lock_conflict_resp,
}
use distributed_locking.Http.Handlers.{Route, lock, unlock, route, serve}
use distributed_locking.Http.Api.{
  is_missing, after, answer_lock, after_at, after_lock, after_unlock, Answers,
}
use distributed_locking.Http.Refines.{serve-Refines}
use distributed_locking.Http.Runs.{Call, run, after_all, run-Refines}

-- the request takes the key from the lock's holder
abbrev pub takes : String → Lock → Option LockRequest → Bool
takes key l none = false
takes key l (some req) = req.key == key && req.force && not (l.lockee == req.lockee)

-- the request gives the key back in the holder's name
abbrev pub gives_back : String → Lock → Option UnlockRequest → Bool
gives_back key l none = false
gives_back key l (some req) = req.key == key && l.lockee == req.lockee

abbrev ends_at : Route → String → Lock → Request → Bool
ends_at lock key l r = takes key l (decode_lock r.body)
ends_at unlock key l r = gives_back key l (decode_unlock r.body)
ends_at _ key l r = false

-- the call may end the hold of `l` on `key`
abbrev pub ends : String → Lock → Call → Bool
ends key l c = ends_at (route c.request) key l c.request

module _ (t : Spec.Table) (key : String) (l : Lock) (held : t key ≡ some l) where
  after_lock-held :
      (req : Option LockRequest) (now : Time)
      → takes key l req ≡ false
      → after_lock t req now key ≡ some l
  after_lock-held none now keeps = held
  after_lock-held (some req) now keeps =
      ground (arith, eq_iff req.key key, eq_iff l.lockee req.lockee, ap t {x = req.key} {y = key})

  after_unlock-held :
      (req : Option UnlockRequest) → gives_back key l req ≡ false → after_unlock t req key ≡ some l
  after_unlock-held none keeps = held
  after_unlock-held (some req) keeps =
      ground (arith, eq_iff req.key key, eq_iff l.lockee req.lockee, ap t {x = req.key} {y = key})

  after_at-held :
      (rt : Route) (r : Request) (now : Time)
      → ends_at rt key l r ≡ false
      → after_at rt t r now key ≡ some l
  after_at-held lock r now keeps = after_lock-held (decode_lock r.body) now keeps
  after_at-held unlock r now keeps = after_unlock-held (decode_unlock r.body) keeps
  after_at-held _ r now keeps = held

-- A lock that is held stays, with its holder and time stamp, through any requests of which none may
-- end it.
pub after_all-held :
    (t : Spec.Table) (key : String) (l : Lock) (calls : List Call)
    → t key ≡ some l
    → All (λ c. ends key l c ≡ false) calls
    → after_all t calls key ≡ some l
after_all-held t key l [] held keeps = held
after_all-held t key l (c ∷ calls) held keeps =
    after_all-held (after t c.request c.now) key l calls
      (after_at-held t key l held (route c.request) c.request c.now keeps.0) keeps.1

-- a request of a client other than the holder, without force
pub record Contends (key : String) (l : Lock) (r : Request) (req : LockRequest) : Type 0 where
  pub is_lock : route r ≡ lock
  pub decoded : decode_lock r.body ≡ some req
  pub same_key : req.key ≡ key
  pub present : is_missing req.key req.lockee ≡ false
  pub other : req.lockee ≢ l.lockee
  pub gentle : req.force ≡ false

Answers-lock :
    (t : Spec.Table) (r : Request) (w : Response)
    → route r ≡ lock
    → Answers t r w
    → w ≡ answer_lock t (decode_lock r.body)
Answers-lock t r w e a = rw e at a

answer-Contends :
    (t : Spec.Table) (key : String) (l : Lock) (r : Request) (req : LockRequest)
    → Contends key l r req
    → t key ≡ some l
    → answer_lock t (decode_lock r.body)
      ≡ write_json Status.conflict (lock_conflict_resp false key l.lockee)
answer-Contends t key l r req c held =
    rw c.decoded (ground (arith, eq_iff l.lockee req.lockee, ap t c.same_key))

Contends-ends :
    (key : String) (l : Lock) (r : Request) (req : LockRequest)
    → Contends key l r req
    → ends_at (route r) key l r ≡ false
Contends-ends key l r req c = rw c.is_lock (rw c.decoded (ground arith))

module _ (store : LockStore) (laws : LockStoreLaws store) where
  open store use {State}
  open laws use {IsValid, view}

  -- From a valid state that holds a lock, after any requests of which none may end the hold (neither a
  -- release by its holder nor a forced request of another client), another client that asks for it
  -- without force is refused: the answer is 409 with the holder's name, and the lock stays.
  pub exclusion :
      (s : State) (calls : List Call) (key : String) (l : Lock) (o : Orders) (r : Request)
      (req : LockRequest) (now : Time)
      → IsValid s
      → view s key ≡ some l
      → All (λ c. ends key l c ≡ false) calls
      → Contends key l r req
      → (t : State) × (ws : List Response) × (u : State) × (run store s calls ≡ some (t, ws))
        × (serve store o t r now
            ≡ some (u, write_json Status.conflict (lock_conflict_resp false key l.lockee)))
        × (view u key ≡ some l)
  exclusion s calls key l o r req now v held keeps c =
      let (t, ws, e, vt, p, _) = run-Refines store laws s calls v in
      let held_t : view t key ≡ some l =
        ap (λ x. x key) p ∙ after_all-held (view s) key l calls held keeps in
      let (u, w, f, _, q, a) = serve-Refines store laws o t r now vt in
      let right =
        Answers-lock (view t) r w c.is_lock a ∙ answer-Contends (view t) key l r req c held_t in
      (
        t,
        ws,
        u,
        e,
        rw right at f,
        ap (λ x. x key) q
            ∙ after_at-held (view t) key l held_t (route r) r now (Contends-ends key l r req c),
      )

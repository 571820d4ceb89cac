-- ===== src/Http/Runs.antt =====
-- Servers that answer one request after another.
use distributed_locking.Base.{
  ◌≡◌, refl, sym, ap, ◌∙◌, String, Option, none, some, List, [], ◌∷◌, arith,
}
use distributed_locking.Lock.{Lock, Time}
use distributed_locking.Lock.Listing.{find, Distinct}
use distributed_locking.Status
use distributed_locking.Spec
use distributed_locking.Store.{Orders, LockStore, LockStoreLaws}
use distributed_locking.Http.Messages.{
  Request, Response, write_json, lock_list_resp, lock_list_entries,
}
use distributed_locking.Http.Handlers.{Route, lock, locks, route, serve, without_body}
use distributed_locking.Http.Api.{after, Answers, AnswersAt}
use distributed_locking.Http.Refines.{serve-Refines}

-- a request, the time at which it is handled, and the orders that its `range` statements take
pub record Call : Type 0 where
  pub request : Request
  pub now : Time
  pub orders : Orders

module _ (store : LockStore) where
  open store use {State}

  unfoldable pub run : State → List Call → Option (State × List Response)
  run s [] = some (s, [])
  run s (c ∷ calls) = elim (serve store c.orders s c.request c.now) [
    | none ↦ none
    | some (t, w) ↦ elim (run t calls) [ none ↦ none | some (u, ws) ↦ some (u, w ∷ ws) ]
  ]

module _ (store : LockStore) where
  pub run-cons :
      (s t u : store.State) (w : Response) (ws : List Response) (c : Call) (calls : List Call)
      → serve store c.orders s c.request c.now ≡ some (t, w)
      → run store t calls ≡ some (u, ws)
      → run store s (c ∷ calls) ≡ some (u, w ∷ ws)
  unfolding run
  run-cons s t u w ws c calls e f = ground arith

abbrev pub after_all : Spec.Table → List Call → Spec.Table
after_all t [] = t
after_all t (c ∷ calls) = after_all (after t c.request c.now) calls

-- right responses to a list of calls, from a table on
abbrev pub AnswersAll : Spec.Table → List Call → List Response → Type 0
AnswersAll t [] [] = Unit
AnswersAll t (c ∷ calls) (w ∷ ws) =
    Answers t c.request w × AnswersAll (after t c.request c.now) calls ws
AnswersAll t _ _ = ⊥

module _ (store : LockStore) (laws : LockStoreLaws store) where
  open store use {State}
  open laws use {IsValid, view}

  -- From a valid state, whatever the requests, the server never panics, answers each as the API says,
  -- and ends in a valid state with the table that the API says.
  pub run-Refines :
      (s : State) (calls : List Call)
      → IsValid s
      → (t : State) × (ws : List Response) × (run store s calls ≡ some (t, ws))
        × IsValid t
        × (view t ≡ after_all (view s) calls)
        × AnswersAll (view s) calls ws
  unfolding run
  run-Refines s [] v = (s, [], refl, v, refl, tt)
  run-Refines s (c ∷ calls) v =
      let (t, w, e, vt, p, right) = serve-Refines store laws c.orders s c.request c.now v in
      let (u, ws, f, vu, q, rights) = run-Refines t calls vt in
      (
        u,
        w ∷ ws,
        run-cons store s t u w ws c calls e f,
        vu,
        q ∙ ap (λ x. after_all x calls) p,
        (right, rw p at rights),
      )

-- Two responses to one request that a client cannot tell apart, but for the order of a listing.
abbrev pub AlikeAt : Route → Request → Response → Response → Type 0
AlikeAt locks r w w' =
    (ls : List Lock) × (ls' : List Lock) × Distinct ls
    × Distinct ls'
    × ((key : String) → find key ls ≡ find key ls')
    × (w ≡ without_body r.method (write_json Status.ok (lock_list_resp (lock_list_entries ls))))
    × (w' ≡ without_body r.method (write_json Status.ok (lock_list_resp (lock_list_entries ls'))))
AlikeAt _ r w w' = w ≡ w'

abbrev pub Alike : Request → Response → Response → Type 0
Alike r w w' = AlikeAt (route r) r w w'

abbrev pub AlikeAll : List Call → List Response → List Response → Type 0
AlikeAll [] [] [] = Unit
AlikeAll (c ∷ calls) (w ∷ ws) (w' ∷ ws') = Alike c.request w w' × AlikeAll calls ws ws'
AlikeAll _ _ _ = ⊥

Alike-of_answers :
    (rt : Route) (t : Spec.Table) (r : Request) (w w' : Response)
    → AnswersAt rt t r w
    → AnswersAt rt t r w'
    → AlikeAt rt r w w'
Alike-of_answers locks t r w w' (ls, is, e) (ls', is', e') =
    (ls, ls', is.distinct, is'.distinct, (λ key. is.found key ∙ sym (is'.found key)), e, e')
Alike-of_answers lock t r w w' p q = p ∙ sym q
Alike-of_answers _ t r w w' p q = p ∙ sym q

AlikeAll-of_answers :
    (t : Spec.Table) (calls : List Call) (ws ws' : List Response)
    → AnswersAll t calls ws
    → AnswersAll t calls ws'
    → AlikeAll calls ws ws'
AlikeAll-of_answers t [] [] [] p q = tt
AlikeAll-of_answers t [] [] (w' ∷ ws') p q = absurd q
AlikeAll-of_answers t [] (w ∷ ws) ws' p q = absurd p
AlikeAll-of_answers t (c ∷ calls) [] ws' p q = absurd p
AlikeAll-of_answers t (c ∷ calls) (w ∷ ws) [] p q = absurd q
AlikeAll-of_answers t (c ∷ calls) (w ∷ ws) (w' ∷ ws') p q = (
  Alike-of_answers (route c.request) t c.request w w' p.0 q.0,
  AlikeAll-of_answers (after t c.request c.now) calls ws ws' p.1 q.1,
)

-- the reply of a server to calls from its start
abbrev pub Replies : LockStore → List Call → List Response → Type 0
Replies store calls ws = (t : store.State) × (run store store.new_store calls ≡ some (t, ws))

-- Two servers that implement the lock table answer alike.
pub run-Alike :
    (a b : LockStore)
    → LockStoreLaws a
    → LockStoreLaws b
    → (calls : List Call)
    → (ws : List Response) × (ws' : List Response) × Replies a calls ws
      × Replies b calls ws'
      × AlikeAll calls ws ws'
run-Alike a b la lb calls =
    let (t, ws, e, _, _, p) = run-Refines a la a.new_store calls la.new_store-IsValid in
    let (u, ws', f, _, _, q) = run-Refines b lb b.new_store calls lb.new_store-IsValid in
    (
      ws,
      ws',
      (t, e),
      (u, f),
      AlikeAll-of_answers Spec.empty calls ws ws' (rw la.view-new_store at p)
          (rw lb.view-new_store at q),
    )

-- ===== src/Threads/Serial.antt =====
-- The calls of `acquire` and `release` take effect one after another: what they do and answer is what
-- the lock table of the specification does and answers when it serves them in the order in which they
-- changed their maps.
use mathlib.Core.Path.{fun_ext}
use distributed_locking.Base.{
  ℕ, ◌≡◌, sym, ap, ◌∙◌, String, Bool, Option, none, some, List, [], ◌∷◌, nat_eq, nat_eq_iff, eq_iff,
  if◌then◌else◌, arith, inl, inr, Bool-cases,
}
use distributed_locking.Map.{Map, IsMap, lookup}
use distributed_locking.Map.Laws.{lookup-insert, lookup-remove}
use distributed_locking.Lock.{Lock, Time}
use distributed_locking.Spec
use distributed_locking.Sharded.Bodies.{after_body}
use distributed_locking.Threads.{
  Write, acquire, release, Answer, locked, released, listed, key_of, Memory, Pc, leaving, returned,
  conclude, with_map,
}
use distributed_locking.Threads.System.{Event}

-- what the specification does with one call
abbrev pub serve_call : Write → Time → Spec.Table → Spec.Table × Answer
serve_call (acquire key lockee force) now t =
    let (u, l, b) = Spec.acquire t key lockee force now in (u, locked l b)
serve_call (release key lockee) now t =
    let (u, status, msg) = Spec.release t key lockee in (u, released status msg)

-- the table after the events, the last one first, if each had the answer of the specification
abbrev pub Serves : List Event → Spec.Table → Type 0
Serves [] t = t ≡ Spec.empty
Serves (e ∷ es) t = (u : Spec.Table) × Serves es u × (serve_call e.call e.time u ≡ (t, e.answer))

-- the answer of a goroutine among the events, and the answer that it has or will return
abbrev pub answer_in : ℕ → List Event → Option Answer
answer_in i [] = none
answer_in i (e ∷ es) = if nat_eq e.thread i then some e.answer else answer_in i es

abbrev pub of_write : Answer → Option Answer
of_write (listed ls) = none
of_write a = some a

abbrev pub write_answer : Pc → Option Answer
write_answer (leaving k a) = of_write a
write_answer (returned a) = of_write a
write_answer _ = none

-- the entry of a key after `conclude`
conclude-lookup_acquire :
    (key lockee : String) (force : Bool) (existing : Option Lock) (now : Time) (entries : Map Lock)
    (j : String)
    → lookup j (conclude (acquire key lockee force) existing now entries).0
      ≡ after_body
          (Spec.taken existing lockee force)
          key
          (some (Spec.fresh key lockee now))
          j
          (lookup j entries)
unfolding conclude
conclude-lookup_acquire key lockee force existing now entries j =
    ground (arith, eq_iff key j, lookup-insert key j (Spec.fresh key lockee now) entries)

conclude-lookup_release :
    (key lockee : String) (existing : Option Lock) (now : Time) (entries : Map Lock) (j : String)
    → IsMap entries
    → lookup j (conclude (release key lockee) existing now entries).0
      ≡ after_body (Spec.is_held_by lockee existing) key none j (lookup j entries)
unfolding conclude
conclude-lookup_release key lockee existing now entries j h =
    ground (arith, eq_iff key j, lookup-remove key j entries h)

module _ (t : Spec.Table) (key lockee : String) where
  acquired-entry :
      (force : Bool) (existing : Option Lock) (now : Time) (j : String)
      → t key ≡ existing
      → (Spec.acquire t key lockee force now).0 j
        ≡ after_body
            (Spec.taken existing lockee force)
            key
            (some (Spec.fresh key lockee now))
            j
            (t j)
  acquired-entry force existing now j e = rw e (ground arith)

  released-entry :
      (existing : Option Lock) (j : String)
      → t key ≡ existing
      → (Spec.release t key lockee).0 j
        ≡ after_body (Spec.is_held_by lockee existing) key none j (t j)
  released-entry existing j e = rw e (ground arith)

  conclude-answer_acquire :
      (force : Bool) (existing : Option Lock) (now : Time) (entries : Map Lock)
      → t key ≡ existing
      → (serve_call (acquire key lockee force) now t).1
        ≡ (conclude (acquire key lockee force) existing now entries).1
  unfolding conclude
  conclude-answer_acquire force existing now entries e = rw e (ground arith)

  conclude-answer_release :
      (existing : Option Lock) (now : Time) (entries : Map Lock)
      → t key ≡ existing
      → (serve_call (release key lockee) now t).1
        ≡ (conclude (release key lockee) existing now entries).1
  unfolding conclude
  conclude-answer_release existing now entries e = rw e (ground arith)

module _ (home : String → ℕ) where
  abbrev pub view : Memory → Spec.Table
  view m key = lookup key (m.maps (home key))

  -- a change of the map where a key is at home, seen at any key
  view-with_map :
      (m : Memory) (key : String) (changed : Bool) (new : Option Lock) (entries : Map Lock)
      → ((j : String)
          → lookup j entries ≡ after_body changed key new j (lookup j (m.maps (home key))))
      → (j : String)
      → view (with_map m (home key) entries) j ≡ after_body changed key new j (view m j)
  view-with_map m key changed new entries body j = elim (Bool-cases (nat_eq (home key) (home j))) [
    | inl same ↦ let e : home key ≡ home j = (nat_eq_iff _ _).0 same in rw same (rw e at (body j))
    | inr other ↦
        ground (arith, eq_iff key j, ap home {x = key} {y = j}, nat_eq_iff (home key) (home j))
  ]

  serve_path :
      {t u : Spec.Table} {a b : Answer}
      → ((j : String) → t j ≡ u j)
      → a ≡ b
      → ◌≡◌ {A = Spec.Table × Answer} (t, a) (u, b)
  serve_path h q = λ i. (fun_ext h i, q i)

  -- `conclude` on what was read of the map is one call of the specification
  pub conclude-serve_call :
      (m : Memory) (w : Write) (existing : Option Lock) (now : Time)
      → IsMap (m.maps (home (key_of w)))
      → existing ≡ view m (key_of w)
      → let (entries, a) = conclude w existing now (m.maps (home (key_of w))) in
        serve_call w now (view m) ≡ (view (with_map m (home (key_of w)) entries), a)
  conclude-serve_call m (acquire key lockee force) existing now valid e =
      let entries = m.maps (home key) in
      let after = (conclude (acquire key lockee force) existing now entries).0 in
      serve_path
        (λ j.
          acquired-entry (view m) key lockee force existing now j (sym e)
          ∙ sym (
              view-with_map m key (Spec.taken existing lockee force)
                (some (Spec.fresh key lockee now)) after
                (conclude-lookup_acquire key lockee force existing now entries) j))
        (conclude-answer_acquire (view m) key lockee force existing now entries (sym e))
  conclude-serve_call m (release key lockee) existing now valid e =
      let entries = m.maps (home key) in
      let after = (conclude (release key lockee) existing now entries).0 in
      serve_path
        (λ j.
          released-entry (view m) key lockee existing j (sym e)
          ∙ sym (
              view-with_map m key (Spec.is_held_by lockee existing) none after
                (λ j. conclude-lookup_release key lockee existing now entries j valid) j))
        (conclude-answer_release (view m) key lockee existing now entries (sym e))

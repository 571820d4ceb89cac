-- ===== src/Threads/Listings.antt =====
-- What `list` returns while other goroutines change the maps.
use distributed_locking.Base.{
  ℕ, suc, ◌<◌, ◌≡◌, refl, sym, ◌∙◌, String, Option, none, List, [], ◌++◌, arith, inl, inr,
  Option-cases, ℕ_discrete,
}
use distributed_locking.Base.Sums.{update_self, update_other}
use distributed_locking.Map.{Map, RangeOrder, values}
use distributed_locking.Lock.{Lock, Time}
use distributed_locking.Lock.Listing.{find, Distinct, find-arrange, find-append}
use distributed_locking.Threads.{
  Layout, Write, acquire, release, Answer, locked, released, listed, key_of, Memory, Pc, waiting,
  inside, found, leaving, scanning, reading, ranging, gathered, returned, Advance, lock, look, put,
  unlock, rlock, range, read, read_last, runlock, all_read, conclude,
}
use distributed_locking.Threads.System.{
  System, Call, writes, lists, entry, Step, at, Run, start, next, Steps, here, more,
}
use distributed_locking.Threads.Steady.{
  AreHomeMaps, IsFresh, IsSteady, Step-IsSteady, init-IsSteady,
}
use distributed_locking.Threads.Serial.{view}
use distributed_locking.Threads.Gathered.{
  IsGathered, IsListing, find-other, Advance-IsListing, nothing,
}

module _ (home : String → ℕ) where
  module _ (layout : Layout) (n : ℕ) where
    -- what a goroutine has read of map `k`, it held at some moment since state `s`
    abbrev pub Moment : System → System → ℕ → List Lock → Type 0
    Moment s t k ls =
        (u : System) × Steps layout home n s u
        × Steps layout home n u t
        × ((key : String) → home key ≡ k → find key ls ≡ view home u.mem key)

    later :
        {s t u : System} (k : ℕ) (ls : List Lock)
        → Step layout home n t u
        → Moment s t k ls
        → Moment s u k ls
    later k ls st (w, before, after, same) = (w, before, more after st, same)

    abbrev IsReadBefore : System → System → ℕ → List Lock → Type 0
    IsReadBefore s t j ls = (k : ℕ) → k < j → Moment s t k ls

    abbrev IsReadAnswer : System → System → Answer → Type 0
    IsReadAnswer s t (listed ls) = IsReadBefore s t layout.count ls
    IsReadAnswer s t _ = Unit

    abbrev IsRead : System → System → Pc → Type 0
    IsRead s t (scanning j ls) = IsReadBefore s t j ls
    IsRead s t (reading j ls) = IsReadBefore s t j ls
    IsRead s t (ranging j ls got keys c) = IsReadBefore s t j ls
    IsRead s t (gathered j ls) = IsReadBefore s t (suc j) ls
    IsRead s t (leaving j a) = IsReadAnswer s t a
    IsRead s t (returned a) = IsReadAnswer s t a
    IsRead s t _ = Unit

    answer-later :
        (s t u : System) (a : Answer)
        → Step layout home n t u
        → IsReadAnswer s t a
        → IsReadAnswer s u a
    answer-later s t u (listed ls) st h = λ k lt. later k ls st (h k lt)
    answer-later s t u (locked l b) st h = tt
    answer-later s t u (released status msg) st h = tt

    -- a step of another goroutine
    IsRead-later : (s t u : System) (p : Pc) → Step layout home n t u → IsRead s t p → IsRead s u p
    IsRead-later s t u (waiting w) st h = tt
    IsRead-later s t u (inside w) st h = tt
    IsRead-later s t u (found w existing) st h = tt
    IsRead-later s t u (leaving j a) st h = answer-later s t u a st h
    IsRead-later s t u (scanning j ls) st h = λ k lt. later k ls st (h k lt)
    IsRead-later s t u (reading j ls) st h = λ k lt. later k ls st (h k lt)
    IsRead-later s t u (ranging j ls got keys c) st h = λ k lt. later k ls st (h k lt)
    IsRead-later s t u (gathered j ls) st h = λ k lt. later k ls st (h k lt)
    IsRead-later s t u (returned a) st h = answer-later s t u a st h

    -- Reading map `j` in state `t` leaves what was read of the maps before it.
    range-IsRead :
        {s t u : System} (j : ℕ) (ls : List Lock) (o : RangeOrder Lock)
        → AreHomeMaps layout home t.mem
        → IsGathered home j ls
        → Steps layout home n s t
        → Step layout home n t u
        → IsReadBefore s t j ls
        → IsReadBefore s u (suc j) (ls ++ o.arrange (values (t.mem.maps j)))
    unfolding find
    range-IsRead {t = t} j ls o v g r st h k lt =
        let entries = t.mem.maps j in
        elim (ℕ_discrete k j) [
          | yes here_now ↦ (
            t,
            r,
            more here st,
            λ key e.
                let unread : find key ls ≡ none = elim (Option-cases (find key ls)) [
                  | inl none_in ↦ none_in
                  | inr (l, found_l) ↦ absurd (omega (arith, g.behind key l found_l, e, here_now))
                ] in
                let at_j : home key ≡ j = e ∙ here_now in
                rw (find-append, unread, at_j)
                  ((find-arrange o entries (v j).is_map (v j).is_keyed).1 key),
          )
          | no other ↦
              let (u', before, after, same) = h k (omega (arith, other)) in
              (
                u',
                before,
                more after st,
                λ key e. ground (
                  arith,
                  find-append key ls (o.arrange (values entries)),
                  find-other home layout j o entries key (v j) (λ at_j. other (sym e ∙ at_j)),
                  same key e,
                ),
              )
        ]

    conclude-IsReadAnswer :
        (s t : System) (w : Write) (existing : Option Lock) (now : Time) (entries : Map Lock)
        → IsReadAnswer s t (conclude w existing now entries).1
    unfolding conclude
    conclude-IsReadAnswer s t (acquire key lockee force) existing now entries = ground arith
    conclude-IsReadAnswer s t (release key lockee) existing now entries = ground arith

    Advance-IsRead :
        (s t u : System) {m' : Memory} {p p' : Pc}
        → Advance layout home t.mem p m' p'
        → AreHomeMaps layout home t.mem
        → IsFresh layout home t.mem.maps p
        → IsListing home p
        → Steps layout home n s t
        → Step layout home n t u
        → IsRead s t p
        → IsRead s u p'
    Advance-IsRead s t u (lock free none_in) v f g r st h = tt
    Advance-IsRead s t u look v f g r st h = tt
    Advance-IsRead s t u (put {w} {existing} now) v f g r st h =
        conclude-IsReadAnswer s u w existing now (t.mem.maps (home (key_of w)))
    Advance-IsRead s t u (unlock {k} {a}) v f g r st h = answer-later s t u a st h
    Advance-IsRead s t u (rlock lt free) v f g r st h = λ k below. later k _ st (h k below)
    Advance-IsRead s t u (range o) v f g r st h = λ k below. later k _ st (h k below)
    Advance-IsRead s t u (read now others) v f g r st h = λ k below. later k _ st (h k below)
    Advance-IsRead s t u (read_last {k} {ls}) v (lt, o, e) g r st h =
        rw e (range-IsRead k ls o v g r st h)
    Advance-IsRead s t u runlock v f g r st h = λ k below. later k _ st (h k below)
    Advance-IsRead s t u (all_read le) v f g r st h = λ k below. later k _ st (h k (omega arith))

    pub record IsListed (s : System) : Type 0 where
      pub steady : IsSteady layout home n s
      pub listing : (i : ℕ) → IsListing home (s.pc i)

    entry-IsListing : (c : Call) → IsListing home (entry c)
    entry-IsListing (writes w) = tt
    entry-IsListing lists = record {
      distinct = tt;
      behind = λ key l e. absurd (nothing home key l e);
    }

    Step-IsListed : {s t : System} → IsListed s → Step layout home n s t → IsListed t
    Step-IsListed {s} v (at i {m} {p} lt a) = record {
      steady = Step-IsSteady layout home n v.steady (at i lt a);
      listing = λ j. elim (ℕ_discrete i j) [
        | yes same ↦
            rw (update_self s.pc i j p same)
              (Advance-IsListing home a v.steady.home_maps (v.steady.fresh i lt) (v.listing i))
        | no other ↦ rw (update_other s.pc i j p other) (v.listing j)
      ];
    }

    pub Run-IsListed : {calls : ℕ → Call} {s : System} → Run layout home n calls s → IsListed s
    Run-IsListed {calls} start = record {
      steady = init-IsSteady layout home n calls;
      listing = λ i. entry-IsListing (calls i);
    }
    Run-IsListed (next r st) = Step-IsListed (Run-IsListed r) st

    Steps-IsListed : {s t : System} → IsListed s → Steps layout home n s t → IsListed t
    Steps-IsListed v here = v
    Steps-IsListed v (more r st) = Step-IsListed (Steps-IsListed v r) st

    Steps-IsRead :
        (s t : System) (i : ℕ)
        → IsListed s
        → (s.pc i ≡ scanning 0 [])
        → Steps layout home n s t
        → IsRead s t (t.pc i)
    Steps-IsRead s _ i v e here = rw e (λ k lt. absurd (omega arith))
    Steps-IsRead s _ i v e (more {t} r (at j {m} {p} lt a)) = elim (ℕ_discrete j i) [
      | yes same ↦
          let w = Steps-IsListed v r in
          let h : IsRead s t (t.pc j) = rw same (Steps-IsRead s t i v e r) in
          rw (update_self t.pc j i p same) (
            Advance-IsRead s t _ a w.steady.home_maps (w.steady.fresh j lt) (w.listing j) r
              (at j lt a) h)
      | no other ↦
          rw (update_other t.pc j i p other)
            (IsRead-later s t _ (t.pc i) (at j lt a) (Steps-IsRead s t i v e r))
    ]

    -- A `list` that runs from a reachable state `s` to a state `t` among other goroutines returns no
    -- key twice, and of each map exactly the locks that the map held at some moment between them.
    pub list-moments :
        {calls : ℕ → Call} {s t : System} (i k : ℕ) (ls : List Lock)
        → Run layout home n calls s
        → s.pc i ≡ scanning 0 []
        → Steps layout home n s t
        → t.pc i ≡ returned (listed ls)
        → k < layout.count
        → Distinct ls × Moment s t k ls
    list-moments {s = s} {t = t} i k ls run at_entry r e lt =
        let v = Run-IsListed run in
        (rw e at ((Steps-IsListed v r).listing i), (rw e at (Steps-IsRead s t i v at_entry r)) k lt)

-- Where there is one map, as in go-inmemory, `list` returns what the table held at one moment.
pub list-snapshot :
    (layout : Layout) (n : ℕ) {calls : ℕ → Call} {s t : System} (i : ℕ) (ls : List Lock)
    → layout.count ≡ 1
    → Run layout (λ key. 0) n calls s
    → s.pc i ≡ scanning 0 []
    → Steps layout (λ key. 0) n s t
    → t.pc i ≡ returned (listed ls)
    → (u : System) × Steps layout (λ key. 0) n s u
      × Steps layout (λ key. 0) n u t
      × ((key : String) → find key ls ≡ view (λ key. 0) u.mem key)
list-snapshot layout n i ls one run at_entry r e =
    let (u, before, after, same) =
      (list-moments (λ key. 0) layout n i 0 ls run at_entry r e (omega (arith, one))).1 in
    (u, before, after, λ key. same key refl)

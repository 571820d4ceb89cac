-- ===== src/Threads/Progress.antt =====
-- Every call ends, whatever the interleaving.
use distributed_locking.Base.{
  ℕ, zero, suc, ◌+◌, ◌*◌, ◌<◌, ◌≡◌, refl, String, arith, inl, inr, ◌⊎◌, dec_lt,
}
use distributed_locking.Base.Sums.{update, sum_below, some_weight, weight_le, sum_below-same}
use distributed_locking.Map.{Map}
use distributed_locking.Lock.{Lock}
use distributed_locking.Threads.{
  Layout, Memory, Pc, waiting, inside, found, leaving, scanning, reading, ranging, gathered,
  returned, Advance,
}
use distributed_locking.Threads.System.{
  System, Call, writes, lists, entry, init, Step, at, Run, Steps, here, more,
}
use distributed_locking.Threads.Steady.{IsFresh, IsSteady, Run-IsSteady, Step-IsSteady}
use distributed_locking.Threads.Work.{share-entry, work, total_work, accesses, Run-work, Step-work}
use distributed_locking.Threads.Ready.{IsReady, HasReturned, ready-Advance, some-IsReady}

module _ (layout : Layout) (home : String → ℕ) (n : ℕ) where
  -- the accesses of one call: four of `acquire` or `release`, and for each map of `list` four
  -- and the parts of its loop
  abbrev pub needed : Call → ℕ
  needed (writes w) = 4
  needed lists = (layout.parts + 4) * layout.count + 1

  work-entry : (c : Call) → work layout home (entry c) ≡ needed c
  work-entry (writes w) = refl
  work-entry lists = omega (arith, share-entry layout home)

  abbrev pub AllReturned : System → Type 0
  AllReturned s = (i : ℕ) → i < n → HasReturned layout home n (s.pc i)

  work-HasReturned :
      (maps : ℕ → Map Lock) (p : Pc)
      → IsFresh layout home maps p
      → work layout home p ≡ 0
      → HasReturned layout home n p
  work-HasReturned maps (waiting w) f e = absurd (omega arith)
  work-HasReturned maps (inside w) f e = absurd (omega arith)
  work-HasReturned maps (found w existing) f e = absurd (omega arith)
  work-HasReturned maps (leaving k a) f e = absurd (omega arith)
  work-HasReturned maps (scanning k ls) f e = absurd (omega arith)
  work-HasReturned maps (reading k ls) f e = absurd (omega arith)
  work-HasReturned maps (ranging k ls got keys c) f e = absurd (omega arith)
  work-HasReturned maps (gathered k ls) f e = absurd (omega arith)
  work-HasReturned maps (returned a) f e = tt

  work-left : (p : Pc) → HasReturned layout home n p → work layout home p ≡ 0
  work-left (waiting w) h = elim h [ ]
  work-left (inside w) h = elim h [ ]
  work-left (found w existing) h = elim h [ ]
  work-left (leaving k a) h = elim h [ ]
  work-left (scanning k ls) h = elim h [ ]
  work-left (reading k ls) h = elim h [ ]
  work-left (ranging k ls got keys c) h = elim h [ ]
  work-left (gathered k ls) h = elim h [ ]
  work-left (returned a) h = refl

  -- with work left a step can be made, by a goroutine that no mutex holds up
  abbrev pub IsGoingOn : System → Type 0
  IsGoingOn s =
      (j : ℕ) × (j < n)
      × IsReady layout home n s (s.pc j)
      × (m : Memory) × (p : Pc) × Advance layout home s.mem (s.pc j) m p

  work-IsGoingOn :
      {s : System} → IsSteady layout home n s → 0 < total_work layout home n s.pc → IsGoingOn s
  work-IsGoingOn {s} v left =
      let (i, lt, h) = some_weight (λ j. work layout home (s.pc j)) n left in
      elim (some-IsReady layout home n v.counted i lt) [
        | inl over ↦ absurd (omega (arith, h, work-left (s.pc i) over))
        | inr (j, j_lt, ready) ↦
            let (m, p, a) = ready-Advance layout home n s (s.pc j) ready in
            (j, j_lt, ready, m, p, a)
      ]

  worked-AllReturned :
      {s : System} → IsSteady layout home n s → total_work layout home n s.pc ≡ 0 → AllReturned s
  worked-AllReturned {s} v over i lt =
      work-HasReturned s.mem.maps (s.pc i) (v.fresh i lt)
        (omega (arith, over, weight_le (λ j. work layout home (s.pc j)) i n lt))

  entries-work :
      (calls : ℕ → Call)
      → total_work layout home n (init calls).pc ≡ sum_below (λ i. needed (calls i)) n
  entries-work calls = sum_below-same _ _ n (λ j lt. work-entry (calls j))

  -- However the goroutines are scheduled, a run makes at most the accesses that the calls need. After
  -- fewer there is a goroutine that can make its access, even if `RLock` also waits for those that
  -- wait in `Lock`. After all of them every call has returned.
  pub run_length :
      {calls : ℕ → Call} {s : System} (r : Run layout home n calls s)
      → let total = sum_below (λ i. needed (calls i)) n in
        ((accesses layout home n r < total) × IsGoingOn s)
        ⊎ ((accesses layout home n r ≡ total) × AllReturned s)
  run_length {calls} {s} r =
      let v = Run-IsSteady layout home n r in
      let e = Run-work layout home n r in
      let all = entries-work calls in
      elim (dec_lt 0 (total_work layout home n s.pc)) [
        | yes left ↦ inl (omega (arith, e, all), work-IsGoingOn v left)
        | no over ↦ inr (omega (arith, e, all), worked-AllReturned v (omega (arith, over)))
      ]

  Steps-first :
      {s u t : System} → Step layout home n s u → Steps layout home n u t → Steps layout home n s t
  Steps-first st here = more here st
  Steps-first st (more r last) = more (Steps-first st r) last

  finish :
      (fuel : ℕ) {s : System}
      → IsSteady layout home n s
      → total_work layout home n s.pc ≡ fuel
      → (t : System) × Steps layout home n s t × AllReturned t
  finish zero {s} v e = (s, here, worked-AllReturned v e)
  finish (suc fuel) {s} v e =
      let (j, lt, ready, m, p, a) = work-IsGoingOn v (omega (arith, e)) in
      let st : Step layout home n s (record { mem = m; pc = update s.pc j p }) = at j lt a in
      let (t, rest, over) =
        finish fuel (Step-IsSteady layout home n v st)
          (omega (arith, e, Step-work layout home n v st)) in
      (t, Steps-first st rest, over)

  -- From every reachable state there is a way on that ends with every call returned.
  pub all_return :
      {calls : ℕ → Call} {s : System}
      → Run layout home n calls s
      → (t : System) × Steps layout home n s t × AllReturned t
  all_return {s = s} r = finish (total_work layout home n s.pc) (Run-IsSteady layout home n r) refl

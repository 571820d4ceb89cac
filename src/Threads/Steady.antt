-- ===== src/Threads/Steady.antt =====
-- What a goroutine has read stays true until it acts on it, and every map stays a map of locks whose
-- keys are at home there.
use mathlib.Core.List.{append_assoc}
use distributed_locking.Base.{
  sym, ap, ◌∙◌, ◌++◌, ℕ, ◌<◌, ◌≡◌, refl, String, Option, nat_eq, nat_eq_iff, arith, inl, inr,
  Bool-cases, ℕ_discrete,
}
use distributed_locking.Base.Sums.{update, update_self, update_other}
use distributed_locking.Map.{Map, IsMap, RangeOrder, lookup, values}
use distributed_locking.Map.Laws.{insert-IsMap, remove-IsMap}
use distributed_locking.Lock.{Lock, Time}
use distributed_locking.Lock.Listing.{IsKeyed, insert-IsKeyed, remove-IsKeyed}
use distributed_locking.Sharded.Shards.{IsHomed, insert-IsHomed, remove-IsHomed}
use distributed_locking.Threads.{
  Layout, still, Write, acquire, release, key_of, Memory, Pc, waiting, inside, found, leaving,
  scanning, reading, ranging, gathered, returned, Advance, lock, look, put, unlock, rlock, range,
  read, read_last, runlock, all_read, conclude,
}
use distributed_locking.Threads.Loops.{still-append, still-arrange}
use distributed_locking.Threads.System.{
  System, Call, writes, lists, entry, init, Step, at, Run, start, next,
}
use distributed_locking.Threads.Exclusion.{
  writes_at, reads_at, IsCounted, Run-IsCounted, Step-IsCounted, writer-alone,
}

module _ (layout : Layout) (home : String → ℕ) where
  pub record IsHomeMap (k : ℕ) (entries : Map Lock) : Type 0 where
    pub is_map : IsMap entries
    pub is_keyed : IsKeyed entries
    pub is_homed : IsHomed home k entries

  pub conclude-IsHomeMap :
      (w : Write) (existing : Option Lock) (now : Time) (entries : Map Lock)
      → IsHomeMap (home (key_of w)) entries
      → IsHomeMap (home (key_of w)) (conclude w existing now entries).0
  unfolding conclude
  conclude-IsHomeMap (acquire key lockee force) existing now entries v =
      let new : Lock = record { key = key; lockee = lockee; since = now } in
      ground (
        arith,
        insert-IsMap key new entries v.is_map,
        insert-IsKeyed key new entries refl v.is_keyed,
        insert-IsHomed home (home key) key new entries refl v.is_homed,
      )
  conclude-IsHomeMap (release key lockee) existing now entries v = ground (
    arith,
    remove-IsMap key entries v.is_map,
    remove-IsKeyed key entries v.is_keyed,
    remove-IsHomed home (home key) key entries v.is_homed,
  )

  abbrev pub AreHomeMaps : Memory → Type 0
  AreHomeMaps m = (k : ℕ) → IsHomeMap k (m.maps k)

  Advance-maps :
      {m : Memory} {m' : Memory} {p p' : Pc}
      → Advance layout home m p m' p'
      → AreHomeMaps m
      → AreHomeMaps m'
  Advance-maps (lock free none_in) v = v
  Advance-maps look v = v
  Advance-maps {m} (put {w} {existing} now) v = λ k.
      elim (Bool-cases (nat_eq (home (key_of w)) k)) [
        | inl same ↦
            let e : home (key_of w) ≡ k = (nat_eq_iff _ k).0 same in
            rw same (rw (← e) (conclude-IsHomeMap w existing now _ (v (home (key_of w)))))
        | inr other ↦ rw other (v k)
      ]
  Advance-maps unlock v = v
  Advance-maps (rlock lt free) v = v
  Advance-maps (range o) v = v
  Advance-maps (read now later) v = v
  Advance-maps read_last v = v
  Advance-maps runlock v = v
  Advance-maps (all_read le) v = v

  -- what the local variables of a goroutine say of the memory
  abbrev pub IsFresh : (ℕ → Map Lock) → Pc → Type 0
  IsFresh maps (found w existing) = existing ≡ lookup (key_of w) (maps (home (key_of w)))
  IsFresh maps (reading k ls) = k < layout.count
  IsFresh maps (ranging k ls got keys c) =
      (k < layout.count)
      × (o : RangeOrder Lock) × (got ++ still (maps k) keys ≡ o.arrange (values (maps k)))
  IsFresh maps (gathered k ls) = k < layout.count
  IsFresh maps _ = Unit

  Advance-self :
      {m : Memory} {m' : Memory} {p p' : Pc}
      → Advance layout home m p m' p'
      → AreHomeMaps m
      → IsFresh m.maps p
      → IsFresh m'.maps p'
  Advance-self (lock free none_in) v f = tt
  Advance-self look v f = refl
  Advance-self (put now) v f = tt
  Advance-self unlock v f = tt
  Advance-self (rlock lt free) v f = lt
  Advance-self {m} (range {k} o) v f =
      (f, o, still-arrange o (m.maps k) (v k).is_map (v k).is_keyed)
  Advance-self {m} (read {k} {c} {ls} {got} now later) v (lt, o, e) = (
    lt,
    o,
    append_assoc got (still (m.maps k) now) (still (m.maps k) later)
        ∙ (ap (λ r. got ++ r) (sym (still-append (m.maps k) now later)) ∙ e),
  )
  Advance-self read_last v f = f.0
  Advance-self runlock v f = tt
  Advance-self (all_read le) v f = tt

  -- an access leaves fresh what a goroutine without a share in the mutex has read
  put-other :
      (m : Memory) (w : Write) (entries : Map Lock) (q : Pc)
      → (writes_at home (home (key_of w)) q ≡ 0) × (reads_at home (home (key_of w)) q ≡ 0)
      → IsFresh m.maps q
      → IsFresh (update m.maps (home (key_of w)) entries) q
  put-other m w entries (waiting x) out f = tt
  put-other m w entries (inside x) out f = tt
  put-other m w entries (found x existing) out f =
      elim (Bool-cases (nat_eq (home (key_of w)) (home (key_of x)))) [
        | inl same ↦ absurd (ground (arith, out.0))
        | inr other ↦ rw other f
      ]
  put-other m w entries (leaving k a) out f = tt
  put-other m w entries (scanning k ls) out f = tt
  put-other m w entries (reading k ls) out f = f
  put-other m w entries (ranging k ls got keys c) out f =
      elim (Bool-cases (nat_eq (home (key_of w)) k)) [
        | inl same ↦
            absurd (
              ground (arith, out.1, nat_eq_iff (home (key_of w)) k, nat_eq_iff k (home (key_of w))))
        | inr other ↦ rw other f
      ]
  put-other m w entries (gathered k ls) out f = f
  put-other m w entries (returned a) out f = tt

  Advance-other :
      {m : Memory} {m' : Memory} {p p' : Pc} (q : Pc)
      → Advance layout home m p m' p'
      → ((k : ℕ) → writes_at home k p ≡ 1 → (writes_at home k q ≡ 0) × (reads_at home k q ≡ 0))
      → IsFresh m.maps q
      → IsFresh m'.maps q
  Advance-other q (lock free none_in) out f = f
  Advance-other q look out f = f
  Advance-other {m} q (put {w} now) out f =
      put-other m w _ q (out (home (key_of w)) (ground arith)) f
  Advance-other q unlock out f = f
  Advance-other q (rlock lt free) out f = f
  Advance-other q (range o) out f = f
  Advance-other q (read now later) out f = f
  Advance-other q read_last out f = f
  Advance-other q runlock out f = f
  Advance-other q (all_read le) out f = f

  module _ (n : ℕ) where
    pub record IsSteady (s : System) : Type 0 where
      pub counted : IsCounted home n s
      pub home_maps : AreHomeMaps s.mem
      pub fresh : (i : ℕ) → i < n → IsFresh s.mem.maps (s.pc i)

    fresh_next :
        {s : System} {m : Memory} {p : Pc} (i : ℕ)
        → IsSteady s
        → i < n
        → Advance layout home s.mem (s.pc i) m p
        → (j : ℕ) → j < n
        → IsFresh m.maps (update s.pc i p j)
    fresh_next {s} {m} {p} i v hi a j hj = elim (ℕ_discrete i j) [
      | yes same ↦ rw (update_self s.pc i j p same) (Advance-self a v.home_maps (v.fresh i hi))
      | no other ↦ rw (update_other s.pc i j p other) (
          Advance-other (s.pc j) a (λ k w. writer-alone home n i j k v.counted hi hj w other)
            (v.fresh j hj))
    ]

    pub Step-IsSteady : {s t : System} → IsSteady s → Step layout home n s t → IsSteady t
    Step-IsSteady v (at i lt a) = record {
      counted = Step-IsCounted home n v.counted (at i lt a);
      home_maps = Advance-maps a v.home_maps;
      fresh = fresh_next i v lt a;
    }

    entry-IsFresh : (maps : ℕ → Map Lock) (c : Call) → IsFresh maps (entry c)
    entry-IsFresh maps (writes w) = tt
    entry-IsFresh maps lists = tt

    pub init-IsSteady : (calls : ℕ → Call) → IsSteady (init calls)
    init-IsSteady calls = record {
      counted = Run-IsCounted home n {layout = layout} start;
      home_maps = λ k. record { is_map = tt; is_keyed = tt; is_homed = tt };
      fresh = λ i lt. entry-IsFresh ((init calls).mem.maps) (calls i);
    }

    pub Run-IsSteady : {calls : ℕ → Call} {s : System} → Run layout home n calls s → IsSteady s
    Run-IsSteady {calls} start = init-IsSteady calls
    Run-IsSteady (next r st) = Step-IsSteady (Run-IsSteady r) st

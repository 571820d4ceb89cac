-- ===== src/Threads/Exclusion.antt =====
-- The mutexes count the goroutines that hold them: no map is changed by one goroutine while another is
-- inside it.
use distributed_locking.Base.{
  ℕ, ◌+◌, ◌≤◌, ◌<◌, ◌≡◌, ◌≢◌, refl, String, Bool, true, false, nat_eq, arith,
}
use distributed_locking.Base.Sums.{
  sum_below, sum_below-update, weight_le, weights_le, sum_below-zero,
}
use distributed_locking.Threads.{
  Layout, key_of, Memory, Pc, inside, found, leaving, reading, ranging, gathered, Advance, lock,
  look, put, unlock, rlock, range, read, read_last, runlock, all_read,
}
use distributed_locking.Threads.System.{
  System, Call, writes, lists, entry, init, Step, at, Run, start, next,
}

abbrev pub one_if : Bool → ℕ
one_if true = 1
one_if false = 0

pub one_if_le : (b : Bool) → one_if b ≤ 1
one_if_le b = ground arith

flag-set : (b : Bool) → 0 < one_if b → b ≡ true
flag-set b h = ground arith

pub flag-unset : (b : Bool) → one_if b ≡ 0 → b ≡ false
flag-unset b h = ground arith

module _ (home : String → ℕ) where
  -- whether a goroutine holds the mutex of map `k` for writing, and for reading
  abbrev pub writes_at : ℕ → Pc → ℕ
  writes_at k (inside w) = one_if (nat_eq (home (key_of w)) k)
  writes_at k (found w existing) = one_if (nat_eq (home (key_of w)) k)
  writes_at k (leaving j a) = one_if (nat_eq j k)
  writes_at k _ = 0

  abbrev pub reads_at : ℕ → Pc → ℕ
  reads_at k (reading j ls) = one_if (nat_eq j k)
  reads_at k (ranging j ls got keys c) = one_if (nat_eq j k)
  reads_at k (gathered j ls) = one_if (nat_eq j k)
  reads_at k _ = 0

  -- each access changes the mutexes as it changes who holds them
  Advance-writer :
      {layout : Layout} {m : Memory} (k : ℕ) {m' : Memory} {p p' : Pc}
      → Advance layout home m p m' p'
      → writes_at k p ≤ one_if (m.mu k).writer
      → one_if (m'.mu k).writer + writes_at k p ≡ one_if (m.mu k).writer + writes_at k p'
  Advance-writer k (lock free none_in) h = ground arith
  Advance-writer k look h = ground arith
  Advance-writer k (put now) h = ground arith
  Advance-writer k unlock h = ground arith
  Advance-writer k (rlock lt free) h = ground arith
  Advance-writer k (range o) h = ground arith
  Advance-writer k (read now later) h = ground arith
  Advance-writer k read_last h = ground arith
  Advance-writer k runlock h = ground arith
  Advance-writer k (all_read le) h = ground arith

  Advance-readers :
      {layout : Layout} {m : Memory} (k : ℕ) {m' : Memory} {p p' : Pc}
      → Advance layout home m p m' p'
      → reads_at k p ≤ (m.mu k).readers
      → (m'.mu k).readers + reads_at k p ≡ (m.mu k).readers + reads_at k p'
  Advance-readers k (lock free none_in) h = ground arith
  Advance-readers k look h = ground arith
  Advance-readers k (put now) h = ground arith
  Advance-readers k unlock h = ground arith
  Advance-readers k (rlock lt free) h = ground arith
  Advance-readers k (range o) h = ground arith
  Advance-readers k (read now later) h = ground arith
  Advance-readers k read_last h = ground arith
  Advance-readers k runlock h = ground arith
  Advance-readers k (all_read le) h = ground arith

  Advance-apart :
      {layout : Layout} {m : Memory} (k : ℕ) {m' : Memory} {p p' : Pc}
      → Advance layout home m p m' p'
      → ((m.mu k).writer ≡ true → (m.mu k).readers ≡ 0)
      → (m'.mu k).writer ≡ true
      → (m'.mu k).readers ≡ 0
  Advance-apart k (lock free none_in) h w = ground (arith, h)
  Advance-apart k look h w = h w
  Advance-apart k (put now) h w = h w
  Advance-apart k unlock h w = ground (arith, h)
  Advance-apart k (rlock lt free) h w = ground (arith, h)
  Advance-apart k (range o) h w = h w
  Advance-apart k (read now later) h w = h w
  Advance-apart k read_last h w = h w
  Advance-apart k runlock h w = ground (arith, h)
  Advance-apart k (all_read le) h w = h w

  module _ (n : ℕ) where
    -- how many goroutines hold the mutex of a map
    abbrev pub writers : (ℕ → Pc) → ℕ → ℕ
    writers pc k = sum_below (λ i. writes_at k (pc i)) n

    abbrev pub readers : (ℕ → Pc) → ℕ → ℕ
    readers pc k = sum_below (λ i. reads_at k (pc i)) n

    pub record IsCounted (s : System) : Type 0 where
      pub writer_count : (k : ℕ) → writers s.pc k ≡ one_if (s.mem.mu k).writer
      pub reader_count : (k : ℕ) → readers s.pc k ≡ (s.mem.mu k).readers
      pub apart : (k : ℕ) → (s.mem.mu k).writer ≡ true → (s.mem.mu k).readers ≡ 0

    pub Step-IsCounted :
        {layout : Layout} {s t : System} → IsCounted s → Step layout home n s t → IsCounted t
    Step-IsCounted {s} c (at i {m} {p} lt a) = record {
      writer_count = λ k.
          let within = weight_le (λ j. writes_at k (s.pc j)) i n lt in
          omega (
            arith,
            sum_below-update (writes_at k) s.pc i p n lt,
            c.writer_count k,
            Advance-writer k a (omega (arith, within, c.writer_count k)),
          );
      reader_count = λ k.
          let within = weight_le (λ j. reads_at k (s.pc j)) i n lt in
          omega (
            arith,
            sum_below-update (reads_at k) s.pc i p n lt,
            c.reader_count k,
            Advance-readers k a (omega (arith, within, c.reader_count k)),
          );
      apart = λ k w. Advance-apart k a (c.apart k) w;
    }

    entry-unheld : (k : ℕ) (c : Call) → (writes_at k (entry c) ≡ 0) × (reads_at k (entry c) ≡ 0)
    entry-unheld k (writes w) = (refl, refl)
    entry-unheld k lists = (refl, refl)

    init-IsCounted : (calls : ℕ → Call) → IsCounted (init calls)
    init-IsCounted calls = record {
      writer_count = λ k. sum_below-zero _ n (λ j. (entry-unheld k (calls j)).0);
      reader_count = λ k. sum_below-zero _ n (λ j. (entry-unheld k (calls j)).1);
      apart = λ k w. refl;
    }

    pub Run-IsCounted :
        {layout : Layout} {calls : ℕ → Call} {s : System} → Run layout home n calls s → IsCounted s
    Run-IsCounted {calls} start = init-IsCounted calls
    Run-IsCounted (next r st) = Step-IsCounted (Run-IsCounted r) st

    -- two goroutines under one mutex, one of them for writing, are the same
    pub writer-alone :
        {s : System} (i j k : ℕ)
        → IsCounted s
        → i < n
        → j < n
        → writes_at k (s.pc i) ≡ 1
        → i ≢ j
        → (writes_at k (s.pc j) ≡ 0) × (reads_at k (s.pc j) ≡ 0)
    writer-alone {s} i j k c hi hj w ne =
        let both = weights_le (λ a. writes_at k (s.pc a)) i j n ne hi hj in
        let reader = weight_le (λ a. reads_at k (s.pc a)) j n hj in
        let held = flag-set (s.mem.mu k).writer (omega (arith, c.writer_count k, both)) in
        (
          omega (arith, c.writer_count k, one_if_le (s.mem.mu k).writer),
          omega (arith, c.reader_count k, c.apart k held),
        )

    -- In every reachable state, while a goroutine is between `Lock` and `Unlock` of a map's mutex, no
    -- other is: neither between `Lock` and `Unlock` nor between `RLock` and `RUnlock` of it.
    pub mutual_exclusion :
        {layout : Layout} {calls : ℕ → Call} {s : System} (i j k : ℕ)
        → Run layout home n calls s
        → i < n
        → j < n
        → writes_at k (s.pc i) ≡ 1
        → i ≢ j
        → (writes_at k (s.pc j) ≡ 0) × (reads_at k (s.pc j) ≡ 0)
    mutual_exclusion i j k r hi hj w ne = writer-alone i j k (Run-IsCounted r) hi hj w ne

-- ===== src/Docker/Health/Ends.antt =====
-- `WaitHealthy` ends, and says what it saw.
use distributed_locking.Base.{
  ℕ, zero, suc, ◌+◌, ◌*◌, ◌/◌, ◌^◌, ◌≤◌, ◌<◌, ◌≡◌, refl, true, false, some, ltb, arith, inl, inr,
  Bool-cases, ltb→lt, lt→ltb, ◌∙◌,
}
use distributed_locking.Format.Integers.{ℤ, pos, negsuc}
use distributed_locking.Docker.Health.{
  Poll, Health, ready, timed_out, cancelled, is_healthy, first_delay, next_delay, rounds, wait_from,
  wait_healthy, wait_for, timeout_of,
}

-- what a verdict after `n` polls says of them
abbrev pub Saw : (ℕ → Poll) → Health → ℕ → Type 0
Saw polls ready n =
    (k : ℕ) × (n ≡ suc k)
    × (is_healthy (polls k).outcome ≡ true)
    × ((j : ℕ) → j < k → is_healthy (polls j).outcome ≡ false)
Saw polls cancelled n =
    (k : ℕ) × (n ≡ suc k)
    × ((polls k).is_cancelled ≡ true)
    × ((j : ℕ) → j < n → is_healthy (polls j).outcome ≡ false)
Saw polls timed_out n = (k : ℕ) → k < n → is_healthy (polls k).outcome ≡ false

next_delay-ge : (delay : ℕ) → first_delay ≤ delay → first_delay ≤ next_delay delay
unfolding next_delay
next_delay-ge delay h = ground arith

module _ (polls : ℕ → Poll) (deadline : ℕ) where
  extend :
      (i : ℕ)
      → ((k : ℕ) → k < i → is_healthy (polls k).outcome ≡ false)
      → is_healthy (polls i).outcome ≡ false
      → (k : ℕ) → k < suc i
      → is_healthy (polls k).outcome ≡ false
  extend i before ill k lt = elim (Bool-cases (ltb k i)) [
    | inl inside ↦ before k (ltb→lt k i inside)
    | inr last ↦ let e : k ≡ i = ground arith in rw e ill
  ]

  module _ (fuel i delay now : ℕ) where
    wait_from-over :
        ltb deadline now ≡ true
        → wait_from polls (suc fuel) i deadline delay now ≡ some (timed_out, i)
    unfolding wait_from
    wait_from-over over = rw over refl

    wait_from-well :
        ltb deadline now ≡ false
        → is_healthy (polls i).outcome ≡ true
        → wait_from polls (suc fuel) i deadline delay now ≡ some (ready, suc i)
    unfolding wait_from
    wait_from-well early well = rw (early, well) refl

    wait_from-stop :
        ltb deadline now ≡ false
        → is_healthy (polls i).outcome ≡ false
        → (polls i).is_cancelled ≡ true
        → wait_from polls (suc fuel) i deadline delay now ≡ some (cancelled, suc i)
    unfolding wait_from
    wait_from-stop early ill stop = rw (early, ill, stop) refl

    wait_from-go :
        ltb deadline now ≡ false
        → is_healthy (polls i).outcome ≡ false
        → (polls i).is_cancelled ≡ false
        → wait_from polls (suc fuel) i deadline delay now
          ≡ wait_from polls fuel (suc i) deadline (next_delay delay) (now + (polls i).took + delay)
    unfolding wait_from
    wait_from-go early ill go = rw (early, ill, go) refl

  wait_from-Saw :
      (fuel i delay now : ℕ)
      → first_delay ≤ delay
      → deadline < now + fuel * first_delay
      → ((k : ℕ) → k < i → is_healthy (polls k).outcome ≡ false)
      → (h : Health) × (n : ℕ) × (wait_from polls (suc fuel) i deadline delay now ≡ some (h, n))
        × (n ≤ fuel + i)
        × Saw polls h n
  wait_from-Saw zero i delay now long late before = (
    timed_out,
    i,
    wait_from-over zero i delay now (lt→ltb deadline now (omega (arith, late))),
    omega arith,
    before,
  )
  wait_from-Saw (suc fuel) i delay now long late before = elim (Bool-cases (ltb deadline now)) [
    | inl over ↦ (timed_out, i, wait_from-over (suc fuel) i delay now over, omega arith, before)
    | inr early ↦ elim (Bool-cases (is_healthy (polls i).outcome)) [
      | inl well ↦ (
        ready,
        suc i,
        wait_from-well (suc fuel) i delay now early well,
        omega arith,
        (i, refl, well, before),
      )
      | inr ill ↦ elim (Bool-cases (polls i).is_cancelled) [
        | inl stop ↦ (
          cancelled,
          suc i,
          wait_from-stop (suc fuel) i delay now early ill stop,
          omega arith,
          (i, refl, stop, extend i before ill),
        )
        | inr go ↦
            let (h, n, e, few, saw) =
              wait_from-Saw fuel (suc i) (next_delay delay) (now + (polls i).took + delay)
                (next_delay-ge delay long) (omega (arith, late, long)) (extend i before ill) in
            (h, n, wait_from-go (suc fuel) i delay now early ill go ∙ e, omega (arith, few), saw)
      ]
    ]
  ]

-- the part of a duration that is waited for
abbrev pub span : ℤ → ℕ
span (pos timeout) = timeout
span (negsuc n) = 0

wait_for-Saw :
    (polls : ℕ → Poll) (timeout : ℤ) (now : ℕ)
    → (h : Health) × (n : ℕ) × (wait_for polls timeout now ≡ some (h, n))
      × (n ≤ span timeout / first_delay + 1)
      × Saw polls h n
unfolding wait_for
wait_for-Saw polls (negsuc n) now =
    (timed_out, 0, refl, omega arith, λ k lt. absurd (omega (arith, lt)))
wait_for-Saw polls (pos timeout) now =
    let fuel : rounds timeout ≡ suc (timeout / first_delay + 1) = omega arith in
    let (h, n, e, few, saw) =
      wait_from-Saw polls (now + timeout) (timeout / first_delay + 1) 0 first_delay now
        (omega arith) (omega arith) (λ k lt. absurd (omega (arith, lt))) in
    (h, n, rw fuel e, omega (arith, few), saw)

-- With the fuel of `rounds` the wait ends, whatever the timeout, whatever the polls come to and however
-- long they take, after at most a poll for each 100 ms of the timeout, as a 64-bit duration and at least
-- 0, and one more; it reports the first poll that answers 200, and a timeout or a cancelled context only
-- if no poll did.
pub wait_healthy-Saw :
    (polls : ℕ → Poll) (timeout_ms : ℤ) (now : ℕ)
    → (h : Health) × (n : ℕ) × (wait_healthy polls timeout_ms now ≡ some (h, n))
      × (n ≤ span (timeout_of timeout_ms) / 100000000 + 1)
      × Saw polls h n
unfolding wait_healthy
wait_healthy-Saw polls timeout_ms now = wait_for-Saw polls (timeout_of timeout_ms) now

-- a timeout in milliseconds that is no negative number and does not overflow
pub span-timeout_of :
    (ms : ℕ) → ms * 1000000 < 2 ^ 63 → span (timeout_of (pos ms)) / 100000000 ≡ ms / 100
unfolding timeout_of
span-timeout_of ms h = ground arith

-- ===== src/Docker/Health.antt =====
-- `WaitHealthy` of benchmark/docker.go: GET /healthz until it answers 200, with a delay between the
-- polls that doubles. Times are nanoseconds of the monotonic clock.
pub mod Ends
use distributed_locking.Base.{
  ℕ, zero, suc, ◌+◌, ◌-◌, ◌*◌, ◌/◌, ◌%◌, ◌^◌, Bool, true, false, Option, none, some, ltb, nat_eq,
  if◌then◌else◌,
}
use distributed_locking.Format.Integers.{ℤ, pos, negsuc}
use distributed_locking.Status
use distributed_locking.Validate.Client.{Outcome, no_response, unreadable, received}

-- What a poll came to: the answer, the time that it and its delay took beyond the delay itself, and
-- whether the context was done before the delay was over.
pub record Poll : Type 0 where
  pub outcome : Outcome
  pub took : ℕ
  pub is_cancelled : Bool

pub data Health : Type 0 where
  ready : Health
  timed_out : Health
  cancelled : Health

-- `err == nil` and the status is 200; the body is not read
unfoldable pub is_healthy : Outcome → Bool
is_healthy no_response = false
is_healthy (unreadable code) = nat_eq code Status.ok
is_healthy (received w) = nat_eq w.status Status.ok

abbrev pub first_delay : ℕ
first_delay = 100000000

abbrev pub max_delay : ℕ
max_delay = 2000000000

unfoldable pub next_delay : ℕ → ℕ
next_delay delay = if ltb (delay * 2) max_delay then delay * 2 else max_delay

-- The loop from poll `i`: the verdict, and how many polls were made. `none` is too little fuel.
unfoldable pub wait_from : (ℕ → Poll) → ℕ → ℕ → ℕ → ℕ → ℕ → Option (Health × ℕ)
unfolding is_healthy next_delay
wait_from polls zero i deadline delay now = none
wait_from polls (suc fuel) i deadline delay now =
    let p = polls i in
    let rest = wait_from polls fuel (suc i) deadline (next_delay delay) (now + p.took + delay) in
    if ltb deadline now
    then some (timed_out, i)
    else if is_healthy p.outcome
    then some (ready, suc i)
    else if p.is_cancelled
    then some (cancelled, suc i)
    else rest

-- `time.Duration(timeoutMs) * time.Millisecond`, an int64 that wraps
wrap : ℕ → ℤ
wrap n = if ltb n (2 ^ 63) then pos n else negsuc (2 ^ 64 - n - 1)

unfoldable pub timeout_of : ℤ → ℤ
unfolding wrap
timeout_of (pos ms) = wrap (ms * 1000000 % 2 ^ 64)
timeout_of (negsuc n) = wrap ((2 ^ 64 - suc n * 1000000 % 2 ^ 64) % 2 ^ 64)

-- No delay is shorter than the first, so this many rounds pass the deadline.
abbrev pub rounds : ℕ → ℕ
rounds timeout = timeout / first_delay + 2

-- The deadline of a negative timeout is over at the first look at the clock.
unfoldable wait_for : (ℕ → Poll) → ℤ → ℕ → Option (Health × ℕ)
unfolding wait_from
wait_for polls (negsuc n) now = some (timed_out, 0)
wait_for polls (pos timeout) now =
    wait_from polls (rounds timeout) 0 (now + timeout) first_delay now

unfoldable pub wait_healthy : (ℕ → Poll) → ℤ → ℕ → Option (Health × ℕ)
unfolding timeout_of wait_for
wait_healthy polls timeout_ms now = wait_for polls (timeout_of timeout_ms) now

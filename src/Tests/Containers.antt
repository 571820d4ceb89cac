-- ===== src/Tests/Containers.antt =====
-- The wait for a service, run and at a concrete sequence of polls.
use distributed_locking.Base.{ℕ, zero, suc, ◌+◌, ◌/◌, ◌≤◌, ◌≡◌, refl, false, some}
use distributed_locking.Validate.Client.{no_response, unreadable}
use distributed_locking.Format.Integers.{pos, negsuc}
use distributed_locking.Docker.Health.{
  Poll, Health, ready, timed_out, wait_healthy, timeout_of, wait_from, is_healthy, next_delay,
}
use distributed_locking.Docker.Health.Ends

-- two polls fail, and all later ones are answered
abbrev polls : ℕ → Poll
polls zero = record { outcome = no_response; took = 1000000; is_cancelled = false }
polls (suc zero) = record { outcome = unreadable 503; took = 1000000; is_cancelled = false }
polls (suc (suc n)) = record { outcome = unreadable 200; took = 1000000; is_cancelled = false }

third_poll : wait_healthy polls (pos 400) 0 ≡ some (ready, 3)
unfolding wait_healthy wait_from is_healthy next_delay
third_poll = refl

-- polls at 0 ms and at 101 ms; the next would be past the deadline of 150 ms
too_late : wait_healthy polls (pos 150) 0 ≡ some (timed_out, 2)
unfolding wait_healthy wait_from is_healthy next_delay
too_late = refl

-- a negative timeout is over at once
negative_timeout : wait_healthy polls (negsuc 4) 7 ≡ some (timed_out, 0)
unfolding wait_healthy
negative_timeout = refl

wait_healthy-Saw_example :
    (h : Health) × (n : ℕ) × (wait_healthy polls (pos 400) 0 ≡ some (h, n))
    × (n ≤ Ends.span (timeout_of (pos 400)) / 100000000 + 1)
    × Ends.Saw polls h n
wait_healthy-Saw_example = Ends.wait_healthy-Saw polls (pos 400) 0

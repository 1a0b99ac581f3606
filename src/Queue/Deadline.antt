-- ===== src/Queue/Deadline.antt =====
-- The `timespec` that `queue_get` gives to `pthread_cond_timedwait`, which refuses one whose
-- `tv_nsec` is not below 10^9 and then does not wait.
use fast.Prelude.{arith, ℕ, ◌%◌, ◌*◌, ◌+◌, ◌<◌, ◌↔◌, ◌≡◌}
use fast.Queue.{queue_deadline}

-- The deadline is the time of day plus the timeout, in nanoseconds, and it is a valid `timespec`
-- exactly when the microseconds and the timeout's fraction of a second do not make up a second.
-- So a timeout of whole seconds is always valid, and the default of 0.1 s is refused during the
-- last tenth of each second.
pub queue_deadline_lem :
    (sec usec timeout : ℕ)
    → let (s, ns) = queue_deadline sec usec timeout in
      (s * 1_000_000_000 + ns ≡ (sec * 1_000_000 + usec) * 1000 + timeout * 1_000_000)
      × ((ns < 1_000_000_000) ↔ (usec + 1000 * (timeout % 1000) < 1_000_000))
unfolding queue_deadline
queue_deadline_lem sec usec timeout = (omega arith, (omega arith, omega arith))

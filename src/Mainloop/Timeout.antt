-- ===== src/Mainloop/Timeout.antt =====
-- The timeout of the main loop against the times of the timers.
use dimmon.Prelude.{ℕ, ◌+◌, ◌*◌, ◌≤◌, ◌<◌, ◌≡◌, ◌-◌, ◌^◌, ◌/◌, false, arith}
use dimmon.Timespec.{
  Timespec, timespec_inc, timespec_gt, timespec_inc-nanos, timespec_gt-nanos, IsNormal, nanos,
}
use dimmon.Timer.Trigger.{coalesce_interval}
use dimmon.Mainloop.{int_or_zero, timeout_ms}

abbrev pub ms : ℕ
ms = 1_000_000

int_or_zero-small :
    (plus minus : ℕ)
    → plus < minus + 2 ^ 31
    → minus ≤ plus + 2 ^ 31
    → int_or_zero plus minus ≡ plus - minus
unfolding int_or_zero
int_or_zero-small plus minus soon late = ground (arith, soon, late)

-- The next timer is due within the milliseconds that an int holds, and is not overdue by more.
abbrev pub FitsInt : Timespec → Timespec → Type 0
FitsInt next now =
    (nanos next + ms ≤ nanos now + 2 ^ 31 * ms) × (nanos now + ms ≤ nanos next + 2 ^ 31 * ms)

timeout_ms-small :
    (next now : Timespec)
    → IsNormal next
    → IsNormal now
    → FitsInt next now
    → timeout_ms next now
      ≡ next.tv_sec * 1000
        + (next.tv_nsec - now.tv_nsec) / 1_000_000
        - (now.tv_sec * 1000 + (now.tv_nsec - next.tv_nsec) / 1_000_000)
unfolding timeout_ms
timeout_ms-small next now a b fits =
    int_or_zero-small (next.tv_sec * 1000 + (next.tv_nsec - now.tv_nsec) / 1_000_000)
      (now.tv_sec * 1000 + (now.tv_nsec - next.tv_nsec) / 1_000_000) (omega (arith, fits.0, fits.1))
      (omega (arith, fits.0, fits.1))

-- For normalised times that differ by no more milliseconds than an int holds: the wait ends less than a millisecond before the next timer is due, and no
-- wait that is not empty ends a millisecond or more behind it.
pub timeout_ms-nanos :
    (next now : Timespec)
    → IsNormal next
    → IsNormal now
    → FitsInt next now
    → (nanos next < nanos now + timeout_ms next now * ms + ms)
      × (1 ≤ timeout_ms next now → nanos now + timeout_ms next now * ms < nanos next + ms)
timeout_ms-nanos next now a b fits =
    let small = timeout_ms-small next now a b fits in
    (omega (arith, small), λ h. omega (arith, small))

-- For normalised times that differ by no more milliseconds than an int holds: when the clock has passed the timeout, the next timer counts as due under
-- the coalescing interval, so that the trigger loop does not stop at it even without being forced.
pub timeout_reaches_next :
    (next now wake : Timespec)
    → IsNormal next
    → IsNormal now
    → IsNormal wake
    → FitsInt next now
    → nanos now + timeout_ms next now * ms ≤ nanos wake
    → timespec_gt next (timespec_inc wake coalesce_interval) ≡ false
timeout_reaches_next next now wake a b c fits late =
    let sum = timespec_inc-nanos wake coalesce_interval c (omega arith) in
    ground (
      arith,
      sum,
      timespec_gt-nanos next (timespec_inc wake coalesce_interval) a sum.0,
      (timeout_ms-nanos next now a b fits).0,
    )

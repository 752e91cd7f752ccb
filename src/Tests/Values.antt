-- ===== src/Tests/Values.antt =====
-- The theorems on times and on event masks, applied to values.
use dimmon.Prelude.{◌+◌, ◌*◌, ◌≤◌, ◌<◌, ◌≡◌, false, arith}
use dimmon.Timespec.{timespec, timespec_inc, timespec_gt, nanos}
use dimmon.Timer.Trigger.{coalesce_interval}
use dimmon.Mainloop.{timeout_ms}
use dimmon.Mainloop.Timeout.{ms, timeout_ms-nanos, timeout_reaches_next}

timeout_ms-nanos_example :
    (nanos (timespec 5 400)
      < nanos (timespec 3 900) + timeout_ms (timespec 5 400) (timespec 3 900) * ms + ms)
    × (1 ≤ timeout_ms (timespec 5 400) (timespec 3 900)
        → nanos (timespec 3 900) + timeout_ms (timespec 5 400) (timespec 3 900) * ms
          < nanos (timespec 5 400) + ms)
timeout_ms-nanos_example =
    timeout_ms-nanos (timespec 5 400) (timespec 3 900) (omega arith) (omega arith) (omega arith)

wake_late :
    nanos (timespec 3 900) + timeout_ms (timespec 5 400) (timespec 3 900) * ms
    ≤ nanos (timespec 5 900)
unfolding timeout_ms
wake_late = omega arith

timeout_reaches_next_example :
    timespec_gt (timespec 5 400) (timespec_inc (timespec 5 900) coalesce_interval) ≡ false
timeout_reaches_next_example =
    timeout_reaches_next (timespec 5 400) (timespec 3 900) (timespec 5 900) (omega arith)
      (omega arith) (omega arith) (omega arith) wake_late

-- ===== src/Tests/Timers.antt =====
-- The theorems on timers, applied to the sample.
use dimmon.Prelude.{refl, ◌+◌, ◌≡◌, ◌&&◌, true, false, if◌then◌else◌, count, arith, ◌==◌}
use dimmon.Timespec.{timespec, timespec_iszero, timespec_inc}
use dimmon.State.{Addr, ok, einval}
use dimmon.State.Returns.{Returns}
use dimmon.Timer.{timer_register, timer_set, next_of}
use dimmon.Timer.Registration.{TimerInv, register-TimerInv}
use dimmon.Timer.Set.{Armed, Settable, due, set-Armed}
use dimmon.Timer.Trigger.{timer_rearm}
use dimmon.Timer.Rearm.{Rearmed, timer_rearm-Rearmed}
use dimmon.Tests.Sample.{sample, sample-TimerInv}

fifty_set : timespec_iszero (next_of sample 8) ≡ false
unfolding timespec_iszero
fifty_set = ground arith

register-TimerInv_example : Returns (timer_register 8 sample) (λ _ t.
    TimerInv t
    × ((b : Addr)
        → count b t.timer_trigger_list
          ≡ (if 8 == b then 1 else 0) + count b sample.timer_trigger_list)
    × ((b : Addr) → (t.timer b).tm_next ≡ (sample.timer b).tm_next)
    × ((b : Addr) → (t.timer b).tm_interval ≡ (sample.timer b).tm_interval)
    × ((t.timer 8).tm_registered ≡ true)
    × ((t.event 8).ev_refs ≡ (sample.event 8).ev_refs + 1))
register-TimerInv_example =
    register-TimerInv 8 sample sample-TimerInv (ground arith) fifty_set (ground arith)
      (ground arith) (ground arith)

can_set : Settable 4 sample
can_set = record {
  valid = ground arith;
  alive = ground arith;
  held = ground arith;
  few = ground arith;
}

five_due :
    timespec_iszero (due (timespec 5 0) (timespec 1 0) 0 (timespec 90 0) (next_of sample 4)) ≡ false
unfolding timespec_iszero timespec_inc
five_due = ground arith

-- In five seconds, then every second.
set-Armed_example :
    if timespec_iszero (timespec 5 0) && timespec_iszero (timespec 1 0)
    then (timer_set 4 (timespec 5 0) (timespec 1 0) 0 sample ≡ ok einval sample)
    else Returns (timer_set 4 (timespec 5 0) (timespec 1 0) 0 sample) (λ err t.
      (err ≡ 0)
      × Armed 4
          (due (timespec 5 0) (timespec 1 0) 0 (timespec 90 0) (next_of sample 4))
          (timespec 1 0)
          t)
set-Armed_example =
    set-Armed 4 (timespec 5 0) (timespec 1 0) 0 (timespec 90 0) sample refl sample-TimerInv can_set
      five_due

timer_rearm-Rearmed_example : Returns (timer_rearm 4 sample) (λ _ t. Rearmed 4 sample t)
timer_rearm-Rearmed_example =
    timer_rearm-Rearmed 4 sample sample-TimerInv (ground arith) (ground arith) (ground arith)
      (ground arith) (ground arith)

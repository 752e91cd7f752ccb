-- ===== src/Mainloop.antt =====
-- dmm_base.c, dmm_main_loop: one round for each answer of epoll_wait. The timeout that epoll_wait
-- is given is recorded.
pub mod Timeout
use dimmon.Prelude.{
  ℕ, ◌+◌, ◌-◌, ◌*◌, ◌/◌, ◌%◌, ◌^◌, Bool, true, false, leb, ltb, Option, none, some, List, [], ◌∷◌,
  ◌==◌, if◌then◌else◌,
}
use dimmon.Timespec.{Timespec}
use dimmon.State.{
  Addr, Errno, enoent, time, failed, Sys, Cmd, ◌>>=◌, ◌>>◌, pure, skip, get, gettime, call,
  epoll_wait,
}
use dimmon.Timer.{timers_next}
use dimmon.Timer.Trigger.{timers_trigger}
use dimmon.Wave.{wave_start}
use dimmon.Wave.Finish.{wave_finish}
use dimmon.Sockevent.Trigger.{sockevent_process}
use dimmon.Message.Generic.{Receiver}

-- What epoll_wait answers: nothing in time, an event, or a failure; EINTR is `interrupted`.
pub data Wait : Type 0 where
  timeout interrupted : Wait
  ready : (ptr : Addr) → (events : ℕ) → Wait
  wait_failed : Errno → Wait

-- A difference that is stored in an int, which keeps its low 32 bits; a negative int becomes 0.
unfoldable pub int_or_zero : ℕ → ℕ → ℕ
int_or_zero plus minus =
    let low : ℕ = (plus + (2 ^ 32 - minus % 2 ^ 32)) % 2 ^ 32 in if ltb low (2 ^ 31) then low else 0

-- The milliseconds from `now` to `next`. The sum of the two signed terms is the difference of their
-- positive and their negative parts; C divides towards zero.
unfoldable pub timeout_ms : Timespec → Timespec → ℕ
unfolding int_or_zero
timeout_ms next now =
    int_or_zero (next.tv_sec * 1000 + (next.tv_nsec - now.tv_nsec) / 1_000_000)
      (now.tv_sec * 1000 + (now.tv_nsec - next.tv_nsec) / 1_000_000)

-- `none` is the timeout -1, to wait for any time.
unfoldable pub wait_time : Sys → Timespec → Option ℕ
unfolding timers_next timeout_ms
wait_time s now =
    let (err, next) = timers_next s in if err == 0 then some (timeout_ms next now) else none

module _ (receiver : Addr → Option Receiver) where
  -- The rest of a round behind the wait. `none` goes on, `some err` ends the loop.
  abbrev go_on : Errno → Cmd (Option Errno) → Cmd (Option Errno)
  go_on err k = if err == 0 then k else pure (some err)

  abbrev process_ready : ℕ → Wait → Cmd Errno
  process_ready fuel (ready ptr events) = sockevent_process receiver fuel ptr events
  process_ready fuel _ = pure 0

  abbrev is_timeout : Wait → Bool
  is_timeout timeout = true
  is_timeout _ = false

  unfoldable pub wave : ℕ → Wait → Cmd (Option Errno)
  unfolding wave_start sockevent_process timers_trigger wave_finish
  wave fuel w = do
    err ← wave_start
    go_on err (do
      err' ← process_ready fuel w
      go_on err' (do
        err'' ← timers_trigger receiver fuel (is_timeout w)
        go_on err'' (do err''' ← wave_finish receiver fuel; go_on err''' (pure none))))

  unfoldable pub main_round : ℕ → Wait → Cmd (Option Errno)
  unfolding gettime wait_time wave
  main_round fuel w = do
    r ← gettime
    elim r [
      | failed e ↦ pure (some e)
      | time now ↦ do
        s ← get
        call (epoll_wait (wait_time s now))
        elim w [ interrupted ↦ pure none | wait_failed e ↦ pure (some e) | other ↦ wave fuel other ]
    ]

  -- The loop over the answers of epoll_wait: its result when it ends, `none` while it goes on.
  unfoldable pub main_loop : ℕ → List Wait → Cmd (Option Errno)
  unfolding main_round
  main_loop fuel [] = pure none
  main_loop fuel (w ∷ ws) =
      main_round fuel w >>= λ r. elim r [ none ↦ main_loop fuel ws | some e ↦ pure (some e) ]

-- ===== src/Timer/Trigger.antt =====
-- dmm_timer.c, dmm_timer_trigger and dmm_timers_trigger: the messages of the timers whose time has
-- come. `receiver` gives the `rcvmsg` of a node type, which may act on the whole state.
use dimmon.Prelude.{
  ℕ, zero, suc, Bool, false, not, ◌&&◌, Option, none, some, List, [], ◌∷◌, ◌==◌, if◌then◌else◌, has,
}
use dimmon.Timespec.{Timespec, timespec, timespec_inc, timespec_gt, timespec_iszero}
use dimmon.State.{
  Addr, Errno, enomem, einval, Timer, time, failed, Cmd, fault, ◌>>=◌, ◌>>◌, pure, skip, get,
  modify, with_timer, gettime,
}
use dimmon.Event.{event_ref, event_unref}
use dimmon.Timer.{next_of, timer_register, timer_deregister}
use dimmon.Message.{Content, Msg, msgtype_generic, cmd_timertrigger, msg_create}
use dimmon.Message.Generic.{Receiver}
use dimmon.Message.Send.{event_sendsubscribed}

abbrev pub trigger_msg : ℕ → Msg
trigger_msg id = record {
  cm_src = 0;
  cm_cmd = cmd_timertrigger;
  cm_type = msgtype_generic;
  cm_token = 0;
  cm_resp = false;
  cm_err = false;
  cm_data = Content.timer_id id;
}

abbrev pub coalesce_interval : Timespec
coalesce_interval = timespec 0 1_000_000

-- LIST_NEXT in a list, NULL at the end.
unfoldable pub list_next : Addr → List Addr → Addr
list_next a [] = 0
list_next a (t ∷ []) = 0
list_next a (t ∷ u ∷ us) = if t == a then u else list_next a (u ∷ us)

abbrev pub list_first : List Addr → Addr
list_first [] = 0
list_first (t ∷ ts) = t

abbrev pub advance : Timer → Timer
advance tm = record tm { tm_next = timespec_inc tm.tm_next tm.tm_interval }

-- Behind the trigger: a timer with an interval is registered for its next time.
unfoldable pub timer_rearm : Addr → Cmd (Unit {0})
unfolding timer_deregister timer_register timespec_inc timespec_iszero
timer_rearm a = do
  s ← get
  if (s.timer a).tm_invalid then skip else do
    timer_deregister a
    if timespec_iszero (s.timer a).tm_interval
        then skip
        else do modify (with_timer a advance); timer_register a

module _ (receiver : Addr → Option Receiver) where
  unfoldable pub timer_trigger : ℕ → Addr → Cmd Errno
  unfolding event_unref msg_create event_sendsubscribed
  timer_trigger fuel a = do
    s ← get
    if (s.timer a).tm_invalid then (do event_unref a; pure einval) else do
      r ← msg_create (trigger_msg (s.event a).ev_id)
      elim r [ none ↦ pure enomem | some m ↦ do event_sendsubscribed receiver fuel a m; pure 0 ]

  -- One round of the loop, for a timer whose time has come.
  unfoldable pub trigger_round : ℕ → Addr → Cmd (Unit {0})
  unfolding event_ref timer_trigger timer_rearm event_unref
  trigger_round fuel a = do event_ref a; timer_trigger fuel a >>= λ _. timer_rearm a; event_unref a

  -- LIST_FOREACH_SAFE from the timer `a`, NULL at the end: the next timer is read before the round,
  -- and reading it when it is no longer linked is a fault.
  unfoldable pub trigger_from : ℕ → Timespec → Bool → Addr → Cmd (Unit {0})
  unfolding trigger_round timespec_gt list_next has
  trigger_from zero now force a = λ _. fault
  trigger_from (suc fuel) now force a = λ s.
      let rest : Addr → Cmd (Unit {0}) = trigger_from fuel now false in
      let next : Addr = list_next a s.timer_trigger_list in
      if a == 0
      then skip s
      else if not force && timespec_gt (next_of s a) now
      then skip s
      else (trigger_round fuel a >>= λ _. λ t.
            if next == 0
            then skip t
            else if has next t.timer_trigger_list
            then rest next t
            else fault)
          s

  unfoldable pub timers_trigger : ℕ → Bool → Cmd Errno
  unfolding gettime timespec_inc trigger_from
  timers_trigger fuel force = do
    r ← gettime
    elim r [
      | failed e ↦ pure e
      | time now ↦ do
        s ← get
        trigger_from fuel (timespec_inc now coalesce_interval) force
            (list_first s.timer_trigger_list)
        pure 0
    ]

-- ===== src/Timer.antt =====
-- dmm_timer.c: timers, the trigger list in order of time, setting and removing. A timer has the
-- address of its event, and DMM_TIMER_REF and DMM_TIMER_UNREF are those of the event.
pub mod Order
pub mod Registration
pub mod Set
pub mod Next
pub mod Rearm
pub mod Trigger
use dimmon.Prelude.{
  ℕ, ◌/◌, ◌%◌, Bool, true, false, ◌&&◌, not, none, some, List, [], ◌∷◌, ◌==◌, if◌then◌else◌, unlink,
}
use dimmon.Timespec.{Timespec, timespec, timespec_inc, timespec_gt, timespec_iszero}
use dimmon.State.{
  Addr, Errno, enoent, enomem, einval, timer_destructor, Event, Timer, time, failed, Sys, Cmd,
  ◌>>=◌, ◌>>◌, pure, skip, get, assert, modify, with_event, with_timer, malloc, gettime,
}
use dimmon.Event.{
  event_ref, event_unref, event_init, event_checkedsubscribe, event_unsubscribe,
  event_unsubscribeall,
}

abbrev new_timer : Timer
new_timer = record {
  tm_invalid = false;
  tm_registered = false;
  tm_next = timespec 0 0;
  tm_interval = timespec 0 0;
}

abbrev set_destructor : Event → Event
set_destructor e = record e { ev_destructor = some timer_destructor }

-- The result is the error and the timer.
unfoldable pub timer_create : Cmd (Errno × Addr)
unfolding malloc event_init
timer_create = do
  a ← malloc
  if a == 0 then pure (enomem, 0) else do
    event_init a
    modify (with_event a set_destructor)
    modify (with_timer a (λ _. new_timer))
    modify (λ s. record s { timerlist = a ∷ s.timerlist })
    pure (0, a)

unfoldable pub timer_deregister : Addr → Cmd (Unit {0})
unfolding unlink event_unref
timer_deregister a = do
  s ← get
  if not (s.timer a).tm_registered then skip else do
    modify (λ t. record t { timer_trigger_list = unlink a t.timer_trigger_list })
    modify (with_timer a (λ t. record t { tm_registered = false }))
    event_unref a

unfoldable pub timer_rm : Addr → Cmd (Unit {0})
unfolding timer_deregister event_unsubscribeall unlink event_unref
timer_rm a = do
  modify (with_timer a (λ t. record t { tm_invalid = true }))
  timer_deregister a
  event_unsubscribeall a
  modify (λ t. record t { timerlist = unlink a t.timerlist })
  event_unref a

-- The first timer of a list with the id, NULL if there is none.
unfoldable pub first_with_id : (Addr → Event) → ℕ → List Addr → Addr
first_with_id event id [] = 0
first_with_id event id (a ∷ as') = if (event a).ev_id == id then a else first_with_id event id as'

unfoldable pub timer_id2ref : ℕ → Cmd Addr
unfolding first_with_id event_ref
timer_id2ref id = do
  s ← get
  let a = first_with_id s.event id s.timerlist
  if a == 0 then pure 0 else if (s.timer a).tm_invalid then pure a else (do event_ref a; pure a)

-- The walk to the last timer that does not trigger later, and LIST_INSERT_AFTER.
unfoldable pub insert_after : (Addr → Timespec) → Addr → List Addr → List Addr
insert_after next a [] = a ∷ []
insert_after next a (t ∷ []) = t ∷ a ∷ []
insert_after next a (t ∷ u ∷ us) =
    if timespec_gt (next u) (next a) then t ∷ a ∷ u ∷ us else t ∷ insert_after next a (u ∷ us)

unfoldable pub trigger_insert : (Addr → Timespec) → Addr → List Addr → List Addr
unfolding insert_after
trigger_insert next a [] = a ∷ []
trigger_insert next a (t ∷ ts) =
    if timespec_gt (next t) (next a) then a ∷ t ∷ ts else insert_after next a (t ∷ ts)

abbrev pub next_of : Sys → Addr → Timespec
next_of s a = (s.timer a).tm_next

unfoldable pub timer_register : Addr → Cmd (Unit {0})
unfolding trigger_insert event_ref timespec_iszero
timer_register a = do
  s ← get
  if (s.timer a).tm_invalid then skip else do
    assert (not (timespec_iszero (next_of s a)))
    assert (not (s.timer a).tm_registered)
    modify
        (λ t. record t { timer_trigger_list = trigger_insert (next_of t) a t.timer_trigger_list })
    modify (with_timer a (λ t. record t { tm_registered = true }))
    event_ref a

-- DMM_TIMERSET_ABS and DMM_TIMERSET_CHANGEINTERVALONLY, bits 0 and 1 of the flags.
abbrev pub is_abs : ℕ → Bool
is_abs flags = flags % 2 == 1

abbrev pub is_change_interval_only : ℕ → Bool
is_change_interval_only flags = flags / 2 % 2 == 1

abbrev set_next : Timespec → Timer → Timer
set_next t tm = record tm { tm_next = t }

-- The new `tm_next`: the error of the clock, or 0.
unfoldable pub timer_set_next : Addr → Timespec → Timespec → ℕ → Cmd Errno
unfolding gettime timespec_inc timespec_iszero
timer_set_next a next interval flags =
    if timespec_iszero next
    then (if is_change_interval_only flags then pure 0 else do
      r ← gettime
      elim r [
        | failed e ↦ pure e
        | time now ↦ do modify (with_timer a (set_next (timespec_inc now interval))); pure 0
      ])
    else do
      modify (with_timer a (set_next next))
      if is_abs flags then pure 0 else do
        r ← gettime
        elim r [
          | failed e ↦ pure e
          | time now ↦ do modify (with_timer a (set_next (timespec_inc next now))); pure 0
        ]

unfoldable pub timer_set : Addr → Timespec → Timespec → ℕ → Cmd Errno
unfolding timer_set_next timer_deregister timer_register timespec_iszero
timer_set a next interval flags =
    if timespec_iszero next && timespec_iszero interval then pure einval else do
      err ← timer_set_next a next interval flags
      if err == 0
          then (do
            modify (with_timer a (λ t. record t { tm_interval = interval }))
            timer_deregister a
            timer_register a
            pure 0)
          else pure err

unfoldable pub timer_unset : Addr → Cmd (Unit {0})
unfolding timer_deregister
timer_unset = timer_deregister

unfoldable pub timer_subscribe : Addr → Addr → Cmd Errno
unfolding event_checkedsubscribe
timer_subscribe a n = do
  s ← get
  if (s.node n).nd_invalid
      then pure einval
      else if (s.timer a).tm_invalid
      then pure einval
      else event_checkedsubscribe a n

unfoldable pub timer_unsubscribe : Addr → Addr → Cmd Errno
unfolding event_unsubscribe
timer_unsubscribe = event_unsubscribe

-- The time of the first timer of the list, with error 0.
unfoldable pub timers_next : Sys → Errno × Timespec
timers_next s = elim s.timer_trigger_list [
  | [] ↦ (enoent, timespec 0 0)
  | a ∷ as' ↦ (0, next_of s a)
]

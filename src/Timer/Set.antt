-- ===== src/Timer/Set.antt =====
-- Setting a timer, dmm_timer_set: when it triggers next, and that the trigger list stays sorted.
use native.Mathlib.Decide.{ℕ_discrete}
use dimmon.Prelude.{
  ℕ, ◌+◌, ◌<◌, ◌≡◌, ◌≢◌, ◌∙◌, ◌&&◌, ap, refl, true, false, arith, length, count, if◌then◌else◌,
  Bool-cases, inl, inr,
}
use dimmon.Timespec.{Timespec, timespec_iszero, timespec_inc}
use dimmon.State.{Addr, Errno, Sys, ok, time, einval, with_timer, pure, ◌>>◌, modify}
use dimmon.State.Returns
use dimmon.State.Returns.{Returns}
use dimmon.Memman.{dmm_refnum_max}
use dimmon.Timer.{
  next_of, is_abs, is_change_interval_only, timer_register, timer_deregister, timer_set_next,
  timer_set,
}
use dimmon.Timer.Registration.{
  TimerInv, Deregistered, deregister-Deregistered, Deregistered-TimerInv, register-TimerInv,
}

-- When the timer is to trigger: at an absolute time, after a time from now, after an interval from now,
-- or as before. An absolute time that has passed is no error, against the words above dmm_timer_set.
abbrev pub due : Timespec → Timespec → ℕ → Timespec → Timespec → Timespec
due next interval flags now old =
    if timespec_iszero next
    then (if is_change_interval_only flags then old else timespec_inc now interval)
    else (if is_abs flags then next else timespec_inc next now)

-- Only the time of one timer has changed.
record Moved (a : Addr) (x : Timespec) (s t : Sys) : Type 0 where
  next : (t.timer a).tm_next ≡ x
  flag : (t.timer a).tm_registered ≡ (s.timer a).tm_registered
  valid : (t.timer a).tm_invalid ≡ (s.timer a).tm_invalid
  others : (b : Addr) → b ≢ a → t.timer b ≡ s.timer b
  list : t.timer_trigger_list ≡ s.timer_trigger_list
  events : t.event ≡ s.event

module _ (a : Addr) (next interval : Timespec) (flags : ℕ) (now : Timespec) (s : Sys)
    (clock : s.clock s.readings ≡ time now) where
  set_next-Moved :
      Returns
        (timer_set_next a next interval flags s)
        (λ err t. (err ≡ 0) × Moved a (due next interval flags now (next_of s a)) s t)
  unfolding timer_set_next
  set_next-Moved = ground arith

-- What a timer needs for being set: it is valid, and held by the list of all timers besides its
-- registration and its subscriptions.
pub record Settable (a : Addr) (s : Sys) : Type 0 where
  pub valid : (s.timer a).tm_invalid ≡ false
  pub alive : (s.event a).live ≡ true
  pub held :
      length (s.event a).ev_nodes + (if (s.timer a).tm_registered then 1 else 0)
      < (s.event a).ev_refs
  pub few : (s.event a).ev_refs < dmm_refnum_max

-- The timer is armed for a time, with an interval.
pub record Armed (a : Addr) (x interval : Timespec) (t : Sys) : Type 0 where
  pub inv : TimerInv t
  pub next : (t.timer a).tm_next ≡ x
  pub interval_set : (t.timer a).tm_interval ≡ interval
  pub listed : count a t.timer_trigger_list ≡ 1

abbrev with_interval : Addr → Timespec → Sys → Sys
with_interval a interval = with_timer a (λ tm. record tm { tm_interval = interval })

module _ (a : Addr) (x interval : Timespec) (s t : Sys) (inv : TimerInv s) (can : Settable a s)
    (m : Moved a x s t) (set : timespec_iszero x ≡ false) where
  -- The steps behind the new time: the interval, deregistering, registering.
  deregister_part :
      Returns
        (timer_deregister a (with_interval a interval t))
        (λ _ u. Deregistered a (with_interval a interval t) u)
  deregister_part =
      deregister-Deregistered a (with_interval a interval t)
        (ground (arith, inv.once a, ap (count a) m.list, m.flag))
        (ground (arith, can.alive, ap (λ f. f a) m.events))
        (ground (arith, can.held, ap (λ f. f a) m.events, m.flag))
        (λ reg. ground (arith, can.held, ap (λ f. f a) m.events, m.flag))

  module _ (u : Sys) (d : Deregistered a (with_interval a interval t) u) where
    u-TimerInv : TimerInv u
    u-TimerInv =
        Deregistered-TimerInv a (next_of s) (with_interval a interval t) u (rw m.list inv.sorted)
          (λ b ne. ground (arith, ap (λ tm. tm.tm_next) (m.others b ne))) (λ b. once_at b) d
      where
        once_at :
            (b : Addr)
            → count b (with_interval a interval t).timer_trigger_list
              ≡ (if ((with_interval a interval t).timer b).tm_registered then 1 else 0)
        once_at b = elim (ℕ_discrete b a) [
          | yes p ↦ rw p (ground (arith, ap (count a) m.list, inv.once a, m.flag))
          | no q ↦
              ground
                (arith, ap (count b) m.list, inv.once b, ap (λ tm. tm.tm_registered) (m.others b q))
        ]

    u_next : (u.timer a).tm_next ≡ x
    u_next = ground (arith, d.next, m.next)

    u_valid : (u.timer a).tm_invalid ≡ false
    u_valid = ground (arith, d.valid, m.valid, can.valid)

    u_interval : (u.timer a).tm_interval ≡ interval
    u_interval = ground (arith, d.interval)

    u_few : (u.event a).ev_refs < dmm_refnum_max
    u_few = ground (arith, d.refs, ap (λ f. f a) m.events, can.few)

    register_part : Returns (timer_register a u) (λ _ v. Armed a x interval v)
    register_part =
        Returns.weaken _ (λ _ v. Armed a x interval v) (timer_register a u)
          (register-TimerInv a u u-TimerInv u_valid (rw u_next set) d.flag d.kept u_few)
          (λ _ v (inv', counts, nexts, intervals, _, _). record {
            inv = inv';
            next = nexts a ∙ u_next;
            interval_set = intervals a ∙ u_interval;
            listed = ground (arith, counts a, u-TimerInv.once a, d.flag);
          })

  settle :
      Returns
        ((modify (with_interval a interval)
            >> (timer_deregister a >> (timer_register a >> pure {A = Errno} 0)))
          t)
        (λ err v. (err ≡ 0) × Armed a x interval v)
  settle =
      Returns.bind (λ _ u. Deregistered a (with_interval a interval t) u) _
        (timer_deregister a (with_interval a interval t)) (λ _. timer_register a >> pure 0)
        deregister_part
        (λ _ u d.
          Returns.bind (λ _ v. Armed a x interval v) _ (timer_register a u) (λ _. pure 0)
            (register_part u d) (λ _ v armed. (refl, armed)))

-- With a clock that works, setting a valid timer, which the list of all timers holds, for a time
-- that is not zero succeeds if the trigger list is sorted before: the timer is due at the
-- absolute time that is given, after the time or the interval that is given, or as before, is in the trigger list once, whether it was there before or not, and the list
-- is sorted. Setting neither a time nor an interval gives EINVAL and changes nothing. An absolute
-- time before now is set like any other, where the words above the function promise EINVAL.
pub set-Armed :
    (a : Addr) (next interval : Timespec) (flags : ℕ) (now : Timespec) (s : Sys)
    → s.clock s.readings ≡ time now
    → TimerInv s
    → Settable a s
    → timespec_iszero (due next interval flags now (next_of s a)) ≡ false
    → if timespec_iszero next && timespec_iszero interval
      then (timer_set a next interval flags s ≡ ok einval s)
      else Returns
          (timer_set a next interval flags s)
          (λ err t. (err ≡ 0) × Armed a (due next interval flags now (next_of s a)) interval t)
unfolding timer_set
set-Armed a next interval flags now s clock inv can set =
    elim (Bool-cases (timespec_iszero next && timespec_iszero interval)) [
      | inl h ↦ rw h refl
      | inr h ↦ rw h (
          Returns.bind _ _ (timer_set_next a next interval flags s) _
            (set_next-Moved a next interval flags now s clock)
            (λ err t (e, m).
              rw e
                (settle a (due next interval flags now (next_of s a)) interval s t inv can m set)))
    ]

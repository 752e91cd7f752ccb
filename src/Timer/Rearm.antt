-- ===== src/Timer/Rearm.antt =====
-- Behind the trigger of a timer, the end of the loop in dmm_timers_trigger: one with an interval is
-- registered for its next time.
use dimmon.Prelude.{
  ◌+◌, ◌≤◌, ◌<◌, ◌≡◌, ◌∙◌, ap, refl, true, false, arith, length, count, if◌then◌else◌, Bool-cases,
  inl, inr,
}
use dimmon.Timespec.{Timespec, timespec_iszero, timespec_inc}
use dimmon.State.{Addr, Sys, with_timer, skip, ◌>>◌, modify}
use dimmon.State.Returns
use dimmon.State.Returns.{Returns}
use dimmon.Memman.{dmm_refnum_max}
use dimmon.Timer.{next_of, timer_register, timer_deregister}
use dimmon.Timer.Order.{IsSorted-agree}
use dimmon.Timer.Registration.{
  TimerInv, Deregistered, deregister-Deregistered, Deregistered-TimerInv, register-TimerInv,
}
use dimmon.Timer.Trigger.{timer_rearm, advance}

abbrev advanced : Addr → Sys → Sys
advanced a = with_timer a advance

-- The time of a timer that is not in the list may change.
advanced-TimerInv :
    (a : Addr) (s : Sys) → (s.timer a).tm_registered ≡ false → TimerInv s → TimerInv (advanced a s)
advanced-TimerInv a s off inv = record {
  sorted =
      IsSorted-agree (next_of s) (next_of (advanced a s)) s.timer_trigger_list
        (λ b m. ground (arith, inv.once a, off, m)) inv.sorted;
  once = λ b. ground (arith, inv.once b);
}

inc_nonzero :
    (x y : Timespec) → timespec_iszero y ≡ false → timespec_iszero (timespec_inc x y) ≡ false
unfolding timespec_iszero timespec_inc
inc_nonzero x y h = ground arith

advanced_next :
    (a : Addr) (s : Sys)
    → ((advanced a s).timer a).tm_next ≡ timespec_inc (s.timer a).tm_next (s.timer a).tm_interval
advanced_next a s = ground arith

-- What the end of a round leaves of a timer.
pub record Rearmed (a : Addr) (s t : Sys) : Type 0 where
  pub inv : TimerInv t
  pub listed :
      count a t.timer_trigger_list ≡ (if timespec_iszero (s.timer a).tm_interval then 0 else 1)
  pub next : (t.timer a).tm_next ≡ (
      if timespec_iszero (s.timer a).tm_interval
      then (s.timer a).tm_next
      else timespec_inc (s.timer a).tm_next (s.timer a).tm_interval)
  pub interval : (t.timer a).tm_interval ≡ (s.timer a).tm_interval

module _ (a : Addr) (s u : Sys) (d : Deregistered a s u) (inv : TimerInv u)
    (valid : (s.timer a).tm_invalid ≡ false) (few : (u.event a).ev_refs < dmm_refnum_max) where
  next_time :
      ((advanced a u).timer a).tm_next ≡ timespec_inc (s.timer a).tm_next (s.timer a).tm_interval
  next_time =
      advanced_next a u
      ∙ ap (λ x. timespec_inc x (u.timer a).tm_interval) d.next
      ∙ ap (timespec_inc (s.timer a).tm_next) d.interval

  one_shot : timespec_iszero (s.timer a).tm_interval ≡ true → Rearmed a s u
  one_shot zero_interval = record {
    inv = inv;
    listed = rw zero_interval (ground (arith, inv.once a, d.flag));
    next = rw zero_interval d.next;
    interval = d.interval;
  }

  periodic :
      timespec_iszero (s.timer a).tm_interval ≡ false
      → Returns (timer_register a (advanced a u)) (λ _ t. Rearmed a s t)
  periodic some_interval =
      Returns.weaken _ (λ _ t. Rearmed a s t) (timer_register a (advanced a u))
        (register-TimerInv a (advanced a u) (advanced-TimerInv a u d.flag inv)
          (ground (arith, d.valid, valid))
          (rw next_time (inc_nonzero (s.timer a).tm_next (s.timer a).tm_interval some_interval))
          (ground (arith, d.flag)) (ground (arith, d.kept)) few)
        (λ _ t (inv', counts, nexts, intervals, _, _). record {
          inv = inv';
          listed = rw some_interval (ground (arith, counts a, inv.once a, d.flag));
          next = rw some_interval (nexts a ∙ next_time);
          interval = ground (arith, intervals a, d.interval);
        })

-- If the trigger list is sorted before, and while something besides the registration and the
-- subscriptions holds a valid timer that is registered, the end of its round leaves it once in the
-- trigger list, due its interval later, or out of the list if it has no interval; the list stays
-- sorted, and the interval as it is.
pub timer_rearm-Rearmed :
    (a : Addr) (s : Sys)
    → TimerInv s
    → (s.timer a).tm_invalid ≡ false
    → (s.timer a).tm_registered ≡ true
    → (s.event a).live ≡ true
    → length (s.event a).ev_nodes + 1 < (s.event a).ev_refs
    → (s.event a).ev_refs ≤ dmm_refnum_max
    → Returns (timer_rearm a s) (λ _ t. Rearmed a s t)
unfolding timer_rearm
timer_rearm-Rearmed a s inv valid reg alive held few = rw valid (
    Returns.bind (λ _ u. Deregistered a s u) (λ _ t. Rearmed a s t) (timer_deregister a s) _
      (deregister-Deregistered a s (inv.once a) alive (omega arith) (λ _. omega arith))
      (λ _ u d.
        ending u d (Deregistered-TimerInv a (next_of s) s u inv.sorted (λ b ne. refl) inv.once d)
          (ground (arith, d.refs, reg))))
  where
    ending :
        (u : Sys)
        → Deregistered a s u
        → TimerInv u
        → (u.event a).ev_refs < dmm_refnum_max
        → Returns
            ((if timespec_iszero (s.timer a).tm_interval
                then skip
                else (modify (with_timer a advance) >> timer_register a))
              u)
            (λ _ t. Rearmed a s t)
    ending u d inv' few' = elim (Bool-cases (timespec_iszero (s.timer a).tm_interval)) [
      | inl h ↦ rw h (one_shot a s u d inv' valid few' h)
      | inr h ↦ rw h (periodic a s u d inv' valid few' h)
    ]

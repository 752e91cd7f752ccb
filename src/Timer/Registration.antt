-- ===== src/Timer/Registration.antt =====
-- Registering and deregistering, dmm_timer_register and dmm_timer_deregister: the trigger list
-- stays sorted and holds each registered timer once.
use native.Mathlib.Decide.{ℕ_discrete}
use dimmon.Prelude.{
  sym, unlink_absent, absent_of_count, has-count_pos, ◌+◌, ◌<◌, ◌≡◌, ◌≢◌, ◌∙◌, ap, refl, true,
  false, arith, length, count, unlink, ◌==◌, if◌then◌else◌, count_pos-has, count-unlink_self,
  count-unlink_ne, Bool-cases, inl, inr,
}
use dimmon.Timespec.{Timespec, timespec_iszero}
use dimmon.State.{Addr, Sys, ok, with_timer, with_event}
use dimmon.State.Returns
use dimmon.State.Returns.{Returns}
use dimmon.Memman.{dmm_refnum_max}
use dimmon.Event.{set_event_refs, event_unref}
use dimmon.Event.Refs.{Released, event_unref-Released}
use dimmon.Timer.{next_of, trigger_insert, timer_register, timer_deregister}
use dimmon.Timer.Order.{
  IsSorted, IsSorted-agree, unlink-IsSorted, insert_sorted, insert_sorted-IsSorted,
  count-insert_sorted, trigger_insert-insert_sorted,
}

pub record TimerInv (s : Sys) : Type 0 where
  pub sorted : IsSorted (next_of s) s.timer_trigger_list
  pub once :
      (a : Addr) → count a s.timer_trigger_list ≡ (if (s.timer a).tm_registered then 1 else 0)

-- The state behind a registration.
abbrev registered : Addr → Sys → Sys
registered a s =
    let s1 : Sys = record s {
      timer_trigger_list = trigger_insert (next_of s) a s.timer_trigger_list;
    } in
    let s2 : Sys = with_timer a (λ t. record t { tm_registered = true }) s1 in
    with_event a (set_event_refs ((s.event a).ev_refs + 1)) s2

module _ (a : Addr) (s : Sys) where
  register-ok :
      (s.timer a).tm_invalid ≡ false
      → timespec_iszero (s.timer a).tm_next ≡ false
      → (s.timer a).tm_registered ≡ false
      → (s.event a).live ≡ true
      → (s.event a).ev_refs < dmm_refnum_max
      → timer_register a s ≡ ok tt (registered a s)
  unfolding timer_register
  register-ok valid set new alive few = ground arith

  insert_as_sorted :
      (registered a s).timer_trigger_list ≡ insert_sorted (next_of s) a s.timer_trigger_list
  insert_as_sorted = trigger_insert-insert_sorted (next_of s) a s.timer_trigger_list

  next_registered : (b : Addr) → next_of (registered a s) b ≡ next_of s b
  next_registered b = ground arith

  count-registered :
      (b : Addr)
      → count b (registered a s).timer_trigger_list
        ≡ (if a == b then 1 else 0) + count b s.timer_trigger_list
  unfolding count
  count-registered b =
      ap (count b) insert_as_sorted ∙ count-insert_sorted (next_of s) a b s.timer_trigger_list

  registered-TimerInv : (s.timer a).tm_registered ≡ false → TimerInv s → TimerInv (registered a s)
  registered-TimerInv new inv = record {
    sorted =
        IsSorted-agree (next_of s) (next_of (registered a s)) (registered a s).timer_trigger_list
          (λ b _. next_registered b)
          (rw insert_as_sorted
            (insert_sorted-IsSorted (next_of s) a s.timer_trigger_list inv.sorted));
    once = λ b. ground (arith, count-registered b, inv.once b);
  }

-- What the end of a registration leaves.
pub record Deregistered (a : Addr) (s t : Sys) : Type 0 where
  pub list : t.timer_trigger_list ≡ unlink a s.timer_trigger_list
  pub flag : (t.timer a).tm_registered ≡ false
  pub valid : (t.timer a).tm_invalid ≡ (s.timer a).tm_invalid
  pub next : (t.timer a).tm_next ≡ (s.timer a).tm_next
  pub interval : (t.timer a).tm_interval ≡ (s.timer a).tm_interval
  pub others : (b : Addr) → b ≢ a → t.timer b ≡ s.timer b
  pub cells : (t.event a).ev_nodes ≡ (s.event a).ev_nodes
  pub kept : (t.event a).live ≡ true
  pub refs :
      (t.event a).ev_refs + (if (s.timer a).tm_registered then 1 else 0) ≡ (s.event a).ev_refs
  pub timerlist : t.timerlist ≡ s.timerlist
  pub nodes : t.node ≡ s.node

abbrev struck : Addr → Sys → Sys
struck a s =
    with_timer a (λ t. record t { tm_registered = false })
      (record s { timer_trigger_list = unlink a s.timer_trigger_list })

Deregistered-of :
    (a : Addr) (s t : Sys)
    → (s.timer a).tm_registered ≡ true
    → 1 < (s.event a).ev_refs
    → Released a (struck a s) t
    → Deregistered a s t
Deregistered-of a s t reg more r = record {
  list = r.trigger_list;
  flag = ground (arith, ap (λ f. f a) r.timers);
  valid = ground (arith, ap (λ f. f a) r.timers);
  next = ground (arith, ap (λ f. f a) r.timers);
  interval = ground (arith, ap (λ f. f a) r.timers);
  others = λ b ne. ground (arith, ap (λ f. f b) r.timers);
  cells = r.cells;
  kept = r.kept more;
  refs = ground (arith, r.refs);
  timerlist = r.timerlist;
  nodes = r.nodes;
}

-- While something besides the registration and the subscriptions holds the timer, it leaves the
-- trigger list and gives back the reference of its registration, if it had one.
pub deregister-Deregistered :
    (a : Addr) (s : Sys)
    → count a s.timer_trigger_list ≡ (if (s.timer a).tm_registered then 1 else 0)
    → (s.event a).live ≡ true
    → length (s.event a).ev_nodes < (s.event a).ev_refs
    → ((s.timer a).tm_registered ≡ true → 1 < (s.event a).ev_refs)
    → Returns (timer_deregister a s) (λ _ t. Deregistered a s t)
unfolding timer_deregister
deregister-Deregistered a s once alive held more = elim (Bool-cases (s.timer a).tm_registered) [
  | inr off ↦ rw off (record {
    list = sym (
        unlink_absent a s.timer_trigger_list
          (absent_of_count a s.timer_trigger_list (ground arith)));
    flag = off;
    valid = refl;
    next = refl;
    interval = refl;
    others = λ b ne. refl;
    cells = refl;
    kept = alive;
    refs = rw off (omega arith);
    timerlist = refl;
    nodes = refl;
  })
  | inl reg ↦ rw reg (
      Returns.weaken (λ _ t. Released a (struck a s) t) (λ _ t. Deregistered a s t)
        (event_unref a (struck a s))
        (event_unref-Released a (struck a s) alive held (record {
          has_destructor = λ r. absurd (omega (arith, more reg));
          epoll_answer = λ r. absurd (omega (arith, more reg));
        }))
        (λ _ t. Deregistered-of a s t reg (more reg)))
]

-- The invariant without the order of one timer, which is not registered: what holds when its time
-- has just been changed.
pub Deregistered-TimerInv :
    (a : Addr) (f : Addr → Timespec) (s t : Sys)
    → IsSorted f s.timer_trigger_list
    → ((b : Addr) → b ≢ a → f b ≡ next_of s b)
    → ((b : Addr) → count b s.timer_trigger_list ≡ (if (s.timer b).tm_registered then 1 else 0))
    → Deregistered a s t
    → TimerInv t
Deregistered-TimerInv a f s t sorted agree once d = record {
  sorted =
      IsSorted-agree f (next_of t) t.timer_trigger_list
        (λ b m. elim (ℕ_discrete b a) [
          | yes p ↦ absurd (omega (arith, gone b p, m))
          | no q ↦ ap (λ tm. tm.tm_next) (d.others b q) ∙ sym (agree b q)
        ])
        (rw d.list (unlink-IsSorted f a s.timer_trigger_list sorted));
  once = counted;
}
  where
    counted :
        (b : Addr) → count b t.timer_trigger_list ≡ (if (t.timer b).tm_registered then 1 else 0)
    counted b = elim (ℕ_discrete b a) [
      | yes p ↦ rw p (
          ground (
            arith,
            d.flag,
            ap (count a) d.list,
            once a,
            count-unlink_self a s.timer_trigger_list,
            count_pos-has a s.timer_trigger_list,
            unlink_absent a s.timer_trigger_list,
            has-count_pos a s.timer_trigger_list,
          ))
      | no q ↦ ground (
        arith,
        ap (count b) d.list,
        count-unlink_ne a b s.timer_trigger_list q,
        once b,
        ap (λ tm. tm.tm_registered) (d.others b q),
      )
    ]

    gone : (b : Addr) → b ≡ a → count b t.timer_trigger_list ≡ 0
    gone b p = ground (arith, counted b, d.flag)

-- Registering a valid timer whose time is set, which is not in the list, and which has fewer
-- references than the greatest number, keeps the list sorted, adds the timer once and no other,
-- changes no time and no interval, marks the timer, and takes a reference to it.
pub register-TimerInv :
    (a : Addr) (s : Sys)
    → TimerInv s
    → (s.timer a).tm_invalid ≡ false
    → timespec_iszero (s.timer a).tm_next ≡ false
    → (s.timer a).tm_registered ≡ false
    → (s.event a).live ≡ true
    → (s.event a).ev_refs < dmm_refnum_max
    → Returns (timer_register a s) (λ _ t.
      TimerInv t
      × ((b : Addr)
          → count b t.timer_trigger_list ≡ (if a == b then 1 else 0) + count b s.timer_trigger_list)
      × ((b : Addr) → (t.timer b).tm_next ≡ (s.timer b).tm_next)
      × ((b : Addr) → (t.timer b).tm_interval ≡ (s.timer b).tm_interval)
      × ((t.timer a).tm_registered ≡ true)
      × ((t.event a).ev_refs ≡ (s.event a).ev_refs + 1))
register-TimerInv a s inv valid set new alive few = rw (register-ok a s valid set new alive few) (
  registered-TimerInv a s new inv,
  count-registered a s,
  next_registered a s,
  λ b. ground arith,
  ground arith,
  ground arith,
)

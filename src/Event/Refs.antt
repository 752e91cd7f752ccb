-- ===== src/Event/Refs.antt =====
-- The runs of the reference operations of events.
use dimmon.Prelude.{◌+◌, ◌-◌, ◌<◌, ◌≡◌, ◌≢◌, ◌||◌, true, false, some, none, length, arith, ◌==◌}
use dimmon.State.{Addr, enoent, sockevent_destructor, Sys, ok, with_event}
use dimmon.State.Returns.{Returns}
use dimmon.Memman.{dmm_refnum_max}
use dimmon.Event.{event_ref, event_unref, set_event_refs}

module _ (a : Addr) (s : Sys) (alive : (s.event a).live ≡ true) where
  pub event_ref-ok :
      (s.event a).ev_refs < dmm_refnum_max
      → event_ref a s ≡ ok tt (with_event a (set_event_refs ((s.event a).ev_refs + 1)) s)
  unfolding event_ref
  event_ref-ok h = ground arith

  pub event_unref-keep :
      1 < (s.event a).ev_refs
      → event_unref a s ≡ ok tt (with_event a (set_event_refs ((s.event a).ev_refs - 1)) s)
  unfolding event_unref
  event_unref-keep h = ground arith

-- What the release of one reference to an event leaves.
pub record Released (a : Addr) (s t : Sys) : Type 0 where
  pub nodes : t.node ≡ s.node
  pub epoll : t.epoll ≡ s.epoll
  pub timers : t.timer ≡ s.timer
  pub trigger_list : t.timer_trigger_list ≡ s.timer_trigger_list
  pub timerlist : t.timerlist ≡ s.timerlist
  pub destructor : (t.event a).ev_destructor ≡ (s.event a).ev_destructor
  pub others : (b : Addr) → b ≢ a → t.event b ≡ s.event b
  pub cells : (t.event a).ev_nodes ≡ (s.event a).ev_nodes
  pub refs : (t.event a).ev_refs + 1 ≡ (s.event a).ev_refs
  pub kept : 1 < (s.event a).ev_refs → (t.event a).live ≡ true
  pub dropped : (s.event a).ev_refs ≡ 1 → (t.event a).live ≡ false

-- If the reference is the last there is a destructor, and if it is that of a sockevent then the
-- kernel's answer is one that it takes.
pub record MayRelease (a : Addr) (s : Sys) : Type 0 where
  pub has_destructor : (s.event a).ev_refs ≡ 1 → (s.event a).ev_destructor ≢ none
  pub epoll_answer :
      (s.event a).ev_refs ≡ 1
      → (s.event a).ev_destructor ≡ some sockevent_destructor
      → (s.epoll s.epolls == 0 || s.epoll s.epolls == enoent) ≡ true

pub event_unref-Released :
    (a : Addr) (s : Sys)
    → (s.event a).live ≡ true
    → length (s.event a).ev_nodes < (s.event a).ev_refs
    → MayRelease a s
    → Returns (event_unref a s) (λ _ t. Released a s t)
unfolding event_unref
event_unref-Released a s alive held may = ground arith

-- ===== src/Event.antt =====
-- dmm_event.c and dmm_event.h: events, their references, and subscriptions, each recorded twice, in
-- the event's queue of nodes and in the node's list of events. The destructors that the last
-- release calls are those of dmm_timer.c, dmm_wave.c and dmm_sockevent.c.
pub mod Refs
pub mod Subscriptions
pub mod Unsubscribe
pub mod Subscribe
pub mod All
use dimmon.Prelude.{
  ℕ, zero, suc, ◌+◌, ◌%◌, Bool, true, false, ◌||◌, Option, none, some, List, [], ◌∷◌, ◌++◌, ◌==◌,
  if◌then◌else◌, has, unlink,
}
use dimmon.State.{
  Addr, Errno, enoent, enomem, u32_mod, Eventnode, Destructor, timer_destructor,
  wavefinish_destructor, sockevent_destructor, Event, Sys, Cmd, fault, ◌>>=◌, ◌>>◌, pure, skip, get,
  assert, modify, with_node, with_event, malloc, epoll_ctl, epoll_del,
}
use dimmon.State.Cells.{nodes_of, unlink_node}
use dimmon.Memman.{refacquire, refrelease}
use dimmon.Node.{is_empty, node_ref, node_unref}

abbrev pub set_event_refs : ℕ → Event → Event
set_event_refs r e = record e { ev_refs = r }

unfoldable pub event_ref : Addr → Cmd (Unit {0})
unfolding refacquire
event_ref a = do
  s ← get
  assert (s.event a).live
  elim (refacquire (s.event a).ev_refs) [
    | none ↦ λ _. fault
    | some r ↦ modify (with_event a (set_event_refs r))
  ]

unfoldable pub event_free : Addr → Cmd (Unit {0})
event_free a = do
  s ← get
  assert (s.event a).live
  modify (with_event a (λ e. record e { live = false }))

unfoldable pub destruct_timer : Addr → Cmd (Unit {0})
unfolding event_free
destruct_timer = event_free

unfoldable pub destruct_wavefinish : Addr → Cmd (Unit {0})
unfolding event_free unlink
destruct_wavefinish a = do
  modify (λ s. record s { wavefinishlist = unlink a s.wavefinishlist })
  event_free a

unfoldable pub destruct_sockevent : Addr → Cmd (Unit {0})
unfolding event_free unlink epoll_ctl
destruct_sockevent a = do
  modify (λ s. record s { sockeventlist = unlink a s.sockeventlist })
  s ← get
  err ← epoll_ctl (epoll_del (s.sockevent a).se_fd)
  assert (err == 0 || err == enoent)
  event_free a

abbrev destructor : Destructor → Addr → Cmd (Unit {0})
destructor timer_destructor = destruct_timer
destructor wavefinish_destructor = destruct_wavefinish
destructor sockevent_destructor = destruct_sockevent

unfoldable pub event_destroy : Addr → Cmd (Unit {0})
unfolding destruct_timer destruct_wavefinish destruct_sockevent
event_destroy a = do
  s ← get
  assert (is_empty (s.event a).ev_nodes)
  elim (s.event a).ev_destructor [ none ↦ λ _. fault | some d ↦ destructor d a ]

unfoldable pub event_unref : Addr → Cmd (Unit {0})
unfolding refrelease event_destroy
event_unref a = do
  s ← get
  assert (s.event a).live
  elim (refrelease (s.event a).ev_refs) [
    | none ↦ λ _. fault
    | some (r, last) ↦ do
      modify (with_event a (set_event_refs r))
      (if last then event_destroy a else skip)
  ]

abbrev new_event : ℕ → Event
new_event id = record { live = true; ev_id = id; ev_nodes = []; ev_refs = 1; ev_destructor = none }

-- `++lasteventid` on 32 bits. The counter is set to 0 and acquired at once, hence `ev_refs = 1`.
unfoldable pub event_init : Addr → Cmd (Unit {0})
event_init a = modify λ s.
    let id : ℕ = (s.lasteventid + 1) % u32_mod in
    with_event a (λ _. new_event id) (record s { lasteventid = id })

unfoldable pub event_issubscribed : Addr → Addr → Sys → Bool
unfolding has
event_issubscribed a n s = has a (s.node n).nd_events

abbrev add_cell : Addr → Addr → Event → Event
add_cell cell n e = record e { ev_nodes = e.ev_nodes ++ record { cell = cell; en_node = n } ∷ [] }

unfoldable pub event_subscribe : Addr → Addr → Cmd Errno
unfolding malloc node_ref event_ref
event_subscribe a n = do
  en ← malloc
  if en == 0 then pure enomem else do
    ne ← malloc
    if ne == 0 then pure enomem else do
      modify (with_event a (add_cell en n))
      node_ref n
      modify (with_node n (λ nd. record nd { nd_events = a ∷ nd.nd_events }))
      event_ref a
      pure 0

unfoldable pub event_checkedsubscribe : Addr → Addr → Cmd Errno
unfolding event_issubscribed event_subscribe
event_checkedsubscribe a n = do
  s ← get
  if event_issubscribed a n s then pure 0 else event_subscribe a n

unfoldable pub event_unsubscribe : Addr → Addr → Cmd Errno
unfolding has unlink unlink_node event_unref node_unref
event_unsubscribe a n = do
  s ← get
  if has n (nodes_of (s.event a).ev_nodes)
      then (do
        assert (has a (s.node n).nd_events)
        modify (with_event a (λ e. record e { ev_nodes = unlink_node n e.ev_nodes }))
        modify (with_node n (λ nd. record nd { nd_events = unlink a nd.nd_events }))
        event_unref a
        node_unref n
        pure 0)
      else pure enoent

-- The loop over an event's cells: each round unlinks the current cell and no other of the queue.
unfoldable pub unsubscribe_nodes : Addr → List Eventnode → Cmd (Unit {0})
unfolding event_unsubscribe
unsubscribe_nodes a [] = skip
unsubscribe_nodes a (c ∷ cs) = event_unsubscribe a c.en_node >>= λ _. unsubscribe_nodes a cs

unfoldable pub event_unsubscribeall : Addr → Cmd (Unit {0})
unfolding unsubscribe_nodes
event_unsubscribeall a = do s ← get; unsubscribe_nodes a (s.event a).ev_nodes

-- The loop over a node's events, likewise.
unfoldable pub unsubscribe_events : Addr → List Addr → Cmd (Unit {0})
unfolding event_unsubscribe
unsubscribe_events n [] = skip
unsubscribe_events n (a ∷ as') = event_unsubscribe a n >>= λ _. unsubscribe_events n as'

unfoldable pub node_unsubscribeallevents : Addr → Cmd (Unit {0})
unfolding unsubscribe_events
node_unsubscribeallevents n = do s ← get; unsubscribe_events n (s.node n).nd_events

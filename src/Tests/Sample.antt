-- ===== src/Tests/Sample.antt =====
-- A running system with three nodes, two hooks, two timers and the end of a wave. The first timer,
-- at 4, is registered and has a subscriber, the node at 2; the node at 3 waits for the end of the
-- wave, at 7; the node at 9 has one reference left.
use dimmon.Prelude.{true, false, none, some, [], ◌∷◌, arith, count}
use dimmon.Timespec.{timespec}
use dimmon.State.{
  NodeType, Node, Hook, hook_in, hook_out, Event, Timer, Sys, timer_destructor,
  wavefinish_destructor, time, put,
}
use dimmon.Event.Subscriptions.{Inv}
use dimmon.Event.All.Quiet.{CanDestroy}
use dimmon.Timer.Registration.{TimerInv}
use dimmon.Hook.Peers.{PeerInv, Ends}
use dimmon.Module.Registry.{RegistryInv}
use dimmon.Graph.{first_id}
use dimmon.Module.{first_type}
use dimmon.Graph.Ids.{NodesInv}

abbrev no_node : Node
no_node = record {
  live = false;
  nd_id = 0;
  nd_name = [];
  nd_invalid = true;
  nd_type = 0;
  nd_inhooks = [];
  nd_outhooks = [];
  nd_events = [];
  nd_refs = 0;
}

abbrev source : Node
source = record {
  live = true;
  nd_id = 1;
  nd_name = b'c' ∷ b'p' ∷ b'u' ∷ [];
  nd_invalid = false;
  nd_type = 1;
  nd_inhooks = [];
  nd_outhooks = 5 ∷ [];
  nd_events = 4 ∷ [];
  nd_refs = 3;
}

abbrev sink : Node
sink = record {
  live = true;
  nd_id = 2;
  nd_name = [];
  nd_invalid = false;
  nd_type = 1;
  nd_inhooks = 6 ∷ [];
  nd_outhooks = [];
  nd_events = 7 ∷ [];
  nd_refs = 3;
}

abbrev lone : Node
lone = record no_node { live = true; nd_id = 3; nd_invalid = false; nd_type = 1; nd_refs = 1 }

abbrev no_hook : Hook
no_hook = record {
  live = false;
  hk_name = [];
  hk_invalid = true;
  hk_dir = hook_in;
  hk_node = 0;
  hk_rcvdata = none;
  hk_peers = [];
  hk_refs = 0;
}

abbrev out : Hook
out = record no_hook {
  live = true;
  hk_name = b'o' ∷ b'u' ∷ b't' ∷ [];
  hk_invalid = false;
  hk_dir = hook_out;
  hk_node = 2;
  hk_refs = 2;
}

abbrev in_ : Hook
in_ = record out { hk_name = b'i' ∷ b'n' ∷ []; hk_dir = hook_in; hk_node = 3 }

abbrev no_event : Event
no_event = record { live = false; ev_id = 0; ev_nodes = []; ev_refs = 0; ev_destructor = none }

abbrev tick : Event
tick = record {
  live = true;
  ev_id = 1;
  ev_nodes = record { cell = 10; en_node = 2 } ∷ [];
  ev_refs = 3;
  ev_destructor = some timer_destructor;
}

abbrev spare : Event
spare = record no_event {
  live = true;
  ev_id = 2;
  ev_refs = 1;
  ev_destructor = some timer_destructor;
}

abbrev wave_end : Event
wave_end = record {
  live = true;
  ev_id = 3;
  ev_nodes = record { cell = 12; en_node = 3 } ∷ [];
  ev_refs = 1;
  ev_destructor = some wavefinish_destructor;
}

abbrev no_timer : Timer
no_timer = record {
  tm_invalid = false;
  tm_registered = false;
  tm_next = timespec 50 0;
  tm_interval = timespec 0 0;
}

abbrev ticking : Timer
ticking = record {
  tm_invalid = false;
  tm_registered = true;
  tm_next = timespec 100 0;
  tm_interval = timespec 10 0;
}

abbrev cpu_type : NodeType
cpu_type = record {
  tp_name = b'c' ∷ b'p' ∷ b'u' ∷ [];
  ctor = none;
  dtor = true;
  newhook = none;
  rmhook = false;
}

abbrev pub sample : Sys
sample = record {
  node = put (put (put (λ _. no_node) 2 source) 3 sink) 9 lone;
  hook = put (put (λ _. no_hook) 5 out) 6 in_;
  event = put (put (put (λ _. no_event) 4 tick) 7 wave_end) 8 spare;
  timer = put (λ _. no_timer) 4 ticking;
  wf_waveid = put (λ _. 0) 7 5;
  sockevent = λ _. record { se_fd = 0; se_sockevents = 0 };
  data_at = λ _. record { live = false; da_nodes = 0; da_len = 0; da_refs = 0 };
  type_at = λ _. cpu_type;
  typelist = 1 ∷ [];
  nodelist = 9 ∷ 3 ∷ 2 ∷ [];
  timerlist = 8 ∷ 4 ∷ [];
  timer_trigger_list = 4 ∷ [];
  wavefinishlist = 7 ∷ [];
  sockeventlist = [];
  lastnodeid = 3;
  lasteventid = 3;
  dmm_wave_id = 5;
  mem = λ _. true;
  mallocs = 20;
  clock = λ _. time (timespec 90 0);
  readings = 0;
  epoll = λ _. 0;
  epolls = 0;
  msgs = 0;
  calls = [];
}

pub sample-Inv : Inv sample
unfolding count
sample-Inv = record {
  linked = λ e n. ground arith;
  event_live = λ e n h. ground arith;
  node_live = λ e n h. ground arith;
  event_held = λ e. ground arith;
  node_held = λ n. ground arith;
}

pub sample-CanDestroy : CanDestroy sample
unfolding count
sample-CanDestroy = record {
  has_destructor = λ e n h. ground arith;
  epoll_answer = λ k. ground arith;
}

pub sample-TimerInv : TimerInv sample
unfolding count
sample-TimerInv = record { sorted = ground arith; once = λ a. ground arith }

pub sample-PeerInv : PeerInv sample
unfolding count
sample-PeerInv = record {
  symmetric = λ a b. ground arith;
  once = λ a b. ground arith;
  peer_live = λ a b h. ground arith;
  hook_held = λ a. ground arith;
}

pub sample-Ends : Ends 5 6 sample
sample-Ends = record {
  apart = ground arith;
  src_live = ground arith;
  dst_live = ground arith;
  src_held = ground arith;
  dst_held = ground arith;
  src_few = ground arith;
  dst_few = ground arith;
}

pub sample-NodesInv : NodesInv sample
unfolding first_id
sample-NodesInv = ground arith

pub sample-RegistryInv : RegistryInv sample
unfolding first_type
sample-RegistryInv = ground arith

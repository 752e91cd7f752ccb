-- ===== src/Message/Delivery.antt =====
-- dmm_event_sendsubscribed in dmm_event.c: what it asks of receivers and subscribers, and what it leaves.
pub mod Rounds
pub mod Subscribers
use dimmon.Prelude.{
  push_all, ℕ, zero, suc, ◌+◌, ◌-◌, ◌≤◌, ◌<◌, ◌≡◌, ◌≢◌, ◌∙◌, refl, ap, sym, fun_ext, Bool, true,
  false, ◌&&◌, not, Option, none, some, List, [], ◌∷◌, ◌==◌, if◌then◌else◌, arith, length, count,
  Option-cases, Bool-cases, inl, inr, map,
}
use native.Mathlib.Decide.{ℕ_discrete}
use dimmon.State.{
  Addr, Errno, Call, Node, Event, Eventnode, Sys, Cmd, ok, with_node, put, ◌>>=◌, ◌>>◌, pure,
  and_then,
}
use dimmon.State.Cells.{nodes_of}
use dimmon.State.Returns
use dimmon.State.Returns.{Returns}
use dimmon.Memman.{dmm_refnum_max}
use dimmon.Node.{node_ref, node_unref, set_refs}
use dimmon.Node.Refs.{node_ref-ok, node_unref-keep}
use dimmon.Message.{Msg, msgtype_generic, generic_cmd, msg_copy, msg_free}
use dimmon.Message.Generic.{Receiver, Outcome, process_cmd, pass}
use dimmon.Message.Send.{
  receiver_of, finish, msg_process_generic, msg_apply_with, msg_apply, msg_send_ref, send_copy,
  send_from, behind, event_sendsubscribed,
}

-- A command that the runtime passes on to the receiver of the node.
abbrev pub IsPassedOn : Msg → Type 0
IsPassedOn m =
    (m.cm_type ≡ msgtype_generic)
    × (m.cm_resp ≡ false)
    × ((rcvmsg : Option Receiver) (n : Addr) (s : Sys)
        → process_cmd rcvmsg (generic_cmd m.cm_cmd) n m s ≡ pass rcvmsg n m s)

-- What the messages have done to the runtime: the nodes `ns` have heard, in this order, and no copy is
-- left. `observed` reads from the calls which nodes have heard.
pub record Passed (observed : List Call → List Addr) (ns : List Addr) (s t : Sys) : Type 0 where
  pub nodes : t.node ≡ s.node
  pub events : t.event ≡ s.event
  pub mem : t.mem ≡ s.mem
  pub msgs : t.msgs ≡ s.msgs
  pub seen : observed t.calls ≡ push_all ns (observed s.calls)

-- What a receiver does: it is heard, and frees the message.
pub record Heard (observed : List Call → List Addr) (n : Addr) (s t : Sys) : Type 0 where
  pub nodes : t.node ≡ s.node
  pub events : t.event ≡ s.event
  pub mem : t.mem ≡ s.mem
  pub msgs : t.msgs + 1 ≡ s.msgs
  pub seen : observed t.calls ≡ n ∷ observed s.calls

abbrev pub Listens : (Addr → Option Receiver) → (List Call → List Addr) → Type 0
Listens receiver observed =
    (type : Addr) (f : Receiver)
    → receiver type ≡ some f
    → (n : Addr) (m : Msg) (s : Sys) → 1 ≤ s.msgs
    → Returns (f n m s) (λ _ t. Heard observed n s t)

-- A node that is held, and has a receiver.
pub record CanHear (receiver : Addr → Option Receiver) (n : Addr) (s : Sys) : Type 0 where
  pub real : n ≢ 0
  pub alive : (s.node n).live ≡ true
  pub held : 1 ≤ (s.node n).nd_refs
  pub few : (s.node n).nd_refs < dmm_refnum_max
  pub hears : receiver (s.node n).nd_type ≢ none

pub CanHear-agree :
    (receiver : Addr → Option Receiver) (n : Addr) (s t : Sys)
    → t.node ≡ s.node
    → CanHear receiver n s
    → CanHear receiver n t
CanHear-agree receiver n s t nodes can = record {
  real = can.real;
  alive = rw nodes can.alive;
  held = rw nodes can.held;
  few = rw nodes can.few;
  hears = rw nodes can.hears;
}

-- The valid nodes of the cells, in order.
abbrev pub valid_nodes : (Addr → Node) → List Eventnode → List Addr
valid_nodes node [] = []
valid_nodes node (c ∷ cs) =
    let rest : List Addr = valid_nodes node cs in
    if (node c.en_node).nd_invalid then rest else c.en_node ∷ rest

-- The queue from each of its cells.
abbrev pub IsLinked : List Eventnode → List Eventnode → Type 0
IsLinked queue [] = Unit {0}
IsLinked queue (c ∷ cs) = (behind c.cell queue ≡ some cs) × IsLinked queue cs

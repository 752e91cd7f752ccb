-- ===== src/Event/Subscriptions.antt =====
-- The invariant of subscriptions: each is recorded as often in the queue of the event as in the
-- list of the node, both are allocated while it lasts, and each record holds a reference.
use dimmon.Prelude.{◌&&◌, ℕ, ◌≤◌, ◌≡◌, true, length, count, ◌==◌, if◌then◌else◌}
use dimmon.State.{Addr, Sys}
use dimmon.State.Cells.{nodes_of}
use dimmon.Node.Refs.{held}

-- How often a node is in the queue of an event, and the event in the list of the node.
abbrev pub queued : Sys → Addr → Addr → ℕ
queued s e n = count n (nodes_of (s.event e).ev_nodes)

abbrev pub listed : Sys → Addr → Addr → ℕ
listed s e n = count e (s.node n).nd_events

pub record Inv (s : Sys) : Type 0 where
  pub linked : (e n : Addr) → queued s e n ≡ listed s e n
  pub event_live : (e n : Addr) → 1 ≤ queued s e n → (s.event e).live ≡ true
  pub node_live : (e n : Addr) → 1 ≤ queued s e n → (s.node n).live ≡ true
  pub event_held : (e : Addr) → length (s.event e).ev_nodes ≤ (s.event e).ev_refs
  pub node_held : (n : Addr) → held (s.node n) ≤ (s.node n).nd_refs

abbrev pub is_pair : Addr → Addr → Addr → Addr → ℕ
is_pair e n a b = if a == e && b == n then 1 else 0

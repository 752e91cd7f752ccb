-- ===== src/Message/Delivery/Subscribers.antt =====
-- dmm_event_sendsubscribed in dmm_event.c: the message of an event reaches every valid subscriber.
use dimmon.Prelude.{
  push_all, ℕ, ◌+◌, ◌-◌, ◌≤◌, ◌<◌, ◌≡◌, refl, true, false, Option, List, [], ◌∷◌, arith, length,
  count, map,
}
use dimmon.State.{Addr, Call, Eventnode, Sys, ok}
use dimmon.State.Cells.{nodes_of}
use dimmon.State.Returns
use dimmon.State.Returns.{Returns}
use dimmon.Message.{Msg, msg_free}
use dimmon.Message.Generic.{Receiver}
use dimmon.Message.Send.{send_from, event_sendsubscribed}
use dimmon.Message.Delivery.{IsPassedOn, Passed, Listens, CanHear, valid_nodes, IsLinked}
use dimmon.Message.Delivery.Rounds.{loop}

IsLinked-cons :
    (d : Eventnode) (queue cs : List Eventnode)
    → count d.cell (map (λ c. c.cell) cs) ≡ 0
    → IsLinked queue cs
    → IsLinked (d ∷ queue) cs
unfolding count
IsLinked-cons d queue [] absent linked = tt
IsLinked-cons d queue (c ∷ cs) absent linked =
    (ground (arith, linked.0), IsLinked-cons d queue cs (ground arith) linked.1)

IsLinked-self :
    (queue : List Eventnode)
    → ((x : Addr) → count x (map (λ c. c.cell) queue) ≤ 1)
    → IsLinked queue queue
unfolding count
IsLinked-self [] once = tt
IsLinked-self (c ∷ cs) once = (
  ground arith,
  IsLinked-cons c cs cs (ground (arith, once c.cell))
      (IsLinked-self cs (λ x. ground (arith, once x))),
)

free-ok : (s : Sys) → 1 ≤ s.msgs → msg_free s ≡ ok tt (record s { msgs = s.msgs - 1 })
unfolding msg_free
free-ok s some_msgs = ground arith

-- What the sending of an event's message leaves.
pub record Sent (observed : List Call → List Addr) (ns : List Addr) (s t : Sys) : Type 0 where
  pub nodes : t.node ≡ s.node
  pub events : t.event ≡ s.event
  pub msgs : t.msgs + 1 ≡ s.msgs
  pub seen : observed t.calls ≡ push_all ns (observed s.calls)

-- A message that the runtime passes on, sent to the subscribers of an event, is heard once for each
-- subscription by every valid node, in the order of the queue, and by no other node. This is so while
-- there is memory, the cells of the queue are distinct, the valid subscribers are held and have
-- receivers, and receivers do nothing but free their copy. Neither the nodes nor the events have
-- changed in the end, the message and all its copies are freed, and more rounds than cells are enough.
pub event_sendsubscribed-Sent :
    (receiver : Addr → Option Receiver) (observed : List Call → List Addr) (fuel : ℕ) (event : Addr)
    (m : Msg) (s : Sys)
    → Listens receiver observed
    → IsPassedOn m
    → ((k : ℕ) → s.mem k ≡ true)
    → 1 ≤ s.msgs
    → ((x : Addr) → count x (map (λ c. c.cell) (s.event event).ev_nodes) ≤ 1)
    → ((n : Addr)
        → 1 ≤ count n (nodes_of (s.event event).ev_nodes)
        → (s.node n).nd_invalid ≡ false
        → CanHear receiver n s)
    → length (s.event event).ev_nodes < fuel
    → Returns
        (event_sendsubscribed receiver fuel event m s)
        (λ _ t. Sent observed (valid_nodes s.node (s.event event).ev_nodes) s t)
unfolding event_sendsubscribed
event_sendsubscribed-Sent receiver observed fuel event m s listens passed_on room some_msgs once can
      enough =
    Returns.bind (λ _ t. Passed observed (valid_nodes s.node (s.event event).ev_nodes) s t) _
      (send_from receiver fuel event (s.event event).ev_nodes m s) (λ _. msg_free)
      (loop receiver observed listens m passed_on fuel event (s.event event).ev_nodes
        (s.event event).ev_nodes s refl (IsLinked-self (s.event event).ev_nodes once) can room
        enough)
      (λ _ t p. rw (free-ok t (rw p.msgs some_msgs)) (record {
        nodes = p.nodes;
        events = p.events;
        msgs = omega (arith, p.msgs, some_msgs);
        seen = p.seen;
      }))

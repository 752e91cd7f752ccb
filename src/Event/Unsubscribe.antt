-- ===== src/Event/Unsubscribe.antt =====
-- The end of a subscription, dmm_event_unsubscribe, keeps the invariant of subscriptions.
use native.Mathlib.Decide.{ℕ_discrete}
use dimmon.Prelude.{
  ap, ◌∙◌, count-le_length, ◌&&◌, ◌+◌, ◌≤◌, ◌<◌, ◌≡◌, ◌≢◌, refl, true, false, List, [], ◌∷◌, arith,
  length, has, count, unlink, ◌==◌, if◌then◌else◌, count-unlink_self, count-unlink_ne,
  length-unlink, has-count_pos, count_pos-has,
}
use dimmon.State.{with_node, with_event, pure, ◌>>◌, Addr, Sys, Eventnode, ok, enoent}
use dimmon.State.Cells.{length-nodes_of, nodes_of, unlink_node, nodes_of-unlink_node}
use dimmon.State.Returns
use dimmon.State.Returns.{Returns}
use dimmon.Node.Refs.{held, NodeReleased, node_unref-Released}
use dimmon.Node.{node_unref}
use dimmon.Event.{event_unref, event_unsubscribe}
use dimmon.Event.Refs.{Released, MayRelease, event_unref-Released}
use dimmon.Event.Subscriptions.{queued, listed, Inv, is_pair}

length-unlink_node :
    (n : Addr) (cs : List Eventnode)
    → has n (nodes_of cs) ≡ true
    → length (unlink_node n cs) + 1 ≡ length cs
unfolding has unlink_node
length-unlink_node n [] h = ground arith
length-unlink_node n (c ∷ cs) h = ground (arith, length-unlink_node n cs)

-- `dmm_event_unsubscribe` without a subscription changes nothing and says so.
pub unsubscribe_absent :
    (e n : Addr) (s : Sys) → queued s e n ≡ 0 → event_unsubscribe e n s ≡ ok enoent s
unfolding event_unsubscribe
unsubscribe_absent e n s h = ground (arith, has-count_pos n (nodes_of (s.event e).ev_nodes))

-- What the end of a subscription leaves.
pub record Unsubscribed (e n : Addr) (s t : Sys) : Type 0 where
  pub cells : (t.event e).ev_nodes ≡ unlink_node n (s.event e).ev_nodes
  pub event_refs : (t.event e).ev_refs + 1 ≡ (s.event e).ev_refs
  pub event_kept : 1 < (s.event e).ev_refs → (t.event e).live ≡ true
  pub event_dropped : (s.event e).ev_refs ≡ 1 → (t.event e).live ≡ false
  pub other_events : (b : Addr) → b ≢ e → t.event b ≡ s.event b
  pub epoll : t.epoll ≡ s.epoll
  pub destructor : (t.event e).ev_destructor ≡ (s.event e).ev_destructor
  pub node_events : (t.node n).nd_events ≡ unlink e (s.node n).nd_events
  pub in_hooks : (t.node n).nd_inhooks ≡ (s.node n).nd_inhooks
  pub out_hooks : (t.node n).nd_outhooks ≡ (s.node n).nd_outhooks
  pub node_refs : (t.node n).nd_refs + 1 ≡ (s.node n).nd_refs
  pub node_kept : 1 < (s.node n).nd_refs → (t.node n).live ≡ true
  pub other_nodes : (b : Addr) → b ≢ n → t.node b ≡ s.node b

abbrev unlinked : Addr → Addr → Sys → Sys
unlinked e n s =
    with_node n (λ nd. record nd { nd_events = unlink e nd.nd_events })
      (with_event e (λ ev. record ev { ev_nodes = unlink_node n ev.ev_nodes }) s)

Unsubscribed-of :
    (e n : Addr) (s t u : Sys)
    → Released e (unlinked e n s) t
    → NodeReleased n t u
    → Unsubscribed e n s u
Unsubscribed-of e n s t u r q = record {
  cells = ground (arith, r.cells, ap (λ f. f e) q.events);
  event_refs = ground (arith, r.refs, ap (λ f. f e) q.events);
  event_kept = ground (arith, r.kept, ap (λ f. f e) q.events);
  event_dropped = ground (arith, r.dropped, ap (λ f. f e) q.events);
  other_events = λ b ne. ground (arith, r.others b, ap (λ f. f b) q.events);
  epoll = q.epoll ∙ r.epoll;
  destructor = ground (arith, r.destructor, ap (λ f. f e) q.events);
  node_events = ground (arith, q.node_events, ap (λ f. f n) r.nodes);
  in_hooks = ground (arith, q.in_hooks, ap (λ f. f n) r.nodes);
  out_hooks = ground (arith, q.out_hooks, ap (λ f. f n) r.nodes);
  node_refs = ground (arith, q.refs, ap (λ f. f n) r.nodes);
  node_kept = ground (arith, q.kept, ap (λ f. f n) r.nodes);
  other_nodes = λ b ne. ground (arith, q.others b, ap (λ f. f b) r.nodes);
}

module _ (e n : Addr) (s : Sys) (inv : Inv s) (sub : 1 ≤ queued s e n) (may : MayRelease e s) where
  -- The first release finds the event allocated, and more references than cells.
  event_part : Returns (event_unref e (unlinked e n s)) (λ _ t. Released e (unlinked e n s) t)
  event_part =
      event_unref-Released e (unlinked e n s) (ground (arith, inv.event_live e n))
        (ground (
          arith,
          length-unlink_node n (s.event e).ev_nodes,
          count_pos-has n (nodes_of (s.event e).ev_nodes) sub,
          inv.event_held e,
        ))
        (record { has_destructor = ground arith; epoll_answer = ground arith })

  node_part :
      (t : Sys)
      → Released e (unlinked e n s) t
      → Returns (node_unref n t) (λ _ u. NodeReleased n t u)
  node_part t r =
      node_unref-Released n t (ground (arith, inv.node_live e n, ap (λ f. f n) r.nodes)) (
        ground (
          arith,
          length-unlink e (s.node n).nd_events,
          count_pos-has e (s.node n).nd_events,
          inv.linked e n,
          inv.node_held n,
          ap (λ f. f n) r.nodes,
        ))

  pub unsubscribe-Unsubscribed :
      Returns (event_unsubscribe e n s) (λ err t. (err ≡ 0) × Unsubscribed e n s t)
  unfolding event_unsubscribe
  unsubscribe-Unsubscribed =
      let in_queue : has n (nodes_of (s.event e).ev_nodes) ≡ true =
        count_pos-has n (nodes_of (s.event e).ev_nodes) sub in
      let in_list : has e (s.node n).nd_events ≡ true =
        count_pos-has e (s.node n).nd_events (omega (arith, inv.linked e n)) in
      rw (in_queue, in_list)
        (Returns.bind (λ _ t. Released e (unlinked e n s) t)
          (λ err t. (err ≡ 0) × Unsubscribed e n s t) (event_unref e (unlinked e n s))
          (λ _. node_unref n >> pure 0) event_part
          (λ _ t r.
            Returns.bind (λ _ u. NodeReleased n t u) (λ err u. (err ≡ 0) × Unsubscribed e n s u)
              (node_unref n t) (λ _. pure 0) (node_part t r)
              (λ _ u q. (refl, Unsubscribed-of e n s t u r q))))

module _ (e n : Addr) (s t : Sys) (inv : Inv s) (sub : 1 ≤ queued s e n)
    (u : Unsubscribed e n s t) where
  queue_after : (b : Addr) → queued t e b ≡ count b (unlink n (nodes_of (s.event e).ev_nodes))
  queue_after b =
      ap (λ cs. count b (nodes_of cs)) u.cells
      ∙ ap (count b) (nodes_of-unlink_node n (s.event e).ev_nodes)

  pub queued_after :
      (a b : Addr) → queued t a b + (if a == e && b == n then 1 else 0) ≡ queued s a b
  queued_after a b = elim (ℕ_discrete a e) [
    | yes p ↦ rw p (
        ground (
          arith,
          queue_after b,
          count-unlink_self n (nodes_of (s.event e).ev_nodes),
          count-unlink_ne n b (nodes_of (s.event e).ev_nodes),
          count_pos-has n (nodes_of (s.event e).ev_nodes) sub,
        ))
    | no q ↦ ground (arith, ap (λ ev. count b (nodes_of ev.ev_nodes)) (u.other_events a q))
  ]

  listed_after : (a b : Addr) → listed t a b + (if a == e && b == n then 1 else 0) ≡ listed s a b
  listed_after a b = elim (ℕ_discrete b n) [
    | yes p ↦ rw p (
        ground (
          arith,
          ap (count a) u.node_events,
          count-unlink_self e (s.node n).nd_events,
          count-unlink_ne e a (s.node n).nd_events,
          count_pos-has e (s.node n).nd_events,
          inv.linked e n,
        ))
    | no q ↦ ground (arith, ap (λ nd. count a nd.nd_events) (u.other_nodes b q))
  ]

  cells_after : length (t.event e).ev_nodes + 1 ≡ length (s.event e).ev_nodes
  cells_after = rw u.cells (
      length-unlink_node n (s.event e).ev_nodes
        (count_pos-has n (nodes_of (s.event e).ev_nodes) sub))

  event_held_after : (a : Addr) → length (t.event a).ev_nodes ≤ (t.event a).ev_refs
  event_held_after a = elim (ℕ_discrete a e) [
    | yes p ↦ rw p (omega (arith, cells_after, inv.event_held e, u.event_refs))
    | no q ↦ rw (u.other_events a q) (inv.event_held a)
  ]

  node_held_after : (b : Addr) → held (t.node b) ≤ (t.node b).nd_refs
  node_held_after b = elim (ℕ_discrete b n) [
    | yes p ↦ rw p (
        ground (
          arith,
          ap length u.node_events,
          length-unlink e (s.node n).nd_events,
          count_pos-has e (s.node n).nd_events,
          inv.linked e n,
          inv.node_held n,
          u.in_hooks,
          u.out_hooks,
          u.node_refs,
        ))
    | no q ↦ rw (u.other_nodes b q) (inv.node_held b)
  ]

  event_live_after : (a b : Addr) → 1 ≤ queued t a b → (t.event a).live ≡ true
  event_live_after a b h = elim (ℕ_discrete a e) [
    | yes p ↦ rw p (
        u.event_kept (
          ground (
            arith,
            count-le_length b (nodes_of (t.event e).ev_nodes),
            length-nodes_of (t.event e).ev_nodes,
            cells_after,
            inv.event_held e,
          )))
    | no q ↦ rw (u.other_events a q) (inv.event_live a b (omega (arith, queued_after a b)))
  ]

  node_live_after : (a b : Addr) → 1 ≤ queued t a b → (t.node b).live ≡ true
  node_live_after a b h = elim (ℕ_discrete b n) [
    | yes p ↦ rw p (
        u.node_kept (
          ground (
            arith,
            queued_after a n,
            listed_after a n,
            inv.linked a n,
            count-le_length a (t.node n).nd_events,
            length-unlink e (s.node n).nd_events,
            count_pos-has e (s.node n).nd_events,
            inv.linked e n,
            inv.node_held n,
            ap length u.node_events,
          )))
    | no q ↦ rw (u.other_nodes b q) (inv.node_live a b (omega (arith, queued_after a b)))
  ]

  pub Unsubscribed-Inv : Inv t
  Unsubscribed-Inv = record {
    linked = λ a b. ground (arith, queued_after a b, listed_after a b, inv.linked a b);
    event_live = λ a b h. event_live_after a b h;
    node_live = λ a b h. node_live_after a b h;
    event_held = λ a. event_held_after a;
    node_held = λ b. node_held_after b;
  }

-- Under the invariant of subscriptions, and if an event that loses its last reference has a
-- destructor that epoll lets run, ending a subscription succeeds, keeps the invariant, and takes
-- away one subscription of this node to this event and no other, whether or not the last reference
-- to the event or to the node goes.
pub unsubscribe-Inv :
    (e n : Addr) (s : Sys)
    → Inv s
    → 1 ≤ queued s e n
    → MayRelease e s
    → Returns (event_unsubscribe e n s) (λ err t.
      (err ≡ 0) × Inv t × ((a b : Addr) → queued t a b + is_pair e n a b ≡ queued s a b))
unsubscribe-Inv e n s inv sub may =
    Returns.weaken (λ err t. (err ≡ 0) × Unsubscribed e n s t) _ (event_unsubscribe e n s)
      (unsubscribe-Unsubscribed e n s inv sub may)
      (λ err t (ok0, u). (ok0, Unsubscribed-Inv e n s t inv sub u, queued_after e n s t inv sub u))

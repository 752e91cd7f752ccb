-- ===== src/Event/All/Node.antt =====
-- The loop of dmm_node_unsubscribeallevents.
use dimmon.Prelude.{◌≤◌, ◌<◌, ◌≡◌, ◌∙◌, ap, refl, true, List, [], ◌∷◌, arith, length, count}
use dimmon.State.{Addr, Sys}
use dimmon.State.Returns
use dimmon.State.Returns.{Returns}
use dimmon.Event.{event_unsubscribe, unsubscribe_events, node_unsubscribeallevents}
use dimmon.Event.Subscriptions.{Inv, queued}
use dimmon.Event.Unsubscribe.{Unsubscribed, unsubscribe-Unsubscribed, Unsubscribed-Inv}
use dimmon.Event.All.Quiet.{
  CanDestroy, Quiet, CanDestroy-step, queued_head, events_tail, Quiet-step,
}

nowhere : (n : Addr) (s : Sys) → Inv s → (s.node n).nd_events ≡ [] → (b : Addr) → queued s b n ≡ 0
unfolding count
nowhere n s inv h b = inv.linked b n ∙ ap (count b) h

Quiet-loop :
    (n : Addr) (es : List Addr) (s : Sys)
    → Inv s
    → CanDestroy s
    → (s.node n).nd_events ≡ es
    → (s.node n).live ≡ true
    → length es < (s.node n).nd_refs
    → Returns (unsubscribe_events n es s) (λ _ t. Quiet n s t)
unfolding unsubscribe_events
Quiet-loop n [] s inv can h alive more = record {
  inv = inv;
  can = can;
  events = h;
  in_hooks = refl;
  out_hooks = refl;
  kept = alive;
  refs = rw h (omega arith);
  others = λ b ne. refl;
  event_refs = λ b. omega (arith, nowhere n s inv h b);
  destroyed = λ b in_queue _. absurd (omega (arith, in_queue, nowhere n s inv h b));
  kept_events = λ b _. refl;
  other_events = λ b _. refl;
}
Quiet-loop n (e ∷ es) s inv can h alive more =
    let sub : 1 ≤ queued s e n = queued_head n e s es inv h in
    Returns.bind (λ err t. (err ≡ 0) × Unsubscribed e n s t) (λ _ t. Quiet n s t)
      (event_unsubscribe e n s) (λ _. unsubscribe_events n es)
      (unsubscribe-Unsubscribed e n s inv sub (record {
        has_destructor = λ _. can.has_destructor e n sub;
        epoll_answer = λ _ _. can.epoll_answer s.epolls;
      }))
      (λ _ t (_, x).
        let tail : (t.node n).nd_events ≡ es = events_tail n e s t es h x.node_events in
        Returns.weaken (λ _ u. Quiet n t u) (λ _ u. Quiet n s u) (unsubscribe_events n es t)
          (Quiet-loop n es t (Unsubscribed-Inv e n s t inv sub x)
            (CanDestroy-step e n s t inv sub x can) tail (x.node_kept (omega arith))
            (omega (arith, x.node_refs)))
          (λ _ u k. Quiet-step e n s t u (length es) inv sub x k (ap length tail) (ap length h)))

-- If every event with subscribers has a destructor and epoll lets any descriptor go, and while
-- something besides its subscriptions holds the node, ending all of them keeps the invariant
-- and the node with its hooks, leaves it in no event's queue, gives back one reference for each
-- subscription, and touches no other node. Each event loses a reference for each subscription of
-- the node; an event that had no other reference is destroyed, one that had others stays, and an
-- event without the node in its queue is not touched.
pub node_unsubscribeallevents-Quiet :
    (n : Addr) (s : Sys)
    → Inv s
    → CanDestroy s
    → (s.node n).live ≡ true
    → length (s.node n).nd_events < (s.node n).nd_refs
    → Returns (node_unsubscribeallevents n s) (λ _ t. Quiet n s t × ((e : Addr) → queued t e n ≡ 0))
unfolding node_unsubscribeallevents count
node_unsubscribeallevents-Quiet n s inv can alive more =
    Returns.weaken (λ _ t. Quiet n s t) _ (unsubscribe_events n (s.node n).nd_events s)
      (Quiet-loop n (s.node n).nd_events s inv can refl alive more)
      (λ _ t q. (q, λ e. q.inv.linked e n ∙ ap (count e) q.events))

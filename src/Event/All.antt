-- ===== src/Event/All.antt =====
-- The loops of dmm_event_unsubscribeall and dmm_node_unsubscribeallevents.
pub mod Quiet
pub mod Node
use dimmon.Prelude.{
  ℕ, suc, ◌+◌, ◌≤◌, ◌<◌, ◌≡◌, ◌≢◌, ◌∙◌, ap, refl, true, false, none, some, ◌||◌, List, [], ◌∷◌,
  arith, length, count, has, unlink, ◌==◌, if◌then◌else◌, count_pos-has,
}
use dimmon.State.{Addr, Errno, Sys, Eventnode, ok, enoent, sockevent_destructor}
use dimmon.State.Cells.{nodes_of, unlink_node}
use dimmon.State.Returns
use dimmon.State.Returns.{Returns}
use dimmon.Node.Refs.{held}
use dimmon.Event.{
  event_unsubscribe, event_unsubscribeall, unsubscribe_nodes, unsubscribe_events,
  node_unsubscribeallevents,
}
use dimmon.Event.Refs.{MayRelease}
use dimmon.Event.Subscriptions.{Inv, queued, listed}
use dimmon.Event.Unsubscribe.{Unsubscribed, unsubscribe-Unsubscribed, Unsubscribed-Inv}

-- What the end of all subscriptions to an event leaves.
pub record Cleared (e : Addr) (s t : Sys) : Type 0 where
  pub inv : Inv t
  pub cells : (t.event e).ev_nodes ≡ []
  pub kept : (t.event e).live ≡ true
  pub refs : (t.event e).ev_refs + length (s.event e).ev_nodes ≡ (s.event e).ev_refs
  pub others : (b : Addr) → b ≢ e → t.event b ≡ s.event b

queued_head :
    (e : Addr) (s : Sys) (c : Eventnode) (cs : List Eventnode)
    → (s.event e).ev_nodes ≡ c ∷ cs
    → 1 ≤ queued s e c.en_node
unfolding count
queued_head e s c cs h = rw h (ground arith)

cells_tail :
    (e : Addr) (s t : Sys) (c : Eventnode) (cs : List Eventnode)
    → (s.event e).ev_nodes ≡ c ∷ cs
    → (t.event e).ev_nodes ≡ unlink_node c.en_node (s.event e).ev_nodes
    → (t.event e).ev_nodes ≡ cs
unfolding unlink_node
cells_tail e s t c cs h k = k ∙ rw h (ground arith)

Cleared-step :
    (e n : Addr) (s t u : Sys) (m : ℕ)
    → Unsubscribed e n s t
    → Cleared e t u
    → length (t.event e).ev_nodes ≡ m
    → length (s.event e).ev_nodes ≡ suc m
    → Cleared e s u
Cleared-step e n s t u m x c lt ls = record {
  inv = c.inv;
  cells = c.cells;
  kept = c.kept;
  refs = omega (arith, c.refs, x.event_refs);
  others = λ b ne. c.others b ne ∙ x.other_events b ne;
}

clear_loop :
    (e : Addr) (cs : List Eventnode) (s : Sys)
    → Inv s
    → (s.event e).ev_nodes ≡ cs
    → (s.event e).live ≡ true
    → length cs < (s.event e).ev_refs
    → Returns (unsubscribe_nodes e cs s) (λ _ t. Cleared e s t)
unfolding unsubscribe_nodes
clear_loop e [] s inv h alive more = record {
  inv = inv;
  cells = h;
  kept = alive;
  refs = rw h (omega arith);
  others = λ b ne. refl;
}
clear_loop e (c ∷ cs) s inv h alive more =
    Returns.bind (λ err t. (err ≡ 0) × Unsubscribed e c.en_node s t) (λ _ t. Cleared e s t)
      (event_unsubscribe e c.en_node s) (λ _. unsubscribe_nodes e cs)
      (unsubscribe-Unsubscribed e c.en_node s inv (queued_head e s c cs h) (record {
        has_destructor = λ r. absurd (omega arith);
        epoll_answer = λ r. absurd (omega arith);
      }))
      (λ _ t (_, x).
        let tail : (t.event e).ev_nodes ≡ cs = cells_tail e s t c cs h x.cells in
        Returns.weaken (λ _ u. Cleared e t u) (λ _ u. Cleared e s u) (unsubscribe_nodes e cs t)
          (clear_loop e cs t (Unsubscribed-Inv e c.en_node s t inv (queued_head e s c cs h) x) tail
            (x.event_kept (omega arith)) (omega (arith, x.event_refs)))
          (λ _ u k. Cleared-step e c.en_node s t u (length cs) x k (ap length tail) (ap length h)))

-- While something besides the subscriptions holds the event, ending all of them keeps the invariant
-- and the event, leaves no node subscribed to it, gives back one reference for each subscription,
-- and touches no other event.
pub unsubscribeall-Cleared :
    (e : Addr) (s : Sys)
    → Inv s
    → (s.event e).live ≡ true
    → length (s.event e).ev_nodes < (s.event e).ev_refs
    → Returns (event_unsubscribeall e s) (λ _ t. Cleared e s t)
unfolding event_unsubscribeall
unsubscribeall-Cleared e s inv alive more = clear_loop e (s.event e).ev_nodes s inv refl alive more

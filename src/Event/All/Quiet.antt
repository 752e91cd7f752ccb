-- ===== src/Event/All/Quiet.antt =====
-- dmm_node_unsubscribeallevents: what the end of all subscriptions of a node leaves, and one of them.
use native.Mathlib.Decide.{ℕ_discrete}
use dimmon.Prelude.{
  ℕ, suc, ◌+◌, ◌≤◌, ◌<◌, ◌≡◌, ◌≢◌, ◌∙◌, ap, sym, true, false, none, inl, inr, ◌⊎◌, ==_self, ◌||◌,
  List, [], ◌∷◌, arith, length, count, unlink, ◌==◌,
}
use mathlib.Core.Path.{subst}
use dimmon.State.{Addr, Sys, enoent}
use dimmon.State.Cells.{nodes_of}
use dimmon.Event.Subscriptions.{Inv, queued}
use dimmon.Event.Unsubscribe.{Unsubscribed, queued_after}

-- Every event has a destructor, and epoll lets any descriptor go.
pub record CanDestroy (s : Sys) : Type 0 where
  pub has_destructor : (e n : Addr) → 1 ≤ queued s e n → (s.event e).ev_destructor ≢ none
  pub epoll_answer : (k : ℕ) → (s.epoll k == 0 || s.epoll k == enoent) ≡ true

-- What the end of all subscriptions of a node leaves.
pub record Quiet (n : Addr) (s t : Sys) : Type 0 where
  pub inv : Inv t
  pub can : CanDestroy t
  pub events : (t.node n).nd_events ≡ []
  pub in_hooks : (t.node n).nd_inhooks ≡ (s.node n).nd_inhooks
  pub out_hooks : (t.node n).nd_outhooks ≡ (s.node n).nd_outhooks
  pub kept : (t.node n).live ≡ true
  pub refs : (t.node n).nd_refs + length (s.node n).nd_events ≡ (s.node n).nd_refs
  pub others : (b : Addr) → b ≢ n → t.node b ≡ s.node b
  pub event_refs : (b : Addr) → (t.event b).ev_refs + queued s b n ≡ (s.event b).ev_refs
  pub destroyed :
      (b : Addr) → 1 ≤ queued s b n → (s.event b).ev_refs ≡ queued s b n → (t.event b).live ≡ false
  pub kept_events :
      (b : Addr) → queued s b n < (s.event b).ev_refs → (t.event b).live ≡ (s.event b).live
  pub other_events : (b : Addr) → queued s b n ≡ 0 → t.event b ≡ s.event b

pub CanDestroy-step :
    (e n : Addr) (s t : Sys)
    → Inv s
    → 1 ≤ queued s e n
    → Unsubscribed e n s t
    → CanDestroy s
    → CanDestroy t
CanDestroy-step e n s t inv sub x can = record {
  has_destructor = λ a b h. elim (ℕ_discrete a e) [
    | yes p ↦ rw (p, x.destructor) (can.has_destructor e n sub)
    | no q ↦
        rw (x.other_events a q)
          (can.has_destructor a b (omega (arith, queued_after e n s t inv sub x a b)))
  ];
  epoll_answer = λ k. rw x.epoll (can.epoll_answer k);
}

pub queued_head :
    (n e : Addr) (s : Sys) (es : List Addr)
    → Inv s
    → (s.node n).nd_events ≡ e ∷ es
    → 1 ≤ queued s e n
unfolding count
queued_head n e s es inv h = rw (inv.linked e n, h) (ground arith)

pub events_tail :
    (n e : Addr) (s t : Sys) (es : List Addr)
    → (s.node n).nd_events ≡ e ∷ es
    → (t.node n).nd_events ≡ unlink e (s.node n).nd_events
    → (t.node n).nd_events ≡ es
unfolding unlink
events_tail n e s t es h k = k ∙ rw h (ground arith)

-- How often the node is in the queue of an event, before and after one subscription has ended.
fewer :
    (e n : Addr) (s t : Sys)
    → Inv s
    → 1 ≤ queued s e n
    → Unsubscribed e n s t
    → queued t e n + 1 ≡ queued s e n
fewer e n s t inv sub x = ground (arith, queued_after e n s t inv sub x e n, ==_self e, ==_self n)

as_many :
    (e n : Addr) (s t : Sys)
    → Inv s
    → 1 ≤ queued s e n
    → Unsubscribed e n s t
    → (b : Addr) → b ≢ e
    → queued t b n ≡ queued s b n
as_many e n s t inv sub x b ne = ap (λ ev. count n (nodes_of ev.ev_nodes)) (x.other_events b ne)

event_refs-step :
    (e n : Addr) (s t u : Sys)
    → Inv s
    → 1 ≤ queued s e n
    → Unsubscribed e n s t
    → Quiet n t u
    → (b : Addr) → (u.event b).ev_refs + queued s b n ≡ (s.event b).ev_refs
event_refs-step e n s t u inv sub x q b = elim (ℕ_discrete b e) [
  | yes p ↦ rw p (omega (arith, q.event_refs e, x.event_refs, fewer e n s t inv sub x))
  | no ne ↦ ground (
    arith,
    q.event_refs b,
    ap (λ ev. ev.ev_refs) (x.other_events b ne),
    as_many e n s t inv sub x b ne,
  )
]

last_or : (k : ℕ) → 1 ≤ k → (k ≡ 1) ⊎ (1 < k)
last_or k h = omega (arith, h)

destroyed-step :
    (e n : Addr) (s t u : Sys)
    → Inv s
    → 1 ≤ queued s e n
    → Unsubscribed e n s t
    → Quiet n t u
    → (b : Addr) → 1 ≤ queued s b n
    → (s.event b).ev_refs ≡ queued s b n
    → (u.event b).live ≡ false
destroyed-step e n s t u inv sub x q b h all = elim (ℕ_discrete b e) [
  | yes p ↦
      (let all_e : (s.event e).ev_refs ≡ queued s e n =
          ap (λ c. (s.event c).ev_refs) (sym p) ∙ all ∙ ap (λ c. queued s c n) p in
        let less = fewer e n s t inv sub x in
        rw p (elim (last_or (queued s e n) sub) [
          | inl one ↦
              ap (λ ev. ev.live) (q.other_events e (omega (arith, less, one)))
              ∙ x.event_dropped (all_e ∙ one)
          | inr more ↦
              q.destroyed e (omega (arith, less, more)) (omega (arith, less, all_e, x.event_refs))
        ]))
  | no ne ↦
      (let same = as_many e n s t inv sub x b ne in
        q.destroyed b (omega (arith, h, same))
          (ap (λ ev. ev.ev_refs) (x.other_events b ne) ∙ all ∙ sym same))
]

kept_events-step :
    (e n : Addr) (s t u : Sys)
    → Inv s
    → 1 ≤ queued s e n
    → Unsubscribed e n s t
    → Quiet n t u
    → (b : Addr) → queued s b n < (s.event b).ev_refs
    → (u.event b).live ≡ (s.event b).live
kept_events-step e n s t u inv sub x q b more = elim (ℕ_discrete b e) [
  | yes p ↦
      (let more_e : queued s e n < (s.event e).ev_refs =
          subst (λ c. queued s c n < (s.event c).ev_refs) p more in
        rw p (
          q.kept_events e (omega (arith, fewer e n s t inv sub x, more_e, x.event_refs))
          ∙ x.event_kept (omega (arith, sub, more_e))
          ∙ sym (inv.event_live e n sub)))
  | no ne ↦
      (let ev = x.other_events b ne in
        q.kept_events b
          (ground (arith, as_many e n s t inv sub x b ne, ap (λ v. v.ev_refs) ev, more))
        ∙ ap (λ v. v.live) ev)
]

other_events-step :
    (e n : Addr) (s t u : Sys)
    → Inv s
    → 1 ≤ queued s e n
    → Unsubscribed e n s t
    → Quiet n t u
    → (b : Addr) → queued s b n ≡ 0
    → u.event b ≡ s.event b
other_events-step e n s t u inv sub x q b none_left = elim (ℕ_discrete b e) [
  | yes p ↦ absurd (omega (arith, sub, ap (λ c. queued s c n) (sym p) ∙ none_left))
  | no ne ↦ q.other_events b (as_many e n s t inv sub x b ne ∙ none_left) ∙ x.other_events b ne
]

pub Quiet-step :
    (e n : Addr) (s t u : Sys) (m : ℕ)
    → Inv s
    → 1 ≤ queued s e n
    → Unsubscribed e n s t
    → Quiet n t u
    → length (t.node n).nd_events ≡ m
    → length (s.node n).nd_events ≡ suc m
    → Quiet n s u
Quiet-step e n s t u m inv sub x q lt ls = record {
  inv = q.inv;
  can = q.can;
  events = q.events;
  in_hooks = q.in_hooks ∙ x.in_hooks;
  out_hooks = q.out_hooks ∙ x.out_hooks;
  kept = q.kept;
  refs = omega (arith, q.refs, x.node_refs);
  others = λ b ne. q.others b ne ∙ x.other_nodes b ne;
  event_refs = event_refs-step e n s t u inv sub x q;
  destroyed = destroyed-step e n s t u inv sub x q;
  kept_events = kept_events-step e n s t u inv sub x q;
  other_events = other_events-step e n s t u inv sub x q;
}

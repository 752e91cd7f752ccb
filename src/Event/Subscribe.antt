-- ===== src/Event/Subscribe.antt =====
-- Subscribing, dmm_event_subscribe and dmm_event_checkedsubscribe, keeps the invariant.
use dimmon.Prelude.{
  leb, ◌⊎◌, suc, ◌+◌, ◌≤◌, ◌<◌, ◌≡◌, refl, true, false, [], ◌∷◌, arith, length, count,
  if◌then◌else◌, count-append, length-append, has-count_pos, count_pos-has, Bool-cases, inl, inr,
}
use dimmon.State.{with_node, with_event, Addr, Sys, ok, enomem}
use dimmon.State.Cells.{nodes_of-append, nodes_of}
use dimmon.State.Returns.{Returns}
use dimmon.Memman.{dmm_refnum_max}
use dimmon.Event.{event_issubscribed, event_subscribe, event_checkedsubscribe}
use dimmon.Event.Subscriptions.{queued, listed, Inv, is_pair}
use dimmon.State.{Errno}
use dimmon.Node.{set_refs}
use dimmon.Event.{set_event_refs, add_cell}

-- The state behind a subscription.
abbrev pub subscribed : Addr → Addr → Sys → Sys
subscribed e n s =
    let s1 : Sys =
      with_event e (add_cell (suc s.mallocs) n) (record s { mallocs = s.mallocs + 2 }) in
    let s2 : Sys = with_node n (set_refs ((s.node n).nd_refs + 1)) s1 in
    let s3 : Sys = with_node n (λ nd. record nd { nd_events = e ∷ nd.nd_events }) s2 in
    with_event e (set_event_refs ((s.event e).ev_refs + 1)) s3

abbrev pub CanHold : Addr → Addr → Sys → Type 0
CanHold e n s =
    ((s.event e).live ≡ true)
    × ((s.node n).live ≡ true)
    × ((s.event e).ev_refs < dmm_refnum_max)
    × ((s.node n).nd_refs < dmm_refnum_max)

module _ (e n : Addr) (s : Sys) (can : CanHold e n s) where
  pub subscribe-ok :
      s.mem s.mallocs ≡ true
      → s.mem (suc s.mallocs) ≡ true
      → event_subscribe e n s ≡ ok 0 (subscribed e n s)
  unfolding event_subscribe
  subscribe-ok h k = ground arith

  pub subscribe_no_cell :
      s.mem s.mallocs ≡ false
      → event_subscribe e n s ≡ ok enomem (record s { mallocs = suc s.mallocs })
  unfolding event_subscribe
  subscribe_no_cell h = ground arith

  pub subscribe_no_entry :
      s.mem s.mallocs ≡ true
      → s.mem (suc s.mallocs) ≡ false
      → event_subscribe e n s ≡ ok enomem (record s { mallocs = suc (suc s.mallocs) })
  unfolding event_subscribe
  subscribe_no_entry h k = ground arith

  pub queued-subscribed :
      (a b : Addr) → queued (subscribed e n s) a b ≡ queued s a b + is_pair e n a b
  unfolding count
  queued-subscribed a b = ground (
    arith,
    nodes_of-append (s.event e).ev_nodes (record { cell = suc s.mallocs; en_node = n }),
    count-append b (nodes_of (s.event e).ev_nodes) (n ∷ []),
  )

  listed_subscribed : (a b : Addr) → listed (subscribed e n s) a b ≡ listed s a b + is_pair e n a b
  unfolding count
  listed_subscribed a b = ground arith

  module _ (inv : Inv s) where
    event_held_subscribed :
        (a : Addr)
        → length ((subscribed e n s).event a).ev_nodes ≤ ((subscribed e n s).event a).ev_refs
    event_held_subscribed a = ground (
      arith,
      inv.event_held a,
      length-append (s.event e).ev_nodes (record { cell = suc s.mallocs; en_node = n } ∷ []),
    )

    pub subscribed-Inv : Inv (subscribed e n s)
    subscribed-Inv = record {
      linked = λ a b. ground (arith, queued-subscribed a b, listed_subscribed a b, inv.linked a b);
      event_live = λ a b h. ground (arith, queued-subscribed a b, inv.event_live a b);
      node_live = λ a b h. ground (arith, queued-subscribed a b, inv.node_live a b);
      event_held = event_held_subscribed;
      node_held = λ b. ground (arith, inv.node_held b);
    }

-- What a subscription leaves: one more of this node to this event and no other; or, without memory,
-- the events and nodes as they were.
abbrev pub Outcome : Addr → Addr → Sys → Errno → Sys → Type 0
Outcome e n s err t =
    ((err ≡ 0) × ((a b : Addr) → queued t a b ≡ queued s a b + is_pair e n a b))
    ⊎ ((err ≡ enomem) × (t.event ≡ s.event) × (t.node ≡ s.node))

-- Subscribing a node to an event, both allocated and with fewer references than the greatest
-- number, keeps the invariant of subscriptions, and adds exactly one subscription of this node to
-- this event or, when there is no memory, changes no event and no node.
pub subscribe-Inv :
    (e n : Addr) (s : Sys)
    → CanHold e n s
    → Inv s
    → Returns (event_subscribe e n s) (λ err t. Inv t × Outcome e n s err t)
subscribe-Inv e n s can inv = elim (Bool-cases (s.mem s.mallocs)) [
  | inr h ↦ rw (subscribe_no_cell e n s can h) (ground arith, inr (refl, refl, refl))
  | inl h ↦ elim (Bool-cases (s.mem (suc s.mallocs))) [
    | inr k ↦ rw (subscribe_no_entry e n s can h k) (ground arith, inr (refl, refl, refl))
    | inl k ↦
        rw (subscribe-ok e n s can h k)
          (subscribed-Inv e n s can inv, inl (refl, queued-subscribed e n s can))
  ]
]

-- Under the invariant, the checked subscription never makes a second one: a node that is subscribed
-- stays so, with no change at all, and otherwise the node is subscribed as by `event_subscribe`.
pub checkedsubscribe_once :
    (e n : Addr) (s : Sys)
    → Inv s
    → event_checkedsubscribe e n s
      ≡ (if leb 1 (queued s e n) then ok 0 s else event_subscribe e n s)
unfolding event_checkedsubscribe event_issubscribed
checkedsubscribe_once e n s inv = ground (
  arith,
  inv.linked e n,
  has-count_pos e (s.node n).nd_events,
  count_pos-has e (s.node n).nd_events,
)

-- ===== src/Node/Refs.antt =====
-- The runs of the reference operations of nodes.
use dimmon.Prelude.{
  ℕ, ◌+◌, ◌-◌, ◌<◌, ◌≡◌, ◌≢◌, true, false, List, [], ◌∷◌, arith, length, unlink, if◌then◌else◌,
  Bool-cases, inl, inr, nil_of_length,
}
use native.Mathlib.Decide.{dec_lt}
use dimmon.State.{Addr, Node, Sys, ok, with_node, Call, dtor_of}
use dimmon.State.Returns
use dimmon.State.Returns.{Returns}
use dimmon.Memman.{dmm_refnum_max}
use dimmon.Node.{node_destroy, node_ref, node_unref, set_refs}

-- The references that a node's hooks and subscriptions hold.
abbrev pub held : Node → ℕ
held n = length n.nd_inhooks + length n.nd_outhooks + length n.nd_events

module _ (a : Addr) (s : Sys) (alive : (s.node a).live ≡ true) where
  pub node_ref-ok :
      (s.node a).nd_refs < dmm_refnum_max
      → node_ref a s ≡ ok tt (with_node a (set_refs ((s.node a).nd_refs + 1)) s)
  unfolding node_ref
  node_ref-ok h = ground arith

  pub node_unref-keep :
      1 < (s.node a).nd_refs
      → node_unref a s ≡ ok tt (with_node a (set_refs ((s.node a).nd_refs - 1)) s)
  unfolding node_unref
  node_unref-keep h = ground arith

-- What the release of one reference to a node leaves.
pub record NodeReleased (a : Addr) (s t : Sys) : Type 0 where
  pub events : t.event ≡ s.event
  pub hooks : t.hook ≡ s.hook
  pub epoll : t.epoll ≡ s.epoll
  pub others : (b : Addr) → b ≢ a → t.node b ≡ s.node b
  pub in_hooks : (t.node a).nd_inhooks ≡ (s.node a).nd_inhooks
  pub out_hooks : (t.node a).nd_outhooks ≡ (s.node a).nd_outhooks
  pub node_events : (t.node a).nd_events ≡ (s.node a).nd_events
  pub refs : (t.node a).nd_refs + 1 ≡ (s.node a).nd_refs
  pub kept : 1 < (s.node a).nd_refs → (t.node a).live ≡ true
  pub dropped : (s.node a).nd_refs ≡ 1 → (t.node a).live ≡ false

-- The effect of the destruction on the fields that other components read.
record Destroyed (a : Addr) (s t : Sys) : Type 0 where
  events : t.event ≡ s.event
  hooks : t.hook ≡ s.hook
  epoll : t.epoll ≡ s.epoll
  others : (b : Addr) → b ≢ a → t.node b ≡ s.node b
  in_hooks : (t.node a).nd_inhooks ≡ (s.node a).nd_inhooks
  out_hooks : (t.node a).nd_outhooks ≡ (s.node a).nd_outhooks
  node_events : (t.node a).nd_events ≡ (s.node a).nd_events
  refs : (t.node a).nd_refs ≡ (s.node a).nd_refs
  dropped : (t.node a).live ≡ false

module _ (a : Addr) (s : Sys) (alive : (s.node a).live ≡ true) (no_in : (s.node a).nd_inhooks ≡ [])
    (no_out : (s.node a).nd_outhooks ≡ []) where
  node_destroy-Destroyed : Returns (node_destroy a s) (λ _ t. Destroyed a s t)
  unfolding node_destroy
  node_destroy-Destroyed =
      rw (no_in, no_out)
        (elim (Bool-cases (s.type_at (s.node a).nd_type).dtor) [
          | inl e ↦ rw e (ground arith)
          | inr e ↦ rw e (ground arith)
        ])

node_unref_last :
    (a : Addr) (s : Sys)
    → (s.node a).live ≡ true
    → held (s.node a) < (s.node a).nd_refs
    → (s.node a).nd_refs ≡ 1
    → Returns (node_unref a s) (λ _ t. NodeReleased a s t)
unfolding node_unref
node_unref_last a s alive h last =
    let t : Sys = with_node a (set_refs 0) s in
    let no_in : (t.node a).nd_inhooks ≡ [] = ground (arith, nil_of_length (s.node a).nd_inhooks) in
    let no_out : (t.node a).nd_outhooks ≡ [] =
      ground (arith, nil_of_length (s.node a).nd_outhooks) in
    let alive' : (t.node a).live ≡ true = ground arith in
    rw (alive, last)
      (Returns.weaken (λ _. Destroyed a t) (λ _. NodeReleased a s) (node_destroy a t)
        (node_destroy-Destroyed a t alive' no_in no_out)
        (λ _ u d. record {
          events = d.events;
          hooks = d.hooks;
          epoll = d.epoll;
          others = λ b ne. ground (arith, d.others b);
          in_hooks = ground arith;
          out_hooks = ground arith;
          node_events = ground arith;
          refs = ground arith;
          kept = λ more. absurd (omega arith);
          dropped = λ _. d.dropped;
        }))

pub node_unref-Released :
    (a : Addr) (s : Sys)
    → (s.node a).live ≡ true
    → held (s.node a) < (s.node a).nd_refs
    → Returns (node_unref a s) (λ _ t. NodeReleased a s t)
node_unref-Released a s alive h = elim (dec_lt 1 (s.node a).nd_refs) [
  | yes more ↦ rw (node_unref-keep a s alive more) (ground arith)
  | no last ↦ node_unref_last a s alive h (omega arith)
]

-- The calls of a release: the destructor of the type, once, if it has one and the reference is the
-- last.
abbrev pub dtor_calls : Addr → Sys → List Call
dtor_calls a s = if (s.type_at (s.node a).nd_type).dtor then dtor_of a ∷ s.calls else s.calls

-- Releasing the last reference to a node that has no hooks takes it off the list of nodes, frees it
-- and calls the destructor of its type, if there is one, exactly once. Any other release changes
-- neither the list nor the calls, and keeps the node.
pub node_unref-lifetime :
    (a : Addr) (s : Sys)
    → (s.node a).live ≡ true
    → held (s.node a) < (s.node a).nd_refs
    → Returns (node_unref a s) (λ _ t.
      ((s.node a).nd_refs ≡ 1
        → (t.nodelist ≡ unlink a s.nodelist)
          × (t.calls ≡ dtor_calls a s)
          × ((t.node a).live ≡ false)
          × ((t.node a).nd_invalid ≡ true))
      × (1 < (s.node a).nd_refs
          → (t.nodelist ≡ s.nodelist) × (t.calls ≡ s.calls) × ((t.node a).live ≡ true)))
unfolding node_unref
node_unref-lifetime a s alive h = elim (dec_lt 1 (s.node a).nd_refs) [
  | yes more ↦ rw (node_unref-keep a s alive more) (ground arith)
  | no last ↦ ground arith
]

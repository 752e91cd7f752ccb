-- ===== src/Data/Send.antt =====
-- dmm_data_send in dmm_base.c: what it asks of peers and their receivers, and what it leaves.
pub mod Rounds
pub mod Peers
use dimmon.Prelude.{
  push_all, ℕ, zero, suc, ◌+◌, ◌-◌, ◌≤◌, ◌<◌, ◌≡◌, ◌≢◌, ◌∙◌, refl, ap, fun_ext, true, false, Option,
  none, some, List, [], ◌∷◌, arith, length, count, Option-cases, inl, inr,
}
use native.Mathlib.Decide.{ℕ_discrete}
use dimmon.State.{Addr, Errno, Call, Hook, Sys, Cmd, ok, with_data, with_hook, put, ◌>>◌}
use dimmon.State.Returns
use dimmon.State.Returns.{Returns}
use dimmon.Memman.{dmm_refnum_max}
use dimmon.Hook.{hook_ref, hook_unref, set_hook_refs, is_in}
use dimmon.Data.Objects.{behind, receiver_of, data_ref, data_passtohook, send_peers, data_send}

-- The list of peers from each of its cells.
abbrev pub IsLinked : List Addr → List Addr → Type 0
IsLinked peers [] = Unit {0}
IsLinked peers (p ∷ ps) = (behind p peers ≡ some ps) × IsLinked peers ps

-- What the data has done to the runtime on its way through the hooks `ps`: nothing but being heard,
-- in this order. `observed` reads from the calls which hooks have heard the data.
pub record Delivered (observed : List Call → List Addr) (a : Addr) (ps : List Addr) (s t : Sys)
    : Type 0 where
  pub hooks : t.hook ≡ s.hook
  pub nodes : t.node ≡ s.node
  pub alive : (t.data_at a).live ≡ true
  pub refs : (t.data_at a).da_refs ≡ (s.data_at a).da_refs
  pub seen : observed t.calls ≡ push_all ps (observed s.calls)

-- What a receiver does: it is heard, and gives back the reference that it was given.
pub record Heard (observed : List Call → List Addr) (p a : Addr) (s t : Sys) : Type 0 where
  pub hooks : t.hook ≡ s.hook
  pub nodes : t.node ≡ s.node
  pub alive : (t.data_at a).live ≡ true
  pub refs : (t.data_at a).da_refs + 1 ≡ (s.data_at a).da_refs
  pub seen : observed t.calls ≡ p ∷ observed s.calls

-- A hook that can receive: an input, valid, allocated and held, with a receiver.
pub record CanReceive (type_rcvdata : Addr → Option ℕ) (p : Addr) (s : Sys) : Type 0 where
  pub input : is_in (s.hook p).hk_dir ≡ true
  pub valid : (s.hook p).hk_invalid ≡ false
  pub alive : (s.hook p).live ≡ true
  pub held : 1 ≤ (s.hook p).hk_refs
  pub few : (s.hook p).hk_refs < dmm_refnum_max
  pub receives :
      receiver_of (s.hook p).hk_rcvdata (type_rcvdata (s.node (s.hook p).hk_node).nd_type) ≢ none

pub CanReceive-agree :
    (type_rcvdata : Addr → Option ℕ) (p : Addr) (s t : Sys)
    → t.hook p ≡ s.hook p
    → t.node ≡ s.node
    → CanReceive type_rcvdata p s
    → CanReceive type_rcvdata p t
CanReceive-agree type_rcvdata p s t hooks nodes can = record {
  input = rw hooks can.input;
  valid = rw hooks can.valid;
  alive = rw hooks can.alive;
  held = rw hooks can.held;
  few = rw hooks can.few;
  receives = rw (hooks, nodes) can.receives;
}

-- What is asked of every receiver, of data whose sender keeps a reference.
abbrev pub Listens : (ℕ → Addr → Addr → Cmd Errno) → (List Call → List Addr) → Type 0
Listens rcvdata observed =
    (f p a : Addr) (s : Sys)
    → (s.data_at a).live ≡ true
    → 1 < (s.data_at a).da_refs
    → Returns (rcvdata f p a s) (λ _ t. Heard observed p a s t)

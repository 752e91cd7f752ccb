-- ===== src/Wavebuf/Release.antt =====
-- dmm_base.c, dmm_data_send and dmm_data_unref as the modules call them: a new object goes to the peers of
-- a hook and is released.
use dimmon.Prelude.{
  ℕ, ◌≤◌, ◌<◌, ◌≡◌, ◌∙◌, ap, true, false, Option, List, [], ◌∷◌, count, length, push_all, arith,
}
use mathlib.Core.Path.{subst}
use dimmon.State.{Addr, Errno, Call, Sys, Cmd, ◌>>◌}
use dimmon.State.Returns
use dimmon.State.Returns.{Returns}
use dimmon.Memman.{dmm_refnum_max}
use dimmon.Hook.{is_in}
use dimmon.Data.Objects.{data_unref, data_send}
use dimmon.Data.Send.{Listens, CanReceive-agree, CanReceive, Delivered}
use dimmon.Data.Send.Peers.{data_send-Delivered}
use dimmon.Wavebuf.Merge.{Released, data_unref-Released}

-- What is asked of the output hook.
pub record CanSend (type_rcvdata : Addr → Option ℕ) (h : Addr) (s : Sys) : Type 0 where
  pub output : is_in (s.hook h).hk_dir ≡ false
  pub valid : (s.hook h).hk_invalid ≡ false
  pub alive : (s.hook h).live ≡ true
  pub held : 1 ≤ (s.hook h).hk_refs
  pub few : (s.hook h).hk_refs < dmm_refnum_max
  pub once : (p : Addr) → count p (s.hook h).hk_peers ≤ 1
  pub peers : (p : Addr) → 1 ≤ count p (s.hook h).hk_peers → CanReceive type_rcvdata p s

pub CanSend-agree :
    (type_rcvdata : Addr → Option ℕ) (h : Addr) (s t : Sys)
    → t.hook ≡ s.hook
    → t.node ≡ s.node
    → CanSend type_rcvdata h s
    → CanSend type_rcvdata h t
CanSend-agree type_rcvdata h s t hooks nodes send = record {
  output = rw hooks send.output;
  valid = rw hooks send.valid;
  alive = rw hooks send.alive;
  held = rw hooks send.held;
  few = rw hooks send.few;
  once = rw hooks send.once;
  peers = λ p m.
      CanReceive-agree type_rcvdata p s t (ap (λ g. g p) hooks) nodes
        (send.peers p (subst (λ g. 1 ≤ count p (g h).hk_peers) hooks m));
}

module _ (rcvdata : ℕ → Addr → Addr → Cmd Errno) (type_rcvdata : Addr → Option ℕ)
    (observed : List Call → List Addr) (listens : Listens rcvdata observed) where
  -- Every peer hears of the object once and in order.
  pub sent-Released :
      (fuel : ℕ) (data' h : Addr) (t : Sys)
      → CanSend type_rcvdata h t
      → (t.data_at data').live ≡ true
      → (t.data_at data').da_refs ≡ 1
      → length (t.hook h).hk_peers < fuel
      → Returns
          ((data_send rcvdata type_rcvdata fuel data' h >> data_unref data') t)
          (λ _ v. observed v.calls ≡ push_all (t.hook h).hk_peers (observed t.calls))
  sent-Released fuel data' h t send alive refs enough =
      Returns.bind (λ _ u. Delivered observed data' (t.hook h).hk_peers t u) _
        (data_send rcvdata type_rcvdata fuel data' h t) _
        (data_send-Delivered rcvdata type_rcvdata observed fuel data' h t listens send.output
          send.valid send.alive send.held send.few send.once send.peers alive (omega (arith, refs))
          (omega (arith, refs)) enough)
        (λ _ u d.
          Returns.weaken (λ _ v. Released (data' ∷ []) u v) _ (data_unref data' u)
            (data_unref-Released data' u d.alive (omega (arith, d.refs, refs)))
            (λ _ v one. ap (λ x. observed x.calls) one.frame ∙ d.seen))

-- ===== src/Data/Send/Rounds.antt =====
-- The rounds of dmm_data_send in dmm_base.c: the data is passed to each peer.
use dimmon.Prelude.{
  push_all, ℕ, zero, suc, ◌+◌, ◌-◌, ◌≤◌, ◌<◌, ◌≡◌, ◌∙◌, refl, ap, fun_ext, true, Option, List, [],
  ◌∷◌, arith, length, count, Option-cases, inl, inr,
}
use native.Mathlib.Decide.{ℕ_discrete}
use dimmon.State.{Addr, Errno, Call, Hook, Sys, Cmd, ok, with_data, with_hook, put, ◌>>◌}
use dimmon.State.Returns
use dimmon.State.Returns.{Returns}
use dimmon.Memman.{dmm_refnum_max}
use dimmon.Hook.{hook_ref, hook_unref, set_hook_refs}
use dimmon.Data.Objects.{receiver_of, data_ref, data_passtohook, send_peers}
use dimmon.Data.Send.{IsLinked, Delivered, Heard, CanReceive, CanReceive-agree, Listens}

-- The references of a hook, one more and one less.
module _ (p : Addr) (s : Sys) (alive : (s.hook p).live ≡ true) where
  pub hook_ref-ok :
      (s.hook p).hk_refs < dmm_refnum_max
      → hook_ref p s ≡ ok tt (with_hook p (set_hook_refs ((s.hook p).hk_refs + 1)) s)
  unfolding hook_ref
  hook_ref-ok few = ground arith

  pub hook_unref-keep :
      1 < (s.hook p).hk_refs
      → hook_unref p s ≡ ok tt (with_hook p (set_hook_refs ((s.hook p).hk_refs - 1)) s)
  unfolding hook_unref
  hook_unref-keep more = ground arith

-- A reference given back is as if it had not been taken.
pub back :
    (f : Addr → Hook) (p : Addr)
    → (let g : Addr → Hook = put f p (set_hook_refs ((f p).hk_refs + 1) (f p)) in
        put g p (set_hook_refs ((g p).hk_refs - 1) (g p)))
      ≡ f
back f p = fun_ext λ x. elim (ℕ_discrete x p) [ yes e ↦ rw e (ground arith) | no ne ↦ ground arith ]

module _ (rcvdata : ℕ → Addr → Addr → Cmd Errno) (type_rcvdata : Addr → Option ℕ)
    (observed : List Call → List Addr) (listens : Listens rcvdata observed) where
  module _ (a p : Addr) (s : Sys) (can : CanReceive type_rcvdata p s)
      (alive : (s.data_at a).live ≡ true) (kept : 1 < (s.data_at a).da_refs) where
    abbrev ready : Sys
    ready = with_hook p (set_hook_refs ((s.hook p).hk_refs + 1)) s

    given_back :
        (t : Sys)
        → Heard observed p a ready t
        → Returns (hook_unref p t) (λ _ u. Heard observed p a s u)
    given_back t heard =
        rw
          (hook_unref-keep p t (ground (arith, ap (λ g. g p) heard.hooks, can.alive))
            (ground (arith, ap (λ g. g p) heard.hooks, can.held)))
          (record {
            hooks =
                ap (λ g. put g p (set_hook_refs ((g p).hk_refs - 1) (g p))) heard.hooks
                ∙ back s.hook p;
            nodes = heard.nodes;
            alive = heard.alive;
            refs = heard.refs;
            seen = heard.seen;
          })

    pass : Returns (data_passtohook rcvdata type_rcvdata a p s) (λ _ u. Heard observed p a s u)
    unfolding data_passtohook
    pass =
        elim (Option-cases
          (receiver_of (s.hook p).hk_rcvdata (type_rcvdata (s.node (s.hook p).hk_node).nd_type))) [
            | inl none_ ↦ absurd (can.receives none_)
            | inr (f, e) ↦
                rw (can.input, can.valid, e, hook_ref-ok p s can.alive can.few)
                  (Returns.bind (λ _ t. Heard observed p a ready t) _ (rcvdata f p a ready) _
                    (listens f p a ready alive kept)
                    (λ res t heard.
                      Returns.bind (λ _ u. Heard observed p a s u) _ (hook_unref p t) _
                        (given_back t heard) (λ _ u done. done)))
          ]

  module _ (a p : Addr) (s : Sys) (can : CanReceive type_rcvdata p s)
      (alive : (s.data_at a).live ≡ true) (some_refs : 1 ≤ (s.data_at a).da_refs)
      (few : (s.data_at a).da_refs < dmm_refnum_max) where
    abbrev referred : Sys
    referred = with_data a (λ d. record d { da_refs = (s.data_at a).da_refs + 1 }) s

    data_ref-ok : data_ref a s ≡ ok tt referred
    unfolding data_ref
    data_ref-ok = ground arith

    round :
        Returns
          ((data_ref a >> data_passtohook rcvdata type_rcvdata a p) s)
          (λ _ u. Delivered observed a (p ∷ []) s u)
    round = rw data_ref-ok (
        Returns.weaken (λ _ u. Heard observed p a referred u) _
          (data_passtohook rcvdata type_rcvdata a p referred)
          (pass a p referred (CanReceive-agree type_rcvdata p s referred refl refl can)
            (ground arith) (ground arith))
          (λ _ u heard. record {
            hooks = heard.hooks;
            nodes = heard.nodes;
            alive = heard.alive;
            refs = ground (arith, heard.refs);
            seen = heard.seen;
          }))

  pub loop :
      (fuel : ℕ) (a h : Addr) (peers ps : List Addr) (s : Sys)
      → (s.hook h).hk_peers ≡ peers
      → IsLinked peers ps
      → ((p : Addr) → 1 ≤ count p ps → CanReceive type_rcvdata p s)
      → (s.data_at a).live ≡ true
      → 1 ≤ (s.data_at a).da_refs
      → (s.data_at a).da_refs < dmm_refnum_max
      → length ps < fuel
      → Returns (send_peers rcvdata type_rcvdata fuel a h ps s) (λ _ t. Delivered observed a ps s t)
  unfolding send_peers count
  loop zero a h peers ps s e linked can alive some_refs few enough = absurd (omega (arith, enough))
  loop (suc fuel) a h peers [] s e linked can alive some_refs few enough = record {
    hooks = refl;
    nodes = refl;
    alive = alive;
    refs = refl;
    seen = refl;
  }
  loop (suc fuel) a h peers (p ∷ ps) s e linked can alive some_refs few enough =
      Returns.bind (λ _ u. Delivered observed a (p ∷ []) s u) _
        ((data_ref a >> data_passtohook rcvdata type_rcvdata a p) s) _
        (round a p s (can p (ground arith)) alive some_refs few)
        (λ _ u d.
          rw (ap (λ g. (g h).hk_peers) d.hooks ∙ e, linked.0)
            (Returns.weaken (λ _ t. Delivered observed a ps u t) _
              (send_peers rcvdata type_rcvdata fuel a h ps u)
              (loop fuel a h peers ps u (ap (λ g. (g h).hk_peers) d.hooks ∙ e) linked.1
                (λ q m.
                  CanReceive-agree type_rcvdata q s u (ap (λ g. g q) d.hooks) d.nodes
                    (can q (ground arith)))
                d.alive (rw d.refs some_refs) (rw d.refs few) (omega (arith, enough)))
              (λ _ t rest. record {
                hooks = rest.hooks ∙ d.hooks;
                nodes = rest.nodes ∙ d.nodes;
                alive = rest.alive;
                refs = rest.refs ∙ d.refs;
                seen = rest.seen ∙ ap (push_all ps) d.seen;
              })))

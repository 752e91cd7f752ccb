-- ===== src/Data/Send/Peers.antt =====
-- dmm_data_send in dmm_base.c: every peer of a hook receives the data.
use dimmon.Prelude.{
  ℕ, ◌+◌, ◌-◌, ◌≤◌, ◌<◌, ◌≡◌, ◌∙◌, refl, ap, true, false, Option, List, [], ◌∷◌, arith, length,
  count,
}
use native.Mathlib.Decide.{ℕ_discrete}
use dimmon.State.{Addr, Errno, Call, Sys, Cmd, with_hook, put}
use dimmon.State.Returns
use dimmon.State.Returns.{Returns}
use dimmon.Memman.{dmm_refnum_max}
use dimmon.Hook.{hook_unref, set_hook_refs, is_in}
use dimmon.Data.Objects.{behind, send_peers, data_send}
use dimmon.Data.Send.{IsLinked, Delivered, CanReceive, CanReceive-agree, Listens}
use dimmon.Data.Send.Rounds.{loop, hook_ref-ok, hook_unref-keep, back}

IsLinked-cons :
    (q : Addr) (peers ps : List Addr) → count q ps ≡ 0 → IsLinked peers ps → IsLinked (q ∷ peers) ps
unfolding behind count
IsLinked-cons q peers [] absent linked = tt
IsLinked-cons q peers (p ∷ ps) absent linked =
    (ground (arith, linked.0), IsLinked-cons q peers ps (ground arith) linked.1)

IsLinked-self : (peers : List Addr) → ((x : Addr) → count x peers ≤ 1) → IsLinked peers peers
unfolding behind count
IsLinked-self [] once = tt
IsLinked-self (p ∷ ps) once = (
  ground arith,
  IsLinked-cons p ps ps (ground (arith, once p)) (IsLinked-self ps (λ x. ground (arith, once x))),
)

-- The sender's output is none of the inputs.
input_other :
    (h p : Addr) (s : Sys)
    → is_in (s.hook h).hk_dir ≡ false
    → is_in (s.hook p).hk_dir ≡ true
    → (with_hook h (set_hook_refs ((s.hook h).hk_refs + 1)) s).hook p ≡ s.hook p
input_other h p s out input = elim (ℕ_discrete p h) [
  | yes e ↦ absurd (ground (arith, ap (λ x. is_in (s.hook x).hk_dir) e, out, input))
  | no ne ↦ ground arith
]

-- The end of a sending: the hook is released.
released :
    (observed : List Call → List Addr) (a h : Addr) (ps : List Addr) (s t : Sys)
    → (s.hook h).live ≡ true
    → 1 ≤ (s.hook h).hk_refs
    → Delivered observed a ps (with_hook h (set_hook_refs ((s.hook h).hk_refs + 1)) s) t
    → Returns (hook_unref h t) (λ _ u. Delivered observed a ps s u)
released observed a h ps s t alive held d =
    rw
      (hook_unref-keep h t (ground (arith, ap (λ g. g h) d.hooks, alive))
        (ground (arith, ap (λ g. g h) d.hooks, held)))
      (record {
        hooks = ap (λ g. put g h (set_hook_refs ((g h).hk_refs - 1) (g h))) d.hooks ∙ back s.hook h;
        nodes = d.nodes;
        alive = d.alive;
        refs = d.refs;
        seen = d.seen;
      })

-- Data that a node sends over a valid output is heard by every peer of the output, in the order of the
-- list and once, if all of them are able to receive and their receivers do nothing but give the
-- reference back. Then neither the hooks nor the references of the data have changed in the end, and
-- more rounds than peers are enough.
pub data_send-Delivered :
    (rcvdata : ℕ → Addr → Addr → Cmd Errno) (type_rcvdata : Addr → Option ℕ)
    (observed : List Call → List Addr) (fuel : ℕ) (a h : Addr) (s : Sys)
    → Listens rcvdata observed
    → is_in (s.hook h).hk_dir ≡ false
    → (s.hook h).hk_invalid ≡ false
    → (s.hook h).live ≡ true
    → 1 ≤ (s.hook h).hk_refs
    → (s.hook h).hk_refs < dmm_refnum_max
    → ((p : Addr) → count p (s.hook h).hk_peers ≤ 1)
    → ((p : Addr) → 1 ≤ count p (s.hook h).hk_peers → CanReceive type_rcvdata p s)
    → (s.data_at a).live ≡ true
    → 1 ≤ (s.data_at a).da_refs
    → (s.data_at a).da_refs < dmm_refnum_max
    → length (s.hook h).hk_peers < fuel
    → Returns
        (data_send rcvdata type_rcvdata fuel a h s)
        (λ _ t. Delivered observed a (s.hook h).hk_peers s t)
unfolding data_send
data_send-Delivered rcvdata type_rcvdata observed fuel a h s listens out valid alive_hook held
      few_hook once can alive some_refs few enough =
    let s' : Sys = with_hook h (set_hook_refs ((s.hook h).hk_refs + 1)) s in
    let e : (s'.hook h).hk_peers ≡ (s.hook h).hk_peers = ground arith in
    rw (out, valid, hook_ref-ok h s alive_hook few_hook)
      (Returns.bind (λ _ t. Delivered observed a (s.hook h).hk_peers s' t) _
        (send_peers rcvdata type_rcvdata fuel a h (s'.hook h).hk_peers s') _
        (rw e (
          loop rcvdata type_rcvdata observed listens fuel a h (s.hook h).hk_peers
            (s.hook h).hk_peers s' e (IsLinked-self (s.hook h).hk_peers once)
            (λ p m.
              CanReceive-agree type_rcvdata p s s' (input_other h p s out (can p m).input) refl
                (can p m))
            alive some_refs few enough))
        (λ _ t d. released observed a h (s.hook h).hk_peers s t alive_hook held d))

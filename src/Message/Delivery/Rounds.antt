-- ===== src/Message/Delivery/Rounds.antt =====
-- The rounds of dmm_event_sendsubscribed in dmm_event.c: one copy of the message for each subscription.
use dimmon.Prelude.{
  push_all, ℕ, zero, suc, ◌+◌, ◌-◌, ◌≤◌, ◌<◌, ◌≡◌, ◌≢◌, ◌∙◌, refl, ap, sym, fun_ext, true, false,
  ◌&&◌, not, Option, none, some, List, [], ◌∷◌, ◌==◌, arith, length, count, Option-cases,
  Bool-cases, inl, inr,
}
use native.Mathlib.Decide.{ℕ_discrete}
use dimmon.State.{Addr, Errno, Call, Node, Eventnode, Sys, ok, with_node, put, ◌>>◌, pure, and_then}
use dimmon.State.Cells.{nodes_of}
use dimmon.State.Returns
use dimmon.State.Returns.{Returns}
use dimmon.Node.{node_ref, node_unref, set_refs}
use dimmon.Node.Refs.{node_ref-ok, node_unref-keep}
use dimmon.Message.{Msg, msgtype_generic, msg_copy}
use dimmon.Message.Generic.{Receiver, Outcome}
use dimmon.Message.Send.{
  finish, msg_process_generic, msg_apply_with, msg_apply, msg_send_ref, send_copy, send_from,
}
use dimmon.Message.Delivery.{
  IsPassedOn, Passed, Heard, Listens, CanHear, CanHear-agree, valid_nodes, IsLinked,
}

-- A reference given back is as if it had not been taken.
back :
    (f : Addr → Node) (p : Addr)
    → (let g : Addr → Node = put f p (set_refs ((f p).nd_refs + 1) (f p)) in
        put g p (set_refs ((g p).nd_refs - 1) (g p)))
      ≡ f
back f p = fun_ext λ x. elim (ℕ_discrete x p) [ yes e ↦ rw e (ground arith) | no ne ↦ ground arith ]

push_all_valid :
    (node : Addr → Node) (c : Eventnode) (cs : List Eventnode) (l : List Addr)
    → push_all (valid_nodes node cs) (push_all (valid_nodes node (c ∷ [])) l)
      ≡ push_all (valid_nodes node (c ∷ cs)) l
push_all_valid node c cs l = elim (Bool-cases (node c.en_node).nd_invalid) [
  | inl h ↦ rw h refl
  | inr h ↦ rw h refl
]

module _ (receiver : Addr → Option Receiver) (observed : List Call → List Addr)
    (listens : Listens receiver observed) (m : Msg) (passed_on : IsPassedOn m) where
  abbrev passed : Errno → Outcome
  passed err = record { err = err; resp = none; freed = true }

  finish_passed :
      (o : Outcome) (s : Sys) → o.resp ≡ none → o.freed ≡ true → finish receiver m o s ≡ ok o.err s
  unfolding finish
  finish_passed o s no_resp freed = rw (no_resp, freed) refl

  -- The runtime's treatment of the command is the receiver's.
  process :
      (n : Addr) (s : Sys)
      → receiver (s.node n).nd_type ≢ none
      → 1 ≤ s.msgs
      → Returns (msg_process_generic receiver n m s) (λ _ t. Heard observed n s t)
  unfolding msg_process_generic
  process n s hears some_msgs = elim (Option-cases (receiver (s.node n).nd_type)) [
    | inl none_ ↦ absurd (hears none_)
    | inr (f, e) ↦
        rw (passed_on.2 (receiver (s.node n).nd_type) n s, e)
          (Returns.bind (λ o t. (o.resp ≡ none) × (o.freed ≡ true) × Heard observed n s t) _
            (and_then (f n m s) (λ err. pure (passed err))) (finish receiver m)
            (Returns.bind (λ _ t. Heard observed n s t) _ (f n m s) (λ err. pure (passed err))
              (listens (s.node n).nd_type f e n m s some_msgs) (λ err t heard. (refl, refl, heard)))
            (λ o t (no_resp, freed, heard). rw (finish_passed o t no_resp freed) heard))
  ]

  module _ (n : Addr) (s : Sys) (can : CanHear receiver n s) (valid : (s.node n).nd_invalid ≡ false)
      (some_msgs : 1 ≤ s.msgs) where
    abbrev referred : Sys
    referred = with_node n (set_refs ((s.node n).nd_refs + 1)) s

    given_back :
        (t : Sys)
        → Heard observed n referred t
        → Returns (node_unref n t) (λ _ u. Heard observed n s u)
    given_back t heard =
        rw
          (node_unref-keep n t (ground (arith, ap (λ g. g n) heard.nodes, can.alive))
            (ground (arith, ap (λ g. g n) heard.nodes, can.held)))
          (record {
            nodes =
                ap (λ g. put g n (set_refs ((g n).nd_refs - 1) (g n))) heard.nodes ∙ back s.node n;
            events = heard.events;
            mem = heard.mem;
            msgs = heard.msgs;
            seen = heard.seen;
          })

    apply :
        Returns
          (msg_apply_with receiver (msg_process_generic receiver) n m referred)
          (λ _ t. Heard observed n s t)
    unfolding msg_apply_with
    apply =
        let valid' : (referred.node n).nd_invalid ≡ false = ground (arith, valid) in
        let same_type : (referred.node n).nd_type ≡ (s.node n).nd_type = ground arith in
        let generic : (m.cm_type == msgtype_generic && not m.cm_resp) ≡ true =
          ground (arith, passed_on) in
        rw (valid', generic)
          (Returns.bind (λ _ t. Heard observed n referred t) _
            (msg_process_generic receiver n m referred) _
            (process n referred (rw same_type can.hears) some_msgs)
            (λ err t heard.
              Returns.bind (λ _ u. Heard observed n s u) _ (node_unref n t) _ (given_back t heard)
                (λ _ u done. done)))

    send : Returns ((node_ref n >> msg_send_ref receiver n m) s) (λ _ t. Heard observed n s t)
    unfolding msg_send_ref msg_apply
    send =
        let real : (n == 0) ≡ false = ground (arith, can.real) in
        rw (node_ref-ok n s can.alive can.few, real) apply

  abbrev copied : Sys → Sys
  copied s = record s { mallocs = suc s.mallocs; msgs = suc s.msgs }

  copy-ok : (s : Sys) → s.mem s.mallocs ≡ true → msg_copy m s ≡ ok (some m) (copied s)
  unfolding msg_copy
  copy-ok s room = ground arith

  round :
      (c : Eventnode) (s : Sys)
      → ((s.node c.en_node).nd_invalid ≡ false → CanHear receiver c.en_node s)
      → ((k : ℕ) → s.mem k ≡ true)
      → Returns
          (send_copy receiver c.en_node m s)
          (λ _ t. Passed observed (valid_nodes s.node (c ∷ [])) s t)
  unfolding send_copy
  round c s can room = elim (Bool-cases (s.node c.en_node).nd_invalid) [
    | inl h ↦ rw h (record { nodes = refl; events = refl; mem = refl; msgs = refl; seen = refl })
    | inr h ↦
        rw (h, copy-ok s (room s.mallocs))
          (Returns.bind (λ _ t. Heard observed c.en_node (copied s) t) _
            ((node_ref c.en_node >> msg_send_ref receiver c.en_node m) (copied s)) _
            (send c.en_node (copied s) (CanHear-agree receiver c.en_node s (copied s) refl (can h))
              h (omega arith))
            (λ _ t heard. record {
              nodes = heard.nodes;
              events = heard.events;
              mem = heard.mem;
              msgs = omega (arith, heard.msgs);
              seen = heard.seen;
            }))
  ]

  pub loop :
      (fuel : ℕ) (event : Addr) (queue cells : List Eventnode) (s : Sys)
      → (s.event event).ev_nodes ≡ queue
      → IsLinked queue cells
      → ((n : Addr)
          → 1 ≤ count n (nodes_of cells)
          → (s.node n).nd_invalid ≡ false
          → CanHear receiver n s)
      → ((k : ℕ) → s.mem k ≡ true)
      → length cells < fuel
      → Returns
          (send_from receiver fuel event cells m s)
          (λ _ t. Passed observed (valid_nodes s.node cells) s t)
  unfolding send_from count
  loop zero event queue cells s e linked can room enough = absurd (omega (arith, enough))
  loop (suc fuel) event queue [] s e linked can room enough = record {
    nodes = refl;
    events = refl;
    mem = refl;
    msgs = refl;
    seen = refl;
  }
  loop (suc fuel) event queue (c ∷ []) s e linked can room enough =
      round c s (can c.en_node (ground arith)) room
  loop (suc fuel) event queue (c ∷ d ∷ cs) s e linked can room enough =
      Returns.bind (λ _ u. Passed observed (valid_nodes s.node (c ∷ [])) s u) _
        (send_copy receiver c.en_node m s) _ (round c s (can c.en_node (ground arith)) room)
        (λ _ u p.
          rw (ap (λ g. (g event).ev_nodes) p.events ∙ e, linked.1.0)
            (Returns.weaken (λ _ t. Passed observed (valid_nodes u.node (d ∷ cs)) u t) _
              (send_from receiver fuel event (d ∷ cs) m u)
              (loop fuel event queue (d ∷ cs) u (ap (λ g. (g event).ev_nodes) p.events ∙ e) linked.1
                (λ n q valid.
                  CanHear-agree receiver n s u p.nodes
                    (can n (ground (arith, q)) (ap (λ g. (g n).nd_invalid) (sym p.nodes) ∙ valid)))
                (λ k. ap (λ g. g k) p.mem ∙ room k) (omega (arith, enough)))
              (λ _ t rest. record {
                nodes = rest.nodes ∙ p.nodes;
                events = rest.events ∙ p.events;
                mem = rest.mem ∙ p.mem;
                msgs = rest.msgs ∙ p.msgs;
                seen =
                    rest.seen
                    ∙ ap (λ g. push_all (valid_nodes g (d ∷ cs)) (observed u.calls)) p.nodes
                    ∙ ap (push_all (valid_nodes s.node (d ∷ cs))) p.seen
                    ∙ push_all_valid s.node c (d ∷ cs) (observed s.calls);
              })))

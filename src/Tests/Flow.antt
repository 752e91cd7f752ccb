-- ===== src/Tests/Flow.antt =====
-- The theorems on messages and data, applied to the sample.
use dimmon.Prelude.{
  ◌&&◌, if◌then◌else◌, suc, ap, sym, ◌∙◌, map, ℕ, ◌+◌, ◌-◌, ◌*◌, ◌≤◌, ◌<◌, ◌≡◌, ◌≢◌, refl, true,
  false, Option, none, some, List, [], ◌∷◌, arith, length, count,
}
use dimmon.State.{
  Addr, Errno, Call, rmhook_of, Cmd, Sys, ok, ◌>>◌, pure, call, with_hook, with_data,
}
use dimmon.State.Returns.{Returns}
use dimmon.Message.{Msg}
use dimmon.Message.Generic.{Receiver}
use dimmon.Message.{msg_free, generic_cmd}
use dimmon.Message.Generic.{process_cmd}
use dimmon.Message.Send.{event_sendsubscribed}
use dimmon.Message.Delivery.Subscribers.{Sent, event_sendsubscribed-Sent}
use dimmon.Data.Send.Peers.{data_send-Delivered}
use dimmon.Message.Delivery
use dimmon.Message.Delivery.{IsPassedOn, CanHear, valid_nodes}
use dimmon.Timer.Trigger.{trigger_msg}
use dimmon.State.Cells.{nodes_of}
use dimmon.Data.{Sample, fill_nodes, walk_nodes, datanode_size}
use dimmon.Data.Walk.{IsSendable, walk_nodes-fill_nodes}
use dimmon.Data.Objects.{data_unref, data_send, data_create_raw}
use dimmon.Data.Create.{data_create_raw-data_len}
use dimmon.Data.Send.{Listens, CanReceive, Delivered}
use dimmon.Tests.Sample.{sample}

abbrev pub samples : List Sample
samples =
    record { sensor = 7; values = 1 ∷ 2 ∷ 3 ∷ [] } ∷ record { sensor = 0; values = 4 ∷ [] } ∷ []

pub samples-IsSendable : IsSendable samples
samples-IsSendable = ground arith

walk_nodes-fill_nodes_example :
    walk_nodes (suc (length samples)) (fill_nodes (λ _. 255) 16 samples) 16 ≡ some samples
walk_nodes-fill_nodes_example = walk_nodes-fill_nodes samples (λ _. 255) 16 samples-IsSendable

data_create_raw-data_len_example :
    let new : Addr = suc sample.mallocs in
    Returns (data_create_raw 2 4 sample) (λ a t.
      ((x : Addr) → x ≢ new → t.data_at x ≡ sample.data_at x)
      × (if sample.mem sample.mallocs && sample.mem new
          then (a ≡ new)
            × ((t.data_at new).live ≡ true)
            × ((t.data_at new).da_nodes ≢ 0)
            × ((t.data_at new).da_len ≡ (2 + 1) * datanode_size + 4)
            × ((t.data_at new).da_refs ≡ 1)
          else (a ≡ 0) × ((t.data_at new).live ≡ true → (sample.data_at new).live ≡ true)))
data_create_raw-data_len_example = data_create_raw-data_len 2 4 sample (omega arith)

-- A receiver that leaves a mark in the calls.
abbrev pub hear : ℕ → Addr → Addr → Cmd Errno
hear f p a = do call (rmhook_of p); data_unref a; pure 0

abbrev pub marks : List Call → List Addr
marks [] = []
marks (rmhook_of p ∷ cs) = p ∷ marks cs
marks (_ ∷ cs) = marks cs

hear-ok :
    (f p a : Addr) (s : Sys)
    → (s.data_at a).live ≡ true
    → 1 < (s.data_at a).da_refs
    → hear f p a s
      ≡ ok 0 (
          with_data a
            (λ d. record d { da_refs = (s.data_at a).da_refs - 1 })
            (record s { calls = rmhook_of p ∷ s.calls }))
unfolding data_unref
hear-ok f p a s alive more = ground arith

pub hear-Listens : Listens hear marks
hear-Listens f p a s alive more = rw (hear-ok f p a s alive more) (record {
  hooks = refl;
  nodes = refl;
  alive = ground (arith, alive);
  refs = ground arith;
  seen = refl;
})

-- The output is connected to the input, and the node sends the data at 30.
abbrev pub sending : Sys
sending =
    with_data 30 (λ _. record { live = true; da_nodes = 31; da_len = 28; da_refs = 1 })
      (with_hook 5 (λ h. record h { hk_peers = 6 ∷ [] })
        (with_hook 6 (λ h. record h { hk_peers = 5 ∷ []; hk_rcvdata = some 1 }) sample))

pub can_receive :
    (p : Addr) → 1 ≤ count p (sending.hook 5).hk_peers → CanReceive (λ _. none) p sending
unfolding count
can_receive p h =
    let is_six : p ≡ 6 = ground (arith, h) in
    rw is_six (record {
      input = refl;
      valid = refl;
      alive = refl;
      held = ground arith;
      few = ground arith;
      receives = ground arith;
    })

pub once : (p : Addr) → count p (sending.hook 5).hk_peers ≤ 1
unfolding count
once p = ground arith

data_send-Delivered_example :
    Returns
      (data_send hear (λ _. none) 2 30 5 sending)
      (λ _ t. Delivered marks 30 (sending.hook 5).hk_peers sending t)
data_send-Delivered_example =
    data_send-Delivered hear (λ _. none) marks 2 30 5 sending hear-Listens refl refl refl
      (ground arith) (ground arith) once can_receive refl (ground arith) (ground arith)
      (ground arith)

-- A receiver of messages that leaves a mark in the calls.
abbrev attend : Addr → Msg → Cmd Errno
attend n m = do call (rmhook_of n); msg_free; pure 0

abbrev attentive : Addr → Option Receiver
attentive type = some attend

attend-ok :
    (n : Addr) (m : Msg) (s : Sys)
    → 1 ≤ s.msgs
    → attend n m s ≡ ok 0 (record s { calls = rmhook_of n ∷ s.calls; msgs = s.msgs - 1 })
unfolding msg_free
attend-ok n m s some_msgs = ground arith

attentive-Listens : Delivery.Listens attentive marks
attentive-Listens type f e n m s some_msgs =
    let run : f n m s ≡ attend n m s = ap (λ o. from o n m s) (sym e) in
    rw (run ∙ attend-ok n m s some_msgs)
      (record { nodes = refl; events = refl; mem = refl; msgs = omega arith; seen = refl })
  where
    from : Option Receiver → Receiver
    from none = attend
    from (some g) = g

trigger-IsPassedOn : IsPassedOn (trigger_msg 1)
unfolding process_cmd generic_cmd
trigger-IsPassedOn = (refl, refl, λ rcvmsg n s. refl)

abbrev triggered : Sys
triggered = record sample { msgs = 1 }

cells_once : (x : Addr) → count x (map (λ c. c.cell) (triggered.event 4).ev_nodes) ≤ 1
unfolding count
cells_once x = ground arith

can_hear :
    (n : Addr)
    → 1 ≤ count n (nodes_of (triggered.event 4).ev_nodes)
    → (triggered.node n).nd_invalid ≡ false
    → CanHear attentive n triggered
unfolding count
can_hear n h valid =
    let is_two : n ≡ 2 = ground (arith, h) in
    rw is_two (record {
      real = ground arith;
      alive = refl;
      held = ground arith;
      few = ground arith;
      hears = ground arith;
    })

event_sendsubscribed-Sent_example :
    Returns
      (event_sendsubscribed attentive 2 4 (trigger_msg 1) triggered)
      (λ _ t. Sent marks (valid_nodes triggered.node (triggered.event 4).ev_nodes) triggered t)
event_sendsubscribed-Sent_example =
    event_sendsubscribed-Sent attentive marks 2 4 (trigger_msg 1) triggered attentive-Listens
      trigger-IsPassedOn (λ k. refl) (ground arith) cells_once can_hear (ground arith)

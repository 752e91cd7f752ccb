-- ===== src/Message/Send.antt =====
-- dmm_base.c: the delivery of a control message to a node, directly or to all nodes subscribed to
-- an event (dmm_event.c). `receiver` gives for the address of a node type its `rcvmsg`, if it has
-- one.
use dimmon.Prelude.{
  ℕ, zero, suc, true, not, ◌&&◌, Option, none, some, List, [], ◌∷◌, ◌==◌, if◌then◌else◌,
}
use dimmon.State.{
  Addr, Errno, enoent, einval, Eventnode, Sys, Cmd, fault, ◌>>=◌, ◌>>◌, pure, skip, get, assert,
}
use dimmon.Node.{node_ref, node_unref}
use dimmon.Graph.{node_id2ref, node_addr2ref}
use dimmon.Message.{Msg, msgtype_generic, generic_cmd, msg_copy, msg_free}
use dimmon.Message.Generic.{Receiver, Outcome, process_cmd}

-- The cells behind a cell, and whether it is linked.
abbrev pub behind : Addr → List Eventnode → Option (List Eventnode)
behind cell [] = none
behind cell (c ∷ cs) = if c.cell == cell then some cs else behind cell cs

module _ (receiver : Addr → Option Receiver) where
  -- The receiver of a node.
  abbrev pub receiver_of : Addr → Sys → Option Receiver
  receiver_of node s = receiver (s.node node).nd_type

  -- A receiver is called; without one the message is not freed.
  abbrev pub deliver : Option Receiver → Addr → Msg → Cmd Errno
  deliver none node m = pure einval
  deliver (some rcvmsg) node m = rcvmsg node m

  -- dmm_msg_apply, with the treatment of generic commands as an argument.
  unfoldable pub msg_apply_with : (Addr → Msg → Cmd Errno) → Addr → Msg → Cmd Errno
  unfolding msg_free node_unref
  msg_apply_with generic node m = do
    s ← get
    if (s.node node).nd_invalid then (do msg_free; node_unref node; pure einval) else (do
      e ←
          (if m.cm_type == msgtype_generic && not m.cm_resp
            then generic node m
            else deliver (receiver_of node s) node m)
      node_unref node
      pure e)

  -- `dmm_msg_send_id` of a response. A response is never treated as a generic command. A message to
  -- an id that no node has is not freed.
  unfoldable pub send_resp : ℕ → Msg → Cmd Errno
  unfolding node_id2ref msg_apply_with
  send_resp dst m = do
    node ← node_id2ref dst
    if node == 0 then pure enoent else msg_apply_with (λ _ _ _. fault) node m

  -- The end of dmm_msg_process_generic: an error goes into the response, if there is one.
  unfoldable pub finish : Msg → Outcome → Cmd Errno
  unfolding send_resp msg_free
  finish m o = elim o.resp [
    | none ↦ do (if o.freed then skip else msg_free); pure o.err
    | some resp ↦
        (send_resp m.cm_src (if o.err == 0 then resp else record resp { cm_err = true }) >>= λ _. do
          (if o.freed then skip else msg_free)
          pure 0)
  ]

  unfoldable pub msg_process_generic : Addr → Msg → Cmd Errno
  unfolding finish process_cmd generic_cmd
  msg_process_generic node m = do
    s ← get
    o ← process_cmd (receiver_of node s) (generic_cmd m.cm_cmd) node m
    finish m o

  unfoldable pub msg_apply : Addr → Msg → Cmd Errno
  unfolding msg_apply_with msg_process_generic
  msg_apply = msg_apply_with msg_process_generic

  unfoldable pub msg_send_ref : Addr → Msg → Cmd Errno
  unfolding msg_apply
  msg_send_ref node m = do assert (not (node == 0)); msg_apply node m

  unfoldable pub msg_send_id : ℕ → Msg → Cmd Errno
  unfolding node_id2ref msg_send_ref
  msg_send_id dst m = do
    node ← node_id2ref dst
    if node == 0 then pure enoent else msg_send_ref node m

  unfoldable pub msg_send_addr : List ℕ → Msg → Cmd Errno
  unfolding node_addr2ref msg_send_ref
  msg_send_addr addr m = do
    node ← node_addr2ref addr
    if node == 0 then pure enoent else msg_send_ref node m

  -- One round of dmm_event_sendsubscribed.
  unfoldable pub send_copy : Addr → Msg → Cmd (Unit {0})
  unfolding msg_copy node_ref msg_send_ref
  send_copy node m = do
    s ← get
    if (s.node node).nd_invalid then skip else do
      r ← msg_copy m
      elim r [ none ↦ skip | some copy ↦ (node_ref node >> msg_send_ref node copy >>= λ _. skip) ]

  -- TAILQ_FOREACH_SAFE: the next cell is read before the round, and must still be linked after it.
  -- Without fuel it is a fault.
  unfoldable pub send_from : ℕ → Addr → List Eventnode → Msg → Cmd (Unit {0})
  unfolding send_copy
  send_from zero event cs m = λ _. fault
  send_from (suc fuel) event [] m = skip
  send_from (suc fuel) event (c ∷ []) m = send_copy c.en_node m
  send_from (suc fuel) event (c ∷ d ∷ cs) m = send_copy c.en_node m >>= λ _. λ s.
      elim (behind d.cell (s.event event).ev_nodes) [
        | none ↦ fault
        | some rest ↦ send_from fuel event (d ∷ rest) m s
      ]

  unfoldable pub event_sendsubscribed : ℕ → Addr → Msg → Cmd (Unit {0})
  unfolding send_from msg_free
  event_sendsubscribed fuel event m = do
    s ← get
    send_from fuel event (s.event event).ev_nodes m
    msg_free

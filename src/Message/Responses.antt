-- ===== src/Message/Responses.antt =====
-- dmm_msg_apply in dmm_base.c: a response is left to the node itself, so that carrying out a command and
-- answering it ends.
use dimmon.Prelude.{
  ℕ, ◌≡◌, refl, ap, true, false, ◌&&◌, not, Option, Bool-cases, inl, inr, ◌==◌, if◌then◌else◌,
  arith,
}
use dimmon.State.{Addr, Sys, Errno, Cmd, Run, ok, fault, and_then, pure, enoent}
use dimmon.Graph.{node_id2ref}
use dimmon.Message.{Msg, msgtype_generic}
use dimmon.Message.Generic.{Receiver}
use dimmon.Message.Send.{
  msg_apply_with, msg_apply, send_resp, msg_send_ref, msg_send_id, msg_process_generic,
}

module _ (receiver : Addr → Option Receiver) where
  -- What is done with generic commands makes no difference to another message.
  apply_other :
      (f g : Addr → Msg → Cmd Errno) (node : Addr) (m : Msg)
      → (m.cm_type == msgtype_generic && not m.cm_resp) ≡ false
      → msg_apply_with receiver f node m ≡ msg_apply_with receiver g node m
  unfolding msg_apply_with
  apply_other f g node m other = rw other refl

  reach :
      (m : Msg) (r : Run Addr)
      → m.cm_resp ≡ true
      → and_then r (λ node.
        if node == 0 then pure enoent else msg_apply_with receiver (λ _ _ _. fault) node m)
        ≡ and_then r (λ node. if node == 0 then pure enoent else msg_send_ref receiver node m)
  unfolding msg_send_ref msg_apply
  reach m fault resp = refl
  reach m (ok a s) resp = elim (Bool-cases (a == 0)) [
    | inl h ↦ rw h refl
    | inr h ↦ rw h (
        ap (λ run. run s)
          (apply_other (λ _ _ _. fault) (msg_process_generic receiver) a m (ground arith)))
  ]

-- A response is delivered in the same way whatever is done with generic commands, and the way in
-- which the runtime sends its responses is that of any message to an id.
pub send_resp-msg_send_id :
    (receiver : Addr → Option Receiver) (dst : ℕ) (m : Msg) (s : Sys)
    → m.cm_resp ≡ true
    → send_resp receiver dst m s ≡ msg_send_id receiver dst m s
unfolding send_resp msg_send_id
send_resp-msg_send_id receiver dst m s resp = reach receiver m (node_id2ref dst s) resp

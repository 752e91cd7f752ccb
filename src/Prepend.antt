-- ===== src/Prepend.antt =====
-- modules/prepend/prepend.c: a node that puts a data node of its own in front of the data that it passes
-- on. `blocks` are the contents of the objects that hold data, and the block of the data node is its
-- content.
pub mod Front
use dimmon.Prelude.{
  ℕ, ◌+◌, ◌-◌, Bool, true, false, not, ◌&&◌, Option, none, some, List, [], ◌∷◌, ◌==◌, if◌then◌else◌,
  length,
}
use dimmon.State.{
  Addr, Errno, enomem, einval, enotsup, Cmd, fault, ◌>>=◌, ◌>>◌, pure, skip, get, put, malloc,
}
use dimmon.Hook.{is_in, strneq, hook_name_size}
use dimmon.Data.{Block, Sample, load_bytes, store_bytes, datanode_size, dn_fill}
use dimmon.Data.Objects.{data_unref, data_create_raw, data_send}
use dimmon.Message.{Content, Msg, msg_create_resp, msg_free}
use dimmon.Message.Generic.{Receiver}
use dimmon.Message.Send.{send_resp}

-- struct pvt_data: the data node, if there is one, and the output hook, 0 for NULL.
pub record Prepend : Type 0 where
  pub dn : Option Sample
  pub outhook : Addr

abbrev pub prepend_init : Prepend
prepend_init = record { dn = none; outhook = 0 }

abbrev pub in_name : List ℕ
in_name = b'i' ∷ b'n' ∷ []

abbrev pub out_name : List ℕ
out_name = b'o' ∷ b'u' ∷ b't' ∷ []

unfoldable pub prepend_newhook : Prepend → Addr → Cmd (Prepend × Errno)
unfolding strneq
prepend_newhook p hook = do
  s ← get
  let input : Bool = is_in (s.hook hook).hk_dir
  if not (strneq hook_name_size (s.hook hook).hk_name (if input then in_name else out_name))
      then pure (p, einval)
      else pure (if input then p else record p { outhook = hook }, 0)

unfoldable pub prepend_rmhook : Prepend → Addr → Cmd Prepend
prepend_rmhook p hook = do
  s ← get
  pure (if is_in (s.hook hook).hk_dir then p else record p { outhook = 0 })

-- The content of the new object: the data node, and behind it the whole block of the old object.
unfoldable pub prepend_nodes : Block → Sample → Block → ℕ → Block
unfolding store_bytes load_bytes
prepend_nodes new x old da_len =
    store_bytes (dn_fill new 0 x.sensor x.values) (datanode_size + length x.values)
      (load_bytes old 0 da_len)

module _ (rcvdata : ℕ → Addr → Addr → Cmd Errno) (type_rcvdata : Addr → Option ℕ) (fuel : ℕ) where
  -- Data that is passed on behind the data node. The length without the end and with the data node is
  -- asked for.
  unfoldable pub prepend_node : Addr → Sample → (Addr → Block) → Addr → Cmd ((Addr → Block) × Errno)
  unfolding data_create_raw prepend_nodes data_send data_unref
  prepend_node outhook x blocks data' = do
    s ← get
    let da_len : ℕ = (s.data_at data').da_len
    newdata ← data_create_raw 0 (da_len + (datanode_size + length x.values) - datanode_size)
    if newdata == 0 then pure (blocks, enomem) else (do
      let filled : Addr → Block =
          put blocks newdata (prepend_nodes (blocks newdata) x (blocks data') da_len)
      data_send rcvdata type_rcvdata fuel newdata outhook
      data_unref newdata
      pure (filled, 0))

  unfoldable pub prepend_rcvdata : Prepend → (Addr → Block) → Addr → Cmd ((Addr → Block) × Errno)
  unfolding prepend_node data_send data_unref
  prepend_rcvdata p blocks data' = do
    r ←
        (if p.outhook == 0 then pure (blocks, 0) else elim p.dn [
          | none ↦ do data_send rcvdata type_rcvdata fuel data' p.outhook; pure (blocks, 0)
          | some x ↦ prepend_node p.outhook x blocks data'
        ])
    data_unref data'
    pure r

abbrev pub msgtype_prepend : ℕ
msgtype_prepend = 0x8ed9b58c

module _ (receiver : Addr → Option Receiver) where
  -- CREATE_SEND_EMPTY_RESP. An error is marked in the message that is answered, which the receiver of
  -- the response does not see.
  unfoldable pub send_empty_resp : ℕ → Msg → Errno → Cmd Errno
  unfolding msg_create_resp send_resp
  send_empty_resp id m err = do
    r ← msg_create_resp id m Content.empty
    elim r [
      | none ↦ pure (if err == 0 then enomem else err)
      | some resp ↦ do e ← send_resp receiver m.cm_src resp; pure err
    ]

  unfoldable pub prepend_set : Prepend → ℕ → Msg → Content → Cmd (Prepend × Errno)
  unfolding malloc send_empty_resp
  prepend_set p id m (Content.datanode sensor values) = do
    dn ← malloc
    let failed : Bool = dn == 0
    err ← send_empty_resp id m (if failed then enomem else 0)
    pure (
      record p { dn = if failed then none else some (record { sensor = sensor; values = values }) },
      err,
    )
  prepend_set p id m _ = λ _. fault

  unfoldable pub prepend_clear : Prepend → ℕ → Msg → Cmd (Prepend × Errno)
  unfolding send_empty_resp
  prepend_clear p id m = do err ← send_empty_resp id m 0; pure (record p { dn = none }, err)

  -- A response is not freed.
  unfoldable pub prepend_rcvmsg : Prepend → Addr → Msg → Cmd (Prepend × Errno)
  unfolding prepend_set prepend_clear msg_free
  prepend_rcvmsg p node m = if m.cm_resp then pure (p, 0) else (do
    s ← get
    r ←
        (if not (m.cm_type == msgtype_prepend)
          then pure (p, enotsup)
          else if m.cm_cmd == 1
          then prepend_set p (s.node node).nd_id m m.cm_data
          else if m.cm_cmd == 3
          then prepend_clear p (s.node node).nd_id m
          else pure (p, enotsup))
    msg_free
    pure r)

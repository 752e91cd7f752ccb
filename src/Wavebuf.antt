-- ===== src/Wavebuf.antt =====
-- modules/wavebuf/wavebuf.c and modules/blackhole/blackhole.c: a node that keeps the data of a wave and
-- sends it as one block when the wave ends, and a node that discards data. `blocks` are the contents of
-- the objects that hold data.
pub mod Merge
pub mod Drain
pub mod Release
pub mod Flush
use dimmon.Prelude.{
  ℕ, zero, suc, ◌+◌, Bool, true, false, not, ◌&&◌, Option, none, some, List, [], ◌∷◌, ◌++◌, ◌==◌,
  if◌then◌else◌,
}
use dimmon.State.{
  Addr, Errno, enomem, einval, enotsup, Cmd, fault, ◌>>=◌, ◌>>◌, pure, skip, get, put, malloc,
}
use dimmon.Hook.{is_in, strneq, hook_name_size}
use dimmon.Data.{Block, load_bytes, store_bytes, dn_isend, dn_next, dn_mkend}
use dimmon.Data.Objects.{data_unref, data_create_raw, data_send}
use dimmon.Message.{Content, Msg, msgtype_generic, cmd_wavefinish, msg_create, msg_free}
use dimmon.Message.Generic.{Receiver}
use dimmon.Message.Send.{msg_send_id}

abbrev pub Blocks : Type 0
Blocks = Addr → Block

-- struct pvt_data: the output hook, 0 for NULL, and the data in the order of arrival.
pub record Wavebuf : Type 0 where
  pub out_hook : Addr
  pub databuf : List Addr

abbrev pub out_name : List ℕ
out_name = b'o' ∷ b'u' ∷ b't' ∷ []

-- The constructor of the type, for a node with memory for its data.
abbrev pub wavebuf_init : Wavebuf
wavebuf_init = record { out_hook = 0; databuf = [] }

unfoldable pub wavebuf_newhook : Wavebuf → Addr → Cmd (Wavebuf × Errno)
unfolding strneq
wavebuf_newhook w hook = do
  s ← get
  if is_in (s.hook hook).hk_dir
      then pure (w, 0)
      else if strneq hook_name_size (s.hook hook).hk_name out_name
      then pure (record w { out_hook = hook }, 0)
      else pure (w, einval)

-- It is called for every hook, inputs too.
abbrev pub wavebuf_rmhook : Wavebuf → Wavebuf
wavebuf_rmhook w = record w { out_hook = 0 }

-- The place of the end of the data nodes; `none` when the fuel is used up.
unfoldable pub end_of : ℕ → Block → ℕ → Option ℕ
end_of zero b node = none
end_of (suc fuel) b node =
    let rest = end_of fuel b (dn_next b node) in if dn_isend b node then some node else rest

-- `dnsumlen` of each data in the buffer.
abbrev pub add_length : Addr → Option ℕ → Option (List (Addr × ℕ)) → Option (List (Addr × ℕ))
add_length a none rest = none
add_length a (some dnsumlen) none = none
add_length a (some dnsumlen) (some rest) = some ((a, dnsumlen) ∷ rest)

unfoldable pub sum_lengths : ℕ → Blocks → List Addr → Option (List (Addr × ℕ))
unfolding end_of
sum_lengths fuel blocks [] = some []
sum_lengths fuel blocks (a ∷ as') =
    add_length a (end_of fuel (blocks a) 0) (sum_lengths fuel blocks as')

abbrev pub total_length : List (Addr × ℕ) → ℕ
total_length [] = 0
total_length ((a, dnsumlen) ∷ rest) = dnsumlen + total_length rest

-- memcpy of the data nodes of one object behind those of another.
abbrev pub append_nodes : Blocks → Addr → ℕ → Addr → ℕ → Blocks
append_nodes blocks data' node a dnsumlen =
    put blocks data' (store_bytes (blocks data') node (load_bytes (blocks a) 0 dnsumlen))

-- The loop that empties the buffer; `data'` is NULL when nothing is sent. Its result are the place
-- behind the data nodes and the contents.
unfoldable pub drain : Addr → ℕ → Blocks → List (Addr × ℕ) → Cmd (ℕ × Blocks)
unfolding data_unref store_bytes load_bytes
drain data' node blocks [] = pure (node, blocks)
drain data' node blocks ((a, dnsumlen) ∷ rest) =
    data_unref a
    >> drain data' (node + dnsumlen)
        (if data' == 0 then blocks else append_nodes blocks data' node a dnsumlen) rest

-- The buffer as one object, which is NULL without an output hook or without memory.
unfoldable pub collect : Addr → Blocks → List (Addr × ℕ) → Cmd (Addr × Blocks)
unfolding data_create_raw drain
collect out_hook blocks parts = do
  data' ← (if out_hook == 0 then pure 0 else data_create_raw 0 (total_length parts))
  (node, filled) ← drain data' 0 blocks parts
  pure (data', if data' == 0 then filled else put filled data' (dn_mkend (filled data') node))

module _ (receiver : Addr → Option Receiver) where
  abbrev wavefinishsubscribe_msg : ℕ → Msg
  wavefinishsubscribe_msg id = record {
    cm_src = id;
    cm_cmd = 101;
    cm_type = msgtype_generic;
    cm_token = 0;
    cm_resp = false;
    cm_err = false;
    cm_data = Content.empty;
  }

  -- With the first data of a wave, the node asks for the end of the wave.
  unfoldable pub wavebuf_rcvdata : Wavebuf → Addr → Addr → Cmd (Wavebuf × Errno)
  unfolding malloc data_unref msg_create msg_send_id
  wavebuf_rcvdata w hook data' = do
    dl ← malloc
    if dl == 0 then (do data_unref data'; pure (w, enomem)) else elim w.databuf [
      | a ∷ as' ↦ pure (record w { databuf = w.databuf ++ data' ∷ [] }, 0)
      | [] ↦ do
        s ← get
        let id : ℕ = (s.node (s.hook hook).hk_node).nd_id
        r ← msg_create (wavefinishsubscribe_msg id)
        elim r [
          | none ↦ do data_unref data'; pure (w, enomem)
          | some m ↦ do err ← msg_send_id receiver id m; pure (record w { databuf = data' ∷ [] }, 0)
        ]
    ]

module _ (rcvdata : ℕ → Addr → Addr → Cmd Errno) (type_rcvdata : Addr → Option ℕ) where
  -- The collected data is sent and released; without it the result is ENOMEM.
  unfoldable pub send_collected : ℕ → Wavebuf → Addr × Blocks → Cmd ((Wavebuf × Blocks) × Errno)
  unfolding data_send data_unref
  send_collected fuel w (data', filled) = do
    (if data' == 0
        then skip
        else (do data_send rcvdata type_rcvdata fuel data' w.out_hook; data_unref data'))
    pure ((record w { databuf = [] }, filled), if data' == 0 then enomem else 0)

  abbrev pub flush_parts :
      ℕ → Wavebuf → Blocks → Option (List (Addr × ℕ)) → Cmd ((Wavebuf × Blocks) × Errno)
  flush_parts fuel w blocks none = λ _. fault
  flush_parts fuel w blocks (some parts) =
      collect w.out_hook blocks parts >>= λ r. send_collected fuel w r

  -- The end of the wave: what is buffered is sent, and the buffer is empty in any case.
  unfoldable pub flush : ℕ → Wavebuf → Blocks → Cmd ((Wavebuf × Blocks) × Errno)
  unfolding sum_lengths collect send_collected
  flush fuel w blocks = flush_parts fuel w blocks (sum_lengths fuel blocks w.databuf)

  unfoldable pub wavebuf_rcvmsg : ℕ → Wavebuf → Blocks → Msg → Cmd ((Wavebuf × Blocks) × Errno)
  unfolding flush msg_free
  wavebuf_rcvmsg fuel w blocks m = do
    r ←
        (if m.cm_resp
          then pure ((w, blocks), 0)
          else if not (m.cm_type == msgtype_generic && m.cm_cmd == cmd_wavefinish)
          then pure ((w, blocks), enotsup)
          else flush fuel w blocks)
    msg_free
    pure r

-- modules/blackhole/blackhole.c.
abbrev pub blackhole_newhook : Addr → Cmd Errno
blackhole_newhook hook = do s ← get; pure (if is_in (s.hook hook).hk_dir then 0 else einval)

unfoldable pub blackhole_rcvdata : Addr → Addr → Cmd Errno
unfolding data_unref
blackhole_rcvdata hook data' = do data_unref data'; pure 0

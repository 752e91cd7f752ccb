-- ===== src/Netip/Recv.antt =====
-- modules/net/ip/recv.c: the node that receives data from its socket. The system's calls are given by
-- their results, and `blocks` are the contents of the objects that hold data.
use dimmon.Prelude.{
  ℕ, ◌+◌, Bool, not, Option, none, some, List, [], ◌∷◌, ◌++◌, ◌==◌, if◌then◌else◌, length, ltb,
}
use dimmon.State.{
  Addr, Errno, einval, eexist, enomem, Cmd, fault, ◌>>=◌, ◌>>◌, pure, assert, get, put, malloc,
}
use dimmon.Hook.{is_in}
use dimmon.Sockevent.{bit}
use dimmon.Data.{Block, Sample, store_bytes, load_bytes, dn_fill, datanode_size}
use dimmon.Data.Objects.{data_create_raw, data_send, data_unref}
use dimmon.Wavebuf.{Blocks}
use dimmon.Netip.{valid, invalid, no_fuel, check_data_valid}

-- struct pvt_data; `fd` is none for -1, and `outhook` 0 for NULL. `buf` is the content of the buffer.
pub record NetRecv : Type 0 where
  pub fd : Option ℕ
  pub outhook : Addr
  pub flags : ℕ
  pub buf : Block
  pub buflen : ℕ

-- The bits of the flags: DMM_NETIPRECV_NOCHECKDATA and the others.
abbrev pub nocheckdata : ℕ
nocheckdata = 0

abbrev pub prependaddr : ℕ
prependaddr = 1

abbrev pub prependtimestamp : ℕ
prependtimestamp = 1

abbrev pub hassock : ℕ
hassock = 31

abbrev pub bound : ℕ
bound = 30

-- recv_ctor: the private structure and the buffer, and an error when one of them cannot be had.
unfoldable pub recv_ctor : ℕ → Block → Cmd (Option NetRecv)
unfolding malloc
recv_ctor defaultbuflen buf = do
  p ← malloc
  if p == 0 then pure none else (do
    b ← malloc
    pure (
        if b == 0
        then none
        else some
            (record { fd = none; outhook = 0; flags = 0; buf = buf; buflen = defaultbuflen })))

unfoldable pub recv_newhook : NetRecv → Addr → Cmd (NetRecv × Errno)
recv_newhook n hook = do
  s ← get
  pure (
      if is_in (s.hook hook).hk_dir
      then (n, einval)
      else if not (n.outhook == 0)
      then (n, eexist)
      else (record n { outhook = hook }, 0))

unfoldable pub recv_rmhook : NetRecv → Addr → Cmd NetRecv
recv_rmhook n hook = do assert (hook == n.outhook); pure (record n { outhook = 0 })

-- What goes in front of the data by the flags: the address of the sender and the time.
abbrev pub srchost : ℕ
srchost = 100

abbrev pub rcvdtimestamp : ℕ
rcvdtimestamp = 101

abbrev pub only_if : Bool → Sample → List Sample
only_if c x = if c then x ∷ [] else []

unfoldable pub prepended : ℕ → List ℕ → List ℕ → List Sample
prepended flags addr now =
    only_if (bit flags prependaddr) (record { sensor = srchost; values = addr })
    ++ only_if (bit flags prependtimestamp) (record { sensor = rcvdtimestamp; values = now })

-- DMM_DN_FILL_ADVANCE for each of them, and memcpy of what was received.
unfoldable pub recv_nodes : Block → ℕ → List Sample → Block → ℕ → Block
unfolding store_bytes load_bytes
recv_nodes b dn [] buf received = store_bytes b dn (load_bytes buf 0 received)
recv_nodes b dn (x ∷ xs) buf received =
    recv_nodes (dn_fill b dn x.sensor x.values) (dn + (datanode_size + length x.values)) xs buf
      received

abbrev pub values_size : List Sample → ℕ
values_size [] = 0
values_size (x ∷ xs) = length x.values + values_size xs

module _ (rcvdata : ℕ → Addr → Addr → Cmd Errno) (type_rcvdata : Addr → Option ℕ)
    (recvmsg : Option ℕ → Block → ℕ → Option (ℕ × Block × List ℕ)) (now : List ℕ) (fuel : ℕ) where
  -- What was received goes to the output hook, if there is one.
  unfoldable pub recv_pass : NetRecv → ℕ → List ℕ → Blocks → Cmd (Blocks × Errno)
  unfolding prepended recv_nodes data_create_raw data_send data_unref
  recv_pass n received addr blocks = if n.outhook == 0 then pure (blocks, 0) else (do
    let front : List Sample = prepended n.flags addr now
    data' ← data_create_raw (length front) (received + values_size front)
    if data' == 0 then pure (blocks, enomem) else (do
      let filled : Blocks = put blocks data' (recv_nodes (blocks data') 0 front n.buf received)
      (data_send rcvdata type_rcvdata fuel data' n.outhook >> data_unref data')
      pure (filled, 0)))

  -- The check is not made with DMM_NETIPRECV_NOCHECKDATA, and then the data is dropped. A check that does
  -- not end is a fault.
  unfoldable pub recv_checked : NetRecv → ℕ → List ℕ → Blocks → Cmd (Blocks × Errno)
  unfolding check_data_valid recv_pass
  recv_checked n received addr blocks =
      if bit n.flags nocheckdata
      then pure (blocks, 0)
      else elim (check_data_valid fuel n.buf received) [
        | valid ↦ recv_pass n received addr blocks
        | invalid ↦ pure (blocks, 0)
        | no_fuel ↦ λ _. fault
      ]

  unfoldable pub process_socket_event : NetRecv → ℕ → Blocks → Cmd (NetRecv × Blocks × Errno)
  unfolding recv_checked
  process_socket_event n events blocks =
      if ltb 1 events then pure (n, blocks, einval) else elim (recvmsg n.fd n.buf n.buflen) [
        | none ↦ pure (n, blocks, 0)
        | some (received, buf, addr) ↦ do
          let n' : NetRecv = record n { buf = buf }
          (blocks', err) ← recv_checked n' received addr blocks
          pure (n', blocks', err)
      ]

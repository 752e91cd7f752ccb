-- ===== src/Sensors.antt =====
-- modules/sensors: nodes that measure something at each trigger of a timer and send it. Here what they
-- share, and the two that read no file, dummy/dummy.c and edac/edac.c. The state of such a node is its
-- output hook, 0 for NULL.
pub mod Scan
pub mod Sending
pub mod Memory
pub mod Ifdata
pub mod Cpuload
use dimmon.Prelude.{
  ℕ, zero, suc, ◌+◌, ◌-◌, ◌^◌, ◌*◌, ◌/◌, ◌%◌, Bool, true, false, not, ◌&&◌, ◌||◌, Option, List, [],
  ◌∷◌, ◌==◌, if◌then◌else◌,
}
use dimmon.State.{
  Addr, Errno, einval, eexist, enomem, enotsup, Cmd, fault, ◌>>=◌, ◌>>◌, pure, get, put, malloc,
}
use dimmon.Hook.{is_in, strneq, hook_name_size}
use dimmon.Data.{Block, Sample, fill_nodes}
use dimmon.Data.Objects.{data_create_raw, data_send, data_unref}
use dimmon.Message.{Msg, msgtype_generic, cmd_timertrigger, msg_free}
use dimmon.Wavebuf.{Blocks}

abbrev pub out_name : List ℕ
out_name = b'o' ∷ b'u' ∷ b't' ∷ []

-- newhook of cpuload, memory and ifdata.
unfoldable pub named_newhook : Addr → Addr → Cmd (Addr × Errno)
unfolding strneq
named_newhook old hook = do
  s ← get
  pure (
      if is_in (s.hook hook).hk_dir || not (strneq hook_name_size out_name (s.hook hook).hk_name)
      then (old, einval)
      else (hook, 0))

-- newhook of dummy and edac.
unfoldable pub single_newhook : Addr → Addr → Cmd (Addr × Errno)
single_newhook old hook = do
  s ← get
  pure (
      if is_in (s.hook hook).hk_dir
      then (old, einval)
      else if not (old == 0)
      then (old, eexist)
      else (hook, 0))

-- The constructors of dummy and edac. Without the library of edac the result is -1.
unfoldable pub dummy_ctor : Cmd Errno
unfolding malloc
dummy_ctor = do p ← malloc; pure (if p == 0 then enomem else 0)

abbrev pub minus_one : Errno
minus_one = 2 ^ 32 - 1

unfoldable pub edac_ctor : Bool → Bool → Cmd Errno
unfolding malloc
edac_ctor handle initialized = do
  p ← malloc
  pure (if p == 0 then enomem else if handle && initialized then 0 else minus_one)

-- rmhook of all but ifdata, whose rmhook leaves the pointer to the removed hook.
abbrev pub sensor_rmhook : Addr → Addr → Addr
sensor_rmhook old hook = 0

abbrev pub ifdata_rmhook : Addr → Addr → Addr
ifdata_rmhook old hook = hook

-- rcvmsg of all but ifdata: only the trigger of a timer is accepted.
unfoldable pub sensor_rcvmsg : Cmd (Blocks × Errno) → Blocks → Msg → Cmd (Blocks × Errno)
unfolding msg_free
sensor_rcvmsg process blocks m = do
  r ←
      (if m.cm_type == msgtype_generic && m.cm_cmd == cmd_timertrigger
        then process
        else pure (blocks, enotsup))
  msg_free
  pure r

-- The bytes of a number in memory, the least first.
abbrev pub le_bytes : ℕ → ℕ → List ℕ
le_bytes zero v = []
le_bytes (suc n) v = v % 256 ∷ le_bytes n (v / 256)

abbrev pub edac_mc_count : ℕ
edac_mc_count = 200

abbrev pub reading : ℕ → ℕ → Sample
reading sensor v = record { sensor = sensor; values = le_bytes 8 v }

module _ (rcvdata : ℕ → Addr → Addr → Cmd Errno) (type_rcvdata : Addr → Option ℕ) (fuel : ℕ) where
  -- What is filled in is sent and released.
  unfoldable pub send_block : Addr → Blocks → Addr → Block → Cmd (Blocks × Errno)
  unfolding data_send data_unref
  send_block hook blocks data' b =
      (data_send rcvdata type_rcvdata fuel data' hook >> data_unref data')
      >> pure (put blocks data' b, 0)

  -- DMM_DATA_CREATE, data nodes that are filled in, and their sending.
  unfoldable pub send_samples : Addr → ℕ → ℕ → List Sample → Blocks → Cmd (Blocks × Errno)
  unfolding data_create_raw fill_nodes send_block
  send_samples hook numnodes len xs blocks = do
    data' ← data_create_raw numnodes (numnodes * len)
    if data' == 0
        then pure (blocks, enomem)
        else send_block hook blocks data' (fill_nodes (blocks data') 0 xs)

  -- process_timer_msg of dummy: an object without data nodes. It is written to even if there is none.
  unfoldable pub dummy_process : Addr → Blocks → Cmd (Blocks × Errno)
  unfolding data_create_raw fill_nodes send_block
  dummy_process hook blocks = if hook == 0 then pure (blocks, 0) else (do
    data' ← data_create_raw 0 0
    if data' == 0
        then (λ _. fault)
        else send_block hook blocks data' (fill_nodes (blocks data') 0 []))

  -- process_timer_msg of edac: the number of controllers and the totals, as the library of edac gives
  -- them.
  unfoldable pub edac_process : ℕ → ℕ → ℕ → ℕ → Addr → Blocks → Cmd (Blocks × Errno)
  unfolding send_samples
  edac_process mc_count ce_total ue_total pci_parity_total hook blocks =
      if hook == 0
      then pure (blocks, 0)
      else send_samples hook 4 8
          (reading edac_mc_count mc_count
            ∷ reading (edac_mc_count + 1) ce_total
            ∷ reading (edac_mc_count + 2) ue_total
            ∷ reading (edac_mc_count + 3) pci_parity_total
            ∷ [])
          blocks

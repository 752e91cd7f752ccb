-- ===== src/Sensors/Cpuload/Node.antt =====
-- modules/sensors/cpuload/cpuload.c: the node, its output, and what it does at the trigger of a timer.
use dimmon.Prelude.{
  ℕ, suc, ◌*◌, true, false, not, ◌&&◌, Option, none, some, List, ◌==◌, if◌then◌else◌,
}
use dimmon.State.{Addr, Errno, enomem, einval, enotsup, Cmd, fault, ◌>>=◌, ◌>>◌, pure, malloc}
use dimmon.Data.{Sample, fill_nodes}
use dimmon.Data.Objects.{data_create_raw, data_unref}
use dimmon.Wavebuf.{Blocks}
use dimmon.Message.{Msg, msgtype_generic, cmd_timertrigger, msg_free}
use dimmon.Sensors.{send_block, named_newhook}
use dimmon.Sensors.Cpuload.{Scan, scanned, changed, failed, cpu_prefix, skip_first, scan_stat}
use dimmon.Sensors.Cpuload.Count.{count_cores_states}
use dimmon.Sensors.Cpuload.Prev.{Cpuload, fill_prev}

-- newhook and rmhook.
unfoldable pub cpuload_newhook : Cpuload → Addr → Cmd (Cpuload × Errno)
unfolding named_newhook
cpuload_newhook c hook = named_newhook c.hook hook >>= λ r. pure (record c { hook = r.0 }, r.1)

abbrev pub cpuload_rmhook : Cpuload → Addr → Cpuload
cpuload_rmhook c hook = record c { hook = 0 }

module _ (file : ℕ → List ℕ) where
  abbrev pub count_again : Cpuload → Cpuload
  count_again c =
      let ((cores, states), rest) = count_cores_states (file c.opens) in
      record c { num_cores = cores; num_states = states; opens = suc c.opens }

  -- ctor, with the errno of fopen. The numbers are counted by the first node of the type.
  abbrev pub counted_once : Cpuload → Cpuload
  counted_once c = if c.num_states == 0 then count_again c else c

  abbrev pub with_states : Cpuload → Cpuload × Errno
  with_states c =
      if c.num_states == 0
      then (c, einval)
      else (record c { hook = 0; prev_val = none; prev_val_filled = false }, 0)

  unfoldable pub cpuload_ctor : Errno → Cpuload → Cmd (Cpuload × Errno)
  unfolding malloc count_cores_states
  cpuload_ctor fopen c = do
    p ← malloc
    pure (
        if p == 0
        then (c, enomem)
        else if not (fopen == 0)
        then (c, fopen)
        else with_states (counted_once c))

  module _ (rcvdata : ℕ → Addr → Addr → Cmd Errno) (type_rcvdata : Addr → Option ℕ) (fuel : ℕ)
      (quotient : ℕ → ℕ → List ℕ) (garbage : ℕ) where
    abbrev pub with_blocks : Blocks → Cmd (Cpuload × Errno) → Cmd (Cpuload × Blocks × Errno)
    with_blocks blocks m = m >>= λ r. pure (r.0, blocks, r.1)

    abbrev pub send_stat :
        Cpuload → Blocks → Addr → Scan (List Sample × List ℕ) → Cmd (Cpuload × Blocks × Errno)
    send_stat c blocks data' (scanned (xs, values)) =
        send_block rcvdata type_rcvdata fuel c.hook blocks data' (fill_nodes (blocks data') 0 xs)
        >>= λ r. pure (record c { prev_val = some values }, r.0, r.1)
    send_stat c blocks data' changed =
        data_unref data' >> with_blocks blocks (fill_prev file garbage fuel (count_again c) true)
    send_stat c blocks data' failed = λ _. fault

    abbrev pub stat_of : Cpuload → List ℕ → Option (List ℕ) → Scan (List Sample × List ℕ)
    stat_of c text none = failed
    stat_of c text (some prev) = scan_stat quotient c.num_cores c.num_states prev text

    abbrev pub first_skipped :
        Scan (List ℕ) → Cmd (Cpuload × Blocks × Errno) → Cmd (Cpuload × Blocks × Errno)
    first_skipped (scanned rest) m = m
    first_skipped _ m = λ _. fault

    abbrev pub cpuload_measure : Cpuload → List ℕ → Blocks → Cmd (Cpuload × Blocks × Errno)
    cpuload_measure c text blocks = do
      data' ← data_create_raw c.num_states (c.num_states * (c.num_cores * 4))
      if data' == 0
          then pure (c, blocks, enomem)
          else send_stat c blocks data' (stat_of c text c.prev_val)

    -- process_timer_msg. Without previous values, or without an output, they are only read.
    unfoldable pub cpuload_process : Cpuload → Blocks → Cmd (Cpuload × Blocks × Errno)
    unfolding skip_first scan_stat data_create_raw data_unref fill_nodes send_block fill_prev
        count_cores_states
    cpuload_process c blocks =
        let c' : Cpuload = record c { opens = suc c.opens } in
        first_skipped (skip_first cpu_prefix (file c.opens)) (
          if c.prev_val_filled && not (c.hook == 0)
          then cpuload_measure c' (file c.opens) blocks
          else with_blocks blocks (fill_prev file garbage fuel c' false))

    -- rcvmsg.
    unfoldable pub cpuload_rcvmsg : Cpuload → Blocks → Msg → Cmd (Cpuload × Blocks × Errno)
    unfolding cpuload_process msg_free
    cpuload_rcvmsg c blocks m = do
      r ←
          (if m.cm_type == msgtype_generic && m.cm_cmd == cmd_timertrigger
            then cpuload_process c blocks
            else pure (c, blocks, enotsup))
      msg_free
      pure r

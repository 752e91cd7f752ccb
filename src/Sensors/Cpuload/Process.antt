-- ===== src/Sensors/Cpuload/Process.antt =====
-- modules/sensors/cpuload/cpuload.c, process_timer_msg: the shares of all cores on their way to the peers
-- of the output.
use dimmon.Prelude.{
  ℕ, suc, ◌+◌, ◌*◌, ◌<◌, ◌≤◌, ◌≡◌, ◌≢◌, ◌∙◌, refl, ap, sym, true, ==_ne, Option, some, List, ◌∷◌,
  ◌++◌, length, if◌then◌else◌, arith,
}
use mathlib.Core.Path.{subst}
use dimmon.State.{Addr, Errno, Call, Sys, Cmd, u32_mod}
use dimmon.State.Returns
use dimmon.State.Returns.{Returns}
use dimmon.Data.{Sample, fill_nodes}
use dimmon.Data.Walk.{IsSendable}
use dimmon.Data.Create.{create-ok}
use dimmon.Data.Send.{Listens}
use dimmon.Wavebuf.{Blocks}
use dimmon.Sensors.{send_block}
use dimmon.Sensors.Sending.{CanMeasure, Measured, created, send_block-Measured}
use dimmon.Sensors.Cpuload.{
  Scan, scanned, changed, ◌>>=◌, cpu_prefix, scan_word, behind_prefix, has_prefix, scan_cores,
  state_nodes, cpu_user, scan_stat,
}
use dimmon.Sensors.Cpuload.Prev.{Cpuload}
use dimmon.Sensors.Cpuload.Node.{send_stat, cpuload_process}
use dimmon.Sensors.Cpuload.Stat.{
  Behind, IsBehind, text_behind, skip_first-line, cores_text, scan_word-space,
}
use dimmon.Sensors.Cpuload.Columns.{
  AllShares, columns, append_all, append_all-columns, length-state_nodes, columns-IsSendable,
}
use dimmon.Sensors.Cpuload.Cores.{
  Reading, AllReadings, cores_of, before_of, values_of, loads_of, loads_of-AllShares,
  length-loads_of, scan_cores-text,
}

module _ (quotient : ℕ → ℕ → List ℕ) (states : ℕ) where
  abbrev shares_of : List Reading → List Sample
  shares_of rs = columns quotient (state_nodes (suc states) cpu_user) (loads_of rs)

  append_all-shares :
      (rs : List Reading)
      → AllReadings states rs
      → append_all quotient (loads_of rs) (state_nodes (suc states) cpu_user) ≡ shares_of rs
  append_all-shares rs readings =
      append_all-columns quotient (loads_of rs) (state_nodes (suc states) cpu_user) (
        subst (λ n. AllShares n (loads_of rs)) (sym (length-state_nodes (suc states) cpu_user))
          (loads_of-AllShares states rs readings))

  abbrev last_word : List Sample × List ℕ × List ℕ → Scan (List Sample × List ℕ)
  last_word t = scan_word t.2 >>= λ w.
      if has_prefix (behind_prefix cpu_prefix w.0) then changed else scanned (t.0, t.1)

  scan_stat-text :
      (b : Behind) (rs : List Reading)
      → IsBehind b
      → AllReadings states rs
      → scan_stat quotient (length rs) (suc states) (before_of rs) (text_behind b (cores_of rs))
        ≡ scanned (shares_of rs, values_of rs)
  unfolding scan_stat
  scan_stat-text b rs behind readings =
      let more : List ℕ = b.word ++ (32 ∷ b.rest) in
      let xs : List Sample = state_nodes (suc states) cpu_user in
      ap
        (λ m. m >>= λ cs.
          scan_cores quotient (length rs) (suc states) (before_of rs) cs xs >>= last_word)
        (skip_first-line b.first (cores_text (cores_of rs) more) behind.0)
      ∙ ap (λ m. m >>= last_word) (scan_cores-text quotient states rs more xs readings)
      ∙ ap (λ ys. last_word (ys, values_of rs, more)) (append_all-shares rs readings)
      ∙ ap
          (λ m. m >>= λ w.
            if has_prefix (behind_prefix cpu_prefix w.0)
            then changed
            else scanned (shares_of rs, values_of rs))
          (scan_word-space b.word b.rest behind.1)
      ∙ ap (λ t. if t then changed else scanned (shares_of rs, values_of rs)) behind.2

-- The object that is sent, and the values that are kept.
abbrev pub Reported :
    (List Call → List Addr)
    → Cpuload
    → Sys
    → List Sample
    → List ℕ
    → Cpuload × Blocks × Errno
    → Sys
    → Type 0
Reported observed c s xs values (c', filled, err) t =
    (c' ≡ record c { opens = suc c.opens; prev_val = some values })
    × Measured observed c.hook s xs (filled, err) t

module _ (file : ℕ → List ℕ) (rcvdata : ℕ → Addr → Addr → Cmd Errno)
    (type_rcvdata : Addr → Option ℕ) (observed : List Call → List Addr)
    (listens : Listens rcvdata observed) (fuel : ℕ) (quotient : ℕ → ℕ → List ℕ) (garbage : ℕ)
    (c : Cpuload) (blocks : Blocks) (s : Sys) where
  abbrev opened : Cpuload
  opened = record c { opens = suc c.opens }

  send_stat-Reported :
      (numnodes datalen : ℕ) (xs : List Sample) (values : List ℕ)
      → CanMeasure type_rcvdata fuel c.hook s
      → IsSendable xs
      → Returns
          (send_stat file rcvdata type_rcvdata fuel quotient garbage opened blocks
            (suc s.mallocs)
            (scanned (xs, values))
            (created numnodes datalen s))
          (Reported observed c s xs values)
  send_stat-Reported numnodes datalen xs values can sendable =
      Returns.bind (Measured observed c.hook s xs) _
        (send_block rcvdata type_rcvdata fuel c.hook blocks (suc s.mallocs)
          (fill_nodes (blocks (suc s.mallocs)) 0 xs) (created numnodes datalen s))
        _
        (send_block-Measured rcvdata type_rcvdata observed listens fuel c.hook blocks s can numnodes
          datalen xs sendable)
        (λ r t measured. (refl, measured))

  process-run :
      (states : ℕ) (b : Behind) (rs : List Reading)
      → file c.opens ≡ text_behind b (cores_of rs)
      → IsBehind b
      → AllReadings states rs
      → (c.num_cores ≡ length rs) × (c.num_states ≡ suc states)
      → (c.prev_val ≡ some (before_of rs)) × (c.prev_val_filled ≡ true)
      → c.hook ≢ 0
      → CanMeasure type_rcvdata fuel c.hook s
      → cpuload_process file rcvdata type_rcvdata fuel quotient garbage c blocks s
        ≡ send_stat file rcvdata type_rcvdata fuel quotient garbage opened blocks
            (suc s.mallocs)
            (scanned (shares_of quotient states rs, values_of rs))
            (created c.num_states (c.num_states * (c.num_cores * 4)) s)
  unfolding cpuload_process
  process-run states b rs text behind readings counted kept output can =
      rw
        (
          text,
          skip_first-line b.first (cores_text (cores_of rs) (b.word ++ (32 ∷ b.rest))) behind.0,
          kept.1,
          ==_ne c.hook 0 output,
          create-ok c.num_states (c.num_states * (c.num_cores * 4)) s can.memory.0 can.memory.1,
          ==_ne (suc s.mallocs) 0 (omega arith),
          kept.0,
          counted.0,
          counted.1,
          scan_stat-text quotient states b rs behind readings,
        )
        refl

  -- The shares of all cores go to every peer of the output in one object, once and in order: a data node
  -- for each state, with the shares of all cores in their order, which are quotients of the growth of a
  -- counter and that of all counters of the core. The values that were read are kept for the next time.
  -- The file has a line in front of those of the cores and a word behind them; it has as many cores and
  -- states as were counted, and the counters had values that have been kept. There is an output, a
  -- quotient has 4 bytes, those of a state fit into 32 bits of length, there is memory for the object,
  -- and the output and its peers are able to send and receive. More rounds than peers are enough.
  pub cpuload_process-Measured :
      (states : ℕ) (b : Behind) (rs : List Reading)
      → file c.opens ≡ text_behind b (cores_of rs)
      → IsBehind b
      → AllReadings states rs
      → (c.num_cores ≡ length rs) × (c.num_states ≡ suc states)
      → (c.prev_val ≡ some (before_of rs)) × (c.prev_val_filled ≡ true)
      → c.hook ≢ 0
      → ((d total : ℕ) → length (quotient d total) ≡ 4)
      → (cpu_user + suc states ≤ u32_mod) × (4 * length rs < u32_mod)
      → CanMeasure type_rcvdata fuel c.hook s
      → Returns (cpuload_process file rcvdata type_rcvdata fuel quotient garbage c blocks s) (
          Reported observed c s
            (columns quotient (state_nodes (suc states) cpu_user) (loads_of rs))
            (values_of rs))
  cpuload_process-Measured states b rs text behind readings counted kept output float fits can =
      rw (process-run states b rs text behind readings counted kept output can) (
        send_stat-Reported c.num_states (c.num_states * (c.num_cores * 4))
          (shares_of quotient states rs) (values_of rs) can
          (columns-IsSendable quotient float (suc states) cpu_user (loads_of rs) (omega arith)
            fits.0 (omega (arith, length-loads_of rs, fits.1))))

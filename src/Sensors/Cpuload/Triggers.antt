-- ===== src/Sensors/Cpuload/Triggers.antt =====
-- modules/sensors/cpuload/cpuload.c, process_timer_msg: a new node at its first two triggers.
use dimmon.Prelude.{
  ℕ, suc, ◌+◌, ◌*◌, ◌<◌, ◌≤◌, ◌≡◌, ◌≢◌, ◌∙◌, ◌++◌, ◌∷◌, refl, ap, true, false, none, some, Option,
  List, length,
}
use dimmon.State.{Addr, Errno, Call, Sys, Cmd, ok, u32_mod, and_then}
use dimmon.State.Returns.{Returns}
use dimmon.Data.Send.{Listens}
use dimmon.Wavebuf.{Blocks}
use dimmon.Sensors.Sending.{CanMeasure}
use dimmon.Sensors.Cpuload.{state_nodes, cpu_user}
use dimmon.Sensors.Cpuload.Prev.{Cpuload}
use dimmon.Sensors.Cpuload.Node.{cpuload_process}
use dimmon.Sensors.Cpuload.Stat.{
  Core, AllCores, cores_text, Behind, IsBehind, text_behind, skip_first-line,
}
use dimmon.Sensors.Cpuload.Columns.{columns}
use dimmon.Sensors.Cpuload.Cores.{Reading, AllReadings, cores_of, before_of, values_of, loads_of}
use dimmon.Sensors.Cpuload.First.{all_values}
use dimmon.Sensors.Cpuload.Filled.{fill_prev-text}
use dimmon.Sensors.Cpuload.Process.{Reported, cpuload_process-Measured}

-- A node behind its constructor and `newhook`: nothing has been read but the numbers.
abbrev pub IsNew : ℕ → ℕ → Cpuload → Type 0
IsNew cores states c =
    ((c.num_cores ≡ cores) × (c.num_states ≡ suc states))
    × (c.prev_val ≡ none)
    × (c.prev_val_filled ≡ false)
    × (c.hook ≢ 0)

-- What the first trigger leaves.
abbrev pub once_read : List Core → Cpuload → Cpuload
once_read cs c = record c {
  prev_val = some (all_values cs);
  prev_val_filled = true;
  opens = suc (suc c.opens);
}

abbrev pub one_array : Sys → Sys
one_array s = record s { mallocs = suc s.mallocs }

module _ (file : ℕ → List ℕ) (rcvdata : ℕ → Addr → Addr → Cmd Errno)
    (type_rcvdata : Addr → Option ℕ) (observed : List Call → List Addr)
    (listens : Listens rcvdata observed) (fuel : ℕ) (quotient : ℕ → ℕ → List ℕ) (garbage : ℕ)
    (c : Cpuload) (blocks : Blocks) (s : Sys) where
  first_trigger :
      (states : ℕ) (b : Behind) (cs : List Core)
      → (file c.opens ≡ text_behind b cs) × (file (suc c.opens) ≡ text_behind b cs)
      → IsBehind b
      → AllCores states cs
      → 1 ≤ length cs
      → length cs < suc fuel
      → IsNew (length cs) states c
      → s.mem s.mallocs ≡ true
      → cpuload_process file rcvdata type_rcvdata (suc fuel) quotient garbage c blocks s
        ≡ ok (once_read cs c, blocks, 0) (one_array s)
  unfolding cpuload_process
  first_trigger states b cs text behind valid some_core more new memory =
      rw
        (
          text.0,
          skip_first-line b.first (cores_text cs (b.word ++ (32 ∷ b.rest))) behind.0,
          new.2,
          fill_prev-text file states b cs behind valid (record c { opens = suc c.opens }) s new.0
              new.1 memory some_core garbage fuel more text.1,
        )
        refl

  -- A new node sends nothing at its first trigger, and at its second one the shares of what the counters
  -- have grown by since the first: in one object that goes to every peer of the output, once and in
  -- order, a data node for each state with the shares of all cores. The file is of the form of
  -- /proc/stat each time, with as many cores and states as were counted, and the same for both readings
  -- of the first trigger; the values of the second reading
  -- are kept. There is at least one core, a quotient has 4 bytes, those of a state fit into 32 bits of
  -- length, there is memory for the values and for the object, and the output and its peers are able to
  -- send and receive. More rounds than peers and at least as many as cores are enough.
  pub two_triggers :
      (states : ℕ) (b b' : Behind) (cs : List Core) (rs : List Reading)
      → ((file c.opens ≡ text_behind b cs) × (file (suc c.opens) ≡ text_behind b cs))
        × (file (suc (suc c.opens)) ≡ text_behind b' (cores_of rs))
      → IsBehind b × IsBehind b'
      → AllCores states cs × AllReadings states rs
      → (all_values cs ≡ before_of rs) × (length cs ≡ length rs)
      → (1 ≤ length cs) × (length cs < suc fuel)
      → IsNew (length cs) states c
      → ((d total : ℕ) → length (quotient d total) ≡ 4)
      → (cpu_user + suc states ≤ u32_mod) × (4 * length rs < u32_mod)
      → s.mem s.mallocs ≡ true
      → CanMeasure type_rcvdata (suc fuel) c.hook (one_array s)
      → Returns
          (and_then
            (cpuload_process file rcvdata type_rcvdata (suc fuel) quotient garbage c blocks s)
            (λ r. cpuload_process file rcvdata type_rcvdata (suc fuel) quotient garbage r.0 r.1))
          (Reported observed
            (once_read cs c)
            (one_array s)
            (columns quotient (state_nodes (suc states) cpu_user) (loads_of rs))
            (values_of rs))
  two_triggers states b b' cs rs text behind valid kept some_core new float fits memory can =
      rw (first_trigger states b cs text.0 behind.0 valid.0 some_core.0 some_core.1 new memory) (
        cpuload_process-Measured file rcvdata type_rcvdata observed listens (suc fuel) quotient
          garbage (once_read cs c) blocks (one_array s) states b' rs text.1 behind.1 valid.1
          (new.0.0 ∙ kept.1, new.0.1) (ap some kept.0, refl) new.3 float fits can)

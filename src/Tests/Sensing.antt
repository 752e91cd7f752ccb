-- ===== src/Tests/Sensing.antt =====
-- The theorems on the sensors, applied to files with a few lines.
use Prim.Native.String.{String}
use dimmon.Prelude.{
  ℕ, ◌≡◌, ◌≤◌, ◌<◌, ◌==◌, if◌then◌else◌, refl, zero, suc, true, false, none, some, List, [], ◌∷◌,
  length, arith,
}
use dimmon.State.{and_then, fault, Sys}
use dimmon.State.Returns.{Returns}
use dimmon.Wavebuf.Release.{CanSend-agree}
use dimmon.Sensors.Sending.{CanMeasure, Measured}
use dimmon.Sensors.Memory.{codes, num_sensors, memory_process, search}
use dimmon.Sensors.Memory.Lines.{Line, All, text_of, known, take}
use dimmon.Sensors.Memory.Process.{memory_process-Measured, memory_process-fault}
use dimmon.Sensors.Ifdata.{ifdata_init, ifdata_rcvmsg}
use dimmon.Sensors.Ifdata.Rows.{Row, table_text}
use dimmon.Sensors.Ifdata.Process.{reported, ifdata_rcvmsg-Measured}
use dimmon.Sensors.Cpuload.{behind_prefix, deltas, total_delta, state_nodes, cpu_user}
use dimmon.Sensors.Cpuload.Prev.{Cpuload}
use dimmon.Sensors.Cpuload.Node.{cpuload_process}
use dimmon.Sensors.Cpuload.Shares.{Change, grown, decreased, now_of, growth, sum, shares_of_growth}
use dimmon.Sensors.Cpuload.Columns.{columns}
use dimmon.Sensors.Cpuload.Cores.{Reading, AllReadings, cores_of, before_of, values_of, loads_of}
use dimmon.Sensors.Cpuload.Process.{Reported, cpuload_process-Measured}
use dimmon.Sensors.Cpuload.Stat.{Core, AllCores, Behind, IsBehind, text_behind}
use dimmon.Sensors.Cpuload.Triggers.{once_read, one_array, two_triggers}
use dimmon.Tests.Flow.{hear, marks, hear-Listens}
use dimmon.Tests.Modules.{wave, filled, can_send}

abbrev line : String → ℕ → Line
line name v = record { header = codes name; spaces = 3; value = v }

-- One of the lines is not searched for.
abbrev meminfo : List Line
meminfo =
    line "MemTotal" 16
    ∷ line "MemFree" 9
    ∷ line "MemAvailable" 12
    ∷ line "Buffers" 1
    ∷ line "Cached" 2
    ∷ line "SwapCached" 0
    ∷ line "Active" 4
    ∷ line "Inactive" 3
    ∷ line "Mlocked" 0
    ∷ line "AnonPages" 2
    ∷ line "Mapped" 1
    ∷ line "Shmem" 1
    ∷ []

can_measure : CanMeasure (λ _. none) 3 5 wave
can_measure = record { memory = (refl, refl); send = can_send; few = omega arith }

meminfo-All : All meminfo
meminfo-All = ground arith

meminfo-known : num_sensors ≤ length (known meminfo)
unfolding search
meminfo-known = omega arith

memory_process-Measured_example :
    Returns
      (memory_process hear (λ _. none) 3 (text_of meminfo []) 5 filled wave)
      (Measured marks 5 wave (take num_sensors (known meminfo)))
memory_process-Measured_example =
    memory_process-Measured hear (λ _. none) marks hear-Listens 3 5 filled wave can_measure meminfo
      [] (omega arith) meminfo-All meminfo-known

abbrev old_meminfo : List Line
old_meminfo = line "MemTotal" 16 ∷ line "MemFree" 9 ∷ []

old_meminfo-All : All old_meminfo
old_meminfo-All = ground arith

old_meminfo-known : length (known old_meminfo) < num_sensors
unfolding search
old_meminfo-known = omega arith

memory_process-fault_example :
    memory_process hear (λ _. none) 3 (text_of old_meminfo []) 5 filled wave ≡ fault
memory_process-fault_example =
    memory_process-fault hear (λ _. none) 3 old_meminfo 5 filled wave (omega arith) refl refl
      old_meminfo-All old_meminfo-known

abbrev row : ℕ → Row
row v = record {
  name = codes "  eth0";
  gap = 2;
  counters = record { bytes_in = v; packets_in = 2; bytes_out = 3; packets_out = 4 };
  others = λ k. k;
}

abbrev one_message : Sys
one_message = record wave { msgs = 1 }

able_with_message : CanMeasure (λ _. none) 3 5 one_message
able_with_message = record {
  memory = (refl, refl);
  send = CanSend-agree (λ _. none) 5 wave one_message refl refl can_send;
  few = omega arith;
}

abbrev table : Row → List ℕ
table r = table_text (codes "Inter") (codes " face") (r ∷ []) []

ifdata_rcvmsg-Measured_example :
    Returns
      (ifdata_rcvmsg hear
        (λ _. none)
        3
        (ifdata_init 2 (table (row 1)))
        (table (row 700))
        5
        filled
        one_message)
      (Measured marks 5 one_message (reported (row 700 ∷ [])))
ifdata_rcvmsg-Measured_example =
    ifdata_rcvmsg-Measured hear (λ _. none) marks hear-Listens 3 5 filled one_message
      (codes "Inter") (codes " face") (codes "Inter") (codes " face") (row 1 ∷ []) (row 700 ∷ []) []
      2 (ground arith) (ground arith) refl (omega arith) (omega arith) (omega arith) (omega arith)
      able_with_message

abbrev growing : List Change
growing = grown 9 ∷ grown 0 ∷ decreased 2 ∷ []

shares_of_growth_example :
    (deltas (now_of (3 ∷ 4 ∷ 5 ∷ []) growing) (3 ∷ 4 ∷ 5 ∷ []) ≡ growth growing)
    × (total_delta (deltas (now_of (3 ∷ 4 ∷ 5 ∷ []) growing) (3 ∷ 4 ∷ 5 ∷ []))
        ≡ (if sum (growth growing) == 0 then 1 else sum (growth growing)))
shares_of_growth_example = shares_of_growth (3 ∷ 4 ∷ 5 ∷ []) growing (ground arith) (omega arith)

-- Two cores with two states.
abbrev core : ℕ → ℕ → ℕ → Reading
core n v w = record { core = record { number = n ∷ []; values = v ∷ w ∷ [] }; before = 1 ∷ 1 ∷ [] }

abbrev cores : List Reading
cores = core b'0' 3 4 ∷ core b'1' 5 1 ∷ []

abbrev stat : Behind
stat = record { first = codes " 8 5"; word = codes "intr"; rest = codes "7" }

abbrev cpu : Cpuload
cpu = record {
  num_cores = 2;
  num_states = 2;
  hook = 5;
  prev_val = some (before_of cores);
  prev_val_filled = true;
  opens = 4;
}

abbrev part : ℕ → ℕ → List ℕ
part d total = d ∷ total ∷ 0 ∷ 0 ∷ []

stat-IsBehind : IsBehind stat
unfolding behind_prefix
stat-IsBehind = ground arith

cores-AllReadings : AllReadings 1 cores
cores-AllReadings = ground arith

cpuload_process-Measured_example :
    Returns
      (cpuload_process
        (λ _. text_behind stat (cores_of cores))
        hear
        (λ _. none)
        3
        part
        0
        cpu
        filled
        wave)
      (Reported marks cpu wave
        (columns part (state_nodes 2 cpu_user) (loads_of cores))
        (values_of cores))
cpuload_process-Measured_example =
    cpuload_process-Measured (λ _. text_behind stat (cores_of cores)) hear (λ _. none) marks
      hear-Listens 3 part 0 cpu filled wave 1 stat cores refl stat-IsBehind cores-AllReadings
      (refl, refl) (refl, refl) (omega arith) (λ d total. refl) (omega arith, omega arith)
      can_measure

abbrev first_cores : List Core
first_cores =
    record { number = b'0' ∷ []; values = 1 ∷ 1 ∷ [] }
    ∷ record { number = b'1' ∷ []; values = 1 ∷ 1 ∷ [] }
    ∷ []

-- The file differs at the second trigger.
abbrev stat_at : ℕ → List ℕ
stat_at zero = text_behind stat first_cores
stat_at (suc zero) = text_behind stat first_cores
stat_at (suc (suc n)) = text_behind stat (cores_of cores)

abbrev new_cpu : Cpuload
new_cpu = record {
  num_cores = 2;
  num_states = 2;
  hook = 5;
  prev_val = none;
  prev_val_filled = false;
  opens = 0;
}

first_cores-AllCores : AllCores 1 first_cores
first_cores-AllCores = ground arith

two_triggers_example :
    Returns
      (and_then
        (cpuload_process stat_at hear (λ _. none) 3 part 0 new_cpu filled wave)
        (λ r. cpuload_process stat_at hear (λ _. none) 3 part 0 r.0 r.1))
      (Reported marks
        (once_read first_cores new_cpu)
        (one_array wave)
        (columns part (state_nodes 2 cpu_user) (loads_of cores))
        (values_of cores))
two_triggers_example =
    two_triggers stat_at hear (λ _. none) marks hear-Listens 2 part 0 new_cpu filled wave 1 stat
      stat first_cores cores ((refl, refl), refl) (stat-IsBehind, stat-IsBehind)
      (first_cores-AllCores, cores-AllReadings) (refl, refl) (omega arith, omega arith)
      ((refl, refl), refl, refl, omega arith) (λ d total. refl) (omega arith, omega arith) refl
      (record {
        memory = (refl, refl);
        send = CanSend-agree (λ _. none) 5 wave (one_array wave) refl refl can_send;
        few = omega arith;
      })

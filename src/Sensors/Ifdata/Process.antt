-- ===== src/Sensors/Ifdata/Process.antt =====
-- modules/sensors/ifdata/ifdata.c, rcvmsg: the counters on their way to the peers of the output.
use dimmon.Prelude.{
  ℕ, suc, ◌-◌, ◌*◌, ◌<◌, ◌≤◌, ◌≡◌, ◌≢◌, ◌∙◌, refl, ap, sym, ==_ne, Option, List, [], ◌∷◌, ◌++◌,
  length, length-append, arith,
}
use dimmon.State.{Addr, Errno, Call, Sys, Cmd, ok, u32_mod}
use dimmon.State.Returns.{Returns}
use dimmon.Data.{Sample}
use dimmon.Data.Walk.{IsSendable}
use dimmon.Data.Create.{create-ok}
use dimmon.Data.Send.{Listens}
use dimmon.Message.{msg_free}
use dimmon.Wavebuf.{Blocks}
use dimmon.Wavebuf.Release.{CanSend-agree}
use dimmon.Sensors.{le_bytes}
use dimmon.Sensors.Memory.Process.{length-le_bytes}
use dimmon.Sensors.Sending.{CanMeasure, Measured, send_block-Measured}
use dimmon.Sensors.Ifdata.{Counters, column, if_samples, ifdata_init, ifdata_rcvmsg}
use dimmon.Sensors.Ifdata.Rows.{Row, AllRows, Without, counters_of, table_text, scan_table-text}
use dimmon.Sensors.Ifdata.Count.{ifdata_init-rows}

length-column : (f : Counters → ℕ) (rs : List Counters) → length (column f rs) ≡ 8 * length rs
length-column f [] = refl
length-column f (r ∷ rs) = omega (
  arith,
  length-append (le_bytes 8 (f r)) (column f rs),
  length-le_bytes 8 (f r),
  length-column f rs,
)

length-counters : (rs : List Row) → length (counters_of rs) ≡ length rs
length-counters [] = refl
length-counters (r ∷ rs) = ap suc (length-counters rs)

column-short :
    (f : Counters → ℕ) (rs : List Counters)
    → 8 * length rs < u32_mod
    → length (column f rs) < u32_mod
column-short f rs h = omega (arith, length-column f rs, h)

if_samples-IsSendable : (rs : List Counters) → 8 * length rs < u32_mod → IsSendable (if_samples rs)
if_samples-IsSendable rs h = (
  (omega arith, column-short (λ r. r.bytes_in) rs h, refl),
  (
    (omega arith, column-short (λ r. r.packets_in) rs h, refl),
    (
      (omega arith, column-short (λ r. r.bytes_out) rs h, refl),
      ((omega arith, column-short (λ r. r.packets_out) rs h, refl), tt),
    ),
  ),
)

-- What is reported of a table, by the numbers at the beginning of the file: a data node for each counter, with the values
-- of all rows.
abbrev pub of_rows : (Row → ℕ) → List Row → List ℕ
of_rows f [] = []
of_rows f (r ∷ rs) = le_bytes 8 (f r) ++ of_rows f rs

abbrev pub reported : List Row → List Sample
reported rs =
    record { sensor = 100; values = of_rows (λ r. r.counters.bytes_in) rs }
    ∷ record { sensor = 101; values = of_rows (λ r. r.counters.packets_in) rs }
    ∷ record { sensor = 102; values = of_rows (λ r. r.counters.bytes_out) rs }
    ∷ record { sensor = 103; values = of_rows (λ r. r.counters.packets_out) rs }
    ∷ []

column-of_rows :
    (f : Counters → ℕ) (rs : List Row) → column f (counters_of rs) ≡ of_rows (λ r. f r.counters) rs
column-of_rows f [] = refl
column-of_rows f (r ∷ rs) = ap (λ v. le_bytes 8 (f r.counters) ++ v) (column-of_rows f rs)

if_samples-reported : (rs : List Row) → if_samples (counters_of rs) ≡ reported rs
if_samples-reported rs =
    rw
      (
        column-of_rows (λ c. c.bytes_in) rs,
        column-of_rows (λ c. c.packets_in) rs,
        column-of_rows (λ c. c.bytes_out) rs,
        column-of_rows (λ c. c.packets_out) rs,
      )
      refl

freed : Sys → Sys
freed s = record s { msgs = s.msgs - 1 }

module _ (rcvdata : ℕ → Addr → Addr → Cmd Errno) (type_rcvdata : Addr → Option ℕ)
    (observed : List Call → List Addr) (listens : Listens rcvdata observed) (fuel : ℕ) (hook : Addr)
    (blocks : Blocks) (s : Sys) where
  CanMeasure-freed :
      CanMeasure type_rcvdata fuel hook s → CanMeasure type_rcvdata fuel hook (freed s)
  unfolding freed
  CanMeasure-freed can = record {
    memory = can.memory;
    send = CanSend-agree type_rcvdata hook s (freed s) refl refl can.send;
    few = can.few;
  }

  freed_run : 1 ≤ s.msgs → msg_free s ≡ ok tt (freed s)
  unfolding freed msg_free
  freed_run h = ground (arith, h)

  -- The counters of the interfaces go to every peer of the output in one object, once and in order: data
  -- nodes 100 to 103 with the received bytes, the received packets, the sent bytes and the sent packets
  -- of all interfaces in their order, each in eight bytes. The
  -- interfaces were counted in a table of as many rows, and what follows that many rows now is left out.
  -- Both tables have a header of two lines and rows of a name and sixteen numbers of 64 bits; there is an
  -- output, memory for the object, the values of a counter fit into 32 bits of length, and the output and
  -- its peers are able to send and receive. More rounds than peers, and than rows when they are counted,
  -- are enough.
  pub ifdata_rcvmsg-Measured :
      (h k h' k' : List ℕ) (rs rs' : List Row) (rest : List ℕ) (count_fuel : ℕ)
      → (Without b'\n' h × Without b'\n' k) × (Without b'\n' h' × Without b'\n' k')
      → AllRows rs × AllRows rs'
      → length rs ≡ length rs'
      → length rs < count_fuel
      → 8 * length rs' < u32_mod
      → hook ≢ 0
      → 1 ≤ s.msgs
      → CanMeasure type_rcvdata fuel hook s
      → Returns
          (ifdata_rcvmsg rcvdata type_rcvdata fuel
            (ifdata_init count_fuel (table_text h k rs []))
            (table_text h' k' rs' rest)
            hook
            blocks
            s)
          (Measured observed hook s (reported rs'))
  unfolding ifdata_rcvmsg freed
  ifdata_rcvmsg-Measured h k h' k' rs rs' rest count_fuel header rows same counted fits output
        message can =
      let n : ℕ = length rs' in
      rw
        (
          ifdata_init-rows h k rs count_fuel header.0.0 header.0.1 rows.0 counted ∙ same,
          freed_run message,
          ==_ne hook 0 output,
          create-ok (4 * n) (4 * n * 8) (freed s) can.memory.0 can.memory.1,
          ==_ne (suc s.mallocs) 0 (omega arith),
          scan_table-text h' k' header.1 rs' rows.1 rest,
          sym (if_samples-reported rs'),
        )
        (send_block-Measured rcvdata type_rcvdata observed listens fuel hook blocks (freed s)
          (CanMeasure-freed can) (4 * n) (4 * n * 8) (if_samples (counters_of rs'))
          (if_samples-IsSendable (counters_of rs') (omega (arith, length-counters rs', fits))))

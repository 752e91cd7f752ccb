-- ===== src/Sensors/Memory.antt =====
-- modules/sensors/memory/memory.c: the lines of /proc/meminfo that are sent. The text is what the file
-- has from its beginning.
pub mod Lines
pub mod Process
use Prim.Native.Char.{code}
use Prim.Native.String.{String}
use dimmon.Prelude.{
  ℕ, zero, suc, ◌+◌, ◌*◌, ◌%◌, ◌^◌, Bool, true, false, not, ◌&&◌, Option, none, some, List, [], ◌∷◌,
  ◌==◌, if◌then◌else◌, ltb, length,
}
use dimmon.State.{Addr, Errno, enomem, Cmd, fault, ◌>>=◌, ◌>>◌, pure, put, malloc}
use dimmon.Hook.{strneq}
use dimmon.Data.{Sample, fill_nodes}
use dimmon.Data.Objects.{data_create_raw, data_unref}
use dimmon.Wavebuf.{Blocks}
use dimmon.Sensors.Scan.{span_to, skip_to, skip_one, scan_number}
use dimmon.Starter.Triplet.{skip_spaces}
use dimmon.Sensors.{le_bytes, send_block}

abbrev pub codes : String → List ℕ
codes String.[] = []
codes (String.◌∷◌ c s) = code c ∷ codes s

-- ctor, with the errno of fopen.
unfoldable pub memory_ctor : Errno → Cmd Errno
unfolding malloc
memory_ctor fopen = do p ← malloc; pure (if p == 0 then enomem else fopen)

-- struct search_item_t.
pub record SearchItem : Type 0 where
  pub header : List ℕ
  pub sensor_id : ℕ
  pub convert_from_k : Bool

abbrev pub kilobytes : String → ℕ → SearchItem
kilobytes name id = record { header = codes name; sensor_id = id; convert_from_k = true }

abbrev pub search_list : List SearchItem
search_list =
    kilobytes "MemTotal" 520
    ∷ kilobytes "MemFree" 521
    ∷ kilobytes "MemAvailable" 522
    ∷ kilobytes "Buffers" 523
    ∷ kilobytes "Cached" 524
    ∷ kilobytes "Active" 526
    ∷ kilobytes "Inactive" 527
    ∷ kilobytes "Mlocked" 533
    ∷ kilobytes "AnonPages" 538
    ∷ kilobytes "Mapped" 539
    ∷ kilobytes "Shmem" 540
    ∷ []

abbrev pub num_sensors : ℕ
num_sensors = 11

-- The loop over the search list, and the data node of a line.
abbrev pub sample_of : SearchItem → ℕ → Sample
sample_of i v = record {
  sensor = i.sensor_id;
  values = le_bytes 8 (v * (if i.convert_from_k then 1024 else 1) % 2 ^ 64);
}

unfoldable pub search : List SearchItem → List ℕ → ℕ → Option Sample
unfolding strneq
search [] buf v = none
search (i ∷ is) buf v = if strneq 64 buf i.header then some (sample_of i v) else search is buf v

-- What fscanf makes of a line: it stops at a text, or there are a header and a value, a rest, and
-- whether the end of the file was met.
pub data Item : Type 0 where
  stop : List ℕ → Item
  item : (buf : List ℕ) → (v : ℕ) → (rest : List ℕ) → (eof : Bool) → Item

-- "%*[^\n]%*c" behind the value.
abbrev pub behind_line : List ℕ → List ℕ → ℕ → List ℕ → Item
behind_line buf whole v [] = item buf v [] true
behind_line buf whole v (c ∷ cs) = item buf v (skip_one whole) false

abbrev pub behind_value : List ℕ → ℕ → List ℕ → Item
behind_value buf v [] = item buf v [] true
behind_value buf v (c ∷ cs) =
    if c == b'\n'
    then item buf v (c ∷ cs) false
    else behind_line buf (skip_to b'\n' cs) v (skip_to b'\n' cs)

-- " %llu".
abbrev pub value_of : List ℕ → List ℕ → Option (ℕ × List ℕ) → Item
value_of buf cs none = stop (skip_spaces cs)
value_of buf cs (some (v, rest)) = behind_value buf v rest

-- "%60[^:]:".
abbrev pub behind_header : List ℕ → List ℕ → Item
behind_header buf [] = stop []
behind_header buf (c ∷ cs) = if c == b':' then value_of buf cs (scan_number cs) else stop (c ∷ cs)

abbrev pub header_of : List ℕ × List ℕ → Item
header_of ([], rest) = stop rest
header_of (c ∷ cs, rest) = behind_header (c ∷ cs) rest

unfoldable pub scan_item : List ℕ → Item
unfolding span_to skip_spaces skip_to scan_number
scan_item cs = header_of (span_to 60 b':' cs)

-- The samples that are found; an assertion fails when the text ends before all are.
pub data Scanned : Type 0 where
  found : List Sample → Scanned
  failed no_fuel : Scanned

abbrev pub with_sample : Sample → Scanned → Scanned
with_sample x (found xs) = found (x ∷ xs)
with_sample x failed = failed
with_sample x no_fuel = no_fuel

abbrev pub keep_item : (ℕ → List ℕ → Bool → Scanned) → ℕ → Option Sample → List ℕ → Bool → Scanned
keep_item more n none rest eof = more n rest eof
keep_item more n (some x) rest eof = with_sample x (more (suc n) rest eof)

-- The assertion that fscanf of "%*[^\n]%*c" does not meet the end of the file.
abbrev pub check_rest : List ℕ → Scanned
check_rest [] = failed
check_rest (c ∷ cs) = found []

abbrev pub after_item : (ℕ → List ℕ → Bool → Scanned) → ℕ → Item → Scanned
after_item more n (stop rest) = check_rest (skip_to b'\n' rest)
after_item more n (item buf v rest eof) = keep_item more n (search search_list buf v) rest eof

unfoldable pub scan_loop : ℕ → ℕ → List ℕ → Bool → Scanned
unfolding scan_item search skip_to
scan_loop zero n cs eof = no_fuel
scan_loop (suc fuel) n cs eof =
    if ltb n num_sensors && not eof then after_item (scan_loop fuel) n (scan_item cs) else found []

module _ (rcvdata : ℕ → Addr → Addr → Cmd Errno) (type_rcvdata : Addr → Option ℕ) (fuel : ℕ) where
  abbrev pub memory_send : Addr → Blocks → Addr → Scanned → Cmd (Blocks × Errno)
  memory_send hook blocks data' failed = λ _. fault
  memory_send hook blocks data' no_fuel = λ _. fault
  memory_send hook blocks data' (found []) =
      data_unref data' >> pure (put blocks data' (fill_nodes (blocks data') 0 []), 0)
  memory_send hook blocks data' (found (x ∷ xs)) =
      send_block rcvdata type_rcvdata fuel hook blocks data' (fill_nodes (blocks data') 0 (x ∷ xs))

  unfoldable pub memory_process : List ℕ → Addr → Blocks → Cmd (Blocks × Errno)
  unfolding data_create_raw data_unref fill_nodes send_block scan_loop
  memory_process text hook blocks = if hook == 0 then pure (blocks, 0) else (do
    data' ← data_create_raw num_sensors (num_sensors * 8)
    if data' == 0
        then pure (blocks, enomem)
        else memory_send hook blocks data' (scan_loop (suc (length text)) 0 text false))

-- ===== src/Sensors/Ifdata.antt =====
-- modules/sensors/ifdata/ifdata.c: the counters of the network interfaces from /proc/net/dev. The text is
-- what the file has from its beginning.
pub mod Rows
pub mod Count
pub mod Process
use dimmon.Prelude.{
  ℕ, zero, suc, ◌+◌, ◌*◌, Bool, true, false, ◌&&◌, not, Option, none, some, List, [], ◌∷◌, ◌++◌,
  ◌==◌, if◌then◌else◌,
}
use dimmon.State.{Addr, Errno, enoent, enomem, einval, Cmd, ◌>>=◌, ◌>>◌, pure, malloc}
use dimmon.Data.{Sample, fill_nodes}
use dimmon.Data.Objects.{data_create_raw, data_free}
use dimmon.Message.{msg_free}
use dimmon.Wavebuf.{Blocks}
use dimmon.Sensors.Scan.{skip_to, skip_one, scan_number}
use dimmon.Starter.Triplet.{skip_spaces}
use dimmon.Sensors.{le_bytes, send_block}

-- A line that is passed over, with its end; none when the file ends first.
abbrev pub behind_end : List ℕ → Option (List ℕ)
behind_end [] = none
behind_end (c ∷ cs) = some cs

unfoldable pub skip_line : List ℕ → Option (List ℕ)
unfolding skip_to
skip_line cs = behind_end (skip_to b'\n' cs)

-- init: the lines with a colon behind the two of the header, the file's end taken for the end of a line.
abbrev pub left : Option (List ℕ) → List ℕ
left none = []
left (some cs) = cs

abbrev pub starts_with_colon : List ℕ → Bool
starts_with_colon [] = false
starts_with_colon (c ∷ cs) = c == b':'

abbrev pub colon_in : List ℕ → List ℕ → Option (List ℕ)
colon_in cs [] = none
colon_in cs (c ∷ rest) = if starts_with_colon cs then none else some rest

-- "%*[^:]%c".
unfoldable pub scan_colon : List ℕ → Option (List ℕ)
unfolding skip_to
scan_colon cs = colon_in cs (skip_to b':' cs)

abbrev pub count_more : (List ℕ → ℕ) → Option (List ℕ) → ℕ
count_more more none = 0
count_more more (some cs) = suc (more (left (skip_line cs)))

unfoldable pub count_interfaces : ℕ → List ℕ → ℕ
unfolding scan_colon skip_line
count_interfaces zero cs = 0
count_interfaces (suc fuel) cs = count_more (count_interfaces fuel) (scan_colon cs)

unfoldable pub ifdata_init : ℕ → List ℕ → ℕ
unfolding count_interfaces skip_line
ifdata_init fuel text = count_interfaces fuel (left (skip_line (left (skip_line text))))

-- ctor, with the errno of fopen. Without the file the private structure is not freed.
unfoldable pub ifdata_ctor : Errno → Cmd Errno
unfolding malloc
ifdata_ctor fopen = do p ← malloc; pure (if p == 0 then enomem else fopen)

-- The numbers that a format of n numbers reads, as far as it gets.
abbrev pub and_number : ℕ → List ℕ × List ℕ → List ℕ × List ℕ
and_number v (vs, rest) = (v ∷ vs, rest)

abbrev pub number_or : (List ℕ → List ℕ × List ℕ) → List ℕ → Option (ℕ × List ℕ) → List ℕ × List ℕ
number_or more cs none = ([], skip_spaces cs)
number_or more cs (some (v, rest)) = and_number v (more rest)

unfoldable pub read_numbers : ℕ → List ℕ → List ℕ × List ℕ
unfolding scan_number skip_spaces
read_numbers zero cs = ([], cs)
read_numbers (suc n) cs = number_or (read_numbers n) cs (scan_number cs)

-- The counters of an interface.
pub record Counters : Type 0 where
  pub bytes_in : ℕ
  pub packets_in : ℕ
  pub bytes_out : ℕ
  pub packets_out : ℕ

-- Of the sixteen numbers the first, the second, the ninth and the tenth are stored.
abbrev pub stored : List ℕ × List ℕ → Option (Counters × List ℕ)
stored (a ∷ b ∷ _ ∷ _ ∷ _ ∷ _ ∷ _ ∷ _ ∷ c ∷ d ∷ _, rest) =
    some (record { bytes_in = a; packets_in = b; bytes_out = c; packets_out = d }, rest)
stored _ = none

abbrev pub numbers_at : Option (List ℕ) → Option (Counters × List ℕ)
numbers_at none = none
numbers_at (some cs) = stored (read_numbers 16 cs)

unfoldable pub scan_row : List ℕ → Option (Counters × List ℕ)
unfolding scan_colon read_numbers
scan_row cs = numbers_at (scan_colon cs)

abbrev pub cons_some : Counters → Option (List Counters) → Option (List Counters)
cons_some r none = none
cons_some r (some rs) = some (r ∷ rs)

abbrev pub with_row :
    (List ℕ → Option (List Counters)) → Option (Counters × List ℕ) → Option (List Counters)
with_row more none = none
with_row more (some (r, rest)) = cons_some r (more rest)

unfoldable pub scan_rows : ℕ → List ℕ → Option (List Counters)
unfolding scan_row
scan_rows zero cs = some []
scan_rows (suc n) cs = with_row (scan_rows n) (scan_row cs)

-- The two lines of the header, and the rows.
abbrev pub rows_at : ℕ → Option (List ℕ) → Option (List Counters)
rows_at n none = none
rows_at n (some cs) = scan_rows n cs

abbrev pub second_line : Option (List ℕ) → Option (List ℕ)
second_line none = none
second_line (some cs) = skip_line cs

unfoldable pub scan_table : ℕ → List ℕ → Option (List Counters)
unfolding skip_line scan_rows
scan_table n text = rows_at n (second_line (skip_line text))

abbrev pub column : (Counters → ℕ) → List Counters → List ℕ
column f [] = []
column f (r ∷ rs) = le_bytes 8 (f r) ++ column f rs

abbrev pub if_samples : List Counters → List Sample
if_samples rs =
    record { sensor = 100; values = column (λ r. r.bytes_in) rs }
    ∷ record { sensor = 101; values = column (λ r. r.packets_in) rs }
    ∷ record { sensor = 102; values = column (λ r. r.bytes_out) rs }
    ∷ record { sensor = 103; values = column (λ r. r.packets_out) rs }
    ∷ []

module _ (rcvdata : ℕ → Addr → Addr → Cmd Errno) (type_rcvdata : Addr → Option ℕ) (fuel : ℕ) where
  -- Without the rows only the object is freed, not its block.
  abbrev pub ifdata_send : Addr → Blocks → Addr → Option (List Counters) → Cmd (Blocks × Errno)
  ifdata_send hook blocks data' none = data_free data' >> pure (blocks, einval)
  ifdata_send hook blocks data' (some rs) =
      send_block rcvdata type_rcvdata fuel hook blocks data'
        (fill_nodes (blocks data') 0 (if_samples rs))

  -- Every message is taken for the trigger of a timer.
  unfoldable pub ifdata_rcvmsg : ℕ → List ℕ → Addr → Blocks → Cmd (Blocks × Errno)
  unfolding msg_free data_create_raw data_free fill_nodes send_block scan_table
  ifdata_rcvmsg num_interfaces text hook blocks =
      msg_free
      >> (if hook == 0 then pure (blocks, 0) else (do
        data' ← data_create_raw (4 * num_interfaces) (4 * num_interfaces * 8)
        if data' == 0
            then pure (blocks, enomem)
            else ifdata_send hook blocks data' (scan_table num_interfaces text)))

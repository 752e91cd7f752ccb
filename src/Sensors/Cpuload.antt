-- ===== src/Sensors/Cpuload.antt =====
-- modules/sensors/cpuload/cpuload.c: the shares of time that each core has spent in each state, from
-- /proc/stat. Here the reading of the lines of the cores, and the counters of 64 bits.
pub mod Count
pub mod Prev
pub mod Node
pub mod Shares
pub mod Stat
pub mod Columns
pub mod Cores
pub mod First
pub mod Filled
pub mod Triggers
pub mod Process
use Prim.Native.String.{String}
use dimmon.Prelude.{
  ℕ, zero, suc, ◌+◌, ◌-◌, ◌*◌, ◌%◌, ◌^◌, Bool, true, false, ◌&&◌, ◌||◌, not, Option, none, some,
  List, [], ◌∷◌, ◌++◌, ◌==◌, if◌then◌else◌, ltb,
}
use dimmon.Data.{Sample}
use dimmon.Starter.Triplet.{is_space, skip_spaces, starts_with_digit}
use dimmon.Sensors.Scan.{skip_to, skip_one, scan_number}
use dimmon.Sensors.Memory.{codes}

-- What a scan leads to: a value, a line that shows that the number of cores has changed, or an assertion
-- that fails.
pub data Scan {ℓ} (A : Type ℓ) : Type ℓ where
  scanned : A → Scan A
  changed : Scan A
  failed : Scan A

infixl 5 ◌>>=◌
abbrev pub ◌>>=◌ {ℓ κ} : {A : Type ℓ} {B : Type κ} → Scan A → (A → Scan B) → Scan B
scanned a >>= k = k a
changed >>= k = changed
failed >>= k = failed

abbrev pub cpu_prefix : List ℕ
cpu_prefix = codes "cpu"

-- fscanf of "cpu%*[^\n]%*c", which must not meet the end of the file.
abbrev pub end_of_line : List ℕ → Scan (List ℕ)
end_of_line [] = failed
end_of_line (c ∷ cs) = scanned cs

unfoldable pub skip_first : List ℕ → List ℕ → Scan (List ℕ)
unfolding skip_to
skip_first [] [] = failed
skip_first [] (c ∷ cs) = if c == b'\n' then scanned (c ∷ cs) else end_of_line (skip_to b'\n' cs)
skip_first (p ∷ ps) [] = failed
skip_first (p ∷ ps) (c ∷ cs) = if c == p then skip_first ps cs else scanned (c ∷ cs)

-- "%31s": a word of at most n bytes.
abbrev pub in_word : ℕ → List ℕ × List ℕ → List ℕ × List ℕ
in_word c (l, r) = (c ∷ l, r)

unfoldable pub take_word : ℕ → List ℕ → List ℕ × List ℕ
take_word zero cs = ([], cs)
take_word (suc n) [] = ([], [])
take_word (suc n) (c ∷ cs) = if is_space c then ([], c ∷ cs) else in_word c (take_word n cs)

abbrev pub some_word : List ℕ × List ℕ → Scan (List ℕ × List ℕ)
some_word ([], rest) = failed
some_word (c ∷ cs, rest) = scanned (c ∷ cs, rest)

unfoldable pub scan_word : List ℕ → Scan (List ℕ × List ℕ)
unfolding take_word skip_spaces
scan_word cs = some_word (take_word 31 (skip_spaces cs))

-- The word behind "cpu", if there is that prefix.
unfoldable pub behind_prefix : List ℕ → List ℕ → Option (List ℕ)
behind_prefix [] cs = some cs
behind_prefix (p ∷ ps) [] = none
behind_prefix (p ∷ ps) (c ∷ cs) = if c == p then behind_prefix ps cs else none

-- A word of the form cpu<number>, where the number may have a sign.
abbrev pub behind_sign : List ℕ → List ℕ
behind_sign [] = []
behind_sign (c ∷ cs) = if c == b'+' || c == b'-' then cs else c ∷ cs

abbrev pub has_number : Option (List ℕ) → Bool
has_number none = false
has_number (some cs) = starts_with_digit (behind_sign cs)

abbrev pub is_core : List ℕ → Bool
is_core word = has_number (behind_prefix cpu_prefix word)

abbrev pub has_prefix : Option (List ℕ) → Bool
has_prefix none = false
has_prefix (some cs) = true

-- As many numbers as there are states, each of which must be there.
abbrev pub must_scan : Option (ℕ × List ℕ) → Scan (ℕ × List ℕ)
must_scan none = failed
must_scan (some r) = scanned r

unfoldable pub scan_states : ℕ → List ℕ → Scan (List ℕ × List ℕ)
unfolding scan_number
scan_states zero cs = scanned ([], cs)
scan_states (suc n) cs =
    must_scan (scan_number cs) >>= λ r. scan_states n r.1 >>= λ q. scanned (r.0 ∷ q.0, q.1)

-- "%*1[\n]", which must not meet the end of the file.
abbrev pub scan_newline : List ℕ → Scan (List ℕ)
scan_newline [] = failed
scan_newline (c ∷ cs) = scanned (if c == b'\n' then cs else c ∷ cs)

-- The line of a core: its counters, and the rest.
unfoldable pub scan_core : ℕ → List ℕ → Scan (List ℕ × List ℕ)
unfolding scan_word scan_states behind_prefix
scan_core states cs = scan_word cs >>= λ w.
    if is_core w.0
    then (scan_states states w.1 >>= λ q. scan_newline q.1 >>= λ rest. scanned (q.0, rest))
    else changed

-- cur_val_delta: the difference as an int64_t, and 0 when it is negative.
unfoldable pub delta : ℕ → ℕ → ℕ
delta cur prev = let d : ℕ = (cur + 2 ^ 64 - prev) % 2 ^ 64 in if ltb d (2 ^ 63) then d else 0

unfoldable pub deltas : List ℕ → List ℕ → List ℕ
unfolding delta
deltas [] prev = []
deltas (c ∷ cs) [] = []
deltas (c ∷ cs) (p ∷ ps) = delta c p ∷ deltas cs ps

-- total_jiffies_delta, which is never 0 when it is divided by.
unfoldable pub sum_deltas : ℕ → List ℕ → ℕ
sum_deltas acc [] = acc
sum_deltas acc (d ∷ ds) = sum_deltas ((acc + d) % 2 ^ 64) ds

unfoldable pub total_delta : List ℕ → ℕ
unfolding sum_deltas
total_delta ds = let total : ℕ = sum_deltas 0 ds in if total == 0 then 1 else total

-- The first n values of an array, and the others; none when it is shorter.
abbrev pub cons_first : ℕ → Option (List ℕ × List ℕ) → Option (List ℕ × List ℕ)
cons_first v none = none
cons_first v (some (l, r)) = some (v ∷ l, r)

unfoldable pub split_row : ℕ → List ℕ → Option (List ℕ × List ℕ)
split_row zero vs = some ([], vs)
split_row (suc n) [] = none
split_row (suc n) (v ∷ vs) = cons_first v (split_row n vs)

abbrev pub row_of : Option (List ℕ × List ℕ) → Scan (List ℕ × List ℕ)
row_of none = failed
row_of (some r) = scanned r

-- The data nodes of the states, and the values of a core behind those of the cores in front of it.
-- `quotient` gives the bytes of a float.
abbrev pub cpu_user : ℕ
cpu_user = 500

unfoldable pub state_nodes : ℕ → ℕ → List Sample
state_nodes zero sensor = []
state_nodes (suc n) sensor = record { sensor = sensor; values = [] } ∷ state_nodes n (suc sensor)

module _ (quotient : ℕ → ℕ → List ℕ) where
  unfoldable pub append_core : ℕ → List ℕ → List Sample → List Sample
  append_core total [] xs = xs
  append_core total (d ∷ ds) [] = []
  append_core total (d ∷ ds) (x ∷ xs) =
      record x { values = x.values ++ quotient d total } ∷ append_core total ds xs

  -- The loop over the cores: the previous values are read and replaced in their order. A value that lies
  -- behind the array is a failure.
  unfoldable pub scan_cores :
      ℕ → ℕ → List ℕ → List ℕ → List Sample → Scan (List Sample × List ℕ × List ℕ)
  unfolding scan_core split_row deltas total_delta append_core
  scan_cores zero states prev cs xs = scanned (xs, prev, cs)
  scan_cores (suc cores) states prev cs xs = scan_core states cs >>= λ q.
      row_of (split_row states prev) >>= λ r.
      let ds : List ℕ = deltas q.0 r.0 in
      scan_cores cores states r.1 q.1 (append_core (total_delta ds) ds xs) >>= λ t.
      scanned (t.0, q.0 ++ t.1, t.2)

  -- All cores, and the word behind them, which must not begin with "cpu".
  unfoldable pub scan_stat : ℕ → ℕ → List ℕ → List ℕ → Scan (List Sample × List ℕ)
  unfolding skip_first scan_cores scan_word behind_prefix
  scan_stat cores states prev text = skip_first cpu_prefix text >>= λ cs.
      scan_cores cores states prev cs (state_nodes states cpu_user) >>= λ t. scan_word t.2 >>= λ w.
      if has_prefix (behind_prefix cpu_prefix w.0) then changed else scanned (t.0, t.1)

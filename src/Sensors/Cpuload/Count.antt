-- ===== src/Sensors/Cpuload/Count.antt =====
-- modules/sensors/cpuload/cpuload.c, count_cores_states: the numbers of cores and of states, and what is
-- left of the file. Both numbers are 0 when a line cannot be parsed.
use dimmon.Prelude.{
  ℕ, zero, suc, Option, none, some, List, [], ◌∷◌, ◌==◌, if◌then◌else◌, ltb, length,
}
use dimmon.Starter.Triplet.{is_space, skip_spaces, starts_with_digit, take_digits}
use dimmon.Main.{fgets}
use dimmon.Sensors.Scan.{skip_to, skip_one, u64_max}
use dimmon.Sensors.Cpuload.{cpu_prefix, behind_prefix}

-- strtoul, with its ERANGE.
abbrev pub in_range : ℕ × List ℕ → Option (List ℕ)
in_range (v, rest) = if ltb u64_max v then none else some rest

unfoldable pub skip_number : List ℕ → Option (List ℕ)
unfolding skip_spaces take_digits
skip_number cs =
    if starts_with_digit (skip_spaces cs) then in_range (take_digits 0 (skip_spaces cs)) else none

abbrev pub one_more : Option ℕ → Option ℕ
one_more none = none
one_more (some n) = some (suc n)

abbrev pub count_behind : (List ℕ → Option ℕ) → Option (List ℕ) → Option ℕ
count_behind more none = none
count_behind more (some rest) = one_more (more rest)

-- The numbers in front of the end of a line.
unfoldable pub count_states : ℕ → List ℕ → Option ℕ
unfolding skip_number
count_states zero cs = none
count_states (suc fuel) [] = none
count_states (suc fuel) (c ∷ cs) =
    if c == b'\n' then some 0 else count_behind (count_states fuel) (skip_number (c ∷ cs))

abbrev pub states_behind : ℕ → Option (List ℕ) → Option ℕ
states_behind fuel none = none
states_behind fuel (some []) = none
states_behind fuel (some (c ∷ cs)) = if is_space c then count_states fuel (c ∷ cs) else none

-- What follows a line that was longer than the buffer is skipped.
abbrev pub next_line : List ℕ → List ℕ → List ℕ
next_line [] rest = skip_one (skip_to b'\n' rest)
next_line (c ∷ cs) rest = rest

abbrev pub more_cores : Option ℕ × List ℕ → Option ℕ × List ℕ
more_cores (n, rest) = (one_more n, rest)

abbrev pub core_line :
    (List ℕ → Option ℕ × List ℕ) → Option (List ℕ) → List ℕ → List ℕ → Option ℕ × List ℕ
core_line more none line rest = (some 0, rest)
core_line more (some s) line rest =
    if starts_with_digit s
    then more_cores (more (next_line (skip_to b'\n' line) rest))
    else (none, rest)

abbrev pub core_lines : (List ℕ → Option ℕ × List ℕ) → Option (List ℕ × List ℕ) → Option ℕ × List ℕ
core_lines more none = (none, [])
core_lines more (some (line, rest)) = core_line more (behind_prefix cpu_prefix line) line rest

-- sizeof(buf) - 1.
abbrev pub line_size : ℕ
line_size = 255

unfoldable pub count_cores : ℕ → List ℕ → Option ℕ × List ℕ
unfolding fgets behind_prefix skip_to
count_cores zero text = (none, text)
count_cores (suc fuel) text = core_lines (count_cores fuel) (fgets line_size text)

-- The cores and the states, and the rest of the file.
abbrev pub counts_of : ℕ → Option ℕ × List ℕ → (ℕ × ℕ) × List ℕ
counts_of states (none, rest) = ((0, 0), rest)
counts_of states (some cores, rest) = ((cores, states), rest)

abbrev pub cores_behind : ℕ → Option ℕ → List ℕ → (ℕ × ℕ) × List ℕ
cores_behind fuel none rest = ((0, 0), rest)
cores_behind fuel (some states) rest = counts_of states (count_cores fuel rest)

abbrev pub first_line : ℕ → Option (List ℕ × List ℕ) → (ℕ × ℕ) × List ℕ
first_line fuel none = ((0, 0), [])
first_line fuel (some (line, rest)) =
    cores_behind fuel (states_behind fuel (behind_prefix cpu_prefix line)) rest

unfoldable pub count_cores_states : List ℕ → (ℕ × ℕ) × List ℕ
unfolding fgets count_cores count_states behind_prefix
count_cores_states text = first_line (suc (length text)) (fgets line_size text)

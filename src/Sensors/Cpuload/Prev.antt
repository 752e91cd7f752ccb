-- ===== src/Sensors/Cpuload/Prev.antt =====
-- modules/sensors/cpuload/cpuload.c, fill_prev: the first reading of the counters. `file` gives what the
-- file holds each time that it is read from its beginning.
use dimmon.Prelude.{
  ℕ, zero, suc, ◌*◌, Bool, true, false, ◌&&◌, Option, none, some, List, [], ◌∷◌, ◌==◌,
  if◌then◌else◌, ltb,
}
use dimmon.State.{Addr, Errno, enomem, Cmd, fault, ◌>>◌, pure, assert, malloc, and_then}
use dimmon.Sensors.Cpuload.{
  Scan, scanned, changed, failed, scan_word, scan_states, scan_newline, skip_first, cpu_prefix,
  behind_prefix, is_core, has_prefix,
}
use dimmon.Sensors.Cpuload.Count.{count_cores_states}

-- The numbers of cores and states, which all nodes of the type share, and struct pvt_data; `hook` is 0
-- for NULL. `opens` counts the readings of the file.
pub record Cpuload : Type 0 where
  pub num_cores : ℕ
  pub num_states : ℕ
  pub hook : Addr
  pub prev_val : Option (List ℕ)
  pub prev_val_filled : Bool
  pub opens : ℕ

-- A row of values that is written into an array at a place; none behind its end.
abbrev pub value_in_front : ℕ → Option (List ℕ) → Option (List ℕ)
value_in_front v none = none
value_in_front v (some vs) = some (v ∷ vs)

unfoldable pub write_row : List ℕ → ℕ → List ℕ → Option (List ℕ)
write_row vs place [] = some vs
write_row [] place (r ∷ rs) = none
write_row (v ∷ vs) zero (r ∷ rs) = value_in_front r (write_row vs zero rs)
write_row (v ∷ vs) (suc place) (r ∷ rs) = value_in_front v (write_row vs place (r ∷ rs))

-- The loop over the cores. `more` is set when the numbers have been counted again.
pub record Filling : Type 0 where
  pub cores : ℕ
  pub states : ℕ
  pub more : Bool
  pub values : List ℕ
  pub text : List ℕ
  pub opened : ℕ

abbrev pub fresh_values : ℕ → ℕ → List ℕ
fresh_values garbage zero = []
fresh_values garbage (suc n) = garbage ∷ fresh_values garbage n

module _ (file : ℕ → List ℕ) where
  -- count_cores_states, from the beginning of the file.
  abbrev pub recount : Filling → Filling
  recount f =
      let ((cores, states), rest) = count_cores_states (file f.opened) in
      record f { cores = cores; states = states; more = true; text = rest; opened = suc f.opened }

  abbrev pub written : Filling → Option (List ℕ) → Scan (List ℕ) → Scan Filling
  written f (some values) (scanned rest) = scanned (record f { values = values; text = rest })
  written f _ _ = failed

  abbrev pub fill_core : Filling → ℕ → Scan (List ℕ × List ℕ) → Scan Filling
  fill_core f core (scanned (row, rest)) =
      written f (write_row f.values (core * f.states) row) (scan_newline rest)
  fill_core f core _ = failed

  abbrev pub fill_line : Filling → ℕ → Scan (List ℕ × List ℕ) → Scan Filling
  fill_line f core (scanned (word, rest)) =
      if is_core word then fill_core f core (scan_states f.states rest) else scanned (recount f)
  fill_line f core _ = failed

  abbrev pub then_core : (Filling → Scan Filling) → Scan Filling → Scan Filling
  then_core next (scanned f) = next f
  then_core next changed = changed
  then_core next failed = failed

  -- The place of the file and the numbers change under the loop, which goes on with the next core.
  unfoldable pub fill_cores : ℕ → ℕ → Filling → Scan Filling
  unfolding scan_word scan_states write_row count_cores_states behind_prefix
  fill_cores zero core f = failed
  fill_cores (suc fuel) core f =
      if ltb core f.cores
      then then_core (fill_cores fuel (suc core)) (fill_line f core (scan_word f.text))
      else scanned f

  -- The word behind the cores.
  abbrev pub word_behind : Filling → Scan (List ℕ × List ℕ) → Scan (Filling × Bool)
  word_behind f (scanned (word, rest)) =
      if has_prefix (behind_prefix cpu_prefix word)
      then scanned (recount f, false)
      else scanned (f, true)
  word_behind f _ = failed

  abbrev pub cores_behind : Scan Filling → Scan (Filling × Bool)
  cores_behind (scanned f) = word_behind f (scan_word f.text)
  cores_behind _ = failed

  abbrev pub first_behind : ℕ → Filling → Scan (List ℕ) → Scan (Filling × Bool)
  first_behind fuel f (scanned rest) = cores_behind (fill_cores fuel 0 (record f { text = rest }))
  first_behind fuel f _ = failed

  -- The array, which is kept when there is one and the numbers have not been counted again.
  abbrev pub array_of : ℕ → Cpuload → Bool → Cmd (Option (List ℕ))
  array_of garbage c more = elim (if more then none else c.prev_val) [
    | some vs ↦ pure (some vs)
    | none ↦ λ s. and_then (malloc s) (λ a.
        pure (if a == 0 then none else some (fresh_values garbage (c.num_cores * c.num_states))))
  ]

  abbrev pub filled_round :
      (Cpuload → Bool → Cmd (Cpuload × Errno))
      → Cpuload
      → Scan (Filling × Bool)
      → Cmd (Cpuload × Errno)
  filled_round again c (scanned (f, done)) =
      let c' : Cpuload = record c {
        num_cores = f.cores;
        num_states = f.states;
        prev_val = some f.values;
        prev_val_filled = done;
        opens = f.opened;
      } in
      if done then pure (c', 0) else again c' f.more
  filled_round again c _ = λ _. fault

  abbrev pub filling_of : Cpuload → List ℕ → Filling
  filling_of c values = record {
    cores = c.num_cores;
    states = c.num_states;
    more = false;
    values = values;
    text = file c.opens;
    opened = suc c.opens;
  }

  unfoldable pub fill_rounds : ℕ → ℕ → Cpuload → Bool → Cmd (Cpuload × Errno)
  unfolding malloc skip_first fill_cores
  fill_rounds garbage zero c more = λ _. fault
  fill_rounds garbage (suc fuel) c more = λ s. and_then (array_of garbage c more s) (λ o. elim o [
    | none ↦ pure (record c { prev_val = none }, enomem)
    | some values ↦
        filled_round (fill_rounds garbage fuel) c
          (first_behind (suc fuel) (filling_of c values) (skip_first cpu_prefix (file c.opens)))
  ])

  unfoldable pub fill_prev : ℕ → ℕ → Cpuload → Bool → Cmd (Cpuload × Errno)
  unfolding fill_rounds
  fill_prev garbage fuel c numcore_changed =
      assert (ltb 0 c.num_states && ltb 0 c.num_cores)
      >> fill_rounds garbage fuel (record c { prev_val_filled = false }) numcore_changed

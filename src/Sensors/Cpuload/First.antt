-- ===== src/Sensors/Cpuload/First.antt =====
-- modules/sensors/cpuload/cpuload.c, fill_prev: the counters are stored in the order of the cores.
use dimmon.Prelude.{
  ℕ, zero, suc, ◌+◌, ◌*◌, ◌<◌, ◌≤◌, ◌≡◌, ◌∙◌, refl, ap, sym, true, false, some, List, [], ◌∷◌, ◌++◌,
  length, length-append, ltb, if◌then◌else◌, arith,
}
use mathlib.Core.List.{append_assoc}
use dimmon.Sensors.Cpuload.{scanned, cpu_prefix, scan_word, behind_prefix}
use dimmon.Sensors.Cpuload.Prev.{
  Filling, value_in_front, write_row, written, fill_line, then_core, fill_cores,
}
use dimmon.Sensors.Cpuload.Stat.{
  Core, IsCore, AllCores, core_text, cores_text, scan_word-space, scan_states-text,
}

-- A row at the beginning of an array, and behind other values.
write_row-first :
    (row back : List ℕ) (n : ℕ)
    → length back ≡ length row + n
    → (more : List ℕ) × (length more ≡ n) × (write_row back zero row ≡ some (row ++ more))
unfolding write_row
write_row-first [] back n fits = (back, omega (arith, fits), refl)
write_row-first (r ∷ row) [] n fits = absurd (omega (arith, fits))
write_row-first (r ∷ row) (v ∷ back) n fits =
    let (more, same, w) = write_row-first row back n (omega (arith, fits)) in
    (more, same, ap (value_in_front r) w)

write_row-behind :
    (front back : List ℕ) (r : ℕ) (rs new : List ℕ)
    → write_row back zero (r ∷ rs) ≡ some new
    → write_row (front ++ back) (length front) (r ∷ rs) ≡ some (front ++ new)
unfolding write_row
write_row-behind [] back r rs new w = w
write_row-behind (c ∷ front) back r rs new w =
    ap (value_in_front c) (write_row-behind front back r rs new w)

write_row-place :
    (front back row new : List ℕ) (place : ℕ)
    → 1 ≤ length row
    → length front ≡ place
    → write_row back zero row ≡ some new
    → write_row (front ++ back) place row ≡ some (front ++ new)
write_row-place front back [] new place some_value e w = absurd (omega (arith, some_value))
write_row-place front back (r ∷ row) new place some_value e w =
    ap (λ k. write_row (front ++ back) k (r ∷ row)) (sym e)
    ∙ write_row-behind front back r row new w

one_more_row : (m k : ℕ) → suc m * k ≡ k + m * k
one_more_row m k = ground arith

abbrev pub all_values : List Core → List ℕ
all_values [] = []
all_values (c ∷ cs) = c.values ++ all_values cs

module _ (file : ℕ → List ℕ) (n states opened : ℕ) where
  abbrev pub filling : List ℕ → List ℕ → Filling
  filling values text = record {
    cores = n;
    states = suc states;
    more = false;
    values = values;
    text = text;
    opened = opened;
  }

  fill_line-core :
      (core : ℕ) (number vs rest values new : List ℕ)
      → IsCore states (record { number = number; values = vs })
      → write_row values (core * suc states) vs ≡ some new
      → fill_line file
          (filling values (core_text (record { number = number; values = vs }) rest))
          core
          (scan_word (core_text (record { number = number; values = vs }) rest))
        ≡ scanned (filling new rest)
  unfolding behind_prefix
  fill_line-core core number [] rest values new valid w = absurd (omega (arith, valid.3))
  fill_line-core core number (v ∷ vs) rest values new valid w =
      rw
        (
          scan_word-space (cpu_prefix ++ number) _ valid.0,
          valid.1,
          sym valid.3,
          scan_states-text (v ∷ vs) rest valid.2,
        )
        (ap
          (λ o.
            written file
              (record (filling values
                (core_text (record { number = number; values = v ∷ vs }) rest)) {
                  states = length (v ∷ vs);
                })
              o (scanned rest))
          (ap (λ k. write_row values (core * k) (v ∷ vs)) valid.3 ∙ w))

  fill_cores-step :
      (fuel core : ℕ) (f : Filling)
      → fill_cores file (suc fuel) core f ≡ (
          if ltb core f.cores
          then then_core file
              (fill_cores file fuel (suc core))
              (fill_line file f core (scan_word f.text))
          else scanned f)
  unfolding fill_cores
  fill_cores-step fuel core f = refl

  -- The cores that are left are read into the rest of the array.
  pub fill_cores-text :
      (cs : List Core) (rest front back : List ℕ) (core fuel : ℕ)
      → AllCores states cs
      → n ≡ core + length cs
      → length front ≡ core * suc states
      → length back ≡ length cs * suc states
      → length cs < fuel
      → fill_cores file fuel core (filling (front ++ back) (cores_text cs rest))
        ≡ scanned (filling (front ++ all_values cs) rest)
  fill_cores-text cs rest front back core zero valid all place room more =
      absurd (omega (arith, more))
  fill_cores-text [] rest front [] core (suc fuel) valid all place room more =
      fill_cores-step fuel core (filling (front ++ []) rest) ∙ rw all (ground arith)
  fill_cores-text [] rest front (v ∷ back) core (suc fuel) valid all place room more =
      absurd (omega (arith, room))
  fill_cores-text (c ∷ cs) rest front back core (suc fuel) valid all place room more =
      let core_valid = valid.0 in
      let len : length back ≡ length c.values + length cs * suc states =
        omega (arith, room, one_more_row (length cs) (suc states), core_valid.3) in
      let (left, same, w) = write_row-first c.values back (length cs * suc states) len in
      let row : List ℕ = c.values in
      let text : List ℕ = cores_text cs rest in
      fill_cores-step fuel core (filling (front ++ back) (core_text c text))
      ∙ ap
          (λ t.
            if t
            then then_core file (fill_cores file fuel (suc core)) (
                fill_line file (filling (front ++ back) (core_text c text)) core
                  (scan_word (core_text c text)))
            else scanned (filling (front ++ back) (core_text c text)))
          (let e : ltb core n ≡ true = ground (arith, all) in e)
      ∙ ap (then_core file (fill_cores file fuel (suc core))) (
          fill_line-core core c.number row text (front ++ back) (front ++ (row ++ left)) core_valid
            (write_row-place front back row (row ++ left) (core * suc states)
              (omega (arith, core_valid.3)) place w))
      ∙ ap (λ vs. fill_cores file fuel (suc core) (filling vs text))
          (sym (append_assoc front row left))
      ∙ fill_cores-text cs rest (front ++ row) left (suc core) fuel valid.1 (omega (arith, all))
          (omega
            (arith, place, length-append front row, core_valid.3, one_more_row core (suc states)))
          same (omega (arith, more))
      ∙ ap (λ vs. scanned (filling vs rest)) (append_assoc front row (all_values cs))

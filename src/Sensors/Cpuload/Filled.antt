-- ===== src/Sensors/Cpuload/Filled.antt =====
-- modules/sensors/cpuload/cpuload.c, fill_prev: the first reading of a file with the lines of the cores.
use dimmon.Prelude.{
  ℕ, zero, suc, ◌*◌, ◌<◌, ◌≤◌, ◌≡◌, ◌∙◌, refl, ap, true, false, ==_ne, none, some, List, [], ◌∷◌,
  ◌++◌, length, ltb, if◌then◌else◌, arith,
}
use dimmon.State.{Sys, ok, malloc}
use dimmon.Sensors.Cpuload.{scanned, cpu_prefix, skip_first}
use dimmon.Sensors.Cpuload.Prev.{
  Cpuload, Filling, fill_rounds, fill_prev, word_behind, cores_behind, first_behind, fresh_values,
  recount, filled_round,
}
use dimmon.Sensors.Cpuload.Stat.{
  Core, AllCores, cores_text, Behind, IsBehind, text_behind, skip_first-line, scan_word-space,
}
use dimmon.Sensors.Cpuload.First.{all_values, filling, fill_cores-text}

length-fresh_values : (garbage n : ℕ) → length (fresh_values garbage n) ≡ n
length-fresh_values garbage zero = refl
length-fresh_values garbage (suc n) = ap suc (length-fresh_values garbage n)

module _ (file : ℕ → List ℕ) (states : ℕ) (b : Behind) (cs : List Core) (behind : IsBehind b)
    (valid : AllCores states cs) where
  abbrev tail : List ℕ
  tail = b.word ++ (32 ∷ b.rest)

  abbrev start : ℕ → List ℕ → List ℕ → Filling
  start opened values text = filling file (length cs) states opened values text

  first_behind-text :
      (fuel opened : ℕ) (values : List ℕ)
      → length values ≡ length cs * suc states
      → length cs < fuel
      → first_behind file fuel
          (start opened values (text_behind b cs))
          (skip_first cpu_prefix (text_behind b cs))
        ≡ scanned (start opened (all_values cs) tail, true)
  first_behind-text fuel opened values room more =
      ap (first_behind file fuel (start opened values (text_behind b cs)))
        (skip_first-line b.first (cores_text cs tail) behind.0)
      ∙ ap (cores_behind file) (
          fill_cores-text file (length cs) states opened cs tail [] values 0 fuel valid
            (omega arith) (omega arith) room more)
      ∙ ap (word_behind file (start opened (all_values cs) tail))
          (scan_word-space b.word b.rest behind.1)
      ∙ ap
          (λ t.
            if t
            then scanned (recount file (start opened (all_values cs) tail), false)
            else scanned (start opened (all_values cs) tail, true))
          behind.2

  module _ (c : Cpuload) (s : Sys)
      (counted : (c.num_cores ≡ length cs) × (c.num_states ≡ suc states)) (new : c.prev_val ≡ none)
      (memory : s.mem s.mallocs ≡ true) (some_core : 1 ≤ length cs) (garbage fuel : ℕ)
      (more : length cs < suc fuel) where
    abbrev read_once : Cpuload
    read_once = record c {
      prev_val = some (all_values cs);
      prev_val_filled = true;
      opens = suc c.opens;
    }

    pub fill_prev-text :
        file c.opens ≡ text_behind b cs
        → fill_prev file garbage (suc fuel) c false s
          ≡ ok (read_once, 0) (record s { mallocs = suc s.mallocs })
    unfolding fill_prev fill_rounds malloc
    fill_prev-text text =
        let fresh : List ℕ = fresh_values garbage (length cs * suc states) in
        let some_state : ltb 0 (suc states) ≡ true = ground arith in
        let some_cores : ltb 0 (length cs) ≡ true = ground (arith, some_core) in
        rw
          (
            counted.0,
            counted.1,
            some_state,
            some_cores,
            new,
            memory,
            ==_ne (suc s.mallocs) 0 (omega arith),
            text,
          )
          (ap
            (λ m.
              filled_round file (fill_rounds file garbage fuel)
                (record c {
                  num_cores = length cs;
                  num_states = suc states;
                  prev_val_filled = false;
                })
                m (record s { mallocs = suc s.mallocs }))
            (first_behind-text (suc fuel) (suc c.opens) fresh
              (length-fresh_values garbage (length cs * suc states)) more))

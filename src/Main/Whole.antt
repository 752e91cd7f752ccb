-- ===== src/Main/Whole.antt =====
-- dmm_main.c: a configuration file as a whole.
use dimmon.Prelude.{ℕ, suc, ◌+◌, ◌<◌, ◌≡◌, ◌∙◌, refl, ap, Option, some, List, length, arith}
use dimmon.State.{Sys, Run, ok, fault, and_then, pure}
use dimmon.Module.{Library}
use dimmon.Sensors.Ifdata.Rows.{Without}
use dimmon.Main.{Config, typename_size, type_line, read_starter, read_config}
use dimmon.Main.Lines.{
  Entry, AllEntries, config_text, names, load_all, with_newline, the_mark, fgets-newline,
  chomp-newline, read_modules-entries,
}

abbrev read_at : List ℕ → ℕ → List ℕ → Option Config
read_at type lineno rest = some (record { starter_type = type; lineno = lineno; rest = rest })

read_starter-text :
    (type rest : List ℕ) (lineno : ℕ)
    → Without b'\n' type
    → length type < typename_size
    → read_starter
        (some (record { lineno = lineno; rest = with_newline type (with_newline the_mark rest) }))
      ≡ read_at type (suc (suc lineno)) rest
unfolding read_starter
read_starter-text type rest lineno clean short =
    let after : List ℕ = with_newline the_mark rest in
    ap (type_line (suc lineno)) (fgets-newline type after (clean, omega (arith, short)))
    ∙ rw (chomp-newline type) (ground (arith, short))

then_starter :
    (r : Run (Unit {0})) (type rest : List ℕ) (lineno : ℕ)
    → Without b'\n' type
    → length type < typename_size
    → and_then
        (and_then r (λ _. pure (
          some
            (record { lineno = lineno; rest = with_newline type (with_newline the_mark rest) }))))
        (λ p. pure (read_starter p))
      ≡ and_then r (λ _. pure (read_at type (suc (suc lineno)) rest))
then_starter (ok a t) type rest lineno clean short =
    ap (λ o. ok o t) (read_starter-text type rest lineno clean short)
then_starter fault type rest lineno clean short = refl

-- main loads the modules that the lines in front of the first mark name, in their order and whether or
-- not they can be loaded, passes over empty lines and comments, and takes the starter's type from the
-- line behind the mark. The number of lines that the starter is told is that of all lines up to the
-- second mark, and the starter reads on right behind it. Lines have no newline in them and are shorter
-- than the buffer, the type is shorter than a type's name may be, and the name of a module is no comment
-- and no mark. A round for each line and one more are enough.
pub read_config-config_text :
    (library : List ℕ → Option Library) (es : List Entry) (type rest : List ℕ) (fuel : ℕ) (s : Sys)
    → AllEntries es
    → Without b'\n' type
    → length type < typename_size
    → length es < fuel
    → read_config library fuel (config_text es type rest) s
      ≡ and_then
          (load_all library (names es) s)
          (λ _. pure (some (record { starter_type = type; lineno = length es + 3; rest = rest })))
unfolding read_config
read_config-config_text library es type rest fuel s entries clean short enough =
    let after : List ℕ = with_newline type (with_newline the_mark rest) in
    ap (λ r. and_then r (λ p. pure (read_starter p)))
      (read_modules-entries library es fuel 1 after s entries enough)
    ∙ then_starter (load_all library (names es) s) type rest (1 + length es) clean short
    ∙ ap (λ n. and_then (load_all library (names es) s) (λ _. pure (read_at type n rest)))
        (let e : suc (suc (1 + length es)) ≡ length es + 3 = omega arith in e)

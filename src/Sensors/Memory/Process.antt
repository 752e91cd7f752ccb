-- ===== src/Sensors/Memory/Process.antt =====
-- modules/sensors/memory/memory.c, process_timer_msg: what is sent, and when an assertion fails.
use dimmon.Prelude.{
  ℕ, zero, suc, ◌*◌, ◌/◌, ◌%◌, ◌^◌, ◌<◌, ◌≤◌, ◌≡◌, ◌≢◌, ◌∙◌, refl, ap, true, false, ◌&&◌, ==_ne,
  Bool-cases, inl, inr, Option, none, some, List, [], ◌∷◌, length, arith, ◌==◌,
}
use dimmon.State.{Addr, Errno, Call, Sys, Cmd, fault, u32_mod}
use dimmon.State.Returns.{Returns}
use dimmon.Data.{Sample}
use dimmon.Data.Walk.{IsSendable}
use dimmon.Data.Create.{create-ok}
use dimmon.Data.Send.{Listens}
use dimmon.Wavebuf.{Blocks}
use dimmon.Sensors.{le_bytes}
use dimmon.Sensors.Sending.{created, CanMeasure, Measured, send_block-Measured}
use dimmon.Sensors.Memory.{num_sensors, found, scan_loop, memory_send, memory_process}
use dimmon.Sensors.Memory.Lines.{
  Line, All, wanted, same_text, reading_of, text_of, known, with_known, take, length-lines,
  scan_loop-known, scan_loop-failed,
}

pub length-le_bytes : (n v : ℕ) → length (le_bytes n v) ≡ n
length-le_bytes zero v = refl
length-le_bytes (suc n) v = ap suc (length-le_bytes n (v / 256))

-- What is found can be put into a data node.
abbrev Fits : Option Sample → Type 0
Fits none = Unit {0}
Fits (some x) =
    (x.sensor < u32_mod)
    × (length x.values < u32_mod)
    × ((x.sensor == 0 && length x.values == 0) ≡ false)

abbrev Numbered : List (List ℕ × ℕ) → Type 0
Numbered [] = Unit {0}
Numbered ((name, id) ∷ ws) = (1 ≤ id) × (id < u32_mod) × Numbered ws

reading_of-Fits :
    (ws : List (List ℕ × ℕ)) (header : List ℕ) (v : ℕ) → Numbered ws → Fits (reading_of ws header v)
reading_of-Fits [] header v ok = tt
reading_of-Fits ((name, id) ∷ ws) header v ok = elim (Bool-cases (same_text header name)) [
  | inl e ↦
      (let n = length-le_bytes 8 (v * 1024 % 2 ^ 64) in
        rw e (
          ok.1,
          omega (arith, n),
          ap (λ b. b && length (le_bytes 8 (v * 1024 % 2 ^ 64)) == 0)
              (==_ne id 0 (λ e. omega (arith, e, ok.0))),
        ))
  | inr e ↦ rw e (reading_of-Fits ws header v ok.2)
]

wanted-Numbered : Numbered wanted
wanted-Numbered = omega arith

with_known-IsSendable :
    (o : Option Sample) (xs : List Sample) → Fits o → IsSendable xs → IsSendable (with_known o xs)
with_known-IsSendable none xs fits ok = ok
with_known-IsSendable (some x) xs fits ok = (fits, ok)

known-IsSendable : (ls : List Line) → IsSendable (known ls)
known-IsSendable [] = tt
known-IsSendable (l ∷ ls) =
    with_known-IsSendable (reading_of wanted l.header l.value) (known ls)
      (reading_of-Fits wanted l.header l.value wanted-Numbered) (known-IsSendable ls)

take-IsSendable : (n : ℕ) (xs : List Sample) → IsSendable xs → IsSendable (take n xs)
take-IsSendable zero xs ok = tt
take-IsSendable (suc n) [] ok = tt
take-IsSendable (suc n) (x ∷ xs) ok = (ok.0, take-IsSendable n xs ok.1)

length-take : (n : ℕ) (xs : List Sample) → 1 ≤ n → n ≤ length xs → 1 ≤ length (take n xs)
length-take zero xs h k = absurd (omega (arith, h))
length-take (suc n) [] h k = absurd (omega (arith, k))
length-take (suc n) (x ∷ xs) h k = omega arith

module _ (rcvdata : ℕ → Addr → Addr → Cmd Errno) (type_rcvdata : Addr → Option ℕ) (fuel : ℕ)
    (text : List ℕ) (hook : Addr) (blocks : Blocks) (s : Sys) where
  created_run :
      hook ≢ 0
      → s.mem s.mallocs ≡ true
      → s.mem (suc s.mallocs) ≡ true
      → memory_process rcvdata type_rcvdata fuel text hook blocks s
        ≡ memory_send rcvdata type_rcvdata fuel hook blocks
            (suc s.mallocs)
            (scan_loop (suc (length text)) 0 text false)
            (created num_sensors (num_sensors * 8) s)
  unfolding memory_process
  created_run output first second =
      rw
        (
          ==_ne hook 0 output,
          create-ok num_sensors (num_sensors * 8) s first second,
          ==_ne (suc s.mallocs) 0 (omega arith),
        )
        refl

module _ (rcvdata : ℕ → Addr → Addr → Cmd Errno) (type_rcvdata : Addr → Option ℕ)
    (observed : List Call → List Addr) (listens : Listens rcvdata observed) (fuel : ℕ) (hook : Addr)
    (blocks : Blocks) (s : Sys) (can : CanMeasure type_rcvdata fuel hook s) where
  memory_send-Measured :
      (xs : List Sample)
      → 1 ≤ length xs
      → IsSendable xs
      → Returns
          (memory_send rcvdata type_rcvdata fuel hook blocks
            (suc s.mallocs)
            (found xs)
            (created num_sensors (num_sensors * 8) s))
          (Measured observed hook s xs)
  memory_send-Measured [] some_found sendable = absurd (omega (arith, some_found))
  memory_send-Measured (x ∷ xs) some_found sendable =
      send_block-Measured rcvdata type_rcvdata observed listens fuel hook blocks s can num_sensors
        (num_sensors * 8) (x ∷ xs) sendable

  -- When the file begins with lines of which at least eleven have one of the eleven names as their whole
  -- header, the first eleven of these go to every peer of the output in one object, once and in order,
  -- whatever follows in the file: for each a data node with the number that sensors.h has for the name,
  -- and the value times 1024, in 64 bits. The lines have a header of less than sixty bytes, spaces, a
  -- value of 64 bits and the unit, there is an output, memory for the object, and the output and its
  -- peers are able to send and receive. More rounds than peers are enough.
  pub memory_process-Measured :
      (ls : List Line) (rest : List ℕ)
      → hook ≢ 0
      → All ls
      → num_sensors ≤ length (known ls)
      → Returns
          (memory_process rcvdata type_rcvdata fuel (text_of ls rest) hook blocks s)
          (Measured observed hook s (take num_sensors (known ls)))
  memory_process-Measured ls rest output lines enough =
      rw
        (
          created_run rcvdata type_rcvdata fuel (text_of ls rest) hook blocks s output can.memory.0
              can.memory.1,
          scan_loop-known ls rest (suc (length (text_of ls rest))) 0 lines
              (omega (arith, length-lines ls rest)) (omega (arith, enough)),
        )
        (memory_send-Measured (take num_sensors (known ls))
          (length-take num_sensors (known ls) (omega arith) enough)
          (take-IsSendable num_sensors (known ls) (known-IsSendable ls)))

-- When the file is made of lines with a header of less than sixty bytes, spaces, a value of 64 bits and
-- the unit, and less than eleven of them have one of the eleven names as their whole header, an assertion
-- of the node fails, for any peers of its output. There is an output, and memory for the object.
pub memory_process-fault :
    (rcvdata : ℕ → Addr → Addr → Cmd Errno) (type_rcvdata : Addr → Option ℕ) (fuel : ℕ)
    (ls : List Line) (hook : Addr) (blocks : Blocks) (s : Sys)
    → hook ≢ 0
    → s.mem s.mallocs ≡ true
    → s.mem (suc s.mallocs) ≡ true
    → All ls
    → length (known ls) < num_sensors
    → memory_process rcvdata type_rcvdata fuel (text_of ls []) hook blocks s ≡ fault
memory_process-fault rcvdata type_rcvdata fuel ls hook blocks s output first second lines few =
    created_run rcvdata type_rcvdata fuel (text_of ls []) hook blocks s output first second
    ∙ ap
        (λ r.
          memory_send rcvdata type_rcvdata fuel hook blocks (suc s.mallocs) r
            (created num_sensors (num_sensors * 8) s))
        (scan_loop-failed ls (suc (length (text_of ls []))) 0 lines
          (omega (arith, length-lines ls [])) (omega (arith, few)))

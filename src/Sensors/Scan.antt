-- ===== src/Sensors/Scan.antt =====
-- The functions of stdio that the sensors read text files with, over the bytes that are left in the
-- file. A number has no sign in front of it.
use dimmon.Prelude.{
  ℕ, zero, suc, ◌-◌, ◌^◌, Option, none, some, List, [], ◌∷◌, ◌==◌, if◌then◌else◌, ltb,
}
use dimmon.Starter.Triplet.{skip_spaces, take_digits, starts_with_digit}

-- A scanset of all bytes but one, of at most n bytes: what is taken, and the rest.
abbrev pub in_front : ℕ → List ℕ × List ℕ → List ℕ × List ℕ
in_front c (l, r) = (c ∷ l, r)

unfoldable pub span_to : ℕ → ℕ → List ℕ → List ℕ × List ℕ
span_to zero stop cs = ([], cs)
span_to (suc n) stop [] = ([], [])
span_to (suc n) stop (c ∷ cs) = if c == stop then ([], c ∷ cs) else in_front c (span_to n stop cs)

-- The same without a bound.
unfoldable pub skip_to : ℕ → List ℕ → List ℕ
skip_to stop [] = []
skip_to stop (c ∷ cs) = if c == stop then c ∷ cs else skip_to stop cs

-- One byte of any kind.
abbrev pub skip_one : List ℕ → List ℕ
skip_one [] = []
skip_one (c ∷ cs) = cs

abbrev pub u64_max : ℕ
u64_max = 2 ^ 64 - 1

-- "%llu": spaces, and the digits of a number, which stops at the greatest of 64 bits.
abbrev pub number_at : List ℕ → Option (ℕ × List ℕ)
number_at cs =
    if starts_with_digit cs
    then (let (v, rest) = take_digits 0 cs in some (if ltb u64_max v then u64_max else v, rest))
    else none

unfoldable pub scan_number : List ℕ → Option (ℕ × List ℕ)
unfolding take_digits skip_spaces
scan_number cs = number_at (skip_spaces cs)

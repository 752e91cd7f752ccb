-- ===== src/Sensors/Memory/Lines.antt =====
-- modules/sensors/memory/memory.c: what is found in a text of lines.
use dimmon.Prelude.{
  length-append, ◌/◌, ◌%◌, ◌*◌, ◌^◌, ◌==◌, ◌&&◌, if◌then◌else◌, Bool, true, ℕ, zero, suc, ◌+◌, ◌-◌,
  ◌<◌, ◌≤◌, ◌≡◌, ◌∙◌, refl, ap, sym, false, Option, none, some, List, [], ◌∷◌, ◌++◌, length, arith,
  inl, inr, ◌⊎◌, ◌⊎◌,
}
use dimmon.Data.{Sample}
use dimmon.Netip.HostPort.{NoColon}
use dimmon.Starter.{digits, decimal}
use dimmon.Starter.Triplet.{take_digits, is_digit}
use dimmon.Starter.Digits.{decimal-digits, digits-head, take_digits-digits}
use dimmon.Sensors.Scan.{span_to, skip_to, scan_number, number_at, u64_max, in_front}
use dimmon.Starter.Triplet.{skip_spaces}
use dimmon.Hook.{strneq}
use dimmon.Sensors.{le_bytes}
use dimmon.Sensors.Memory.{
  codes, SearchItem, item, scan_item, header_of, behind_header, value_of, search, search_list,
  num_sensors, scan_loop, found, failed, with_sample, keep_item, after_item,
}

abbrev pub pad : ℕ → List ℕ → List ℕ
pad zero rest = rest
pad (suc n) rest = 32 ∷ pad n rest

span_to-stop :
    (h rest : List ℕ) (n : ℕ)
    → NoColon h
    → length h < n
    → span_to n b':' (h ++ (b':' ∷ rest)) ≡ (h, b':' ∷ rest)
unfolding span_to
span_to-stop h rest zero clean short = absurd (omega (arith, short))
span_to-stop [] rest (suc n) clean short = refl
span_to-stop (c ∷ h) rest (suc n) clean short =
    rw (clean.0) (ap (in_front c) (span_to-stop h rest n clean.1 (omega (arith, short))))

skip_spaces-pad : (n : ℕ) (rest : List ℕ) → skip_spaces (pad n rest) ≡ skip_spaces rest
unfolding skip_spaces
skip_spaces-pad zero rest = refl
skip_spaces-pad (suc n) rest = skip_spaces-pad n rest

skip_spaces-digit : (c : ℕ) (cs : List ℕ) → b'0' ≤ c → c ≤ b'9' → skip_spaces (c ∷ cs) ≡ c ∷ cs
unfolding skip_spaces
skip_spaces-digit c cs low high = ground (arith, low, high)

number_at-digit :
    (c v : ℕ) (cs rest : List ℕ)
    → b'0' ≤ c
    → c ≤ b'9'
    → take_digits 0 (c ∷ cs) ≡ (v, rest)
    → v ≤ u64_max
    → number_at (c ∷ cs) ≡ some (v, rest)
number_at-digit c v cs rest low high e small = rw (e) (ground (arith, low, high, small))

take_digits-stop :
    (v c : ℕ) (rest : List ℕ) → is_digit c ≡ false → take_digits v (c ∷ rest) ≡ (v, c ∷ rest)
unfolding take_digits
take_digits-stop v c rest e = rw e refl

-- A printed number is read back, behind spaces.
pub scan_number-decimal :
    (n v c : ℕ) (rest : List ℕ)
    → is_digit c ≡ false
    → v ≤ u64_max
    → scan_number (pad n (decimal v (c ∷ rest))) ≡ some (v, c ∷ rest)
unfolding scan_number
scan_number-decimal n v c rest other small =
    let (d, ds, e, low, high) = digits-head (suc v) v (c ∷ rest) (omega arith) in
    let there : decimal v (c ∷ rest) ≡ d ∷ ds = decimal-digits v (c ∷ rest) ∙ e in
    ap number_at (
      skip_spaces-pad n (decimal v (c ∷ rest))
      ∙ ap skip_spaces there
      ∙ skip_spaces-digit d ds low high)
    ∙ number_at-digit d v ds (c ∷ rest) low high
        (ap (take_digits 0) (sym e)
          ∙ take_digits-digits (suc v) v (c ∷ rest) (omega arith)
          ∙ take_digits-stop v c rest other)
        small

-- A line of the file, with its value in kilobytes.
pub record Line : Type 0 where
  pub header : List ℕ
  pub spaces : ℕ
  pub value : ℕ

abbrev pub IsLine : Line → Type 0
IsLine l = NoColon l.header × (1 ≤ length l.header) × (length l.header < 60) × (l.value ≤ u64_max)

abbrev pub All : List Line → Type 0
All [] = Unit {0}
All (l ∷ ls) = IsLine l × All ls

abbrev unit_of : List ℕ → List ℕ
unit_of rest = b' ' ∷ b'k' ∷ b'B' ∷ b'\n' ∷ rest

abbrev behind_colon : Line → List ℕ → List ℕ
behind_colon l rest = pad l.spaces (decimal l.value (unit_of rest))

abbrev line_text : Line → List ℕ → List ℕ
line_text l rest = l.header ++ (b':' ∷ behind_colon l rest)

-- The text of the lines, and what follows.
abbrev pub text_of : List Line → List ℕ → List ℕ
text_of [] rest = rest
text_of (l ∷ ls) rest = line_text l (text_of ls rest)

header_of-cons : (h r : List ℕ) → 1 ≤ length h → header_of (h, r) ≡ behind_header h r
header_of-cons [] r h = absurd (omega (arith, h))
header_of-cons (c ∷ cs) r h = refl

scan_item-line :
    (l : Line) (rest : List ℕ)
    → IsLine l
    → scan_item (line_text l rest) ≡ item l.header l.value rest false
unfolding scan_item
scan_item-line l rest (clean, some_header, short, small) =
    ap header_of (span_to-stop l.header (behind_colon l rest) 60 clean short)
    ∙ header_of-cons l.header (b':' ∷ behind_colon l rest) some_header
    ∙ ap (value_of l.header (behind_colon l rest))
        (scan_number-decimal l.spaces l.value b' ' (b'k' ∷ b'B' ∷ b'\n' ∷ rest) refl small)

-- What is reported, by the names in /proc/meminfo and the numbers in sensors.h.
abbrev pub wanted : List (List ℕ × ℕ)
wanted =
    (codes "MemTotal", 520)
    ∷ (codes "MemFree", 521)
    ∷ (codes "MemAvailable", 522)
    ∷ (codes "Buffers", 523)
    ∷ (codes "Cached", 524)
    ∷ (codes "Active", 526)
    ∷ (codes "Inactive", 527)
    ∷ (codes "Mlocked", 533)
    ∷ (codes "AnonPages", 538)
    ∷ (codes "Mapped", 539)
    ∷ (codes "Shmem", 540)
    ∷ []

abbrev pub same_text : List ℕ → List ℕ → Bool
same_text [] [] = true
same_text [] (d ∷ b) = false
same_text (c ∷ a) [] = false
same_text (c ∷ a) (d ∷ b) = c == d && same_text a b

-- The value of a line in bytes, under the number of the name that is the whole header.
abbrev pub reading_of : List (List ℕ × ℕ) → List ℕ → ℕ → Option Sample
reading_of [] header v = none
reading_of ((name, id) ∷ ws) header v =
    if same_text header name
    then some (record { sensor = id; values = le_bytes 8 (v * 1024 % 2 ^ 64) })
    else reading_of ws header v

strneq-same_text : (n : ℕ) (a b : List ℕ) → length a < n → strneq n a b ≡ same_text a b
unfolding strneq
strneq-same_text zero a b short = absurd (omega (arith, short))
strneq-same_text (suc n) [] [] short = refl
strneq-same_text (suc n) [] (d ∷ b) short = refl
strneq-same_text (suc n) (c ∷ a) [] short = refl
strneq-same_text (suc n) (c ∷ a) (d ∷ b) short =
    ap (λ t. c == d && t) (strneq-same_text n a b (omega (arith, short)))

abbrev Converted : List SearchItem → Type 0
Converted [] = Unit {0}
Converted (i ∷ is) = (i.convert_from_k ≡ true) × Converted is

abbrev named : List SearchItem → List (List ℕ × ℕ)
named [] = []
named (i ∷ is) = (i.header, i.sensor_id) ∷ named is

search-reading_of :
    (is : List SearchItem) (header : List ℕ) (v : ℕ)
    → Converted is
    → length header < 64
    → search is header v ≡ reading_of (named is) header v
unfolding search
search-reading_of [] header v converted short = refl
search-reading_of (i ∷ is) header v converted short =
    rw
      (
        strneq-same_text 64 header i.header short,
        converted.0,
        search-reading_of is header v converted.1 short,
      )
      refl

-- The samples of the lines that are reported.
abbrev pub with_known : Option Sample → List Sample → List Sample
with_known none xs = xs
with_known (some x) xs = x ∷ xs

abbrev pub known : List Line → List Sample
known [] = []
known (l ∷ ls) = with_known (reading_of wanted l.header l.value) (known ls)

abbrev pub take : ℕ → List Sample → List Sample
take zero xs = []
take (suc n) [] = []
take (suc n) (x ∷ xs) = x ∷ take n xs

module _ (fuel n : ℕ) where
  scan_full : (cs : List ℕ) → num_sensors ≤ n → scan_loop (suc fuel) n cs false ≡ found []
  unfolding scan_loop
  scan_full cs h = ground (arith, h)

  scan_more :
      (cs : List ℕ)
      → n < num_sensors
      → scan_loop (suc fuel) n cs false ≡ after_item (scan_loop fuel) n (scan_item cs)
  unfolding scan_loop
  scan_more cs h = ground (arith, h)

  scan_line :
      (l : Line) (rest : List ℕ)
      → n < num_sensors
      → IsLine l
      → scan_loop (suc fuel) n (line_text l rest) false
        ≡ keep_item (scan_loop fuel) n (reading_of wanted l.header l.value) rest false
  scan_line l rest h ok =
      scan_more (line_text l rest) h
      ∙ ap (after_item (scan_loop fuel) n) (scan_item-line l rest ok)
      ∙ ap (λ o. keep_item (scan_loop fuel) n o rest false)
          (search-reading_of search_list l.header l.value (ground arith) (omega (arith, ok.2)))

full_or : (n : ℕ) → (n < num_sensors) ⊎ (num_sensors ≤ n)
full_or n = omega arith

take-none : (n : ℕ) (xs : List Sample) → num_sensors ≤ n → take (num_sensors - n) xs ≡ []
take-none n xs h = ap (λ k. take k xs) (let e : num_sensors - n ≡ 0 = omega (arith, h) in e)

take-some :
    (n : ℕ) (x : Sample) (xs : List Sample)
    → n < num_sensors
    → take (num_sensors - n) (x ∷ xs) ≡ x ∷ take (num_sensors - suc n) xs
take-some n x xs h =
    ap (λ k. take k (x ∷ xs))
      (let e : num_sensors - n ≡ suc (num_sensors - suc n) = omega (arith, h) in e)

-- A line, and the others by induction.
keep_known :
    (o : Option Sample) (ks : List Sample) (rest : List ℕ) (fuel n : ℕ)
    → n < num_sensors
    → num_sensors ≤ n + length (with_known o ks)
    → ((m : ℕ)
        → num_sensors ≤ m + length ks
        → scan_loop fuel m rest false ≡ found (take (num_sensors - m) ks))
    → keep_item (scan_loop fuel) n o rest false ≡ found (take (num_sensors - n) (with_known o ks))
keep_known none ks rest fuel n more h ih = ih n h
keep_known (some x) ks rest fuel n more h ih =
    ap (with_sample x) (ih (suc n) (omega (arith, h))) ∙ ap found (sym (take-some n x ks more))

-- The lines are read until enough are found, whatever follows.
pub scan_loop-known :
    (ls : List Line) (rest : List ℕ) (fuel n : ℕ)
    → All ls
    → length ls < fuel
    → num_sensors ≤ n + length (known ls)
    → scan_loop fuel n (text_of ls rest) false ≡ found (take (num_sensors - n) (known ls))
scan_loop-known ls rest zero n ok enough h = absurd (omega (arith, enough))
scan_loop-known [] rest (suc fuel) n ok enough h =
    scan_full fuel n rest (omega (arith, h)) ∙ ap found (sym (take-none n [] (omega (arith, h))))
scan_loop-known (l ∷ ls) rest (suc fuel) n ok enough h = elim (full_or n) [
  | inr full ↦
      scan_full fuel n (text_of (l ∷ ls) rest) full
      ∙ ap found (sym (take-none n (known (l ∷ ls)) full))
  | inl more ↦
      scan_line fuel n l (text_of ls rest) more ok.0
      ∙ keep_known (reading_of wanted l.header l.value) (known ls) (text_of ls rest) fuel n more h
          (λ m k. scan_loop-known ls rest fuel m ok.1 (omega (arith, enough)) k)
]

-- A file that ends before enough are found.
keep_failed :
    (o : Option Sample) (ks : List Sample) (rest : List ℕ) (fuel n : ℕ)
    → n + length (with_known o ks) < num_sensors
    → ((m : ℕ) → m + length ks < num_sensors → scan_loop fuel m rest false ≡ failed)
    → keep_item (scan_loop fuel) n o rest false ≡ failed
keep_failed none ks rest fuel n h ih = ih n h
keep_failed (some x) ks rest fuel n h ih = ap (with_sample x) (ih (suc n) (omega (arith, h)))

scan_end : (fuel n : ℕ) → n < num_sensors → scan_loop (suc fuel) n [] false ≡ failed
unfolding scan_item span_to skip_to
scan_end fuel n h = scan_more fuel n [] h

pub scan_loop-failed :
    (ls : List Line) (fuel n : ℕ)
    → All ls
    → length ls < fuel
    → n + length (known ls) < num_sensors
    → scan_loop fuel n (text_of ls []) false ≡ failed
scan_loop-failed ls zero n ok enough h = absurd (omega (arith, enough))
scan_loop-failed [] (suc fuel) n ok enough h = scan_end fuel n (omega (arith, h))
scan_loop-failed (l ∷ ls) (suc fuel) n ok enough h =
    scan_line fuel n l (text_of ls []) (omega (arith, h)) ok.0
    ∙ keep_failed (reading_of wanted l.header l.value) (known ls) (text_of ls []) fuel n h
        (λ m k. scan_loop-failed ls fuel m ok.1 (omega (arith, enough)) k)

length-pad : (n : ℕ) (rest : List ℕ) → length rest ≤ length (pad n rest)
length-pad zero rest = omega arith
length-pad (suc n) rest = omega (arith, length-pad n rest)

length-le_digits : (fuel n : ℕ) (rest : List ℕ) → length rest ≤ length (digits fuel n rest)
unfolding digits
length-le_digits zero n rest = omega arith
length-le_digits (suc fuel) n rest =
    ground (arith, length-le_digits fuel (n / 10) ((b'0' + n % 10) ∷ rest))

length-line : (l : Line) (rest : List ℕ) → suc (length rest) ≤ length (line_text l rest)
unfolding decimal
length-line l rest = omega (
  arith,
  length-append l.header (b':' ∷ behind_colon l rest),
  length-pad l.spaces (decimal l.value (unit_of rest)),
  length-le_digits (suc l.value) l.value (unit_of rest),
)

-- The text is longer than the number of its lines.
pub length-lines : (ls : List Line) (rest : List ℕ) → length ls ≤ length (text_of ls rest)
length-lines [] rest = omega arith
length-lines (l ∷ ls) rest = omega (arith, length-line l (text_of ls rest), length-lines ls rest)

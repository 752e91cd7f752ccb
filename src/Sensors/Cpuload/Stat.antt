-- ===== src/Sensors/Cpuload/Stat.antt =====
-- modules/sensors/cpuload/cpuload.c: what is read from a text of the form of /proc/stat.
use dimmon.Prelude.{
  ℕ, zero, suc, ◌<◌, ◌≤◌, ◌≡◌, ◌∙◌, refl, ap, false, true, some, List, [], ◌∷◌, ◌++◌, if◌then◌else◌,
  length, arith,
}
use dimmon.Starter.{decimal}
use dimmon.Starter.Triplet.{is_digit, is_space, skip_spaces}
use dimmon.Sensors.Scan.{u64_max}
use dimmon.Sensors.Memory.Lines.{scan_number-decimal, pad}
use dimmon.Sensors.Ifdata.Rows.{Without, skip_to-stop, Small, num_text}
use dimmon.Sensors.Cpuload.{
  Scan, scanned, changed, cpu_prefix, skip_first, end_of_line, has_prefix, ◌>>=◌, take_word,
  in_word, some_word, scan_word, behind_prefix, is_core, has_number, must_scan, scan_states,
  scan_newline, scan_core,
}

abbrev pub NoSpace : List ℕ → Type 0
NoSpace [] = Unit {0}
NoSpace (c ∷ cs) = (is_space c ≡ false) × NoSpace cs

take_word-space :
    (w rest : List ℕ) (n : ℕ)
    → NoSpace w
    → length w < n
    → take_word n (w ++ (32 ∷ rest)) ≡ (w, 32 ∷ rest)
unfolding take_word
take_word-space w rest zero clean short = absurd (omega (arith, short))
take_word-space [] rest (suc n) clean short = refl
take_word-space (c ∷ w) rest (suc n) clean short =
    rw (clean.0) (ap (in_word c) (take_word-space w rest n clean.1 (omega (arith, short))))

skip_spaces-word : (w cs : List ℕ) → NoSpace w → 1 ≤ length w → skip_spaces (w ++ cs) ≡ w ++ cs
unfolding skip_spaces
skip_spaces-word [] cs clean h = absurd (omega (arith, h))
skip_spaces-word (c ∷ w) cs clean h = rw (clean.0) refl

some_word-cons : (w rest : List ℕ) → 1 ≤ length w → some_word (w, rest) ≡ scanned (w, rest)
some_word-cons [] rest h = absurd (omega (arith, h))
some_word-cons (c ∷ w) rest h = refl

-- A word in front of a space.
abbrev pub IsWord : List ℕ → Type 0
IsWord w = NoSpace w × (1 ≤ length w) × (length w < 31)

pub scan_word-space :
    (w rest : List ℕ) → IsWord w → scan_word (w ++ (32 ∷ rest)) ≡ scanned (w, 32 ∷ rest)
unfolding scan_word
scan_word-space w rest (clean, some_byte, short) =
    ap (λ cs. some_word (take_word 31 cs)) (skip_spaces-word w (32 ∷ rest) clean some_byte)
    ∙ ap some_word (take_word-space w rest 31 clean short)
    ∙ some_word-cons w (32 ∷ rest) some_byte

no_states : (cs : List ℕ) → scan_states zero cs ≡ scanned ([], cs)
unfolding scan_states
no_states cs = refl

abbrev then_states : ℕ → Scan (ℕ × List ℕ) → Scan (List ℕ × List ℕ)
then_states n m = m >>= λ r. scan_states n r.1 >>= λ q. scanned (r.0 ∷ q.0, q.1)

scan_state :
    (n v c : ℕ) (rest : List ℕ)
    → is_digit c ≡ false
    → v ≤ u64_max
    → scan_states (suc n) (pad 1 (decimal v (c ∷ rest))) ≡ then_states n (scanned (v, c ∷ rest))
unfolding scan_states
scan_state n v c rest other small =
    ap (λ o. then_states n (must_scan o)) (scan_number-decimal 1 v c rest other small)

pub scan_states-text :
    (vs rest : List ℕ)
    → Small vs
    → scan_states (length vs) (num_text 0 vs (b'\n' ∷ rest)) ≡ scanned (vs, b'\n' ∷ rest)
scan_states-text [] rest small = no_states (b'\n' ∷ rest)
scan_states-text (v ∷ []) rest small =
    scan_state 0 v b'\n' rest refl small.0
    ∙ ap (λ m. m >>= λ q. scanned (v ∷ q.0, q.1)) (no_states (b'\n' ∷ rest))
scan_states-text (v ∷ w ∷ ws) rest small =
    scan_state (length (w ∷ ws)) v 32 (decimal w (num_text 0 ws (b'\n' ∷ rest))) refl small.0
    ∙ ap (λ m. m >>= λ q. scanned (v ∷ q.0, q.1)) (scan_states-text (w ∷ ws) rest small.1)

-- The line of a core: its number, and its counters.
pub record Core : Type 0 where
  pub number : List ℕ
  pub values : List ℕ

abbrev pub label : Core → List ℕ
label c = cpu_prefix ++ c.number

abbrev pub IsCore : ℕ → Core → Type 0
IsCore states c =
    IsWord (label c)
    × (has_number (some c.number) ≡ true)
    × Small c.values
    × (length c.values ≡ suc states)

abbrev pub AllCores : ℕ → List Core → Type 0
AllCores states [] = Unit {0}
AllCores states (c ∷ cs) = IsCore states c × AllCores states cs

abbrev pub core_text : Core → List ℕ → List ℕ
core_text c rest = label c ++ num_text 0 c.values (b'\n' ∷ rest)

abbrev pub cores_text : List Core → List ℕ → List ℕ
cores_text [] rest = rest
cores_text (c ∷ cs) rest = core_text c (cores_text cs rest)

abbrev then_core : ℕ → List ℕ × List ℕ → Scan (List ℕ × List ℕ)
then_core states w =
    if is_core w.0
    then (scan_states states w.1 >>= λ q. scan_newline q.1 >>= λ rest. scanned (q.0, rest))
    else changed

scan_core-word :
    (states : ℕ) (c : Core) (rest : List ℕ)
    → IsWord (label c)
    → has_number (some c.number) ≡ true
    → scan_core states (label c ++ (32 ∷ rest))
      ≡ (scan_states states (32 ∷ rest) >>= λ q. scan_newline q.1 >>= λ more. scanned (q.0, more))
unfolding scan_core behind_prefix
scan_core-word states c rest word digit =
    ap (λ m. m >>= then_core states) (scan_word-space (label c) rest word)
    ∙ ap
        (λ b.
          if b
          then (scan_states states (32 ∷ rest) >>= λ q.
              scan_newline q.1 >>= λ more. scanned (q.0, more))
          else changed)
        digit

pub scan_core-text :
    (states : ℕ) (number vs rest : List ℕ)
    → IsCore states (record { number = number; values = vs })
    → scan_core (suc states) (core_text (record { number = number; values = vs }) rest)
      ≡ scanned (vs, rest)
scan_core-text states number [] rest core = absurd (omega (arith, core.3))
scan_core-text states number (v ∷ vs) rest core =
    scan_core-word (suc states) (record { number = number; values = v ∷ vs })
      (decimal v (num_text 0 vs (b'\n' ∷ rest))) core.0 core.1
    ∙ ap
        (λ n. scan_states n (num_text 0 (v ∷ vs) (b'\n' ∷ rest)) >>= λ q.
          scan_newline q.1 >>= λ more. scanned (q.0, more))
        (let e : suc states ≡ length (v ∷ vs) = omega (arith, core.3) in e)
    ∙ ap (λ m. m >>= λ q. scan_newline q.1 >>= λ more. scanned (q.0, more))
        (scan_states-text (v ∷ vs) rest core.2)

-- The first line, the lines of the cores, and the word behind them.
pub record Behind : Type 0 where
  pub first : List ℕ
  pub word : List ℕ
  pub rest : List ℕ

abbrev pub text_behind : Behind → List Core → List ℕ
text_behind b cs =
    cpu_prefix ++ (32 ∷ (b.first ++ (b'\n' ∷ cores_text cs (b.word ++ (32 ∷ b.rest)))))

abbrev pub IsBehind : Behind → Type 0
IsBehind b =
    Without b'\n' b.first × IsWord b.word × (has_prefix (behind_prefix cpu_prefix b.word) ≡ false)

pub skip_first-line :
    (l rest : List ℕ)
    → Without b'\n' l
    → skip_first cpu_prefix (cpu_prefix ++ (32 ∷ (l ++ (b'\n' ∷ rest)))) ≡ scanned rest
unfolding skip_first
skip_first-line l rest clean = ap end_of_line (skip_to-stop b'\n' l rest clean)

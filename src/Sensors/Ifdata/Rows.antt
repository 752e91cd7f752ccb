-- ===== src/Sensors/Ifdata/Rows.antt =====
-- modules/sensors/ifdata/ifdata.c: what is read from a table of interfaces.
use dimmon.Prelude.{
  ℕ, zero, suc, ◌≤◌, ◌≡◌, ◌∙◌, refl, ap, false, some, List, [], ◌∷◌, ◌++◌, ◌==◌, length, arith,
}
use dimmon.Starter.{decimal}
use dimmon.Starter.Triplet.{is_digit}
use dimmon.Sensors.Scan.{skip_to, u64_max}
use dimmon.Sensors.Memory.Lines.{pad, scan_number-decimal}
use dimmon.Sensors.Ifdata.{
  Counters, skip_line, behind_end, scan_colon, colon_in, read_numbers, number_or, and_number,
  stored, numbers_at, scan_row, scan_rows, with_row, cons_some, scan_table, rows_at, second_line,
}

abbrev pub Without : ℕ → List ℕ → Type 0
Without stop [] = Unit {0}
Without stop (c ∷ cs) = ((c == stop) ≡ false) × Without stop cs

pub skip_to-stop :
    (stop : ℕ) (h rest : List ℕ) → Without stop h → skip_to stop (h ++ (stop ∷ rest)) ≡ stop ∷ rest
unfolding skip_to
skip_to-stop stop [] rest clean = ground arith
skip_to-stop stop (c ∷ h) rest clean = rw (clean.0) (skip_to-stop stop h rest clean.1)

-- A row of the table: sixteen numbers behind the name of an interface.
pub record Row : Type 0 where
  pub name : List ℕ
  pub gap : ℕ
  pub counters : Counters
  pub others : ℕ → ℕ

abbrev pub numbers : Row → List ℕ
numbers r =
    r.counters.bytes_in
    ∷ r.counters.packets_in
    ∷ r.others 0
    ∷ r.others 1
    ∷ r.others 2
    ∷ r.others 3
    ∷ r.others 4
    ∷ r.others 5
    ∷ r.counters.bytes_out
    ∷ r.counters.packets_out
    ∷ r.others 6
    ∷ r.others 7
    ∷ r.others 8
    ∷ r.others 9
    ∷ r.others 10
    ∷ r.others 11
    ∷ []

abbrev pub Small : List ℕ → Type 0
Small [] = Unit {0}
Small (v ∷ vs) = (v ≤ u64_max) × Small vs

abbrev pub IsRow : Row → Type 0
IsRow r = Without b':' r.name × (1 ≤ length r.name) × Small (numbers r)

abbrev pub AllRows : List Row → Type 0
AllRows [] = Unit {0}
AllRows (r ∷ rs) = IsRow r × AllRows rs

abbrev pub num_text : ℕ → List ℕ → List ℕ → List ℕ
num_text g [] rest = rest
num_text g (v ∷ vs) rest = pad (suc g) (decimal v (num_text g vs rest))

abbrev pub row_text : List ℕ → Row → List ℕ → List ℕ
row_text name r rest = name ++ (b':' ∷ num_text r.gap (numbers r) (b'\n' ∷ rest))

abbrev pub rows_text : List Row → List ℕ → List ℕ
rows_text [] rest = rest
rows_text (r ∷ rs) rest = row_text r.name r (rows_text rs rest)

-- A table, with the two lines of its header.
abbrev pub table_text : List ℕ → List ℕ → List Row → List ℕ → List ℕ
table_text h k rs rest = h ++ (b'\n' ∷ (k ++ (b'\n' ∷ rows_text rs rest)))

read_number :
    (n g v c : ℕ) (rest : List ℕ)
    → is_digit c ≡ false
    → v ≤ u64_max
    → read_numbers (suc n) (pad (suc g) (decimal v (c ∷ rest)))
      ≡ and_number v (read_numbers n (c ∷ rest))
unfolding read_numbers
read_number n g v c rest other small =
    ap (number_or (read_numbers n) (pad (suc g) (decimal v (c ∷ rest))))
      (scan_number-decimal (suc g) v c rest other small)

no_numbers : (cs : List ℕ) → read_numbers zero cs ≡ ([], cs)
unfolding read_numbers
no_numbers cs = refl

read_numbers-text :
    (g : ℕ) (vs rest : List ℕ)
    → Small vs
    → read_numbers (length vs) (num_text g vs (b'\n' ∷ rest)) ≡ (vs, b'\n' ∷ rest)
read_numbers-text g [] rest small = no_numbers (b'\n' ∷ rest)
read_numbers-text g (v ∷ []) rest small =
    read_number 0 g v b'\n' rest refl small.0 ∙ ap (and_number v) (no_numbers (b'\n' ∷ rest))
read_numbers-text g (v ∷ w ∷ ws) rest small =
    read_number (length (w ∷ ws)) g v 32 (pad g (decimal w (num_text g ws (b'\n' ∷ rest)))) refl
      small.0
    ∙ ap (and_number v) (read_numbers-text g (w ∷ ws) rest small.1)

colon_in-none :
    (n cs rest : List ℕ)
    → Without b':' n
    → 1 ≤ length n
    → colon_in (n ++ cs) (b':' ∷ rest) ≡ some rest
colon_in-none [] cs rest clean h = absurd (omega (arith, h))
colon_in-none (c ∷ n) cs rest clean h = rw (clean.0) refl

pub scan_colon-name :
    (name rest : List ℕ)
    → Without b':' name
    → 1 ≤ length name
    → scan_colon (name ++ (b':' ∷ rest)) ≡ some rest
unfolding scan_colon
scan_colon-name name rest clean h =
    ap (colon_in (name ++ (b':' ∷ rest))) (skip_to-stop b':' name rest clean)
    ∙ colon_in-none name (b':' ∷ rest) rest clean h

-- A row, with what was left of the row in front of it.
scan_row-text :
    (name : List ℕ) (r : Row) (rest : List ℕ)
    → Without b':' name
    → 1 ≤ length name
    → Small (numbers r)
    → scan_row (row_text name r rest) ≡ some (r.counters, b'\n' ∷ rest)
unfolding scan_row
scan_row-text name r rest clean h small =
    ap numbers_at (scan_colon-name name (num_text r.gap (numbers r) (b'\n' ∷ rest)) clean h)
    ∙ ap stored (read_numbers-text r.gap (numbers r) rest small)

abbrev pub counters_of : List Row → List Counters
counters_of [] = []
counters_of (r ∷ rs) = r.counters ∷ counters_of rs

scan_rows-step :
    (n : ℕ) (name : List ℕ) (r : Row) (rest : List ℕ)
    → Without b':' name
    → 1 ≤ length name
    → Small (numbers r)
    → scan_rows (suc n) (row_text name r rest) ≡ cons_some r.counters (scan_rows n (b'\n' ∷ rest))
unfolding scan_rows
scan_rows-step n name r rest clean h small =
    ap (with_row (scan_rows n)) (scan_row-text name r rest clean h small)

no_rows : (cs : List ℕ) → scan_rows zero cs ≡ some []
unfolding scan_rows
no_rows cs = refl

scan_rows-later :
    (rs : List Row) (rest : List ℕ)
    → AllRows rs
    → scan_rows (length rs) (b'\n' ∷ rows_text rs rest) ≡ some (counters_of rs)
scan_rows-later [] rest ok = no_rows (b'\n' ∷ rest)
scan_rows-later (r ∷ rs) rest ok =
    scan_rows-step (length rs) (b'\n' ∷ r.name) r (rows_text rs rest) (refl, ok.0.0) (omega arith)
      ok.0.2
    ∙ ap (cons_some r.counters) (scan_rows-later rs rest ok.1)

scan_rows-text :
    (rs : List Row) (rest : List ℕ)
    → AllRows rs
    → scan_rows (length rs) (rows_text rs rest) ≡ some (counters_of rs)
scan_rows-text [] rest ok = no_rows rest
scan_rows-text (r ∷ rs) rest ok =
    scan_rows-step (length rs) r.name r (rows_text rs rest) ok.0.0 ok.0.1 ok.0.2
    ∙ ap (cons_some r.counters) (scan_rows-later rs rest ok.1)

pub skip_line-header :
    (h rest : List ℕ) → Without b'\n' h → skip_line (h ++ (b'\n' ∷ rest)) ≡ some rest
unfolding skip_line
skip_line-header h rest clean = ap behind_end (skip_to-stop b'\n' h rest clean)

module _ (h k : List ℕ) (header : Without b'\n' h × Without b'\n' k) (rs : List Row)
    (ok : AllRows rs) where
  -- As many rows as there are interfaces, whatever follows.
  pub scan_table-text :
      (rest : List ℕ) → scan_table (length rs) (table_text h k rs rest) ≡ some (counters_of rs)
  unfolding scan_table
  scan_table-text rest =
      ap (λ o. rows_at (length rs) (second_line o))
        (skip_line-header h (k ++ (b'\n' ∷ rows_text rs rest)) header.0)
      ∙ ap (rows_at (length rs)) (skip_line-header k (rows_text rs rest) header.1)
      ∙ scan_rows-text rs rest ok

-- ===== src/Sensors/Ifdata/Count.antt =====
-- modules/sensors/ifdata/ifdata.c, init: the number of the interfaces of a table.
use dimmon.Prelude.{
  ℕ, zero, suc, ◌+◌, ◌/◌, ◌%◌, ◌<◌, ◌≤◌, ◌≡◌, ◌∙◌, refl, ap, some, List, [], ◌∷◌, ◌++◌, length,
  arith,
}
use dimmon.Starter.{digits, decimal}
use dimmon.Starter.Digits.{decimal-digits}
use dimmon.Sensors.Scan.{skip_to}
use dimmon.Sensors.Memory.Lines.{pad}
use dimmon.Sensors.Ifdata.{skip_line, behind_end, count_interfaces, count_more, ifdata_init, left}
use dimmon.Sensors.Ifdata.Rows.{
  Row, numbers, AllRows, Without, num_text, row_text, rows_text, table_text, scan_colon-name,
  skip_line-header,
}

skip_to-pad : (n : ℕ) (rest : List ℕ) → skip_to b'\n' (pad n rest) ≡ skip_to b'\n' rest
unfolding skip_to
skip_to-pad zero rest = refl
skip_to-pad (suc n) rest = skip_to-pad n rest

skip_to-digits :
    (fuel n : ℕ) (rest : List ℕ) → skip_to b'\n' (digits fuel n rest) ≡ skip_to b'\n' rest
unfolding skip_to digits
skip_to-digits zero n rest = refl
skip_to-digits (suc fuel) n rest =
    ground (arith, skip_to-digits fuel (n / 10) ((b'0' + n % 10) ∷ rest))

skip_to-numbers :
    (g : ℕ) (vs rest : List ℕ) → skip_to b'\n' (num_text g vs rest) ≡ skip_to b'\n' rest
skip_to-numbers g [] rest = refl
skip_to-numbers g (v ∷ vs) rest =
    skip_to-pad (suc g) (decimal v (num_text g vs rest))
    ∙ ap (skip_to b'\n') (decimal-digits v (num_text g vs rest))
    ∙ skip_to-digits (suc v) v (num_text g vs rest)
    ∙ skip_to-numbers g vs rest

skip_to-here : (rest : List ℕ) → skip_to b'\n' (b'\n' ∷ rest) ≡ b'\n' ∷ rest
unfolding skip_to
skip_to-here rest = refl

skip_line-numbers :
    (g : ℕ) (vs rest : List ℕ) → skip_line (num_text g vs (b'\n' ∷ rest)) ≡ some rest
unfolding skip_line
skip_line-numbers g vs rest =
    ap behind_end (skip_to-numbers g vs (b'\n' ∷ rest) ∙ skip_to-here rest)

count_end : (fuel : ℕ) → count_interfaces (suc fuel) [] ≡ 0
unfolding count_interfaces skip_to
count_end fuel = refl

count_row :
    (fuel : ℕ) (r : Row) (rest : List ℕ)
    → Without b':' r.name
    → 1 ≤ length r.name
    → count_interfaces (suc fuel) (row_text r.name r rest) ≡ suc (count_interfaces fuel rest)
unfolding count_interfaces
count_row fuel r rest clean h =
    ap (count_more (count_interfaces fuel))
      (scan_colon-name r.name (num_text r.gap (numbers r) (b'\n' ∷ rest)) clean h)
    ∙ ap (λ o. suc (count_interfaces fuel (left o))) (skip_line-numbers r.gap (numbers r) rest)

count_rows :
    (rs : List Row) (fuel : ℕ)
    → AllRows rs
    → length rs < fuel
    → count_interfaces fuel (rows_text rs []) ≡ length rs
count_rows rs zero ok enough = absurd (omega (arith, enough))
count_rows [] (suc fuel) ok enough = count_end fuel
count_rows (r ∷ rs) (suc fuel) ok enough =
    count_row fuel r (rows_text rs []) ok.0.0 ok.0.1
    ∙ ap suc (count_rows rs fuel ok.1 (omega (arith, enough)))

-- The rows of a table are counted.
pub ifdata_init-rows :
    (h k : List ℕ) (rs : List Row) (fuel : ℕ)
    → Without b'\n' h
    → Without b'\n' k
    → AllRows rs
    → length rs < fuel
    → ifdata_init fuel (table_text h k rs []) ≡ length rs
unfolding ifdata_init
ifdata_init-rows h k rs fuel clean clean' ok enough =
    ap (λ o. count_interfaces fuel (left (skip_line (left o))))
      (skip_line-header h (k ++ (b'\n' ∷ rows_text rs [])) clean)
    ∙ ap (λ o. count_interfaces fuel (left o)) (skip_line-header k (rows_text rs []) clean')
    ∙ count_rows rs fuel ok enough

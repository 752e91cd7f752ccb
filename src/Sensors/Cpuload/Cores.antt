-- ===== src/Sensors/Cpuload/Cores.antt =====
-- modules/sensors/cpuload/cpuload.c: the loop over the cores, on the lines of as many cores.
use dimmon.Prelude.{ℕ, zero, suc, ◌≡◌, ◌∙◌, refl, ap, sym, some, List, [], ◌∷◌, ◌++◌, length, arith}
use dimmon.Data.{Sample}
use dimmon.Sensors.Cpuload.{
  Scan, scanned, ◌>>=◌, cons_first, row_of, split_row, deltas, total_delta, append_core, scan_core,
  scan_cores,
}
use dimmon.Sensors.Cpuload.Stat.{Core, IsCore, core_text, cores_text, scan_core-text}
use dimmon.Sensors.Cpuload.Columns.{Load, AllShares, append_all}

split_row-append : (row more : List ℕ) → split_row (length row) (row ++ more) ≡ some (row, more)
unfolding split_row
split_row-append [] more = refl
split_row-append (v ∷ row) more = ap (cons_first v) (split_row-append row more)

-- A core, with the values that its counters had before.
pub record Reading : Type 0 where
  pub core : Core
  pub before : List ℕ

abbrev pub IsReading : ℕ → Reading → Type 0
IsReading states r = IsCore states r.core × (length r.before ≡ suc states)

abbrev pub AllReadings : ℕ → List Reading → Type 0
AllReadings states [] = Unit {0}
AllReadings states (r ∷ rs) = IsReading states r × AllReadings states rs

abbrev pub cores_of : List Reading → List Core
cores_of [] = []
cores_of (r ∷ rs) = r.core ∷ cores_of rs

abbrev pub before_of : List Reading → List ℕ
before_of [] = []
before_of (r ∷ rs) = r.before ++ before_of rs

abbrev pub values_of : List Reading → List ℕ
values_of [] = []
values_of (r ∷ rs) = r.core.values ++ values_of rs

abbrev pub load_of : Reading → Load
load_of r = record {
  shares = deltas r.core.values r.before;
  total = total_delta (deltas r.core.values r.before);
}

abbrev pub loads_of : List Reading → List Load
loads_of [] = []
loads_of (r ∷ rs) = load_of r ∷ loads_of rs

pub length-loads_of : (rs : List Reading) → length (loads_of rs) ≡ length rs
length-loads_of [] = refl
length-loads_of (r ∷ rs) = ap suc (length-loads_of rs)

length-deltas : (cs ps : List ℕ) → length cs ≡ length ps → length (deltas cs ps) ≡ length cs
unfolding deltas
length-deltas [] ps same = refl
length-deltas (c ∷ cs) [] same = absurd (omega (arith, same))
length-deltas (c ∷ cs) (p ∷ ps) same = ap suc (length-deltas cs ps (omega (arith, same)))

pub loads_of-AllShares :
    (states : ℕ) (rs : List Reading) → AllReadings states rs → AllShares (suc states) (loads_of rs)
loads_of-AllShares states [] readings = tt
loads_of-AllShares states (r ∷ rs) readings =
    let (core, same) = readings.0 in
    (
      length-deltas r.core.values r.before (omega (arith, core.3, same)) ∙ core.3,
      loads_of-AllShares states rs readings.1,
    )

module _ (quotient : ℕ → ℕ → List ℕ) (states : ℕ) where
  abbrev with_core :
      ℕ → List ℕ → List Sample → List ℕ × List ℕ → Scan (List Sample × List ℕ × List ℕ)
  with_core cores prev xs q = row_of (split_row (suc states) prev) >>= λ r.
      scan_cores quotient cores (suc states) r.1 q.1
        (append_core quotient (total_delta (deltas q.0 r.0)) (deltas q.0 r.0) xs)
      >>= λ t. scanned (t.0, q.0 ++ t.1, t.2)

  scan_cores-step :
      (cores : ℕ) (prev cs : List ℕ) (xs : List Sample)
      → scan_cores quotient (suc cores) (suc states) prev cs xs
        ≡ (scan_core (suc states) cs >>= with_core cores prev xs)
  unfolding scan_cores
  scan_cores-step cores prev cs xs = refl

  no_cores :
      (prev cs : List ℕ) (xs : List Sample)
      → scan_cores quotient zero (suc states) prev cs xs ≡ scanned (xs, prev, cs)
  unfolding scan_cores
  no_cores prev cs xs = refl

  pub scan_cores-text :
      (rs : List Reading) (rest : List ℕ) (xs : List Sample)
      → AllReadings states rs
      → scan_cores quotient
          (length rs)
          (suc states)
          (before_of rs)
          (cores_text (cores_of rs) rest)
          xs
        ≡ scanned (append_all quotient (loads_of rs) xs, values_of rs, rest)
  scan_cores-text [] rest xs readings = no_cores [] rest xs
  scan_cores-text (r ∷ rs) rest xs readings =
      let (core, same) = readings.0 in
      let text : List ℕ = cores_text (cores_of rs) rest in
      let n : suc states ≡ length r.before = sym same in
      scan_cores-step (length rs) (r.before ++ before_of rs) (core_text r.core text) xs
      ∙ ap (λ m. m >>= with_core (length rs) (r.before ++ before_of rs) xs)
          (scan_core-text states r.core.number r.core.values text core)
      ∙ ap
          (λ m. row_of m >>= λ q.
            scan_cores quotient (length rs) (suc states) q.1 text (
              append_core quotient (total_delta (deltas r.core.values q.0))
                (deltas r.core.values q.0) xs)
            >>= λ t. scanned (t.0, r.core.values ++ t.1, t.2))
          (ap (λ k. split_row k (r.before ++ before_of rs)) n
            ∙ split_row-append r.before (before_of rs))
      ∙ ap (λ m. m >>= λ t. scanned (t.0, r.core.values ++ t.1, t.2))
          (scan_cores-text rs rest
            (append_core quotient (total_delta (deltas r.core.values r.before))
              (deltas r.core.values r.before) xs)
            readings.1)

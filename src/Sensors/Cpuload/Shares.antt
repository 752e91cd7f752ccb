-- ===== src/Sensors/Cpuload/Shares.antt =====
-- modules/sensors/cpuload/cpuload.c: the numbers that are divided.
use dimmon.Prelude.{
  ℕ, ◌+◌, ◌-◌, ◌%◌, ◌^◌, ◌<◌, ◌≤◌, ◌≡◌, ◌∙◌, refl, ap, List, [], ◌∷◌, ◌==◌, if◌then◌else◌, arith,
}
use dimmon.Sensors.Cpuload.{delta, deltas, sum_deltas, total_delta}

-- A counter of 64 bits that has grown, with any wrap.
abbrev pub after : ℕ → ℕ → ℕ
after prev grown = (prev + grown) % 2 ^ 64

delta-after :
    (prev grown : ℕ) → prev < 2 ^ 64 → grown < 2 ^ 63 → delta (after prev grown) prev ≡ grown
unfolding delta
delta-after prev grown small short = ground (arith, small, short)

-- What has become of each counter: it has grown, or it has decreased.
pub data Change : Type 0 where
  grown decreased : ℕ → Change

abbrev pub now_of : List ℕ → List Change → List ℕ
now_of [] gs = []
now_of (p ∷ ps) [] = []
now_of (p ∷ ps) (grown g ∷ gs) = after p g ∷ now_of ps gs
now_of (p ∷ ps) (decreased g ∷ gs) = (p + 2 ^ 64 - g) % 2 ^ 64 ∷ now_of ps gs

abbrev pub growth : List Change → List ℕ
growth [] = []
growth (grown g ∷ gs) = g ∷ growth gs
growth (decreased g ∷ gs) = 0 ∷ growth gs

abbrev pub IsChange : ℕ → Change → Type 0
IsChange p (grown g) = (p < 2 ^ 64) × (g < 2 ^ 63)
IsChange p (decreased g) = (p < 2 ^ 64) × (g < 2 ^ 63) × (1 ≤ g)

-- As many changes as counters.
abbrev pub Changes : List ℕ → List Change → Type 0
Changes [] [] = Unit {0}
Changes [] (g ∷ gs) = ⊥
Changes (p ∷ ps) [] = ⊥
Changes (p ∷ ps) (g ∷ gs) = IsChange p g × Changes ps gs

delta-decreased :
    (p g : ℕ) → p < 2 ^ 64 → g < 2 ^ 63 → 1 ≤ g → delta ((p + 2 ^ 64 - g) % 2 ^ 64) p ≡ 0
unfolding delta
delta-decreased p g small short some_loss = ground (arith, small, short, some_loss)

deltas-now : (ps : List ℕ) (gs : List Change) → Changes ps gs → deltas (now_of ps gs) ps ≡ growth gs
unfolding deltas
deltas-now [] [] ok = refl
deltas-now [] (g ∷ gs) ok = absurd ok
deltas-now (p ∷ ps) [] ok = absurd ok
deltas-now (p ∷ ps) (grown g ∷ gs) ok =
    rw (delta-after p g ok.0.0 ok.0.1, deltas-now ps gs ok.1) refl
deltas-now (p ∷ ps) (decreased g ∷ gs) ok =
    rw (delta-decreased p g ok.0.0 ok.0.1 ok.0.2, deltas-now ps gs ok.1) refl

abbrev pub sum : List ℕ → ℕ
sum [] = 0
sum (d ∷ ds) = d + sum ds

sum_deltas-sum : (ds : List ℕ) (acc : ℕ) → acc + sum ds < 2 ^ 64 → sum_deltas acc ds ≡ acc + sum ds
unfolding sum_deltas
sum_deltas-sum [] acc fits = omega arith
sum_deltas-sum (d ∷ ds) acc fits =
    sum_deltas-sum ds ((acc + d) % 2 ^ 64) (omega (arith, fits)) ∙ omega (arith, fits)

total_delta-sum :
    (ds : List ℕ) → sum ds < 2 ^ 64 → total_delta ds ≡ (if sum ds == 0 then 1 else sum ds)
unfolding total_delta
total_delta-sum ds fits = rw (sum_deltas-sum ds 0 (omega (arith, fits))) (ground arith)

-- The shares of a core are what each counter has grown by, divided by the sum of this over all states, or
-- by 1 if no counter has grown; a counter that has decreased has the share 0. Counters wrap at 64 bits,
-- change by less than half of this, and their growth together is below it.
pub shares_of_growth :
    (ps : List ℕ) (gs : List Change)
    → Changes ps gs
    → sum (growth gs) < 2 ^ 64
    → (deltas (now_of ps gs) ps ≡ growth gs)
      × (total_delta (deltas (now_of ps gs) ps)
          ≡ (if sum (growth gs) == 0 then 1 else sum (growth gs)))
shares_of_growth ps gs ok fits =
    (deltas-now ps gs ok, ap total_delta (deltas-now ps gs ok) ∙ total_delta-sum (growth gs) fits)

-- ===== src/Sensors/Cpuload/Columns.antt =====
-- modules/sensors/cpuload/cpuload.c: the data nodes of the states hold the values of all cores.
use dimmon.Prelude.{
  ℕ, zero, suc, ◌+◌, ◌*◌, ◌<◌, ◌≤◌, ◌≡◌, ◌∙◌, refl, ap, sym, List, [], ◌∷◌, ◌++◌, length,
  length-append, arith,
}
use mathlib.Core.List.{append-nil, append_assoc}
use mathlib.Core.Path.{subst}
use dimmon.State.{u32_mod}
use dimmon.Data.{Sample}
use dimmon.Data.Walk.{IsSendable}
use dimmon.Sensors.Cpuload.{append_core, state_nodes}

-- What the counters of a core have grown by, and their sum.
pub record Load : Type 0 where
  pub shares : List ℕ
  pub total : ℕ

abbrev rest_of : List ℕ → List ℕ
rest_of [] = []
rest_of (d ∷ ds) = ds

abbrev rests : List Load → List Load
rests [] = []
rests (l ∷ ls) = record l { shares = rest_of l.shares } ∷ rests ls

abbrev pub AllShares : ℕ → List Load → Type 0
AllShares n [] = Unit {0}
AllShares n (l ∷ ls) = (length l.shares ≡ n) × AllShares n ls

pub length-state_nodes : (n sensor : ℕ) → length (state_nodes n sensor) ≡ n
unfolding state_nodes
length-state_nodes zero sensor = refl
length-state_nodes (suc n) sensor = ap suc (length-state_nodes n (suc sensor))

module _ (quotient : ℕ → ℕ → List ℕ) where
  abbrev share_bytes : ℕ → List ℕ → List ℕ
  share_bytes total [] = []
  share_bytes total (d ∷ ds) = quotient d total

  -- The values of the first state over the cores, and the data nodes of all states.
  abbrev first_column : List Load → List ℕ
  first_column [] = []
  first_column (l ∷ ls) = share_bytes l.total l.shares ++ first_column ls

  abbrev pub columns : List Sample → List Load → List Sample
  columns [] ls = []
  columns (x ∷ xs) ls = record x { values = x.values ++ first_column ls } ∷ columns xs (rests ls)

  columns-nil : (xs : List Sample) → columns xs [] ≡ xs
  columns-nil [] = refl
  columns-nil (x ∷ xs) =
      ap (λ v. record x { values = v } ∷ columns xs []) (append-nil x.values)
      ∙ ap (λ ys. x ∷ ys) (columns-nil xs)

  columns-append_core :
      (xs : List Sample) (ds : List ℕ) (total : ℕ) (ls : List Load)
      → length ds ≡ length xs
      → columns (append_core quotient total ds xs) ls
        ≡ columns xs (record { shares = ds; total = total } ∷ ls)
  unfolding append_core
  columns-append_core [] [] total ls same = refl
  columns-append_core [] (d ∷ ds) total ls same = absurd (omega (arith, same))
  columns-append_core (x ∷ xs) [] total ls same = absurd (omega (arith, same))
  columns-append_core (x ∷ xs) (d ∷ ds) total ls same =
      ap (λ v. record x { values = v } ∷ columns (append_core quotient total ds xs) (rests ls))
        (append_assoc x.values (quotient d total) (first_column ls))
      ∙ ap (λ ys. record x { values = x.values ++ (quotient d total ++ first_column ls) } ∷ ys)
          (columns-append_core xs ds total (rests ls) (omega (arith, same)))

  pub length-append_core :
      (xs : List Sample) (ds : List ℕ) (total : ℕ)
      → length ds ≡ length xs
      → length (append_core quotient total ds xs) ≡ length xs
  unfolding append_core
  length-append_core [] [] total same = refl
  length-append_core [] (d ∷ ds) total same = absurd (omega (arith, same))
  length-append_core (x ∷ xs) [] total same = absurd (omega (arith, same))
  length-append_core (x ∷ xs) (d ∷ ds) total same =
      ap suc (length-append_core xs ds total (omega (arith, same)))

  abbrev pub append_all : List Load → List Sample → List Sample
  append_all [] xs = xs
  append_all (l ∷ ls) xs = append_all ls (append_core quotient l.total l.shares xs)

  -- The cores one after the other give the states one after the other.
  pub append_all-columns :
      (ls : List Load) (xs : List Sample)
      → AllShares (length xs) ls
      → append_all ls xs ≡ columns xs ls
  append_all-columns [] xs shares = sym (columns-nil xs)
  append_all-columns (l ∷ ls) xs shares =
      append_all-columns ls (append_core quotient l.total l.shares xs) (
        subst (λ n. AllShares n ls) (sym (length-append_core xs l.shares l.total shares.0))
          shares.1)
      ∙ columns-append_core xs l.shares l.total ls shares.0

length-rests : (ls : List Load) → length (rests ls) ≡ length ls
length-rests [] = refl
length-rests (l ∷ ls) = ap suc (length-rests ls)

module _ (quotient : ℕ → ℕ → List ℕ) (float : (d total : ℕ) → length (quotient d total) ≡ 4) where
  length-share_bytes : (total : ℕ) (ds : List ℕ) → length (share_bytes quotient total ds) ≤ 4
  length-share_bytes total [] = omega arith
  length-share_bytes total (d ∷ ds) = omega (arith, float d total)

  length-first_column : (ls : List Load) → length (first_column quotient ls) ≤ 4 * length ls
  length-first_column [] = omega arith
  length-first_column (l ∷ ls) = omega (
    arith,
    length-append (share_bytes quotient l.total l.shares) (first_column quotient ls),
    length-share_bytes l.total l.shares,
    length-first_column ls,
  )

  pub columns-IsSendable :
      (n sensor : ℕ) (ls : List Load)
      → 1 ≤ sensor
      → sensor + n ≤ u32_mod
      → 4 * length ls < u32_mod
      → IsSendable (columns quotient (state_nodes n sensor) ls)
  unfolding state_nodes
  columns-IsSendable zero sensor ls some_sensor few short = tt
  columns-IsSendable (suc n) sensor ls some_sensor few short = (
    (omega (arith, few), omega (arith, length-first_column ls, short), ground (arith, some_sensor)),
    columns-IsSendable n (suc sensor) (rests ls) (omega arith) (omega (arith, few))
        (omega (arith, length-rests ls, short)),
  )

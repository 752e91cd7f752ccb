-- ===== src/Starter/Digits.antt =====
-- modules/starter/starter.c: numbers printed in decimal, as they are read again.
use dimmon.Prelude.{
  ℕ, zero, suc, ◌+◌, ◌*◌, ◌/◌, ◌^◌, ◌⊎◌, inl, inr, ◌%◌, ◌≤◌, ◌<◌, ◌≡◌, ◌∙◌, refl, ap, some, List,
  [], ◌∷◌, length, arith,
}
use dimmon.Starter.{digits, decimal, clip}
use dimmon.Starter.Triplet.{take_digits, split_slash}
use dimmon.Graph.{scan_digits}

pub decimal-digits : (n : ℕ) (rest : List ℕ) → decimal n rest ≡ digits (suc n) n rest
unfolding decimal
decimal-digits n rest = refl

-- The last digit, and the others in front of it.
digits-last : (fuel n : ℕ) (rest : List ℕ) → n < 10 → digits (suc fuel) n rest ≡ (b'0' + n) ∷ rest
unfolding digits
digits-last fuel n rest small = ground (arith, small)

digits-more :
    (fuel n : ℕ) (rest : List ℕ)
    → 10 ≤ n
    → digits (suc fuel) n rest ≡ digits fuel (n / 10) ((b'0' + n % 10) ∷ rest)
unfolding digits
digits-more fuel n rest big = ground (arith, big)

ten_cases : (n : ℕ) → (n < 10) ⊎ (10 ≤ n)
ten_cases n = ground arith

-- A printed number begins with a digit.
pub digits-head :
    (fuel n : ℕ) (rest : List ℕ)
    → n < fuel
    → (c : ℕ) × (cs : List ℕ) × (digits fuel n rest ≡ c ∷ cs) × (b'0' ≤ c) × (c ≤ b'9')
digits-head zero n rest enough = absurd (omega (arith, enough))
digits-head (suc fuel) n rest enough = elim (ten_cases n) [
  | inl small ↦ (b'0' + n, rest, digits-last fuel n rest small, omega arith, omega (arith, small))
  | inr big ↦
      let (c, cs, e, low, high) =
        digits-head fuel (n / 10) ((b'0' + n % 10) ∷ rest) (omega (arith, big, enough)) in
      (c, cs, digits-more fuel n rest big ∙ e, low, high)
]

pub take_digits-digits :
    (fuel n : ℕ) (rest : List ℕ)
    → n < fuel
    → take_digits 0 (digits fuel n rest) ≡ take_digits n rest
unfolding take_digits
take_digits-digits zero n rest enough = absurd (omega (arith, enough))
take_digits-digits (suc fuel) n rest enough = elim (ten_cases n) [
  | inl small ↦ ap (take_digits 0) (digits-last fuel n rest small) ∙ ground (arith, small)
  | inr big ↦
      ap (take_digits 0) (digits-more fuel n rest big)
      ∙ take_digits-digits fuel (n / 10) ((b'0' + n % 10) ∷ rest) (omega (arith, big, enough))
      ∙ ground (arith, big)
]

pub scan_digits-digits :
    (fuel n : ℕ) (rest : List ℕ)
    → n < fuel
    → scan_digits 0 (digits fuel n rest) ≡ scan_digits n rest
unfolding scan_digits
scan_digits-digits zero n rest enough = absurd (omega (arith, enough))
scan_digits-digits (suc fuel) n rest enough = elim (ten_cases n) [
  | inl small ↦ ap (scan_digits 0) (digits-last fuel n rest small) ∙ ground (arith, small)
  | inr big ↦
      ap (scan_digits 0) (digits-more fuel n rest big)
      ∙ scan_digits-digits fuel (n / 10) ((b'0' + n % 10) ∷ rest) (omega (arith, big, enough))
      ∙ ground (arith, big)
]

pub split_slash-digits :
    (fuel n : ℕ) (rest l r : List ℕ)
    → n < fuel
    → split_slash rest ≡ some (l, r)
    → split_slash (digits fuel n rest) ≡ some (digits fuel n l, r)
unfolding split_slash
split_slash-digits zero n rest l r enough e = absurd (omega (arith, enough))
split_slash-digits (suc fuel) n rest l r enough e = elim (ten_cases n) [
  | inl small ↦
      rw (digits-last fuel n rest small, digits-last fuel n l small) (ground (arith, small, e))
  | inr big ↦
      rw (digits-more fuel n rest big, digits-more fuel n l big)
        (split_slash-digits fuel (n / 10) ((b'0' + n % 10) ∷ rest) ((b'0' + n % 10) ∷ l) r
          (omega (arith, big, enough)) (ground (arith, e)))
]

pub clip-short : (k : ℕ) (cs : List ℕ) → length cs ≤ k → clip k cs ≡ cs
clip-short zero [] h = refl
clip-short zero (c ∷ cs) h = absurd (omega (arith, h))
clip-short (suc k) [] h = refl
clip-short (suc k) (c ∷ cs) h = ap (◌∷◌ c) (clip-short k cs (omega (arith, h)))

tenth : (n m : ℕ) → n < 10 * m → n / 10 < m
tenth n m h = omega (arith, h)

-- Ten digits are enough for a number of 32 bits.
pub length-digits :
    (fuel n k : ℕ) (rest : List ℕ)
    → n < 10 ^ suc k
    → n < fuel
    → length (digits fuel n rest) ≤ suc k + length rest
length-digits zero n k rest small enough = absurd (omega (arith, enough))
length-digits (suc fuel) n zero rest small enough = ground (arith, digits-last fuel n rest)
length-digits (suc fuel) n (suc k) rest small enough = elim (ten_cases n) [
  | inl one ↦ ground (arith, digits-last fuel n rest one)
  | inr big ↦ rw (digits-more fuel n rest big) (
      omega (
        arith,
        length-digits fuel (n / 10) k ((b'0' + n % 10) ∷ rest)
            (tenth n (10 ^ suc k) (ground (arith, small))) (omega (arith, big, enough)),
      ))
]

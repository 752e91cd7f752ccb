-- ===== src/Prelude/Lists.antt =====
-- Lists of addresses, as the intrusive lists of queue.h hold them: length, membership, removal.
use Prim.Native.Nat.{ℕ, zero, suc, ◌+◌, ◌≤◌}
use mathlib.Core.Path.{◌≡◌, refl}
use mathlib.Core.Logic.{◌≢◌}
use mathlib.Core.Bool.{Bool, true, false, ◌||◌}
use mathlib.Core.List.{List, [], ◌∷◌, ◌++◌}
use native.Mathlib.Omega.{arith}
use dimmon.Prelude.Tests.{◌==◌, if◌then◌else◌}

module _ {ℓ} {A : Type ℓ} where
  abbrev pub length : List A → ℕ
  length [] = 0
  length (x ∷ xs) = suc (length xs)

  abbrev pub drop : ℕ → List A → List A
  drop zero xs = xs
  drop (suc n) [] = []
  drop (suc n) (x ∷ xs) = drop n xs

  pub nil_of_length : (xs : List A) → length xs ≡ 0 → xs ≡ []
  nil_of_length [] h = refl
  nil_of_length (x ∷ xs) h = absurd (omega arith)

  pub length-append : (xs ys : List A) → length (xs ++ ys) ≡ length xs + length ys
  length-append [] ys = omega arith
  length-append (x ∷ xs) ys = omega (arith, length-append xs ys)

-- Whether an element is linked into a list.
unfoldable pub has : ℕ → List ℕ → Bool
has a [] = false
has a (x ∷ xs) = (x == a) || has a xs

-- How often it is linked there.
unfoldable pub count : ℕ → List ℕ → ℕ
count a [] = 0
count a (x ∷ xs) = (if x == a then 1 else 0) + count a xs

-- LIST_REMOVE, TAILQ_REMOVE: the element is unlinked, the order of the others kept.
unfoldable pub unlink : ℕ → List ℕ → List ℕ
unlink a [] = []
unlink a (x ∷ xs) = if x == a then xs else x ∷ unlink a xs

pub count-append : (a : ℕ) (xs ys : List ℕ) → count a (xs ++ ys) ≡ count a xs + count a ys
unfolding count
count-append a [] ys = omega arith
count-append a (x ∷ xs) ys = omega (arith, count-append a xs ys)

pub count-unlink_self :
    (a : ℕ) (xs : List ℕ) → has a xs ≡ true → count a (unlink a xs) + 1 ≡ count a xs
unfolding has count unlink
count-unlink_self a [] h = ground arith
count-unlink_self a (x ∷ xs) h = ground (arith, count-unlink_self a xs)

pub count-unlink_ne : (a b : ℕ) (xs : List ℕ) → b ≢ a → count b (unlink a xs) ≡ count b xs
unfolding count unlink
count-unlink_ne a b [] h = refl
count-unlink_ne a b (x ∷ xs) h = ground (arith, count-unlink_ne a b xs)

pub unlink_absent : (a : ℕ) (xs : List ℕ) → has a xs ≡ false → unlink a xs ≡ xs
unfolding has unlink
unlink_absent a [] h = refl
unlink_absent a (x ∷ xs) h = ground (arith, unlink_absent a xs)

pub has-count_pos : (a : ℕ) (xs : List ℕ) → has a xs ≡ true → 1 ≤ count a xs
unfolding has count
has-count_pos a [] h = ground arith
has-count_pos a (x ∷ xs) h = ground (arith, has-count_pos a xs)

pub count_pos-has : (a : ℕ) (xs : List ℕ) → 1 ≤ count a xs → has a xs ≡ true
unfolding has count
count_pos-has a [] h = absurd (omega arith)
count_pos-has a (x ∷ xs) h = ground (arith, count_pos-has a xs)

pub count_absent : (a : ℕ) (xs : List ℕ) → has a xs ≡ false → count a xs ≡ 0
unfolding has count
count_absent a [] h = refl
count_absent a (x ∷ xs) h = ground (arith, count_absent a xs)

pub length-unlink : (a : ℕ) (xs : List ℕ) → has a xs ≡ true → length (unlink a xs) + 1 ≡ length xs
unfolding has unlink
length-unlink a [] h = ground arith
length-unlink a (x ∷ xs) h = ground (arith, length-unlink a xs)

pub count-le_length : (a : ℕ) (xs : List ℕ) → count a xs ≤ length xs
unfolding count
count-le_length a [] = omega arith
count-le_length a (x ∷ xs) = ground (arith, count-le_length a xs)

pub absent_of_count : (a : ℕ) (xs : List ℕ) → count a xs ≡ 0 → has a xs ≡ false
unfolding has count
absent_of_count a [] h = refl
absent_of_count a (x ∷ xs) h = ground (arith, absent_of_count a xs)

-- The elements of a list in front of another, one after the other.
abbrev pub push_all {ℓ} : {A : Type ℓ} → List A → List A → List A
push_all [] l = l
push_all (x ∷ xs) l = push_all xs (x ∷ l)

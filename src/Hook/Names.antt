-- ===== src/Hook/Names.antt =====
-- Names of hooks and nodes in dmm_base.c: what is refused, and what strncmp compares.
use dimmon.Prelude.{
  ℕ, zero, suc, ◌<◌, ◌≡◌, refl, Bool, true, false, ◌&&◌, List, [], ◌∷◌, length, arith, leb,
  if◌then◌else◌, has,
}
use dimmon.Node.{is_empty}
use dimmon.Hook.{name_stop, strneq}

-- The name has no bracket and at most `n` bytes.
abbrev pub is_plain : ℕ → List ℕ → Bool
is_plain n name = leb (length name) n && (not_in b'[' name && not_in b']' name)
  where
    not_in : ℕ → List ℕ → Bool
    not_in c cs = if has c cs then false else true

-- The loop over a name stops at its end exactly if the name is short and has no bracket.
pub name_stop-is_plain : (n : ℕ) (name : List ℕ) → is_empty (name_stop n name) ≡ is_plain n name
unfolding name_stop has
name_stop-is_plain zero [] = refl
name_stop-is_plain zero (c ∷ cs) = ground arith
name_stop-is_plain (suc n) [] = ground arith
name_stop-is_plain (suc n) (c ∷ cs) = ground (arith, name_stop-is_plain n cs)

-- On texts that are shorter than the size strncmp is equality.
pub strneq-eq : (n : ℕ) (a b : List ℕ) → length a < n → strneq n a b ≡ true → a ≡ b
unfolding strneq
strneq-eq zero a b h e = absurd (omega arith)
strneq-eq (suc n) [] [] h e = refl
strneq-eq (suc n) [] (d ∷ b) h e = ground arith
strneq-eq (suc n) (c ∷ a) [] h e = ground arith
strneq-eq (suc n) (c ∷ a) (d ∷ b) h e = ground (arith, strneq-eq n a b)

pub strneq_self : (n : ℕ) (a : List ℕ) → strneq n a a ≡ true
unfolding strneq
strneq_self zero a = refl
strneq_self (suc n) [] = refl
strneq_self (suc n) (c ∷ a) = ground (arith, strneq_self n a)

-- ===== src/Module/Registry.antt =====
-- The registry of node types in dmm_module.c: names are unique, and lookup finds what was
-- registered.
use dimmon.Prelude.{
  ℕ, ◌≡◌, Bool, false, ◌||◌, ◌&&◌, ltb, List, [], ◌∷◌, length, arith, ◌==◌, if◌then◌else◌,
}
use dimmon.State.{Addr, Errno, Sys, NodeType, einval, eexist}
use dimmon.State.Returns
use dimmon.State.Returns.{Returns}
use dimmon.Hook.{strneq}
use dimmon.Module.{type_name_size, first_type, type_find, type_register, register_types}

-- What dmm_type_register answers, and what a lookup finds behind it.
abbrev pub is_bad_name : List ℕ → Bool
is_bad_name name = length name == 0 || ltb 31 (length name)

abbrev pub answer : Addr → Sys → Errno
answer t s =
    if is_bad_name (s.type_at t).tp_name
    then einval
    else if type_find (s.type_at t).tp_name s == 0
    then 0
    else eexist

-- Registering a type answers EINVAL for a name that is empty or too long, EEXIST for a name that
-- is taken, and 0 otherwise. Only in the last case a lookup changes: it then finds the new type
-- under each text that strncmp takes for its name, and under any other text what it found before.
pub type_register-lookup :
    (t : Addr) (s : Sys)
    → Returns (type_register t s) (λ err u.
      (err ≡ answer t s)
      × ((name : List ℕ)
          → type_find name u ≡ (
              if err == 0 && strneq type_name_size name (s.type_at t).tp_name
              then t
              else type_find name s)))
unfolding type_register
type_register-lookup t s = ground arith

-- No two entries of a list of types have the same name, and every name is valid.
abbrev pub AreDistinct : (Addr → NodeType) → List Addr → Type 0
AreDistinct type_at [] = Unit {0}
AreDistinct type_at (t ∷ ts) =
    (first_type type_at (type_at t).tp_name ts ≡ 0)
    × (is_bad_name (type_at t).tp_name ≡ false)
    × AreDistinct type_at ts

abbrev pub RegistryInv : Sys → Type 0
RegistryInv s = AreDistinct s.type_at s.typelist

register-RegistryInv :
    (t : Addr) (s : Sys) → RegistryInv s → Returns (type_register t s) (λ _ u. RegistryInv u)
unfolding type_register
register-RegistryInv t s inv = ground arith

-- From a registry with valid and distinct names, registering the types of a module one after the
-- other, whatever becomes of each, keeps the names of the registry valid and distinct.
pub register_types-RegistryInv :
    (ts : List Addr) (s : Sys)
    → RegistryInv s
    → Returns (register_types ts s) (λ _ u. RegistryInv u)
unfolding register_types
register_types-RegistryInv [] s inv = inv
register_types-RegistryInv (t ∷ ts) s inv =
    Returns.bind (λ _ u. RegistryInv u) _ (type_register t s) (λ _. register_types ts)
      (register-RegistryInv t s inv) (λ _ u inv'. register_types-RegistryInv ts u inv')

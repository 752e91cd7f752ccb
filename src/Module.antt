-- ===== src/Module.antt =====
-- dmm_module.c: the registry of node types, and the loading of a module. What dlopen and dlsym find
-- in a file is an argument.
pub mod Registry
use dimmon.Prelude.{
  ℕ, Bool, true, false, ◌||◌, ltb, Option, none, some, List, [], ◌∷◌, ◌==◌, if◌then◌else◌, length,
}
use dimmon.State.{
  Addr, Errno, enoent, eexist, einval, NodeType, Sys, Cmd, ◌>>=◌, ◌>>◌, pure, skip, get, modify,
}
use dimmon.Hook.{strneq}

abbrev pub type_name_size : ℕ
type_name_size = 32

-- The first type of a list with the name, NULL if there is none.
unfoldable pub first_type : (Addr → NodeType) → List ℕ → List Addr → Addr
first_type type_at name [] = 0
first_type type_at name (t ∷ ts) =
    if strneq type_name_size name (type_at t).tp_name then t else first_type type_at name ts

unfoldable pub type_find : List ℕ → Sys → Addr
unfolding first_type
type_find name s = first_type s.type_at name s.typelist

unfoldable pub type_register : Addr → Cmd Errno
unfolding type_find
type_register t = do
  s ← get
  let name = (s.type_at t).tp_name
  if length name == 0 || ltb 31 (length name)
      then pure einval
      else if type_find name s == 0
      then (do modify (λ s'. record s' { typelist = t ∷ s'.typelist }); pure 0)
      else pure eexist

abbrev pub dmm_abiversion : ℕ
dmm_abiversion = 0

-- struct dmm_module: the version, and the types up to the NULL.
pub record ModuleDesc : Type 0 where
  pub abiversion : ℕ
  pub types : List Addr

-- What dlopen gives: the descriptor and the result of the initialisation function, where the file
-- has them.
pub record Library : Type 0 where
  pub desc : Option ModuleDesc
  pub init : Option Errno

-- Every type of the module is tried, whatever becomes of the others.
unfoldable pub register_types : List Addr → Cmd (Unit {0})
unfolding type_register
register_types [] = skip
register_types (t ∷ ts) = type_register t >>= λ _. register_types ts

abbrev init_result : Option Errno → Errno
init_result none = 0
init_result (some e) = e

unfoldable pub module_load : Option Library → Cmd Errno
unfolding register_types
module_load none = pure enoent
module_load (some lib) = elim lib.desc [
  | none ↦ pure enoent
  | some d ↦
      if d.abiversion == dmm_abiversion
      then (if init_result lib.init == 0
          then (do register_types d.types; pure 0)
          else pure (init_result lib.init))
      else pure einval
]

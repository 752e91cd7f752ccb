-- ===== src/Node.antt =====
-- The references to nodes and their last release (dmm_base.h), and the lookup of nodes
-- (dmm_base.c).
pub mod Refs
use dimmon.Prelude.{ℕ, Bool, true, false, none, some, List, [], ◌∷◌, if◌then◌else◌, unlink}
use dimmon.State.{
  Addr, Node, Cmd, fault, ◌>>=◌, ◌>>◌, skip, get, assert, modify, with_node, call, dtor_of,
}
use dimmon.Memman.{refacquire, refrelease}

abbrev pub is_empty {ℓ} : {A : Type ℓ} → List A → Bool
is_empty [] = true
is_empty (x ∷ xs) = false

abbrev pub set_refs : ℕ → Node → Node
set_refs r n = record n { nd_refs = r }

unfoldable pub node_ref : Addr → Cmd (Unit {0})
unfolding refacquire
node_ref a = do
  s ← get
  assert (s.node a).live
  elim (refacquire (s.node a).nd_refs) [
    | none ↦ λ _. fault
    | some r ↦ modify (with_node a (set_refs r))
  ]

unfoldable pub node_free : Addr → Cmd (Unit {0})
node_free a = do
  s ← get
  assert (s.node a).live
  modify (with_node a (λ n. record n { live = false }))

-- What the release of the last reference does.
unfoldable pub node_destroy : Addr → Cmd (Unit {0})
unfolding node_free unlink
node_destroy a = do
  s ← get
  assert (is_empty (s.node a).nd_inhooks)
  assert (is_empty (s.node a).nd_outhooks)
  modify (with_node a (λ n. record n { nd_invalid = true }))
  (if (s.type_at (s.node a).nd_type).dtor then call (dtor_of a) else skip)
  modify (λ t. record t { nodelist = unlink a t.nodelist })
  node_free a

unfoldable pub node_unref : Addr → Cmd (Unit {0})
unfolding refrelease node_destroy
node_unref a = do
  s ← get
  assert (s.node a).live
  elim (refrelease (s.node a).nd_refs) [
    | none ↦ λ _. fault
    | some (r, last) ↦ do modify (with_node a (set_refs r)); (if last then node_destroy a else skip)
  ]

-- ===== src/Hook.antt =====
-- The hooks of dmm_base.c: creation, lookup, peers, removal, and the references of dmm_base.h. A
-- hook is allocated exactly while it is linked into a list of its node, its creation aside.
pub mod Names
pub mod Create
pub mod Peers
use dimmon.Prelude.{
  ℕ, zero, suc, ◌-◌, Bool, true, false, ◌&&◌, ◌||◌, Option, none, some, List, [], ◌∷◌, ◌==◌,
  if◌then◌else◌, has, unlink,
}
use dimmon.State.{
  Addr, Errno, enoent, enomem, eexist, einval, Direction, hook_in, hook_out, Node, Hook, Sys, Cmd,
  fault, ◌>>=◌, ◌>>◌, pure, skip, get, assert, modify, with_node, with_hook, call, rmhook_of,
  malloc,
}
use dimmon.Memman.{refacquire, refrelease}
use dimmon.Node.{is_empty, node_ref, node_unref}

abbrev pub set_hook_refs : ℕ → Hook → Hook
set_hook_refs r h = record h { hk_refs = r }

abbrev pub is_in : Direction → Bool
is_in hook_in = true
is_in hook_out = false

unfoldable pub hook_ref : Addr → Cmd (Unit {0})
unfolding refacquire
hook_ref a = do
  s ← get
  assert (s.hook a).live
  elim (refacquire (s.hook a).hk_refs) [
    | none ↦ λ _. fault
    | some r ↦ modify (with_hook a (set_hook_refs r))
  ]

unfoldable pub hook_free : Addr → Cmd (Unit {0})
hook_free a = do
  s ← get
  assert (s.hook a).live
  modify (with_hook a (λ h. record h { live = false }))

-- LIST_REMOVE by `hk_nodehooks`: the hook is in the list of its direction.
abbrev pub unlink_hook : Direction → Addr → Node → Node
unlink_hook hook_in a n = record n { nd_inhooks = unlink a n.nd_inhooks }
unlink_hook hook_out a n = record n { nd_outhooks = unlink a n.nd_outhooks }

abbrev pub link_hook : Direction → Addr → Node → Node
link_hook hook_in a n = record n { nd_inhooks = a ∷ n.nd_inhooks }
link_hook hook_out a n = record n { nd_outhooks = a ∷ n.nd_outhooks }

abbrev pub hooks_of : Direction → Node → List Addr
hooks_of hook_in n = n.nd_inhooks
hooks_of hook_out n = n.nd_outhooks

-- What the release of the last reference does.
unfoldable pub hook_destroy : Addr → Cmd (Unit {0})
unfolding hook_free unlink
hook_destroy a = do
  modify (with_hook a (λ h. record h { hk_invalid = true }))
  s ← get
  assert (is_empty (s.hook a).hk_peers)
  (if (s.type_at (s.node (s.hook a).hk_node).nd_type).rmhook then call (rmhook_of a) else skip)
  modify (with_node (s.hook a).hk_node (unlink_hook (s.hook a).hk_dir a))
  hook_free a
  node_unref (s.hook a).hk_node

unfoldable pub hook_unref : Addr → Cmd (Unit {0})
unfolding refrelease hook_destroy
hook_unref a = do
  s ← get
  assert (s.hook a).live
  elim (refrelease (s.hook a).hk_refs) [
    | none ↦ λ _. fault
    | some (r, last) ↦ do
      modify (with_hook a (set_hook_refs r))
      (if last then hook_destroy a else skip)
  ]

-- `for (i = 0; i < n; ++i) if (name[i] is the end or a bracket) break;`: what is left at the stop.
unfoldable pub name_stop : ℕ → List ℕ → List ℕ
name_stop zero name = name
name_stop (suc n) [] = []
name_stop (suc n) (c ∷ cs) = if c == b'[' || c == b']' then c ∷ cs else name_stop n cs

abbrev pub hook_name_size : ℕ
hook_name_size = 32

-- strncmp(a, b, n) == 0.
unfoldable pub strneq : ℕ → List ℕ → List ℕ → Bool
strneq zero a b = true
strneq (suc n) [] [] = true
strneq (suc n) [] (d ∷ b) = false
strneq (suc n) (c ∷ a) [] = false
strneq (suc n) (c ∷ a) (d ∷ b) = c == d && strneq n a b

abbrev new_hook : Addr → Direction → List ℕ → Hook
new_hook node dir name = record {
  live = true;
  hk_name = name;
  hk_invalid = true;
  hk_dir = dir;
  hk_node = node;
  hk_rcvdata = none;
  hk_peers = [];
  hk_refs = 0;
}

abbrev pub is_some {ℓ} : {A : Type ℓ} → Option A → Bool
is_some none = false
is_some (some a) = true

-- The answer of the type's `newhook`; without one, every hook is taken.
abbrev newhook_answer : Option (Addr → Errno × Option ℕ) → Addr → Errno × Option ℕ
newhook_answer none a = (0, none)
newhook_answer (some f) a = f a

-- The part behind `newhook`: the hook becomes valid and is linked into its node.
unfoldable pub hook_install : Addr → Direction → Addr → Cmd (Unit {0})
unfolding node_ref hook_ref
hook_install node dir a = do
  s ← get
  assert (is_in (s.hook a).hk_dir || (if is_some (s.hook a).hk_rcvdata then false else true))
  modify (with_hook a (λ h. record h { hk_invalid = false }))
  modify (with_node node (link_hook dir a))
  node_ref node
  hook_ref a

-- The part behind the allocation of the hook, NULL without memory.
unfoldable pub hook_init : Addr → Direction → List ℕ → Addr → Cmd (Errno × Addr)
unfolding hook_install hook_free
hook_init node dir name a = if a == 0 then pure (enomem, 0) else do
  modify (with_hook a (λ _. new_hook node dir name))
  s ← get
  let (err, rcv) = newhook_answer (s.type_at (s.node node).nd_type).newhook a
  modify (with_hook a (λ h. record h { hk_rcvdata = rcv }))
  if err == 0 then (do hook_install node dir a; pure (0, a)) else (do hook_free a; pure (err, 0))

-- The result is the error and the hook, NULL when there is an error.
unfoldable pub hook_create : Addr → Direction → List ℕ → Cmd (Errno × Addr)
unfolding hook_init malloc name_stop
hook_create node dir name = do
  s ← get
  if (s.node node).nd_invalid
      then pure (einval, 0)
      else if is_empty name
      then pure (einval, 0)
      else if is_empty (name_stop (hook_name_size - 1) name)
      then malloc >>= hook_init node dir name
      else pure (einval, 0)

-- The first hook of a list with the name, NULL if there is none.
unfoldable pub first_named : (Addr → Hook) → List ℕ → List Addr → Addr
first_named hook name [] = 0
first_named hook name (a ∷ as') =
    if strneq hook_name_size (hook a).hk_name name then a else first_named hook name as'

unfoldable pub hook_find : Addr → Direction → List ℕ → Cmd Addr
unfolding first_named hook_ref
hook_find node dir name = do
  s ← get
  let a = first_named s.hook name (hooks_of dir (s.node node))
  if a == 0 then pure 0 else if (s.hook a).hk_invalid then pure 0 else (do hook_ref a; pure a)

unfoldable pub hook_get : Addr → Direction → List ℕ → Cmd (Errno × Addr)
unfolding hook_find hook_create
hook_get node dir name = do
  a ← hook_find node dir name
  s ← get
  if a == 0
      then hook_create node dir name
      else if (s.hook a).hk_invalid
      then pure (einval, 0)
      else pure (0, a)

unfoldable pub hook_addpeer : Addr → Addr → Cmd Errno
unfolding has malloc hook_ref
hook_addpeer a peer = do
  s ← get
  if has peer (s.hook a).hk_peers then pure eexist else do
    p ← malloc
    if p == 0 then pure enomem else do
      modify (with_hook a (λ h. record h { hk_peers = peer ∷ h.hk_peers }))
      hook_ref peer
      pure 0

unfoldable pub hook_rmpeer : Addr → Addr → Cmd Errno
unfolding has unlink hook_unref
hook_rmpeer a peer = do
  s ← get
  if has peer (s.hook a).hk_peers
      then (do
        modify (with_hook a (λ h. record h { hk_peers = unlink peer h.hk_peers }))
        hook_unref peer
        pure 0)
      else pure enoent

-- The loop over the peers: each round unlinks the current cell and no other of this list.
unfoldable pub hook_rmpeers : Addr → List Addr → Cmd (Unit {0})
unfolding hook_rmpeer
hook_rmpeers a [] = skip
hook_rmpeers a (p ∷ ps) = hook_rmpeer p a >>= λ _. hook_rmpeer a p >>= λ _. hook_rmpeers a ps

unfoldable pub hook_rm : Addr → Cmd (Unit {0})
unfolding hook_ref hook_rmpeers hook_unref
hook_rm a = do
  hook_ref a
  modify (with_hook a (λ h. record h { hk_invalid = true }))
  s ← get
  hook_rmpeers a (s.hook a).hk_peers
  hook_unref a

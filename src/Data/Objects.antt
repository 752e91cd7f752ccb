-- ===== src/Data/Objects.antt =====
-- dmm_base.c and dmm_message.h: the objects that hold data, their references, and their way to the
-- hooks of other nodes.
use dimmon.Prelude.{
  ℕ, zero, suc, true, false, not, Option, none, some, List, [], ◌∷◌, ◌==◌, if◌then◌else◌,
}
use dimmon.State.{
  Addr, Errno, einval, enotsup, enomem, Cmd, fault, ◌>>=◌, ◌>>◌, pure, skip, get, assert, modify,
  with_data, malloc,
}
use dimmon.Memman.{refacquire, refrelease}
use dimmon.Hook.{hook_ref, hook_unref, is_in}
use dimmon.Data.{data_len}

unfoldable pub data_ref : Addr → Cmd (Unit {0})
unfolding refacquire
data_ref a = do
  s ← get
  assert (s.data_at a).live
  elim (refacquire (s.data_at a).da_refs) [
    | none ↦ λ _. fault
    | some r ↦ modify (with_data a (λ d. record d { da_refs = r }))
  ]

unfoldable pub data_free : Addr → Cmd (Unit {0})
data_free a = do
  s ← get
  assert (s.data_at a).live
  modify (with_data a (λ d. record d { live = false }))

-- The block and the object are freed together.
unfoldable pub data_unref : Addr → Cmd (Unit {0})
unfolding refrelease data_free
data_unref a = do
  s ← get
  assert (s.data_at a).live
  elim (refrelease (s.data_at a).da_refs) [
    | none ↦ λ _. fault
    | some (r, last) ↦ do
      modify (with_data a (λ d. record d { da_refs = r }))
      (if last then data_free a else skip)
  ]

-- The result is NULL when there is no memory for the object or for its block.
unfoldable pub data_create_raw : ℕ → ℕ → Cmd Addr
unfolding malloc data_free data_ref data_len
data_create_raw numnodes datalen = do
  a ← malloc
  if a == 0 then pure 0 else do
    modify (
        with_data a (λ _. record {
          live = true;
          da_nodes = 0;
          da_len = data_len numnodes datalen;
          da_refs = 0;
        }))
    p ← malloc
    if p == 0
        then (do data_free a; pure 0)
        else do modify (with_data a (λ d. record d { da_nodes = p })); data_ref a; pure a

-- realloc gives the block another address, and the old one back when there is no memory.
unfoldable pub data_resize : Addr → ℕ → ℕ → Cmd Errno
unfolding malloc data_len
data_resize a numnodes datalen = do
  p ← malloc
  if p == 0 then pure enomem else do
    modify (with_data a (λ d. record d { da_nodes = p; da_len = data_len numnodes datalen }))
    pure 0

-- The receiver of a hook, its own or that of the node's type.
abbrev pub receiver_of : Option ℕ → Option ℕ → Option ℕ
receiver_of (some f) of_type = some f
receiver_of none of_type = of_type

-- The peers behind a peer in a list, `none` if it is not linked.
unfoldable pub behind : Addr → List Addr → Option (List Addr)
behind p [] = none
behind p (q ∷ qs) = if q == p then some qs else behind p qs

-- `rcvdata` gives the function of a number, and `type_rcvdata` the number of the `rcvdata` of the node
-- type at an address, if it has one.
module _ (rcvdata : ℕ → Addr → Addr → Cmd Errno) (type_rcvdata : Addr → Option ℕ) where
  unfoldable pub data_passtohook : Addr → Addr → Cmd Errno
  unfolding hook_ref hook_unref
  data_passtohook a h = do
    s ← get
    assert (is_in (s.hook h).hk_dir)
    if (s.hook h).hk_invalid
        then pure einval
        else (elim (receiver_of (s.hook h).hk_rcvdata
            (type_rcvdata (s.node (s.hook h).hk_node).nd_type)) [
              | none ↦ pure enotsup
              | some f ↦ do hook_ref h; res ← rcvdata f h a; hook_unref h; pure res
            ])

  -- LIST_FOREACH from a peer: the next is read after the round, from the cell of the current one, and
  -- reading it when that is no longer linked is a fault.
  unfoldable pub send_peers : ℕ → Addr → Addr → List Addr → Cmd (Unit {0})
  unfolding data_ref data_passtohook behind
  send_peers zero a h ps = λ _. fault
  send_peers (suc fuel) a h [] = skip
  send_peers (suc fuel) a h (p ∷ ps) = (data_ref a >> data_passtohook a p) >>= λ _. λ s.
      elim (behind p (s.hook h).hk_peers) [ none ↦ fault | some rest ↦ send_peers fuel a h rest s ]

  unfoldable pub data_send : ℕ → Addr → Addr → Cmd (Unit {0})
  unfolding hook_ref send_peers hook_unref
  data_send fuel a h = do
    s ← get
    assert (not (is_in (s.hook h).hk_dir))
    if (s.hook h).hk_invalid
        then skip
        else do hook_ref h; t ← get; send_peers fuel a h (t.hook h).hk_peers; hook_unref h

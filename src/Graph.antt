-- ===== src/Graph.antt =====
-- dmm_base.c: the list of nodes, their creation and removal, names, addresses, and the connections
-- between their hooks.
pub mod Ids
pub mod Names
use dimmon.Prelude.{
  ℕ, zero, suc, ◌+◌, ◌-◌, ◌*◌, ◌%◌, Bool, true, false, ◌&&◌, ◌||◌, leb, Option, none, some, List,
  [], ◌∷◌, ◌==◌, if◌then◌else◌,
}
use dimmon.State.{
  Addr, Errno, enoent, enomem, einval, u32_mod, hook_in, hook_out, Node, Sys, Cmd, ◌>>=◌, ◌>>◌,
  pure, skip, get, modify, with_node, malloc,
}
use dimmon.Node.{is_empty, node_ref, node_unref, node_free}
use dimmon.Hook.{
  hook_unref, hook_rm, hook_get, hook_find, hook_addpeer, hook_rmpeer, name_stop, strneq,
}
use dimmon.Event.{node_unsubscribeallevents}
use dimmon.Module.{type_find}

abbrev pub node_name_size : ℕ
node_name_size = 32

abbrev pub new_node : ℕ → Addr → Node
new_node id type = record {
  live = true;
  nd_id = id;
  nd_name = [];
  nd_invalid = true;
  nd_type = type;
  nd_inhooks = [];
  nd_outhooks = [];
  nd_events = [];
  nd_refs = 0;
}

-- The result of the type's constructor; without one, every node is taken.
abbrev pub ctor_answer : Option (Addr → Errno) → Addr → Errno
ctor_answer none a = 0
ctor_answer (some f) a = f a

abbrev pub next_id : Sys → ℕ
next_id s = (s.lastnodeid + 1) % u32_mod

-- The result is the error and the node, NULL when there is an error.
unfoldable pub node_create : List ℕ → Cmd (Errno × Addr)
unfolding type_find malloc node_free node_ref
node_create typename = do
  s ← get
  let type = type_find typename s
  if type == 0 then pure (einval, 0) else do
    a ← malloc
    if a == 0 then pure (enomem, 0) else do
      modify (λ t. record t { lastnodeid = next_id s })
      modify (with_node a (λ _. new_node (next_id s) type))
      let err = ctor_answer (s.type_at type).ctor a
      if err == 0
          then (do
            node_ref a
            modify (with_node a (λ n. record n { nd_invalid = false }))
            modify (λ t. record t { nodelist = a ∷ t.nodelist })
            pure (0, a))
          else (do node_free a; pure (err, 0))

-- The loop over the hooks of one direction: their peers are of the other, so that no round unlinks
-- another hook of this list.
unfoldable pub hooks_rm : List Addr → Cmd (Unit {0})
unfolding hook_rm
hooks_rm [] = skip
hooks_rm (h ∷ hs) = do hook_rm h; hooks_rm hs

unfoldable pub node_rm : Addr → Cmd (Unit {0})
unfolding hooks_rm node_unsubscribeallevents node_unref
node_rm a = do
  modify (with_node a (λ n. record n { nd_invalid = true }))
  s ← get
  hooks_rm (s.node a).nd_inhooks
  s' ← get
  hooks_rm (s'.node a).nd_outhooks
  node_unsubscribeallevents a
  node_unref a

-- A name that is NULL or empty resets the name; `[]` stands for both.
unfoldable pub node_setname : Addr → List ℕ → Cmd Errno
unfolding name_stop
node_setname a name = do
  s ← get
  if (s.node a).nd_invalid
      then pure einval
      else if is_empty (name_stop (node_name_size - 1) name)
      then (do modify (with_node a (λ n. record n { nd_name = name })); pure 0)
      else pure einval

unfoldable pub node_unname : Addr → Cmd Errno
unfolding node_setname
node_unname a = node_setname a []

-- The part of `node_connect` behind the lookup of the hooks: both peers or none.
unfoldable pub link_peers : Addr → Addr → Cmd Errno
unfolding hook_addpeer hook_rmpeer
link_peers src dst = do
  err ← hook_addpeer src dst
  if err == 0
      then (do
        err' ← hook_addpeer dst src
        if err' == 0 then pure 0 else (do hook_rmpeer src dst >>= λ _. pure err'))
      else pure err

unfoldable pub node_connect : Addr → List ℕ → Addr → List ℕ → Cmd Errno
unfolding hook_get hook_unref link_peers
node_connect srcnode srcname dstnode dstname = do
  (err, src) ← hook_get srcnode hook_out srcname
  if err == 0
      then (do
        (err', dst) ← hook_get dstnode hook_in dstname
        if err' == 0
            then (do err'' ← link_peers src dst; hook_unref dst; hook_unref src; pure err'')
            else (do hook_unref src; pure err'))
      else pure err

unfoldable pub node_disconnect : Addr → List ℕ → Addr → List ℕ → Cmd Errno
unfolding hook_find hook_rmpeer hook_unref
node_disconnect srcnode srcname dstnode dstname = do
  s ← get
  if (s.node srcnode).nd_invalid || (s.node dstnode).nd_invalid then pure einval else do
    src ← hook_find srcnode hook_out srcname
    if src == 0 then pure enoent else do
      dst ← hook_find dstnode hook_in dstname
      if dst == 0 then (do hook_unref src; pure enoent) else do
        hook_rmpeer src dst >>= λ _. do
          err ← hook_rmpeer dst src
          hook_unref dst
          hook_unref src
          pure err

-- The first node of a list with the id, or with the name; NULL if there is none.
unfoldable pub first_id : (Addr → Node) → ℕ → List Addr → Addr
first_id node id [] = 0
first_id node id (a ∷ as') = if (node a).nd_id == id then a else first_id node id as'

unfoldable pub first_name : (Addr → Node) → List ℕ → List Addr → Addr
first_name node name [] = 0
first_name node name (a ∷ as') =
    if strneq node_name_size (node a).nd_name name then a else first_name node name as'

abbrev ref_found : Addr → Cmd Addr
ref_found a = if a == 0 then pure 0 else (do node_ref a; pure a)

unfoldable pub node_id2ref : ℕ → Cmd Addr
unfolding first_id node_ref
node_id2ref id = do s ← get; ref_found (first_id s.node id s.nodelist)

unfoldable pub node_name2ref : List ℕ → Cmd Addr
unfolding first_name node_ref
node_name2ref name = do s ← get; ref_found (first_name s.node name s.nodelist)

-- sscanf "%u" of a text that begins with a digit: the value of its digits. A sign or a space in
-- front, which sscanf also takes, is refused here.
unfoldable pub scan_digits : ℕ → List ℕ → ℕ
scan_digits acc [] = acc
scan_digits acc (c ∷ cs) =
    if leb b'0' c && leb c b'9' then scan_digits (acc * 10 + (c - b'0')) cs else acc

unfoldable pub scan_id : List ℕ → Option ℕ
unfolding scan_digits
scan_id [] = none
scan_id (c ∷ cs) =
    if leb b'0' c && leb c b'9' then some (scan_digits 0 (c ∷ cs) % u32_mod) else none

unfoldable pub node_addr2ref : List ℕ → Cmd Addr
unfolding scan_id node_id2ref node_name2ref
node_addr2ref [] = node_name2ref []
node_addr2ref (c ∷ cs) =
    if c == b'['
    then elim (scan_id cs) [ none ↦ pure 0 | some id ↦ node_id2ref id ]
    else node_name2ref (c ∷ cs)

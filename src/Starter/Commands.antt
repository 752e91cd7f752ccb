-- ===== src/Starter/Commands.antt =====
-- modules/starter/starter.c: making a command, the message that it sends, and what it does with the
-- response.
use dimmon.Prelude.{ℕ, ◌-◌, Option, none, some, List, [], ◌∷◌, ◌==◌, if◌then◌else◌, true, false}
use dimmon.Timespec.{Timespec}
use dimmon.State.{Addr}
use dimmon.Hook.{hook_name_size}
use dimmon.Module.{type_name_size}
use dimmon.Message.{Content, Msg, msgtype_generic}
use dimmon.Starter.{
  Member, Action, Cmd, fault, ◌>>=◌, ◌>>◌, pure, get, modify, malloc, with_command, alloc_msg,
  free_msg, get_token, clip, decimal, load, store,
}
use dimmon.Starter.Triplet.{Parsed, parsed, invalid, overrun, parse_sock_triplet}

abbrev pub addr_size : ℕ
addr_size = 32

-- `[%u]` in an array of DMM_ADDRSIZE bytes, with its NUL.
unfoldable pub node_address : ℕ → List ℕ
unfolding decimal
node_address id = clip (addr_size - 1) (b'[' ∷ decimal id (b']' ∷ []))

-- The command, and for some of them the memory of its argument; NULL when one of them is not there.
unfoldable pub make_command : Action → ℕ → Cmd Addr
unfolding malloc
make_command action rcv = do
  a ← malloc
  (if a == 0 then pure 0 else (do
    modify (with_command a (λ _. record { live = true; action = action; rcv = rcv }))
    pure a))

unfoldable pub make_command_arg : Action → ℕ → Cmd Addr
unfolding malloc
make_command_arg action rcv = do
  a ← malloc
  (if a == 0 then pure 0 else (do
    arg ← malloc
    (if arg == 0 then pure 0 else (do
      modify (with_command a (λ _. record { live = true; action = action; rcv = rcv }))
      pure a))))

abbrev pub create_nodecreate_command : ℕ → List ℕ → Member → Cmd Addr
create_nodecreate_command here type res =
    make_command_arg (Action.nodecreate (clip type_name_size type) res) here

abbrev pub create_nodeconnect_command : ℕ → List ℕ → ℕ → List ℕ → Cmd Addr
create_nodeconnect_command src srchook dst dsthook =
    make_command_arg
      (Action.nodeconnect (clip hook_name_size srchook) (node_address dst)
        (clip hook_name_size dsthook))
      src

abbrev pub create_nodedisconnect_command : ℕ → List ℕ → ℕ → List ℕ → Cmd Addr
create_nodedisconnect_command src srchook dst dsthook =
    make_command_arg
      (Action.nodedisconnect (clip hook_name_size srchook) (node_address dst)
        (clip hook_name_size dsthook))
      src

abbrev pub create_timercreate_command : ℕ → Member → Cmd Addr
create_timercreate_command here res = make_command (Action.timercreate res) here

abbrev pub create_timerset_command : ℕ → ℕ → Timespec → Timespec → ℕ → Cmd Addr
create_timerset_command node id next interval flags =
    make_command_arg (Action.timerset id next interval flags) node

abbrev pub create_timersubscribe_command : ℕ → ℕ → Cmd Addr
create_timersubscribe_command node id = make_command_arg (Action.timersubscribe id) node

abbrev pub create_timerrm_command : ℕ → ℕ → Cmd Addr
create_timerrm_command node id = make_command_arg (Action.timerrm id) node

abbrev pub create_wavefinishsubscribe_command : ℕ → Cmd Addr
create_wavefinishsubscribe_command here = make_command Action.wavefinishsubscribe here

abbrev pub create_netiprecvcreatesock_command : ℕ → List ℕ → Cmd Addr
create_netiprecvcreatesock_command node triplet =
    make_command (Action.netiprecvcreatesock triplet) node

abbrev pub create_netipsendcreatesock_command : ℕ → List ℕ → Cmd Addr
create_netipsendcreatesock_command node triplet =
    make_command (Action.netipsendcreatesock triplet) node

abbrev pub create_netiprecvbind_command : ℕ → List ℕ → Cmd Addr
create_netiprecvbind_command node port = make_command (Action.netiprecvbind port) node

abbrev pub create_netipsendconnect_command : ℕ → List ℕ → List ℕ → Cmd Addr
create_netipsendconnect_command node host port =
    make_command_arg (Action.netipsendconnect host port) node

abbrev pub create_netiprecvgetflags_command : ℕ → Member → Cmd Addr
create_netiprecvgetflags_command rcv res = make_command (Action.netiprecvgetflags res) rcv

abbrev pub create_netiprecvsetflags_command : ℕ → Member → Cmd Addr
create_netiprecvsetflags_command rcv flags = make_command (Action.netiprecvsetflags flags) rcv

abbrev pub msgtype_netiprecv : ℕ
msgtype_netiprecv = 0x89c0202

abbrev pub msgtype_netipsend : ℕ
msgtype_netipsend = 0x8dddef66

abbrev pub request : ℕ → ℕ → ℕ → Content → Msg
request cmd type token content = record {
  cm_src = 0;
  cm_cmd = cmd;
  cm_type = type;
  cm_token = token;
  cm_resp = false;
  cm_err = false;
  cm_data = content;
}

-- DMM_MSG_CREATE with GET_TOKEN, and the filling of the message.
unfoldable pub new_msg : ℕ → ℕ → Content → Cmd (Option Msg)
unfolding get_token alloc_msg
new_msg cmd type content = get_token >>= λ token. alloc_msg (request cmd type token content)

-- A message that is freed again when its socket is not understood.
abbrev pub fill_createsock : Msg → Parsed (ℕ × ℕ × ℕ) → Cmd (Option Msg)
fill_createsock m overrun = λ _. fault
fill_createsock m invalid = free_msg >> pure none
fill_createsock m (parsed (domain, sock, protocol)) =
    pure (some (record m { cm_data = Content.netip_createsock domain sock protocol }))

abbrev pub parse_createsock : List ℕ → Option Msg → Cmd (Option Msg)
parse_createsock triplet none = pure none
parse_createsock triplet (some m) = fill_createsock m (parse_sock_triplet triplet)

unfoldable pub createsock_msg : ℕ → List ℕ → Cmd (Option Msg)
unfolding new_msg free_msg
createsock_msg type triplet =
    new_msg 1 type (Content.netip_createsock 0 0 0) >>= λ r. parse_createsock triplet r

abbrev address_msg : ℕ → ℕ → Option (List ℕ) → Cmd (Option Msg)
address_msg cmd type none = pure none
address_msg cmd type (some addr) = new_msg cmd type (Content.bytes addr)

-- The functions `create_msg` of the commands.
abbrev pub create_nodecreate_msg : List ℕ → Cmd (Option Msg)
create_nodecreate_msg type = new_msg 10 msgtype_generic (Content.nodecreate type)

abbrev pub create_nodeconnect_msg : List ℕ → List ℕ → List ℕ → Cmd (Option Msg)
create_nodeconnect_msg srchook dstnode dsthook =
    new_msg 12 msgtype_generic (Content.nodeconnect srchook dstnode dsthook)

abbrev pub create_nodedisconnect_msg : List ℕ → List ℕ → List ℕ → Cmd (Option Msg)
create_nodedisconnect_msg srchook dstnode dsthook =
    new_msg 13 msgtype_generic (Content.nodedisconnect srchook dstnode dsthook)

abbrev pub create_timercreate_msg : Cmd (Option Msg)
create_timercreate_msg = new_msg 30 msgtype_generic Content.empty

abbrev pub create_timerset_msg : ℕ → Timespec → Timespec → ℕ → Cmd (Option Msg)
create_timerset_msg id next interval flags =
    new_msg 31 msgtype_generic (Content.timerset id next interval flags)

abbrev pub create_timersubscribe_msg : ℕ → Cmd (Option Msg)
create_timersubscribe_msg id = new_msg 33 msgtype_generic (Content.timer_id id)

abbrev pub create_timerrm_msg : ℕ → Cmd (Option Msg)
create_timerrm_msg id = new_msg 32 msgtype_generic (Content.timer_id id)

abbrev pub create_wavefinishsubscribe_msg : Cmd (Option Msg)
create_wavefinishsubscribe_msg = new_msg 101 msgtype_generic Content.empty

abbrev pub create_netiprecvgetflags_msg : Cmd (Option Msg)
create_netiprecvgetflags_msg = new_msg 5 msgtype_netiprecv Content.empty

abbrev pub create_netiprecvcreatesock_msg : List ℕ → Cmd (Option Msg)
create_netiprecvcreatesock_msg triplet = createsock_msg msgtype_netiprecv triplet

abbrev pub create_netipsendcreatesock_msg : List ℕ → Cmd (Option Msg)
create_netipsendcreatesock_msg triplet = createsock_msg msgtype_netipsend triplet

-- By the address that getaddrinfo gives.
abbrev pub create_netiprecvbind_msg : Option (List ℕ) → Cmd (Option Msg)
create_netiprecvbind_msg found = address_msg 2 msgtype_netiprecv found

abbrev pub create_netipsendconnect_msg : Option (List ℕ) → Cmd (Option Msg)
create_netipsendconnect_msg found = address_msg 2 msgtype_netipsend found

abbrev pub create_netiprecvsetflags_msg : Member → Cmd (Option Msg)
create_netiprecvsetflags_msg flags =
    get >>= λ s. new_msg 4 msgtype_netiprecv (Content.netiprecv_flags (load flags s.results))

-- `getaddrinfo` gives for a host, or NULL, and a port the bytes of the first address.
module _ (getaddrinfo : Option (List ℕ) → List ℕ → Option (List ℕ)) where
  unfoldable pub create_msg : Action → Cmd (Option Msg)
  unfolding new_msg createsock_msg
  create_msg (Action.nodecreate type res) = create_nodecreate_msg type
  create_msg (Action.nodeconnect srchook dstnode dsthook) =
      create_nodeconnect_msg srchook dstnode dsthook
  create_msg (Action.nodedisconnect srchook dstnode dsthook) =
      create_nodedisconnect_msg srchook dstnode dsthook
  create_msg (Action.timercreate res) = create_timercreate_msg
  create_msg (Action.timerset id next interval flags) = create_timerset_msg id next interval flags
  create_msg (Action.timersubscribe id) = create_timersubscribe_msg id
  create_msg (Action.timerrm id) = create_timerrm_msg id
  create_msg Action.wavefinishsubscribe = create_wavefinishsubscribe_msg
  create_msg (Action.netiprecvcreatesock triplet) = create_netiprecvcreatesock_msg triplet
  create_msg (Action.netipsendcreatesock triplet) = create_netipsendcreatesock_msg triplet
  create_msg (Action.netiprecvbind port) = create_netiprecvbind_msg (getaddrinfo none port)
  create_msg (Action.netipsendconnect host port) =
      create_netipsendconnect_msg (getaddrinfo (some host) port)
  create_msg (Action.netiprecvgetflags res) = create_netiprecvgetflags_msg
  create_msg (Action.netiprecvsetflags flags) = create_netiprecvsetflags_msg flags

-- The results that a response brings; a content that is not the one of the command is read beyond its
-- end, a fault. Every `process_resp` returns 0.
abbrev pub store_result : Member → ℕ → Cmd (Unit {0})
store_result res v = modify λ s. record s { results = store res v s.results }

abbrev pub store_timer : Member → Content → Cmd (Unit {0})
store_timer res (Content.timer_id id) = store_result res id
store_timer res _ = λ _. fault

abbrev pub store_flags : Member → Content → Cmd (Unit {0})
store_flags res (Content.netiprecv_flags flags) = store_result res flags
store_flags res _ = λ _. fault

unfoldable pub process_resp : Msg → Action → Cmd (Unit {0})
process_resp m (Action.nodecreate type res) = store_result res m.cm_src
process_resp m (Action.timercreate res) = store_timer res m.cm_data
process_resp m (Action.netiprecvgetflags res) = store_flags res m.cm_data
process_resp m _ = pure tt

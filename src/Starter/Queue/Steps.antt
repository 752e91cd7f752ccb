-- ===== src/Starter/Queue/Steps.antt =====
-- modules/starter/starter.c: what creating and sending the message of a command does to the starter,
-- when there is memory.
use dimmon.Prelude.{
  not, ℕ, suc, ◌+◌, ◌%◌, ◌≡◌, ◌∙◌, refl, ap, true, false, Option, none, some, List, arith,
}
use dimmon.State.{Addr, Errno, u32_mod}
use dimmon.Message.{Content, Msg, msgtype_generic}
use dimmon.Starter.{Action, Starter, assert, Run, ok, Cmd, and_then, alloc_msg, load}
use dimmon.Starter.Triplet.{parsed, parse_sock_triplet}
use dimmon.Starter.Commands.{
  parse_createsock, fill_createsock, request, new_msg, createsock_msg, create_msg,
  msgtype_netiprecv, msgtype_netipsend,
}
use dimmon.Starter.Queue.{send_created, send_copied, process_command, send_id}

-- Command and type of the message of an action.
abbrev pub kind_of : Action → ℕ × ℕ
kind_of (Action.nodecreate type res) = (10, msgtype_generic)
kind_of (Action.nodeconnect srchook dstnode dsthook) = (12, msgtype_generic)
kind_of (Action.nodedisconnect srchook dstnode dsthook) = (13, msgtype_generic)
kind_of (Action.timercreate res) = (30, msgtype_generic)
kind_of (Action.timerset id next interval flags) = (31, msgtype_generic)
kind_of (Action.timersubscribe id) = (33, msgtype_generic)
kind_of (Action.timerrm id) = (32, msgtype_generic)
kind_of Action.wavefinishsubscribe = (101, msgtype_generic)
kind_of (Action.netiprecvcreatesock triplet) = (1, msgtype_netiprecv)
kind_of (Action.netipsendcreatesock triplet) = (1, msgtype_netipsend)
kind_of (Action.netiprecvbind port) = (2, msgtype_netiprecv)
kind_of (Action.netipsendconnect host port) = (2, msgtype_netipsend)
kind_of (Action.netiprecvgetflags res) = (5, msgtype_netiprecv)
kind_of (Action.netiprecvsetflags flags) = (4, msgtype_netiprecv)

-- Enough memory.
abbrev pub HasMemory : Starter → Type 0
HasMemory s = (n : ℕ) → s.mem n ≡ true

abbrev pub next_token : Starter → ℕ
next_token s = (s.last_token + 1) % u32_mod

-- The state with one message more.
abbrev pub with_msg : Starter → Starter
with_msg s = record s { last_token = next_token s; mallocs = suc s.mallocs; msgs = suc s.msgs }

-- The state in which a message is sent.
abbrev pub sending : Starter → Msg → Starter
sending s m = record s {
  last_token = next_token s;
  mallocs = suc (suc s.mallocs);
  msgs = suc (suc s.msgs);
  cur_msg = some m;
  is_waiting = true;
}

-- A new request of a command and a type.
abbrev pub Created : ℕ × ℕ → Run (Option Msg) → Starter → Type 0
Created kind r s =
    (m : Msg) × (r ≡ ok (some m) (with_msg s))
    × (m.cm_token ≡ next_token s)
    × ((m.cm_cmd, m.cm_type) ≡ kind)

module _ (s : Starter) (memory : HasMemory s) where
  pub alloc_msg-ok :
      (m : Msg)
      → alloc_msg m s ≡ ok (some m) (record s { mallocs = suc s.mallocs; msgs = suc s.msgs })
  unfolding alloc_msg
  alloc_msg-ok m = ground (arith, memory s.mallocs)

  pub new_msg-request :
      (cmd type : ℕ) (content : Content)
      → new_msg cmd type content s
        ≡ ok (some (request cmd type (next_token s) content)) (with_msg s)
  unfolding new_msg
  new_msg-request cmd type content = ground (arith, memory s.mallocs)

  new_msg-Created :
      (cmd type : ℕ) (content : Content) → Created (cmd, type) (new_msg cmd type content s) s
  new_msg-Created cmd type content =
      (request cmd type (next_token s) content, new_msg-request cmd type content, refl, refl)

  createsock_msg-Created :
      (type : ℕ) (triplet : List ℕ) (p : ℕ × ℕ × ℕ)
      → parse_sock_triplet triplet ≡ parsed p
      → Created (1, type) (createsock_msg type triplet s) s
  unfolding createsock_msg
  createsock_msg-Created type triplet (domain, sock, protocol) e =
      let (m, run, token, kind) = new_msg-Created 1 type (Content.netip_createsock 0 0 0) in
      (
        record m { cm_data = Content.netip_createsock domain sock protocol },
        ap (λ r. and_then r (parse_createsock triplet)) run
            ∙ ap (λ q. fill_createsock m q (with_msg s)) e,
        token,
        kind,
      )

  send_created-sends :
      (receive : Msg → Cmd Errno) (rcv : ℕ) (m : Msg)
      → send_created receive rcv (some m) s
        ≡ send_id receive rcv
            (record m { cm_src = s.id })
            (record s {
              mallocs = suc s.mallocs;
              msgs = suc s.msgs;
              cur_msg = some m;
              is_waiting = true;
            })
  unfolding send_created
  send_created-sends receive rcv m =
      ap (λ r. and_then r (send_copied receive rcv m)) (alloc_msg-ok m)

module _ (getaddrinfo : Option (List ℕ) → List ℕ → Option (List ℕ)) where
  -- The actions whose message can be made.
  abbrev pub CanCreate : Action → Type 0
  CanCreate (Action.netiprecvcreatesock triplet) =
      (p : ℕ × ℕ × ℕ) × (parse_sock_triplet triplet ≡ parsed p)
  CanCreate (Action.netipsendcreatesock triplet) =
      (p : ℕ × ℕ × ℕ) × (parse_sock_triplet triplet ≡ parsed p)
  CanCreate (Action.netiprecvbind port) = (addr : List ℕ) × (getaddrinfo none port ≡ some addr)
  CanCreate (Action.netipsendconnect host port) =
      (addr : List ℕ) × (getaddrinfo (some host) port ≡ some addr)
  CanCreate _ = Unit {0}

  module _ (s : Starter) (memory : HasMemory s) where
    pub create_msg-Created :
        (action : Action)
        → CanCreate action
        → Created (kind_of action) (create_msg getaddrinfo action s) s
    unfolding create_msg
    create_msg-Created (Action.nodecreate type res) can =
        new_msg-Created s memory 10 msgtype_generic (Content.nodecreate type)
    create_msg-Created (Action.nodeconnect srchook dstnode dsthook) can =
        new_msg-Created s memory 12 msgtype_generic (Content.nodeconnect srchook dstnode dsthook)
    create_msg-Created (Action.nodedisconnect srchook dstnode dsthook) can =
        new_msg-Created s memory 13 msgtype_generic (Content.nodedisconnect srchook dstnode dsthook)
    create_msg-Created (Action.timercreate res) can =
        new_msg-Created s memory 30 msgtype_generic Content.empty
    create_msg-Created (Action.timerset id next interval flags) can =
        new_msg-Created s memory 31 msgtype_generic (Content.timerset id next interval flags)
    create_msg-Created (Action.timersubscribe id) can =
        new_msg-Created s memory 33 msgtype_generic (Content.timer_id id)
    create_msg-Created (Action.timerrm id) can =
        new_msg-Created s memory 32 msgtype_generic (Content.timer_id id)
    create_msg-Created Action.wavefinishsubscribe can =
        new_msg-Created s memory 101 msgtype_generic Content.empty
    create_msg-Created (Action.netiprecvcreatesock triplet) can =
        createsock_msg-Created s memory msgtype_netiprecv triplet can.0 can.1
    create_msg-Created (Action.netipsendcreatesock triplet) can =
        createsock_msg-Created s memory msgtype_netipsend triplet can.0 can.1
    create_msg-Created (Action.netiprecvbind port) can =
        rw can.1 (new_msg-Created s memory 2 msgtype_netiprecv (Content.bytes can.0))
    create_msg-Created (Action.netipsendconnect host port) can =
        rw can.1 (new_msg-Created s memory 2 msgtype_netipsend (Content.bytes can.0))
    create_msg-Created (Action.netiprecvgetflags res) can =
        new_msg-Created s memory 5 msgtype_netiprecv Content.empty
    create_msg-Created (Action.netiprecvsetflags flags) can =
        new_msg-Created s memory 4 msgtype_netiprecv
          (Content.netiprecv_flags (load flags s.results))

    -- A message that is made for a command, and copied, is sent to the command's receiver.
    pub process_command-send_id :
        (receive : Msg → Cmd Errno) (a : Addr) (m : Msg)
        → s.is_waiting ≡ false
        → create_msg getaddrinfo (s.command_at a).action s ≡ ok (some m) (with_msg s)
        → process_command getaddrinfo receive a s
          ≡ send_id receive (s.command_at a).rcv (record m { cm_src = s.id }) (sending s m)
    unfolding process_command
    process_command-send_id receive a m idle run =
        let k : Option Msg → Cmd Errno = send_created receive (s.command_at a).rcv in
        ap
          (λ b.
            and_then
              (and_then (assert (not b) s) (λ _. create_msg getaddrinfo (s.command_at a).action)) k)
          idle
        ∙ ap (λ r. and_then r k) run
        ∙ send_created-sends (with_msg s) memory receive (s.command_at a).rcv m

    pub process_command-sends :
        (receive : Msg → Cmd Errno) (a : Addr)
        → s.is_waiting ≡ false
        → CanCreate (s.command_at a).action
        → (m : Msg) × (process_command getaddrinfo receive a s
            ≡ send_id receive (s.command_at a).rcv (record m { cm_src = s.id }) (sending s m))
          × (m.cm_token ≡ next_token s)
          × ((m.cm_cmd, m.cm_type) ≡ kind_of (s.command_at a).action)
    process_command-sends receive a idle can =
        let (m, run, token, kind) = create_msg-Created (s.command_at a).action can in
        (m, process_command-send_id receive a m idle run, token, kind)

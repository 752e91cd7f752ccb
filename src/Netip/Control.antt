-- ===== src/Netip/Control.antt =====
-- modules/net/ip/recv.c: the messages to the node that receives data. `bind` of the descriptor -1 is
-- EBADF.
use dimmon.Prelude.{
  ℕ, ◌+◌, ◌*◌, ◌/◌, Bool, false, not, Option, none, some, List, ◌==◌, if◌then◌else◌, ltb,
}
use dimmon.State.{
  Addr, Errno, einval, eexist, enomem, enotsup, Cmd, fault, ◌>>=◌, ◌>>◌, pure, get, malloc,
}
use dimmon.Message.{
  Content, Msg, msgtype_generic, cmd_sockeventtrigger, msg_create, msg_create_resp, msg_free,
}
use dimmon.Message.Generic.{Receiver}
use dimmon.Message.Send.{send_resp, msg_send_id}
use dimmon.Wavebuf.{Blocks}
use dimmon.Prepend.{send_empty_resp}
use dimmon.Starter.Commands.{msgtype_netiprecv}
use dimmon.Netip.{read, refused, outside, parse_addr, create_socket, set_bit}
use dimmon.Netip.Recv.{NetRecv, hassock, bound}

abbrev pub ebadf : Errno
ebadf = 9

abbrev pub cmd_sockeventsubscribe : ℕ
cmd_sockeventsubscribe = 40

-- DMM_NETIPRECV_SETTABLEFLAGS are the bits 0 and 1; the others are kept.
unfoldable pub set_flags : ℕ → ℕ → ℕ × Errno
set_flags old flags = if ltb 3 flags then (old, einval) else (old / 4 * 4 + flags, 0)

abbrev pub with_recv_flag : ℕ → Errno → NetRecv → NetRecv
with_recv_flag k err n = if err == 0 then record n { flags = set_bit n.flags k } else n

module _ (socket : ℕ → ℕ → ℕ → Errno × ℕ) (setsockopt : ℕ → Errno) where
  unfoldable pub recv_createsock : NetRecv → Content → Option (NetRecv × Errno)
  unfolding create_socket
  recv_createsock n (Content.netip_createsock domain type protocol) = elim n.fd [
    | some fd ↦ some (n, eexist)
    | none ↦
        (let (err, made) = create_socket socket setsockopt domain type protocol in
          some (record n { fd = made }, err))
  ]
  recv_createsock n _ = none

module _ (getaddrinfo : List ℕ → List ℕ → Errno × List ℕ) (bind : ℕ → List ℕ → Errno) where
  abbrev pub bind_fd : Option ℕ → List ℕ → Errno
  bind_fd none sa = ebadf
  bind_fd (some fd) sa = bind fd sa

  unfoldable pub bind_socket : Option ℕ → Content → Cmd Errno
  unfolding malloc parse_addr
  bind_socket fd (Content.bytes addr) = do
    a ← malloc
    elim (parse_addr getaddrinfo (not (a == 0)) addr) [
      | outside ↦ λ _. fault
      | refused ↦ λ _. fault
      | read (err, sa) ↦ pure (if err == 0 then bind_fd fd sa else err)
    ]
  bind_socket fd _ = λ _. fault

  module _ (receiver : Addr → Option Receiver) where
    -- The node subscribes itself to its socket.
    unfoldable pub subscribe_self : ℕ → ℕ → ℕ → Cmd Errno
    unfolding msg_create msg_send_id
    subscribe_self id token fd = do
      r ← msg_create (record {
        cm_src = id;
        cm_cmd = cmd_sockeventsubscribe;
        cm_type = msgtype_generic;
        cm_token = token;
        cm_resp = false;
        cm_err = false;
        cm_data = Content.sockeventsubscribe fd 1;
      })
      elim r [ none ↦ pure enomem | some ses ↦ msg_send_id receiver id ses ]

    abbrev pub after_bind : ℕ → ℕ → Option ℕ → Errno → Cmd Errno
    after_bind id token none err = pure err
    after_bind id token (some fd) err = if err == 0 then subscribe_self id token fd else pure err

    unfoldable pub process_bind_msg : NetRecv → ℕ → ℕ → Content → Cmd Errno
    unfolding bind_socket subscribe_self
    process_bind_msg n id token addr = do err ← bind_socket n.fd addr; after_bind id token n.fd err

-- DMM_MSG_NETIPRECV_GETFLAGS.
module _ (receiver : Addr → Option Receiver) where
  unfoldable pub recv_getflags : NetRecv → ℕ → Msg → Cmd Errno
  unfolding msg_create_resp send_resp
  recv_getflags n id m = do
    r ← msg_create_resp id m (Content.netiprecv_flags n.flags)
    elim r [ none ↦ pure enomem | some resp ↦ do e ← send_resp receiver m.cm_src resp; pure 0 ]

  unfoldable pub recv_setflags : NetRecv → ℕ → Msg → Content → Cmd (NetRecv × Errno)
  unfolding set_flags send_empty_resp
  recv_setflags n id m (Content.netiprecv_flags flags) = do
    let (new, err) = set_flags n.flags flags
    err' ← send_empty_resp receiver id m err
    pure (record n { flags = new }, err')
  recv_setflags n id m _ = λ _. fault

-- The kinds of messages, in the order of the switches.
pub data RecvCmd : Type 0 where
  event createsock bind getflags setflags unknown : RecvCmd

unfoldable pub recv_cmd : ℕ → ℕ → RecvCmd
recv_cmd type cmd =
    if type == msgtype_generic
    then (if cmd == cmd_sockeventtrigger then event else unknown)
    else if type == msgtype_netiprecv
    then (if cmd == 1
        then createsock
        else if cmd == 2
        then bind
        else if cmd == 4
        then setflags
        else if cmd == 5
        then getflags
        else unknown)
    else unknown

-- What the node calls.
module _ (socket : ℕ → ℕ → ℕ → Errno × ℕ) (setsockopt : ℕ → Errno)
    (bind_msg : NetRecv → ℕ → ℕ → Content → Cmd Errno)
    (socket_event : NetRecv → ℕ → Blocks → Cmd (NetRecv × Blocks × Errno))
    (receiver : Addr → Option Receiver) where
  abbrev is_fd : Option ℕ → ℕ → Bool
  is_fd none fd = false
  is_fd (some fd') fd = fd' == fd

  abbrev pub recv_event : NetRecv → Blocks → Content → Cmd (NetRecv × Blocks × Errno)
  recv_event n blocks (Content.sockeventtrigger fd events) =
      if is_fd n.fd fd then socket_event n events blocks else pure (n, blocks, einval)
  recv_event n blocks _ = λ _. fault

  unfoldable pub recv_process :
      RecvCmd → NetRecv → Blocks → ℕ → ℕ → Msg → Cmd (NetRecv × Blocks × Errno)
  unfolding recv_createsock send_empty_resp recv_getflags recv_setflags
  recv_process event n blocks id token m = recv_event n blocks m.cm_data
  recv_process createsock n blocks id token m =
      elim (recv_createsock socket setsockopt n m.cm_data) [
        | none ↦ λ _. fault
        | some (n', err) ↦ do
          err' ← send_empty_resp receiver id m err
          pure (with_recv_flag hassock err n', blocks, err')
      ]
  recv_process bind n blocks id token m = do
    err ← bind_msg n id token m.cm_data
    err' ← send_empty_resp receiver id m err
    pure (with_recv_flag bound err n, blocks, err')
  recv_process getflags n blocks id token m = do
    err ← recv_getflags receiver n id m
    pure (n, blocks, err)
  recv_process setflags n blocks id token m = do
    (n', err) ← recv_setflags receiver n id m m.cm_data
    pure (n', blocks, err)
  recv_process unknown n blocks id token m = pure (n, blocks, enotsup)

  unfoldable pub recv_rcvmsg : NetRecv → Blocks → Addr → ℕ → Msg → Cmd (NetRecv × Blocks × Errno)
  unfolding recv_process recv_cmd msg_free
  recv_rcvmsg n blocks node token m = do
    s ← get
    r ←
        (if m.cm_resp
          then pure (n, blocks, 0)
          else recv_process (recv_cmd m.cm_type m.cm_cmd) n blocks (s.node node).nd_id token m)
    msg_free
    pure r

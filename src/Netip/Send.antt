-- ===== src/Netip/Send.antt =====
-- modules/net/ip/send.c: the node that sends data over its socket. The system's calls are given by their
-- results.
use dimmon.Prelude.{ℕ, ◌+◌, not, Option, none, some, List, ◌==◌, if◌then◌else◌}
use dimmon.State.{Addr, Errno, einval, eexist, enotsup, Cmd, fault, ◌>>=◌, ◌>>◌, pure, get, malloc}
use dimmon.Hook.{is_in}
use dimmon.Sockevent.{bit}
use dimmon.Data.{Block, load_bytes, datanode_size}
use dimmon.Data.Objects.{data_unref}
use dimmon.Message.{Content, Msg, msg_free}
use dimmon.Message.Generic.{Receiver}
use dimmon.Wavebuf.{Blocks, end_of}
use dimmon.Prepend.{send_empty_resp}
use dimmon.Starter.Commands.{msgtype_netipsend}
use dimmon.Netip.{read, refused, outside, parse_addr, create_socket, set_bit}

-- struct pvt_data; `fd` is none for -1. Bit 30 of the flags is CONNECTED, and bit 31 HASSOCK.
pub record NetSend : Type 0 where
  pub fd : Option ℕ
  pub flags : ℕ

abbrev pub send_init : NetSend
send_init = record { fd = none; flags = 0 }

abbrev pub send_newhook : Addr → Cmd Errno
send_newhook hook = do s ← get; pure (if is_in (s.hook hook).hk_dir then 0 else einval)

abbrev pub enotconn : Errno
enotconn = 107

abbrev pub ebadmsg : Errno
ebadmsg = 74

-- What goes into the socket: the data nodes with their end, if there are any.
abbrev pub frame_at : Block → Option ℕ → Option (Option (List ℕ))
frame_at b none = none
frame_at b (some e) = some (if e == 0 then none else some (load_bytes b 0 (e + datanode_size)))

unfoldable pub framed : ℕ → Block → Option (Option (List ℕ))
unfolding end_of load_bytes
framed fuel b = frame_at b (end_of fuel b 0)

module _ (send : Option ℕ → List ℕ → Errno) where
  unfoldable pub send_rcvdata : ℕ → NetSend → Blocks → Addr → Cmd Errno
  unfolding framed data_unref
  send_rcvdata fuel n blocks data' =
      if not (bit n.flags 30)
      then (data_unref data' >> pure enotconn)
      else elim (framed fuel (blocks data')) [
        | none ↦ λ _. fault
        | some none ↦ (data_unref data' >> pure ebadmsg)
        | some (some bytes) ↦ (data_unref data' >> pure (send n.fd bytes))
      ]

-- process_createsock_msg: the socket is made blocking. When that fails, it is kept.
module _ (socket : ℕ → ℕ → ℕ → Errno × ℕ) (setsockopt getfl setfl : ℕ → Errno) where
  unfoldable pub send_createsock : NetSend → Content → Option (NetSend × Errno)
  unfolding create_socket
  send_createsock n (Content.netip_createsock domain type protocol) = elim n.fd [
    | some fd ↦ some (n, eexist)
    | none ↦
        (let (err, made) = create_socket socket setsockopt domain type protocol in
          elim made [
            | none ↦ some (n, err)
            | some fd' ↦
                some (
                  record n { fd = some fd' },
                  if not (getfl fd' == 0) then getfl fd' else setfl fd',
                )
          ])
  ]
  send_createsock n _ = none

  module _ (getaddrinfo : List ℕ → List ℕ → Errno × List ℕ) (connect : Option ℕ → List ℕ → Errno)
      (receiver : Addr → Option Receiver) where
    -- connect_socket.
    unfoldable pub connect_socket : Option ℕ → Content → Cmd Errno
    unfolding malloc parse_addr
    connect_socket fd (Content.bytes addr) = do
      a ← malloc
      elim (parse_addr getaddrinfo (not (a == 0)) addr) [
        | outside ↦ λ _. fault
        | refused ↦ λ _. fault
        | read (err, sa) ↦ pure (if err == 0 then connect fd sa else err)
      ]
    connect_socket fd _ = λ _. fault

    abbrev with_send_flag : ℕ → Errno → NetSend → NetSend
    with_send_flag k err n = if err == 0 then record n { flags = set_bit n.flags k } else n

    unfoldable pub send_rcvmsg : NetSend → Addr → Msg → Cmd (NetSend × Errno)
    unfolding send_createsock connect_socket send_empty_resp msg_free
    send_rcvmsg n node m = do
      s ← get
      let id : ℕ = (s.node node).nd_id
      r ←
          (if not (m.cm_type == msgtype_netipsend)
            then pure (n, enotsup)
            else if m.cm_cmd == 1
            then elim (send_createsock n m.cm_data) [
              | none ↦ λ _. fault
              | some (n', err) ↦ do
                err' ← send_empty_resp receiver id m err
                pure (with_send_flag 31 err n', err')
            ]
            else if m.cm_cmd == 2
            then (do
              err ← connect_socket n.fd m.cm_data
              err' ← send_empty_resp receiver id m err
              pure (with_send_flag 30 err n, err'))
            else pure (n, enotsup))
      msg_free
      pure r

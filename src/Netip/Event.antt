-- ===== src/Netip/Event.antt =====
-- modules/net/ip/recv.c, process_socket_event: from the socket to the peers of the output.
use dimmon.Prelude.{
  ℕ, suc, ◌+◌, ◌≤◌, ◌<◌, ◌≡◌, ◌≢◌, ◌∙◌, refl, ap, true, false, ==_ne, ==_self, Option, some, List,
  [], ◌∷◌, Bool-cases, inl, inr, if◌then◌else◌, ◌++◌, length, push_all, ltb, arith,
}
use dimmon.State.{Addr, Errno, Call, Sys, Cmd, put, with_data, ◌>>◌}
use dimmon.State.Returns
use dimmon.State.Returns.{Returns}
use dimmon.Sockevent.{bit}
use dimmon.Data.{Block, Sample, walk_nodes, datanode_size}
use dimmon.Data.Walk.{IsSendable}
use dimmon.Data.Copy.{Holds, Holds_of_walk, size_of, walk_nodes-Holds}
use dimmon.Data.Create.{new_data, create-ok}
use dimmon.Data.Objects.{data_unref, data_send}
use dimmon.Data.Send.{Listens}
use dimmon.Wavebuf.{Blocks}
use dimmon.Wavebuf.Release.{CanSend, CanSend-agree, sent-Released}
use dimmon.Netip.Check.{check_complete}
use dimmon.Netip.Framing.{recv_nodes-Holds}
use dimmon.Netip.Recv.{
  NetRecv, nocheckdata, recv_nodes, prepended, values_size, recv_pass, recv_checked,
  process_socket_event,
}

not_more : (events : ℕ) → events ≤ 1 → ltb 1 events ≡ false
not_more events h = ground (arith, h)

-- What was received: data nodes with their end.
pub record Arrived (buf : Block) (received : ℕ) (ys : List Sample) : Type 0 where
  pub walk : walk_nodes (suc (length ys)) buf 0 ≡ some ys
  pub whole : size_of ys + datanode_size ≤ received

-- What a receiver finds in front of the data, by sensors.h and recv.h: with bit 1 of the flags, which is
-- that of both options, a data node 100 with the address and a data node 101 with the time.
abbrev pub in_front : ℕ → List ℕ → List ℕ → List Sample
in_front flags addr now =
    if bit flags 1
    then record { sensor = 100; values = addr } ∷ record { sensor = 101; values = now } ∷ []
    else []

prepended-in_front :
    (flags : ℕ) (addr now : List ℕ) → prepended flags addr now ≡ in_front flags addr now
unfolding prepended
prepended-in_front flags addr now = elim (Bool-cases (bit flags 1)) [
  | inl e ↦ rw e refl
  | inr e ↦ rw e refl
]

module _ (rcvdata : ℕ → Addr → Addr → Cmd Errno) (type_rcvdata : Addr → Option ℕ)
    (observed : List Call → List Addr) (listens : Listens rcvdata observed)
    (recvmsg : Option ℕ → Block → ℕ → Option (ℕ × Block × List ℕ)) (now : List ℕ) (fuel : ℕ)
    (received : ℕ) (addr : List ℕ) (ys : List Sample) (blocks : Blocks) (s : Sys) where
  -- What is asked of the node and of the state.
  pub record CanPass (n : NetRecv) : Type 0 where
    pub hook : n.outhook ≢ 0
    pub checked : bit n.flags nocheckdata ≡ false
    pub sendable : IsSendable (in_front n.flags addr now)
    pub memory : (s.mem s.mallocs ≡ true) × (s.mem (suc s.mallocs) ≡ true)
    pub send : CanSend type_rcvdata n.outhook s
    pub few : length (s.hook n.outhook).hk_peers < fuel

  module _ (n : NetRecv) (can : CanPass n) (arrived : Arrived n.buf received ys) where
    abbrev front : List Sample
    front = in_front n.flags addr now

    abbrev new_addr : Addr
    new_addr = suc s.mallocs

    abbrev created : Sys
    created =
        with_data new_addr
          (λ _. new_data (length front) (received + values_size front) (suc (suc s.mallocs)) 1)
          (record s { mallocs = suc (suc s.mallocs) })

    abbrev Passed : Blocks × Errno → Sys → Type 0
    Passed (filled, err) t =
        (err ≡ 0)
        × (walk_nodes (suc (length (front ++ ys))) (filled new_addr) 0 ≡ some (front ++ ys))
        × (observed t.calls ≡ push_all (s.hook n.outhook).hk_peers (observed s.calls))

    here : Holds n.buf 0 ys
    here = Holds_of_walk (suc (length ys)) ys n.buf 0 arrived.walk

    created_new :
        created.data_at new_addr
        ≡ new_data (length front) (received + values_size front) (suc (suc s.mallocs)) 1
    created_new = rw (==_self new_addr) refl

    abbrev content : Block
    content = recv_nodes (blocks new_addr) 0 front n.buf received

    filled-Walk :
        walk_nodes (suc (length (front ++ ys))) (put blocks new_addr content new_addr) 0
        ≡ some (front ++ ys)
    filled-Walk =
        ap (λ b. walk_nodes (suc (length (front ++ ys))) b 0) (rw (==_self new_addr) refl)
        ∙ walk_nodes-Holds (front ++ ys) content 0 (
            recv_nodes-Holds front ys (blocks new_addr) n.buf 0 received can.sendable here
              arrived.whole)

    recv_pass-Passed :
        Returns (recv_pass rcvdata type_rcvdata recvmsg now fuel n received addr blocks s) Passed
    unfolding recv_pass
    recv_pass-Passed =
        rw
          (
            prepended-in_front n.flags addr now,
            ==_ne n.outhook 0 can.hook,
            create-ok (length front) (received + values_size front) s can.memory.0 can.memory.1,
            ==_ne new_addr 0 (omega arith),
          )
          (Returns.bind
            (λ _ v. observed v.calls ≡ push_all (s.hook n.outhook).hk_peers (observed s.calls)) _
            ((data_send rcvdata type_rcvdata fuel new_addr n.outhook >> data_unref new_addr)
              created)
            _
            (sent-Released rcvdata type_rcvdata observed listens fuel new_addr n.outhook created
              (CanSend-agree type_rcvdata n.outhook s created refl refl can.send)
              (ap (λ d. d.live) created_new) (ap (λ d. d.da_refs) created_new) can.few)
            (λ _ v seen. (refl, filled-Walk, seen)))

    recv_checked-Passed :
        length ys < fuel
        → Returns
            (recv_checked rcvdata type_rcvdata recvmsg now fuel n received addr blocks s)
            Passed
    unfolding recv_checked
    recv_checked-Passed enough =
        rw (can.checked, check_complete ys fuel n.buf received enough here arrived.whole)
          recv_pass-Passed

  -- The handler of the socket's event.
  module _ (n : NetRecv) (buf : Block) (can : CanPass n) (arrived : Arrived buf received ys) where
    abbrev pub Forwarded : NetRecv × Blocks × Errno → Sys → Type 0
    Forwarded (n', filled, err) t =
        (err ≡ 0)
        × (n' ≡ record n { buf = buf })
        × (walk_nodes (suc (length (in_front n.flags addr now ++ ys))) (filled (suc s.mallocs)) 0
            ≡ some (in_front n.flags addr now ++ ys))
        × (observed t.calls ≡ push_all (s.hook n.outhook).hk_peers (observed s.calls))

    read_into : CanPass (record n { buf = buf })
    read_into = record {
      hook = can.hook;
      checked = can.checked;
      sendable = can.sendable;
      memory = can.memory;
      send = can.send;
      few = can.few;
    }

    -- When the socket can be read and a message of whole data nodes is there, one new object goes to
    -- every peer of the output, once and in order. A walk over it gives the data nodes of the message, and in
    -- front of them, if bit 1 of the flags is set, a data node 100 with the address of the sender and a
    -- data node 101 with the time. Only the buffer of the
    -- node is changed, and the result is 0. The flag that leaves out the check is not set, the message
    -- has its end, there is memory, what is put in front fits into data nodes,
    -- and the output and its peers are able to send and receive. More rounds than data nodes and peers are
    -- enough.
    pub process_socket_event-Forwarded :
        (events : ℕ)
        → events ≤ 1
        → recvmsg n.fd n.buf n.buflen ≡ some (received, buf, addr)
        → length ys < fuel
        → Returns
            (process_socket_event rcvdata type_rcvdata recvmsg now fuel n events blocks s)
            Forwarded
    unfolding process_socket_event
    process_socket_event-Forwarded events only_in there enough =
        let n' : NetRecv = record n { buf = buf } in
        rw (not_more events only_in, there)
          (Returns.bind (Passed n' read_into arrived) _
            (recv_checked rcvdata type_rcvdata recvmsg now fuel n' received addr blocks s) _
            (recv_checked-Passed n' read_into arrived enough) (λ r t p. (p.0, refl, p.1, p.2)))

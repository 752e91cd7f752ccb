-- ===== src/Tests/Modules.antt =====
-- The theorems on the nodes that pass data on, applied to the sample.
use dimmon.Prelude.{
  ◌||◌, not, ltb, if◌then◌else◌, ◌++◌, List, ℕ, suc, ◌<◌, length, ◌≡◌, refl, true, none, some, [],
  ◌∷◌, count, push_all, arith,
}
use dimmon.State.{Sys, with_data}
use dimmon.State.Returns.{Returns}
use dimmon.Data.{Block, datanode_size, load_bytes, Sample, fill_nodes, walk_nodes}
use dimmon.Data.Walk.{walk_nodes-fill_nodes}
use dimmon.Data.Copy.{size_of, Holds_of_walk}
use dimmon.Data.Send.{CanReceive-agree}
use dimmon.Wavebuf.{Wavebuf, Blocks, flush}
use dimmon.Wavebuf.Flush.{CanCollect, buffered_samples, flush-Flushed}
use dimmon.Wavebuf.Release.{CanSend}
use dimmon.Prepend.{prepend_nodes}
use dimmon.Prepend.Front.{prepend_nodes-walk}
use dimmon.Netip.{valid, invalid, check_data_valid, host_port, read}
use dimmon.Netip.Event.{Arrived, CanPass, Forwarded, process_socket_event-Forwarded}
use dimmon.Netip.Recv.{NetRecv, process_socket_event, recv_nodes, prepended}
use dimmon.Netip.Send.{framed}
use dimmon.Netip.Check.{check_data_valid-Walk, check_data_valid-decides}
use dimmon.Netip.Framing.{framed-received}
use dimmon.Netip.HostPort.{host_port-Parts}
use dimmon.Tests.Flow.{
  samples, samples-IsSendable, hear, marks, hear-Listens, sending, can_receive, once,
}

-- Two objects are in the buffer.
abbrev buffering : Wavebuf
buffering = record { out_hook = 5; databuf = 20 ∷ 21 ∷ [] }

abbrev pub wave : Sys
wave =
    with_data 20 (λ _. record { live = true; da_nodes = 22; da_len = 28; da_refs = 1 })
      (with_data 21 (λ _. record { live = true; da_nodes = 23; da_len = 28; da_refs = 2 })
        (record sending { mallocs = 40; mem = λ _. true }))

abbrev pub filled : Blocks
filled a = fill_nodes (λ _. 255) 0 samples

can_collect : CanCollect (λ _. samples) 5 (20 ∷ 21 ∷ []) filled wave
unfolding count
can_collect = record {
  hook = omega arith;
  memory = (refl, refl);
  buffered = λ a h.
      let holds =
        Holds_of_walk 3 samples (fill_nodes (λ _. 255) 0 samples) 0
          (walk_nodes-fill_nodes samples (λ _. 255) 0 samples-IsSendable) in
      (
        ground (arith, h),
        record { holds = holds; alive = ground (arith, h); held = ground (arith, h) },
      );
  once = λ a. ground arith;
  fits = omega arith;
}

pub can_send : CanSend (λ _. none) 5 wave
can_send = record {
  output = refl;
  valid = refl;
  alive = refl;
  held = ground arith;
  few = ground arith;
  once = once;
  peers = λ p m. CanReceive-agree (λ _. none) p sending wave refl refl (can_receive p m);
}

flush-Flushed_example : Returns (flush hear (λ _. none) 3 buffering filled wave) (λ r t.
    (r.1 ≡ 0)
    × (r.0.0 ≡ record { out_hook = 5; databuf = [] })
    × (walk_nodes 5 (r.0.1 41) 0 ≡ some (buffered_samples (λ _. samples) (20 ∷ 21 ∷ [])))
    × (marks t.calls ≡ push_all (wave.hook 5).hk_peers (marks wave.calls)))
flush-Flushed_example =
    flush-Flushed hear (λ _. none) marks hear-Listens 3 buffering (λ _. samples) filled wave
      can_collect can_send (omega arith) (λ a h. omega arith)

abbrev own : Sample
own = record { sensor = 9; values = 1 ∷ [] }

prepend_nodes-walk_example :
    walk_nodes 4 (prepend_nodes (λ _. 0) own (fill_nodes (λ _. 255) 0 samples) 28) 0
    ≡ some (own ∷ samples)
prepend_nodes-walk_example =
    prepend_nodes-walk own samples (λ _. 0) (fill_nodes (λ _. 255) 0 samples) 3 28
      (walk_nodes-fill_nodes samples (λ _. 255) 0 samples-IsSendable) (omega arith) (ground arith)

-- The samples are received into a buffer with other bytes behind them.
abbrev sent : Block
sent = fill_nodes (λ _. 255) 0 samples

sent-walk : walk_nodes 3 sent 0 ≡ some samples
sent-walk = walk_nodes-fill_nodes samples (λ _. 255) 0 samples-IsSendable

sent-valid : check_data_valid 3 sent 28 ≡ valid
unfolding check_data_valid fill_nodes
sent-valid = refl

abbrev first : Sample
first = record { sensor = 7; values = 1 ∷ 2 ∷ 3 ∷ [] }

abbrev rest : List Sample
rest = record { sensor = 0; values = 4 ∷ [] } ∷ []

abbrev address : List ℕ
address = 127 ∷ 0 ∷ 0 ∷ 1 ∷ []

framed-received_example :
    let front : List Sample = prepended 2 address (5 ∷ []) in
    (framed 3 sent ≡ some (some (load_bytes sent 0 28)))
    × (check_data_valid 3 sent 28 ≡ valid)
    × (walk_nodes 5 (recv_nodes (λ _. 0) 0 front sent 28) 0 ≡ some (front ++ samples))
unfolding prepended
framed-received_example =
    framed-received first rest sent sent (λ _. 0) 3 3 2 address (5 ∷ []) sent-walk (omega arith)
      (λ k h. refl) (ground arith)

check_data_valid-Walk_example :
    (xs : List Sample) × (walk_nodes (suc (length xs)) sent 0 ≡ some xs) × (size_of xs < 28)
check_data_valid-Walk_example = check_data_valid-Walk 3 sent 28 sent-valid

host_port-Parts_example :
    (host_port (b'[' ∷ b':' ∷ b':' ∷ b'1' ∷ b']' ∷ b':' ∷ b'8' ∷ [])
      ≡ read (b':' ∷ b':' ∷ b'1' ∷ [], b'8' ∷ []))
    × (host_port (b'1' ∷ b'2' ∷ b':' ∷ b'8' ∷ []) ≡ read (b'1' ∷ b'2' ∷ [], b'8' ∷ []))
host_port-Parts_example =
    host_port-Parts (b':' ∷ b':' ∷ b'1' ∷ []) (b'1' ∷ []) (b'8' ∷ []) b'2' (refl, tt) (omega arith)
      (omega arith) (omega arith) refl

abbrev receiving : NetRecv
receiving = record { fd = some 4; outhook = 5; flags = 2; buf = λ _. 0; buflen = 64 }

arrives : Arrived sent 28 samples
arrives = record { walk = sent-walk; whole = omega arith }

can_pass :
    CanPass hear
      (λ _. none)
      marks
      hear-Listens
      (λ _ _ _. some (28, sent, address))
      (5 ∷ [])
      3
      28
      address
      samples
      filled
      wave
      receiving
unfolding prepended
can_pass = record {
  hook = omega arith;
  checked = refl;
  sendable = ground arith;
  memory = (refl, refl);
  send = can_send;
  few = omega arith;
}

process_socket_event-Forwarded_example :
    Returns
      (process_socket_event hear
        (λ _. none)
        (λ _ _ _. some (28, sent, address))
        (5 ∷ [])
        3
        receiving
        1
        filled
        wave)
      (Forwarded hear
        (λ _. none)
        marks
        hear-Listens
        (λ _ _ _. some (28, sent, address))
        (5 ∷ [])
        3
        28
        address
        samples
        filled
        wave
        receiving
        sent
        can_pass
        arrives)
process_socket_event-Forwarded_example =
    process_socket_event-Forwarded hear (λ _. none) marks hear-Listens
      (λ _ _ _. some (28, sent, address)) (5 ∷ []) 3 28 address samples filled wave receiving sent
      can_pass arrives 1 (omega arith) refl (omega arith)

-- The last byte of the end is missing.
check_data_valid-decides_example :
    check_data_valid 3 sent 27
    ≡ (if ltb 27 datanode_size || not (ltb (size_of samples) 27) then invalid else valid)
check_data_valid-decides_example =
    check_data_valid-decides 3 samples 3 sent 27 sent-walk (omega arith)

-- ===== src/Netip/Framing.antt =====
-- modules/net/ip/send.c and recv.c: what one node sends is accepted by the other, and passed on.
use dimmon.Prelude.{
  ℕ, suc, ◌+◌, ◌<◌, ◌≤◌, ◌≡◌, ◌∙◌, ap, some, List, [], ◌∷◌, ◌++◌, length, arith, inl,
}
use dimmon.Data.{Block, Sample, dn_fill, walk_nodes, load_bytes, store_bytes, datanode_size}
use dimmon.Data.Layout.{store_bytes_other, load32-agree, load_bytes-agree}
use dimmon.Data.Walk.{IsSendable, sensor_of_fill, len_of_fill, bytes_of_fill, fill_other}
use dimmon.Data.Copy.{Holds, Holds_of_walk, Holds-copy_end, size_of, walk_nodes-Holds, copied}
use dimmon.Wavebuf.Merge.{end_of-Holds}
use dimmon.Netip.{valid, check_data_valid}
use dimmon.Netip.Check.{check_complete}
use dimmon.Netip.Recv.{recv_nodes, prepended}
use dimmon.Netip.Send.{framed, frame_at}

-- What lies in front of the place is kept.
below :
    (front : List Sample) (b buf : Block) (dn received k : ℕ)
    → k < dn
    → recv_nodes b dn front buf received k ≡ b k
unfolding recv_nodes
below [] b buf dn received k h = store_bytes_other (load_bytes buf 0 received) b dn k (inl h)
below (x ∷ xs) b buf dn received k h =
    below xs (dn_fill b dn x.sensor x.values) buf (dn + (datanode_size + length x.values)) received
      k (omega (arith, h))
    ∙ fill_other b dn x.sensor x.values k (inl h)

-- The data nodes of the new object.
pub recv_nodes-Holds :
    (front xs : List Sample) (b buf : Block) (dn received : ℕ)
    → IsSendable front
    → Holds buf 0 xs
    → size_of xs + datanode_size ≤ received
    → Holds (recv_nodes b dn front buf received) dn (front ++ xs)
unfolding recv_nodes
recv_nodes-Holds [] xs b buf dn received sendable holds fits =
    Holds-copy_end xs buf (store_bytes b dn (load_bytes buf 0 received)) 0 dn holds
      (λ k h. copied received buf b dn 0 k (omega (arith, h, fits)))
recv_nodes-Holds (x ∷ front) xs b buf dn received sendable holds fits =
    let first : Block = dn_fill b dn x.sensor x.values in
    let place : ℕ = dn + (datanode_size + length x.values) in
    let c : Block = recv_nodes first place front buf received in
    let same : (k : ℕ) → k < place → c k ≡ first k = below front first buf place received in
    (
      load32-agree c first dn (λ k h. same k (omega (arith, h)))
          ∙ sensor_of_fill b dn x.sensor x.values sendable.0.0 sendable.0.1,
      load32-agree c first (dn + 4) (λ k h. same k (omega (arith, h)))
          ∙ len_of_fill b dn x.sensor x.values sendable.0.0 sendable.0.1,
      sendable.0.2,
      load_bytes-agree (length x.values) c first (dn + datanode_size)
            (λ k h. same k (omega (arith, h)))
          ∙ bytes_of_fill b dn x.sensor x.values sendable.0.0 sendable.0.1,
      recv_nodes-Holds front xs first buf place received sendable.1 holds fits,
    )

frame_some :
    (e : ℕ) (b : Block)
    → 0 < e
    → frame_at b (some (0 + e)) ≡ some (some (load_bytes b 0 (e + datanode_size)))
frame_some e b h = ground (arith, h)

-- A node that sends frames the data nodes with their end, and a node that receives these bytes finds
-- them valid, whatever lies behind them in its buffer, and passes on a block that a walk reads as what
-- the flags put in front, followed by the same data nodes. The data has data nodes, and what is put in front fits into data nodes.
pub framed-received :
    (x : Sample) (xs : List Sample) (sent buf new : Block) (walk_fuel fuel flags : ℕ)
    (addr now : List ℕ)
    → walk_nodes walk_fuel sent 0 ≡ some (x ∷ xs)
    → length (x ∷ xs) < fuel
    → ((k : ℕ) → k < size_of (x ∷ xs) + datanode_size → buf k ≡ sent k)
    → IsSendable (prepended flags addr now)
    → let received : ℕ = size_of (x ∷ xs) + datanode_size in
      let front : List Sample = prepended flags addr now in
      (framed fuel sent ≡ some (some (load_bytes sent 0 received)))
      × (check_data_valid fuel buf received ≡ valid)
      × (walk_nodes (suc (length (front ++ (x ∷ xs)))) (recv_nodes new 0 front buf received) 0
          ≡ some (front ++ (x ∷ xs)))
unfolding framed
framed-received x xs sent buf new walk_fuel fuel flags addr now walk enough same sendable =
    let ys : List Sample = x ∷ xs in
    let received : ℕ = size_of ys + datanode_size in
    let front : List Sample = prepended flags addr now in
    let there : Holds sent 0 ys = Holds_of_walk walk_fuel ys sent 0 walk in
    let here : Holds buf 0 ys =
      Holds-copy_end ys sent buf 0 0 there (λ k h. ground (arith, same k h)) in
    (
      ap (frame_at sent) (end_of-Holds ys fuel sent 0 there enough)
          ∙ frame_some (size_of ys) sent (omega arith),
      check_complete ys fuel buf received enough here (omega arith),
      walk_nodes-Holds (front ++ ys) (recv_nodes new 0 front buf received) 0
          (recv_nodes-Holds front ys new buf 0 received sendable here (omega arith)),
    )

-- ===== src/Wavebuf/Flush.antt =====
-- modules/wavebuf/wavebuf.c: the end of a wave, from the buffer to the peers of the output.
use dimmon.Prelude.{
  zero_of, inl, ℕ, suc, ◌+◌, ◌≤◌, ◌<◌, ◌≡◌, ◌≢◌, ◌∙◌, refl, ap, sym, true, ==_ne, ==_self, Option,
  some, List, [], count, length, push_all, arith,
}
use mathlib.Core.Path.{subst}
use dimmon.State.{Addr, Errno, Call, Sys, Cmd, put, with_data, u32_mod, ◌>>◌}
use dimmon.State.Returns
use dimmon.State.Returns.{Returns}
use dimmon.Data.{Block, Sample, walk_nodes, datanode_size, dn_mkend}
use dimmon.Data.Walk.{end_of_mkend, create_other}
use dimmon.Data.Copy.{Holds, walk_nodes-Holds}
use dimmon.Data.Create.{new_data, data_len_small, create-ok}
use dimmon.Data.Objects.{data_unref, data_send}
use dimmon.Data.Send.{Listens}
use dimmon.Wavebuf.{Wavebuf, Blocks, total_length, drain, collect, send_collected, flush}
use dimmon.Wavebuf.Merge.{all_samples, parts_of, sum_lengths-parts, Released}
use dimmon.Wavebuf.Release.{CanSend, CanSend-agree, sent-Released}
use dimmon.Wavebuf.Drain.{Buffered, Drained, drain-Drained}

-- The samples of the buffer, and their length without the end.
abbrev pub buffered_samples : (Addr → List Sample) → List Addr → List Sample
buffered_samples samples as' = all_samples samples as' []

abbrev pub buffered_length : (Addr → List Sample) → List Addr → ℕ
buffered_length samples as' = total_length (parts_of samples as')

module _ (samples : Addr → List Sample) (out_hook : Addr) (as' : List Addr) (blocks : Blocks)
    (s : Sys) where
  -- What a wave leaves in the buffer: distinct objects that are older than a new one.
  pub record CanCollect : Type 0 where
    pub hook : out_hook ≢ 0
    pub memory : (s.mem s.mallocs ≡ true) × (s.mem (suc s.mallocs) ≡ true)
    pub buffered : (a : Addr) → 1 ≤ count a as' → (a ≤ s.mallocs) × Buffered samples blocks a s
    pub once : (a : Addr) → count a as' ≤ 1
    pub fits : datanode_size + (buffered_length samples as') < u32_mod

  abbrev created : Sys
  created =
      with_data (suc s.mallocs)
        (λ _. new_data 0 (buffered_length samples as') (suc (suc s.mallocs)) 1)
        (record s { mallocs = suc (suc s.mallocs) })

  -- The new object holds the samples of the buffer, in order, and the buffered objects are released.
  pub record Collected (data' : Addr) (filled : Blocks) (t : Sys) : Type 0 where
    pub new : data' ≡ suc s.mallocs
    pub walk :
        walk_nodes (suc (length (buffered_samples samples as'))) (filled data') 0
        ≡ some (buffered_samples samples as')
    pub len : (t.data_at data').da_len ≡ datanode_size + (buffered_length samples as')
    pub alive : (t.data_at data').live ≡ true
    pub refs : (t.data_at data').da_refs ≡ 1
    pub gone : Released as' created t

  module _ (can : CanCollect) where
    abbrev new_addr : Addr
    new_addr = suc s.mallocs

    not_buffered : count new_addr as' ≡ 0
    not_buffered =
        zero_of (count new_addr as') (λ h. absurd (omega (arith, (can.buffered new_addr h).0)))

    created_old : (a : Addr) → a ≤ s.mallocs → created.data_at a ≡ s.data_at a
    created_old a old = rw (==_ne a new_addr (λ e. omega (arith, e, old))) refl

    created_new :
        created.data_at new_addr ≡ new_data 0 (buffered_length samples as') (suc (suc s.mallocs)) 1
    created_new = rw (==_self new_addr) refl

    ready : (a : Addr) → 1 ≤ count a as' → (a ≢ new_addr) × Buffered samples blocks a created
    ready a h =
        let (old, b) = can.buffered a h in
        (
          λ e. omega (arith, e, old),
          record {
            holds = b.holds;
            alive = ap (λ d. d.live) (created_old a old) ∙ b.alive;
            held = rw (created_old a old) b.held;
          },
        )

    finished :
        (r : ℕ × Blocks) (t : Sys)
        → Drained samples new_addr 0 as' blocks created r t
        → Collected new_addr (put r.1 new_addr (dn_mkend (r.1 new_addr) r.0)) t
    finished r t d =
        let end_block : Block = dn_mkend (r.1 new_addr) r.0 in
        let here : put r.1 new_addr end_block new_addr ≡ end_block = rw (==_self new_addr) refl in
        let still : t.data_at new_addr
            ≡ new_data 0 (buffered_length samples as') (suc (suc s.mallocs)) 1 =
          d.gone.others new_addr not_buffered ∙ created_new in
        record {
          new = refl;
          walk =
              walk_nodes-Holds (buffered_samples samples as') (put r.1 new_addr end_block new_addr)
                0
                (subst (λ b. Holds b 0 (buffered_samples samples as')) (sym here)
                  (d.nodes end_block [] (λ k h. create_other (r.1 new_addr) r.0 0 [] 0 k (inl h))
                    (end_of_mkend (r.1 new_addr) r.0)));
          len =
              ap (λ e. e.da_len) still
              ∙ data_len_small 0 (buffered_length samples as') (omega (arith, can.fits))
              ∙ omega arith;
          alive = ap (λ e. e.live) still;
          refs = ap (λ e. e.da_refs) still;
          gone = d.gone;
        }

    pub collect-Collected :
        Returns (collect out_hook blocks (parts_of samples as') s) (λ r t. Collected r.0 r.1 t)
    unfolding collect
    collect-Collected =
        rw
          (
            ==_ne out_hook 0 can.hook,
            create-ok 0 (buffered_length samples as') s can.memory.0 can.memory.1,
          )
          (Returns.bind (λ r t. Drained samples new_addr 0 as' blocks created r t) _
            (drain new_addr 0 blocks (parts_of samples as') created) _
            (drain-Drained samples new_addr (omega arith) as' 0 blocks created ready can.once)
            (λ r t d. rw (==_ne new_addr 0 (omega arith)) (finished r t d)))

module _ (rcvdata : ℕ → Addr → Addr → Cmd Errno) (type_rcvdata : Addr → Option ℕ)
    (observed : List Call → List Addr) (listens : Listens rcvdata observed) where
  module _ (fuel : ℕ) (w : Wavebuf) (samples : Addr → List Sample) (blocks : Blocks) (s : Sys)
      (can : CanCollect samples w.out_hook w.databuf blocks s)
      (send : CanSend type_rcvdata w.out_hook s)
      (enough : length (s.hook w.out_hook).hk_peers < fuel) where
    abbrev Flushed : (Wavebuf × Blocks) × Errno → Sys → Type 0
    Flushed ((v, filled), err) t =
        (err ≡ 0)
        × (v ≡ record w { databuf = [] })
        × (walk_nodes (suc (length (buffered_samples samples w.databuf))) (filled (suc s.mallocs)) 0
            ≡ some (buffered_samples samples w.databuf))
        × (observed t.calls ≡ push_all (s.hook w.out_hook).hk_peers (observed s.calls))

    abbrev Walks : Blocks → Addr → Type 0
    Walks filled a =
        walk_nodes (suc (length (buffered_samples samples w.databuf))) (filled a) 0
        ≡ some (buffered_samples samples w.databuf)

    sent :
        (data' : Addr) (filled : Blocks) (t : Sys)
        → Collected samples w.out_hook w.databuf blocks s data' filled t
        → Returns (send_collected rcvdata type_rcvdata fuel w (data', filled) t) Flushed
    unfolding send_collected
    sent data' filled t c =
        let hooks : t.hook ≡ s.hook = ap (λ v. v.hook) c.gone.frame in
        let nodes : t.node ≡ s.node = ap (λ v. v.node) c.gone.frame in
        let calls : t.calls ≡ s.calls = ap (λ v. v.calls) c.gone.frame in
        let h : Addr = w.out_hook in
        rw (==_ne data' 0 (λ e. omega (arith, e, c.new))) (
          Returns.bind (λ _ v. observed v.calls ≡ push_all (t.hook h).hk_peers (observed t.calls)) _
            ((data_send rcvdata type_rcvdata fuel data' h >> data_unref data') t) _
            (sent-Released rcvdata type_rcvdata observed listens fuel data' h t
              (CanSend-agree type_rcvdata h s t hooks nodes send) c.alive c.refs (rw hooks enough))
            (λ _ v seen. (
              refl,
              refl,
              subst (Walks filled) c.new c.walk,
              seen
                  ∙ ap (λ g. push_all (g h).hk_peers (observed t.calls)) hooks
                  ∙ ap (λ l. push_all (s.hook h).hk_peers (observed l)) calls,
            )))

    -- At the end of a wave, wavebuf sends its buffer as one object: the walk over its data nodes gives
    -- the samples of the buffered objects, all of them and in the order of arrival, every peer of the
    -- output hears it once and in order, and the buffer is empty with result 0. The buffered objects are
    -- allocated, held, distinct and end, their samples and the end fit into 32 bits, there is memory for
    -- the new object, and the output and its peers are able to send and receive. More rounds than peers
    -- and than samples of each object are enough.
    pub flush-Flushed :
        ((a : Addr) → 1 ≤ count a w.databuf → length (samples a) < fuel)
        → Returns (flush rcvdata type_rcvdata fuel w blocks s) Flushed
    unfolding flush
    flush-Flushed short =
        rw
          (sum_lengths-parts fuel blocks samples w.databuf
            (λ a h. ((can.buffered a h).1.holds, short a h)))
          (Returns.bind (λ r t. Collected samples w.out_hook w.databuf blocks s r.0 r.1 t) _
            (collect w.out_hook blocks (parts_of samples w.databuf) s) _
            (collect-Collected samples w.out_hook w.databuf blocks s can)
            (λ r t c. sent r.0 r.1 t c))

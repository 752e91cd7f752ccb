-- ===== src/Sensors/Sending.antt =====
-- The sensors' way to the peers of their output: what is filled in is read by them.
use dimmon.Prelude.{
  ℕ, suc, ◌*◌, ◌<◌, ◌≡◌, ◌∙◌, refl, ap, true, ==_ne, ==_self, Option, some, List, length, push_all,
  arith,
}
use dimmon.State.{Addr, Errno, Call, Sys, Cmd, with_data, ◌>>◌}
use dimmon.State.Returns
use dimmon.State.Returns.{Returns}
use dimmon.Data.{Sample, walk_nodes, fill_nodes}
use dimmon.Data.Walk.{IsSendable, walk_nodes-fill_nodes}
use dimmon.Data.Create.{new_data, create-ok}
use dimmon.Data.Objects.{data_unref, data_send}
use dimmon.Data.Send.{Listens}
use dimmon.Wavebuf.{Blocks}
use dimmon.Wavebuf.Release.{CanSend, CanSend-agree, sent-Released}
use dimmon.Sensors.{send_block, send_samples}

-- What is asked of the state: memory for an object, and an output that is able to send.
pub record CanMeasure (type_rcvdata : Addr → Option ℕ) (fuel : ℕ) (hook : Addr) (s : Sys)
    : Type 0 where
  pub memory : (s.mem s.mallocs ≡ true) × (s.mem (suc s.mallocs) ≡ true)
  pub send : CanSend type_rcvdata hook s
  pub few : length (s.hook hook).hk_peers < fuel

-- A new object with these samples has reached every peer, once and in order, and the result is 0.
abbrev pub Measured :
    (List Call → List Addr) → Addr → Sys → List Sample → Blocks × Errno → Sys → Type 0
Measured observed hook s xs (filled, err) t =
    (err ≡ 0)
    × (walk_nodes (suc (length xs)) (filled (suc s.mallocs)) 0 ≡ some xs)
    × (observed t.calls ≡ push_all (s.hook hook).hk_peers (observed s.calls))

abbrev pub created : ℕ → ℕ → Sys → Sys
created numnodes datalen s =
    with_data (suc s.mallocs) (λ _. new_data numnodes datalen (suc (suc s.mallocs)) 1)
      (record s { mallocs = suc (suc s.mallocs) })

module _ (rcvdata : ℕ → Addr → Addr → Cmd Errno) (type_rcvdata : Addr → Option ℕ)
    (observed : List Call → List Addr) (listens : Listens rcvdata observed) (fuel : ℕ) (hook : Addr)
    (blocks : Blocks) (s : Sys) (can : CanMeasure type_rcvdata fuel hook s) where
  created_new :
      (numnodes datalen : ℕ)
      → (created numnodes datalen s).data_at (suc s.mallocs)
        ≡ new_data numnodes datalen (suc (suc s.mallocs)) 1
  created_new numnodes datalen = rw (==_self (suc s.mallocs)) refl

  pub send_block-Measured :
      (numnodes datalen : ℕ) (xs : List Sample)
      → IsSendable xs
      → Returns
          (send_block rcvdata type_rcvdata fuel hook blocks
            (suc s.mallocs)
            (fill_nodes (blocks (suc s.mallocs)) 0 xs)
            (created numnodes datalen s))
          (Measured observed hook s xs)
  unfolding send_block
  send_block-Measured numnodes datalen xs sendable =
      let new_addr : Addr = suc s.mallocs in
      let t : Sys = created numnodes datalen s in
      let made = created_new numnodes datalen in
      Returns.bind (λ _ v. observed v.calls ≡ push_all (s.hook hook).hk_peers (observed s.calls)) _
        ((data_send rcvdata type_rcvdata fuel new_addr hook >> data_unref new_addr) t) _
        (sent-Released rcvdata type_rcvdata observed listens fuel new_addr hook t
          (CanSend-agree type_rcvdata hook s t refl refl can.send) (ap (λ d. d.live) made)
          (ap (λ d. d.da_refs) made) can.few)
        (λ _ v seen. (
          refl,
          ap (λ b. walk_nodes (suc (length xs)) b 0) (rw (==_self new_addr) refl)
              ∙ walk_nodes-fill_nodes xs (blocks new_addr) 0 sendable,
          seen,
        ))

  pub send_samples-Measured :
      (numnodes len : ℕ) (xs : List Sample)
      → IsSendable xs
      → Returns
          (send_samples rcvdata type_rcvdata fuel hook numnodes len xs blocks s)
          (Measured observed hook s xs)
  unfolding send_samples
  send_samples-Measured numnodes len xs sendable =
      rw
        (
          create-ok numnodes (numnodes * len) s can.memory.0 can.memory.1,
          ==_ne (suc s.mallocs) 0 (omega arith),
        )
        (send_block-Measured numnodes (numnodes * len) xs sendable)

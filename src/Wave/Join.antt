-- ===== src/Wave/Join.antt =====
-- dmm_wavefinish_subscribe in dmm_wave.c, when the event of the current wave exists.
use dimmon.Prelude.{
  [], ◌∷◌, length, length-append, ◌≡◌, ◌≢◌, ◌⊎◌, inl, inr, refl, true, ℕ, suc, ◌+◌, ◌-◌, ◌≤◌, ◌<◌,
  arith, Bool-cases,
}
use dimmon.State.{Addr, Errno, Sys, ok, enomem, with_event}
use dimmon.State.Returns.{Returns}
use dimmon.Memman.{dmm_refnum_max}
use dimmon.Event.{set_event_refs, event_subscribe}
use dimmon.Event.Refs.{event_ref-ok, event_unref-keep}
use dimmon.Event.Subscriptions.{Inv, queued, is_pair}
use dimmon.Event.Subscribe.{
  CanHold, subscribe-ok, subscribe_no_cell, subscribe_no_entry, subscribed-Inv, queued-subscribed,
  subscribed,
}
use dimmon.Wave.{first_of_wave, wavefinish_id2ref, wavefinish_subscribe}

abbrev referred : Addr → Sys → Sys
referred a s = with_event a (set_event_refs ((s.event a).ev_refs + 1)) s

abbrev released : Addr → Sys → Sys
released a s = with_event a (set_event_refs ((s.event a).ev_refs - 1)) s

-- Taking and giving back a reference by hand changes no subscription.
referred-Inv : (a : Addr) (s : Sys) → Inv s → Inv (referred a s)
referred-Inv a s inv = record {
  linked = λ e n. ground (arith, inv.linked e n);
  event_live = λ e n h. ground (arith, inv.event_live e n);
  node_live = λ e n h. ground (arith, inv.node_live e n);
  event_held = λ e. ground (arith, inv.event_held e);
  node_held = inv.node_held;
}

counted-Inv : (k : ℕ) (s : Sys) → Inv s → Inv (record s { mallocs = k })
counted-Inv k s inv = record {
  linked = inv.linked;
  event_live = inv.event_live;
  node_live = inv.node_live;
  event_held = inv.event_held;
  node_held = inv.node_held;
}

released-Inv :
    (a : Addr) (s : Sys)
    → length (s.event a).ev_nodes < (s.event a).ev_refs
    → Inv s
    → Inv (released a s)
released-Inv a s more inv = record {
  linked = λ e n. ground (arith, inv.linked e n);
  event_live = λ e n h. ground (arith, inv.event_live e n);
  node_live = λ e n h. ground (arith, inv.node_live e n);
  event_held = λ e. ground (arith, inv.event_held e);
  node_held = inv.node_held;
}

-- What joining leaves: one more subscription, or the subscriptions as they were.
abbrev pub Joined : Addr → Addr → Sys → Errno → Sys → Type 0
Joined a n s err t =
    ((err ≡ 0) × ((e b : Addr) → queued t e b ≡ queued s e b + is_pair a n e b))
    ⊎ ((err ≡ enomem) × ((e b : Addr) → queued t e b ≡ queued s e b))

module _ (a n : Addr) (s : Sys) (inv : Inv s) (can : CanHold a n (referred a s))
    (alive : (s.event a).live ≡ true) (some_refs : 1 ≤ (s.event a).ev_refs)
    (few : (s.event a).ev_refs < dmm_refnum_max)
    (current : first_of_wave s.wf_waveid s.dmm_wave_id s.wavefinishlist ≡ a) (real : a ≢ 0) where
  id2ref_current : wavefinish_id2ref s.dmm_wave_id s ≡ ok a (referred a s)
  unfolding wavefinish_id2ref
  id2ref_current = rw current (ground (arith, event_ref-ok a s alive few))

  after :
      (err : Errno) (t : Sys)
      → event_subscribe a n (referred a s) ≡ ok err t
      → (t.event a).live ≡ true
      → 1 < (t.event a).ev_refs
      → wavefinish_subscribe n s ≡ ok err (released a t)
  unfolding wavefinish_subscribe
  after err t e alive' more =
      rw id2ref_current (ground (arith, e, event_unref-keep a t alive' more, real))

  -- Without memory.
  failed_join :
      (k : ℕ)
      → Inv (released a (record (referred a s) { mallocs = k }))
        × Joined a n s enomem (released a (record (referred a s) { mallocs = k }))
  failed_join k = (
    released-Inv a (record (referred a s) { mallocs = k }) (ground (arith, inv.event_held a))
        (counted-Inv k (referred a s) (referred-Inv a s inv)),
    inr (refl, λ e b. ground arith),
  )

  more_refs :
      length ((subscribed a n (referred a s)).event a).ev_nodes
      < ((subscribed a n (referred a s)).event a).ev_refs
  more_refs = ground (
    arith,
    inv.event_held a,
    length-append (s.event a).ev_nodes (record { cell = suc s.mallocs; en_node = n } ∷ []),
  )

  -- With memory.
  good_join :
      Inv (released a (subscribed a n (referred a s)))
      × Joined a n s 0 (released a (subscribed a n (referred a s)))
  good_join = (
    released-Inv a (subscribed a n (referred a s)) more_refs
        (subscribed-Inv a n (referred a s) can (referred-Inv a s inv)),
    inl (refl, λ e b. ground (arith, queued-subscribed a n (referred a s) can e b)),
  )

  join : Returns (wavefinish_subscribe n s) (λ err t. Inv t × Joined a n s err t)
  join = elim (Bool-cases (s.mem s.mallocs)) [
    | inr h ↦
        rw
          (after enomem (record (referred a s) { mallocs = suc s.mallocs })
            (subscribe_no_cell a n (referred a s) can h) (ground arith) (ground arith))
          (failed_join (suc s.mallocs))
    | inl h ↦ elim (Bool-cases (s.mem (suc s.mallocs))) [
      | inr k ↦
          rw
            (after enomem (record (referred a s) { mallocs = suc (suc s.mallocs) })
              (subscribe_no_entry a n (referred a s) can h k) (ground arith) (ground arith))
            (failed_join (suc (suc s.mallocs)))
      | inl k ↦
          rw
            (after 0 (subscribed a n (referred a s)) (subscribe-ok a n (referred a s) can h k)
              (ground arith) (ground arith))
            good_join
    ]
  ]

-- Subscribing a node to the end of the current wave, whose event exists, makes one more
-- subscription, or says that there is no memory and makes none; the invariant of subscriptions is
-- kept. The node and the event are allocated and their references below the greatest number. A node
-- that is subscribed gets a second one: unlike for a timer, nothing is tested.
pub wavefinish_subscribe-Joined :
    (a n : Addr) (s : Sys)
    → Inv s
    → a ≢ 0
    → first_of_wave s.wf_waveid s.dmm_wave_id s.wavefinishlist ≡ a
    → (s.event a).live ≡ true
    → (s.node n).live ≡ true
    → 1 ≤ (s.event a).ev_refs
    → (s.event a).ev_refs + 1 < dmm_refnum_max
    → (s.node n).nd_refs < dmm_refnum_max
    → Returns (wavefinish_subscribe n s) (λ err t. Inv t × Joined a n s err t)
wavefinish_subscribe-Joined a n s inv real current alive node_alive some_refs few node_few =
    join a n s inv (ground arith) alive some_refs (omega arith) current real

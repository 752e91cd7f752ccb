-- ===== src/Hook/Peers.antt =====
-- The peers of hooks in dmm_base.c: the relation is symmetric, and dmm_node_connect makes both of
-- its halves or none.
use dimmon.Prelude.{
  ℕ, suc, ◌+◌, ◌-◌, ◌≤◌, ◌<◌, ◌≡◌, ◌≢◌, ◌⊎◌, ◌&&◌, refl, true, false, ◌∷◌, length, arith, ◌==◌,
  if◌then◌else◌, Bool-cases, inl, inr, has, count, unlink, has-count_pos, count_pos-has,
}
use native.Mathlib.Decide.{dec_le}
use dimmon.State.{Addr, Errno, Sys, ok, enomem, eexist, with_hook}
use dimmon.State.Returns
use dimmon.State.Returns.{Returns}
use dimmon.Memman.{dmm_refnum_max}
use dimmon.Hook.{hook_addpeer, hook_rmpeer, set_hook_refs}
use dimmon.Graph.{link_peers}

-- How often a hook is among the peers of another.
abbrev pub peered : Sys → Addr → Addr → ℕ
peered s a b = count b (s.hook a).hk_peers

pub record PeerInv (s : Sys) : Type 0 where
  pub symmetric : (a b : Addr) → peered s a b ≡ peered s b a
  pub once : (a b : Addr) → peered s a b ≤ 1
  pub peer_live : (a b : Addr) → 1 ≤ peered s a b → (s.hook b).live ≡ true
  pub hook_held : (a : Addr) → length (s.hook a).hk_peers ≤ (s.hook a).hk_refs

-- The state behind half a connection.
abbrev added : Addr → Addr → Sys → Sys
added a b s =
    let s1 : Sys =
      with_hook a (λ h. record h { hk_peers = b ∷ h.hk_peers })
        (record s { mallocs = suc s.mallocs }) in
    with_hook b (λ h. record h { hk_refs = (s.hook b).hk_refs + 1 }) s1

module _ (a b : Addr) (s : Sys) where
  addpeer_taken : 1 ≤ peered s a b → hook_addpeer a b s ≡ ok eexist s
  unfolding hook_addpeer
  addpeer_taken h = ground (arith, count_pos-has b (s.hook a).hk_peers)

  addpeer_no_memory :
      peered s a b ≡ 0
      → s.mem s.mallocs ≡ false
      → hook_addpeer a b s ≡ ok enomem (record s { mallocs = suc s.mallocs })
  unfolding hook_addpeer
  addpeer_no_memory h k = ground (arith, has-count_pos b (s.hook a).hk_peers)

  addpeer-ok :
      peered s a b ≡ 0
      → s.mem s.mallocs ≡ true
      → (s.hook b).live ≡ true
      → (s.hook b).hk_refs < dmm_refnum_max
      → hook_addpeer a b s ≡ ok 0 (added a b s)
  unfolding hook_addpeer
  addpeer-ok h k alive few = ground (arith, has-count_pos b (s.hook a).hk_peers)

-- The two hooks of a connection: different, allocated, and held while it is made.
pub record Ends (a b : Addr) (s : Sys) : Type 0 where
  pub apart : a ≢ b
  pub src_live : (s.hook a).live ≡ true
  pub dst_live : (s.hook b).live ≡ true
  pub src_held : length (s.hook a).hk_peers < (s.hook a).hk_refs
  pub dst_held : length (s.hook b).hk_peers < (s.hook b).hk_refs
  pub src_few : (s.hook a).hk_refs < dmm_refnum_max
  pub dst_few : (s.hook b).hk_refs < dmm_refnum_max

abbrev pub is_edge : Addr → Addr → Addr → Addr → ℕ
is_edge a b x y = (if x == a && y == b then 1 else 0) + (if x == b && y == a then 1 else 0)

-- Every hook is as it was.
abbrev pub SameHooks : Sys → Sys → Type 0
SameHooks s t =
    (x : Addr)
    → ((t.hook x).hk_peers ≡ (s.hook x).hk_peers)
      × ((t.hook x).hk_refs ≡ (s.hook x).hk_refs)
      × ((t.hook x).live ≡ (s.hook x).live)
      × ((t.hook x).hk_invalid ≡ (s.hook x).hk_invalid)

-- Half a connection, then the other half without memory: the first is taken back.
abbrev undone : Addr → Addr → Sys → Sys
undone a b s =
    let t : Sys = record (added a b s) { mallocs = suc (suc s.mallocs) } in
    let t1 : Sys = with_hook a (λ h. record h { hk_peers = unlink b h.hk_peers }) t in
    with_hook b (set_hook_refs ((t1.hook b).hk_refs - 1)) t1

module _ (a b : Addr) (s : Sys) (inv : PeerInv s) (ends : Ends a b s) (new : peered s a b ≡ 0) where
  second_new : peered (added a b s) b a ≡ 0
  second_new = ground (arith, ends.apart, inv.symmetric a b)

  rmpeer_undoes :
      hook_rmpeer a b (record (added a b s) { mallocs = suc (suc s.mallocs) }) ≡ ok 0 (undone a b s)
  unfolding hook_rmpeer has
  rmpeer_undoes = ground (arith, ends.apart, ends.dst_held)

  undone-SameHooks : SameHooks s (undone a b s)
  unfolding unlink
  undone-SameHooks x = ground (arith, ends.apart)

  peered_linked :
      (x y : Addr) → peered (added b a (added a b s)) x y ≡ peered s x y + is_edge a b x y
  unfolding count
  peered_linked x y = ground (arith, ends.apart)

  linked-PeerInv : PeerInv (added b a (added a b s))
  linked-PeerInv = record {
    symmetric = λ x y. ground (arith, peered_linked x y, peered_linked y x, inv.symmetric x y);
    once = λ x y. once_linked x y;
    peer_live =
        λ x y h. ground (arith, ends.src_live, ends.dst_live, peered_linked x y, inv.peer_live x y);
    hook_held = λ x. ground (arith, ends.apart, inv.hook_held x, ends.src_held, ends.dst_held);
  }
    where
      once_linked : (x y : Addr) → peered (added b a (added a b s)) x y ≤ 1
      once_linked x y =
          ground (arith, peered_linked x y, inv.once x y, ends.apart, new, inv.symmetric a b)

-- What making a connection leaves: the two hooks are peers of each other and no other pair has
-- changed; or no hook has changed at all.
abbrev pub Linked : Addr → Addr → Sys → Errno → Sys → Type 0
Linked a b s err t =
    ((err ≡ 0) × ((x y : Addr) → peered t x y ≡ peered s x y + is_edge a b x y))
    ⊎ ((err ≢ 0) × SameHooks s t)

SameHooks-PeerInv : (s t : Sys) → SameHooks s t → PeerInv s → PeerInv t
SameHooks-PeerInv s t same inv = record {
  symmetric = λ x y. rw ((same x).0, (same y).0) (inv.symmetric x y);
  once = λ x y. rw (same x).0 (inv.once x y);
  peer_live = λ x y h. rw (same y).2 (inv.peer_live x y (rw (same x).0 at h));
  hook_held = λ x. rw ((same x).0, (same x).1) (inv.hook_held x);
}

link_new :
    (a b : Addr) (s : Sys)
    → PeerInv s
    → Ends a b s
    → peered s a b ≡ 0
    → Returns (link_peers a b s) (λ err t. PeerInv t × Linked a b s err t)
unfolding link_peers
link_new a b s inv ends new = elim (Bool-cases (s.mem s.mallocs)) [
  | inr full ↦ rw (addpeer_no_memory a b s new full) (
    SameHooks-PeerInv s _ (λ x. (refl, refl, refl, refl)) inv,
    inr (ground arith, λ x. (refl, refl, refl, refl)),
  )
  | inl room ↦
      rw (addpeer-ok a b s new room ends.dst_live ends.dst_few)
        (elim (Bool-cases (s.mem (suc s.mallocs))) [
          | inr full ↦
              rw
                (
                  addpeer_no_memory b a (added a b s) (second_new a b s inv ends new) full,
                  rmpeer_undoes a b s inv ends new,
                )
                (
                  SameHooks-PeerInv s (undone a b s) (undone-SameHooks a b s inv ends new) inv,
                  inr (ground arith, undone-SameHooks a b s inv ends new),
                )
          | inl room' ↦
              rw
                (addpeer-ok b a (added a b s) (second_new a b s inv ends new) room'
                  (ground (arith, ends.src_live)) (ground (arith, ends.src_few, ends.apart)))
                (linked-PeerInv a b s inv ends new, inl (refl, peered_linked a b s inv ends new))
        ])
]

link_taken : (a b : Addr) (s : Sys) → 1 ≤ peered s a b → link_peers a b s ≡ ok eexist s
unfolding link_peers
link_taken a b s h = rw (addpeer_taken a b s h)

-- Connecting two different hooks that are held meanwhile keeps peers symmetric, distinct and
-- allocated. It is all or nothing: on success each hook is a peer of the other and no other pair
-- has changed, and on any error, the lack of memory for the second half included, no hook has
-- changed. Hooks that are peers give EEXIST.
pub link_peers-Linked :
    (a b : Addr) (s : Sys)
    → PeerInv s
    → Ends a b s
    → Returns
        (link_peers a b s)
        (λ err t. PeerInv t × Linked a b s err t × (1 ≤ peered s a b → err ≡ eexist))
link_peers-Linked a b s inv ends = elim (dec_le 1 (peered s a b)) [
  | yes taken ↦
      rw (link_taken a b s taken)
        (inv, inr (ground arith, λ x. (refl, refl, refl, refl)), λ _. refl)
  | no new ↦
      Returns.weaken (λ err t. PeerInv t × Linked a b s err t) _ (link_peers a b s)
        (link_new a b s inv ends (omega arith)) (λ err t (i, l). (i, l, λ h. absurd (new h)))
]

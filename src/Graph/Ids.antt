-- ===== src/Graph/Ids.antt =====
-- dmm_node_create and dmm_node_id2ref in dmm_base.c: the numbers of nodes.
use dimmon.Prelude.{
  ◌≡◌, ◌∙◌, ◌&&◌, ◌≢◌, inl, inr, true, false, ℕ, suc, ◌+◌, ◌≤◌, ◌<◌, List, [], ◌∷◌, if◌then◌else◌,
  ◌==◌, arith, Bool-cases, refl,
}
use native.Mathlib.Decide.{ℕ_discrete}
use dimmon.State.{Addr, Sys, Errno, Node, ok, u32_mod, with_node, enomem, einval}
use dimmon.Module.{type_find}
use dimmon.State.Returns.{Returns}
use dimmon.Graph.{node_create, first_id, new_node, next_id, ctor_answer}

-- Every node of a list is allocated, with an address and a number that have been given out, and no
-- two have the same number.
abbrev pub AreNumbered : (Addr → Node) → ℕ → ℕ → List Addr → Type 0
AreNumbered node mallocs last [] = Unit {0}
AreNumbered node mallocs last (a ∷ as') =
    ((1 ≤ a)
      × (a ≤ mallocs)
      × (1 ≤ (node a).nd_id)
      × ((node a).nd_id ≤ last)
      × ((node a).live ≡ true)
      × (first_id node (node a).nd_id as' ≡ 0))
    × AreNumbered node mallocs last as'

abbrev pub NodesInv : Sys → Type 0
NodesInv s = AreNumbered s.node s.mallocs s.lastnodeid s.nodelist

-- Changing a node that is not in the list.
first_id-agree :
    (f g : Addr → Node) (mallocs last id : ℕ) (as' : List Addr)
    → AreNumbered f mallocs last as'
    → ((a : Addr) → a ≤ mallocs → g a ≡ f a)
    → first_id g id as' ≡ first_id f id as'
unfolding first_id
first_id-agree f g mallocs last id [] inv same = refl
first_id-agree f g mallocs last id (a ∷ as') inv same =
    rw (same a inv.0.1) (ground (arith, first_id-agree f g mallocs last id as' inv.1 same))

AreNumbered-agree :
    (f g : Addr → Node) (mallocs last last' : ℕ) (as' : List Addr)
    → AreNumbered f mallocs last as'
    → last ≤ last'
    → ((a : Addr) → a ≤ mallocs → g a ≡ f a)
    → AreNumbered g (suc mallocs) last' as'
AreNumbered-agree f g mallocs last last' [] inv le same = tt
AreNumbered-agree f g mallocs last last' (a ∷ as') inv le same =
    let (h, rest) = inv in
    rw (same a h.1) (
      (
        h.0,
        omega (arith, h.1),
        h.2,
        omega (arith, h.3),
        h.4,
        first_id-agree f g mallocs last (f a).nd_id as' rest same ∙ h.5,
      ),
      AreNumbered-agree f g mallocs last last' as' rest le same,
    )

first_id-fresh :
    (f : Addr → Node) (mallocs last id : ℕ) (as' : List Addr)
    → AreNumbered f mallocs last as'
    → last < id
    → first_id f id as' ≡ 0
unfolding first_id
first_id-fresh f mallocs last id [] inv h = refl
first_id-fresh f mallocs last id (a ∷ as') inv h =
    ground (arith, inv.0, first_id-fresh f mallocs last id as' inv.1 h)

-- The state behind the allocation of a node, and behind a creation that succeeds.
abbrev allocated : Addr → Sys → Sys
allocated type s =
    with_node (suc s.mallocs) (λ _. new_node (next_id s) type)
      (record s { mallocs = suc s.mallocs; lastnodeid = next_id s })

abbrev created : Addr → Sys → Sys
created type s =
    record (with_node (suc s.mallocs)
      (λ _. record (new_node (next_id s) type) { nd_refs = 1; nd_invalid = false })
      (record s { mallocs = suc s.mallocs; lastnodeid = next_id s })) {
        nodelist = suc s.mallocs ∷ s.nodelist;
      }

-- What creating a node leaves.
abbrev pub Created : Sys → Errno × Addr → Sys → Type 0
Created s (err, a) t =
    NodesInv t
    × ((id : ℕ)
        → first_id t.node id t.nodelist
          ≡ (if err == 0 && id == t.lastnodeid then a else first_id s.node id s.nodelist))
    × (err ≡ 0 → ((t.node a).nd_invalid ≡ false) × ((t.node a).nd_refs ≡ 1))

module _ (type : Addr) (s : Sys) (inv : NodesInv s) (room : s.lastnodeid + 1 < u32_mod) where
  no_wrap : next_id s ≡ s.lastnodeid + 1
  no_wrap = omega arith

  -- As long as the old nodes are the same.
  module _ (t : Sys) (same : (a : Addr) → a ≤ s.mallocs → t.node a ≡ s.node a)
      (counted : t.mallocs ≡ suc s.mallocs) where
    same_list : t.nodelist ≡ s.nodelist → s.lastnodeid ≤ t.lastnodeid → NodesInv t
    same_list list le =
        rw (list, counted)
          (AreNumbered-agree s.node t.node s.mallocs s.lastnodeid t.lastnodeid s.nodelist inv le
            same)

    same_lookup :
        t.nodelist ≡ s.nodelist
        → (id : ℕ) → first_id t.node id t.nodelist ≡ first_id s.node id s.nodelist
    same_lookup list id =
        rw list (first_id-agree s.node t.node s.mallocs s.lastnodeid id s.nodelist inv same)

  created_same : (a : Addr) → a ≤ s.mallocs → (created type s).node a ≡ s.node a
  created_same a h = ground arith

  created_lookup :
      (id : ℕ)
      → first_id (created type s).node id (created type s).nodelist
        ≡ (if id == next_id s then suc s.mallocs else first_id s.node id s.nodelist)
  unfolding first_id
  created_lookup id = ground (
    arith,
    first_id-agree s.node (created type s).node s.mallocs s.lastnodeid id s.nodelist inv
        created_same,
  )

  created_id : ((created type s).node (suc s.mallocs)).nd_id ≡ s.lastnodeid + 1
  created_id = ground arith

  new_id :
      first_id (created type s).node ((created type s).node (suc s.mallocs)).nd_id s.nodelist ≡ 0
  new_id = rw created_id (
      first_id-agree s.node (created type s).node s.mallocs s.lastnodeid (s.lastnodeid + 1)
        s.nodelist inv created_same
      ∙ first_id-fresh s.node s.mallocs s.lastnodeid (s.lastnodeid + 1) s.nodelist inv
          (omega arith))

  created-Created : Created s (0, suc s.mallocs) (created type s)
  created-Created = (
    (
      (omega arith, omega arith, ground arith, ground arith, ground arith, new_id),
      AreNumbered-agree s.node (created type s).node s.mallocs s.lastnodeid (next_id s) s.nodelist
          inv (omega arith) created_same,
    ),
    created_lookup,
    λ _. ground arith,
  )

  module _ (typename : List ℕ) (found : type_find typename s ≡ type) (some_type : type ≢ 0) where
    create_no_memory :
        s.mem s.mallocs ≡ false
        → node_create typename s ≡ ok (enomem, 0) (record s { mallocs = suc s.mallocs })
    unfolding node_create
    create_no_memory full = rw found ground arith

    create_taken :
        s.mem s.mallocs ≡ true
        → ctor_answer (s.type_at type).ctor (suc s.mallocs) ≡ 0
        → node_create typename s ≡ ok (0, suc s.mallocs) (created type s)
    unfolding node_create
    create_taken room_for e = rw found ground arith

    create_refused :
        s.mem s.mallocs ≡ true
        → ctor_answer (s.type_at type).ctor (suc s.mallocs) ≢ 0
        → node_create typename s
          ≡ ok
              (ctor_answer (s.type_at type).ctor (suc s.mallocs), 0)
              (with_node (suc s.mallocs) (λ n. record n { live = false }) (allocated type s))
    unfolding node_create
    create_refused room_for e = rw found ground arith

    found-Created : Returns (node_create typename s) (λ r t. Created s r t)
    found-Created = elim (Bool-cases (s.mem s.mallocs)) [
      | inr full ↦ rw (create_no_memory full) (
        same_list (record s { mallocs = suc s.mallocs }) (λ a h. refl) refl refl (omega arith),
        λ id. same_lookup (record s { mallocs = suc s.mallocs }) (λ a h. refl) refl refl id,
        λ e. absurd (omega (arith, e)),
      )
      | inl room_for ↦ elim (ℕ_discrete (ctor_answer (s.type_at type).ctor (suc s.mallocs)) 0) [
        | yes e ↦ rw (create_taken room_for e) created-Created
        | no e ↦ rw (create_refused room_for e) (
          same_list refused (λ a h. ground arith) refl refl (ground arith),
          λ id. ground (arith, e, same_lookup refused (λ a h. ground arith) refl refl id),
          λ z. absurd (e z),
        )
      ]
    ]
      where
        refused : Sys
        refused = with_node (suc s.mallocs) (λ n. record n { live = false }) (allocated type s)

create_unknown :
    (typename : List ℕ) (s : Sys)
    → type_find typename s ≡ 0
    → node_create typename s ≡ ok (einval, 0) s
unfolding node_create
create_unknown typename s e = rw e refl

-- While the numbers of nodes have not run out, creating a node keeps every node of the list
-- numbered differently. If it succeeds, the lookup of the newest number finds the new node, which
-- is valid and has one reference; whether it succeeds or not, the lookup of any other number finds
-- what it found before.
pub node_create-Created :
    (typename : List ℕ) (s : Sys)
    → NodesInv s
    → s.lastnodeid + 1 < u32_mod
    → Returns (node_create typename s) (λ r t. Created s r t)
node_create-Created typename s inv room = elim (ℕ_discrete (type_find typename s) 0) [
  | yes e ↦ rw (create_unknown typename s e) (inv, λ id. refl, λ z. absurd (omega (arith, z)))
  | no e ↦ found-Created (type_find typename s) s inv room typename refl e
]

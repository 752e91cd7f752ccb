-- ===== src/Hook/Create.antt =====
-- dmm_hook_create and dmm_hook_find in dmm_base.c: which hooks are created, and that they are found.
use dimmon.Prelude.{
  ℕ, suc, ◌+◌, ◌<◌, ◌≡◌, ◌≢◌, ◌||◌, not, refl, ap, ◌∙◌, true, false, Option, none, List, [], ◌∷◌,
  arith, ◌==◌, if◌then◌else◌, Bool-cases, inl, inr,
}
use native.Mathlib.Decide.{ℕ_discrete}
use dimmon.State.{
  and_then, pure, malloc, Addr, Errno, Direction, hook_in, hook_out, Node, Sys, ok, einval, enomem,
  with_hook, with_node,
}
use dimmon.State.Returns.{Returns}
use dimmon.Memman.{dmm_refnum_max}
use dimmon.Node.{is_empty, set_refs}
use dimmon.Hook.{
  hook_init, name_stop, new_hook, newhook_answer, hook_create, hooks_of, link_hook, first_named,
  hook_install, is_in, is_some, set_hook_refs,
}
use dimmon.Hook.Names.{is_plain, name_stop-is_plain, strneq_self}

-- The error that creating a hook answers.
abbrev pub create_answer : Addr → List ℕ → Sys → Errno
create_answer node name s =
    if (s.node node).nd_invalid || (is_empty name || not (is_plain 31 name))
    then einval
    else if s.mem s.mallocs
    then (newhook_answer (s.type_at (s.node node).nd_type).newhook (suc s.mallocs)).0
    else enomem

-- A new hook `a` of a node: valid, held once, and found under its name.
pub record Created (node : Addr) (dir : Direction) (name : List ℕ) (a : Addr) (s t : Sys)
    : Type 0 where
  pub alive : (t.hook a).live ≡ true
  pub valid : (t.hook a).hk_invalid ≡ false
  pub named : (t.hook a).hk_name ≡ name
  pub owner : (t.hook a).hk_node ≡ node
  pub refs : (t.hook a).hk_refs ≡ 1
  pub no_peers : (t.hook a).hk_peers ≡ []
  pub listed : hooks_of dir (t.node node) ≡ a ∷ hooks_of dir (s.node node)
  pub found : first_named t.hook name (hooks_of dir (t.node node)) ≡ a
  pub node_refs : (t.node node).nd_refs ≡ (s.node node).nd_refs + 1

link_hook_keeps :
    (dir : Direction) (a : Addr) (n : Node)
    → ((link_hook dir a n).live ≡ n.live) × ((link_hook dir a n).nd_refs ≡ n.nd_refs)
link_hook_keeps hook_in a n = (refl, refl)
link_hook_keeps hook_out a n = (refl, refl)

hooks_of-link_hook :
    (dir : Direction) (a : Addr) (n : Node) (r : ℕ)
    → hooks_of dir (set_refs r (link_hook dir a n)) ≡ a ∷ hooks_of dir n
hooks_of-link_hook hook_in a n r = refl
hooks_of-link_hook hook_out a n r = refl

out_fine :
    (dir : Direction) (rcv : Option ℕ)
    → (is_in dir ≡ false → rcv ≡ none)
    → (is_in dir || not (is_some rcv)) ≡ true
out_fine hook_in rcv h = refl
out_fine hook_out rcv h = rw (h refl) refl

malloc-ok :
    (s : Sys)
    → s.mem s.mallocs ≡ true
    → malloc s ≡ ok (suc s.mallocs) (record s { mallocs = suc s.mallocs })
unfolding malloc
malloc-ok s room = rw room refl

-- Behind the installation of a hook.
abbrev installed : Addr → Direction → Addr → Sys → Sys
installed node dir a s =
    let s1 : Sys = with_hook a (λ h. record h { hk_invalid = false }) s in
    let s2 : Sys = with_node node (link_hook dir a) s1 in
    let s3 : Sys = with_node node (set_refs ((s.node node).nd_refs + 1)) s2 in
    with_hook a (set_hook_refs 1) s3

install-ok :
    (node : Addr) (dir : Direction) (a : Addr) (s : Sys)
    → (s.hook a).live ≡ true
    → (is_in (s.hook a).hk_dir || not (is_some (s.hook a).hk_rcvdata)) ≡ true
    → (s.node node).live ≡ true
    → (s.node node).nd_refs < dmm_refnum_max
    → (s.hook a).hk_refs ≡ 0
    → hook_install node dir a s ≡ ok tt (installed node dir a s)
unfolding hook_install
install-ok node hook_in a s live out_none alive few none_ = ground arith
install-ok node hook_out a s live out_none alive few none_ = ground arith

module _ (node : Addr) (dir : Direction) (name : List ℕ) (s : Sys) where
  refused :
      ((s.node node).nd_invalid || (is_empty name || not (is_plain 31 name))) ≡ true
      → hook_create node dir name s ≡ ok (einval, 0) s
  unfolding hook_create
  refused h = ground (arith, name_stop-is_plain 31 name)

  module _
      (fine : ((s.node node).nd_invalid || (is_empty name || not (is_plain 31 name))) ≡ false) where
    no_memory :
        s.mem s.mallocs ≡ false
        → hook_create node dir name s ≡ ok (enomem, 0) (record s { mallocs = suc s.mallocs })
    unfolding hook_create
    no_memory full = ground (arith, name_stop-is_plain 31 name)

    abbrev answer : Errno × Option ℕ
    answer = newhook_answer (s.type_at (s.node node).nd_type).newhook (suc s.mallocs)

    -- Behind the answer of `newhook`.
    abbrev answered : Sys
    answered =
        with_hook (suc s.mallocs) (λ h. record h { hk_rcvdata = answer.1 })
          (with_hook (suc s.mallocs) (λ _. new_hook node dir name)
            (record s { mallocs = suc s.mallocs }))

    rejected :
        s.mem s.mallocs ≡ true
        → answer.0 ≢ 0
        → hook_create node dir name s
          ≡ ok (answer.0, 0) (with_hook (suc s.mallocs) (λ h. record h { live = false }) answered)
    unfolding hook_create
    rejected room nonzero = ground (arith, name_stop-is_plain 31 name)

    create_init : hook_create node dir name s ≡ and_then (malloc s) (hook_init node dir name)
    unfolding hook_create
    create_init = simp (valid, named, stops) refl
      where
        valid : (s.node node).nd_invalid ≡ false
        valid = ground (arith, fine)

        named : is_empty name ≡ false
        named = ground (arith, fine)

        stops : is_empty (name_stop 31 name) ≡ true
        stops = ground (arith, fine, name_stop-is_plain 31 name)

    init_install :
        answer.0 ≡ 0
        → hook_init node dir name (suc s.mallocs) (record s { mallocs = suc s.mallocs })
          ≡ and_then (hook_install node dir (suc s.mallocs) answered) (λ _. pure (0, suc s.mallocs))
    unfolding hook_init
    init_install zero_ = simp (real, zero_) refl
      where
        real : (suc s.mallocs == 0) ≡ false
        real = ground arith

    taken :
        s.mem s.mallocs ≡ true
        → answer.0 ≡ 0
        → (s.node node).live ≡ true
        → (s.node node).nd_refs < dmm_refnum_max
        → (is_in dir ≡ false → answer.1 ≡ none)
        → hook_create node dir name s
          ≡ ok (0, suc s.mallocs) (installed node dir (suc s.mallocs) answered)
    taken room zero_ alive few out_none =
        create_init
        ∙ ap (λ r. and_then r (hook_init node dir name)) (malloc-ok s room)
        ∙ init_install zero_
        ∙ ap (λ r. and_then r (λ _. pure (0, suc s.mallocs))) installs
      where
        dir_of : (answered.hook (suc s.mallocs)).hk_dir ≡ dir
        dir_of = ground arith

        rcv_of : (answered.hook (suc s.mallocs)).hk_rcvdata ≡ answer.1
        rcv_of = ground arith

        installs :
            hook_install node dir (suc s.mallocs) answered
            ≡ ok tt (installed node dir (suc s.mallocs) answered)
        installs =
            install-ok node dir (suc s.mallocs) answered (ground arith)
              (rw (dir_of, rcv_of) (out_fine dir answer.1 out_none)) alive few (ground arith)

    abbrev made : Sys
    made = installed node dir (suc s.mallocs) answered

    made_list : hooks_of dir (made.node node) ≡ suc s.mallocs ∷ hooks_of dir (s.node node)
    made_list =
        ap (hooks_of dir) node_at
        ∙ hooks_of-link_hook dir (suc s.mallocs) (s.node node) ((s.node node).nd_refs + 1)
      where
        node_at :
            made.node node
            ≡ set_refs ((s.node node).nd_refs + 1) (link_hook dir (suc s.mallocs) (s.node node))
        node_at = ground arith

    made_name : (made.hook (suc s.mallocs)).hk_name ≡ name
    made_name = ground arith

    made_found :
        first_named made.hook name (suc s.mallocs ∷ hooks_of dir (s.node node)) ≡ suc s.mallocs
    unfolding first_named
    made_found = rw (made_name, strneq_self 32 name) refl

    made-Created : Created node dir name (suc s.mallocs) s made
    made-Created = record {
      alive = ground arith;
      valid = ground arith;
      named = made_name;
      owner = ground arith;
      refs = ground arith;
      no_peers = ground arith;
      listed = made_list;
      found = rw made_list made_found;
      node_refs = ground arith;
    }

-- What creating a hook leaves: the hook, or an error with no change of any node and no allocated hook
-- that was not.
abbrev pub Outcome : Addr → Direction → List ℕ → Sys → Errno × Addr → Sys → Type 0
Outcome node dir name s (err, a) t =
    (err ≡ create_answer node name s)
    × (err ≡ 0 → Created node dir name a s t)
    × (err ≢ 0
        → (a ≡ 0)
          × (t.node ≡ s.node)
          × ((x : Addr) → (t.hook x).live ≡ true → (s.hook x).live ≡ true))

-- Creating a hook of an allocated node, whose type gives an output no receiver of data, answers EINVAL for
-- an invalid node and for a name that is empty, longer than 31 bytes or has a bracket, ENOMEM without
-- memory, the error of the type's `newhook` if it refuses, and 0 otherwise. Only then there is a new
-- hook: valid, first in its node's list, found under its name, held once, and holding its node.
pub hook_create-Created :
    (node : Addr) (dir : Direction) (name : List ℕ) (s : Sys)
    → (s.node node).live ≡ true
    → (s.node node).nd_refs < dmm_refnum_max
    → (is_in dir ≡ false
        → (newhook_answer (s.type_at (s.node node).nd_type).newhook (suc s.mallocs)).1 ≡ none)
    → Returns (hook_create node dir name s) (λ r t. Outcome node dir name s r t)
hook_create-Created node dir name s alive few out_none =
    elim (Bool-cases ((s.node node).nd_invalid || (is_empty name || not (is_plain 31 name)))) [
      | inl h ↦
          rw (refused node dir name s h)
            (ground (arith, h), λ z. absurd (omega (arith, z)), λ _. (refl, refl, λ x l. l))
      | inr fine ↦ elim (Bool-cases (s.mem s.mallocs)) [
        | inr full ↦ rw (no_memory node dir name s fine full) (
          ground (arith, fine, full),
          λ z. absurd (omega (arith, z)),
          λ _. (refl, refl, λ x l. l),
        )
        | inl room ↦
            elim (ℕ_discrete
              (newhook_answer (s.type_at (s.node node).nd_type).newhook (suc s.mallocs)).0 0) [
                | yes e ↦ rw (taken node dir name s fine room e alive few out_none) (
                  ground (arith, fine, room, e),
                  λ _. made-Created node dir name s fine,
                  λ z. absurd (z refl),
                )
                | no nz ↦ rw (rejected node dir name s fine room nz) (
                  ground (arith, fine, room),
                  λ z. absurd (nz z),
                  λ _. (refl, refl, λ x l. ground (arith, l)),
                )
              ]
      ]
    ]

-- ===== src/Wavebuf/Drain.antt =====
-- modules/wavebuf/wavebuf.c: the loop that empties the buffer into one object.
use dimmon.Prelude.{
  ℕ, ◌+◌, ◌≤◌, ◌<◌, ◌≡◌, ◌≢◌, ◌∙◌, refl, ap, sym, inl, true, ==_ne, ==_self, List, [], ◌∷◌, count,
  arith,
}
use native.Mathlib.Decide.{ℕ_discrete}
use mathlib.Core.Path.{subst}
use dimmon.State.{Addr, Sys}
use dimmon.State.Returns
use dimmon.State.Returns.{Returns}
use dimmon.Data.{Block, Sample, store_bytes, load_bytes}
use dimmon.Data.Layout.{store_bytes_other}
use dimmon.Data.Copy.{copied, Holds, size_of, Holds-copy}
use dimmon.Data.Objects.{data_unref}
use dimmon.Wavebuf.{Blocks, total_length, append_nodes, drain}
use dimmon.Wavebuf.Merge.{all_samples, parts_of, Released, released, data_unref-Released}

-- An object in the buffer.
pub record Buffered (samples : Addr → List Sample) (blocks : Blocks) (a : Addr) (s : Sys)
    : Type 0 where
  pub holds : Holds (blocks a) 0 (samples a)
  pub alive : (s.data_at a).live ≡ true
  pub held : 1 ≤ (s.data_at a).da_refs

abbrev with_data_of : Sys → Sys → Sys
with_data_of u v = record v { data_at = u.data_at }

module _ (as' : List Addr) (a : Addr) (s t u : Sys) (fresh : count a as' ≡ 0) where
  Released-both : Released (a ∷ []) s t → Released as' t u → Released (a ∷ as') s u
  unfolding count
  Released-both one more = record {
    frame = more.frame ∙ ap (with_data_of u) one.frame;
    those = λ b h. elim (ℕ_discrete b a) [
      | yes e ↦ more.others b (ap (λ x. count x as') e ∙ fresh) ∙ one.those b (ground (arith, e))
      | no ne ↦
          more.those b (ground (arith, h, ne)) ∙ ap released (one.others b (ground (arith, ne)))
    ];
    others = λ b h. more.others b (ground (arith, h)) ∙ one.others b (ground (arith, h));
  }

not_first :
    (a b : Addr) (as' : List Addr) → count a as' ≡ 0 → 1 ≤ count b as' → count b (a ∷ []) ≡ 0
unfolding count
not_first a b as' fresh h = elim (ℕ_discrete b a) [
  | yes e ↦ absurd (omega (arith, ap (λ x. count x as') e, fresh, h))
  | no ne ↦ ground (arith, ne)
]

-- One copy.
module _ (data' a : Addr) (node len : ℕ) (blocks : Blocks) where
  append_here :
      append_nodes blocks data' node a len data'
      ≡ store_bytes (blocks data') node (load_bytes (blocks a) 0 len)
  append_here = rw (==_self data') refl

  append_other : (x : Addr) → x ≢ data' → append_nodes blocks data' node a len x ≡ blocks x
  append_other x ne = rw (==_ne x data' ne) refl

  append_below : (k : ℕ) → k < node → append_nodes blocks data' node a len data' k ≡ blocks data' k
  append_below k h =
      ap (λ b. b k) append_here
      ∙ store_bytes_other (load_bytes (blocks a) 0 len) (blocks data') node k (inl h)

  append_copied :
      (k : ℕ) → k < len → append_nodes blocks data' node a len data' (node + k) ≡ blocks a (0 + k)
  append_copied k h =
      ap (λ b. b (node + k)) append_here ∙ copied len (blocks a) (blocks data') node 0 k h

module _ (samples : Addr → List Sample) (data' : Addr) where
  -- The end of the loop: the data nodes stand behind each other in the object, and the buffered objects
  -- are released.
  pub record Drained (node : ℕ) (as' : List Addr) (blocks : Blocks) (s : Sys) (r : ℕ × Blocks)
      (t : Sys) : Type 0 where
    pub place : r.0 ≡ node + total_length (parts_of samples as')
    pub below : (k : ℕ) → k < node → r.1 data' k ≡ blocks data' k
    pub elsewhere : (x : Addr) → x ≢ data' → r.1 x ≡ blocks x
    pub nodes :
        (c : Block) (ys : List Sample)
        → ((k : ℕ) → k < r.0 → c k ≡ r.1 data' k)
        → Holds c r.0 ys
        → Holds c node (all_samples samples as' ys)
    pub gone : Released as' s t

  pub drain-Drained :
      (real : data' ≢ 0) (as' : List Addr) (node : ℕ) (blocks : Blocks) (s : Sys)
      → ((a : Addr) → 1 ≤ count a as' → (a ≢ data') × Buffered samples blocks a s)
      → ((a : Addr) → count a as' ≤ 1)
      → Returns
          (drain data' node blocks (parts_of samples as') s)
          (λ r t. Drained node as' blocks s r t)
  unfolding drain count
  drain-Drained real [] node blocks s buffered once = record {
    place = omega arith;
    below = λ k h. refl;
    elsewhere = λ x h. refl;
    nodes = λ c ys same rest. rest;
    gone = record { frame = refl; those = λ a h. absurd (omega (arith, h)); others = λ a h. refl };
  }
  drain-Drained real (a ∷ as') node blocks s buffered once =
      let (other, here) = buffered a (ground arith) in
      let fresh : count a as' ≡ 0 = ground (arith, once a) in
      let len : ℕ = size_of (samples a) in
      let blocks' : Blocks = append_nodes blocks data' node a len in
      rw (==_ne data' 0 real) (
        Returns.bind (λ _ t. Released (a ∷ []) s t) _ (data_unref a s) _
          (data_unref-Released a s here.alive here.held)
          (λ _ t one.
            Returns.weaken (λ r u. Drained (node + len) as' blocks' t r u) _
              (drain data' (node + len) blocks' (parts_of samples as') t)
              (drain-Drained real as' (node + len) blocks' t
                (λ b h.
                  let (ne, old) = buffered b (ground (arith, h)) in
                  let kept = one.others b (not_first a b as' fresh h) in
                  (
                    ne,
                    record {
                      holds =
                          subst (λ f. Holds f 0 (samples b))
                            (sym (append_other data' a node len blocks b ne)) old.holds;
                      alive = ap (λ d. d.live) kept ∙ old.alive;
                      held = rw kept old.held;
                    },
                  ))
                (λ b. ground (arith, once b)))
              (λ r u rest. record {
                place = omega (arith, rest.place);
                below = λ k h.
                    rest.below k (omega (arith, h)) ∙ append_below data' a node len blocks k h;
                elsewhere = λ x h. rest.elsewhere x h ∙ append_other data' a node len blocks x h;
                nodes = λ c ys same tail.
                    Holds-copy (samples a) (all_samples samples as' ys) (blocks a) c 0 node
                      here.holds
                      (λ k h.
                        same (node + k) (omega (arith, rest.place, h))
                        ∙ rest.below (node + k) (omega (arith, h))
                        ∙ append_copied data' a node len blocks k h)
                      (rest.nodes c ys same tail);
                gone = Released-both as' a s t u fresh one rest.gone;
              })))

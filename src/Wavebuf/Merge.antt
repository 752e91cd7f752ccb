-- ===== src/Wavebuf/Merge.antt =====
-- modules/wavebuf/wavebuf.c: the buffered data in one object.
use dimmon.Prelude.{
  ℕ, zero, suc, ◌+◌, ◌-◌, ◌≤◌, ◌<◌, ◌≡◌, ◌∙◌, refl, ap, true, false, not, ◌==◌, some, List, [], ◌∷◌,
  ◌++◌, count, length, arith,
}
use native.Mathlib.Decide.{ℕ_discrete}
use dimmon.State.{Addr, Data, Sys, ok, with_data}
use dimmon.State.Returns.{Returns}
use dimmon.Data.{Block, Sample, dn_isend, dn_next, datanode_size}
use dimmon.Data.Copy.{Holds, size_of}
use dimmon.Data.Objects.{data_unref}
use dimmon.Wavebuf.{Blocks, end_of, sum_lengths}

-- The end is found behind the data nodes.
pub end_of-Holds :
    (xs : List Sample) (fuel : ℕ) (b : Block) (node : ℕ)
    → Holds b node xs
    → length xs < fuel
    → end_of fuel b node ≡ some (node + size_of xs)
unfolding end_of
end_of-Holds xs zero b node holds enough = absurd (omega (arith, enough))
end_of-Holds [] (suc fuel) b node holds enough = rw holds (ap some (omega arith))
end_of-Holds (x ∷ xs) (suc fuel) b node holds enough =
    let more : dn_isend b node ≡ false = rw (holds.0, holds.1) holds.2 in
    let there : dn_next b node ≡ node + (datanode_size + length x.values) =
      ap (λ n. node + (datanode_size + n)) holds.1 in
    rw more (
      ap (end_of fuel b) there
      ∙ end_of-Holds xs fuel b (node + (datanode_size + length x.values)) holds.4
          (omega (arith, enough))
      ∙ ap some (omega arith))

-- The samples of all objects in front of others.
abbrev pub all_samples : (Addr → List Sample) → List Addr → List Sample → List Sample
all_samples samples [] ys = ys
all_samples samples (a ∷ as') ys = samples a ++ all_samples samples as' ys

abbrev pub parts_of : (Addr → List Sample) → List Addr → List (Addr × ℕ)
parts_of samples [] = []
parts_of samples (a ∷ as') = (a, size_of (samples a)) ∷ parts_of samples as'

pub sum_lengths-parts :
    (fuel : ℕ) (blocks : Blocks) (samples : Addr → List Sample) (as' : List Addr)
    → ((a : Addr) → 1 ≤ count a as' → Holds (blocks a) 0 (samples a) × (length (samples a) < fuel))
    → sum_lengths fuel blocks as' ≡ some (parts_of samples as')
unfolding sum_lengths count
sum_lengths-parts fuel blocks samples [] holds = refl
sum_lengths-parts fuel blocks samples (a ∷ as') holds =
    let here = holds a (ground arith) in
    let rest = sum_lengths-parts fuel blocks samples as' (λ b h. holds b (ground (arith, h))) in
    rw (end_of-Holds (samples a) fuel (blocks a) 0 here.0 here.1, rest)
      (ap (λ n. some ((a, n) ∷ parts_of samples as')) (omega arith))

-- A data object that has lost a reference.
abbrev pub released : Data → Data
released d = record d { da_refs = d.da_refs - 1; live = not (d.da_refs == 1) }

only : (b a : Addr) → 1 ≤ count b (a ∷ []) → b ≡ a
unfolding count
only b a h = ground (arith, h)

-- What releasing an object does: nothing else changes.
pub record Released (as' : List Addr) (s t : Sys) : Type 0 where
  pub frame : t ≡ record s { data_at = t.data_at }
  pub those : (a : Addr) → 1 ≤ count a as' → t.data_at a ≡ released (s.data_at a)
  pub others : (a : Addr) → count a as' ≡ 0 → t.data_at a ≡ s.data_at a

module _ (a : Addr) (s : Sys) (alive : (s.data_at a).live ≡ true) where
  unref-keep :
      1 < (s.data_at a).da_refs
      → data_unref a s
        ≡ ok tt (with_data a (λ d. record d { da_refs = (s.data_at a).da_refs - 1 }) s)
  unfolding data_unref
  unref-keep more = ground (arith, alive, more)

  unref-last :
      (s.data_at a).da_refs ≡ 1
      → data_unref a s
        ≡ ok tt (
            with_data a
              (λ d. record d { live = false })
              (with_data a (λ d. record d { da_refs = 0 }) s))
  unfolding data_unref
  unref-last last = ground (arith, alive, last)

  pub data_unref-Released :
      1 ≤ (s.data_at a).da_refs → Returns (data_unref a s) (λ _ t. Released (a ∷ []) s t)
  unfolding count
  data_unref-Released some_refs = elim (ℕ_discrete (s.data_at a).da_refs 1) [
    | yes last ↦ rw (unref-last last) (record {
      frame = refl;
      those = λ b h. rw (only b a h) (ground (arith, last, alive));
      others = λ b h. ground (arith, h);
    })
    | no more ↦ rw (unref-keep (omega (arith, some_refs, more))) (record {
      frame = refl;
      those = λ b h. rw (only b a h) (ground (arith, more, alive, some_refs));
      others = λ b h. ground (arith, h);
    })
  ]

-- ===== src/Data/Copy.antt =====
-- dmm_message.h: data nodes that are copied from one block to another, as wavebuf and prepend do.
use dimmon.Prelude.{
  ℕ, zero, suc, ◌+◌, ◌<◌, ◌≡◌, ◌∙◌, refl, ap, sym, true, false, ◌&&◌, ◌==◌, Bool-cases, inl, inr,
  Option, Option-cases, none, some, List, [], ◌∷◌, ◌++◌, length, arith,
}
use mathlib.Core.Path.{subst}
use dimmon.State.{put}
use dimmon.Data.Layout.{store_bytes_other}
use dimmon.Data.{
  store_bytes, Block, Sample, load32, load_bytes, dn_sensor, dn_len, dn_next, dn_isend,
  datanode_size, walk_nodes,
}
use dimmon.Data.Walk.{walk_step}

-- The data nodes at a place of a block, up to the end.
abbrev pub Holds : Block → ℕ → List Sample → Type 0
Holds b node [] = dn_isend b node ≡ true
Holds b node (x ∷ xs) =
    (dn_sensor b node ≡ x.sensor)
    × (dn_len b node ≡ length x.values)
    × ((x.sensor == 0 && length x.values == 0) ≡ false)
    × (load_bytes b (node + datanode_size) (length x.values) ≡ x.values)
    × Holds b (node + (datanode_size + length x.values)) xs

-- The bytes of data nodes without the end.
abbrev pub size_of : List Sample → ℕ
size_of [] = 0
size_of (x ∷ xs) = (datanode_size + length x.values) + size_of xs

pub walk_nodes-Holds :
    (xs : List Sample) (b : Block) (node : ℕ)
    → Holds b node xs
    → walk_nodes (suc (length xs)) b node ≡ some xs
unfolding walk_nodes
walk_nodes-Holds [] b node is_end = rw is_end refl
walk_nodes-Holds (x ∷ xs) b node holds =
    walk_step (suc (length xs)) b node x xs holds.0 holds.1 holds.2 holds.3
      (walk_nodes-Holds xs b (node + (datanode_size + length x.values)) holds.4)

length-load_bytes : (n : ℕ) (b : Block) (o : ℕ) → length (load_bytes b o n) ≡ n
unfolding load_bytes
length-load_bytes zero b o = refl
length-load_bytes (suc n) b o = ap suc (length-load_bytes n b (o + 1))

-- A round of a walk that has ended.
module _ (fuel : ℕ) (b : Block) (node : ℕ) where
  abbrev pub seen : Sample
  seen = record {
    sensor = dn_sensor b node;
    values = load_bytes b (node + datanode_size) (dn_len b node);
  }

  abbrev from_rest : Option (List Sample) → Option (List Sample)
  from_rest none = none
  from_rest (some ys) = some (seen ∷ ys)

  walk_nodes-end : dn_isend b node ≡ true → walk_nodes (suc fuel) b node ≡ some []
  unfolding walk_nodes
  walk_nodes-end e = rw e refl

  walk_nodes-more :
      dn_isend b node ≡ false
      → walk_nodes (suc fuel) b node ≡ from_rest (walk_nodes fuel b (dn_next b node))
  unfolding walk_nodes
  walk_nodes-more e = rw e (ground arith)

  pub seen-length : length seen.values ≡ dn_len b node
  seen-length = length-load_bytes (dn_len b node) b (node + datanode_size)

  pub Holds_seen :
      (ys : List Sample)
      → dn_isend b node ≡ false
      → Holds b (dn_next b node) ys
      → Holds b node (seen ∷ ys)
  Holds_seen ys more rest = (
    refl,
    sym seen-length,
    ap (λ n. dn_sensor b node == 0 && n == 0) seen-length ∙ more,
    ap (load_bytes b (node + datanode_size)) seen-length,
    subst (λ n. Holds b (node + (datanode_size + n)) ys) (sym seen-length) rest,
  )

abbrev given {ℓ} : {A : Type ℓ} → A → Option A → A
given a none = a
given a (some x) = x

-- A walk that ends has seen the data nodes.
pub Holds_of_walk :
    (fuel : ℕ) (xs : List Sample) (b : Block) (node : ℕ)
    → walk_nodes fuel b node ≡ some xs
    → Holds b node xs
unfolding walk_nodes
Holds_of_walk zero xs b node run = absurd (ground (arith, run))
Holds_of_walk (suc fuel) xs b node run = elim (Bool-cases (dn_isend b node)) [
  | inl e ↦ subst (Holds b node) (ap (given []) (sym (walk_nodes-end fuel b node e) ∙ run)) e
  | inr e ↦ elim (Option-cases (walk_nodes fuel b (dn_next b node))) [
    | inl f ↦ absurd (
        ground
          (arith, sym (ap (from_rest fuel b node) f) ∙ sym (walk_nodes-more fuel b node e) ∙ run))
    | inr (ys, f) ↦
        subst (Holds b node)
          (ap (given [])
            (sym (ap (from_rest fuel b node) f) ∙ sym (walk_nodes-more fuel b node e) ∙ run))
          (Holds_seen fuel b node ys e (Holds_of_walk fuel ys b (dn_next b node) f))
  ]
]

-- Bytes and words that are the same at another place.
pub load32-shift :
    (b c : Block) (o p : ℕ) → ((k : ℕ) → k < 4 → c (p + k) ≡ b (o + k)) → load32 c p ≡ load32 b o
unfolding load32
load32-shift b c o p same =
    ground (
      arith,
      same 0 (omega arith),
      same 1 (omega arith),
      same 2 (omega arith),
      same 3 (omega arith),
    )

pub load_bytes-shift :
    (n : ℕ) (b c : Block) (o p : ℕ)
    → ((k : ℕ) → k < n → c (p + k) ≡ b (o + k))
    → load_bytes c p n ≡ load_bytes b o n
unfolding load_bytes
load_bytes-shift zero b c o p same = refl
load_bytes-shift (suc n) b c o p same =
    ap (λ x. x ∷ load_bytes c (p + 1) n) (ground (arith, same 0 (omega arith)))
    ∙ ap (◌∷◌ (b o)) (
        load_bytes-shift n b c (o + 1) (p + 1)
          (λ k h. ground (arith, same (k + 1) (omega (arith, h)))))

-- The data nodes of one block, copied to a place of another in front of other data nodes.
pub Holds-copy :
    (xs ys : List Sample) (b c : Block) (node o : ℕ)
    → Holds b node xs
    → ((k : ℕ) → k < size_of xs → c (o + k) ≡ b (node + k))
    → Holds c (o + size_of xs) ys
    → Holds c o (xs ++ ys)
Holds-copy [] ys b c node o holds same rest = subst (λ p. Holds c p ys) (omega arith) rest
Holds-copy (x ∷ xs) ys b c node o holds same rest =
    let n : ℕ = datanode_size + length x.values in
    (
      load32-shift b c node o (λ k h. same k (omega (arith, h))) ∙ holds.0,
      load32-shift b c (node + 4) (o + 4) (λ k h. ground (arith, same (k + 4) (omega (arith, h))))
          ∙ holds.1,
      holds.2,
      load_bytes-shift (length x.values) b c (node + datanode_size) (o + datanode_size)
            (λ k h. ground (arith, same (k + datanode_size) (omega (arith, h))))
          ∙ holds.3,
      Holds-copy xs ys b c (node + n) (o + n) holds.4
          (λ k h. ground (arith, same (k + n) (omega (arith, h))))
          (subst (λ p. Holds c p ys) (omega arith) rest),
    )

Holds-end :
    (xs : List Sample) (b : Block) (node : ℕ)
    → Holds b node xs
    → dn_isend b (node + size_of xs) ≡ true
Holds-end [] b node holds = subst (λ p. dn_isend b p ≡ true) (omega arith) holds
Holds-end (x ∷ xs) b node holds =
    subst (λ p. dn_isend b p ≡ true) (omega arith)
      (Holds-end xs b (node + (datanode_size + length x.values)) holds.4)

append_nil : (xs : List Sample) → xs ++ [] ≡ xs
append_nil [] = refl
append_nil (x ∷ xs) = ap (◌∷◌ x) (append_nil xs)

-- Data nodes that are copied with their end.
pub Holds-copy_end :
    (xs : List Sample) (b c : Block) (node o : ℕ)
    → Holds b node xs
    → ((k : ℕ) → k < size_of xs + datanode_size → c (o + k) ≡ b (node + k))
    → Holds c o xs
Holds-copy_end xs b c node o holds same =
    let there : ℕ = size_of xs in
    let is_end : dn_isend c (o + there) ≡ true =
      ap (λ v. v == 0 && dn_len c (o + there) == 0)
        (load32-shift b c (node + there) (o + there)
          (λ k h. ground (arith, same (there + k) (omega (arith, h)))))
      ∙ ap (λ v. dn_sensor b (node + there) == 0 && v == 0)
          (load32-shift b c (node + there + 4) (o + there + 4)
            (λ k h. ground (arith, same (there + 4 + k) (omega (arith, h)))))
      ∙ Holds-end xs b node holds in
    subst (Holds c o) (append_nil xs)
      (Holds-copy xs [] b c node o holds (λ k h. same k (omega (arith, h))) is_end)

-- Bytes that are copied.
pub copied :
    (n : ℕ) (a b : Block) (o p k : ℕ)
    → k < n
    → store_bytes b o (load_bytes a p n) (o + k) ≡ a (p + k)
unfolding store_bytes load_bytes
copied zero a b o p k h = absurd (omega (arith, h))
copied (suc n) a b o p zero h =
    ground (arith, store_bytes_other (load_bytes a (p + 1) n) (put b o (a p)) (o + 1) o)
copied (suc n) a b o p (suc k) h =
    ground (arith, copied n a (put b o (a p)) (o + 1) (p + 1) k (omega (arith, h)))

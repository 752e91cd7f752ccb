-- ===== src/Data/Walk.antt =====
-- Filling a block with data nodes and walking over it.
use dimmon.Prelude.{
  ℕ, suc, ◌+◌, ◌*◌, ◌%◌, ◌≤◌, ◌<◌, ◌≡◌, ◌⊎◌, inl, inr, refl, ap, sym, ◌∙◌, true, false, ◌&&◌, some,
  List, [], ◌∷◌, length, arith, ◌==◌,
}
use dimmon.State.{u32_mod}
use dimmon.Data.{
  Block, Sample, dn_sensor, dn_len, dn_next, dn_isend, dn_create, dn_mkend, dn_fill, fill_nodes,
  walk_nodes, load_bytes, store32, store_bytes, datanode_size, data_len,
}
use dimmon.Data.Layout.{
  load32-store32, store32_other, load32-agree, store_bytes_other, load_bytes-agree,
  load_bytes-store_bytes,
}

-- What fits into a data node, and is not the end.
abbrev pub IsSendable : List Sample → Type 0
IsSendable [] = Unit {0}
IsSendable (x ∷ xs) =
    ((x.sensor < u32_mod)
      × (length x.values < u32_mod)
      × ((x.sensor == 0 && length x.values == 0) ≡ false))
    × IsSendable xs

-- The number of bytes of all samples.
abbrev pub total : List Sample → ℕ
total [] = 0
total (x ∷ xs) = length x.values + total xs

module _ (b : Block) (node sensor : ℕ) (bytes : List ℕ) where
  pub create_other : (len k : ℕ) → (k < node) ⊎ (node + 8 ≤ k) → dn_create b node sensor len k ≡ b k
  create_other len k h = ground (
    arith,
    store32_other (store32 b node (sensor % u32_mod)) (node + 4) (len % u32_mod) k,
    store32_other b node (sensor % u32_mod) k,
  )

  pub fill_other :
      (k : ℕ) → (k < node) ⊎ (node + (8 + length bytes) ≤ k) → dn_fill b node sensor bytes k ≡ b k
  fill_other k h = ground (
    arith,
    store_bytes_other bytes (dn_create b node sensor (length bytes)) (node + 8) k,
    create_other (length bytes) k,
  )

  module _ (small : sensor < u32_mod) (short : length bytes < u32_mod) where
    pub sensor_of_fill : dn_sensor (dn_fill b node sensor bytes) node ≡ sensor
    sensor_of_fill =
        load32-agree (dn_fill b node sensor bytes) (store32 b node (sensor % u32_mod)) node (λ k h.
          ground (
            arith,
            store_bytes_other bytes (dn_create b node sensor (length bytes)) (node + 8) k,
            store32_other (store32 b node (sensor % u32_mod)) (node + 4) (length bytes % u32_mod) k,
          ))
        ∙ load32-store32 b node (sensor % u32_mod) (omega arith)
        ∙ omega arith

    pub len_of_fill : dn_len (dn_fill b node sensor bytes) node ≡ length bytes
    len_of_fill =
        load32-agree (dn_fill b node sensor bytes) (dn_create b node sensor (length bytes))
          (node + 4)
          (λ k h.
            ground (
              arith,
              store_bytes_other bytes (dn_create b node sensor (length bytes)) (node + 8) k,
            ))
        ∙ load32-store32 (store32 b node (sensor % u32_mod)) (node + 4) (length bytes % u32_mod)
            (omega arith)
        ∙ omega arith

    pub bytes_of_fill : load_bytes (dn_fill b node sensor bytes) (node + 8) (length bytes) ≡ bytes
    bytes_of_fill = load_bytes-store_bytes bytes (dn_create b node sensor (length bytes)) (node + 8)

pub end_of_mkend : (b : Block) (node : ℕ) → dn_isend (dn_mkend b node) node ≡ true
unfolding store_bytes
end_of_mkend b node = ground (
  arith,
  sensor_of_fill b node 0 [] (omega arith) (omega arith),
  len_of_fill b node 0 [] (omega arith) (omega arith),
)

-- Filling leaves what lies below the first node and behind the last.
fill_nodes_other :
    (xs : List Sample) (b : Block) (node k : ℕ)
    → IsSendable xs
    → (k < node) ⊎ (node + ((length xs + 1) * datanode_size + total xs) ≤ k)
    → fill_nodes b node xs k ≡ b k
unfolding fill_nodes
fill_nodes_other [] b node k sendable h = create_other b node 0 [] 0 k (ground arith)
fill_nodes_other (x ∷ xs) b node k sendable h =
    let b' : Block = dn_fill b node x.sensor x.values in
    ground (
      arith,
      fill_nodes_other xs b' (dn_next b' node) k sendable.1,
      len_of_fill b node x.sensor x.values sendable.0.0 sendable.0.1,
      fill_other b node x.sensor x.values k,
    )

-- A round of the walk.
pub walk_step :
    (fuel : ℕ) (b : Block) (node : ℕ) (x : Sample) (xs : List Sample)
    → dn_sensor b node ≡ x.sensor
    → dn_len b node ≡ length x.values
    → (x.sensor == 0 && length x.values == 0) ≡ false
    → load_bytes b (node + datanode_size) (length x.values) ≡ x.values
    → walk_nodes fuel b (node + (datanode_size + length x.values)) ≡ some xs
    → walk_nodes (suc fuel) b node ≡ some (x ∷ xs)
unfolding walk_nodes
walk_step fuel b node x xs e_sensor e_len more e_bytes rest =
    let e_values : load_bytes b (node + datanode_size) (dn_len b node) ≡ x.values =
      ap (load_bytes b (node + datanode_size)) e_len ∙ e_bytes in
    let p : record {
      sensor = dn_sensor b node;
      values = load_bytes b (node + datanode_size) (dn_len b node);
    }
        ≡ x =
      λ i. record { sensor = e_sensor i; values = e_values i } in
    let not_end : (dn_sensor b node == 0 && length x.values == 0) ≡ false = rw e_sensor more in
    rw (e_len, not_end, rest) (ap (λ y. some (y ∷ xs)) p)

-- The first node of a filled block.
module _ (x : Sample) (xs : List Sample) (b : Block) (node : ℕ)
    (sendable : IsSendable (x ∷ xs)) where
  abbrev first : Block
  first = dn_fill b node x.sensor x.values

  next_of_first : dn_next first node ≡ node + (datanode_size + length x.values)
  next_of_first =
      ap (λ n. node + (datanode_size + n))
        (len_of_fill b node x.sensor x.values sendable.0.0 sendable.0.1)

  same_below :
      (k : ℕ)
      → k < node + (datanode_size + length x.values)
      → fill_nodes b node (x ∷ xs) k ≡ first k
  unfolding fill_nodes
  same_below k h =
      fill_nodes_other xs first (dn_next first node) k sendable.1 (inl (rw next_of_first h))

  first_sensor : dn_sensor (fill_nodes b node (x ∷ xs)) node ≡ x.sensor
  first_sensor =
      load32-agree (fill_nodes b node (x ∷ xs)) first node (λ k h. same_below k (omega (arith, h)))
      ∙ sensor_of_fill b node x.sensor x.values sendable.0.0 sendable.0.1

  first_len : dn_len (fill_nodes b node (x ∷ xs)) node ≡ length x.values
  first_len =
      load32-agree (fill_nodes b node (x ∷ xs)) first (node + 4)
        (λ k h. same_below k (omega (arith, h)))
      ∙ len_of_fill b node x.sensor x.values sendable.0.0 sendable.0.1

  first_bytes :
      load_bytes (fill_nodes b node (x ∷ xs)) (node + datanode_size) (length x.values) ≡ x.values
  first_bytes =
      load_bytes-agree (length x.values) (fill_nodes b node (x ∷ xs)) first (node + datanode_size)
        (λ k h. same_below k (omega (arith, h)))
      ∙ bytes_of_fill b node x.sensor x.values sendable.0.0 sendable.0.1

  walk_first :
      (fuel : ℕ)
      → walk_nodes fuel (fill_nodes first (dn_next first node) xs) (dn_next first node) ≡ some xs
      → walk_nodes (suc fuel) (fill_nodes b node (x ∷ xs)) node ≡ some (x ∷ xs)
  unfolding fill_nodes
  walk_first fuel rest =
      walk_step fuel (fill_nodes b node (x ∷ xs)) node x xs first_sensor first_len sendable.0.2
        first_bytes
        (ap (walk_nodes fuel (fill_nodes first (dn_next first node) xs)) (sym next_of_first) ∙ rest)

walk_end :
    (fuel : ℕ) (b : Block) (node : ℕ) → walk_nodes (suc fuel) (fill_nodes b node []) node ≡ some []
unfolding walk_nodes fill_nodes
walk_end fuel b node = rw (end_of_mkend b node) refl

-- Filling a block with samples that are not the end and fit into 32 bits, and walking over it,
-- gives back the samples, with one round for each and one for the end.
pub walk_nodes-fill_nodes :
    (xs : List Sample) (b : Block) (node : ℕ)
    → IsSendable xs
    → walk_nodes (suc (length xs)) (fill_nodes b node xs) node ≡ some xs
walk_nodes-fill_nodes [] b node sendable = walk_end 0 b node
walk_nodes-fill_nodes (x ∷ xs) b node sendable =
    let b' : Block = dn_fill b node x.sensor x.values in
    walk_first x xs b node sendable (suc (length xs))
      (walk_nodes-fill_nodes xs b' (dn_next b' node) sendable.1)

-- Filling the block that is created for samples writes only into it, if its length fits into 32 bits.
pub fill_nodes-data_len :
    (xs : List Sample) (b : Block) (k : ℕ)
    → IsSendable xs
    → (length xs + 1) * datanode_size + total xs < u32_mod
    → data_len (length xs) (total xs) ≤ k
    → fill_nodes b 0 xs k ≡ b k
unfolding data_len
fill_nodes-data_len xs b k sendable fits behind =
    fill_nodes_other xs b 0 k sendable (inr (omega arith))

-- ===== src/Prepend/Front.antt =====
-- modules/prepend/prepend.c, rcvdata: the data nodes of the new object.
use dimmon.Prelude.{ℕ, suc, ◌+◌, ◌≤◌, ◌<◌, ◌≡◌, ◌∙◌, some, List, [], ◌∷◌, length, arith, inl}
use mathlib.Core.Path.{subst}
use dimmon.Data.{Block, Sample, dn_fill, walk_nodes, load_bytes, store_bytes, datanode_size}
use dimmon.Data.Layout.{store_bytes_other, load32-agree, load_bytes-agree}
use dimmon.Data.Walk.{IsSendable, sensor_of_fill, len_of_fill, bytes_of_fill}
use dimmon.Data.Copy.{Holds, Holds_of_walk, Holds-copy_end, size_of, walk_nodes-Holds, copied}
use dimmon.Prepend.{prepend_nodes}

-- A walk over the data that prepend passes on gives its own data node and then the data nodes of the
-- data that it has received, if these end within the length of their block, and the data node fits into
-- 32 bits and is not the end.
pub prepend_nodes-walk :
    (x : Sample) (xs : List Sample) (new old : Block) (fuel da_len : ℕ)
    → walk_nodes fuel old 0 ≡ some xs
    → size_of xs + datanode_size ≤ da_len
    → IsSendable (x ∷ [])
    → walk_nodes (suc (suc (length xs))) (prepend_nodes new x old da_len) 0 ≡ some (x ∷ xs)
unfolding prepend_nodes
prepend_nodes-walk x xs new old fuel da_len walk fits sendable =
    let first : Block = dn_fill new 0 x.sensor x.values in
    let place : ℕ = datanode_size + length x.values in
    let c : Block = store_bytes first place (load_bytes old 0 da_len) in
    let below : (k : ℕ) → k < place → c k ≡ first k =
      λ k h. store_bytes_other (load_bytes old 0 da_len) first place k (inl h) in
    walk_nodes-Holds (x ∷ xs) c 0 (
      load32-agree c first 0 (λ k h. below k (omega (arith, h)))
          ∙ sensor_of_fill new 0 x.sensor x.values sendable.0.0 sendable.0.1,
      load32-agree c first 4 (λ k h. below k (omega (arith, h)))
          ∙ len_of_fill new 0 x.sensor x.values sendable.0.0 sendable.0.1,
      sendable.0.2,
      load_bytes-agree (length x.values) c first datanode_size (λ k h. below k (omega (arith, h)))
          ∙ bytes_of_fill new 0 x.sensor x.values sendable.0.0 sendable.0.1,
      subst (λ p. Holds c p xs) (omega arith)
          (Holds-copy_end xs old c 0 place (Holds_of_walk fuel xs old 0 walk)
            (λ k h. copied da_len old first place 0 k (omega (arith, h, fits)))),
    )

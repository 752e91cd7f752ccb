-- ===== src/Data.antt =====
-- dmm_message.h and dmm_base.c: the data that flows between nodes, a sequence of data nodes in one
-- block of memory, each a sensor number, a length and that many bytes, up to a node of zeros.
pub mod Walk
pub mod Copy
pub mod Layout
pub mod Objects
pub mod Create
pub mod Send
use dimmon.Prelude.{
  ℕ, zero, suc, ◌+◌, ◌*◌, ◌/◌, ◌%◌, Bool, ◌&&◌, Option, none, some, List, [], ◌∷◌, ◌==◌,
  if◌then◌else◌, length,
}
use dimmon.State.{u32_mod, put}

-- The bytes of a block by their place.
abbrev pub Block : Type 0
Block = ℕ → ℕ

-- A uint32_t, the least byte first.
unfoldable pub store32 : Block → ℕ → ℕ → Block
store32 b o v =
    put (put (put (put b o (v % 256)) (o + 1) (v / 256 % 256)) (o + 2) (v / 65536 % 256)) (o + 3)
      (v / 16777216 % 256)

unfoldable pub load32 : Block → ℕ → ℕ
load32 b o = b o + b (o + 1) * 256 + b (o + 2) * 65536 + b (o + 3) * 16777216

-- memcpy into a block.
unfoldable pub store_bytes : Block → ℕ → List ℕ → Block
store_bytes b o [] = b
store_bytes b o (c ∷ cs) = store_bytes (put b o c) (o + 1) cs

-- memcpy out of a block.
unfoldable pub load_bytes : Block → ℕ → ℕ → List ℕ
load_bytes b o zero = []
load_bytes b o (suc n) = b o ∷ load_bytes b (o + 1) n

-- sizeof(struct dmm_datanode).
abbrev pub datanode_size : ℕ
datanode_size = 8

abbrev pub dn_sensor : Block → ℕ → ℕ
dn_sensor b node = load32 b node

abbrev pub dn_len : Block → ℕ → ℕ
dn_len b node = load32 b (node + 4)

abbrev pub dn_next : Block → ℕ → ℕ
dn_next b node = node + (datanode_size + dn_len b node)

abbrev pub dn_isend : Block → ℕ → Bool
dn_isend b node = dn_sensor b node == 0 && dn_len b node == 0

abbrev pub dn_create : Block → ℕ → ℕ → ℕ → Block
dn_create b node sensor len = store32 (store32 b node (sensor % u32_mod)) (node + 4) (len % u32_mod)

abbrev pub dn_mkend : Block → ℕ → Block
dn_mkend b node = dn_create b node 0 0

abbrev pub dn_fill : Block → ℕ → ℕ → List ℕ → Block
dn_fill b node sensor bytes =
    store_bytes (dn_create b node sensor (length bytes)) (node + datanode_size) bytes

-- The content of a data node.
pub record Sample : Type 0 where
  pub sensor : ℕ
  pub values : List ℕ

-- DMM_DN_FILL_ADVANCE for each sample, and DMM_DN_MKEND.
unfoldable pub fill_nodes : Block → ℕ → List Sample → Block
unfolding store32 load32 store_bytes
fill_nodes b node [] = dn_mkend b node
fill_nodes b node (x ∷ xs) =
    let b' : Block = dn_fill b node x.sensor x.values in fill_nodes b' (dn_next b' node) xs

-- The loop of a receiver, from a node to the end by DMM_DN_ISEND and DMM_DN_ADVANCE; `none` when the
-- fuel is used up.
unfoldable pub walk_nodes : ℕ → Block → ℕ → Option (List Sample)
unfolding load32 load_bytes
walk_nodes zero b node = none
walk_nodes (suc fuel) b node =
    let rest = walk_nodes fuel b (dn_next b node) in
    if dn_isend b node then some [] else elim rest [
      | none ↦ none
      | some xs ↦ some (
          record {
            sensor = dn_sensor b node;
            values = load_bytes b (node + datanode_size) (dn_len b node);
          }
          ∷ xs)
    ]

-- The length of the block that dmm_data_create_raw asks for, on 32 bits.
unfoldable pub data_len : ℕ → ℕ → ℕ
data_len numnodes datalen = ((numnodes + 1) * datanode_size + datalen) % u32_mod

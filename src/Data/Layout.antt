-- ===== src/Data/Layout.antt =====
-- Words and bytes in a block: what is read is what was written, and no other place changes.
use dimmon.Prelude.{ℕ, zero, suc, ◌+◌, ◌≤◌, ◌<◌, ◌≡◌, ◌⊎◌, refl, List, [], ◌∷◌, length, arith}
use dimmon.State.{u32_mod, put}
use dimmon.Data.{Block, store32, load32, store_bytes, load_bytes}

pub load32-store32 : (b : Block) (o v : ℕ) → v < u32_mod → load32 (store32 b o v) o ≡ v
unfolding load32 store32
load32-store32 b o v h = ground arith

-- Outside of the word.
pub store32_other : (b : Block) (o v k : ℕ) → (k < o) ⊎ (o + 4 ≤ k) → store32 b o v k ≡ b k
unfolding store32
store32_other b o v k h = ground arith

pub load32-agree :
    (b c : Block) (o : ℕ) → ((k : ℕ) → k < o + 4 → b k ≡ c k) → load32 b o ≡ load32 c o
unfolding load32
load32-agree b c o same = ground (arith, same o, same (o + 1), same (o + 2), same (o + 3))

pub store_bytes_other :
    (cs : List ℕ) (b : Block) (o k : ℕ) → (k < o) ⊎ (o + length cs ≤ k) → store_bytes b o cs k ≡ b k
unfolding store_bytes
store_bytes_other [] b o k h = refl
store_bytes_other (c ∷ cs) b o k h = ground (arith, store_bytes_other cs (put b o c) (o + 1) k)

pub load_bytes-agree :
    (n : ℕ) (b c : Block) (o : ℕ)
    → ((k : ℕ) → k < o + n → b k ≡ c k)
    → load_bytes b o n ≡ load_bytes c o n
unfolding load_bytes
load_bytes-agree zero b c o same = refl
load_bytes-agree (suc n) b c o same =
    ground (arith, same o, load_bytes-agree n b c (o + 1) (λ k h. same k (omega arith)))

pub load_bytes-store_bytes :
    (cs : List ℕ) (b : Block) (o : ℕ) → load_bytes (store_bytes b o cs) o (length cs) ≡ cs
unfolding load_bytes store_bytes
load_bytes-store_bytes [] b o = refl
load_bytes-store_bytes (c ∷ cs) b o = ground (
  arith,
  load_bytes-store_bytes cs (put b o c) (o + 1),
  store_bytes_other cs (put b o c) (o + 1) o,
)

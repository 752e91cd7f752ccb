-- ===== src/Data/Create.antt =====
-- dmm_data_create_raw and dmm_data_resize in dmm_base.c.
use dimmon.Prelude.{
  ℕ, suc, ◌+◌, ◌*◌, ◌<◌, ◌≡◌, ◌≢◌, inl, inr, refl, true, false, ◌&&◌, if◌then◌else◌, Bool-cases,
  arith,
}
use dimmon.State.{Addr, Data, Sys, ok, with_data, u32_mod}
use dimmon.State.Returns.{Returns}
use dimmon.Data.{data_len, datanode_size}
use dimmon.Data.Objects.{data_create_raw}

-- The length of a block that fits into 32 bits.
pub data_len_small :
    (n len : ℕ)
    → (n + 1) * datanode_size + len < u32_mod
    → data_len n len ≡ (n + 1) * datanode_size + len
unfolding data_len
data_len_small n len fits = omega arith

abbrev pub new_data : ℕ → ℕ → Addr → ℕ → Data
new_data n len nodes refs = record {
  live = true;
  da_nodes = nodes;
  da_len = data_len n len;
  da_refs = refs;
}

module _ (n len : ℕ) (s : Sys) where
  no_object :
      s.mem s.mallocs ≡ false
      → data_create_raw n len s ≡ ok 0 (record s { mallocs = suc s.mallocs })
  unfolding data_create_raw
  no_object h = ground arith

  no_block :
      s.mem s.mallocs ≡ true
      → s.mem (suc s.mallocs) ≡ false
      → data_create_raw n len s
        ≡ ok 0 (
            with_data
              (suc s.mallocs)
              (λ _. record (new_data n len 0 0) { live = false })
              (record s { mallocs = suc (suc s.mallocs) }))
  unfolding data_create_raw
  no_block h k = ground arith

  pub create-ok :
      s.mem s.mallocs ≡ true
      → s.mem (suc s.mallocs) ≡ true
      → data_create_raw n len s
        ≡ ok (suc s.mallocs) (
            with_data
              (suc s.mallocs)
              (λ _. new_data n len (suc (suc s.mallocs)) 1)
              (record s { mallocs = suc (suc s.mallocs) }))
  unfolding data_create_raw
  create-ok h k = ground arith

-- For a length that fits into 32 bits, creating data gives a new object if there is memory for it and
-- for its block, with one reference and a block that has room for the data nodes and the end; if one of
-- them cannot be had, the result is NULL, and nothing is allocated in the place of the object that was
-- not. No other object is changed.
pub data_create_raw-data_len :
    (n len : ℕ) (s : Sys)
    → (n + 1) * datanode_size + len < u32_mod
    → let new : Addr = suc s.mallocs in
      Returns (data_create_raw n len s) (λ a t.
        ((x : Addr) → x ≢ new → t.data_at x ≡ s.data_at x)
        × (if s.mem s.mallocs && s.mem new
            then (a ≡ new)
              × ((t.data_at new).live ≡ true)
              × ((t.data_at new).da_nodes ≢ 0)
              × ((t.data_at new).da_len ≡ (n + 1) * datanode_size + len)
              × ((t.data_at new).da_refs ≡ 1)
            else (a ≡ 0) × ((t.data_at new).live ≡ true → (s.data_at new).live ≡ true)))
data_create_raw-data_len n len s fits = elim (Bool-cases (s.mem s.mallocs)) [
  | inr h ↦ rw (no_object n len s h, h) (λ x ne. refl, (refl, λ live. live))
  | inl h ↦ elim (Bool-cases (s.mem (suc s.mallocs))) [
    | inr k ↦
        rw (no_block n len s h k, h, k)
          (λ x ne. ground (arith, ne), (refl, λ live. ground (arith, live)))
    | inl k ↦
        rw (create-ok n len s h k, h, k)
          (
            λ x ne. ground (arith, ne),
            (
              refl,
              ground arith,
              ground arith,
              ground (arith, data_len_small n len fits),
              ground arith,
            ),
          )
  ]
]

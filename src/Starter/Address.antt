-- ===== src/Starter/Address.antt =====
-- modules/starter/starter.c and dmm_base.c: the addresses that the starter writes name the nodes that
-- it means.
use dimmon.Prelude.{
  ℕ, suc, ◌≤◌, ◌<◌, ◌≡◌, ◌∙◌, ap, none, ◌-◌, some, List, [], ◌∷◌, length, arith, ◌%◌,
}
use dimmon.State.{u32_mod, pure, Cmd, Addr}
use dimmon.Graph.{scan_id, scan_digits, node_id2ref, node_addr2ref}
use dimmon.Starter.{digits, clip}
use dimmon.Starter.Digits.{
  decimal-digits, digits-head, scan_digits-digits, clip-short, length-digits,
}
use dimmon.Starter.Commands.{node_address, addr_size}

scan_id-digit :
    (l : List ℕ) (c : ℕ) (cs : List ℕ)
    → l ≡ c ∷ cs
    → b'0' ≤ c
    → c ≤ b'9'
    → scan_id l ≡ some (scan_digits 0 l % u32_mod)
unfolding scan_id
scan_id-digit l c cs e low high = rw e (ground (arith, low, high))

module _ (id : ℕ) (small : id < u32_mod) where
  abbrev text : List ℕ
  text = digits (suc id) id (b']' ∷ [])

  short : length text ≤ 11
  short =
      omega (arith, length-digits (suc id) id 9 (b']' ∷ []) (omega (arith, small)) (omega arith))

  whole : node_address id ≡ b'[' ∷ text
  unfolding node_address
  whole =
      ap (λ t. clip (addr_size - 1) (b'[' ∷ t)) (decimal-digits id (b']' ∷ []))
      ∙ clip-short (addr_size - 1) (b'[' ∷ text) (omega (arith, short))

  read_back : scan_digits id (b']' ∷ []) % u32_mod ≡ id
  unfolding scan_digits
  read_back = omega (arith, small)

  scanned : scan_id text ≡ some id
  scanned =
      let (c, cs, e, low, high) = digits-head (suc id) id (b']' ∷ []) (omega arith) in
      scan_id-digit text c cs e low high
      ∙ ap (λ v. some (v % u32_mod)) (scan_digits-digits (suc id) id (b']' ∷ []) (omega arith))
      ∙ ap some read_back

  -- For an id of 32 bits, the address that the starter writes for a node finds the node of that id, or
  -- NULL when there is none, as the id itself does.
  pub node_addr2ref-node_address : node_addr2ref (node_address id) ≡ node_id2ref id
  unfolding node_addr2ref
  node_addr2ref-node_address =
      ap node_addr2ref whole
      ∙ ap (λ o. elim o as (λ _. Cmd Addr) [ none ↦ pure 0 | some i ↦ node_id2ref i ]) scanned

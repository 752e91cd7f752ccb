-- ===== src/Netip/Check.antt =====
-- modules/net/ip/recv.c, check_data_valid: what it accepts and refuses.
use dimmon.Prelude.{
  ◌==◌, ◌&&◌, ◌||◌, not, some, ℕ, zero, suc, ◌+◌, ◌<◌, ◌≤◌, ◌≡◌, ◌∙◌, refl, ap, sym, true, false,
  if◌then◌else◌, ltb, Bool-cases, inl, inr, ◌⊎◌, List, [], ◌∷◌, length, arith,
}
use dimmon.Data.{walk_nodes, Block, Sample, dn_len, dn_next, dn_isend, datanode_size}
use dimmon.Data.Copy.{
  walk_nodes-Holds, Holds, Holds_of_walk, Holds_seen, seen, seen-length, size_of,
}
use dimmon.Netip.{valid, invalid, no_fuel, check_from, check_data_valid}

inside_or : (a c : ℕ) → (a < c) ⊎ (c ≤ a)
inside_or a c = omega arith

module _ (b : Block) (len : ℕ) where
  -- The two ways of a round.
  module _ (fuel dn : ℕ) where
    check_end :
        dn_isend b dn ≡ true
        → check_from (suc fuel) b len dn ≡ (if ltb dn len then valid else invalid)
    unfolding check_from
    check_end e = rw e refl

    check_more :
        dn_isend b dn ≡ false
        → check_from (suc fuel) b len dn ≡ check_from fuel b len (dn_next b dn)
    unfolding check_from
    check_more e = rw e refl

  check_stopped : (dn : ℕ) → check_from zero b len dn ≡ no_fuel
  unfolding check_from
  check_stopped dn = refl

  -- The data nodes that were passed, and where they end.
  abbrev Passed : ℕ → List Sample → Type 0
  Passed dn xs = Holds b dn xs × (dn + size_of xs < len)

  check_sound : (fuel dn : ℕ) → check_from fuel b len dn ≡ valid → (xs : List Sample) × Passed dn xs
  check_sound zero dn run = absurd (ground (arith, sym (check_stopped dn) ∙ run))
  check_sound (suc fuel) dn run = elim (Bool-cases (dn_isend b dn)) [
    | inl e ↦ ([], (e, ground (arith, sym (check_end fuel dn e) ∙ run)))
    | inr e ↦
        (let r = check_sound fuel (dn_next b dn) (sym (check_more fuel dn e) ∙ run) in
          let n = seen-length fuel b dn in
          (seen fuel b dn ∷ r.0, (Holds_seen fuel b dn r.0 e r.1.0, rw n (omega (arith, r.1.1)))))
  ]

  pub check_decides :
      (xs : List Sample) (fuel dn : ℕ)
      → length xs < fuel
      → Holds b dn xs
      → check_from fuel b len dn ≡ (if ltb (dn + size_of xs) len then valid else invalid)
  check_decides xs zero dn enough holds = absurd (omega (arith, enough))
  check_decides [] (suc fuel) dn enough holds = check_end fuel dn holds ∙ ground arith
  check_decides (x ∷ xs) (suc fuel) dn enough holds =
      let n : dn_len b dn ≡ length x.values = holds.1 in
      check_more fuel dn (
        ap (λ v. v == 0 && dn_len b dn == 0) holds.0
        ∙ ap (λ v. x.sensor == 0 && v == 0) n
        ∙ holds.2)
      ∙ check_decides xs fuel (dn_next b dn) (omega (arith, enough)) (rw n holds.4)
      ∙ rw n (ground arith)

module _ (fuel : ℕ) (b : Block) (len : ℕ) where
  check_short : len < datanode_size → check_data_valid fuel b len ≡ invalid
  unfolding check_data_valid
  check_short h = ground (arith, h)

  pub check_long : datanode_size ≤ len → check_data_valid fuel b len ≡ check_from fuel b len 0
  unfolding check_data_valid
  check_long h = ground (arith, h)

pub check_complete :
    (xs : List Sample) (fuel : ℕ) (b : Block) (len : ℕ)
    → length xs < fuel
    → Holds b 0 xs
    → size_of xs + datanode_size ≤ len
    → check_data_valid fuel b len ≡ valid
check_complete xs fuel b len enough holds fits =
    check_long fuel b len (omega (arith, fits))
    ∙ check_decides b len xs fuel 0 enough holds
    ∙ ground (arith, fits)

-- What is accepted is a sequence of data nodes, which a receiver can walk over; its end begins within
-- what was received.
pub check_data_valid-Walk :
    (fuel : ℕ) (b : Block) (len : ℕ)
    → check_data_valid fuel b len ≡ valid
    → (xs : List Sample) × (walk_nodes (suc (length xs)) b 0 ≡ some xs) × (size_of xs < len)
check_data_valid-Walk fuel b len run = elim (inside_or len datanode_size) [
  | inl short ↦ absurd (ground (arith, sym (check_short fuel b len short) ∙ run))
  | inr long ↦
      (let r = check_sound b len fuel 0 (sym (check_long fuel b len long) ∙ run) in
        (r.0, walk_nodes-Holds r.0 b 0 r.1.0, omega (arith, r.1.1)))
]

-- Where a walk from the beginning of the buffer meets an end, the check ends too, and tells by two
-- comparisons: the message is refused if it is shorter than a data node or if the end begins behind it,
-- and accepted otherwise. A round for each data node and one for the end are enough. Nothing is said of
-- a buffer in which no end follows.
pub check_data_valid-decides :
    (walk_fuel : ℕ) (xs : List Sample) (fuel : ℕ) (b : Block) (len : ℕ)
    → walk_nodes walk_fuel b 0 ≡ some xs
    → length xs < fuel
    → check_data_valid fuel b len
      ≡ (if ltb len datanode_size || not (ltb (size_of xs) len) then invalid else valid)
check_data_valid-decides walk_fuel xs fuel b len walk enough = elim (inside_or len datanode_size) [
  | inl short ↦ check_short fuel b len short ∙ ground (arith, short)
  | inr long ↦
      check_long fuel b len long
      ∙ check_decides b len xs fuel 0 enough (Holds_of_walk walk_fuel xs b 0 walk)
      ∙ ground (arith, long)
]

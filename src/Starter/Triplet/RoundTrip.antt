-- ===== src/Starter/Triplet/RoundTrip.antt =====
-- modules/starter/starter.c, parse_sock_triplet: numbers written with slashes between them.
use dimmon.Prelude.{
  ℕ, suc, ◌≤◌, ◌<◌, ◌≡◌, ◌∙◌, ◌^◌, refl, ap, true, false, none, some, List, [], ◌∷◌, length, arith,
  ltb,
}
use dimmon.Hook.{hook_name_size}
use dimmon.Starter.{digits, decimal}
use dimmon.Starter.Digits.{
  decimal-digits, digits-head, take_digits-digits, split_slash-digits, clip-short,
}
use dimmon.Starter.Triplet.{
  Aliases, parsed, domain_aliases, type_aliases, protocol_aliases, find_alias, strtol, take_digits,
  int_of_long, parse_triplet_part, split_slash, parse_sock_triplet, cut, number_of,
}

no_protocol : (l : List ℕ) → find_alias l protocol_aliases ≡ none
unfolding find_alias
no_protocol l = refl

module _ (l : List ℕ) (c : ℕ) (cs : List ℕ) (e : l ≡ c ∷ cs) (low : b'0' ≤ c)
    (high : c ≤ b'9') where
  no_domain : find_alias l domain_aliases ≡ none
  unfolding find_alias
  no_domain = rw e (ground (arith, low, high))

  no_type : find_alias l type_aliases ≡ none
  unfolding find_alias
  no_type = rw e (ground (arith, low, high))

  strtol-digit : strtol l ≡ ((false, (take_digits 0 l).0), (take_digits 0 l).1)
  unfolding strtol
  strtol-digit = rw e (ground (arith, low, high))

abbrev text : ℕ → List ℕ
text n = digits (suc n) n []

module _ (n : ℕ) (small : n < 2 ^ 31) where
  read : strtol (text n) ≡ ((false, n), [])
  unfolding take_digits
  read =
      let (c, cs, e, low, high) = digits-head (suc n) n [] (omega arith) in
      strtol-digit (text n) c cs e low high
      ∙ ap (λ p. ((false, p.0), p.1)) (take_digits-digits (suc n) n [] (omega arith))

  fits : int_of_long false n ≡ some n
  unfolding int_of_long
  fits = ground (arith, small)

  numbered : number_of true (strtol (text n)) ≡ parsed n
  numbered = ap (number_of true) read ∙ rw (fits, number_of) refl

  part :
      (aliases : Aliases)
      → find_alias (text n) aliases ≡ none
      → parse_triplet_part true (text n) aliases ≡ parsed n
  unfolding parse_triplet_part
  part aliases e = rw (e, parse_triplet_part) numbered

slash : (r : List ℕ) → split_slash (b'/' ∷ r) ≡ some ([], r)
unfolding split_slash
slash r = refl

cut-digits :
    (n : ℕ) (r : List ℕ) → cut true (digits (suc n) n (b'/' ∷ r)) ≡ parsed (digits (suc n) n [], r)
cut-digits n r =
    let e : split_slash (digits (suc n) n (b'/' ∷ r)) ≡ some (digits (suc n) n [], r) =
      split_slash-digits (suc n) n (b'/' ∷ r) [] r (omega arith) (slash r) in
    rw (e, cut) refl

module _ (domain type protocol : ℕ) (small_domain : domain < 2 ^ 31) (small_type : type < 2 ^ 31)
    (small_protocol : protocol < 2 ^ 31) where
  abbrev third : List ℕ
  third = digits (suc protocol) protocol []

  abbrev second : List ℕ
  second = digits (suc type) type (b'/' ∷ third)

  abbrev whole : List ℕ
  whole = digits (suc domain) domain (b'/' ∷ second)

  abbrev printed : List ℕ
  printed = decimal domain (b'/' ∷ decimal type (b'/' ∷ decimal protocol []))

  printed-digits : printed ≡ whole
  printed-digits =
      ap (λ v. decimal domain (b'/' ∷ decimal type (b'/' ∷ v))) (decimal-digits protocol [])
      ∙ ap (λ u. decimal domain (b'/' ∷ u)) (decimal-digits type (b'/' ∷ third))
      ∙ decimal-digits domain (b'/' ∷ second)

  parse_whole :
      length whole < hook_name_size → parse_sock_triplet whole ≡ parsed (domain, type, protocol)
  unfolding parse_sock_triplet
  parse_whole short =
      let terminated : ltb (length whole) hook_name_size ≡ true = ground (arith, short) in
      let (c, cs, e, low, high) = digits-head (suc domain) domain [] (omega arith) in
      let (c', cs', e', low', high') = digits-head (suc type) type [] (omega arith) in
      rw
        (
          terminated,
          clip-short hook_name_size whole (omega (arith, short)),
          cut-digits domain second,
          part domain small_domain domain_aliases (no_domain (text domain) c cs e low high),
          cut-digits type third,
          part type small_type type_aliases (no_type (text type) c' cs' e' low' high'),
          part protocol small_protocol protocol_aliases (no_protocol third),
        )
        refl

  -- Three numbers that are not negative as an int, printed in decimal with slashes between them, are
  -- read back, if the text with its NUL fits into the array.
  pub parse_sock_triplet-decimal :
      length printed < hook_name_size → parse_sock_triplet printed ≡ parsed (domain, type, protocol)
  parse_sock_triplet-decimal short = rw printed-digits (parse_whole (rw⁻¹ printed-digits short))

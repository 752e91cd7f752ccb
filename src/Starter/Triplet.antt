-- ===== src/Starter/Triplet.antt =====
-- modules/starter/starter.c, parse_sock_triplet: a socket given as "domain/type/protocol".
pub mod RoundTrip
use dimmon.Prelude.{
  ℕ, zero, suc, ◌+◌, ◌-◌, ◌*◌, ◌%◌, ◌^◌, Bool, true, false, ◌&&◌, ◌||◌, Option, none, some, List,
  [], ◌∷◌, ◌==◌, if◌then◌else◌, leb, ltb, length,
}
use dimmon.State.{u32_mod}
use dimmon.Hook.{hook_name_size, strneq}
use dimmon.Starter.{clip}

abbrev pub is_digit : ℕ → Bool
is_digit c = leb b'0' c && leb c b'9'

-- strtol in base 10, of a text without a NUL: the spaces, the sign, and the digits with what is behind
-- them. The rest is the whole text when there are no digits.
abbrev pub is_space : ℕ → Bool
is_space c = (c == 32) || (leb 9 c && leb c 13)

unfoldable pub skip_spaces : List ℕ → List ℕ
skip_spaces [] = []
skip_spaces (c ∷ cs) = if is_space c then skip_spaces cs else c ∷ cs

unfoldable pub take_sign : List ℕ → Bool × List ℕ
take_sign [] = (false, [])
take_sign (c ∷ cs) =
    if c == b'-' then (true, cs) else if c == b'+' then (false, cs) else (false, c ∷ cs)

unfoldable pub take_digits : ℕ → List ℕ → ℕ × List ℕ
take_digits acc [] = (acc, [])
take_digits acc (c ∷ cs) =
    if is_digit c then take_digits (acc * 10 + (c - b'0')) cs else (acc, c ∷ cs)

abbrev pub starts_with_digit : List ℕ → Bool
starts_with_digit [] = false
starts_with_digit (c ∷ cs) = is_digit c

unfoldable pub strtol : List ℕ → (Bool × ℕ) × List ℕ
unfolding skip_spaces take_sign take_digits
strtol cs =
    let (minus, ds) = take_sign (skip_spaces cs) in
    let (v, rest) = take_digits 0 ds in
    if starts_with_digit ds then ((minus, v), rest) else ((false, 0), cs)

-- A long, which is kept or ERANGE, as the int that it becomes, if that is not negative.
unfoldable pub int_of_long : Bool → ℕ → Option ℕ
int_of_long minus v =
    let r : ℕ = (if minus then 2 ^ 64 - v else v) % u32_mod in
    if (if minus then leb v (2 ^ 63) else ltb v (2 ^ 63)) && ltb r (2 ^ 31) then some r else none

abbrev pub Aliases : Type 0
Aliases = List (List ℕ × ℕ)

unfoldable pub find_alias : List ℕ → Aliases → Option ℕ
unfolding strneq
find_alias part [] = none
find_alias part ((name, value) ∷ others) =
    let rest = find_alias part others in
    if strneq hook_name_size part name then some value else rest

-- AF_INET, AF_INET6, SOCK_STREAM and SOCK_DGRAM on Linux.
abbrev pub domain_aliases : Aliases
domain_aliases =
    (b'i' ∷ b'n' ∷ b'e' ∷ b't' ∷ [], 2) ∷ (b'i' ∷ b'n' ∷ b'e' ∷ b't' ∷ b'6' ∷ [], 10) ∷ []

abbrev pub type_aliases : Aliases
type_aliases =
    (b's' ∷ b't' ∷ b'r' ∷ b'e' ∷ b'a' ∷ b'm' ∷ [], 1)
    ∷ (b'd' ∷ b'g' ∷ b'r' ∷ b'a' ∷ b'm' ∷ [], 2)
    ∷ []

abbrev pub protocol_aliases : Aliases
protocol_aliases = []

-- What reading a part gives; `overrun` is a read behind the array.
pub data Parsed {ℓ} (A : Type ℓ) : Type ℓ where
  parsed : A → Parsed A
  invalid : Parsed A
  overrun : Parsed A

abbrev pub parsed_then {ℓ κ} : {A : Type ℓ} {B : Type κ} → Parsed A → (A → Parsed B) → Parsed B
parsed_then (parsed a) k = k a
parsed_then invalid k = invalid
parsed_then overrun k = overrun

abbrev pub number_of : Bool → (Bool × ℕ) × List ℕ → Parsed ℕ
number_of terminated ((minus, v), c ∷ cs) = invalid
number_of false ((minus, v), []) = overrun
number_of true ((minus, v), []) = elim (int_of_long minus v) [ none ↦ invalid | some r ↦ parsed r ]

-- `terminated` tells whether a NUL is behind the part, within the array.
unfoldable pub parse_triplet_part : Bool → List ℕ → Aliases → Parsed ℕ
unfolding strtol find_alias int_of_long
parse_triplet_part terminated part aliases = elim (find_alias part aliases) [
  | some value ↦ parsed value
  | none ↦ number_of terminated (strtol part)
]

-- strchr of a slash, and the texts on both sides.
unfoldable pub split_slash : List ℕ → Option (List ℕ × List ℕ)
split_slash [] = none
split_slash (c ∷ cs) =
    let rest = split_slash cs in
    if c == b'/' then some ([], cs) else elim rest [ none ↦ none | some (l, r) ↦ some (c ∷ l, r) ]

abbrev pub cut : Bool → List ℕ → Parsed (List ℕ × List ℕ)
cut terminated cs = elim (split_slash cs) [
  | some parts ↦ parsed parts
  | none ↦ (if terminated then invalid else overrun)
]

-- The array is without a NUL when the text does not fit into it.
unfoldable pub parse_sock_triplet : List ℕ → Parsed (ℕ × ℕ × ℕ)
unfolding parse_triplet_part split_slash
parse_sock_triplet hook_name =
    let terminated : Bool = ltb (length hook_name) hook_name_size in
    parsed_then (cut terminated (clip hook_name_size hook_name)) λ p.
      parsed_then (parse_triplet_part true p.0 domain_aliases) λ domain.
        parsed_then (cut terminated p.1) λ q.
          parsed_then (parse_triplet_part true q.0 type_aliases) λ type.
            parsed_then (parse_triplet_part terminated q.1 protocol_aliases)
              λ protocol. parsed (domain, type, protocol)

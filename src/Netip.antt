-- ===== src/Netip.antt =====
-- modules/net/ip/common.c, recv.c and send.c: nodes that send data over a socket and that receive it.
-- Here the addresses, the sockets, and the check of what was received. `socket` and its kin are given by
-- their results: a descriptor with 0, or an errno.
pub mod Recv
pub mod Send
pub mod Control
pub mod Check
pub mod Framing
pub mod Event
pub mod HostPort
use dimmon.Prelude.{
  ℕ, zero, suc, ◌+◌, ◌-◌, ◌*◌, ◌/◌, ◌%◌, ◌^◌, Bool, true, false, not, ◌&&◌, Option, none, some,
  List, [], ◌∷◌, ◌++◌, ◌==◌, if◌then◌else◌, ltb, leb, length,
}
use dimmon.State.{Errno, einval, enomem}
use dimmon.Sockevent.{bit}
use dimmon.Data.{Block, dn_isend, dn_len, dn_next, datanode_size}

-- A text that is read, refused, or not read within its arrays.
pub data Read {ℓ} (A : Type ℓ) : Type ℓ where
  read : A → Read A
  refused : Read A
  outside : Read A

abbrev pub netip_maxaddrlen : ℕ
netip_maxaddrlen = 48

-- strrchr of a colon, and the texts on both sides.
abbrev pub in_front : ℕ → Option (List ℕ × List ℕ) → Option (List ℕ × List ℕ)
in_front c none = none
in_front c (some (l, r)) = some (c ∷ l, r)

abbrev pub or_here : ℕ → List ℕ → Option (List ℕ × List ℕ) → Option (List ℕ × List ℕ)
or_here c cs (some parts) = in_front c (some parts)
or_here c cs none = if c == b':' then some ([], cs) else none

unfoldable pub split_colon : List ℕ → Option (List ℕ × List ℕ)
split_colon [] = none
split_colon (c ∷ cs) = or_here c cs (split_colon cs)

-- The text without its last byte, and that byte.
unfoldable pub split_last : List ℕ → Option (List ℕ × ℕ)
split_last [] = none
split_last (c ∷ cs) = elim (split_last cs) [ none ↦ some ([], c) | some (l, d) ↦ some (c ∷ l, d) ]

-- The host of an address, by the text in front of the last colon. Without any, the byte in front of the
-- text is read.
abbrev pub without_bracket : Option (List ℕ × ℕ) → Read (List ℕ)
without_bracket none = refused
without_bracket (some (h, e)) = read h

abbrev pub in_brackets : List ℕ → Read (List ℕ)
in_brackets [] = outside
in_brackets (c ∷ cs) = if c == b'[' then without_bracket (split_last cs) else refused

abbrev pub host_by : List ℕ → Option (List ℕ × ℕ) → Read (List ℕ)
host_by front none = outside
host_by front (some (l, d)) = if d == b']' then in_brackets front else read front

unfoldable pub host_of : List ℕ → Read (List ℕ)
unfolding split_last
host_of front = host_by front (split_last front)

-- The host and the port of an address, which must fit into their arrays; the port is copied first.
abbrev pub with_port : List ℕ → Read (List ℕ) → Read (List ℕ × List ℕ)
with_port port outside = outside
with_port port refused = refused
with_port port (read host) =
    if ltb (length host) netip_maxaddrlen then read (host, port) else outside

abbrev pub parts_of : Option (List ℕ × List ℕ) → Read (List ℕ × List ℕ)
parts_of none = refused
parts_of (some (front, port)) =
    if ltb (length port) netip_maxaddrlen then with_port port (host_of front) else outside

unfoldable pub host_port : List ℕ → Read (List ℕ × List ℕ)
unfolding split_colon host_of
host_port addr = parts_of (split_colon addr)

-- parse_addr: an errno or the result of getaddrinfo, and the bytes of the address. The memory for the
-- address is there, or it is not.
module _ (getaddrinfo : List ℕ → List ℕ → Errno × List ℕ) where
  abbrev pub resolve : Bool → Read (List ℕ × List ℕ) → Read (Errno × List ℕ)
  resolve memory outside = outside
  resolve memory refused = read (einval, [])
  resolve memory (read (host, port)) =
      let (err, sa) = getaddrinfo host port in
      if not (err == 0) then read (err, []) else if memory then read (0, sa) else read (enomem, [])

  unfoldable pub parse_addr : Bool → List ℕ → Read (Errno × List ℕ)
  unfolding host_port
  parse_addr memory addr = resolve memory (host_port addr)

-- create_socket; a socket whose options cannot be set is closed.
module _ (socket : ℕ → ℕ → ℕ → Errno × ℕ) (setsockopt : ℕ → Errno) where
  unfoldable pub create_socket : ℕ → ℕ → ℕ → Errno × Option ℕ
  create_socket domain type protocol =
      let (err, fd) = socket domain type protocol in
      if not (err == 0)
      then (err, none)
      else if not (setsockopt fd == 0)
      then (setsockopt fd, none)
      else (0, some fd)

abbrev pub set_bit : ℕ → ℕ → ℕ
set_bit f k = if bit f k then f else f + 2 ^ k

-- check_data_valid of a message of `len` bytes at the beginning of a block. The loop ends at an end node
-- only, wherever that is: `len` does not change in it, and is not 0. slen is `len` less what was passed.
pub data Checked : Type 0 where
  valid invalid no_fuel : Checked

unfoldable pub check_from : ℕ → Block → ℕ → ℕ → Checked
check_from zero b len dn = no_fuel
check_from (suc fuel) b len dn =
    let rest = check_from fuel b len (dn_next b dn) in
    if dn_isend b dn then (if ltb dn len then valid else invalid) else rest

unfoldable pub check_data_valid : ℕ → Block → ℕ → Checked
unfolding check_from
check_data_valid fuel b len = if ltb len datanode_size then invalid else check_from fuel b len 0

-- ===== src/Netip/HostPort.antt =====
-- modules/net/ip/common.c, parse_addr: the host and the port of an address.
use dimmon.Prelude.{
  if◌then◌else◌, ℕ, ◌<◌, ◌≡◌, ◌∙◌, refl, ap, false, some, none, List, [], ◌∷◌, ◌++◌, length, arith,
  ◌==◌,
}
use dimmon.Netip.{
  read, split_colon, split_last, host_of, host_port, host_by, without_bracket, in_brackets,
  parts_of, netip_maxaddrlen, with_port,
}

-- A text without a colon.
abbrev pub NoColon : List ℕ → Type 0
NoColon [] = Unit {0}
NoColon (c ∷ cs) = ((c == b':') ≡ false) × NoColon cs

split_colon-none : (port : List ℕ) → NoColon port → split_colon port ≡ none
unfolding split_colon
split_colon-none [] clean = refl
split_colon-none (c ∷ cs) clean = rw (split_colon-none cs clean.1, clean.0) refl

split_colon-last :
    (front port : List ℕ) → NoColon port → split_colon (front ++ (b':' ∷ port)) ≡ some (front, port)
unfolding split_colon
split_colon-last [] port clean = rw (split_colon-none port clean) refl
split_colon-last (c ∷ cs) port clean = rw (split_colon-last cs port clean) refl

split_last-append : (l : List ℕ) (d : ℕ) → split_last (l ++ (d ∷ [])) ≡ some (l, d)
unfolding split_last
split_last-append [] d = refl
split_last-append (c ∷ cs) d = rw (split_last-append cs d) refl

host_of-bracketed : (host : List ℕ) → host_of (b'[' ∷ (host ++ (b']' ∷ []))) ≡ read host
unfolding host_of
host_of-bracketed host =
    ap (host_by (b'[' ∷ (host ++ (b']' ∷ [])))) (split_last-append (b'[' ∷ host) b']')
    ∙ ap without_bracket (split_last-append host b']')

host_of-plain :
    (l : List ℕ) (d : ℕ) → (d == b']') ≡ false → host_of (l ++ (d ∷ [])) ≡ read (l ++ (d ∷ []))
unfolding host_of
host_of-plain l d plain =
    ap (host_by (l ++ (d ∷ []))) (split_last-append l d)
    ∙ ap (λ c. if c then in_brackets (l ++ (d ∷ [])) else read (l ++ (d ∷ []))) plain

-- Host and port that fit, in front of and behind the last colon.
host_port-parts :
    (front host port : List ℕ)
    → NoColon port
    → host_of front ≡ read host
    → length host < netip_maxaddrlen
    → length port < netip_maxaddrlen
    → host_port (front ++ (b':' ∷ port)) ≡ read (host, port)
unfolding host_port
host_port-parts front host port clean found short short' =
    ap parts_of (split_colon-last front port clean)
    ∙ ground (arith, short')
    ∙ ap (with_port port) found
    ∙ ground (arith, short)

-- An address is taken apart into its host, which may be in brackets, and its port: the port has no
-- colon, both are shorter than their arrays, and a host without brackets is not empty and does not end
-- in a bracket. A host with colons in it is kept whole.
pub host_port-Parts :
    (host l port : List ℕ) (d : ℕ)
    → NoColon port
    → length host < netip_maxaddrlen
    → length (l ++ (d ∷ [])) < netip_maxaddrlen
    → length port < netip_maxaddrlen
    → (d == b']') ≡ false
    → (host_port ((b'[' ∷ (host ++ (b']' ∷ []))) ++ (b':' ∷ port)) ≡ read (host, port))
      × (host_port ((l ++ (d ∷ [])) ++ (b':' ∷ port)) ≡ read (l ++ (d ∷ []), port))
host_port-Parts host l port d clean short short' short'' plain = (
  host_port-parts (b'[' ∷ (host ++ (b']' ∷ []))) host port clean (host_of-bracketed host) short
      short'',
  host_port-parts (l ++ (d ∷ [])) (l ++ (d ∷ [])) port clean (host_of-plain l d plain) short'
      short'',
)

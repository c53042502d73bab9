-- ===== src/Socks/Address.antt =====
-- internal/socks5/server.go: the addresses of requests and datagrams, as bytes and as texts.
use wsl_win_relay.Base.{
  ℕ, not, ◌||◌, List, [], ◌∷◌, ◌++◌, Option, none, some, ltb, ◌==◌, if◌then◌else◌, length, Result,
  ok, err, ◌>>=◌, ◌>>◌, guard, read_full, uint16, put_uint16,
}
use wsl_win_relay.Net.Decimal.{itoa, parse_uint16}
use wsl_win_relay.Net.HostPort.{join_host_port, split_host_port}
use wsl_win_relay.Net.Ip.{ip_string, parse_ip, to4}
use wsl_win_relay.Socks.{
  Error, empty_domain, bad_address_type, bad_reserved, fragmented, bad_address, bad_domain,
  read_part,
}

abbrev pub as_text : List ℕ × List ℕ → Result Error (List ℕ × List ℕ)
as_text (b, rest) = ok (ip_string b, rest)

abbrev pub read_domain : List ℕ × List ℕ → Result Error (List ℕ × List ℕ)
read_domain ([], rest) = err empty_domain
read_domain (n ∷ bs, rest) = if n == 0 then err empty_domain else read_part n rest

-- The host of an address, by its type.
unfoldable pub read_host : ℕ → List ℕ → Result Error (List ℕ × List ℕ)
unfolding read_full ip_string
read_host kind input =
    if kind == 1
    then read_part 4 input >>= as_text
    else if kind == 3
    then read_part 1 input >>= read_domain
    else if kind == 4
    then read_part 16 input >>= as_text
    else err bad_address_type

unfoldable pub read_address : ℕ → List ℕ → Result Error (List ℕ × List ℕ)
unfolding read_host join_host_port itoa uint16 read_full
read_address kind input = do
  (host, rest) ← read_host kind input
  (port, more) ← read_part 2 rest
  ok (join_host_port host (itoa (uint16 port)), more)

-- The address of a host: its four or sixteen bytes if it is the text of one, and a domain otherwise.
abbrev pub encode_domain : List ℕ → Result Error (List ℕ)
encode_domain host =
    if length host == 0 || ltb 255 (length host)
    then err bad_domain
    else ok (3 ∷ length host ∷ host)

abbrev pub encode_ip : List ℕ → Option (List ℕ) → Result Error (List ℕ)
encode_ip host none = encode_domain host
encode_ip host (some ip) = elim (to4 ip) [ some quad ↦ ok (1 ∷ quad) | none ↦ ok (4 ∷ ip) ]

unfoldable pub encode_host : List ℕ → Result Error (List ℕ)
unfolding parse_ip to4
encode_host host = encode_ip host (parse_ip host)

abbrev pub encode_parts : Option (List ℕ × List ℕ) → Result Error (List ℕ)
encode_parts none = err bad_address
encode_parts (some (host, raw_port)) = elim (parse_uint16 raw_port) [
  | none ↦ err bad_address
  | some port ↦ encode_host host >>= λ encoded. ok (encoded ++ put_uint16 port)
]

unfoldable pub encode_address : List ℕ → Result Error (List ℕ)
unfolding split_host_port parse_uint16 encode_host put_uint16
encode_address address = encode_parts (split_host_port address)

-- The request in front of a datagram of the client: its target and its bytes.
unfoldable pub parse_udp_request : List ℕ → Result Error (List ℕ × List ℕ)
unfolding read_address
parse_udp_request (first ∷ second ∷ fragment ∷ kind ∷ rest) = do
  guard (not (first == 0) || not (second == 0)) bad_reserved
  guard (not (fragment == 0)) fragmented
  read_address kind rest
parse_udp_request packet = err bad_reserved

unfoldable pub encode_udp_response : List ℕ → List ℕ → Result Error (List ℕ)
unfolding encode_address
encode_udp_response source content =
    encode_address source >>= λ address. ok (0 ∷ 0 ∷ 0 ∷ address ++ content)

-- ===== src/Upstream/Address.antt =====
-- internal/upstream/dialer.go: the addresses of requests and replies (encodeTarget, readSocksAddress),
-- and the resolving of a target on this side (resolveTarget).
use wsl_win_relay.Base.{
  ℕ, ◌+◌, ◌||◌, List, [], ◌∷◌, ◌++◌, Option, none, some, ltb, ◌==◌, if◌then◌else◌, length, take,
  drop, Result, ok, err, ◌>>=◌, read_full, uint16, put_uint16,
}
use wsl_win_relay.Net.Decimal.{itoa, parse_uint16}
use wsl_win_relay.Net.HostPort.{join_host_port, split_host_port}
use wsl_win_relay.Net.Ip.{ip_string, parse_ip, to4}
use wsl_win_relay.Upstream.{
  Error, bad_target, bad_port, bad_domain, empty_domain, bad_address_type, lookup_failed,
  no_addresses, read_part,
}

abbrev pub target_domain : List ℕ → ℕ → Result Error (List ℕ)
target_domain host port =
    if length host == 0 || ltb 255 (length host)
    then err bad_domain
    else ok (3 ∷ length host ∷ host ++ put_uint16 port)

abbrev pub target_host : List ℕ → ℕ → Option (List ℕ) → Result Error (List ℕ)
target_host host port none = target_domain host port
target_host host port (some ip) = elim (to4 ip) [
  | some quad ↦ ok (1 ∷ quad ++ put_uint16 port)
  | none ↦ ok (4 ∷ ip ++ put_uint16 port)
]

abbrev pub target_port : List ℕ → Option ℕ → Result Error (List ℕ)
target_port host none = err bad_port
target_port host (some port) =
    if port == 0 then err bad_port else target_host host port (parse_ip host)

abbrev pub target_parts : Option (List ℕ × List ℕ) → Result Error (List ℕ)
target_parts none = err bad_target
target_parts (some (host, raw_port)) = target_port host (parse_uint16 raw_port)

unfoldable pub encode_target : List ℕ → Result Error (List ℕ)
unfolding split_host_port parse_uint16 parse_ip to4 put_uint16
encode_target target = target_parts (split_host_port target)

-- The length of a domain stands in front of it.
abbrev pub domain_length : List ℕ × List ℕ → Result Error (ℕ × List ℕ)
domain_length ([], rest) = err empty_domain
domain_length (n ∷ bs, rest) = if n == 0 then err empty_domain else ok (n, rest)

abbrev pub address_length : ℕ → List ℕ → Result Error (ℕ × List ℕ)
address_length kind input =
    if kind == 1
    then ok (4, input)
    else if kind == 4
    then ok (16, input)
    else if kind == 3
    then read_part 1 input >>= domain_length
    else err bad_address_type

-- host and port from the bytes that were read in one piece
abbrev pub address_text : ℕ → ℕ → List ℕ → List ℕ
address_text kind size address =
    let host : List ℕ = take size address in
    join_host_port (if kind == 3 then host else ip_string host) (itoa (uint16 (drop size address)))

abbrev pub as_address : ℕ → ℕ → List ℕ × List ℕ → Result Error (List ℕ × List ℕ)
as_address kind size (address, rest) = ok (address_text kind size address, rest)

abbrev pub read_sized : ℕ → ℕ × List ℕ → Result Error (List ℕ × List ℕ)
read_sized kind (size, rest) = read_part (size + 2) rest >>= as_address kind size

unfoldable pub read_socks_address : ℕ → List ℕ → Result Error (List ℕ × List ℕ)
unfolding read_full join_host_port itoa uint16 ip_string
read_socks_address kind input = address_length kind input >>= read_sized kind

-- What DefaultResolver.LookupIP makes of a host: addresses, or an error.
abbrev pub Lookup : Type 0
Lookup = List ℕ → Option (List (List ℕ))

unfoldable pub first_ip4 : List (List ℕ) → Option (List ℕ)
unfolding to4
first_ip4 [] = none
first_ip4 (ip ∷ ips) =
    let later = first_ip4 ips in elim (to4 ip) [ some quad ↦ some quad | none ↦ later ]

abbrev pub choose_ip : List ℕ → Option (List (List ℕ)) → Result Error (List ℕ)
choose_ip port none = err lookup_failed
choose_ip port (some []) = err no_addresses
choose_ip port (some (ip ∷ ips)) = elim (first_ip4 (ip ∷ ips)) [
  | some quad ↦ ok (join_host_port (ip_string quad) port)
  | none ↦ ok (join_host_port (ip_string ip) port)
]

abbrev pub resolve_parts : Lookup → List ℕ → Option (List ℕ × List ℕ) → Result Error (List ℕ)
resolve_parts lookup target none = err bad_target
resolve_parts lookup target (some (host, port)) = elim (parse_ip host) [
  | some ip ↦ ok target
  | none ↦ choose_ip port (lookup host)
]

unfoldable pub resolve_target : Lookup → List ℕ → Result Error (List ℕ)
unfolding split_host_port parse_ip first_ip4 join_host_port ip_string
resolve_target lookup target = resolve_parts lookup target (split_host_port target)

-- ===== src/Upstream/Examples.antt =====
-- Runs of the dialer, and the theorems at them.
use wsl_win_relay.Base.{
  Option, ℕ, ◌≡◌, refl, List, [], ◌∷◌, ◌++◌, none, some, false, ok, err, write_once, bytes_eq,
  arith,
}
use wsl_win_relay.Base.Text.{codes}
use wsl_win_relay.Net.Decimal.{itoa, digits}
use wsl_win_relay.Net.HostPort.{index, cut_last, split_host_port, has, join_host_port}
use wsl_win_relay.Net.Ip.{parse_ip, dotted, ip_string, to4}
use wsl_win_relay.Socks.Serve.{World}
use wsl_win_relay.Socks.Address.{read_address, read_host, parse_udp_request, encode_udp_response}
use wsl_win_relay.Socks.RoundTrip.{quad}
use wsl_win_relay.Upstream.{denied}
use wsl_win_relay.Upstream.Address.{Lookup, resolve_target, first_ip4, read_socks_address}
use wsl_win_relay.Upstream.Agreement.{read_socks_address-same}
use wsl_win_relay.Upstream.Connect.{User, socks5_handshake}
use wsl_win_relay.Upstream.Http.{line_end}
use wsl_win_relay.Upstream.Packet.{resolved, write_to_target, read_from}
use wsl_win_relay.Upstream.Chained.{packets-pass}
use wsl_win_relay.Upstream.Reply.{conn}

abbrev user : User
user = record { username = codes "me"; password = codes "pw" }

-- A proxy that asks for a password gets it, and may deny it.
socks5_handshake-denied :
    socks5_handshake (some user) (conn (5 ∷ 2 ∷ 1 ∷ 1 ∷ []) [])
    ≡ (err denied, conn [] (5 ∷ 2 ∷ 0 ∷ 2 ∷ 1 ∷ 2 ∷ 109 ∷ 101 ∷ 2 ∷ 112 ∷ 119 ∷ []))
unfolding socks5_handshake write_once
socks5_handshake-denied = refl

abbrev reachable : World
reachable = record {
  greeting_fails = false;
  reply_fails = false;
  has_packets = false;
  dial = ok (some (join_host_port (dotted (10 ∷ 0 ∷ 0 ∷ 7 ∷ [])) (itoa 50000)));
  packet = ok tt;
  listen = none;
}

-- The lookup of a dialer that resolves names; it finds an address of sixteen bytes and one of four.
abbrev found : Option Lookup
found = some (λ name. some (
    (32 ∷ 1 ∷ 0 ∷ 0 ∷ 0 ∷ 0 ∷ 0 ∷ 0 ∷ 0 ∷ 0 ∷ 0 ∷ 0 ∷ 0 ∷ 0 ∷ 0 ∷ 9 ∷ [])
    ∷ (10 ∷ 0 ∷ 0 ∷ 7 ∷ [])
    ∷ []))

name_found :
    resolved found (codes "wsl:53") ≡ ok (join_host_port (dotted (10 ∷ 0 ∷ 0 ∷ 7 ∷ [])) (itoa 53))
unfolding resolve_target split_host_port cut_last index has parse_ip first_ip4 to4 ip_string dotted
    itoa digits join_host_port bytes_eq
name_found = refl

packets-pass_example :
    (packet : List ℕ) × (answer : List ℕ) × (write_to_target found false
        (1 ∷ 2 ∷ [])
        (codes "wsl:53")
      ≡ ok (2, packet))
    × (parse_udp_request packet
        ≡ ok (join_host_port (dotted (10 ∷ 0 ∷ 0 ∷ 7 ∷ [])) (itoa 53), 1 ∷ 2 ∷ []))
    × (encode_udp_response (join_host_port (dotted (10 ∷ 0 ∷ 0 ∷ 7 ∷ [])) (itoa 53)) (1 ∷ 2 ∷ [])
        ≡ ok answer)
    × (read_from 4 answer
        ≡ ok (record {
          content = 1 ∷ 2 ∷ [];
          address = join_host_port (dotted (10 ∷ 0 ∷ 0 ∷ 7 ∷ [])) (itoa 53);
          short = false;
        }))
packets-pass_example =
    packets-pass found (codes "wsl:53") (dotted (10 ∷ 0 ∷ 0 ∷ 7 ∷ [])) 53 4 (1 ∷ 2 ∷ []) name_found
      (quad 10 0 0 7 (omega arith, (omega arith, (omega arith, (omega arith, tt))))) (omega arith)
      (omega arith) (omega arith)

address_read : read_address 1 (10 ∷ 0 ∷ 0 ∷ 7 ∷ 0 ∷ 22 ∷ 9 ∷ []) ≡ ok (codes "10.0.0.7:22", 9 ∷ [])
unfolding read_address read_host ip_string to4 dotted itoa digits
address_read = refl

read_socks_address-same_example :
    read_socks_address 1 (10 ∷ 0 ∷ 0 ∷ 7 ∷ 0 ∷ 22 ∷ 9 ∷ []) ≡ ok (codes "10.0.0.7:22", 9 ∷ [])
read_socks_address-same_example =
    read_socks_address-same 1 (10 ∷ 0 ∷ 0 ∷ 7 ∷ 0 ∷ 22 ∷ 9 ∷ []) (codes "10.0.0.7:22", 9 ∷ [])
      address_read

abbrev response : List ℕ
response =
    codes "HTTP/1.1 200 OK"
    ++ line_end
    ++ codes "Via: 1.1 proxy"
    ++ line_end
    ++ line_end
    ++ codes "SSH"

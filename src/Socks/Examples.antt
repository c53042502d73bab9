-- ===== src/Socks/Examples.antt =====
-- The SOCKS5 proxy at concrete inputs, with tests of the texts of addresses.
use wsl_win_relay.Base.{
  true, ℕ, ◌≡◌, refl, false, List, [], ◌∷◌, none, some, ok, err, arith, All, read_full, bytes_eq,
  uint16, put_uint16,
}
use wsl_win_relay.Base.Text.{codes}
use wsl_win_relay.Net.Decimal.{itoa, digits, parse_uint16, parse_digits}
use wsl_win_relay.Net.HostPort.{join_host_port, has, split_host_port, cut_last}
use wsl_win_relay.Net.Ip.{
  parse_ip, ip_string, to4, dotted, ip6_text, words, longest, zeros, colons, parse_groups,
  parse_ip4, parse_quad, hex_prefix,
}
use wsl_win_relay.Socks.Address.{encode_udp_response, parse_udp_request, read_address, read_host}
use wsl_win_relay.Socks.RoundTrip.{domain, parse-encode_udp}
use wsl_win_relay.Socks.Serve.{
  World, canceled, writes, dials, proxies, serve_conn, read_methods, read_request, reply_bytes,
}
use wsl_win_relay.Socks.Replies.{Conversation, serve-Conversation}
use wsl_win_relay.Socks.Datagram.{
  Step, arrives, returns, new_relay, steps, Trusted, steps-new-IsGuarded,
}

abbrev mapped : List ℕ
mapped = 0 ∷ 0 ∷ 0 ∷ 0 ∷ 0 ∷ 0 ∷ 0 ∷ 0 ∷ 0 ∷ 0 ∷ 255 ∷ 255 ∷ 10 ∷ 0 ∷ 0 ∷ 7 ∷ []

abbrev local : List ℕ
local = 254 ∷ 128 ∷ 0 ∷ 0 ∷ 0 ∷ 0 ∷ 0 ∷ 0 ∷ 0 ∷ 1 ∷ 0 ∷ 0 ∷ 0 ∷ 0 ∷ 0 ∷ 42 ∷ []

ip_string-mapped : ip_string mapped ≡ codes "10.0.0.7"
unfolding ip_string to4 bytes_eq dotted itoa digits
ip_string-mapped = refl

-- Of two runs of the same kind the longer is left out.
ip_string-local : ip_string local ≡ codes "fe80::1:0:0:2a"
unfolding ip_string to4 bytes_eq ip6_text words longest zeros colons
ip_string-local = refl

parse_ip-local : parse_ip (codes "fe80::1:0:0:2a") ≡ some local
unfolding parse_ip has bytes_eq parse_groups hex_prefix
parse_ip-local = refl

parse_ip-mapped : parse_ip (codes "::ffff:10.0.0.7") ≡ some mapped
unfolding parse_ip has bytes_eq parse_groups hex_prefix parse_ip4 parse_quad
parse_ip-mapped = refl

parse_ip_leading_zero : parse_ip (codes "10.0.0.07") ≡ none
unfolding parse_ip parse_ip4 parse_quad
parse_ip_leading_zero = refl

no_address : parse_ip (codes "wsl") ≡ none
unfolding parse_ip
no_address = refl

no_brackets : (has b'[' (codes "wsl") ≡ false) × (has b']' (codes "wsl") ≡ false)
unfolding has
no_brackets = (refl, refl)

parse-encode_udp_example :
    (packet : List ℕ) × (encode_udp_response (join_host_port (codes "wsl") (itoa 53)) (1 ∷ 2 ∷ [])
      ≡ ok packet)
    × (parse_udp_request packet ≡ ok (join_host_port (codes "wsl") (itoa 53), 1 ∷ 2 ∷ []))
parse-encode_udp_example =
    parse-encode_udp (codes "wsl") 53 (1 ∷ 2 ∷ [])
      (domain (codes "wsl") no_address (omega arith) (omega arith) no_brackets.0 no_brackets.1)
      (omega arith)

abbrev reachable : World
reachable = record {
  greeting_fails = false;
  reply_fails = false;
  has_packets = false;
  dial = ok (some (codes "127.0.0.1:80"));
  packet = err canceled;
  listen = none;
}

-- a greeting and a CONNECT to 10.0.0.7:80
abbrev connect : List ℕ
connect = 5 ∷ 1 ∷ 0 ∷ 5 ∷ 1 ∷ 0 ∷ 1 ∷ 10 ∷ 0 ∷ 0 ∷ 7 ∷ 0 ∷ 80 ∷ []

serve_connects :
    (serve_conn reachable connect).0
    ≡ writes (5 ∷ 0 ∷ []) false
      ∷ dials (codes "10.0.0.7:80") true
      ∷ writes (5 ∷ 0 ∷ 0 ∷ 1 ∷ 127 ∷ 0 ∷ 0 ∷ 1 ∷ 0 ∷ 80 ∷ []) false
      ∷ proxies
      ∷ []
unfolding serve_conn read_methods read_request read_full read_address read_host ip_string to4 dotted
    itoa digits join_host_port has uint16 reply_bytes split_host_port cut_last parse_ip parse_ip4
    parse_quad parse_uint16 parse_digits put_uint16 bytes_eq
serve_connects = refl

serve-Conversation_example : Conversation false connect (serve_conn reachable connect).0
serve-Conversation_example = serve-Conversation reachable connect

abbrev exchange : List Step
exchange =
    arrives (127 ∷ 0 ∷ 0 ∷ 1 ∷ [], 9) (0 ∷ 0 ∷ 0 ∷ 1 ∷ 10 ∷ 0 ∷ 0 ∷ 7 ∷ 0 ∷ 53 ∷ 1 ∷ []) false
    ∷ arrives (10 ∷ 0 ∷ 0 ∷ 9 ∷ [], 9) (0 ∷ 0 ∷ 0 ∷ 1 ∷ 10 ∷ 0 ∷ 0 ∷ 7 ∷ 0 ∷ 53 ∷ 1 ∷ []) false
    ∷ returns (codes "10.0.0.7:53") (2 ∷ []) false
    ∷ []

steps-new-IsGuarded_example :
    All
      (Trusted (codes "127.0.0.1:1080"))
      (steps (codes "127.0.0.1:1080") new_relay exchange).delivered
steps-new-IsGuarded_example = steps-new-IsGuarded (codes "127.0.0.1:1080") exchange

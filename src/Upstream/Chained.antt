-- ===== src/Upstream/Chained.antt =====
-- The dialer of internal/upstream, with the proxy of internal/socks5 as its upstream.
use wsl_win_relay.Base.{
  ℕ, ◌≤◌, ◌<◌, ◌≡◌, refl, ap, ◌∙◌, inr, List, [], ◌∷◌, ◌++◌, append_assoc, Option, none, some,
  false, ok, Writer, accepting, arith, length, put_uint16, uint16-put, IsU16, read_full-append,
  IoError, ◌==◌, ◌>>=◌,
}
use wsl_win_relay.Base.Writing.{
  checked-IsProgress, write_loop, write_loop-fuel, write_loop-accepting, IsProgress,
}
use wsl_win_relay.Net.Decimal.{itoa, parse-itoa, itoa-IsDigit}
use wsl_win_relay.Net.HostPort.{join_host_port, split-join, IsFree, digits-IsFree}
use wsl_win_relay.Net.Ip.{parse_ip}
use wsl_win_relay.Socks
use wsl_win_relay.Socks.Address.{
  read_address, encode_host, encode_ip, parse_udp_request, encode_udp_response,
}
use wsl_win_relay.Socks.RoundTrip.{IsHost, Target, Target-IsHost, encode_udp-IsHost}
use wsl_win_relay.Upstream.{io, Error, progress, write_all, send}
use wsl_win_relay.Upstream.Address.{Lookup, encode_target, target_host, target_port, target_parts}
use wsl_win_relay.Upstream.Packet.{resolved, target_packet, write_to_target, read_from, into_buffer}
use wsl_win_relay.Upstream.Agreement.{read_socks_address-same}

progress-IsProgress : IsProgress progress
progress-IsProgress = checked-IsProgress io IoError.short_write

-- As many rounds as there are bytes are enough for writeAll: with more of them, and any error in place
-- of the one for a lack of rounds, it answers the same.
write_all-fuel :
    (p : List ℕ) (w : Writer) (more : ℕ) (stuck : Error)
    → length p ≤ more
    → write_all p w ≡ write_loop progress stuck more p w
unfolding write_all
write_all-fuel p w more stuck h =
    write_loop-fuel progress _ stuck progress-IsProgress (length p) more p w (omega arith) h

pub send-accepting :
    (p input sent : List ℕ)
    → send p (record { input = input; output = accepting sent })
      ≡ (ok tt, record { input = input; output = accepting (sent ++ p) })
unfolding send write_all
send-accepting p input sent =
    rw (write_loop-accepting progress _ progress-IsProgress (length p) p sent (omega arith)) refl

module _ (host : List ℕ) (port : ℕ) (form : IsHost host) (word : IsU16 port) (pos : 0 < port) where
  abbrev pub address : List ℕ
  address = form.kind ∷ form.bytes ++ put_uint16 port

  port-IsFree : (mark : ℕ) → b'9' < mark → IsFree mark (itoa port)
  port-IsFree mark out = digits-IsFree mark (itoa port) (inr out) (itoa-IsDigit port)

  by_ip :
      (ip : Option (List ℕ))
      → encode_ip host ip ≡ ok (form.kind ∷ form.bytes)
      → target_host host port ip ≡ ok address
  by_ip none h = ground (arith, h)
  by_ip (some ip) h = ground (arith, h)

  pub encode_target-IsHost : encode_target (join_host_port host (itoa port)) ≡ ok address
  unfolding encode_target encode_host
  encode_target-IsHost =
      rw
        (
          split-join host (itoa port) form.left form.right (port-IsFree b':' (omega arith))
              (port-IsFree b'[' (omega arith)) (port-IsFree b']' (omega arith)),
          parse-itoa port word,
          target_parts,
          not_zero,
          target_port,
        )
        (by_ip (parse_ip host) form.encoded)
    where
      not_zero : (port == 0) ≡ false
      not_zero = ground arith

  pub read_address-back :
      (rest : List ℕ)
      → read_address form.kind ((form.bytes ++ put_uint16 port) ++ rest)
        ≡ ok (join_host_port host (itoa port), rest)
  unfolding read_address put_uint16
  read_address-back rest =
      ap (read_address form.kind) (append_assoc form.bytes (put_uint16 port) rest)
      ∙ rw
          (
            form.back (put_uint16 port ++ rest),
            read_address,
            read_full-append (put_uint16 port) rest,
            Socks.read_part,
            uint16-put port [] word,
          )
          refl

  -- the bytes of a datagram with the address in front, for a target that is resolved to `host`
  pub target_packet-IsHost :
      (lookup : Option Lookup) (payload target : List ℕ)
      → resolved lookup target ≡ ok (join_host_port host (itoa port))
      → target_packet lookup payload target ≡ ok (0 ∷ 0 ∷ 0 ∷ address ++ payload)
  unfolding target_packet
  target_packet-IsHost lookup payload target e = rw (e, target_packet, encode_target-IsHost) refl

  pub read_from-IsHost :
      (size : ℕ) (payload : List ℕ)
      → length payload ≤ size
      → read_from size (0 ∷ 0 ∷ 0 ∷ address ++ payload)
        ≡ ok
            (record { content = payload; address = join_host_port host (itoa port); short = false })
  unfolding read_from
  read_from-IsHost size payload fits =
      ap (λ r. r >>= into_buffer size)
        (read_socks_address-same form.kind ((form.bytes ++ put_uint16 port) ++ payload) _
          (read_address-back payload))
      ∙ ground (arith, fits)

-- A datagram passes both ways between the dialer and the proxy. Take a target that the dialer leaves as
-- it is, as it does where it does not resolve names, or resolves to another, and let what it is left
-- or resolved to be a domain or an address of four bytes with a port but 0. Then, for all bytes, the
-- packet that WriteToTarget sends is read by the proxy as that target and those bytes, and the packet
-- with which the proxy answers from there is read by ReadFrom as the same address and bytes, in every
-- buffer that is long enough.
pub packets-pass :
    (lookup : Option Lookup) (requested host : List ℕ) (port size : ℕ) (payload : List ℕ)
    → resolved lookup requested ≡ ok (join_host_port host (itoa port))
    → Target host
    → IsU16 port
    → 0 < port
    → length payload ≤ size
    → (packet : List ℕ) × (answer : List ℕ) × (write_to_target lookup false payload requested
        ≡ ok (length payload, packet))
      × (parse_udp_request packet ≡ ok (join_host_port host (itoa port), payload))
      × (encode_udp_response (join_host_port host (itoa port)) payload ≡ ok answer)
      × (read_from size answer
          ≡ ok (record {
            content = payload;
            address = join_host_port host (itoa port);
            short = false;
          }))
unfolding parse_udp_request write_to_target
packets-pass lookup requested host port size payload left target word pos fits =
    let form = Target-IsHost host target in
    let packet : List ℕ = 0 ∷ 0 ∷ 0 ∷ address host port form word pos ++ payload in
    (
      packet,
      packet,
      rw (target_packet-IsHost host port form word pos lookup payload requested left) refl,
      read_address-back host port form word pos payload,
      encode_udp-IsHost host port payload form word,
      read_from-IsHost host port form word pos size payload fits,
    )

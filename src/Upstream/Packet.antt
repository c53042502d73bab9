-- ===== src/Upstream/Packet.antt =====
-- internal/upstream/dialer.go: the datagrams of a socks5PacketConn.
use wsl_win_relay.Base.{
  ℕ, Bool, true, false, not, ◌||◌, List, ◌∷◌, ◌++◌, Option, none, some, ltb, ◌==◌, if◌then◌else◌,
  length, take, Result, ok, err, ◌>>=◌, ◌>>◌, guard,
}
use wsl_win_relay.Upstream.{Error, bad_packet, no_destination, send_failed}
use wsl_win_relay.Upstream.Address.{encode_target, read_socks_address, Lookup, resolve_target}

-- What ReadFrom gives: the bytes in the buffer, whose they are, and whether the buffer was too short.
pub record Received : Type 0 where
  pub content : List ℕ
  pub address : List ℕ
  pub short : Bool

abbrev pub into_buffer : ℕ → List ℕ × List ℕ → Result Error Received
into_buffer size (address, payload) =
    if ltb size (length payload)
    then ok (record { content = take size payload; address = address; short = true })
    else ok (record { content = payload; address = address; short = false })

-- ReadFrom with a buffer of `size` bytes, on the packet that the socket has received
unfoldable pub read_from : ℕ → List ℕ → Result Error Received
unfolding read_socks_address
read_from size (first ∷ second ∷ fragment ∷ kind ∷ rest) = do
  guard (not (first == 0) || not (second == 0) || not (fragment == 0)) bad_packet
  read_socks_address kind rest >>= into_buffer size
read_from size packet = err bad_packet

-- A connection with `some` lookup resolves domains itself.
abbrev pub resolved : Option Lookup → List ℕ → Result Error (List ℕ)
resolved none target = ok target
resolved (some lookup) target = resolve_target lookup target

-- WriteToTarget: the packet that it hands to the socket
unfoldable pub target_packet : Option Lookup → List ℕ → List ℕ → Result Error (List ℕ)
unfolding resolve_target encode_target
target_packet lookup payload target = resolved lookup target >>= λ host_port.
    encode_target host_port >>= λ address. ok (0 ∷ 0 ∷ 0 ∷ address ++ payload)

-- and what it returns; `fails` is the write of the socket
abbrev pub after_packet : Bool → List ℕ → List ℕ → Result Error (ℕ × List ℕ)
after_packet true payload packet = err send_failed
after_packet false payload packet = ok (length payload, packet)

unfoldable pub write_to_target : Option Lookup → Bool → List ℕ → List ℕ → Result Error (ℕ × List ℕ)
unfolding target_packet
write_to_target lookup fails payload target =
    target_packet lookup payload target >>= after_packet fails payload

unfoldable pub write_to :
    Option Lookup → Bool → List ℕ → Option (List ℕ) → Result Error (ℕ × List ℕ)
unfolding write_to_target
write_to lookup fails payload none = err no_destination
write_to lookup fails payload (some address) = write_to_target lookup fails payload address

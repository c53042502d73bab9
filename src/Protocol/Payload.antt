-- ===== src/Protocol/Payload.antt =====
-- internal/protocol/window.go, datagram.go and capabilities.go: the payloads with a structure.
use wsl_win_relay.Base.{
  ℕ, ◌+◌, ◌^◌, ◌||◌, not, ◌&&◌, List, ◌++◌, Result, ok, ◌>>◌, guard, put_uint16, put_uint32,
  put_uint64, uint16, uint32, uint64, ltb, ◌==◌, if◌then◌else◌, length, take, drop,
}
use wsl_win_relay.Protocol.Frame.{
  Error, bad_endpoint_length, datagram_too_large, truncated_datagram, oversized_datagram,
  bad_datagram_endpoint, bad_hello_ok, max_target_size, max_datagram_size,
}

unfoldable pub encode_window_update : ℕ → List ℕ
encode_window_update count = put_uint32 count

unfoldable pub decode_window_update : List ℕ → ℕ
decode_window_update payload = if not (length payload == 4) then 0 else uint32 payload

unfoldable pub encode_datagram : List ℕ → List ℕ → Result Error (List ℕ)
encode_datagram endpoint content = do
  guard (length endpoint == 0 || ltb max_target_size (length endpoint)) bad_endpoint_length
  guard (ltb max_datagram_size (length endpoint + 2 + length content)) datagram_too_large
  ok (put_uint16 (length endpoint) ++ (endpoint ++ content))

unfoldable pub decode_datagram : List ℕ → Result Error (List ℕ × List ℕ)
decode_datagram payload = do
  guard (ltb (length payload) 3) truncated_datagram
  guard (ltb max_datagram_size (length payload)) oversized_datagram
  let size = uint16 (take 2 payload)
  guard (size == 0 || ltb max_target_size size || ltb (length payload) (2 + size))
      bad_datagram_endpoint
  ok (take size (drop 2 payload), drop (2 + size) payload)

abbrev pub capability_tcp : ℕ
capability_tcp = 2 ^ 0

abbrev pub capability_reverse : ℕ
capability_reverse = 2 ^ 1

abbrev pub capability_reverse_udp : ℕ
capability_reverse_udp = 2 ^ 2

abbrev pub capability_reserve_commit : ℕ
capability_reserve_commit = 2 ^ 3

abbrev pub capability_udp : ℕ
capability_udp = 2 ^ 4

abbrev pub capability_flow_control : ℕ
capability_flow_control = 2 ^ 5

abbrev pub capability_listen_bound_address : ℕ
capability_listen_bound_address = 2 ^ 6

-- The bits are disjoint, so that `|` is the sum.
abbrev pub core_capabilities : ℕ
core_capabilities =
    capability_tcp + capability_reverse + capability_reverse_udp + capability_reserve_commit
    + capability_udp + capability_flow_control

abbrev pub all_capabilities : ℕ
all_capabilities = core_capabilities + capability_listen_bound_address

unfoldable pub encode_capabilities : ℕ → List ℕ
encode_capabilities capabilities = put_uint64 capabilities

unfoldable pub decode_capabilities : List ℕ → ℕ
decode_capabilities payload = if not (length payload == 8) then 0 else uint64 payload

unfoldable pub encode_hello_ok : ℕ → ℕ → List ℕ
encode_hello_ok capabilities instance_id =
    if instance_id == 0
    then encode_capabilities capabilities
    else put_uint64 capabilities ++ put_uint64 instance_id

unfoldable pub decode_hello_ok : List ℕ → Result Error (ℕ × ℕ)
decode_hello_ok payload = do
  guard (not (length payload == 8) && not (length payload == 16)) bad_hello_ok
  ok (uint64 payload, if length payload == 8 then 0 else uint64 (drop 8 payload))

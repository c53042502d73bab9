-- ===== src/Attach/Payload.antt =====
-- internal/transport/attach/wire.go: the limits of the attach protocol, its errors, and the payloads
-- of HELLO, ATTACH and ATTACH_OK.
use wsl_win_relay.Base.{
  ℕ, ◌+◌, ◌*◌, ◌^◌, not, ◌&&◌, ◌||◌, List, ◌++◌, Result, ok, ◌>>=◌, ◌>>◌, guard, IoError,
  put_uint16, put_uint64, uint16, uint64, ltb, ◌==◌, if◌then◌else◌, length, take, drop,
}
use wsl_win_relay.Attach.Registry.{Error}

abbrev pub wire_version : ℕ
wire_version = 1

abbrev pub wire_header_size : ℕ
wire_header_size = 12

abbrev pub max_wire_payload : ℕ
max_wire_payload = 64 * 2 ^ 10

abbrev pub max_wire_token : ℕ
max_wire_token = 256

abbrev pub max_wire_error : ℕ
max_wire_error = 4 * 2 ^ 10

-- The errors of wire.go, one for each message; `refused` is one of the registry's.
pub data WireError : Type 0 where
  unknown_message_type unsupported_version unknown_kind unknown_state unknown_resumed :
      ℕ → WireError
  payload_too_large bad_hello bad_attach_ok bad_attach_error : WireError
  bad_magic bad_capabilities truncated_attach bad_token_length : WireError
  zero_entry_id too_many_entries unordered_entries bad_summary_length bad_entry_count : WireError
  too_many_resumed unordered_resumed bad_resume_length bad_resume_count : WireError
  epoch_mismatch : ℕ → ℕ → WireError
  unknown_entries : WireError
  unexpected_message : ℕ → WireError
  remote_attach : List ℕ → WireError
  refused : Error → WireError
  io : IoError → WireError

unfoldable pub encode_capabilities : ℕ → List ℕ
encode_capabilities capabilities = put_uint64 capabilities

unfoldable pub decode_capabilities : List ℕ → Result WireError ℕ
decode_capabilities payload = do
  guard (not (length payload == 8)) bad_capabilities
  ok (uint64 payload)

unfoldable pub encode_attach : List ℕ → ℕ → Result WireError (List ℕ)
encode_attach token last_epoch = do
  guard (length token == 0 || ltb max_wire_token (length token)) (refused Error.invalid_token)
  ok (put_uint16 (length token) ++ (token ++ put_uint64 last_epoch))

unfoldable pub decode_attach : List ℕ → Result WireError (List ℕ × ℕ)
decode_attach payload = do
  guard (ltb (length payload) 10) truncated_attach
  let size = uint16 payload
  guard (size == 0 || ltb max_wire_token size || not (length payload == 2 + size + 8))
      bad_token_length
  ok (take size (drop 2 payload), uint64 (drop size (drop 2 payload)))

unfoldable pub encode_attach_ok : ℕ → ℕ → List ℕ
encode_attach_ok epoch capabilities = put_uint64 epoch ++ put_uint64 capabilities

unfoldable pub encode_attach_ok_with_instance : ℕ → ℕ → ℕ → List ℕ
encode_attach_ok_with_instance epoch capabilities instance_id =
    put_uint64 epoch ++ (put_uint64 capabilities ++ put_uint64 instance_id)

unfoldable pub decode_attach_ok : List ℕ → Result WireError (ℕ × ℕ)
decode_attach_ok payload = do
  guard (not (length payload == 16) && not (length payload == 24)) bad_attach_ok
  ok (uint64 payload, uint64 (drop 8 payload))

unfoldable pub decode_attach_ok_with_instance : List ℕ → Result WireError (ℕ × ℕ × ℕ)
unfolding decode_attach_ok
decode_attach_ok_with_instance payload = do
  (epoch, capabilities) ← decode_attach_ok payload
  ok (epoch, capabilities, if not (length payload == 24) then 0 else uint64 (drop 16 payload))

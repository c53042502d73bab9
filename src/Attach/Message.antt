-- ===== src/Attach/Message.antt =====
-- internal/transport/attach/wire.go: one message of the attach protocol.
pub mod RoundTrip
use wsl_win_relay.Base.{
  ℕ, zero, suc, not, ◌&&◌, ◌||◌, List, [], ◌∷◌, ◌++◌, Option, none, some, Result, ok, err, ◌>>=◌,
  ◌>>◌, guard, IoError, Writer, read_full, put_uint32, uint32, bytes_eq, ltb, ◌==◌, if◌then◌else◌,
  length, take, drop, get_or,
}
use wsl_win_relay.Base.Action
use wsl_win_relay.Base.Action.{Action}
use wsl_win_relay.Base.Writing.{checked, write_loop}
use wsl_win_relay.Attach.Payload.{
  WireError, unknown_message_type, payload_too_large, bad_hello, bad_attach_ok, bad_attach_error,
  bad_magic, unsupported_version, io, decode_attach, wire_version, wire_header_size,
  max_wire_payload, max_wire_error,
}
use wsl_win_relay.Attach.Summary.{decode_summary, decode_resume_ack}

abbrev pub message_hello : ℕ
message_hello = 1

abbrev pub message_attach : ℕ
message_attach = 2

abbrev pub message_attach_ok : ℕ
message_attach_ok = 3

abbrev pub message_attach_error : ℕ
message_attach_error = 4

abbrev pub message_registry_summary : ℕ
message_registry_summary = 5

abbrev pub message_resume_ack : ℕ
message_resume_ack = 6

pub record Message : Type 0 where
  pub kind : ℕ
  pub payload : List ℕ

-- `if _, err := decode(payload); err != nil { return err }`
abbrev pub check : {A : Type 0} → Result WireError A → Result WireError (Unit {0})
check (ok a) = ok tt
check (err e) = err e

-- the switch over the type
unfoldable pub validate_payload : ℕ → List ℕ → Result WireError (Unit {0})
validate_payload kind payload =
    if kind == message_hello
    then guard (not (length payload == 8)) bad_hello
    else if kind == message_attach
    then check (decode_attach payload)
    else if kind == message_attach_ok
    then guard (not (length payload == 16) && not (length payload == 24)) bad_attach_ok
    else if kind == message_attach_error
    then guard (length payload == 0 || ltb max_wire_error (length payload)) bad_attach_error
    else if kind == message_registry_summary
    then check (decode_summary payload)
    else if kind == message_resume_ack
    then check (decode_resume_ack payload)
    else ok tt

unfoldable pub validate : Message → Result WireError (Unit {0})
unfolding validate_payload
validate m = do
  guard (ltb m.kind message_hello || ltb message_resume_ack m.kind) (unknown_message_type m.kind)
  guard (ltb max_wire_payload (length m.payload)) payload_too_large
  validate_payload m.kind m.payload

-- "WWA1"
abbrev pub wire_magic : List ℕ
wire_magic = b'W' ∷ b'W' ∷ b'A' ∷ b'1' ∷ []

-- What a call of Write answers, once `p` is not empty. Unlike in package protocol, a count past the
-- end of `p` is reported as a short write.
abbrev pub progress : List ℕ → ℕ × Option IoError → Result WireError (List ℕ)
progress = checked io IoError.short_write

-- writeFull
unfoldable pub write_full : List ℕ → Action Writer WireError (Unit {0})
unfolding write_loop
write_full p = write_loop progress (io IoError.panic) (length p) p

unfoldable pub encode_header : Message → List ℕ
encode_header m = wire_magic ++ (wire_version ∷ m.kind ∷ 0 ∷ 0 ∷ put_uint32 (length m.payload))

unfoldable pub write : Message → Action Writer WireError (Unit {0})
unfolding encode_header
write m =
    Action.◌>>◌ (Action.lift (validate m))
      (Action.◌>>◌ (write_full (encode_header m)) (write_full m.payload))

-- the bytes of a message on the wire
abbrev pub encoding : Message → List ℕ
encoding m = encode_header m ++ m.payload

-- io.ReadFull, its error passed on
unfoldable pub read_bytes : ℕ → List ℕ → Result WireError (List ℕ × List ℕ)
unfolding read_full
read_bytes n input = elim (read_full n input) [ ok r ↦ ok r | err e ↦ err (io e) ]

-- The message, and the input that is left behind it. After an error the caller gives the reader up.
unfoldable pub read : List ℕ → Result WireError (Message × List ℕ)
read input = do
  (header, rest) ← read_bytes wire_header_size input
  guard (not (bytes_eq (take 4 header) wire_magic)) bad_magic
  guard (not (get_or header 4 0 == wire_version)) (unsupported_version (get_or header 4 0))
  let size = uint32 (drop 8 header)
  guard (ltb max_wire_payload size) payload_too_large
  (payload, rest') ← read_bytes size rest
  let m : Message = record { kind = get_or header 5 0; payload = payload }
  validate m
  ok (m, rest')

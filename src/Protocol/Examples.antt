-- ===== src/Protocol/Examples.antt =====
-- The theorems on frames and payloads at concrete frames.
use wsl_win_relay.Base.{
  ◌++◌, bytes_eq, uint32, uint16, put_uint16, ◌≡◌, ◌↔◌, refl, List, [], ◌∷◌, ℕ, none, some, ok,
  accepting, IoError, Writer, length, arith,
}
use wsl_win_relay.Base.Writing.{Delivers}
use wsl_win_relay.Protocol.Frame.{Frame, type_open, validate, validate_frame_metadata}
use wsl_win_relay.Protocol.Accepts.{IsWellFormed, validate_iff_IsWellFormed}
use wsl_win_relay.Protocol.Write.{write, encoding}
use wsl_win_relay.Protocol.Delivery.{write-Delivers}
use wsl_win_relay.Protocol.Read.{read, read_bytes}
use wsl_win_relay.Protocol.RoundTrip.{read-write}
use wsl_win_relay.Protocol.Sound.{padded, read_sound}
use wsl_win_relay.Protocol.Payload.{encode_datagram, decode_datagram}

-- OPEN of "a:1" on stream 7
abbrev open_frame : Frame
open_frame = record { kind = type_open; stream_id = 7; payload = b'a' ∷ b':' ∷ b'1' ∷ [] }

open_frame_valid : validate open_frame ≡ ok tt
unfolding validate
open_frame_valid = refl

read-write_example :
    ((write open_frame (accepting [])).0 ≡ ok tt)
    × (read ((write open_frame (accepting [])).1.sent ++ 9 ∷ []) ≡ ok (open_frame, 9 ∷ []))
read-write_example = read-write open_frame (9 ∷ []) (omega arith) open_frame_valid

-- the same frame with reserved bytes that are not zero, and a byte behind it
abbrev open_input : List ℕ
open_input =
    b'W' ∷ b'W' ∷ b'R' ∷ b'1' ∷ 1 ∷ 1 ∷ 5 ∷ 6 ∷ 0 ∷ 0 ∷ 0 ∷ 7 ∷ 0 ∷ 0 ∷ 0 ∷ 3 ∷ b'a' ∷ b':' ∷ b'1'
    ∷ 9 ∷ []

read-open_input : read open_input ≡ ok (open_frame, 9 ∷ [])
unfolding read read_bytes bytes_eq validate_frame_metadata uint32 validate
read-open_input = refl

read_sound_example :
    (r : ℕ) × (s : ℕ) × (open_input ≡ padded open_frame r s ++ 9 ∷ [])
    × (validate open_frame ≡ ok tt)
read_sound_example = read_sound open_input open_frame (9 ∷ []) (ground arith) read-open_input

validate_iff_IsWellFormed_example :
    (validate open_frame ≡ ok tt)
    ↔ IsWellFormed open_frame.kind open_frame.stream_id (length open_frame.payload)
validate_iff_IsWellFormed_example = validate_iff_IsWellFormed open_frame

-- a writer that takes five bytes, then fails
abbrev failing : Writer
failing = record { script = (5, none) ∷ (2, some (IoError.failed 1)) ∷ []; sent = [] }

write-Delivers_example : Delivers (encoding open_frame) failing (write open_frame failing)
write-Delivers_example = write-Delivers open_frame failing

abbrev endpoint : List ℕ
endpoint = b'h' ∷ b':' ∷ b'5' ∷ []

abbrev datagram : List ℕ
datagram = 0 ∷ 3 ∷ b'h' ∷ b':' ∷ b'5' ∷ 42 ∷ []

datagram_encoded : encode_datagram endpoint (42 ∷ []) ≡ ok datagram
unfolding encode_datagram put_uint16
datagram_encoded = refl

datagram_decoded : decode_datagram datagram ≡ ok (endpoint, 42 ∷ [])
unfolding decode_datagram uint16
datagram_decoded = refl

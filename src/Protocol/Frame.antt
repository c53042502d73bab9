-- ===== src/Protocol/Frame.antt =====
-- internal/protocol/frame.go: frame types, the limits of the protocol, and the validation of a
-- frame's metadata. A frame type is a byte, known or not, so it stays a number here.
use wsl_win_relay.Base.{
  ℕ, ◌+◌, ◌*◌, ◌^◌, Bool, not, ◌&&◌, ◌||◌, List, Result, ◌>>◌, guard, IoError, leb, ltb, ◌==◌,
  length,
}

abbrev pub version : ℕ
version = 1

abbrev pub header_size : ℕ
header_size = 16

abbrev pub max_payload_size : ℕ
max_payload_size = 2 ^ 20

abbrev pub max_target_size : ℕ
max_target_size = 4096

abbrev pub max_error_size : ℕ
max_error_size = 4096

abbrev pub max_data_size : ℕ
max_data_size = 32 * 2 ^ 10

abbrev pub max_datagram_size : ℕ
max_datagram_size = 2 + max_target_size + 65535

abbrev pub initial_stream_window : ℕ
initial_stream_window = 256 * 2 ^ 10

abbrev pub type_open : ℕ
type_open = 1

abbrev pub type_open_ok : ℕ
type_open_ok = 2

abbrev pub type_open_error : ℕ
type_open_error = 3

abbrev pub type_data : ℕ
type_data = 4

abbrev pub type_half_close : ℕ
type_half_close = 5

abbrev pub type_close : ℕ
type_close = 6

abbrev pub type_reset : ℕ
type_reset = 7

abbrev pub type_listen_open : ℕ
type_listen_open = 8

abbrev pub type_listen_ok : ℕ
type_listen_ok = 9

abbrev pub type_listen_error : ℕ
type_listen_error = 10

abbrev pub type_inbound_open : ℕ
type_inbound_open = 11

abbrev pub type_listen_close : ℕ
type_listen_close = 12

abbrev pub type_listen_commit : ℕ
type_listen_commit = 13

abbrev pub type_datagram_open : ℕ
type_datagram_open = 14

abbrev pub type_datagram_ok : ℕ
type_datagram_ok = 15

abbrev pub type_datagram_error : ℕ
type_datagram_error = 16

abbrev pub type_datagram_data : ℕ
type_datagram_data = 17

abbrev pub type_datagram_close : ℕ
type_datagram_close = 18

abbrev pub type_window_update : ℕ
type_window_update = 19

abbrev pub type_hello : ℕ
type_hello = 20

abbrev pub type_hello_ok : ℕ
type_hello_ok = 21

abbrev pub type_listen_datagram_open : ℕ
type_listen_datagram_open = 22

abbrev pub type_listen_datagram_ok : ℕ
type_listen_datagram_ok = 23

abbrev pub type_listen_datagram_error : ℕ
type_listen_datagram_error = 24

abbrev pub type_listen_datagram_data : ℕ
type_listen_datagram_data = 25

abbrev pub type_listen_datagram_close : ℕ
type_listen_datagram_close = 26

pub record Frame : Type 0 where
  pub kind : ℕ
  pub stream_id : ℕ
  pub payload : List ℕ

-- The errors of the package, one for each message.
pub data Error : Type 0 where
  zero_stream hello_stream payload_too_large bound_address_too_long error_too_long : Error
  unknown_type must_be_empty : ℕ → Error
  bad_open_target bad_listen_address bad_datagram_listen_address bad_inbound_open : Error
  bad_datagram_data bad_reverse_datagram_data bad_stream_data bad_window_update : Error
  bad_hello bad_hello_ok : Error
  bad_magic : Error
  unsupported_version : ℕ → Error
  io : IoError → Error
  bad_endpoint_length datagram_too_large : Error
  truncated_datagram oversized_datagram bad_datagram_endpoint : Error

unfoldable pub known_type : ℕ → Bool
known_type t = leb type_open t && leb t type_listen_datagram_close

unfoldable pub is_error_type : ℕ → Bool
is_error_type kind =
    kind == type_open_error
    || kind == type_reset
    || kind == type_listen_error
    || kind == type_datagram_error
    || kind == type_listen_datagram_error

-- the long disjunction of line 79
unfoldable pub is_empty_type : ℕ → Bool
is_empty_type kind =
    kind == type_open_ok
    || kind == type_half_close
    || kind == type_close
    || kind == type_listen_close
    || kind == type_listen_commit
    || kind == type_datagram_open
    || kind == type_datagram_ok
    || kind == type_datagram_close
    || kind == type_listen_datagram_close

-- the conditions of lines 67 to 87, which hold for several types
unfoldable pub validate_common : ℕ → ℕ → ℕ → Result Error (Unit {0})
unfolding known_type is_error_type is_empty_type
validate_common kind stream_id size = do
  guard (stream_id == 0 && not (kind == type_hello) && not (kind == type_hello_ok)) zero_stream
  guard ((kind == type_hello || kind == type_hello_ok) && not (stream_id == 0)) hello_stream
  guard (not (known_type kind)) (unknown_type kind)
  guard (ltb max_payload_size size) payload_too_large
  guard (is_empty_type kind && not (size == 0)) (must_be_empty kind)
  guard ((kind == type_listen_ok || kind == type_listen_datagram_ok) && ltb max_target_size size)
      bound_address_too_long
  guard (is_error_type kind && ltb max_error_size size) error_too_long

-- the conditions of lines 88 to 117, each about one type
unfoldable pub validate_sized : ℕ → ℕ → Result Error (Unit {0})
validate_sized kind size = do
  guard (kind == type_open && (size == 0 || ltb max_target_size size)) bad_open_target
  guard (kind == type_listen_open && (size == 0 || ltb max_target_size size)) bad_listen_address
  guard (kind == type_listen_datagram_open && (size == 0 || ltb max_target_size size))
      bad_datagram_listen_address
  guard (kind == type_inbound_open && not (size == 4)) bad_inbound_open
  guard (kind == type_datagram_data && (ltb size 3 || ltb max_datagram_size size)) bad_datagram_data
  guard (kind == type_listen_datagram_data && (ltb size 3 || ltb max_datagram_size size))
      bad_reverse_datagram_data
  guard (kind == type_data && (size == 0 || ltb max_data_size size)) bad_stream_data
  guard (kind == type_window_update && not (size == 4)) bad_window_update
  guard (kind == type_hello && not (size == 8)) bad_hello
  guard (kind == type_hello_ok && not (size == 8) && not (size == 16)) bad_hello_ok

unfoldable pub validate_frame_metadata : ℕ → ℕ → ℕ → Result Error (Unit {0})
unfolding validate_common validate_sized
validate_frame_metadata kind stream_id size = do
  validate_common kind stream_id size
  validate_sized kind size

unfoldable pub validate : Frame → Result Error (Unit {0})
unfolding validate_frame_metadata
validate f = validate_frame_metadata f.kind f.stream_id (length f.payload)

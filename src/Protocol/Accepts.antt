-- ===== src/Protocol/Accepts.antt =====
-- Which frames validation accepts: an independent table of the sizes that each type allows.
use wsl_win_relay.Base.{ℕ, ◌≤◌, ◌≡◌, ◌⊎◌, ◌↔◌, ◌||◌, ok, arith, ◌==◌, if◌then◌else◌, length}
use wsl_win_relay.Protocol.Frame.{
  Frame, validate, validate_common, validate_sized, validate_frame_metadata, max_target_size,
  max_error_size, max_data_size, max_datagram_size, type_open, type_open_error, type_data,
  type_reset, type_listen_open, type_listen_ok, type_listen_error, type_inbound_open,
  type_datagram_error, type_datagram_data, type_window_update, type_hello, type_hello_ok,
  type_listen_datagram_open, type_listen_datagram_ok, type_listen_datagram_error,
  type_listen_datagram_data, type_listen_datagram_close,
}

-- The fewest payload bytes that a frame of a known type may have.
unfoldable pub min_size : ℕ → ℕ
min_size k =
    if k == type_open || k == type_data || k == type_listen_open || k == type_listen_datagram_open
    then 1
    else if k == type_datagram_data || k == type_listen_datagram_data
    then 3
    else if k == type_inbound_open || k == type_window_update
    then 4
    else if k == type_hello || k == type_hello_ok
    then 8
    else 0

-- The most; a type that is not named here carries nothing.
unfoldable pub max_size : ℕ → ℕ
max_size k =
    if k == type_open
      || k == type_listen_open
      || k == type_listen_datagram_open
      || k == type_listen_ok
      || k == type_listen_datagram_ok
    then max_target_size
    else if k == type_open_error
        || k == type_reset
        || k == type_listen_error
        || k == type_datagram_error
        || k == type_listen_datagram_error
    then max_error_size
    else if k == type_data
    then max_data_size
    else if k == type_datagram_data || k == type_listen_datagram_data
    then max_datagram_size
    else if k == type_inbound_open || k == type_window_update
    then 4
    else if k == type_hello
    then 8
    else if k == type_hello_ok
    then 16
    else 0

-- What a frame must satisfy: a known type, stream 0 for the two hello types and for no other, and
-- a size in the range of its type; the response to a hello has one of its two sizes.
pub record IsWellFormed (kind stream_id size : ℕ) : Type 0 where
  pub known : (1 ≤ kind) × (kind ≤ type_listen_datagram_close)
  pub on_stream : (stream_id == 0) ≡ (kind == type_hello || kind == type_hello_ok)
  pub at_least : min_size kind ≤ size
  pub at_most : size ≤ max_size kind
  pub two_sizes : kind ≡ type_hello_ok → (size ≡ 8) ⊎ (size ≡ 16)

common-IsWellFormed :
    (kind stream_id size : ℕ)
    → IsWellFormed kind stream_id size
    → validate_common kind stream_id size ≡ ok tt
unfolding validate_common min_size max_size
common-IsWellFormed kind stream_id size w = ground arith

sized-IsWellFormed :
    (kind stream_id size : ℕ) → IsWellFormed kind stream_id size → validate_sized kind size ≡ ok tt
unfolding validate_sized min_size max_size
sized-IsWellFormed kind stream_id size w = ground arith

IsWellFormed-validate :
    (kind stream_id size : ℕ)
    → validate_frame_metadata kind stream_id size ≡ ok tt
    → IsWellFormed kind stream_id size
unfolding validate_frame_metadata min_size max_size
IsWellFormed-validate kind stream_id size h = record {
  known = ground arith;
  on_stream = ground arith;
  at_least = ground arith;
  at_most = ground arith;
  two_sizes = λ e. ground arith;
}

metadata-IsWellFormed :
    (kind stream_id size : ℕ)
    → IsWellFormed kind stream_id size
    → validate_frame_metadata kind stream_id size ≡ ok tt
unfolding validate_frame_metadata
metadata-IsWellFormed kind stream_id size w =
    ground
      (arith, common-IsWellFormed kind stream_id size w, sized-IsWellFormed kind stream_id size w)

-- Validation accepts a frame exactly when its type is known, its stream is zero just for the two
-- hello types, and its payload has a size that the table allows for its type.
pub validate_iff_IsWellFormed :
    (f : Frame) → (validate f ≡ ok tt) ↔ IsWellFormed f.kind f.stream_id (length f.payload)
unfolding validate
validate_iff_IsWellFormed f = (IsWellFormed-validate _ _ _, metadata-IsWellFormed _ _ _)

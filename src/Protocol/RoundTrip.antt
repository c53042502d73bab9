-- ===== src/Protocol/RoundTrip.antt =====
-- Read gives back the frame that Write sent, and accepts nothing else.
use wsl_win_relay.Base.{
  ℕ, ◌≤◌, ◌≡◌, refl, List, [], ◌++◌, ok, read_full-append, accepting, arith, length, put_uint32,
  uint32-put, bytes_eq, IsU32,
}
use wsl_win_relay.Protocol.Frame.{Frame, validate, validate_frame_metadata, max_payload_size}
use wsl_win_relay.Protocol.Write.{encode_header, write, encoding}
use wsl_win_relay.Protocol.Delivery.{write-accepting}
use wsl_win_relay.Protocol.Read.{read_bytes, read}

read_bytes-append : (part rest : List ℕ) → read_bytes (length part) (part ++ rest) ≡ ok (part, rest)
unfolding read_bytes
read_bytes-append part rest = rw (read_full-append part rest, read_bytes)

valid_metadata :
    (f : Frame)
    → validate f ≡ ok tt
    → validate_frame_metadata f.kind f.stream_id (length f.payload) ≡ ok tt
unfolding validate
valid_metadata f h = h

pub length-payload_le : (f : Frame) → validate f ≡ ok tt → length f.payload ≤ max_payload_size
unfolding validate
length-payload_le f h = ground arith

read-encoding :
    (f : Frame) (rest : List ℕ)
    → IsU32 f.stream_id
    → validate f ≡ ok tt
    → read (encoding f ++ rest) ≡ ok (f, rest)
unfolding encode_header put_uint32 bytes_eq read
read-encoding f rest small valid = rw (
  read_bytes-append (encode_header f) (f.payload ++ rest),
  read,
  uint32-put f.stream_id [] small,
  uint32-put (length f.payload) [] (omega (arith, length-payload_le f valid)),
  valid_metadata f valid,
  read_bytes-append f.payload rest,
  valid,
)

-- A valid frame that is written to a writer which accepts everything, with any bytes behind it, is
-- read back as the same frame, and the bytes behind it are left for the next call.
pub read-write :
    (f : Frame) (rest : List ℕ)
    → IsU32 f.stream_id
    → validate f ≡ ok tt
    → (write f (accepting [])).0 ≡ ok tt
      × (read ((write f (accepting [])).1.sent ++ rest) ≡ ok (f, rest))
read-write f rest small valid =
    rw (write-accepting f [] valid) (refl, read-encoding f rest small valid)

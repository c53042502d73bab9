-- ===== src/Protocol/PayloadRoundTrip.antt =====
-- The structured payloads are read back as they were written, and fit the frames that carry them.
use wsl_win_relay.Base.{
  ℕ, suc, length-take_le, ◌+◌, ◌≤◌, ◌<◌, ◌≡◌, refl, List, [], ◌∷◌, ◌++◌, ok, arith, put_uint16,
  put_uint32, put_uint64, uint16, uint16-put, uint32-put, uint64-put, put-uint16, IsByte, IsU32,
  IsU64, All, length, length-append, drop, take-append_length, drop-append_length, take-append-drop,
}
use wsl_win_relay.Protocol.Frame.{
  validate, type_window_update, type_datagram_data, type_listen_datagram_data, type_hello,
  type_hello_ok,
}
use wsl_win_relay.Protocol.Payload.{
  encode_window_update, decode_window_update, encode_datagram, decode_datagram, encode_capabilities,
  decode_capabilities, encode_hello_ok, decode_hello_ok,
}

-- A window update and a set of capabilities are read back, and fit their frames on any stream.
pub decode-encode_words :
    (count capabilities id : ℕ)
    → IsU32 count
    → IsU64 capabilities
    → 0 < id
    → (decode_window_update (encode_window_update count) ≡ count)
      × (decode_capabilities (encode_capabilities capabilities) ≡ capabilities)
      × (validate (record {
        kind = type_window_update;
        stream_id = id;
        payload = encode_window_update count;
      })
          ≡ ok tt)
      × (validate (record {
        kind = type_hello;
        stream_id = 0;
        payload = encode_capabilities capabilities;
      })
          ≡ ok tt)
unfolding decode_window_update encode_window_update decode_capabilities encode_capabilities
    put_uint32 put_uint64 validate
decode-encode_words count capabilities id h k pos =
    (uint32-put count [] h, uint64-put capabilities [] k, ground arith, refl)

-- The answer to a hello is read back with the identity of the broker, also where that is zero and
-- the short form is sent, and it fits its frame.
pub decode-encode_hello_ok :
    (capabilities instance_id : ℕ)
    → IsU64 capabilities
    → IsU64 instance_id
    → (decode_hello_ok (encode_hello_ok capabilities instance_id) ≡ ok (capabilities, instance_id))
      × (validate (record {
        kind = type_hello_ok;
        stream_id = 0;
        payload = encode_hello_ok capabilities instance_id;
      })
          ≡ ok tt)
unfolding decode_hello_ok encode_hello_ok encode_capabilities put_uint64 validate
decode-encode_hello_ok capabilities instance_id h k = (
  ground (
    arith,
    uint64-put capabilities [] h,
    uint64-put capabilities (put_uint64 instance_id) h,
    uint64-put instance_id [] k,
  ),
  ground arith,
)

drop_two : (a b n : ℕ) (xs : List ℕ) → drop (2 + n) (a ∷ b ∷ xs) ≡ drop n xs
drop_two a b n xs = let e : 2 + n ≡ suc (suc n) = omega arith in rw e

-- What Encode accepts, and the bytes that it makes.
encode_datagram_sound :
    (endpoint content payload : List ℕ)
    → encode_datagram endpoint content ≡ ok payload
    → (0 < length endpoint)
      × (length endpoint ≤ 4096)
      × (length endpoint + 2 + length content ≤ 69633)
      × (payload ≡ put_uint16 (length endpoint) ++ (endpoint ++ content))
unfolding encode_datagram
encode_datagram_sound endpoint content payload h = ground arith

decode_parts :
    (a b : ℕ) (endpoint content : List ℕ)
    → uint16 (a ∷ b ∷ []) ≡ length endpoint
    → 0 < length endpoint
    → length endpoint ≤ 4096
    → length endpoint + 2 + length content ≤ 69633
    → decode_datagram (a ∷ b ∷ (endpoint ++ content)) ≡ ok (endpoint, content)
unfolding decode_datagram
decode_parts a b endpoint content size pos small fits =
    rw (size, decode_datagram, drop_two, take-append_length, drop-append_length)
      (ground (arith, length-append endpoint content))

-- A datagram that could be encoded is decoded to the same endpoint and content, and fits both frame
-- types that carry datagrams, on any stream.
pub decode-encode_datagram :
    (endpoint content payload : List ℕ) (id : ℕ)
    → 0 < id
    → encode_datagram endpoint content ≡ ok payload
    → (decode_datagram payload ≡ ok (endpoint, content))
      × (validate (record { kind = type_datagram_data; stream_id = id; payload = payload }) ≡ ok tt)
      × (validate (record { kind = type_listen_datagram_data; stream_id = id; payload = payload })
          ≡ ok tt)
unfolding validate put_uint16
decode-encode_datagram endpoint content payload id pos h =
    let (some_endpoint, small, fits, e) = encode_datagram_sound endpoint content payload h in
    rw e (
      decode_parts _ _ endpoint content (uint16-put (length endpoint) [] (omega arith))
          some_endpoint small fits,
      ground (arith, length-append endpoint content),
      ground (arith, length-append endpoint content),
    )

decode_datagram_sound :
    (a b : ℕ) (more endpoint content : List ℕ)
    → decode_datagram (a ∷ b ∷ more) ≡ ok (endpoint, content)
    → (more ≡ endpoint ++ content)
      × (length endpoint ≡ uint16 (a ∷ b ∷ []))
      × (0 < length endpoint)
      × (length endpoint ≤ 4096)
      × (length more + 2 ≤ 69633)
unfolding decode_datagram
decode_datagram_sound a b more endpoint content h = ground (
  arith,
  drop_two a b (uint16 (a ∷ b ∷ [])) more,
  take-append-drop (uint16 (a ∷ b ∷ [])) more,
  length-take_le (uint16 (a ∷ b ∷ [])) more,
)

-- A payload of bytes that is decoded is the only one that encodes what it was decoded to.
pub encode-decode_datagram :
    (payload endpoint content : List ℕ)
    → All IsByte payload
    → decode_datagram payload ≡ ok (endpoint, content)
    → encode_datagram endpoint content ≡ ok payload
unfolding encode_datagram
encode-decode_datagram (a ∷ b ∷ more) endpoint content bytes h =
    let (cut, size, pos, small, fits) = decode_datagram_sound a b more endpoint content h in
    ground (arith, put-uint16 a b [] bytes.0 bytes.1.0, length-append endpoint content)
encode-decode_datagram payload endpoint content bytes h = unfold decode_datagram in ground arith

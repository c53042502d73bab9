-- ===== src/Attach/PayloadRoundTrip.antt =====
-- The payloads of HELLO, ATTACH and ATTACH_OK are read back as they were written.
use wsl_win_relay.Base.{
  ℕ, ◌≤◌, ◌<◌, ◌≡◌, refl, List, [], ◌∷◌, ◌++◌, ok, arith, put_uint16, put_uint64, uint16, uint64,
  uint16-put, uint64-put, IsU64, length, length-append, take-append_length, drop-append_length,
}
use wsl_win_relay.Attach.Payload.{
  encode_attach, decode_attach, encode_attach_ok, encode_attach_ok_with_instance,
  decode_attach_ok_with_instance, decode_attach_ok,
}

encode_attach_sound :
    (token payload : List ℕ) (epoch : ℕ)
    → encode_attach token epoch ≡ ok payload
    → (0 < length token)
      × (length token ≤ 256)
      × (payload ≡ put_uint16 (length token) ++ (token ++ put_uint64 epoch))
unfolding encode_attach
encode_attach_sound token payload epoch h = ground arith

decode_attach_parts :
    (a b : ℕ) (token tail : List ℕ)
    → uint16 (a ∷ b ∷ (token ++ tail)) ≡ length token
    → 0 < length token
    → length token ≤ 256
    → length tail ≡ 8
    → decode_attach (a ∷ b ∷ (token ++ tail)) ≡ ok (token, uint64 tail)
unfolding decode_attach
decode_attach_parts a b token tail size pos small eight =
    rw (size, decode_attach, take-append_length, drop-append_length)
      (ground (arith, length-append token tail))

-- A token that can be encoded is decoded with the epoch that it was sent with.
pub decode-encode_attach :
    (token payload : List ℕ) (epoch : ℕ)
    → IsU64 epoch
    → encode_attach token epoch ≡ ok payload
    → decode_attach payload ≡ ok (token, epoch)
unfolding put_uint16 uint64 put_uint64
decode-encode_attach token payload epoch word h =
    let (pos, small, e) = encode_attach_sound token payload epoch h in
    rw e (
      rw
        (decode_attach_parts _ _ token (put_uint64 epoch)
          (uint16-put (length token) (token ++ put_uint64 epoch) (omega arith)) pos small refl)
        (rw (uint64-put epoch [] word)))

-- The answer to an attach is read back; without an identity the old form of 16 bytes is read with
-- identity zero, and a reader that knows only the old form reads the new one too.
pub decode-encode_attach_ok :
    (epoch capabilities instance_id : ℕ)
    → IsU64 epoch
    → IsU64 capabilities
    → IsU64 instance_id
    → (decode_attach_ok_with_instance
          (encode_attach_ok_with_instance epoch capabilities instance_id)
        ≡ ok (epoch, capabilities, instance_id))
      × (decode_attach_ok_with_instance (encode_attach_ok epoch capabilities)
          ≡ ok (epoch, capabilities, 0))
      × (decode_attach_ok (encode_attach_ok_with_instance epoch capabilities instance_id)
          ≡ ok (epoch, capabilities))
unfolding decode_attach_ok_with_instance encode_attach_ok_with_instance encode_attach_ok put_uint64
decode-encode_attach_ok epoch capabilities instance_id he hc hi =
    let e = uint64-put epoch in
    let c = uint64-put capabilities in
    (
      ground (
        arith,
        e (put_uint64 capabilities ++ put_uint64 instance_id) he,
        c (put_uint64 instance_id) hc,
        uint64-put instance_id [] hi,
      ),
      ground (arith, e (put_uint64 capabilities) he, c [] hc),
      ground (
        arith,
        e (put_uint64 capabilities ++ put_uint64 instance_id) he,
        c (put_uint64 instance_id) hc,
      ),
    )

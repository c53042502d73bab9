-- ===== src/Attach/Message/RoundTrip.antt =====
-- A message is read back as it was written, and a writer that fails gets a front part of it.
use wsl_win_relay.Base.{
  ℕ, ltb, false, IoError, ◌≤◌, ◌≡◌, refl, List, [], ◌++◌, append_assoc, ok, Writer, accepting,
  arith, read_full-append, length, put_uint32, uint32-put, bytes_eq,
}
use wsl_win_relay.Base.Action.{lift}
use wsl_win_relay.Base.Writing.{
  checked-IsProgress, IsProgress, Delivers, Delivers-then, Delivers-lift, write_loop-Delivers,
  write_loop-accepting,
}
use wsl_win_relay.Attach.Payload.{io}
use wsl_win_relay.Attach.Message.{
  Message, validate, progress, write_full, encode_header, write, encoding, read_bytes, read,
}

progress-IsProgress : IsProgress progress
progress-IsProgress = checked-IsProgress io IoError.short_write

write_full-Delivers : (p : List ℕ) (w : Writer) → Delivers p w (write_full p w)
unfolding write_full
write_full-Delivers p w =
    write_loop-Delivers progress _ progress-IsProgress (length p) p w (omega arith)

write_full-accepting :
    (p sent : List ℕ) → write_full p (accepting sent) ≡ (ok tt, accepting (sent ++ p))
unfolding write_full
write_full-accepting p sent =
    write_loop-accepting progress _ progress-IsProgress (length p) p sent (omega arith)

-- Whatever the writer answers, it has received a front part of the message's encoding when Write
-- returns, and the whole of it when Write reports success.
pub message_write-Delivers : (m : Message) (w : Writer) → Delivers (encoding m) w (write m w)
unfolding write
message_write-Delivers m =
    Delivers-then [] (encoding m) _ (lift (validate m)) (Delivers-lift (validate m)) (
      Delivers-then (encode_header m) m.payload (write_full m.payload)
        (write_full (encode_header m)) (write_full-Delivers (encode_header m))
        (write_full-Delivers m.payload))

pub write-accepting :
    (m : Message) (sent : List ℕ)
    → validate m ≡ ok tt
    → write m (accepting sent) ≡ (ok tt, accepting (sent ++ encoding m))
unfolding write
write-accepting m sent valid = rw (
  valid,
  write,
  write_full-accepting,
  write_full-accepting,
  append_assoc sent (encode_header m) m.payload,
)

read_bytes-append : (part rest : List ℕ) → read_bytes (length part) (part ++ rest) ≡ ok (part, rest)
unfolding read_bytes
read_bytes-append part rest = rw (read_full-append part rest, read_bytes)

length-payload_le : (m : Message) → validate m ≡ ok tt → length m.payload ≤ 65536
unfolding validate
length-payload_le m h = ground arith

not_over : {n : ℕ} → n ≤ 65536 → ltb 65536 n ≡ false
not_over h = ground arith

pub read-encoding :
    (m : Message) (rest : List ℕ) → validate m ≡ ok tt → read (encoding m ++ rest) ≡ ok (m, rest)
unfolding encode_header put_uint32 bytes_eq read
read-encoding m rest valid =
    let small = length-payload_le m valid in
    rw (
      read_bytes-append (encode_header m) (m.payload ++ rest),
      read,
      uint32-put (length m.payload) [] (omega arith),
      not_over small,
      read_bytes-append m.payload rest,
      valid,
    )

-- A valid message that is written to a writer which accepts everything, with any bytes behind it,
-- is read back as the same message, and the bytes behind it are left for the next call.
pub message_read-write :
    (m : Message) (rest : List ℕ)
    → validate m ≡ ok tt
    → ((write m (accepting [])).0 ≡ ok tt)
      × (read ((write m (accepting [])).1.sent ++ rest) ≡ ok (m, rest))
message_read-write m rest valid = rw (write-accepting m [] valid) (refl, read-encoding m rest valid)

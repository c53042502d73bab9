-- ===== src/Protocol/Delivery.antt =====
-- What Write delivers, whatever its writer answers.
use wsl_win_relay.Base.{
  ◌+◌, ℕ, ◌≡◌, refl, List, [], ◌++◌, append_assoc, ok, IoError, Writer, accepting, arith, length,
}
use wsl_win_relay.Base.Action.{lift}
use wsl_win_relay.Base.Writing.{
  checked-IsProgress, IsProgress, Delivers, Delivers-then, Delivers-lift, write_loop-Delivers,
  write_loop, write_loop-fuel, write_loop-accepting,
}
use wsl_win_relay.Protocol.Frame.{io, Error, Frame, validate}
use wsl_win_relay.Protocol.Write.{progress, write_full, encode_header, write, encoding}

progress-IsProgress : IsProgress progress
progress-IsProgress = checked-IsProgress io IoError.panic

write_full-Delivers : (p : List ℕ) (w : Writer) → Delivers p w (write_full p w)
unfolding write_full
write_full-Delivers p w =
    write_loop-Delivers progress _ progress-IsProgress (length p) p w (omega arith)

-- The loop of writeFull always ends: as many rounds as there are bytes are enough, since with more
-- rounds, and any error in place of the one for a lack of rounds, it answers the same.
pub write_full_ends :
    (p : List ℕ) (w : Writer) (more : ℕ) (stuck : Error)
    → write_full p w ≡ write_loop progress stuck (length p + more) p w
unfolding write_full
write_full_ends p w more stuck =
    write_loop-fuel progress _ stuck progress-IsProgress (length p) (length p + more) p w
      (omega arith) (omega arith)

pub write_full-accepting :
    (p sent : List ℕ) → write_full p (accepting sent) ≡ (ok tt, accepting (sent ++ p))
unfolding write_full
write_full-accepting p sent =
    write_loop-accepting progress _ progress-IsProgress (length p) p sent (omega arith)

-- Whatever the writer answers, it has received a front part of the frame's encoding when Write
-- returns, and the whole of it when Write reports success.
pub write-Delivers : (f : Frame) (w : Writer) → Delivers (encoding f) w (write f w)
unfolding write
write-Delivers f =
    Delivers-then [] (encoding f) _ (lift (validate f)) (Delivers-lift (validate f)) (
      Delivers-then (encode_header f) f.payload (write_full f.payload)
        (write_full (encode_header f)) (write_full-Delivers (encode_header f))
        (write_full-Delivers f.payload))

-- On a writer that accepts everything a valid frame is sent whole, behind what was sent before.
pub write-accepting :
    (f : Frame) (sent : List ℕ)
    → validate f ≡ ok tt
    → write f (accepting sent) ≡ (ok tt, accepting (sent ++ encoding f))
unfolding write
write-accepting f sent valid =
    rw (valid, write, write_full-accepting, write_full-accepting, append_assoc) refl

-- ===== src/Protocol/Write.antt =====
-- internal/protocol/frame.go: Write and writeFull.
use wsl_win_relay.Base.{ℕ, List, [], ◌∷◌, ◌++◌, Option, Result, IoError, Writer, put_uint32, length}
use wsl_win_relay.Base.Action.{Action, lift, ◌>>◌}
use wsl_win_relay.Base.Writing.{checked, write_loop}
use wsl_win_relay.Protocol.Frame.{Frame, Error, io, version, validate}

-- "WWR1"
abbrev pub magic : List ℕ
magic = b'W' ∷ b'W' ∷ b'R' ∷ b'1' ∷ []

-- What a call of Write answers, once `p` is not empty: an error first, then no progress, then the
-- slice `p[n:]`, which panics past the end of `p`.
abbrev pub progress : List ℕ → ℕ × Option IoError → Result Error (List ℕ)
progress = checked io IoError.panic

-- writeFull
unfoldable pub write_full : List ℕ → Action Writer Error (Unit {0})
unfolding write_loop
write_full p = write_loop progress (io IoError.panic) (length p) p

-- The 16 bytes that Write fills in; the two after the type stay zero.
unfoldable pub encode_header : Frame → List ℕ
encode_header f =
    magic ++ (version ∷ f.kind ∷ 0 ∷ 0 ∷ (put_uint32 f.stream_id ++ put_uint32 (length f.payload)))

unfoldable pub write : Frame → Action Writer Error (Unit {0})
unfolding encode_header
write f = do lift (validate f); write_full (encode_header f); write_full f.payload

-- the bytes of a frame on the wire
abbrev pub encoding : Frame → List ℕ
encoding f = encode_header f ++ f.payload

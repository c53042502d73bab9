-- ===== src/Protocol/Read.antt =====
-- internal/protocol/frame.go: Read.
use wsl_win_relay.Base.{
  ℕ, not, List, Result, ok, err, ◌>>=◌, ◌>>◌, guard, read_full, uint32, bytes_eq, ◌==◌, drop, take,
  get_or,
}
use wsl_win_relay.Protocol.Frame.{
  Frame, Error, io, bad_magic, unsupported_version, version, header_size, validate,
  validate_frame_metadata,
}
use wsl_win_relay.Protocol.Write.{magic}

-- io.ReadFull, its error passed on
unfoldable pub read_bytes : ℕ → List ℕ → Result Error (List ℕ × List ℕ)
unfolding read_full
read_bytes n input = elim (read_full n input) [ ok r ↦ ok r | err e ↦ err (io e) ]

-- Read behind its first ReadFull: the header is checked before the payload is read.
unfoldable pub read_behind : List ℕ → List ℕ → Result Error (Frame × List ℕ)
read_behind header rest = do
  guard (not (bytes_eq (take 4 header) magic)) bad_magic
  guard (not (get_or header 4 0 == version)) (unsupported_version (get_or header 4 0))
  let kind = get_or header 5 0
  let stream_id = uint32 (take 4 (drop 8 header))
  let size = uint32 (take 4 (drop 12 header))
  validate_frame_metadata kind stream_id size
  (payload, rest') ← read_bytes size rest
  let f : Frame = record { kind = kind; stream_id = stream_id; payload = payload }
  validate f
  ok (f, rest')

-- The frame, and the input that is left behind it. After an error the caller gives the reader up.
unfoldable pub read : List ℕ → Result Error (Frame × List ℕ)
unfolding read_behind
read input = do (header, rest) ← read_bytes header_size input; read_behind header rest

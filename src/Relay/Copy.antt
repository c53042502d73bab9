-- ===== src/Relay/Copy.antt =====
-- copyToClient of internal/relay/server.go: what is read from a remote socket is sent to the client
-- as DATA frames. Here take has neither a deadline nor a channel for changes of one.
use wsl_win_relay.Base.{ℕ, Bool, true, false, List, [], ◌∷◌, length}
use wsl_win_relay.Relay.Window.{Taken, taken}
use wsl_win_relay.Relay.Window.{take as take_window}
use wsl_win_relay.Relay.Sender.{Sending, send_data}

-- One call of conn.Read: the bytes, whether it returned an error, and whether the stream was still
-- registered when the bytes were there.
pub record NetRead : Type 0 where
  pub content : List ℕ
  pub ended : Bool
  pub registered : Bool

-- `reading` is no return: the reads are used up.
pub data CopyEnd : Type 0 where
  reading unregistered send_failed half_closed : CopyEnd
  no_credit : Taken → CopyEnd

abbrev pub CopyRound : Type 0
CopyRound = Sending → CopyEnd × Sending

-- behind the bytes: an error of the read ends the direction
abbrev pub after_bytes : CopyRound → Bool → Sending → CopyEnd × Sending
after_bytes next true s = (half_closed, s)
after_bytes next false s = next s

abbrev pub after_data : CopyRound → Bool → Bool × Sending → CopyEnd × Sending
after_data next ended (true, s) = (send_failed, s)
after_data next ended (false, s) = after_bytes next ended s

-- The count that take returns is dropped: all of the bytes are sent.
abbrev pub after_credit : CopyRound → NetRead → Taken × Sending → CopyEnd × Sending
after_credit next r (taken n, s) = after_data next r.ended (send_data r.content s)
after_credit next r (refused, s) = (no_credit refused, s)

unfoldable pub take_all : ℕ → Sending → Taken × Sending
take_all n s =
    let (r, w, events) = take_window n false s.events s.window in
    (r, record s { window = w; events = events })

abbrev pub copy_bytes : CopyRound → NetRead → List ℕ → Bool → Sending → CopyEnd × Sending
copy_bytes next r [] registered s = after_bytes next r.ended s
copy_bytes next r (b ∷ bs) false s = (unregistered, s)
copy_bytes next r (b ∷ bs) true s = after_credit next r (take_all (length (b ∷ bs)) s)

unfoldable pub copy_to_client : List NetRead → Sending → CopyEnd × Sending
unfolding take_all send_data
copy_to_client [] s = (reading, s)
copy_to_client (r ∷ reads) s = copy_bytes (copy_to_client reads) r r.content r.registered s

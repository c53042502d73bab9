-- ===== src/Relay/Sender.antt =====
-- Sending stream data: clientStream.Write of internal/relay/client.go, and copyToClient of
-- internal/relay/server.go. `events` are what happens while the code waits for credit, and `link`
-- says of each frame that is written whether the write fails; a link that is used up works.
pub mod Chunks
pub mod Fuel
use wsl_win_relay.Base.{
  ℕ, zero, suc, ◌+◌, Bool, true, false, not, List, [], ◌∷◌, ◌++◌, min, length, take, drop,
}
use wsl_win_relay.Protocol.Frame.{max_data_size}
use wsl_win_relay.Relay.Window.{
  FlowWindow, WaitEvent, Taken, taken, closed_pipe, deadline_moved, timed_out, blocked,
}
use wsl_win_relay.Relay.Window.{take as take_window}

pub record Sending : Type 0 where
  pub window : FlowWindow
  pub events : List WaitEvent
  pub timed : Bool
  pub link : List Bool
  pub frames : List (List ℕ)

-- One DATA frame: whether the write failed, and the state behind it.
unfoldable pub send_data : List ℕ → Sending → Bool × Sending
send_data chunk s = elim s.link [
  | [] ↦ (false, record s { frames = s.frames ++ chunk ∷ [] })
  | true ∷ link ↦ (true, record s { link = link })
  | false ∷ link ↦ (false, record s { link = link; frames = s.frames ++ chunk ∷ [] })
]

-- How Write ends; `stopped` carries what take answered, `waiting` among it.
pub data Ending : Type 0 where
  finished link_failed out_of_fuel : Ending
  stopped : Taken → Ending

-- what take answers at the top of a round, with the state behind it
unfoldable pub take_chunk : List ℕ → Sending → Taken × Sending
take_chunk p s =
    let (r, w, events) = take_window (min (length p) max_data_size) s.timed s.events s.window in
    (r, record s { window = w; events = events })

abbrev pub Round : Type 0
Round = List ℕ → ℕ → Sending → Ending × ℕ × Sending

-- The rest of a round of Write, `next` being the rounds that follow: behind the frame, and behind
-- take.
abbrev pub after_send : Round → ℕ → List ℕ → ℕ → Bool × Sending → Ending × ℕ × Sending
after_send next n p written (true, s) = (link_failed, written, s)
after_send next n p written (false, s) = next (drop n p) (written + n) s

abbrev pub after_take : Round → List ℕ → ℕ → Taken × Sending → Ending × ℕ × Sending
after_take next p written (taken n, s) = after_send next n p written (send_data (take n p) s)
after_take next p written (deadline_moved, s) = next p written s
after_take next p written (closed_pipe, s) = (stopped closed_pipe, written, s)
after_take next p written (timed_out, s) = (stopped timed_out, written, s)
after_take next p written (blocked, s) = (stopped blocked, written, s)

-- The loop of Write over what is left of `p`.
pub write_loop : ℕ → Round
write_loop fuel [] written s = (finished, written, s)
write_loop zero (b ∷ bs) written s = (out_of_fuel, written, s)
write_loop (suc fuel) (b ∷ bs) written s =
    after_take (write_loop fuel) (b ∷ bs) written (take_chunk (b ∷ bs) s)

-- Each round takes a byte of `p` or an event, so this fuel is enough.
unfoldable pub write : List ℕ → Sending → Ending × ℕ × Sending
unfolding write_loop take_chunk send_data
write p s = write_loop (length p + length s.events) p 0 s

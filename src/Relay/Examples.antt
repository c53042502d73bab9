-- ===== src/Relay/Examples.antt =====
-- The theorems on flow control at concrete windows.
use wsl_win_relay.Base.{◌≡◌, ◌≢◌, ◌+◌, ◌≤◌, ◌++◌, refl, List, [], ◌∷◌, true, false, arith, All, ◌↔◌}
use wsl_win_relay.Protocol.Frame.{initial_stream_window}
use wsl_win_relay.Relay.Window.{
  FlowWindow, WaitEvent, update, wake, deadline_changed, new_flow_window, add, take, blocked,
}
use wsl_win_relay.Relay.Window.Laws.{Fair, take_credit, take-Fair}
use wsl_win_relay.Relay.Sender.{Sending, write, out_of_fuel}
use wsl_win_relay.Relay.Sender.Chunks.{Sends, write-Sends}
use wsl_win_relay.Relay.Sender.Fuel.{write_ends}
use wsl_win_relay.Relay.Copy.{NetRead, copy_to_client}
use wsl_win_relay.Relay.Credit.{
  sum, Flow, IsConserved, Reach, start, next, send, Reach-accepts, acknowledge, acknowledge_iff,
  IsPositive, copy_overdraws,
}

abbrev empty_window : FlowWindow
empty_window = record { available = 0; notified = false }

abbrev small_window : FlowWindow
small_window = record { available = 2; notified = false }

abbrev wakes : List WaitEvent
wakes = update 5 ∷ wake ∷ []

take-Fair_example :
    Fair 3 empty_window (take_credit 3 true wakes empty_window) (take 3 true wakes empty_window)
take-Fair_example = take-Fair 3 true wakes empty_window

still_waits : (take 3 false (update 5 ∷ []) empty_window).0 ≡ blocked
unfolding take
still_waits = refl

-- A stream whose second frame is refused by the link, after a wait.
abbrev stream : Sending
stream = record {
  window = small_window;
  events = deadline_changed ∷ wakes;
  timed = false;
  link = false ∷ true ∷ [];
  frames = [];
}

write-Sends_example : Sends (1 ∷ 2 ∷ 3 ∷ []) 0 stream (write (1 ∷ 2 ∷ 3 ∷ []) stream)
write-Sends_example = write-Sends (1 ∷ 2 ∷ 3 ∷ []) stream

write_ends_example : (write (1 ∷ 2 ∷ 3 ∷ []) stream).0 ≢ out_of_fuel
write_ends_example = write_ends (1 ∷ 2 ∷ 3 ∷ []) stream

-- three bytes sent on a new stream
abbrev sent_three : Flow
sent_three = record { window = (take 3 false [] new_flow_window).1; in_flight = 3 }

sent_three-Reach : Reach sent_three
unfolding take
sent_three-Reach = next start (send 3 false [] (omega arith))

Reach-accepts_example : IsConserved sent_three × ((add 2 sent_three.window).0 ≡ true)
Reach-accepts_example = Reach-accepts 2 sent_three-Reach (omega arith) (omega arith)

abbrev remote : Sending
remote = record { window = small_window; events = []; timed = false; link = []; frames = [] }

abbrev three_read : NetRead
three_read = record { content = 1 ∷ 2 ∷ 3 ∷ []; ended = false; registered = true }

-- With two bytes of credit left, three are sent; the second acknowledgement is refused.
copy_overdraws_example :
    let s' = (copy_to_client (three_read ∷ []) remote).1 in
    (s'.frames ≡ [] ++ (1 ∷ 2 ∷ 3 ∷ []) ∷ [])
    × (s'.window.available ≡ 0)
    × (acknowledge (262142 ∷ 3 ∷ []) s'.window ≡ false)
unfolding sum
copy_overdraws_example =
    copy_overdraws remote 1 (2 ∷ 3 ∷ []) false 262142 (262142 ∷ 3 ∷ []) refl (omega arith)
      (omega arith) (omega arith) (omega arith)

acknowledge_iff_example : (acknowledge (3 ∷ 2 ∷ []) empty_window ≡ true) ↔ (
    All IsPositive (3 ∷ 2 ∷ [])
    × (empty_window.available + sum (3 ∷ 2 ∷ []) ≤ initial_stream_window))
acknowledge_iff_example = acknowledge_iff (3 ∷ 2 ∷ []) empty_window (omega arith)

-- ===== src/Relay/Window.antt =====
-- internal/relay/window.go: the send window of one stream. `notified` says whether the channel
-- `notify`, which holds one token, is full.
pub mod Laws
pub mod Events
use wsl_win_relay.Base.{
  ℕ, zero, suc, ◌+◌, ◌-◌, Bool, true, false, List, [], ◌∷◌, min, ltb, ◌==◌, ◌||◌, if◌then◌else◌,
}
use wsl_win_relay.Protocol.Frame.{initial_stream_window}

pub record FlowWindow : Type 0 where
  pub available : ℕ
  pub notified : Bool

abbrev pub new_flow_window : FlowWindow
new_flow_window = record { available = initial_stream_window; notified = false }

unfoldable pub add : ℕ → FlowWindow → Bool × FlowWindow
add count w =
    if count == 0
    then (false, w)
    else if ltb initial_stream_window (w.available + count)
    then (false, w)
    else (true, record { available = w.available + count; notified = true })

-- What may happen while take waits: another goroutine adds credit, the select finds the token, the
-- stream ends, its deadline is changed, or the deadline passes.
pub data WaitEvent : Type 0 where
  update : ℕ → WaitEvent
  wake done deadline_changed timeout : WaitEvent

-- `blocked` is no return: the events are used up and take still waits.
pub data Taken : Type 0 where
  taken : ℕ → Taken
  closed_pipe deadline_moved timed_out blocked : Taken

-- The result, the window behind it, and the events that have not happened yet.
abbrev pub Waited : Type 0
Waited = Taken × FlowWindow × List WaitEvent

-- the branch `w.available > 0`
abbrev pub grab : ℕ → FlowWindow → List WaitEvent → Waited
grab most w events =
    let count = min most w.available in
    (taken count, record w { available = w.available - count }, events)

-- The select. A stream without a deadline has no timer, so that `timeout` is never picked; with
-- one, `timeout` is the timer or the test for a time that has passed. A `wake` goes round the loop.
pub wait : ℕ → Bool → List WaitEvent → FlowWindow → Waited
wait most timed [] w = (blocked, w, [])
wait most timed (update count ∷ events) w = wait most timed events (add count w).1
wait most timed (wake ∷ events) w = elim w.notified [
  | false ↦ wait most timed events w
  | true ↦ elim (ltb 0 w.available) [
    | true ↦ grab most (record w { notified = false }) events
    | false ↦ wait most timed events (record w { notified = false })
  ]
]
wait most timed (done ∷ events) w = (closed_pipe, w, events)
wait most timed (deadline_changed ∷ events) w = (deadline_moved, w, events)
wait most timed (timeout ∷ events) w = elim timed [
  | true ↦ (timed_out, w, events)
  | false ↦ wait most timed events w
]

unfoldable pub take : ℕ → Bool → List WaitEvent → FlowWindow → Waited
unfolding wait
take most timed events w = elim (ltb 0 w.available) [
  | true ↦ grab most w events
  | false ↦ wait most timed events w
]

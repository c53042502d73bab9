-- ===== src/Relay/Window/Events.antt =====
-- The events that a call of take uses up.
use wsl_win_relay.Base.{ℕ, ◌≤◌, ◌<◌, ◌≡◌, Bool, true, false, List, [], ◌∷◌, length, arith}
use wsl_win_relay.Relay.Window.{
  FlowWindow, WaitEvent, update, wake, done, deadline_changed, timeout, deadline_moved, Waited, add,
  wait, take,
}

-- No event happens twice, and the one that moves the deadline is used.
abbrev pub Uses : ℕ → Waited → Type 0
Uses n r = (length r.2 ≤ n) × (r.0 ≡ deadline_moved → length r.2 < n)

wait-Uses :
    (most : ℕ) (timed : Bool) (events : List WaitEvent) (w : FlowWindow)
    → Uses (length events) (wait most timed events w)
unfolding wait
wait-Uses most timed [] w = (omega arith, λ e. cc)
wait-Uses most timed (update count ∷ events) w =
    ground (arith, wait-Uses most timed events (add count w).1)
wait-Uses most timed (wake ∷ events) w = ground (
  arith,
  wait-Uses most timed events w,
  wait-Uses most timed events (record w { notified = false }),
)
wait-Uses most timed (done ∷ events) w = (omega arith, λ e. cc)
wait-Uses most timed (deadline_changed ∷ events) w = (omega arith, λ e. omega arith)
wait-Uses most true (timeout ∷ events) w = (omega arith, λ e. cc)
wait-Uses most false (timeout ∷ events) w = ground (arith, wait-Uses most false events w)

pub take-Uses :
    (most : ℕ) (timed : Bool) (events : List WaitEvent) (w : FlowWindow)
    → Uses (length events) (take most timed events w)
unfolding take
take-Uses most timed events w = ground (arith, wait-Uses most timed events w)

-- ===== src/Relay/Window/Laws.antt =====
-- Bounds, conservation of credit, and wake-ups of the flow window.
use wsl_win_relay.Base.{
  ℕ, ◌+◌, ◌≤◌, ◌<◌, ◌≡◌, ◌⊎◌, Bool, true, false, List, [], ◌∷◌, ltb, if◌then◌else◌, arith,
}
use wsl_win_relay.Protocol.Frame.{initial_stream_window}
use wsl_win_relay.Relay.Window.{
  FlowWindow, WaitEvent, update, wake, done, deadline_changed, timeout, Taken, taken, blocked,
  Waited, add, grab, wait, take,
}

abbrev pub IsBounded : FlowWindow → Type 0
IsBounded w = w.available ≤ initial_stream_window

-- The credit that the updates of a list of events add, as the window accepts them.
abbrev pub accepted : FlowWindow → ℕ → ℕ
accepted w count = if (add count w).0 then count else 0

-- the part of the events that was used
pub credit : ℕ → Bool → List WaitEvent → FlowWindow → ℕ
credit most timed [] w = 0
credit most timed (update count ∷ events) w =
    accepted w count + credit most timed events (add count w).1
credit most timed (wake ∷ events) w = elim w.notified [
  | false ↦ credit most timed events w
  | true ↦ elim (ltb 0 w.available) [
    | true ↦ 0
    | false ↦ credit most timed events (record w { notified = false })
  ]
]
credit most timed (done ∷ events) w = 0
credit most timed (deadline_changed ∷ events) w = 0
credit most timed (timeout ∷ events) w = elim timed [
  | true ↦ 0
  | false ↦ credit most timed events w
]

abbrev pub amount : Taken → ℕ
amount (taken n) = n
amount _ = 0

pub record Fair (most : ℕ) (w : FlowWindow) (added : ℕ) (r : Waited) : Type 0 where
  pub conserved : r.1.available + amount r.0 ≡ w.available + added
  pub at_most : amount r.0 ≤ most
  pub positive : 0 < most → (n : ℕ) → r.0 ≡ taken n → 0 < n
  pub bounded : IsBounded w → IsBounded r.1

available-add :
    (count : ℕ) (w : FlowWindow) → (add count w).1.available ≡ w.available + accepted w count
unfolding add
available-add count w = ground arith

pub add-IsBounded : (count : ℕ) (w : FlowWindow) → IsBounded w → IsBounded (add count w).1
unfolding add
add-IsBounded count w h = ground arith

Fair-update :
    (most count added : ℕ) (w : FlowWindow) (r : Waited)
    → Fair most (add count w).1 added r
    → Fair most w (accepted w count + added) r
Fair-update most count added w r f = record {
  conserved = omega (arith, f.conserved, available-add count w);
  at_most = f.at_most;
  positive = f.positive;
  bounded = λ h. f.bounded (add-IsBounded count w h);
}

grab-Fair :
    (most : ℕ) (events : List WaitEvent) (w : FlowWindow)
    → 0 < w.available
    → Fair most w 0 (grab most w events)
grab-Fair most events w h = record {
  conserved = omega arith;
  at_most = omega arith;
  positive = λ pos n e. ground arith;
  bounded = λ b. omega arith;
}

pub wait-Fair :
    (most : ℕ) (timed : Bool) (events : List WaitEvent) (w : FlowWindow)
    → Fair most w (credit most timed events w) (wait most timed events w)
unfolding wait credit
wait-Fair most timed [] w = ground arith
wait-Fair most timed (update count ∷ events) w =
    Fair-update most count _ w _ (wait-Fair most timed events (add count w).1)
wait-Fair most timed (wake ∷ events) w = ground (
  arith,
  wait-Fair most timed events w,
  wait-Fair most timed events (record w { notified = false }),
  grab-Fair most events (record w { notified = false }),
)
wait-Fair most timed (done ∷ events) w = ground arith
wait-Fair most timed (deadline_changed ∷ events) w = ground arith
wait-Fair most true (timeout ∷ events) w = ground arith
wait-Fair most false (timeout ∷ events) w = wait-Fair most false events w

-- the credit that a call of take sees added
unfoldable pub take_credit : ℕ → Bool → List WaitEvent → FlowWindow → ℕ
take_credit most timed events w = if ltb 0 w.available then 0 else credit most timed events w

-- Whatever happens while take waits, the credit in the window and the credit that take returns are
-- together what was there and what was added; take returns at most what it was asked for, and not
-- nothing where it was asked for something; and a window within its bound stays within it.
pub take-Fair :
    (most : ℕ) (timed : Bool) (events : List WaitEvent) (w : FlowWindow)
    → Fair most w (take_credit most timed events w) (take most timed events w)
unfolding take take_credit
take-Fair most timed events w =
    ground (arith, grab-Fair most events w, wait-Fair most timed events w)

-- No credit is slept on: either there is none, or the token is there to wake the waiter.
abbrev pub IsAwake : FlowWindow → Type 0
IsAwake w = (w.available ≡ 0) ⊎ (w.notified ≡ true)

wait-IsAwake :
    (most : ℕ) (timed : Bool) (events : List WaitEvent) (w : FlowWindow)
    → IsAwake w
    → (wait most timed events w).0 ≡ blocked
    → IsAwake (wait most timed events w).1
unfolding wait add
wait-IsAwake most timed [] w a h = a
wait-IsAwake most timed (update count ∷ events) w a h =
    wait-IsAwake most timed events (add count w).1 (ground arith) h
wait-IsAwake most timed (wake ∷ events) w a h = ground (
  arith,
  wait-IsAwake most timed events w,
  wait-IsAwake most timed events (record w { notified = false }),
)
wait-IsAwake most timed (done ∷ events) w a h = cc
wait-IsAwake most timed (deadline_changed ∷ events) w a h = cc
wait-IsAwake most true (timeout ∷ events) w a h = cc
wait-IsAwake most false (timeout ∷ events) w a h = wait-IsAwake most false events w a h

-- A call of take that still waits, whatever has happened, has no credit left to take, or has the
-- token that wakes it: no update is lost.
pub take-IsAwake :
    (most : ℕ) (timed : Bool) (events : List WaitEvent) (w : FlowWindow)
    → (take most timed events w).0 ≡ blocked
    → IsAwake (take most timed events w).1
unfolding take
take-IsAwake most timed events w h = ground (arith, wait-IsAwake most timed events w)

-- ===== src/Relay/Sender/Fuel.antt =====
-- Write ends: its rounds never use up the fuel.
use wsl_win_relay.Base.{
  ℕ, zero, suc, ◌+◌, ◌≤◌, ◌<◌, ◌≡◌, ◌≢◌, refl, ap, Bool, true, false, List, [], ◌∷◌, min, length,
  drop, take, length-drop, arith,
}
use wsl_win_relay.Protocol.Frame.{max_data_size}
use wsl_win_relay.Relay.Window.{
  WaitEvent, Taken, taken, closed_pipe, deadline_moved, timed_out, blocked,
}
use wsl_win_relay.Relay.Window.Events.{take-Uses}
use wsl_win_relay.Relay.Sender.{
  Sending, send_data, out_of_fuel, take_chunk, Round, after_send, after_take, write_loop, write,
}
use wsl_win_relay.Relay.Sender.Chunks.{take_chunk_sound}

take_chunk-Uses :
    (p : List ℕ) (s : Sending)
    → (length (take_chunk p s).1.events ≤ length s.events)
      × ((take_chunk p s).0 ≡ deadline_moved → length (take_chunk p s).1.events < length s.events)
unfolding take_chunk
take_chunk-Uses p s =
    ground (arith, take-Uses (min (length p) max_data_size) s.timed s.events s.window)

events-send_data : (chunk : List ℕ) (s : Sending) → (send_data chunk s).1.events ≡ s.events
unfolding send_data
events-send_data chunk s = ground arith

module _ (next : Round) (fuel : ℕ)
    (ih : (q : List ℕ) (w : ℕ) (t : Sending)
      → length q + length t.events ≤ fuel
      → (next q w t).0 ≢ out_of_fuel) where
  after_send_ends :
      (n : ℕ) (p : List ℕ) (written : ℕ) (r : Bool × Sending)
      → length (drop n p) + length r.1.events ≤ fuel
      → (after_send next n p written r).0 ≢ out_of_fuel
  after_send_ends n p written (true, t) h = λ e. cc
  after_send_ends n p written (false, t) h = ih (drop n p) (written + n) t h

  after_take_ends :
      (p : List ℕ) (written n : ℕ) (r : Taken × Sending)
      → length p + n ≤ suc fuel
      → length r.1.events ≤ n
      → (r.0 ≡ deadline_moved → length r.1.events < n)
      → ((m : ℕ) → r.0 ≡ taken m → 0 < m)
      → 0 < length p
      → (after_take next p written r).0 ≢ out_of_fuel
  after_take_ends p written n (taken m, t) h le lt pos some_left =
      after_send_ends m p written (send_data (take m p) t) (
        omega (
          arith,
          length-drop m p,
          ap (length {A = WaitEvent}) (events-send_data (take m p) t),
          pos m refl,
        ))
  after_take_ends p written n (deadline_moved, t) h le lt pos some_left =
      ih p written t (omega (arith, lt refl))
  after_take_ends p written n (closed_pipe, t) h le lt pos some_left = λ e. cc
  after_take_ends p written n (timed_out, t) h le lt pos some_left = λ e. cc
  after_take_ends p written n (blocked, t) h le lt pos some_left = λ e. cc

write_loop_ends :
    (fuel : ℕ) (p : List ℕ) (written : ℕ) (s : Sending)
    → length p + length s.events ≤ fuel
    → (write_loop fuel p written s).0 ≢ out_of_fuel
unfolding write_loop
write_loop_ends fuel [] written s h = λ e. cc
write_loop_ends zero (b ∷ bs) written s h = absurd (omega arith)
write_loop_ends (suc fuel) (b ∷ bs) written s h =
    let (le, lt) = take_chunk-Uses (b ∷ bs) s in
    after_take_ends (write_loop fuel) fuel (write_loop_ends fuel) (b ∷ bs) written (length s.events)
      (take_chunk (b ∷ bs) s) h le lt (λ m e. ((take_chunk_sound (b ∷ bs) s).1 m e (omega arith)).0)
      (omega arith)

-- Write always returns or waits: each of its rounds takes a byte of its argument or an event, so
-- that the fuel given to the loop is never used up.
pub write_ends : (p : List ℕ) (s : Sending) → (write p s).0 ≢ out_of_fuel
unfolding write
write_ends p s = write_loop_ends (length p + length s.events) p 0 s (omega arith)

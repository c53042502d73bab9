-- ===== src/Relay/Server/Limits.antt =====
-- What each step of the server does to its streams keeps their limits.
use wsl_win_relay.Base.{
  ◌%◌, ◌^◌, ℕ, zero, suc, ◌+◌, ◌<◌, ◌≡◌, refl, inl, inr, Bool, true, false, List, [], ◌∷◌, ◌++◌,
  Option, none, some, length, get_elem?, arith, length-append, Bool-cases, ltb, drop,
}
use wsl_win_relay.Protocol.Frame.{type_data}
use wsl_win_relay.Protocol.Payload.{decode_window_update}
use wsl_win_relay.Relay.Window.{FlowWindow, add, wake}
use wsl_win_relay.Relay.Window.Laws.{IsBounded, add-IsBounded, take-Fair, wait-Fair}
use wsl_win_relay.Relay.Server.{
  receive_window_exceeded, queue_size, frame, StreamEvent, content, half_close, Stream, Sent,
  Server, stream_of, update, send, close_conn, remove, reset, Failure, open_stream, confirm,
  connected, dialed, register_inbound,
}
use wsl_win_relay.Relay.Server.Steps.{
  accept_data, accept_half_close, credited, accept_update, take_credit, credit_event, copy_data,
  WriteEnd, after_count, after_ack, acknowledge_count, write_remote,
}
use wsl_win_relay.Relay.Server.Registered.{
  Serves, update-Serves, register-Serves, remove-Serves, stream_of-found,
}

pub send-Serves : (f : Sent) (s : Server) → Serves s → Serves (send f s).1
unfolding send
send-Serves f s h = ground (arith, h)

pub reset-Serves : (id : ℕ) (f : Failure) (s : Server) → Serves s → Serves (reset id f s)
unfolding reset
reset-Serves id f s h = remove-Serves id _ (send-Serves _ s h)

close_conn-Serves : (c : Option ℕ) (s : Server) → Serves s → Serves (close_conn c s)
close_conn-Serves none s h = h
close_conn-Serves (some c) s h = h

pub open_stream-Serves :
    (id : ℕ) (target : List ℕ) (s : Server) → Serves s → Serves (open_stream id target s).1
unfolding open_stream
open_stream-Serves id target s h = ground (arith, h, send-Serves _ s h, register-Serves id none s)

pub confirm-Serves : (id : ℕ) (r : Bool × Server) → Serves r.1 → Serves (confirm id r)
confirm-Serves id (true, s) h = remove-Serves id s h
confirm-Serves id (false, s) h = h

connected-Serves :
    (id conn : ℕ) (found : Option (ℕ × Stream)) (s : Server)
    → stream_of id s ≡ found
    → Serves s
    → Serves (connected id conn found s)
connected-Serves id conn none s e h = h
connected-Serves id conn (some (o, x)) s e h = confirm-Serves id _ (
    send-Serves _ _ (
      update-Serves o x (record x { conn = some conn }) s (stream_of-found id o x s e).1 refl
        (λ k. k) h))

pub dialed-Serves : (id : ℕ) (conn : Option ℕ) (s : Server) → Serves s → Serves (dialed id conn s)
unfolding dialed
dialed-Serves id none s h = send-Serves _ (remove id s) (remove-Serves id s h)
dialed-Serves id (some conn) s h = connected-Serves id conn (stream_of id s) s refl h

pub register_inbound-Serves :
    (conn : ℕ) (s : Server) → Serves s → Serves (register_inbound conn s).1
unfolding register_inbound
register_inbound-Serves conn s h = ground (
  arith,
  h,
  register-Serves ((s.next_stream + 2) % 2 ^ 32) (some conn)
      (record s { next_stream = (s.next_stream + 2) % 2 ^ 32 }),
)

-- A full queue is left as it is, another takes one more event.
push-Serves :
    (o : ℕ) (x : Stream) (e : StreamEvent) (s : Server)
    → get_elem? s.store o ≡ some x
    → ltb (length x.incoming) queue_size ≡ true
    → Serves s
    → Serves (update o (record x { incoming = x.incoming ++ e ∷ [] }) s)
push-Serves o x e s stored room h =
    update-Serves o x (record x { incoming = x.incoming ++ e ∷ [] }) s stored refl
      (λ k. (
        let lt : length x.incoming < 10 = ground (arith, room) in
            omega (arith, lt, length-append x.incoming (e ∷ [])),
        k.1,
      ))
      h

pub accept_data-Serves :
    (id : ℕ) (bytes : List ℕ) (found : Option (ℕ × Stream)) (s : Server)
    → stream_of id s ≡ found
    → Serves s
    → Serves (accept_data id bytes found s)
accept_data-Serves id bytes none s e h = h
accept_data-Serves id bytes (some (o, x)) s e h =
    elim (Bool-cases (ltb (length x.incoming) queue_size)) [
      | inl room ↦ rw room (push-Serves o x (content bytes) s (stream_of-found id o x s e).1 room h)
      | inr full ↦ rw full (ground (arith, h, reset-Serves id receive_window_exceeded s h))
    ]

pub accept_half_close-Serves :
    (id : ℕ) (found : Option (ℕ × Stream)) (s : Server)
    → stream_of id s ≡ found
    → Serves s
    → Serves (accept_half_close found s)
accept_half_close-Serves id none s e h = h
accept_half_close-Serves id (some (o, x)) s e h =
    elim (Bool-cases (ltb (length x.incoming) queue_size)) [
      | inl room ↦ rw room (push-Serves o x half_close s (stream_of-found id o x s e).1 room h)
      | inr full ↦ rw full h
    ]

credited-Serves :
    (id o : ℕ) (x : Stream) (r : Bool × FlowWindow) (s : Server)
    → get_elem? s.store o ≡ some x
    → (IsBounded x.send_window → IsBounded r.1)
    → Serves s
    → Serves (credited id o x r s)
credited-Serves id o x (true, w) s stored bounded h =
    update-Serves o x (record x { send_window = w }) s stored refl (λ k. (k.0, bounded k.1)) h
credited-Serves id o x (false, w) s stored bounded h = reset-Serves id _ s h

pub accept_update-Serves :
    (id : ℕ) (payload : List ℕ) (found : Option (ℕ × Stream)) (s : Server)
    → stream_of id s ≡ found
    → Serves s
    → Serves (accept_update id payload found s)
accept_update-Serves id payload none s e h = h
accept_update-Serves id payload (some (o, x)) s e h =
    credited-Serves id o x (add (decode_window_update payload) x.send_window) s
      (stream_of-found id o x s e).1 (add-IsBounded (decode_window_update payload) x.send_window) h

take_credit-IsBounded :
    (n : ℕ) (woken : Bool) (w : FlowWindow) → IsBounded w → IsBounded (take_credit n woken w)
take_credit-IsBounded n false w h = (take-Fair n false [] w).bounded h
take_credit-IsBounded n true w h = (wait-Fair n false (wake ∷ []) w).bounded h

pub credit_event-Serves :
    (o n : ℕ) (woken : Bool) (found : Option Stream) (s : Server)
    → get_elem? s.store o ≡ found
    → Serves s
    → Serves (credit_event o n woken found s)
credit_event-Serves o n woken none s e h = h
credit_event-Serves o n woken (some x) s e h =
    update-Serves o x (record x { send_window = take_credit n woken x.send_window }) s e refl
      (λ k. (k.0, take_credit-IsBounded n woken x.send_window k.1)) h

pub copy_data-Serves :
    (id : ℕ) (bytes : List ℕ) (s : Server) → Serves s → Serves (copy_data id bytes s)
unfolding copy_data
copy_data-Serves id bytes s h = confirm-Serves id _ (send-Serves (frame type_data id bytes) s h)

-- A loop that keeps the invariant keeps it behind each answer of the socket.
module _ (id : ℕ) (next : Server → WriteEnd × Server)
    (keeps : (s : Server) → Serves s → Serves (next s).1) where
  after_count-Serves :
      (failed : Bool) (count : ℕ) (s : Server)
      → Serves s
      → Serves (after_count id failed next count s).1
  after_count-Serves true count s h = reset-Serves id _ s h
  after_count-Serves false zero s h = reset-Serves id _ s h
  after_count-Serves false (suc count) s h = keeps s h

  after_ack-Serves : (r : Bool × Server) → Serves r.1 → Serves (after_ack id next r).1
  after_ack-Serves (true, s) h = remove-Serves id s h
  after_ack-Serves (false, s) h = keeps s h

  acknowledge_count-Serves :
      (count : ℕ) (s : Server) → Serves s → Serves (acknowledge_count id count next s).1
  acknowledge_count-Serves zero s h = keeps s h
  acknowledge_count-Serves (suc count) s h = after_ack-Serves _ (send-Serves _ s h)

pub write_remote-Serves :
    (id : ℕ) (bytes : List ℕ) (answers : List (ℕ × Bool)) (s : Server)
    → Serves s
    → Serves (write_remote id bytes answers s).1
unfolding write_remote
write_remote-Serves id [] answers s h = h
write_remote-Serves id (b ∷ bs) [] s h = h
write_remote-Serves id (b ∷ bs) ((count, failed) ∷ answers) s h =
    let next = write_remote id (drop count (b ∷ bs)) answers in
    acknowledge_count-Serves id (after_count id failed next count)
      (after_count-Serves id next (write_remote-Serves id (drop count (b ∷ bs)) answers) failed
        count)
      count s h

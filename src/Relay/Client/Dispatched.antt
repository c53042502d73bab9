-- ===== src/Relay/Client/Dispatched.antt =====
-- The client's registries when its calls register objects and frames come.
use wsl_win_relay.Base.{
  ℕ, ◌≡◌, refl, ap, inl, inr, Bool, true, false, not, ◌&&◌, ◌||◌, List, [], ◌∷◌, ◌++◌, Option, none,
  some, Result, ok, err, length, get_elem?, arith, leb, leb-false→lt, ◌==◌, Bool-cases,
  Option-cases, if◌then◌else◌, uint32,
}
use wsl_win_relay.Protocol.Frame.{
  Error, type_hello_ok, type_listen_ok, type_listen_error, type_inbound_open, type_open,
  type_listen_open, type_datagram_open, type_listen_datagram_open,
}
use wsl_win_relay.Protocol.Payload.{decode_hello_ok}
use wsl_win_relay.Relay.Reader.{ReadError, new_reader, bad_datagram, or_first}
use wsl_win_relay.Relay.Server.{max_concurrent_streams, lookup}
use wsl_win_relay.Relay.Server.Listeners.{max_concurrent_listeners}
use wsl_win_relay.Relay.Server.Datagrams.{max_concurrent_datagrams}
use wsl_win_relay.Relay.Server.Datagrams.Reverse.{max_concurrent_reverse_datagrams}
use wsl_win_relay.Relay.Server.Registered.{length-delete_le}
use wsl_win_relay.Relay.Client.{
  new_listener, unknown_listener, duplicate_stream, too_many_streams, frame, reset, Client, insert,
  remove_stream, remove_listener, remove_datagram, remove_reverse_datagram, has_room, next, change,
  is_target, dial_context, reserve_reverse_forward, open_packet_context, reverse_datagram_forward,
}
use wsl_win_relay.Relay.Client.Packet.{new_packet_conn}
use wsl_win_relay.Relay.Client.Reverse.{ReverseDatagram, new_reverse_datagram, handle_reverse}
use wsl_win_relay.Relay.Client.Steps.{
  accept_inbound, register_accepted, finish_inbound, dispatch_next, inbound_stream,
  is_reverse_datagram_type, is_datagram_type, hello, on_reverse, settle_reverse, dispatch,
}
use wsl_win_relay.Relay.Client.Registered.{
  Registers, pending, insert-Fits, insert-StreamsFit, write-Registers, streams-Registers,
  listeners-Registers, datagrams-Registers, reverse-Registers, remove_stream-Registers,
  remove_listener-Registers, remove_datagram-Registers, remove_reverse-Registers, undo-Registers,
  if-Registers,
}

pub choose-Registers :
    (b : Bool) (d e : Client) → Registers d → Registers e → Registers (if b then d else e)
choose-Registers true d e k l = k
choose-Registers false d e k l = l

-- The calls that register an object.
module _ (c : Client) (h : Registers c) where
  pub dial-Registers : (target : List ℕ) → Registers (dial_context target c).1
  unfolding dial_context
  dial-Registers target =
      if-Registers (not (is_target target)) (false, c) _ (λ _. h)
        (λ _.
          if-Registers (has_room max_concurrent_streams c.registries.streams c) _
            (false, record c { next_id = next c })
            (λ room.
              undo-Registers (remove_stream (next c)) _
                (λ d k. remove_stream-Registers d k (next c))
                (write-Registers (frame type_open (next c) target) _ (
                  streams-Registers
                    (record c {
                      next_id = next c;
                      stream_store = c.stream_store ++ new_reader [] ∷ [];
                    })
                    h (insert (next c) (length c.stream_store) c.registries.streams)
                    (insert-StreamsFit (next c) (length c.stream_store) c.registries.streams c
                      room))))
            (λ _. h))

  pub packet-Registers : Registers (open_packet_context c).1
  unfolding open_packet_context
  packet-Registers =
      if-Registers (has_room max_concurrent_datagrams c.registries.datagrams c) _
        (false, record c { next_id = next c })
        (λ room.
          undo-Registers (remove_datagram (next c)) _
            (λ d k. remove_datagram-Registers d k (next c))
            (write-Registers (frame type_datagram_open (next c) []) _ (
              datagrams-Registers
                (record c {
                  next_id = next c;
                  packet_store = c.packet_store ++ new_packet_conn (next c) ∷ [];
                })
                h (insert (next c) (length c.packet_store) c.registries.datagrams)
                (insert-Fits max_concurrent_datagrams (next c) (length c.packet_store)
                  c.registries.datagrams c room))))
        (λ _. h)

  pub reserve-Registers :
      (address target : List ℕ) → Registers (reserve_reverse_forward address target c).1
  unfolding reserve_reverse_forward
  reserve-Registers address target =
      if-Registers (not (is_target address && is_target target)) (false, c) _ (λ _. h)
        (λ _.
          if-Registers (has_room max_concurrent_listeners c.registries.listeners c) _
            (false, record c { next_id = next c })
            (λ room.
              undo-Registers (remove_listener (next c)) _
                (λ d k. remove_listener-Registers d k (next c))
                (write-Registers (frame type_listen_open (next c) address) _ (
                  listeners-Registers
                    (record c {
                      next_id = next c;
                      listener_store = c.listener_store ++ new_listener (next c) address ∷ [];
                    })
                    h (insert (next c) (length c.listener_store) c.registries.listeners)
                    (insert-Fits max_concurrent_listeners (next c) (length c.listener_store)
                      c.registries.listeners c room))))
            (λ _. h))

  pub forward-Registers :
      (resolved : Bool) (address target : List ℕ)
      → Registers (reverse_datagram_forward resolved address target c).1
  unfolding reverse_datagram_forward
  forward-Registers resolved address target =
      if-Registers (not (is_target address && is_target target && resolved)) (false, c) _ (λ _. h)
        (λ _.
          if-Registers (has_room max_concurrent_reverse_datagrams c.registries.reverse_datagrams c)
            _ (false, record c { next_id = next c })
            (λ room.
              undo-Registers (remove_reverse_datagram (next c)) _
                (λ d k. remove_reverse-Registers d k (next c))
                (write-Registers (frame type_listen_datagram_open (next c) address) _ (
                  reverse-Registers
                    (record c {
                      next_id = next c;
                      reverse_store = c.reverse_store ++ new_reverse_datagram (next c) address ∷ [];
                    })
                    h (insert (next c) (length c.reverse_store) c.registries.reverse_datagrams)
                    (insert-Fits max_concurrent_reverse_datagrams (next c) (length c.reverse_store)
                      c.registries.reverse_datagrams c room))))
            (λ _. h))

  -- A listener that is found says that the client is not closed.
  found-open :
      (k o : ℕ) → lookup k c.registries.listeners ≡ some o → (e : ReadError) → c.closed ≡ some e → ⊥
  unfolding lookup
  found-open k o at e q = cc (ap (lookup k) (h.listeners.1 e q), at)

  inbound-Registers :
      (id k : ℕ) (found : Option ℕ)
      → lookup k c.registries.listeners ≡ found
      → Registers (accept_inbound id found c)
  inbound-Registers id k none e = write-Registers (reset id unknown_listener) c h
  inbound-Registers id k (some o) e = record {
    streams = (h.streams.0, λ x q. absurd (found-open k o e x q));
    listeners = h.listeners;
    datagrams = h.datagrams;
    reverse_datagrams = h.reverse_datagrams;
  }

  hello-Registers : (payload : List ℕ) → Registers (hello payload c)
  hello-Registers payload = told (decode_hello_ok payload)
    where
      told :
          (r : Result Error (ℕ × ℕ))
          → Registers (elim r [
            | ok (capabilities, instance_id) ↦ record c {
              hello_done = or_first c.hello_done (ok (capabilities, instance_id));
            }
            | err e ↦ record c { hello_done = or_first c.hello_done (err bad_datagram) }
          ])
      told (ok (a, b)) = h
      told (err e) = h

  reverse_found-Registers :
      (f : ReverseDatagram → ReverseDatagram) (o : ℕ) (found : Option ReverseDatagram)
      → Registers (elim found [
        | none ↦ c
        | some l ↦
            settle_reverse l.id
              (not l.done && (f l).done)
              (record c { reverse_store = change f o c.reverse_store })
      ])
  reverse_found-Registers f o none = h
  reverse_found-Registers f o (some l) = settled (not l.done && (f l).done)
    where
      settled :
          (b : Bool)
          → Registers
              (settle_reverse l.id b (record c { reverse_store = change f o c.reverse_store }))
      settled true =
          remove_reverse-Registers (record c { reverse_store = change f o c.reverse_store }) h l.id
      settled false = h

  pub on_reverse-Registers :
      (f : ReverseDatagram → ReverseDatagram) (found : Option ℕ) → Registers (on_reverse f found c)
  on_reverse-Registers f none = h
  on_reverse-Registers f (some o) = reverse_found-Registers f o (get_elem? c.reverse_store o)

  pub dispatch-Registers : (kind id : ℕ) (payload : List ℕ) → Registers (dispatch kind id payload c)
  unfolding dispatch
  dispatch-Registers kind id payload =
      choose-Registers (kind == type_hello_ok) (hello payload c) _ (hello-Registers payload) (
        choose-Registers (is_reverse_datagram_type kind)
          (on_reverse (handle_reverse kind payload) (lookup id c.registries.reverse_datagrams) c) _
          (on_reverse-Registers (handle_reverse kind payload)
            (lookup id c.registries.reverse_datagrams))
          (choose-Registers (is_datagram_type kind) _ _ h (
            choose-Registers (kind == type_listen_ok || kind == type_listen_error) _ _ h (
              choose-Registers (kind == type_inbound_open) _ _
                (choose-Registers (not (length payload == 4)) c _ h (
                  inbound-Registers id (uint32 payload)
                    (lookup (uint32 payload) c.registries.listeners) refl))
                h))))

-- A client that has come to registering a stream has room for it, closed or not.
module _ (c : Client) (h : Registers c) where
  finished-Registers : Registers (record c { inbound = none })
  finished-Registers = record {
    streams = (h.streams.0, λ x q. omega (arith, h.streams.1 x q));
    listeners = h.listeners;
    datagrams = h.datagrams;
    reverse_datagrams = h.reverse_datagrams;
  }

  accepted-Registers :
      (id : ℕ)
      → c.inbound ≡ some id
      → Registers (register_accepted id (record c { inbound = none }))
  accepted-Registers id at = elim (Option-cases (lookup id c.registries.streams)) [
    | inr (s, used) ↦
        rw (used, register_accepted)
          (write-Registers (reset id duplicate_stream) _ finished-Registers)
    | inl free ↦ elim (Bool-cases (leb max_concurrent_streams (length c.registries.streams))) [
      | inl full ↦
          rw (free, full, register_accepted)
            (write-Registers (reset id too_many_streams) _ finished-Registers)
      | inr room ↦
          rw (free, room, register_accepted)
            (streams-Registers
              (record c { inbound = none; stream_store = c.stream_store ++ inbound_stream ∷ [] })
              finished-Registers (insert id (length c.stream_store) c.registries.streams)
              (
                omega (
                  arith,
                  length-delete_le id c.registries.streams,
                  leb-false→lt max_concurrent_streams (length c.registries.streams) room,
                ),
                λ x q. omega (
                  arith,
                  length-delete_le id c.registries.streams,
                  h.streams.1 x q,
                  ap pending at,
                ),
              ))
    ]
  ]

  pub finish-Registers : Registers (finish_inbound c.inbound c)
  finish-Registers = by_inbound c.inbound refl
    where
      by_inbound : (o : Option ℕ) → c.inbound ≡ o → Registers (finish_inbound o c)
      by_inbound none e = h
      by_inbound (some id) e = accepted-Registers id e

  pub dispatch_next-Registers :
      (kind id : ℕ) (payload : List ℕ) (o : Option ℕ)
      → Registers (dispatch_next kind id payload o c)
  dispatch_next-Registers kind id payload none = dispatch-Registers c h kind id payload
  dispatch_next-Registers kind id payload (some at) = h

-- ===== src/Relay/Client/Closed.antt =====
-- A closed client has nothing registered but perhaps one stream, whatever happens to it.
use wsl_win_relay.Base.{
  ℕ, ◌≤◌, refl, inl, inr, Bool, true, List, [], ◌∷◌, Option, none, some, get_elem?, arith,
  Option-cases,
}
use wsl_win_relay.Protocol.Frame.{
  type_listen_close, type_listen_commit, type_datagram_close, type_listen_datagram_close,
}
use wsl_win_relay.Relay.Reader.{ReadError, eof, close}
use wsl_win_relay.Relay.Client.{
  ClientListener, frame, reset, no_registries, Client, new_client, write, change, invalidate,
  dial_refused, end_all, fail_client, reset_peer_state,
}
use wsl_win_relay.Relay.Client.Packet.{PacketConn, fail_packet}
use wsl_win_relay.Relay.Client.Reverse.{ReverseDatagram, shut, write_round}
use wsl_win_relay.Relay.Client.Steps.{
  close_stream, close_listener, close_packet, close_reverse, dials, reserves, opens_packet,
  forwards, dispatches, registers, drops_stream, drops_listener, drops_packet, drops_reverse,
  inbound_fails, commits, closes_listener, closes_packet, closes_reverse, closes_stream,
  writes_reverse, fails, resets, close_found, close_packet_found, close_reverse_found,
  inbound_refused, commit, Step, step, steps,
}
use wsl_win_relay.Relay.Client.Registered.{
  IsRegistered, Registers, pending, write-Registers, remove_stream-Registers,
  remove_listener-Registers, remove_datagram-Registers, remove_reverse-Registers,
}
use wsl_win_relay.Relay.Client.Dispatched.{
  choose-Registers, dial-Registers, packet-Registers, reserve-Registers, forward-Registers,
  on_reverse-Registers, finish-Registers, dispatch_next-Registers,
}

module _ (c : Client) (h : Registers c) where
  listener-Registers : (o : ℕ) (found : Option ClientListener) → Registers (close_found o found c)
  listener-Registers o none = h
  listener-Registers o (some l) = choose-Registers l.closing c _ h (
      write-Registers (frame type_listen_close l.id []) _ (
        remove_listener-Registers
          (record c { listener_store = change invalidate o c.listener_store }) h l.id))

  packet_found-Registers :
      (o : ℕ) (found : Option PacketConn) → Registers (close_packet_found o found c)
  packet_found-Registers o none = h
  packet_found-Registers o (some p) = choose-Registers p.closing c _ h (
      write-Registers (frame type_datagram_close p.id []) _ (
        remove_datagram-Registers
          (record c {
            packet_store =
                change (λ q. fail_packet eof (record q { closing = true })) o c.packet_store;
          })
          h p.id))

  reverse_close-Registers :
      (o : ℕ) (found : Option ReverseDatagram) → Registers (close_reverse_found o found c)
  reverse_close-Registers o none = h
  reverse_close-Registers o (some l) = choose-Registers l.done c _ h (
      write-Registers (frame type_listen_datagram_close l.id []) _ (
        remove_reverse-Registers (record c { reverse_store = change shut o c.reverse_store }) h
          l.id))

  commit-Registers : (o : ℕ) (found : Option ClientListener) → Registers (commit o found c)
  commit-Registers o none = h
  commit-Registers o (some l) = write-Registers (frame type_listen_commit l.id []) c h

pending-le : (inbound : Option ℕ) → pending inbound ≤ 1
pending-le none = omega arith
pending-le (some id) = omega arith

empty-Registers :
    (inbound : Option ℕ) (closed : Option ReadError) → IsRegistered no_registries inbound closed
empty-Registers inbound closed = record {
  streams = (omega arith, λ e q. omega (arith, pending-le inbound));
  listeners = (omega arith, λ e q. refl);
  datagrams = (omega arith, λ e q. refl);
  reverse_datagrams = (omega arith, λ e q. refl);
}

fail-Registers : (cause : ReadError) (c : Client) → Registers c → Registers (fail_client cause c)
unfolding fail_client end_all
fail-Registers cause c h = elim (Option-cases c.closed) [
  | inl e ↦ rw (e, fail_client) (empty-Registers c.inbound (some cause))
  | inr (x, e) ↦ rw (e, fail_client) h
]

reset-Registers :
    (cause : Option ReadError) (c : Client) → Registers c → Registers (reset_peer_state cause c)
unfolding reset_peer_state end_all
reset-Registers none c h = empty-Registers c.inbound c.closed
reset-Registers (some cause) c h = empty-Registers c.inbound c.closed

step-Registers : (x : Step) (c : Client) → Registers c → Registers (step c x)
unfolding step inbound_refused close_stream close_listener close_packet close_reverse
step-Registers (dials target) c h = dial-Registers c h target
step-Registers (reserves address target) c h = reserve-Registers c h address target
step-Registers opens_packet c h = packet-Registers c h
step-Registers (forwards resolved address target) c h =
    forward-Registers c h resolved address target
step-Registers (dispatches kind id payload) c h =
    dispatch_next-Registers c h kind id payload c.inbound
step-Registers registers c h = finish-Registers c h
step-Registers (drops_stream id) c h = remove_stream-Registers c h id
step-Registers (drops_listener id) c h = remove_listener-Registers c h id
step-Registers (drops_packet id) c h = remove_datagram-Registers c h id
step-Registers (drops_reverse id) c h = remove_reverse-Registers c h id
step-Registers (inbound_fails id) c h =
    remove_stream-Registers (write (reset id dial_refused) c).1
      (write-Registers (reset id dial_refused) c h) id
step-Registers (commits o) c h = commit-Registers c h o (get_elem? c.listener_store o)
step-Registers (closes_listener o) c h = listener-Registers c h o (get_elem? c.listener_store o)
step-Registers (closes_packet o) c h = packet_found-Registers c h o (get_elem? c.packet_store o)
step-Registers (closes_reverse o) c h = reverse_close-Registers c h o (get_elem? c.reverse_store o)
step-Registers (closes_stream id o) c h =
    remove_stream-Registers (record c { stream_store = change close o c.stream_store }) h id
step-Registers (writes_reverse resolve dial refused o) c h =
    on_reverse-Registers c h (write_round resolve dial refused) (some o)
step-Registers (fails cause) c h = fail-Registers cause c h
step-Registers (resets cause) c h = reset-Registers cause c h

steps-Registers : (xs : List Step) (c : Client) → Registers c → Registers (steps c xs)
unfolding steps
steps-Registers [] c h = h
steps-Registers (x ∷ xs) c h = steps-Registers xs (step c x) (step-Registers x c h)

-- Whatever the client is asked for, whatever frames come, whichever frames it fails to send, and
-- whenever it ends or its peer is replaced: at most 512 streams, 256 listeners, 64 datagram associations
-- and 64 reverse datagram sockets are registered. Once the client is closed, no listener, association or
-- reverse socket is, and no stream but one at most: that of an INBOUND_OPEN whose listener had been found
-- when the client was closed, and whose stream is registered then all the same.
pub steps-new-Registers :
    (link : List Bool) (xs : List Step) → Registers (steps (new_client link) xs)
steps-new-Registers link xs = steps-Registers xs (new_client link) (empty-Registers none none)

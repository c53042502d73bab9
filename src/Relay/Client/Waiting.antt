-- ===== src/Relay/Client/Waiting.antt =====
-- A reservation that waits while the peer is replaced waits on.
use wsl_win_relay.Base.{
  ℕ, ◌≡◌, refl, inl, inr, Bool, true, false, not, List, [], ◌∷◌, ◌++◌, Option, none, some, ok, err,
  Result, ◌==◌, ◌||◌, ◌&&◌, length, get_elem?, leb, Option-cases, uint32,
}
use wsl_win_relay.Protocol.Frame.{
  Error, type_listen_close, type_listen_commit, type_datagram_close, type_listen_datagram_close,
  type_hello_ok, type_listen_ok, type_listen_error, type_inbound_open, type_open, type_listen_open,
  type_datagram_open, type_listen_datagram_open,
}
use wsl_win_relay.Protocol.Payload.{decode_hello_ok}
use wsl_win_relay.Relay.Reader.{ReadError, peer_restarted, new_reader, bad_datagram, or_first}
use wsl_win_relay.Relay.Server.{max_concurrent_streams, lookup}
use wsl_win_relay.Relay.Server.Listeners.{max_concurrent_listeners}
use wsl_win_relay.Relay.Server.Datagrams.{max_concurrent_datagrams}
use wsl_win_relay.Relay.Server.Datagrams.Reverse.{max_concurrent_reverse_datagrams}
use wsl_win_relay.Relay.Client.{
  ClientListener, new_listener, unknown_listener, duplicate_stream, too_many_streams, frame, reset,
  Client, insert, set_streams, set_listeners, set_datagrams, set_reverse_datagrams, remove_stream,
  remove_listener, remove_datagram, remove_reverse_datagram, has_room, next, change, invalidate,
  dial_refused, is_target, dial_context, reserve_reverse_forward, open_packet_context,
  reverse_datagram_forward, end_all, fail_client, reset_peer_state,
}
use wsl_win_relay.Relay.Client.Packet.{PacketConn, new_packet_conn}
use wsl_win_relay.Relay.Client.Reverse.{
  ReverseDatagram, new_reverse_datagram, handle_reverse, write_round,
}
use wsl_win_relay.Relay.Client.Steps.{
  accept_inbound, register_accepted, finish_inbound, dispatch_next, is_reverse_datagram_type,
  is_datagram_type, hello, on_reverse, settle_reverse, dispatch, close_stream, close_listener,
  close_packet, close_reverse, dials, reserves, opens_packet, forwards, dispatches, registers,
  drops_stream, drops_listener, drops_packet, drops_reverse, inbound_fails, commits,
  closes_listener, closes_packet, closes_reverse, closes_stream, writes_reverse, fails, resets,
  close_found, close_packet_found, close_reverse_found, inbound_refused, commit, Step, step, steps,
}
use wsl_win_relay.Relay.Client.Ended.{Has, change-keeps, change_all-keeps}
use wsl_win_relay.Relay.Client.Lost.{
  Unanswered, Lost, write-Lost, remove-Lost, undo-Lost, if-Lost, choose-Lost, added-Lost,
  answered-Lost,
}

module _ (o : ℕ) where
  module _ (c : Client) (h : Lost o c) where
    dial-Lost : (target : List ℕ) → Lost o (dial_context target c).1
    unfolding dial_context remove_stream
    dial-Lost target =
        if-Lost o (not (is_target target)) (false, c) _ h
          (if-Lost o (has_room max_concurrent_streams c.registries.streams c) _
            (false, record c { next_id = next c })
            (undo-Lost o (remove_stream (next c)) _ (λ d k. k)
              (write-Lost o (frame type_open (next c) target)
                (set_streams (insert (next c) (length c.stream_store) c.registries.streams)
                  (record c {
                    next_id = next c;
                    stream_store = c.stream_store ++ new_reader [] ∷ [];
                  }))
                h))
            h)

    packet-Lost : Lost o (open_packet_context c).1
    unfolding open_packet_context remove_datagram
    packet-Lost =
        if-Lost o (has_room max_concurrent_datagrams c.registries.datagrams c) _
          (false, record c { next_id = next c })
          (undo-Lost o (remove_datagram (next c)) _ (λ d k. k)
            (write-Lost o (frame type_datagram_open (next c) [])
              (set_datagrams (insert (next c) (length c.packet_store) c.registries.datagrams)
                (record c {
                  next_id = next c;
                  packet_store = c.packet_store ++ new_packet_conn (next c) ∷ [];
                }))
              h))
          h

    forward-Lost :
        (resolved : Bool) (address target : List ℕ)
        → Lost o (reverse_datagram_forward resolved address target c).1
    unfolding reverse_datagram_forward remove_reverse_datagram
    forward-Lost resolved address target =
        if-Lost o (not (is_target address && is_target target && resolved)) (false, c) _ h
          (if-Lost o (has_room max_concurrent_reverse_datagrams c.registries.reverse_datagrams c) _
            (false, record c { next_id = next c })
            (undo-Lost o (remove_reverse_datagram (next c)) _ (λ d k. k)
              (write-Lost o (frame type_listen_datagram_open (next c) address)
                (set_reverse_datagrams
                  (insert (next c) (length c.reverse_store) c.registries.reverse_datagrams)
                  (record c {
                    next_id = next c;
                    reverse_store = c.reverse_store ++ new_reverse_datagram (next c) address ∷ [];
                  }))
                h))
            h)

    reserve-Lost : (address target : List ℕ) → Lost o (reserve_reverse_forward address target c).1
    unfolding reserve_reverse_forward
    reserve-Lost address target =
        if-Lost o (not (is_target address && is_target target)) (false, c) _ h
          (if-Lost o (has_room max_concurrent_listeners c.registries.listeners c) _
            (false, record c { next_id = next c })
            (undo-Lost o (remove_listener (next c)) _ (λ d k. remove-Lost o (next c) d k)
              (write-Lost o (frame type_listen_open (next c) address)
                (set_listeners (insert (next c) (length c.listener_store) c.registries.listeners)
                  (record c {
                    next_id = next c;
                    listener_store = c.listener_store ++ new_listener (next c) address ∷ [];
                  }))
                (added-Lost o (next c) address c.registries.listeners c.listener_store h)))
            h)

    inbound-Lost : (id : ℕ) (found : Option ℕ) → Lost o (accept_inbound id found c)
    inbound-Lost id none = write-Lost o (reset id unknown_listener) c h
    inbound-Lost id (some k) = h

    finish-Lost : (at : Option ℕ) → Lost o (finish_inbound at c)
    finish-Lost none = h
    finish-Lost (some id) = elim (Option-cases (lookup id c.registries.streams)) [
      | inr (s, used) ↦
          rw (used, finish_inbound, register_accepted)
            (write-Lost o (reset id duplicate_stream) (record c { inbound = none }) h)
      | inl free ↦
          rw (free, finish_inbound, register_accepted)
            (choose-Lost o (leb max_concurrent_streams (length c.registries.streams)) _ _
              (write-Lost o (reset id too_many_streams) (record c { inbound = none }) h) h)
    ]

    hello-Lost : (payload : List ℕ) → Lost o (hello payload c)
    hello-Lost payload = told (decode_hello_ok payload)
      where
        told :
            (r : Result Error (ℕ × ℕ))
            → Lost o (elim r [
              | ok (capabilities, instance_id) ↦ record c {
                hello_done = or_first c.hello_done (ok (capabilities, instance_id));
              }
              | err e ↦ record c { hello_done = or_first c.hello_done (err bad_datagram) }
            ])
        told (ok (a, b)) = h
        told (err e) = h

    settle-Lost :
        (id : ℕ) (b : Bool) (store : List ReverseDatagram)
        → Lost o (settle_reverse id b (record c { reverse_store = store }))
    unfolding remove_reverse_datagram
    settle-Lost id true store = h
    settle-Lost id false store = h

    on_reverse-Lost :
        (f : ReverseDatagram → ReverseDatagram) (found : Option ℕ) → Lost o (on_reverse f found c)
    on_reverse-Lost f none = h
    on_reverse-Lost f (some p) = held (get_elem? c.reverse_store p)
      where
        held :
            (found : Option ReverseDatagram)
            → Lost o (elim found [
              | none ↦ c
              | some l ↦
                  settle_reverse l.id
                    (not l.done && (f l).done)
                    (record c { reverse_store = change f p c.reverse_store })
            ])
        held none = h
        held (some l) = settle-Lost l.id (not l.done && (f l).done) (change f p c.reverse_store)

    dispatch-Lost : (kind id : ℕ) (payload : List ℕ) → Lost o (dispatch kind id payload c)
    unfolding dispatch
    dispatch-Lost kind id payload =
        choose-Lost o (kind == type_hello_ok) (hello payload c) _ (hello-Lost payload) (
          choose-Lost o (is_reverse_datagram_type kind)
            (on_reverse (handle_reverse kind payload) (lookup id c.registries.reverse_datagrams) c)
            _
            (on_reverse-Lost (handle_reverse kind payload)
              (lookup id c.registries.reverse_datagrams))
            (choose-Lost o (is_datagram_type kind) _ _ h (
              choose-Lost o (kind == type_listen_ok || kind == type_listen_error) _ _
                (answered-Lost o kind payload c.registries.listeners
                  (lookup id c.registries.listeners) id c.listener_store refl h)
                (choose-Lost o (kind == type_inbound_open) _ _
                  (choose-Lost o (not (length payload == 4)) c _ h
                    (inbound-Lost id (lookup (uint32 payload) c.registries.listeners)))
                  h))))

    dispatch_next-Lost :
        (kind id : ℕ) (payload : List ℕ) (at : Option ℕ)
        → Lost o (dispatch_next kind id payload at c)
    dispatch_next-Lost kind id payload none = dispatch-Lost kind id payload
    dispatch_next-Lost kind id payload (some k) = h

    closed-Lost : (p : ℕ) (found : Option ClientListener) → Lost o (close_found p found c)
    closed-Lost p none = h
    closed-Lost p (some l) = choose-Lost o l.closing c _ h (
        write-Lost o (frame type_listen_close l.id []) _ (
          remove-Lost o l.id (record c { listener_store = change invalidate p c.listener_store })
            (record {
              unnamed = h.unnamed;
              waits = change-keeps Unanswered invalidate (λ l k. k) p o c.listener_store h.waits;
            })))

    packet_closed-Lost : (p : ℕ) (found : Option PacketConn) → Lost o (close_packet_found p found c)
    unfolding remove_datagram
    packet_closed-Lost p none = h
    packet_closed-Lost p (some q) =
        choose-Lost o q.closing c _ h (write-Lost o (frame type_datagram_close q.id []) _ h)

    reverse_closed-Lost :
        (p : ℕ) (found : Option ReverseDatagram) → Lost o (close_reverse_found p found c)
    unfolding remove_reverse_datagram
    reverse_closed-Lost p none = h
    reverse_closed-Lost p (some l) =
        choose-Lost o l.done c _ h (write-Lost o (frame type_listen_datagram_close l.id []) _ h)

    commit-Lost : (p : ℕ) (found : Option ClientListener) → Lost o (commit p found c)
    commit-Lost p none = h
    commit-Lost p (some l) = write-Lost o (frame type_listen_commit l.id []) c h

  -- The end of everything registered invalidates listeners, and answers none.
  ended-Lost :
      (cause : ReadError) (c : Client)
      → Has Unanswered c.listener_store o
      → Lost o (end_all cause c)
  unfolding end_all lookup
  ended-Lost cause c h = record {
    unnamed = λ id e. cc e;
    waits =
        change_all-keeps Unanswered invalidate (λ l k. k) c.registries.listeners o c.listener_store
          h;
  }

  fail-Lost : (cause : ReadError) (c : Client) → Lost o c → Lost o (fail_client cause c)
  unfolding fail_client
  fail-Lost cause c h = elim (Option-cases c.closed) [
    | inl e ↦ rw (e, fail_client) (ended-Lost cause (record c { closed = some cause }) h.waits)
    | inr (x, e) ↦ rw (e, fail_client) h
  ]

  step-Lost : (x : Step) (c : Client) → Lost o c → Lost o (step c x)
  unfolding step inbound_refused close_stream close_listener close_packet close_reverse
      reset_peer_state remove_stream remove_datagram remove_reverse_datagram
  step-Lost (dials target) c h = dial-Lost c h target
  step-Lost (reserves address target) c h = reserve-Lost c h address target
  step-Lost opens_packet c h = packet-Lost c h
  step-Lost (forwards resolved address target) c h = forward-Lost c h resolved address target
  step-Lost (dispatches kind id payload) c h = dispatch_next-Lost c h kind id payload c.inbound
  step-Lost registers c h = finish-Lost c h c.inbound
  step-Lost (drops_stream id) c h = h
  step-Lost (drops_listener id) c h = remove-Lost o id c h
  step-Lost (drops_packet id) c h = h
  step-Lost (drops_reverse id) c h = h
  step-Lost (inbound_fails id) c h = write-Lost o (reset id dial_refused) c h
  step-Lost (commits p) c h = commit-Lost c h p (get_elem? c.listener_store p)
  step-Lost (closes_listener p) c h = closed-Lost c h p (get_elem? c.listener_store p)
  step-Lost (closes_packet p) c h = packet_closed-Lost c h p (get_elem? c.packet_store p)
  step-Lost (closes_reverse p) c h = reverse_closed-Lost c h p (get_elem? c.reverse_store p)
  step-Lost (closes_stream id p) c h = h
  step-Lost (writes_reverse resolve dial refused p) c h =
      on_reverse-Lost c h (write_round resolve dial refused) (some p)
  step-Lost (fails cause) c h = fail-Lost cause c h
  step-Lost (resets none) c h = ended-Lost peer_restarted c h.waits
  step-Lost (resets (some cause)) c h = ended-Lost cause c h.waits

  steps-Lost : (xs : List Step) (c : Client) → Lost o c → Lost o (steps c xs)
  unfolding steps
  steps-Lost [] c h = h
  steps-Lost (x ∷ xs) c h = steps-Lost xs (step c x) (step-Lost x c h)

-- A reservation that still waits for its answer when ResetPeerState is called is never answered:
-- whatever frames come and whatever is done to the client afterwards, its listener has no result. Of
-- what ReserveReverseForward waits for, only its own context and the end of the client are left.
pub reset_strands :
    (o : ℕ) (l : ClientListener) (cause : ReadError) (xs : List Step) (c : Client)
    → get_elem? c.listener_store o ≡ some l
    → l.ready ≡ none
    → Has Unanswered (steps (reset_peer_state (some cause) c) xs).listener_store o
unfolding reset_peer_state
reset_strands o l cause xs c e waits =
    (steps-Lost o xs (end_all cause c) (ended-Lost o cause c (l, e, waits))).waits

-- ===== src/Relay/Client/Steps.antt =====
-- internal/relay/client.go: what the client does with a frame (dispatch), how its calls return, how its
-- objects are closed, and all of it as steps.
use wsl_win_relay.Base.{
  ℕ, Bool, true, false, not, ◌&&◌, ◌||◌, List, [], ◌∷◌, ◌++◌, Option, none, some, leb, ◌==◌,
  if◌then◌else◌, length, get_elem?, ok, err, uint32,
}
use wsl_win_relay.Protocol.Frame.{
  type_hello_ok, type_listen_ok, type_listen_error, type_listen_close, type_inbound_open,
  type_listen_commit, type_datagram_ok, type_datagram_error, type_datagram_data,
  type_datagram_close, type_listen_datagram_ok, type_listen_datagram_error,
  type_listen_datagram_data, type_listen_datagram_close,
}
use wsl_win_relay.Protocol.Payload.{decode_hello_ok}
use wsl_win_relay.Relay.Reader.{
  ReadError, eof, told, bad_datagram, Reader, new_reader, or_first, handle, close,
}
use wsl_win_relay.Relay.Server.{max_concurrent_streams, lookup, delete}
use wsl_win_relay.Relay.Client.{
  ClientListener, unknown_listener, duplicate_stream, too_many_streams, dial_refused, frame, reset,
  Client, write, insert, set_streams, remove_stream, remove_listener, remove_datagram,
  remove_reverse_datagram, dial_context, reserve_reverse_forward, open_packet_context,
  reverse_datagram_forward, change, change_registered, invalidate, fail_client, reset_peer_state,
}
use wsl_win_relay.Relay.Client.Packet.{PacketConn, fail_packet, handle_packet}
use wsl_win_relay.Relay.Client.Reverse.{
  ReverseDatagram, or_requested, shut, handle_reverse, write_round,
}

-- A HELLO_OK is the answer to the handshake that waits, the first time.
abbrev pub hello : List ℕ → Client → Client
hello payload c = elim (decode_hello_ok payload) [
  | ok (capabilities, instance_id) ↦ record c {
    hello_done = or_first c.hello_done (ok (capabilities, instance_id));
  }
  | err e ↦ record c { hello_done = or_first c.hello_done (err bad_datagram) }
]

abbrev pub answer_listener : ℕ → List ℕ → ClientListener → ClientListener
answer_listener kind payload l =
    if kind == type_listen_ok
    then record l { ready = or_first l.ready (ok (or_requested l.requested_address payload)) }
    else record l { ready = or_first l.ready (err (told payload)) }

-- A stream of a connection that a listener accepted is open from the start.
abbrev pub inbound_stream : Reader
inbound_stream = record (new_reader []) { open_done = some none }

-- An INBOUND_OPEN as far as its listener; the client is not locked behind that.
abbrev pub accept_inbound : ℕ → Option ℕ → Client → Client
accept_inbound id none c = (write (reset id unknown_listener) c).1
accept_inbound id (some o) c = record c { inbound = some id }

-- and from where the client is locked again; whether it is closed is not looked at.
abbrev pub register_accepted : ℕ → Client → Client
register_accepted id c = elim (lookup id c.registries.streams) [
  | some s ↦ (write (reset id duplicate_stream) c).1
  | none ↦
      if leb max_concurrent_streams (length c.registries.streams)
      then (write (reset id too_many_streams) c).1
      else set_streams (insert id (length c.stream_store) c.registries.streams)
          (record c { stream_store = c.stream_store ++ inbound_stream ∷ [] })
]

abbrev pub finish_inbound : Option ℕ → Client → Client
finish_inbound none c = c
finish_inbound (some id) c = register_accepted id (record c { inbound = none })

abbrev pub is_reverse_datagram_type : ℕ → Bool
is_reverse_datagram_type kind =
    kind == type_listen_datagram_ok
    || kind == type_listen_datagram_error
    || kind == type_listen_datagram_data
    || kind == type_listen_datagram_close

abbrev pub is_datagram_type : ℕ → Bool
is_datagram_type kind =
    kind == type_datagram_ok
    || kind == type_datagram_error
    || kind == type_datagram_data
    || kind == type_datagram_close

-- A reverse datagram socket that ends takes itself out of the registry.
abbrev pub settle_reverse : ℕ → Bool → Client → Client
settle_reverse id true c = remove_reverse_datagram id c
settle_reverse id false c = c

-- What `f` makes of a reverse datagram socket, its removal when that ends it included.
abbrev pub on_reverse : (ReverseDatagram → ReverseDatagram) → Option ℕ → Client → Client
on_reverse f none c = c
on_reverse f (some o) c = elim (get_elem? c.reverse_store o) [
  | none ↦ c
  | some l ↦
      settle_reverse l.id (not l.done && (f l).done)
        (record c { reverse_store = change f o c.reverse_store })
]

unfoldable pub dispatch : ℕ → ℕ → List ℕ → Client → Client
unfolding lookup delete write decode_hello_ok handle handle_packet handle_reverse
    remove_reverse_datagram
dispatch kind id payload c =
    if kind == type_hello_ok
    then hello payload c
    else if is_reverse_datagram_type kind
    then on_reverse (handle_reverse kind payload) (lookup id c.registries.reverse_datagrams) c
    else if is_datagram_type kind
    then record c {
      packet_store =
          change_registered (handle_packet kind payload) (lookup id c.registries.datagrams)
            c.packet_store;
    }
    else if kind == type_listen_ok || kind == type_listen_error
    then record c {
      listener_store =
          change_registered (answer_listener kind payload) (lookup id c.registries.listeners)
            c.listener_store;
    }
    else if kind == type_inbound_open
    then if not (length payload == 4)
      then c
      else accept_inbound id (lookup (uint32 payload) c.registries.listeners) c
    else record c {
      stream_store =
          change_registered (handle kind payload) (lookup id c.registries.streams) c.stream_store;
    }

-- acceptInbound where its dial fails; `id` is the stream's
unfoldable pub inbound_refused : ℕ → Client → Client
unfolding write remove_stream
inbound_refused id c = remove_stream id (write (reset id dial_refused) c).1

-- Close of a stream; the frame is the stream's.
unfoldable pub close_stream : ℕ → ℕ → Client → Client
unfolding remove_stream close
close_stream id o c = remove_stream id (record c { stream_store = change close o c.stream_store })

-- Close of a listener and of a reservation
abbrev pub close_found : ℕ → Option ClientListener → Client → Client
close_found o none c = c
close_found o (some l) c =
    if l.closing
    then c
    else (write (frame type_listen_close l.id []) (
        remove_listener l.id
          (record c { listener_store = change invalidate o c.listener_store }))).1

unfoldable pub close_listener : ℕ → Client → Client
unfolding write remove_listener
close_listener o c = close_found o (get_elem? c.listener_store o) c

-- Close of a datagram association
abbrev pub close_packet_found : ℕ → Option PacketConn → Client → Client
close_packet_found o none c = c
close_packet_found o (some p) c =
    if p.closing
    then c
    else (write (frame type_datagram_close p.id []) (
        remove_datagram p.id (record c {
          packet_store =
              change (λ q. fail_packet eof (record q { closing = true })) o c.packet_store;
        }))).1

unfoldable pub close_packet : ℕ → Client → Client
unfolding write remove_datagram fail_packet
close_packet o c = close_packet_found o (get_elem? c.packet_store o) c

-- Close of a reverse datagram socket: nothing happens where it has already ended.
abbrev pub close_reverse_found : ℕ → Option ReverseDatagram → Client → Client
close_reverse_found o none c = c
close_reverse_found o (some l) c =
    if l.done
    then c
    else (write (frame type_listen_datagram_close l.id []) (
        remove_reverse_datagram l.id
          (record c { reverse_store = change shut o c.reverse_store }))).1

unfoldable pub close_reverse : ℕ → Client → Client
unfolding write remove_reverse_datagram
close_reverse o c = close_reverse_found o (get_elem? c.reverse_store o) c

-- a reservation's Commit, the first time
abbrev pub commit : ℕ → Option ClientListener → Client → Client
commit o none c = c
commit o (some l) c = (write (frame type_listen_commit l.id []) c).1

-- One goroutine reads frames: while it is at an INBOUND_OPEN it takes no other.
abbrev pub dispatch_next : ℕ → ℕ → List ℕ → Option ℕ → Client → Client
dispatch_next kind id payload none c = dispatch kind id payload c
dispatch_next kind id payload (some at) c = c

pub data Step : Type 0 where
  dials : List ℕ → Step
  reserves : List ℕ → List ℕ → Step
  opens_packet registers : Step
  forwards : Bool → List ℕ → List ℕ → Step
  dispatches : ℕ → ℕ → List ℕ → Step
  drops_stream drops_listener drops_packet drops_reverse : ℕ → Step
  inbound_fails commits closes_listener closes_packet closes_reverse : ℕ → Step
  closes_stream : ℕ → ℕ → Step
  writes_reverse : (List ℕ → Option (List ℕ)) → Option ℕ → Bool → ℕ → Step
  fails : ReadError → Step
  resets : Option ReadError → Step

-- The steps `drops` are calls that return an error after their object was registered. `registers` is
-- the rest of dispatch of an INBOUND_OPEN.
unfoldable pub step : Client → Step → Client
unfolding dial_context reserve_reverse_forward open_packet_context reverse_datagram_forward dispatch
    remove_stream remove_listener remove_datagram remove_reverse_datagram inbound_refused write
    close_listener close_packet close_reverse close_stream write_round fail_client reset_peer_state
step c (dials target) = (dial_context target c).1
step c (reserves address target) = (reserve_reverse_forward address target c).1
step c opens_packet = (open_packet_context c).1
step c (forwards resolved address target) = (reverse_datagram_forward resolved address target c).1
step c (dispatches kind id payload) = dispatch_next kind id payload c.inbound c
step c registers = finish_inbound c.inbound c
step c (drops_stream id) = remove_stream id c
step c (drops_listener id) = remove_listener id c
step c (drops_packet id) = remove_datagram id c
step c (drops_reverse id) = remove_reverse_datagram id c
step c (inbound_fails id) = inbound_refused id c
step c (commits o) = commit o (get_elem? c.listener_store o) c
step c (closes_listener o) = close_listener o c
step c (closes_packet o) = close_packet o c
step c (closes_reverse o) = close_reverse o c
step c (closes_stream id o) = close_stream id o c
step c (writes_reverse resolve dial refused o) =
    on_reverse (write_round resolve dial refused) (some o) c
step c (fails cause) = fail_client cause c
step c (resets cause) = reset_peer_state cause c

unfoldable pub steps : Client → List Step → Client
unfolding step
steps c [] = c
steps c (x ∷ xs) = steps (step c x) xs

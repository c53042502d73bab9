-- ===== src/Relay/Client.antt =====
-- internal/relay/client.go: the client of the relay, its registries of streams, listeners, datagram
-- associations and reverse datagram sockets. An object of each kind is named by its index in a store of
-- all that were made. Streams are those of Relay/Reader, each with a script of its own for its
-- frames; `link` is the script for the frames that the client sends itself and `sent` are those.
-- `closed` is the channel of that name with the error of the client's end.
pub mod Packet
pub mod Reverse
pub mod Steps
pub mod Registered
pub mod Dispatched
pub mod Closed
pub mod Ended
pub mod Lost
pub mod Waiting
pub mod Stranded
mod Examples
use wsl_win_relay.Base.{
  ℕ, zero, ◌+◌, ◌%◌, ◌^◌, ◌-◌, Bool, true, false, not, ◌&&◌, ◌||◌, List, [], ◌∷◌, ◌++◌, Option,
  none, some, leb, ltb, ◌==◌, if◌then◌else◌, length, get_elem?, set, Result, ok, err, map, uint32,
}
use wsl_win_relay.Protocol.Frame.{
  max_target_size, type_open, type_reset, type_close, type_hello_ok, type_listen_ok,
  type_listen_error, type_listen_open, type_listen_close, type_inbound_open, type_listen_commit,
  type_datagram_open, type_datagram_ok, type_datagram_error, type_datagram_data,
  type_datagram_close, type_listen_datagram_open, type_listen_datagram_ok,
  type_listen_datagram_error, type_listen_datagram_data, type_listen_datagram_close,
}
use wsl_win_relay.Protocol.Payload.{decode_hello_ok}
use wsl_win_relay.Relay.Reader.{
  ReadError, eof, told, link_failed, client_closed, peer_restarted, cancelled, Reader, new_reader,
  or_first, fail, handle,
}
use wsl_win_relay.Relay.Server.{max_concurrent_streams, lookup, delete}
use wsl_win_relay.Relay.Server.Listeners.{max_concurrent_listeners}
use wsl_win_relay.Relay.Server.Datagrams.{max_concurrent_datagrams}
use wsl_win_relay.Relay.Server.Datagrams.Reverse.{max_concurrent_reverse_datagrams}
use Packet.{PacketConn, new_packet_conn, fail_packet, handle_packet}
use Reverse.{ReverseDatagram, new_reverse_datagram, or_requested, fail_reverse, handle_reverse}

-- `closing` is the sync.Once of Close and invalidate, with the context that both cancel.
pub record ClientListener : Type 0 where
  pub id : ℕ
  pub requested_address : List ℕ
  pub ready : Option (Result ReadError (List ℕ))
  pub closing : Bool

abbrev pub new_listener : ℕ → List ℕ → ClientListener
new_listener id address = record {
  id = id;
  requested_address = address;
  ready = none;
  closing = false;
}

-- A frame that the client sends. The texts of its resets are named by what they report.
pub data Reset : Type 0 where
  unknown_listener duplicate_stream too_many_streams dial_refused : Reset

pub data Sent : Type 0 where
  frame : ℕ → ℕ → List ℕ → Sent
  reset : ℕ → Reset → Sent

pub record Registries : Type 0 where
  pub streams : List (ℕ × ℕ)
  pub listeners : List (ℕ × ℕ)
  pub datagrams : List (ℕ × ℕ)
  pub reverse_datagrams : List (ℕ × ℕ)

-- `inbound` is the INBOUND_OPEN that dispatch is at, once it has found the listener and not yet come
-- to registering the stream.
pub record Client : Type 0 where
  pub registries : Registries
  pub stream_store : List Reader
  pub listener_store : List ClientListener
  pub packet_store : List PacketConn
  pub reverse_store : List ReverseDatagram
  pub next_id : ℕ
  pub inbound : Option ℕ
  pub closed : Option ReadError
  pub hello_done : Option (Result ReadError (ℕ × ℕ))
  pub link : List Bool
  pub sent : List Sent

abbrev pub no_registries : Registries
no_registries = record { streams = []; listeners = []; datagrams = []; reverse_datagrams = [] }

abbrev pub new_client : List Bool → Client
new_client link = record {
  registries = no_registries;
  stream_store = [];
  listener_store = [];
  packet_store = [];
  reverse_store = [];
  next_id = 2 ^ 32 - 1;
  inbound = none;
  closed = none;
  hello_done = none;
  link = link;
  sent = [];
}

-- write: whether it failed
unfoldable pub write : Sent → Client → Bool × Client
write f c = elim c.link [
  | [] ↦ (false, record c { sent = c.sent ++ f ∷ [] })
  | true ∷ link ↦ (true, record c { link = link })
  | false ∷ link ↦ (false, record c { link = link; sent = c.sent ++ f ∷ [] })
]

-- `m[id] = o`
abbrev pub insert : ℕ → ℕ → List (ℕ × ℕ) → List (ℕ × ℕ)
insert id o m = (id, o) ∷ delete id m

abbrev pub set_streams : List (ℕ × ℕ) → Client → Client
set_streams m c = record c { registries = record c.registries { streams = m } }

abbrev pub set_listeners : List (ℕ × ℕ) → Client → Client
set_listeners m c = record c { registries = record c.registries { listeners = m } }

abbrev pub set_datagrams : List (ℕ × ℕ) → Client → Client
set_datagrams m c = record c { registries = record c.registries { datagrams = m } }

abbrev pub set_reverse_datagrams : List (ℕ × ℕ) → Client → Client
set_reverse_datagrams m c = record c { registries = record c.registries { reverse_datagrams = m } }

unfoldable pub remove_stream : ℕ → Client → Client
unfolding delete
remove_stream id c = set_streams (delete id c.registries.streams) c

unfoldable pub remove_listener : ℕ → Client → Client
unfolding delete
remove_listener id c = set_listeners (delete id c.registries.listeners) c

unfoldable pub remove_datagram : ℕ → Client → Client
unfolding delete
remove_datagram id c = set_datagrams (delete id c.registries.datagrams) c

unfoldable pub remove_reverse_datagram : ℕ → Client → Client
unfolding delete
remove_reverse_datagram id c = set_reverse_datagrams (delete id c.registries.reverse_datagrams) c

-- `nextID.Add(2)` on a uint32
abbrev pub next : Client → ℕ
next c = (c.next_id + 2) % 2 ^ 32

-- The text of a target or an address: not empty and not too long.
abbrev pub is_target : List ℕ → Bool
is_target target = not (length target == 0) && leb (length target) max_target_size

-- Whether an object may be registered: the client is not closed and has room.
abbrev pub has_room : ℕ → List (ℕ × ℕ) → Client → Bool
has_room limit m c = elim c.closed [ none ↦ ltb (length m) limit | some e ↦ false ]

abbrev pub or_undo : (Client → Client) → Bool × Client → Bool × Client
or_undo undo (true, c) = (false, undo c)
or_undo undo (false, c) = (true, c)

-- DialContext up to its select: whether it gets there
unfoldable pub dial_context : List ℕ → Client → Bool × Client
unfolding write remove_stream
dial_context target c =
    if not (is_target target)
    then (false, c)
    else let id = next c in
      let c' = record c { next_id = id } in
      if has_room max_concurrent_streams c.registries.streams c
      then or_undo (remove_stream id) (
          write (frame type_open id target) (
            set_streams (insert id (length c.stream_store) c.registries.streams)
              (record c' { stream_store = c.stream_store ++ new_reader [] ∷ [] })))
      else (false, c')

-- ReserveReverseForward up to its select; `target` is the address in WSL
unfoldable pub reserve_reverse_forward : List ℕ → List ℕ → Client → Bool × Client
unfolding write remove_listener
reserve_reverse_forward address target c =
    if not (is_target address && is_target target)
    then (false, c)
    else let id = next c in
      let c' = record c { next_id = id } in
      if has_room max_concurrent_listeners c.registries.listeners c
      then or_undo (remove_listener id) (
          write (frame type_listen_open id address) (
            set_listeners (insert id (length c.listener_store) c.registries.listeners)
              (record c' { listener_store = c.listener_store ++ new_listener id address ∷ [] })))
      else (false, c')

-- OpenPacketContext up to its select
unfoldable pub open_packet_context : Client → Bool × Client
unfolding write remove_datagram
open_packet_context c =
    let id = next c in
    let c' = record c { next_id = id } in
    if has_room max_concurrent_datagrams c.registries.datagrams c
    then or_undo (remove_datagram id) (
        write (frame type_datagram_open id []) (
          set_datagrams (insert id (length c.packet_store) c.registries.datagrams)
            (record c' { packet_store = c.packet_store ++ new_packet_conn id ∷ [] })))
    else (false, c')

-- ReverseDatagramForward up to its select; `resolved` says whether ResolveUDPAddr finds the target.
unfoldable pub reverse_datagram_forward : Bool → List ℕ → List ℕ → Client → Bool × Client
unfolding write remove_reverse_datagram
reverse_datagram_forward resolved address target c =
    if not (is_target address && is_target target && resolved)
    then (false, c)
    else let id = next c in
      let c' = record c { next_id = id } in
      if has_room max_concurrent_reverse_datagrams c.registries.reverse_datagrams c
      then or_undo (remove_reverse_datagram id) (
          write (frame type_listen_datagram_open id address) (
            set_reverse_datagrams
              (insert id (length c.reverse_store) c.registries.reverse_datagrams)
              (record c' {
                reverse_store = c.reverse_store ++ new_reverse_datagram id address ∷ [];
              })))
      else (false, c')

-- The object of a store, changed where it is.
abbrev pub change {ℓ} : {A : Type ℓ} → (A → A) → ℕ → List A → List A
change f o store = elim (get_elem? store o) [ none ↦ store | some x ↦ set store o (f x) ]

abbrev pub change_registered {ℓ} : {A : Type ℓ} → (A → A) → Option ℕ → List A → List A
change_registered f none store = store
change_registered f (some o) store = change f o store

-- invalidate and Close of a listener, as far as the listener is concerned
abbrev pub invalidate : ClientListener → ClientListener
invalidate l = record l { closing = true }

abbrev pub change_all {ℓ} : {A : Type ℓ} → (A → A) → List (ℕ × ℕ) → List A → List A
change_all f [] store = store
change_all f ((id, o) ∷ m) store = change_all f m (change f o store)

-- The end of everything that is registered: what fail and ResetPeerState share. The objects take
-- themselves out of registries that are empty by then.
unfoldable pub end_all : ReadError → Client → Client
unfolding fail fail_packet fail_reverse
end_all cause c = record c {
  registries = no_registries;
  stream_store = change_all (fail cause) c.registries.streams c.stream_store;
  listener_store = change_all invalidate c.registries.listeners c.listener_store;
  packet_store = change_all (fail_packet cause) c.registries.datagrams c.packet_store;
  reverse_store = change_all (fail_reverse cause) c.registries.reverse_datagrams c.reverse_store;
}

-- the client's fail, whose sync.Once is `closed`
unfoldable pub fail_client : ReadError → Client → Client
unfolding end_all
fail_client cause c = elim c.closed [
  | some e ↦ c
  | none ↦
      end_all cause
        (record c { closed = some cause; hello_done = or_first c.hello_done (err cause) })
]

unfoldable pub reset_peer_state : Option ReadError → Client → Client
unfolding end_all
reset_peer_state none c = end_all peer_restarted c
reset_peer_state (some cause) c = end_all cause c

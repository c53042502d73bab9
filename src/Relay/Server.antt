-- ===== src/Relay/Server.antt =====
-- internal/relay/server.go: the streams of the relay server. A stream is named by its index in a
-- store of all streams ever made, which is what the code's pointers compare; the registry maps
-- identifiers to streams. `link` says of each frame sent whether the sending fails; a link that is
-- used up works. A frame that reports an error is recorded with the error, not with its text.
pub mod Steps
pub mod Registered
pub mod Limits
pub mod Bounded
pub mod Removal
pub mod Overflow
pub mod Datagrams
pub mod Listeners
mod Examples
use wsl_win_relay.Base.{
  ℕ, zero, suc, ◌+◌, ◌/◌, ◌%◌, ◌^◌, Bool, true, false, not, ◌||◌, List, [], ◌∷◌, ◌++◌, Option, none,
  some, leb, ltb, ◌==◌, if◌then◌else◌, length, get_elem?, set, drop,
}
use wsl_win_relay.Protocol.Frame.{
  initial_stream_window, max_data_size, type_open_ok, type_open_error, type_reset,
}
use wsl_win_relay.Relay.Window.{FlowWindow, new_flow_window}

abbrev pub max_concurrent_streams : ℕ
max_concurrent_streams = 512

-- the capacity of a stream's channel `incoming`
abbrev pub queue_size : ℕ
queue_size = initial_stream_window / max_data_size + 2

pub data StreamEvent : Type 0 where
  content : List ℕ → StreamEvent
  half_close : StreamEvent

pub record Stream : Type 0 where
  pub conn : Option ℕ
  pub incoming : List StreamEvent
  pub send_window : FlowWindow
  pub done : Bool

pub data Failure : Type 0 where
  invalid_open limit_reached dial_failed receive_window_exceeded bad_window_update : Failure
  write_failed short_write close_write_failed : Failure
  bad_datagram resolve_failed listen_failed : Failure

pub data Sent : Type 0 where
  frame : ℕ → ℕ → List ℕ → Sent
  failure : ℕ → ℕ → Failure → Sent

pub record Server : Type 0 where
  pub streams : List (ℕ × ℕ)
  pub store : List Stream
  pub closed_conns : List ℕ
  pub next_stream : ℕ
  pub link : List Bool
  pub sent : List Sent

abbrev pub new_server : List Bool → Server
new_server link = record {
  streams = [];
  store = [];
  closed_conns = [];
  next_stream = 0;
  link = link;
  sent = [];
}

abbrev pub new_stream : Option ℕ → Stream
new_stream conn = record { conn = conn; incoming = []; send_window = new_flow_window; done = false }

unfoldable pub lookup : ℕ → List (ℕ × ℕ) → Option ℕ
lookup id [] = none
lookup id ((k, o) ∷ m) = let rest = lookup id m in if k == id then some o else rest

unfoldable pub delete : ℕ → List (ℕ × ℕ) → List (ℕ × ℕ)
delete id [] = []
delete id ((k, o) ∷ m) = let rest = delete id m in if k == id then rest else (k, o) ∷ rest

-- the stream that an identifier names, with its place in the store
unfoldable pub stream_of : ℕ → Server → Option (ℕ × Stream)
unfolding lookup
stream_of id s = elim (lookup id s.streams) [
  | none ↦ none
  | some o ↦ elim (get_elem? s.store o) [ none ↦ none | some x ↦ some (o, x) ]
]

abbrev pub update : ℕ → Stream → Server → Server
update o x s = record s { store = set s.store o x }

-- send: whether it failed
unfoldable pub send : Sent → Server → Bool × Server
send f s = elim s.link [
  | [] ↦ (false, record s { sent = s.sent ++ f ∷ [] })
  | true ∷ link ↦ (true, record s { link = link })
  | false ∷ link ↦ (false, record s { link = link; sent = s.sent ++ f ∷ [] })
]

abbrev pub close_conn : Option ℕ → Server → Server
close_conn none s = s
close_conn (some c) s = record s { closed_conns = s.closed_conns ++ c ∷ [] }

-- the body of closeOnce
abbrev pub finish : ℕ → Stream → Server → Server
finish o x s = if x.done then s else close_conn x.conn (update o (record x { done = true }) s)

abbrev pub finish_found : Option (ℕ × Stream) → Server → Server
finish_found none s = s
finish_found (some (o, x)) s = finish o x s

unfoldable pub remove : ℕ → Server → Server
unfolding stream_of delete
remove id s = finish_found (stream_of id s) (record s { streams = delete id s.streams })

unfoldable pub reset : ℕ → Failure → Server → Server
unfolding remove send
reset id f s = remove id (send (failure type_reset id f) s).1

abbrev pub register : ℕ → Option ℕ → Server → Server
register id conn s = record s {
  streams = (id, length s.store) ∷ s.streams;
  store = s.store ++ new_stream conn ∷ [];
}

-- open up to its call of dial: whether it is made
unfoldable pub open_stream : ℕ → List ℕ → Server → Bool × Server
unfolding send lookup
open_stream id target s =
    if id == 0 || length target == 0
    then (false, (send (failure type_open_error id invalid_open) s).1)
    else elim (lookup id s.streams) [
      | some o ↦ (false, s)
      | none ↦
          if leb max_concurrent_streams (length s.streams)
          then (false, (send (failure type_open_error id limit_reached) s).1)
          else (true, register id none s)
    ]

abbrev pub confirm : ℕ → Bool × Server → Server
confirm id (true, s) = remove id s
confirm id (false, s) = s

abbrev pub connected : ℕ → ℕ → Option (ℕ × Stream) → Server → Server
connected id conn none s = close_conn (some conn) s
connected id conn (some (o, x)) s =
    confirm id (send (frame type_open_ok id []) (update o (record x { conn = some conn }) s))

-- the rest of open: `none` is a dial that failed
unfoldable pub dialed : ℕ → Option ℕ → Server → Server
unfolding remove send stream_of
dialed id none s = (send (failure type_open_error id dial_failed) (remove id s)).1
dialed id (some conn) s = connected id conn (stream_of id s) s

-- registerInboundStream; nextStream is a uint32. A connection that is not accepted is closed.
unfoldable pub register_inbound : ℕ → Server → Option ℕ × Server
unfolding lookup
register_inbound conn s =
    if leb max_concurrent_streams (length s.streams)
    then (none, close_conn (some conn) s)
    else let id = (s.next_stream + 2) % 2 ^ 32 in
      elim (lookup id s.streams) [
        | some o ↦ (none, close_conn (some conn) (record s { next_stream = id }))
        | none ↦ (some id, register id (some conn) (record s { next_stream = id }))
      ]

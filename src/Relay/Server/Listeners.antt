-- ===== src/Relay/Server/Listeners.antt =====
-- internal/relay/server.go: the TCP listeners of the relay server and the connections that they accept.
-- A listener is named by its index in a store of all that were made; it has with it the goroutine of
-- openListener and serveListener: its identifier, whether it still waits for package net, and whether it
-- has returned. `server` has the streams, the link and the frames sent.
mod Examples
pub mod Accepted
use wsl_win_relay.Base.{
  ℕ, zero, Bool, true, false, not, ◌&&◌, ◌||◌, List, [], ◌∷◌, ◌++◌, Option, none, some, leb, ◌==◌,
  if◌then◌else◌, length, get_elem?, set, put_uint32, map,
}
use wsl_win_relay.Protocol.Frame.{
  type_listen_ok, type_listen_error, type_listen_close, type_inbound_open,
}
use wsl_win_relay.Relay.Server.{
  Failure, limit_reached, invalid_open, listen_failed, Sent, frame, failure, Server, new_server,
  lookup, delete, send, remove, register_inbound,
}
use wsl_win_relay.Relay.Server.Datagrams.Reverse.{bound_address_payload}

abbrev pub max_concurrent_listeners : ℕ
max_concurrent_listeners = 256

pub record Listener : Type 0 where
  pub id : ℕ
  pub binding : Bool
  pub socket : Option ℕ
  pub cancelled : Bool
  pub committed : Bool
  pub finished : Bool

pub record Listeners : Type 0 where
  pub registry : List (ℕ × ℕ)
  pub store : List Listener
  pub closed_sockets : List ℕ
  pub peer_capabilities : ℕ
  pub cancelled : Bool
  pub server : Server

abbrev pub new_listener : ℕ → Listener
new_listener id = record {
  id = id;
  binding = true;
  socket = none;
  cancelled = false;
  committed = false;
  finished = false;
}

abbrev pub new_listeners : ℕ → List Bool → Listeners
new_listeners capabilities link = record {
  registry = [];
  store = [];
  closed_sockets = [];
  peer_capabilities = capabilities;
  cancelled = false;
  server = new_server link;
}

abbrev pub update : ℕ → Listener → Listeners → Listeners
update o x s = record s { store = set s.store o x }

abbrev pub answer : Sent → Listeners → Bool × Listeners
answer f s = let (failed, server) = send f s.server in (failed, record s { server = server })

abbrev pub close_socket : Option ℕ → Listeners → Listeners
close_socket none s = s
close_socket (some c) s = record s { closed_sockets = s.closed_sockets ++ c ∷ [] }

unfoldable pub listener_of : ℕ → Listeners → Option (ℕ × Listener)
unfolding lookup
listener_of id s = elim (lookup id s.registry) [
  | none ↦ none
  | some o ↦ elim (get_elem? s.store o) [ none ↦ none | some x ↦ some (o, x) ]
]

abbrev pub cancel_found : Option (ℕ × Listener) → Listeners → Listeners
cancel_found none s = s
cancel_found (some (o, x)) s = close_socket x.socket (update o (record x { cancelled = true }) s)

unfoldable pub remove_listener : ℕ → Listeners → Listeners
unfolding listener_of delete
remove_listener id s =
    cancel_found (listener_of id s) (record s { registry = delete id s.registry })

abbrev pub register : ℕ → Listeners → Listeners
register id s = record s {
  registry = (id, length s.store) ∷ s.registry;
  store = s.store ++ new_listener id ∷ [];
}

-- openListener up to its call of net.Listen: whether it is made
unfoldable pub open_listener : ℕ → List ℕ → Listeners → Bool × Listeners
unfolding lookup send
open_listener id address s =
    if id == 0 || length address == 0
    then (false, (answer (failure type_listen_error id invalid_open) s).1)
    else elim (lookup id s.registry) [
      | some o ↦ (false, s)
      | none ↦
          if leb max_concurrent_listeners (length s.registry)
          then (false, (answer (failure type_listen_error id limit_reached) s).1)
          else (true, register id s)
    ]

-- `s.listeners[id] == listener`
abbrev pub is_registered : ℕ → ℕ → Listeners → Bool
is_registered id o s = elim (lookup id s.registry) [ none ↦ false | some p ↦ p == o ]

-- The identifier is only given up by the listener that has it.
abbrev pub listen_failure : ℕ → Listener → Listeners → Listeners
listen_failure o x s =
    let s' = if is_registered x.id o s then record s { registry = delete x.id s.registry } else s in
    (answer (failure type_listen_error x.id listen_failed)
      (update o (record x { binding = false; cancelled = true }) s')).1

abbrev pub confirm : ℕ → Bool × Listeners → Listeners
confirm id (true, s) = remove_listener id s
confirm id (false, s) = s

-- the rest of openListener: `none` is an error of net.Listen
abbrev pub listened : Option (ℕ × List ℕ) → ℕ → Listener → Listeners → Listeners
listened none o x s = listen_failure o x s
listened (some (socket, address)) o x s =
    if is_registered x.id o s && not x.cancelled && not s.cancelled
    then confirm x.id (
        answer
          (frame type_listen_ok x.id (bound_address_payload s.peer_capabilities (some address)))
          (update o (record x { binding = false; socket = some socket }) s))
    else close_socket (some socket) (update o (record x { binding = false; cancelled = true }) s)

unfoldable pub commit_listener : ℕ → Listeners → Listeners
unfolding listener_of
commit_listener id s = elim (listener_of id s) [
  | none ↦ s
  | some (o, x) ↦ update o (record x { committed = true }) s
]

-- INBOUND_OPEN for a registered connection, and whether its sending failed: the stream is removed then.
abbrev pub announced : ℕ → Bool × Server → Bool × Server
announced stream (true, s) = (true, remove stream s)
announced stream (false, s) = (false, s)

abbrev pub announce : ℕ → Option ℕ × Server → Bool × Server
announce id (none, s) = (false, s)
announce id (some stream, s) =
    announced stream (send (frame type_inbound_open stream (put_uint32 id)) s)

-- A connection that the listener `id` accepts, and whether serveListener returns.
unfoldable pub accept : ℕ → ℕ → Server → Bool × Server
unfolding register_inbound send remove
accept id conn s = announce id (register_inbound conn s)

-- One round of the loop of serveListener, behind its wait for the commit: `none` is an error of Accept.
abbrev pub serve_listener : Option ℕ → ℕ → Listener → Listeners → Listeners
serve_listener none o x s =
    (answer (frame type_listen_close x.id [])
      (remove_listener x.id (update o (record x { finished = true }) s))).1
serve_listener (some conn) o x s =
    let (returns, server) = accept x.id conn s.server in
    update o (record x { finished = returns }) (record s { server = server })

unfoldable pub remove_listeners : List ℕ → Listeners → Listeners
unfolding remove_listener
remove_listeners [] s = s
remove_listeners (id ∷ more) s = remove_listeners more (remove_listener id s)

-- shutdown, as far as it is about listeners, with the context that it cancels
unfoldable pub shutdown : Listeners → Listeners
unfolding remove_listeners
shutdown s = remove_listeners (map (λ e. e.0) s.registry) (record s { cancelled = true })

pub data Step : Type 0 where
  opens : ℕ → List ℕ → Step
  listens : ℕ → Option (ℕ × List ℕ) → Step
  commits closes : ℕ → Step
  accepts : ℕ → Option ℕ → Step
  shuts_down : Step

-- The goroutine of the listener `o`, while it binds and behind the commit.
abbrev pub while_binding :
    (Listener → Listeners → Listeners) → Listeners → Option Listener → Listeners
while_binding f s none = s
while_binding f s (some x) = if x.binding then f x s else s

abbrev pub while_serving :
    (Listener → Listeners → Listeners) → Listeners → Option Listener → Listeners
while_serving f s none = s
while_serving f s (some x) = if not x.binding && x.committed && not x.finished then f x s else s

unfoldable pub step : Listeners → Step → Listeners
unfolding open_listener commit_listener remove_listener accept send shutdown
step s (opens id address) = (open_listener id address s).1
step s (listens o r) = while_binding (listened r o) s (get_elem? s.store o)
step s (commits id) = commit_listener id s
step s (closes id) = remove_listener id s
step s (accepts o conn) = while_serving (serve_listener conn o) s (get_elem? s.store o)
step s shuts_down = shutdown s

unfoldable pub steps : Listeners → List Step → Listeners
unfolding step
steps s [] = s
steps s (x ∷ xs) = steps (step s x) xs

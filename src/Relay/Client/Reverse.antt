-- ===== src/Relay/Client/Reverse.antt =====
-- internal/relay/client.go: clientReverseDatagram, a datagram socket on Windows seen from the client,
-- and the sockets in WSL that it keeps, one for each remote address (flows). `closed_conns` are the
-- sockets that were closed; `opened`, which is no field of the code, are all that were made.
pub mod Keys
pub mod Flows
use wsl_win_relay.Base.{
  ℕ, Bool, true, false, ◌||◌, List, [], ◌∷◌, ◌++◌, Option, none, some, leb, ltb, ◌==◌,
  if◌then◌else◌, length, Result, ok, err, bytes_eq, map,
}
use wsl_win_relay.Protocol.Frame.{
  type_listen_datagram_ok, type_listen_datagram_error, type_listen_datagram_data,
  type_listen_datagram_close,
}
use wsl_win_relay.Protocol.Payload.{decode_datagram}
use wsl_win_relay.Relay.Reader.{
  ReadError, eof, told, bad_datagram, resolve_failed, dial_failed, or_first,
}
use wsl_win_relay.Relay.Server.Datagrams.{datagram_queue_depth}

abbrev pub max_reverse_datagram_flows : ℕ
max_reverse_datagram_flows = 256

pub record ReverseDatagram : Type 0 where
  pub id : ℕ
  pub requested_address : List ℕ
  pub ready : Option (Result ReadError (List ℕ))
  pub incoming : List (List ℕ)
  pub done : Bool
  pub flows : List (List ℕ × ℕ)
  pub closed_conns : List ℕ
  pub written : List (ℕ × List ℕ)
  pub opened : List ℕ

abbrev pub new_reverse_datagram : ℕ → List ℕ → ReverseDatagram
new_reverse_datagram id address = record {
  id = id;
  requested_address = address;
  ready = none;
  incoming = [];
  done = false;
  flows = [];
  closed_conns = [];
  written = [];
  opened = [];
}

-- The body of closeOnce that fail and Close share, but for the client's registry.
abbrev pub shut : ReverseDatagram → ReverseDatagram
shut l = if l.done then l else record l {
  done = true;
  flows = [];
  closed_conns = l.closed_conns ++ map (λ f. f.1) l.flows;
}

unfoldable pub fail_reverse : ReadError → ReverseDatagram → ReverseDatagram
fail_reverse e l = shut (record l { ready = or_first l.ready (err e) })

-- An empty address stands for the one that was asked for.
abbrev pub or_requested : List ℕ → List ℕ → List ℕ
or_requested requested [] = requested
or_requested requested (b ∷ bs) = b ∷ bs

unfoldable pub handle_reverse : ℕ → List ℕ → ReverseDatagram → ReverseDatagram
unfolding fail_reverse
handle_reverse kind payload l =
    if kind == type_listen_datagram_ok
    then record l { ready = or_first l.ready (ok (or_requested l.requested_address payload)) }
    else if kind == type_listen_datagram_error
    then fail_reverse (told payload) (record l { ready = or_first l.ready (err (told payload)) })
    else if kind == type_listen_datagram_close
    then fail_reverse eof l
    else if kind == type_listen_datagram_data
    then if ltb (length l.incoming) datagram_queue_depth
      then record l { incoming = l.incoming ++ payload ∷ [] }
      else l
    else l

unfoldable pub flow_of : List ℕ → List (List ℕ × ℕ) → Option ℕ
unfolding bytes_eq
flow_of key [] = none
flow_of key ((k, c) ∷ m) = let rest = flow_of key m in if bytes_eq k key then some c else rest

-- `delete(l.flows, flow.key)`, if the flow of that key is this one, and the flow's close
unfoldable pub drop_flow : List ℕ → List (List ℕ × ℕ) → List (List ℕ × ℕ)
unfolding bytes_eq
drop_flow key [] = []
drop_flow key ((k, c) ∷ m) =
    let rest = drop_flow key m in if bytes_eq k key then rest else (k, c) ∷ rest

unfoldable pub remove_flow : List ℕ → ℕ → ReverseDatagram → ReverseDatagram
unfolding flow_of drop_flow
remove_flow key conn l = elim (flow_of key l.flows) [
  | none ↦ record l { closed_conns = l.closed_conns ++ conn ∷ [] }
  | some c ↦ record l {
    flows = if c == conn then drop_flow key l.flows else l.flows;
    closed_conns = l.closed_conns ++ conn ∷ [];
  }
]

abbrev pub send_flow : Bool → List ℕ → ℕ → List ℕ → ReverseDatagram → ReverseDatagram
send_flow fails key conn content l =
    if fails
    then remove_flow key conn l
    else record l { written = l.written ++ (conn, content) ∷ [] }

-- The flow of the key `key`; `dial` is what DialUDP returns if it is called.
abbrev pub use_flow :
    Option ℕ → Bool → List ℕ → List ℕ → Option ℕ → ReverseDatagram → ReverseDatagram
use_flow dial fails key content (some conn) l = send_flow fails key conn content l
use_flow dial fails key content none l =
    if leb max_reverse_datagram_flows (length l.flows) then l else elim dial [
      | none ↦ fail_reverse dial_failed l
      | some conn ↦
          send_flow fails key conn content
            (record l { flows = (key, conn) ∷ l.flows; opened = l.opened ++ conn ∷ [] })
    ]

-- writeDatagram: `resolve` is resolveUDP with the text of the address that it returns
unfoldable pub write_datagram :
    (List ℕ → Option (List ℕ)) → Option ℕ → Bool → List ℕ → ReverseDatagram → ReverseDatagram
unfolding decode_datagram fail_reverse flow_of remove_flow
write_datagram resolve dial fails payload l = elim (decode_datagram payload) [
  | err e ↦ fail_reverse bad_datagram l
  | ok (endpoint, content) ↦ elim (resolve endpoint) [
    | none ↦ fail_reverse resolve_failed l
    | some key ↦ if l.done then l else use_flow dial fails key content (flow_of key l.flows) l
  ]
]

-- One round of writeDatagrams: it returns, and takes nothing more, once the listener is done.
unfoldable pub write_round :
    (List ℕ → Option (List ℕ)) → Option ℕ → Bool → ReverseDatagram → ReverseDatagram
unfolding write_datagram
write_round resolve dial fails l = elim l.incoming [
  | [] ↦ l
  | payload ∷ rest ↦
      let l' = record l { incoming = rest } in
      if l.done then l' else write_datagram resolve dial fails payload l'
]

-- What happens to a listener: a frame, a round of writeDatagrams, the end of a flow's readLoop, or
-- Close, as far as it is about the listener.
pub data Event : Type 0 where
  handles : ℕ → List ℕ → Event
  writes : (List ℕ → Option (List ℕ)) → Option ℕ → Bool → Event
  ends : List ℕ → ℕ → Event
  closes : Event

unfoldable pub event : ReverseDatagram → Event → ReverseDatagram
unfolding handle_reverse write_round remove_flow
event l (handles kind payload) = handle_reverse kind payload l
event l (writes resolve dial fails) = write_round resolve dial fails l
event l (ends key conn) = remove_flow key conn l
event l closes = shut l

unfoldable pub events : ReverseDatagram → List Event → ReverseDatagram
unfolding event
events l [] = l
events l (x ∷ xs) = events (event l x) xs

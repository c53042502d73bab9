-- ===== src/Relay/Server/Datagrams.antt =====
-- internal/relay/server.go: the datagram associations of the relay server, those that clients open
-- and the sockets on Windows that listen for them (reverse datagrams). The code has the same text
-- for both, with other limits and frames; each kind has a registry of its own. As with streams, an
-- association is named by its index in a store of all that were ever made, and `link` says which
-- sendings fail. An association has with it the goroutine that opens it: the identifier that it was
-- called with, and whether it still dials. `written` lists what the sockets were given to send.
pub mod Steps
pub mod Reverse
pub mod Kept
pub mod Removed
pub mod Moves
pub mod Owned
pub mod ReverseOwned
mod Examples
use wsl_win_relay.Base.{
  ℕ, ◌/◌, Bool, true, false, not, ◌&&◌, ◌||◌, List, [], ◌∷◌, ◌++◌, Option, none, some, leb, ltb,
  ◌==◌, if◌then◌else◌, length, get_elem?, set, Result, ok, err,
}
use wsl_win_relay.Protocol.Frame.{type_datagram_ok, type_datagram_error, type_datagram_data}
use wsl_win_relay.Protocol.Payload.{encode_datagram, decode_datagram}
use wsl_win_relay.Relay.Server.{
  Failure, limit_reached, dial_failed, bad_datagram, resolve_failed, write_failed, Sent, frame,
  failure, lookup, delete,
}

abbrev pub max_concurrent_datagrams : ℕ
max_concurrent_datagrams = 64

abbrev pub datagram_queue_depth : ℕ
datagram_queue_depth = 16

pub record Association : Type 0 where
  pub id : ℕ
  pub dialing : Bool
  pub conn : Option ℕ
  pub incoming : List (List ℕ)
  pub done : Bool

-- `cancelled` is the context of the server.
pub record Associations : Type 0 where
  pub registry : List (ℕ × ℕ)
  pub store : List Association
  pub closed_conns : List ℕ
  pub cancelled : Bool
  pub written : List (ℕ × List ℕ × List ℕ)
  pub link : List Bool
  pub sent : List Sent

abbrev pub new_associations : List Bool → Associations
new_associations link = record {
  registry = [];
  store = [];
  closed_conns = [];
  cancelled = false;
  written = [];
  link = link;
  sent = [];
}

abbrev pub new_association : ℕ → Association
new_association id = record { id = id; dialing = true; conn = none; incoming = []; done = false }

-- send: whether it failed
unfoldable pub send : Sent → Associations → Bool × Associations
send f s = elim s.link [
  | [] ↦ (false, record s { sent = s.sent ++ f ∷ [] })
  | true ∷ link ↦ (true, record s { link = link })
  | false ∷ link ↦ (false, record s { link = link; sent = s.sent ++ f ∷ [] })
]

abbrev pub update : ℕ → Association → Associations → Associations
update o x s = record s { store = set s.store o x }

abbrev pub close_conn : Option ℕ → Associations → Associations
close_conn none s = s
close_conn (some c) s = record s { closed_conns = s.closed_conns ++ c ∷ [] }

-- the association that an identifier names, with its place in the store
unfoldable pub association_of : ℕ → Associations → Option (ℕ × Association)
unfolding lookup
association_of id s = elim (lookup id s.registry) [
  | none ↦ none
  | some o ↦ elim (get_elem? s.store o) [ none ↦ none | some x ↦ some (o, x) ]
]

abbrev pub finish_found : Option (ℕ × Association) → Associations → Associations
finish_found none s = s
finish_found (some (o, x)) s =
    if x.done then s else close_conn x.conn (update o (record x { done = true }) s)

unfoldable pub remove_datagram : ℕ → Associations → Associations
unfolding association_of delete
remove_datagram id s =
    finish_found (association_of id s) (record s { registry = delete id s.registry })

abbrev pub register : ℕ → Associations → Associations
register id s = record s {
  registry = (id, length s.store) ∷ s.registry;
  store = s.store ++ new_association id ∷ [];
}

-- The part of the two open methods under their lock.
unfoldable pub claim : ℕ → ℕ → ℕ → Associations → Bool × Associations
unfolding lookup send
claim limit error_type id s = elim (lookup id s.registry) [
  | some o ↦ (false, s)
  | none ↦
      if leb limit (length s.registry)
      then (false, (send (failure error_type id limit_reached) s).1)
      else (true, register id s)
]

-- openDatagram up to its call of packetDial: whether it is made
unfoldable pub open_datagram : ℕ → Associations → Bool × Associations
unfolding claim
open_datagram id s = claim max_concurrent_datagrams type_datagram_error id s

abbrev pub confirm : ℕ → Bool × Associations → Associations
confirm id (true, s) = remove_datagram id s
confirm id (false, s) = s

-- `s.datagrams[id] == datagram && datagramCtx.Err() == nil`
abbrev pub is_current : ℕ → Association → Associations → Bool
is_current o x s = elim (lookup x.id s.registry) [
  | none ↦ false
  | some p ↦ p == o && not x.done && not s.cancelled
]

-- A socket that was made for the association `o`: it is kept where the association is still
-- registered, and closed otherwise.
abbrev pub keep_conn : Sent → ℕ → ℕ → Association → Associations → Associations
keep_conn reply conn o x s =
    if is_current o x s
    then confirm x.id (send reply (update o (record x { conn = some conn; dialing = false }) s))
    else close_conn (some conn) (update o (record x { dialing = false }) s)

abbrev pub give_up : Sent → ℕ → Association → Associations → Associations
give_up report o x s =
    (send report (remove_datagram x.id (update o (record x { dialing = false }) s))).1

-- the rest of openDatagram: `none` is a dial that failed
abbrev pub datagram_dialed : Option ℕ → ℕ → Association → Associations → Associations
datagram_dialed none o x s = give_up (failure type_datagram_error x.id dial_failed) o x s
datagram_dialed (some conn) o x s = keep_conn (frame type_datagram_ok x.id []) conn o x s

-- A datagram that finds the queue full is dropped.
abbrev pub enqueue : List ℕ → Option (ℕ × Association) → Associations → Associations
enqueue payload none s = s
enqueue payload (some (o, x)) s =
    if ltb (length x.incoming) datagram_queue_depth
    then update o (record x { incoming = x.incoming ++ payload ∷ [] }) s
    else s

unfoldable pub write_datagram : ℕ → List ℕ → Associations → Associations
unfolding association_of
write_datagram id payload s = enqueue payload (association_of id s) s

unfoldable pub datagram_error : ℕ → Failure → Associations → Associations
unfolding send
datagram_error id f s = (send (failure type_datagram_error id f) s).1

-- A call of WriteTo on a connection; a goroutine that writes always has one.
abbrev pub put : Option ℕ → List ℕ → List ℕ → Associations → Associations
put none address content s = s
put (some conn) address content s = record s {
  written = s.written ++ (conn, address, content) ∷ [];
}

-- How the datagrams go out: a targetPacketWriter takes the target as it is, another connection what
-- resolveUDP makes of it. `fails` says whether the write does; a failed write sends nothing.
abbrev pub write_to :
    (ℕ → Failure → Associations → Associations)
    → Bool
    → Association
    → List ℕ
    → List ℕ
    → Associations
    → Associations
write_to report fails x address content s =
    if fails then report x.id write_failed s else put x.conn address content s

abbrev pub deliver :
    (ℕ → Failure → Associations → Associations)
    → Bool
    → (List ℕ → Option (List ℕ))
    → Bool
    → Association
    → List ℕ
    → List ℕ
    → Associations
    → Associations
deliver report direct resolve fails x target content s =
    if direct then write_to report fails x target content s else elim (resolve target) [
      | none ↦ report x.id resolve_failed s
      | some address ↦ write_to report fails x address content s
    ]

-- One round of the loop of writeDatagrams; it waits where the queue is empty.
unfoldable pub write_datagrams :
    Bool → (List ℕ → Option (List ℕ)) → Bool → ℕ → Association → Associations → Associations
unfolding datagram_error decode_datagram
write_datagrams direct resolve fails o x s = elim x.incoming [
  | [] ↦ s
  | payload ∷ rest ↦
      let s' = update o (record x { incoming = rest }) s in
      elim (decode_datagram payload) [
        | err e ↦ datagram_error x.id bad_datagram s'
        | ok (target, content) ↦ deliver datagram_error direct resolve fails x target content s'
      ]
]

-- One round of the loop of readDatagrams: `none` is an error of ReadFrom.
unfoldable pub read_datagrams : ℕ → Option (List ℕ × List ℕ) → Associations → Associations
unfolding remove_datagram send encode_datagram
read_datagrams id none s = remove_datagram id s
read_datagrams id (some (source, bytes)) s = elim (encode_datagram source bytes) [
  | err e ↦ s
  | ok payload ↦ confirm id (send (frame type_datagram_data id payload) s)
]

-- ===== src/Relay/Server/Datagrams/Reverse.antt =====
-- internal/relay/server.go: the datagram sockets on Windows that listen for a client.
use wsl_win_relay.Base.{
  ℕ, Bool, false, ◌||◌, List, [], ◌∷◌, Option, none, some, ◌==◌, ◌/◌, ◌%◌, if◌then◌else◌, length,
  ok, err,
}
use wsl_win_relay.Protocol.Frame.{
  type_listen_datagram_ok, type_listen_datagram_error, type_listen_datagram_data,
  type_listen_datagram_close,
}
use wsl_win_relay.Protocol.Payload.{
  encode_datagram, decode_datagram, capability_listen_bound_address,
}
use wsl_win_relay.Relay.Server.{
  Failure, invalid_open, bad_datagram, resolve_failed, listen_failed, frame, failure,
}
use wsl_win_relay.Relay.Server.Datagrams.{
  Association, Associations, send, update, association_of, remove_datagram, claim, confirm,
  keep_conn, give_up, enqueue, deliver,
}

abbrev pub max_concurrent_reverse_datagrams : ℕ
max_concurrent_reverse_datagrams = 64

-- The address is in the answer for a client that knows what to do with it.
unfoldable pub bound_address_payload : ℕ → Option (List ℕ) → List ℕ
bound_address_payload peer_capabilities none = []
bound_address_payload peer_capabilities (some address) =
    if peer_capabilities / capability_listen_bound_address % 2 == 0 then [] else address

-- openReverseDatagram up to its call of resolveUDP: whether it is made
unfoldable pub open_reverse_datagram : ℕ → List ℕ → Associations → Bool × Associations
unfolding claim send
open_reverse_datagram id address s =
    if id == 0 || length address == 0
    then (false, (send (failure type_listen_datagram_error id invalid_open) s).1)
    else claim max_concurrent_reverse_datagrams type_listen_datagram_error id s

-- What resolveUDP and ListenUDP come to.
pub data Listened : Type 0 where
  unresolved unbound : Listened
  listening : ℕ → List ℕ → Listened

-- the rest of openReverseDatagram
abbrev pub reverse_datagram_dialed : ℕ → Listened → ℕ → Association → Associations → Associations
reverse_datagram_dialed capabilities unresolved o x s =
    give_up (failure type_listen_datagram_error x.id resolve_failed) o x s
reverse_datagram_dialed capabilities unbound o x s =
    give_up (failure type_listen_datagram_error x.id listen_failed) o x s
reverse_datagram_dialed capabilities (listening conn address) o x s =
    keep_conn
      (frame type_listen_datagram_ok x.id (bound_address_payload capabilities (some address))) conn
      o x s

unfoldable pub write_reverse_datagram : ℕ → List ℕ → Associations → Associations
unfolding association_of
write_reverse_datagram id payload s = enqueue payload (association_of id s) s

unfoldable pub reverse_datagram_error : ℕ → Failure → Associations → Associations
unfolding send
reverse_datagram_error id f s = (send (failure type_listen_datagram_error id f) s).1

-- One round of the loop of writeReverseDatagrams.
unfoldable pub write_reverse_datagrams :
    (List ℕ → Option (List ℕ)) → Bool → ℕ → Association → Associations → Associations
unfolding reverse_datagram_error decode_datagram
write_reverse_datagrams resolve fails o x s = elim x.incoming [
  | [] ↦ s
  | payload ∷ rest ↦
      let s' = update o (record x { incoming = rest }) s in
      elim (decode_datagram payload) [
        | err e ↦ reverse_datagram_error x.id bad_datagram s'
        | ok (target, content) ↦
            deliver reverse_datagram_error false resolve fails x target content s'
      ]
]

-- One round of the loop of readReverseDatagrams: a socket that fails is reported as closed.
unfoldable pub read_reverse_datagrams : ℕ → Option (List ℕ × List ℕ) → Associations → Associations
unfolding remove_datagram send encode_datagram
read_reverse_datagrams id none s =
    (send (frame type_listen_datagram_close id []) (remove_datagram id s)).1
read_reverse_datagrams id (some (source, bytes)) s = elim (encode_datagram source bytes) [
  | err e ↦ s
  | ok payload ↦ confirm id (send (frame type_listen_datagram_data id payload) s)
]

-- ===== src/Relay/Client/Packet.antt =====
-- internal/relay/client.go: clientPacketConn, a datagram association seen from the client. The frames
-- that it sends go over the client's link, which the calls take and give back: `link` says which
-- sendings fail.
use wsl_win_relay.Base.{
  ℕ, Bool, true, false, List, [], ◌∷◌, ◌++◌, Option, none, some, ltb, ◌==◌, if◌then◌else◌, length,
  take, Result, ok, err,
}
use wsl_win_relay.Protocol.Frame.{
  type_datagram_ok, type_datagram_error, type_datagram_data, type_datagram_close,
}
use wsl_win_relay.Protocol.Payload.{encode_datagram, decode_datagram}
use wsl_win_relay.Relay.Reader.{
  ReadError, eof, told, bad_datagram, timed_out, client_closed, or_first, terminal_error,
}
use wsl_win_relay.Relay.Server.Datagrams.{datagram_queue_depth}

pub data PacketEvent : Type 0 where
  packet : List ℕ → List ℕ → PacketEvent
  broken : ReadError → PacketEvent

pub record PacketConn : Type 0 where
  pub id : ℕ
  pub ready : Option (Option ReadError)
  pub incoming : List PacketEvent
  pub done : Bool
  pub terminal : Option ReadError
  pub closing : Bool

abbrev pub new_packet_conn : ℕ → PacketConn
new_packet_conn id = record {
  id = id;
  ready = none;
  incoming = [];
  done = false;
  terminal = none;
  closing = false;
}

-- An event that finds the queue full is dropped.
abbrev pub push : PacketEvent → PacketConn → PacketConn
push e p =
    if ltb (length p.incoming) datagram_queue_depth
    then record p { incoming = p.incoming ++ e ∷ [] }
    else p

unfoldable pub fail_packet : ReadError → PacketConn → PacketConn
fail_packet e p =
    push (broken e) (record p {
      ready = or_first p.ready (some e);
      terminal = or_first p.terminal e;
      done = true;
    })

-- handle, while the client is not closed
unfoldable pub handle_packet : ℕ → List ℕ → PacketConn → PacketConn
unfolding fail_packet decode_datagram
handle_packet kind payload p =
    if kind == type_datagram_ok
    then record p { ready = or_first p.ready none }
    else if kind == type_datagram_error
    then fail_packet (told payload) (record p { ready = or_first p.ready (some (told payload)) })
    else if kind == type_datagram_data
    then elim (decode_datagram payload) [
      | err e ↦ fail_packet bad_datagram p
      | ok (endpoint, content) ↦ push (packet endpoint content) p
    ]
    else if kind == type_datagram_close
    then fail_packet eof p
    else p

-- What the select of ReadFrom may pick, or a frame that is handled meanwhile.
pub data PacketPick : Type 0 where
  handles : ℕ → List ℕ → PacketPick
  takes_event expires changes_deadline ends client_ends : PacketPick

-- What ReadFrom returns: the bytes, where they come from, and whether the slice was too short.
pub data Packet : Type 0 where
  received : List ℕ → List ℕ → Bool → Packet
  refused : ReadError → Packet

abbrev pub give : ℕ → PacketEvent → Packet
give n (packet endpoint content) = received (take n content) endpoint (ltb n (length content))
give n (broken e) = refused e

-- ReadFrom into a slice of `n` bytes; `none` where the picks are used up and it waits
unfoldable pub read_from : ℕ → List PacketPick → PacketConn → Option Packet × PacketConn
unfolding handle_packet
read_from n [] p = (none, p)
read_from n (handles kind payload ∷ picks) p = read_from n picks (handle_packet kind payload p)
read_from n (takes_event ∷ picks) p =
    let rest = read_from n picks p in
    elim p.incoming [ [] ↦ rest | e ∷ events ↦ (some (give n e), record p { incoming = events }) ]
read_from n (expires ∷ picks) p = (some (refused timed_out), p)
read_from n (changes_deadline ∷ picks) p = read_from n picks p
read_from n (ends ∷ picks) p =
    let rest = read_from n picks p in
    if p.done then (some (refused (terminal_error p.terminal)), p) else rest
read_from n (client_ends ∷ picks) p = (some (refused client_closed), p)

-- WriteTo with a destination, up to its frame: the payload to send
unfoldable pub write_to : Bool → List ℕ → List ℕ → PacketConn → Result ReadError (List ℕ)
unfolding encode_datagram
write_to expired endpoint content p =
    if expired then err timed_out else elim (encode_datagram endpoint content) [
      | err e ↦ err bad_datagram
      | ok payload ↦ if p.done then err (terminal_error p.terminal) else ok payload
    ]

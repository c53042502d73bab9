-- ===== src/Relay/Client/Examples.antt =====
-- The theorems on the client at concrete runs.
use wsl_win_relay.Base.{◌≡◌, uint32, refl, true, false, List, [], ◌∷◌, some, put_uint32, uint16}
use wsl_win_relay.Protocol.Frame.{
  type_open_ok, type_inbound_open, type_listen_datagram_ok, type_listen_datagram_data,
  type_listen_datagram_error,
}
use wsl_win_relay.Protocol.Payload.{decode_datagram}
use wsl_win_relay.Relay.Reader.{eof, link_failed}
use wsl_win_relay.Relay.Server.{lookup, delete}
use wsl_win_relay.Relay.Server.Datagrams.{
  Association, Associations, new_association, new_associations,
}
use wsl_win_relay.Relay.Server.Datagrams.Reverse.{write_reverse_datagrams}
use wsl_win_relay.Relay.Client.{
  Client, new_client, new_listener, reset_peer_state, fail_client, dial_context,
  reserve_reverse_forward, reverse_datagram_forward, write, open_packet_context, end_all,
}
use wsl_win_relay.Relay.Client.Reverse.{ReverseDatagram, new_reverse_datagram, events}
use wsl_win_relay.Relay.Client.Reverse.Flows.{Clean, events-new-Clean}
use wsl_win_relay.Relay.Client.Reverse as Reverse
use wsl_win_relay.Relay.Client.Steps.{
  Step, dials, reserves, opens_packet, dispatches, registers, fails, steps, step, dispatch,
}
use wsl_win_relay.Relay.Client.Registered.{Registers}
use wsl_win_relay.Relay.Client.Closed.{steps-new-Registers}
use wsl_win_relay.Relay.Client.Ended.{Ends, Has, fail-Ends}
use wsl_win_relay.Relay.Client.Lost.{Unanswered}
use wsl_win_relay.Relay.Client.Waiting.{reset_strands}
use wsl_win_relay.Relay.Client.Stranded.{ServerKeeps, ClientForgets, report_strands}

-- Two senders, a socket that fails, and Close.
abbrev traffic : List Reverse.Event
traffic =
    Reverse.handles type_listen_datagram_ok []
    ∷ Reverse.handles type_listen_datagram_data (0 ∷ 1 ∷ b'a' ∷ 9 ∷ [])
    ∷ Reverse.handles type_listen_datagram_data (0 ∷ 1 ∷ b'b' ∷ 8 ∷ [])
    ∷ Reverse.writes (λ t. some t) (some 30) false
    ∷ Reverse.writes (λ t. some t) (some 31) true
    ∷ Reverse.ends (b'a' ∷ []) 30
    ∷ Reverse.closes
    ∷ []

events-new-Clean_example : Clean (events (new_reverse_datagram 5 (b':' ∷ [])) traffic)
events-new-Clean_example = events-new-Clean 5 (b':' ∷ []) traffic

abbrev session : List Step
session =
    reserves (b':' ∷ []) (b'w' ∷ [])
    ∷ dials (b'h' ∷ [])
    ∷ opens_packet
    ∷ dispatches type_open_ok 3 []
    ∷ dispatches type_inbound_open 2 (put_uint32 1)
    ∷ registers
    ∷ dispatches type_inbound_open 4 (put_uint32 1)
    ∷ fails link_failed
    ∷ registers
    ∷ dispatches type_inbound_open 6 (put_uint32 1)
    ∷ []

steps-new-Registers_example : Registers (steps (new_client (false ∷ true ∷ [])) session)
steps-new-Registers_example = steps-new-Registers (false ∷ true ∷ []) session

-- The client ends while it is at the INBOUND_OPEN of stream 4, and registers that stream then.
stray_stream :
    ((steps (new_client []) session).closed ≡ some link_failed)
    × ((steps (new_client []) session).registries.streams ≡ (4, 2) ∷ [])
unfolding steps step reserve_reverse_forward dial_context open_packet_context dispatch write lookup
    delete fail_client end_all uint32 put_uint32
stray_stream = (refl, refl)

abbrev dialling : Client
dialling = (dial_context (b'h' ∷ []) (new_client [])).1

fail-Ends_example :
    Ends dialling (fail_client eof dialling) × Ends dialling (reset_peer_state (some eof) dialling)
unfolding dial_context write
fail-Ends_example = fail-Ends eof dialling refl

abbrev reserving : Client
reserving = (reserve_reverse_forward (b':' ∷ []) (b'w' ∷ []) (new_client [])).1

reset_strands_example :
    Has Unanswered (steps (reset_peer_state (some eof) reserving) session).listener_store 0
unfolding reserve_reverse_forward write
reset_strands_example = reset_strands 0 (new_listener 1 (b':' ∷ [])) eof session reserving refl refl

abbrev queued : Association
queued = record (new_association 1) { dialing = false; incoming = (0 ∷ 1 ∷ b'a' ∷ 9 ∷ []) ∷ [] }

abbrev bound : Associations
bound = record (new_associations []) { registry = (1, 0) ∷ []; store = queued ∷ [] }

abbrev forwarding : Client
forwarding = (reverse_datagram_forward true (b':' ∷ []) (b'w' ∷ []) (new_client [])).1

report_strands_example :
    ServerKeeps bound queued (write_reverse_datagrams (λ t. some t) true 0 queued bound)
    × ClientForgets 1 0 forwarding (dispatch type_listen_datagram_error 1 (b'e' ∷ []) forwarding)
unfolding decode_datagram uint16 reverse_datagram_forward write lookup delete
report_strands_example =
    report_strands bound 0 queued (0 ∷ 1 ∷ b'a' ∷ 9 ∷ []) (b'a' ∷ []) (9 ∷ []) (b'a' ∷ [])
      (b'e' ∷ []) [] (λ t. some t) forwarding 0 (new_reverse_datagram 1 (b':' ∷ [])) refl refl refl
      refl refl refl refl refl

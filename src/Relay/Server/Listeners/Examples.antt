-- ===== src/Relay/Server/Listeners/Examples.antt =====
-- The listeners of the relay server at a concrete run.
use wsl_win_relay.Base.{◌^◌, ◌-◌, ◌≡◌, refl, true, List, [], ◌∷◌, some, put_uint32}
use wsl_win_relay.Protocol.Frame.{type_listen_ok, type_inbound_open}
use wsl_win_relay.Relay.Server.{Server, frame, new_server, lookup, send, delete, register_inbound}
use wsl_win_relay.Relay.Server.Datagrams.Reverse.{bound_address_payload}
use wsl_win_relay.Relay.Server.Listeners.{
  new_listeners, open_listener, listener_of, remove_listener, commit_listener, accept, Step, opens,
  listens, commits, closes, accepts, step, steps,
}
use wsl_win_relay.Relay.Server.Listeners.Accepted.{Outcome, accept_exact}

abbrev nearly_full : Server
nearly_full = record (new_server (true ∷ [])) { next_stream = 2 ^ 32 - 2 }

accept_exact_example : Outcome 4 9 nearly_full (accept 4 9 nearly_full)
accept_exact_example = accept_exact 4 9 nearly_full

-- A connection before the commit waits; one behind it is announced.
abbrev serving_once : List Step
serving_once =
    opens 4 (b':' ∷ [])
    ∷ listens 0 (some (50, b':' ∷ b'8' ∷ []))
    ∷ accepts 0 (some 9)
    ∷ commits 4
    ∷ accepts 0 (some 9)
    ∷ closes 4
    ∷ []

serving_once_sends :
    (steps (new_listeners 0 []) serving_once).server.sent
    ≡ frame type_listen_ok 4 [] ∷ frame type_inbound_open 2 (put_uint32 4) ∷ []
unfolding steps step open_listener listener_of commit_listener remove_listener accept lookup delete
    send register_inbound bound_address_payload put_uint32
serving_once_sends = refl

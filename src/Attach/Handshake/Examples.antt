-- ===== src/Attach/Handshake/Examples.antt =====
-- The theorems on handshakes at concrete sessions.
use wsl_win_relay.Base.{
  ℕ, ◌≡◌, ◌≢◌, refl, List, [], ◌∷◌, ok, err, none, some, false, IoError, put_uint64, bytes_eq,
  write_once,
}
use wsl_win_relay.Attach.Registry.{Registry, new_with_token, attach, calls, attaches}
use wsl_win_relay.Attach.Ownership.{IsOwned, calls-new-IsOwned}
use wsl_win_relay.Attach.Payload.{io, encode_attach_ok_with_instance}
use wsl_win_relay.Attach.Summary.{Summary}
use wsl_win_relay.Attach.Message.{write_full, write, validate}
use wsl_win_relay.Attach.Handshake.{Session, ServerAttachRequest}
use wsl_win_relay.Attach.Handshake.Exchange.{channel}
use wsl_win_relay.Attach.Handshake.Server.{complete_server_resume}
use wsl_win_relay.Attach.Handshake.Server.Release.{resume_releases}

abbrev shared_token : List ℕ
shared_token = 7 ∷ 8 ∷ []

abbrev open_registry : Registry
open_registry = record {
  token = shared_token;
  instance_id = 5;
  epoch = 0;
  current = none;
  closed = false;
  attachments = [];
}

-- one active stream
abbrev one_stream : Summary
one_stream = record { epoch = 0; entries = record { id = 4; kind = 1; state = 1 } ∷ [] }

abbrev one_stream_payload : List ℕ
one_stream_payload =
    0 ∷ 0 ∷ 0 ∷ 0 ∷ 0 ∷ 0 ∷ 0 ∷ 1 ∷ 0 ∷ 1 ∷ 0 ∷ 0 ∷ 0 ∷ 0 ∷ 0 ∷ 0 ∷ 0 ∷ 4 ∷ 1 ∷ 1 ∷ []

-- Another connector attaches while the answer to the first one is sent, which fails.
abbrev overtaken : Session
overtaken = record {
  registry = open_registry;
  channel = record {
    input = [];
    output = record { script = (3, some (IoError.failed 1)) ∷ []; sent = [] };
  };
  others = (attaches shared_token ∷ []) ∷ [];
}

abbrev request : ServerAttachRequest
request = record { token = shared_token; peer_capabilities = 63; last_epoch = 9 }

open_registry-IsOwned : IsOwned open_registry
unfolding new_with_token calls
open_registry-IsOwned = calls-new-IsOwned shared_token 5 open_registry [] refl

first_attached : (attach request.token overtaken.registry).0 ≡ ok 0
unfolding attach bytes_eq
first_attached = refl

overtaken_failed :
    (complete_server_resume 127 one_stream request overtaken).0 ≡ err (io (IoError.failed 1))
unfolding complete_server_resume attach bytes_eq write validate encode_attach_ok_with_instance
    put_uint64 write_full write_once
overtaken_failed = refl

resume_releases_example :
    IsOwned (complete_server_resume 127 one_stream request overtaken).1.registry
    × ((complete_server_resume 127 one_stream request overtaken).1.registry.current ≢ some 0)
resume_releases_example =
    resume_releases 127 0 one_stream request overtaken (io (IoError.failed 1)) open_registry-IsOwned
      first_attached overtaken_failed

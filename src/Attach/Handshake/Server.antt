-- ===== src/Attach/Handshake/Server.antt =====
-- internal/transport/attach/wire.go: the server's half of the handshakes.
pub mod Steps
pub mod Agreement
pub mod Release
use wsl_win_relay.Base.{ℕ, List, Result, ok, err}
use wsl_win_relay.Base.Text.{codes}
use wsl_win_relay.Base.Action.{Action, pure, lift, ◌>>=◌, ◌>>◌}
use wsl_win_relay.Attach.Registry.{
  Error, invalid_token, registry_closed, stale_attachment, empty_attach_token, Registry, attach,
  detach, epoch_of,
}
use wsl_win_relay.Attach.Payload.{WireError, refused, encode_attach_ok_with_instance}
use wsl_win_relay.Attach.Summary.{Summary, encode_summary, decode_resume_ack, validate_resume_ack}
use wsl_win_relay.Attach.Message.{
  Message, message_attach_ok, message_attach_error, message_registry_summary, message_resume_ack,
}
use wsl_win_relay.Attach.Handshake.{
  Session, send, receive, expect, ServerAttachRequest, read_server_attach_request, on_channel,
  detaching,
}

-- attachErrorPayload: the texts of registry.go, which are short and of one line, so that SingleLine
-- gives them back.
abbrev pub attach_error_payload : Error → List ℕ
attach_error_payload invalid_token = codes "invalid attach token"
attach_error_payload registry_closed = codes "attach registry is closed"
attach_error_payload stale_attachment = codes "attachment is stale"
attach_error_payload empty_attach_token = codes "attach token must not be empty"

-- The rest of a refused handshake: the answer is sent, whether or not that succeeds.
unfoldable pub refuse : Error → Action Session WireError ℕ
unfolding send
refuse e s =
    let reply : Message = record {
      kind = message_attach_error;
      payload = attach_error_payload e;
    } in
    (err (refused e), (on_channel (send reply) s).1)

-- The rest of an accepted one: the attachment is given up if the answer cannot be sent.
unfoldable pub accept : ℕ → ℕ → Action Session WireError ℕ
unfolding send
accept capabilities a s =
    let payload =
      encode_attach_ok_with_instance (epoch_of a s.registry) capabilities s.registry.instance_id in
    (do
      detaching a (on_channel (send (record { kind = message_attach_ok; payload = payload })))
      pure a)
      s

abbrev pub answer : ℕ → Session → Result Error ℕ × Registry → Result WireError ℕ × Session
answer capabilities s (ok a, r) = accept capabilities a (record s { registry = r })
answer capabilities s (err e, r) = refuse e (record s { registry = r })

-- completeServerHandshakeWithInstance; the result is the attachment. What else it returns stands in
-- the request and in the registry.
unfoldable pub complete_server_handshake : ℕ → ServerAttachRequest → Action Session WireError ℕ
unfolding refuse accept
complete_server_handshake capabilities request s =
    answer capabilities s (attach request.token s.registry)

-- The summary is sent, and its acknowledgement is awaited and judged.
unfoldable pub resume_entries : Summary → Action Session WireError (Unit {0})
unfolding send receive
resume_entries summary = do
  payload ← lift (encode_summary summary)
  on_channel (send (record { kind = message_registry_summary; payload = payload }))
  m ← on_channel receive
  expect message_resume_ack m
  (epoch, resumed) ← lift (decode_resume_ack m.payload)
  lift (validate_resume_ack summary epoch resumed)

-- `summary.Epoch = attachment.Epoch()`, and what follows
abbrev pub resume_attachment : Summary → ℕ → Action Session WireError ℕ
resume_attachment summary a s =
    (do detaching a (resume_entries (record summary { epoch = epoch_of a s.registry })); pure a) s

-- CompleteServerResumeHandshakeWithInstance
unfoldable pub complete_server_resume :
    ℕ → Summary → ServerAttachRequest → Action Session WireError ℕ
unfolding complete_server_handshake resume_entries
complete_server_resume capabilities summary request = do
  a ← complete_server_handshake capabilities request
  resume_attachment summary a

-- ServerHandshakeWithInstance and ServerResumeHandshakeWithInstance
unfoldable pub server_handshake : ℕ → Action Session WireError (ServerAttachRequest × ℕ)
unfolding read_server_attach_request complete_server_handshake
server_handshake capabilities = do
  request ← on_channel read_server_attach_request
  a ← complete_server_handshake capabilities request
  pure (request, a)

unfoldable pub server_resume : ℕ → Summary → Action Session WireError (ServerAttachRequest × ℕ)
unfolding read_server_attach_request complete_server_resume
server_resume capabilities summary = do
  request ← on_channel read_server_attach_request
  a ← complete_server_resume capabilities summary request
  pure (request, a)

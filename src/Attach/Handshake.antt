-- ===== src/Attach/Handshake.antt =====
-- internal/transport/attach/wire.go: the handshakes. A channel is what is still to be read from the
-- other side, and the writer to it. While a handshake reads or writes, other holders of the registry
-- may call it: `others` lists, for each message, the calls that happen meanwhile.
pub mod Exchange
pub mod Server
mod Examples
use wsl_win_relay.Base.{ℕ, not, List, [], ◌∷◌, Result, ok, err, Writer, ◌==◌, if◌then◌else◌}
use wsl_win_relay.Base.Action.{Action, pure, fail, lift, ◌>>=◌, ◌>>◌}
use wsl_win_relay.Attach.Registry.{
  Error, invalid_token, registry_closed, stale_attachment, empty_attach_token, Registry, attach,
  detach, epoch_of, Call, calls,
}
use wsl_win_relay.Attach.Payload.{
  WireError, unexpected_message, remote_attach, refused, encode_capabilities, decode_capabilities,
  encode_attach, decode_attach, encode_attach_ok_with_instance, decode_attach_ok_with_instance,
}
use wsl_win_relay.Attach.Summary.{
  Summary, ids, encode_summary, decode_summary, encode_resume_ack, decode_resume_ack,
  validate_resume_ack,
}
use wsl_win_relay.Attach.Message.{
  Message, message_hello, message_attach, message_attach_ok, message_attach_error,
  message_registry_summary, message_resume_ack, write, read,
}

pub record Channel : Type 0 where
  pub input : List ℕ
  pub output : Writer

pub record Session : Type 0 where
  pub registry : Registry
  pub channel : Channel
  pub others : List (List Call)

abbrev pub wrote :
    Channel → Result WireError (Unit {0}) × Writer → Result WireError (Unit {0}) × Channel
wrote c (r, w) = (r, record c { output = w })

unfoldable pub send : Message → Action Channel WireError (Unit {0})
send m c = wrote c (write m c.output)

unfoldable pub receive : Action Channel WireError Message
receive c = elim (read c.input) [
  | ok (m, rest) ↦ (ok m, record c { input = rest })
  | err e ↦ (err e, c)
]

-- `if message.Type != kind { return ... }`
abbrev pub expect : {S : Type 0} → ℕ → Message → Action S WireError (Unit {0})
expect kind m = if m.kind == kind then pure tt else fail (unexpected_message m.kind)

-- the part of the client's handshake behind its Read
abbrev pub attach_response : Message → Action Channel WireError (ℕ × ℕ × ℕ)
attach_response m =
    if m.kind == message_attach_error
    then fail (remote_attach m.payload)
    else (do expect message_attach_ok m; lift (decode_attach_ok_with_instance m.payload))

-- ClientHandshakeWithInstance
unfoldable pub client_handshake : List ℕ → ℕ → ℕ → Action Channel WireError (ℕ × ℕ × ℕ)
unfolding send receive
client_handshake token capabilities last_epoch = do
  payload ← lift (encode_attach token last_epoch)
  send (record { kind = message_hello; payload = encode_capabilities capabilities })
  send (record { kind = message_attach; payload = payload })
  response ← receive
  attach_response response

-- ClientResumeHandshakeWithInstance
unfoldable pub client_resume : List ℕ → ℕ → ℕ → Action Channel WireError ((ℕ × ℕ × ℕ) × Summary)
unfolding client_handshake
client_resume token capabilities last_epoch = do
  attached ← client_handshake token capabilities last_epoch
  m ← receive
  expect message_registry_summary m
  summary ← lift (decode_summary m.payload)
  lift (validate_resume_ack summary attached.0 (ids summary))
  payload ← lift (encode_resume_ack attached.0 (ids summary))
  send (record { kind = message_resume_ack; payload = payload })
  pure (attached, summary)

pub record ServerAttachRequest : Type 0 where
  pub token : List ℕ
  pub peer_capabilities : ℕ
  pub last_epoch : ℕ

unfoldable pub read_server_attach_request : Action Channel WireError ServerAttachRequest
unfolding receive
read_server_attach_request = do
  hello ← receive
  expect message_hello hello
  peer_capabilities ← lift (decode_capabilities hello.payload)
  m ← receive
  expect message_attach m
  (token, last_epoch) ← lift (decode_attach m.payload)
  pure (record { token = token; peer_capabilities = peer_capabilities; last_epoch = last_epoch })

-- the registry behind the calls that others make during one message, and what is left of these
abbrev pub meanwhile : List (List Call) → Registry → Registry × List (List Call)
meanwhile [] r = (r, [])
meanwhile (cs ∷ others) r = (calls r cs, others)

abbrev pub step_to :
    {A : Type 0} → Session → Result WireError A × Channel → Result WireError A × Session
step_to s (r, c) = (
  r,
  record {
    registry = (meanwhile s.others s.registry).0;
    channel = c;
    others = (meanwhile s.others s.registry).1;
  },
)

-- A part of a handshake that only uses the channel.
abbrev pub on_channel : {A : Type 0} → Action Channel WireError A → Action Session WireError A
on_channel m s = step_to s (m s.channel)

-- `_ = attachment.Detach(); return err`
abbrev pub released : {A : Type 0} → ℕ → Result WireError A × Session → Result WireError A × Session
released a (ok x, s) = (ok x, s)
released a (err e, s) = (err e, record s { registry = (detach a s.registry).1 })

abbrev pub detaching : {A : Type 0} → ℕ → Action Session WireError A → Action Session WireError A
detaching a m s = released a (m s)

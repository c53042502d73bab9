-- ===== src/Attach/Handshake/Server/Steps.antt =====
-- The steps of a handshake whose bytes are what the other half sends, when nobody else uses the
-- registry meanwhile.
use wsl_win_relay.Base.{
  none, bytes_eq_iff, IsU64, map, ℕ, ◌<◌, ◌≡◌, refl, false, List, [], ◌∷◌, ◌++◌, ok, length, arith,
  IsU64, All, get_elem?-append_length,
}
use wsl_win_relay.Attach.Registry.{Registry, install, attach, next_epoch, epoch_of}
use wsl_win_relay.Attach.Summary.{
  RegistryEntry, Summary, ids, encode_summary, decode_summary, encode_resume_ack, decode_resume_ack,
  validate_resume_ack,
}
use wsl_win_relay.Attach.Summary.Ordered.{decode_summary-Increasing}
use wsl_win_relay.Attach.Summary.RoundTrip.{
  HasWord, encode_summary_sound, decode-encode_summary, decode-encode_resume_ack,
}
use wsl_win_relay.Attach.Summary.Acknowledged.{validate-ids, length-ids}
use wsl_win_relay.Attach.Message.{encoding}
use wsl_win_relay.Attach.Handshake.{Channel, client_handshake, client_resume}
use wsl_win_relay.Attach.Handshake.Exchange.{
  channel, attach_ok, summary_message, ack_message, send_accepting, receive-encoding,
  encode_resume_ack-ids, attach_ok_valid, summary_valid, ack_valid,
}
use wsl_win_relay.Attach.Handshake.Server.{complete_server_handshake, resume_entries}

-- What both sides know once a summary has been encoded and acknowledged.
pub record Resumption (s : Summary) (payload ack : List ℕ) : Type 0 where
  pub decoded : decode_summary payload ≡ ok s
  pub acknowledged : encode_resume_ack s.epoch (ids s) ≡ ok ack
  pub judged : decode_resume_ack ack ≡ ok (s.epoch, ids s)
  pub accepted : validate_resume_ack s s.epoch (ids s) ≡ ok tt

module _ (s : Summary) (payload ack : List ℕ) (known : Resumption s payload ack) where
  pub resume_requested :
      (token : List ℕ) (capabilities last_epoch peer instance_id : ℕ) (c : Channel) (sent : List ℕ)
      → client_handshake token capabilities last_epoch c
        ≡ (ok (s.epoch, peer, instance_id), channel (encoding (summary_message payload) ++ []) sent)
      → client_resume token capabilities last_epoch c
        ≡ (ok ((s.epoch, peer, instance_id), s), channel [] (sent ++ encoding (ack_message ack)))
  unfolding client_resume
  resume_requested token capabilities last_epoch peer instance_id c sent attached = ground (
    arith,
    attached,
    receive-encoding (summary_message payload) [] sent (summary_valid payload s known.decoded),
    known.decoded,
    known.accepted,
    known.acknowledged,
    send_accepting (ack_message ack) [] sent (ack_valid ack s.epoch (ids s) known.judged),
  )

  pub entries_resumed :
      (r : Registry) (sent : List ℕ)
      → encode_summary s ≡ ok payload
      → resume_entries s (record {
        registry = r;
        channel = channel (encoding (ack_message ack) ++ []) sent;
        others = [];
      })
        ≡ (
          ok tt,
          record {
            registry = r;
            channel = channel [] (sent ++ encoding (summary_message payload));
            others = [];
          },
        )
  unfolding resume_entries
  entries_resumed r sent encoded = ground (
    arith,
    encoded,
    send_accepting (summary_message payload) (encoding (ack_message ack) ++ []) sent
        (summary_valid payload s known.decoded),
    receive-encoding (ack_message ack) [] (sent ++ encoding (summary_message payload))
        (ack_valid ack s.epoch (ids s) known.judged),
    known.judged,
    known.accepted,
  )

words-ids : (es : List RegistryEntry) → All HasWord es → All IsU64 (map (λ e. e.id) es)
words-ids [] h = tt
words-ids (e ∷ es) h = (h.0, words-ids es h.1)

pub resumption :
    (s : Summary) (payload : List ℕ)
    → IsU64 s.epoch
    → All HasWord s.entries
    → encode_summary s ≡ ok payload
    → (ack : List ℕ) × Resumption s payload ack
resumption s payload word words encoded =
    let back = decode-encode_summary s payload word words encoded in
    let few = (encode_summary_sound s payload encoded).0 in
    let (ack, e) =
      encode_resume_ack-ids s.epoch (ids s) (omega (arith, few, length-ids s.entries))
        (decode_summary-Increasing payload s back) in
    (
      ack,
      record {
        decoded = back;
        acknowledged = e;
        judged = decode-encode_resume_ack s.epoch (ids s) ack word (words-ids s.entries words) e;
        accepted = validate-ids payload s back;
      },
    )

-- the registry behind an attach that is accepted
abbrev pub attached : Registry → Registry
attached r = (install r (next_epoch r.epoch)).1

pub attach_installs :
    (r : Registry)
    → r.closed ≡ false
    → 0 < length r.token
    → attach r.token r ≡ install r (next_epoch r.epoch)
unfolding attach
attach_installs r opened some_token = ground (arith, opened, (bytes_eq_iff r.token r.token).1 refl)

pub epoch_of-attached :
    (r : Registry) → epoch_of (length r.attachments) (attached r) ≡ next_epoch r.epoch
unfolding epoch_of
epoch_of-attached r = rw (
  get_elem?-append_length r.attachments
      (record { epoch = next_epoch r.epoch; released = false; failure = none }),
  epoch_of,
)

pub handshake_completed :
    (r : Registry) (peer capabilities last_epoch : ℕ) (input : List ℕ)
    → r.closed ≡ false
    → 0 < length r.token
    → complete_server_handshake capabilities
        (record { token = r.token; peer_capabilities = peer; last_epoch = last_epoch })
        (record { registry = r; channel = channel input []; others = [] })
      ≡ (
        ok (length r.attachments),
        record {
          registry = attached r;
          channel =
              channel input
                ([] ++ encoding (attach_ok (next_epoch r.epoch) capabilities r.instance_id));
          others = [];
        },
      )
unfolding complete_server_handshake
handshake_completed r peer capabilities last_epoch input opened some_token = ground (
  arith,
  attach_installs r opened some_token,
  epoch_of-attached r,
  send_accepting (attach_ok (next_epoch r.epoch) capabilities r.instance_id) input []
      (attach_ok_valid (next_epoch r.epoch) capabilities r.instance_id),
)

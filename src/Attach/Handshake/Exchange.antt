-- ===== src/Attach/Handshake/Exchange.antt =====
-- The messages of a handshake, sent to a writer that accepts everything, and received from bytes that
-- begin with them.
use wsl_win_relay.Base.{
  uint64-put, ℕ, ◌≤◌, ◌≡◌, refl, Bool, true, false, List, [], ◌∷◌, ◌++◌, ok, length, accepting,
  arith, IsU64, put_uint64, put_uint16,
}
use wsl_win_relay.Attach.Payload.{
  encode_capabilities, decode_capabilities, encode_attach, decode_attach,
  encode_attach_ok_with_instance,
}
use wsl_win_relay.Attach.PayloadRoundTrip.{decode-encode_attach, decode-encode_attach_ok}
use wsl_win_relay.Attach.Summary.{
  Summary, decode_summary, decode_resume_ack, encode_ids, encode_resume_ack,
}
use wsl_win_relay.Attach.Summary.Ordered.{Increasing}
use wsl_win_relay.Attach.Message.{
  Message, validate, encoding, message_hello, message_attach, message_attach_ok,
  message_registry_summary, message_resume_ack,
}
use wsl_win_relay.Attach.Message.RoundTrip.{write-accepting, read-encoding}
use wsl_win_relay.Attach.Handshake.{
  Channel, send, receive, client_handshake, read_server_attach_request,
}

abbrev pub channel : List ℕ → List ℕ → Channel
channel input sent = record { input = input; output = accepting sent }

pub send_accepting :
    (m : Message) (input sent : List ℕ)
    → validate m ≡ ok tt
    → send m (channel input sent) ≡ (ok tt, channel input (sent ++ encoding m))
unfolding send
send_accepting m input sent valid = rw (write-accepting m sent valid) refl

pub receive-encoding :
    (m : Message) (rest sent : List ℕ)
    → validate m ≡ ok tt
    → receive (channel (encoding m ++ rest) sent) ≡ (ok m, channel rest sent)
unfolding receive
receive-encoding m rest sent valid = rw (read-encoding m rest valid, receive)

-- Identifiers in order can be encoded.
encode_ids-Increasing :
    (first : Bool) (previous : ℕ) (ns : List ℕ)
    → Increasing previous ns
    → (bytes : List ℕ) × (encode_ids first previous ns ≡ ok bytes)
unfolding encode_ids
encode_ids-Increasing first previous [] i = ([], refl)
encode_ids-Increasing first previous (n ∷ ns) i =
    let (bytes, e) = encode_ids-Increasing false n ns i.1 in (put_uint64 n ++ bytes, ground arith)

pub encode_resume_ack-ids :
    (epoch : ℕ) (ns : List ℕ)
    → length ns ≤ 4096
    → Increasing 0 ns
    → (payload : List ℕ) × (encode_resume_ack epoch ns ≡ ok payload)
unfolding encode_resume_ack
encode_resume_ack-ids epoch ns few i =
    let (bytes, e) = encode_ids-Increasing true 0 ns i in
    (put_uint64 epoch ++ (put_uint16 (length ns) ++ bytes), ground arith)

-- The messages that the two halves send are valid.
hello_valid :
    (capabilities : ℕ)
    → validate (record { kind = message_hello; payload = encode_capabilities capabilities }) ≡ ok tt
unfolding validate encode_capabilities put_uint64
hello_valid capabilities = refl

pub attach_ok_valid :
    (epoch capabilities instance_id : ℕ)
    → validate (record {
      kind = message_attach_ok;
      payload = encode_attach_ok_with_instance epoch capabilities instance_id;
    })
      ≡ ok tt
unfolding validate encode_attach_ok_with_instance put_uint64
attach_ok_valid epoch capabilities instance_id = refl

attach_valid :
    (payload token : List ℕ) (last_epoch : ℕ)
    → decode_attach payload ≡ ok (token, last_epoch)
    → validate (record { kind = message_attach; payload = payload }) ≡ ok tt
unfolding validate decode_attach
attach_valid payload token last_epoch h = ground arith

pub summary_valid :
    (payload : List ℕ) (s : Summary)
    → decode_summary payload ≡ ok s
    → validate (record { kind = message_registry_summary; payload = payload }) ≡ ok tt
unfolding validate decode_summary
summary_valid payload s h = ground arith

pub ack_valid :
    (payload : List ℕ) (epoch : ℕ) (resumed : List ℕ)
    → decode_resume_ack payload ≡ ok (epoch, resumed)
    → validate (record { kind = message_resume_ack; payload = payload }) ≡ ok tt
unfolding validate decode_resume_ack
ack_valid payload epoch resumed h = ground arith

abbrev pub hello : ℕ → Message
hello capabilities = record { kind = message_hello; payload = encode_capabilities capabilities }

abbrev pub attach_request : List ℕ → Message
attach_request payload = record { kind = message_attach; payload = payload }

abbrev pub attach_ok : ℕ → ℕ → ℕ → Message
attach_ok epoch capabilities instance_id = record {
  kind = message_attach_ok;
  payload = encode_attach_ok_with_instance epoch capabilities instance_id;
}

abbrev pub summary_message : List ℕ → Message
summary_message payload = record { kind = message_registry_summary; payload = payload }

abbrev pub ack_message : List ℕ → Message
ack_message payload = record { kind = message_resume_ack; payload = payload }

decode-encode_capabilities :
    (capabilities : ℕ)
    → IsU64 capabilities
    → decode_capabilities (encode_capabilities capabilities) ≡ ok capabilities
unfolding decode_capabilities encode_capabilities put_uint64
decode-encode_capabilities capabilities h = rw (uint64-put capabilities [] h) refl

module _ (token payload : List ℕ) (capabilities last_epoch : ℕ) (word : IsU64 last_epoch)
    (encoded : encode_attach token last_epoch ≡ ok payload) where
  pub client_handshake_answered :
      (epoch peer instance_id : ℕ) (rest sent : List ℕ)
      → IsU64 epoch
      → IsU64 peer
      → IsU64 instance_id
      → client_handshake token capabilities last_epoch
          (channel (encoding (attach_ok epoch peer instance_id) ++ rest) sent)
        ≡ (
          ok (epoch, peer, instance_id),
          channel rest
              ((sent ++ encoding (hello capabilities)) ++ encoding (attach_request payload)),
        )
  unfolding client_handshake
  client_handshake_answered epoch peer instance_id rest sent he hp hi = ground (
    arith,
    encoded,
    send_accepting (hello capabilities) (encoding (attach_ok epoch peer instance_id) ++ rest) sent
        (hello_valid capabilities),
    send_accepting (attach_request payload) (encoding (attach_ok epoch peer instance_id) ++ rest)
        (sent ++ encoding (hello capabilities))
        (attach_valid payload token last_epoch
          (decode-encode_attach token payload last_epoch word encoded)),
    receive-encoding (attach_ok epoch peer instance_id) rest
        ((sent ++ encoding (hello capabilities)) ++ encoding (attach_request payload))
        (attach_ok_valid epoch peer instance_id),
    (decode-encode_attach_ok epoch peer instance_id he hp hi).0,
  )

  pub request_read :
      (rest sent : List ℕ)
      → IsU64 capabilities
      → read_server_attach_request (
          channel
            (encoding (hello capabilities) ++ (encoding (attach_request payload) ++ rest))
            sent)
        ≡ (
          ok (record { token = token; peer_capabilities = capabilities; last_epoch = last_epoch }),
          channel rest sent,
        )
  unfolding read_server_attach_request
  request_read rest sent hc = rw (
    receive-encoding (hello capabilities) (encoding (attach_request payload) ++ rest) sent
        (hello_valid capabilities),
    read_server_attach_request,
    decode-encode_capabilities capabilities hc,
    receive-encoding (attach_request payload) rest sent (
        attach_valid payload token last_epoch
          (decode-encode_attach token payload last_epoch word encoded)),
    decode-encode_attach token payload last_epoch word encoded,
  )

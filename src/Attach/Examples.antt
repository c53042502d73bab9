-- ===== src/Attach/Examples.antt =====
-- The theorems on attachments and their wire protocol at concrete registries and messages.
use wsl_win_relay.Base.{
  bytes_eq, put_uint16, put_uint64, ◌≡◌, ◌≢◌, ◌↔◌, ◌⊎◌, ◌+◌, ◌^◌, ◌<◌, ◌++◌, ◌==◌, refl, List, [],
  ◌∷◌, ℕ, true, false, none, some, ok, err, accepting, IoError, Writer, arith,
}
use wsl_win_relay.Attach.Registry.{
  Registry, new_with_token, attach, calls, Call, attaches, is_current, current_epoch, invalid_token,
  registry_closed,
}
use wsl_win_relay.Attach.Ownership.{IsOwned, calls-new-IsOwned}
use wsl_win_relay.Attach.Generations.{attach_exact}
use wsl_win_relay.Attach.Payload.{encode_attach}
use wsl_win_relay.Attach.Summary.{
  encode_entries, validate_entry, entry_bytes, encode_ids, Summary, encode_summary, decode_summary,
  encode_resume_ack, decode_resume_ack, validate_resume_ack,
}
use wsl_win_relay.Attach.Summary.RoundTrip.{decode-encode_summary, decode-encode_resume_ack}
use wsl_win_relay.Attach.Summary.Acknowledged.{Within, validate_resume_ack_iff}
use wsl_win_relay.Attach.Message.{Message, message_hello, validate, write, read}
use wsl_win_relay.Attach.Message.RoundTrip.{message_read-write}

abbrev secret : List ℕ
secret = 7 ∷ 8 ∷ []

abbrev fresh : Registry
fresh = record {
  token = secret;
  instance_id = 5;
  epoch = 0;
  current = none;
  closed = false;
  attachments = [];
}

abbrev two_attaches : List Call
two_attaches = attaches secret ∷ attaches secret ∷ []

-- the registry after two attaches: the first attachment is stale
abbrev replaced : Registry
replaced = record {
  token = secret;
  instance_id = 5;
  epoch = 2;
  current = some 1;
  closed = false;
  attachments =
      record { epoch = 1; released = false; failure = none }
      ∷ record { epoch = 2; released = false; failure = none }
      ∷ [];
}

replaced_reached : calls fresh two_attaches ≡ replaced
unfolding calls attach bytes_eq
replaced_reached = refl

fresh_made : new_with_token secret 5 ≡ ok fresh
unfolding new_with_token
fresh_made = refl

calls-new-IsOwned_example : IsOwned (calls fresh two_attaches)
calls-new-IsOwned_example = calls-new-IsOwned secret 5 fresh two_attaches fresh_made

attach_exact_example :
    ((false ≡ true) × (attach secret replaced ≡ (err registry_closed, replaced)))
    ⊎ ((false ≡ false)
        × ((secret ≡ []) ⊎ (secret ≢ secret))
        × (attach secret replaced ≡ (err invalid_token, replaced)))
    ⊎ ((false ≡ false)
        × (secret ≡ secret)
        × (secret ≢ [])
        × (let s = (attach secret replaced).1 in
            ((attach secret replaced).0 ≡ ok 2)
            × ((a : ℕ) → is_current a s ≡ (a == 2))
            × (current_epoch s ≡ s.epoch)
            × (0 < s.epoch)
            × (2 + 1 < 2 ^ 64 → s.epoch ≡ 2 + 1)))
attach_exact_example = attach_exact secret replaced

abbrev offered : List ℕ
offered = 0 ∷ 2 ∷ 7 ∷ 8 ∷ 0 ∷ 0 ∷ 0 ∷ 0 ∷ 0 ∷ 0 ∷ 0 ∷ 9 ∷ []

offered_encoded : encode_attach secret 9 ≡ ok offered
unfolding encode_attach put_uint16 put_uint64
offered_encoded = refl

-- an active stream and a closed listener
abbrev summary : Summary
summary = record {
  epoch = 3;
  entries = record { id = 4; kind = 1; state = 1 } ∷ record { id = 6; kind = 2; state = 2 } ∷ [];
}

abbrev summary_payload : List ℕ
summary_payload =
    0 ∷ 0 ∷ 0 ∷ 0 ∷ 0 ∷ 0 ∷ 0 ∷ 3 ∷ 0 ∷ 2 ∷ 0 ∷ 0 ∷ 0 ∷ 0 ∷ 0 ∷ 0 ∷ 0 ∷ 4 ∷ 1 ∷ 1 ∷ 0 ∷ 0 ∷ 0 ∷ 0
    ∷ 0 ∷ 0 ∷ 0 ∷ 6 ∷ 2 ∷ 2 ∷ []

abbrev ack_payload : List ℕ
ack_payload = 0 ∷ 0 ∷ 0 ∷ 0 ∷ 0 ∷ 0 ∷ 0 ∷ 3 ∷ 0 ∷ 1 ∷ 0 ∷ 0 ∷ 0 ∷ 0 ∷ 0 ∷ 0 ∷ 0 ∷ 6 ∷ []

summary_encoded : encode_summary summary ≡ ok summary_payload
unfolding encode_summary encode_entries validate_entry entry_bytes put_uint16 put_uint64
summary_encoded = refl

ack_encoded : encode_resume_ack 3 (6 ∷ []) ≡ ok ack_payload
unfolding encode_resume_ack encode_ids put_uint16 put_uint64
ack_encoded = refl

summary_decoded : decode_summary summary_payload ≡ ok summary
summary_decoded =
    decode-encode_summary summary summary_payload (omega arith) (ground arith) summary_encoded

ack_decoded : decode_resume_ack ack_payload ≡ ok (3, 6 ∷ [])
ack_decoded =
    decode-encode_resume_ack 3 (6 ∷ []) ack_payload (omega arith) (ground arith) ack_encoded

-- One of the two entries is acknowledged.
validate_resume_ack_iff_example :
    (validate_resume_ack summary 3 (6 ∷ []) ≡ ok tt)
    ↔ ((◌≡◌ {A = ℕ} 3 3) × Within (6 ∷ []) (4 ∷ 6 ∷ []))
validate_resume_ack_iff_example =
    validate_resume_ack_iff summary_payload ack_payload summary 3 (6 ∷ []) summary_decoded
      ack_decoded

abbrev hello : Message
hello = record { kind = message_hello; payload = 0 ∷ 0 ∷ 0 ∷ 0 ∷ 0 ∷ 0 ∷ 0 ∷ 63 ∷ [] }

hello_valid : validate hello ≡ ok tt
unfolding validate
hello_valid = refl

message_read-write_example :
    ((write hello (accepting [])).0 ≡ ok tt)
    × (read ((write hello (accepting [])).1.sent ++ 9 ∷ []) ≡ ok (hello, 9 ∷ []))
message_read-write_example = message_read-write hello (9 ∷ []) hello_valid

-- a writer that takes five bytes, then fails
abbrev failing_wire : Writer
failing_wire = record { script = (5, none) ∷ (2, some (IoError.failed 1)) ∷ []; sent = [] }

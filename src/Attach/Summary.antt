-- ===== src/Attach/Summary.antt =====
-- internal/transport/attach/wire.go: the registry summary and its acknowledgement.
pub mod RoundTrip
pub mod Ordered
pub mod Acknowledged
use wsl_win_relay.Base.{
  ℕ, zero, suc, ◌+◌, ◌-◌, ◌*◌, ◌/◌, ◌%◌, ◌^◌, Bool, true, false, not, ◌&&◌, ◌||◌, List, [], ◌∷◌,
  ◌++◌, map, Result, ok, err, ◌>>=◌, ◌>>◌, guard, put_uint16, put_uint64, uint16, uint64, ltb, leb,
  ◌==◌, length, drop, get_or, if◌then◌else◌,
}
use wsl_win_relay.Attach.Payload.{
  WireError, unknown_kind, unknown_state, zero_entry_id, too_many_entries, unordered_entries,
  bad_summary_length, bad_entry_count, too_many_resumed, unordered_resumed, bad_resume_length,
  bad_resume_count, epoch_mismatch, unknown_entries, unknown_resumed, max_wire_payload,
}

abbrev pub entry_stream : ℕ
entry_stream = 1

abbrev pub entry_reverse_listener : ℕ
entry_reverse_listener = 2

abbrev pub entry_datagram : ℕ
entry_datagram = 3

abbrev pub entry_active : ℕ
entry_active = 1

abbrev pub entry_closed : ℕ
entry_closed = 2

pub record RegistryEntry : Type 0 where
  pub id : ℕ
  pub kind : ℕ
  pub state : ℕ

pub record Summary : Type 0 where
  pub epoch : ℕ
  pub entries : List RegistryEntry

abbrev pub max_summary_entries : ℕ
max_summary_entries = 4096

abbrev pub summary_header_size : ℕ
summary_header_size = 10

abbrev pub summary_entry_size : ℕ
summary_entry_size = 10

abbrev pub ids : Summary → List ℕ
ids s = map (λ e. e.id) s.entries

unfoldable pub validate_entry : RegistryEntry → Result WireError (Unit {0})
validate_entry e = do
  guard (e.id == 0) zero_entry_id
  guard (ltb e.kind entry_stream || ltb entry_datagram e.kind) (unknown_kind e.kind)
  guard (ltb e.state entry_active || ltb entry_closed e.state) (unknown_state e.state)

unfoldable pub entry_bytes : RegistryEntry → List ℕ
entry_bytes e = put_uint64 e.id ++ e.kind ∷ e.state ∷ []

-- The loop of EncodeSummary; `first` is `index == 0`.
unfoldable pub encode_entries : Bool → ℕ → List RegistryEntry → Result WireError (List ℕ)
encode_entries first previous [] = ok []
encode_entries first previous (e ∷ es) = do
  validate_entry e
  guard (not first && leb e.id previous) unordered_entries
  rest ← encode_entries false e.id es
  ok (entry_bytes e ++ rest)

unfoldable pub encode_summary : Summary → Result WireError (List ℕ)
encode_summary s = do
  guard
      (ltb max_summary_entries (length s.entries)
        || ltb ((max_wire_payload - summary_header_size) / summary_entry_size) (length s.entries))
      too_many_entries
  rest ← encode_entries true 0 s.entries
  ok (put_uint64 s.epoch ++ (put_uint16 (length s.entries) ++ rest))

unfoldable pub entry_at : List ℕ → RegistryEntry
entry_at bytes = record { id = uint64 bytes; kind = get_or bytes 8 0; state = get_or bytes 9 0 }

-- The loop of DecodeSummary over the bytes behind the header.
unfoldable pub decode_entries : Bool → ℕ → ℕ → List ℕ → Result WireError (List RegistryEntry)
decode_entries first previous zero bytes = ok []
decode_entries first previous (suc count) bytes = do
  let e = entry_at bytes
  validate_entry e
  guard (not first && leb e.id previous) unordered_entries
  rest ← decode_entries false e.id count (drop summary_entry_size bytes)
  ok (e ∷ rest)

unfoldable pub decode_summary : List ℕ → Result WireError Summary
decode_summary payload = do
  guard
      (ltb (length payload) summary_header_size
        || not ((length payload - summary_header_size) % summary_entry_size == 0))
      bad_summary_length
  let count = uint16 (drop 8 payload)
  guard
      (ltb max_summary_entries count
        || not (length payload == summary_header_size + summary_entry_size * count))
      bad_entry_count
  entries ← decode_entries true 0 count (drop summary_header_size payload)
  ok (record { epoch = uint64 payload; entries = entries })

unfoldable pub encode_ids : Bool → ℕ → List ℕ → Result WireError (List ℕ)
encode_ids first previous [] = ok []
encode_ids first previous (id ∷ rest) = do
  guard (id == 0 || not first && leb id previous) unordered_resumed
  more ← encode_ids false id rest
  ok (put_uint64 id ++ more)

unfoldable pub encode_resume_ack : ℕ → List ℕ → Result WireError (List ℕ)
encode_resume_ack epoch resumed = do
  guard
      (ltb max_summary_entries (length resumed)
        || ltb ((max_wire_payload - 10) / 8) (length resumed))
      too_many_resumed
  rest ← encode_ids true 0 resumed
  ok (put_uint64 epoch ++ (put_uint16 (length resumed) ++ rest))

unfoldable pub decode_ids : Bool → ℕ → ℕ → List ℕ → Result WireError (List ℕ)
decode_ids first previous zero bytes = ok []
decode_ids first previous (suc count) bytes = do
  let id = uint64 bytes
  guard (id == 0 || not first && leb id previous) unordered_resumed
  rest ← decode_ids false id count (drop 8 bytes)
  ok (id ∷ rest)

unfoldable pub decode_resume_ack : List ℕ → Result WireError (ℕ × List ℕ)
decode_resume_ack payload = do
  guard (ltb (length payload) 10 || not ((length payload - 10) % 8 == 0)) bad_resume_length
  let count = uint16 (drop 8 payload)
  guard (ltb max_summary_entries count || not (length payload == 10 + 8 * count)) bad_resume_count
  resumed ← decode_ids true 0 count (drop 10 payload)
  ok (uint64 payload, resumed)

-- The two nested loops of validateResumeAck: `known` are the identifiers from `entryIndex` on.
unfoldable pub skip_below : ℕ → List ℕ → List ℕ
skip_below id [] = []
skip_below id (k ∷ known) = let rest = skip_below id known in if ltb k id then rest else k ∷ known

abbrev pub after_match :
    (List ℕ → Result WireError (Unit {0})) → ℕ → List ℕ → Result WireError (Unit {0})
after_match next id [] = err (unknown_resumed id)
after_match next id (k ∷ known) = do guard (not (k == id)) (unknown_resumed id); next known

unfoldable pub resume_loop : List ℕ → List ℕ → Result WireError (Unit {0})
unfolding skip_below
resume_loop [] known = ok tt
resume_loop (id ∷ rest) known = after_match (resume_loop rest) id (skip_below id known)

unfoldable pub validate_resume_ack : Summary → ℕ → List ℕ → Result WireError (Unit {0})
validate_resume_ack s epoch resumed = do
  guard (not (epoch == s.epoch)) (epoch_mismatch epoch s.epoch)
  guard (ltb (length s.entries) (length resumed)) unknown_entries
  resume_loop resumed (ids s)

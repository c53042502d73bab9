-- ===== src/Attach/Summary/RoundTrip.antt =====
-- Summaries and acknowledgements are read back as they were written, and nothing else is accepted.
use wsl_win_relay.Base.{
  ℕ, ◌*◌, ◌≤◌, ◌≡◌, refl, inl, inr, Bool, true, false, not, ◌&&◌, List, [], ◌∷◌, ◌++◌, ok, arith,
  put_uint16, put_uint64, uint16-put, uint64-put, IsU64, All, length, length-append, drop, leb,
  ◌||◌, ◌==◌,
}
use wsl_win_relay.Base.Writing.{Result-cases}
use wsl_win_relay.Attach.Summary.{
  RegistryEntry, Summary, validate_entry, entry_bytes, entry_at, encode_entries, decode_entries,
  encode_summary, decode_summary, encode_ids, decode_ids, encode_resume_ack, decode_resume_ack,
}

-- What a successful encoding of one more entry consists of.
encode_entries-cons :
    (first : Bool) (previous : ℕ) (e : RegistryEntry) (es : List RegistryEntry) (bytes : List ℕ)
    → encode_entries first previous (e ∷ es) ≡ ok bytes
    → (validate_entry e ≡ ok tt)
      × ((not first && leb e.id previous) ≡ false)
      × ((rest : List ℕ) × (encode_entries false e.id es ≡ ok rest)
          × (bytes ≡ entry_bytes e ++ rest))
unfolding encode_entries
encode_entries-cons first previous e es bytes h =
    elim (Result-cases (encode_entries false e.id es)) [
      | inl (rest, q) ↦ (ground arith, ground arith, (rest, q, ground arith))
      | inr (x, q) ↦ absurd (ground arith)
    ]

abbrev pub HasWord : RegistryEntry → Type 0
HasWord e = IsU64 e.id

entry_at-bytes :
    (e : RegistryEntry) (rest : List ℕ) → HasWord e → entry_at (entry_bytes e ++ rest) ≡ e
unfolding put_uint64 entry_at entry_bytes
entry_at-bytes e rest h = ground (arith, uint64-put e.id (e.kind ∷ e.state ∷ rest) h)

drop-entry_bytes : (e : RegistryEntry) (rest : List ℕ) → drop 10 (entry_bytes e ++ rest) ≡ rest
unfolding put_uint64 entry_bytes
drop-entry_bytes e rest = refl

length-entry_bytes : (e : RegistryEntry) → length (entry_bytes e) ≡ 10
unfolding put_uint64 entry_bytes
length-entry_bytes e = refl

decode-encode_entries :
    (first : Bool) (previous : ℕ) (es : List RegistryEntry) (bytes : List ℕ)
    → All HasWord es
    → encode_entries first previous es ≡ ok bytes
    → (decode_entries first previous (length es) bytes ≡ ok es) × (length bytes ≡ 10 * length es)
unfolding decode_entries
decode-encode_entries first previous [] bytes words h = unfold encode_entries in ground arith
decode-encode_entries first previous (e ∷ es) bytes words h =
    let (valid, ordered, (rest, q, cut)) = encode_entries-cons first previous e es bytes h in
    let (back, size) = decode-encode_entries false e.id es rest words.1 q in
    rw cut (
      rw (
        entry_at-bytes e rest words.0,
        decode_entries,
        valid,
        ordered,
        drop-entry_bytes e rest,
        back,
      ),
      omega (arith, size, length-append (entry_bytes e) rest, length-entry_bytes e),
    )

pub encode_summary_sound :
    (s : Summary) (payload : List ℕ)
    → encode_summary s ≡ ok payload
    → (length s.entries ≤ 4096)
      × ((rest : List ℕ) × (encode_entries true 0 s.entries ≡ ok rest)
          × (payload ≡ put_uint64 s.epoch ++ (put_uint16 (length s.entries) ++ rest)))
unfolding encode_summary
encode_summary_sound s payload h = elim (Result-cases (encode_entries true 0 s.entries)) [
  | inl (rest, q) ↦ (ground arith, (rest, q, ground arith))
  | inr (x, q) ↦ absurd (ground arith)
]

-- the bytes of a summary or an acknowledgement: epoch, count, items
decode_summary_parts :
    (epoch : ℕ) (es : List RegistryEntry) (rest : List ℕ)
    → IsU64 epoch
    → length es ≤ 4096
    → length rest ≡ 10 * length es
    → decode_entries true 0 (length es) rest ≡ ok es
    → decode_summary (put_uint64 epoch ++ (put_uint16 (length es) ++ rest))
      ≡ ok (record { epoch = epoch; entries = es })
unfolding decode_summary put_uint64 put_uint16
decode_summary_parts epoch es rest word few size back =
    rw
      (
        uint16-put (length es) rest (omega arith),
        decode_summary,
        back,
        uint64-put epoch (put_uint16 (length es) ++ rest) word,
      )
      (ground arith)

-- A summary that can be encoded is decoded to the same epoch and the same entries.
pub decode-encode_summary :
    (s : Summary) (payload : List ℕ)
    → IsU64 s.epoch
    → All HasWord s.entries
    → encode_summary s ≡ ok payload
    → decode_summary payload ≡ ok s
decode-encode_summary s payload word words h =
    let (few, (rest, q, cut)) = encode_summary_sound s payload h in
    let (back, size) = decode-encode_entries true 0 s.entries rest words q in
    rw cut (decode_summary_parts s.epoch s.entries rest word few size back)

encode_ids-cons :
    (first : Bool) (previous id : ℕ) (more bytes : List ℕ)
    → encode_ids first previous (id ∷ more) ≡ ok bytes
    → ((id == 0 || not first && leb id previous) ≡ false)
      × ((rest : List ℕ) × (encode_ids false id more ≡ ok rest) × (bytes ≡ put_uint64 id ++ rest))
unfolding encode_ids
encode_ids-cons first previous id more bytes h = elim (Result-cases (encode_ids false id more)) [
  | inl (rest, q) ↦ (ground arith, (rest, q, ground arith))
  | inr (x, q) ↦ absurd (ground arith)
]

drop-put_uint64 : (v : ℕ) (rest : List ℕ) → drop 8 (put_uint64 v ++ rest) ≡ rest
unfolding put_uint64
drop-put_uint64 v rest = refl

length-put_uint64 : (v : ℕ) → length (put_uint64 v) ≡ 8
unfolding put_uint64
length-put_uint64 v = refl

decode-encode_ids :
    (first : Bool) (previous : ℕ) (resumed bytes : List ℕ)
    → All IsU64 resumed
    → encode_ids first previous resumed ≡ ok bytes
    → (decode_ids first previous (length resumed) bytes ≡ ok resumed)
      × (length bytes ≡ 8 * length resumed)
unfolding decode_ids
decode-encode_ids first previous [] bytes words h = unfold encode_ids in ground arith
decode-encode_ids first previous (id ∷ more) bytes words h =
    let (fine, (rest, q, cut)) = encode_ids-cons first previous id more bytes h in
    let (back, size) = decode-encode_ids false id more rest words.1 q in
    rw cut (
      rw (uint64-put id rest words.0, decode_ids, fine, drop-put_uint64 id rest, back),
      omega (arith, size, length-append (put_uint64 id) rest, length-put_uint64 id),
    )

encode_resume_ack_sound :
    (epoch : ℕ) (resumed payload : List ℕ)
    → encode_resume_ack epoch resumed ≡ ok payload
    → (length resumed ≤ 4096)
      × ((rest : List ℕ) × (encode_ids true 0 resumed ≡ ok rest)
          × (payload ≡ put_uint64 epoch ++ (put_uint16 (length resumed) ++ rest)))
unfolding encode_resume_ack
encode_resume_ack_sound epoch resumed payload h = elim (Result-cases (encode_ids true 0 resumed)) [
  | inl (rest, q) ↦ (ground arith, (rest, q, ground arith))
  | inr (x, q) ↦ absurd (ground arith)
]

decode_resume_ack_parts :
    (epoch : ℕ) (resumed rest : List ℕ)
    → IsU64 epoch
    → length resumed ≤ 4096
    → length rest ≡ 8 * length resumed
    → decode_ids true 0 (length resumed) rest ≡ ok resumed
    → decode_resume_ack (put_uint64 epoch ++ (put_uint16 (length resumed) ++ rest))
      ≡ ok (epoch, resumed)
unfolding decode_resume_ack put_uint64 put_uint16
decode_resume_ack_parts epoch resumed rest word few size back =
    rw
      (
        uint16-put (length resumed) rest (omega arith),
        decode_resume_ack,
        back,
        uint64-put epoch (put_uint16 (length resumed) ++ rest) word,
      )
      (ground arith)

-- An acknowledgement that can be encoded is decoded to the same epoch and the same identifiers.
pub decode-encode_resume_ack :
    (epoch : ℕ) (resumed payload : List ℕ)
    → IsU64 epoch
    → All IsU64 resumed
    → encode_resume_ack epoch resumed ≡ ok payload
    → decode_resume_ack payload ≡ ok (epoch, resumed)
decode-encode_resume_ack epoch resumed payload word words h =
    let (few, (rest, q, cut)) = encode_resume_ack_sound epoch resumed payload h in
    let (back, size) = decode-encode_ids true 0 resumed rest words q in
    rw cut (decode_resume_ack_parts epoch resumed rest word few size back)

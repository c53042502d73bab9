-- ===== src/Protocol/Sound.antt =====
-- What Read accepts: nothing but the encodings of valid frames, up to the two reserved bytes.
use wsl_win_relay.Base.{
  ℕ, ◌≡◌, subst, List, [], ◌∷◌, ◌++◌, append_assoc, ok, read_full_sound, arith, length, take, drop,
  get_or, All, All-append_left, IsByte, put_uint32, uint32, put-uint32, bytes_eq_iff, inl, inr,
}
use wsl_win_relay.Base.Writing.{Result-cases}
use wsl_win_relay.Protocol.Frame.{Frame, validate, version, header_size}
use wsl_win_relay.Protocol.Write.{magic}
use wsl_win_relay.Protocol.Read.{read_bytes, read_behind, read}

read_bytes_sound :
    (n : ℕ) (input part rest : List ℕ)
    → read_bytes n input ≡ ok (part, rest)
    → (input ≡ part ++ rest) × (length part ≡ n)
unfolding read_bytes
read_bytes_sound n input part rest h = read_full_sound n input part rest (ground arith)

-- The encoding of a frame, with any two bytes where Write puts zeros.
abbrev pub padded : Frame → ℕ → ℕ → List ℕ
padded f r s =
    magic
    ++ (version
        ∷ f.kind
        ∷ r
        ∷ s
        ∷ (put_uint32 f.stream_id ++ (put_uint32 (length f.payload) ++ f.payload)))

abbrev Accepts : List ℕ → Frame → List ℕ → Type 0
Accepts input f rest = (r : ℕ) × (s : ℕ) × (input ≡ padded f r s ++ rest) × (validate f ≡ ok tt)

-- What a successful Read has checked and decoded.
record Parts (header more : List ℕ) (f : Frame) (rest : List ℕ) : Type 0 where
  magic_ok : take 4 header ≡ magic
  version_ok : get_or header 4 0 ≡ version
  kind : f.kind ≡ get_or header 5 0
  stream_id : f.stream_id ≡ uint32 (take 4 (drop 8 header))
  payload : read_bytes (uint32 (take 4 (drop 12 header))) more ≡ ok (f.payload, rest)
  valid : validate f ≡ ok tt

behind-Parts :
    (header more : List ℕ) (f : Frame) (rest : List ℕ)
    → read_behind header more ≡ ok (f, rest)
    → Parts header more f rest
unfolding read_behind
behind-Parts header more f rest h = record {
  magic_ok = (bytes_eq_iff (take 4 header) magic).0 (ground arith);
  version_ok = ground arith;
  kind = ground arith;
  stream_id = ground arith;
  payload = ground arith;
  valid = ground arith;
}

-- The header with its sixteen bytes named.
behind_sound :
    (header more : List ℕ) (f : Frame) (rest : List ℕ)
    → length header ≡ 16
    → All IsByte header
    → Parts header more f rest
    → Accepts (header ++ more) f rest
behind_sound (m0 ∷ m1 ∷ m2 ∷ m3 ∷ v ∷ k ∷ r ∷ s ∷ a ∷ b ∷ c ∷ d ∷ w ∷ x ∷ y ∷ z ∷ []) more f rest
      len bytes p =
    let (cut, size) = read_bytes_sound _ _ _ _ p.payload in
    (
      r,
      s,
      ground (
        arith,
        p.magic_ok,
        p.version_ok,
        p.kind,
        p.stream_id,
        cut,
        size,
        put-uint32 a b c d [] (ground arith),
        put-uint32 w x y z [] (ground arith),
        append_assoc f.payload rest [],
      ),
      p.valid,
    )
behind_sound _ more f rest len bytes p = absurd (omega arith)

-- If Read accepts an input of bytes, then the input begins with the encoding of the frame that it
-- returns, up to the two reserved bytes, the frame is valid, and what is left is what follows it.
pub read_sound :
    (input : List ℕ) (f : Frame) (rest : List ℕ)
    → All IsByte input
    → read input ≡ ok (f, rest)
    → (r : ℕ) × (s : ℕ) × (input ≡ padded f r s ++ rest) × (validate f ≡ ok tt)
unfolding read
read_sound input f rest bytes h = elim (Result-cases (read_bytes header_size input)) [
  | inl ((header, more), e) ↦
      let (cut, len) = read_bytes_sound header_size input header more e in
      rw cut (
        behind_sound header more f rest len
          (All-append_left IsByte header more (subst (All IsByte) cut bytes))
          (behind-Parts header more f rest (rw (e, read) at h)))
  | inr (x, e) ↦ absurd (cc (e, h))
]

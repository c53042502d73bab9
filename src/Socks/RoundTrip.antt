-- ===== src/Socks/RoundTrip.antt =====
-- The header of a datagram is written and read back.
use wsl_win_relay.Base.{
  ℕ, ◌<◌, ◌≡◌, refl, ap, ◌∙◌, inr, List, [], ◌∷◌, ◌++◌, none, arith, All, IsByte, length, ok,
  read_full-append, put_uint16, uint16-put, IsU16, append_assoc,
}
use wsl_win_relay.Net.Decimal.{itoa, parse-itoa, itoa-IsDigit}
use wsl_win_relay.Net.HostPort.{
  has, join_host_port, split-join, IsFree, digits-IsFree, IsFree-append,
}
use wsl_win_relay.Net.Ip.{ip_string, parse_ip, to4, dotted}
use wsl_win_relay.Net.Ip.Quad.{parse-dotted}
use wsl_win_relay.Socks.{read_part}
use wsl_win_relay.Socks.Address.{
  read_host, read_address, encode_host, encode_parts, encode_address, parse_udp_request,
  encode_udp_response,
}

-- A host that has a form as bytes which is read as the same host.
pub record IsHost (host : List ℕ) : Type 0 where
  pub kind : ℕ
  pub bytes : List ℕ
  pub encoded : encode_host host ≡ ok (kind ∷ bytes)
  pub back : (rest : List ℕ) → read_host kind (bytes ++ rest) ≡ ok (host, rest)
  pub left : IsFree b'[' host
  pub right : IsFree b']' host

read_part-append : (part rest : List ℕ) → read_part (length part) (part ++ rest) ≡ ok (part, rest)
read_part-append part rest = rw (read_full-append part rest, read_part) refl

-- A domain is no text of an address, and has a length that fits a byte.
pub domain-IsHost :
    (host : List ℕ)
    → parse_ip host ≡ none
    → 0 < length host
    → length host < 256
    → IsFree b'[' host
    → IsFree b']' host
    → IsHost host
unfolding encode_host read_host
domain-IsHost host text some_byte few left right = record {
  kind = 3;
  bytes = length host ∷ host;
  encoded = rw text (ground arith);
  back = λ rest. ground (arith, read_full-append host rest, some_byte);
  left = left;
  right = right;
}

module _ (a b c d : ℕ) (quad : All IsByte (a ∷ b ∷ c ∷ d ∷ [])) where
  abbrev pub quad_text : List ℕ
  quad_text = dotted (a ∷ b ∷ c ∷ d ∷ [])

  field-IsFree :
      (mark x : ℕ) (rest : List ℕ)
      → b'9' < mark
      → IsFree mark rest
      → IsFree mark (itoa x ++ b'.' ∷ rest)
  unfolding has
  field-IsFree mark x rest out h =
      IsFree-append mark (itoa x) (b'.' ∷ rest)
        (digits-IsFree mark (itoa x) (inr out) (itoa-IsDigit x)) (ground (arith, h, out))

  dotted-IsFree : (mark : ℕ) → b'9' < mark → IsFree mark quad_text
  unfolding dotted
  dotted-IsFree mark out = field-IsFree mark a _ out (
      field-IsFree mark b _ out
        (field-IsFree mark c _ out (digits-IsFree mark (itoa d) (inr out) (itoa-IsDigit d))))

  -- the text of an address of four bytes
  pub dotted-IsHost : IsHost quad_text
  unfolding encode_host read_host ip_string to4
  dotted-IsHost = record {
    kind = 1;
    bytes = a ∷ b ∷ c ∷ d ∷ [];
    encoded = rw (parse-dotted a b c d quad) refl;
    back = λ rest. ground (arith, read_full-append (a ∷ b ∷ c ∷ d ∷ []) rest);
    left = dotted-IsFree b'[' (omega arith);
    right = dotted-IsFree b']' (omega arith);
  }

module _ (host : List ℕ) (port : ℕ) (content : List ℕ) (form : IsHost host)
    (word : IsU16 port) where
  port-IsFree : (mark : ℕ) → (b'9' < mark) → IsFree mark (itoa port)
  port-IsFree mark out = digits-IsFree mark (itoa port) (inr out) (itoa-IsDigit port)

  read_back :
      parse_udp_request (0 ∷ 0 ∷ 0 ∷ (form.kind ∷ form.bytes ++ put_uint16 port) ++ content)
      ≡ ok (join_host_port host (itoa port), content)
  unfolding parse_udp_request read_address put_uint16
  read_back =
      ap (read_address form.kind) (append_assoc form.bytes (put_uint16 port) content)
      ∙ rw
          (
            form.back (put_uint16 port ++ content),
            read_address,
            read_full-append (put_uint16 port) content,
            read_part,
            uint16-put port [] word,
          )
          refl

  pub encode_udp-IsHost :
      encode_udp_response (join_host_port host (itoa port)) content
      ≡ ok (0 ∷ 0 ∷ 0 ∷ (form.kind ∷ form.bytes ++ put_uint16 port) ++ content)
  unfolding encode_udp_response encode_address
  encode_udp-IsHost =
      rw
        (
          split-join host (itoa port) form.left form.right (port-IsFree b':' (omega arith))
              (port-IsFree b'[' (omega arith)) (port-IsFree b']' (omega arith)),
          parse-itoa port word,
          encode_parts,
          form.encoded,
          encode_address,
        )
        refl

-- The hosts of targets: a domain, which is no text of an address, fits a length of a byte and has no
-- bracket, or four bytes with dots.
pub data Target : List ℕ → Type 0 where
  domain :
      (host : List ℕ)
      → parse_ip host ≡ none
      → 0 < length host
      → length host < 256
      → IsFree b'[' host
      → IsFree b']' host
      → Target host
  quad : (a b c d : ℕ) → All IsByte (a ∷ b ∷ c ∷ d ∷ []) → Target (dotted (a ∷ b ∷ c ∷ d ∷ []))

pub Target-IsHost : (host : List ℕ) → Target host → IsHost host
Target-IsHost _ (domain host text some_byte few left right) =
    domain-IsHost host text some_byte few left right
Target-IsHost _ (quad a b c d bytes) = dotted-IsHost a b c d bytes

-- A datagram for a client is one that the client could have sent: for every domain and every address of
-- four bytes, every port and all bytes, the response with the text of the address in front of the bytes
-- can be encoded, and read as a request it gives back that text and those bytes.
pub parse-encode_udp :
    (host : List ℕ) (port : ℕ) (content : List ℕ)
    → Target host
    → IsU16 port
    → (packet : List ℕ) × (encode_udp_response (join_host_port host (itoa port)) content
        ≡ ok packet)
      × (parse_udp_request packet ≡ ok (join_host_port host (itoa port), content))
parse-encode_udp host port content target word =
    let form = Target-IsHost host target in
    (
      0 ∷ 0 ∷ 0 ∷ (form.kind ∷ form.bytes ++ put_uint16 port) ++ content,
      encode_udp-IsHost host port content form word,
      read_back host port content form word,
    )

-- ===== src/Upstream/Reply.antt =====
-- The dialer at the answers of a proxy without authentication: its handshake and its reading of a reply.
use wsl_win_relay.Base.{
  ℕ, ◌<◌, ◌≡◌, refl, ap, ◌∙◌, inr, List, [], ◌∷◌, ◌++◌, Option, none, some, ok, arith, All, IsByte,
  IsU16, length, accepting, put_uint16, read_full-append, Result,
}
use wsl_win_relay.Base.Action.{Action, resume}
use wsl_win_relay.Net.Decimal.{itoa, parse-itoa, itoa-IsDigit}
use wsl_win_relay.Net.HostPort.{join_host_port, IsFree, split-join, digits-IsFree}
use wsl_win_relay.Net.Ip.{dotted, to4}
use wsl_win_relay.Net.Ip.Quad.{parse-dotted}
use wsl_win_relay.Socks.Serve.{reply_bytes, reply_parts}
use wsl_win_relay.Socks.RoundTrip.{dotted-IsHost}
use wsl_win_relay.Upstream.{Conn, send, receive, read_part}
use wsl_win_relay.Upstream.Address.{read_socks_address, address_text}
use wsl_win_relay.Upstream.Connect.{
  User, methods, socks5_handshake, answer_method, receive_reply, receive_address,
}
use wsl_win_relay.Upstream.Chained.{send-accepting}

abbrev pub conn : List ℕ → List ℕ → Conn
conn input sent = record { input = input; output = accepting sent }

pub receive-append :
    (p rest sent : List ℕ) → receive (length p) (conn (p ++ rest) sent) ≡ (ok p, conn rest sent)
unfolding receive
receive-append p rest sent = rw (read_full-append p rest, read_part) refl

-- The local addresses of the connections that the proxy makes: unknown, or of four bytes.
pub data Local : Option (List ℕ) → Type 0 where
  unknown : Local none
  quad :
      (a b c d port : ℕ)
      → All IsByte (a ∷ b ∷ c ∷ d ∷ [])
      → IsU16 port
      → Local (some (join_host_port (dotted (a ∷ b ∷ c ∷ d ∷ [])) (itoa port)))

-- the answer of the proxy, and that it is an address of four bytes
reply_form :
    (local : Option (List ℕ))
    → Local local
    → (a : ℕ) × (b : ℕ) × (c : ℕ) × (d : ℕ) × (port : ℕ) × (reply_bytes 0 local
        ≡ 5 ∷ 0 ∷ 0 ∷ 1 ∷ a ∷ b ∷ c ∷ d ∷ put_uint16 port)
unfolding reply_bytes to4
reply_form _ unknown = (0, 0, 0, 0, 0, refl)
reply_form _ (quad a b c d port bytes word) =
    let form = dotted-IsHost a b c d bytes in
    (
      a,
      b,
      c,
      d,
      port,
      rw
          (
            split-join (dotted (a ∷ b ∷ c ∷ d ∷ [])) (itoa port) form.left form.right
                (free b':' (omega arith)) (free b'[' (omega arith)) (free b']' (omega arith)),
            parse-itoa port word,
            reply_parts,
            parse-dotted a b c d bytes,
          )
          refl,
    )
  where
    free : (mark : ℕ) → b'9' < mark → IsFree mark (itoa port)
    free mark out = digits-IsFree mark (itoa port) (inr out) (itoa-IsDigit port)

pub receive_reply-Local :
    (local : Option (List ℕ)) (rest sent : List ℕ)
    → Local local
    → (bind : List ℕ) × (receive_reply (conn (reply_bytes 0 local ++ rest) sent)
        ≡ (ok bind, conn rest sent))
unfolding receive_reply read_socks_address put_uint16
receive_reply-Local local rest sent l =
    let (a, b, c, d, port, form) = reply_form local l in
    let tail : List ℕ = a ∷ b ∷ c ∷ d ∷ put_uint16 port in
    (
      address_text 1 4 tail,
      rw
          (
            form,
            receive_reply,
            receive-append (5 ∷ 0 ∷ 0 ∷ 1 ∷ []) (tail ++ rest) sent,
            receive_address,
            read_full-append tail rest,
            read_part,
          )
          refl,
    )

pub goes_on :
    {S E A B : Type 0} (m : Action S E A) (f : A → Action S E B) (s s' : S) (a : A)
    → m s ≡ (ok a, s')
    → resume (m s).0 f (m s).1 ≡ f a s'
goes_on m f s s' a e = ap (λ (r : Result _ _ × _). resume r.0 f r.1) e

-- A proxy that takes connections without authentication is not sent a password.
pub handshake-open :
    (user : Option User) (rest sent : List ℕ)
    → socks5_handshake user (conn (5 ∷ 0 ∷ rest) sent)
      ≡ (ok tt, conn rest (sent ++ 5 ∷ length (methods user) ∷ methods user))
unfolding socks5_handshake
handshake-open user rest sent =
    let greeting : List ℕ = 5 ∷ length (methods user) ∷ methods user in
    goes_on (send greeting) _ _ _ tt (send-accepting greeting (5 ∷ 0 ∷ rest) sent)
    ∙ goes_on (receive 2) (answer_method user) (conn (5 ∷ 0 ∷ rest) (sent ++ greeting))
        (conn rest (sent ++ greeting)) (5 ∷ 0 ∷ [])
        (receive-append (5 ∷ 0 ∷ []) rest (sent ++ greeting))

-- ===== src/Upstream/Connect.antt =====
-- internal/upstream/dialer.go: the handshake with the SOCKS5 proxy and its CONNECT (socks5Handshake,
-- socks5Connect).
use wsl_win_relay.Base.{
  ℕ, Bool, not, ◌||◌, List, [], ◌∷◌, ◌++◌, Option, none, some, ltb, ◌==◌, if◌then◌else◌, length,
  get_or,
}
use wsl_win_relay.Base.Action.{Action, pure, fail, lift, ◌>>=◌, ◌>>◌}
use wsl_win_relay.Upstream.{
  Error, Conn, no_method, unexpected_credentials, long_credentials, denied, unsupported_method,
  rejected, send, receive, took,
}
use wsl_win_relay.Upstream.Address.{encode_target, read_socks_address}

pub record User : Type 0 where
  pub username : List ℕ
  pub password : List ℕ

abbrev pub methods : Option User → List ℕ
methods none = 0 ∷ []
methods (some user) = 0 ∷ 2 ∷ []

abbrev pub refuse_if : Bool → Error → Action Conn Error (Unit {0})
refuse_if b e = if b then fail e else pure tt

-- the authentication that a proxy may ask for
abbrev pub credentials : User → List ℕ
credentials user =
    1 ∷ length user.username ∷ user.username ++ (length user.password ∷ user.password)

unfoldable pub authenticate : Option User → Action Conn Error (Unit {0})
unfolding send receive
authenticate none = fail unexpected_credentials
authenticate (some user) = do
  refuse_if (ltb 255 (length user.username) || ltb 255 (length user.password)) long_credentials
  send (credentials user)
  reply ← receive 2
  refuse_if (not (get_or reply 1 0 == 0)) denied

abbrev pub answer_method : Option User → List ℕ → Action Conn Error (Unit {0})
answer_method user reply =
    if not (get_or reply 0 0 == 5) || get_or reply 1 0 == 255
    then fail no_method
    else if get_or reply 1 0 == 2
    then authenticate user
    else if not (get_or reply 1 0 == 0)
    then fail unsupported_method
    else pure tt

unfoldable pub socks5_handshake : Option User → Action Conn Error (Unit {0})
unfolding send receive authenticate
socks5_handshake user = do
  send (5 ∷ length (methods user) ∷ methods user)
  reply ← receive 2
  answer_method user reply

-- the address that a reply ends with
abbrev pub receive_address : ℕ → Action Conn Error (List ℕ)
receive_address kind c = took c (read_socks_address kind c.input)

-- What the proxy answers to a request: the address, where it has not refused.
unfoldable pub receive_reply : Action Conn Error (List ℕ)
unfolding receive read_socks_address
receive_reply = do
  header ← receive 4
  refuse_if (not (get_or header 0 0 == 5) || not (get_or header 1 0 == 0)) rejected
  receive_address (get_or header 3 0)

unfoldable pub socks5_connect : List ℕ → Option User → Action Conn Error (Unit {0})
unfolding socks5_handshake encode_target send receive_reply
socks5_connect target user = do
  socks5_handshake user
  address ← lift (encode_target target)
  send (5 ∷ 1 ∷ 0 ∷ address)
  bind ← receive_reply
  pure tt

-- OpenPacketContext up to the relay address that the proxy names
unfoldable pub open_associate : Option User → Action Conn Error (List ℕ)
unfolding socks5_handshake send receive_reply
open_associate user = do
  socks5_handshake user
  send (5 ∷ 3 ∷ 0 ∷ 1 ∷ 0 ∷ 0 ∷ 0 ∷ 0 ∷ 0 ∷ 0 ∷ [])
  receive_reply

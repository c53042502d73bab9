-- ===== src/Socks/Datagram.antt =====
-- internal/socks5/server.go: the relaying of datagrams for a client, serveUDPAssociateWithPacket. The
-- idle timer and the control connection only end it.
use wsl_win_relay.Base.{
  ℕ, Bool, true, false, List, [], ◌∷◌, ◌++◌, Option, none, some, ◌==◌, if◌then◌else◌, length,
  Result, ok, err, bytes_eq, ◌≡◌, refl, All, All-append, Bool-cases, inl, inr,
}
use wsl_win_relay.Net.HostPort.{split_host_port}
use wsl_win_relay.Net.Ip.{parse_ip, mapped_prefix}
use wsl_win_relay.Socks.{Error}
use wsl_win_relay.Socks.Address.{parse_udp_request, encode_udp_response}

abbrev pub to16 : List ℕ → List ℕ
to16 ip = if length ip == 4 then mapped_prefix ++ ip else ip

-- The text of the control connection's address may have no address in it; then all are the same.
abbrev pub same_ip : Option (List ℕ × List ℕ) → List ℕ → Bool
same_ip none udp = true
same_ip (some (host, port)) udp = elim (parse_ip host) [
  | none ↦ true
  | some ip ↦ bytes_eq (to16 ip) (to16 udp)
]

unfoldable pub same_client_ip : List ℕ → List ℕ → Bool
unfolding split_host_port parse_ip bytes_eq
same_client_ip control udp = same_ip (split_host_port control) udp

-- A UDP address: its bytes and its port.
abbrev pub Endpoint : Type 0
Endpoint = List ℕ × ℕ

-- `client` is the address that the client sent from last; the other two say which of the two loops
-- have returned.
pub record Relay : Type 0 where
  pub client : Option Endpoint
  pub sending_ended : Bool
  pub returning_ended : Bool
  pub forwarded : List (List ℕ × List ℕ)
  pub delivered : List (Endpoint × List ℕ)

abbrev pub new_relay : Relay
new_relay = record {
  client = none;
  sending_ended = false;
  returning_ended = false;
  forwarded = [];
  delivered = [];
}

-- A datagram at the local socket; `fails` is the write to the relay.
abbrev pub forward : Endpoint → Bool → Result Error (List ℕ × List ℕ) → Relay → Relay
forward source fails (err e) r = r
forward source fails (ok (target, content)) r =
    if fails
    then record r { client = some source; sending_ended = true }
    else record r { client = some source; forwarded = r.forwarded ++ (target, content) ∷ [] }

unfoldable pub from_client : List ℕ → Endpoint → List ℕ → Bool → Relay → Relay
unfolding same_client_ip parse_udp_request
from_client control source packet fails r =
    if same_client_ip control source.0 then forward source fails (parse_udp_request packet) r else r

-- A datagram that the relay returns; `fails` is the write to the client.
abbrev pub deliver : Option Endpoint → Bool → Result Error (List ℕ) → Relay → Relay
deliver client fails (err e) r = r
deliver none fails (ok packet) r = r
deliver (some destination) fails (ok packet) r =
    if fails
    then record r { returning_ended = true }
    else record r { delivered = r.delivered ++ (destination, packet) ∷ [] }

unfoldable pub from_relay : List ℕ → List ℕ → Bool → Relay → Relay
unfolding encode_udp_response
from_relay source content fails r = deliver r.client fails (encode_udp_response source content) r

pub data Step : Type 0 where
  arrives : Endpoint → List ℕ → Bool → Step
  returns : List ℕ → List ℕ → Bool → Step
  stops : Step

-- A loop that has returned does nothing more. `stops` is the end of the function, which closes both
-- sockets: a while may pass between the error of one loop and it.
unfoldable pub step : List ℕ → Relay → Step → Relay
unfolding from_client from_relay
step control r (arrives source packet fails) =
    if r.sending_ended then r else from_client control source packet fails r
step control r (returns source content fails) =
    if r.returning_ended then r else from_relay source content fails r
step control r stops = record r { sending_ended = true; returning_ended = true }

unfoldable pub steps : List ℕ → Relay → List Step → Relay
unfolding step
steps control r [] = r
steps control r (x ∷ xs) = steps control (step control r x) xs

abbrev pub Trusts : List ℕ → Endpoint → Type 0
Trusts control e = same_client_ip control e.0 ≡ true

abbrev pub Trusted : List ℕ → Endpoint × List ℕ → Type 0
Trusted control d = Trusts control d.0

abbrev pub Knows : List ℕ → Option Endpoint → Type 0
Knows control none = Unit
Knows control (some e) = Trusts control e

pub record IsGuarded (control : List ℕ) (r : Relay) : Type 0 where
  pub known : Knows control r.client
  pub guarded : All (Trusted control) r.delivered

module _ (control : List ℕ) where
  if-IsGuarded :
      (b : Bool) (r r' : Relay)
      → IsGuarded control r
      → (b ≡ false → IsGuarded control r')
      → IsGuarded control (if b then r else r')
  if-IsGuarded true r r' h k = h
  if-IsGuarded false r r' h k = k refl

  forward-IsGuarded :
      (source : Endpoint) (fails : Bool) (p : Result Error (List ℕ × List ℕ)) (r : Relay)
      → Trusts control source
      → IsGuarded control r
      → IsGuarded control (forward source fails p r)
  forward-IsGuarded source fails (err e) r t h = h
  forward-IsGuarded source true (ok (target, content)) r t h = record {
    known = t;
    guarded = h.guarded;
  }
  forward-IsGuarded source false (ok (target, content)) r t h = record {
    known = t;
    guarded = h.guarded;
  }

  deliver-IsGuarded :
      (client : Option Endpoint) (fails : Bool) (p : Result Error (List ℕ)) (r : Relay)
      → Knows control client
      → IsGuarded control r
      → IsGuarded control (deliver client fails p r)
  deliver-IsGuarded client fails (err e) r k h = h
  deliver-IsGuarded none fails (ok packet) r k h = h
  deliver-IsGuarded (some e) true (ok packet) r k h = record {
    known = h.known;
    guarded = h.guarded;
  }
  deliver-IsGuarded (some e) false (ok packet) r k h = record {
    known = h.known;
    guarded = All-append (Trusted control) r.delivered ((e, packet) ∷ []) h.guarded (k, tt);
  }

  step-IsGuarded :
      (x : Step) (r : Relay) → IsGuarded control r → IsGuarded control (step control r x)
  unfolding step from_client from_relay
  step-IsGuarded (arrives source packet fails) r h = if-IsGuarded r.sending_ended r _ h (λ _.
      elim (Bool-cases (same_client_ip control source.0)) [
        | inl t ↦ rw t (forward-IsGuarded source fails (parse_udp_request packet) r t h)
        | inr e ↦ rw e h
      ])
  step-IsGuarded (returns source content fails) r h =
      if-IsGuarded r.returning_ended r _ h
        (λ _. deliver-IsGuarded r.client fails (encode_udp_response source content) r h.known h)
  step-IsGuarded stops r h = record { known = h.known; guarded = h.guarded }

  steps-IsGuarded :
      (xs : List Step) (r : Relay) → IsGuarded control r → IsGuarded control (steps control r xs)
  unfolding steps
  steps-IsGuarded [] r h = h
  steps-IsGuarded (x ∷ xs) r h = steps-IsGuarded xs (step control r x) (step-IsGuarded x r h)

-- Whatever datagrams arrive at the local socket, from whomever, and whatever the relay returns, in
-- whatever order: a datagram is only ever delivered to an address whose IP is that of the control
-- connection, or whatever IP where the text of that connection's address has none.
pub steps-new-IsGuarded :
    (control : List ℕ) (xs : List Step)
    → All (Trusted control) (steps control new_relay xs).delivered
steps-new-IsGuarded control xs =
    (steps-IsGuarded control xs new_relay (record { known = tt; guarded = tt })).guarded

-- ===== src/Socks/Serve.antt =====
-- internal/socks5/server.go: a connection of the proxy, from the choice of a method to the copying.
use wsl_win_relay.Base.{
  ℕ, Bool, true, false, not, List, [], ◌∷◌, ◌++◌, Option, none, some, ◌==◌, if◌then◌else◌, Result,
  ok, err, ◌>>=◌, ◌>>◌, guard, read_full, put_uint16,
}
use wsl_win_relay.Net.Decimal.{parse_uint16}
use wsl_win_relay.Net.HostPort.{split_host_port, has}
use wsl_win_relay.Net.Ip.{parse_ip, to4}
use wsl_win_relay.Socks.{
  Error, bad_version, no_method, bad_command, no_udp, dial_failed, write_failed, read_part,
}
use wsl_win_relay.Socks.Address.{read_address}

abbrev pub reply_succeeded : ℕ
reply_succeeded = 0

abbrev pub reply_general_failure : ℕ
reply_general_failure = 1

abbrev pub reply_host_unreachable : ℕ
reply_host_unreachable = 4

abbrev pub reply_connection_refused : ℕ
reply_connection_refused = 5

abbrev pub reply_command_not_supported : ℕ
reply_command_not_supported = 7

-- What the error of a dial is found to be; the first that fits counts.
pub data DialError : Type 0 where
  canceled timed_out refused other : DialError

abbrev pub map_dial_error : DialError → ℕ
map_dial_error canceled = reply_general_failure
map_dial_error timed_out = reply_host_unreachable
map_dial_error refused = reply_connection_refused
map_dial_error other = reply_general_failure

abbrev pub reply_ip : Option (List ℕ) → List ℕ
reply_ip none = 0 ∷ 0 ∷ 0 ∷ 0 ∷ []
reply_ip (some ip) = ip

abbrev pub reply_host : List ℕ → List ℕ
reply_host ip = elim (to4 ip) [ some quad ↦ 1 ∷ quad | none ↦ 4 ∷ ip ]

-- The host and the port of a local address; nothing, or a text that cannot be split, has neither.
abbrev pub reply_parts : Option (List ℕ × List ℕ) → List ℕ × ℕ
reply_parts none = ([], 0)
reply_parts (some (host, port)) = elim (parse_uint16 port) [ none ↦ (host, 0) | some p ↦ (host, p) ]

abbrev pub split_address : Option (List ℕ) → Option (List ℕ × List ℕ)
split_address none = none
split_address (some address) = split_host_port address

-- the bytes that writeReply writes; a local address ends in a number of 16 bits
unfoldable pub reply_bytes : ℕ → Option (List ℕ) → List ℕ
unfolding split_host_port parse_ip to4 parse_uint16 put_uint16
reply_bytes code address =
    let (host, port) = reply_parts (split_address address) in
    5 ∷ code ∷ 0 ∷ reply_host (reply_ip (parse_ip host)) ++ put_uint16 port

-- What the proxy does for a connection. A write may fail; a dial, the opening of a packet connection
-- and ListenUDP are recorded with whether they succeeded. `proxies` is the copying in both directions,
-- `associates` the relaying of datagrams.
pub data Event : Type 0 where
  writes : List ℕ → Bool → Event
  dials : List ℕ → Bool → Event
  opens_packet listens : Bool → Event
  proxies associates : Event

abbrev pub Outcome : Type 0
Outcome = List Event × Option Error

-- What comes of a write: `fails` says whether it does.
abbrev pub after_write : List ℕ → Bool → Outcome → Outcome
after_write bytes true rest = (writes bytes true ∷ [], some write_failed)
after_write bytes false (events, e) = (writes bytes false ∷ events, e)

-- A reply whose failure is not looked at.
abbrev pub refuse : ℕ → Bool → Error → Outcome
refuse code fails e = (writes (reply_bytes code none) fails ∷ [], some e)

-- The answer to the methods: whether it is the one without authentication.
abbrev pub choose_method : List ℕ → Bool
choose_method methods = has 0 methods

-- negotiate up to its write: the methods offered, and what follows
unfoldable pub read_methods : List ℕ → Result Error (List ℕ × List ℕ)
unfolding read_full
read_methods input = do
  (header, rest) ← read_part 2 input
  guard (not (first header == 5)) bad_version
  read_part (second header) rest
  where
    first : List ℕ → ℕ
    first [] = 0
    first (b ∷ bs) = b

    second : List ℕ → ℕ
    second (b ∷ c ∷ bs) = c
    second _ = 0

unfoldable pub read_request : List ℕ → Result Error (ℕ × List ℕ)
unfolding read_full read_address
read_request input = read_part 4 input >>= request
  where
    with_command : ℕ → List ℕ × List ℕ → Result Error (ℕ × List ℕ)
    with_command command (target, rest) = ok (command, target)

    request : List ℕ × List ℕ → Result Error (ℕ × List ℕ)
    request (version ∷ command ∷ reserved ∷ kind ∷ bs, rest) = do
      guard (not (version == 5)) bad_version
      read_address kind rest >>= with_command command
    request (header, rest) = err bad_version

-- What a connection meets: whether its two writes fail, whether the dialer has datagrams, what its
-- calls return (local addresses where they succeed), and what ListenUDP does.
pub record World : Type 0 where
  pub greeting_fails : Bool
  pub reply_fails : Bool
  pub has_packets : Bool
  pub dial : Result DialError (Option (List ℕ))
  pub packet : Result DialError (Unit {0})
  pub listen : Option (List ℕ)

abbrev pub event : Event → Outcome → Outcome
event e (events, r) = (e ∷ events, r)

-- serveUDPAssociate and serveUDPAssociateWithPacket, up to the relaying
abbrev pub serve_udp_associate : World → Outcome
serve_udp_associate w = elim w.packet [
  | err d ↦ event (opens_packet false) (refuse (map_dial_error d) w.reply_fails dial_failed)
  | ok u ↦ event (opens_packet true) (elim w.listen [
    | none ↦ event (listens false) (refuse reply_general_failure w.reply_fails dial_failed)
    | some address ↦ event (listens true) (
        after_write (reply_bytes reply_succeeded (some address)) w.reply_fails
          (associates ∷ [], none))
  ])
]

abbrev pub serve_connect : World → List ℕ → Outcome
serve_connect w target = elim w.dial [
  | err d ↦ event (dials target false) (refuse (map_dial_error d) w.reply_fails dial_failed)
  | ok address ↦
      event (dials target true)
        (after_write (reply_bytes reply_succeeded address) w.reply_fails (proxies ∷ [], none))
]

abbrev pub serve_request : World → Result Error (ℕ × List ℕ) → Outcome
serve_request w (err e) = refuse reply_general_failure w.reply_fails e
serve_request w (ok (command, target)) =
    if command == 3
    then if not w.has_packets
      then refuse reply_command_not_supported w.reply_fails no_udp
      else serve_udp_associate w
    else if not (command == 1)
    then refuse reply_command_not_supported w.reply_fails bad_command
    else serve_connect w target

abbrev pub greet : World → Result Error (List ℕ × List ℕ) → Outcome
greet w (err e) = ([], some e)
greet w (ok (methods, rest)) =
    if choose_method methods
    then after_write (5 ∷ 0 ∷ []) w.greeting_fails (serve_request w (read_request rest))
    else after_write (5 ∷ 255 ∷ []) w.greeting_fails ([], some no_method)

-- ServeConn, with deadlines that can be set
unfoldable pub serve_conn : World → List ℕ → Outcome
unfolding has read_methods read_request reply_bytes
serve_conn w input = greet w (read_methods input)

-- ===== src/Socks/Replies.antt =====
-- What a connection of the proxy can look like from outside.
use wsl_win_relay.Base.{
  ℕ, ◌≡◌, ◌≢◌, refl, Bool, true, false, not, List, [], ◌∷◌, Option, none, some, Result, ok, err,
  arith, ◌==◌, ==_iff, ap, ◌∙◌, if◌then◌else◌,
}
use wsl_win_relay.Net.HostPort.{has}
use wsl_win_relay.Socks.{Error, no_udp, bad_command, no_method, dial_failed}
use wsl_win_relay.Socks.Serve.{
  DialError, canceled, timed_out, refused, other, map_dial_error, reply_bytes, reply_succeeded,
  reply_general_failure, reply_command_not_supported, Event, writes, dials, opens_packet, listens,
  proxies, associates, Outcome, event, after_write, refuse, World, serve_udp_associate,
  serve_connect, serve_request, greet, read_request, read_methods, serve_conn,
}

abbrev pub Refusal : List ℕ → Type 0
Refusal bytes = (code : ℕ) × (bytes ≡ reply_bytes code none) × (code ≢ reply_succeeded)

abbrev pub Success : List ℕ → Type 0
Success bytes = (address : Option (List ℕ)) × (bytes ≡ reply_bytes reply_succeeded address)

-- What follows on a call that has not reached the target, and on one that has: then `last` is what the
-- proxy goes on with.
pub data Refused : List Event → Type 0 where
  refuses : (bytes : List ℕ) (fails : Bool) → Refusal bytes → Refused (writes bytes fails ∷ [])

pub data Served (last : Event) : List Event → Type 0 where
  serves : (bytes : List ℕ) → Success bytes → Served last (writes bytes false ∷ last ∷ [])
  loses : (bytes : List ℕ) → Success bytes → Served last (writes bytes true ∷ [])

-- The answer to a request, which has been read or not. Command 1 is CONNECT, 3 is UDP ASSOCIATE.
pub data Answer (packets : Bool) (r : Result Error (ℕ × List ℕ)) : List Event → Type 0 where
  unread : (e : Error) (es : List Event) → r ≡ err e → Refused es → Answer packets r es
  rejects :
      (command : ℕ) (target : List ℕ) (es : List Event)
      → r ≡ ok (command, target)
      → command ≢ 1
      → (command ≡ 3 → packets ≡ false)
      → Refused es
      → Answer packets r es
  misses :
      (target : List ℕ) (es : List Event)
      → r ≡ ok (1, target)
      → Refused es
      → Answer packets r (dials target false ∷ es)
  connects :
      (target : List ℕ) (es : List Event)
      → r ≡ ok (1, target)
      → Served proxies es
      → Answer packets r (dials target true ∷ es)
  shuts :
      (target : List ℕ) (es : List Event)
      → r ≡ ok (3, target)
      → Refused es
      → Answer packets r (opens_packet false ∷ es)
  deaf :
      (target : List ℕ) (es : List Event)
      → r ≡ ok (3, target)
      → Refused es
      → Answer packets r (opens_packet true ∷ listens false ∷ es)
  relays :
      (target : List ℕ) (es : List Event)
      → r ≡ ok (3, target)
      → Served associates es
      → Answer packets r (opens_packet true ∷ listens true ∷ es)

-- The conversation on an input: no method at all, none that is supported, or method 0 (no
-- authentication) among them.
pub data Conversation (packets : Bool) (input : List ℕ) : List Event → Type 0 where
  silent : (e : Error) → read_methods input ≡ err e → Conversation packets input []
  unwilling :
      (methods rest : List ℕ) (fails : Bool)
      → read_methods input ≡ ok (methods, rest)
      → has 0 methods ≡ false
      → Conversation packets input (writes (5 ∷ 255 ∷ []) fails ∷ [])
  lost :
      (methods rest : List ℕ)
      → read_methods input ≡ ok (methods, rest)
      → has 0 methods ≡ true
      → Conversation packets input (writes (5 ∷ 0 ∷ []) true ∷ [])
  answered :
      (methods rest : List ℕ) (es : List Event)
      → read_methods input ≡ ok (methods, rest)
      → has 0 methods ≡ true
      → Answer packets (read_request rest) es
      → Conversation packets input (writes (5 ∷ 0 ∷ []) false ∷ es)

mapped-ne : (d : DialError) → map_dial_error d ≢ reply_succeeded
mapped-ne canceled = λ e. absurd (omega arith)
mapped-ne timed_out = λ e. absurd (omega arith)
mapped-ne refused = λ e. absurd (omega arith)
mapped-ne other = λ e. absurd (omega arith)

refuse-Refused :
    (code : ℕ) (fails : Bool) (e : Error) → code ≢ reply_succeeded → Refused (refuse code fails e).0
refuse-Refused code fails e ne = refuses (reply_bytes code none) fails (code, refl, ne)

succeed-Served :
    (last : Event) (address : Option (List ℕ)) (fails : Bool)
    → Served last (after_write (reply_bytes reply_succeeded address) fails (last ∷ [], none)).0
succeed-Served last address true = loses (reply_bytes reply_succeeded address) (address, refl)
succeed-Served last address false = serves (reply_bytes reply_succeeded address) (address, refl)

module _ (w : World) (r : Result Error (ℕ × List ℕ)) where
  connect-Answer :
      (target : List ℕ) → r ≡ ok (1, target) → Answer w.has_packets r (serve_connect w target).0
  connect-Answer target read = ending w.dial
    where
      ending :
          (d : Result DialError (Option (List ℕ)))
          → Answer w.has_packets r
              (elim d as (λ _. Outcome) [
                | err d ↦
                    event (dials target false) (refuse (map_dial_error d) w.reply_fails dial_failed)
                | ok address ↦ event (dials target true) (
                    after_write
                      (reply_bytes reply_succeeded address)
                      w.reply_fails
                      (proxies ∷ [], none))
              ]).0
      ending (err d) =
          misses target _ read
            (refuse-Refused (map_dial_error d) w.reply_fails dial_failed (mapped-ne d))
      ending (ok address) = connects target _ read (succeed-Served proxies address w.reply_fails)

  associate-Answer :
      (target : List ℕ) → r ≡ ok (3, target) → Answer w.has_packets r (serve_udp_associate w).0
  associate-Answer target read = ending w.packet w.listen
    where
      ending :
          (p : Result DialError (Unit {0})) (l : Option (List ℕ))
          → Answer w.has_packets r
              (elim p as (λ _. Outcome) [
                | err d ↦
                    event (opens_packet false) (refuse (map_dial_error d) w.reply_fails dial_failed)
                | ok u ↦ event (opens_packet true) (elim l as (λ _. Outcome) [
                  | none ↦
                      event (listens false) (refuse reply_general_failure w.reply_fails dial_failed)
                  | some address ↦ event (listens true) (
                      after_write
                        (reply_bytes reply_succeeded (some address))
                        w.reply_fails
                        (associates ∷ [], none))
                ])
              ]).0
      ending (err d) l =
          shuts target _ read
            (refuse-Refused (map_dial_error d) w.reply_fails dial_failed (mapped-ne d))
      ending (ok u) none = deaf target _ read (
          refuse-Refused reply_general_failure w.reply_fails dial_failed
            (λ e. absurd (omega arith)))
      ending (ok u) (some address) =
          relays target _ read (succeed-Served associates (some address) w.reply_fails)

  rejected-Answer :
      (command : ℕ) (target : List ℕ) (e : Error)
      → r ≡ ok (command, target)
      → command ≢ 1
      → (command ≡ 3 → w.has_packets ≡ false)
      → Answer w.has_packets r (refuse reply_command_not_supported w.reply_fails e).0
  rejected-Answer command target e read ne unable =
      rejects command target _ read ne unable
        (refuse-Refused reply_command_not_supported w.reply_fails e (λ q. absurd (omega arith)))

  by_command :
      (command : ℕ) (target : List ℕ) (third first : Bool)
      → (command == 3) ≡ third
      → (command == 1) ≡ first
      → r ≡ ok (command, target)
      → Answer w.has_packets r
          (if third
            then if not w.has_packets
              then refuse reply_command_not_supported w.reply_fails no_udp
              else serve_udp_associate w
            else if not first
            then refuse reply_command_not_supported w.reply_fails bad_command
            else serve_connect w target).0
  by_command command target true first e e' read = packets w.has_packets refl
    where
      three : command ≡ 3
      three = (==_iff command 3).0 e

      packets :
          (b : Bool)
          → w.has_packets ≡ b
          → Answer w.has_packets r
              (if not b
                then refuse reply_command_not_supported w.reply_fails no_udp
                else serve_udp_associate w).0
      packets false shut =
          rejected-Answer command target no_udp read (λ q. absurd (omega (arith, three)))
            (λ q. shut)
      packets true has_them = associate-Answer target (read ∙ ap (λ n. ok (n, target)) three)
  by_command command target false true e e' read =
      connect-Answer target (read ∙ ap (λ n. ok (n, target)) ((==_iff command 1).0 e'))
  by_command command target false false e e' read =
      rejected-Answer command target bad_command read (λ q. absurd (cc (e', ap (λ n. n == 1) q)))
        (λ q. absurd (cc (e, ap (λ n. n == 3) q)))

request-Answer :
    (w : World) (r : Result Error (ℕ × List ℕ)) → Answer w.has_packets r (serve_request w r).0
request-Answer w (err e) =
    unread e _ refl
      (refuse-Refused reply_general_failure w.reply_fails e (λ q. absurd (omega arith)))
request-Answer w (ok (command, target)) =
    by_command w (ok (command, target)) command target (command == 3) (command == 1) refl refl refl

module _ (w : World) (input methods rest : List ℕ)
    (read : read_methods input ≡ ok (methods, rest)) where
  willing-Conversation :
      (fails : Bool) (r : Outcome)
      → has 0 methods ≡ true
      → Answer w.has_packets (read_request rest) r.0
      → Conversation w.has_packets input (after_write (5 ∷ 0 ∷ []) fails r).0
  willing-Conversation true r has_one h = lost methods rest read has_one
  willing-Conversation false r has_one h = answered methods rest r.0 read has_one h

  unwilling-Conversation :
      (fails : Bool)
      → has 0 methods ≡ false
      → Conversation w.has_packets input (after_write (5 ∷ 255 ∷ []) fails ([], some no_method)).0
  unwilling-Conversation true shut = unwilling methods rest true read shut
  unwilling-Conversation false shut = unwilling methods rest false read shut

  chosen-Conversation :
      (b : Bool)
      → has 0 methods ≡ b
      → Conversation w.has_packets input
          (if b
            then after_write (5 ∷ 0 ∷ []) w.greeting_fails (serve_request w (read_request rest))
            else after_write (5 ∷ 255 ∷ []) w.greeting_fails ([], some no_method)).0
  chosen-Conversation true e =
      willing-Conversation w.greeting_fails (serve_request w (read_request rest)) e
        (request-Answer w (read_request rest))
  chosen-Conversation false e = unwilling-Conversation w.greeting_fails e

greet-Conversation :
    (w : World) (input : List ℕ) (r : Result Error (List ℕ × List ℕ))
    → read_methods input ≡ r
    → Conversation w.has_packets input (greet w r).0
greet-Conversation w input (err e) read = silent e read
greet-Conversation w input (ok (methods, rest)) read =
    chosen-Conversation w input methods rest read (has 0 methods) refl

-- Whatever a client sends and whatever the network answers, the proxy keeps to the protocol. It does
-- nothing where the methods cannot be read, and refuses where method 0 is not among them. Behind its
-- greeting, once that is written, it answers the request with one reply: a refusal where the request
-- cannot be read, or its command is neither CONNECT nor UDP ASSOCIATE, or it is UDP ASSOCIATE and the
-- dialer has no datagrams; else, for CONNECT, it dials the target of the request, and for UDP ASSOCIATE
-- opens a packet connection and a socket, and the reply reports success exactly where these calls have
-- succeeded. It copies or relays only behind a success reply that was written.
pub serve-Conversation :
    (w : World) (input : List ℕ) → Conversation w.has_packets input (serve_conn w input).0
unfolding serve_conn
serve-Conversation w input = greet-Conversation w input (read_methods input) refl

-- ===== src/Upstream/Http.antt =====
-- internal/upstream/dialer.go: CONNECT through an HTTP proxy (httpConnect). Texts are ASCII.
use wsl_win_relay.Base.{
  ℕ, zero, suc, ◌+◌, ◌*◌, ◌-◌, ◌/◌, ◌%◌, ◌^◌, Bool, true, false, not, ◌&&◌, ◌||◌, List, [], ◌∷◌,
  ◌++◌, Option, none, some, ltb, leb, ◌==◌, if◌then◌else◌, length, take, get_or, Result, ok, err,
  ◌>>=◌, IoError, bytes_eq,
}
use wsl_win_relay.Base.Action.{Action, ◌>>◌}
use wsl_win_relay.Base.Text.{codes}
use wsl_win_relay.Net.Decimal.{is_digit}
use wsl_win_relay.AutoForward.Proc.{fields}
use wsl_win_relay.Upstream.{
  Error, io, Conn, rejected, header_limit, bad_status, bad_code, send, took,
}
use wsl_win_relay.Upstream.Connect.{User}

-- base64.StdEncoding
abbrev pub sextet : ℕ → ℕ
sextet n =
    if ltb n 26
    then n + 65
    else if ltb n 52
    then n + 71
    else if ltb n 62
    then (n + 48) - 52
    else if n == 62
    then 43
    else 47

unfoldable pub encode_base64 : List ℕ → List ℕ
encode_base64 [] = []
encode_base64 (a ∷ []) = sextet (a / 4) ∷ sextet (a % 4 * 16) ∷ 61 ∷ 61 ∷ []
encode_base64 (a ∷ b ∷ []) =
    sextet (a / 4) ∷ sextet (a % 4 * 16 + b / 16) ∷ sextet (b % 16 * 4) ∷ 61 ∷ []
encode_base64 (a ∷ b ∷ c ∷ rest) =
    sextet (a / 4)
    ∷ sextet (a % 4 * 16 + b / 16)
    ∷ sextet (b % 16 * 4 + c / 64)
    ∷ sextet (c % 64)
    ∷ encode_base64 rest

abbrev pub line_end : List ℕ
line_end = 13 ∷ 10 ∷ []

unfoldable pub authorization : Option User → List ℕ
unfolding encode_base64
authorization none = []
authorization (some user) =
    codes "Proxy-Authorization: Basic "
    ++ encode_base64 (user.username ++ b':' ∷ user.password)
    ++ line_end

unfoldable pub connect_request : List ℕ → Option User → List ℕ
unfolding authorization
connect_request target user =
    codes "CONNECT "
    ++ target
    ++ codes " HTTP/1.1"
    ++ line_end
    ++ codes "Host: "
    ++ target
    ++ line_end
    ++ codes "Proxy-Connection: Keep-Alive"
    ++ line_end
    ++ authorization user
    ++ line_end

abbrev pub max_proxy_header : ℕ
max_proxy_header = 64 * 2 ^ 10

abbrev pub longer : ℕ → Result Error (List ℕ × ℕ × List ℕ) → Result Error (List ℕ × ℕ × List ℕ)
longer b (ok (line, used, rest)) = ok (b ∷ line, used, rest)
longer b (err e) = err e

-- readLine: the line with its end, how much has been read, and what is behind it
unfoldable pub read_line : ℕ → List ℕ → Result Error (List ℕ × ℕ × List ℕ)
read_line used [] = if leb max_proxy_header used then err header_limit else err (io IoError.eof)
read_line used (b ∷ bs) =
    let more = longer b (read_line (used + 1) bs) in
    if leb max_proxy_header used
    then err header_limit
    else if b == 10
    then ok (b ∷ [], used + 1, bs)
    else more

abbrev pub is_blank : List ℕ → Bool
is_blank line = bytes_eq line line_end || bytes_eq line (10 ∷ [])

-- The headers up to the blank line. Each line has a byte at least, so one round more than
-- there are bytes is enough; `stuck` is never the result.
unfoldable pub read_headers : Error → ℕ → ℕ → List ℕ → Result Error (List ℕ)
unfolding read_line bytes_eq
read_headers stuck zero used input = err stuck
read_headers stuck (suc fuel) used input = elim (read_line used input) [
  | err e ↦ err e
  | ok (line, used', rest) ↦
      let more = read_headers stuck fuel used' rest in if is_blank line then ok rest else more
]

-- strconv.Atoi: whether the number is negative, and its size. The least int is -2^63.
unfoldable pub parse_number : ℕ → ℕ → List ℕ → Option ℕ
parse_number limit value [] = some value
parse_number limit value (b ∷ bs) =
    if is_digit b && leb (value * 10 + (b - b'0')) limit
    then parse_number limit (value * 10 + (b - b'0')) bs
    else none

abbrev pub signed : Bool → List ℕ → Option (Bool × ℕ)
signed negative [] = none
signed negative (b ∷ bs) =
    let limit : ℕ = if negative then 2 ^ 63 else 2 ^ 63 - 1 in
    elim (parse_number limit 0 (b ∷ bs)) [ none ↦ none | some n ↦ some (negative, n) ]

abbrev pub parse_int : List ℕ → Option (Bool × ℕ)
parse_int [] = none
parse_int (b ∷ bs) =
    if b == b'-'
    then signed true bs
    else if b == b'+'
    then signed false bs
    else signed false (b ∷ bs)

abbrev pub read_code : Option (Bool × ℕ) → Result Error (Bool × ℕ)
read_code none = err bad_code
read_code (some n) = ok n

-- the code of a status line
unfoldable pub status_code : List ℕ → Result Error (Bool × ℕ)
unfolding fields bytes_eq parse_number
status_code status =
    let words = fields [] status in
    if ltb (length words) 2 || not (bytes_eq (take 5 (get_or words 0 [])) (codes "HTTP/"))
    then err bad_status
    else read_code (parse_int (get_or words 1 []))

abbrev pub is_success : Bool × ℕ → Bool
is_success (negative, n) = not negative && leb 200 n && ltb n 300

abbrev pub judge : Bool × ℕ → List ℕ → Result Error (Unit {0} × List ℕ)
judge code rest = if is_success code then ok (tt, rest) else err rejected

abbrev pub after_status : List ℕ × ℕ × List ℕ → Result Error (Unit {0} × List ℕ)
after_status (status, used, rest) = status_code status >>= λ code.
    read_headers (io IoError.panic) (suc (length rest)) used rest >>= judge code

unfoldable pub read_response : List ℕ → Result Error (Unit {0} × List ℕ)
unfolding read_line status_code read_headers
read_response input = read_line 0 input >>= after_status

abbrev pub receive_response : Action Conn Error (Unit {0})
receive_response c = took c (read_response c.input)

unfoldable pub http_connect : List ℕ → Option User → Action Conn Error (Unit {0})
unfolding send connect_request read_response
http_connect target user = do send (connect_request target user); receive_response

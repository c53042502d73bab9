-- ===== src/AutoForward/Proc.antt =====
-- internal/autoforward/proc.go: the sockets listed in /proc/net. A file is the lines that bufio.Scanner
-- yields, perhaps with an error at the end; a text is ASCII.
use wsl_win_relay.Base.{
  ℕ, suc, ◌+◌, ◌*◌, ◌^◌, Bool, not, ◌&&◌, ◌||◌, List, [], ◌∷◌, ◌++◌, Option, none, some, leb, ltb,
  ◌==◌, if◌then◌else◌, length, drop, get_or, Result, ok, err, ◌>>=◌, bytes_eq,
}
use wsl_win_relay.Base.Text.{codes}
use wsl_win_relay.Net.Ip.{hex_value, ip_string}
use wsl_win_relay.AutoForward.Listeners.{Listener, normalize_listeners}

-- An error with a line is one of that line, counted from 1.
pub data ProcError : Type 0 where
  missing_remote bad_remote bad_remote_port bad_local bad_port bad_address : ℕ → ProcError
  read_failed open_failed : ProcError

abbrev pub is_space : ℕ → Bool
is_space b = b == b' ' || (leb 9 b && leb b 13)

abbrev pub push_word : List ℕ → List (List ℕ) → List (List ℕ)
push_word [] words = words
push_word (b ∷ bs) words = (b ∷ bs) ∷ words

-- strings.Fields; `word` is what was read of a word
unfoldable pub fields : List ℕ → List ℕ → List (List ℕ)
fields word [] = push_word word []
fields word (b ∷ bs) =
    let next = fields [] bs in
    let longer = fields (word ++ b ∷ []) bs in if is_space b then push_word word next else longer

-- strings.SplitN(text, ":", 2), where it has two parts
unfoldable pub split_colon : List ℕ → Option (List ℕ × List ℕ)
split_colon [] = none
split_colon (b ∷ bs) =
    let rest = split_colon bs in
    if b == b':'
    then some ([], bs)
    else elim rest [ none ↦ none | some (front, back) ↦ some (b ∷ front, back) ]

-- strconv.ParseUint(text, 16, 16)
unfoldable pub parse_hex : ℕ → List ℕ → Option ℕ
parse_hex value [] = some value
parse_hex value (b ∷ bs) = elim (hex_value b) [
  | none ↦ none
  | some d ↦ if ltb (value * 16 + d) (2 ^ 16) then parse_hex (value * 16 + d) bs else none
]

abbrev pub parse_port : List ℕ → Option ℕ
parse_port [] = none
parse_port (b ∷ bs) = parse_hex 0 (b ∷ bs)

-- hex.DecodeString
unfoldable pub decode_string : List ℕ → Option (List ℕ)
decode_string [] = some []
decode_string (a ∷ []) = none
decode_string (a ∷ b ∷ rest) = elim (hex_value a) [
  | none ↦ none
  | some high ↦ elim (hex_value b) [
    | none ↦ none
    | some low ↦ elim (decode_string rest) [
      | none ↦ none
      | some bytes ↦ some ((high * 16 + low) ∷ bytes)
    ]
  ]
]

-- the loops that turn words of four bytes around
unfoldable pub reverse_words : List ℕ → List ℕ
reverse_words (a ∷ b ∷ c ∷ d ∷ rest) = d ∷ c ∷ b ∷ a ∷ reverse_words rest
reverse_words rest = rest

abbrev pub is_ip4 : List ℕ → Bool
is_ip4 network = bytes_eq network (codes "tcp4") || bytes_eq network (codes "udp4")

abbrev pub is_udp : List ℕ → Bool
is_udp network = bytes_eq network (codes "udp4") || bytes_eq network (codes "udp6")

abbrev pub address_size : List ℕ → ℕ
address_size network = if is_ip4 network then 4 else 16

unfoldable pub decode_proc_address : List ℕ → List ℕ → Option (List ℕ)
unfolding decode_string reverse_words ip_string bytes_eq
decode_proc_address encoded network = elim (decode_string encoded) [
  | none ↦ none
  | some bytes ↦
      if length bytes == address_size network then some (ip_string (reverse_words bytes)) else none
]

-- The remote port of a UDP socket: one that is connected is left out.
abbrev pub remote_port : ℕ → List (List ℕ) → Result ProcError ℕ
remote_port line words =
    if ltb (length words) 5
    then err (missing_remote line)
    else elim (split_colon (get_or words 2 [])) [
      | none ↦ err (bad_remote line)
      | some (host, port) ↦ elim (parse_port port) [
        | none ↦ err (bad_remote_port line)
        | some p ↦ ok p
      ]
    ]

abbrev pub local_address : ℕ → List ℕ → List (List ℕ) → Result ProcError Listener
local_address line network words = elim (split_colon (get_or words 1 [])) [
  | none ↦ err (bad_local line)
  | some (host, port) ↦ elim (parse_port port) [
    | none ↦ err (bad_port line)
    | some p ↦ if p == 0 then err (bad_port line) else elim (decode_proc_address host network) [
      | none ↦ err (bad_address line)
      | some address ↦ ok (record { network = network; host = address; port = p })
    ]
  ]
]

abbrev pub as_some : Listener → Result ProcError (Option Listener)
as_some l = ok (some l)

abbrev pub unless_connected : ℕ → List ℕ → List (List ℕ) → ℕ → Result ProcError (Option Listener)
unless_connected line network words p =
    if p == 0 then local_address line network words >>= as_some else ok none

-- The listener of a line, if it is one.
unfoldable pub parse_line : ℕ → List ℕ → List ℕ → List ℕ → Result ProcError (Option Listener)
unfolding fields bytes_eq split_colon parse_hex decode_proc_address
parse_line line network state text =
    let words = fields [] text in
    if ltb (length words) 4 || not (bytes_eq (get_or words 3 []) state)
    then ok none
    else if is_udp network
    then remote_port line words >>= unless_connected line network words
    else local_address line network words >>= as_some

abbrev pub cons_found : Option Listener → List Listener → List Listener
cons_found none ls = ls
cons_found (some l) ls = l ∷ ls

-- The lines from number `line` on; `failed` is the scanner's error.
unfoldable pub parse_lines :
    ℕ → List ℕ → List ℕ → Bool → List (List ℕ) → Result ProcError (List Listener)
unfolding parse_line
parse_lines line network state failed [] = if failed then err read_failed else ok []
parse_lines line network state failed (text ∷ more) =
    parse_line line network state text >>= λ found.
    parse_lines (suc line) network state failed more >>= λ ls. ok (cons_found found ls)

-- The first line is a heading.
unfoldable pub parse_proc_net_state :
    List ℕ → List ℕ → Bool → List (List ℕ) → Result ProcError (List Listener)
unfolding parse_lines
parse_proc_net_state network state failed lines = parse_lines 2 network state failed (drop 1 lines)

-- What os.Open makes of a file: it is missing, it cannot be opened, or it has lines.
pub data File : Type 0 where
  missing unreadable : File
  lines_of : Bool → List (List ℕ) → File

abbrev pub is_ip6 : List ℕ → Bool
is_ip6 network = bytes_eq network (codes "tcp6") || bytes_eq network (codes "udp6")

abbrev pub read_file : List ℕ → List ℕ → File → Result ProcError (List Listener)
read_file network state missing = if is_ip6 network then ok [] else err open_failed
read_file network state unreadable = err open_failed
read_file network state (lines_of failed lines) = parse_proc_net_state network state failed lines

unfoldable pub read_files : List ℕ → List (List ℕ × File) → Result ProcError (List Listener)
unfolding bytes_eq parse_proc_net_state
read_files state [] = ok []
read_files state ((network, file) ∷ more) =
    read_file network state file >>= λ got. read_files state more >>= λ ls. ok (got ++ ls)

-- Scan and ScanDatagrams: the IPv4 and the IPv6 file
unfoldable pub scan :
    (List Listener → List Listener) → File → File → Result ProcError (List Listener)
unfolding read_files normalize_listeners
scan iterate tcp tcp6 =
    read_files (codes "0A") ((codes "tcp4", tcp) ∷ (codes "tcp6", tcp6) ∷ []) >>= λ ls.
    ok (normalize_listeners iterate ls)

unfoldable pub scan_datagrams :
    (List Listener → List Listener) → File → File → Result ProcError (List Listener)
unfolding read_files normalize_listeners
scan_datagrams iterate udp udp6 =
    read_files (codes "07") ((codes "udp4", udp) ∷ (codes "udp6", udp6) ∷ []) >>= λ ls.
    ok (normalize_listeners iterate ls)

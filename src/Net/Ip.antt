-- ===== src/Net/Ip.antt =====
-- Package net: IP addresses as texts (IP.String) and back (ParseIP). An address is its 4 or 16 bytes.
pub mod Quad
use wsl_win_relay.Base.{
  ℕ, zero, suc, ◌+◌, ◌-◌, ◌*◌, ◌/◌, ◌%◌, ◌^◌, Bool, true, false, not, ◌&&◌, ◌||◌, List, [], ◌∷◌,
  ◌++◌, Option, none, some, leb, ltb, ◌==◌, if◌then◌else◌, length, take, drop, bytes_eq, uint16,
}
use wsl_win_relay.Net.Decimal.{itoa, is_digit}
use wsl_win_relay.Net.HostPort.{has}

-- Four bytes, written with dots.
unfoldable pub dotted : List ℕ → List ℕ
unfolding itoa
dotted [] = []
dotted (b ∷ []) = itoa b
dotted (b ∷ c ∷ rest) = itoa b ++ b'.' ∷ dotted (c ∷ rest)

abbrev pub hex_digit : ℕ → ℕ
hex_digit d = if ltb d 10 then b'0' + d else b'a' + (d - 10)

-- a word without its leading zeros
abbrev pub hex : ℕ → List ℕ
hex w =
    let d0 = hex_digit (w % 16) ∷ [] in
    let d1 = hex_digit (w / 16 % 16) ∷ d0 in
    let d2 = hex_digit (w / 16 ^ 2 % 16) ∷ d1 in
    let d3 = hex_digit (w / 16 ^ 3 % 16) ∷ d2 in
    if ltb w 16 then d0 else if ltb w (16 ^ 2) then d1 else if ltb w (16 ^ 3) then d2 else d3

unfoldable pub words : List ℕ → List ℕ
words (a ∷ b ∷ rest) = (a * 2 ^ 8 + b) ∷ words rest
words _ = []

-- how many words are zero from the start
unfoldable pub zeros : List ℕ → ℕ
zeros [] = 0
zeros (zero ∷ ws) = suc (zeros ws)
zeros (suc w ∷ ws) = 0

-- the longest run of zeros, and where it starts; the first of several
unfoldable pub longest : ℕ → List ℕ → ℕ × ℕ
unfolding zeros
longest start [] = (start, 0)
longest start (w ∷ ws) =
    let (at, size) = longest (suc start) ws in
    let here = zeros (w ∷ ws) in if leb size here then (start, here) else (at, size)

unfoldable pub colons : List ℕ → List ℕ
colons [] = []
colons (w ∷ []) = hex w
colons (w ∷ v ∷ ws) = hex w ++ b':' ∷ colons (v ∷ ws)

-- The longest run of two zeros or more is left out.
unfoldable pub ip6_text : List ℕ → List ℕ
unfolding longest colons
ip6_text ws =
    let (at, size) = longest 0 ws in
    if ltb size 2
    then colons ws
    else colons (take at ws) ++ b':' ∷ b':' ∷ colons (drop (at + size) ws)

abbrev pub mapped_prefix : List ℕ
mapped_prefix = 0 ∷ 0 ∷ 0 ∷ 0 ∷ 0 ∷ 0 ∷ 0 ∷ 0 ∷ 0 ∷ 0 ∷ 255 ∷ 255 ∷ []

-- IP.To4: an address of 16 bytes may stand for one of 4.
unfoldable pub to4 : List ℕ → Option (List ℕ)
unfolding bytes_eq
to4 ip =
    if length ip == 4
    then some ip
    else if length ip == 16 && bytes_eq (take 12 ip) mapped_prefix
    then some (drop 12 ip)
    else none

-- IP.String for an address of 4 or 16 bytes
unfoldable pub ip_string : List ℕ → List ℕ
unfolding to4 dotted ip6_text words
ip_string ip = elim (to4 ip) [ some quad ↦ dotted quad | none ↦ ip6_text (words ip) ]

-- The fields of an address with dots: `more` are still to come behind the one that has begun, with
-- `count` digits of the value `value`. No field has a zero in front or is above 255.
unfoldable pub parse_quad : ℕ → ℕ → ℕ → List ℕ → Option (List ℕ)
parse_quad more value count [] = if more == 0 && not (count == 0) then some (value ∷ []) else none
parse_quad more value count (b ∷ bs) =
    let value' = value * 10 + (b - b'0') in
    let longer = parse_quad more value' (suc count) bs in
    let next = parse_quad (more - 1) 0 0 bs in
    if is_digit b
    then if (count == 1 && value == 0) || ltb 255 value' then none else longer
    else if b == b'.' && not (count == 0) && not (more == 0)
    then elim next [ none ↦ none | some fields ↦ some (value ∷ fields) ]
    else none

unfoldable pub parse_ip4 : List ℕ → Option (List ℕ)
unfolding parse_quad
parse_ip4 text = parse_quad 3 0 0 text

abbrev pub hex_value : ℕ → Option ℕ
hex_value b =
    if is_digit b
    then some (b - b'0')
    else if leb b'a' b && leb b b'f'
    then some (b - b'a' + 10)
    else if leb b'A' b && leb b b'F'
    then some (b - b'A' + 10)
    else none

-- The hexadecimal digits in front: how many, their value, and what follows; `count` and `value` are
-- those of the digits before.
unfoldable pub hex_prefix : ℕ → ℕ → List ℕ → ℕ × ℕ × List ℕ
hex_prefix count value [] = (count, value, [])
hex_prefix count value (b ∷ bs) = elim (hex_value b) [
  | none ↦ (count, value, b ∷ bs)
  | some v ↦ hex_prefix (suc count) (value * 16 + v) bs
]

abbrev pub zero_bytes : ℕ → List ℕ
zero_bytes zero = []
zero_bytes (suc n) = 0 ∷ zero_bytes n

-- What stands for a `::` at the place `at`, or an address that is complete.
abbrev pub fill : Option ℕ → List ℕ → Option (List ℕ)
fill none bytes = if length bytes == 16 then some bytes else none
fill (some at) bytes =
    if leb 16 (length bytes)
    then none
    else some (take at bytes ++ zero_bytes (16 - length bytes) ++ drop at bytes)

-- Behind the colon of a group: another colon stands for the groups left out, once, and may end the
-- address. `bytes` are those of the groups so far.
abbrev pub after_gap : List ℕ → (Option ℕ → List ℕ → Option (List ℕ)) → List ℕ → Option (List ℕ)
after_gap bytes more [] = fill (some (length bytes)) bytes
after_gap bytes more (b ∷ bs) = more (some (length bytes)) (b ∷ bs)

abbrev pub after_colon :
    Option ℕ → List ℕ → (Option ℕ → List ℕ → Option (List ℕ)) → List ℕ → Option (List ℕ)
after_colon ellipsis bytes more [] = none
after_colon none bytes more (b ∷ bs) =
    if b == b':' then after_gap bytes more bs else more none (b ∷ bs)
after_colon (some at) bytes more (b ∷ bs) = if b == b':' then none else more (some at) (b ∷ bs)

-- An address with dots for the last four bytes.
abbrev pub with_quad : Option ℕ → List ℕ → Option (List ℕ) → Option (List ℕ)
with_quad ellipsis bytes none = none
with_quad none bytes (some quad) = if length bytes == 12 then some (bytes ++ quad) else none
with_quad (some at) bytes (some quad) =
    if ltb 12 (length bytes) then none else fill (some at) (bytes ++ quad)

-- The groups of an address with colons, from the place where one begins; `bytes` are those of the
-- groups before. There are eight at most. A `::` at the end ends the address.
unfoldable pub parse_groups : ℕ → Option ℕ → List ℕ → List ℕ → Option (List ℕ)
unfolding hex_prefix parse_ip4
parse_groups zero ellipsis bytes text = if length text == 0 then fill ellipsis bytes else none
parse_groups (suc fuel) ellipsis bytes text =
    let (count, value, rest) = hex_prefix 0 0 text in
    let bytes' = bytes ++ (value / 2 ^ 8 ∷ value % 2 ^ 8 ∷ []) in
    if count == 0 || ltb 4 count then none else elim rest [
      | [] ↦ fill ellipsis bytes'
      | b ∷ bs ↦
          if b == b'.'
          then with_quad ellipsis bytes (parse_ip4 text)
          else if b == b':'
          then after_colon ellipsis bytes'
              (λ (e : Option ℕ) (t : List ℕ). parse_groups fuel e bytes' t) bs
          else none
    ]

abbrev pub parse_ip6 : List ℕ → Option (List ℕ)
parse_ip6 text =
    if has b'%' text
    then none
    else if bytes_eq (take 2 text) (b':' ∷ b':' ∷ [])
    then if length text == 2 then some (zero_bytes 16) else parse_groups 8 (some 0) [] (drop 2 text)
    else parse_groups 8 none [] text

-- ParseIP: the first dot or colon says which kind of address it is. An address of 4 bytes is one of 16.
abbrev pub parse_by_mark : List ℕ → List ℕ → Option (List ℕ)
parse_by_mark text [] = none
parse_by_mark text (b ∷ bs) =
    if b == b'.'
    then elim (parse_ip4 text) [ none ↦ none | some quad ↦ some (mapped_prefix ++ quad) ]
    else if b == b':'
    then parse_ip6 text
    else if b == b'%'
    then none
    else parse_by_mark text bs

unfoldable pub parse_ip : List ℕ → Option (List ℕ)
unfolding parse_ip4 parse_groups has bytes_eq
parse_ip text = parse_by_mark text text

-- ===== src/Net/Decimal.antt =====
-- Package strconv: Itoa and ParseUint(text, 10, 16).
use wsl_win_relay.Base.{
  ℕ, zero, suc, ◌+◌, ◌-◌, ◌*◌, ◌/◌, ◌%◌, ◌^◌, ◌≤◌, ◌<◌, ◌≡◌, refl, ◌∙◌, inl, inr, Bool, true, ◌&&◌,
  List, [], ◌∷◌, Option, none, some, ap, leb, ltb, ltb→lt, if◌then◌else◌, arith, All, Bool-cases,
}

abbrev pub digit : ℕ → ℕ
digit d = b'0' + d

-- `fuel` digits at most, in front of `rest`
unfoldable pub digits : ℕ → ℕ → List ℕ → List ℕ
digits zero n rest = rest
digits (suc fuel) n rest =
    let more = digits fuel (n / 10) (digit (n % 10) ∷ rest) in
    if ltb n 10 then digit n ∷ rest else more

-- A uint16 has five digits at most.
unfoldable pub itoa : ℕ → List ℕ
unfolding digits
itoa n = digits 5 n []

abbrev pub is_digit : ℕ → Bool
is_digit b = leb b'0' b && leb b b'9'

-- The digits behind those that made up `value`; a value out of range is an error.
unfoldable pub parse_digits : ℕ → List ℕ → Option ℕ
parse_digits value [] = some value
parse_digits value (b ∷ bs) =
    let value' = value * 10 + (b - b'0') in
    let rest = parse_digits value' bs in if is_digit b && ltb value' (2 ^ 16) then rest else none

unfoldable pub parse_uint16 : List ℕ → Option ℕ
unfolding parse_digits
parse_uint16 [] = none
parse_uint16 (b ∷ bs) = parse_digits 0 (b ∷ bs)

-- `n` has at most `suc fuel` digits.
abbrev Short : ℕ → ℕ → Type 0
Short zero n = n < 10
Short (suc fuel) n = Short fuel (n / 10)

parse_digit :
    (value d : ℕ) (rest : List ℕ)
    → d < 10
    → value * 10 + d < 2 ^ 16
    → parse_digits value (digit d ∷ rest) ≡ parse_digits (value * 10 + d) rest
unfolding parse_digits
parse_digit value d rest one small =
    let same : value * 10 + (b'0' + d - b'0') ≡ value * 10 + d = omega arith in
    rw same (ground arith)

first_digit :
    (d : ℕ) (rest : List ℕ) → d < 10 → parse_digits 0 (digit d ∷ rest) ≡ parse_digits d rest
first_digit d rest one =
    let same : 0 * 10 + d ≡ d = omega arith in
    parse_digit 0 d rest one (omega arith) ∙ ap (λ m. parse_digits m rest) same

parse-digits :
    (fuel n : ℕ) (rest : List ℕ)
    → n < 2 ^ 16
    → Short fuel n
    → parse_digits 0 (digits (suc fuel) n rest) ≡ parse_digits n rest
unfolding digits
parse-digits zero n rest small few =
    let one : ltb n 10 ≡ true = ground arith in rw (one, digits) (first_digit n rest few)
parse-digits (suc fuel) n rest small few = elim (Bool-cases (ltb n 10)) [
  | inl one ↦ rw (one, digits) (first_digit n rest (ltb→lt n 10 one))
  | inr more ↦
      let whole : n / 10 * 10 + n % 10 ≡ n = omega arith in
      rw (more, digits)
        (parse-digits fuel (n / 10) (digit (n % 10) ∷ rest) (omega arith) few
          ∙ parse_digit (n / 10) (n % 10) rest (omega arith) (omega arith)
          ∙ ap (λ m. parse_digits m rest) whole)
]

parse_uint16-digits :
    (fuel n : ℕ) (rest : List ℕ)
    → parse_uint16 (digits (suc fuel) n rest) ≡ parse_digits 0 (digits (suc fuel) n rest)
unfolding parse_uint16 digits
parse_uint16-digits zero n rest = elim (Bool-cases (ltb n 10)) [
  | inl one ↦ rw one refl
  | inr more ↦ rw more refl
]
parse_uint16-digits (suc fuel) n rest = elim (Bool-cases (ltb n 10)) [
  | inl one ↦ rw (one, digits) refl
  | inr more ↦ rw (more, digits) (parse_uint16-digits fuel (n / 10) (digit (n % 10) ∷ rest))
]

-- A port that is printed is parsed to itself.
pub parse-itoa : (n : ℕ) → n < 2 ^ 16 → parse_uint16 (itoa n) ≡ some n
unfolding itoa parse_digits
parse-itoa n small = parse_uint16-digits 4 n [] ∙ parse-digits 4 n [] small (omega arith)

abbrev pub IsDigit : ℕ → Type 0
IsDigit b = (b'0' ≤ b) × (b ≤ b'9')

digits-IsDigit : (fuel n : ℕ) (rest : List ℕ) → All IsDigit rest → All IsDigit (digits fuel n rest)
unfolding digits
digits-IsDigit zero n rest h = h
digits-IsDigit (suc fuel) n rest h = elim (Bool-cases (ltb n 10)) [
  | inl one ↦ let lt = ltb→lt n 10 one in rw (one, digits) ((omega arith, omega (arith, lt)), h)
  | inr more ↦
      rw (more, digits)
        (digits-IsDigit fuel (n / 10) (digit (n % 10) ∷ rest) ((omega arith, omega arith), h))
]

pub itoa-IsDigit : (n : ℕ) → All IsDigit (itoa n)
unfolding itoa
itoa-IsDigit n = digits-IsDigit 5 n [] tt

-- ===== src/Net/Ip/Quad.antt =====
-- An address of four bytes is printed and parsed back.
use wsl_win_relay.Base.{
  ℕ, suc, ◌+◌, ◌-◌, ◌*◌, ◌/◌, ◌%◌, ◌<◌, ◌≡◌, refl, ap, ◌∙◌, inl, inr, true, false, List, [], ◌∷◌,
  ◌++◌, none, some, ◌==◌, ltb, ltb→lt, ltb-false→le, arith, All, IsByte, Bool-cases, append-nil,
  sym, ◌&&◌,
}
use wsl_win_relay.Net.Decimal.{digit, digits, itoa, IsDigit, itoa-IsDigit}
use wsl_win_relay.Net.Ip.{dotted, parse_quad, parse_ip4, parse_by_mark, parse_ip, mapped_prefix}

quad_digit :
    (more value count d : ℕ) (rest : List ℕ)
    → d < 10
    → value * 10 + d < 256
    → (count == 1 && value == 0) ≡ false
    → parse_quad more value count (digit d ∷ rest)
      ≡ parse_quad more (value * 10 + d) (suc count) rest
unfolding parse_quad
quad_digit more value count d rest one small lead =
    let same : value * 10 + (b'0' + d - b'0') ≡ value * 10 + d = omega arith in
    rw (same, lead) (ground arith)

-- A value that is written in another way.
module _ (more count : ℕ) (rest : List ℕ) where
  read_as : (v w : ℕ) → v ≡ w → parse_quad more v count rest ≡ parse_quad more w count rest
  read_as v w e = ap (λ x. parse_quad more x count rest) e

Digits : ℕ → ℕ → List ℕ → ℕ → Type 0
Digits more b rest k = parse_quad more 0 0 (itoa b ++ rest) ≡ parse_quad more b (suc k) rest

-- The digits of a byte are read up to the end of the field.
octet : (b more : ℕ) (rest : List ℕ) → IsByte b → (k : ℕ) × Digits more b rest k
unfolding itoa digits Digits
octet b more rest byte = elim (Bool-cases (ltb b 10)) [
  | inl one ↦ (
    0,
    rw (one, itoa, digits)
        (quad_digit more 0 0 b rest (ltb→lt b 10 one) (omega arith) refl
          ∙ read_as more 1 rest (0 * 10 + b) b (omega arith)),
  )
  | inr many ↦
      let ten = ltb-false→le b 10 many in
      elim (Bool-cases (ltb (b / 10) 10)) [
        | inl two ↦
            let small = ltb→lt (b / 10) 10 two in
            (
              1,
              rw (many, two, itoa, digits)
                  (quad_digit more 0 0 (b / 10) (digit (b % 10) ∷ rest) small (omega arith) refl
                    ∙ quad_digit more (0 * 10 + b / 10) 1 (b % 10) rest (omega arith) (omega arith)
                        (ground (arith, ten))
                    ∙ read_as more 2 rest ((0 * 10 + b / 10) * 10 + b % 10) b (omega arith)),
            )
        | inr three ↦
            let hundred = ltb-false→le (b / 10) 10 three in
            let last : ltb (b / 10 / 10) 10 ≡ true = ground arith in
            (
              2,
              rw (many, three, last, itoa, digits)
                  (quad_digit more 0 0 (b / 10 / 10) (digit (b / 10 % 10) ∷ digit (b % 10) ∷ rest)
                      (omega arith) (omega arith) refl
                    ∙ quad_digit more (0 * 10 + b / 10 / 10) 1 (b / 10 % 10) (digit (b % 10) ∷ rest)
                        (omega arith) (omega arith) (ground (arith, hundred))
                    ∙ quad_digit more ((0 * 10 + b / 10 / 10) * 10 + b / 10 % 10) 2 (b % 10) rest
                        (omega arith) (omega arith) refl
                    ∙ read_as more 3 rest
                        (((0 * 10 + b / 10 / 10) * 10 + b / 10 % 10) * 10 + b % 10) b
                        (omega arith)),
            )
      ]
]

field :
    (b more : ℕ) (rest fields : List ℕ)
    → IsByte b
    → parse_quad more 0 0 rest ≡ some fields
    → parse_quad (suc more) 0 0 (itoa b ++ b'.' ∷ rest) ≡ some (b ∷ fields)
unfolding parse_quad Digits
field b more rest fields byte e =
    let (k, read) = octet b (suc more) (b'.' ∷ rest) byte in read ∙ ground (arith, e)

last_field : (b : ℕ) → IsByte b → parse_quad 0 0 0 (itoa b) ≡ some (b ∷ [])
unfolding parse_quad Digits
last_field b byte =
    let (k, read) = octet b 0 [] byte in
    ap (parse_quad 0 0 0) (sym (append-nil (itoa b))) ∙ read ∙ ground arith

module _ (a b c d : ℕ) (bytes : All IsByte (a ∷ b ∷ c ∷ d ∷ [])) where
  parse_ip4-dotted : parse_ip4 (dotted (a ∷ b ∷ c ∷ d ∷ [])) ≡ some (a ∷ b ∷ c ∷ d ∷ [])
  unfolding parse_ip4 dotted
  parse_ip4-dotted =
      field a 2 _ _ bytes.0
        (field b 1 _ _ bytes.1.0 (field c 0 _ _ bytes.1.1.0 (last_field d bytes.1.1.1.0)))

  -- The first mark of the text is a dot.
  by_mark :
      (text digits rest : List ℕ)
      → All IsDigit digits
      → parse_by_mark text (digits ++ b'.' ∷ rest)
        ≡ elim (parse_ip4 text) [ none ↦ none | some quad ↦ some (mapped_prefix ++ quad) ]
  by_mark text [] rest h = refl
  by_mark text (x ∷ xs) rest h = ground (arith, by_mark text xs rest h.1, h.0)

  -- An address of four bytes is printed and parsed to the same four bytes, within sixteen.
  pub parse-dotted :
      parse_ip (dotted (a ∷ b ∷ c ∷ d ∷ [])) ≡ some (mapped_prefix ++ (a ∷ b ∷ c ∷ d ∷ []))
  unfolding parse_ip dotted
  parse-dotted =
      by_mark (dotted (a ∷ b ∷ c ∷ d ∷ [])) (itoa a) _ (itoa-IsDigit a) ∙ rw parse_ip4-dotted refl

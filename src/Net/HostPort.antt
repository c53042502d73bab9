-- ===== src/Net/HostPort.antt =====
-- Package net: JoinHostPort and SplitHostPort.
use wsl_win_relay.Base.{
  ℕ, suc, ◌-◌, ◌<◌, ◌≡◌, refl, ap, sym, ◌∙◌, inl, inr, Bool, false, not, ◌&&◌, ◌||◌, List, [], ◌∷◌,
  ◌++◌, Option, none, some, ◌==◌, if◌then◌else◌, arith, All, length, take, drop, ◌⊎◌, Bool-cases,
  take-append_length, append_assoc, length-append,
}
use wsl_win_relay.Net.Decimal.{IsDigit}

unfoldable pub has : ℕ → List ℕ → Bool
has b [] = false
has b (x ∷ xs) = let rest = has b xs in x == b || rest

-- the first place of a byte
unfoldable pub index : ℕ → List ℕ → Option ℕ
index b [] = none
index b (x ∷ xs) =
    let rest = index b xs in
    if x == b then some 0 else elim rest [ none ↦ none | some i ↦ some (suc i) ]

-- the text in front of the last place of a byte, and the text behind it
unfoldable pub cut_last : ℕ → List ℕ → Option (List ℕ × List ℕ)
cut_last b [] = none
cut_last b (x ∷ xs) = elim (cut_last b xs) [
  | some (front, back) ↦ some (x ∷ front, back)
  | none ↦ if x == b then some ([], xs) else none
]

unfoldable pub join_host_port : List ℕ → List ℕ → List ℕ
unfolding has
join_host_port host port =
    if has b':' host then b'[' ∷ host ++ (b']' ∷ b':' ∷ port) else host ++ b':' ∷ port

-- A host in brackets: the last colon is the one behind the bracket that closes it, and neither the
-- host, from behind its first byte, nor the port has a bracket.
abbrev pub bracketed : List ℕ → List ℕ → List ℕ → Option (List ℕ × List ℕ)
bracketed text front port = elim (index b']' text) [
  | none ↦ none
  | some end ↦
      let host = take (end - 1) (drop 1 text) in
      if suc end == length front
        && not (has b'[' (drop 1 text))
        && not (has b']' (drop (suc end) text))
      then some (host, port)
      else none
]

abbrev pub plain : List ℕ → List ℕ → List ℕ → Option (List ℕ × List ℕ)
plain text front port =
    if not (has b':' front) && not (has b'[' text) && not (has b']' text)
    then some (front, port)
    else none

abbrev pub split_at : List ℕ → Option (List ℕ × List ℕ) → Option (List ℕ × List ℕ)
split_at text none = none
split_at [] (some (front, port)) = none
split_at (b ∷ bs) (some (front, port)) =
    if b == b'[' then bracketed (b ∷ bs) front port else plain (b ∷ bs) front port

unfoldable pub split_host_port : List ℕ → Option (List ℕ × List ℕ)
unfolding index has cut_last
split_host_port text = split_at text (cut_last b':' text)

cut_last-none : (b : ℕ) (xs : List ℕ) → has b xs ≡ false → cut_last b xs ≡ none
unfolding has cut_last
cut_last-none b [] h = refl
cut_last-none b (x ∷ xs) h = ground (arith, h, cut_last-none b xs)

cut_last-append :
    (b : ℕ) (front port : List ℕ)
    → has b port ≡ false
    → cut_last b (front ++ b ∷ port) ≡ some (front, port)
unfolding cut_last
cut_last-append b [] port h = ground (arith, cut_last-none b port h)
cut_last-append b (x ∷ xs) port h = ground (arith, cut_last-append b xs port h)

index-append :
    (b : ℕ) (front back : List ℕ)
    → has b front ≡ false
    → index b (front ++ b ∷ back) ≡ some (length front)
unfolding index has
index-append b [] back h = ground arith
index-append b (x ∷ xs) back h = ground (arith, h, index-append b xs back)

has-append : (b : ℕ) (xs ys : List ℕ) → has b (xs ++ ys) ≡ (has b xs || has b ys)
unfolding has
has-append b [] ys = refl
has-append b (x ∷ xs) ys = ground (arith, has-append b xs ys)

-- A text without the marks of an address.
abbrev pub IsFree : ℕ → List ℕ → Type 0
IsFree b xs = has b xs ≡ false

pub digits-IsFree : (b : ℕ) (xs : List ℕ) → (b < b'0') ⊎ (b'9' < b) → All IsDigit xs → IsFree b xs
unfolding has
digits-IsFree b [] out h = refl
digits-IsFree b (x ∷ xs) out h = ground (arith, out, h, digits-IsFree b xs out h.1)

plain-split_at :
    (b : ℕ) (bs front port : List ℕ)
    → IsFree b'[' (b ∷ bs)
    → IsFree b']' (b ∷ bs)
    → IsFree b':' front
    → split_at (b ∷ bs) (some (front, port)) ≡ some (front, port)
unfolding has
plain-split_at b bs front port left right colon = ground (arith, left, right, colon)

pub IsFree-append : (b : ℕ) (xs ys : List ℕ) → IsFree b xs → IsFree b ys → IsFree b (xs ++ ys)
IsFree-append b xs ys h k = has-append b xs ys ∙ ground (arith, h, k)

bracketed-split_at :
    (bs front port : List ℕ) (end : ℕ)
    → index b']' bs ≡ some end
    → suc (suc end) ≡ length front
    → IsFree b'[' bs
    → IsFree b']' (drop (suc end) bs)
    → split_at (b'[' ∷ bs) (some (front, port)) ≡ some (take end bs, port)
unfolding index
bracketed-split_at bs front port end at size left right = ground (arith, at, size, left, right)

drop-past : (xs : List ℕ) (y : ℕ) (ys : List ℕ) → drop (suc (length xs)) (xs ++ y ∷ ys) ≡ ys
drop-past [] y ys = refl
drop-past (x ∷ xs) y ys = drop-past xs y ys

module _ (host port : List ℕ) (no_left : IsFree b'[' host) (no_right : IsFree b']' host)
    (no_colon : IsFree b':' port) (port_left : IsFree b'[' port)
    (port_right : IsFree b']' port) where
  split-join_plain : IsFree b':' host → split_host_port (host ++ b':' ∷ port) ≡ some (host, port)
  unfolding split_host_port has
  split-join_plain colon =
      ap (split_at (host ++ b':' ∷ port)) (cut_last-append b':' host port no_colon)
      ∙ at host colon (IsFree-append b'[' host (b':' ∷ port) no_left port_left)
          (IsFree-append b']' host (b':' ∷ port) no_right port_right)
    where
      at :
          (host : List ℕ)
          → IsFree b':' host
          → IsFree b'[' (host ++ b':' ∷ port)
          → IsFree b']' (host ++ b':' ∷ port)
          → split_at (host ++ b':' ∷ port) (some (host, port)) ≡ some (host, port)
      at [] colon left right = plain-split_at b':' port [] port left right colon
      at (b ∷ bs) colon left right =
          plain-split_at b (bs ++ b':' ∷ port) (b ∷ bs) port left right colon

  split-join_bracketed : split_host_port (b'[' ∷ host ++ (b']' ∷ b':' ∷ port)) ≡ some (host, port)
  unfolding split_host_port has
  split-join_bracketed =
      let bs : List ℕ = host ++ (b']' ∷ b':' ∷ port) in
      let front : List ℕ = b'[' ∷ host ++ (b']' ∷ []) in
      let text : b'[' ∷ bs ≡ front ++ b':' ∷ port =
        ap (λ t. b'[' ∷ t) (sym (append_assoc host (b']' ∷ []) (b':' ∷ port))) in
      ap (λ t. split_at (b'[' ∷ bs) (cut_last b':' t)) text
      ∙ ap (split_at (b'[' ∷ bs)) (cut_last-append b':' front port no_colon)
      ∙ bracketed-split_at bs front port (length host)
          (index-append b']' host (b':' ∷ port) no_right)
          (omega (arith, length-append host (b']' ∷ [])))
          (IsFree-append b'[' host (b']' ∷ b':' ∷ port) no_left port_left)
          (ap (has b']') (drop-past host b']' (b':' ∷ port)) ∙ port_right)
      ∙ ap (λ t. some (t, port)) (take-append_length host (b']' ∷ b':' ∷ port))

  -- What is joined is split again.
  pub split-join : split_host_port (join_host_port host port) ≡ some (host, port)
  unfolding join_host_port
  split-join = elim (Bool-cases (has b':' host)) [
    | inl e ↦ rw (e, join_host_port) split-join_bracketed
    | inr e ↦ rw (e, join_host_port) (split-join_plain e)
  ]

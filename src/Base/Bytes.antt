-- ===== src/Base/Bytes.antt =====
-- Package encoding/binary: big-endian words in byte slices, and the comparison of two slices. A
-- byte slice is a list of numbers. Reading a word from a slice that is too short panics in Go; every
-- call in the program stands behind a test of the length, and the value here is 0.
use Prim.Native.Nat.{ℕ, ◌+◌, ◌*◌, ◌/◌, ◌%◌, ◌^◌, ◌<◌}
use mathlib.Core.Path.{◌≡◌, refl, subst}
use mathlib.Core.Logic.{◌↔◌}
use mathlib.Core.Bool.{Bool, true, false, ◌&&◌}
use mathlib.Core.List.{List, [], ◌∷◌, ◌++◌}
use wsl_win_relay.Base.Lists.{All}
use wsl_win_relay.Base.Tests.{◌==◌}
use native.Mathlib.Omega.{arith}

abbrev pub IsByte : ℕ → Type 0
IsByte b = b < 256

abbrev pub IsU16 : ℕ → Type 0
IsU16 v = v < 2 ^ 16

abbrev pub IsU32 : ℕ → Type 0
IsU32 v = v < 2 ^ 32

abbrev pub IsU64 : ℕ → Type 0
IsU64 v = v < 2 ^ 64

unfoldable pub put_uint16 : ℕ → List ℕ
put_uint16 v = v / 2 ^ 8 % 256 ∷ v % 256 ∷ []

unfoldable pub put_uint32 : ℕ → List ℕ
put_uint32 v = v / 2 ^ 24 % 256 ∷ v / 2 ^ 16 % 256 ∷ v / 2 ^ 8 % 256 ∷ v % 256 ∷ []

unfoldable pub put_uint64 : ℕ → List ℕ
put_uint64 v =
    v / 2 ^ 56 % 256
    ∷ v / 2 ^ 48 % 256
    ∷ v / 2 ^ 40 % 256
    ∷ v / 2 ^ 32 % 256
    ∷ v / 2 ^ 24 % 256
    ∷ v / 2 ^ 16 % 256
    ∷ v / 2 ^ 8 % 256
    ∷ v % 256
    ∷ []

unfoldable pub uint16 : List ℕ → ℕ
uint16 (a ∷ b ∷ _) = a * 2 ^ 8 + b
uint16 _ = 0

unfoldable pub uint32 : List ℕ → ℕ
uint32 (a ∷ b ∷ c ∷ d ∷ _) = a * 2 ^ 24 + b * 2 ^ 16 + c * 2 ^ 8 + d
uint32 _ = 0

unfoldable pub uint64 : List ℕ → ℕ
uint64 (a ∷ b ∷ c ∷ d ∷ e ∷ f ∷ g ∷ h ∷ _) =
    a * 2 ^ 56 + b * 2 ^ 48 + c * 2 ^ 40 + d * 2 ^ 32 + e * 2 ^ 24 + f * 2 ^ 16 + g * 2 ^ 8 + h
uint64 _ = 0

pub uint16-put : (v : ℕ) (rest : List ℕ) → IsU16 v → uint16 (v / 2 ^ 8 % 256 ∷ v % 256 ∷ rest) ≡ v
unfolding uint16
uint16-put v rest h = omega arith

pub uint32-put : (v : ℕ) (rest : List ℕ) → IsU32 v → uint32 (put_uint32 v ++ rest) ≡ v
unfolding uint32 put_uint32
uint32-put v rest h = omega arith

pub uint64-put : (v : ℕ) (rest : List ℕ) → IsU64 v → uint64 (put_uint64 v ++ rest) ≡ v
unfolding uint64 put_uint64
uint64-put v rest h = omega arith

-- A word that was read is in range, and is written back as the bytes that it was read from.
pub uint16-IsU16 : (a b : ℕ) (rest : List ℕ) → IsByte a → IsByte b → IsU16 (uint16 (a ∷ b ∷ rest))
unfolding uint16
uint16-IsU16 a b rest ha hb = omega arith

module _ (a b c d : ℕ) (rest : List ℕ) (bytes : All IsByte (a ∷ b ∷ c ∷ d ∷ [])) where
  pub uint32-IsU32 : IsU32 (uint32 (a ∷ b ∷ c ∷ d ∷ rest))
  unfolding uint32
  uint32-IsU32 = omega arith

  pub put-uint32 : put_uint32 (uint32 (a ∷ b ∷ c ∷ d ∷ rest)) ≡ a ∷ b ∷ c ∷ d ∷ []
  unfolding uint32 put_uint32
  put-uint32 = ground arith

pub put-uint16 :
    (a b : ℕ) (rest : List ℕ)
    → IsByte a
    → IsByte b
    → put_uint16 (uint16 (a ∷ b ∷ rest)) ≡ a ∷ b ∷ []
unfolding uint16 put_uint16
put-uint16 a b rest ha hb = ground arith

module _ (a b c d e f g h : ℕ) (rest : List ℕ)
    (bytes : All IsByte (a ∷ b ∷ c ∷ d ∷ e ∷ f ∷ g ∷ h ∷ [])) where
  pub uint64-IsU64 : IsU64 (uint64 (a ∷ b ∷ c ∷ d ∷ e ∷ f ∷ g ∷ h ∷ rest))
  unfolding uint64
  uint64-IsU64 = omega arith

  pub put-uint64 :
      put_uint64 (uint64 (a ∷ b ∷ c ∷ d ∷ e ∷ f ∷ g ∷ h ∷ rest))
      ≡ a ∷ b ∷ c ∷ d ∷ e ∷ f ∷ g ∷ h ∷ []
  unfolding uint64 put_uint64
  put-uint64 = ground arith

-- `==` on two slices converted to strings, and hmac.Equal, which differs only in its timing.
unfoldable pub bytes_eq : List ℕ → List ℕ → Bool
bytes_eq [] [] = true
bytes_eq [] (y ∷ ys) = false
bytes_eq (x ∷ xs) [] = false
bytes_eq (x ∷ xs) (y ∷ ys) = (x == y) && bytes_eq xs ys

bytes_eq→eq : (xs ys : List ℕ) → bytes_eq xs ys ≡ true → xs ≡ ys
unfolding bytes_eq
bytes_eq→eq [] [] h = refl
bytes_eq→eq [] (y ∷ ys) h = cc
bytes_eq→eq (x ∷ xs) [] h = cc
bytes_eq→eq (x ∷ xs) (y ∷ ys) h = ground (arith, bytes_eq→eq xs ys)

bytes_eq_refl : (xs : List ℕ) → bytes_eq xs xs ≡ true
unfolding bytes_eq
bytes_eq_refl [] = refl
bytes_eq_refl (x ∷ xs) = ground (arith, bytes_eq_refl xs)

pub bytes_eq_iff : (xs ys : List ℕ) → (bytes_eq xs ys ≡ true) ↔ (xs ≡ ys)
bytes_eq_iff xs ys =
    (bytes_eq→eq xs ys, λ e. subst (λ zs. bytes_eq xs zs ≡ true) e (bytes_eq_refl xs))

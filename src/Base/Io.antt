-- ===== src/Base/Io.antt =====
-- Fallible results, and package io as the program uses it. A reader is the list of bytes that are
-- still to come before the end of the input. A writer is a script of what its next calls of Write
-- return, a count of accepted bytes and perhaps an error, with the bytes that it has accepted so far;
-- a writer whose script is used up accepts all. A Write that reports more bytes than it was given
-- breaks the contract of io.Writer; the code that slices by such a count panics.
use Prim.Native.Nat.{ℕ, zero, suc}
use mathlib.Core.Path.{◌≡◌, refl}
use mathlib.Core.Bool.{Bool, true, false}
use mathlib.Core.Option.{Option, none}
use mathlib.Core.List.{List, [], ◌∷◌, ◌++◌}
use native.Mathlib.Omega.{arith}
use wsl_win_relay.Base.Tests.{leb, if◌then◌else◌}
use wsl_win_relay.Base.Lists.{length, take, drop, length-append, take-append_length}
use wsl_win_relay.Base.Lists.{drop-append_length, take-append-drop, length-take_le}

pub data Result (E A : Type 0) : Type 0 where
  ok : A → Result E A
  err : E → Result E A

infixl 5 ◌>>=◌ ◌>>◌
abbrev pub ◌>>=◌ : {E A B : Type 0} → Result E A → (A → Result E B) → Result E B
ok a >>= f = f a
err e >>= f = err e

abbrev pub ◌>>◌ : {E B : Type 0} → Result E (Unit {0}) → Result E B → Result E B
m >> k = m >>= λ _. k

-- `if refused { return e }`
abbrev pub guard : {E : Type 0} → Bool → E → Result E (Unit {0})
guard false e = ok tt
guard true e = err e

-- `failed` is an error of the transport, by a code; `panic` stands for a slice out of range.
pub data IoError : Type 0 where
  eof unexpected_eof short_write panic : IoError
  failed : ℕ → IoError

-- io.ReadFull(r, buffer) for a buffer of `n` bytes
unfoldable pub read_full : ℕ → List ℕ → Result IoError (List ℕ × List ℕ)
read_full zero input = ok ([], input)
read_full (suc n) [] = err IoError.eof
read_full (suc n) (b ∷ bs) =
    if leb (suc n) (length (b ∷ bs))
    then ok (take (suc n) (b ∷ bs), drop (suc n) (b ∷ bs))
    else err IoError.unexpected_eof

pub read_full-append :
    (part rest : List ℕ) → read_full (length part) (part ++ rest) ≡ ok (part, rest)
unfolding read_full
read_full-append [] rest = refl
read_full-append (b ∷ bs) rest =
    ground (arith, length-append bs rest, take-append_length bs rest, drop-append_length bs rest)

-- What was read has the length asked for, and stands in front of what is left.
pub read_full_sound :
    (n : ℕ) (input part rest : List ℕ)
    → read_full n input ≡ ok (part, rest)
    → (input ≡ part ++ rest) × (length part ≡ n)
unfolding read_full
read_full_sound zero input part rest h = ground arith
read_full_sound (suc n) [] part rest h = absurd (cc)
read_full_sound (suc n) (b ∷ bs) part rest h =
    ground (arith, take-append-drop n bs, length-take_le n bs)

pub record Writer : Type 0 where
  pub script : List (ℕ × Option IoError)
  pub sent : List ℕ

abbrev pub accepting : List ℕ → Writer
accepting sent = record { script = []; sent = sent }

abbrev answer : List ℕ → List (ℕ × Option IoError) → List ℕ → (ℕ × Option IoError) × Writer
answer p [] sent = ((length p, none), record { script = []; sent = sent ++ p })
answer p ((n, e) ∷ script) sent = ((n, e), record { script = script; sent = sent ++ take n p })

-- one call w.Write(p)
unfoldable pub write_once : Writer → List ℕ → (ℕ × Option IoError) × Writer
write_once w p = answer p w.script w.sent

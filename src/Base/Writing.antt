-- ===== src/Base/Writing.antt =====
-- The loop of the functions writeFull of packages protocol and attach and of writeAll of upstream, and
-- what it delivers whatever the writer answers. The packages differ in how they read an answer of
-- Write: that is the parameter `progress`.
use Prim.Native.Nat.{ℕ, zero, suc, ◌≤◌, ◌<◌}
use mathlib.Core.Path.{◌≡◌, refl, sym, ap, ◌∙◌, subst}
use mathlib.Core.Logic.{◌⊎◌, inl, inr}
use mathlib.Core.Option.{Option, none, some}
use mathlib.Core.List.{List, [], ◌∷◌, ◌++◌, append-nil, append_assoc}
use native.Mathlib.Omega.{arith}
use wsl_win_relay.Base.Io.{Result, ok, err, IoError, Writer, write_once, accepting}
use wsl_win_relay.Base.Tests.{ltb, if◌then◌else◌}
use wsl_win_relay.Base.Action.{Action, resume, lift, ◌>>◌}
use wsl_win_relay.Base.Lists.{length, take, drop, length-drop, drop-length, take-append-drop}

abbrev pub Progress : Type 0 → Type 0
Progress E = List ℕ → ℕ × Option IoError → Result E (List ℕ)

-- What a sound reading of an answer is: it goes on behind at least one byte, and it takes the
-- answer of a writer that accepted everything.
pub record IsProgress {E : Type 0} (progress : Progress E) : Type 0 where
  pub moves :
      (p : List ℕ) (n : ℕ) (e : Option IoError) (rest : List ℕ)
      → progress p (n, e) ≡ ok rest
      → (0 < n) × (n ≤ length p) × (rest ≡ drop n p)
  pub finishes : (b : ℕ) (bs : List ℕ) → progress (b ∷ bs) (length (b ∷ bs), none) ≡ ok []

-- How an answer is read: an error first, then no progress; `past` is for a count past the end.
abbrev pub checked : {E : Type 0} → (IoError → E) → IoError → Progress E
checked report past p (n, some e) = err (report e)
checked report past p (zero, none) = err (report IoError.short_write)
checked report past p (suc n, none) =
    if ltb (length p) (suc n) then err (report past) else ok (drop (suc n) p)

checked-moves :
    {E : Type 0} (report : IoError → E) (past : IoError) (p : List ℕ) (n : ℕ) (e : Option IoError)
    (rest : List ℕ)
    → checked report past p (n, e) ≡ ok rest
    → (0 < n) × (n ≤ length p) × (rest ≡ drop n p)
checked-moves report past p n (some e) rest h = absurd (cc h)
checked-moves report past p zero none rest h = absurd (cc h)
checked-moves report past p (suc n) none rest h = ground arith

pub checked-IsProgress :
    {E : Type 0} (report : IoError → E) (past : IoError) → IsProgress (checked report past)
checked-IsProgress report past = record {
  moves = checked-moves report past;
  finishes = λ b bs. ground (arith, drop-length bs);
}

-- Each round drops a byte at least, so `length p` rounds are enough. `stuck` is never the result.
unfoldable pub write_loop : {E : Type 0} → Progress E → E → ℕ → List ℕ → Action Writer E (Unit {0})
write_loop progress stuck fuel [] w = (ok tt, w)
write_loop progress stuck zero (b ∷ bs) w = (err stuck, w)
write_loop progress stuck (suc fuel) (b ∷ bs) w =
    let (answer, w') = write_once w (b ∷ bs) in
    elim (progress (b ∷ bs) answer) [
      | ok rest ↦ write_loop progress stuck fuel rest w'
      | err e ↦ (err e, w')
    ]

-- `w'` has what `w` had and then a front part of `p`, all of it if the result is `ok`.
abbrev pub Delivers : {E A : Type 0} → List ℕ → Writer → Result E A × Writer → Type 0
Delivers {A} p w (r, w') =
    (front : List ℕ) × (back : List ℕ) × (p ≡ front ++ back)
    × (w'.sent ≡ w.sent ++ front)
    × ((a : A) → r ≡ ok a → back ≡ [])

take-length {ℓ} : {A : Type ℓ} (xs : List A) → take (length xs) xs ≡ xs
take-length [] = refl
take-length (x ∷ xs) = ap (λ t. x ∷ t) (take-length xs)

sent-write_once :
    (w : Writer) (p : List ℕ) → (write_once w p).1.sent ≡ w.sent ++ take (write_once w p).0.0 p
unfolding write_once
sent-write_once w p = ground (arith, take-length p)

pub Result-cases :
    {E A : Type 0} (r : Result E A) → ((a : A) × (r ≡ ok a)) ⊎ ((e : E) × (r ≡ err e))
Result-cases (ok a) = inl (a, refl)
Result-cases (err e) = inr (e, refl)

-- Delivering the rest after a front part of `p` delivers `p`.
Delivers-append :
    {E A : Type 0} (n : ℕ) (p : List ℕ) (w w' : Writer) (r : Result E A × Writer)
    → w'.sent ≡ w.sent ++ take n p
    → Delivers (drop n p) w' r
    → Delivers p w r
Delivers-append n p w w' (r, w'') e (front, back, cut, sent, whole) = (
  take n p ++ front,
  back,
  sym (take-append-drop n p)
      ∙ ap (λ t. take n p ++ t) cut
      ∙ sym (append_assoc (take n p) front back),
  sent ∙ ap (λ t. t ++ front) e ∙ append_assoc w.sent (take n p) front,
  whole,
)

module _ {E : Type 0} (progress : Progress E) (stuck : E) (sound : IsProgress progress) where
  pub write_loop-Delivers :
      (fuel : ℕ) (p : List ℕ) (w : Writer)
      → length p ≤ fuel
      → Delivers p w (write_loop progress stuck fuel p w)
  unfolding write_loop
  write_loop-Delivers fuel [] w h = ([], [], refl, sym (append-nil w.sent), λ _ _. refl)
  write_loop-Delivers zero (b ∷ bs) w h = absurd (omega arith)
  write_loop-Delivers (suc fuel) (b ∷ bs) w h =
      let p : List ℕ = b ∷ bs in
      let ((n, e), w') = write_once w p in
      elim (Result-cases (progress p (n, e))) [
        | inl (rest, moved) ↦
            let (pos, fits, at) = sound.moves p n e rest moved in
            rw (moved, write_loop)
              (Delivers-append n p w w' (write_loop progress stuck fuel rest w')
                (sent-write_once w p)
                (subst (λ t. Delivers t w' (write_loop progress stuck fuel rest w')) at
                  (write_loop-Delivers fuel rest w'
                    (omega (arith, ap length at, length-drop n p)))))
        | inr (x, failed) ↦
            rw (failed, write_loop)
              (
                take n p,
                drop n p,
                sym (take-append-drop n p),
                sent-write_once w p,
                λ _ q. absurd (cc q),
              )
      ]

  -- A writer that accepts everything gets everything.
  pub write_loop-accepting :
      (fuel : ℕ) (p sent : List ℕ)
      → length p ≤ fuel
      → write_loop progress stuck fuel p (accepting sent) ≡ (ok tt, accepting (sent ++ p))
  unfolding write_loop write_once
  write_loop-accepting fuel [] sent h = rw append-nil
  write_loop-accepting zero (b ∷ bs) sent h = absurd (omega arith)
  write_loop-accepting (suc zero) (b ∷ bs) sent h = rw (sound.finishes b bs, write_loop)
  write_loop-accepting (suc (suc fuel)) (b ∷ bs) sent h = rw (sound.finishes b bs, write_loop)

module _ {E A : Type 0} (p q : List ℕ) (k : Action Writer E A) where
  Delivers-resume :
      (r : Result E (Unit {0})) (w w' : Writer)
      → Delivers p w (r, w')
      → Delivers q w' (k w')
      → Delivers (p ++ q) w (resume r (λ _. k) w')
  Delivers-resume (ok a) w w' (front, back, cut, sent, whole) (front', back', cut', sent', whole') =
      let all : p ≡ front = cut ∙ ap (λ t. front ++ t) (whole a refl) ∙ append-nil front in
      (
        p ++ front',
        back',
        ap (λ t. p ++ t) cut' ∙ sym (append_assoc p front' back'),
        sent'
            ∙ ap (λ t. t ++ front') (sent ∙ ap (λ t. w.sent ++ t) (sym all))
            ∙ append_assoc w.sent p front',
        whole',
      )
  Delivers-resume (err e) w w' (front, back, cut, sent, whole) d = (
    front,
    back ++ q,
    ap (λ t. t ++ q) cut ∙ append_assoc front back q,
    sent,
    λ _ x. absurd (cc x),
  )

  -- Two steps in a row deliver their texts in a row.
  pub Delivers-then :
      (m : Action Writer E (Unit {0}))
      → ((w : Writer) → Delivers p w (m w))
      → ((w : Writer) → Delivers q w (k w))
      → (w : Writer) → Delivers (p ++ q) w ((m >> k) w)
  Delivers-then m dm dk w = Delivers-resume (m w).0 w (m w).1 (dm w) (dk (m w).1)

-- A step that writes nothing delivers the empty text.
pub Delivers-lift : {E A : Type 0} (r : Result E A) (w : Writer) → Delivers [] w (lift r w)
Delivers-lift r w = ([], [], refl, sym (append-nil w.sent), λ _ _. refl)

-- More rounds than bytes change nothing, whatever stands for running out of them.
pub write_loop-fuel :
    {E : Type 0} (progress : Progress E) (stuck stuck' : E)
    → IsProgress progress
    → (fuel fuel' : ℕ) (p : List ℕ) (w : Writer) → length p ≤ fuel
    → length p ≤ fuel'
    → write_loop progress stuck fuel p w ≡ write_loop progress stuck' fuel' p w
unfolding write_loop
write_loop-fuel progress stuck stuck' sound fuel fuel' [] w h h' = refl
write_loop-fuel progress stuck stuck' sound zero fuel' (b ∷ bs) w h h' = absurd (omega arith)
write_loop-fuel progress stuck stuck' sound (suc fuel) zero (b ∷ bs) w h h' = absurd (omega arith)
write_loop-fuel {E} progress stuck stuck' sound (suc fuel) (suc fuel') (b ∷ bs) w h h' =
    elim (Result-cases (progress (b ∷ bs) (write_once w (b ∷ bs)).0)) [
      | inl (rest, e) ↦
          let (pos, le, cut) = sound.moves (b ∷ bs) _ _ rest e in
          let short : length rest < length (b ∷ bs) =
            omega
              (arith, ap (length {A = ℕ}) cut, length-drop (write_once w (b ∷ bs)).0.0 (b ∷ bs)) in
          rw (e, write_loop)
            (write_loop-fuel progress stuck stuck' sound fuel fuel' rest (write_once w (b ∷ bs)).1
              (omega (arith, short)) (omega (arith, short)))
      | inr (x, e) ↦ rw (e, write_loop)
    ]

-- ===== src/Relay/Credit.antt =====
-- The credit of a stream as both ends see it: what the window holds and what is under way.
use wsl_win_relay.Base.{
  ℕ, ◌+◌, ◌-◌, ◌≤◌, ◌<◌, ◌≡◌, Bool, true, false, List, [], ◌∷◌, ◌++◌, length, arith, if◌then◌else◌,
  All, ◌↔◌, refl, Bool-cases, inl, inr,
}
use wsl_win_relay.Protocol.Frame.{initial_stream_window}
use wsl_win_relay.Relay.Window.{FlowWindow, WaitEvent, new_flow_window, add, take}
use wsl_win_relay.Relay.Window.Laws.{amount}
use wsl_win_relay.Relay.Sender.{Sending}
use wsl_win_relay.Relay.Copy.{NetRead, copy_to_client}

-- `in_flight` are the bytes of the DATA frames that the other side has not acknowledged yet.
pub record Flow : Type 0 where
  pub window : FlowWindow
  pub in_flight : ℕ

abbrev pub IsConserved : Flow → Type 0
IsConserved f = f.window.available + f.in_flight ≡ initial_stream_window

-- A sender that sends what take grants, as Write does, and an update for bytes that are under way.
pub data Step (f : Flow) : Flow → Type 0 where
  send :
      (most : ℕ) (timed : Bool) (events : List WaitEvent)
      → 0 < f.window.available
      → Step f (record {
        window = (take most timed events f.window).1;
        in_flight = f.in_flight + amount (take most timed events f.window).0;
      })
  acknowledged :
      (count : ℕ)
      → 0 < count
      → count ≤ f.in_flight
      → Step f (record { window = (add count f.window).1; in_flight = f.in_flight - count })

pub data Reach : Flow → Type 0 where
  start : Reach (record { window = new_flow_window; in_flight = 0 })
  next : {f g : Flow} → Reach f → Step f g → Reach g

Step-IsConserved : {f g : Flow} → Step f g → IsConserved f → IsConserved g
unfolding take add
Step-IsConserved (send most timed events h) c = ground arith
Step-IsConserved (acknowledged count pos fits) c = ground arith

-- As long as a sender sends what take grants, credit is neither made nor lost, however sends and
-- updates are interleaved, and an update for bytes that are under way is always accepted.
pub Reach-accepts :
    {f : Flow} (count : ℕ)
    → Reach f
    → 0 < count
    → count ≤ f.in_flight
    → IsConserved f × ((add count f.window).0 ≡ true)
unfolding add
Reach-accepts {f} count r pos fits = let c = Reach-IsConserved r in (c, ground arith)
  where
    Reach-IsConserved : {g : Flow} → Reach g → IsConserved g
    Reach-IsConserved start = omega arith
    Reach-IsConserved (next h st) = Step-IsConserved st (Reach-IsConserved h)

-- The window updates that the other side sends, one after the other: whether all are accepted.
pub acknowledge : List ℕ → FlowWindow → Bool
acknowledge [] w = true
acknowledge (count ∷ counts) w =
    let rest = acknowledge counts (add count w).1 in if (add count w).0 then rest else false

unfoldable pub sum : List ℕ → ℕ
sum [] = 0
sum (n ∷ ns) = n + sum ns

abbrev pub IsPositive : ℕ → Type 0
IsPositive n = 0 < n

sum-acknowledge :
    (counts : List ℕ) (w : FlowWindow)
    → acknowledge counts w ≡ true
    → w.available ≤ initial_stream_window
    → w.available + sum counts ≤ initial_stream_window
unfolding acknowledge sum add
sum-acknowledge [] w h b = omega arith
sum-acknowledge (n ∷ ns) w h b = ground (arith, sum-acknowledge ns (add n w).1)

acknowledge-IsPositive :
    (counts : List ℕ) (w : FlowWindow) → acknowledge counts w ≡ true → All IsPositive counts
unfolding acknowledge add
acknowledge-IsPositive [] w h = tt
acknowledge-IsPositive (n ∷ ns) w h = ground (arith, acknowledge-IsPositive ns (add n w).1)

IsPositive-acknowledge :
    (counts : List ℕ) (w : FlowWindow)
    → All IsPositive counts
    → w.available + sum counts ≤ initial_stream_window
    → acknowledge counts w ≡ true
unfolding acknowledge sum add
IsPositive-acknowledge [] w pos fits = refl
IsPositive-acknowledge (n ∷ ns) w pos fits =
    ground (arith, pos, fits, IsPositive-acknowledge ns (add n w).1)

-- Window updates, one after the other in whatever portions, are all accepted by a window within its
-- bound exactly if none is zero and together with the credit that is there they do not exceed the
-- initial window.
pub acknowledge_iff :
    (counts : List ℕ) (w : FlowWindow)
    → w.available ≤ initial_stream_window
    → (acknowledge counts w ≡ true)
      ↔ (All IsPositive counts × (w.available + sum counts ≤ initial_stream_window))
acknowledge_iff counts w b = (
  λ h. (acknowledge-IsPositive counts w h, sum-acknowledge counts w h b),
  λ h. IsPositive-acknowledge counts w h.0 h.1,
)

refused :
    (counts : List ℕ) (w : FlowWindow)
    → initial_stream_window < w.available + sum counts
    → w.available ≤ initial_stream_window
    → acknowledge counts w ≡ false
refused counts w over b = elim (Bool-cases (acknowledge counts w)) [
  | inl all ↦ absurd (omega (arith, sum-acknowledge counts w all b))
  | inr some_refused ↦ some_refused
]

copy_short :
    (s : Sending) (b : ℕ) (bs : List ℕ) (ended : Bool)
    → s.link ≡ []
    → 0 < s.window.available
    → s.window.available < length (b ∷ bs)
    → let r : NetRead = record { content = b ∷ bs; ended = ended; registered = true } in
      let s' = (copy_to_client (r ∷ []) s).1 in
      (s'.frames ≡ s.frames ++ (b ∷ bs) ∷ []) × (s'.window.available ≡ 0)
unfolding copy_to_client take
copy_short s b bs ended works some_left short = ground arith

-- copyToClient takes what credit there is for a read and sends all of the bytes. Where a read
-- brings more than the credit that is left, the window is empty afterwards, but more is under way
-- than the other side has room for; then its acknowledgements, in whatever portions, do not all get
-- accepted.
pub copy_overdraws :
    (s : Sending) (b : ℕ) (bs : List ℕ) (ended : Bool) (in_flight : ℕ) (counts : List ℕ)
    → s.link ≡ []
    → s.window.available + in_flight ≡ initial_stream_window
    → 0 < s.window.available
    → s.window.available < length (b ∷ bs)
    → sum counts ≡ in_flight + length (b ∷ bs)
    → let r : NetRead = record { content = b ∷ bs; ended = ended; registered = true } in
      let s' = (copy_to_client (r ∷ []) s).1 in
      (s'.frames ≡ s.frames ++ (b ∷ bs) ∷ [])
      × (s'.window.available ≡ 0)
      × (acknowledge counts s'.window ≡ false)
copy_overdraws s b bs ended in_flight counts works conserved some_left short total =
    let (frames, empty) = copy_short s b bs ended works some_left short in
    (frames, empty, refused counts _ (omega (arith, empty)) (omega (arith, empty)))

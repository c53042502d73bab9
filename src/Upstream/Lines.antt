-- ===== src/Upstream/Lines.antt =====
-- The lines that httpConnect reads.
use wsl_win_relay.Base.{
  ℕ, ◌+◌, ◌≤◌, ◌≡◌, refl, sym, ap, ◌∙◌, subst, inl, inr, Bool, true, false, Bool-cases, List, [],
  ◌∷◌, ◌++◌, leb, ◌==◌, ==_iff, leb-false→lt, if◌then◌else◌, length, Result, ok, err, arith,
}
use mathlib.Core.Path.{ap₂}
use wsl_win_relay.Upstream.{Error, header_limit}
use wsl_win_relay.Upstream.Http.{max_proxy_header, longer, read_line}

-- A line: what was read of the input, which ends with a line feed, within the limit.
pub record IsLine (used : ℕ) (input line : List ℕ) (used' : ℕ) (rest : List ℕ) : Type 0 where
  pub split : input ≡ line ++ rest
  pub count : used' ≡ used + length line
  pub within : used' ≤ max_proxy_header
  pub before_end : List ℕ
  pub ends : line ≡ before_end ++ 10 ∷ []

longer-IsLine :
    (b used : ℕ) (bs : List ℕ) (r : Result Error (List ℕ × ℕ × List ℕ)) (line : List ℕ) (used' : ℕ)
    (rest : List ℕ)
    → ((l : List ℕ) → r ≡ ok (l, used', rest) → IsLine (used + 1) bs l used' rest)
    → longer b r ≡ ok (line, used', rest)
    → IsLine used (b ∷ bs) line used' rest
longer-IsLine b used bs (err e) line used' rest k h = absurd (cc h)
longer-IsLine b used bs (ok (l, u, t)) line used' rest k h =
    let (first, same, tail) : (b ∷ l ≡ line) × (u ≡ used') × (t ≡ rest) = ground (arith, h) in
    let s = k l (ap₂ (λ x y. ok (l, x, y)) same tail) in
    subst (λ x. IsLine used (b ∷ bs) x used' rest) first
      (record {
        split = ap (λ x. b ∷ x) s.split;
        count = omega (arith, s.count);
        within = s.within;
        before_end = b ∷ s.before_end;
        ends = ap (λ x. b ∷ x) s.ends;
      })

pick-IsLine :
    (full last : Bool) (b used : ℕ) (bs : List ℕ) (more : Result Error (List ℕ × ℕ × List ℕ))
    (line : List ℕ) (used' : ℕ) (rest : List ℕ)
    → leb max_proxy_header used ≡ full
    → (b == 10) ≡ last
    → ((l : List ℕ) → more ≡ ok (l, used', rest) → IsLine (used + 1) bs l used' rest)
    → (if full then err header_limit else if last then ok (b ∷ [], used + 1, bs) else longer b more)
      ≡ ok (line, used', rest)
    → IsLine used (b ∷ bs) line used' rest
pick-IsLine true last b used bs more line used' rest e e' k h = absurd (cc h)
pick-IsLine false true b used bs more line used' rest e e' k h =
    let (first, same, tail) : (b ∷ [] ≡ line) × (used + 1 ≡ used') × (bs ≡ rest) =
      ground (arith, h) in
    record {
      split = ap₂ (λ (x y : List ℕ). x ++ y) first tail;
      count = sym same ∙ ap (λ (x : List ℕ). used + length x) first;
      within = omega (arith, same, leb-false→lt max_proxy_header used e);
      before_end = [];
      ends = sym first ∙ ap (λ x. x ∷ []) ((==_iff b 10).0 e');
    }
pick-IsLine false false b used bs more line used' rest e e' k h =
    longer-IsLine b used bs more line used' rest k h

pub read_line-IsLine :
    (used : ℕ) (input line : List ℕ) (used' : ℕ) (rest : List ℕ)
    → read_line used input ≡ ok (line, used', rest)
    → IsLine used input line used' rest
unfolding read_line
read_line-IsLine used [] line used' rest h = elim (Bool-cases (leb max_proxy_header used)) [
  | inl full ↦ absurd (cc (h, full))
  | inr room ↦ absurd (cc (h, room))
]
read_line-IsLine used (b ∷ bs) line used' rest h =
    pick-IsLine (leb max_proxy_header used) (b == 10) b used bs (read_line (used + 1) bs) line used'
      rest refl refl (λ l e. read_line-IsLine (used + 1) bs l used' rest e) h

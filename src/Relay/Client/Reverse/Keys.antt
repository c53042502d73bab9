-- ===== src/Relay/Client/Reverse/Keys.antt =====
-- The flows of a listener by their keys.
use wsl_win_relay.Base.{
  ℕ, ◌≤◌, ◌≡◌, refl, sym, subst, ◌∙◌, ◌⊎◌, inl, inr, List, [], ◌∷◌, none, some, length, arith,
  bytes_eq, bytes_eq_iff, Bool-cases,
}
use wsl_win_relay.Relay.Client.Reverse.{flow_of, drop_flow}

abbrev pub Flow : Type 0
Flow = List ℕ × ℕ

abbrev pub Within : ℕ → List Flow → Type 0
Within c [] = ⊥
Within c (f ∷ m) = (f.1 ≡ c) ⊎ Within c m

-- No key stands twice.
abbrev pub Unique : List Flow → Type 0
Unique [] = Unit
Unique (f ∷ m) = (flow_of f.0 m ≡ none) × Unique m

drop-none :
    (key k : List ℕ) (m : List Flow) → flow_of k m ≡ none → flow_of k (drop_flow key m) ≡ none
unfolding flow_of drop_flow
drop-none key k [] e = refl
drop-none key k ((j, c) ∷ m) e = ground (arith, e, drop-none key k m)

pub drop-Unique : (key : List ℕ) (m : List Flow) → Unique m → Unique (drop_flow key m)
unfolding drop_flow
drop-Unique key [] u = tt
drop-Unique key ((k, c) ∷ m) u = ground (arith, u, drop-Unique key m u.1, drop-none key k m u.0)

pub length-drop_le : (key : List ℕ) (m : List Flow) → length (drop_flow key m) ≤ length m
unfolding drop_flow
length-drop_le key [] = omega arith
length-drop_le key ((k, c) ∷ m) = ground (arith, length-drop_le key m)

drop-absent : (key : List ℕ) (m : List Flow) → flow_of key m ≡ none → drop_flow key m ≡ m
unfolding flow_of drop_flow
drop-absent key [] e = refl
drop-absent key ((k, c) ∷ m) e = ground (arith, e, drop-absent key m)

-- Only the socket of the flow of that key goes.
pub drop-Within :
    (key : List ℕ) (c d : ℕ) (m : List Flow)
    → Unique m
    → flow_of key m ≡ some d
    → Within c m
    → (c ≡ d) ⊎ Within c (drop_flow key m)
unfolding flow_of drop_flow
drop-Within key c d [] u e w = absurd w
drop-Within key c d ((k, x) ∷ m) u e w = elim (Bool-cases (bytes_eq k key)) [
  | inl eq ↦
      let q : k ≡ key = (bytes_eq_iff k key).0 eq in
      let same : drop_flow key m ≡ m = drop-absent key m (subst (λ j. flow_of j m ≡ none) q u.0) in
      elim w [
        | inl r ↦ inl (sym r ∙ ground (arith, e, eq))
        | inr w' ↦ rw eq (inr (subst (Within c) (sym same) w'))
      ]
  | inr ne ↦ elim w [
    | inl r ↦ rw ne (inr (inl r))
    | inr w' ↦ elim (drop-Within key c d m u.1 (ground (arith, e, ne)) w') [
      | inl r ↦ inl r
      | inr v ↦ rw ne (inr (inr v))
    ]
  ]
]

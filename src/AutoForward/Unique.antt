-- ===== src/AutoForward/Unique.antt =====
-- The result of normalizeListeners is determined by which listeners it is given.
use mathlib.Core.Path.{ap₂}
use wsl_win_relay.Base.{◌≡◌, refl, sym, subst, ◌∙◌, ◌⊎◌, inl, inr, true, false, List, [], ◌∷◌}
use wsl_win_relay.AutoForward.Listeners.{Listener, preferred_listener, before, normalize_listeners}
use wsl_win_relay.AutoForward.Order.{In, Same, preferred_total}
use wsl_win_relay.AutoForward.Chosen.{
  apart_keys, before_irrefl, before_trans, Ascending, IsIteration, IsChosen,
  normalize_listeners-IsChosen,
}

-- Two listeners of one key in a list in order are the same.
Ascending-unique :
    (l k : Listener) (ls : List Listener) → Ascending ls → In l ls → In k ls → Same l k → l ≡ k
unfolding before
Ascending-unique l k [] h i j s = absurd i
Ascending-unique l k (x ∷ xs) (first, h) (inl p) (inl q) s = p ∙ sym q
Ascending-unique l k (x ∷ xs) (first, h) (inl p) (inr j) s =
    absurd (apart_keys l k s (subst (λ y. before y k ≡ true) (sym p) (first k j)))
Ascending-unique l k (x ∷ xs) (first, h) (inr i) (inl q) s =
    absurd (apart_keys k l (sym s.0, sym s.1) (subst (λ y. before y l ≡ true) (sym q) (first l i)))
Ascending-unique l k (x ∷ xs) (first, h) (inr i) (inr j) s = Ascending-unique l k xs h i j s

module _ (ls ms out out' : List Listener) (there : (m : Listener) → In m ls → In m ms)
    (back : (m : Listener) → In m ms → In m ls) (h : IsChosen ls out) (h' : IsChosen ms out') where
  chosen-In : (m : Listener) → In m out → In m out'
  chosen-In m i =
      let (k, at, (s, f)) = h'.best m (there m (h.given m i)) in
      let (k', at', (s', f')) = h.best k (back k (h'.given k at)) in
      let same : m ≡ k' = Ascending-unique m k' out h.ascending i at' (s.0 ∙ s'.0, s.1 ∙ s'.1) in
      let other : preferred_listener k m ≡ false =
        subst (λ x. preferred_listener k x ≡ false) (sym same) f' in
      subst (λ x. In x out') (sym (preferred_total m k s f other)) at

-- Lists in order with the same members are the same.
Ascending-eq :
    (xs ys : List Listener)
    → Ascending xs
    → Ascending ys
    → ((m : Listener) → In m xs → In m ys)
    → ((m : Listener) → In m ys → In m xs)
    → xs ≡ ys
Ascending-eq [] [] h k f g = refl
Ascending-eq [] (b ∷ ys) h k f g = absurd (g b (inl refl))
Ascending-eq (a ∷ xs) [] h k f g = absurd (f a (inl refl))
Ascending-eq (a ∷ xs) (b ∷ ys) (first, h) (first', k) f g =
    let same = heads (f a (inl refl)) (g b (inl refl)) in
    ap₂ (λ z zs. z ∷ zs) same
      (Ascending-eq xs ys h k (λ m i. tail_of same m i (f m (inr i)))
        (λ m i. tail_of' same m i (g m (inr i))))
  where
    loop : (x : Listener) → before x x ≡ true → ⊥
    loop x t = absurd (cc (t, before_irrefl x))

    heads : (a ≡ b) ⊎ In a ys → (b ≡ a) ⊎ In b xs → a ≡ b
    heads (inl e) j = e
    heads (inr i) (inl e) = sym e
    heads (inr i) (inr j) = absurd (loop a (before_trans a b a (first b j) (first' a i)))

    tail_of : a ≡ b → (m : Listener) → In m xs → (m ≡ b) ⊎ In m ys → In m ys
    tail_of same m i (inr j) = j
    tail_of same m i (inl e) =
        absurd (loop a (subst (λ x. before a x ≡ true) (e ∙ sym same) (first m i)))

    tail_of' : a ≡ b → (m : Listener) → In m ys → (m ≡ a) ⊎ In m xs → In m xs
    tail_of' same m i (inr j) = j
    tail_of' same m i (inl e) =
        absurd (loop b (subst (λ x. before b x ≡ true) (e ∙ same) (first' m i)))

-- Neither the order of the sockets in /proc, nor how often one is listed, nor the order in which the map
-- is iterated matters: from lists with the same listeners normalizeListeners makes the same list.
pub normalize_listeners-eq :
    (iterate iterate' : List Listener → List Listener) (ls ms : List Listener)
    → IsIteration iterate
    → IsIteration iterate'
    → ((m : Listener) → In m ls → In m ms)
    → ((m : Listener) → In m ms → In m ls)
    → normalize_listeners iterate ls ≡ normalize_listeners iterate' ms
normalize_listeners-eq iterate iterate' ls ms it it' there back =
    let h = normalize_listeners-IsChosen iterate ls it in
    let h' = normalize_listeners-IsChosen iterate' ms it' in
    Ascending-eq _ _ h.ascending h'.ascending (chosen-In ls ms _ _ there back h h')
      (chosen-In ms ls _ _ back there h' h)

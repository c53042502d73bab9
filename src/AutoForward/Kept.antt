-- ===== src/AutoForward/Kept.antt =====
-- The map of normalizeListeners: one listener for each key, the best that came.
use wsl_win_relay.Base.{
  ◌≡◌, refl, ap, sym, subst, ◌∙◌, ◌⊎◌, inl, inr, true, false, List, [], ◌∷◌, Bool-cases,
}
use wsl_win_relay.AutoForward.Listeners.{Listener, preferred_listener, same_key, keep, by_key}
use wsl_win_relay.AutoForward.Order.{
  In, Same, Better, same_key-Same, Same-same_key, preferred_irrefl, Better-trans, Better-keeps,
}

-- No two listeners of a list have one key.
abbrev pub Distinct : List Listener → Type 0
Distinct [] = Unit
Distinct (k ∷ ks) = ((m : Listener) → In m ks → Same k m → ⊥) × Distinct ks

abbrev pub IsFor : (Listener → Type 0) → Listener → Listener → Type 0
IsFor P l k = Same l k × P k

-- Something of the list has the key of `l` and `P`.
abbrev pub Some : (Listener → Type 0) → Listener → List Listener → Type 0
Some P l ks = (k : Listener) × In k ks × IsFor P l k

-- What `keep` does at a listener of the map.
data Keep (l k : Listener) (ks : List Listener) : Type 0 where
  replaces : Same l k → preferred_listener l k ≡ true → keep l (k ∷ ks) ≡ l ∷ ks → Keep l k ks
  loses : Same l k → preferred_listener l k ≡ false → keep l (k ∷ ks) ≡ k ∷ ks → Keep l k ks
  passes : (Same l k → ⊥) → keep l (k ∷ ks) ≡ k ∷ keep l ks → Keep l k ks

Keep-cases : (l k : Listener) (ks : List Listener) → Keep l k ks
unfolding keep
Keep-cases l k ks = elim (Bool-cases (same_key l k)) [
  | inr other ↦ passes (λ s. absurd (cc (Same-same_key l k s, other))) (rw (other, keep) refl)
  | inl same ↦ elim (Bool-cases (preferred_listener l k)) [
    | inl t ↦ replaces (same_key-Same l k same) t (rw (same, t, keep) refl)
    | inr f ↦ loses (same_key-Same l k same) f (rw (same, f, keep) refl)
  ]
]

module _ (l : Listener) where
  pub keep-In : (m : Listener) (ks : List Listener) → In m (keep l ks) → (m ≡ l) ⊎ In m ks
  unfolding keep
  keep-In m [] h = h
  keep-In m (k ∷ ks) h = elim (Keep-cases l k ks) [
    | replaces s t e ↦ elim (subst (In m) e h) [ inl q ↦ inl q | inr i ↦ inr (inr i) ]
    | loses s f e ↦ inr (subst (In m) e h)
    | passes n e ↦ elim (subst (In m) e h) [
      | inl q ↦ inr (inl q)
      | inr i ↦ elim (keep-In m ks i) [ inl q ↦ inl q | inr j ↦ inr (inr j) ]
    ]
  ]

  -- The key of `l` has a listener to which `l` is not preferred.
  pub keep_has : (ks : List Listener) → Some (λ k. preferred_listener l k ≡ false) l (keep l ks)
  unfolding keep
  keep_has [] = (l, inl refl, ((refl, refl), preferred_irrefl l))
  keep_has (k ∷ ks) = elim (Keep-cases l k ks) [
    | replaces s t e ↦
        subst (Some (λ k. preferred_listener l k ≡ false) l) (sym e)
          (l, inl refl, ((refl, refl), preferred_irrefl l))
    | loses s f e ↦
        subst (Some (λ k. preferred_listener l k ≡ false) l) (sym e) (k, inl refl, (s, f))
    | passes n e ↦
        let (j, i, found) = keep_has ks in
        subst (Some (λ k. preferred_listener l k ≡ false) l) (sym e) (j, inr i, found)
  ]

  -- The others keep a listener that is no worse.
  pub keep_covers :
      (m : Listener) (ks : List Listener) → In m ks → Some (λ k. Better k m) m (keep l ks)
  unfolding keep
  keep_covers m [] i = absurd i
  keep_covers m (k ∷ ks) i = elim (Keep-cases l k ks) [
    | replaces s t e ↦ subst (Some (λ k. Better k m) m) (sym e) (elim i [
      | inl q ↦ (
        l,
        inl refl,
        ((cc (q, s.0), cc (q, s.1)), inr (subst (λ x. preferred_listener l x ≡ true) (sym q) t)),
      )
      | inr j ↦ (m, inr j, ((refl, refl), inl refl))
    ])
    | loses s f e ↦ subst (Some (λ k. Better k m) m) (sym e) (m, i, ((refl, refl), inl refl))
    | passes n e ↦ subst (Some (λ k. Better k m) m) (sym e) (elim i [
      | inl q ↦ (m, inl q, ((refl, refl), inl refl))
      | inr j ↦ let (x, at, found) = keep_covers m ks j in (x, inr at, found)
    ])
  ]

  pub keep-Distinct : (ks : List Listener) → Distinct ks → Distinct (keep l ks)
  unfolding keep
  keep-Distinct [] d = ((λ m i s. i), tt)
  keep-Distinct (k ∷ ks) (apart, d) = elim (Keep-cases l k ks) [
    | replaces s t e ↦
        subst Distinct (sym e) ((λ m i s'. apart m i (sym s.0 ∙ s'.0, sym s.1 ∙ s'.1)), d)
    | loses s f e ↦ subst Distinct (sym e) (apart, d)
    | passes n e ↦ subst Distinct (sym e) (
      (λ m i s'. elim (keep-In m ks i) [
        | inl q ↦ n (ap (λ x. x.port) (sym q) ∙ sym s'.0, ap (λ x. x.network) (sym q) ∙ sym s'.1)
        | inr j ↦ apart m j s'
      ]),
      keep-Distinct ks d,
    )
  ]

pub by_key-In :
    (m : Listener) (kept ls : List Listener) → In m (by_key kept ls) → In m kept ⊎ In m ls
unfolding by_key
by_key-In m kept [] h = inl h
by_key-In m kept (l ∷ ls) h = elim (by_key-In m (keep l kept) ls h) [
  | inl i ↦ elim (keep-In l m kept i) [ inl q ↦ inr (inl q) | inr j ↦ inl j ]
  | inr i ↦ inr (inr i)
]

pub by_key-Distinct : (kept ls : List Listener) → Distinct kept → Distinct (by_key kept ls)
unfolding by_key
by_key-Distinct kept [] d = d
by_key-Distinct kept (l ∷ ls) d = by_key-Distinct (keep l kept) ls (keep-Distinct l kept d)

by_key_covers :
    (m : Listener) (kept ls : List Listener) → In m kept → Some (λ k. Better k m) m (by_key kept ls)
unfolding by_key
by_key_covers m kept [] i = (m, i, ((refl, refl), inl refl))
by_key_covers m kept (l ∷ ls) i =
    let (k, at, (s, b)) = keep_covers l m kept i in
    let (k', at', (s', b')) = by_key_covers k (keep l kept) ls at in
    (k', at', ((s.0 ∙ s'.0, s.1 ∙ s'.1), Better-trans k' k m b' b))

-- Every listener that came has one of its key to which it is not preferred.
pub by_key_has :
    (m : Listener) (kept ls : List Listener)
    → In m ls
    → Some (λ k. preferred_listener m k ≡ false) m (by_key kept ls)
unfolding by_key
by_key_has m kept [] i = absurd i
by_key_has m kept (l ∷ ls) (inr i) = by_key_has m (keep l kept) ls i
by_key_has m kept (l ∷ ls) (inl q) =
    let (k, at, (s, f)) = keep_has l kept in
    let (k', at', (s', b)) = by_key_covers k (keep l kept) ls at in
    subst (λ x. Some (λ k. preferred_listener x k ≡ false) x (by_key (keep l kept) ls)) (sym q)
      (k', at', ((s.0 ∙ s'.0, s.1 ∙ s'.1), Better-keeps l k' k b f))

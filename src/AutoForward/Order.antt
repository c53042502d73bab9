-- ===== src/AutoForward/Order.antt =====
-- The orders on texts and on listeners.
use wsl_win_relay.Base.{
  ℕ, ◌≡◌, refl, sym, subst, ◌⊎◌, inl, inr, Bool, true, false, List, [], ◌∷◌, if◌then◌else◌,
  bytes_eq, bytes_eq_iff, arith, Bool-cases,
}
use wsl_win_relay.AutoForward.Listeners.{
  Listener, text_ltb, is_wildcard, preferred_listener, same_key,
}

-- Membership in a list.
abbrev pub In : Listener → List Listener → Type 0
In l [] = ⊥
In l (k ∷ ks) = (l ≡ k) ⊎ In l ks

pub text_irrefl : (xs : List ℕ) → text_ltb xs xs ≡ false
unfolding text_ltb
text_irrefl [] = refl
text_irrefl (x ∷ xs) = ground (arith, text_irrefl xs)

pub text_trans :
    (xs ys zs : List ℕ) → text_ltb xs ys ≡ true → text_ltb ys zs ≡ true → text_ltb xs zs ≡ true
unfolding text_ltb
text_trans xs ys [] h k = absurd (cc k)
text_trans xs [] (z ∷ zs) h k = absurd (cc h)
text_trans [] (y ∷ ys) (z ∷ zs) h k = refl
text_trans (x ∷ xs) (y ∷ ys) (z ∷ zs) h k = ground (arith, text_trans xs ys zs, h, k)

pub text_total : (xs ys : List ℕ) → text_ltb xs ys ≡ false → text_ltb ys xs ≡ false → xs ≡ ys
unfolding text_ltb
text_total [] [] h k = refl
text_total [] (y ∷ ys) h k = absurd (cc h)
text_total (x ∷ xs) [] h k = absurd (cc k)
text_total (x ∷ xs) (y ∷ ys) h k = ground (arith, text_total xs ys, h, k)

abbrev pub Same : Listener → Listener → Type 0
Same l k = (l.port ≡ k.port) × (l.network ≡ k.network)

pub same_key-Same : (l k : Listener) → same_key l k ≡ true → Same l k
same_key-Same l k h =
    let networks : bytes_eq l.network k.network ≡ true = ground (arith, h) in
    (ground (arith, h), (bytes_eq_iff l.network k.network).0 networks)

pub Same-same_key : (l k : Listener) → Same l k → same_key l k ≡ true
Same-same_key l k (p, n) =
    let networks = (bytes_eq_iff l.network k.network).1 n in ground (arith, p, networks)

pub preferred_irrefl : (l : Listener) → preferred_listener l l ≡ false
unfolding preferred_listener
preferred_irrefl l = elim (Bool-cases (is_wildcard l.host)) [
  | inl w ↦ rw (w, preferred_listener) (text_irrefl l.host)
  | inr w ↦ rw (w, preferred_listener) (text_irrefl l.host)
]

pub preferred_trans :
    (l k m : Listener)
    → preferred_listener l k ≡ true
    → preferred_listener k m ≡ true
    → preferred_listener l m ≡ true
unfolding preferred_listener
preferred_trans l k m h h' =
    from (is_wildcard l.host) (is_wildcard k.host) (is_wildcard m.host) h h'
  where
    from :
        (a b c : Bool)
        → (if a
            then if b then text_ltb l.host k.host else true
            else if b
            then false
            else text_ltb l.host k.host)
          ≡ true
        → (if b
            then if c then text_ltb k.host m.host else true
            else if c
            then false
            else text_ltb k.host m.host)
          ≡ true
        → (if a
            then if c then text_ltb l.host m.host else true
            else if c
            then false
            else text_ltb l.host m.host)
          ≡ true
    from true true true h k' = text_trans l.host k.host m.host h k'
    from true true false h k' = refl
    from true false true h k' = absurd (cc k')
    from true false false h k' = refl
    from false true c h k' = absurd (cc h)
    from false false true h k' = absurd (cc k')
    from false false false h k' = text_trans l.host k.host m.host h k'

-- Two listeners of one key of which none is preferred are the same.
pub preferred_total :
    (l k : Listener)
    → Same l k
    → preferred_listener l k ≡ false
    → preferred_listener k l ≡ false
    → l ≡ k
unfolding preferred_listener
preferred_total l k (p, n) h h' =
    listener_eq p n (from (is_wildcard l.host) (is_wildcard k.host) h h')
  where
    listener_eq : l.port ≡ k.port → l.network ≡ k.network → l.host ≡ k.host → l ≡ k
    listener_eq p n e = cc (p, n, e)

    from :
        (a b : Bool)
        → (if a
            then if b then text_ltb l.host k.host else true
            else if b
            then false
            else text_ltb l.host k.host)
          ≡ false
        → (if b
            then if a then text_ltb k.host l.host else true
            else if a
            then false
            else text_ltb k.host l.host)
          ≡ false
        → l.host ≡ k.host
    from true true h h' = text_total l.host k.host h h'
    from true false h h' = absurd (cc h)
    from false true h h' = absurd (cc h')
    from false false h h' = text_total l.host k.host h h'

-- `k` stands for `l`, and is `l` or preferred to it.
abbrev pub Better : Listener → Listener → Type 0
Better k l = (k ≡ l) ⊎ (preferred_listener k l ≡ true)

pub Better-trans : (a b c : Listener) → Better a b → Better b c → Better a c
Better-trans a b c (inl e) h = subst (λ x. Better x c) (sym e) h
Better-trans a b c (inr h) (inl e) = inr (subst (λ x. preferred_listener a x ≡ true) e h)
Better-trans a b c (inr h) (inr h') = inr (preferred_trans a b c h h')

-- What is not preferred to one is not preferred to a better one.
pub Better-keeps :
    (m k l : Listener)
    → Better k l
    → preferred_listener m l ≡ false
    → preferred_listener m k ≡ false
Better-keeps m k l (inl e) h = subst (λ x. preferred_listener m x ≡ false) (sym e) h
Better-keeps m k l (inr b) h = elim (Bool-cases (preferred_listener m k)) [
  | inl t ↦ absurd (cc (preferred_trans m k l t b, h))
  | inr f ↦ f
]

-- ===== src/AutoForward/Chosen.antt =====
-- Which listeners are chosen, and that their order and that of the map do not matter.
use wsl_win_relay.Base.{
  ◌≡◌, refl, ap, sym, subst, ◌∙◌, inl, inr, true, false, List, [], ◌∷◌, arith, Bool-cases,
}
use wsl_win_relay.AutoForward.Listeners.{
  Listener, text_ltb, preferred_listener, by_key, before, insert, sort, normalize_listeners,
}
use wsl_win_relay.AutoForward.Order.{In, Same, text_trans, text_total, text_irrefl}
use wsl_win_relay.AutoForward.Kept.{Distinct, Some, by_key-In, by_key-Distinct, by_key_has}

pub before_irrefl : (l : Listener) → before l l ≡ false
unfolding before
before_irrefl l = ground (arith, text_irrefl l.network)

pub before_trans : (l k m : Listener) → before l k ≡ true → before k m ≡ true → before l m ≡ true
unfolding before
before_trans l k m h h' = ground (arith, h, h', text_trans l.network k.network m.network)

before_total : (l k : Listener) → (Same l k → ⊥) → before l k ≡ false → before k l ≡ true
unfolding before
before_total l k apart h = elim (Bool-cases (before k l)) [
  | inl t ↦ t
  | inr f ↦ absurd (
      apart (
        ground (arith, h, f),
        text_total l.network k.network (ground (arith, h, f)) (ground (arith, h, f)),
      ))
]

-- What has one key is in no order.
pub apart_keys : (l k : Listener) → Same l k → before l k ≡ true → ⊥
unfolding before
apart_keys l k (p, n) h =
    let same : text_ltb l.network k.network ≡ false =
      ap (λ x. text_ltb l.network x) (sym n) ∙ text_irrefl l.network in
    ground (arith, p, h, same)

abbrev pub Ascending : List Listener → Type 0
Ascending [] = Unit
Ascending (l ∷ ls) = ((m : Listener) → In m ls → before l m ≡ true) × Ascending ls

module _ (l k : Listener) (ks : List Listener) where
  insert_first : before l k ≡ true → insert l (k ∷ ks) ≡ l ∷ k ∷ ks
  unfolding insert
  insert_first t = rw (t, insert) refl

  insert_later : before l k ≡ false → insert l (k ∷ ks) ≡ k ∷ insert l ks
  unfolding insert
  insert_later f = rw (f, insert) refl

insert-In : (m l : Listener) (ks : List Listener) → In m (insert l ks) → In m (l ∷ ks)
unfolding insert
insert-In m l [] h = h
insert-In m l (k ∷ ks) h = elim (Bool-cases (before l k)) [
  | inl t ↦ subst (In m) (insert_first l k ks t) h
  | inr f ↦ elim (subst (In m) (insert_later l k ks f) h) [
    | inl q ↦ inr (inl q)
    | inr i ↦ elim (insert-In m l ks i) [ inl q ↦ inl q | inr j ↦ inr (inr j) ]
  ]
]

In-insert : (m l : Listener) (ks : List Listener) → In m (l ∷ ks) → In m (insert l ks)
unfolding insert
In-insert m l [] h = h
In-insert m l (k ∷ ks) h = elim (Bool-cases (before l k)) [
  | inl t ↦ subst (In m) (sym (insert_first l k ks t)) h
  | inr f ↦ subst (In m) (sym (insert_later l k ks f)) (elim h [
    | inl q ↦ inr (In-insert m l ks (inl q))
    | inr i ↦ elim i [ inl q ↦ inl q | inr j ↦ inr (In-insert m l ks (inr j)) ]
  ])
]

insert-Ascending :
    (l : Listener) (ks : List Listener)
    → ((m : Listener) → In m ks → Same l m → ⊥)
    → Ascending ks
    → Ascending (insert l ks)
unfolding insert
insert-Ascending l [] apart h = ((λ m i. absurd i), tt)
insert-Ascending l (k ∷ ks) apart (first, h) = elim (Bool-cases (before l k)) [
  | inl t ↦ subst Ascending (sym (insert_first l k ks t)) (
    (λ m i. elim i [
      | inl q ↦ subst (λ x. before l x ≡ true) (sym q) t
      | inr j ↦ before_trans l k m t (first m j)
    ]),
    (first, h),
  )
  | inr f ↦ subst Ascending (sym (insert_later l k ks f)) (
    (λ m i. elim (insert-In m l ks i) [
      | inl q ↦ subst (λ x. before k x ≡ true) (sym q) (before_total l k (apart k (inl refl)) f)
      | inr j ↦ first m j
    ]),
    insert-Ascending l ks (λ m i. apart m (inr i)) h,
  )
]

sort-In : (m : Listener) (ks : List Listener) → In m (sort ks) → In m ks
unfolding sort
sort-In m [] h = h
sort-In m (k ∷ ks) h = elim (insert-In m k (sort ks) h) [
  | inl q ↦ inl q
  | inr i ↦ inr (sort-In m ks i)
]

In-sort : (m : Listener) (ks : List Listener) → In m ks → In m (sort ks)
unfolding sort
In-sort m [] h = h
In-sort m (k ∷ ks) (inl q) = In-insert m k (sort ks) (inl q)
In-sort m (k ∷ ks) (inr i) = In-insert m k (sort ks) (inr (In-sort m ks i))

sort-Ascending : (ks : List Listener) → Distinct ks → Ascending (sort ks)
unfolding sort
sort-Ascending [] d = tt
sort-Ascending (k ∷ ks) (apart, d) =
    insert-Ascending k (sort ks) (λ m i. apart m (sort-In m ks i)) (sort-Ascending ks d)

-- A loop over a map comes upon every entry once.
abbrev pub IsIteration : (List Listener → List Listener) → Type 0
IsIteration iterate =
    (ks : List Listener)
    → Distinct ks
    → Distinct (iterate ks)
      × ((m : Listener) → In m (iterate ks) → In m ks)
      × ((m : Listener) → In m ks → In m (iterate ks))

-- What the result is to be, in terms of the listeners alone: in order, some of them, and for each of
-- them one of its key to which it is not preferred.
pub record IsChosen (ls out : List Listener) : Type 0 where
  pub ascending : Ascending out
  pub given : (m : Listener) → In m out → In m ls
  pub best : (m : Listener) → In m ls → Some (λ k. preferred_listener m k ≡ false) m out

-- However the map is iterated, normalizeListeners returns listeners that it was given, ordered by port and
-- network with no key twice, and for each listener that it was given one of the same network and port
-- to which that one is not preferred.
pub normalize_listeners-IsChosen :
    (iterate : List Listener → List Listener) (ls : List Listener)
    → IsIteration iterate
    → IsChosen ls (normalize_listeners iterate ls)
unfolding normalize_listeners
normalize_listeners-IsChosen iterate ls it =
    let kept = by_key [] ls in
    let (distinct, back, there) = it kept (by_key-Distinct [] ls tt) in
    record {
      ascending = sort-Ascending (iterate kept) distinct;
      given = λ m i. elim (by_key-In m [] ls (back m (sort-In m (iterate kept) i))) [
        | inl j ↦ absurd j
        | inr j ↦ j
      ];
      best = λ m i.
          let (k, at, found) = by_key_has m [] ls i in
          (k, In-sort k (iterate kept) (there k at), found);
    }

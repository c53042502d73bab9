-- ===== src/Relay/Server/Datagrams/Kept.antt =====
-- The datagram associations: what each change of the registry keeps. `cs` are the sockets that
-- were made so far.
use mathlib.Core.List.{Mem, mem-append_left}
use wsl_win_relay.Base.{
  ℕ, zero, suc, ◌≤◌, ◌<◌, ◌≡◌, ◌≢◌, refl, ap, sym, subst, ◌∙◌, ◌⊎◌, inl, inr, true, false, List, [],
  ◌∷◌, ◌++◌, Option, none, some, length, get_elem?, set, arith, All, get_elem?-set_self,
  get_elem?-set_ne, get_elem?-append_left, get_elem?-append_length, get_elem?-some_lt, Bool-cases,
  ◌==◌,
}
use wsl_win_relay.Relay.Server.{lookup, Sent}
use wsl_win_relay.Relay.Server.Datagrams.{
  Association, Associations, new_association, send, update, close_conn, register,
}

abbrev pub Stored : List Association → (Association → Type 0) → ℕ → Type 0
Stored store P o = (x : Association) × (get_elem? store o ≡ some x) × P x

abbrev pub IsLive : ℕ → Association → Type 0
IsLive id x = (x.done ≡ false) × (x.id ≡ id)

-- An association that is not done is registered, the socket of another is closed, and one that still
-- dials has none.
pub record IsKept (registry : List (ℕ × ℕ)) (closed : List ℕ) (o : ℕ) (x : Association)
    : Type 0 where
  pub registered : x.done ≡ false → lookup x.id registry ≡ some o
  pub released : (c : ℕ) → x.done ≡ true → x.conn ≡ some c → Mem c closed
  pub unconnected : x.dialing ≡ true → x.conn ≡ none

-- A registered association is stored, knows its identifier and is not done (`named`). A socket is
-- closed or an association has it.
abbrev pub Held : List Association → List ℕ → ℕ → Type 0
Held store closed c = Mem c closed ⊎ ((o : ℕ) × Stored store (λ x. x.conn ≡ some c) o)

pub record IsGood (limit : ℕ) (cs : List ℕ) (registry : List (ℕ × ℕ)) (store : List Association)
    (closed : List ℕ) : Type 0 where
  pub few : length registry ≤ limit
  pub named : (id o : ℕ) → lookup id registry ≡ some o → Stored store (IsLive id) o
  pub kept : (o : ℕ) (x : Association) → get_elem? store o ≡ some x → IsKept registry closed o x
  pub held : All (Held store closed) cs

abbrev pub Good : ℕ → List ℕ → Associations → Type 0
Good limit cs s = IsGood limit cs s.registry s.store s.closed_conns

pub at_set :
    (store : List Association) (o p : ℕ) (x y z : Association)
    → get_elem? store o ≡ some x
    → get_elem? (set store o y) p ≡ some z
    → ((o ≡ p) × (y ≡ z)) ⊎ ((o ≢ p) × (get_elem? store p ≡ some z))
at_set store o p x y z stored e = elim (Bool-cases (o == p)) [
  | inl eq ↦
      let q : o ≡ p = ground arith in
      inl (
        q,
        cc (
          get_elem?-set_self store o y (get_elem?-some_lt store o x stored),
          ap (get_elem? (set store o y)) q,
          e,
        ),
      )
  | inr ne ↦ let q : o ≢ p = λ q. ground arith in inr (q, sym (get_elem?-set_ne store o p y q) ∙ e)
]

-- Writing an association over itself, changed where it matters for `P` only as `P` allows.
module _ (P : Association → Type 0) (store : List Association) (o : ℕ) (x y : Association)
    (stored : get_elem? store o ≡ some x) (change : P x → P y) where
  set-Stored : (p : ℕ) → Stored store P p → Stored (set store o y) P p
  set-Stored p (z, e, h) = elim (Bool-cases (o == p)) [
    | inl eq ↦
        let q : o ≡ p = ground arith in
        let same : x ≡ z = cc (stored, ap (get_elem? store) q, e) in
        (
          y,
          ap (get_elem? (set store o y)) (sym q)
              ∙ get_elem?-set_self store o y (get_elem?-some_lt store o x stored),
          change (subst P (sym same) h),
        )
    | inr ne ↦ (z, get_elem?-set_ne store o p y (λ q. ground arith) ∙ e, h)
  ]

pub set-Held :
    (store : List Association) (closed : List ℕ) (o : ℕ) (x y : Association)
    → get_elem? store o ≡ some x
    → ((c : ℕ) → x.conn ≡ some c → y.conn ≡ some c)
    → (c : ℕ) → Held store closed c
    → Held (set store o y) closed c
set-Held store closed o x y stored has c (inl m) = inl m
set-Held store closed o x y stored has c (inr (p, found)) =
    inr (p, set-Stored (λ z. z.conn ≡ some c) store o x y stored (has c) p found)

pub All-map : (P Q : ℕ → Type 0) → ((c : ℕ) → P c → Q c) → (cs : List ℕ) → All P cs → All Q cs
All-map P Q f [] h = tt
All-map P Q f (c ∷ cs) (k, h) = (f c k, All-map P Q f cs h)

module _ (limit : ℕ) (cs : List ℕ) where
  -- An association keeps its identifier, and a socket that it has.
  pub update-Good :
      (o : ℕ) (x y : Association) (s : Associations)
      → get_elem? s.store o ≡ some x
      → y.done ≡ x.done
      → y.id ≡ x.id
      → ((c : ℕ) → x.conn ≡ some c → y.conn ≡ some c)
      → (IsKept s.registry s.closed_conns o x → IsKept s.registry s.closed_conns o y)
      → Good limit cs s
      → Good limit cs (update o y s)
  update-Good o x y s stored fresh same has keeps h = record {
    few = h.few;
    named = λ id p e.
        set-Stored (IsLive id) s.store o x y stored (λ k. (fresh ∙ k.0, same ∙ k.1)) p
          (h.named id p e);
    kept = λ p z e. elim (at_set s.store o p x y z stored e) [
      | inl (q, r) ↦
          subst (λ i. IsKept s.registry s.closed_conns i z) q
            (subst (IsKept s.registry s.closed_conns o) r (keeps (h.kept o x stored)))
      | inr (ne, e') ↦ h.kept p z e'
    ];
    held = All-map _ _ (set-Held s.store s.closed_conns o x y stored has) cs h.held;
  }

  pub send-Good : (f : Sent) (s : Associations) → Good limit cs s → Good limit cs (send f s).1
  unfolding send
  send-Good f s h = ground (arith, h)

  pub close_conn-Good :
      (c : Option ℕ) (s : Associations) → Good limit cs s → Good limit cs (close_conn c s)
  close_conn-Good none s h = h
  close_conn-Good (some c) s h = record {
    few = h.few;
    named = h.named;
    kept = λ o x e. record {
      registered = (h.kept o x e).registered;
      released = λ d done has. mem-append_left (c ∷ []) ((h.kept o x e).released d done has);
      unconnected = (h.kept o x e).unconnected;
    };
    held =
        All-map _ _
          (λ d k. elim k [ inl m ↦ inl (mem-append_left (c ∷ []) m) | inr found ↦ inr found ]) cs
          h.held;
  }

  at_append :
      (store : List Association) (y z : Association) (p : ℕ)
      → get_elem? (store ++ y ∷ []) p ≡ some z
      → (get_elem? store p ≡ some z) ⊎ ((p ≡ length store) × (y ≡ z))
  at_append [] y z zero e = inr (refl, cc e)
  at_append [] y z (suc p) e = absurd (cc e)
  at_append (x ∷ xs) y z zero e = inl e
  at_append (x ∷ xs) y z (suc p) e = elim (at_append xs y z p e) [
    | inl k ↦ inl k
    | inr (q, r) ↦ inr (ap suc q, r)
  ]

  append-Stored :
      (store : List Association) (y : Association) (P : Association → Type 0) (p : ℕ)
      → Stored store P p
      → Stored (store ++ y ∷ []) P p
  append-Stored store y P p (z, e, h) =
      (z, get_elem?-append_left store (y ∷ []) p (get_elem?-some_lt store p z e) ∙ e, h)

  -- An association is registered under an identifier that was free.
  pub register-Good :
      (id : ℕ) (s : Associations)
      → lookup id s.registry ≡ none
      → length s.registry < limit
      → Good limit cs s
      → Good limit cs (register id s)
  unfolding lookup
  register-Good id s free room h = record {
    few = omega arith;
    named = λ k p e. elim (Bool-cases (id == k)) [
      | inl eq ↦
          let q : length s.store ≡ p = ground (arith, e, eq) in
          subst (Stored (s.store ++ new_association id ∷ []) (IsLive k)) q (
            new_association id,
            get_elem?-append_length s.store (new_association id),
            (refl, ground arith),
          )
      | inr ne ↦
          append-Stored s.store (new_association id) (IsLive k) p
            (h.named k p (ground (arith, e, ne)))
    ];
    kept = λ p z e. elim (at_append s.store (new_association id) z p e) [
      | inl k ↦
          let old = h.kept p z k in
          record {
            registered = λ fresh. ground (arith, old.registered fresh, free);
            released = old.released;
            unconnected = old.unconnected;
          }
      | inr (q, r) ↦ subst (IsKept ((id, length s.store) ∷ s.registry) s.closed_conns p) r (record {
        registered = λ fresh. ground (arith, q);
        released = λ c done has. absurd (cc done);
        unconnected = λ _. refl;
      })
    ];
    held =
        All-map _ _
          (λ c k. elim k [
            | inl m ↦ inl m
            | inr (p, found) ↦
                inr (p, append-Stored s.store (new_association id) (λ z. z.conn ≡ some c) p found)
          ])
          cs h.held;
  }

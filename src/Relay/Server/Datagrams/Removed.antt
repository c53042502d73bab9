-- ===== src/Relay/Server/Datagrams/Removed.antt =====
-- The datagram associations: removing one keeps what holds of the registry.
use mathlib.Core.List.{Mem, mem-append_right, mem-cons_self}
use wsl_win_relay.Base.{
  ℕ, ◌≡◌, ◌≢◌, refl, ap, sym, subst, ◌∙◌, inl, inr, true, false, List, [], ◌∷◌, ◌++◌, Option, none,
  some, get_elem?, arith, get_elem?-set_ne, Bool-cases, Option-cases, ◌==◌,
}
use wsl_win_relay.Relay.Server.{lookup, delete}
use wsl_win_relay.Relay.Server.Registered.{length-delete_le}
use wsl_win_relay.Relay.Server.Removal.{lookup-delete_self, lookup-delete_ne}
use wsl_win_relay.Relay.Server.Datagrams.{
  Association, Associations, update, close_conn, association_of, remove_datagram,
}
use wsl_win_relay.Relay.Server.Datagrams.Kept.{
  IsKept, Good, at_set, set-Held, All-map, close_conn-Good,
}

pub association_of-found :
    (id o : ℕ) (x : Association) (s : Associations)
    → association_of id s ≡ some (o, x)
    → (lookup id s.registry ≡ some o) × (get_elem? s.store o ≡ some x)
unfolding association_of
association_of-found id o x s e = ground arith

module _ (limit : ℕ) (cs : List ℕ) where
  module _ (id : ℕ) (s : Associations) (h : Good limit cs s) where
    deleted-Good :
        lookup id s.registry ≡ none → Good limit cs (record s { registry = delete id s.registry })
    deleted-Good free = record {
      few = omega (arith, h.few, length-delete_le id s.registry);
      named = λ k p e. elim (Bool-cases (k == id)) [
        | inl eq ↦
            let q : k ≡ id = ground arith in absurd (cc (q, lookup-delete_self id s.registry, e))
        | inr ne ↦ h.named k p (sym (lookup-delete_ne id k s.registry (λ q. ground arith)) ∙ e)
      ];
      kept = λ p z e.
          let old = h.kept p z e in
          record {
            registered = λ fresh.
                lookup-delete_ne id z.id s.registry
                  (λ q. absurd (cc (ap (λ i. lookup i s.registry) q, old.registered fresh, free)))
                ∙ old.registered fresh;
            released = old.released;
            unconnected = old.unconnected;
          };
      held = h.held;
    }

    finished-Good :
        (o : ℕ) (x : Association)
        → lookup id s.registry ≡ some o
        → get_elem? s.store o ≡ some x
        → x.id ≡ id
        → ((c : ℕ) → x.conn ≡ some c → Mem c s.closed_conns)
        → Good limit cs
            (update o (record x { done = true }) (record s { registry = delete id s.registry }))
    finished-Good o x at stored same shut = record {
      few = omega (arith, h.few, length-delete_le id s.registry);
      named = λ k p e. elim (Bool-cases (k == id)) [
        | inl eq ↦
            let q : k ≡ id = ground arith in absurd (cc (q, lookup-delete_self id s.registry, e))
        | inr ne ↦
            let other : k ≢ id = λ q. ground arith in
            let (z, at', live) = h.named k p (sym (lookup-delete_ne id k s.registry other) ∙ e) in
            (
              z,
              get_elem?-set_ne s.store o p (record x { done = true })
                    (λ q. other (cc (ap (get_elem? s.store) q, stored, at', live.1, same)))
                  ∙ at',
              live,
            )
      ];
      kept = λ p z e. elim (at_set s.store o p x (record x { done = true }) z stored e) [
        | inl (q, r) ↦ subst (IsKept (delete id s.registry) s.closed_conns p) r (record {
          registered = λ fresh. absurd (cc fresh);
          released = λ c done has. shut c has;
          unconnected = (h.kept o x stored).unconnected;
        })
        | inr (ne, e') ↦
            let old = h.kept p z e' in
            record {
              registered = λ fresh.
                  lookup-delete_ne id z.id s.registry
                    (λ q. ne (cc (ap (λ i. lookup i s.registry) q, old.registered fresh, at)))
                  ∙ old.registered fresh;
              released = old.released;
              unconnected = old.unconnected;
            }
      ];
      held =
          All-map _ _
            (set-Held s.store s.closed_conns o x (record x { done = true }) stored (λ c k. k)) cs
            h.held;
    }

  shut-Good :
      (id o : ℕ) (x : Association) (c : Option ℕ) (s : Associations)
      → Good limit cs s
      → lookup id s.registry ≡ some o
      → get_elem? s.store o ≡ some x
      → x.id ≡ id
      → x.conn ≡ c
      → Good limit cs (
          close_conn c
            (update o (record x { done = true }) (record s { registry = delete id s.registry })))
  shut-Good id o x none s h at stored same has =
      finished-Good id s h o x at stored same (λ d k. absurd (cc (k, has)))
  shut-Good id o x (some c) s h at stored same has =
      finished-Good id (close_conn (some c) s) (close_conn-Good limit cs (some c) s h) o x at stored
        same
        (λ d k.
          let q : d ≡ c = cc (k, has) in
          subst (λ e. Mem e (s.closed_conns ++ c ∷ [])) (sym q)
            (mem-append_right s.closed_conns mem-cons_self))

  association_of-free :
      (id : ℕ) (s : Associations)
      → Good limit cs s
      → association_of id s ≡ none
      → lookup id s.registry ≡ none
  unfolding association_of
  association_of-free id s h e = elim (Option-cases (lookup id s.registry)) [
    | inl free ↦ free
    | inr (o, at) ↦ let (z, stored, live) = h.named id o at in ground (arith, stored, at, e)
  ]

  pub remove-Good :
      (id : ℕ) (s : Associations) → Good limit cs s → Good limit cs (remove_datagram id s)
  unfolding remove_datagram
  remove-Good id s h = elim (Option-cases (association_of id s)) [
    | inl e ↦ rw (e, remove_datagram) (deleted-Good id s h (association_of-free id s h e))
    | inr ((o, x), e) ↦
        let (at, stored) = association_of-found id o x s e in
        let (z, stored', (fresh, named)) = h.named id o at in
        let same : z ≡ x = cc (stored, stored') in
        let fresh' : x.done ≡ false = subst (λ y. y.done ≡ false) same fresh in
        let named' : x.id ≡ id = subst (λ y. y.id ≡ id) same named in
        rw (e, fresh', remove_datagram) (shut-Good id o x x.conn s h at stored named' refl)
  ]

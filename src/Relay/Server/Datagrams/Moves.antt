-- ===== src/Relay/Server/Datagrams/Moves.antt =====
-- The datagram associations: what the operations keep.
use mathlib.Core.List.{mem-append_right, mem-cons_self}
use wsl_win_relay.Base.{
  ℕ, ◌≡◌, refl, inl, inr, Bool, true, false, List, [], ◌∷◌, ◌++◌, if◌then◌else◌, Option, none, some,
  map, get_elem?, arith, All-append, get_elem?-set_self, get_elem?-some_lt, Bool-cases,
  Option-cases,
}
use wsl_win_relay.Relay.Server.{Failure, resolve_failed, Sent, lookup}
use wsl_win_relay.Relay.Server.Datagrams.{
  Association, Associations, update, close_conn, association_of, remove_datagram, claim, confirm,
  is_current, keep_conn, give_up, enqueue, put, write_to, deliver,
}
use wsl_win_relay.Relay.Server.Datagrams.Steps.{remove_each, shutdown}
use wsl_win_relay.Relay.Server.Datagrams.Kept.{
  Held, Good, update-Good, send-Good, close_conn-Good, register-Good,
}
use wsl_win_relay.Relay.Server.Datagrams.Removed.{association_of-found, remove-Good}

grow-Good :
    (limit conn : ℕ) (cs : List ℕ) (s : Associations)
    → Held s.store s.closed_conns conn
    → Good limit cs s
    → Good limit (cs ++ conn ∷ []) s
grow-Good limit conn cs s k h = record {
  few = h.few;
  named = h.named;
  kept = h.kept;
  held = All-append _ cs (conn ∷ []) h.held (k, tt);
}

module _ (limit : ℕ) (cs : List ℕ) where
  pub if-Good :
      (b : Bool) (t u : Associations)
      → (b ≡ true → Good limit cs t)
      → (b ≡ false → Good limit cs u)
      → Good limit cs (if b then t else u)
  if-Good true t u h k = h refl
  if-Good false t u h k = k refl

  pub claim-Good :
      (error_type id : ℕ) (s : Associations)
      → Good limit cs s
      → Good limit cs (claim limit error_type id s).1
  unfolding claim
  claim-Good error_type id s h = elim (Option-cases (lookup id s.registry)) [
    | inl free ↦ ground (arith, free, h, send-Good limit cs _ s h, register-Good limit cs id s free)
    | inr (o, at) ↦ rw (at, claim) h
  ]

  pub confirm-Good :
      (id : ℕ) (r : Bool × Associations) → Good limit cs r.1 → Good limit cs (confirm id r)
  confirm-Good id (true, s) h = remove-Good limit cs id s h
  confirm-Good id (false, s) h = h

  -- Only the queue of an association changes.
  pub queue-Good :
      (o : ℕ) (x : Association) (q : List (List ℕ)) (s : Associations)
      → get_elem? s.store o ≡ some x
      → Good limit cs s
      → Good limit cs (update o (record x { incoming = q }) s)
  queue-Good o x q s stored h =
      update-Good limit cs o x (record x { incoming = q }) s stored refl refl (λ c k. k)
        (λ k. record {
          registered = k.registered;
          released = k.released;
          unconnected = k.unconnected;
        })
        h

  pub enqueue-Good :
      (payload : List ℕ) (id : ℕ) (found : Option (ℕ × Association)) (s : Associations)
      → association_of id s ≡ found
      → Good limit cs s
      → Good limit cs (enqueue payload found s)
  enqueue-Good payload id none s e h = h
  enqueue-Good payload id (some (o, x)) s e h = ground (
    arith,
    h,
    queue-Good o x (x.incoming ++ payload ∷ []) s (association_of-found id o x s e).1 h,
  )

  pub settled-Good :
      (o : ℕ) (x : Association) (s : Associations)
      → get_elem? s.store o ≡ some x
      → Good limit cs s
      → Good limit cs (update o (record x { dialing = false }) s)
  settled-Good o x s stored h =
      update-Good limit cs o x (record x { dialing = false }) s stored refl refl (λ c k. k)
        (λ k. record {
          registered = k.registered;
          released = k.released;
          unconnected = λ e. absurd (cc e);
        })
        h

  pub give_up-Good :
      (report : Sent) (o : ℕ) (x : Association) (s : Associations)
      → get_elem? s.store o ≡ some x
      → Good limit cs s
      → Good limit cs (give_up report o x s)
  give_up-Good report o x s stored h =
      send-Good limit cs report _ (remove-Good limit cs x.id _ (settled-Good o x s stored h))

  -- A report is a frame.
  module _ (report : ℕ → Failure → Associations → Associations)
      (reports : (id : ℕ) (f : Failure) (t : Associations)
        → Good limit cs t
        → Good limit cs (report id f t)) where
    put-Good :
        (c : Option ℕ) (address content : List ℕ) (s : Associations)
        → Good limit cs s
        → Good limit cs (put c address content s)
    put-Good none address content s h = h
    put-Good (some c) address content s h = record {
      few = h.few;
      named = h.named;
      kept = h.kept;
      held = h.held;
    }

    write_to-Good :
        (fails : Bool) (x : Association) (address content : List ℕ) (s : Associations)
        → Good limit cs s
        → Good limit cs (write_to report fails x address content s)
    write_to-Good true x address content s h = reports x.id _ s h
    write_to-Good false x address content s h = put-Good x.conn address content s h

    resolved-Good :
        (r : Option (List ℕ)) (fails : Bool) (x : Association) (content : List ℕ) (s : Associations)
        → Good limit cs s
        → Good limit cs (elim r [
          | none ↦ report x.id resolve_failed s
          | some address ↦ write_to report fails x address content s
        ])
    resolved-Good none fails x content s h = reports x.id _ s h
    resolved-Good (some address) fails x content s h = write_to-Good fails x address content s h

    pub deliver-Good :
        (direct : Bool) (resolve : List ℕ → Option (List ℕ)) (fails : Bool) (x : Association)
        (target content : List ℕ) (s : Associations)
        → Good limit cs s
        → Good limit cs (deliver report direct resolve fails x target content s)
    deliver-Good true resolve fails x target content s h = write_to-Good fails x target content s h
    deliver-Good false resolve fails x target content s h =
        resolved-Good (resolve target) fails x content s h

  pub remove_each-Good :
      (more : List ℕ) (s : Associations) → Good limit cs s → Good limit cs (remove_each more s)
  unfolding remove_each
  remove_each-Good [] s h = h
  remove_each-Good (id ∷ more) s h =
      remove_each-Good more (remove_datagram id s) (remove-Good limit cs id s h)

  pub shutdown-Good : (s : Associations) → Good limit cs s → Good limit cs (shutdown s)
  unfolding shutdown
  shutdown-Good s h =
      remove_each-Good (map (λ e. e.0) s.registry) (record s { cancelled = true })
        (record { few = h.few; named = h.named; kept = h.kept; held = h.held })

current-fresh :
    (o : ℕ) (x : Association) (s : Associations) → is_current o x s ≡ true → x.done ≡ false
current-fresh o x s e = elim (Bool-cases x.done) [
  | inl d ↦ absurd (ground (arith, d, e))
  | inr d ↦ d
]

module _ (limit : ℕ) (cs : List ℕ) (conn o : ℕ) (x : Association) (s : Associations)
    (stored : get_elem? s.store o ≡ some x) (waits : x.dialing ≡ true) (h : Good limit cs s) where
  connected-Good :
      x.done ≡ false
      → Good limit (cs ++ conn ∷ []) (update o (record x { conn = some conn; dialing = false }) s)
  connected-Good fresh =
      let y : Association = record x { conn = some conn; dialing = false } in
      grow-Good limit conn cs (update o y s)
        (inr (o, (y, get_elem?-set_self s.store o y (get_elem?-some_lt s.store o x stored), refl)))
        (update-Good limit cs o x y s stored refl refl
          (λ c k. absurd (cc (k, (h.kept o x stored).unconnected waits)))
          (λ k. record {
            registered = k.registered;
            released = λ c done has. absurd (cc (done, fresh));
            unconnected = λ e. absurd (cc e);
          })
          h)

  closed-Good :
      Good limit
        (cs ++ conn ∷ [])
        (close_conn (some conn) (update o (record x { dialing = false }) s))
  closed-Good =
      grow-Good limit conn cs (close_conn (some conn) (update o (record x { dialing = false }) s))
        (inl (mem-append_right s.closed_conns mem-cons_self))
        (close_conn-Good limit cs (some conn) (update o (record x { dialing = false }) s)
          (settled-Good limit cs o x s stored h))

  -- The socket of an association that was dialling is held from now on.
  pub keep_conn-Good : (reply : Sent) → Good limit (cs ++ conn ∷ []) (keep_conn reply conn o x s)
  keep_conn-Good reply = elim (Bool-cases (is_current o x s)) [
    | inl e ↦ rw e (
        confirm-Good limit (cs ++ conn ∷ []) x.id _
          (send-Good limit (cs ++ conn ∷ []) reply _ (connected-Good (current-fresh o x s e))))
    | inr e ↦ rw e closed-Good
  ]

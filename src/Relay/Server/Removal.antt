-- ===== src/Relay/Server/Removal.antt =====
-- What removing a stream does: it is finished, and no other is touched.
use wsl_win_relay.Base.{
  ap, subst, ◌∙◌, ℕ, ◌≡◌, ◌≢◌, refl, inl, inr, true, false, List, [], ◌∷◌, ◌++◌, Option, none, some,
  get_elem?, set, sym, arith, All, get_elem?-set_self, get_elem?-set_ne, get_elem?-some_lt,
  Bool-cases, ◌==◌,
}
use wsl_win_relay.Relay.Server.{Stream, Server, lookup, delete, stream_of, close_conn, remove}
use wsl_win_relay.Relay.Server.Registered.{Alive, Serves, stream_of-found}

pub lookup-delete_self : (id : ℕ) (m : List (ℕ × ℕ)) → lookup id (delete id m) ≡ none
unfolding lookup delete
lookup-delete_self id [] = refl
lookup-delete_self id ((k, o) ∷ m) = ground (arith, lookup-delete_self id m)

pub lookup-delete_ne : (id k : ℕ) (m : List (ℕ × ℕ)) → k ≢ id → lookup k (delete id m) ≡ lookup k m
unfolding lookup delete
lookup-delete_ne id k [] h = refl
lookup-delete_ne id k ((j, o) ∷ m) h = ground (arith, lookup-delete_ne id k m h)

pub streams-remove : (id : ℕ) (s : Server) → (remove id s).streams ≡ delete id s.streams
unfolding remove
streams-remove id s = ground arith

lookup-Alive :
    (store : List Stream) (id o : ℕ) (m : List (ℕ × ℕ))
    → lookup id m ≡ some o
    → All (Alive store) m
    → (z : Stream) × (get_elem? store o ≡ some z) × (z.done ≡ false)
unfolding lookup
lookup-Alive store id o [] at h = absurd (cc at)
lookup-Alive store id o ((k, p) ∷ m) at (head, h) = elim (Bool-cases (k == id)) [
  | inl eq ↦ let q : p ≡ o = ground arith in subst (λ i. Alive store (k, i)) q head
  | inr ne ↦ lookup-Alive store id o m (ground arith) h
]

-- A registered stream is not done.
pub found-alive :
    (id o : ℕ) (x : Stream) (s : Server) → Serves s → stream_of id s ≡ some (o, x) → x.done ≡ false
found-alive id o x s h e =
    let (at, stored) = stream_of-found id o x s e in
    let (z, same, fresh) = lookup-Alive s.store id o s.streams at h.alive in
    cc (same, stored, fresh)

-- The stream `x` at `o` is done and its connection closed; the other streams are as they were.
abbrev pub Finishes : ℕ → Stream → Server → Server → Type 0
Finishes o x s s' =
    (get_elem? s'.store o ≡ some (record x { done = true }))
    × ((p : ℕ) → o ≢ p → get_elem? s'.store p ≡ get_elem? s.store p)
    × (s'.closed_conns ≡ (close_conn x.conn s).closed_conns)

-- Closing a connection leaves the streams alone.
closed-Finishes :
    (o : ℕ) (x : Stream) (s t : Server) (conn : Option ℕ)
    → get_elem? t.store o ≡ some (record x { done = true })
    → ((p : ℕ) → o ≢ p → get_elem? t.store p ≡ get_elem? s.store p)
    → (close_conn conn t).closed_conns ≡ (close_conn x.conn s).closed_conns
    → Finishes o x s (close_conn conn t)
closed-Finishes o x s t none at others closed = (at, others, closed)
closed-Finishes o x s t (some c) at others closed = (at, others, closed)

-- closing the same connection in two states
pub closed_conns-same :
    (conn : Option ℕ) (s t : Server)
    → t.closed_conns ≡ s.closed_conns
    → (close_conn conn t).closed_conns ≡ (close_conn conn s).closed_conns
closed_conns-same none s t e = e
closed_conns-same (some c) s t e = ap (λ cs. cs ++ c ∷ []) e

finished :
    (id o : ℕ) (x : Stream) (s : Server)
    → x.done ≡ false
    → get_elem? s.store o ≡ some x
    → stream_of id s ≡ some (o, x)
    → Finishes o x s (remove id s)
unfolding remove
finished id o x s fresh stored e =
    let y : Stream = record x { done = true } in
    let done : remove id s
        ≡ close_conn x.conn (record s { streams = delete id s.streams; store = set s.store o y }) =
      rw (e, fresh, remove) refl in
    subst (Finishes o x s) (sym done) (
      closed-Finishes o x s _ x.conn
        (get_elem?-set_self s.store o y (get_elem?-some_lt s.store o x stored))
        (λ p ne. get_elem?-set_ne s.store o p y ne) (closed_conns-same x.conn s _ refl))

untouched :
    (id : ℕ) (s : Server)
    → stream_of id s ≡ none
    → ((remove id s).store ≡ s.store) × ((remove id s).closed_conns ≡ s.closed_conns)
unfolding remove
untouched id s e = ground (arith, e)

-- Nothing is sent, and no identifier is used up.
quiet :
    (id : ℕ) (s : Server)
    → ((remove id s).next_stream ≡ s.next_stream)
      × ((remove id s).link ≡ s.link)
      × ((remove id s).sent ≡ s.sent)
unfolding remove
quiet id s = ground arith

-- Removing a registered stream takes its identifier out of the registry and no other, marks it as done
-- and no other stream, and closes its connection, if it has one, and no other; where the identifier
-- names no stream, no stream is touched and no connection closed. In each case nothing is sent, and the
-- numbering of streams goes on as before.
pub remove_exact :
    (id : ℕ) (s : Server)
    → Serves s
    → (lookup id (remove id s).streams ≡ none)
      × ((k : ℕ) → k ≢ id → lookup k (remove id s).streams ≡ lookup k s.streams)
      × ((o : ℕ) (x : Stream) → stream_of id s ≡ some (o, x) → Finishes o x s (remove id s))
      × (stream_of id s ≡ none
          → ((remove id s).store ≡ s.store) × ((remove id s).closed_conns ≡ s.closed_conns))
      × ((remove id s).next_stream ≡ s.next_stream)
      × ((remove id s).link ≡ s.link)
      × ((remove id s).sent ≡ s.sent)
remove_exact id s h = (
  ap (lookup id) (streams-remove id s) ∙ lookup-delete_self id s.streams,
  λ k ne. ap (lookup k) (streams-remove id s) ∙ lookup-delete_ne id k s.streams ne,
  λ o x e. finished id o x s (found-alive id o x s h e) (stream_of-found id o x s e).1 e,
  λ e. untouched id s e,
  (quiet id s).0,
  (quiet id s).1,
  (quiet id s).2,
)

-- ===== src/Relay/Server/Registered.antt =====
-- The registry of the server's streams: what registering, updating and removing a stream keep.
use wsl_win_relay.Base.{
  ℕ, ◌≤◌, ◌<◌, ◌≡◌, refl, ap, sym, subst, ◌∙◌, inl, inr, true, false, List, [], ◌∷◌, ◌++◌, Option,
  some, length, get_elem?, set, arith, All, All-append, All-set, All-get_elem?, length-append,
  length-set, get_elem?-set_self, get_elem?-set_ne, get_elem?-append_left, get_elem?-append_length,
  get_elem?-some_lt, Bool-cases, Option-cases, ◌==◌,
}
use wsl_win_relay.Relay.Window.Laws.{IsBounded}
use wsl_win_relay.Relay.Server.{
  max_concurrent_streams, queue_size, Stream, Server, new_stream, lookup, delete, stream_of, update,
  remove, register,
}

-- Each stream of the registry was made before those in front of it, and the first before `bound`.
abbrev pub Older : ℕ → List (ℕ × ℕ) → Type 0
Older bound [] = Unit
Older bound (e ∷ m) = (e.1 < bound) × Older e.1 m

abbrev pub Alive : List Stream → ℕ × ℕ → Type 0
Alive store e = (x : Stream) × (get_elem? store e.1 ≡ some x) × (x.done ≡ false)

abbrev pub Sane : Stream → Type 0
Sane x = (length x.incoming ≤ queue_size) × IsBounded x.send_window

-- The registry is within its limit, its streams are different, stored and not done; every stream's
-- queue and window are within their bounds.
pub record IsServing (streams : List (ℕ × ℕ)) (store : List Stream) : Type 0 where
  pub few : length streams ≤ max_concurrent_streams
  pub older : Older (length store) streams
  pub alive : All (Alive store) streams
  pub sane : All Sane store

abbrev pub Serves : Server → Type 0
Serves s = IsServing s.streams s.store

Older-mono : (low bound : ℕ) (m : List (ℕ × ℕ)) → low ≤ bound → Older low m → Older bound m
Older-mono low bound [] h o = tt
Older-mono low bound (e ∷ m) h o = (omega arith, o.1)

module _ (store : List Stream) (o : ℕ) (y : Stream) where
  set-Alive :
      (x : Stream)
      → get_elem? store o ≡ some x
      → y.done ≡ x.done
      → (m : List (ℕ × ℕ)) → All (Alive store) m
      → All (Alive (set store o y)) m
  set-Alive x at same [] h = tt
  set-Alive x at same ((k, p) ∷ m) ((z, e, fresh), h) = (
    elim (Bool-cases (o == p)) [
      | inl eq ↦
          let q : o ≡ p = ground arith in
          (
            y,
            ap (λ i. get_elem? (set store o y) i) (sym q)
                ∙ get_elem?-set_self store o y (get_elem?-some_lt store o x at),
            cc (ap (λ i. get_elem? store i) q, at, e, same, fresh),
          )
      | inr ne ↦ (z, get_elem?-set_ne store o p y (λ q. ground arith) ∙ e, fresh)
    ],
    set-Alive x at same m h,
  )

  -- Streams that are older than `o` are not touched.
  set-Alive-Older :
      (m : List (ℕ × ℕ)) → Older o m → All (Alive store) m → All (Alive (set store o y)) m
  set-Alive-Older [] old h = tt
  set-Alive-Older ((k, p) ∷ m) old ((z, e, fresh), h) = (
    (z, get_elem?-set_ne store o p y (λ q. omega arith) ∙ e, fresh),
    set-Alive-Older m (Older-mono p o m (omega (arith, old.0)) old.1) h,
  )

append-Alive :
    (store : List Stream) (x : Stream) (m : List (ℕ × ℕ))
    → All (Alive store) m
    → All (Alive (store ++ x ∷ [])) m
append-Alive store x [] h = tt
append-Alive store x (e ∷ m) ((z, at, fresh), h) = (
  (z, get_elem?-append_left store (x ∷ []) e.1 (get_elem?-some_lt store e.1 z at) ∙ at, fresh),
  append-Alive store x m h,
)

pub update-Serves :
    (o : ℕ) (x y : Stream) (s : Server)
    → get_elem? s.store o ≡ some x
    → y.done ≡ x.done
    → (Sane x → Sane y)
    → Serves s
    → Serves (update o y s)
update-Serves o x y s at same sane h = record {
  few = h.few;
  older = Older-mono (length s.store) _ s.streams (omega (arith, length-set s.store o y)) h.older;
  alive = set-Alive s.store o y x at same s.streams h.alive;
  sane = All-set Sane s.store o y (sane (All-get_elem? Sane s.store o x h.sane at)) h.sane;
}

pub register-Serves :
    (id : ℕ) (conn : Option ℕ) (s : Server)
    → length s.streams < max_concurrent_streams
    → Serves s
    → Serves (register id conn s)
register-Serves id conn s room h = record {
  few = omega arith;
  older = (omega (arith, length-append s.store (new_stream conn ∷ [])), h.older);
  alive = (
    (new_stream conn, get_elem?-append_length s.store (new_stream conn), refl),
    append-Alive s.store (new_stream conn) s.streams h.alive,
  );
  sane = All-append Sane s.store (new_stream conn ∷ []) h.sane ((omega arith, omega arith), tt);
}

lookup-Older :
    (id bound o : ℕ) (m : List (ℕ × ℕ)) → Older bound m → lookup id m ≡ some o → o < bound
unfolding lookup
lookup-Older id bound o [] old h = absurd (cc h)
lookup-Older id bound o ((k, p) ∷ m) old h = ground (arith, lookup-Older id p o m old.1)

delete-Older : (id bound : ℕ) (m : List (ℕ × ℕ)) → Older bound m → Older bound (delete id m)
unfolding delete
delete-Older id bound [] old = tt
delete-Older id bound ((k, p) ∷ m) old = ground (
  arith,
  delete-Older id p m old.1,
  Older-mono p bound (delete id m) (omega (arith, old.0)) (delete-Older id p m old.1),
)

pub length-delete_le : (id : ℕ) (m : List (ℕ × ℕ)) → length (delete id m) ≤ length m
unfolding delete
length-delete_le id [] = omega arith
length-delete_le id ((k, p) ∷ m) = ground (arith, length-delete_le id m)

module _ {κ} (P : ℕ × ℕ → Type κ) where
  delete-All : (id : ℕ) (m : List (ℕ × ℕ)) → All P m → All P (delete id m)
  unfolding delete
  delete-All id [] h = tt
  delete-All id ((k, p) ∷ m) h = ground (arith, h, delete-All id m h.1)

delete-set-Alive :
    (store : List Stream) (id o bound : ℕ) (y : Stream) (m : List (ℕ × ℕ))
    → Older bound m
    → lookup id m ≡ some o
    → All (Alive store) m
    → All (Alive (set store o y)) (delete id m)
unfolding delete lookup
delete-set-Alive store id o bound y [] old at h = tt
delete-set-Alive store id o bound y ((k, p) ∷ m) old at ((z, e, fresh), h) =
    elim (Bool-cases (k == id)) [
      | inl eq ↦
          let q : p ≡ o = ground arith in
          rw eq (
            set-Alive-Older store o y (delete id m)
              (subst (λ i. Older i (delete id m)) q (delete-Older id p m old.1))
              (delete-All (Alive store) id m h))
      | inr ne ↦
          let later : lookup id m ≡ some o = ground arith in
          let lt = lookup-Older id p o m old.1 later in
          rw ne (
            (z, get_elem?-set_ne store o p y (λ q. omega arith) ∙ e, fresh),
            delete-set-Alive store id o p y m old.1 later h,
          )
    ]

-- What `stream_of` finds.
pub stream_of-found :
    (id o : ℕ) (x : Stream) (s : Server)
    → stream_of id s ≡ some (o, x)
    → (lookup id s.streams ≡ some o) × (get_elem? s.store o ≡ some x)
unfolding stream_of
stream_of-found id o x s h = ground arith

deleted-Serves : (id : ℕ) (s : Server) → Serves s → IsServing (delete id s.streams) s.store
deleted-Serves id s h = record {
  few = omega (arith, h.few, length-delete_le id s.streams);
  older = delete-Older id (length s.store) s.streams h.older;
  alive = delete-All (Alive s.store) id s.streams h.alive;
  sane = h.sane;
}

finished-Serves :
    (id o : ℕ) (x : Stream) (s : Server)
    → lookup id s.streams ≡ some o
    → get_elem? s.store o ≡ some x
    → Serves s
    → IsServing (delete id s.streams) (set s.store o (record x { done = true }))
finished-Serves id o x s at stored h = record {
  few = omega (arith, h.few, length-delete_le id s.streams);
  older =
      Older-mono (length s.store) _ (delete id s.streams)
        (omega (arith, length-set s.store o (record x { done = true })))
        (delete-Older id (length s.store) s.streams h.older);
  alive =
      delete-set-Alive s.store id o (length s.store) (record x { done = true }) s.streams h.older at
        h.alive;
  sane = All-set Sane s.store o _ (All-get_elem? Sane s.store o x h.sane stored) h.sane;
}

pub remove-Serves : (id : ℕ) (s : Server) → Serves s → Serves (remove id s)
unfolding remove
remove-Serves id s h = elim (Option-cases (stream_of id s)) [
  | inl e ↦ rw (e, remove) (deleted-Serves id s h)
  | inr ((o, x), e) ↦
      let (at, stored) = stream_of-found id o x s e in
      ground (arith, e, deleted-Serves id s h, finished-Serves id o x s at stored h)
]

-- ===== src/Relay/Server/Overflow.antt =====
-- The receive queue counts frames, the window counts bytes: what happens when they disagree.
use wsl_win_relay.Base.{
  get_elem?, Option, All-get_elem?, subst, sym, ℕ, ◌+◌, ◌<◌, ◌≡◌, refl, ap, ◌∙◌, inl, inr, false,
  List, [], ◌∷◌, ◌++◌, map, none, some, length, arith, ltb, length-append, get_elem?-set_self,
  get_elem?-some_lt, Bool-cases,
}
use mathlib.Core.Path.{ap₂}
use wsl_win_relay.Protocol.Frame.{type_reset}
use wsl_win_relay.Relay.Server.{
  queue_size, content, Stream, Server, Sent, failure, receive_window_exceeded, lookup, stream_of,
  update, close_conn, remove, reset, send,
}
use wsl_win_relay.Relay.Server.Steps.{Step, receives_data, accept_data, step, steps}
use wsl_win_relay.Relay.Server.Registered.{Sane, Serves, stream_of-found}
use wsl_win_relay.Relay.Server.Limits.{accept_data-Serves}
use wsl_win_relay.Relay.Server.Removal.{
  found-alive, closed_conns-same, lookup-delete_self, streams-remove,
}

abbrev pub arrivals : ℕ → List (List ℕ) → List Step
arrivals id chunks = map (λ c. receives_data id c) chunks

-- The identifier names no stream any more, a RESET with the reason has been sent and nothing else, and
-- the connection of `x` is closed, if it has one.
abbrev pub IsReset : ℕ → Stream → Server → Server → Type 0
IsReset id x s s' =
    (lookup id s'.streams ≡ none)
    × (s'.sent ≡ s.sent ++ failure type_reset id receive_window_exceeded ∷ [])
    × (s'.closed_conns ≡ (close_conn x.conn s).closed_conns)

unknown_step :
    (id : ℕ) (bytes : List ℕ) (s : Server)
    → lookup id s.streams ≡ none
    → step s (receives_data id bytes) ≡ s
unfolding step stream_of
unknown_step id bytes s h = rw (h, stream_of, step) refl

-- Frames for an identifier that names no stream change nothing.
unknown_steps :
    (id : ℕ) (chunks : List (List ℕ)) (s : Server)
    → lookup id s.streams ≡ none
    → steps s (arrivals id chunks) ≡ s
unfolding steps
unknown_steps id [] s h = refl
unknown_steps id (c ∷ cs) s h =
    ap (λ t. steps t (arrivals id cs)) (unknown_step id c s h) ∙ unknown_steps id cs s h

send-works :
    (f : Sent) (s : Server)
    → s.link ≡ []
    → ((send f s).1.sent ≡ s.sent ++ f ∷ [])
      × ((send f s).1.streams ≡ s.streams)
      × ((send f s).1.store ≡ s.store)
      × ((send f s).1.closed_conns ≡ s.closed_conns)
unfolding send
send-works f s works = rw (works, send) (refl, refl, refl, refl)

stream_of-same :
    (id : ℕ) (s t : Server)
    → t.streams ≡ s.streams
    → t.store ≡ s.store
    → stream_of id t ≡ stream_of id s
unfolding stream_of
stream_of-same id s t e e' =
    ap₂
      (λ (m : List (ℕ × ℕ)) (store : List Stream).
        elim (lookup id m) as (λ _. Option (ℕ × Stream)) [
          | none ↦ none
          | some o ↦ elim (get_elem? store o) as (λ _. Option (ℕ × Stream)) [
            | none ↦ none
            | some x ↦ some (o, x)
          ]
        ])
      e e'

removed :
    (id o : ℕ) (x : Stream) (s : Server)
    → stream_of id s ≡ some (o, x)
    → x.done ≡ false
    → ((remove id s).sent ≡ s.sent)
      × ((remove id s).closed_conns ≡ (close_conn x.conn s).closed_conns)
unfolding remove
removed id o x s e fresh = ground (arith, e, fresh)

full_resets :
    (id o : ℕ) (bytes : List ℕ) (x : Stream) (s : Server)
    → stream_of id s ≡ some (o, x)
    → s.link ≡ []
    → ltb (length x.incoming) queue_size ≡ false
    → x.done ≡ false
    → IsReset id x s (accept_data id bytes (some (o, x)) s)
unfolding reset
full_resets id o bytes x s e works full fresh =
    let told : Server = (send (failure type_reset id receive_window_exceeded) s).1 in
    let (added, streams, store, conns) =
      send-works (failure type_reset id receive_window_exceeded) s works in
    let (sent, closed) = removed id o x told (stream_of-same id s told streams store ∙ e) fresh in
    rw (full, fresh)
      (
        ap (lookup id) (streams-remove id told) ∙ lookup-delete_self id told.streams,
        sent ∙ added,
        closed ∙ closed_conns-same x.conn s told conns,
      )

pushed :
    (id o : ℕ) (x y : Stream) (s : Server)
    → stream_of id s ≡ some (o, x)
    → stream_of id (update o y s) ≡ some (o, y)
unfolding stream_of
pushed id o x y s e =
    let (at, stored) = stream_of-found id o x s e in
    rw (at, stream_of, get_elem?-set_self s.store o y (get_elem?-some_lt s.store o x stored))

-- The receive queue of a stream counts frames and not bytes. Where more DATA frames arrive for a
-- registered stream than its queue of ten has room for, before the remote socket takes any, and the
-- link works, the stream is reset, however few bytes they carry: the server sends one RESET, that the
-- receive window is exceeded, and no other frame, closes the connection, and has no stream of that
-- identifier any more.
pub overflow_resets :
    (id o : ℕ) (x : Stream) (chunks : List (List ℕ)) (s : Server)
    → Serves s
    → stream_of id s ≡ some (o, x)
    → s.link ≡ []
    → queue_size < length x.incoming + length chunks
    → IsReset id x s (steps s (arrivals id chunks))
unfolding steps step
overflow_resets id o x [] s h e works many =
    absurd (omega (arith, (All-get_elem? Sane s.store o x h.sane (stream_of-found id o x s e).1).0))
overflow_resets id o x (c ∷ cs) s h e works many =
    elim (Bool-cases (ltb (length x.incoming) queue_size)) [
      | inl room ↦
          let y : Stream = record x { incoming = x.incoming ++ content c ∷ [] } in
          let same : accept_data id c (stream_of id s) s ≡ update o y s = rw (e, room) refl in
          let (gone, sent, closed) =
            overflow_resets id o y cs (update o y s)
              (subst Serves same (accept_data-Serves id c (stream_of id s) s refl h))
              (pushed id o x y s e) works
              (omega (arith, many, length-append x.incoming (content c ∷ []))) in
          subst (λ t. IsReset id x s (steps t (arrivals id cs))) (sym same)
            (gone, sent, closed ∙ closed_conns-same x.conn s (update o y s) refl)
      | inr full ↦
          let r = full_resets id o c x s e works full (found-alive id o x s h e) in
          subst (λ f. IsReset id x s (steps (accept_data id c f s) (arrivals id cs))) (sym e)
            (subst (IsReset id x s) (sym (unknown_steps id cs _ r.0)) r)
    ]

-- ===== src/Relay/Server/Listeners/Accepted.antt =====
-- What becomes of an accepted connection.
use wsl_win_relay.Base.{
  ℕ, ◌+◌, ◌%◌, ◌^◌, ◌≡◌, refl, ◌⊎◌, inl, inr, Bool, true, false, List, [], ◌∷◌, ◌++◌, none, some,
  length, get_elem?, arith, put_uint32, leb, Bool-cases, Option-cases, get_elem?-append_length,
}
use wsl_win_relay.Protocol.Frame.{type_inbound_open}
use wsl_win_relay.Relay.Server.{
  max_concurrent_streams, Sent, frame, Server, new_stream, lookup, delete, send, remove, stream_of,
  register, register_inbound,
}
use wsl_win_relay.Relay.Server.Listeners.{announced, accept}

delete-free : (id : ℕ) (m : List (ℕ × ℕ)) → lookup id m ≡ none → delete id m ≡ m
unfolding lookup delete
delete-free id [] e = refl
delete-free id ((k, o) ∷ m) e = ground (arith, e, delete-free id m)

-- The stream of an accepted connection is registered, and its opening is the last frame sent.
abbrev pub IsAnnounced : ℕ → ℕ → Server → Server → Type 0
IsAnnounced id conn s s' =
    (stream : ℕ) × (s'.streams ≡ (stream, length s.store) ∷ s.streams)
    × (lookup stream s.streams ≡ none)
    × (get_elem? s'.store (length s.store) ≡ some (new_stream (some conn)))
    × (s'.sent ≡ s.sent ++ frame type_inbound_open stream (put_uint32 id) ∷ [])
    × (s'.closed_conns ≡ s.closed_conns)

abbrev pub IsRefused : ℕ → Server → Server → Type 0
IsRefused conn s s' =
    (s'.streams ≡ s.streams) × (s'.sent ≡ s.sent) × (s'.closed_conns ≡ s.closed_conns ++ conn ∷ [])

abbrev pub Outcome : ℕ → ℕ → Server → Bool × Server → Type 0
Outcome id conn s (returns, s') = (returns ≡ false) × IsAnnounced id conn s s' ⊎ IsRefused conn s s'

module _ (id conn stream : ℕ) (s : Server) (free : lookup stream s.streams ≡ none) where
  registered : Server
  registered = register stream (some conn) (record s { next_stream = stream })

  open_frame : Sent
  open_frame = frame type_inbound_open stream (put_uint32 id)

  remove-IsRefused :
      (link : List Bool) → IsRefused conn s (remove stream (record registered { link = link }))
  unfolding remove stream_of lookup delete registered
  remove-IsRefused link = ground (
    arith,
    delete-free stream s.streams free,
    get_elem?-append_length s.store (new_stream (some conn)),
  )

  registered-IsAnnounced :
      (link : List Bool)
      → IsAnnounced id conn s (record registered { link = link; sent = s.sent ++ open_frame ∷ [] })
  unfolding registered open_frame
  registered-IsAnnounced link =
      (stream, refl, free, get_elem?-append_length s.store (new_stream (some conn)), refl, refl)

  announced-Outcome :
      (link : List Bool)
      → s.link ≡ link
      → Outcome id conn s (announced stream (send open_frame registered))
  unfolding send registered open_frame
  announced-Outcome [] e = rw (e, send) (inl (refl, registered-IsAnnounced []))
  announced-Outcome (true ∷ link) e = rw (e, send) (inr (remove-IsRefused link))
  announced-Outcome (false ∷ link) e = rw (e, send) (inl (refl, registered-IsAnnounced link))

-- A connection that a listener accepts is either registered as a stream under an identifier that was
-- free, with its socket, and the last frame sent is its INBOUND_OPEN with the listener's identifier,
-- or it is closed, the registry of streams is as before, and no frame was sent. This holds also when
-- there are too many streams, when the next identifier is taken, and when the sending fails.
pub accept_exact : (id conn : ℕ) (s : Server) → Outcome id conn s (accept id conn s)
unfolding accept register_inbound registered open_frame
accept_exact id conn s = elim (Bool-cases (leb max_concurrent_streams (length s.streams))) [
  | inl full ↦ rw (full, accept, register_inbound) (inr (refl, refl, refl))
  | inr room ↦
      let stream = (s.next_stream + 2) % 2 ^ 32 in
      elim (Option-cases (lookup stream s.streams)) [
        | inl free ↦
            rw (room, free, accept, register_inbound)
              (announced-Outcome id conn stream s free s.link refl)
        | inr (o, taken) ↦ rw (room, taken, accept, register_inbound) (inr (refl, refl, refl))
      ]
]

-- ===== src/Relay/Server/Examples.antt =====
-- The theorems on the server's streams at concrete servers.
use wsl_win_relay.Base.{
  ℕ, ◌≡◌, ◌≢◌, refl, false, List, [], ◌∷◌, none, some, arith, put_uint32, uint32, map,
}
use wsl_win_relay.Protocol.Payload.{decode_window_update}
use wsl_win_relay.Relay.Window.{add, take}
use wsl_win_relay.Relay.Server.{
  register_inbound, send, Stream, Server, new_server, new_stream, lookup, stream_of, remove,
}
use wsl_win_relay.Relay.Server.Steps.{
  Step, opens, dials, accepts, receives_data, receives_close, receives_update, takes_credit, copies,
  writes, steps, step, copy_data,
}
use wsl_win_relay.Relay.Server.Registered.{Serves}
use wsl_win_relay.Relay.Server.Bounded.{steps-new-Serves}
use wsl_win_relay.Relay.Server.Removal.{Finishes, remove_exact}
use wsl_win_relay.Relay.Server.Overflow.{arrivals, IsReset, overflow_resets}

-- A stream is opened, its dial succeeds, data comes and is written, an answer is copied and acknowledged, another one is accepted and closed.
abbrev busy : List Step
busy =
    opens 7 (b'h' ∷ [])
    ∷ dials 7 (some 3)
    ∷ receives_data 7 (1 ∷ 2 ∷ [])
    ∷ writes 7 0 ((2, false) ∷ [])
    ∷ takes_credit 0 3 false
    ∷ copies 7 (1 ∷ 2 ∷ 3 ∷ [])
    ∷ receives_update 7 (put_uint32 3)
    ∷ accepts 4
    ∷ receives_close 2
    ∷ []

steps-new-Serves_example : Serves (steps (new_server (false ∷ false ∷ [])) busy)
steps-new-Serves_example = steps-new-Serves (false ∷ false ∷ []) busy

-- Credit that is taken is missing from the window, and an update for it is accepted.
abbrev copied : Server
copied = steps (new_server []) (accepts 4 ∷ takes_credit 0 3 false ∷ copies 2 (1 ∷ 2 ∷ 3 ∷ []) ∷ [])

credit_taken :
    (map (λ x. x.send_window.available) copied.store ≡ 262141 ∷ [])
    × (map (λ x. x.send_window.available) (step copied (receives_update 2 (put_uint32 3))).store
        ≡ 262144 ∷ [])
unfolding steps step register_inbound lookup copy_data send take add stream_of decode_window_update
    put_uint32 uint32
credit_taken = (refl, refl)

-- one accepted connection, on stream 2
abbrev serving : Server
serving = record (new_server []) {
  streams = (2, 0) ∷ [];
  store = new_stream (some 3) ∷ [];
  next_stream = 2;
}

serving-Serves : Serves serving
serving-Serves = record {
  few = omega arith;
  older = (omega arith, tt);
  alive = ((new_stream (some 3), refl, refl), tt);
  sane = ((omega arith, omega arith), tt);
}

remove_exact_example :
    (lookup 2 (remove 2 serving).streams ≡ none)
    × ((k : ℕ) → k ≢ 2 → lookup k (remove 2 serving).streams ≡ lookup k serving.streams)
    × ((o : ℕ) (x : Stream)
        → stream_of 2 serving ≡ some (o, x)
        → Finishes o x serving (remove 2 serving))
    × (stream_of 2 serving ≡ none
        → ((remove 2 serving).store ≡ serving.store)
          × ((remove 2 serving).closed_conns ≡ serving.closed_conns))
    × ((remove 2 serving).next_stream ≡ 2)
    × ((remove 2 serving).link ≡ [])
    × ((remove 2 serving).sent ≡ [])
remove_exact_example = remove_exact 2 serving serving-Serves

abbrev eleven : List (List ℕ)
eleven =
    (1 ∷ [])
    ∷ (1 ∷ [])
    ∷ (1 ∷ [])
    ∷ (1 ∷ [])
    ∷ (1 ∷ [])
    ∷ (1 ∷ [])
    ∷ (1 ∷ [])
    ∷ (1 ∷ [])
    ∷ (1 ∷ [])
    ∷ (1 ∷ [])
    ∷ (1 ∷ [])
    ∷ []

serving-stream : stream_of 2 serving ≡ some (0, new_stream (some 3))
unfolding stream_of
serving-stream = refl

overflow_resets_example :
    IsReset 2 (new_stream (some 3)) serving (steps serving (arrivals 2 eleven))
overflow_resets_example =
    overflow_resets 2 0 (new_stream (some 3)) eleven serving serving-Serves serving-stream refl
      (omega arith)

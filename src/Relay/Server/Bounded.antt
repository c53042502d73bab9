-- ===== src/Relay/Server/Bounded.antt =====
-- The limits of the server's streams hold through all steps.
use wsl_win_relay.Base.{
  map, if◌then◌else◌, ℕ, ◌≡◌, refl, Bool, true, false, List, [], ◌∷◌, Option, none, some, get_elem?,
  arith,
}
use wsl_win_relay.Protocol.Frame.{type_half_close}
use wsl_win_relay.Relay.Server.{
  remove, frame, StreamEvent, content, half_close, Stream, Server, new_server, update, reset,
  stream_of, close_write_failed,
}
use wsl_win_relay.Relay.Server.Steps.{
  remove_all, shutdown, shuts_down, Step, opens, dials, accepts, receives_data, receives_half_close,
  receives_close, receives_update, writes, half_closes, takes_credit, copies, copies_end,
  write_remote, write_event, half_close_event, step, steps,
}
use wsl_win_relay.Relay.Server.Registered.{Serves, update-Serves, remove-Serves}
use wsl_win_relay.Relay.Server.Limits.{
  reset-Serves, send-Serves, credit_event-Serves, copy_data-Serves, open_stream-Serves,
  dialed-Serves, register_inbound-Serves, accept_data-Serves, accept_half_close-Serves,
  accept_update-Serves, write_remote-Serves,
}

-- Taking the first event out of a queue.
pop-Serves :
    (o : ℕ) (x : Stream) (e : StreamEvent) (rest : List StreamEvent) (s : Server)
    → get_elem? s.store o ≡ some x
    → x.incoming ≡ e ∷ rest
    → Serves s
    → Serves (update o (record x { incoming = rest }) s)
pop-Serves o x e rest s stored at h =
    update-Serves o x (record x { incoming = rest }) s stored refl
      (λ k. (ground (arith, at, k.0), k.1)) h

write_event-Serves :
    (id o : ℕ) (answers : List (ℕ × Bool)) (s : Server)
    → Serves s
    → Serves (write_event id o answers (get_elem? s.store o) s)
write_event-Serves id o answers s h = from (get_elem? s.store o) refl
  where
    taken :
        (x : Stream) (q : List StreamEvent)
        → get_elem? s.store o ≡ some x
        → x.incoming ≡ q
        → Serves (elim q [
          | [] ↦ s
          | half_close ∷ rest ↦ s
          | content bytes ∷ rest ↦
              (write_remote id bytes answers (update o (record x { incoming = rest }) s)).1
        ])
    taken x [] stored at = h
    taken x (half_close ∷ rest) stored at = h
    taken x (content bytes ∷ rest) stored at =
        write_remote-Serves id bytes answers _ (pop-Serves o x (content bytes) rest s stored at h)

    from :
        (found : Option Stream)
        → get_elem? s.store o ≡ found
        → Serves (write_event id o answers found s)
    from none e = h
    from (some x) e = taken x x.incoming e refl

half_close_event-Serves :
    (id o : ℕ) (fails : Bool) (s : Server)
    → Serves s
    → Serves (half_close_event id o fails (get_elem? s.store o) s)
half_close_event-Serves id o fails s h = from (get_elem? s.store o) refl
  where
    either :
        (b : Bool) (t : Server) → Serves t → Serves (if b then reset id close_write_failed t else t)
    either true t k = reset-Serves id close_write_failed t k
    either false t k = k

    taken :
        (x : Stream) (q : List StreamEvent)
        → get_elem? s.store o ≡ some x
        → x.incoming ≡ q
        → Serves (elim q [
          | [] ↦ s
          | content bytes ∷ rest ↦ s
          | half_close ∷ rest ↦
              if fails
              then reset id close_write_failed (update o (record x { incoming = rest }) s)
              else update o (record x { incoming = rest }) s
        ])
    taken x [] stored at = h
    taken x (content bytes ∷ rest) stored at = h
    taken x (half_close ∷ rest) stored at =
        either fails _ (pop-Serves o x half_close rest s stored at h)

    from :
        (found : Option Stream)
        → get_elem? s.store o ≡ found
        → Serves (half_close_event id o fails found s)
    from none e = h
    from (some x) e = taken x x.incoming e refl

remove_all-Serves : (more : List ℕ) (s : Server) → Serves s → Serves (remove_all more s)
unfolding remove_all
remove_all-Serves [] s h = h
remove_all-Serves (id ∷ more) s h = remove_all-Serves more (remove id s) (remove-Serves id s h)

step-Serves : (x : Step) (s : Server) → Serves s → Serves (step s x)
unfolding step shutdown
step-Serves (opens id target) s h = open_stream-Serves id target s h
step-Serves (dials id conn) s h = dialed-Serves id conn s h
step-Serves (accepts conn) s h = register_inbound-Serves conn s h
step-Serves (receives_data id bytes) s h = accept_data-Serves id bytes (stream_of id s) s refl h
step-Serves (receives_half_close id) s h = accept_half_close-Serves id (stream_of id s) s refl h
step-Serves (receives_update id payload) s h =
    accept_update-Serves id payload (stream_of id s) s refl h
step-Serves (receives_close id) s h = remove-Serves id s h
step-Serves (writes id o answers) s h = write_event-Serves id o answers s h
step-Serves (half_closes id o fails) s h = half_close_event-Serves id o fails s h
step-Serves (takes_credit o n woken) s h =
    credit_event-Serves o n woken (get_elem? s.store o) s refl h
step-Serves (copies id bytes) s h = copy_data-Serves id bytes s h
step-Serves (copies_end id) s h = send-Serves (frame type_half_close id []) s h
step-Serves shuts_down s h = remove_all-Serves (map (λ e. e.0) s.streams) s h

steps-Serves : (xs : List Step) (s : Server) → Serves s → Serves (steps s xs)
unfolding steps
steps-Serves [] s h = h
steps-Serves (x ∷ xs) s h = steps-Serves xs (step s x) (step-Serves x s h)

-- Whatever frames come, connections are accepted or dialled, sockets answer, and credit is taken and
-- bytes are copied to the client, in whatever order, and whichever of the server's frames fail: at most 512 streams are registered, they are different
-- streams that are stored and not done, no stream queues more than 10 events, and no window holds
-- more credit than a new one.
pub steps-new-Serves : (link : List Bool) (xs : List Step) → Serves (steps (new_server link) xs)
steps-new-Serves link xs =
    steps-Serves xs (new_server link)
      (record { few = omega arith; older = tt; alive = tt; sane = tt })

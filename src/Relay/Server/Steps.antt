-- ===== src/Relay/Server/Steps.antt =====
-- internal/relay/server.go: what the frames of the client, the goroutines of the streams and accepted
-- connections do to the streams of the server, as steps.
use wsl_win_relay.Base.{
  map, ℕ, zero, suc, Bool, true, false, List, [], ◌∷◌, ◌++◌, Option, none, some, ltb, if◌then◌else◌,
  length, get_elem?, drop,
}
use wsl_win_relay.Protocol.Frame.{type_data, type_half_close, type_window_update}
use wsl_win_relay.Protocol.Payload.{encode_window_update, decode_window_update}
use wsl_win_relay.Relay.Window.{FlowWindow, add, wake, wait}
use wsl_win_relay.Relay.Window.{take as take_window}
use wsl_win_relay.Relay.Server.{
  queue_size, content, half_close, Stream, receive_window_exceeded, bad_window_update, write_failed,
  short_write, close_write_failed, frame, Server, update, send, remove, reset, stream_of, confirm,
  open_stream, dialed, register_inbound,
}

-- `case protocol.TypeData`: the channel takes the bytes if it has room.
abbrev pub accept_data : ℕ → List ℕ → Option (ℕ × Stream) → Server → Server
accept_data id bytes none s = s
accept_data id bytes (some (o, x)) s =
    if ltb (length x.incoming) queue_size
    then update o (record x { incoming = x.incoming ++ content bytes ∷ [] }) s
    else if x.done
    then s
    else reset id receive_window_exceeded s

-- `case protocol.TypeHalfClose`, once the channel has room: it waits for that.
abbrev pub accept_half_close : Option (ℕ × Stream) → Server → Server
accept_half_close none s = s
accept_half_close (some (o, x)) s =
    if ltb (length x.incoming) queue_size
    then update o (record x { incoming = x.incoming ++ half_close ∷ [] }) s
    else s

abbrev pub credited : ℕ → ℕ → Stream → Bool × FlowWindow → Server → Server
credited id o x (true, w) s = update o (record x { send_window = w }) s
credited id o x (false, w) s = reset id bad_window_update s

-- `case protocol.TypeWindowUpdate`
abbrev pub accept_update : ℕ → List ℕ → Option (ℕ × Stream) → Server → Server
accept_update id payload none s = s
accept_update id payload (some (o, x)) s =
    credited id o x (add (decode_window_update payload) x.send_window) s

-- What writeToRemote has read from the channel, and what the remote socket answers: counts of
-- bytes, and whether an error came with them. `writing` is no return: the answers are used up.
pub data WriteEnd : Type 0 where
  written removed writing : WriteEnd

abbrev pub after_count : ℕ → Bool → (Server → WriteEnd × Server) → ℕ → Server → WriteEnd × Server
after_count id true next count s = (removed, reset id write_failed s)
after_count id false next zero s = (removed, reset id short_write s)
after_count id false next (suc count) s = next s

abbrev pub after_ack : ℕ → (Server → WriteEnd × Server) → Bool × Server → WriteEnd × Server
after_ack id next (true, s) = (removed, remove id s)
after_ack id next (false, s) = next s

abbrev pub acknowledge_count : ℕ → ℕ → (Server → WriteEnd × Server) → Server → WriteEnd × Server
acknowledge_count id zero next s = next s
acknowledge_count id (suc count) next s =
    after_ack id next (send (frame type_window_update id (encode_window_update (suc count))) s)

-- the inner loop of writeToRemote
unfoldable pub write_remote : ℕ → List ℕ → List (ℕ × Bool) → Server → WriteEnd × Server
unfolding remove reset send
write_remote id [] answers s = (written, s)
write_remote id (b ∷ bs) [] s = (writing, s)
write_remote id (b ∷ bs) ((count, failed) ∷ answers) s =
    let next = write_remote id (drop count (b ∷ bs)) answers in
    acknowledge_count id count (after_count id failed next count) s

-- The credit that copyToClient takes for the bytes that it has read: at once, or, where it has found
-- none, when it is woken. Without credit it waits on.
abbrev pub take_credit : ℕ → Bool → FlowWindow → FlowWindow
take_credit n false w = (take_window n false [] w).1
take_credit n true w = (wait n false (wake ∷ []) w).1

abbrev pub credit_event : ℕ → ℕ → Bool → Option Stream → Server → Server
credit_event o n woken none s = s
credit_event o n woken (some x) s =
    update o (record x { send_window = take_credit n woken x.send_window }) s

-- and what it does with the bytes then
unfoldable pub copy_data : ℕ → List ℕ → Server → Server
unfolding send remove
copy_data id bytes s = confirm id (send (frame type_data id bytes) s)

-- One step of the server: a frame of the client, a goroutine that goes on, or a connection that is
-- accepted. `half_closes` fails if CloseWrite does. The steps of copyToClient are `takes_credit`,
-- `copies` and, at the end of what the socket has, `copies_end`; others may come between them.
pub data Step : Type 0 where
  opens : ℕ → List ℕ → Step
  dials : ℕ → Option ℕ → Step
  accepts : ℕ → Step
  receives_data : ℕ → List ℕ → Step
  receives_half_close receives_close : ℕ → Step
  receives_update : ℕ → List ℕ → Step
  writes : ℕ → ℕ → List (ℕ × Bool) → Step
  half_closes : ℕ → ℕ → Bool → Step
  takes_credit : ℕ → ℕ → Bool → Step
  copies : ℕ → List ℕ → Step
  copies_end : ℕ → Step
  shuts_down : Step

-- writeToRemote takes the next event of its stream; it waits where there is none, or one of the other
-- kind than the step is about, and returns where the stream is done.
abbrev pub write_event : ℕ → ℕ → List (ℕ × Bool) → Option Stream → Server → Server
write_event id o answers none s = s
write_event id o answers (some x) s = elim x.incoming [
  | [] ↦ s
  | half_close ∷ rest ↦ s
  | content bytes ∷ rest ↦
      (write_remote id bytes answers (update o (record x { incoming = rest }) s)).1
]

abbrev pub half_close_event : ℕ → ℕ → Bool → Option Stream → Server → Server
half_close_event id o fails none s = s
half_close_event id o fails (some x) s = elim x.incoming [
  | [] ↦ s
  | content bytes ∷ rest ↦ s
  | half_close ∷ rest ↦
      if fails
      then reset id close_write_failed (update o (record x { incoming = rest }) s)
      else update o (record x { incoming = rest }) s
]

-- the last loop of shutdown, over the identifiers that it has collected
unfoldable pub remove_all : List ℕ → Server → Server
remove_all [] s = s
remove_all (id ∷ more) s = remove_all more (remove id s)

-- shutdown, as far as it is about streams
unfoldable pub shutdown : Server → Server
unfolding remove_all
shutdown s = remove_all (map (λ e. e.0) s.streams) s

unfoldable pub step : Server → Step → Server
unfolding open_stream dialed register_inbound write_remote reset remove shutdown copy_data send
step s (opens id target) = (open_stream id target s).1
step s (dials id conn) = dialed id conn s
step s (accepts conn) = (register_inbound conn s).1
step s (receives_data id bytes) = accept_data id bytes (stream_of id s) s
step s (receives_half_close id) = accept_half_close (stream_of id s) s
step s (receives_update id payload) = accept_update id payload (stream_of id s) s
step s (receives_close id) = remove id s
step s (writes id o answers) = write_event id o answers (get_elem? s.store o) s
step s (half_closes id o fails) = half_close_event id o fails (get_elem? s.store o) s
step s (takes_credit o n woken) = credit_event o n woken (get_elem? s.store o) s
step s (copies id bytes) = copy_data id bytes s
step s (copies_end id) = (send (frame type_half_close id []) s).1
step s shuts_down = shutdown s

unfoldable pub steps : Server → List Step → Server
steps s [] = s
steps s (x ∷ xs) = steps (step s x) xs

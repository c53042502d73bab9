-- ===== src/Relay/Reader.antt =====
-- internal/relay/client.go: the receiving side of a client's stream, clientStream's handle, fail, Read
-- and Close. `received` and `returned` are no fields of the code: the bytes that the queue has taken
-- and those that Read has returned, in their order, for the theorems to speak of.
pub mod Fifo
pub mod Returned
pub mod EndOfFile
mod Examples
use wsl_win_relay.Base.{
  ℕ, ◌+◌, ◌/◌, Bool, true, false, ◌||◌, List, [], ◌∷◌, ◌++◌, Option, none, some, min, ltb, ◌==◌,
  if◌then◌else◌, length, take, drop,
}
use wsl_win_relay.Protocol.Frame.{
  initial_stream_window, max_data_size, type_open_ok, type_open_error, type_data,
  type_window_update, type_half_close, type_close, type_reset,
}
use wsl_win_relay.Protocol.Payload.{decode_window_update}
use wsl_win_relay.Relay.Window.{FlowWindow, new_flow_window, add}

-- `eof` is io.EOF, `told` an error that came with a text from the server.
pub data ReadError : Type 0 where
  eof receive_window_exceeded bad_window_update link_failed timed_out client_closed : ReadError
  bad_datagram peer_restarted cancelled resolve_failed dial_failed : ReadError
  told : List ℕ → ReadError

pub data ClientEvent : Type 0 where
  bytes : List ℕ → ClientEvent
  failed : ReadError → ClientEvent

-- The frames that the stream sends about what it receives.
pub data Reply : Type 0 where
  acknowledges : ℕ → Reply
  resets closes : Reply

pub record Reader : Type 0 where
  pub incoming : List ClientEvent
  pub open_done : Option (Option ReadError)
  pub closed_remote : Bool
  pub read_eof : Bool
  pub read_buf : List ℕ
  pub terminal : Option ReadError
  pub send_window : FlowWindow
  pub done : Bool
  pub link : List Bool
  pub replies : List Reply
  pub received : List ℕ
  pub returned : List ℕ

-- the capacity of the channel `incoming`
abbrev pub event_queue_size : ℕ
event_queue_size = initial_stream_window / max_data_size + 2

-- newClientStream
abbrev pub new_reader : List Bool → Reader
new_reader link = record {
  incoming = [];
  open_done = none;
  closed_remote = false;
  read_eof = false;
  read_buf = [];
  terminal = none;
  send_window = new_flow_window;
  done = false;
  link = link;
  replies = [];
  received = [];
  returned = [];
}

-- client.write of a frame: whether it failed
unfoldable pub reply : Reply → Reader → Bool × Reader
reply f r = elim r.link [
  | [] ↦ (false, record r { replies = r.replies ++ f ∷ [] })
  | true ∷ link ↦ (true, record r { link = link })
  | false ∷ link ↦ (false, record r { link = link; replies = r.replies ++ f ∷ [] })
]

abbrev pub or_first : {A : Type 0} → Option A → A → Option A
or_first none b = some b
or_first (some a) b = some a

unfoldable pub fail : ReadError → Reader → Reader
fail e r = record r {
  open_done = or_first r.open_done (some e);
  terminal = or_first r.terminal e;
  done = true;
  closed_remote = true;
  incoming =
      if r.closed_remote
      then r.incoming
      else if ltb (length r.incoming) event_queue_size
      then r.incoming ++ failed e ∷ []
      else r.incoming;
}

-- `case protocol.TypeData`, while the client is not closed
unfoldable pub handle_data : List ℕ → Reader → Reader
unfolding fail reply
handle_data payload r =
    if ltb (length r.incoming) event_queue_size
    then record r { incoming = r.incoming ++ bytes payload ∷ []; received = r.received ++ payload }
    else fail receive_window_exceeded (reply resets r).1

abbrev pub credit_window : Reader → Bool × FlowWindow → Reader
credit_window r (true, w) = record r { send_window = w }
credit_window r (false, w) = fail bad_window_update r

-- handle
unfoldable pub handle : ℕ → List ℕ → Reader → Reader
unfolding fail handle_data
handle kind payload r =
    if kind == type_open_ok
    then record r { open_done = or_first r.open_done none }
    else if kind == type_open_error
    then fail (told payload) (record r { open_done = or_first r.open_done (some (told payload)) })
    else if kind == type_data
    then handle_data payload r
    else if kind == type_window_update
    then credit_window r (add (decode_window_update payload) r.send_window)
    else if kind == type_half_close
    then record r { read_eof = true }
    else if kind == type_close
    then fail eof r
    else if kind == type_reset
    then fail (told payload) r
    else r

-- What happens while Read waits: a frame is handled, or one case of its select is picked. A case
-- that is not ready is not picked, and the loop goes on as it does after a wake-up.
pub data Pick : Type 0 where
  handles : ℕ → List ℕ → Pick
  takes_event expires changes_deadline wakes ends client_ends : Pick

-- The bytes and the error that Read returns, or `none` where the picks are used up and it waits.
abbrev pub ReadResult : Type 0
ReadResult = Option (List ℕ × Option ReadError) × Reader

abbrev pub served : List ℕ → Bool × Reader → ReadResult
served part (true, r) = (some (part, some link_failed), r)
served part (false, r) = (some (part, none), r)

-- The branch of a buffer that is not empty; `buf` is that buffer.
unfoldable pub serve : ℕ → List ℕ → Reader → ReadResult
unfolding reply
serve n buf r =
    let count = min n (length buf) in
    served (take count buf) (
      reply (acknowledges count)
        (record r { read_buf = drop count buf; returned = r.returned ++ take count buf }))

abbrev pub is_eof : ReadError → Bool
is_eof eof = true
is_eof _ = false

-- the event that the select has taken out of the queue
abbrev pub after_event : (Reader → ReadResult) → ℕ → ClientEvent → Reader → ReadResult
after_event next n (bytes []) r = next r
after_event next n (bytes (b ∷ bs)) r = serve n (b ∷ bs) r
after_event next n (failed e) r =
    (some ([], some e), record r { read_eof = r.read_eof || is_eof e })

-- the same at the end of the file
abbrev pub last_event : (Reader → ReadResult) → ℕ → ClientEvent → Reader → ReadResult
last_event next n (bytes []) r = next r
last_event next n (bytes (b ∷ bs)) r = serve n (b ∷ bs) r
last_event next n (failed e) r = (some ([], some e), r)

abbrev pub terminal_error : Option ReadError → ReadError
terminal_error none = eof
terminal_error (some e) = e

-- the select
abbrev pub select : (Reader → ReadResult) → ℕ → Pick → Reader → ReadResult
select next n (handles kind payload) r = next (handle kind payload r)
select next n takes_event r = elim r.incoming [
  | [] ↦ next r
  | e ∷ rest ↦ after_event next n e (record r { incoming = rest })
]
select next n expires r = (some ([], some timed_out), r)
select next n changes_deadline r = next r
select next n wakes r = next r
select next n ends r = elim r.done [
  | true ↦ (some ([], some (terminal_error r.terminal)), r)
  | false ↦ next r
]
select next n client_ends r = (some ([], some client_closed), r)

-- A round of the loop, `next` being its select.
abbrev pub read_round : (Reader → ReadResult) → ℕ → Reader → ReadResult
read_round next n r = elim r.read_buf [
  | b ∷ bs ↦ serve n (b ∷ bs) r
  | [] ↦ elim r.read_eof [
    | false ↦ next r
    | true ↦ elim r.incoming [
      | [] ↦ (some ([], some eof), r)
      | e ∷ rest ↦ last_event next n e (record r { incoming = rest })
    ]
  ]
]

unfoldable pub read_loop : ℕ → List Pick → Reader → ReadResult
unfolding serve handle
read_loop n [] r = read_round (λ t. (none, t)) n r
read_loop n (p ∷ picks) r = read_round (select (read_loop n picks) n p) n r

-- Read into a slice of `n` bytes
unfoldable pub read : ℕ → List Pick → Reader → ReadResult
unfolding read_loop
read n picks r = if n == 0 then (some ([], none), r) else read_loop n picks r

-- Close, the first time; its frame may not get through.
unfoldable pub close : Reader → Reader
unfolding fail reply
close r = (reply closes (fail eof r)).1

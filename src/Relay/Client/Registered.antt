-- ===== src/Relay/Client/Registered.antt =====
-- What holds of the client's registries: their limits, and that a closed client has none.
use wsl_win_relay.Base.{
  ℕ, ◌+◌, ◌≤◌, ◌<◌, ◌≡◌, refl, Bool, true, false, List, [], Option, none, some, length, arith,
  if◌then◌else◌,
}
use wsl_win_relay.Relay.Reader.{ReadError}
use wsl_win_relay.Relay.Server.{max_concurrent_streams, delete}
use wsl_win_relay.Relay.Server.Listeners.{max_concurrent_listeners}
use wsl_win_relay.Relay.Server.Datagrams.{max_concurrent_datagrams}
use wsl_win_relay.Relay.Server.Datagrams.Reverse.{max_concurrent_reverse_datagrams}
use wsl_win_relay.Relay.Server.Registered.{length-delete_le}
use wsl_win_relay.Relay.Client.{
  Sent, Registries, Client, write, insert, set_streams, set_listeners, set_datagrams,
  set_reverse_datagrams, remove_stream, remove_listener, remove_datagram, remove_reverse_datagram,
  has_room, or_undo,
}

abbrev pub Registry : Type 0
Registry = List (ℕ × ℕ)

-- A registry is within its limit, and empty once the client is closed.
abbrev pub Fits : ℕ → Option ReadError → Registry → Type 0
Fits limit closed m = (length m ≤ limit) × ((e : ReadError) → closed ≡ some e → m ≡ [])

-- How many streams a client may have yet to register whose listener it has found.
abbrev pub pending : Option ℕ → ℕ
pending none = 0
pending (some id) = 1

-- Streams are within their limit. Once the client is closed there is one at most, which may be still
-- to come, the stream of an INBOUND_OPEN that was being handled.
abbrev pub StreamsFit : Option ℕ → Option ReadError → Registry → Type 0
StreamsFit inbound closed m =
    (length m ≤ max_concurrent_streams)
    × ((e : ReadError) → closed ≡ some e → length m + pending inbound ≤ 1)

pub record IsRegistered (m : Registries) (inbound : Option ℕ) (closed : Option ReadError)
    : Type 0 where
  pub streams : StreamsFit inbound closed m.streams
  pub listeners : Fits max_concurrent_listeners closed m.listeners
  pub datagrams : Fits max_concurrent_datagrams closed m.datagrams
  pub reverse_datagrams : Fits max_concurrent_reverse_datagrams closed m.reverse_datagrams

abbrev pub Registers : Client → Type 0
Registers c = IsRegistered c.registries c.inbound c.closed

pub delete-Fits :
    (limit id : ℕ) (closed : Option ReadError) (m : Registry)
    → Fits limit closed m
    → Fits limit closed (delete id m)
unfolding delete
delete-Fits limit id closed m h =
    (omega (arith, h.0, length-delete_le id m), λ e q. rw (h.1 e q, delete) refl)

pub insert-Fits :
    (limit id o : ℕ) (m : Registry) (c : Client)
    → has_room limit m c ≡ true
    → Fits limit c.closed (insert id o m)
insert-Fits limit id o m c room = fits c.closed refl
  where
    fits : (closed : Option ReadError) → c.closed ≡ closed → Fits limit closed (insert id o m)
    fits none e =
        let lt : length m < limit = ground (arith, room, e) in
        (omega (arith, lt, length-delete_le id m), λ x q. absurd (cc q))
    fits (some x) e = absurd (ground (arith, room, e))

pub delete-StreamsFit :
    (id : ℕ) (inbound : Option ℕ) (closed : Option ReadError) (m : Registry)
    → StreamsFit inbound closed m
    → StreamsFit inbound closed (delete id m)
delete-StreamsFit id inbound closed m h = (
  omega (arith, h.0, length-delete_le id m),
  λ e q. omega (arith, h.1 e q, length-delete_le id m),
)

pub insert-StreamsFit :
    (id o : ℕ) (m : Registry) (c : Client)
    → has_room max_concurrent_streams m c ≡ true
    → StreamsFit c.inbound c.closed (insert id o m)
insert-StreamsFit id o m c room =
    let (few, empty) = insert-Fits max_concurrent_streams id o m c room in
    (few, λ e q. absurd (cc (empty e q)))

pub write-Registers : (f : Sent) (c : Client) → Registers c → Registers (write f c).1
unfolding write
write-Registers f c h = ground (arith, h)

module _ (c : Client) (h : Registers c) where
  pub streams-Registers :
      (m : Registry) → StreamsFit c.inbound c.closed m → Registers (set_streams m c)
  streams-Registers m k = record {
    streams = k;
    listeners = h.listeners;
    datagrams = h.datagrams;
    reverse_datagrams = h.reverse_datagrams;
  }

  pub listeners-Registers :
      (m : Registry) → Fits max_concurrent_listeners c.closed m → Registers (set_listeners m c)
  listeners-Registers m k = record {
    streams = h.streams;
    listeners = k;
    datagrams = h.datagrams;
    reverse_datagrams = h.reverse_datagrams;
  }

  pub datagrams-Registers :
      (m : Registry) → Fits max_concurrent_datagrams c.closed m → Registers (set_datagrams m c)
  datagrams-Registers m k = record {
    streams = h.streams;
    listeners = h.listeners;
    datagrams = k;
    reverse_datagrams = h.reverse_datagrams;
  }

  pub reverse-Registers :
      (m : Registry)
      → Fits max_concurrent_reverse_datagrams c.closed m
      → Registers (set_reverse_datagrams m c)
  reverse-Registers m k = record {
    streams = h.streams;
    listeners = h.listeners;
    datagrams = h.datagrams;
    reverse_datagrams = k;
  }

  pub remove_stream-Registers : (id : ℕ) → Registers (remove_stream id c)
  unfolding remove_stream
  remove_stream-Registers id =
      streams-Registers (delete id c.registries.streams)
        (delete-StreamsFit id c.inbound c.closed c.registries.streams h.streams)

  pub remove_listener-Registers : (id : ℕ) → Registers (remove_listener id c)
  unfolding remove_listener
  remove_listener-Registers id =
      listeners-Registers (delete id c.registries.listeners)
        (delete-Fits max_concurrent_listeners id c.closed c.registries.listeners h.listeners)

  pub remove_datagram-Registers : (id : ℕ) → Registers (remove_datagram id c)
  unfolding remove_datagram
  remove_datagram-Registers id =
      datagrams-Registers (delete id c.registries.datagrams)
        (delete-Fits max_concurrent_datagrams id c.closed c.registries.datagrams h.datagrams)

  pub remove_reverse-Registers : (id : ℕ) → Registers (remove_reverse_datagram id c)
  unfolding remove_reverse_datagram
  remove_reverse-Registers id = reverse-Registers (delete id c.registries.reverse_datagrams) (
      delete-Fits max_concurrent_reverse_datagrams id c.closed c.registries.reverse_datagrams
        h.reverse_datagrams)

-- A call that registers an object and takes it out again where its frame does not get through.
pub undo-Registers :
    (undo : Client → Client) (r : Bool × Client)
    → ((c : Client) → Registers c → Registers (undo c))
    → Registers r.1
    → Registers (or_undo undo r).1
undo-Registers undo (true, c) keeps h = keeps c h
undo-Registers undo (false, c) keeps h = h

pub if-Registers :
    (b : Bool) (r r' : Bool × Client)
    → (b ≡ true → Registers r.1)
    → (b ≡ false → Registers r'.1)
    → Registers (if b then r else r').1
if-Registers true r r' h k = h refl
if-Registers false r r' h k = k refl

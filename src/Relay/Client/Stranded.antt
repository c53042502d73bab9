-- ===== src/Relay/Client/Stranded.antt =====
-- A datagram that cannot be sent on Windows: what its report does to the two ends of a reverse
-- datagram socket.
use wsl_win_relay.Base.{
  ℕ, ◌≡◌, refl, true, false, List, [], ◌∷◌, ◌++◌, Option, none, some, ok, get_elem?, arith,
  get_elem?-set_self, get_elem?-some_lt,
}
use wsl_win_relay.Protocol.Frame.{type_listen_datagram_error}
use wsl_win_relay.Protocol.Payload.{decode_datagram}
use wsl_win_relay.Relay.Server.{lookup, write_failed, failure}
use wsl_win_relay.Relay.Server.Datagrams.{Association, Associations, send}
use wsl_win_relay.Relay.Server.Datagrams.Reverse.{write_reverse_datagrams, reverse_datagram_error}
use wsl_win_relay.Relay.Server.Removal.{lookup-delete_self}
use wsl_win_relay.Relay.Client.{Client, remove_reverse_datagram}
use wsl_win_relay.Relay.Client.Reverse.{ReverseDatagram, handle_reverse, fail_reverse}
use wsl_win_relay.Relay.Client.Steps.{dispatch, close_reverse}

abbrev pub ServerKeeps : Associations → Association → Associations → Type 0
ServerKeeps s x s' =
    (s'.registry ≡ s.registry)
    × (s'.closed_conns ≡ s.closed_conns)
    × (s'.sent ≡ s.sent ++ failure type_listen_datagram_error x.id write_failed ∷ [])

abbrev pub ClientForgets : ℕ → ℕ → Client → Client → Type 0
ClientForgets id o c c' =
    (lookup id c'.registries.reverse_datagrams ≡ none)
    × (c'.sent ≡ c.sent)
    × (close_reverse o c' ≡ c')

-- The server reports the datagram and goes on with the socket.
module _ (s : Associations) (o : ℕ) (x : Association) (payload target content address : List ℕ)
    (rest : List (List ℕ)) (resolve : List ℕ → Option (List ℕ)) where
  server-keeps :
      x.incoming ≡ payload ∷ rest
      → decode_datagram payload ≡ ok (target, content)
      → resolve target ≡ some address
      → s.link ≡ []
      → ServerKeeps s x (write_reverse_datagrams resolve true o x s)
  unfolding write_reverse_datagrams reverse_datagram_error send
  server-keeps queued decoded resolved works =
      rw (queued, decoded, resolved, works, write_reverse_datagrams, reverse_datagram_error, send)
        (refl, refl, refl)

-- The client forgets the socket without a word to the server, and so does its Close.
module _ (c : Client) (id o : ℕ) (l : ReverseDatagram) (text : List ℕ)
    (at : lookup id c.registries.reverse_datagrams ≡ some o)
    (stored : get_elem? c.reverse_store o ≡ some l) (named : l.id ≡ id)
    (live : l.done ≡ false) where
  client-forgets : ClientForgets id o c (dispatch type_listen_datagram_error id text c)
  unfolding dispatch remove_reverse_datagram handle_reverse fail_reverse close_reverse
  client-forgets = ground (
    arith,
    at,
    stored,
    named,
    live,
    lookup-delete_self id c.registries.reverse_datagrams,
    get_elem?-set_self c.reverse_store o (handle_reverse type_listen_datagram_error text l)
        (get_elem?-some_lt c.reverse_store o l stored),
  )

-- When the write of a datagram fails on Windows, the server reports it to the client and keeps its
-- socket: the association stays registered and nothing is closed. On that report the client takes its
-- reverse datagram socket out of its registry and sends nothing, and its Close afterwards does and
-- sends nothing either.
pub report_strands :
    (s : Associations) (o : ℕ) (x : Association) (payload target content address text : List ℕ)
    (rest : List (List ℕ)) (resolve : List ℕ → Option (List ℕ)) (c : Client) (p : ℕ)
    (l : ReverseDatagram)
    → x.incoming ≡ payload ∷ rest
    → decode_datagram payload ≡ ok (target, content)
    → resolve target ≡ some address
    → s.link ≡ []
    → lookup x.id c.registries.reverse_datagrams ≡ some p
    → get_elem? c.reverse_store p ≡ some l
    → l.id ≡ x.id
    → l.done ≡ false
    → ServerKeeps s x (write_reverse_datagrams resolve true o x s)
      × ClientForgets x.id p c (dispatch type_listen_datagram_error x.id text c)
report_strands s o x payload target content address text rest resolve c p l queued decoded resolved
      works at stored named live =
    (
      server-keeps s o x payload target content address rest resolve queued decoded resolved works,
      client-forgets c x.id p l text at stored named live,
    )

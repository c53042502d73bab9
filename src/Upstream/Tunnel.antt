-- ===== src/Upstream/Tunnel.antt =====
-- A connection that the dialer of internal/upstream opens through the proxy of internal/socks5.
use wsl_win_relay.Base.{ℕ, ◌<◌, List, ◌∷◌, IsU16}
use wsl_win_relay.Socks
use wsl_win_relay.Socks.RoundTrip.{IsHost, Target, Target-IsHost}
use wsl_win_relay.Upstream.Chained.{address}

module _ (host : List ℕ) (port : ℕ) (target : Target host) (word : IsU16 port)
    (pos : 0 < port) where
  abbrev form : IsHost host
  form = Target-IsHost host target

  abbrev request : List ℕ
  request = 5 ∷ 1 ∷ 0 ∷ address host port form word pos

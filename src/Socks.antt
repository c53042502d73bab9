-- ===== src/Socks.antt =====
-- Package internal/socks5, server.go: the SOCKS5 proxy. What the client has sent is the list of bytes
-- that the proxy reads; the deadline of the handshake shows as the end of that list. `Event` is what the
-- proxy does besides reading.
pub mod Address
pub mod Serve
pub mod Datagram
pub mod RoundTrip
pub mod Replies
mod Examples
use wsl_win_relay.Base.{
  ℕ, Bool, true, false, not, ◌&&◌, ◌||◌, List, [], ◌∷◌, ◌++◌, Option, none, some, ◌==◌,
  if◌then◌else◌, length, take, drop, Result, ok, err, IoError, read_full, uint16,
}
use wsl_win_relay.Net.Decimal.{itoa}
use wsl_win_relay.Net.HostPort.{join_host_port}
use wsl_win_relay.Net.Ip.{ip_string}

pub data Error : Type 0 where
  io : IoError → Error
  bad_version no_method bad_command no_udp empty_domain bad_address_type : Error
  bad_reserved fragmented bad_address bad_domain dial_failed write_failed : Error

-- io.ReadFull
abbrev pub read_part : ℕ → List ℕ → Result Error (List ℕ × List ℕ)
read_part n input = elim (read_full n input) [
  | ok (part, rest) ↦ ok (part, rest)
  | err e ↦ err (io e)
]

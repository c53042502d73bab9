-- ===== src/Upstream.antt =====
-- Package internal/upstream, dialer.go: connections and datagrams through the SOCKS5 proxy that the
-- user of the Windows side has set. A connection to the proxy is what it is still to send, and the
-- writer to it.
pub mod Address
pub mod Connect
pub mod Packet
pub mod Http
pub mod Lines
pub mod Response
pub mod Reply
pub mod Agreement
pub mod Chained
pub mod Tunnel
mod Examples
use wsl_win_relay.Base.{
  ℕ, zero, suc, List, [], ◌∷◌, Option, none, some, ltb, if◌then◌else◌, length, drop, Result, ok,
  err, IoError, Writer, read_full, write_once,
}
use wsl_win_relay.Base.Action.{Action}
use wsl_win_relay.Base.Writing.{checked, write_loop}

pub data Error : Type 0 where
  io : IoError → Error
  no_method unexpected_credentials long_credentials denied unsupported_method rejected : Error
  bad_target bad_port bad_domain empty_domain bad_address_type bad_packet : Error
  lookup_failed no_addresses no_destination send_failed : Error
  header_limit bad_status bad_code : Error

pub record Conn : Type 0 where
  pub input : List ℕ
  pub output : Writer

-- how writeAll reads an answer of Write
abbrev pub progress : List ℕ → ℕ × Option IoError → Result Error (List ℕ)
progress = checked io IoError.short_write

unfoldable pub write_all : List ℕ → Action Writer Error (Unit {0})
unfolding write_loop
write_all p = write_loop progress (io IoError.panic) (length p) p

abbrev wrote : Conn → Result Error (Unit {0}) × Writer → Result Error (Unit {0}) × Conn
wrote c (r, w) = (r, record c { output = w })

unfoldable pub send : List ℕ → Action Conn Error (Unit {0})
unfolding write_all
send p c = wrote c (write_all p c.output)

-- io.ReadFull
abbrev pub read_part : ℕ → List ℕ → Result Error (List ℕ × List ℕ)
read_part n input = elim (read_full n input) [ ok r ↦ ok r | err e ↦ err (io e) ]

-- What was read leaves the connection; after an error the caller closes it.
abbrev pub took : {A : Type 0} → Conn → Result Error (A × List ℕ) → Result Error A × Conn
took c (ok (a, rest)) = (ok a, record c { input = rest })
took c (err e) = (err e, c)

unfoldable pub receive : ℕ → Action Conn Error (List ℕ)
unfolding read_full
receive n c = took c (read_part n c.input)

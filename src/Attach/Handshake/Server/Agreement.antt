-- ===== src/Attach/Handshake/Server/Agreement.antt =====
-- The two halves of a handshake agree, when nobody else uses the registry meanwhile.
use wsl_win_relay.Base.{IsU64, IsU64}
use wsl_win_relay.Attach.Registry.{Registry}
use wsl_win_relay.Attach.Summary.{Summary}

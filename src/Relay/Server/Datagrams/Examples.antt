-- ===== src/Relay/Server/Datagrams/Examples.antt =====
-- The theorems on the datagram associations at concrete runs.
use wsl_win_relay.Base.{◌≤◌, true, false, List, [], ◌∷◌, none, some, length, All, ◌≡◌, refl, uint16}
use wsl_win_relay.Relay.Server.Datagrams.{
  max_concurrent_datagrams, new_associations, claim, open_datagram, send, remove_datagram,
  association_of, write_datagram, write_datagrams, read_datagrams,
}
use wsl_win_relay.Relay.Server.Datagrams.Reverse.{
  max_concurrent_reverse_datagrams, listening, unbound,
}
use wsl_win_relay.Relay.Server.Datagrams.Steps.{
  Step, opens, dials, receives_data, receives_close, writes, reads, steps, step, ReverseStep,
  listens, binds, sends_to, ends, reverse_steps,
}
use wsl_win_relay.Relay.Server.Datagrams.Owned.{Owns, sockets, steps-new-Owns}
use wsl_win_relay.Relay.Server.Datagrams.ReverseOwned.{bound_sockets, reverse_steps-new-Owns}
use wsl_win_relay.Relay.Server.{lookup, delete}

-- An association is opened, closed while it dials and opened again; the first dial returns late.
abbrev late_dial : List Step
late_dial =
    opens 3
    ∷ receives_close 3
    ∷ opens 3
    ∷ dials 0 (some 70)
    ∷ dials 1 (some 71)
    ∷ receives_data 3 (0 ∷ 1 ∷ b'a' ∷ 9 ∷ [])
    ∷ writes 1 true (λ _. none) false
    ∷ reads 3 (some (b'a' ∷ [], 8 ∷ []))
    ∷ []

late_dial_closes : (steps (new_associations []) late_dial).closed_conns ≡ 70 ∷ []
unfolding steps step open_datagram claim remove_datagram association_of lookup delete send
    write_datagram write_datagrams read_datagrams uint16
late_dial_closes = refl

steps-new-Owns_example :
    (length (steps (new_associations (true ∷ [])) late_dial).registry ≤ max_concurrent_datagrams)
    × All
        (Owns (steps (new_associations (true ∷ [])) late_dial))
        (sockets (new_associations (true ∷ [])) late_dial)
steps-new-Owns_example = steps-new-Owns (true ∷ []) late_dial

abbrev listening_twice : List ReverseStep
listening_twice =
    listens 4 (b':' ∷ b'0' ∷ [])
    ∷ binds 64 0 (listening 80 (b':' ∷ b'9' ∷ []))
    ∷ listens 6 (b':' ∷ [])
    ∷ binds 64 1 unbound
    ∷ sends_to 4 (0 ∷ 1 ∷ b'a' ∷ [])
    ∷ ends
    ∷ []

reverse_steps-new-Owns_example :
    (length (reverse_steps (new_associations []) listening_twice).registry
      ≤ max_concurrent_reverse_datagrams)
    × All
        (Owns (reverse_steps (new_associations []) listening_twice))
        (bound_sockets (new_associations []) listening_twice)
reverse_steps-new-Owns_example = reverse_steps-new-Owns [] listening_twice

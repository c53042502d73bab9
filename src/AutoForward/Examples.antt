-- ===== src/AutoForward/Examples.antt =====
-- The scan of /proc/net at a concrete file.
use wsl_win_relay.Base.{ℕ, ◌≡◌, refl, inl, inr, false, List, [], ◌∷◌, ok, bytes_eq}
use wsl_win_relay.Base.Text.{codes}
use wsl_win_relay.Net.Decimal.{itoa, digits}
use wsl_win_relay.Net.Ip.{ip_string, to4, dotted}
use wsl_win_relay.AutoForward.Listeners.{
  Listener, normalize_listeners, by_key, keep, preferred_listener, text_ltb, sort, insert, before,
}
use wsl_win_relay.AutoForward.Order.{In}
use wsl_win_relay.AutoForward.Chosen.{IsIteration, IsChosen, normalize_listeners-IsChosen}
use wsl_win_relay.AutoForward.Unique.{normalize_listeners-eq}
use wsl_win_relay.AutoForward.Proc.{
  lines_of, missing, scan, read_files, parse_proc_net_state, parse_lines, parse_line, fields,
  split_colon, parse_hex, decode_proc_address, decode_string, reverse_words,
}

abbrev as_stored : List Listener → List Listener
as_stored ks = ks

as_stored-IsIteration : IsIteration as_stored
as_stored-IsIteration ks d = (d, (λ m i. i), λ m i. i)

abbrev heading : List ℕ
heading = codes "  sl  local_address rem_address   st"

-- Port 8080 on one address and on all of them, and a connection.
abbrev table : List (List ℕ)
table =
    heading
    ∷ codes "   0: 0100007F:1F90 00000000:0000 0A 0"
    ∷ codes "   1: 00000000:1F90 00000000:0000 0A 0"
    ∷ codes "   2: 0100007F:0050 0100007F:9C40 01 0"
    ∷ []

abbrev local : Listener
local = record { network = codes "tcp4"; host = codes "127.0.0.1"; port = 8080 }

abbrev all : Listener
all = record { network = codes "tcp4"; host = codes "0.0.0.0"; port = 8080 }

scan-table : scan as_stored (lines_of false table) missing ≡ ok (all ∷ [])
unfolding scan read_files parse_proc_net_state parse_lines parse_line fields split_colon parse_hex
    decode_proc_address decode_string reverse_words ip_string to4 dotted itoa digits bytes_eq
    normalize_listeners by_key keep preferred_listener text_ltb sort insert before
scan-table = refl

normalize_listeners-IsChosen_example :
    IsChosen (local ∷ all ∷ []) (normalize_listeners as_stored (local ∷ all ∷ []))
normalize_listeners-IsChosen_example =
    normalize_listeners-IsChosen as_stored (local ∷ all ∷ []) as_stored-IsIteration

there : (m : Listener) → In m (local ∷ all ∷ []) → In m (all ∷ local ∷ local ∷ [])
there m (inl e) = inr (inl e)
there m (inr (inl e)) = inl e
there m (inr (inr i)) = absurd i

back : (m : Listener) → In m (all ∷ local ∷ local ∷ []) → In m (local ∷ all ∷ [])
back m (inl e) = inr (inl e)
back m (inr (inl e)) = inl e
back m (inr (inr (inl e))) = inl e
back m (inr (inr (inr i))) = absurd i

normalize_listeners-eq_example :
    normalize_listeners as_stored (local ∷ all ∷ [])
    ≡ normalize_listeners as_stored (all ∷ local ∷ local ∷ [])
normalize_listeners-eq_example =
    normalize_listeners-eq as_stored as_stored (local ∷ all ∷ []) (all ∷ local ∷ local ∷ [])
      as_stored-IsIteration as_stored-IsIteration there back

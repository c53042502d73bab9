-- ===== src/Relay/Server/Datagrams/Steps.antt =====
-- internal/relay/server.go: what frames, goroutines and the end of the server do to the datagram
-- associations, as steps. One list of steps is about associations of one kind.
use wsl_win_relay.Base.{
  ℕ, Bool, true, List, [], ◌∷◌, Option, none, some, get_elem?, map, if◌then◌else◌,
}
use wsl_win_relay.Relay.Server.Datagrams.{
  Association, Associations, remove_datagram, open_datagram, datagram_dialed, write_datagram,
  write_datagrams, read_datagrams,
}
use wsl_win_relay.Relay.Server.Datagrams.Reverse.{
  Listened, open_reverse_datagram, reverse_datagram_dialed, write_reverse_datagram,
  write_reverse_datagrams, read_reverse_datagrams,
}

unfoldable pub remove_each : List ℕ → Associations → Associations
unfolding remove_datagram
remove_each [] s = s
remove_each (id ∷ more) s = remove_each more (remove_datagram id s)

-- shutdown, as far as it is about one of the registries, with the context that it cancels
unfoldable pub shutdown : Associations → Associations
unfolding remove_each
shutdown s = remove_each (map (λ e. e.0) s.registry) (record s { cancelled = true })

-- A goroutine that opens the association `o` goes on once.
abbrev pub when_dialing :
    (ℕ → Association → Associations → Associations)
    → ℕ
    → Option Association
    → Associations
    → Associations
when_dialing f o none s = s
when_dialing f o (some x) s = if x.dialing then f o x s else s

-- the goroutines of an association run behind its opening
abbrev pub when_open :
    (ℕ → Association → Associations → Associations)
    → ℕ
    → Option Association
    → Associations
    → Associations
when_open f o none s = s
when_open f o (some x) s = if x.dialing then s else f o x s

pub data Step : Type 0 where
  opens : ℕ → Step
  dials : ℕ → Option ℕ → Step
  receives_data : ℕ → List ℕ → Step
  receives_close : ℕ → Step
  writes : ℕ → Bool → (List ℕ → Option (List ℕ)) → Bool → Step
  reads : ℕ → Option (List ℕ × List ℕ) → Step
  shuts_down : Step

unfoldable pub step : Associations → Step → Associations
unfolding open_datagram write_datagram write_datagrams read_datagrams remove_datagram shutdown
step s (opens id) = (open_datagram id s).1
step s (dials o conn) = when_dialing (datagram_dialed conn) o (get_elem? s.store o) s
step s (receives_data id payload) = write_datagram id payload s
step s (receives_close id) = remove_datagram id s
step s (writes o direct resolve fails) =
    when_open (write_datagrams direct resolve fails) o (get_elem? s.store o) s
step s (reads id packet) = read_datagrams id packet s
step s shuts_down = shutdown s

unfoldable pub steps : Associations → List Step → Associations
unfolding step
steps s [] = s
steps s (x ∷ xs) = steps (step s x) xs

pub data ReverseStep : Type 0 where
  listens : ℕ → List ℕ → ReverseStep
  binds : ℕ → ℕ → Listened → ReverseStep
  sends_to : ℕ → List ℕ → ReverseStep
  closes : ℕ → ReverseStep
  writes_to : ℕ → (List ℕ → Option (List ℕ)) → Bool → ReverseStep
  reads_from : ℕ → Option (List ℕ × List ℕ) → ReverseStep
  ends : ReverseStep

unfoldable pub reverse_step : Associations → ReverseStep → Associations
unfolding open_reverse_datagram write_reverse_datagram write_reverse_datagrams
    read_reverse_datagrams remove_datagram shutdown
reverse_step s (listens id address) = (open_reverse_datagram id address s).1
reverse_step s (binds capabilities o r) =
    when_dialing (reverse_datagram_dialed capabilities r) o (get_elem? s.store o) s
reverse_step s (sends_to id payload) = write_reverse_datagram id payload s
reverse_step s (closes id) = remove_datagram id s
reverse_step s (writes_to o resolve fails) =
    when_open (write_reverse_datagrams resolve fails) o (get_elem? s.store o) s
reverse_step s (reads_from id packet) = read_reverse_datagrams id packet s
reverse_step s ends = shutdown s

unfoldable pub reverse_steps : Associations → List ReverseStep → Associations
unfolding reverse_step
reverse_steps s [] = s
reverse_steps s (x ∷ xs) = reverse_steps (reverse_step s x) xs

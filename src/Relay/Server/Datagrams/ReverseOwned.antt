-- ===== src/Relay/Server/Datagrams/ReverseOwned.antt =====
-- No socket of a datagram association is lost: the steps on those that listen on Windows.
use wsl_win_relay.Base.{
  ℕ, ◌≤◌, ◌≡◌, refl, subst, Bool, true, false, List, [], ◌∷◌, ◌++◌, if◌then◌else◌, Result, ok, err,
  Option, none, some, length, get_elem?, arith, All, append_assoc,
}
use wsl_win_relay.Protocol.Frame.{
  Error, type_listen_datagram_ok, type_listen_datagram_error, type_listen_datagram_data,
  type_listen_datagram_close,
}
use wsl_win_relay.Protocol.Payload.{encode_datagram, decode_datagram}
use wsl_win_relay.Relay.Server.{Failure, bad_datagram, frame, failure, invalid_open}
use wsl_win_relay.Relay.Server.Datagrams.{
  Association, Associations, new_associations, send, update, association_of, confirm, deliver,
}
use wsl_win_relay.Relay.Server.Datagrams.Reverse.{
  max_concurrent_reverse_datagrams, Listened, unresolved, unbound, listening, bound_address_payload,
  open_reverse_datagram, reverse_datagram_dialed, write_reverse_datagram, reverse_datagram_error,
  write_reverse_datagrams, read_reverse_datagrams,
}
use wsl_win_relay.Relay.Server.Datagrams.Steps.{
  when_dialing, ReverseStep, listens, binds, sends_to, closes, writes_to, reads_from, ends,
  reverse_step, reverse_steps,
}
use wsl_win_relay.Relay.Server.Datagrams.Owned.{
  Owns, when_open-Good, same-Good, new-Good, Good-Owns,
}
use wsl_win_relay.Relay.Server.Datagrams.Kept.{Good, send-Good}
use wsl_win_relay.Relay.Server.Datagrams.Removed.{remove-Good}
use wsl_win_relay.Relay.Server.Datagrams.Moves.{
  if-Good, claim-Good, confirm-Good, queue-Good, enqueue-Good, give_up-Good, deliver-Good,
  shutdown-Good, keep_conn-Good,
}

-- The sockets that a step makes: those that ListenUDP returns.
abbrev pub listened_by : Listened → Option Association → List ℕ
listened_by unresolved found = []
listened_by unbound found = []
listened_by (listening conn address) none = []
listened_by (listening conn address) (some x) = if x.dialing then conn ∷ [] else []

abbrev pub bound_by : Associations → ReverseStep → List ℕ
bound_by s (binds capabilities o r) = listened_by r (get_elem? s.store o)
bound_by s (listens id address) = []
bound_by s (sends_to id payload) = []
bound_by s (closes id) = []
bound_by s (writes_to o resolve fails) = []
bound_by s (reads_from id packet) = []
bound_by s ends = []

unfoldable pub bound_sockets : Associations → List ReverseStep → List ℕ
unfolding reverse_step
bound_sockets s [] = []
bound_sockets s (x ∷ xs) = bound_by s x ++ bound_sockets (reverse_step s x) xs

module _ (limit : ℕ) (cs : List ℕ) where
  reverse_datagram_error-Good :
      (id : ℕ) (f : Failure) (s : Associations)
      → Good limit cs s
      → Good limit cs (reverse_datagram_error id f s)
  unfolding reverse_datagram_error
  reverse_datagram_error-Good id f s h = send-Good limit cs _ s h

  write_reverse_datagrams-Good :
      (resolve : List ℕ → Option (List ℕ)) (fails : Bool) (o : ℕ) (x : Association)
      (s : Associations)
      → get_elem? s.store o ≡ some x
      → Good limit cs s
      → Good limit cs (write_reverse_datagrams resolve fails o x s)
  unfolding write_reverse_datagrams
  write_reverse_datagrams-Good resolve fails o x s stored h = queued x.incoming
    where
      decoded :
          (r : Result Error (List ℕ × List ℕ)) (t : Associations)
          → Good limit cs t
          → Good limit cs (elim r [
            | err e ↦ reverse_datagram_error x.id bad_datagram t
            | ok (target, content) ↦
                deliver reverse_datagram_error false resolve fails x target content t
          ])
      decoded (err e) t k = reverse_datagram_error-Good x.id bad_datagram t k
      decoded (ok (target, content)) t k =
          deliver-Good limit cs reverse_datagram_error reverse_datagram_error-Good false resolve
            fails x target content t k

      queued :
          (q : List (List ℕ))
          → Good limit cs (elim q [
            | [] ↦ s
            | payload ∷ rest ↦
                let s' = update o (record x { incoming = rest }) s in
                elim (decode_datagram payload) [
                  | err e ↦ reverse_datagram_error x.id bad_datagram s'
                  | ok (target, content) ↦
                      deliver reverse_datagram_error false resolve fails x target content s'
                ]
          ])
      queued [] = h
      queued (payload ∷ rest) =
          decoded (decode_datagram payload) (update o (record x { incoming = rest }) s)
            (queue-Good limit cs o x rest s stored h)

  read_reverse_datagrams-Good :
      (id : ℕ) (packet : Option (List ℕ × List ℕ)) (s : Associations)
      → Good limit cs s
      → Good limit cs (read_reverse_datagrams id packet s)
  unfolding read_reverse_datagrams
  read_reverse_datagrams-Good id none s h =
      send-Good limit cs (frame type_listen_datagram_close id []) _ (remove-Good limit cs id s h)
  read_reverse_datagrams-Good id (some (source, bytes)) s h = encoded (encode_datagram source bytes)
    where
      encoded :
          (r : Result Error (List ℕ))
          → Good limit cs (elim r [
            | err e ↦ s
            | ok payload ↦ confirm id (send (frame type_listen_datagram_data id payload) s)
          ])
      encoded (err e) = h
      encoded (ok payload) =
          confirm-Good limit cs id _
            (send-Good limit cs (frame type_listen_datagram_data id payload) s h)

  binds-Good :
      (capabilities o : ℕ) (r : Listened) (found : Option Association) (s : Associations)
      → get_elem? s.store o ≡ found
      → Good limit cs s
      → Good limit
          (cs ++ listened_by r found)
          (when_dialing (reverse_datagram_dialed capabilities r) o found s)
  binds-Good capabilities o unresolved none s e h = same-Good limit cs s h
  binds-Good capabilities o unbound none s e h = same-Good limit cs s h
  binds-Good capabilities o (listening c a) none s e h = same-Good limit cs s h
  binds-Good capabilities o unresolved (some x) s e h =
      let t = reverse_datagram_dialed capabilities unresolved o x s in
      same-Good limit cs (if x.dialing then t else s)
        (if-Good limit cs x.dialing t s (λ _. give_up-Good limit cs _ o x s e h) (λ _. h))
  binds-Good capabilities o unbound (some x) s e h =
      let t = reverse_datagram_dialed capabilities unbound o x s in
      same-Good limit cs (if x.dialing then t else s)
        (if-Good limit cs x.dialing t s (λ _. give_up-Good limit cs _ o x s e h) (λ _. h))
  binds-Good capabilities o (listening c a) (some x) s e h = waiting x.dialing refl
    where
      waiting :
          (b : Bool)
          → x.dialing ≡ b
          → Good limit
              (cs ++ (if b then c ∷ [] else []))
              (if b then reverse_datagram_dialed capabilities (listening c a) o x s else s)
      waiting true d =
          keep_conn-Good limit cs c o x s e d h
            (frame type_listen_datagram_ok x.id (bound_address_payload capabilities (some a)))
      waiting false d = same-Good limit cs s h

open_reverse-Good :
    (cs : List ℕ) (id : ℕ) (address : List ℕ) (s : Associations)
    → Good max_concurrent_reverse_datagrams cs s
    → Good max_concurrent_reverse_datagrams cs (open_reverse_datagram id address s).1
unfolding open_reverse_datagram
open_reverse-Good cs id address s h = ground (
  arith,
  send-Good max_concurrent_reverse_datagrams cs (failure type_listen_datagram_error id invalid_open)
      s h,
  claim-Good max_concurrent_reverse_datagrams cs type_listen_datagram_error id s h,
)

reverse_step-Good :
    (cs : List ℕ) (x : ReverseStep) (s : Associations)
    → Good max_concurrent_reverse_datagrams cs s
    → Good max_concurrent_reverse_datagrams (cs ++ bound_by s x) (reverse_step s x)
unfolding reverse_step open_reverse_datagram write_reverse_datagram
reverse_step-Good cs (listens id address) s h =
    same-Good _ cs (reverse_step s (listens id address)) (open_reverse-Good cs id address s h)
reverse_step-Good cs (binds capabilities o r) s h =
    binds-Good _ cs capabilities o r (get_elem? s.store o) s refl h
reverse_step-Good cs (sends_to id payload) s h =
    same-Good _ cs (reverse_step s (sends_to id payload))
      (enqueue-Good _ cs payload id (association_of id s) s refl h)
reverse_step-Good cs (closes id) s h =
    same-Good _ cs (reverse_step s (closes id)) (remove-Good _ cs id s h)
reverse_step-Good cs (writes_to o resolve fails) s h =
    same-Good _ cs (reverse_step s (writes_to o resolve fails)) (
      when_open-Good _ cs (write_reverse_datagrams resolve fails) o (get_elem? s.store o) s
        (λ x e k. write_reverse_datagrams-Good _ cs resolve fails o x s e k) h)
reverse_step-Good cs (reads_from id packet) s h =
    same-Good _ cs (reverse_step s (reads_from id packet))
      (read_reverse_datagrams-Good _ cs id packet s h)
reverse_step-Good cs ends s h = same-Good _ cs (reverse_step s ends) (shutdown-Good _ cs s h)

reverse_steps-Good :
    (cs : List ℕ) (xs : List ReverseStep) (s : Associations)
    → Good max_concurrent_reverse_datagrams cs s
    → Good max_concurrent_reverse_datagrams (cs ++ bound_sockets s xs) (reverse_steps s xs)
unfolding reverse_steps bound_sockets
reverse_steps-Good cs [] s h = same-Good _ cs s h
reverse_steps-Good cs (x ∷ xs) s h =
    subst (λ ds. Good max_concurrent_reverse_datagrams ds (reverse_steps (reverse_step s x) xs))
      (append_assoc cs (bound_by s x) (bound_sockets (reverse_step s x) xs))
      (reverse_steps-Good (cs ++ bound_by s x) xs (reverse_step s x) (reverse_step-Good cs x s h))

-- The same of the sockets that listen on Windows: at most 64 are registered, and each that was ever
-- made, even one whose association was removed while it was being bound, is closed or is the socket
-- of an association that is not done and still registered under its identifier.
pub reverse_steps-new-Owns :
    (link : List Bool) (xs : List ReverseStep)
    → (length (reverse_steps (new_associations link) xs).registry
        ≤ max_concurrent_reverse_datagrams)
      × All
          (Owns (reverse_steps (new_associations link) xs))
          (bound_sockets (new_associations link) xs)
reverse_steps-new-Owns link xs =
    let h =
      reverse_steps-Good [] xs (new_associations link)
        (new-Good max_concurrent_reverse_datagrams link) in
    (
      h.few,
      Good-Owns max_concurrent_reverse_datagrams (bound_sockets (new_associations link) xs)
          (reverse_steps (new_associations link) xs) h,
    )

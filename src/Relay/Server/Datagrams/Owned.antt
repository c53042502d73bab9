-- ===== src/Relay/Server/Datagrams/Owned.antt =====
-- No socket of a datagram association is lost: the steps on associations that clients open.
use mathlib.Core.List.{Mem}
use wsl_win_relay.Base.{
  ℕ, ◌≤◌, ◌≡◌, refl, sym, subst, ◌⊎◌, inl, inr, Bool, true, false, List, [], ◌∷◌, ◌++◌,
  if◌then◌else◌, Result, ok, err, Option, none, some, length, get_elem?, arith, All, Bool-cases,
  append-nil, append_assoc,
}
use wsl_win_relay.Protocol.Frame.{Error, type_datagram_ok, type_datagram_error, type_datagram_data}
use wsl_win_relay.Protocol.Payload.{encode_datagram, decode_datagram}
use wsl_win_relay.Relay.Server.{Failure, bad_datagram, frame, lookup}
use wsl_win_relay.Relay.Server.Datagrams.{
  max_concurrent_datagrams, Association, Associations, new_associations, send, update,
  association_of, open_datagram, confirm, datagram_dialed, write_datagram, datagram_error, deliver,
  write_datagrams, read_datagrams,
}
use wsl_win_relay.Relay.Server.Datagrams.Steps.{
  when_dialing, when_open, Step, opens, dials, receives_data, receives_close, writes, reads,
  shuts_down, step, steps,
}
use wsl_win_relay.Relay.Server.Datagrams.Kept.{Stored, Held, Good, All-map, send-Good}
use wsl_win_relay.Relay.Server.Datagrams.Removed.{remove-Good}
use wsl_win_relay.Relay.Server.Datagrams.Moves.{
  if-Good, claim-Good, confirm-Good, queue-Good, enqueue-Good, give_up-Good, deliver-Good,
  shutdown-Good, keep_conn-Good,
}

-- A socket is closed, or an association that is registered and not done has it.
abbrev pub IsOwner : ℕ → ℕ → List (ℕ × ℕ) → Association → Type 0
IsOwner c o registry x = (x.conn ≡ some c) × (x.done ≡ false) × (lookup x.id registry ≡ some o)

abbrev pub Owns : Associations → ℕ → Type 0
Owns s c = Mem c s.closed_conns ⊎ ((o : ℕ) × Stored s.store (IsOwner c o s.registry) o)

-- The sockets that a step makes: those that a dial returns.
abbrev pub made_by : Option ℕ → Option Association → List ℕ
made_by none found = []
made_by (some conn) none = []
made_by (some conn) (some x) = if x.dialing then conn ∷ [] else []

abbrev pub made : Associations → Step → List ℕ
made s (dials o r) = made_by r (get_elem? s.store o)
made s (opens id) = []
made s (receives_data id payload) = []
made s (receives_close id) = []
made s (writes o direct resolve fails) = []
made s (reads id packet) = []
made s shuts_down = []

unfoldable pub sockets : Associations → List Step → List ℕ
unfolding step
sockets s [] = []
sockets s (x ∷ xs) = made s x ++ sockets (step s x) xs

module _ (limit : ℕ) (cs : List ℕ) where
  datagram_error-Good :
      (id : ℕ) (f : Failure) (s : Associations)
      → Good limit cs s
      → Good limit cs (datagram_error id f s)
  unfolding datagram_error
  datagram_error-Good id f s h = send-Good limit cs _ s h

  write_datagrams-Good :
      (direct : Bool) (resolve : List ℕ → Option (List ℕ)) (fails : Bool) (o : ℕ) (x : Association)
      (s : Associations)
      → get_elem? s.store o ≡ some x
      → Good limit cs s
      → Good limit cs (write_datagrams direct resolve fails o x s)
  unfolding write_datagrams
  write_datagrams-Good direct resolve fails o x s stored h = queued x.incoming
    where
      decoded :
          (r : Result Error (List ℕ × List ℕ)) (t : Associations)
          → Good limit cs t
          → Good limit cs (elim r [
            | err e ↦ datagram_error x.id bad_datagram t
            | ok (target, content) ↦ deliver datagram_error direct resolve fails x target content t
          ])
      decoded (err e) t k = datagram_error-Good x.id bad_datagram t k
      decoded (ok (target, content)) t k =
          deliver-Good limit cs datagram_error datagram_error-Good direct resolve fails x target
            content t k

      queued :
          (q : List (List ℕ))
          → Good limit cs (elim q [
            | [] ↦ s
            | payload ∷ rest ↦
                let s' = update o (record x { incoming = rest }) s in
                elim (decode_datagram payload) [
                  | err e ↦ datagram_error x.id bad_datagram s'
                  | ok (target, content) ↦
                      deliver datagram_error direct resolve fails x target content s'
                ]
          ])
      queued [] = h
      queued (payload ∷ rest) =
          decoded (decode_datagram payload) (update o (record x { incoming = rest }) s)
            (queue-Good limit cs o x rest s stored h)

  read_datagrams-Good :
      (id : ℕ) (packet : Option (List ℕ × List ℕ)) (s : Associations)
      → Good limit cs s
      → Good limit cs (read_datagrams id packet s)
  unfolding read_datagrams
  read_datagrams-Good id none s h = remove-Good limit cs id s h
  read_datagrams-Good id (some (source, bytes)) s h = encoded (encode_datagram source bytes)
    where
      encoded :
          (r : Result Error (List ℕ))
          → Good limit cs (elim r [
            | err e ↦ s
            | ok payload ↦ confirm id (send (frame type_datagram_data id payload) s)
          ])
      encoded (err e) = h
      encoded (ok payload) =
          confirm-Good limit cs id _ (send-Good limit cs (frame type_datagram_data id payload) s h)

  -- A goroutine that runs behind the opening makes no socket.
  pub when_open-Good :
      (f : ℕ → Association → Associations → Associations) (o : ℕ) (found : Option Association)
      (s : Associations)
      → ((x : Association) → found ≡ some x → Good limit cs s → Good limit cs (f o x s))
      → Good limit cs s
      → Good limit cs (when_open f o found s)
  when_open-Good f o none s keeps h = h
  when_open-Good f o (some x) s keeps h =
      if-Good limit cs x.dialing s (f o x s) (λ _. h) (λ _. keeps x refl h)

  -- Nothing more is made.
  pub same-Good : (s : Associations) → Good limit cs s → Good limit (cs ++ []) s
  same-Good s h = subst (λ ds. Good limit ds s) (sym (append-nil cs)) h

  dials-Good :
      (o : ℕ) (r : Option ℕ) (found : Option Association) (s : Associations)
      → get_elem? s.store o ≡ found
      → Good limit cs s
      → Good limit (cs ++ made_by r found) (when_dialing (datagram_dialed r) o found s)
  dials-Good o none none s e h = same-Good s h
  dials-Good o (some c) none s e h = same-Good s h
  dials-Good o none (some x) s e h =
      same-Good (if x.dialing then datagram_dialed none o x s else s) (
        if-Good limit cs x.dialing (datagram_dialed none o x s) s
          (λ _. give_up-Good limit cs _ o x s e h) (λ _. h))
  dials-Good o (some c) (some x) s e h = waiting x.dialing refl
    where
      waiting :
          (b : Bool)
          → x.dialing ≡ b
          → Good limit
              (cs ++ (if b then c ∷ [] else []))
              (if b then datagram_dialed (some c) o x s else s)
      waiting true d = keep_conn-Good limit cs c o x s e d h (frame type_datagram_ok x.id [])
      waiting false d = same-Good s h

step-Good :
    (cs : List ℕ) (x : Step) (s : Associations)
    → Good max_concurrent_datagrams cs s
    → Good max_concurrent_datagrams (cs ++ made s x) (step s x)
unfolding step open_datagram write_datagram
step-Good cs (opens id) s h =
    same-Good _ cs (step s (opens id)) (claim-Good _ cs type_datagram_error id s h)
step-Good cs (dials o r) s h = dials-Good _ cs o r (get_elem? s.store o) s refl h
step-Good cs (receives_data id payload) s h =
    same-Good _ cs (step s (receives_data id payload))
      (enqueue-Good _ cs payload id (association_of id s) s refl h)
step-Good cs (receives_close id) s h =
    same-Good _ cs (step s (receives_close id)) (remove-Good _ cs id s h)
step-Good cs (writes o direct resolve fails) s h =
    same-Good _ cs (step s (writes o direct resolve fails)) (
      when_open-Good _ cs (write_datagrams direct resolve fails) o (get_elem? s.store o) s
        (λ x e k. write_datagrams-Good _ cs direct resolve fails o x s e k) h)
step-Good cs (reads id packet) s h =
    same-Good _ cs (step s (reads id packet)) (read_datagrams-Good _ cs id packet s h)
step-Good cs shuts_down s h = same-Good _ cs (step s shuts_down) (shutdown-Good _ cs s h)

steps-Good :
    (cs : List ℕ) (xs : List Step) (s : Associations)
    → Good max_concurrent_datagrams cs s
    → Good max_concurrent_datagrams (cs ++ sockets s xs) (steps s xs)
unfolding steps sockets
steps-Good cs [] s h = same-Good _ cs s h
steps-Good cs (x ∷ xs) s h =
    subst (λ ds. Good max_concurrent_datagrams ds (steps (step s x) xs))
      (append_assoc cs (made s x) (sockets (step s x) xs))
      (steps-Good (cs ++ made s x) xs (step s x) (step-Good cs x s h))

pub new-Good : (limit : ℕ) (link : List Bool) → Good limit [] (new_associations link)
unfolding lookup
new-Good limit link = record {
  few = omega arith;
  named = λ id o e. absurd (cc e);
  kept = λ o x e. absurd (cc e);
  held = tt;
}

-- A good state owns every socket that was made.
pub Good-Owns : (limit : ℕ) (cs : List ℕ) (s : Associations) → Good limit cs s → All (Owns s) cs
Good-Owns limit cs s h = All-map (Held s.store s.closed_conns) (Owns s) owned cs h.held
  where
    owned : (c : ℕ) → Held s.store s.closed_conns c → Owns s c
    owned c (inl m) = inl m
    owned c (inr (o, (x, e, has))) = elim (Bool-cases x.done) [
      | inl d ↦ inl ((h.kept o x e).released c d has)
      | inr d ↦ inr (o, (x, e, (has, d, (h.kept o x e).registered d)))
    ]

-- Whatever frames come, dials return, sockets answer and sendings fail, in whatever order, and whether
-- or not the server shuts down meanwhile: at most 64 datagram associations are registered, and each
-- socket that was ever made for one is closed, or is the socket of an association that is not done
-- and still registered under its identifier.
pub steps-new-Owns :
    (link : List Bool) (xs : List Step)
    → (length (steps (new_associations link) xs).registry ≤ max_concurrent_datagrams)
      × All (Owns (steps (new_associations link) xs)) (sockets (new_associations link) xs)
steps-new-Owns link xs =
    let h = steps-Good [] xs (new_associations link) (new-Good max_concurrent_datagrams link) in
    (
      h.few,
      Good-Owns max_concurrent_datagrams (sockets (new_associations link) xs)
          (steps (new_associations link) xs) h,
    )

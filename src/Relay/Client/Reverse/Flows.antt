-- ===== src/Relay/Client/Reverse/Flows.antt =====
-- No socket of a flow is lost.
use mathlib.Core.List.{Mem, mem-append_left, mem-append_right, mem-cons_self, mem-cons_of_mem}
use wsl_win_relay.Base.{
  ℕ, ◌≤◌, ◌<◌, ◌≡◌, refl, ap, subst, ◌∙◌, ◌⊎◌, inl, inr, Bool, true, false, List, [], ◌∷◌, ◌++◌,
  Option, none, some, Result, ok, err, map, length, arith, All, All-append, leb, ltb, ◌==◌,
  Bool-cases, Option-cases, if◌then◌else◌,
}
use wsl_win_relay.Protocol.Frame.{
  Error, type_listen_datagram_ok, type_listen_datagram_error, type_listen_datagram_data,
  type_listen_datagram_close,
}
use wsl_win_relay.Relay.Server.Datagrams.{datagram_queue_depth}
use wsl_win_relay.Protocol.Payload.{decode_datagram}
use wsl_win_relay.Relay.Reader.{
  ReadError, eof, told, bad_datagram, resolve_failed, dial_failed, or_first,
}
use wsl_win_relay.Relay.Client.Reverse.{
  max_reverse_datagram_flows, ReverseDatagram, new_reverse_datagram, shut, fail_reverse,
  handle_reverse, flow_of, drop_flow, remove_flow, send_flow, use_flow, write_datagram, write_round,
  Event, handles, writes, ends, closes, event, events,
}
use wsl_win_relay.Relay.Client.Reverse.Keys.{
  Flow, Within, Unique, drop-Unique, length-drop_le, drop-Within,
}

abbrev pub Kept : List Flow → List ℕ → ℕ → Type 0
Kept flows closed c = Mem c closed ⊎ Within c flows

-- The flows are few and their keys different, each socket that was made is closed or a flow's, and a
-- listener that is done has no flows.
pub record IsClean (flows : List Flow) (closed opened : List ℕ) (done : Bool) : Type 0 where
  pub few : length flows ≤ max_reverse_datagram_flows
  pub unique : Unique flows
  pub kept : All (Kept flows closed) opened
  pub ended : done ≡ true → flows ≡ []

abbrev pub Clean : ReverseDatagram → Type 0
Clean l = IsClean l.flows l.closed_conns l.opened l.done

All-weaken : {P Q : ℕ → Type 0} → ((c : ℕ) → P c → Q c) → (cs : List ℕ) → All P cs → All Q cs
All-weaken f [] h = tt
All-weaken f (c ∷ cs) (k, h) = (f c k, All-weaken f cs h)

Within-conns : (c : ℕ) (m : List Flow) → Within c m → Mem c (map (λ f. f.1) m)
Within-conns c [] h = absurd h
Within-conns c (f ∷ m) (inl e) = subst (λ d. Mem d (f.1 ∷ map (λ f. f.1) m)) e mem-cons_self
Within-conns c (f ∷ m) (inr h) = mem-cons_of_mem f.1 (Within-conns c m h)

if-Clean :
    (b : Bool) (l l' : ReverseDatagram)
    → (b ≡ true → Clean l)
    → (b ≡ false → Clean l')
    → Clean (if b then l else l')
if-Clean true l l' h k = h refl
if-Clean false l l' h k = k refl

shut-Clean : (l : ReverseDatagram) → Clean l → Clean (shut l)
shut-Clean l h =
    if-Clean l.done l _ (λ _. h)
      (λ _. record {
        few = omega arith;
        unique = tt;
        kept =
            All-weaken
              (λ c k. elim k [
                | inl m ↦ inl (mem-append_left (map (λ f. f.1) l.flows) m)
                | inr w ↦ inl (mem-append_right l.closed_conns (Within-conns c l.flows w))
              ])
              l.opened h.kept;
        ended = λ _. refl;
      })

fail-Clean : (e : ReadError) (l : ReverseDatagram) → Clean l → Clean (fail_reverse e l)
unfolding fail_reverse
fail-Clean e l h =
    shut-Clean (record l { ready = or_first l.ready (err e) })
      (record { few = h.few; unique = h.unique; kept = h.kept; ended = h.ended })

-- The socket is closed, and no other one is lost.
closed-Clean :
    (key : List ℕ) (conn : ℕ) (l : ReverseDatagram)
    → Clean l
    → IsClean l.flows (l.closed_conns ++ conn ∷ []) l.opened l.done
closed-Clean key conn l h = record {
  few = h.few;
  unique = h.unique;
  kept =
      All-weaken (λ c k. elim k [ inl m ↦ inl (mem-append_left (conn ∷ []) m) | inr w ↦ inr w ])
        l.opened h.kept;
  ended = h.ended;
}

dropped-Clean :
    (key : List ℕ) (conn : ℕ) (l : ReverseDatagram)
    → Clean l
    → flow_of key l.flows ≡ some conn
    → IsClean (drop_flow key l.flows) (l.closed_conns ++ conn ∷ []) l.opened l.done
unfolding drop_flow
dropped-Clean key conn l h e = record {
  few = omega (arith, h.few, length-drop_le key l.flows);
  unique = drop-Unique key l.flows h.unique;
  kept =
      All-weaken
        (λ c k. elim k [
          | inl m ↦ inl (mem-append_left (conn ∷ []) m)
          | inr w ↦ elim (drop-Within key c conn l.flows h.unique e w) [
            | inl q ↦
                inl (mem-append_right l.closed_conns (subst (λ d. Mem c (d ∷ [])) q mem-cons_self))
            | inr v ↦ inr v
          ]
        ])
        l.opened h.kept;
  ended = λ d. rw (h.ended d) refl;
}

remove-Clean :
    (key : List ℕ) (conn : ℕ) (l : ReverseDatagram) → Clean l → Clean (remove_flow key conn l)
unfolding remove_flow
remove-Clean key conn l h = elim (Option-cases (flow_of key l.flows)) [
  | inl e ↦ rw (e, remove_flow) (closed-Clean key conn l h)
  | inr (c, e) ↦ elim (Bool-cases (c == conn)) [
    | inl eq ↦
        let q : c ≡ conn = ground arith in
        rw (e, eq, remove_flow) (dropped-Clean key conn l h (e ∙ ap some q))
    | inr ne ↦ rw (e, ne, remove_flow) (closed-Clean key conn l h)
  ]
]

send_flow-Clean :
    (fails : Bool) (key : List ℕ) (conn : ℕ) (content : List ℕ) (l : ReverseDatagram)
    → Clean l
    → Clean (send_flow fails key conn content l)
send_flow-Clean true key conn content l h = remove-Clean key conn l h
send_flow-Clean false key conn content l h = record {
  few = h.few;
  unique = h.unique;
  kept = h.kept;
  ended = h.ended;
}

added-Clean :
    (key : List ℕ) (conn : ℕ) (l : ReverseDatagram)
    → l.done ≡ false
    → flow_of key l.flows ≡ none
    → length l.flows < max_reverse_datagram_flows
    → Clean l
    → IsClean ((key, conn) ∷ l.flows) l.closed_conns (l.opened ++ conn ∷ []) l.done
added-Clean key conn l fresh free room h = record {
  few = omega arith;
  unique = (free, h.unique);
  kept =
      All-append _ l.opened (conn ∷ [])
        (All-weaken (λ c k. elim k [ inl m ↦ inl m | inr w ↦ inr (inr w) ]) l.opened h.kept)
        (inr (inl refl), tt);
  ended = λ d. absurd (cc (d, fresh));
}

use_flow-Clean :
    (dial : Option ℕ) (fails : Bool) (key content : List ℕ) (found : Option ℕ) (l : ReverseDatagram)
    → flow_of key l.flows ≡ found
    → l.done ≡ false
    → Clean l
    → Clean (use_flow dial fails key content found l)
use_flow-Clean dial fails key content (some conn) l e fresh h =
    send_flow-Clean fails key conn content l h
use_flow-Clean none fails key content none l e fresh h =
    if-Clean (leb max_reverse_datagram_flows (length l.flows)) l (fail_reverse dial_failed l)
      (λ _. h) (λ _. fail-Clean dial_failed l h)
use_flow-Clean (some conn) fails key content none l e fresh h =
    let grown : ReverseDatagram = record l {
      flows = (key, conn) ∷ l.flows;
      opened = l.opened ++ conn ∷ [];
    } in
    if-Clean (leb max_reverse_datagram_flows (length l.flows)) l
      (send_flow fails key conn content grown) (λ _. h)
      (λ room.
        send_flow-Clean fails key conn content grown
          (added-Clean key conn l fresh e (ground (arith, room)) h))

write-Clean :
    (resolve : List ℕ → Option (List ℕ)) (dial : Option ℕ) (fails : Bool) (payload : List ℕ)
    (l : ReverseDatagram)
    → Clean l
    → Clean (write_datagram resolve dial fails payload l)
unfolding write_datagram
write-Clean resolve dial fails payload l h = decoded (decode_datagram payload)
  where
    resolved :
        (content : List ℕ) (r : Option (List ℕ))
        → Clean (elim r [
          | none ↦ fail_reverse resolve_failed l
          | some key ↦ if l.done then l else use_flow dial fails key content (flow_of key l.flows) l
        ])
    resolved content none = fail-Clean resolve_failed l h
    resolved content (some key) =
        if-Clean l.done l (use_flow dial fails key content (flow_of key l.flows) l) (λ _. h)
          (λ fresh. use_flow-Clean dial fails key content (flow_of key l.flows) l refl fresh h)

    decoded :
        (r : Result Error (List ℕ × List ℕ))
        → Clean (elim r [
          | err e ↦ fail_reverse bad_datagram l
          | ok (endpoint, content) ↦ elim (resolve endpoint) [
            | none ↦ fail_reverse resolve_failed l
            | some key ↦
                if l.done then l else use_flow dial fails key content (flow_of key l.flows) l
          ]
        ])
    decoded (err e) = fail-Clean bad_datagram l h
    decoded (ok (endpoint, content)) = resolved content (resolve endpoint)

handle-Clean :
    (kind : ℕ) (payload : List ℕ) (l : ReverseDatagram)
    → Clean l
    → Clean (handle_reverse kind payload l)
unfolding handle_reverse
handle-Clean kind payload l h =
    if-Clean (kind == type_listen_datagram_ok) _ _ (λ _. same l.ready l.incoming)
      (λ _.
        if-Clean (kind == type_listen_datagram_error) _ _
          (λ _.
            fail-Clean (told payload) (record l { ready = or_first l.ready (err (told payload)) })
              (same l.ready l.incoming))
          (λ _.
            if-Clean (kind == type_listen_datagram_close) _ _ (λ _. fail-Clean eof l h)
              (λ _.
                if-Clean (kind == type_listen_datagram_data) _ _
                  (λ _.
                    if-Clean (ltb (length l.incoming) datagram_queue_depth) _ l
                      (λ _. same l.ready l.incoming) (λ _. h))
                  (λ _. h))))
  where
    same :
        (ready : Option (Result ReadError (List ℕ))) (incoming : List (List ℕ))
        → Clean (record l { ready = ready; incoming = incoming })
    same ready incoming = record { few = h.few; unique = h.unique; kept = h.kept; ended = h.ended }

round-Clean :
    (resolve : List ℕ → Option (List ℕ)) (dial : Option ℕ) (fails : Bool) (l : ReverseDatagram)
    → Clean l
    → Clean (write_round resolve dial fails l)
unfolding write_round
round-Clean resolve dial fails l h = taken l.incoming
  where
    popped : (rest : List (List ℕ)) → Clean (record l { incoming = rest })
    popped rest = record { few = h.few; unique = h.unique; kept = h.kept; ended = h.ended }

    taken :
        (q : List (List ℕ))
        → Clean (elim q [
          | [] ↦ l
          | payload ∷ rest ↦
              let l' = record l { incoming = rest } in
              if l.done then l' else write_datagram resolve dial fails payload l'
        ])
    taken [] = h
    taken (payload ∷ rest) =
        if-Clean l.done (record l { incoming = rest })
          (write_datagram resolve dial fails payload (record l { incoming = rest }))
          (λ _. popped rest)
          (λ _. write-Clean resolve dial fails payload (record l { incoming = rest }) (popped rest))

event-Clean : (x : Event) (l : ReverseDatagram) → Clean l → Clean (event l x)
unfolding event
event-Clean (handles kind payload) l h = handle-Clean kind payload l h
event-Clean (writes resolve dial fails) l h = round-Clean resolve dial fails l h
event-Clean (ends key conn) l h = remove-Clean key conn l h
event-Clean closes l h = shut-Clean l h

events-Clean : (xs : List Event) (l : ReverseDatagram) → Clean l → Clean (events l xs)
unfolding events
events-Clean [] l h = h
events-Clean (x ∷ xs) l h = events-Clean xs (event l x) (event-Clean x l h)

-- Whatever frames come for a client's datagram listener, datagrams are written, flows end and however
-- it is closed, in whatever order: it has at most 256 flows, with different keys; each socket that
-- it ever made for a flow is closed or still the socket of a flow; and once the listener is done it has
-- no flow left, so that then all of them are closed.
pub events-new-Clean :
    (id : ℕ) (address : List ℕ) (xs : List Event)
    → Clean (events (new_reverse_datagram id address) xs)
events-new-Clean id address xs =
    events-Clean xs (new_reverse_datagram id address)
      (record { few = omega arith; unique = tt; kept = tt; ended = λ _. refl })

-- ===== src/Attach/Handshake/Server/Release.antt =====
-- A handshake that fails leaves no attachment behind, whatever others do meanwhile.
use wsl_win_relay.Base.{
  subst, ℕ, ◌≡◌, ◌≢◌, refl, List, [], ◌∷◌, Result, ok, err, some, arith, Option-cases, inl, inr,
  sym,
}
use wsl_win_relay.Base.Action.{Action, resume, lift, pure, ◌>>=◌}
use wsl_win_relay.Attach.Registry.{Error, epoch_of, Registry, Call, attaches, attach, detach, holds}
use wsl_win_relay.Attach.Ownership.{IsOwned, detach-IsOwned, calls-IsOwned, call-IsOwned}
use wsl_win_relay.Attach.Payload.{encode_attach_ok_with_instance, WireError}
use wsl_win_relay.Attach.Summary.{Summary, encode_summary, decode_resume_ack, validate_resume_ack}
use wsl_win_relay.Attach.Message.{
  Message, message_attach_ok, message_registry_summary, message_resume_ack,
}
use wsl_win_relay.Attach.Handshake.{
  Channel, Session, meanwhile, send, receive, expect, on_channel, released, ServerAttachRequest,
}
use wsl_win_relay.Attach.Handshake.Server.{
  accept, answer, resume_attachment, complete_server_handshake, resume_entries,
  complete_server_resume,
}

-- The owner of a registry is not `a` any more once `a` has been detached.
detach_frees : (a : ℕ) (r : Registry) → IsOwned r → (detach a r).1.current ≢ some a
unfolding detach holds
detach_frees a r o = elim (Option-cases r.current) [
  | inl e ↦ ground arith
  | inr (b, e) ↦ let (x, at, fresh, same) = o.held b e in ground arith
]

abbrev Keeps : {A : Type 0} → Action Session WireError A → Type 0
Keeps m = (s : Session) → IsOwned s.registry → IsOwned (m s).1.registry

on_channel-Keeps : {A : Type 0} (m : Action Channel WireError A) → Keeps (on_channel m)
on_channel-Keeps m s o = meanwhile-IsOwned s.others
  where
    meanwhile-IsOwned : (others : List (List Call)) → IsOwned (meanwhile others s.registry).0
    meanwhile-IsOwned [] = o
    meanwhile-IsOwned (cs ∷ others) = calls-IsOwned cs s.registry o

bind-Keeps :
    {A B : Type 0} (m : Action Session WireError A) (f : A → Action Session WireError B)
    → Keeps m
    → ((a : A) → Keeps (f a))
    → Keeps (m >>= f)
bind-Keeps {A} {B} m f hm hf s o = behind (m s) (hm s o)
  where
    behind :
        (x : Result WireError A × Session)
        → IsOwned x.1.registry
        → IsOwned (resume x.0 f x.1).1.registry
    behind (ok a, t) h = hf a t h
    behind (err e, t) h = h

lift-Keeps : {A : Type 0} (r : Result WireError A) → Keeps (lift r)
lift-Keeps r s o = o

expect-Keeps : (kind : ℕ) (m : Message) → Keeps (expect kind m)
expect-Keeps kind m s o = ground arith

-- What a part of a handshake that holds the attachment `a` leaves: where it fails, `a` is released.
record Settled {A : Type 0} (a : ℕ) (x : Result WireError A × Session) : Type 0 where
  owned : IsOwned x.1.registry
  freed : (e : WireError) → x.0 ≡ err e → x.1.registry.current ≢ some a

released-Settled :
    {A : Type 0} (a : ℕ) (x : Result WireError A × Session)
    → IsOwned x.1.registry
    → Settled a (released a x)
released-Settled a (ok y, s) o = record { owned = o; freed = λ e h. absurd (cc h) }
released-Settled a (err y, s) o = record {
  owned = detach-IsOwned a s.registry o;
  freed = λ e h. detach_frees a s.registry o;
}

resume_entries-Keeps : (summary : Summary) → Keeps (resume_entries summary)
unfolding resume_entries
resume_entries-Keeps summary =
    bind-Keeps (lift (encode_summary summary)) _ (lift-Keeps (encode_summary summary)) (λ payload.
      bind-Keeps (on_channel (send (record { kind = message_registry_summary; payload = payload })))
        _ (on_channel-Keeps (send (record { kind = message_registry_summary; payload = payload })))
        (λ _. bind-Keeps (on_channel receive) _ (on_channel-Keeps receive) (λ m.
          bind-Keeps (expect message_resume_ack m) _ (expect-Keeps message_resume_ack m) (λ _.
            bind-Keeps (lift (decode_resume_ack m.payload)) _
              (lift-Keeps (decode_resume_ack m.payload))
              (λ ack. lift-Keeps (validate_resume_ack summary ack.0 ack.1))))))

-- Behind a part that has settled, giving the attachment back.
pure-Settled :
    {A : Type 0} (a : ℕ) (x : Result WireError A × Session)
    → Settled a x
    → Settled a (resume x.0 (λ _. pure a) x.1)
      × ((b : ℕ) → (resume x.0 (λ _. pure a) x.1).0 ≡ ok b → b ≡ a)
pure-Settled a (ok y, s) h =
    (record { owned = h.owned; freed = λ e q. absurd (cc q) }, λ b q. ground arith)
pure-Settled a (err e, s) h =
    (record { owned = h.owned; freed = λ f q. h.freed e refl }, λ b q. absurd (cc q))

resume_attachment-Settled :
    (summary : Summary) (a : ℕ) (s : Session)
    → IsOwned s.registry
    → Settled a (resume_attachment summary a s)
resume_attachment-Settled summary a s o =
    let part = resume_entries (record summary { epoch = epoch_of a s.registry }) in
    (pure-Settled a (released a (part s))
      (released-Settled a (part s) (resume_entries-Keeps _ s o))).0

accept-Settled :
    (capabilities a : ℕ) (s : Session)
    → IsOwned s.registry
    → Settled a (accept capabilities a s) × ((b : ℕ) → (accept capabilities a s).0 ≡ ok b → b ≡ a)
unfolding accept
accept-Settled capabilities a s o =
    let reply : Message = record {
      kind = message_attach_ok;
      payload =
          encode_attach_ok_with_instance (epoch_of a s.registry) capabilities
            s.registry.instance_id;
    } in
    pure-Settled a (released a (on_channel (send reply) s))
      (released-Settled a (on_channel (send reply) s) (on_channel-Keeps (send reply) s o))

behind_handshake :
    (summary : Summary) (a : ℕ) (x : Result WireError ℕ × Session)
    → Settled a x
    → ((b : ℕ) → x.0 ≡ ok b → b ≡ a)
    → Settled a (resume x.0 (resume_attachment summary) x.1)
behind_handshake summary a (ok b, s) h same =
    subst (λ c. Settled a (resume_attachment summary c s)) (sym (same b refl))
      (resume_attachment-Settled summary a s h.owned)
behind_handshake summary a (err e, s) h same = record {
  owned = h.owned;
  freed = λ f q. h.freed e refl;
}

complete_server_resume-Settled :
    (capabilities a : ℕ) (summary : Summary) (request : ServerAttachRequest) (s : Session)
    → IsOwned s.registry
    → (attach request.token s.registry).0 ≡ ok a
    → Settled a (complete_server_resume capabilities summary request s)
unfolding complete_server_resume complete_server_handshake
complete_server_resume-Settled capabilities a summary request s o attached =
    from (attach request.token s.registry) attached
      (call-IsOwned (attaches request.token) s.registry o)
  where
    from :
        (x : Result Error ℕ × Registry)
        → x.0 ≡ ok a
        → IsOwned x.1
        → Settled a (
            resume
              (answer capabilities s x).0
              (resume_attachment summary)
              (answer capabilities s x).1)
    from (ok b, r) e h =
        let (settled, same) = accept-Settled capabilities b (record s { registry = r }) h in
        subst
          (λ c. Settled c (
            resume (answer capabilities s (ok b, r)).0 (resume_attachment summary)
              (answer capabilities s (ok b, r)).1))
          (ground arith)
          (behind_handshake summary b (accept capabilities b (record s { registry = r })) settled
            same)
    from (err x, r) e h = absurd (cc e)

-- A server's handshake that has installed an attachment, and then fails for whatever reason, while
-- others may use the registry at every message, leaves the registry in order, and the attachment is
-- not its owner.
pub resume_releases :
    (capabilities a : ℕ) (summary : Summary) (request : ServerAttachRequest) (s : Session)
    (e : WireError)
    → IsOwned s.registry
    → (attach request.token s.registry).0 ≡ ok a
    → (complete_server_resume capabilities summary request s).0 ≡ err e
    → IsOwned (complete_server_resume capabilities summary request s).1.registry
      × ((complete_server_resume capabilities summary request s).1.registry.current ≢ some a)
resume_releases capabilities a summary request s e o attached failed =
    let settled = complete_server_resume-Settled capabilities a summary request s o attached in
    (settled.owned, settled.freed e failed)

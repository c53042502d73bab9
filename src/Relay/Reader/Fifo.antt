-- ===== src/Relay/Reader/Fifo.antt =====
-- What Read returns are the bytes that arrived, in their order.
use wsl_win_relay.Base.{
  ℕ, ◌≡◌, refl, sym, ap, ◌∙◌, Bool, true, false, List, [], ◌∷◌, ◌++◌, append-nil, append_assoc, ltb,
  length, arith, All, All-append, if◌then◌else◌, ◌==◌,
}
use wsl_win_relay.Protocol.Frame.{
  type_open_ok, type_open_error, type_data, type_window_update, type_half_close, type_close,
  type_reset,
}
use wsl_win_relay.Relay.Window.{add, FlowWindow}
use wsl_win_relay.Protocol.Payload.{decode_window_update}
use wsl_win_relay.Relay.Reader.{
  ReadError, bad_window_update, receive_window_exceeded, told, eof, ClientEvent, bytes, failed,
  Reply, resets, Reader, event_queue_size, reply, fail, handle_data, credit_window, handle,
}

-- the bytes in a queue
unfoldable pub contents : List ClientEvent → List ℕ
contents [] = []
contents (bytes b ∷ es) = b ++ contents es
contents (failed e ∷ es) = contents es

abbrev pub IsBytes : ClientEvent → Type 0
IsBytes (bytes b) = Unit
IsBytes (failed e) = ⊥

-- What was returned, what is buffered and what is queued are together what was received; a stream that
-- is not done has no errors in its queue.
pub record IsFifo (r : Reader) : Type 0 where
  pub order : r.returned ++ (r.read_buf ++ contents r.incoming) ≡ r.received
  pub quiet : r.done ≡ false → All IsBytes r.incoming

contents-append : (es fs : List ClientEvent) → contents (es ++ fs) ≡ contents es ++ contents fs
unfolding contents
contents-append [] fs = refl
contents-append (bytes b ∷ es) fs =
    ap (λ c. b ++ c) (contents-append es fs) ∙ sym (append_assoc b (contents es) (contents fs))
contents-append (failed e ∷ es) fs = contents-append es fs

contents-failed :
    (es : List ClientEvent) (e : ReadError) → contents (es ++ failed e ∷ []) ≡ contents es
unfolding contents
contents-failed es e = contents-append es (failed e ∷ []) ∙ append-nil (contents es)

pub fail-IsFifo : (e : ReadError) (r : Reader) → IsFifo r → IsFifo (fail e r)
unfolding fail
fail-IsFifo e r h = record {
  order = ground (arith, h.order, contents-failed r.incoming e);
  quiet = λ q. absurd (cc q);
}

pub reply-IsFifo : (f : Reply) (r : Reader) → IsFifo r → IsFifo (reply f r).1
unfolding reply
reply-IsFifo f r h = record {
  order = ground (arith, h.order);
  quiet = λ q. ground (arith, q, h.quiet);
}

push-order :
    (buf payload returned received : List ℕ) (es : List ClientEvent)
    → returned ++ (buf ++ contents es) ≡ received
    → returned ++ (buf ++ contents (es ++ bytes payload ∷ [])) ≡ received ++ payload
unfolding contents
push-order buf payload returned received es h =
    ap (λ c. returned ++ (buf ++ c))
      (contents-append es (bytes payload ∷ []) ∙ ap (λ p. contents es ++ p) (append-nil payload))
    ∙ ap (λ c. returned ++ c) (sym (append_assoc buf (contents es) payload))
    ∙ sym (append_assoc returned (buf ++ contents es) payload)
    ∙ ap (λ c. c ++ payload) h

handle_data-IsFifo : (payload : List ℕ) (r : Reader) → IsFifo r → IsFifo (handle_data payload r)
unfolding handle_data
handle_data-IsFifo payload r h = branch (ltb (length r.incoming) event_queue_size)
  where
    pushed :
        IsFifo (record r {
          incoming = r.incoming ++ bytes payload ∷ [];
          received = r.received ++ payload;
        })
    pushed = record {
      order = push-order r.read_buf payload r.returned r.received r.incoming h.order;
      quiet = λ q. All-append IsBytes r.incoming (bytes payload ∷ []) (h.quiet q) (tt, tt);
    }

    branch :
        (b : Bool)
        → IsFifo (
            if b
            then record r {
              incoming = r.incoming ++ bytes payload ∷ [];
              received = r.received ++ payload;
            }
            else fail receive_window_exceeded (reply resets r).1)
    branch true = pushed
    branch false = fail-IsFifo receive_window_exceeded _ (reply-IsFifo resets r h)

credit_window-IsFifo : (r : Reader) (c : Bool × FlowWindow) → IsFifo r → IsFifo (credit_window r c)
credit_window-IsFifo r (true, w) h = record { order = h.order; quiet = h.quiet }
credit_window-IsFifo r (false, w) h = fail-IsFifo bad_window_update r h

pub handle-IsFifo :
    (kind : ℕ) (payload : List ℕ) (r : Reader) → IsFifo r → IsFifo (handle kind payload r)
unfolding handle
handle-IsFifo kind payload r h =
    either (kind == type_open_ok) (record { order = h.order; quiet = h.quiet })
      (either (kind == type_open_error)
        (fail-IsFifo (told payload) _ (record { order = h.order; quiet = h.quiet }))
        (either (kind == type_data) (handle_data-IsFifo payload r h) (
          either (kind == type_window_update)
            (credit_window-IsFifo r (add (decode_window_update payload) r.send_window) h)
            (either (kind == type_half_close) (record { order = h.order; quiet = h.quiet })
              (either (kind == type_close) (fail-IsFifo eof r h)
                (either (kind == type_reset) (fail-IsFifo (told payload) r h) h))))))
  where
    either : {x y : Reader} (b : Bool) → IsFifo x → IsFifo y → IsFifo (if b then x else y)
    either true p q = p
    either false p q = q

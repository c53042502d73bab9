-- ===== src/Relay/Reader/Returned.antt =====
-- What a call of Read must return, and the parts of its loop that return.
use wsl_win_relay.Base.{
  subst, ℕ, ◌≡◌, sym, ap, ◌∙◌, Bool, true, false, List, [], ◌∷◌, ◌++◌, append-nil, append_assoc,
  Option, none, some, min, length, take, drop, take-append-drop, arith, All,
}
use wsl_win_relay.Relay.Reader.{
  ReadError, eof, ClientEvent, Reply, acknowledges, Reader, reply, fail, handle_data, handle,
  ReadResult, served, serve,
}
use wsl_win_relay.Relay.Reader.Fifo.{contents, IsBytes, IsFifo, reply-IsFifo}

-- the bytes of a result
abbrev pub part : Option (List ℕ × Option ReadError) → List ℕ
part none = []
part (some (p, e)) = p

-- The reader stays in order, `returned` grows by the bytes of the result, and an end of file on a
-- stream that is not done comes only when all has been returned.
pub record Returns (r : Reader) (res : ReadResult) : Type 0 where
  pub fifo : IsFifo res.1
  pub grows : res.1.returned ≡ r.returned ++ part res.0
  pub complete : res.0 ≡ some ([], some eof) → res.1.done ≡ false → res.1.returned ≡ res.1.received

pub Returns-same :
    (r : Reader) (res : ReadResult) (t : Reader)
    → t.returned ≡ r.returned
    → Returns t res
    → Returns r res
Returns-same r res t same h = record {
  fifo = h.fifo;
  grows = h.grows ∙ ap (λ c. c ++ part res.0) same;
  complete = h.complete;
}

-- An error without bytes, which is not the end of the file unless the stream is done.
pub Returns-error :
    (r t : Reader) (e : ReadError)
    → IsFifo t
    → t.returned ≡ r.returned
    → (e ≡ eof → t.done ≡ false → t.returned ≡ t.received)
    → Returns r (some ([], some e), t)
Returns-error r t e f same c = record {
  fifo = f;
  grows = same ∙ sym (append-nil r.returned);
  complete = λ q d. c (ground arith) d;
}

returned-reply : (f : Reply) (r : Reader) → (reply f r).1.returned ≡ r.returned
unfolding reply
returned-reply f r = ground arith

served-Returns :
    (r : Reader) (p : List ℕ) (x : Bool × Reader)
    → IsFifo x.1
    → x.1.returned ≡ r.returned ++ p
    → Returns r (served p x)
served-Returns r p (true, t) f g = record {
  fifo = f;
  grows = g;
  complete = λ q. absurd (ground arith);
}
served-Returns r p (false, t) f g = record {
  fifo = f;
  grows = g;
  complete = λ q. absurd (ground arith);
}

taken-order :
    (k : ℕ) (buf rest returned received : List ℕ)
    → returned ++ (buf ++ rest) ≡ received
    → (returned ++ take k buf) ++ (drop k buf ++ rest) ≡ received
taken-order k buf rest returned received h =
    append_assoc returned (take k buf) (drop k buf ++ rest)
    ∙ ap (λ c. returned ++ c)
        (sym (append_assoc (take k buf) (drop k buf) rest)
          ∙ ap (λ c. c ++ rest) (take-append-drop k buf))
    ∙ h

pub serve-Returns :
    (n : ℕ) (buf : List ℕ) (r : Reader)
    → r.returned ++ (buf ++ contents r.incoming) ≡ r.received
    → (r.done ≡ false → All IsBytes r.incoming)
    → Returns r (serve n buf r)
unfolding serve
serve-Returns n buf r order quiet =
    let k = min n (length buf) in
    let t : Reader = record r { read_buf = drop k buf; returned = r.returned ++ take k buf } in
    let f : IsFifo t = record {
      order = taken-order k buf (contents r.incoming) r.returned r.received order;
      quiet = quiet;
    } in
    served-Returns r (take k buf) (reply (acknowledges k) t) (reply-IsFifo (acknowledges k) t f)
      (returned-reply (acknowledges k) t)

pub returned-handle :
    (kind : ℕ) (payload : List ℕ) (r : Reader) → (handle kind payload r).returned ≡ r.returned
unfolding handle fail handle_data reply
returned-handle kind payload r = ground arith

pub read_buf-handle :
    (kind : ℕ) (payload : List ℕ) (r : Reader) → (handle kind payload r).read_buf ≡ r.read_buf
unfolding handle fail handle_data reply
read_buf-handle kind payload r = ground arith

pub pop-order :
    (r : Reader) (e : ClientEvent) (rest : List ClientEvent)
    → r.incoming ≡ e ∷ rest
    → r.read_buf ≡ []
    → IsFifo r
    → r.returned ++ contents (e ∷ rest) ≡ r.received
pop-order r e rest at empty h =
    sym (ap (λ b. r.returned ++ (b ++ contents (e ∷ rest))) empty)
    ∙ sym (ap (λ es. r.returned ++ (r.read_buf ++ contents es)) at)
    ∙ h.order

pub pop-quiet :
    (r : Reader) (e : ClientEvent) (rest : List ClientEvent)
    → r.incoming ≡ e ∷ rest
    → IsFifo r
    → r.done ≡ false
    → IsBytes e × All IsBytes rest
pop-quiet r e rest at h q = subst (All IsBytes) at (h.quiet q)

pub all_returned :
    (r : Reader) → r.incoming ≡ [] → r.read_buf ≡ [] → IsFifo r → r.returned ≡ r.received
unfolding contents
all_returned r at empty h =
    sym (append-nil r.returned)
    ∙ sym (ap (λ b. r.returned ++ (b ++ [])) empty)
    ∙ sym (ap (λ es. r.returned ++ (r.read_buf ++ contents es)) at)
    ∙ h.order

-- ===== src/Relay/Reader/EndOfFile.antt =====
-- Read keeps the order of the bytes, and reports the end of the file only behind the last of them.
use wsl_win_relay.Base.{
  ℕ, ◌≡◌, refl, sym, ap, ◌∙◌, Bool, true, false, ◌||◌, List, [], ◌∷◌, ◌++◌, append-nil, none, some,
  arith, if◌then◌else◌, ◌==◌,
}
use wsl_win_relay.Relay.Reader.{
  eof, timed_out, client_closed, terminal_error, ClientEvent, bytes, failed, Reader, new_reader,
  handle, Pick, handles, takes_event, expires, changes_deadline, wakes, ends, client_ends,
  ReadResult, serve, after_event, last_event, select, read_round, read_loop, read, is_eof, close,
}
use wsl_win_relay.Relay.Reader.Fifo.{contents, IsFifo, handle-IsFifo, reply-IsFifo, fail-IsFifo}
use wsl_win_relay.Relay.Reader.Returned.{
  Returns, Returns-same, Returns-error, serve-Returns, returned-handle, read_buf-handle, pop-order,
  pop-quiet, all_returned,
}

module _ (next : Reader → ReadResult)
    (ih : (t : Reader) → t.read_buf ≡ [] → IsFifo t → Returns t (next t)) where
  -- The event at the front of the queue: `stays` says that nothing else has changed.
  event-Returns :
      (n : ℕ) (r : Reader) (e : ClientEvent) (rest : List ClientEvent)
      → r.incoming ≡ e ∷ rest
      → r.read_buf ≡ []
      → IsFifo r
      → Returns r (after_event next n e (record r { incoming = rest }))
        × Returns r (last_event next n e (record r { incoming = rest }))
  unfolding contents
  event-Returns n r (bytes []) rest at empty h =
      let t : Reader = record r { incoming = rest } in
      let f : IsFifo t = record {
        order =
            ap (λ b. r.returned ++ (b ++ contents rest)) empty
            ∙ pop-order r (bytes []) rest at empty h;
        quiet = λ q. (pop-quiet r (bytes []) rest at h q).1;
      } in
      let same = Returns-same r (next t) t refl (ih t empty f) in (same, same)
  event-Returns n r (bytes (b ∷ bs)) rest at empty h =
      let t : Reader = record r { incoming = rest } in
      let same =
        serve-Returns n (b ∷ bs) t (pop-order r (bytes (b ∷ bs)) rest at empty h)
          (λ q. (pop-quiet r (bytes (b ∷ bs)) rest at h q).1) in
      (Returns-same r _ t refl same, Returns-same r _ t refl same)
  event-Returns n r (failed e) rest at empty h =
      let order =
        ap (λ b. r.returned ++ (b ++ contents rest)) empty
        ∙ pop-order r (failed e) rest at empty h in
      let noisy = λ (q : r.done ≡ false). pop-quiet r (failed e) rest at h q in
      (
        Returns-error r (record r { incoming = rest; read_eof = r.read_eof || is_eof e }) e
            (record { order = order; quiet = λ q. (noisy q).1 }) refl (λ x q. absurd (noisy q).0),
        Returns-error r (record r { incoming = rest }) e
            (record { order = order; quiet = λ q. (noisy q).1 }) refl (λ x q. absurd (noisy q).0),
      )

  queue-Returns :
      (n : ℕ) (r : Reader) (es : List ClientEvent)
      → r.incoming ≡ es
      → r.read_buf ≡ []
      → IsFifo r
      → Returns r
          (elim es [ [] ↦ next r | e ∷ rest ↦ after_event next n e (record r { incoming = rest }) ])
  queue-Returns n r [] at empty h = ih r empty h
  queue-Returns n r (e ∷ rest) at empty h = (event-Returns n r e rest at empty h).0

  select-Returns :
      (n : ℕ) (p : Pick) (r : Reader) → r.read_buf ≡ [] → IsFifo r → Returns r (select next n p r)
  select-Returns n (handles kind payload) r empty h =
      Returns-same r _ (handle kind payload r) (returned-handle kind payload r) (
        ih (handle kind payload r) (read_buf-handle kind payload r ∙ empty)
          (handle-IsFifo kind payload r h))
  select-Returns n takes_event r empty h = queue-Returns n r r.incoming refl empty h
  select-Returns n expires r empty h = Returns-error r r timed_out h refl (λ x. absurd (cc x))
  select-Returns n changes_deadline r empty h = ih r empty h
  select-Returns n wakes r empty h = ih r empty h
  select-Returns n ends r empty h = over r.done refl
    where
      over :
          (d : Bool)
          → r.done ≡ d
          → Returns r
              (elim d [ true ↦ (some ([], some (terminal_error r.terminal)), r) | false ↦ next r ])
      over true q = Returns-error r r _ h refl (λ x d. absurd (cc (q, d)))
      over false q = ih r empty h
  select-Returns n client_ends r empty h =
      Returns-error r r client_closed h refl (λ x. absurd (cc x))

  last-Returns :
      (n : ℕ) (r : Reader) (es : List ClientEvent)
      → r.incoming ≡ es
      → r.read_buf ≡ []
      → IsFifo r
      → Returns r (elim es [
        | [] ↦ (some ([], some eof), r)
        | e ∷ rest ↦ last_event next n e (record r { incoming = rest })
      ])
  last-Returns n r [] at empty h = Returns-error r r eof h refl (λ x q. all_returned r at empty h)
  last-Returns n r (e ∷ rest) at empty h = (event-Returns n r e rest at empty h).1

  read_round-Returns : (n : ℕ) (r : Reader) → IsFifo r → Returns r (read_round next n r)
  read_round-Returns n r h = from r.read_buf refl
    where
      behind :
          (b : Bool)
          → r.read_buf ≡ []
          → Returns r (elim b [
            | false ↦ next r
            | true ↦ elim r.incoming [
              | [] ↦ (some ([], some eof), r)
              | e ∷ rest ↦ last_event next n e (record r { incoming = rest })
            ]
          ])
      behind false empty = ih r empty h
      behind true empty = last-Returns n r r.incoming refl empty h

      from :
          (buf : List ℕ)
          → r.read_buf ≡ buf
          → Returns r (elim buf [
            | b ∷ bs ↦ serve n (b ∷ bs) r
            | [] ↦ elim r.read_eof [
              | false ↦ next r
              | true ↦ elim r.incoming [
                | [] ↦ (some ([], some eof), r)
                | e ∷ rest ↦ last_event next n e (record r { incoming = rest })
              ]
            ]
          ])
      from [] e = behind r.read_eof e
      from (b ∷ bs) e =
          serve-Returns n (b ∷ bs) r
            (sym (ap (λ c. r.returned ++ (c ++ contents r.incoming)) e) ∙ h.order) h.quiet

waiting-Returns : (r : Reader) → IsFifo r → Returns r (none, r)
waiting-Returns r h = record {
  fifo = h;
  grows = sym (append-nil r.returned);
  complete = λ q. absurd (cc q);
}

read_loop-Returns :
    (n : ℕ) (picks : List Pick) (r : Reader) → IsFifo r → Returns r (read_loop n picks r)
unfolding read_loop
read_loop-Returns n [] r h =
    read_round-Returns (λ t. (none, t)) (λ t _ f. waiting-Returns t f) n r h
read_loop-Returns n (p ∷ picks) r h =
    read_round-Returns (select (read_loop n picks) n p)
      (select-Returns (read_loop n picks) (λ t _ f. read_loop-Returns n picks t f) n p) n r h

-- The calls of a reader: a frame is handled, Read is called, or the stream is closed.
pub data Use : Type 0 where
  gets : ℕ → List ℕ → Use
  reads : ℕ → List Pick → Use
  shuts : Use

abbrev pub use_once : Reader → Use → Reader
use_once r (gets kind payload) = handle kind payload r
use_once r (reads n picks) = (read n picks r).1
use_once r shuts = close r

unfoldable pub uses : Reader → List Use → Reader
uses r [] = r
uses r (u ∷ us) = uses (use_once r u) us

read-Returns : (n : ℕ) (picks : List Pick) (r : Reader) → IsFifo r → Returns r (read n picks r)
unfolding read
read-Returns n picks r h =
    either (n == 0)
      (record {
        fifo = h;
        grows = sym (append-nil r.returned);
        complete = λ q. absurd (ground arith);
      })
      (read_loop-Returns n picks r h)
  where
    either :
        {x y : ReadResult} (b : Bool) → Returns r x → Returns r y → Returns r (if b then x else y)
    either true p q = p
    either false p q = q

use_once-IsFifo : (u : Use) (r : Reader) → IsFifo r → IsFifo (use_once r u)
unfolding close
use_once-IsFifo (gets kind payload) r h = handle-IsFifo kind payload r h
use_once-IsFifo (reads n picks) r h = (read-Returns n picks r h).fifo
use_once-IsFifo shuts r h = reply-IsFifo _ _ (fail-IsFifo eof r h)

uses-IsFifo : (us : List Use) (r : Reader) → IsFifo r → IsFifo (uses r us)
unfolding uses
uses-IsFifo [] r h = h
uses-IsFifo (u ∷ us) r h = uses-IsFifo us (use_once r u) (use_once-IsFifo u r h)

-- After any use of a new stream, by whatever frames, reads and closes in whatever order, and whatever
-- happens while a read waits: the bytes that reads have returned, with those that are buffered and
-- queued, are the bytes that the queue has taken, in their order; a read adds the bytes that it
-- returns; and a read that reports the end of the file without the stream having failed or been
-- closed has returned every byte.
pub uses-Returns :
    (link : List Bool) (us : List Use) (n : ℕ) (picks : List Pick)
    → let r = uses (new_reader link) us in Returns r (read n picks r)
uses-Returns link us n picks =
    read-Returns n picks (uses (new_reader link) us) (
      uses-IsFifo us (new_reader link)
        (record { order = unfold contents in refl; quiet = λ q. tt }))

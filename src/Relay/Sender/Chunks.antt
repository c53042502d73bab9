-- ===== src/Relay/Sender/Chunks.antt =====
-- What Write puts on the link: the front of its argument, in frames of an allowed size.
use wsl_win_relay.Base.{
  ℕ, zero, suc, ◌+◌, ◌≤◌, ◌<◌, ◌≡◌, ◌≢◌, refl, sym, ap, ◌∙◌, Bool, true, false, List, [], ◌∷◌, ◌++◌,
  append-nil, append_assoc, min, length, take, drop, length-append, take-append-drop,
  length-take_le, All, arith,
}
use wsl_win_relay.Protocol.Frame.{max_data_size}
use wsl_win_relay.Relay.Window.{Taken, taken, closed_pipe, deadline_moved, timed_out, blocked}
use wsl_win_relay.Relay.Window.Laws.{take-Fair}
use wsl_win_relay.Relay.Sender.{
  Sending, send_data, Ending, finished, link_failed, take_chunk, write_loop, write, Round,
  after_send, after_take,
}

-- A frame that validation accepts.
abbrev pub IsChunk : List ℕ → Type 0
IsChunk c = (0 < length c) × (length c ≤ max_data_size)

-- the bytes of a list of frames
abbrev pub bytes : List (List ℕ) → List ℕ
bytes [] = []
bytes (c ∷ cs) = c ++ bytes cs

-- New frames hold a front part of `p`, as many bytes as Write counts, and all if it finishes.
pub record Sends (p : List ℕ) (written : ℕ) (s : Sending) (r : Ending × ℕ × Sending) : Type 0 where
  pub chunks : List (List ℕ)
  pub rest : List ℕ
  pub frames : r.2.frames ≡ s.frames ++ chunks
  pub cut : p ≡ bytes chunks ++ rest
  pub count : r.1 ≡ written + length (bytes chunks)
  pub sizes : All IsChunk chunks
  pub whole : r.0 ≡ finished → rest ≡ []

Sends-none :
    (p : List ℕ) (written : ℕ) (s s' : Sending) (e : Ending)
    → s'.frames ≡ s.frames
    → e ≢ finished
    → Sends p written s (e, written, s')
Sends-none p written s s' e same unfinished = record {
  chunks = [];
  rest = p;
  frames = same ∙ sym (append-nil s.frames);
  cut = refl;
  count = omega arith;
  sizes = tt;
  whole = λ x. absurd (unfinished x);
}

-- A frame with the first `n` bytes, and then the rest.
Sends-chunk :
    (n : ℕ) (p : List ℕ) (written : ℕ) (s s' : Sending) (r : Ending × ℕ × Sending)
    → 0 < n
    → n ≤ length p
    → n ≤ max_data_size
    → s'.frames ≡ s.frames ++ take n p ∷ []
    → Sends (drop n p) (written + n) s' r
    → Sends p written s r
Sends-chunk n p written s s' r pos fits small sent h = record {
  chunks = take n p ∷ h.chunks;
  rest = h.rest;
  frames = h.frames ∙ ap (λ t. t ++ h.chunks) sent ∙ append_assoc s.frames (take n p ∷ []) h.chunks;
  cut =
      sym (take-append-drop n p)
      ∙ ap (λ t. take n p ++ t) h.cut
      ∙ sym (append_assoc (take n p) (bytes h.chunks) h.rest);
  count =
      omega (arith, h.count, length-append (take n p) (bytes h.chunks), length-take_le n p fits);
  sizes =
      ((omega (arith, length-take_le n p fits), omega (arith, length-take_le n p fits)), h.sizes);
  whole = h.whole;
}

-- What a round knows of the credit that it got.
pub take_chunk_sound :
    (p : List ℕ) (s : Sending)
    → ((take_chunk p s).1.frames ≡ s.frames)
      × ((n : ℕ)
          → (take_chunk p s).0 ≡ taken n
          → 0 < length p
          → (0 < n) × (n ≤ length p) × (n ≤ max_data_size))
unfolding take_chunk
take_chunk_sound p s =
    let f = take-Fair (min (length p) max_data_size) s.timed s.events s.window in
    (refl, λ n e pos. ground (arith, f.at_most, f.positive (omega arith) n e))

frames-send_data :
    (chunk : List ℕ) (s : Sending)
    → ((send_data chunk s).0 ≡ false → (send_data chunk s).1.frames ≡ s.frames ++ chunk ∷ [])
      × ((send_data chunk s).0 ≡ true → (send_data chunk s).1.frames ≡ s.frames)
unfolding send_data
frames-send_data chunk s = (λ h. ground arith, λ h. ground arith)

module _ (next : Round) (ih : (q : List ℕ) (w : ℕ) (t : Sending) → Sends q w t (next q w t)) where
  after_send-Sends :
      (n : ℕ) (p : List ℕ) (written : ℕ) (s : Sending) (r : Bool × Sending)
      → 0 < n
      → n ≤ length p
      → n ≤ max_data_size
      → (r.0 ≡ false → r.1.frames ≡ s.frames ++ take n p ∷ [])
        × (r.0 ≡ true → r.1.frames ≡ s.frames)
      → Sends p written s (after_send next n p written r)
  after_send-Sends n p written s (true, t) pos fits small f =
      Sends-none p written s t link_failed (f.1 refl) (λ x. cc x)
  after_send-Sends n p written s (false, t) pos fits small f =
      Sends-chunk n p written s t _ pos fits small (f.0 refl) (ih (drop n p) (written + n) t)

  after_take-Sends :
      (p : List ℕ) (written : ℕ) (s : Sending) (r : Taken × Sending)
      → r.1.frames ≡ s.frames
      → ((n : ℕ) → r.0 ≡ taken n → (0 < n) × (n ≤ length p) × (n ≤ max_data_size))
      → Sends p written s (after_take next p written r)
  after_take-Sends p written s (taken n, t) same grant =
      let (pos, fits, small) = grant n refl in
      let (one, none_sent) = frames-send_data (take n p) t in
      after_send-Sends n p written s (send_data (take n p) t) pos fits small
        (λ e. one e ∙ ap (λ f. f ++ take n p ∷ []) same, λ e. none_sent e ∙ same)
  after_take-Sends p written s (deadline_moved, t) same grant =
      let h = ih p written t in
      record {
        chunks = h.chunks;
        rest = h.rest;
        frames = h.frames ∙ ap (λ f. f ++ h.chunks) same;
        cut = h.cut;
        count = h.count;
        sizes = h.sizes;
        whole = h.whole;
      }
  after_take-Sends p written s (closed_pipe, t) same grant =
      Sends-none p written s t _ same (λ x. cc x)
  after_take-Sends p written s (timed_out, t) same grant =
      Sends-none p written s t _ same (λ x. cc x)
  after_take-Sends p written s (blocked, t) same grant = Sends-none p written s t _ same (λ x. cc x)

write_loop-Sends :
    (fuel : ℕ) (p : List ℕ) (written : ℕ) (s : Sending)
    → Sends p written s (write_loop fuel p written s)
unfolding write_loop
write_loop-Sends fuel [] written s = record {
  chunks = [];
  rest = [];
  frames = sym (append-nil s.frames);
  cut = refl;
  count = omega arith;
  sizes = tt;
  whole = λ _. refl;
}
write_loop-Sends zero (b ∷ bs) written s = Sends-none (b ∷ bs) written s s _ refl (λ x. cc x)
write_loop-Sends (suc fuel) (b ∷ bs) written s =
    let (same, grant) = take_chunk_sound (b ∷ bs) s in
    after_take-Sends (write_loop fuel) (write_loop-Sends fuel) (b ∷ bs) written s
      (take_chunk (b ∷ bs) s) same (λ n e. grant n e (omega arith))

-- Whatever happens while Write waits and whichever frame the link refuses, Write puts on the link a
-- front part of its argument in order, in frames that are neither empty nor longer than a DATA
-- frame may be; it counts the bytes that it has sent, and when it finishes it has sent all.
pub write-Sends : (p : List ℕ) (s : Sending) → Sends p 0 s (write p s)
unfolding write
write-Sends p s = write_loop-Sends (length p + length s.events) p 0 s

-- ===== src/Framed/Delivered.antt =====
-- A frame is written to one endpoint, whatever others do meanwhile, and a failure takes no attachment
-- from the link but the one that failed.
use wsl_win_relay.Base.{
  ℕ, ◌≡◌, refl, Bool, true, false, List, [], ◌∷◌, Option, none, some, Result, ok, err, Writer,
  get_elem?,
}
use wsl_win_relay.Base.Writing.{Delivers}
use wsl_win_relay.Protocol.Frame
use wsl_win_relay.Protocol.Frame.{Frame}
use wsl_win_relay.Protocol.Write.{write, encoding}
use wsl_win_relay.Protocol.Delivery.{write-Delivers}
use wsl_win_relay.Framed.Link.{
  detached, closed, stale, nil_endpoint, cancelled, close_failed, Attachment, Link, Snapshot,
  failed, waiting, holding, snapshot, is_current, Operation, operations,
}
use wsl_win_relay.Framed.Traffic.{
  put_output, Outcome, returned, Round, after_write, write_to, locked, write_round, write_frame,
}
use wsl_win_relay.Framed.Whole.{
  Reaches, Reaches-refl, Reaches-next, is_current-eq, GivesUp, detach_if_current-GivesUp,
}

-- The one attempt to send a frame: the attachment that is the current one under the lock, its writer
-- behind the attempt, which has received the frame as far as `Delivers` says, and the link when the
-- attempt is over.
pub record Attempt (f : Frame) (l : Link) : Type 0 where
  pub under_lock : Link
  pub holder : ℕ
  pub attachment : Attachment
  pub result : Result Frame.Error (Unit {0})
  pub writer : Writer
  pub over : Link
  pub earlier : Reaches l under_lock
  pub held : under_lock.current ≡ some holder
  pub stored : get_elem? under_lock.attachments holder ≡ some attachment
  pub sent : Delivers (encoding f) attachment.endpoint.output (result, writer)
  pub later : Reaches (put_output holder attachment writer under_lock) over

abbrev pub IsWritten : Frame → Link → Outcome (Unit {0}) → Type 0
IsWritten f l (some (ok u), l') = (t : Attempt f l) × (t.result ≡ ok tt) × (l' ≡ t.over)
IsWritten f l (some (err (detached e)), l') =
    (t : Attempt f l) × (t.result ≡ err e) × GivesUp t.holder t.over l'
IsWritten f l (_, l') = Reaches l l'

abbrev Attempt-next :
    (f : Frame) (l : Link) (os : List Operation) → Attempt f (operations l os) → Attempt f l
Attempt-next f l os t = record {
  under_lock = t.under_lock;
  holder = t.holder;
  attachment = t.attachment;
  result = t.result;
  writer = t.writer;
  over = t.over;
  earlier = Reaches-next l t.under_lock os t.earlier;
  held = t.held;
  stored = t.stored;
  sent = t.sent;
  later = t.later;
}

IsWritten-next :
    (f : Frame) (l : Link) (os : List Operation) (o : Outcome (Unit {0}))
    → IsWritten f (operations l os) o
    → IsWritten f l o
IsWritten-next f l os (none, l') h = Reaches-next l l' os h
IsWritten-next f l os (some (ok u), l') h = (Attempt-next f l os h.0, h.1, h.2)
IsWritten-next f l os (some (err (detached e)), l') h = (Attempt-next f l os h.0, h.1, h.2)
IsWritten-next f l os (some (err closed), l') h = Reaches-next l l' os h
IsWritten-next f l os (some (err stale), l') h = Reaches-next l l' os h
IsWritten-next f l os (some (err nil_endpoint), l') h = Reaches-next l l' os h
IsWritten-next f l os (some (err cancelled), l') h = Reaches-next l l' os h
IsWritten-next f l os (some (err (close_failed e)), l') h = Reaches-next l l' os h

module _ (f : Frame) (l : Link) (os during : List Operation) (a : ℕ)
    (held : (operations l os).current ≡ some a) where
  abbrev attempt :
      (x : Attachment) (answer : Result Frame.Error (Unit {0}) × Writer)
      → get_elem? (operations l os).attachments a ≡ some x
      → Delivers (encoding f) x.endpoint.output answer
      → Attempt f l
  attempt x answer stored sent = record {
    under_lock = operations l os;
    holder = a;
    attachment = x;
    result = answer.0;
    writer = answer.1;
    over = operations (put_output a x answer.1 (operations l os)) during;
    earlier = (os, refl);
    held = held;
    stored = stored;
    sent = sent;
    later = (during, refl);
  }

  after_write-IsWritten :
      (x : Attachment) (answer : Result Frame.Error (Unit {0}) × Writer)
      → get_elem? (operations l os).attachments a ≡ some x
      → Delivers (encoding f) x.endpoint.output answer
      → IsWritten f l (returned (after_write a during x answer (operations l os)))
  after_write-IsWritten x (ok u, w) stored sent = (attempt x (ok u, w) stored sent, refl, refl)
  after_write-IsWritten x (err e, w) stored sent =
      (attempt x (err e, w) stored sent, refl, detach_if_current-GivesUp a _)

  write_to-IsWritten :
      (x : Option Attachment)
      → get_elem? (operations l os).attachments a ≡ x
      → IsWritten f l (returned (write_to f a during x (operations l os)))
  write_to-IsWritten none e = (os, refl)
  write_to-IsWritten (some x) e =
      after_write-IsWritten x (write f x.endpoint.output) e (write-Delivers f x.endpoint.output)

-- Whatever others do while WriteFrameContext waits, takes the lock and writes: at most one attempt is
-- made, at the attachment that is the link's under the lock. On success that endpoint has received
-- the whole frame; after an error of the endpoint it has received a front part of the frame, and the
-- link has lost that attachment, if it is still the owner, and no other; otherwise nothing changes
-- but what others do.
pub write_frame-IsWritten :
    (f : Frame) (rounds : List Round) (l : Link) → IsWritten f l (write_frame f rounds l)
unfolding write_frame
write_frame-IsWritten f [] l = Reaches-refl l
write_frame-IsWritten f (r ∷ rounds) l =
    behind (write_frame-IsWritten f rounds (operations l r.before)) (snapshot l)
  where
    locked-IsWritten :
        IsWritten f (operations l r.before) (write_frame f rounds (operations l r.before))
        → (a : ℕ) (still : Bool) → is_current a (operations l r.before) ≡ still
        → IsWritten f l (locked (write_frame f rounds) f a r.during still (operations l r.before))
    locked-IsWritten later a true e =
        write_to-IsWritten f l r.before r.during a (is_current-eq a (operations l r.before) e)
          (get_elem? (operations l r.before).attachments a) refl
    locked-IsWritten later a false e =
        IsWritten-next f l r.before (write_frame f rounds (operations l r.before)) later

    waited :
        IsWritten f (operations l r.before) (write_frame f rounds (operations l r.before))
        → (gives_up : Bool)
        → IsWritten f l (elim gives_up [
          | true ↦ (some (err cancelled), operations l r.before)
          | false ↦ write_frame f rounds (operations l r.before)
        ])
    waited later true = (r.before, refl)
    waited later false =
        IsWritten-next f l r.before (write_frame f rounds (operations l r.before)) later

    behind :
        IsWritten f (operations l r.before) (write_frame f rounds (operations l r.before))
        → (s : Snapshot)
        → IsWritten f l (write_round (write_frame f rounds) f r l s (operations l r.before))
    behind later failed = Reaches-refl l
    behind later waiting = waited later r.gives_up
    behind later (holding a) = locked-IsWritten later a (is_current a (operations l r.before)) refl

-- ===== src/Framed/Traffic.antt =====
-- internal/transport/framed/link.go: ReadFrame and WriteFrameContext. The mutexes readMu and writeMu
-- let one reader and one writer at a time do input and output, but others may attach, detach and
-- close meanwhile: a schedule lists, for each round of the loop, what they do.
use wsl_win_relay.Base.{
  ℕ, Bool, true, false, List, [], ◌∷◌, Option, none, some, Result, ok, err, IoError, Writer,
  if◌then◌else◌, get_elem?, set,
}
use wsl_win_relay.Protocol.Frame
use wsl_win_relay.Protocol.Frame.{Frame}
use wsl_win_relay.Protocol.Read
use wsl_win_relay.Protocol.Write
use wsl_win_relay.Framed.Link.{
  Error, detached, closed, cancelled, Endpoint, Attachment, Link, Snapshot, failed, waiting,
  holding, snapshot, is_current, detach_if_current, Operation, operations,
}

-- protocol.Read on an endpoint; one that has been closed answers with an error.
unfoldable pub read_endpoint : Endpoint → Result Frame.Error (Frame × List ℕ)
read_endpoint e = if e.shut then err (Frame.io (IoError.failed 0)) else Read.read e.input

abbrev pub put_input : ℕ → Attachment → List ℕ → Link → Link
put_input a x rest l = record l {
  attachments = set l.attachments a (record x { endpoint = record x.endpoint { input = rest } });
}

abbrev pub put_output : ℕ → Attachment → Writer → Link → Link
put_output a x w l = record l {
  attachments = set l.attachments a (record x { endpoint = record x.endpoint { output = w } });
}

abbrev pub after_read :
    ℕ → Attachment → Result Frame.Error (Frame × List ℕ) → Link → Result Error Frame × Link
after_read a x (ok (f, rest)) l = (ok f, put_input a x rest l)
after_read a x (err e) l = (err (detached e), detach_if_current a l)

-- A round of ReadFrame behind its snapshot; there is no attachment outside the store.
abbrev pub read_from : ℕ → Option Attachment → Link → Result Error Frame × Link
read_from a none l = (err closed, l)
read_from a (some x) l = after_read a x (read_endpoint x.endpoint) l

-- A result, or `none` where the schedule is used up and ReadFrame still waits or reads.
abbrev pub Outcome : Type 0 → Type 0
Outcome A = Option (Result Error A) × Link

abbrev pub returned : {A : Type 0} → Result Error A × Link → Outcome A
returned (r, l) = (some r, l)

abbrev pub after_snapshot : (Link → Outcome Frame) → Link → Snapshot → Link → Outcome Frame
after_snapshot next l failed l' = (some (err closed), l)
after_snapshot next l waiting l' = next l'
after_snapshot next l (holding a) l' = returned (read_from a (get_elem? l'.attachments a) l')

-- ReadFrame: others work while it waits for an attachment, and while it reads.
unfoldable pub read_frame : List (List Operation) → Link → Outcome Frame
unfolding read_endpoint
read_frame [] l = (none, l)
read_frame (os ∷ schedule) l = after_snapshot (read_frame schedule) l (snapshot l) (operations l os)

-- A round of WriteFrameContext: what others do while it waits for an attachment or for the mutex,
-- and while it writes, and whether a wait ends because the context does.
pub record Round : Type 0 where
  pub before : List Operation
  pub during : List Operation
  pub gives_up : Bool

abbrev pub after_write :
    ℕ
    → List Operation
    → Attachment
    → Result Frame.Error (Unit {0}) × Writer
    → Link
    → Result Error (Unit {0}) × Link
after_write a during x (ok u, w) l = (ok u, operations (put_output a x w l) during)
after_write a during x (err e, w) l =
    (err (detached e), detach_if_current a (operations (put_output a x w l) during))

abbrev pub write_to :
    Frame → ℕ → List Operation → Option Attachment → Link → Result Error (Unit {0}) × Link
write_to f a during none l = (err closed, l)
write_to f a during (some x) l = after_write a during x (Write.write f x.endpoint.output) l

-- behind the lock: the attachment is looked at again
abbrev pub locked :
    (Link → Outcome (Unit {0})) → Frame → ℕ → List Operation → Bool → Link → Outcome (Unit {0})
locked next f a during true l = returned (write_to f a during (get_elem? l.attachments a) l)
locked next f a during false l = next l

abbrev pub write_round :
    (Link → Outcome (Unit {0})) → Frame → Round → Link → Snapshot → Link → Outcome (Unit {0})
write_round next f r l failed l' = (some (err closed), l)
write_round next f r l waiting l' = elim r.gives_up [
  | true ↦ (some (err cancelled), l')
  | false ↦ next l'
]
write_round next f r l (holding a) l' = locked next f a r.during (is_current a l') l'

-- WriteFrameContext
unfoldable pub write_frame : Frame → List Round → Link → Outcome (Unit {0})
write_frame f [] l = (none, l)
write_frame f (r ∷ rounds) l =
    write_round (write_frame f rounds) f r l (snapshot l) (operations l r.before)

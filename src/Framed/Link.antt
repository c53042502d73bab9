-- ===== src/Framed/Link.antt =====
-- internal/transport/framed/link.go: the attachments of a link. An attachment is named by its index
-- in the link's store, and the index is what the comparisons of pointers compare. The channels
-- `changed` and `closed` wake those who wait; here a waiter looks again after every step of others.
use wsl_win_relay.Base.{
  ℕ, Bool, true, false, List, [], ◌∷◌, ◌++◌, Option, none, some, Result, ok, err, IoError, Writer,
  ◌==◌, if◌then◌else◌, length, get_elem?, set,
}
use wsl_win_relay.Protocol.Frame
use wsl_win_relay.Protocol.Frame.{Frame}

-- `detached` joins ErrDetached with the error that package protocol gave.
pub data Error : Type 0 where
  detached : Frame.Error → Error
  closed stale nil_endpoint cancelled : Error
  close_failed : IoError → Error

-- The endpoint that a caller attaches: what is to be read from it, the writer to it, whether it is
-- an io.Closer, what its Close answers, and whether it has been closed.
pub record Endpoint : Type 0 where
  pub input : List ℕ
  pub output : Writer
  pub closer : Bool
  pub close_failure : Option IoError
  pub shut : Bool

pub record Attachment : Type 0 where
  pub endpoint : Endpoint
  pub released : Bool
  pub failure : Option Error

pub record Link : Type 0 where
  pub current : Option ℕ
  pub is_closed : Bool
  pub attachments : List Attachment

-- New
abbrev pub new_link : Link
new_link = record { current = none; is_closed = false; attachments = [] }

-- `if closer, ok := rw.(io.Closer); ok { closer.Close() }`
abbrev pub shut_endpoint : Endpoint → Endpoint
shut_endpoint e = if e.closer then record e { shut = true } else e

abbrev pub shut_at : Option Attachment → ℕ → Link → Link
shut_at none a l = l
shut_at (some x) a l = record l {
  attachments = set l.attachments a (record x { endpoint = shut_endpoint x.endpoint });
}

unfoldable pub close_endpoint : Option ℕ → Link → Link
close_endpoint none l = l
close_endpoint (some a) l = shut_at (get_elem? l.attachments a) a l

-- The new attachment is the current one before the old endpoint is closed.
abbrev pub install : Endpoint → Link → Result Error ℕ × Link
install e l = (
  ok (length l.attachments),
  close_endpoint l.current (record l {
    current = some (length l.attachments);
    attachments = l.attachments ++ record { endpoint = e; released = false; failure = none } ∷ [];
  }),
)

-- Attach; `none` is a nil endpoint.
unfoldable pub attach : Option Endpoint → Link → Result Error ℕ × Link
unfolding close_endpoint
attach none l = (err nil_endpoint, l)
attach (some e) l = if l.is_closed then (err closed, l) else install e l

-- What snapshot returns: an error, the channel to wait on, or the current attachment.
pub data Snapshot : Type 0 where
  failed waiting : Snapshot
  holding : ℕ → Snapshot

unfoldable pub snapshot : Link → Snapshot
snapshot l = if l.is_closed then failed else elim l.current [ none ↦ waiting | some a ↦ holding a ]

-- `l.current == a`, Attachment.Current
unfoldable pub is_current : ℕ → Link → Bool
is_current a l = elim l.current [ none ↦ false | some b ↦ b == a ]

unfoldable pub detach_if_current : ℕ → Link → Link
unfolding is_current
detach_if_current a l = if is_current a l then record l { current = none } else l

-- Close runs its body once; the channel `closed` tells whether it has run.
unfoldable pub close : Link → Link
unfolding close_endpoint
close l =
    if l.is_closed
    then l
    else close_endpoint l.current (record l { is_closed = true; current = none })

abbrev pub mark : ℕ → Attachment → Option Error → Link → Link
mark a x failure l = record l {
  attachments = set l.attachments a (record x { released = true; failure = failure });
}

abbrev pub detach_from : ℕ → Attachment → Link → Option Error × Link
detach_from a x l =
    if x.released
    then (x.failure, l)
    else if is_current a l
    then (none, record (mark a x none l) { current = none })
    else (some stale, mark a x (some stale) l)

-- Attachment.Detach
unfoldable pub detach : ℕ → Link → Option Error × Link
unfolding is_current
detach a l = elim (get_elem? l.attachments a) [ none ↦ (none, l) | some x ↦ detach_from a x l ]

-- the error of the endpoint's Close, where the attachment's Detach gave none
abbrev pub close_result : Option Error → Option Attachment → Option Error
close_result (some e) x = some e
close_result none none = none
close_result none (some x) =
    if x.endpoint.closer
    then elim x.endpoint.close_failure [ none ↦ none | some e ↦ some (close_failed e) ]
    else none

-- Attachment.Close
unfoldable pub close_attachment : ℕ → Link → Option Error × Link
unfolding detach close_endpoint
close_attachment a l =
    let (failure, l') = detach a l in
    (close_result failure (get_elem? l'.attachments a), close_endpoint (some a) l')

-- What other holders of the link and of its attachments do. `loses` is the detachIfCurrent of another
-- ReadFrame or WriteFrameContext whose endpoint has failed.
pub data Operation : Type 0 where
  attaches : Endpoint → Operation
  detaches closes_attachment loses : ℕ → Operation
  closes : Operation

abbrev pub operate : Link → Operation → Link
operate l (attaches e) = (attach (some e) l).1
operate l (detaches a) = (detach a l).1
operate l (closes_attachment a) = (close_attachment a l).1
operate l (loses a) = detach_if_current a l
operate l closes = close l

unfoldable pub operations : Link → List Operation → Link
operations l [] = l
operations l (o ∷ os) = operations (operate l o) os

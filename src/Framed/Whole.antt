-- ===== src/Framed/Whole.antt =====
-- A frame is read from one endpoint, whatever others do meanwhile, and a failure takes no attachment
-- from the link but the one that failed.
use wsl_win_relay.Base.{
  ℕ, ◌≡◌, ◌≢◌, refl, sym, ◌∙◌, true, List, [], ◌∷◌, ◌++◌, Option, none, some, Result, ok, err,
  get_elem?, arith, ==-refl,
}
use wsl_win_relay.Protocol.Frame
use wsl_win_relay.Protocol.Frame.{Frame}
use wsl_win_relay.Framed.Link.{
  detached, closed, stale, nil_endpoint, cancelled, close_failed, Attachment, Link, Snapshot,
  failed, waiting, holding, snapshot, is_current, detach_if_current, Operation, operate, operations,
}
use wsl_win_relay.Framed.Traffic.{
  read_endpoint, put_input, after_read, read_from, Outcome, returned, after_snapshot, read_frame,
}

-- What others make of a link.
abbrev pub Reaches : Link → Link → Type 0
Reaches l m = (os : List Operation) × (m ≡ operations l os)

pub operations-append :
    (l : Link) (os ps : List Operation) → operations l (os ++ ps) ≡ operations (operations l os) ps
unfolding operations
operations-append l [] ps = refl
operations-append l (o ∷ os) ps = operations-append (operate l o) os ps

pub Reaches-refl : (l : Link) → Reaches l l
unfolding operations
Reaches-refl l = ([], refl)

pub Reaches-next : (l m : Link) (os : List Operation) → Reaches (operations l os) m → Reaches l m
Reaches-next l m os (ps, e) = (os ++ ps, e ∙ sym (operations-append l os ps))

pub is_current-eq : (a : ℕ) (l : Link) → is_current a l ≡ true → l.current ≡ some a
unfolding is_current
is_current-eq a l h = ground arith

-- `l'` is `l` without the owner `a`; another owner stays.
abbrev pub GivesUp : ℕ → Link → Link → Type 0
GivesUp a l l' =
    (l.current ≡ some a → l' ≡ record l { current = none }) × (l.current ≢ some a → l' ≡ l)

pub detach_if_current-GivesUp : (a : ℕ) (l : Link) → GivesUp a l (detach_if_current a l)
unfolding detach_if_current is_current
detach_if_current-GivesUp a l = (λ h. ground (arith, ==-refl a), λ h. ground arith)

-- An attachment that was the current one, as it is when its endpoint has been read.
pub record Read (l : Link) : Type 0 where
  pub owned_by : Link
  pub at_read : Link
  pub holder : ℕ
  pub attachment : Attachment
  pub earlier : Reaches l owned_by
  pub later : Reaches owned_by at_read
  pub held : owned_by.current ≡ some holder
  pub stored : get_elem? at_read.attachments holder ≡ some attachment

abbrev pub IsRead : Link → Outcome Frame → Type 0
IsRead l (some (ok f), l') =
    (r : Read l) × (rest : List ℕ) × (read_endpoint r.attachment.endpoint ≡ ok (f, rest))
    × (l' ≡ put_input r.holder r.attachment rest r.at_read)
IsRead l (some (err (detached e)), l') =
    (r : Read l) × (read_endpoint r.attachment.endpoint ≡ err e) × GivesUp r.holder r.at_read l'
IsRead l (_, l') = Reaches l l'

abbrev Read-next : (l : Link) (os : List Operation) → Read (operations l os) → Read l
Read-next l os r = record {
  owned_by = r.owned_by;
  at_read = r.at_read;
  holder = r.holder;
  attachment = r.attachment;
  earlier = Reaches-next l r.owned_by os r.earlier;
  later = r.later;
  held = r.held;
  stored = r.stored;
}

IsRead-next :
    (l : Link) (os : List Operation) (o : Outcome Frame) → IsRead (operations l os) o → IsRead l o
IsRead-next l os (none, l') h = Reaches-next l l' os h
IsRead-next l os (some (ok f), l') h = (Read-next l os h.0, h.1, h.2, h.3)
IsRead-next l os (some (err (detached e)), l') h = (Read-next l os h.0, h.1, h.2)
IsRead-next l os (some (err closed), l') h = Reaches-next l l' os h
IsRead-next l os (some (err stale), l') h = Reaches-next l l' os h
IsRead-next l os (some (err nil_endpoint), l') h = Reaches-next l l' os h
IsRead-next l os (some (err cancelled), l') h = Reaches-next l l' os h
IsRead-next l os (some (err (close_failed e)), l') h = Reaches-next l l' os h

module _ (l : Link) (os : List Operation) (a : ℕ) (held : l.current ≡ some a) where
  after_read-IsRead :
      (x : Attachment) (answer : Result Frame.Error (Frame × List ℕ))
      → get_elem? (operations l os).attachments a ≡ some x
      → read_endpoint x.endpoint ≡ answer
      → IsRead l (returned (after_read a x answer (operations l os)))
  after_read-IsRead x (ok (f, rest)) stored e = (
    record {
      owned_by = l;
      at_read = operations l os;
      holder = a;
      attachment = x;
      earlier = Reaches-refl l;
      later = (os, refl);
      held = held;
      stored = stored;
    },
    rest,
    e,
    refl,
  )
  after_read-IsRead x (err y) stored e = (
    record {
      owned_by = l;
      at_read = operations l os;
      holder = a;
      attachment = x;
      earlier = Reaches-refl l;
      later = (os, refl);
      held = held;
      stored = stored;
    },
    e,
    detach_if_current-GivesUp a (operations l os),
  )

  read_from-IsRead :
      (x : Option Attachment)
      → get_elem? (operations l os).attachments a ≡ x
      → IsRead l (returned (read_from a x (operations l os)))
  read_from-IsRead none e = (os, refl)
  read_from-IsRead (some x) e = after_read-IsRead x (read_endpoint x.endpoint) e refl

pub snapshot-held : (l : Link) (a : ℕ) → snapshot l ≡ holding a → l.current ≡ some a
unfolding snapshot
snapshot-held l a h = ground arith

-- Whatever others do while ReadFrame waits and reads: a frame that it returns has been read whole
-- from one endpoint, whose attachment was the link's when the read began, and what is left of that
-- endpoint's input is the only change; an error of the endpoint costs the link the attachment that
-- was read from, if it is still the owner, and no other; otherwise nothing changes but what others do.
pub read_frame-IsRead :
    (schedule : List (List Operation)) (l : Link) → IsRead l (read_frame schedule l)
unfolding read_frame
read_frame-IsRead [] l = Reaches-refl l
read_frame-IsRead (os ∷ schedule) l =
    behind (read_frame-IsRead schedule (operations l os)) (snapshot l) refl
  where
    behind :
        IsRead (operations l os) (read_frame schedule (operations l os))
        → (s : Snapshot) → snapshot l ≡ s
        → IsRead l (after_snapshot (read_frame schedule) l s (operations l os))
    behind later failed e = Reaches-refl l
    behind later waiting e = IsRead-next l os (read_frame schedule (operations l os)) later
    behind later (holding a) e =
        read_from-IsRead l os a (snapshot-held l a e) (get_elem? (operations l os).attachments a)
          refl

-- ===== src/Framed/Replaced.antt =====
-- What Attach does to the endpoint that it replaces, and Close to every later call.
use wsl_win_relay.Base.{
  ℕ, ◌≡◌, refl, ap, subst, sym, ◌∙◌, ◌⊎◌, inl, inr, true, false, List, [], ◌∷◌, ◌++◌, none, some,
  ok, err, length, get_elem?, arith, Bool-cases, get_elem?-append_length, get_elem?-append_left,
  get_elem?-some_lt, get_elem?-set_ne, get_elem?-set_self,
}
use wsl_win_relay.Protocol.Frame.{Frame}
use wsl_win_relay.Framed.Link.{
  closed, Endpoint, Attachment, Link, shut_endpoint, close_endpoint, install, attach, is_current,
  close, detach, detach_if_current, close_attachment, Operation, attaches, detaches,
  closes_attachment, loses, closes, operate, operations, snapshot,
}
use wsl_win_relay.Framed.Traffic.{read_frame, Round, write_frame}
use wsl_win_relay.Framed.Owner.{IsLinked}

installed_over :
    (e : Endpoint) (l : Link) (a : ℕ) (x : Attachment)
    → l.current ≡ some a
    → get_elem? l.attachments a ≡ some x
    → let l' = (install e l).1 in
      (l'.current ≡ some (length l.attachments))
      × (get_elem? l'.attachments a ≡ some (record x { endpoint = shut_endpoint x.endpoint }))
      × (get_elem? l'.attachments (length l.attachments)
          ≡ some (record { endpoint = e; released = false; failure = none }))
unfolding close_endpoint
installed_over e l a x c h =
    let new : Attachment = record { endpoint = e; released = false; failure = none } in
    let old : Attachment = record x { endpoint = shut_endpoint x.endpoint } in
    let lt = get_elem?-some_lt l.attachments a x h in
    let there = get_elem?-append_left l.attachments (new ∷ []) a lt ∙ h in
    rw (c, close_endpoint, there)
      (
        refl,
        get_elem?-set_self (l.attachments ++ new ∷ []) a old
            (get_elem?-some_lt (l.attachments ++ new ∷ []) a x there),
        get_elem?-set_ne (l.attachments ++ new ∷ []) a (length l.attachments) old (λ q. omega arith)
            ∙ get_elem?-append_length l.attachments new,
      )

attach_closed : (e : Endpoint) (l : Link) → l.is_closed ≡ true → attach (some e) l ≡ (err closed, l)
unfolding attach
attach_closed e l c = ground (arith, c)

attach_open : (e : Endpoint) (l : Link) → l.is_closed ≡ false → attach (some e) l ≡ install e l
unfolding attach
attach_open e l c = ground (arith, c)

-- Attach on a closed link is refused and changes nothing. On an open link the new endpoint becomes
-- the owner; where it replaces another one, that one's attachment stays as it was but for its
-- endpoint, which is closed if it can be.
pub attach_replaces :
    (e : Endpoint) (l : Link)
    → ((l.is_closed ≡ true) × (attach (some e) l ≡ (err closed, l)))
      ⊎ ((l.is_closed ≡ false)
          × ((attach (some e) l).0 ≡ ok (length l.attachments))
          × ((a : ℕ) (x : Attachment)
              → l.current ≡ some a
              → get_elem? l.attachments a ≡ some x
              → let l' = (attach (some e) l).1 in
                (l'.current ≡ some (length l.attachments))
                × (get_elem? l'.attachments a
                    ≡ some (record x { endpoint = shut_endpoint x.endpoint }))
                × (get_elem? l'.attachments (length l.attachments)
                    ≡ some (record { endpoint = e; released = false; failure = none }))))
attach_replaces e l = elim (Bool-cases l.is_closed) [
  | inl c ↦ inl (c, attach_closed e l c)
  | inr opened ↦ inr (
    opened,
    ap (λ r. r.0) (attach_open e l opened),
    λ a x c h.
        subst
          (λ r.
            (r.1.current ≡ some (length l.attachments))
            × (get_elem? r.1.attachments a
                ≡ some (record x { endpoint = shut_endpoint x.endpoint }))
            × (get_elem? r.1.attachments (length l.attachments)
                ≡ some (record { endpoint = e; released = false; failure = none })))
          (sym (attach_open e l opened)) (installed_over e l a x c h),
  )
]

-- A closed link has no owner; that is what every operation keeps.
abbrev IsOver : Link → Type 0
IsOver l = (l.is_closed ≡ true) × (l.current ≡ none)

shut-IsOver : (a : ℕ) (l : Link) → IsOver l → IsOver (close_endpoint (some a) l)
unfolding close_endpoint
shut-IsOver a l o = ground (arith, o)

detach-IsOver : (a : ℕ) (l : Link) → IsOver l → IsOver (detach a l).1
unfolding detach is_current
detach-IsOver a l h = ground (arith, h)

operate-IsOver : (o : Operation) (l : Link) → IsOver l → IsOver (operate l o)
unfolding attach close close_attachment detach_if_current
operate-IsOver (attaches e) l h = ground (arith, h)
operate-IsOver (detaches a) l h = detach-IsOver a l h
operate-IsOver (closes_attachment a) l h = shut-IsOver a (detach a l).1 (detach-IsOver a l h)
operate-IsOver (loses a) l h = ground (arith, h)
operate-IsOver closes l h = ground (arith, h)

operations-IsOver : (os : List Operation) (l : Link) → IsOver l → IsOver (operations l os)
unfolding operations
operations-IsOver [] l h = h
operations-IsOver (o ∷ os) l h = operations-IsOver os (operate l o) (operate-IsOver o l h)

close-IsOver : (l : Link) → IsLinked l → IsOver (close l)
unfolding close close_endpoint
close-IsOver l o = ground (arith, o.sealed)

-- Close is for ever: whatever holders do after it, Attach, ReadFrame and WriteFrameContext answer
-- that the link is closed, change nothing, and nobody is the owner.
pub close_ends :
    (l : Link) (os ps : List Operation) (schedule : List (List Operation)) (r : Round)
    (rounds : List Round) (e : Endpoint) (f : Frame) (a : ℕ)
    → IsLinked l
    → let m = operations (close l) os in
      (attach (some e) m ≡ (err closed, m))
      × (read_frame (ps ∷ schedule) m ≡ (some (err closed), m))
      × (write_frame f (r ∷ rounds) m ≡ (some (err closed), m))
      × (is_current a m ≡ false)
unfolding read_frame write_frame snapshot is_current
close_ends l os ps schedule r rounds e f a linked =
    let (over, empty) = operations-IsOver os (close l) (close-IsOver l linked) in
    (attach_closed e _ over, ground (arith, over), ground (arith, over), ground (arith, empty))

-- ===== src/Framed/Owner.antt =====
-- Who owns a link: the invariant of Attach, Detach and Close, and what each of them does to others.
use wsl_win_relay.Base.{
  err, if◌then◌else◌, ℕ, suc, ◌≡◌, ◌≢◌, refl, sym, ap, ◌∙◌, inl, inr, Bool, true, false, List, [],
  ◌∷◌, ◌++◌, Option, none, some, length, get_elem?, set, arith, Bool-cases, Option-cases,
  length-append, length-set, get_elem?-append_length, get_elem?-some_lt, get_elem?-set_ne,
  get_elem?-set_self, ◌==◌, ==-refl,
}
use wsl_win_relay.Framed.Link.{
  install, Error, closed, stale, Endpoint, Attachment, Link, new_link, shut_endpoint,
  close_endpoint, attach, is_current, detach_if_current, close, mark, detach, close_attachment,
  Operation, attaches, detaches, closes_attachment, loses, closes, operate, operations,
}

-- The owner is the newest attachment and has not been detached; a closed link has no owner.
pub record IsLinked (l : Link) : Type 0 where
  pub newest : (a : ℕ) → l.current ≡ some a → suc a ≡ length l.attachments
  pub held :
      (a : ℕ)
      → l.current ≡ some a
      → (x : Attachment) × (get_elem? l.attachments a ≡ some x) × (x.released ≡ false)
  pub sealed : l.is_closed ≡ true → l.current ≡ none

-- Closing an endpoint that is not the owner's, or the owner's own, keeps the owner.
close_endpoint_cases {ℓ} :
    (P : Link → Type ℓ) (a : ℕ) (l : Link)
    → P l
    → ((x : Attachment)
        → get_elem? l.attachments a ≡ some x
        → P (record l {
          attachments = set l.attachments a (record x { endpoint = shut_endpoint x.endpoint });
        }))
    → P (close_endpoint (some a) l)
unfolding close_endpoint
close_endpoint_cases P a l same shut = elim (Option-cases (get_elem? l.attachments a)) [
  | inl e ↦ rw (e, close_endpoint) same
  | inr (x, e) ↦ rw (e, close_endpoint) (shut x e)
]

-- An attachment is written back with the same `released`.
rewrite-IsLinked :
    (a : ℕ) (x y : Attachment) (l : Link)
    → get_elem? l.attachments a ≡ some x
    → y.released ≡ x.released
    → IsLinked l
    → IsLinked (record l { attachments = set l.attachments a y })
rewrite-IsLinked a x y l e same o = record {
  newest = λ b c. omega (arith, o.newest b c, length-set l.attachments a y);
  held = λ b c. elim (Bool-cases (a == b)) [
    | inl eq ↦
        let (z, at, fresh) = o.held b c in
        let q : a ≡ b = ground arith in
        (
          y,
          ap (λ i. get_elem? (set l.attachments a y) i) (sym q)
              ∙ get_elem?-set_self l.attachments a y (get_elem?-some_lt l.attachments a x e),
          cc (ap (λ i. get_elem? l.attachments i) q, e, at, same, fresh),
        )
    | inr ne ↦
        let (z, at, fresh) = o.held b c in
        (z, get_elem?-set_ne l.attachments a b y (λ q. ground arith) ∙ at, fresh)
  ];
  sealed = o.sealed;
}

close_endpoint-IsLinked : (a : Option ℕ) (l : Link) → IsLinked l → IsLinked (close_endpoint a l)
close_endpoint-IsLinked none l o = unfold close_endpoint in o
close_endpoint-IsLinked (some a) l o =
    close_endpoint_cases IsLinked a l o (λ x e. rewrite-IsLinked a x _ l e refl o)

-- the link with a new owner, before the old endpoint is closed
abbrev owned : Endpoint → Link → Link
owned e l = record l {
  current = some (length l.attachments);
  attachments = l.attachments ++ record { endpoint = e; released = false; failure = none } ∷ [];
}

owned-IsLinked : (e : Endpoint) (l : Link) → l.is_closed ≡ false → IsLinked (owned e l)
owned-IsLinked e l opened = record {
  newest = λ a c. ground (
    arith,
    length-append l.attachments (record { endpoint = e; released = false; failure = none } ∷ []),
  );
  held = λ a c. (
    record { endpoint = e; released = false; failure = none },
    ground (
      arith,
      get_elem?-append_length l.attachments
          (record { endpoint = e; released = false; failure = none }),
    ),
    refl,
  );
  sealed = λ c. absurd (cc (c, opened));
}

if_cases {ℓ} :
    {A : Type 0} (P : A → Type ℓ) (b : Bool) (x y : A)
    → (b ≡ true → P x)
    → (b ≡ false → P y)
    → P (if b then x else y)
if_cases P true x y h k = h refl
if_cases P false x y h k = k refl

attach-IsLinked : (e : Endpoint) (l : Link) → IsLinked l → IsLinked (attach (some e) l).1
unfolding attach
attach-IsLinked e l o =
    if_cases (λ r. IsLinked r.1) l.is_closed (err closed, l) (install e l) (λ _. o)
      (λ opened. close_endpoint-IsLinked l.current (owned e l) (owned-IsLinked e l opened))

ownerless-IsLinked : (l : Link) (c : Bool) → IsLinked (record l { current = none; is_closed = c })
ownerless-IsLinked l c = record {
  newest = λ a e. absurd (cc e);
  held = λ a e. absurd (cc e);
  sealed = λ _. refl;
}

close-IsLinked : (l : Link) → IsLinked l → IsLinked (close l)
unfolding close
close-IsLinked l o =
    if_cases IsLinked l.is_closed l _ (λ _. o)
      (λ opened. close_endpoint-IsLinked l.current _ (ownerless-IsLinked l true))

-- An attachment that is not the owner is marked.
mark-IsLinked :
    (a : ℕ) (x : Attachment) (failure : Option Error) (l : Link)
    → l.current ≢ some a
    → IsLinked l
    → IsLinked (mark a x failure l)
mark-IsLinked a x failure l other o = record {
  newest = λ b c. omega (
    arith,
    o.newest b c,
    length-set l.attachments a (record x { released = true; failure = failure }),
  );
  held = λ b c.
      let (z, at, fresh) = o.held b c in
      (
        z,
        get_elem?-set_ne l.attachments a b _ (λ q. other (c ∙ ap (λ i. some i) (sym q))) ∙ at,
        fresh,
      );
  sealed = o.sealed;
}

not_owner : (a : ℕ) (l : Link) → is_current a l ≡ false → l.current ≢ some a
unfolding is_current
not_owner a l h = λ e. ground (arith, ==-refl a)

detach-IsLinked : (a : ℕ) (l : Link) → IsLinked l → IsLinked (detach a l).1
unfolding detach
detach-IsLinked a l o = elim (Option-cases (get_elem? l.attachments a)) [
  | inl e ↦ rw (e, detach) o
  | inr (x, e) ↦
      rw (e, detach)
        (elim (Bool-cases x.released) [
          | inl once ↦ rw once o
          | inr first ↦ rw first (elim (Bool-cases (is_current a l)) [
            | inl owner ↦ rw owner (ownerless-IsLinked (mark a x none l) l.is_closed)
            | inr other ↦ rw other (mark-IsLinked a x (some stale) l (not_owner a l other) o)
          ])
        ])
]

lose-IsLinked : (a : ℕ) (l : Link) → IsLinked l → IsLinked (detach_if_current a l)
unfolding detach_if_current
lose-IsLinked a l h =
    if_cases IsLinked (is_current a l) _ l (λ _. ownerless-IsLinked l l.is_closed) (λ _. h)

operate-IsLinked : (o : Operation) (l : Link) → IsLinked l → IsLinked (operate l o)
unfolding close_attachment
operate-IsLinked (attaches e) l h = attach-IsLinked e l h
operate-IsLinked (detaches a) l h = detach-IsLinked a l h
operate-IsLinked (closes_attachment a) l h =
    close_endpoint-IsLinked (some a) (detach a l).1 (detach-IsLinked a l h)
operate-IsLinked (loses a) l h = lose-IsLinked a l h
operate-IsLinked closes l h = close-IsLinked l h

operations-IsLinked : (os : List Operation) (l : Link) → IsLinked l → IsLinked (operations l os)
unfolding operations
operations-IsLinked [] l h = h
operations-IsLinked (o ∷ os) l h = operations-IsLinked os (operate l o) (operate-IsLinked o l h)

-- After any operations on a new link (Attach, Detach and Close of attachments, Close, and what
-- ReadFrame and WriteFrameContext do where an endpoint fails), by whatever holders in whatever order,
-- the owner is the newest attachment and has not been detached, and a closed link has no owner.
pub operations-new-IsLinked : (os : List Operation) → IsLinked (operations new_link os)
operations-new-IsLinked os = operations-IsLinked os new_link (ownerless-IsLinked new_link false)

-- ===== src/Attach/Ownership.antt =====
-- Who owns the registry: the invariant of Attach, Detach and Close.
use wsl_win_relay.Base.{
  ℕ, suc, ◌<◌, ◌≡◌, ◌≢◌, refl, ◌∙◌, ◌↔◌, false, Bool-cases, inl, inr, true, List, [], ◌∷◌, none,
  some, Option, ok, length, get_elem?, arith, All, length-append, length-set, get_elem?-set_ne,
  get_elem?-append_length, All-append, All-set, All-get_elem?, Option-cases,
}
use wsl_win_relay.Attach.Registry.{
  Registry, Attachment, Error, attach, close, detach, mark, install, next_epoch, holds, Call,
  attaches, detaches, closes, call, calls, new_with_token, stale_attachment,
}

-- The current attachment is the newest one, has not been released, and has the epoch of the
-- registry; no epoch of an attachment is zero; a closed registry has no current attachment.
pub record IsOwned (r : Registry) : Type 0 where
  pub newest : (a : ℕ) → r.current ≡ some a → suc a ≡ length r.attachments
  pub held :
      (a : ℕ)
      → r.current ≡ some a
      → (x : Attachment) × (get_elem? r.attachments a ≡ some x)
        × (x.released ≡ false)
        × (x.epoch ≡ r.epoch)
  pub nonzero : All (λ x. 0 < x.epoch) r.attachments
  pub sealed : r.closed ≡ true → r.current ≡ none

pub next_epoch_pos : (epoch : ℕ) → 0 < next_epoch epoch
unfolding next_epoch
next_epoch_pos epoch = ground arith

pub attach_cases {ℓ} :
    (P : Registry → Type ℓ) (token : List ℕ) (r : Registry)
    → P r
    → (r.closed ≡ false → P (install r (next_epoch r.epoch)).1)
    → P (attach token r).1
unfolding attach
attach_cases P token r same installed = ground arith

install-IsOwned :
    (r : Registry) → r.closed ≡ false → IsOwned r → IsOwned (install r (next_epoch r.epoch)).1
install-IsOwned r opened o = record {
  newest = λ a e. ground (
    arith,
    length-append r.attachments
        (record { epoch = next_epoch r.epoch; released = false; failure = none } ∷ []),
  );
  held = λ a e. (
    record { epoch = next_epoch r.epoch; released = false; failure = none },
    ground (
      arith,
      get_elem?-append_length r.attachments
          (record { epoch = next_epoch r.epoch; released = false; failure = none }),
    ),
    refl,
    refl,
  );
  nonzero = All-append _ r.attachments _ o.nonzero (next_epoch_pos r.epoch, tt);
  sealed = λ c. absurd (cc (c, opened));
}

mark-IsOwned :
    (a : ℕ) (x : Attachment) (failure : Option Error) (r : Registry)
    → get_elem? r.attachments a ≡ some x
    → r.current ≢ some a
    → IsOwned r
    → IsOwned (mark a x failure r)
mark-IsOwned a x failure r e other o = record {
  newest = λ b c. omega (
    arith,
    o.newest b c,
    length-set r.attachments a (record x { released = true; failure = failure }),
  );
  held = λ b c.
      let (y, at, kept, same) = o.held b c in
      (y, get_elem?-set_ne r.attachments a b _ (λ q. other (rw q c)) ∙ at, kept, same);
  nonzero = All-set _ r.attachments a _ (All-get_elem? _ r.attachments a x o.nonzero e) o.nonzero;
  sealed = o.sealed;
}

release-IsOwned :
    (a : ℕ) (x : Attachment) (r : Registry)
    → get_elem? r.attachments a ≡ some x
    → IsOwned r
    → IsOwned (record (mark a x none r) { current = none })
release-IsOwned a x r e o = record {
  newest = λ b c. absurd (cc c);
  held = λ b c. absurd (cc c);
  nonzero = All-set _ r.attachments a _ (All-get_elem? _ r.attachments a x o.nonzero e) o.nonzero;
  sealed = λ _. refl;
}

pub holds_iff : (a : ℕ) (r : Registry) → (holds a r ≡ true) ↔ (r.current ≡ some a)
unfolding holds
holds_iff a r = (λ h. ground arith, λ h. ground arith)

pub detach_cases {ℓ} :
    (P : Registry → Type ℓ) (a : ℕ) (r : Registry)
    → P r
    → ((x : Attachment)
        → get_elem? r.attachments a ≡ some x
        → x.released ≡ false
        → r.current ≡ some a
        → P (record (mark a x none r) { current = none }))
    → ((x : Attachment)
        → get_elem? r.attachments a ≡ some x
        → x.released ≡ false
        → r.current ≢ some a
        → P (mark a x (some stale_attachment) r))
    → P (detach a r).1
unfolding detach
detach_cases P a r same released stale = elim (Option-cases (get_elem? r.attachments a)) [
  | inl e ↦ rw (e, detach) same
  | inr (x, e) ↦
      rw (e, detach)
        (elim (Bool-cases x.released) [
          | inl once ↦ rw once same
          | inr first ↦ rw first (elim (Bool-cases (holds a r)) [
            | inl owner ↦ rw owner (released x e first ((holds_iff a r).0 owner))
            | inr other ↦ rw other (stale x e first (λ c. cc ((holds_iff a r).1 c, other)))
          ])
        ])
]

pub detach-IsOwned : (a : ℕ) (r : Registry) → IsOwned r → IsOwned (detach a r).1
detach-IsOwned a r o =
    detach_cases IsOwned a r o (λ x e _ _. release-IsOwned a x r e o)
      (λ x e _ other. mark-IsOwned a x _ r e other o)

close-IsOwned : (r : Registry) → IsOwned r → IsOwned (close r)
unfolding close
close-IsOwned r o = record {
  newest = λ a e. absurd (cc e);
  held = λ a e. absurd (cc e);
  nonzero = o.nonzero;
  sealed = λ _. refl;
}

pub call-IsOwned : (c : Call) (r : Registry) → IsOwned r → IsOwned (call r c)
call-IsOwned (attaches token) r o =
    attach_cases IsOwned token r o (λ opened. install-IsOwned r opened o)
call-IsOwned (detaches a) r o = detach-IsOwned a r o
call-IsOwned closes r o = close-IsOwned r o

pub calls-IsOwned : (cs : List Call) (r : Registry) → IsOwned r → IsOwned (calls r cs)
unfolding calls
calls-IsOwned [] r o = o
calls-IsOwned (c ∷ cs) r o = calls-IsOwned cs (call r c) (call-IsOwned c r o)

new-IsOwned :
    (token : List ℕ) (identity : ℕ) (r : Registry)
    → new_with_token token identity ≡ ok r
    → IsOwned r
unfolding new_with_token
new-IsOwned token identity r e = record {
  newest = λ a c. ground arith;
  held = λ a c. ground arith;
  nonzero = ground arith;
  sealed = λ c. ground arith;
}

-- After any calls on a new registry, by whatever holders in whatever order, the current attachment
-- is the newest, has not been released and has the epoch of the registry, no attachment has epoch
-- zero, and a closed registry has no current attachment.
pub calls-new-IsOwned :
    (token : List ℕ) (identity : ℕ) (r : Registry) (cs : List Call)
    → new_with_token token identity ≡ ok r
    → IsOwned (calls r cs)
calls-new-IsOwned token identity r cs e = calls-IsOwned cs r (new-IsOwned token identity r e)

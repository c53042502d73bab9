-- ===== src/Attach/Generations.antt =====
-- What the generations of attachments can and cannot do to one another.
use wsl_win_relay.Base.{
  ℕ, ◌+◌, ◌^◌, ◌<◌, ◌≡◌, ◌≢◌, refl, ap, ◌∙◌, ◌⊎◌, inl, inr, true, false, not, ◌||◌, List, [], ◌∷◌,
  none, some, Option, ok, err, length, get_elem?, set, arith, bytes_eq, bytes_eq_iff,
  get_elem?-set_self, get_elem?-set_ne, get_elem?-append_length, get_elem?-append_left,
  get_elem?-some_lt, ◌==◌, Bool-cases,
}
use wsl_win_relay.Attach.Registry.{
  Registry, Attachment, Error, invalid_token, registry_closed, stale_attachment, attach, close,
  detach, detach_from, install, next_epoch, current_epoch, is_current, holds, Call, attaches,
  detaches, closes, call, calls,
}
use wsl_win_relay.Attach.Ownership.{next_epoch_pos, attach_cases, detach_cases}

abbrev new_attachment : ℕ → Attachment
new_attachment epoch = record { epoch = epoch; released = false; failure = none }

refused_token :
    (token : List ℕ) (r : Registry)
    → (length token == 0 || not (bytes_eq token r.token)) ≡ true
    → (token ≡ []) ⊎ (token ≢ r.token)
refused_token [] r h = inl refl
refused_token (b ∷ bs) r h =
    inr (λ e. let same = (bytes_eq_iff (b ∷ bs) r.token).1 e in ground arith)

accepted_token :
    (token : List ℕ) (r : Registry)
    → (length token == 0 || not (bytes_eq token r.token)) ≡ false
    → (token ≡ r.token) × (token ≢ [])
accepted_token [] r h = absurd (cc h)
accepted_token (b ∷ bs) r h = ((bytes_eq_iff (b ∷ bs) r.token).0 (ground arith), λ e. cc e)

install_exact :
    (r : Registry)
    → r.closed ≡ false
    → let s = (install r (next_epoch r.epoch)).1 in
      ((install r (next_epoch r.epoch)).0 ≡ ok (length r.attachments))
      × ((a : ℕ) → is_current a s ≡ (a == length r.attachments))
      × (current_epoch s ≡ s.epoch)
      × (0 < s.epoch)
      × (r.epoch + 1 < 2 ^ 64 → s.epoch ≡ r.epoch + 1)
unfolding is_current current_epoch
install_exact r o = (
  refl,
  λ a. ground arith,
  ground (arith, get_elem?-append_length r.attachments (new_attachment (next_epoch r.epoch))),
  next_epoch_pos r.epoch,
  λ h. unfold next_epoch in ground arith,
)

attach_closed :
    (token : List ℕ) (r : Registry) → r.closed ≡ true → attach token r ≡ (err registry_closed, r)
unfolding attach
attach_closed token r c = ground arith

module _ (token : List ℕ) (r : Registry) (o : r.closed ≡ false) where
  attach_refused :
      (length token == 0 || not (bytes_eq token r.token)) ≡ true
      → attach token r ≡ (err invalid_token, r)
  unfolding attach
  attach_refused bad = ground arith

  attach_accepted :
      (length token == 0 || not (bytes_eq token r.token)) ≡ false
      → attach token r ≡ install r (next_epoch r.epoch)
  unfolding attach
  attach_accepted good = ground arith

-- Attach refuses on a closed registry, and on a token that is empty or not the registry's, and then
-- changes nothing; otherwise it makes a new attachment, the only current one, with an epoch that is
-- not zero, and that is the successor of the last one unless that was the last word.
pub attach_exact :
    (token : List ℕ) (r : Registry)
    → ((r.closed ≡ true) × (attach token r ≡ (err registry_closed, r)))
      ⊎ ((r.closed ≡ false)
          × ((token ≡ []) ⊎ (token ≢ r.token))
          × (attach token r ≡ (err invalid_token, r)))
      ⊎ ((r.closed ≡ false)
          × (token ≡ r.token)
          × (token ≢ [])
          × (let s = (attach token r).1 in
              ((attach token r).0 ≡ ok (length r.attachments))
              × ((a : ℕ) → is_current a s ≡ (a == length r.attachments))
              × (current_epoch s ≡ s.epoch)
              × (0 < s.epoch)
              × (r.epoch + 1 < 2 ^ 64 → s.epoch ≡ r.epoch + 1)))
attach_exact token r = elim (Bool-cases r.closed) [
  | inl c ↦ inl (c, attach_closed token r c)
  | inr o ↦ elim (Bool-cases (length token == 0 || not (bytes_eq token r.token))) [
    | inl bad ↦ inr (inl (o, refused_token token r bad, attach_refused token r o bad))
    | inr good ↦
        let (same, some_token) = accepted_token token r good in
        inr (inr (o, same, some_token, rw (attach_accepted token r o good) (install_exact r o)))
  ]
]

-- The current generation is safe from the others: Detach of an attachment that is not the current
-- one leaves the owner and the epoch in place, and its first call reports that it is stale.
pub detach_stale :
    (a : ℕ) (x : Attachment) (r : Registry)
    → get_elem? r.attachments a ≡ some x
    → r.current ≢ some a
    → ((detach a r).1.current ≡ r.current)
      × ((detach a r).1.epoch ≡ r.epoch)
      × (x.released ≡ false → (detach a r).0 ≡ some stale_attachment)
unfolding detach holds
detach_stale a x r e stale = ground arith

-- What a released attachment answers stays the same under any calls.
abbrev Keeps : ℕ → Attachment → Registry → Type 0
Keeps a x r = get_elem? r.attachments a ≡ some x

call-Keeps :
    (a : ℕ) (x : Attachment) (r : Registry) (c : Call)
    → x.released ≡ true
    → Keeps a x r
    → Keeps a x (call r c)
call-Keeps a x r (attaches token) once k =
    attach_cases (Keeps a x) token r k
      (λ _. get_elem?-append_left r.attachments _ a (get_elem?-some_lt r.attachments a x k) ∙ k)
call-Keeps a x r (detaches b) once k =
    detach_cases (Keeps a x) b r k
      (λ y e first _. get_elem?-set_ne r.attachments b a _ (other y e first) ∙ k)
      (λ y e first _. get_elem?-set_ne r.attachments b a _ (other y e first) ∙ k)
  where
    other : (y : Attachment) → get_elem? r.attachments b ≡ some y → y.released ≡ false → b ≢ a
    other y e first same = cc (ap (λ i. get_elem? r.attachments i) same, e, k, once, first)
call-Keeps a x r closes once k = unfold close in k

calls-Keeps :
    (a : ℕ) (x : Attachment) (r : Registry) (cs : List Call)
    → x.released ≡ true
    → Keeps a x r
    → Keeps a x (calls r cs)
unfolding calls
calls-Keeps a x r [] once k = k
calls-Keeps a x r (c ∷ cs) once k = calls-Keeps a x (call r c) cs once (call-Keeps a x r c once k)

answer_kept :
    (a : ℕ) (y : Attachment) (r : Registry)
    → get_elem? r.attachments a ≡ some y
    → y.released ≡ true
    → detach a r ≡ (y.failure, r)
unfolding detach
answer_kept a y r e once = rw (e, detach, once)

-- the attachment as a Detach leaves it
abbrev Left : ℕ → Option Error × Registry → Type 0
Left a (answer, s) = (y : Attachment) × Keeps a y s × (y.released ≡ true) × (y.failure ≡ answer)

released_from :
    (a : ℕ) (x : Attachment) (r : Registry)
    → get_elem? r.attachments a ≡ some x
    → Left a (detach_from a x r)
released_from a x r e = elim (Bool-cases x.released) [
  | inl once ↦ rw once (x, e, once, refl)
  | inr first ↦ rw first (elim (Bool-cases (holds a r)) [
    | inl owner ↦ rw owner (record x { released = true; failure = none }, written none, refl, refl)
    | inr other ↦ rw other (
      record x { released = true; failure = some stale_attachment },
      written (some stale_attachment),
      refl,
      refl,
    )
  ])
]
  where
    written :
        (f : Option Error)
        → get_elem? (set r.attachments a (record x { released = true; failure = f })) a
          ≡ some (record x { released = true; failure = f })
    written f =
        get_elem?-set_self r.attachments a (record x { released = true; failure = f })
          (get_elem?-some_lt r.attachments a x e)

released_by :
    (a : ℕ) (x : Attachment) (r : Registry)
    → get_elem? r.attachments a ≡ some x
    → Left a (detach a r)
unfolding detach
released_by a x r e = rw (e, detach) (released_from a x r e)

-- Detach is idempotent: after a first call, and then any calls by whoever, a second call answers
-- what the first one answered and changes nothing.
pub detach_twice :
    (a : ℕ) (x : Attachment) (r : Registry) (cs : List Call)
    → get_elem? r.attachments a ≡ some x
    → let s = calls (detach a r).1 cs in detach a s ≡ ((detach a r).0, s)
detach_twice a x r cs e =
    let (y, kept, once, answer) = released_by a x r e in
    answer_kept a y _ (calls-Keeps a y _ cs once kept) once
    ∙ ap (λ f. (f, calls (detach a r).1 cs)) answer

closed_call :
    (r : Registry) (c : Call)
    → r.closed ≡ true
    → r.current ≡ none
    → ((call r c).closed ≡ true) × ((call r c).current ≡ none)
unfolding attach detach close holds
closed_call r (attaches token) c n = ground arith
closed_call r (detaches a) c n = ground arith
closed_call r closes c n = ground arith

closed_calls :
    (cs : List Call) (r : Registry)
    → r.closed ≡ true
    → r.current ≡ none
    → ((calls r cs).closed ≡ true) × ((calls r cs).current ≡ none)
unfolding calls
closed_calls [] r c n = (c, n)
closed_calls (k ∷ cs) r c n = let (c', n') = closed_call r k c n in closed_calls cs (call r k) c' n'

-- Close is for ever: after it, and whatever calls follow, every Attach is refused, nobody is the
-- current attachment, and the epoch reads as zero.
pub close_permanent :
    (r : Registry) (cs : List Call) (token : List ℕ) (a : ℕ)
    → let s = calls (close r) cs in
      ((attach token s).0 ≡ err registry_closed) × (is_current a s ≡ false) × (current_epoch s ≡ 0)
unfolding attach is_current current_epoch
close_permanent r cs token a =
    let (c, n) = closed_calls cs (close r) (unfold close in refl) (unfold close in refl) in
    (rw (c, attach), rw (c, is_current), rw (n, current_epoch))

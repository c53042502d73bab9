-- ===== src/Attach/Registry.antt =====
-- internal/transport/attach/registry.go. Attachments are objects that several holders share, so
-- the registry keeps them in a store: an attachment is named by its index, and the index is what
-- the comparisons of pointers compare. `released` says whether the `once` of Detach has run.
use wsl_win_relay.Base.{
  ℕ, ◌+◌, ◌%◌, ◌^◌, Bool, true, false, not, ◌&&◌, ◌||◌, List, [], ◌∷◌, ◌++◌, Option, none, some,
  Result, ok, err, bytes_eq, ◌==◌, if◌then◌else◌, length, get_elem?, set,
}

pub data Error : Type 0 where
  invalid_token registry_closed stale_attachment empty_attach_token : Error

pub record Attachment : Type 0 where
  pub epoch : ℕ
  pub released : Bool
  pub failure : Option Error

pub record Registry : Type 0 where
  pub token : List ℕ
  pub instance_id : ℕ
  pub epoch : ℕ
  pub current : Option ℕ
  pub closed : Bool
  pub attachments : List Attachment

-- The identity is what crypto/rand gave, as a word.
unfoldable pub new_with_token : List ℕ → ℕ → Result Error Registry
new_with_token token identity =
    if length token == 0
    then err empty_attach_token
    else ok (record {
      token = token;
      instance_id = if identity == 0 then 1 else identity;
      epoch = 0;
      current = none;
      closed = false;
      attachments = [];
    })

-- The epoch is a uint64; it wraps past zero, which is no generation.
unfoldable pub next_epoch : ℕ → ℕ
next_epoch epoch =
    let next = (epoch + 1) % 2 ^ 64 in if next == 0 then (next + 1) % 2 ^ 64 else next

abbrev pub install : Registry → ℕ → Result Error ℕ × Registry
install r epoch = (
  ok (length r.attachments),
  record r {
    epoch = epoch;
    current = some (length r.attachments);
    attachments = r.attachments ++ record { epoch = epoch; released = false; failure = none } ∷ [];
  },
)

unfoldable pub attach : List ℕ → Registry → Result Error ℕ × Registry
unfolding next_epoch
attach token r =
    if r.closed
    then (err registry_closed, r)
    else if length token == 0 || not (bytes_eq token r.token)
    then (err invalid_token, r)
    else install r (next_epoch r.epoch)

unfoldable pub close : Registry → Registry
close r = record r { closed = true; current = none }

-- the epoch of an attachment; there is no attachment outside the store
unfoldable pub epoch_of : ℕ → Registry → ℕ
epoch_of a r = elim (get_elem? r.attachments a) [ none ↦ 0 | some x ↦ x.epoch ]

unfoldable pub current_epoch : Registry → ℕ
unfolding epoch_of
current_epoch r = elim r.current [ none ↦ 0 | some a ↦ epoch_of a r ]

-- `r.current == a`
unfoldable pub holds : ℕ → Registry → Bool
holds a r = elim r.current [ none ↦ false | some b ↦ b == a ]

unfoldable pub is_current : ℕ → Registry → Bool
unfolding holds
is_current a r = not r.closed && holds a r

abbrev pub mark : ℕ → Attachment → Option Error → Registry → Registry
mark a x failure r = record r {
  attachments = set r.attachments a (record x { released = true; failure = failure });
}

-- Detach of the attachment `x` at index `a`: the body of `once` runs once, its error is kept.
abbrev pub detach_from : ℕ → Attachment → Registry → Option Error × Registry
detach_from a x r =
    if x.released
    then (x.failure, r)
    else if holds a r
    then (none, record (mark a x none r) { current = none })
    else (some stale_attachment, mark a x (some stale_attachment) r)

unfoldable pub detach : ℕ → Registry → Option Error × Registry
unfolding holds
detach a r = elim (get_elem? r.attachments a) [ none ↦ (none, r) | some x ↦ detach_from a x r ]

-- The calls that holders of the registry and of its attachments make.
pub data Call : Type 0 where
  attaches : List ℕ → Call
  detaches : ℕ → Call
  closes : Call

abbrev pub call : Registry → Call → Registry
call r (attaches token) = (attach token r).1
call r (detaches a) = (detach a r).1
call r closes = close r

unfoldable pub calls : Registry → List Call → Registry
calls r [] = r
calls r (c ∷ cs) = calls (call r c) cs

-- ===== src/Relay/Client/Lost.antt =====
-- A listener of the client that no identifier names and whose call has no result.
use wsl_win_relay.Base.{
  ℕ, ◌<◌, ◌≡◌, ◌≢◌, ap, sym, ◌∙◌, inl, inr, Bool, true, false, List, [], ◌∷◌, ◌++◌, Option, none,
  some, ◌==◌, if◌then◌else◌, length, get_elem?, arith, Bool-cases, Option-cases, get_elem?-set_ne,
  get_elem?-append_left, get_elem?-some_lt,
}
use wsl_win_relay.Relay.Server.{lookup, delete}
use wsl_win_relay.Relay.Client.{
  ClientListener, new_listener, Sent, Client, write, insert, remove_listener, or_undo, change,
  change_registered,
}
use wsl_win_relay.Relay.Client.Steps.{answer_listener}
use wsl_win_relay.Relay.Server.Removal.{lookup-delete_self, lookup-delete_ne}
use wsl_win_relay.Relay.Client.Ended.{Has}

abbrev pub Unanswered : ClientListener → Type 0
Unanswered l = l.ready ≡ none

-- No identifier names the listener `o`, and its call has no result.
pub record IsLost (o : ℕ) (m : List (ℕ × ℕ)) (store : List ClientListener) : Type 0 where
  pub unnamed : (id : ℕ) → lookup id m ≢ some o
  pub waits : Has Unanswered store o

abbrev pub Lost : ℕ → Client → Type 0
Lost o c = IsLost o c.registries.listeners c.listener_store

delete-unnamed :
    (o k : ℕ) (m : List (ℕ × ℕ))
    → ((id : ℕ) → lookup id m ≢ some o)
    → (id : ℕ) → lookup id (delete k m) ≢ some o
delete-unnamed o k m h id e = elim (Bool-cases (id == k)) [
  | inl eq ↦ let q : id ≡ k = ground arith in cc (q, lookup-delete_self k m, e)
  | inr ne ↦ h id (sym (lookup-delete_ne k id m (λ q. ground arith)) ∙ e)
]

module _ (o : ℕ) where
  pub write-Lost : (f : Sent) (c : Client) → Lost o c → Lost o (write f c).1
  unfolding write
  write-Lost f c h = ground (arith, h)

  pub remove-Lost : (id : ℕ) (c : Client) → Lost o c → Lost o (remove_listener id c)
  unfolding remove_listener
  remove-Lost id c h = record {
    unnamed = delete-unnamed o id c.registries.listeners h.unnamed;
    waits = h.waits;
  }

  pub undo-Lost :
      (undo : Client → Client) (r : Bool × Client)
      → ((c : Client) → Lost o c → Lost o (undo c))
      → Lost o r.1
      → Lost o (or_undo undo r).1
  undo-Lost undo (true, c) keeps h = keeps c h
  undo-Lost undo (false, c) keeps h = h

  pub if-Lost :
      (b : Bool) (r r' : Bool × Client) → Lost o r.1 → Lost o r'.1 → Lost o (if b then r else r').1
  if-Lost true r r' h k = h
  if-Lost false r r' h k = k

  pub choose-Lost : (b : Bool) (c d : Client) → Lost o c → Lost o d → Lost o (if b then c else d)
  choose-Lost true c d h k = h
  choose-Lost false c d h k = k

  pub added-Lost :
      (id : ℕ) (address : List ℕ) (m : List (ℕ × ℕ)) (store : List ClientListener)
      → IsLost o m store
      → IsLost o (insert id (length store) m) (store ++ new_listener id address ∷ [])
  unfolding lookup
  added-Lost id address m store h =
      let (l, e, waits) = h.waits in
      let old : o < length store = get_elem?-some_lt store o l e in
      record {
        unnamed = λ k q. elim (Bool-cases (id == k)) [
          | inl eq ↦ let same : length store ≡ o = ground (arith, q, eq) in absurd (omega arith)
          | inr ne ↦ delete-unnamed o id m h.unnamed k (ground (arith, q, ne))
        ];
        waits = (l, get_elem?-append_left store (new_listener id address ∷ []) o old ∙ e, waits);
      }

  pub answered-Lost :
      (kind : ℕ) (payload : List ℕ) (m : List (ℕ × ℕ)) (found : Option ℕ) (id : ℕ)
      (store : List ClientListener)
      → lookup id m ≡ found
      → IsLost o m store
      → IsLost o m (change_registered (answer_listener kind payload) found store)
  answered-Lost kind payload m none id store at h = h
  answered-Lost kind payload m (some p) id store at h = record {
    unnamed = h.unnamed;
    waits =
        let (l, e, waits) = h.waits in
        let other : p ≢ o = λ q. h.unnamed id (at ∙ ap some q) in
        elim (Option-cases (get_elem? store p)) [
          | inl q ↦ rw (q, change) (l, e, waits)
          | inr (y, q) ↦
              rw (q, change)
                (l, get_elem?-set_ne store p o (answer_listener kind payload y) other ∙ e, waits)
        ];
  }

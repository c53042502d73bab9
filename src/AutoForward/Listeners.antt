-- ===== src/AutoForward/Listeners.antt =====
-- internal/autoforward/proc.go: one listener for each network and port (normalizeListeners).
use wsl_win_relay.Base.{
  ℕ, Bool, true, false, ◌&&◌, ◌||◌, List, [], ◌∷◌, ltb, ◌==◌, if◌then◌else◌, bytes_eq,
}
use wsl_win_relay.Base.Text.{codes}

pub record Listener : Type 0 where
  pub network : List ℕ
  pub host : List ℕ
  pub port : ℕ

-- `<` on strings
unfoldable pub text_ltb : List ℕ → List ℕ → Bool
text_ltb xs [] = false
text_ltb [] (y ∷ ys) = true
text_ltb (x ∷ xs) (y ∷ ys) = let rest = text_ltb xs ys in if x == y then rest else ltb x y

abbrev pub is_wildcard : List ℕ → Bool
is_wildcard host = bytes_eq host [] || bytes_eq host (codes "0.0.0.0") || bytes_eq host (codes "::")

unfoldable pub preferred_listener : Listener → Listener → Bool
unfolding bytes_eq text_ltb
preferred_listener candidate current =
    if is_wildcard candidate.host
    then if is_wildcard current.host then text_ltb candidate.host current.host else true
    else if is_wildcard current.host
    then false
    else text_ltb candidate.host current.host

abbrev pub same_key : Listener → Listener → Bool
same_key l k = l.port == k.port && bytes_eq l.network k.network

-- `byKey`: the listeners that it maps their keys to. A new one replaces that of its key if it is
-- preferred.
unfoldable pub keep : Listener → List Listener → List Listener
unfolding preferred_listener bytes_eq
keep l [] = l ∷ []
keep l (k ∷ ks) =
    let rest = keep l ks in
    if same_key l k then (if preferred_listener l k then l ∷ ks else k ∷ ks) else k ∷ rest

unfoldable pub by_key : List Listener → List Listener → List Listener
unfolding keep
by_key kept [] = kept
by_key kept (l ∷ ls) = by_key (keep l kept) ls

-- the order of the result
unfoldable pub before : Listener → Listener → Bool
unfolding text_ltb
before l k = if l.port == k.port then text_ltb l.network k.network else ltb l.port k.port

-- sort.Slice: a list is put in order
unfoldable pub insert : Listener → List Listener → List Listener
unfolding before
insert l [] = l ∷ []
insert l (k ∷ ks) = let rest = insert l ks in if before l k then l ∷ k ∷ ks else k ∷ rest

unfoldable pub sort : List Listener → List Listener
unfolding insert
sort [] = []
sort (l ∷ ls) = insert l (sort ls)

-- Maps have no order of their own: `iterate` is the order in which the second loop comes upon the
-- listeners of `byKey`.
unfoldable pub normalize_listeners : (List Listener → List Listener) → List Listener → List Listener
unfolding by_key sort
normalize_listeners iterate listeners = sort (iterate (by_key [] listeners))

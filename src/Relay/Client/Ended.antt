-- ===== src/Relay/Client/Ended.antt =====
-- What becomes of those who wait on an object of the client when it ends or its peer is replaced.
use wsl_win_relay.Base.{
  ℕ, ◌≡◌, ◌≢◌, refl, ap, sym, subst, ◌∙◌, inl, inr, Bool, true, List, [], ◌∷◌, Option, none, some,
  ◌==◌, get_elem?, set, arith, Bool-cases, Option-cases, err, get_elem?-set_self, get_elem?-set_ne,
  get_elem?-some_lt,
}
use wsl_win_relay.Relay.Reader.{ReadError, Reader, or_first, fail}
use wsl_win_relay.Relay.Server.{lookup}
use wsl_win_relay.Relay.Client.{
  Client, no_registries, change, change_all, end_all, fail_client, reset_peer_state,
}
use wsl_win_relay.Relay.Client.Packet.{PacketConn, fail_packet}
use wsl_win_relay.Relay.Client.Reverse.{ReverseDatagram, fail_reverse}

-- A change leaves what is stored elsewhere.
change-stored :
    {A : Type 0} (f : A → A) (p o : ℕ) (store : List A) (x : A)
    → get_elem? store o ≡ some x
    → (y : A) × (get_elem? (change f p store) o ≡ some y)
change-stored f p o store x e = elim (Bool-cases (p == o)) [
  | inl eq ↦
      let same : p ≡ o = ground arith in
      let at : get_elem? store p ≡ some x = ap (get_elem? store) same ∙ e in
      rw (at, change)
        (
          f x,
          subst (λ i. get_elem? (set store p (f x)) i ≡ some (f x)) same
              (get_elem?-set_self store p (f x) (get_elem?-some_lt store p x at)),
        )
  | inr ne ↦ elim (Option-cases (get_elem? store p)) [
    | inl q ↦ rw (q, change) (x, e)
    | inr (y, q) ↦ rw (q, change) (x, get_elem?-set_ne store p o (f y) (λ q'. ground arith) ∙ e)
  ]
]

-- What a change keeps of everything that is registered, and what it makes of it.
abbrev pub Has : {A : Type 0} → (A → Type 0) → List A → ℕ → Type 0
Has {A} P store o = (x : A) × (get_elem? store o ≡ some x) × P x

module _ {A : Type 0} (P : A → Type 0) (f : A → A) (keeps : (x : A) → P x → P (f x)) where
  pub change-keeps : (p o : ℕ) (store : List A) → Has P store o → Has P (change f p store) o
  change-keeps p o store (x, e, h) = found (get_elem? store p) refl
    where
      found :
          (r : Option A)
          → get_elem? store p ≡ r
          → Has P (elim r [ none ↦ store | some y ↦ set store p (f y) ]) o
      found none q = (x, e, h)
      found (some y) q = elim (Bool-cases (p == o)) [
        | inl eq ↦
            let same : p ≡ o = ground arith in
            let this : x ≡ y = cc (e, ap (get_elem? store) same, q) in
            (
              f y,
              subst (λ i. get_elem? (set store p (f y)) i ≡ some (f y)) same
                  (get_elem?-set_self store p (f y) (get_elem?-some_lt store p y q)),
              keeps y (subst P this h),
            )
        | inr ne ↦ (x, get_elem?-set_ne store p o (f y) (λ q'. ground arith) ∙ e, h)
      ]

  pub change_all-keeps :
      (m : List (ℕ × ℕ)) (o : ℕ) (store : List A) → Has P store o → Has P (change_all f m store) o
  change_all-keeps [] o store h = h
  change_all-keeps ((id, p) ∷ m) o store h =
      change_all-keeps m o (change f p store) (change-keeps p o store h)

module _ {A : Type 0} (P : A → Type 0) (f : A → A) (makes : (x : A) → P (f x)) where
  change-makes :
      (o : ℕ) (x : A) (store : List A) → get_elem? store o ≡ some x → Has P (change f o store) o
  change-makes o x store e =
      rw (e, change)
        (f x, get_elem?-set_self store o (f x) (get_elem?-some_lt store o x e), makes x)

  change_all-makes :
      (id o : ℕ) (m : List (ℕ × ℕ)) (x : A) (store : List A)
      → lookup id m ≡ some o
      → get_elem? store o ≡ some x
      → Has P (change_all f m store) o
  unfolding lookup
  change_all-makes id o [] x store at e = absurd (cc at)
  change_all-makes id o ((k, p) ∷ m) x store at e = elim (Bool-cases (k == id)) [
    | inl eq ↦
        let same : p ≡ o = ground arith in
        subst (λ i. Has P (change_all f m (change f i store)) o) (sym same)
          (change_all-keeps P f (λ x _. makes x) m o (change f o store) (change-makes o x store e))
    | inr ne ↦
        let (y, e') = change-stored f p o store x e in
        change_all-makes id o m y (change f p store) (ground (arith, at, ne)) e'
  ]

-- The calls that wait on an object learn how it ended.
abbrev pub IsEnded : {A : Type 0} → Bool → Option A → Type 0
IsEnded done ready = (done ≡ true) × (ready ≢ none)

or_first-some : {A : Type 0} (o : Option A) (a : A) → or_first o a ≢ none
or_first-some none a e = cc e
or_first-some (some b) a e = cc e

fail-IsEnded : (e : ReadError) (r : Reader) → IsEnded (fail e r).done (fail e r).open_done
unfolding fail
fail-IsEnded e r = (refl, or_first-some r.open_done (some e))

fail_packet-IsEnded :
    (e : ReadError) (p : PacketConn) → IsEnded (fail_packet e p).done (fail_packet e p).ready
unfolding fail_packet
fail_packet-IsEnded e p = ground (arith, or_first-some p.ready (some e))

fail_reverse-IsEnded :
    (e : ReadError) (l : ReverseDatagram) → IsEnded (fail_reverse e l).done (fail_reverse e l).ready
unfolding fail_reverse
fail_reverse-IsEnded e l = ground (arith, or_first-some l.ready (err e))

-- Every stream, datagram association and reverse datagram socket that `c` has registered has ended in
-- `c'`, which has nothing registered.
pub record Ends (c c' : Client) : Type 0 where
  pub nothing : c'.registries ≡ no_registries
  pub streams :
      (id o : ℕ) (r : Reader)
      → lookup id c.registries.streams ≡ some o
      → get_elem? c.stream_store o ≡ some r
      → (r' : Reader) × (get_elem? c'.stream_store o ≡ some r') × IsEnded r'.done r'.open_done
  pub datagrams :
      (id o : ℕ) (p : PacketConn)
      → lookup id c.registries.datagrams ≡ some o
      → get_elem? c.packet_store o ≡ some p
      → (p' : PacketConn) × (get_elem? c'.packet_store o ≡ some p') × IsEnded p'.done p'.ready
  pub reverse_datagrams :
      (id o : ℕ) (l : ReverseDatagram)
      → lookup id c.registries.reverse_datagrams ≡ some o
      → get_elem? c.reverse_store o ≡ some l
      → (l' : ReverseDatagram) × (get_elem? c'.reverse_store o ≡ some l') × IsEnded l'.done l'.ready

end_all-Ends : (cause : ReadError) (c : Client) → Ends c (end_all cause c)
unfolding end_all
end_all-Ends cause c = record {
  nothing = refl;
  streams = λ id o r at e.
      change_all-makes (λ r. IsEnded r.done r.open_done) (fail cause) (fail-IsEnded cause) id o
        c.registries.streams r c.stream_store at e;
  datagrams = λ id o p at e.
      change_all-makes (λ p. IsEnded p.done p.ready) (fail_packet cause) (fail_packet-IsEnded cause)
        id o c.registries.datagrams p c.packet_store at e;
  reverse_datagrams = λ id o l at e.
      change_all-makes (λ l. IsEnded l.done l.ready) (fail_reverse cause)
        (fail_reverse-IsEnded cause) id o c.registries.reverse_datagrams l c.reverse_store at e;
}

failed-Ends : (cause : ReadError) (c : Client) → c.closed ≡ none → Ends c (fail_client cause c)
unfolding fail_client
failed-Ends cause c e =
    let ended =
      end_all-Ends cause
        (record c { closed = some cause; hello_done = or_first c.hello_done (err cause) }) in
    rw (e, fail_client)
      (record {
        nothing = ended.nothing;
        streams = ended.streams;
        datagrams = ended.datagrams;
        reverse_datagrams = ended.reverse_datagrams;
      })

-- When a client that is not closed fails, and when its peer was replaced, nothing stays registered, and
-- every stream, datagram association and reverse datagram socket that was registered is done, with a
-- result for the call that opened it: none of those calls waits on.
pub fail-Ends :
    (cause : ReadError) (c : Client)
    → c.closed ≡ none
    → Ends c (fail_client cause c) × Ends c (reset_peer_state (some cause) c)
unfolding fail_client reset_peer_state
fail-Ends cause c e = (failed-Ends cause c e, end_all-Ends cause c)

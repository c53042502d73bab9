-- ===== src/Attach/Summary/Acknowledged.antt =====
-- Which acknowledgements the broker accepts, and what it knows of an accepted one.
use wsl_win_relay.Base.{
  ℕ, suc, ◌≤◌, ◌<◌, ◌≡◌, refl, ap, ◌↔◌, ◌⊎◌, inl, inr, List, [], ◌∷◌, map, Result, ok, arith, All,
  length, ltb, Bool-cases, ==-refl,
}
use wsl_win_relay.Attach.Payload.{WireError}
use wsl_win_relay.Attach.Summary.Ordered.{
  Increasing, decode_summary-Increasing, decode_resume_ack-Increasing,
}
use wsl_win_relay.Attach.Summary.{
  RegistryEntry, Summary, ids, decode_summary, decode_resume_ack, skip_below, after_match,
  resume_loop, validate_resume_ack,
}

-- Membership in a list of numbers.
abbrev pub Among : ℕ → List ℕ → Type 0
Among n [] = ⊥
Among n (k ∷ ks) = (n ≡ k) ⊎ Among n ks

-- Every listed number is among the known ones.
abbrev pub Within : List ℕ → List ℕ → Type 0
Within ns ks = All (λ n. Among n ks) ns

Increasing-mono : (low low' : ℕ) (ns : List ℕ) → low' ≤ low → Increasing low ns → Increasing low' ns
Increasing-mono low low' [] h i = tt
Increasing-mono low low' (n ∷ ns) h i = (omega arith, i.1)

above : (low n : ℕ) (ks : List ℕ) → Increasing low ks → Among n ks → low < n
above low n [] i m = absurd m
above low n (k ∷ ks) i (inl e) = omega arith
above low n (k ∷ ks) i (inr m) = omega (arith, above k n ks i.1 m)

All-Among : (ns ks ls : List ℕ) → ((m : ℕ) → Among m ks → Among m ls) → Within ns ks → Within ns ls
All-Among [] ks ls f h = tt
All-Among (n ∷ ns) ks ls f h = (f n h.0, All-Among ns ks ls f h.1)

Among-skip_below : (n m : ℕ) (ks : List ℕ) → Among m (skip_below n ks) → Among m ks
unfolding skip_below
Among-skip_below n m [] a = a
Among-skip_below n m (k ∷ ks) a = elim (Bool-cases (ltb k n)) [
  | inl below ↦ inr (Among-skip_below n m ks (rw below at a))
  | inr reached ↦ rw reached at a
]

-- The accepted identifiers are known ones.
after_match_sound :
    (next : List ℕ → Result WireError (Unit {0})) (n : ℕ) (ks : List ℕ)
    → after_match next n ks ≡ ok tt
    → (rest : List ℕ) × (ks ≡ n ∷ rest) × (next rest ≡ ok tt)
after_match_sound next n [] h = absurd (cc h)
after_match_sound next n (k ∷ rest) h = (rest, ground arith, ground arith)

resume_loop_sound : (ns ks : List ℕ) → resume_loop ns ks ≡ ok tt → Within ns ks
unfolding resume_loop
resume_loop_sound [] ks h = tt
resume_loop_sound (n ∷ ns) ks h =
    let (rest, at, more) = after_match_sound (resume_loop ns) n (skip_below n ks) h in
    let sub = λ (m : ℕ) (a : Among m (n ∷ rest)). Among-skip_below n m ks (rw at a) in
    (sub n (inl refl), All-Among ns rest ks (λ m a. sub m (inr a)) (resume_loop_sound ns rest more))

-- Where the identifier is known, the inner loop stops at it, and what lies above is behind it.
abbrev Found : ℕ → List ℕ → List ℕ → Type 0
Found n ks stopped =
    (rest : List ℕ) × (stopped ≡ n ∷ rest)
    × Increasing n rest
    × ((m : ℕ) → n < m → Among m ks → Among m rest)

skip_below_finds :
    (n low : ℕ) (ks : List ℕ) → Increasing low ks → Among n ks → Found n ks (skip_below n ks)
unfolding skip_below
skip_below_finds n low [] i a = absurd a
skip_below_finds n low (k ∷ ks) i (inl e) = (ks, ground arith, rw e i.1, behind)
  where
    behind : (m : ℕ) → n < m → Among m (k ∷ ks) → Among m ks
    behind m h (inl q) = absurd (omega arith)
    behind m h (inr b) = b
skip_below_finds n low (k ∷ ks) i (inr a) =
    let (rest, at, up, behind) = skip_below_finds n k ks i.1 a in
    let less = above k n ks i.1 a in (rest, ground arith, up, after rest behind less)
  where
    after :
        (rest : List ℕ)
        → ((m : ℕ) → n < m → Among m ks → Among m rest)
        → k < n
        → (m : ℕ) → n < m
        → Among m (k ∷ ks)
        → Among m rest
    after rest behind less m h (inl q) = absurd (omega arith)
    after rest behind less m h (inr b) = behind m h b

Within-behind :
    (n : ℕ) (ns ks rest : List ℕ)
    → ((m : ℕ) → n < m → Among m ks → Among m rest)
    → Increasing n ns
    → Within ns ks
    → Within ns rest
Within-behind n [] ks rest behind i w = tt
Within-behind n (m ∷ ns) ks rest behind i w = (
  behind m i.0 w.0,
  Within-behind n ns ks rest behind (Increasing-mono m n ns (omega arith) i.1) w.1,
)

resume_loop_complete :
    (ns : List ℕ) (low low' : ℕ) (ks : List ℕ)
    → Increasing low ns
    → Increasing low' ks
    → Within ns ks
    → resume_loop ns ks ≡ ok tt
unfolding resume_loop
resume_loop_complete [] low low' ks i j w = refl
resume_loop_complete (n ∷ ns) low low' ks i j w =
    let (rest, at, up, behind) = skip_below_finds n low' ks j w.0 in
    rw (at, after_match, ==-refl n)
      (resume_loop_complete ns n n rest i.1 up (Within-behind n ns ks rest behind i.1 w.1))

length-skip_below : (n : ℕ) (ks : List ℕ) → length (skip_below n ks) ≤ length ks
unfolding skip_below
length-skip_below n [] = omega arith
length-skip_below n (k ∷ ks) = ground (arith, length-skip_below n ks)

Within-length :
    (ns : List ℕ) (low low' : ℕ) (ks : List ℕ)
    → Increasing low ns
    → Increasing low' ks
    → Within ns ks
    → length ns ≤ length ks
Within-length [] low low' ks i j w = omega arith
Within-length (n ∷ ns) low low' ks i j w =
    let (rest, at, up, behind) = skip_below_finds n low' ks j w.0 in
    omega (
      arith,
      Within-length ns n n rest i.1 up (Within-behind n ns ks rest behind i.1 w.1),
      ap (length {A = ℕ}) at,
      length-skip_below n ks,
    )

validate_sound :
    (s : Summary) (epoch : ℕ) (resumed : List ℕ)
    → validate_resume_ack s epoch resumed ≡ ok tt
    → (epoch ≡ s.epoch) × (resume_loop resumed (ids s) ≡ ok tt)
unfolding validate_resume_ack
validate_sound s epoch resumed h = ground arith

pub length-ids : (es : List RegistryEntry) → length (map (λ e. e.id) es) ≡ length es
length-ids [] = refl
length-ids (e ∷ es) = ap suc (length-ids es)

validate_complete :
    (s : Summary) (epoch : ℕ) (resumed : List ℕ)
    → epoch ≡ s.epoch
    → length resumed ≤ length s.entries
    → resume_loop resumed (ids s) ≡ ok tt
    → validate_resume_ack s epoch resumed ≡ ok tt
unfolding validate_resume_ack
validate_complete s epoch resumed e few h = ground arith

-- An acknowledgement and a summary, as they come from the wire, are judged exactly: the broker accepts
-- the acknowledgement just when it names the summary's epoch and only identifiers that the summary
-- lists; it need not name all of them.
pub validate_resume_ack_iff :
    (payload ack : List ℕ) (s : Summary) (epoch : ℕ) (resumed : List ℕ)
    → decode_summary payload ≡ ok s
    → decode_resume_ack ack ≡ ok (epoch, resumed)
    → (validate_resume_ack s epoch resumed ≡ ok tt) ↔ ((epoch ≡ s.epoch) × Within resumed (ids s))
validate_resume_ack_iff payload ack s epoch resumed hs ha =
    let known = decode_summary-Increasing payload s hs in
    let named = decode_resume_ack-Increasing ack epoch resumed ha in
    (
      λ h.
          let (same, loop) = validate_sound s epoch resumed h in
          (same, resume_loop_sound resumed (ids s) loop),
      λ w.
          validate_complete s epoch resumed w.0
            (omega (arith, Within-length resumed 0 0 (ids s) named known w.1, length-ids s.entries))
            (resume_loop_complete resumed 0 0 (ids s) named known w.1),
    )

Within-self : (low : ℕ) (ks : List ℕ) → Increasing low ks → Within ks ks
Within-self low [] i = tt
Within-self low (k ∷ ks) i =
    (inl refl, All-Among ks ks (k ∷ ks) (λ m a. inr a) (Within-self k ks i.1))

-- The acknowledgement that the connector sends, all identifiers of the summary that it decoded, is
-- accepted for that summary.
pub validate-ids :
    (payload : List ℕ) (s : Summary)
    → decode_summary payload ≡ ok s
    → validate_resume_ack s s.epoch (ids s) ≡ ok tt
validate-ids payload s h =
    let known = decode_summary-Increasing payload s h in
    validate_complete s s.epoch (ids s) refl (omega (arith, length-ids s.entries))
      (resume_loop_complete (ids s) 0 0 (ids s) known known (Within-self 0 (ids s) known))

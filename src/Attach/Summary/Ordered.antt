-- ===== src/Attach/Summary/Ordered.antt =====
-- What is decoded has strictly increasing identifiers that are not zero.
use wsl_win_relay.Base.{
  ℕ, zero, suc, ◌<◌, ◌≡◌, refl, inl, inr, Bool, true, false, not, ◌&&◌, ◌||◌, List, [], ◌∷◌, map,
  ok, arith, uint16, uint64, drop, leb, ◌==◌,
}
use wsl_win_relay.Base.Writing.{Result-cases}
use wsl_win_relay.Attach.Summary.{
  RegistryEntry, Summary, ids, validate_entry, entry_at, decode_summary, decode_entries, decode_ids,
  decode_resume_ack,
}

-- Strictly increasing from above `low` on.
abbrev pub Increasing : ℕ → List ℕ → Type 0
Increasing low [] = Unit
Increasing low (n ∷ ns) = (low < n) × Increasing n ns

decode_ids-cons :
    (first : Bool) (previous count : ℕ) (bytes resumed : List ℕ)
    → decode_ids first previous (suc count) bytes ≡ ok resumed
    → ((uint64 bytes == 0 || not first && leb (uint64 bytes) previous) ≡ false)
      × ((rest : List ℕ) × (decode_ids false (uint64 bytes) count (drop 8 bytes) ≡ ok rest)
          × (resumed ≡ uint64 bytes ∷ rest))
unfolding decode_ids
decode_ids-cons first previous count bytes resumed h =
    elim (Result-cases (decode_ids false (uint64 bytes) count (drop 8 bytes))) [
      | inl (rest, q) ↦ (ground arith, (rest, q, ground arith))
      | inr (x, q) ↦ absurd (ground arith)
    ]

decode_ids-Increasing :
    (first : Bool) (previous count : ℕ) (bytes resumed : List ℕ)
    → (first ≡ true → previous ≡ 0)
    → decode_ids first previous count bytes ≡ ok resumed
    → Increasing previous resumed
decode_ids-Increasing first previous zero bytes [] z h = tt
decode_ids-Increasing first previous zero bytes (r ∷ rs) z h =
    unfold decode_ids in absurd (ground arith)
decode_ids-Increasing first previous (suc count) bytes resumed z h =
    let (fine, (rest, q, e)) = decode_ids-cons first previous count bytes resumed h in
    rw e (
      ground arith,
      decode_ids-Increasing false (uint64 bytes) count (drop 8 bytes) rest (λ x. cc x) q,
    )

ack-ids :
    (ack : List ℕ) (epoch : ℕ) (resumed : List ℕ)
    → decode_resume_ack ack ≡ ok (epoch, resumed)
    → decode_ids true 0 (uint16 (drop 8 ack)) (drop 10 ack) ≡ ok resumed
unfolding decode_resume_ack
ack-ids ack epoch resumed h = ground arith

pub decode_resume_ack-Increasing :
    (ack : List ℕ) (epoch : ℕ) (resumed : List ℕ)
    → decode_resume_ack ack ≡ ok (epoch, resumed)
    → Increasing 0 resumed
decode_resume_ack-Increasing ack epoch resumed h =
    decode_ids-Increasing true 0 (uint16 (drop 8 ack)) (drop 10 ack) resumed (λ _. refl)
      (ack-ids ack epoch resumed h)

decode_entries-cons :
    (first : Bool) (previous count : ℕ) (bytes : List ℕ) (es : List RegistryEntry)
    → decode_entries first previous (suc count) bytes ≡ ok es
    → (validate_entry (entry_at bytes) ≡ ok tt)
      × ((not first && leb (entry_at bytes).id previous) ≡ false)
      × ((rest : List RegistryEntry) × (decode_entries false
              (entry_at bytes).id
              count
              (drop 10 bytes)
            ≡ ok rest)
          × (es ≡ entry_at bytes ∷ rest))
unfolding decode_entries
decode_entries-cons first previous count bytes es h =
    elim (Result-cases (decode_entries false (entry_at bytes).id count (drop 10 bytes))) [
      | inl (rest, q) ↦ (ground arith, ground arith, (rest, q, ground arith))
      | inr (x, q) ↦ absurd (ground arith)
    ]

id-nonzero : (e : RegistryEntry) → validate_entry e ≡ ok tt → 0 < e.id
unfolding validate_entry
id-nonzero e h = ground arith

decode_entries-Increasing :
    (first : Bool) (previous count : ℕ) (bytes : List ℕ) (es : List RegistryEntry)
    → (first ≡ true → previous ≡ 0)
    → decode_entries first previous count bytes ≡ ok es
    → Increasing previous (map (λ e. e.id) es)
decode_entries-Increasing first previous zero bytes [] z h = tt
decode_entries-Increasing first previous zero bytes (r ∷ rs) z h =
    unfold decode_entries in absurd (ground arith)
decode_entries-Increasing first previous (suc count) bytes es z h =
    let (valid, fine, (rest, q, e)) = decode_entries-cons first previous count bytes es h in
    let pos = id-nonzero (entry_at bytes) valid in
    rw e (
      ground arith,
      decode_entries-Increasing false (entry_at bytes).id count (drop 10 bytes) rest (λ x. cc x) q,
    )

summary-entries :
    (payload : List ℕ) (s : Summary)
    → decode_summary payload ≡ ok s
    → decode_entries true 0 (uint16 (drop 8 payload)) (drop 10 payload) ≡ ok s.entries
unfolding decode_summary
summary-entries payload s h = ground arith

pub decode_summary-Increasing :
    (payload : List ℕ) (s : Summary) → decode_summary payload ≡ ok s → Increasing 0 (ids s)
decode_summary-Increasing payload s h =
    decode_entries-Increasing true 0 (uint16 (drop 8 payload)) (drop 10 payload) s.entries
      (λ _. refl) (summary-entries payload s h)

-- ===== src/Upstream/Agreement.antt =====
-- The proxy of internal/socks5 and the dialer of internal/upstream read the same addresses.
use wsl_win_relay.Base.{
  ℕ, ◌+◌, ◌≡◌, refl, sym, ap, ◌∙◌, subst, Bool, true, false, List, [], ◌∷◌, ◌++◌, append_assoc,
  Result, ok, err, ◌>>=◌, arith, length, length-append, take-append_length, drop-append_length,
  ◌==◌, ==_iff, if◌then◌else◌, read_full, read_full-append, read_full_sound, uint16,
}
use wsl_win_relay.Net.Decimal.{itoa}
use wsl_win_relay.Net.HostPort.{join_host_port}
use wsl_win_relay.Net.Ip.{ip_string}
use wsl_win_relay.Socks
use wsl_win_relay.Socks.Address.{as_text, read_domain, read_host, read_address}
use wsl_win_relay.Upstream.{read_part, empty_domain, bad_address_type}
use wsl_win_relay.Upstream.Address.{address_text, read_sized, read_socks_address, domain_length}

pub bind_ok :
    {E A B : Type 0} (m : Result E A) (f : A → Result E B) (b : B)
    → (m >>= f) ≡ ok b
    → (a : A) × (m ≡ ok a) × (f a ≡ ok b)
bind_ok (ok a) f b h = (a, refl, h)
bind_ok (err e) f b h = absurd (cc h)

ok_same : {E A : Type 0} (m : Result E A) (a b : A) → m ≡ ok a → m ≡ ok b → a ≡ b
ok_same m a b h h' = ground (arith, h, h')

-- Two reads are one.
read_full-join :
    (n k : ℕ) (input p r q s : List ℕ)
    → read_full n input ≡ ok (p, r)
    → read_full k r ≡ ok (q, s)
    → (read_full (n + k) input ≡ ok (p ++ q, s)) × (length p ≡ n)
read_full-join n k input p r q s h h' =
    let (split, size) = read_full_sound n input p r h in
    let (split', size') = read_full_sound k r q s h' in
    let whole : input ≡ (p ++ q) ++ s =
      split ∙ ap (λ t. p ++ t) split' ∙ sym (append_assoc p q s) in
    let total : length (p ++ q) ≡ n + k = omega (arith, length-append p q, size, size') in
    (
      ap (λ t. read_full (n + k) t) whole
          ∙ subst (λ t. read_full t ((p ++ q) ++ s) ≡ ok (p ++ q, s)) total
              (read_full-append (p ++ q) s),
      size,
    )

part_ok :
    (n : ℕ) (input : List ℕ) (r : List ℕ × List ℕ)
    → Socks.read_part n input ≡ ok r
    → read_full n input ≡ ok r
part_ok n input r h = ground (arith, h)

-- the part of readAddress behind the host
abbrev with_port : List ℕ × List ℕ → Result Socks.Error (List ℕ × List ℕ)
with_port (host, rest) = Socks.read_part 2 rest >>= λ (r : List ℕ × List ℕ).
    ok (join_host_port host (itoa (uint16 r.0)), r.1)

abbrev with_port_of : List ℕ → List ℕ → List ℕ → Result Socks.Error (List ℕ × List ℕ)
with_port_of host q s = ok (join_host_port host (itoa (uint16 q)), s)

-- The host in one read and the port in another are the two in one read.
sized :
    (kind n : ℕ) (input : List ℕ) (r : List ℕ × List ℕ)
    (f : List ℕ × List ℕ → Result Socks.Error (List ℕ × List ℕ)) (form : List ℕ → List ℕ)
    → ((p rest : List ℕ) → f (p, rest) ≡ ok (form p, rest))
    → ((p q : List ℕ)
        → length p ≡ n
        → address_text kind n (p ++ q) ≡ join_host_port (form p) (itoa (uint16 q)))
    → (Socks.read_part n input >>= f >>= with_port) ≡ ok r
    → read_sized kind (n, input) ≡ ok r
sized kind n input r f form plain text h =
    let ((host, more), e, k) = bind_ok (Socks.read_part n input >>= f) with_port r h in
    let ((p, rest), e1, e2) = bind_ok (Socks.read_part n input) f (host, more) e in
    let ((q, s), e3, e4) = bind_ok (Socks.read_part 2 more) _ r k in
    let same : (form p ≡ host) × (rest ≡ more) = ground (arith, e2, plain p rest) in
    let (whole, size) =
      read_full-join n 2 input p rest q s (part_ok n input (p, rest) e1)
        (subst (λ t. read_full 2 t ≡ ok (q, s)) (sym same.1) (part_ok 2 more (q, s) e3)) in
    rw (whole, read_part)
      (ap ok (
        ap (λ t. (t, s)) (text p q size ∙ ap (λ t. join_host_port t (itoa (uint16 q))) same.0)
        ∙ ok_same (with_port_of host q s) _ r refl e4))

bind-same : {E A : Type 0} (m : Result E A) → (m >>= λ a. ok a) ≡ m
bind-same (ok a) = refl
bind-same (err e) = refl

number_text :
    (kind n : ℕ) (p q : List ℕ)
    → (kind == 3) ≡ false
    → length p ≡ n
    → address_text kind n (p ++ q) ≡ join_host_port (ip_string p) (itoa (uint16 q))
number_text kind n p q other size =
    subst (λ t. address_text kind t (p ++ q) ≡ join_host_port (ip_string p) (itoa (uint16 q))) size
      (rw (other, take-append_length p q, drop-append_length p q) refl)

domain_text :
    (n : ℕ) (p q : List ℕ)
    → length p ≡ n
    → address_text 3 n (p ++ q) ≡ join_host_port p (itoa (uint16 q))
domain_text n p q size =
    subst (λ t. address_text 3 t (p ++ q) ≡ join_host_port p (itoa (uint16 q))) size
      (rw (take-append_length p q, drop-append_length p q) refl)

domain_branch :
    (empty : Bool) (n : ℕ) (rest : List ℕ) (r : List ℕ × List ℕ)
    → ((if empty then err Socks.empty_domain else Socks.read_part n rest) >>= with_port) ≡ ok r
    → ((if empty then err empty_domain else ok (n, rest)) >>= read_sized 3) ≡ ok r
domain_branch true n rest r h = absurd (cc h)
domain_branch false n rest r h =
    sized 3 n rest r (λ a. ok a) (λ p. p) (λ p t. refl) (domain_text n)
      (ap (λ m. m >>= with_port) (bind-same (Socks.read_part n rest)) ∙ h)

from_domain :
    (a : List ℕ × List ℕ) (r : List ℕ × List ℕ)
    → (read_domain a >>= with_port) ≡ ok r
    → (domain_length a >>= read_sized 3) ≡ ok r
from_domain ([], rest) r h = absurd (cc h)
from_domain (n ∷ bs, rest) r h = domain_branch (n == 0) n rest r h

by_domain :
    (input : List ℕ) (r : List ℕ × List ℕ)
    → (Socks.read_part 1 input >>= read_domain >>= with_port) ≡ ok r
    → (read_part 1 input >>= domain_length >>= read_sized 3) ≡ ok r
by_domain input r h =
    let ((host, more), e, k) = bind_ok (Socks.read_part 1 input >>= read_domain) with_port r h in
    let (a, e1, e2) = bind_ok (Socks.read_part 1 input) read_domain (host, more) e in
    rw (part_ok 1 input a e1, read_part) (from_domain a r (rw e2 k))

by_kind :
    (four domain sixteen : Bool) (kind : ℕ) (input : List ℕ) (r : List ℕ × List ℕ)
    → (kind == 1) ≡ four
    → (kind == 3) ≡ domain
    → (kind == 4) ≡ sixteen
    → ((if four
          then Socks.read_part 4 input >>= as_text
          else if domain
          then Socks.read_part 1 input >>= read_domain
          else if sixteen
          then Socks.read_part 16 input >>= as_text
          else err Socks.bad_address_type)
        >>= with_port)
      ≡ ok r
    → ((if four
          then ok (4, input)
          else if sixteen
          then ok (16, input)
          else if domain
          then read_part 1 input >>= domain_length
          else err bad_address_type)
        >>= read_sized kind)
      ≡ ok r
by_kind true domain sixteen kind input r e e' e'' h =
    sized kind 4 input r as_text ip_string (λ p t. refl)
      (λ p q. number_text kind 4 p q (ground (arith, e))) h
by_kind false true true kind input r e e' e'' h =
    absurd (omega (arith, (==_iff kind 3).0 e', (==_iff kind 4).0 e''))
by_kind false true false kind input r e e' e'' h =
    subst (λ k. (read_part 1 input >>= domain_length >>= read_sized k) ≡ ok r)
      (sym ((==_iff kind 3).0 e')) (by_domain input r h)
by_kind false false true kind input r e e' e'' h =
    sized kind 16 input r as_text ip_string (λ p t. refl) (λ p q. number_text kind 16 p q e') h
by_kind false false false kind input r e e' e'' h = absurd (cc h)

-- What the proxy's readAddress reads, the dialer's readSocksAddress reads as the same text, and leaves
-- the same bytes behind it.
pub read_socks_address-same :
    (kind : ℕ) (input : List ℕ) (r : List ℕ × List ℕ)
    → read_address kind input ≡ ok r
    → read_socks_address kind input ≡ ok r
unfolding read_address read_host read_socks_address
read_socks_address-same kind input r h =
    by_kind (kind == 1) (kind == 3) (kind == 4) kind input r refl refl refl h

-- ===== src/Upstream/Response.antt =====
-- What httpConnect reads of a response.
use wsl_win_relay.Base.{
  ℕ, zero, suc, ◌+◌, ◌≤◌, ◌<◌, ◌≡◌, refl, sym, ap, ◌∙◌, inl, inr, ◌⊎◌, Bool, true, false, List, [],
  ◌∷◌, ◌++◌, append_assoc, if◌then◌else◌, length, length-append, Result, ok, err, IoError, arith,
}
use wsl_win_relay.Upstream.{Error, io}
use wsl_win_relay.Upstream.Agreement.{bind_ok}
use wsl_win_relay.Upstream.Http.{
  max_proxy_header, read_line, is_blank, read_headers, status_code, is_success, judge, after_status,
  read_response,
}
use wsl_win_relay.Upstream.Lines.{IsLine, read_line-IsLine}

-- Headers: lines that are not blank, and a blank one.
pub data IsHeaders : List ℕ → Type 0 where
  blank : (line : List ℕ) → is_blank line ≡ true → IsHeaders line
  header :
      (line before_end more : List ℕ)
      → line ≡ before_end ++ 10 ∷ []
      → is_blank line ≡ false
      → IsHeaders more
      → IsHeaders (line ++ more)

-- What the headers took of the input.
pub record Took (used : ℕ) (input rest : List ℕ) : Type 0 where
  pub head : List ℕ
  pub split : input ≡ head ++ rest
  pub within : used + length head ≤ max_proxy_header
  pub form : IsHeaders head

pick-Took :
    (b : Bool) (used : ℕ) (input line : List ℕ) (used' : ℕ) (more rest : List ℕ)
    (r : Result Error (List ℕ))
    → is_blank line ≡ b
    → IsLine used input line used' more
    → (r ≡ ok rest → Took used' more rest)
    → (if b then ok more else r) ≡ ok rest
    → Took used input rest
pick-Took true used input line used' more rest r e l k h = record {
  head = line;
  split = l.split ∙ ap (λ t. line ++ t) (ground (arith, h));
  within = omega (arith, l.count, l.within);
  form = blank line e;
}
pick-Took false used input line used' more rest r e l k h =
    let t = k h in
    record {
      head = line ++ t.head;
      split = l.split ∙ ap (λ x. line ++ x) t.split ∙ sym (append_assoc line t.head rest);
      within = omega (arith, l.count, t.within, length-append line t.head);
      form = header line l.before_end t.head l.ends e t.form;
    }

Line : ℕ → List ℕ → Type 0
Line used input =
    ((e : Error) × (read_line used input ≡ err e))
    ⊎ ((line : List ℕ) × (used' : ℕ) × (more : List ℕ) × (read_line used input
          ≡ ok (line, used', more)))

Line-cases : (used : ℕ) (input : List ℕ) → Line used input
unfolding Line
Line-cases used input = cases (read_line used input) refl
  where
    cases : (r : Result Error (List ℕ × ℕ × List ℕ)) → read_line used input ≡ r → Line used input
    cases (err e) h = inl (e, h)
    cases (ok (line, used', more)) h = inr (line, used', more, h)

headers_line :
    (fuel used : ℕ) (stuck : Error) (input line : List ℕ) (used' : ℕ) (more : List ℕ)
    → read_line used input ≡ ok (line, used', more)
    → read_headers stuck (suc fuel) used input
      ≡ (if is_blank line then ok more else read_headers stuck fuel used' more)
unfolding read_headers
headers_line fuel used stuck input line used' more got = rw (got, read_headers) refl

headers_error :
    (fuel used : ℕ) (stuck : Error) (input : List ℕ) (e : Error)
    → read_line used input ≡ err e
    → read_headers stuck (suc fuel) used input ≡ err e
unfolding read_headers
headers_error fuel used stuck input e failed = rw (failed, read_headers) refl

read_headers-Took :
    (fuel used : ℕ) (stuck : Error) (input rest : List ℕ)
    → read_headers stuck fuel used input ≡ ok rest
    → Took used input rest
unfolding read_headers Line
read_headers-Took zero used stuck input rest h = absurd (cc h)
read_headers-Took (suc fuel) used stuck input rest h = elim (Line-cases used input) [
  | inl (e, failed) ↦ absurd (cc (h, headers_error fuel used stuck input e failed))
  | inr (line, used', more, got) ↦
      pick-Took (is_blank line) used input line used' more rest (read_headers stuck fuel used' more)
        refl (read_line-IsLine used input line used' more got)
        (read_headers-Took fuel used' stuck more rest)
        (sym (headers_line fuel used stuck input line used' more got) ∙ h)
]

-- More rounds than bytes change nothing, whatever stands for running out of them.
read_headers-fuel :
    (fuel fuel' used : ℕ) (stuck stuck' : Error) (input : List ℕ)
    → length input < fuel
    → length input < fuel'
    → read_headers stuck fuel used input ≡ read_headers stuck' fuel' used input
unfolding read_headers Line
read_headers-fuel zero fuel' used stuck stuck' input h h' = absurd (omega (arith, h))
read_headers-fuel (suc fuel) zero used stuck stuck' input h h' = absurd (omega (arith, h'))
read_headers-fuel (suc fuel) (suc fuel') used stuck stuck' input h h' =
    elim (Line-cases used input) [
      | inl (e, failed) ↦ rw (failed, read_headers) refl
      | inr (line, used', more, got) ↦
          let l = read_line-IsLine used input line used' more got in
          let short : length more < length input = omega (
            arith,
            ap (λ (x : List ℕ). length x) l.split,
            length-append line more,
            ap (λ (x : List ℕ). length x) l.ends,
            length-append l.before_end (10 ∷ []),
          ) in
          rw
            (
              got,
              read_headers,
              read_headers-fuel fuel fuel' used' stuck stuck' more (omega (arith, short, h))
                  (omega (arith, short, h')),
            )
            refl
    ]

-- What an accepted response is: a status line with a code from 200 to 299, headers up to a blank line,
-- all within the limit, and behind them what is left to read.
pub record IsAccepted (input rest : List ℕ) : Type 0 where
  pub status : List ℕ
  pub before_end : List ℕ
  pub headers : List ℕ
  pub code : ℕ
  pub split : input ≡ status ++ (headers ++ rest)
  pub within : length status + length headers ≤ max_proxy_header
  pub ends : status ≡ before_end ++ 10 ∷ []
  pub form : IsHeaders headers
  pub answered : status_code status ≡ ok (false, code)
  pub success : (200 ≤ code) × (code < 300)

success_code : (c : Bool × ℕ) → is_success c ≡ true → (c ≡ (false, c.1)) × (200 ≤ c.1) × (c.1 < 300)
success_code (true, n) h = absurd (cc h)
success_code (false, n) h = ground (arith, h)

judged :
    (c : Bool × ℕ) (rest more : List ℕ)
    → judge c rest ≡ ok (tt, more)
    → (is_success c ≡ true) × (rest ≡ more)
judged c rest more h = ground (arith, h)

pub read_response-IsAccepted :
    (input rest : List ℕ) → read_response input ≡ ok (tt, rest) → IsAccepted input rest
unfolding read_response
read_response-IsAccepted input rest h =
    let ((status, used, more), got, h1) = bind_ok (read_line 0 input) after_status (tt, rest) h in
    let (code, coded, h2) = bind_ok (status_code status) _ (tt, rest) h1 in
    let (left, took_headers, h3) =
      bind_ok (read_headers (io IoError.panic) (suc (length more)) used more) (judge code)
        (tt, rest) h2 in
    let (success, same) = judged code left rest h3 in
    let (sign, low, high) = success_code code success in
    let l = read_line-IsLine 0 input status used more got in
    let t = read_headers-Took (suc (length more)) used (io IoError.panic) more left took_headers in
    record {
      status = status;
      before_end = l.before_end;
      headers = t.head;
      code = code.1;
      split = l.split ∙ ap (λ x. status ++ x) (t.split ∙ ap (λ x. t.head ++ x) same);
      within = omega (arith, l.count, t.within);
      ends = l.ends;
      form = t.form;
      answered = coded ∙ ap ok sign;
      success = (low, high);
    }

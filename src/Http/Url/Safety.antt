-- ===== src/Http/Url/Safety.antt =====
-- What `checkUrl` tests, and what holds of the URL of every accepted request.
use epoll_http_server.Base.{
  ℕ, Bool, true, false, some, [], ◌∷◌, ◌++◌, Bytes, ◌≡◌, ◌≢◌, ◌↔◌, refl, ap, arith, ◌==◌,
  Bool-cases, Option-cases, inl, inr,
}
use epoll_http_server.Http.Chars.{check_url_symbols}
use epoll_http_server.Http.Libc.{c_str}
use epoll_http_server.Http.Request.{HttpRequest, ParseResult}
use epoll_http_server.Http.Parser.{parse_internal}
use epoll_http_server.Http.Url.{check_chars, check_url, decode_url}
use epoll_http_server.Http.Methods.{parse, post_parse, after_internal, get_url}

-- Every byte is an allowed symbol, and no two dots stand side by side.
pub record IsSafe (s : Bytes) : Type 0 where
  pub allowed :
      (before : Bytes) (c : ℕ) (after : Bytes)
      → s ≡ before ++ c ∷ after
      → check_url_symbols c ≡ true
  pub no_dots : (before after : Bytes) → s ≢ before ++ b'.' ∷ b'.' ∷ after

abbrev starts_with_dot : Bytes → Bool
starts_with_dot [] = false
starts_with_dot (c ∷ cs) = c == b'.'

IsSafe-nil : IsSafe []
IsSafe-nil = record { allowed = no_byte; no_dots = no_pair }
  where
    no_byte :
        (before : Bytes) (c : ℕ) (after : Bytes)
        → [] ≡ before ++ c ∷ after
        → check_url_symbols c ≡ true
    no_byte [] c after e = cc
    no_byte (x ∷ before) c after e = cc

    no_pair : (before after : Bytes) → [] ≢ before ++ b'.' ∷ b'.' ∷ after
    no_pair [] after e = cc
    no_pair (x ∷ before) after e = cc

IsSafe-cons :
    (c : ℕ) (cs : Bytes)
    → check_url_symbols c ≡ true
    → (c ≡ b'.' → starts_with_dot cs ≡ false)
    → IsSafe cs
    → IsSafe (c ∷ cs)
IsSafe-cons c cs h d s = record { allowed = each; no_dots = pairs }
  where
    each :
        (before : Bytes) (x : ℕ) (after : Bytes)
        → c ∷ cs ≡ before ++ x ∷ after
        → check_url_symbols x ≡ true
    each [] x after e = ground arith
    each (y ∷ before) x after e = s.allowed before x after (ground arith)

    pairs : (before after : Bytes) → c ∷ cs ≢ before ++ b'.' ∷ b'.' ∷ after
    pairs [] after e = ground (arith, d)
    pairs (y ∷ before) after e = s.no_dots before after (ground arith)

IsSafe-tail : (c : ℕ) (cs : Bytes) → IsSafe (c ∷ cs) → IsSafe cs
IsSafe-tail c cs s = record {
  allowed = λ before x after e. s.allowed (c ∷ before) x after (ap (◌∷◌ c) e);
  no_dots = λ before after e. s.no_dots (c ∷ before) after (ap (◌∷◌ c) e);
}

check_chars-IsSafe :
    (prev : ℕ) (s : Bytes)
    → check_chars prev s ≡ true
    → IsSafe s × (prev ≡ b'.' → starts_with_dot s ≡ false)
unfolding check_chars
check_chars-IsSafe prev [] h = (IsSafe-nil, λ _. refl)
check_chars-IsSafe prev (c ∷ cs) h =
    let rest : check_chars c cs ≡ true = ground arith in
    let (safe, after_dot) = check_chars-IsSafe c cs rest in
    (IsSafe-cons c cs (ground arith) after_dot safe, λ e. ground arith)

dots_apart :
    (c x : ℕ) (cs : Bytes) → IsSafe (c ∷ x ∷ cs) → c ≡ b'.' → starts_with_dot (x ∷ cs) ≡ false
dots_apart c x cs s e = elim (Bool-cases (x == b'.')) [
  | inl dot ↦ absurd (s.no_dots [] cs (ground arith))
  | inr other ↦ other
]

IsSafe-check_chars :
    (prev : ℕ) (s : Bytes)
    → IsSafe s
    → (prev ≡ b'.' → starts_with_dot s ≡ false)
    → check_chars prev s ≡ true
unfolding check_chars
IsSafe-check_chars prev [] s d = refl
IsSafe-check_chars prev (c ∷ []) s d = ground (arith, s.allowed [] c [] refl)
IsSafe-check_chars prev (c ∷ x ∷ cs) s d =
    let head = s.allowed [] c (x ∷ cs) refl in
    let rest = IsSafe-check_chars c (x ∷ cs) (IsSafe-tail c (x ∷ cs) s) (dots_apart c x cs s) in
    ground arith

-- `checkUrl` returns 0 exactly for a safe URL.
pub check_url_iff : (r : HttpRequest) → (check_url r ≡ true) ↔ IsSafe (c_str r.url_buffer)
unfolding check_url
check_url_iff r = (
  λ h. (check_chars-IsSafe 0 (c_str r.url_buffer) h).0,
  λ s. IsSafe-check_chars 0 (c_str r.url_buffer) s (λ e. absurd (omega arith)),
)

post_parse-IsSafe :
    (r : HttpRequest) {r' : HttpRequest}
    → post_parse r ≡ (r', ParseResult.finish_ok)
    → (get_url r' ≡ some (c_str r'.url_buffer)) × IsSafe (c_str r'.url_buffer)
unfolding post_parse decode_url get_url
post_parse-IsSafe r {r'} h = (ground arith, (check_url_iff r').0 (ground arith))

after_internal-IsSafe :
    (out : HttpRequest × ParseResult) {r' : HttpRequest}
    → after_internal out ≡ (r', ParseResult.finish_ok)
    → (url : Bytes) × (get_url r' ≡ some url) × IsSafe url
unfolding after_internal
after_internal-IsSafe (r, ParseResult.finish_ok) {r'} h =
    let (found, safe) = post_parse-IsSafe r h in (c_str r'.url_buffer, found, safe)
after_internal-IsSafe (r, ParseResult.finish_invalid) h = cc (ap (λ out. out.1) h)
after_internal-IsSafe (r, ParseResult.need_more_data) h = cc (ap (λ out. out.1) h)

-- Of every request that `parse` accepts, whatever it was before, `getUrl` returns a URL, and it is
-- safe: all its bytes are allowed symbols, and no two dots stand side by side.
pub parse-IsSafe :
    (fuel : ℕ) (r : HttpRequest) (input : Bytes) {r' : HttpRequest}
    → parse fuel r input ≡ some (r', ParseResult.finish_ok)
    → (url : Bytes) × (get_url r' ≡ some url) × IsSafe url
unfolding parse
parse-IsSafe fuel r input {r'} h =
    elim (Option-cases (parse_internal fuel (record r { input = input }))) [
      | inl out_of_fuel ↦ absurd (ground arith)
      | inr (out, e) ↦ after_internal-IsSafe out (ground arith)
    ]

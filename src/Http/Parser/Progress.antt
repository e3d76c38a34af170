-- ===== src/Http/Parser/Progress.antt =====
-- src/HttpRequest.cpp: the iterations that the loop of `parseInternal` takes.
use epoll_http_server.Base.{
  ℕ, zero, suc, ◌+◌, ◌-◌, ◌*◌, ◌<◌, true, none, some, ◌≡◌, ◌≢◌, ◌⊎◌, inl, inr, refl, sym, ap, ◌∙◌,
  arith, Bytes, length, drop, length-drop, drop-drop, Bool-cases, [], ◌∷◌, ltb,
}
use mathlib.Core.Path.{subst}
use epoll_http_server.Http.Request.{HttpRequest, State, ReadResult, ParseResult, unread}
use epoll_http_server.Http.Readers.{read_url_parameters, read_header_value, read_header_line_break}
use epoll_http_server.Http.Readers.Bounds.{
  starts_with_break, read_header_value_stop, read_header_line_break_grows,
}
use epoll_http_server.Http.Parser.{
  Step, go, halt, step, step_in, parse_internal, on_method, on_space_after_method, on_url,
  on_url_parameters, on_space_after_url, on_header_key, on_header_space, on_header_value,
  on_header_line_break, on_content, content_length_key, field_bytes, buf_chars,
}
use epoll_http_server.Http.Libc.{strncasecmp}
use epoll_http_server.Http.Parser.Bounds.{InBounds, StepInBounds, step-InBounds}
use epoll_http_server.Http.Parser.Loop.{
  Step-cases, parse_internal-go, parse_internal-halt, Reach, here, Reach-first, Reach-none,
}

abbrev pub rank : State → ℕ
rank State.method = 11
rank State.space_after_method = 10
rank State.url = 9
rank State.url_parameters = 8
rank State.space_after_url = 7
rank State.header_key = 6
rank State.header_space = 5
rank State.header_value = 4
rank State.header_line_break = 3
rank State.content = 2
rank State.finish_ok = 1
rank State.invalid = 0

-- It falls in every iteration: six for each unread byte, and the rank of the state.
abbrev pub measure : HttpRequest → ℕ
measure r = 6 * (length r.input - r.cur) + rank r.state

-- The parameters of the URL are not yet complete, or end in a way that is not accepted.
pub record Stalls (r : HttpRequest) : Type 0 where
  pub in_parameters : r.state ≡ State.url_parameters
  pub not_read : (read_url_parameters (unread r) 0).0 ≢ ReadResult.ok

-- In the state that follows a header's value the next byte is a line break.
abbrev pub AtBreak : HttpRequest → Type 0
AtBreak r = r.state ≡ State.header_line_break → starts_with_break (unread r) ≡ true

starts_with_break-length : (cs : Bytes) → starts_with_break cs ≡ true → 0 < length cs
starts_with_break-length [] h = cc
starts_with_break-length (c ∷ cs) h = omega arith

abbrev Progress : HttpRequest → Step → Type 0
Progress r (go q) = (AtBreak q × (measure q < measure r)) ⊎ Stalls r
Progress r (halt q p) = Unit {0}

on_url_parameters-Progress :
    (r : HttpRequest) (e : ReadResult) (n : ℕ)
    → r.state ≡ State.url_parameters
    → read_url_parameters (unread r) 0 ≡ (e, n)
    → Progress r (on_url_parameters r (e, n))
unfolding on_url_parameters
on_url_parameters-Progress r ReadResult.ok n s h = inl (λ x. cc, ground arith)
on_url_parameters-Progress r _ n s h = inr (record { in_parameters = s; not_read = λ x. cc })

on_header_value-Progress :
    (r : HttpRequest) (e : ReadResult) (n : ℕ)
    → InBounds r
    → r.state ≡ State.header_value
    → read_header_value (unread r) 0 ≡ (e, n)
    → Progress r (on_header_value r (e, n))
unfolding on_header_value
on_header_value-Progress r ReadResult.ok n b s h =
    let (k, e, stop) = read_header_value_stop (unread r) 0 n h in
    let there : starts_with_break (drop (r.cur + n) r.input) ≡ true =
      subst (λ x. starts_with_break x ≡ true)
        (sym (drop-drop r.cur k (r.cur + n) r.input (omega arith))) stop in
    elim (Bool-cases (strncasecmp content_length_key (field_bytes r r.cur_key))) [
      | inl is_length ↦ elim (Bool-cases (ltb buf_chars n)) [
        | inl too_long ↦ rw (is_length, too_long) tt
        | inr fits ↦ rw (is_length, fits) (inl (λ x. there, ground arith))
      ]
      | inr other ↦ rw other (inl (λ x. there, ground arith))
    ]
on_header_value-Progress r _ n b s h = tt

on_header_line_break-Progress :
    (r : HttpRequest) (e : ReadResult) (n : ℕ)
    → InBounds r
    → AtBreak r
    → r.state ≡ State.header_line_break
    → read_header_line_break (unread r) ≡ (e, n)
    → Progress r (on_header_line_break r (e, n))
unfolding on_header_line_break
on_header_line_break-Progress r ReadResult.ok n b k s h =
    let grows = read_header_line_break_grows (unread r) n (k s) h in
    let room = length-drop r.cur r.input in
    let some_left = starts_with_break-length (unread r) (k s) in inl (λ x. cc, ground arith)
on_header_line_break-Progress r ReadResult.end_of_headers n b k s h = ground arith
on_header_line_break-Progress r _ n b k s h = tt

step_in-Progress :
    (s : State) (r : HttpRequest) → r.state ≡ s → InBounds r → AtBreak r → Progress r (step_in s r)
unfolding step_in on_method on_space_after_method on_url on_space_after_url on_header_key
    on_header_space on_content
step_in-Progress State.method r s b k = ground arith
step_in-Progress State.space_after_method r s b k = ground arith
step_in-Progress State.url r s b k = ground arith
step_in-Progress State.url_parameters r s b k =
    on_url_parameters-Progress r (read_url_parameters (unread r) 0).0
      (read_url_parameters (unread r) 0).1 s refl
step_in-Progress State.space_after_url r s b k = ground arith
step_in-Progress State.header_key r s b k = ground arith
step_in-Progress State.header_space r s b k = ground arith
step_in-Progress State.header_value r s b k =
    on_header_value-Progress r (read_header_value (unread r) 0).0 (read_header_value (unread r) 0).1
      b s refl
step_in-Progress State.header_line_break r s b k =
    on_header_line_break-Progress r (read_header_line_break (unread r)).0
      (read_header_line_break (unread r)).1 b k s refl
step_in-Progress State.content r s b k = ground arith
step_in-Progress State.finish_ok r s b k = tt
step_in-Progress State.invalid r s b k = tt

on_url_parameters-again :
    (r : HttpRequest) (e : ReadResult) (n : ℕ)
    → e ≢ ReadResult.ok
    → on_url_parameters r (e, n) ≡ go r
unfolding on_url_parameters
on_url_parameters-again r ReadResult.ok n h = absurd (h refl)
on_url_parameters-again r _ n h = refl

-- In a stalled state an iteration leaves the request as it is.
pub Stalls-step : (r : HttpRequest) → Stalls r → step r ≡ go r
unfolding step_in
Stalls-step r s =
    ap (λ t. step_in t r) s.in_parameters
    ∙ on_url_parameters-again r (read_url_parameters (unread r) 0).0
        (read_url_parameters (unread r) 0).1 s.not_read

-- So from a stalled state the loop never ends.
pub Stalls-none : (r : HttpRequest) → Stalls r → (fuel : ℕ) → parse_internal fuel r ≡ none
Stalls-none r s zero = unfold parse_internal in refl
Stalls-none r s (suc fuel) = parse_internal-go fuel r (Stalls-step r s) ∙ Stalls-none r s fuel

-- What becomes of the loop.
abbrev pub Ends : ℕ → HttpRequest → Type 0
Ends fuel r = (out : HttpRequest × ParseResult) × (parse_internal fuel r ≡ some out)

pub record Hangs (r : HttpRequest) : Type 0 where
  pub stalled : HttpRequest
  pub reached : Reach r stalled
  pub stalls : Stalls stalled
  pub never : (fuel : ℕ) → parse_internal fuel r ≡ none

Hangs-step : (r q : HttpRequest) → step r ≡ go q → Hangs q → Hangs r
Hangs-step r q e h = record {
  stalled = h.stalled;
  reached = Reach-first r e h.reached;
  stalls = h.stalls;
  never = Reach-none (Reach-first r e h.reached) (Stalls-none h.stalled h.stalls);
}

Ends-step : (fuel : ℕ) (r q : HttpRequest) → step r ≡ go q → Ends fuel q → Ends (suc fuel) r
Ends-step fuel r q e (out, h) = (out, parse_internal-go fuel r e ∙ h)

Stalls-Hangs : (r : HttpRequest) → Stalls r → Hangs r
Stalls-Hangs r s = record { stalled = r; reached = here; stalls = s; never = Stalls-none r s }

-- From a request in bounds, which stands at a line break if its state is `header_line_break`, the loop
-- returns within as many iterations as the measure says, or it comes to a state in which the URL's
-- parameters are not complete and goes round there for ever.
pub parse_internal-total :
    (fuel : ℕ) (r : HttpRequest) → InBounds r → AtBreak r → measure r < fuel → Ends fuel r ⊎ Hangs r
parse_internal-total zero r b k m = absurd (omega arith)
parse_internal-total (suc fuel) r b k m = elim (Step-cases (step r)) [
  | inr (q, p, e) ↦ inl ((q, p), parse_internal-halt fuel r e)
  | inl (q, e) ↦ elim (subst (Progress r) e (step_in-Progress r.state r refl b k)) [
    | inr s ↦ inr (Stalls-Hangs r s)
    | inl (k', less) ↦
        elim (parse_internal-total fuel q (subst StepInBounds e (step-InBounds r b)) k'
          (omega arith)) [
            | inl ends ↦ inl (Ends-step fuel r q e ends)
            | inr hangs ↦ inr (Hangs-step r q e hangs)
          ]
  ]
]

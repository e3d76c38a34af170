-- ===== src/Http/Parser/Bounds.antt =====
-- src/HttpRequest.cpp: the offsets that the parser keeps, and its input.
use epoll_http_server.Base.{
  sym, ◌∙◌, inl, inr, Bytes, ℕ, zero, suc, some, ◌+◌, ◌≤◌, List, [], ◌∷◌, ◌++◌, arith, length,
  length-drop, ◌≡◌, pos_part,
}
use epoll_http_server.Http.Request.{HttpRequest, Header, State, ReadResult, ParseResult, unread}
use epoll_http_server.Http.Readers.{
  read_method, read_spaces, read_url, read_url_parameters, read_to_next_line, read_header_key,
  read_header_space, read_header_value, read_header_line_break,
}
use epoll_http_server.Http.Readers.Bounds.{
  read_method_bound, read_spaces_bound, read_url_bound, read_url_parameters_bound,
  read_to_next_line_bound, read_header_key_bound, read_header_space_bound, read_header_value_bound,
  read_header_line_break_bound,
}
use mathlib.Core.Path.{subst}
use epoll_http_server.Http.Parser.Loop.{Step-cases, parse_internal-go, parse_internal-halt_eq}
use epoll_http_server.Http.Parser.{
  Step, go, halt, step, parse_internal, step_in, on_method, on_space_after_method, on_url,
  on_url_parameters, on_space_after_url, on_header_key, on_header_space, on_header_value,
  on_header_line_break, on_content,
}

-- Every header's key and value lie in the first `n` bytes.
abbrev pub HeadersIn : ℕ → List Header → Type 0
HeadersIn n [] = Unit {0}
HeadersIn n (h ∷ hs) =
    (h.key.start + h.key.length ≤ n) × (h.value.start + h.value.length ≤ n) × HeadersIn n hs

pub record InBounds (r : HttpRequest) : Type 0 where
  pub cur_in : r.cur ≤ length r.input
  pub method_in : r.method_start + r.method_length ≤ length r.input
  pub url_in : r.url_start + r.url_length ≤ length r.input
  pub url_parameters_in : r.url_parameters_start + r.url_parameters_length ≤ length r.input
  pub key_in : r.cur_key.start + r.cur_key.length ≤ length r.input
  pub headers_in : HeadersIn (length r.input) r.headers
  pub content_start_in : r.content_start ≤ length r.input
  pub content_in :
      r.state ≡ State.finish_ok → r.content_start + pos_part r.content_length ≤ length r.input

abbrev pub StepInBounds : Step → Type 0
StepInBounds (go r) = InBounds r
StepInBounds (halt r p) = InBounds r

HeadersIn-snoc :
    (n : ℕ) (hs : List Header) (h : Header)
    → HeadersIn n hs
    → h.key.start + h.key.length ≤ n
    → h.value.start + h.value.length ≤ n
    → HeadersIn n (hs ++ h ∷ [])
HeadersIn-snoc n [] h i k v = (k, v, tt)
HeadersIn-snoc n (x ∷ hs) h i k v = (i.0, i.1, HeadersIn-snoc n hs h i.2 k v)

-- A length that a reader returned leads to a place inside the input.
room :
    (r : HttpRequest) (n : ℕ) → InBounds r → n ≤ 0 + length (unread r) → r.cur + n ≤ length r.input
room r n b h = omega (arith, b.cur_in, length-drop r.cur r.input)

on_header_value-InBounds :
    (r : HttpRequest) (e : ReadResult) (n : ℕ)
    → InBounds r
    → r.cur + n ≤ length r.input
    → StepInBounds (on_header_value r (e, n))
unfolding on_header_value
on_header_value-InBounds r ReadResult.ok n b h = ground (
  arith,
  HeadersIn-snoc (length r.input) r.headers
      (record { key = r.cur_key; value = record { start = r.cur; length = n } }) b.headers_in
      b.key_in h,
)
on_header_value-InBounds r _ n b h = b

step_in-InBounds : (s : State) (r : HttpRequest) → InBounds r → StepInBounds (step_in s r)
unfolding step_in on_method on_space_after_method on_url on_url_parameters on_space_after_url
    on_header_key on_header_space on_header_line_break on_content
step_in-InBounds State.method r b =
    ground (arith, room r (read_method (unread r) 0).1 b (read_method_bound (unread r) 0))
step_in-InBounds State.space_after_method r b =
    ground (arith, room r (read_spaces (unread r) 0).1 b (read_spaces_bound (unread r) 0))
step_in-InBounds State.url r b =
    ground (arith, room r (read_url (unread r) 0).1 b (read_url_bound (unread r) 0))
step_in-InBounds State.url_parameters r b =
    ground (
      arith,
      room r (read_url_parameters (unread r) 0).1 b (read_url_parameters_bound (unread r) 0),
    )
step_in-InBounds State.space_after_url r b =
    ground
      (arith, room r (read_to_next_line (unread r) 0).1 b (read_to_next_line_bound (unread r) 0))
step_in-InBounds State.header_key r b =
    ground (arith, room r (read_header_key (unread r) 0).1 b (read_header_key_bound (unread r) 0))
step_in-InBounds State.header_space r b =
    ground
      (arith, room r (read_header_space (unread r) 0).1 b (read_header_space_bound (unread r) 0))
step_in-InBounds State.header_value r b =
    let (e, n) = read_header_value (unread r) 0 in
    on_header_value-InBounds r e n b (room r n b (read_header_value_bound (unread r) 0))
step_in-InBounds State.header_line_break r b =
    ground (
      arith,
      room r (read_header_line_break (unread r)).1 b,
      read_header_line_break_bound (unread r),
    )
step_in-InBounds State.content r b = ground arith
step_in-InBounds State.finish_ok r b = b
step_in-InBounds State.invalid r b = b

pub step-InBounds : (r : HttpRequest) → InBounds r → StepInBounds (step r)
step-InBounds r b = step_in-InBounds r.state r b

HeadersIn-mono : {n m : ℕ} (hs : List Header) → n ≤ m → HeadersIn n hs → HeadersIn m hs
HeadersIn-mono [] le i = tt
HeadersIn-mono (h ∷ hs) le i = (omega arith, omega arith, HeadersIn-mono hs le i.2)

-- A request that is handed a longer input, as `parse` is called when more has arrived, stays in
-- bounds.
pub InBounds-longer :
    (r : HttpRequest) (input : Bytes)
    → InBounds r
    → length r.input ≤ length input
    → InBounds (record r { input = input })
InBounds-longer r input b le = record {
  cur_in = omega (arith, b.cur_in);
  method_in = omega (arith, b.method_in);
  url_in = omega (arith, b.url_in);
  url_parameters_in = omega (arith, b.url_parameters_in);
  key_in = omega (arith, b.key_in);
  headers_in = HeadersIn-mono r.headers le b.headers_in;
  content_start_in = omega (arith, b.content_start_in);
  content_in = λ e. omega (arith, b.content_in e);
}

-- When the loop returns, the positions and the fields that the request records lie inside the input,
-- if they did before.
pub parse_internal-InBounds :
    (fuel : ℕ) (r : HttpRequest) {r' : HttpRequest} {result : ParseResult}
    → InBounds r
    → parse_internal fuel r ≡ some (r', result)
    → InBounds r'
parse_internal-InBounds zero r b h = unfold parse_internal in cc h
parse_internal-InBounds (suc fuel) r {r'} {result} b h = elim (Step-cases (step r)) [
  | inl (q, e) ↦
      parse_internal-InBounds fuel q (subst StepInBounds e (step-InBounds r b))
        (sym (parse_internal-go fuel r e) ∙ h)
  | inr (q, p, e) ↦
      subst InBounds (parse_internal-halt_eq fuel r e h).0
        (subst StepInBounds e (step-InBounds r b))
]

-- ===== src/Http/Parser/Stall.antt =====
-- src/HttpRequest.cpp: the loop of `parseInternal` on requests that stop in the parameters of the URL.
use epoll_http_server.Base.{
  ℕ, ◌+◌, none, ◌≡◌, refl, sym, ap, ◌∙◌, true, [], ◌∷◌, ◌++◌, Bytes, arith, length, drop, All,
}
use mathlib.Core.Path.{subst}
use epoll_http_server.Http.Chars.{is_upper, read_url_symbols}
use epoll_http_server.Http.Request.{HttpRequest, State, unread}
use epoll_http_server.Http.Readers.Accept.{not_space, not_break, read_url_parameters_no_space}
use epoll_http_server.Http.Parser.{parse_internal}
use epoll_http_server.Http.Parser.Loop.{here, next, Reach-none}
use epoll_http_server.Http.Parser.Progress.{Stalls, Stalls-none}
use epoll_http_server.Http.Parser.Accept.{
  drop-advance, step_method, step_space_after_method, step_url_question,
}

no_space-Stalls :
    (r : HttpRequest) → r.state ≡ State.url_parameters → All not_space (unread r) → Stalls r
no_space-Stalls r s a = record {
  in_parameters = s;
  not_read = λ e. cc (ap (λ x. x.0) (read_url_parameters_no_space (unread r) 0 a));
}

-- The first byte of the target and the bytes behind it.
target_head :
    (u q : Bytes)
    → All read_url_symbols u
    → (c : ℕ) × (s : Bytes) × (u ++ b'?' ∷ q ≡ c ∷ s) × (not_space c ≡ true) × (not_break c ≡ true)
target_head [] q a = (b'?', q, refl, refl, refl)
target_head (c ∷ u) q a = (
  c,
  u ++ b'?' ∷ q,
  refl,
  unfold read_url_symbols in ground arith,
  unfold read_url_symbols in ground arith,
)

-- A request line whose URL has parameters, of which no end has arrived: for every method `m` of
-- capital letters, every URL `u` of allowed characters and every text `q` without a space, the loop
-- goes round for ever on `m`, a space, `u`, a question mark and `q`.
pub parse_internal_hangs :
    (m u q : Bytes) (r : HttpRequest)
    → All is_upper m
    → All read_url_symbols u
    → All not_space q
    → r.cur ≡ 0
    → r.state ≡ State.method
    → r.input ≡ m ++ b' ' ∷ (u ++ b'?' ∷ q)
    → (fuel : ℕ) → parse_internal fuel r ≡ none
parse_internal_hangs m u q r am au aq c s e =
    let (x, t, split, sp, br) = target_head u q au in
    let u0 : unread r ≡ m ++ b' ' ∷ (u ++ b'?' ∷ q) = ap (λ k. drop k r.input) c ∙ e in
    let s1 = step_method r (u ++ b'?' ∷ q) m s u0 am in
    let u1 : drop (r.cur + length m) r.input ≡ b' ' ∷ (u ++ b'?' ∷ q) =
      drop-advance r.cur (length m) r.input m (b' ' ∷ (u ++ b'?' ∷ q)) u0 refl in
    let r1 = after_method in
    let s2 = step_space_after_method r1 t x refl (u1 ∙ ap (λ y. b' ' ∷ y) split) sp br in
    let u2 : drop (r.cur + length m + 1) r.input ≡ u ++ b'?' ∷ q =
      drop-advance (r.cur + length m) 1 r.input (b' ' ∷ []) (u ++ b'?' ∷ q) u1 refl in
    let r2 = at_url in
    let s3 = step_url_question r2 q u refl u2 au in
    let u3 : drop (r.cur + length m + 1 + length u) r.input ≡ b'?' ∷ q =
      drop-advance (r.cur + length m + 1) (length u) r.input u (b'?' ∷ q) u2 refl in
    Reach-none (next (next (next here s1) s2) s3) (
      Stalls-none at_parameters
        (no_space-Stalls at_parameters refl (subst (All not_space) (sym u3) (refl, aq))))
  where
    after_method : HttpRequest
    after_method = record r {
      method_start = r.cur;
      method_length = length m;
      cur = r.cur + length m;
      state = State.space_after_method;
    }

    at_url : HttpRequest
    at_url = record after_method { cur = r.cur + length m + 1; state = State.url }

    at_parameters : HttpRequest
    at_parameters = record at_url {
      url_start = at_url.cur;
      url_length = length u;
      cur = at_url.cur + length u;
      state = State.url_parameters;
    }

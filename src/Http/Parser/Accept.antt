-- ===== src/Http/Parser/Accept.antt =====
-- One iteration of the loop on well-formed text, state by state.
use epoll_http_server.Base.{
  ℕ, ◌+◌, ◌≡◌, refl, ap, ◌∙◌, true, ◌∷◌, ◌++◌, Bytes, arith, length, drop, All, drop-drop,
  drop-append,
}
use epoll_http_server.Http.Chars.{is_upper, read_url_symbols}
use epoll_http_server.Http.Request.{HttpRequest, State, ReadResult, unread}
use epoll_http_server.Http.Readers.{found, read_method, read_spaces, read_url}
use epoll_http_server.Http.Readers.Accept.{
  not_space, not_break, read_method_accepts, read_spaces_accepts, read_url_accepts,
  read_url_question,
}
use epoll_http_server.Http.Parser.{go, step, step_in, on_method, on_space_after_method, on_url}

-- Behind `n` bytes that are `xs`, the rest is unread.
pub drop-advance :
    (cur n : ℕ) (input xs rest : Bytes)
    → drop cur input ≡ xs ++ rest
    → n ≡ length xs
    → drop (cur + n) input ≡ rest
drop-advance cur n input xs rest h e =
    drop-drop cur n (cur + n) input refl
    ∙ ap (λ k. drop k (drop cur input)) e
    ∙ ap (drop (length xs)) h
    ∙ drop-append xs rest

module _ (r : HttpRequest) (rest : Bytes) where
  pub step_method :
      (m : Bytes)
      → r.state ≡ State.method
      → unread r ≡ m ++ b' ' ∷ rest
      → All is_upper m
      → step r
        ≡ go (record r {
          method_start = r.cur;
          method_length = length m;
          cur = r.cur + length m;
          state = State.space_after_method;
        })
  unfolding step_in on_method
  step_method m s u a =
      ap (λ t. step_in t r) s
      ∙ ap (λ x. on_method r (read_method x 0)) u
      ∙ ap (on_method r) (read_method_accepts rest m 0 a ∙ ap found (omega arith))

  pub step_space_after_method :
      (c : ℕ)
      → r.state ≡ State.space_after_method
      → unread r ≡ b' ' ∷ c ∷ rest
      → not_space c ≡ true
      → not_break c ≡ true
      → step r ≡ go (record r { cur = r.cur + 1; state = State.url })
  unfolding step_in on_space_after_method
  step_space_after_method c s u a b =
      ap (λ t. step_in t r) s
      ∙ ap (λ x. on_space_after_method r (read_spaces x 0)) u
      ∙ ap (on_space_after_method r) (read_spaces_accepts rest c a b)

  pub step_url :
      (t : Bytes)
      → r.state ≡ State.url
      → unread r ≡ t ++ b' ' ∷ rest
      → All read_url_symbols t
      → step r
        ≡ go (record r {
          url_start = r.cur;
          url_length = length t;
          cur = r.cur + length t;
          state = State.space_after_url;
        })
  unfolding step_in on_url
  step_url t s u a =
      ap (λ x. step_in x r) s
      ∙ ap (λ x. on_url r (read_url x 0)) u
      ∙ ap (on_url r) (read_url_accepts rest t 0 a ∙ ap found (omega arith))

  pub step_url_question :
      (t : Bytes)
      → r.state ≡ State.url
      → unread r ≡ t ++ b'?' ∷ rest
      → All read_url_symbols t
      → step r
        ≡ go (record r {
          url_start = r.cur;
          url_length = length t;
          cur = r.cur + length t;
          state = State.url_parameters;
        })
  unfolding step_in on_url
  step_url_question t s u a =
      ap (λ x. step_in x r) s
      ∙ ap (λ x. on_url r (read_url x 0)) u
      ∙ ap (on_url r)
          (read_url_question rest t 0 a ∙ ap (λ n. (ReadResult.question, n)) (omega arith))

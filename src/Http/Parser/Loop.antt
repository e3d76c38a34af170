-- ===== src/Http/Parser/Loop.antt =====
-- The loop of `parseInternal` in terms of its iterations.
use epoll_http_server.Base.{ℕ, zero, suc, none, some, ◌≡◌, refl, ◌∙◌, ◌⊎◌, inl, inr, arith}
use epoll_http_server.Http.Request.{HttpRequest, ParseResult}
use epoll_http_server.Http.Parser.{Step, go, halt, step, parse_internal}

pub Step-cases :
    (s : Step)
    → ((q : HttpRequest) × (s ≡ go q)) ⊎ ((q : HttpRequest) × (p : ParseResult) × (s ≡ halt q p))
Step-cases (go q) = inl (q, refl)
Step-cases (halt q p) = inr (q, p, refl)

module _ (fuel : ℕ) (r : HttpRequest) {q : HttpRequest} where
  pub parse_internal-go : step r ≡ go q → parse_internal (suc fuel) r ≡ parse_internal fuel q
  unfolding parse_internal
  parse_internal-go e = rw (e, parse_internal) refl

  pub parse_internal-halt :
      {p : ParseResult} → step r ≡ halt q p → parse_internal (suc fuel) r ≡ some (q, p)
  unfolding parse_internal
  parse_internal-halt e = rw (e, parse_internal) refl

-- `q` is what the iterations make of `r`.
pub data Reach (r : HttpRequest) : HttpRequest → Type 0 where
  here : Reach r r
  next : {p q : HttpRequest} → Reach r p → step p ≡ go q → Reach r q

pub Reach-first : (r : HttpRequest) {p q : HttpRequest} → step r ≡ go p → Reach p q → Reach r q
Reach-first r e here = next here e
Reach-first r e (next s f) = next (Reach-first r e s) f

-- What the loop returned where its first iteration returned.
pub parse_internal-halt_eq :
    (fuel : ℕ) (r : HttpRequest) {q r' : HttpRequest} {p result : ParseResult}
    → step r ≡ halt q p
    → parse_internal (suc fuel) r ≡ some (r', result)
    → (q ≡ r') × (p ≡ result)
parse_internal-halt_eq fuel r {q} {r'} {p} {result} e h =
    let halted = parse_internal-halt fuel r e in ground arith

-- A request from which a state is reached that no fuel brings to an end never ends either.
pub Reach-none :
    {r q : HttpRequest}
    → Reach r q
    → ((fuel : ℕ) → parse_internal fuel q ≡ none)
    → (fuel : ℕ) → parse_internal fuel r ≡ none
unfolding parse_internal
Reach-none here never fuel = never fuel
Reach-none (next {p} s e) never fuel = Reach-none s (before p e never) fuel
  where
    before :
        (p : HttpRequest) {q : HttpRequest}
        → step p ≡ go q
        → ((fuel : ℕ) → parse_internal fuel q ≡ none)
        → (fuel : ℕ) → parse_internal fuel p ≡ none
    before p e never zero = refl
    before p e never (suc fuel) = parse_internal-go fuel p e ∙ never fuel

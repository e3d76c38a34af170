-- ===== src/Http/Readers/Accept.antt =====
-- src/HttpRequest.cpp: what each reader returns on the texts that it looks for.
use epoll_http_server.Base.{
  ℕ, ◌+◌, ◌≡◌, refl, Bool, true, false, not, ◌&&◌, [], ◌∷◌, ◌++◌, Bytes, arith, ◌==◌, length, All,
  ltb, if◌then◌else◌,
}
use epoll_http_server.Http.Chars.{is_upper, is_break, read_url_symbols, read_header_key_symbols}
use epoll_http_server.Http.Request.{ReadResult}
use epoll_http_server.Http.Readers.{
  found, read_method, read_spaces, read_url, read_url_parameters, read_to_next_line,
  read_header_key, read_header_space, read_header_value, read_header_line_break, pass_breaks,
  next_line, line_break,
}

abbrev pub not_space : ℕ → Bool
not_space c = not (c == b' ')

abbrev pub not_break : ℕ → Bool
not_break c = not (c == b'\r') && not (c == b'\n')

unfoldable pub line_feeds : Bytes → ℕ
line_feeds [] = 0
line_feeds (c ∷ cs) = let rest = line_feeds cs in if c == b'\n' then rest + 1 else rest

abbrev pub is_empty : Bytes → Bool
is_empty [] = true
is_empty (c ∷ cs) = false

module _ (rest : Bytes) where
  pub read_method_accepts :
      (m : Bytes) (i : ℕ) → All is_upper m → read_method (m ++ b' ' ∷ rest) i ≡ found (i + length m)
  unfolding read_method
  read_method_accepts [] i h = ground arith
  read_method_accepts (c ∷ m) i h = ground (arith, read_method_accepts m (i + 1) h.1)

  pub read_spaces_accepts :
      (c : ℕ) → not_space c ≡ true → not_break c ≡ true → read_spaces (b' ' ∷ c ∷ rest) 0 ≡ found 1
  unfolding read_spaces
  read_spaces_accepts c h k = ground arith

  pub read_url_accepts :
      (u : Bytes) (i : ℕ)
      → All read_url_symbols u
      → read_url (u ++ b' ' ∷ rest) i ≡ found (i + length u)
  unfolding read_url
  read_url_accepts [] i h = unfold read_url_symbols in ground arith
  read_url_accepts (c ∷ u) i h = ground (arith, read_url_accepts u (i + 1) h.1)

  pub read_url_question :
      (u : Bytes) (i : ℕ)
      → All read_url_symbols u
      → read_url (u ++ b'?' ∷ rest) i ≡ (ReadResult.question, i + length u)
  unfolding read_url
  read_url_question [] i h = unfold read_url_symbols in ground arith
  read_url_question (c ∷ u) i h = ground (arith, read_url_question u (i + 1) h.1)

  pub read_url_parameters_accepts :
      (q : Bytes) (i : ℕ)
      → All not_space q
      → read_url_parameters (q ++ b' ' ∷ rest) i ≡ found (i + length q)
  unfolding read_url_parameters
  read_url_parameters_accepts [] i h = ground arith
  read_url_parameters_accepts (c ∷ q) i h =
      ground (arith, read_url_parameters_accepts q (i + 1) h.1)

  pub read_to_next_line_accepts :
      (v : Bytes) (i c : ℕ)
      → All not_break v
      → not_break c ≡ true
      → read_to_next_line (v ++ b'\r' ∷ b'\n' ∷ c ∷ rest) i ≡ found (i + length v + 2)
  unfolding read_to_next_line next_line pass_breaks
  read_to_next_line_accepts [] i c h k = ground arith
  read_to_next_line_accepts (x ∷ v) i c h k =
      ground (arith, read_to_next_line_accepts v (i + 1) c h.1 k)

  pub read_header_key_accepts :
      (k : Bytes) (i : ℕ)
      → All read_header_key_symbols k
      → read_header_key (k ++ b':' ∷ rest) i ≡ found (i + length k)
  unfolding read_header_key
  read_header_key_accepts [] i h = unfold read_header_key_symbols in ground arith
  read_header_key_accepts (c ∷ k) i h = ground (arith, read_header_key_accepts k (i + 1) h.1)

  pub read_header_space_accepts :
      (c : ℕ)
      → (c == b':') ≡ false
      → not_space c ≡ true
      → not_break c ≡ true
      → read_header_space (b':' ∷ b' ' ∷ c ∷ rest) 0 ≡ found 2
  unfolding read_header_space
  read_header_space_accepts c n h k = ground arith

  pub read_header_value_accepts :
      (v : Bytes) (i : ℕ)
      → All not_break v
      → read_header_value (v ++ b'\r' ∷ rest) i ≡ found (i + length v)
  unfolding read_header_value
  read_header_value_accepts [] i h = ground arith
  read_header_value_accepts (c ∷ v) i h = ground (arith, read_header_value_accepts v (i + 1) h.1)

  pub read_header_line_break_accepts :
      (c : ℕ) → not_break c ≡ true → read_header_line_break (b'\r' ∷ b'\n' ∷ c ∷ rest) ≡ found 2
  unfolding read_header_line_break line_break pass_breaks
  read_header_line_break_accepts c h = ground arith

-- The text does not begin with a line break.
unfoldable pub BreaksEnd : Bytes → Type 0
BreaksEnd [] = Unit {0}
BreaksEnd (c ∷ cs) = not_break c ≡ true

pass_breaks-All :
    (bs rest : Bytes) (i n : ℕ)
    → All is_break bs
    → BreaksEnd rest
    → let b = pass_breaks (bs ++ rest) i n in
      (b.index ≡ i + length bs) × (b.line_breaks ≡ n + line_feeds bs) × (b.at_end ≡ is_empty rest)
unfolding pass_breaks BreaksEnd line_feeds
pass_breaks-All [] [] i n h k = (omega arith, omega arith, refl)
pass_breaks-All [] (c ∷ rest) i n h k = ground arith
pass_breaks-All (b ∷ bs) rest i n h k =
    ground (
      arith,
      pass_breaks-All bs rest (i + 1) n h.1 k,
      pass_breaks-All bs rest (i + 1) (n + 1) h.1 k,
    )

-- At a run of line breaks, behind which the text ends or goes on with another character,
-- readHeaderLineBreak reports the end of the headers, of the length of the whole run, if the run has
-- more than one line feed, so that line breaks that begin the content are passed too; with one line
-- feed or none it wants more data if the text ends, and else passes the run.
pub read_header_line_break_lem :
    (bs rest : Bytes)
    → All is_break bs
    → BreaksEnd rest
    → read_header_line_break (bs ++ rest) ≡ (
        if ltb 1 (line_feeds bs)
        then (ReadResult.end_of_headers, length bs)
        else if is_empty rest
        then (ReadResult.need_more_data, 0)
        else (ReadResult.ok, length bs))
unfolding read_header_line_break line_break
read_header_line_break_lem bs rest h k =
    let (index, feeds, at_end) = pass_breaks-All bs rest 0 0 h k in
    let all : (pass_breaks (bs ++ rest) 0 0).index ≡ length bs = omega (arith, index) in
    let count : (pass_breaks (bs ++ rest) 0 0).line_breaks ≡ line_feeds bs = omega (arith, feeds) in
    rw (all, count, at_end) refl

-- Without a space the parameters of the URL are not read to an end.
pub read_url_parameters_no_space :
    (s : Bytes) (i : ℕ) → All not_space s → read_url_parameters s i ≡ (ReadResult.need_more_data, 0)
unfolding read_url_parameters
read_url_parameters_no_space [] i h = refl
read_url_parameters_no_space (c ∷ s) i h =
    ground (arith, read_url_parameters_no_space s (i + 1) h.1)

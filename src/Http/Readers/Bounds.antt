-- ===== src/Http/Readers/Bounds.antt =====
-- The lengths that the readers return stay inside the input, and two facts by which the loop over
-- headers makes progress.
use epoll_http_server.Base.{
  ℕ, suc, ◌+◌, ◌≤◌, ◌<◌, Bool, true, false, Bool-cases, inl, inr, [], ◌∷◌, Bytes, ◌≡◌, arith,
  length, drop,
}
use epoll_http_server.Http.Chars.{is_break}
use epoll_http_server.Http.Request.{ReadResult}
use epoll_http_server.Http.Readers.{
  read_method, read_spaces, read_url, read_url_parameters, read_to_next_line, read_header_key,
  read_header_space, read_header_value, read_header_line_break, pass_breaks, next_line, line_break,
}

pub read_method_bound : (cs : Bytes) (i : ℕ) → (read_method cs i).1 ≤ i + length cs
unfolding read_method
read_method_bound [] i = omega arith
read_method_bound (c ∷ cs) i = ground (arith, read_method_bound cs (i + 1))

pub read_spaces_bound : (cs : Bytes) (i : ℕ) → (read_spaces cs i).1 ≤ i + length cs
unfolding read_spaces
read_spaces_bound [] i = omega arith
read_spaces_bound (c ∷ cs) i = ground (arith, read_spaces_bound cs (i + 1))

pub read_url_bound : (cs : Bytes) (i : ℕ) → (read_url cs i).1 ≤ i + length cs
unfolding read_url
read_url_bound [] i = omega arith
read_url_bound (c ∷ cs) i = ground (arith, read_url_bound cs (i + 1))

pub read_url_parameters_bound : (cs : Bytes) (i : ℕ) → (read_url_parameters cs i).1 ≤ i + length cs
unfolding read_url_parameters
read_url_parameters_bound [] i = omega arith
read_url_parameters_bound (c ∷ cs) i = ground (arith, read_url_parameters_bound cs (i + 1))

pass_breaks_bound : (cs : Bytes) (i n : ℕ) → (pass_breaks cs i n).index ≤ i + length cs
unfolding pass_breaks
pass_breaks_bound [] i n = omega arith
pass_breaks_bound (c ∷ cs) i n =
    ground (arith, pass_breaks_bound cs (i + 1) n, pass_breaks_bound cs (i + 1) (n + 1))

pass_breaks_grows : (cs : Bytes) (i n : ℕ) → i ≤ (pass_breaks cs i n).index
unfolding pass_breaks
pass_breaks_grows [] i n = omega arith
pass_breaks_grows (c ∷ cs) i n =
    ground (arith, pass_breaks_grows cs (i + 1) n, pass_breaks_grows cs (i + 1) (n + 1))

pub read_to_next_line_bound : (cs : Bytes) (i : ℕ) → (read_to_next_line cs i).1 ≤ i + length cs
unfolding read_to_next_line next_line
read_to_next_line_bound [] i = omega arith
read_to_next_line_bound (c ∷ cs) i =
    ground (arith, read_to_next_line_bound cs (i + 1), pass_breaks_bound (c ∷ cs) i 0)

pub read_header_key_bound : (cs : Bytes) (i : ℕ) → (read_header_key cs i).1 ≤ i + length cs
unfolding read_header_key
read_header_key_bound [] i = omega arith
read_header_key_bound (c ∷ cs) i = ground (arith, read_header_key_bound cs (i + 1))

pub read_header_space_bound : (cs : Bytes) (i : ℕ) → (read_header_space cs i).1 ≤ i + length cs
unfolding read_header_space
read_header_space_bound [] i = omega arith
read_header_space_bound (c ∷ cs) i = ground (arith, read_header_space_bound cs (i + 1))

pub read_header_value_bound : (cs : Bytes) (i : ℕ) → (read_header_value cs i).1 ≤ i + length cs
unfolding read_header_value
read_header_value_bound [] i = omega arith
read_header_value_bound (c ∷ cs) i = ground (arith, read_header_value_bound cs (i + 1))

pub read_header_line_break_bound : (cs : Bytes) → (read_header_line_break cs).1 ≤ length cs
unfolding read_header_line_break line_break
read_header_line_break_bound cs = ground (arith, pass_breaks_bound cs 0 0)

abbrev pub starts_with_break : Bytes → Bool
starts_with_break [] = false
starts_with_break (c ∷ cs) = is_break c

-- A value ends at a line break.
pub read_header_value_stop :
    (cs : Bytes) (i n : ℕ)
    → read_header_value cs i ≡ (ReadResult.ok, n)
    → (k : ℕ) × (n ≡ i + k) × (starts_with_break (drop k cs) ≡ true)
unfolding read_header_value
read_header_value_stop [] i n h = absurd (ground arith)
read_header_value_stop (c ∷ cs) i n h = elim (Bool-cases (is_break c)) [
  | inl stop ↦ (0, ground arith, stop)
  | inr pass ↦
      let (k, e, s) = read_header_value_stop cs (i + 1) n (ground arith) in (suc k, omega arith, s)
]

-- At a line break `readHeaderLineBreak` passes it.
pub read_header_line_break_grows :
    (cs : Bytes) (n : ℕ)
    → starts_with_break cs ≡ true
    → read_header_line_break cs ≡ (ReadResult.ok, n)
    → 0 < n
unfolding read_header_line_break line_break pass_breaks
read_header_line_break_grows [] n s h = absurd (ground arith)
read_header_line_break_grows (c ∷ cs) n s h =
    ground (arith, pass_breaks_grows cs 1 0, pass_breaks_grows cs 1 1)

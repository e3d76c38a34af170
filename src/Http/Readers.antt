-- ===== src/Http/Readers.antt =====
-- The methods `readMethod` … `readHeaderLineBreak`. Each reads on from `cur`; it is a function of
-- the bytes there, with the count `i` of those already passed (the source's `i - cur`). The number
-- returned is the out-parameter `length`; it is 0 where the source leaves it unset.
pub mod Bounds
pub mod Accept
use epoll_http_server.Base.{
  ℕ, ◌+◌, Bool, true, false, not, ◌&&◌, ◌||◌, Bytes, [], ◌∷◌, ◌==◌, ltb, if◌then◌else◌,
}
use epoll_http_server.Http.Chars.{is_upper, is_break, read_url_symbols, read_header_key_symbols}
use epoll_http_server.Http.Request.{ReadResult}

abbrev more : ReadResult × ℕ
more = (ReadResult.need_more_data, 0)

abbrev bad : ReadResult × ℕ
bad = (ReadResult.invalid, 0)

abbrev pub found : ℕ → ReadResult × ℕ
found i = (ReadResult.ok, i)

unfoldable pub read_method : Bytes → ℕ → ReadResult × ℕ
read_method [] i = more
read_method (c ∷ cs) i =
    let rest = read_method cs (i + 1) in
    if is_upper c then rest else if c == b' ' then found i else bad

unfoldable pub read_spaces : Bytes → ℕ → ReadResult × ℕ
read_spaces [] i = more
read_spaces (c ∷ cs) i =
    let rest = read_spaces cs (i + 1) in
    if c == b' ' then rest else if is_break c then bad else found i

unfoldable pub read_url : Bytes → ℕ → ReadResult × ℕ
read_url [] i = more
read_url (c ∷ cs) i =
    let rest = read_url cs (i + 1) in
    if read_url_symbols c
    then rest
    else if c == b' '
    then found i
    else if c == b'?'
    then (ReadResult.question, i)
    else bad

unfoldable pub read_url_parameters : Bytes → ℕ → ReadResult × ℕ
read_url_parameters [] i = more
read_url_parameters (c ∷ cs) i =
    let rest = read_url_parameters cs (i + 1) in
    if not (c == b' ') then rest else if is_break c then bad else found i

-- The loop over line breaks: the index behind them, the count of '\n', and whether the input ends.
pub record Breaks : Type 0 where
  pub index : ℕ
  pub line_breaks : ℕ
  pub at_end : Bool

unfoldable pub pass_breaks : Bytes → ℕ → ℕ → Breaks
pass_breaks [] i n = record { index = i; line_breaks = n; at_end = true }
pass_breaks (c ∷ cs) i n =
    let rest = pass_breaks cs (i + 1) (if c == b'\n' then n + 1 else n) in
    if is_break c then rest else record { index = i; line_breaks = n; at_end = false }

unfoldable pub next_line : Breaks → ReadResult × ℕ
next_line b =
    if ltb 1 b.line_breaks
    then (ReadResult.end_of_headers, 0)
    else if b.at_end
    then more
    else found b.index

unfoldable pub read_to_next_line : Bytes → ℕ → ReadResult × ℕ
read_to_next_line [] i = more
read_to_next_line (c ∷ cs) i =
    let rest = read_to_next_line cs (i + 1) in
    if not (c == b'\r') && not (c == b'\n') then rest else next_line (pass_breaks (c ∷ cs) i 0)

unfoldable pub read_header_key : Bytes → ℕ → ReadResult × ℕ
read_header_key [] i = more
read_header_key (c ∷ cs) i =
    let rest = read_header_key cs (i + 1) in
    if read_header_key_symbols c then rest else if c == b':' then found i else bad

unfoldable pub read_header_space : Bytes → ℕ → ReadResult × ℕ
read_header_space [] i = more
read_header_space (c ∷ cs) i =
    let rest = read_header_space cs (i + 1) in
    if c == b':' || c == b' ' then rest else if is_break c then bad else found i

unfoldable pub read_header_value : Bytes → ℕ → ReadResult × ℕ
read_header_value [] i = more
read_header_value (c ∷ cs) i =
    let rest = read_header_value cs (i + 1) in
    if not (c == b'\r') && not (c == b'\n') then rest else found i

unfoldable pub line_break : Breaks → ReadResult × ℕ
line_break b =
    if ltb 1 b.line_breaks
    then (ReadResult.end_of_headers, b.index)
    else if b.at_end
    then more
    else found b.index

unfoldable pub read_header_line_break : Bytes → ReadResult × ℕ
read_header_line_break cs = line_break (pass_breaks cs 0 0)

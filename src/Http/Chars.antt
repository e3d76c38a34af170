-- ===== src/Http/Chars.antt =====
-- `HttpRequest::initSymbolArrays`: the three tables of 256 entries, as tests on a byte.
use epoll_http_server.Base.{ℕ, Bool, ◌||◌, ◌==◌, within}

abbrev pub is_lower : ℕ → Bool
is_lower i = within b'a' b'z' i

abbrev pub is_upper : ℕ → Bool
is_upper i = within b'A' b'Z' i

abbrev pub is_digit : ℕ → Bool
is_digit i = within b'0' b'9' i

unfoldable pub check_url_symbols : ℕ → Bool
check_url_symbols i =
    is_lower i
    || is_upper i
    || is_digit i
    || i == b'/'
    || i == b'.'
    || i == b'_'
    || i == b'-'
    || i == b' '

unfoldable pub read_url_symbols : ℕ → Bool
read_url_symbols i =
    is_lower i
    || is_upper i
    || is_digit i
    || i == b'/'
    || i == b'.'
    || i == b'_'
    || i == b'='
    || i == b'-'
    || i == b'%'

unfoldable pub read_header_key_symbols : ℕ → Bool
read_header_key_symbols i = is_upper i || is_lower i || i == b'-'

-- '\r' or '\n'
abbrev pub is_break : ℕ → Bool
is_break c = c == b'\r' || c == b'\n'

-- ===== src/Http/Samples.antt =====
-- Sample requests, that of tests/TestHttpRequest.cpp among them, run through the parser.
use mathlib.Core.Option
use epoll_http_server.Base.{
  ℕ, ◌≤◌, Option, none, some, [], ◌∷◌, ◌++◌, Bytes, ◌≡◌, ◌↔◌, ◌⊎◌, refl, arith, codes, length, true,
  take,
}
use epoll_http_server.Http.Chars.{check_url_symbols, read_url_symbols, read_header_key_symbols}
use epoll_http_server.Http.Libc.{c_str, atoi, strncasecmp, to_lower}
use epoll_http_server.Http.Request.{HttpRequest, State, ReadResult, ParseResult, fresh}
use epoll_http_server.Http.Readers.{
  read_method, read_spaces, read_url, read_url_parameters, read_to_next_line, read_header_key,
  read_header_space, read_header_value, read_header_line_break, pass_breaks, next_line, line_break,
}
use epoll_http_server.Http.Readers.Accept.{line_feeds, BreaksEnd, read_header_line_break_lem}
use epoll_http_server.Http.Parser.{
  parse_internal, step_in, on_method, on_space_after_method, on_url, on_url_parameters,
  on_space_after_url, on_header_key, on_header_space, on_header_value, on_header_line_break,
  on_content,
}
use epoll_http_server.Http.Parser.Bounds.{InBounds, parse_internal-InBounds}
use epoll_http_server.Http.Parser.Progress.{Ends, Hangs, parse_internal-total}
use epoll_http_server.Http.Parser.Stall.{parse_internal_hangs}
use epoll_http_server.Http.Methods.{parse, get_url, after_internal, post_parse}
use epoll_http_server.Http.Url.{
  check_url, check_chars, decode_pair, hex2int, reserve, decode_url, percent_decode, is_prefix,
  output, url_source,
}
use epoll_http_server.Http.Url.Decode.{
  percent_encode, percent_decode-percent_encode, decode_url_lem,
}
use epoll_http_server.Http.Url.Prefix.{Related, is_prefix_iff}
use epoll_http_server.Http.Url.Safety.{IsSafe, check_url_iff, parse-IsSafe}

abbrev line : Bytes → Bytes
line s = s ++ (b'\r' ∷ b'\n' ∷ [])

abbrev get_request : Bytes
get_request =
    line (codes "GET /gallery/flowers%202016/1?album-view=3 HTTP/1.1")
    ++ line (codes "Host: 127.0.0.1:7000")
    ++ line (codes "Accept-Encoding: gzip, deflate")
    ++ line []

-- `parse`, opened down to its last helper, for the tests.
computed : ℕ → HttpRequest → Bytes → Option (HttpRequest × ParseResult)
unfolding parse parse_internal step_in on_method read_method on_space_after_method read_spaces
    on_url read_url read_url_symbols on_url_parameters read_url_parameters on_space_after_url
    read_to_next_line next_line pass_breaks on_header_key read_header_key check_url_symbols
    read_header_key_symbols atoi c_str strncasecmp to_lower after_internal post_parse on_content
    on_header_line_break on_header_space on_header_value line_break read_header_line_break
    read_header_space read_header_value check_chars check_url decode_pair decode_url hex2int
    percent_decode reserve get_url
computed fuel r input = parse fuel r input

abbrev outcome : Bytes → Option ParseResult
outcome input = Option.map (λ out. out.1) (parse 100 fresh input)

get_request_finishes : outcome get_request ≡ some ParseResult.finish_ok
unfolding computed
get_request_finishes = refl

get_request_needs_more : outcome (take 43 get_request) ≡ some ParseResult.need_more_data
unfolding computed
get_request_needs_more = refl

-- The key "C" is taken for "Content-Length".
abbrev short_key : Bytes
short_key = line (codes "POST /a HTTP/1.1") ++ line (codes "C: 3") ++ line []

short_key_waits : outcome short_key ≡ some ParseResult.need_more_data
unfolding computed
short_key_waits = refl

-- A body that begins with a line break loses it.
abbrev posted : Bytes
posted =
    line (codes "POST /a HTTP/1.1") ++ line (codes "Content-Length: 3") ++ line [] ++ codes "\nab"

posted_waits : outcome posted ≡ some ParseResult.need_more_data
unfolding computed
posted_waits = refl

abbrev request_or_fresh : Option (HttpRequest × ParseResult) → HttpRequest
request_or_fresh none = fresh
request_or_fresh (some out) = out.0

abbrev with_input : Bytes → HttpRequest
with_input input = record fresh { input = input }

-- The requests that the parser makes of `get_request`, and of a part of it.
finished : HttpRequest
unfolding computed
finished = request_or_fresh (parse 100 fresh get_request)

halted : HttpRequest
unfolding computed
halted = request_or_fresh (parse_internal 100 (with_input get_request))

parse-finished : parse 100 fresh get_request ≡ some (finished, ParseResult.finish_ok)
unfolding finished computed
parse-finished = refl

parse_internal-halted :
    parse_internal 100 (with_input get_request) ≡ some (halted, ParseResult.finish_ok)
unfolding halted computed
parse_internal-halted = refl

fresh-InBounds : (input : Bytes) → InBounds (with_input input)
fresh-InBounds input = omega arith

parse-IsSafe_example : (url : Bytes) × (get_url finished ≡ some url) × IsSafe url
parse-IsSafe_example = parse-IsSafe 100 fresh get_request parse-finished

parse_internal-InBounds_example : InBounds halted
parse_internal-InBounds_example =
    parse_internal-InBounds 100 (with_input get_request) {result = ParseResult.finish_ok}
      (fresh-InBounds get_request) parse_internal-halted

abbrev short_get : Bytes
short_get = codes "GET /"

parse_internal-total_example : Ends 42 (with_input short_get) ⊎ Hangs (with_input short_get)
parse_internal-total_example =
    parse_internal-total 42 (with_input short_get) (fresh-InBounds short_get) (λ e. cc)
      (omega arith)

abbrev partial : Bytes
partial = codes "GET /a?b=1"

parse_internal_hangs_example : parse_internal 1000 (with_input partial) ≡ none
unfolding computed
parse_internal_hangs_example =
    parse_internal_hangs (codes "GET") (codes "/a") (codes "b=1") (with_input partial)
      (refl, (refl, (refl, tt))) (refl, (refl, tt)) (refl, (refl, (refl, tt))) refl refl refl 1000

check_url_iff_example : (check_url finished ≡ true) ↔ IsSafe (c_str finished.url_buffer)
check_url_iff_example = check_url_iff finished

-- "a%" is not a path, but any text is decoded to itself.
percent_decode-percent_encode_example :
    percent_decode (percent_encode (codes "a%/")) ≡ record { written = codes "a%/"; ok = true }
percent_decode-percent_encode_example = percent_decode-percent_encode (codes "a%/") (omega arith)

abbrev decodable : HttpRequest
decodable = record fresh {
  input = codes "GET /a%20b ";
  state = State.finish_ok;
  url_start = 4;
  url_length = 6;
}

decoded : HttpRequest
unfolding computed
decoded = (decode_url decodable).0

decode_url-decoded : decode_url decodable ≡ (decoded, true)
unfolding computed decoded
decode_url-decoded = refl

decode_url_lem_example :
    (c_str decoded.url_buffer ≡ c_str (percent_decode (url_source decodable)).written)
    × (decoded ≡ record decodable { url_buffer = decoded.url_buffer })
    × (length (output (percent_decode (url_source decodable))) ≤ length decoded.url_buffer)
decode_url_lem_example = decode_url_lem decodable decode_url-decoded

-- The prefix of a proxy for "/gallery/album" takes the URL "/gallery".
is_prefix_iff_example :
    (is_prefix (codes "/gallery") (codes "/gallery/album") ≡ true)
    ↔ Related b'/' (codes "gallery") (codes "gallery/album")
is_prefix_iff_example = is_prefix_iff (codes "gallery") (codes "gallery/album") refl refl

read_header_line_break_lem_example :
    read_header_line_break (codes "\r\n\r\n\nab") ≡ (ReadResult.end_of_headers, 5)
unfolding line_feeds BreaksEnd
read_header_line_break_lem_example =
    read_header_line_break_lem (codes "\r\n\r\n\n") (codes "ab")
      (refl, (refl, (refl, (refl, (refl, tt))))) refl

-- ===== src/Http/Methods.antt =====
-- The public methods of `HttpRequest`: `parse`, `getUrl`, `getHeaderValue`, `getIfModifiedSince`.
use epoll_http_server.Base.{
  ℕ, not, Option, none, some, List, [], ◌∷◌, Bytes, ltb, if◌then◌else◌, codes, ℤ, pos,
}
use epoll_http_server.Http.Libc.{strncasecmp, c_str}
use epoll_http_server.Http.Request.{HttpRequest, Header, Field, State, ParseResult}
use epoll_http_server.Http.Parser.{parse_internal, field_bytes}
use epoll_http_server.Http.Url.{decode_url, check_url, is_finished}

abbrev make_invalid : HttpRequest → HttpRequest × ParseResult
make_invalid r = (record r { state = State.invalid }, ParseResult.finish_invalid)

unfoldable pub post_parse : HttpRequest → HttpRequest × ParseResult
post_parse r =
    let (r', decoded) = decode_url r in
    if not decoded
    then make_invalid r'
    else if not (check_url r')
    then make_invalid r'
    else (r', ParseResult.finish_ok)

unfoldable pub after_internal : HttpRequest × ParseResult → HttpRequest × ParseResult
after_internal (r, ParseResult.finish_ok) = post_parse r
after_internal (r, result) = (r, result)

-- `none` means that `parseInternal` did not return within the fuel.
unfoldable pub parse : ℕ → HttpRequest → Bytes → Option (HttpRequest × ParseResult)
unfolding after_internal
parse fuel r input = elim (parse_internal fuel (record r { input = input })) [
  | none ↦ none
  | some out ↦ some (after_internal out)
]

-- `none` stands for a null pointer.
unfoldable pub get_url : HttpRequest → Option Bytes
get_url r = if not (is_finished r.state) then none else some (c_str r.url_buffer)

-- The loop over the headers; the result is what goes through `ptr` and `size`, or `none` for -1.
unfoldable pub find_header : HttpRequest → Bytes → List Header → Option Field
find_header r key [] = none
find_header r key (h ∷ hs) =
    let rest = find_header r key hs in
    if strncasecmp key (field_bytes r h.key) then some h.value else rest

unfoldable pub get_header_value : HttpRequest → Bytes → Option Field
unfolding find_header
get_header_value r key = if not (is_finished r.state) then none else find_header r key r.headers

abbrev pub if_modified_since : Bytes
if_modified_since = codes "If-Modified-Since"

-- `strptime` with the format RFC1123FMT, and `timegm` on its result, are the parameter.
module _ (strptime_gmt : Bytes → Option ℤ) where
  date_or_zero : Bytes → ℤ
  date_or_zero text = elim (strptime_gmt (c_str text)) [ none ↦ pos 0 | some t ↦ t ]

  unfoldable pub get_if_modified_since : HttpRequest → ℤ
  unfolding date_or_zero
  get_if_modified_since r = elim (get_header_value r if_modified_since) [
    | none ↦ pos 0
    | some f ↦ if ltb 100 f.length then pos 0 else date_or_zero (field_bytes r f)
  ]

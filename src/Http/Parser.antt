-- ===== src/Http/Parser.antt =====
-- `HttpRequest::parseInternal`: one iteration of its loop, state by state, and the loop on fuel.
pub mod Loop
pub mod Bounds
pub mod Progress
pub mod Accept
pub mod Stall
use epoll_http_server.Base.{
  ℕ, zero, suc, ◌+◌, ◌-◌, Option, none, some, [], ◌∷◌, ◌++◌, Bytes, ltb, if◌then◌else◌, length,
  slice, is_zero, at_least, codes,
}
use epoll_http_server.Http.Libc.{strncasecmp, atoi}
use epoll_http_server.Http.Request.{
  HttpRequest, Field, Header, State, ReadResult, ParseResult, unread,
}
use epoll_http_server.Http.Readers.{
  read_method, read_spaces, read_url, read_url_parameters, read_to_next_line, read_header_key,
  read_header_space, read_header_value, read_header_line_break,
}

-- An iteration goes on with the loop, or returns from the method.
pub data Step : Type 0 where
  go : HttpRequest → Step
  halt : HttpRequest → ParseResult → Step

-- the two `else` branches that most states share
abbrev otherwise : HttpRequest → ReadResult → Step
otherwise r ReadResult.need_more_data = halt r ParseResult.need_more_data
otherwise r _ = halt r ParseResult.finish_invalid

unfoldable pub on_method : HttpRequest → ReadResult × ℕ → Step
on_method r (ReadResult.ok, n) = go (record r {
  method_start = r.cur;
  method_length = n;
  cur = r.cur + n;
  state = State.space_after_method;
})
on_method r (e, _) = otherwise r e

unfoldable pub on_space_after_method : HttpRequest → ReadResult × ℕ → Step
on_space_after_method r (ReadResult.ok, n) = go (record r { cur = r.cur + n; state = State.url })
on_space_after_method r (e, _) = otherwise r e

unfoldable pub on_url : HttpRequest → ReadResult × ℕ → Step
on_url r (ReadResult.ok, n) =
    go (record r {
      url_start = r.cur;
      url_length = n;
      cur = r.cur + n;
      state = State.space_after_url;
    })
on_url r (ReadResult.question, n) =
    go (record r {
      url_start = r.cur;
      url_length = n;
      cur = r.cur + n;
      state = State.url_parameters;
    })
on_url r (e, _) = otherwise r e

-- This state has no `else`: any other result leads round the loop again, with nothing changed.
unfoldable pub on_url_parameters : HttpRequest → ReadResult × ℕ → Step
on_url_parameters r (ReadResult.ok, n) = go (record r {
  url_parameters_start = r.cur;
  url_parameters_length = n;
  cur = r.cur + n;
  state = State.space_after_url;
})
on_url_parameters r (_, _) = go r

unfoldable pub on_space_after_url : HttpRequest → ReadResult × ℕ → Step
on_space_after_url r (ReadResult.ok, n) =
    go (record r { cur = r.cur + n; state = State.header_key })
on_space_after_url r (e, _) = otherwise r e

unfoldable pub on_header_key : HttpRequest → ReadResult × ℕ → Step
on_header_key r (ReadResult.ok, n) = go (record r {
  cur_key = record { start = r.cur; length = n };
  cur = r.cur + n;
  state = State.header_space;
})
on_header_key r (e, _) = otherwise r e

unfoldable pub on_header_space : HttpRequest → ReadResult × ℕ → Step
on_header_space r (ReadResult.ok, n) = go (record r { cur = r.cur + n; state = State.header_value })
on_header_space r (e, _) = otherwise r e

-- `BUF_CHARS`
abbrev pub buf_chars : ℕ
buf_chars = 30

-- "Content-Length"
abbrev pub content_length_key : Bytes
content_length_key = codes "Content-Length"

abbrev pub field_bytes : HttpRequest → Field → Bytes
field_bytes r f = slice f.start (f.start + f.length) r.input

-- the header that `headerValue` appends
abbrev pub new_header : HttpRequest → ℕ → Header
new_header r n = record { key = r.cur_key; value = record { start = r.cur; length = n } }

unfoldable pub on_header_value : HttpRequest → ReadResult × ℕ → Step
on_header_value r (ReadResult.ok, n) =
    let h = new_header r n in
    let pushed = record r { headers = r.headers ++ h ∷ [] } in
    let next = record pushed { cur = r.cur + n; state = State.header_line_break } in
    if strncasecmp content_length_key (field_bytes r h.key)
    then (if ltb buf_chars n
        then halt pushed ParseResult.finish_invalid
        else go (record next { content_length = atoi (field_bytes r h.value) }))
    else go next
on_header_value r (e, _) = otherwise r e

unfoldable pub on_header_line_break : HttpRequest → ReadResult × ℕ → Step
on_header_line_break r (ReadResult.ok, n) =
    go (record r { cur = r.cur + n; state = State.header_key })
on_header_line_break r (ReadResult.end_of_headers, n) =
    if is_zero r.content_length
    then halt (record r { state = State.finish_ok }) ParseResult.finish_ok
    else go (record r { cur = r.cur + n; state = State.content })
on_header_line_break r (e, _) = otherwise r e

unfoldable pub on_content : HttpRequest → Step
on_content r =
    if at_least (length r.input - r.cur) r.content_length
    then halt (record r { content_start = r.cur; state = State.finish_ok }) ParseResult.finish_ok
    else halt r ParseResult.need_more_data

unfoldable pub step_in : State → HttpRequest → Step
step_in State.method r = on_method r (read_method (unread r) 0)
step_in State.space_after_method r = on_space_after_method r (read_spaces (unread r) 0)
step_in State.url r = on_url r (read_url (unread r) 0)
step_in State.url_parameters r = on_url_parameters r (read_url_parameters (unread r) 0)
step_in State.space_after_url r = on_space_after_url r (read_to_next_line (unread r) 0)
step_in State.header_key r = on_header_key r (read_header_key (unread r) 0)
step_in State.header_space r = on_header_space r (read_header_space (unread r) 0)
step_in State.header_value r = on_header_value r (read_header_value (unread r) 0)
step_in State.header_line_break r = on_header_line_break r (read_header_line_break (unread r))
step_in State.content r = on_content r
step_in State.finish_ok r = halt r ParseResult.finish_ok
step_in State.invalid r = halt r ParseResult.finish_invalid

-- One iteration of the loop.
abbrev pub step : HttpRequest → Step
step r = step_in r.state r

-- The loop; `none` means that the fuel ran out while it still went round.
unfoldable pub parse_internal : ℕ → HttpRequest → Option (HttpRequest × ParseResult)
parse_internal zero r = none
parse_internal (suc fuel) r = elim (step r) [
  | go r' ↦ parse_internal fuel r'
  | halt r' result ↦ some (r', result)
]

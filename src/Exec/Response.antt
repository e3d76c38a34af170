-- ===== src/Exec/Response.antt =====
-- src/HttpResponse.cpp: the three responses that the server writes itself. `snprintf` returns the
-- length of the whole text, and writes what fits, with a terminator.
use epoll_http_server.Base.{
  ℕ, zero, suc, ◌+◌, ◌-◌, ◌/◌, ◌%◌, Option, none, some, [], ◌∷◌, ◌++◌, Bytes, ltb, leb,
  if◌then◌else◌, codes, length, take,
}

-- The decimal digits of `n`, in front of `rest`, on fuel; `n + 1` is enough.
unfoldable pub digits : ℕ → ℕ → Bytes → Bytes
digits zero n rest = rest
digits (suc fuel) n rest =
    let more = digits fuel (n / 10) ((b'0' + n % 10) ∷ rest) in
    if ltb n 10 then (b'0' + n) ∷ rest else more

-- `%lld` and `%zu`
unfoldable pub decimal : ℕ → Bytes
unfolding digits
decimal n = digits (n + 1) n []

-- What goes into the buffer, and the result; `none` stands for -1.
pub record Printed : Type 0 where
  pub bytes : Bytes
  pub result : Option ℕ

unfoldable pub snprintf : ℕ → Bytes → Printed
snprintf size text = record {
  bytes = take (size - 1) text ++ 0 ∷ [];
  result = if leb size (length text) then none else some (length text);
}

abbrev pub crlf : Bytes
crlf = b'\r' ∷ b'\n' ∷ []

abbrev pub close_line : Bytes
close_line = codes "Connection: close" ++ crlf ++ crlf

-- `last_modified` is the text of the time in the format RFC1123FMT, as `strftime` writes it.
unfoldable pub ok200_text : ℕ → Bytes → Bytes
unfolding decimal
ok200_text content_length last_modified =
    (codes "HTTP/1.1 200 Ok" ++ crlf)
    ++ (codes "Content-Length: " ++ decimal content_length ++ crlf)
    ++ (codes "Last-Modified: " ++ last_modified ++ crlf)
    ++ close_line

abbrev pub not_found_html : Bytes
not_found_html =
    codes "<html><head>"
    ++ codes "<title>404 Not Found</title>"
    ++ codes "</head><body>"
    ++ codes "<h1>Not Found</h1>"
    ++ codes "<p>The requested URL was not found on this server.</p>"
    ++ codes "</body></html>"

unfoldable pub not_found404_text : Bytes
unfolding decimal
not_found404_text =
    (codes "HTTP/1.1 404 Not Found" ++ crlf)
    ++ (codes "Content-Length: " ++ decimal (length not_found_html) ++ crlf)
    ++ close_line
    ++ not_found_html

unfoldable pub not_modified304_text : Bytes
not_modified304_text = (codes "HTTP/1.1 304 Not Modified" ++ crlf) ++ close_line

unfoldable pub ok200 : ℕ → ℕ → Bytes → Printed
unfolding ok200_text snprintf
ok200 size content_length last_modified = snprintf size (ok200_text content_length last_modified)

unfoldable pub not_found404 : ℕ → Printed
unfolding not_found404_text snprintf
not_found404 size = snprintf size not_found404_text

unfoldable pub not_modified304 : ℕ → Printed
unfolding not_modified304_text snprintf
not_modified304 size = snprintf size not_modified304_text

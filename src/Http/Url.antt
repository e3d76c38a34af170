-- ===== src/Http/Url.antt =====
-- The URL: `hex2int`, `percentDecode`, `decodeUrl`, `checkUrl` and `isUrlPrefix`.
pub mod Safety
pub mod Decode
pub mod Prefix
use Prim.Native.Nat.{bit_or}
use epoll_http_server.Base.{
  ℕ, ◌+◌, ◌-◌, ◌*◌, Bool, true, false, not, ◌&&◌, ◌||◌, Option, none, some, [], ◌∷◌, ◌++◌, Bytes,
  ◌==◌, ltb, within, if◌then◌else◌, length, replicate, slice, overwrite,
}
use epoll_http_server.Http.Chars.{check_url_symbols}
use epoll_http_server.Http.Libc.{c_str}
use epoll_http_server.Http.Request.{HttpRequest, State}

-- `none` stands for -1.
unfoldable pub hex2int : ℕ → Option ℕ
hex2int c =
    if within b'0' b'9' c
    then some (c - b'0')
    else (let l = bit_or c 0x20 in if within b'a' b'f' l then some (l - b'a' + 0xA) else none)

-- The bytes that `percentDecode` writes before the terminator, and whether it returns 0.
pub record Decoded : Type 0 where
  pub written : Bytes
  pub ok : Bool

abbrev put : ℕ → Decoded → Decoded
put c d = record d { written = c ∷ d.written }

-- The results of the two digits are looked at in turn; then the byte is written.
unfoldable pub decode_pair : Option ℕ → Option ℕ → Decoded → Decoded
decode_pair none v2 rest = record { written = []; ok = false }
decode_pair (some v1) none rest = record { written = []; ok = false }
decode_pair (some v1) (some v2) rest = put (bit_or (v1 * 16) v2) rest

-- The argument is the `srcLength` bytes at `src`; a '%' with fewer than two bytes behind it is
-- copied.
unfoldable pub percent_decode : Bytes → Decoded
unfolding decode_pair
percent_decode [] = record { written = []; ok = true }
percent_decode (c ∷ []) =
    if c == 0 then record { written = []; ok = true } else record { written = c ∷ []; ok = true }
percent_decode (c ∷ x ∷ []) =
    let rest = percent_decode (x ∷ []) in
    if c == 0 then record { written = []; ok = true } else put c rest
percent_decode (c ∷ x ∷ y ∷ cs) =
    let decoded = decode_pair (hex2int x) (hex2int y) (percent_decode cs) in
    let rest = percent_decode (x ∷ y ∷ cs) in
    if c == 0 then record { written = []; ok = true } else if c == b'%' then decoded else put c rest

-- The URL's memory, reallocated if it is too small. New memory has no known content; zeros stand
-- for it.
unfoldable pub reserve : Bytes → ℕ → Bytes
reserve buffer n = if ltb (length buffer) (n + 1) then replicate (n + 1) 0 else buffer

-- all that `percentDecode` writes to `dst`
abbrev pub output : Decoded → Bytes
output d = if d.ok then d.written ++ 0 ∷ [] else d.written

abbrev pub url_source : HttpRequest → Bytes
url_source r = slice r.url_start (r.url_start + r.url_length) r.input

-- The test of the state, for which the enumeration has no operator here.
abbrev pub is_finished : State → Bool
is_finished State.finish_ok = true
is_finished _ = false

-- The Boolean is whether the method returns 0.
unfoldable pub decode_url : HttpRequest → HttpRequest × Bool
decode_url r =
    if not (is_finished r.state)
    then (r, false)
    else if ltb 0 r.url_length
    then (let d = percent_decode (url_source r) in
        (
          record r { url_buffer = overwrite (reserve r.url_buffer r.url_length) 0 (output d) },
          d.ok,
        ))
    else (r, false)

-- The loop of `checkUrl` over a C string, with `prevChar`.
unfoldable pub check_chars : ℕ → Bytes → Bool
check_chars prev [] = true
check_chars prev (c ∷ cs) =
    let rest = check_chars c cs in
    if not (check_url_symbols c) then false else if c == b'.' && c == prev then false else rest

-- whether the method returns 0
unfoldable pub check_url : HttpRequest → Bool
check_url r = check_chars 0 (c_str r.url_buffer)

-- The two loops over leading slashes. The option is the byte before the index, `none` at index 0.
unfoldable pub skip_slashes : Option ℕ → Bytes → Option ℕ × Bytes
skip_slashes last [] = (last, [])
skip_slashes last (c ∷ cs) =
    let rest = skip_slashes (some c) cs in if c == b'/' then rest else (last, c ∷ cs)

-- `index > 0 && s[index - 1] == '/'`
abbrev pub after_slash : Option ℕ → Bool
after_slash none = false
after_slash (some c) = c == b'/'

-- the tests behind the loops, at the bytes where these stopped
unfoldable pub prefix_ends : Option ℕ → Option ℕ → Bytes → Bytes → Bool
prefix_ends ul pl [] [] = true
prefix_ends ul pl (u ∷ us) [] = u == b'/' || (after_slash pl && after_slash ul)
prefix_ends ul pl [] (p ∷ ps) = p == b'/'
prefix_ends ul pl (u ∷ us) (p ∷ ps) = false

unfoldable pub match_prefix : Option ℕ → Option ℕ → Bytes → Bytes → Bool
unfolding prefix_ends
match_prefix ul pl (u ∷ us) (p ∷ ps) =
    let rest = match_prefix (some u) (some p) us ps in
    if u == p then rest else prefix_ends ul pl (u ∷ us) (p ∷ ps)
match_prefix ul pl [] ps = prefix_ends ul pl [] ps
match_prefix ul pl us [] = prefix_ends ul pl us []

unfoldable pub is_prefix : Bytes → Bytes → Bool
unfolding match_prefix skip_slashes
is_prefix url prefix =
    let (ul, us) = skip_slashes none url in
    let (pl, ps) = skip_slashes none prefix in match_prefix ul pl us ps

unfoldable pub is_url_prefix : HttpRequest → Bytes → Bool
is_url_prefix r prefix =
    if not (is_finished r.state) then false else is_prefix (c_str r.url_buffer) prefix

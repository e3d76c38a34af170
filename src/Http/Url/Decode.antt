-- ===== src/Http/Url/Decode.antt =====
-- Percent decoding: the hexadecimal digits, the bound on what is written, and the round trip.
use Prim.Native.Nat.{bit_or}
use epoll_http_server.Base.{
  ℕ, ◌+◌, ◌-◌, ◌*◌, ◌/◌, ◌%◌, ◌≤◌, ◌<◌, Bool, true, false, Option, none, some, [], ◌∷◌, ◌++◌, Bytes,
  ◌≡◌, not, refl, ap, ◌∙◌, arith, ◌==◌, ltb, ◌&&◌, if◌then◌else◌, Bool-cases, inl, inr, passes,
  passes-in_range, ==_iff, length, length-append, length-replicate, length-slice-le, overwrite,
  length-overwrite,
}
use epoll_http_server.Http.Chars.{read_url_symbols}
use epoll_http_server.Http.Libc.{c_str}
use epoll_http_server.Http.Request.{HttpRequest}
use epoll_http_server.Http.Url.{
  hex2int, decode_pair, Decoded, percent_decode, reserve, output, url_source, decode_url,
}

-- The digit for a value below 16, in upper case.
unfoldable pub hex_digit : ℕ → ℕ
hex_digit v = if ltb v 10 then b'0' + v else b'A' + (v - 10)

abbrev digit_ok : ℕ → Bool
digit_ok v = elim (hex2int (hex_digit v)) [ none ↦ false | some w ↦ w == v ]

pub hex2int-hex_digit : (v : ℕ) → v < 16 → hex2int (hex_digit v) ≡ some v
unfolding hex2int hex_digit passes
hex2int-hex_digit v h = ground (arith, passes-in_range digit_ok 0 16 v table)
  where
    table : passes digit_ok 0 16 ≡ true
    table = refl

abbrev byte_ok : ℕ → Bool
byte_ok c = bit_or (c / 16 * 16) (c % 16) == c

join_digits : (c : ℕ) → c < 256 → bit_or (c / 16 * 16) (c % 16) ≡ c
unfolding passes
join_digits c h = (==_iff _ c).0 (passes-in_range byte_ok 0 256 c refl (omega arith) h)

-- A byte that the URL may hold as it is, or its escape.
unfoldable pub encode_byte : ℕ → Bytes
encode_byte c =
    if read_url_symbols c && not (c == b'%')
    then c ∷ []
    else b'%' ∷ hex_digit (c / 16) ∷ hex_digit (c % 16) ∷ []

unfoldable pub percent_encode : Bytes → Bytes
percent_encode [] = []
percent_encode (c ∷ cs) = encode_byte c ++ percent_encode cs

abbrev prepend : ℕ → Decoded → Decoded
prepend c d = record { written = c ∷ d.written; ok = d.ok }

percent_decode-cons :
    (c : ℕ) (cs : Bytes)
    → (c == 0) ≡ false
    → (c == b'%') ≡ false
    → percent_decode (c ∷ cs) ≡ prepend c (percent_decode cs)
unfolding percent_decode
percent_decode-cons c [] h k = ground arith
percent_decode-cons c (x ∷ []) h k = ground arith
percent_decode-cons c (x ∷ y ∷ cs) h k = ground arith

percent_decode_escape :
    (a b : ℕ) (cs : Bytes)
    → a < 16
    → b < 16
    → percent_decode (b'%' ∷ hex_digit a ∷ hex_digit b ∷ cs)
      ≡ prepend (bit_or (a * 16) b) (percent_decode cs)
unfolding percent_decode
percent_decode_escape a b cs ha hb =
    rw (hex2int-hex_digit a ha, hex2int-hex_digit b hb, decode_pair) refl

read_url_symbols-ne-zero : (c : ℕ) → read_url_symbols c ≡ true → (c == 0) ≡ false
unfolding read_url_symbols
read_url_symbols-ne-zero c h = ground arith

decode-encode_byte :
    (c : ℕ) (rest : Bytes)
    → c < 256
    → percent_decode (encode_byte c ++ rest) ≡ prepend c (percent_decode rest)
unfolding encode_byte
decode-encode_byte c rest h = elim (Bool-cases (read_url_symbols c && not (c == b'%'))) [
  | inl plain ↦
      rw plain
        (percent_decode-cons c rest (read_url_symbols-ne-zero c (ground arith)) (ground arith))
  | inr escaped ↦ rw escaped (
      percent_decode_escape (c / 16) (c % 16) rest (omega arith) (omega arith)
      ∙ ap (λ x. prepend x (percent_decode rest)) (join_digits c h))
]

abbrev pub AreBytes : Bytes → Type 0
AreBytes [] = Unit {0}
AreBytes (c ∷ cs) = (c < 256) × AreBytes cs

-- Decoding an encoded text of bytes succeeds and gives the text back.
pub percent_decode-percent_encode :
    (s : Bytes) → AreBytes s → percent_decode (percent_encode s) ≡ record { written = s; ok = true }
unfolding percent_encode percent_decode
percent_decode-percent_encode [] h = refl
percent_decode-percent_encode (c ∷ cs) h =
    decode-encode_byte c (percent_encode cs) h.0
    ∙ ap (prepend c) (percent_decode-percent_encode cs h.1)

length-decode_pair :
    (v w : Option ℕ) (d : Decoded) → length (decode_pair v w d).written ≤ length d.written + 1
unfolding decode_pair
length-decode_pair none w d = omega arith
length-decode_pair (some v) none d = omega arith
length-decode_pair (some v) (some w) d = omega arith

percent_decode_zero :
    (c : ℕ) (cs : Bytes) → (c == 0) ≡ true → (percent_decode (c ∷ cs)).written ≡ []
unfolding percent_decode
percent_decode_zero c [] h = ground arith
percent_decode_zero c (x ∷ []) h = ground arith
percent_decode_zero c (x ∷ y ∷ cs) h = ground arith

percent_decode_percent :
    (c x y : ℕ) (cs : Bytes)
    → (c == b'%') ≡ true
    → percent_decode (c ∷ x ∷ y ∷ cs) ≡ decode_pair (hex2int x) (hex2int y) (percent_decode cs)
unfolding percent_decode
percent_decode_percent c x y cs h = rw ((==_iff c b'%').0 h) refl

length_step :
    (c x y : ℕ) (cs : Bytes)
    → length (percent_decode cs).written ≤ length cs
    → length (percent_decode (x ∷ y ∷ cs)).written ≤ length (x ∷ y ∷ cs)
    → length (percent_decode (c ∷ x ∷ y ∷ cs)).written ≤ length (c ∷ x ∷ y ∷ cs)
length_step c x y cs h k = elim (Bool-cases (c == b'%')) [
  | inl e ↦
      rw (percent_decode_percent c x y cs e)
        (omega (arith, length-decode_pair (hex2int x) (hex2int y) (percent_decode cs)))
  | inr n ↦ elim (Bool-cases (c == 0)) [
    | inl z ↦ rw (percent_decode_zero c (x ∷ y ∷ cs) z) (omega arith)
    | inr nz ↦ rw (percent_decode-cons c (x ∷ y ∷ cs) nz n) (omega arith)
  ]
]

length-percent_decode : (s : Bytes) → length (percent_decode s).written ≤ length s
length-percent_decode [] = unfold percent_decode in omega arith
length-percent_decode (c ∷ []) = unfold percent_decode in ground arith
length-percent_decode (c ∷ x ∷ []) = unfold percent_decode in ground arith
length-percent_decode (c ∷ x ∷ y ∷ cs) =
    length_step c x y cs (length-percent_decode cs) (length-percent_decode (x ∷ y ∷ cs))

length-reserve : (buffer : Bytes) (n : ℕ) → n + 1 ≤ length (reserve buffer n)
unfolding reserve
length-reserve buffer n = ground (arith, length-replicate {A = ℕ} (n + 1) 0)

-- `percentDecode` writes, the terminator included, inside the memory that `decodeUrl` gives it.
pub decode_url_bounds :
    (r : HttpRequest)
    → length (output (percent_decode (url_source r))) ≤ length (reserve r.url_buffer r.url_length)
decode_url_bounds r = ground (
  arith,
  length-percent_decode (url_source r),
  length-slice-le r.url_start (r.url_start + r.url_length) r.input,
  length-reserve r.url_buffer r.url_length,
  length-append (percent_decode (url_source r)).written (0 ∷ []),
)

c_str-overwrite :
    (w xs : Bytes)
    → length (w ++ 0 ∷ []) ≤ length xs
    → c_str (overwrite xs 0 (w ++ 0 ∷ [])) ≡ c_str w
unfolding c_str
c_str-overwrite [] [] h = absurd (omega arith)
c_str-overwrite [] (x ∷ xs) h = refl
c_str-overwrite (c ∷ w) [] h = absurd (omega arith)
c_str-overwrite (c ∷ w) (x ∷ xs) h = rw (c_str-overwrite w xs (omega arith))

-- When `decodeUrl` returns 0, the URL is the C string of the decoded bytes, no other field has
-- changed, and all that was written fits the memory.
pub decode_url_lem :
    (r : HttpRequest) {r' : HttpRequest}
    → decode_url r ≡ (r', true)
    → (c_str r'.url_buffer ≡ c_str (percent_decode (url_source r)).written)
      × (r' ≡ record r { url_buffer = r'.url_buffer })
      × (length (output (percent_decode (url_source r))) ≤ length r'.url_buffer)
unfolding decode_url
decode_url_lem r {r'} h = ground (
  arith,
  decode_url_bounds r,
  c_str-overwrite (percent_decode (url_source r)).written (reserve r.url_buffer r.url_length),
  length-overwrite (reserve r.url_buffer r.url_length) 0 (output (percent_decode (url_source r))),
)

-- ===== src/Http/Libc.antt =====
-- The functions of the C and C++ libraries that the program calls: `strncasecmp`, as the test that
-- its result is 0, `atoi` and `std::stoi`. A C string is the list of its bytes before the terminator.
use epoll_http_server.Base.{
  Option, none, some, ℕ, ◌+◌, ◌-◌, ◌*◌, ◌%◌, ◌^◌, Bool, true, false, ◌||◌, Bytes, [], ◌∷◌, ◌==◌,
  ltb, leb, within, if◌then◌else◌, ℤ, pos, neg,
}
use epoll_http_server.Http.Chars.{is_upper, is_digit}

-- the bytes before the first terminator
unfoldable pub c_str : Bytes → Bytes
c_str [] = []
c_str (c ∷ cs) = if c == 0 then [] else c ∷ c_str cs

unfoldable pub to_lower : ℕ → ℕ
to_lower c = if is_upper c then c + 32 else c

-- `strncasecmp(s, field, n) == 0`, where `field` is the `n` bytes at the second pointer.
unfoldable pub strncasecmp : Bytes → Bytes → Bool
unfolding to_lower
strncasecmp s [] = true
strncasecmp [] (c ∷ cs) = c == 0
strncasecmp (k ∷ s) (c ∷ cs) =
    let rest = strncasecmp s cs in
    if to_lower k == to_lower c then (if k == 0 then true else rest) else false

digits_value : ℕ → Bytes → ℕ
digits_value acc [] = acc
digits_value acc (c ∷ cs) =
    let rest = digits_value (acc * 10 + (c - b'0')) cs in if is_digit c then rest else acc

-- the low 32 bits, read as an `int`
wrap_int : Bool → ℕ → ℤ
wrap_int negative n =
    let low = (if negative then 2 ^ 32 - n % 2 ^ 32 else n) % 2 ^ 32 in
    if ltb low (2 ^ 31) then pos low else neg (2 ^ 32 - low)

-- `strtol` stops at the bounds of a `long`; `atoi` converts its result to `int`.
signed : Bool → ℕ → ℤ
unfolding wrap_int
signed negative n =
    if negative
    then wrap_int true (if ltb (2 ^ 63) n then 2 ^ 63 else n)
    else wrap_int false (if leb (2 ^ 63) n then 2 ^ 63 - 1 else n)

after_sign : Bytes → ℤ
unfolding signed digits_value
after_sign [] = pos 0
after_sign (c ∷ cs) =
    if c == b'-'
    then signed true (digits_value 0 cs)
    else if c == b'+'
    then signed false (digits_value 0 cs)
    else signed false (digits_value 0 (c ∷ cs))

unfoldable pub atoi : Bytes → ℤ
unfolding after_sign
atoi [] = pos 0
atoi (c ∷ cs) =
    let rest = atoi cs in if within 9 13 c || c == b' ' then rest else after_sign (c ∷ cs)

-- `isspace`
abbrev is_white : ℕ → Bool
is_white c = c == b' ' || within 9 13 c

-- `std::stoi`; `none` is an exception: no digit, or a value beyond `int`.
unsigned_value : Bytes → Option ℕ
unfolding digits_value
unsigned_value [] = none
unsigned_value (c ∷ cs) = if is_digit c then some (digits_value 0 (c ∷ cs)) else none

in_int : Bool → Option ℕ → Option ℤ
in_int negative none = none
in_int false (some n) = if leb (2 ^ 31) n then none else some (pos n)
in_int true (some n) = if leb (2 ^ 31 + 1) n then none else some (neg n)

unfoldable pub stoi : Bytes → Option ℤ
unfolding in_int unsigned_value
stoi [] = none
stoi (c ∷ cs) =
    let rest = stoi cs in
    if is_white c
    then rest
    else if c == b'-'
    then in_int true (unsigned_value cs)
    else if c == b'+'
    then in_int false (unsigned_value cs)
    else in_int false (unsigned_value (c ∷ cs))

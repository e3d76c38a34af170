-- ===== src/Config.antt =====
-- src/utils/ConfigReader.cpp: the configuration file, `key = value` lines with comments.
mod Ascending
mod Behind
mod Lines
mod Returns
mod RoundTrip
mod Tests
use epoll_http_server.Base.{
  ℕ, zero, suc, Bool, true, false, not, ◌&&◌, ◌||◌, Option, none, some, List, [], ◌∷◌, ◌++◌, Bytes,
  ◌==◌, ltb, within, if◌then◌else◌, length,
}
use mathlib.Core.List.{reverse}
use epoll_http_server.Http.Libc.{c_str}

abbrev pub is_space : ℕ → Bool
is_space c = c == b' ' || c == b'\t'

abbrev pub is_break : ℕ → Bool
is_break c = c == b'\r' || c == b'\n'

-- The upper end of the digits is excluded.
abbrev pub is_key : ℕ → Bool
is_key c =
    within b'a' b'z' c || within b'A' b'Z' c || (within b'0' b'9' c && not (c == b'9')) || c == b'.'

abbrev pub is_value : ℕ → Bool
is_value c = not (is_break c)

-- `std::map<std::string, std::string>`: the entries by ascending keys. `operator[]` replaces.
abbrev pub ConfigMap : Type 0
ConfigMap = List (Bytes × Bytes)

-- `operator<` of `std::string`
unfoldable pub key_less : Bytes → Bytes → Bool
key_less [] [] = false
key_less [] (y ∷ ys) = true
key_less (x ∷ xs) [] = false
key_less (x ∷ xs) (y ∷ ys) = let rest = key_less xs ys in if x == y then rest else ltb x y

unfoldable pub insert : Bytes → Bytes → ConfigMap → ConfigMap
unfolding key_less
insert k v [] = (k, v) ∷ []
insert k v ((j, w) ∷ m) =
    let rest = insert k v m in
    if key_less k j then (k, v) ∷ (j, w) ∷ m else if key_less j k then (j, w) ∷ rest else (j, v) ∷ m

unfoldable pub find : Bytes → ConfigMap → Option Bytes
unfolding key_less
find k [] = none
find k ((j, w) ∷ m) =
    let rest = find k m in if key_less k j then none else if key_less j k then rest else some w

-- `for (; s[i] != 0 && p(s[i]); ++i);` over a C string: what is passed, and what is left.
unfoldable pub taken : (ℕ → Bool) → Bytes → Bytes
taken p [] = []
taken p (c ∷ cs) = let rest = taken p cs in if p c then c ∷ rest else []

unfoldable pub passed : (ℕ → Bool) → Bytes → Bytes
passed p [] = []
passed p (c ∷ cs) = let rest = passed p cs in if p c then rest else c ∷ cs

-- `s[i]`; the terminator is 0
abbrev pub here : Bytes → ℕ
here [] = 0
here (c ∷ cs) = c

abbrev pub next : Bytes → Bytes
next [] = []
next (c ∷ cs) = cs

-- "remove trailing spaces", over the value reversed; `c` is `s[valueEnd]`.
unfoldable pub trim_reversed : ℕ → Bytes → Bytes
trim_reversed c [] = []
trim_reversed c (x ∷ xs) = let rest = trim_reversed x xs in if is_space c then rest else x ∷ xs

unfoldable pub trim_end : Bytes → ℕ → Bytes
unfolding trim_reversed
trim_end value c = reverse (trim_reversed c (reverse value))

-- An iteration goes on with the loop, or returns.
pub data Step : Type 0 where
  go : Bytes → ConfigMap → Step
  halt : ConfigMap → Bool → Step

abbrev pub is_empty : Bytes → Bool
is_empty [] = true
is_empty (c ∷ cs) = false

-- The part behind the parameter's separator; `r` begins at the value.
unfoldable pub on_value : Bytes → Bytes → ConfigMap → Step
on_value key r m =
    let rest = passed is_value r in
    let value = trim_end (taken is_value r) (here rest) in
    if is_empty r
    then halt m false
    else if is_empty value
    then halt m false
    else go rest (insert key value m)

-- The part behind the key.
unfoldable pub on_separator : Bytes → Bytes → ConfigMap → Step
on_separator key s m =
    let r = passed is_space s in
    if not (is_space (here s)) && not (here s == b'=')
    then halt m false
    else if not (here r == b'=')
    then halt m false
    else on_value key (passed is_space (next r)) m

abbrev pub is_blank : ℕ → Bool
is_blank c = is_space c || is_break c

-- `s` is what the spaces and empty lines before the key have left.
unfoldable pub on_line : Bytes → ConfigMap → Step
on_line [] m = halt m true
on_line (c ∷ cs) m =
    if c == b'#'
    then go (passed is_value (c ∷ cs)) m
    else if is_key c
    then on_separator (taken is_key (c ∷ cs)) (passed is_key (c ∷ cs)) m
    else halt m false

-- What an iteration brings, with the rest of the loop.
unfoldable pub resume :
    (Bytes → ConfigMap → Option (ConfigMap × Bool)) → Step → Option (ConfigMap × Bool)
resume loop (go s m) = loop s m
resume loop (halt m b) = some (m, b)

-- The loop of `configReadString`, on fuel. The Boolean is the result; what has been read is kept.
unfoldable pub read_lines : ℕ → Bytes → ConfigMap → Option (ConfigMap × Bool)
unfolding resume
read_lines zero s m = none
read_lines (suc fuel) s m = resume (read_lines fuel) (on_line (passed is_blank s) m)

-- `configReadString`, with fuel that is enough.
unfoldable pub config_read_string : Bytes → ConfigMap → Option (ConfigMap × Bool)
unfolding read_lines
config_read_string s m = read_lines (suc (length (c_str s))) (c_str s) m

-- What follows the reading of a line, unless the line is refused.
unfoldable pub then_lines :
    Option (ConfigMap × Bool) → (ConfigMap → Option (ConfigMap × Bool)) → Option (ConfigMap × Bool)
then_lines none f = none
then_lines (some (m, true)) f = f m
then_lines (some (m, false)) f = some (m, false)

-- `configReadFile`, over the lines that `std::getline` returns; `none` for a file that does not open.
unfoldable pub read_file_lines : List Bytes → ConfigMap → Option (ConfigMap × Bool)
unfolding config_read_string then_lines
read_file_lines [] m = some (m, true)
read_file_lines (line ∷ lines) m = then_lines (config_read_string line m) (read_file_lines lines)

unfoldable pub config_read_file : Option (List Bytes) → ConfigMap → Option (ConfigMap × Bool)
unfolding read_file_lines
config_read_file none m = some (m, false)
config_read_file (some lines) m = read_file_lines lines m

-- `configToString`
unfoldable pub config_to_string : ConfigMap → Bytes
config_to_string [] = []
config_to_string ((k, v) ∷ m) = k ++ (b'=' ∷ (v ++ (b'\n' ∷ config_to_string m)))

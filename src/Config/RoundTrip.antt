-- ===== src/Config/RoundTrip.antt =====
-- src/utils/ConfigReader.cpp: `configToString`, and `configReadString` on what it writes.
use epoll_http_server.Base.{
  ℕ, zero, suc, ◌≤◌, ◌<◌, ◌≡◌, refl, ap, Bool, true, false, not, ◌&&◌, some, [], ◌∷◌, ◌++◌,
  length-append, Bytes, ◌==◌, All, length, arith,
}
use epoll_http_server.Http.Libc.{c_str}
use epoll_http_server.Config.{
  ConfigMap, go, halt, is_space, is_key, is_value, is_blank, taken, passed, here, is_empty, insert,
  trim_reversed, trim_end, on_value, on_separator, on_line, read_lines, config_read_string,
  config_to_string,
}
use mathlib.Core.List.{reverse, reverse-reverse}
use epoll_http_server.Config.Ascending.{IsAscending, Before, insert_all, insert_all-ascending}

-- A character of a value, in a C string.
abbrev is_text : ℕ → Bool
is_text c = is_value c && not (c == 0)

-- What a value begins with.
abbrev is_start : Bytes → Bool
is_start [] = false
is_start (c ∷ cs) = not (is_space c)

-- An entry that the file can hold: the key is not empty and of key characters, the value is not
-- empty, has no line break and does not begin with a space; it may end with spaces.
unfoldable pub IsEntry : Bytes × Bytes → Type 0
IsEntry (k, v) = All is_key k × (is_empty k ≡ false) × All is_text v × (is_start v ≡ true)

unfoldable pub AreEntries : ConfigMap → Type 0
unfolding IsEntry
AreEntries [] = zero ≡ zero
AreEntries (e ∷ es) = IsEntry e × AreEntries es

module _ (p : ℕ → Bool) where
  taken-All : (s t : Bytes) → All p s → p (here t) ≡ false → taken p (s ++ t) ≡ s
  unfolding taken
  taken-All [] [] all stop = refl
  taken-All [] (c ∷ t) all stop = rw stop refl
  taken-All (c ∷ s) t (pc, all) stop = rw pc (ap (λ u. c ∷ u) (taken-All s t all stop))

  passed-All : (s t : Bytes) → All p s → p (here t) ≡ false → passed p (s ++ t) ≡ t
  unfolding passed
  passed-All [] [] all stop = refl
  passed-All [] (c ∷ t) all stop = rw stop refl
  passed-All (c ∷ s) t (pc, all) stop = rw pc (passed-All s t all stop)

-- Behind a value stands a line break or the end of the text, so that no trailing space goes.
trim_reversed-stop : (v : Bytes) (c : ℕ) → is_space c ≡ false → trim_reversed c v ≡ v
unfolding trim_reversed
trim_reversed-stop [] c stop = refl
trim_reversed-stop (x ∷ v) c stop = rw stop refl

pub trim_end-stop : (v : Bytes) (c : ℕ) → is_space c ≡ false → trim_end v c ≡ v
unfolding trim_end
trim_end-stop v c stop = rw (trim_reversed-stop (reverse v) c stop) (reverse-reverse v)

IsText-IsValue : (v : Bytes) → All is_text v → All is_value v
IsText-IsValue [] all = all
IsText-IsValue (c ∷ v) (text, all) = (ground (arith, text), IsText-IsValue v all)

on_value-entry :
    (k v rest : Bytes) (m : ConfigMap)
    → All is_text v
    → is_start v ≡ true
    → on_value k (v ++ b'\n' ∷ rest) m ≡ go (b'\n' ∷ rest) (insert k v m)
unfolding on_value
on_value-entry k [] rest m all start = absurd (cc start)
on_value-entry k (c ∷ v) rest m all start =
    rw
      (
        taken-All is_value (c ∷ v) (b'\n' ∷ rest) (IsText-IsValue (c ∷ v) all) refl,
        passed-All is_value (c ∷ v) (b'\n' ∷ rest) (IsText-IsValue (c ∷ v) all) refl,
        trim_end-stop (c ∷ v) b'\n' refl,
      )
      refl

passed-start : (v t : Bytes) → is_start v ≡ true → passed is_space (v ++ t) ≡ v ++ t
unfolding passed
passed-start [] t start = absurd (cc start)
passed-start (c ∷ v) t start = ground (arith, start)

on_separator-entry :
    (k v rest : Bytes) (m : ConfigMap)
    → All is_text v
    → is_start v ≡ true
    → on_separator k (b'=' ∷ (v ++ b'\n' ∷ rest)) m ≡ go (b'\n' ∷ rest) (insert k v m)
unfolding on_separator passed
on_separator-entry k v rest m all start =
    rw (passed-start v (b'\n' ∷ rest) start) (on_value-entry k v rest m all start)

on_line-entry :
    (k v rest : Bytes) (m : ConfigMap)
    → IsEntry (k, v)
    → on_line (k ++ (b'=' ∷ (v ++ (b'\n' ∷ rest)))) m ≡ go (b'\n' ∷ rest) (insert k v m)
unfolding on_line IsEntry
on_line-entry [] v rest m (keys, full, text, start) = absurd (cc full)
on_line-entry (c ∷ k) v rest m ((kc, keys), full, text, start) =
    let t = b'=' ∷ (v ++ (b'\n' ∷ rest)) in
    let no_comment : (c == b'#') ≡ false = ground (arith, kc) in
    rw
      (
        no_comment,
        kc,
        taken-All is_key (c ∷ k) t (kc, keys) refl,
        passed-All is_key (c ∷ k) t (kc, keys) refl,
      )
      (on_separator-entry (c ∷ k) v rest m text start)

-- No blank stands before the key of an entry.
passed-entries :
    (es : ConfigMap)
    → AreEntries es
    → passed is_blank (b'\n' ∷ config_to_string es) ≡ config_to_string es
unfolding AreEntries IsEntry config_to_string passed
passed-entries [] entries = refl
passed-entries (([], v) ∷ es) ((keys, full, text, start), entries) = absurd (cc full)
passed-entries (((c ∷ k), v) ∷ es) (((kc, keys), full, text, start), entries) =
    let no_blank : is_blank c ≡ false = ground (arith, kc) in rw no_blank refl

on_line-nil : (m : ConfigMap) → on_line [] m ≡ halt m true
unfolding on_line
on_line-nil m = refl

-- The entries of a text that spaces and line breaks may precede.
read_lines-entries :
    (fuel : ℕ) (s : Bytes) (acc es : ConfigMap)
    → AreEntries es
    → passed is_blank s ≡ config_to_string es
    → length es < fuel
    → read_lines fuel s acc ≡ some (insert_all acc es, true)
unfolding AreEntries insert_all read_lines config_to_string
read_lines-entries zero s acc es entries text less = absurd (omega arith)
read_lines-entries (suc fuel) s acc [] entries text less = rw (text, on_line-nil acc) refl
read_lines-entries (suc fuel) s acc ((k, v) ∷ es) (entry, entries) text less =
    rw (text, on_line-entry k v (config_to_string es) acc entry)
      (read_lines-entries fuel (b'\n' ∷ config_to_string es) (insert k v acc) es entries
        (passed-entries es entries) (omega (arith, less)))

-- A file holds no more entries than bytes.
length-entries : (es : ConfigMap) → length es ≤ length (config_to_string es)
unfolding config_to_string
length-entries [] = omega arith
length-entries ((k, v) ∷ es) =
    rw
      (
        length-append k (b'=' ∷ (v ++ (b'\n' ∷ config_to_string es))),
        length-append v (b'\n' ∷ config_to_string es),
      )
      (omega (arith, length-entries es))

pub c_str-append : (s t : Bytes) → All (λ c. not (c == 0)) s → c_str (s ++ t) ≡ s ++ c_str t
unfolding c_str
c_str-append [] t all = refl
c_str-append (c ∷ s) t (nonzero, all) =
    let no_end : (c == 0) ≡ false = ground (arith, nonzero) in
    rw no_end (ap (λ u. c ∷ u) (c_str-append s t all))

IsKey-nonzero : (k : Bytes) → All is_key k → All (λ c. not (c == 0)) k
IsKey-nonzero [] all = all
IsKey-nonzero (c ∷ k) (key, all) = (ground (arith, key), IsKey-nonzero k all)

IsText-nonzero : (v : Bytes) → All is_text v → All (λ c. not (c == 0)) v
IsText-nonzero [] all = all
IsText-nonzero (c ∷ v) (text, all) = (ground (arith, text), IsText-nonzero v all)

-- The file that is written has no terminator inside.
c_str-config_to_string :
    (es : ConfigMap) → AreEntries es → c_str (config_to_string es) ≡ config_to_string es
unfolding AreEntries IsEntry config_to_string c_str
c_str-config_to_string [] entries = refl
c_str-config_to_string ((k, v) ∷ es) ((keys, full, text, start), entries) =
    rw
      (
        c_str-append k (b'=' ∷ (v ++ (b'\n' ∷ config_to_string es))) (IsKey-nonzero k keys),
        c_str-append v (b'\n' ∷ config_to_string es) (IsText-nonzero v text),
        c_str-config_to_string es entries,
      )
      refl

-- The parameters that configToString writes are those that configReadString reads back from the
-- text, if they are in the order of the map, each key is not empty and consists of the characters
-- that isKey allows, and each value is not empty, does not begin with a space, and has no line break
-- and no zero; spaces at the end of a value are kept.
pub config_read_string-config_to_string :
    (es : ConfigMap)
    → AreEntries es
    → IsAscending es
    → config_read_string (config_to_string es) [] ≡ some (es, true)
unfolding config_read_string Before config_to_string passed
config_read_string-config_to_string es entries asc =
    rw
      (
        c_str-config_to_string es entries,
        read_lines-entries (suc (length (config_to_string es))) (config_to_string es) [] es entries
            (passed-entries es entries) (omega (arith, length-entries es)),
        insert_all-ascending [] es asc refl,
      )
      refl

passed_key-blank : (k t : Bytes) → All is_key k → passed is_blank (k ++ b'9' ∷ t) ≡ k ++ b'9' ∷ t
unfolding passed
passed_key-blank [] t keys = refl
passed_key-blank (c ∷ k) t (key, keys) =
    let no_blank : is_blank c ≡ false = ground (arith, key) in rw no_blank refl

on_line-nine :
    (k t : Bytes) (m : ConfigMap) → All is_key k → on_line (k ++ b'9' ∷ t) m ≡ halt m false
unfolding on_line on_separator
on_line-nine [] t m keys = refl
on_line-nine (c ∷ k) t m (key, keys) =
    let no_comment : (c == b'#') ≡ false = ground (arith, key) in
    rw (no_comment, key, passed-All is_key (c ∷ k) (b'9' ∷ t) (key, keys) refl) refl

-- A text that begins with key characters and then a 9, whatever follows, is refused by
-- configReadString, with the parameters as they were.
pub config_read_string-nine :
    (k rest : Bytes) (m : ConfigMap)
    → All is_key k
    → config_read_string (k ++ b'9' ∷ rest) m ≡ some (m, false)
unfolding config_read_string read_lines c_str
config_read_string-nine k rest m keys =
    rw
      (
        c_str-append k (b'9' ∷ rest) (IsKey-nonzero k keys),
        passed_key-blank k (c_str rest) keys,
        on_line-nine k (c_str rest) m keys,
      )
      refl

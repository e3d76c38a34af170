-- ===== src/Config/Lines.antt =====
-- src/utils/ConfigReader.cpp: `configReadFile`, which reads a file line by line, and `configReadString`.
use epoll_http_server.Base.{
  ℕ, zero, suc, ◌<◌, ◌≡◌, refl, ap, ◌∙◌, sym, Bool, true, false, not, Option, none, some, List, [],
  ◌∷◌, ◌++◌, Bytes, ◌==◌, All, length, length-append, append-nil, arith,
}
use epoll_http_server.Http.Libc.{c_str}
use epoll_http_server.Config.{
  ConfigMap, Step, go, halt, is_blank, passed, on_line, read_lines, then_lines, config_read_string,
  read_file_lines,
}
use epoll_http_server.Config.Behind.{
  more_behind, on_line-line, is_done, is_done-on_line, passed-blanks,
}
use epoll_http_server.Config.Returns.{length-passed, shorter-on_line}
use epoll_http_server.Config.RoundTrip.{c_str-append}

-- The lines, each with the line break that ended it.
unfoldable pub join_lines : List Bytes → Bytes
join_lines [] = []
join_lines (line ∷ lines) = line ++ b'\n' ∷ join_lines lines

-- Fuel that is enough makes no difference.
fuel_step :
    (n k : ℕ) (s : Bytes) (m : ConfigMap) (st : Step)
    → on_line (passed is_blank s) m ≡ st
    → length s < suc n
    → length s < suc k
    → ((s' : Bytes) (m' : ConfigMap)
        → length s' < n
        → length s' < k
        → read_lines n s' m' ≡ read_lines k s' m')
    → read_lines (suc n) s m ≡ read_lines (suc k) s m
unfolding read_lines
fuel_step n k s m (halt m' b) h below below' rest = rw h refl
fuel_step n k s m (go s' m') h below below' rest =
    let shorter : length s' < length s =
      omega (arith, shorter-on_line (passed is_blank s) s' m m' h, length-passed is_blank s) in
    rw h (rest s' m' (omega (arith, shorter, below)) (omega (arith, shorter, below')))

read_lines-fuel :
    (n k : ℕ) (s : Bytes) (m : ConfigMap)
    → length s < n
    → length s < k
    → read_lines n s m ≡ read_lines k s m
read_lines-fuel zero k s m below below' = absurd (omega arith)
read_lines-fuel (suc n) zero s m below below' = absurd (omega arith)
read_lines-fuel (suc n) (suc k) s m below below' =
    fuel_step n k s m (on_line (passed is_blank s) m) refl below below' (read_lines-fuel n k)

-- Reading a line with more behind it is reading the line, then the rest.
abbrev ReadsOn : ℕ → ℕ → Bytes → Bytes → ConfigMap → Type 0
ReadsOn n fuel s more m =
    read_lines fuel (s ++ b'\n' ∷ more) m
    ≡ then_lines (read_lines n s m) (read_lines (suc (length more)) more)

on_line-blank : (m : ConfigMap) → on_line [] m ≡ halt m true
unfolding on_line
on_line-blank m = refl

-- One iteration, by the text behind the blanks and what it brings.
line_step :
    (n fuel : ℕ) (s more t : Bytes) (m : ConfigMap) (st : Step)
    → passed is_blank s ≡ t
    → on_line t m ≡ st
    → length s < suc n
    → length (s ++ b'\n' ∷ more) < suc fuel
    → ((s' : Bytes) (m' : ConfigMap)
        → length s' < n
        → length (s' ++ b'\n' ∷ more) < fuel
        → ReadsOn n fuel s' more m')
    → ReadsOn (suc n) (suc fuel) s more m
unfolding read_lines then_lines more_behind
line_step n fuel s more [] m st e h below below' rest =
    rw (passed-blanks s more, e, on_line-blank m)
      (read_lines-fuel (suc fuel) (suc (length more)) more m
        (omega (arith, below', length-append s (b'\n' ∷ more))) (omega arith))
line_step n fuel s more (c ∷ t) m (halt m' true) e h below below' rest =
    absurd (ground (arith, sym (is_done-on_line c t m) ∙ ap is_done h))
line_step n fuel s more (c ∷ t) m (halt m' false) e h below below' rest =
    rw (passed-blanks s more, e, on_line-line c t more m, h) refl
line_step n fuel s more (c ∷ t) m (go s' m') e h below below' rest =
    let shorter : length s' < length s =
      omega (arith, shorter-on_line (c ∷ t) s' m m' h, length-passed is_blank s, ap length e) in
    let bound : length (s' ++ b'\n' ∷ more) < fuel =
      omega
        (arith, shorter, below', length-append s (b'\n' ∷ more), length-append s' (b'\n' ∷ more)) in
    rw (passed-blanks s more, e, on_line-line c t more m, h)
      (rest s' m' (omega (arith, shorter, below)) bound)

read_lines-line :
    (n fuel : ℕ) (s more : Bytes) (m : ConfigMap)
    → length s < n
    → length (s ++ b'\n' ∷ more) < fuel
    → ReadsOn n fuel s more m
read_lines-line zero fuel s more m below below' = absurd (omega arith)
read_lines-line (suc n) zero s more m below below' = absurd (omega arith)
read_lines-line (suc n) (suc fuel) s more m below below' =
    line_step n fuel s more (passed is_blank s) m (on_line (passed is_blank s) m) refl refl below
      below' (λ s' m'. read_lines-line n fuel s' more m')

-- No line has a terminator inside.
unfoldable pub AreText : List Bytes → Type 0
AreText [] = zero ≡ zero
AreText (line ∷ lines) = All (λ c. not (c == 0)) line × AreText lines

c_str-line : (s : Bytes) → All (λ c. not (c == 0)) s → c_str s ≡ s
unfolding c_str
c_str-line s all = ap c_str (sym (append-nil s)) ∙ c_str-append s [] all ∙ append-nil s

c_str-join_lines :
    (lines : List Bytes) → AreText lines → c_str (join_lines lines) ≡ join_lines lines
unfolding AreText join_lines c_str
c_str-join_lines [] text = refl
c_str-join_lines (line ∷ lines) (all, text) =
    rw (c_str-append line (b'\n' ∷ join_lines lines) all, c_str-join_lines lines text) refl

-- A chain is the same for results that are.
then_lines-next :
    (o : Option (ConfigMap × Bool)) (f g : ConfigMap → Option (ConfigMap × Bool))
    → ((m : ConfigMap) → f m ≡ g m)
    → then_lines o f ≡ then_lines o g
unfolding then_lines
then_lines-next none f g e = refl
then_lines-next (some (m, true)) f g e = e m
then_lines-next (some (m, false)) f g e = refl

-- configReadString on a text without a terminator.
read_text :
    (s : Bytes) (m : ConfigMap)
    → c_str s ≡ s
    → config_read_string s m ≡ read_lines (suc (length s)) s m
unfolding config_read_string
read_text s m e = rw e refl

read_file_lines-line :
    (line : Bytes) (lines : List Bytes) (m : ConfigMap)
    → read_file_lines (line ∷ lines) m
      ≡ then_lines (config_read_string line m) (read_file_lines lines)
unfolding read_file_lines
read_file_lines-line line lines m = refl

read_lines-nil : (m : ConfigMap) → read_lines 1 [] m ≡ some (m, true)
unfolding read_lines passed on_line
read_lines-nil m = refl

-- Reading the lines of a file one after the other, as configReadFile does, gives the result and the
-- parameters that configReadString gives for the whole text, in which a line break ends each
-- line, if no line has a zero inside.
pub read_file_lines_iff :
    (lines : List Bytes) (m : ConfigMap)
    → AreText lines
    → read_file_lines lines m ≡ config_read_string (join_lines lines) m
unfolding AreText join_lines read_file_lines c_str
read_file_lines_iff [] m text = sym (read_text [] m refl ∙ read_lines-nil m)
read_file_lines_iff (line ∷ lines) m (all, text) =
    let more = join_lines lines in
    let whole : c_str (line ++ b'\n' ∷ more) ≡ line ++ b'\n' ∷ more =
      c_str-join_lines (line ∷ lines) (all, text) in
    read_file_lines-line line lines m
    ∙ ap (λ o. then_lines o (read_file_lines lines)) (read_text line m (c_str-line line all))
    ∙ then_lines-next (read_lines (suc (length line)) line m) (read_file_lines lines)
        (read_lines (suc (length more)) more)
        (λ m'. read_file_lines_iff lines m' text ∙ read_text more m' (c_str-join_lines lines text))
    ∙ sym (
        read_text (line ++ b'\n' ∷ more) m whole
        ∙ read_lines-line (suc (length line)) (suc (length (line ++ b'\n' ∷ more))) line more m
            (omega arith) (omega arith))

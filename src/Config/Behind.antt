-- ===== src/Config/Behind.antt =====
-- src/utils/ConfigReader.cpp: what one iteration of `configReadString` does on a line, and on the
-- line with more behind it.
use epoll_http_server.Base.{
  ℕ, ◌≡◌, refl, ap, ◌∙◌, inl, inr, Bool, true, false, not, ◌&&◌, [], ◌∷◌, ◌++◌, Bytes, ◌==◌, arith,
  Bool-cases,
}
use epoll_http_server.Config.{
  ConfigMap, Step, go, halt, is_space, is_key, is_value, is_blank, taken, passed, here, next,
  is_empty, trim_end, on_value, on_separator, on_line,
}
use epoll_http_server.Config.RoundTrip.{trim_end-stop}

module _ (p : ℕ → Bool) (stop : p b'\n' ≡ false) where
  passed-line : (t more : Bytes) → passed p (t ++ b'\n' ∷ more) ≡ passed p t ++ b'\n' ∷ more
  unfolding passed
  passed-line [] more = rw stop refl
  passed-line (c ∷ t) more = elim (Bool-cases (p c)) [
    | inl e ↦ rw e (passed-line t more)
    | inr e ↦ rw e refl
  ]

  taken-line : (t more : Bytes) → taken p (t ++ b'\n' ∷ more) ≡ taken p t
  unfolding taken
  taken-line [] more = rw stop refl
  taken-line (c ∷ t) more = elim (Bool-cases (p c)) [
    | inl e ↦ rw e (ap (λ u. c ∷ u) (taken-line t more))
    | inr e ↦ rw e refl
  ]

-- A step on a line, and on the line with more behind it.
unfoldable pub more_behind : Bytes → Step → Step
more_behind more (go s m) = go (s ++ b'\n' ∷ more) m
more_behind more (halt m b) = halt m b

-- What stands behind a value is a line break or the terminator.
here-value : (r : Bytes) → is_space (here (passed is_value r)) ≡ false
unfolding passed
here-value [] = refl
here-value (c ∷ r) = ground (arith, here-value r)

-- A test that does not tell a line break from the terminator.
here-line :
    (q : ℕ → Bool) (t more : Bytes) → q b'\n' ≡ q 0 → q (here (t ++ b'\n' ∷ more)) ≡ q (here t)
here-line q [] more e = e
here-line q (c ∷ t) more e = refl

next-line :
    (t more : Bytes) → (here t == b'=') ≡ true → next (t ++ b'\n' ∷ more) ≡ next t ++ b'\n' ∷ more
next-line [] more e = absurd (cc e)
next-line (c ∷ t) more e = refl

on_value-line :
    (k r more : Bytes) (m : ConfigMap)
    → on_value k (r ++ b'\n' ∷ more) m ≡ more_behind more (on_value k r m)
unfolding on_value more_behind taken passed trim_end
on_value-line k [] more m = refl
on_value-line k (c ∷ r) more m =
    let t = c ∷ r in
    let rest = passed is_value t in
    let value = taken is_value t in
    rw
      (
        passed-line is_value refl t more,
        taken-line is_value refl t more,
        trim_end-stop value (here rest) (here-value t),
        trim_end-stop value (here (rest ++ b'\n' ∷ more))
            (here-line is_space rest more refl ∙ here-value t),
      )
      (elim (Bool-cases (is_empty value)) [ inl e ↦ rw e refl | inr e ↦ rw e refl ])

on_separator-line :
    (k s more : Bytes) (m : ConfigMap)
    → on_separator k (s ++ b'\n' ∷ more) m ≡ more_behind more (on_separator k s m)
unfolding on_separator more_behind
on_separator-line k s more m =
    let r = passed is_space s in
    rw
      (
        passed-line is_space refl s more,
        here-line is_space s more refl,
        here-line (λ c. c == b'=') s more refl,
        here-line (λ c. c == b'=') r more refl,
      )
      (elim (Bool-cases (not (is_space (here s)) && not (here s == b'='))) [
        | inl e ↦ rw e refl
        | inr e ↦ rw e (elim (Bool-cases (here r == b'=')) [
          | inr f ↦ rw f refl
          | inl f ↦
              rw (f, next-line r more f, passed-line is_space refl (next r) more)
                (on_value-line k (passed is_space (next r)) more m)
        ])
      ])

pub on_line-line :
    (c : ℕ) (t more : Bytes) (m : ConfigMap)
    → on_line (c ∷ (t ++ b'\n' ∷ more)) m ≡ more_behind more (on_line (c ∷ t) m)
unfolding on_line more_behind
on_line-line c t more m = elim (Bool-cases (c == b'#')) [
  | inl e ↦ rw (e, passed-line is_value refl (c ∷ t) more) refl
  | inr e ↦ rw e (elim (Bool-cases (is_key c)) [
    | inr f ↦ rw f refl
    | inl f ↦
        rw (f, taken-line is_key refl (c ∷ t) more, passed-line is_key refl (c ∷ t) more)
          (on_separator-line (taken is_key (c ∷ t)) (passed is_key (c ∷ t)) more m)
  ])
]

-- Only the end of the text is a success.
abbrev pub is_done : Step → Bool
is_done (go s m) = false
is_done (halt m b) = b

is_done-on_value : (k r : Bytes) (m : ConfigMap) → is_done (on_value k r m) ≡ false
unfolding on_value
is_done-on_value k r m = ground arith

is_done-on_separator : (k s : Bytes) (m : ConfigMap) → is_done (on_separator k s m) ≡ false
unfolding on_separator
is_done-on_separator k s m =
    ground (arith, is_done-on_value k (passed is_space (next (passed is_space s))) m)

pub is_done-on_line : (c : ℕ) (t : Bytes) (m : ConfigMap) → is_done (on_line (c ∷ t) m) ≡ false
unfolding on_line
is_done-on_line c t m =
    ground (arith, is_done-on_separator (taken is_key (c ∷ t)) (passed is_key (c ∷ t)) m)

-- Passing the blanks of a line ends in the line, or goes on behind it.
pub passed-blanks :
    (s more : Bytes)
    → passed is_blank (s ++ b'\n' ∷ more)
      ≡ (elim (passed is_blank s) [ [] ↦ passed is_blank more | c ∷ t ↦ c ∷ (t ++ b'\n' ∷ more) ])
unfolding passed
passed-blanks [] more = refl
passed-blanks (c ∷ s) more = elim (Bool-cases (is_blank c)) [
  | inl e ↦ rw e (passed-blanks s more)
  | inr e ↦ rw e refl
]

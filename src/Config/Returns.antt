-- ===== src/Config/Returns.antt =====
-- src/utils/ConfigReader.cpp: the iterations of `configReadString`, and the keys that it refuses.
use epoll_http_server.Base.{
  ℕ, zero, suc, ◌≤◌, ◌<◌, ◌≡◌, refl, ap, ◌∙◌, Bool, some, [], ◌∷◌, Bytes, length, arith,
}
use epoll_http_server.Http.Libc.{c_str}
use epoll_http_server.Config.{
  ConfigMap, Step, go, halt, is_space, is_key, is_value, is_blank, taken, passed, next, on_value,
  on_separator, on_line, read_lines, resume, config_read_string, next,
}

-- Passing over characters makes the text no longer.
pub length-passed : (p : ℕ → Bool) (s : Bytes) → length (passed p s) ≤ length s
unfolding passed
length-passed p [] = omega arith
length-passed p (c ∷ cs) = ground (arith, length-passed p cs)

-- The length of the text that a step leaves to the loop.
abbrev left : Step → ℕ
left (go s m) = length s
left (halt m b) = 0

left-on_value : (key r : Bytes) (m : ConfigMap) → left (on_value key r m) ≤ length r
unfolding on_value
left-on_value key r m = ground (arith, length-passed is_value r)

left-on_separator : (key s : Bytes) (m : ConfigMap) → left (on_separator key s m) ≤ length s
unfolding on_separator
left-on_separator key s m =
    let r = passed is_space s in
    ground (
      arith,
      left-on_value key (passed is_space (next r)) m,
      length-passed is_space (next r),
      length-passed is_space s,
    )

left-on_line : (c : ℕ) (cs : Bytes) (m : ConfigMap) → left (on_line (c ∷ cs) m) ≤ length cs
unfolding on_line passed
left-on_line c cs m = ground (
  arith,
  length-passed is_value cs,
  length-passed is_key cs,
  left-on_separator (taken is_key (c ∷ cs)) (passed is_key cs) m,
)

-- The loop on some fuel returns.
abbrev Returned : ℕ → Bytes → ConfigMap → Type 0
Returned fuel s m = (out : ConfigMap × Bool) × (read_lines fuel s m ≡ some out)

pub shorter-on_line :
    (t s' : Bytes) (m m' : ConfigMap) → on_line t m ≡ go s' m' → length s' < length t
unfolding on_line
shorter-on_line [] s' m m' h = absurd (cc h)
shorter-on_line (c ∷ cs) s' m m' h = omega (arith, left-on_line c cs m, ap left h)

-- One iteration, by what the line brings.
Returned-step :
    (fuel : ℕ) (s : Bytes) (m : ConfigMap) (st : Step)
    → on_line (passed is_blank s) m ≡ st
    → length s < suc fuel
    → ((s' : Bytes) (m' : ConfigMap) → length s' < fuel → Returned fuel s' m')
    → Returned (suc fuel) s m
unfolding read_lines
Returned-step fuel s m (halt m' b) h less rest = ((m', b), ap (resume (read_lines fuel)) h)
Returned-step fuel s m (go s' m') h less rest =
    let shorter : length s' < fuel =
      omega
        (arith, shorter-on_line (passed is_blank s) s' m m' h, length-passed is_blank s, less) in
    let (out, e) = rest s' m' shorter in (out, ap (resume (read_lines fuel)) h ∙ e)

read_lines-returns : (fuel : ℕ) (s : Bytes) (m : ConfigMap) → length s < fuel → Returned fuel s m
read_lines-returns zero s m less = absurd (omega arith)
read_lines-returns (suc fuel) s m less =
    Returned-step fuel s m (on_line (passed is_blank s) m) refl less (read_lines-returns fuel)

-- configReadString returns, for any text and any parameters read before.
pub config_read_string-returns :
    (s : Bytes) (m : ConfigMap) → (out : ConfigMap × Bool) × (config_read_string s m ≡ some out)
unfolding config_read_string
config_read_string-returns s m =
    read_lines-returns (suc (length (c_str s))) (c_str s) m (omega arith)

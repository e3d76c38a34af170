-- ===== src/Params/Ports.antt =====
-- src/ServerParameters.cpp: which ports `load` takes.
use epoll_http_server.Base.{
  ℕ, zero, suc, ◌≡◌, refl, ap, ◌∙◌, sym, Bool, true, false, Option, none, some, List, [], ◌∷◌, ◌++◌,
  append_assoc, append-nil, Bytes, ℤ, pos, negsuc, minus_one, is_negative,
}
use epoll_http_server.Http.Libc.{stoi}
use epoll_http_server.Config.{ConfigMap, find}
use epoll_http_server.Params.{
  ServerParameters, Loaded, converted, optional_int, get_optional_int, port_key, add_port,
  load_ports,
}

-- The number that a setting has; `none` if it is missing or no number of type `int`.
unfoldable pub number : Option Bytes → Option ℤ
number none = none
number (some text) = stoi text

unfoldable pub setting : ConfigMap → Bytes → Option ℤ
unfolding number
setting m name = number (find name m)

-- `ports` are the settings from the n-th on: each a number that is not negative; and they end
-- at `count` ports, or before a setting that is missing or negative.
unfoldable pub IsRunOfPorts : ConfigMap → ℕ → ℕ → List ℤ → Type 0
IsRunOfPorts m n zero ports = ports ≡ []
IsRunOfPorts m n (suc count) [] =
    (get_optional_int m (port_key n) minus_one).1 ≡ true
    × is_negative (get_optional_int m (port_key n) minus_one).0 ≡ true
IsRunOfPorts m n (suc count) (port ∷ ports) =
    setting m (port_key n) ≡ some port
    × is_negative port ≡ false
    × IsRunOfPorts m (suc n) count ports

-- A value that is taken and does not have the sign of the default is the setting's.
taken_number :
    (o : Option ℤ) → (converted minus_one o).1 ≡ true → o ≡ some (converted minus_one o).0
unfolding converted
taken_number none ok = absurd (cc ok)
taken_number (some z) ok = refl

taken_text :
    (o : Option Bytes)
    → (optional_int minus_one o).1 ≡ true
    → is_negative (optional_int minus_one o).0 ≡ false
    → number o ≡ some (optional_int minus_one o).0
unfolding number optional_int
taken_text none ok sign = absurd (cc sign)
taken_text (some text) ok sign = taken_number (stoi text) ok

-- If the loop ends well, it adds a run of ports.
abbrev pub AddsRun : Loaded → ServerParameters → ConfigMap → ℕ → ℕ → Type 0
AddsRun l p m n count =
    l.1 ≡ true
    → (ports : List ℤ) × (l.0.http_ports ≡ p.http_ports ++ ports) × IsRunOfPorts m n count ports

add_port-AddsRun :
    (value : ℤ × Bool) (p : ServerParameters) (rest : ServerParameters → Loaded) (m : ConfigMap)
    (n count : ℕ)
    → get_optional_int m (port_key n) minus_one ≡ value
    → ((p' : ServerParameters) → AddsRun (rest p') p' m (suc n) count)
    → AddsRun (add_port value p rest) p m n (suc count)
unfolding add_port IsRunOfPorts setting get_optional_int
add_port-AddsRun (port, false) p rest m n count e more ok = absurd (cc ok)
add_port-AddsRun (negsuc k, true) p rest m n count e more ok =
    ([], sym (append-nil p.http_ports), (ap (λ v. v.1) e, ap (λ v. is_negative v.0) e))
add_port-AddsRun (pos k, true) p rest m n count e more ok =
    let (ports, added, run) = more (record p { http_ports = p.http_ports ++ pos k ∷ [] }) ok in
    let found : setting m (port_key n) ≡ some (pos k) =
      taken_text (find (port_key n) m) (ap (λ v. v.1) e) (ap (λ v. is_negative v.0) e)
      ∙ ap (λ v. some v.0) e in
    (pos k ∷ ports, added ∙ append_assoc p.http_ports (pos k ∷ []) ports, (found, refl, run))

pub load_ports-AddsRun :
    (count n : ℕ) (m : ConfigMap) (p : ServerParameters)
    → AddsRun (load_ports count n m p) p m n count
unfolding load_ports IsRunOfPorts
load_ports-AddsRun zero n m p = λ ok. ([], sym (append-nil p.http_ports), refl)
load_ports-AddsRun (suc count) n m p =
    add_port-AddsRun (get_optional_int m (port_key n) minus_one) p (load_ports count (suc n) m) m n
      count refl (load_ports-AddsRun count (suc n) m)

-- ===== src/Params/Proxies.antt =====
-- src/ServerParameters.cpp: which proxies `load` takes.
use epoll_http_server.Base.{
  ℕ, zero, suc, ◌≡◌, refl, ap, ◌∙◌, sym, Bool, true, false, Option, none, some, List, [], ◌∷◌, ◌++◌,
  append-nil, append_assoc, ℤ, pos, negsuc, codes, is_positive, arith,
}
use epoll_http_server.Exec.Data.{ProxyParameters, connection_clear}
use epoll_http_server.Config.{ConfigMap, find}
use epoll_http_server.Params.{
  ServerParameters, Loaded, get_optional_int, proxy_key, socket_of, proxy_of, push_proxy, add_proxy,
  load_proxies,
}

-- `proxy` has the settings of the n-th proxy: the address and the prefix are there, the port is
-- positive and the type of the socket is known, TCP if it is not given.
unfoldable pub IsProxyOf : ConfigMap → ℕ → ProxyParameters → Type 0
IsProxyOf m n proxy =
    get_optional_int m (proxy_key n (codes ".port")) (pos 0) ≡ (proxy.port, true)
    × is_positive proxy.port ≡ true
    × find (proxy_key n (codes ".address")) m ≡ some proxy.address
    × find (proxy_key n (codes ".prefix")) m ≡ some proxy.prefix
    × socket_of (find (proxy_key n (codes ".socket")) m) ≡ some proxy.socket_type
    × proxy.connection_type ≡ connection_clear

unfoldable pub IsRunOfProxies : ConfigMap → ℕ → ℕ → List ProxyParameters → Type 0
unfolding IsProxyOf
IsRunOfProxies m n zero proxies = proxies ≡ []
IsRunOfProxies m n (suc count) [] =
    (get_optional_int m (proxy_key n (codes ".port")) (pos 0)).1 ≡ true
    × is_positive (get_optional_int m (proxy_key n (codes ".port")) (pos 0)).0 ≡ false
IsRunOfProxies m n (suc count) (proxy ∷ proxies) =
    IsProxyOf m n proxy × IsRunOfProxies m (suc n) count proxies

proxy_of-IsProxyOf :
    (m : ConfigMap) (n : ℕ) (port : ℤ) (proxy : ProxyParameters)
    → get_optional_int m (proxy_key n (codes ".port")) (pos 0) ≡ (port, true)
    → is_positive port ≡ true
    → proxy_of m n port ≡ some proxy
    → IsProxyOf m n proxy
unfolding proxy_of IsProxyOf
proxy_of-IsProxyOf m n port proxy e sign made = ground (arith, e, sign, made)

abbrev pub AddsProxies : Loaded → ServerParameters → ConfigMap → ℕ → ℕ → Type 0
AddsProxies l p m n count =
    l.1 ≡ true
    → (proxies : List ProxyParameters) × (l.0.proxies ≡ p.proxies ++ proxies)
      × (l.0.http_ports ≡ p.http_ports)
      × (l.0.log_folder ≡ p.log_folder)
      × IsRunOfProxies m n count proxies

push_proxy-AddsProxies :
    (o : Option ProxyParameters) (port : ℤ) (p : ServerParameters)
    (rest : ServerParameters → Loaded) (m : ConfigMap) (n count : ℕ)
    → get_optional_int m (proxy_key n (codes ".port")) (pos 0) ≡ (port, true)
    → is_positive port ≡ true
    → proxy_of m n port ≡ o
    → ((p' : ServerParameters) → AddsProxies (rest p') p' m (suc n) count)
    → AddsProxies (push_proxy o p rest) p m n (suc count)
unfolding push_proxy IsRunOfProxies
push_proxy-AddsProxies none port p rest m n count e sign made more ok = absurd (cc ok)
push_proxy-AddsProxies (some proxy) port p rest m n count e sign made more ok =
    let (proxies, added, ports, folder, run) =
      more (record p { proxies = p.proxies ++ proxy ∷ [] }) ok in
    (
      proxy ∷ proxies,
      added ∙ append_assoc p.proxies (proxy ∷ []) proxies,
      ports,
      folder,
      (proxy_of-IsProxyOf m n port proxy e sign made, run),
    )

no_proxy :
    (value : ℤ × Bool) (p : ServerParameters) (m : ConfigMap) (n count : ℕ)
    → get_optional_int m (proxy_key n (codes ".port")) (pos 0) ≡ value
    → value.1 ≡ true
    → is_positive value.0 ≡ false
    → AddsProxies (p, true) p m n (suc count)
unfolding IsRunOfProxies
no_proxy value p m n count e taken sign ok = (
  [],
  sym (append-nil p.proxies),
  refl,
  refl,
  (ap (λ v. v.1) e ∙ taken, ap (λ v. is_positive v.0) e ∙ sign),
)

add_proxy-AddsProxies :
    (value : ℤ × Bool) (p : ServerParameters) (rest : ServerParameters → Loaded) (m : ConfigMap)
    (n count : ℕ)
    → get_optional_int m (proxy_key n (codes ".port")) (pos 0) ≡ value
    → ((p' : ServerParameters) → AddsProxies (rest p') p' m (suc n) count)
    → AddsProxies (add_proxy m n value p rest) p m n (suc count)
unfolding add_proxy
add_proxy-AddsProxies (port, false) p rest m n count e more = λ ok. absurd (cc ok)
add_proxy-AddsProxies (negsuc k, true) p rest m n count e more =
    no_proxy (negsuc k, true) p m n count e refl refl
add_proxy-AddsProxies (pos zero, true) p rest m n count e more =
    no_proxy (pos 0, true) p m n count e refl refl
add_proxy-AddsProxies (pos (suc k), true) p rest m n count e more =
    let sign : is_positive (pos (suc k)) ≡ true = ground arith in
    rw sign (
      push_proxy-AddsProxies (proxy_of m n (pos (suc k))) (pos (suc k)) p rest m n count e sign refl
        more)

pub load_proxies-AddsProxies :
    (count n : ℕ) (m : ConfigMap) (p : ServerParameters)
    → AddsProxies (load_proxies count n m p) p m n count
unfolding load_proxies IsRunOfProxies
load_proxies-AddsProxies zero n m p = λ ok. ([], sym (append-nil p.proxies), refl, refl, refl)
load_proxies-AddsProxies (suc count) n m p =
    add_proxy-AddsProxies (get_optional_int m (proxy_key n (codes ".port")) (pos 0)) p
      (load_proxies count (suc n) m) m n count refl (load_proxies-AddsProxies count (suc n) m)

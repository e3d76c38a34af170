-- ===== src/Params/Valid.antt =====
-- src/ServerParameters.cpp: what holds of the parameters that `load` takes.
use epoll_http_server.Base.{
  ℕ, zero, suc, ◌≡◌, ◌≢◌, refl, ap, ◌∙◌, sym, Bool, true, false, not, Option, none, some, List, [],
  ◌∷◌, ◌++◌, Bytes, length, ℤ, pos, negsuc, minus_one, codes, arith, ◌==◌,
}
use mathlib.Core.Path.{subst}
use epoll_http_server.Config.{ConfigMap, find, config_read_file}
use epoll_http_server.Params.{
  ServerParameters, Loaded, defaults, then_load, get_optional_int, load_numbers, load_folders,
  load_level, load_type, load_ports, has_port, load_proxies, load_map, load_read, load, add_port,
  port_key,
}
use epoll_http_server.Params.Ports.{IsRunOfPorts, load_ports-AddsRun}
use epoll_http_server.Params.Proxies.{IsRunOfProxies, load_proxies-AddsProxies}

-- The fields that a step of `load` keeps.
abbrev Keeps : ServerParameters → ServerParameters → Type 0
Keeps p q = q.log_folder ≡ p.log_folder × q.http_ports ≡ p.http_ports × q.proxies ≡ p.proxies

load_numbers-Keeps : (m : ConfigMap) (p : ServerParameters) → Keeps p (load_numbers m p).0
unfolding load_numbers
load_numbers-Keeps m p = ground arith

load_level-Keeps : (o : Option Bytes) (p : ServerParameters) → Keeps p (load_level o p).0
unfolding load_level
load_level-Keeps o p = ground arith

load_type-Keeps : (o : Option Bytes) (p : ServerParameters) → Keeps p (load_type o p).0
unfolding load_type
load_type-Keeps o p = ground arith

load_folders-Keeps : (m : ConfigMap) (p : ServerParameters) → Keeps p (load_folders m p)
unfolding load_folders
load_folders-Keeps m p = ground arith

-- The parameters that the entries of a map call for: the ports and the proxies are the runs of
-- settings from number 0 on, and there is a port.
unfoldable pub IsLoadedFrom : ConfigMap → ServerParameters → Type 0
unfolding IsRunOfProxies
IsLoadedFrom m p =
    IsRunOfPorts m 0 100 p.http_ports
    × IsRunOfProxies m 0 100 p.proxies
    × (p.http_ports ≢ [])
    × p.log_folder ≡ defaults.log_folder

-- What a chain that ends well establishes, from what its first step does.
then_load-chain :
    (P Q : ServerParameters → Type 0) (l : Loaded) (f : ServerParameters → Loaded)
    → (l.1 ≡ true → P l.0)
    → ((p : ServerParameters) → P p → (f p).1 ≡ true → Q (f p).0)
    → (then_load l f).1 ≡ true
    → Q (then_load l f).0
then_load-chain P Q (p, true) f first next ok = next p (first refl) ok
then_load-chain P Q (p, false) f first next ok = absurd (cc ok)

load_ports-Keeps :
    (count n : ℕ) (m : ConfigMap) (p : ServerParameters)
    → (load_ports count n m p).0.log_folder ≡ p.log_folder
      × (load_ports count n m p).0.proxies ≡ p.proxies
unfolding load_ports
load_ports-Keeps zero n m p = (refl, refl)
load_ports-Keeps (suc count) n m p =
    step (get_optional_int m (port_key n) minus_one) p (load_ports count (suc n) m)
      (load_ports-Keeps count (suc n) m)
  where
    step :
        (value : ℤ × Bool) (q : ServerParameters) (rest : ServerParameters → Loaded)
        → ((p' : ServerParameters)
            → (rest p').0.log_folder ≡ p'.log_folder × (rest p').0.proxies ≡ p'.proxies)
        → (add_port value q rest).0.log_folder ≡ q.log_folder
          × (add_port value q rest).0.proxies ≡ q.proxies
    step (port, false) q rest more = (refl, refl)
    step (pos k, true) q rest more = more (record q { http_ports = q.http_ports ++ pos k ∷ [] })
    step (negsuc k, true) q rest more = (refl, refl)

-- What holds behind the loop over the ports.
abbrev HasPorts : ConfigMap → ServerParameters → Type 0
HasPorts m p =
    IsRunOfPorts m 0 100 p.http_ports × p.proxies ≡ [] × p.log_folder ≡ defaults.log_folder

take_ports :
    (m : ConfigMap) (p : ServerParameters)
    → Keeps defaults p
    → (load_ports 100 0 m p).1 ≡ true
    → HasPorts m (load_ports 100 0 m p).0
take_ports m p (folder, ports, proxies) ok =
    let (run, added, is_run) = load_ports-AddsRun 100 0 m p ok in
    let (folder', proxies') = load_ports-Keeps 100 0 m p in
    let all : (load_ports 100 0 m p).0.http_ports ≡ run = added ∙ ap (λ ps. ps ++ run) ports in
    (subst (IsRunOfPorts m 0 100) (sym all) is_run, proxies' ∙ proxies, folder' ∙ folder)

take_proxies :
    (m : ConfigMap) (p : ServerParameters)
    → HasPorts m p
    → (p.http_ports ≢ [])
    → (load_proxies 100 0 m p).1 ≡ true
    → IsLoadedFrom m (load_proxies 100 0 m p).0
unfolding IsLoadedFrom
take_proxies m p (is_run, proxies, folder) some_port ok =
    let (run, added, ports', folder', is_run') = load_proxies-AddsProxies 100 0 m p ok in
    let all : (load_proxies 100 0 m p).0.proxies ≡ run = added ∙ ap (λ qs. qs ++ run) proxies in
    (
      subst (IsRunOfPorts m 0 100) (sym ports') is_run,
      subst (IsRunOfProxies m 0 100) (sym all) is_run',
      (λ e. some_port (sym ports' ∙ e)),
      folder' ∙ folder,
    )

not_empty : (ports : List ℤ) → not (length ports == 0) ≡ true → ports ≢ []
not_empty ports full e = absurd (cc (full, e))

Keeps-trans : (p q r : ServerParameters) → Keeps p q → Keeps q r → Keeps p r
Keeps-trans p q r (a, b, c) (a', b', c') = (a' ∙ a, b' ∙ b, c' ∙ c)

-- The steps of `load`, from the last to the first.
load_has_port : ConfigMap → ServerParameters → Loaded
load_has_port m p = then_load (has_port p) (load_proxies 100 0 m)

load_lists : ConfigMap → ServerParameters → Loaded
load_lists m p = then_load (load_ports 100 0 m p) (load_has_port m)

load_log : ConfigMap → ServerParameters → Loaded
load_log m p = then_load (load_type (find (codes "logType") m) p) (load_lists m)

load_texts : ConfigMap → ServerParameters → Loaded
load_texts m p = then_load (load_level (find (codes "logLevel") m) (load_folders m p)) (load_log m)

has_port-lem :
    (m : ConfigMap) (p : ServerParameters)
    → HasPorts m p
    → (load_has_port m p).1 ≡ true
    → IsLoadedFrom m (load_has_port m p).0
unfolding load_has_port
has_port-lem m p has =
    then_load-chain (λ q. HasPorts m q × (q.http_ports ≢ [])) (IsLoadedFrom m) (has_port p)
      (load_proxies 100 0 m) (λ full. (has, not_empty p.http_ports full))
      (λ q both. take_proxies m q both.0 both.1)

load_lists-IsLoadedFrom :
    (m : ConfigMap) (p : ServerParameters)
    → Keeps defaults p
    → (load_lists m p).1 ≡ true
    → IsLoadedFrom m (load_lists m p).0
unfolding load_lists
load_lists-IsLoadedFrom m p keeps =
    then_load-chain (HasPorts m) (IsLoadedFrom m) (load_ports 100 0 m p) (load_has_port m)
      (take_ports m p keeps) (has_port-lem m)

load_log-IsLoadedFrom :
    (m : ConfigMap) (p : ServerParameters)
    → Keeps defaults p
    → (load_log m p).1 ≡ true
    → IsLoadedFrom m (load_log m p).0
unfolding load_log
load_log-IsLoadedFrom m p keeps =
    let loaded = load_type (find (codes "logType") m) p in
    then_load-chain (Keeps defaults) (IsLoadedFrom m) loaded (load_lists m)
      (λ ok. Keeps-trans defaults p loaded.0 keeps (load_type-Keeps (find (codes "logType") m) p))
      (load_lists-IsLoadedFrom m)

load_texts-IsLoadedFrom :
    (m : ConfigMap) (p : ServerParameters)
    → Keeps defaults p
    → (load_texts m p).1 ≡ true
    → IsLoadedFrom m (load_texts m p).0
unfolding load_texts
load_texts-IsLoadedFrom m p keeps =
    let p' = load_folders m p in
    let loaded = load_level (find (codes "logLevel") m) p' in
    let keeps' = Keeps-trans defaults p p' keeps (load_folders-Keeps m p) in
    then_load-chain (Keeps defaults) (IsLoadedFrom m) loaded (load_log m)
      (λ ok.
        Keeps-trans defaults p' loaded.0 keeps' (load_level-Keeps (find (codes "logLevel") m) p'))
      (load_log-IsLoadedFrom m)

load_map-IsLoadedFrom :
    (m : ConfigMap) → (load_map m defaults).1 ≡ true → IsLoadedFrom m (load_map m defaults).0
unfolding load_map load_texts load_log load_lists load_has_port
load_map-IsLoadedFrom m =
    then_load-chain (Keeps defaults) (IsLoadedFrom m) (load_numbers m defaults) (load_texts m)
      (λ ok. load_numbers-Keeps m defaults) (load_texts-IsLoadedFrom m)

-- If load returns 0, the file was read; the ports are the settings httpPort0, httpPort1 and so on up
-- to the first that is missing or negative, or a hundred, and there is at least one; the proxies
-- are the settings of proxy0, proxy1 and so on up to the first without a positive port, or a
-- hundred, each with the address, the prefix and the type of socket that are set for it; and the
-- folder for logs is the default one, whatever is set.
pub load-IsLoadedFrom :
    (file : Option (List Bytes)) (p : ServerParameters)
    → load file ≡ some (p, true)
    → (m : ConfigMap) × (config_read_file file [] ≡ some (m, true)) × IsLoadedFrom m p
unfolding load
load-IsLoadedFrom file p ok = by_file (config_read_file file []) refl ok
  where
    by_file :
        (o : Option (ConfigMap × Bool))
        → config_read_file file [] ≡ o
        → load_read o ≡ some (p, true)
        → (m : ConfigMap) × (config_read_file file [] ≡ some (m, true)) × IsLoadedFrom m p
    by_file none e read = absurd (cc read)
    by_file (some (m, false)) e read = absurd (cc read)
    by_file (some (m, true)) e read =
        let same : load_map m defaults ≡ (p, true) = cc read in
        (m, e, subst (λ l. IsLoadedFrom m l.0) same (load_map-IsLoadedFrom m (ap (λ l. l.1) same)))

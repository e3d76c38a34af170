-- ===== src/Params.antt =====
-- src/ServerParameters.h and src/ServerParameters.cpp: the parameters of the server, and how they are
-- taken from the configuration file.
mod Ports
mod Proxies
mod Tests
mod Valid
use epoll_http_server.Base.{
  ℕ, zero, suc, ◌+◌, ◌-◌, ◌*◌, ◌^◌, Bool, true, false, not, ◌&&◌, ◌||◌, Option, none, some, List,
  [], ◌∷◌, ◌++◌, Bytes, ◌==◌, leb, within, if◌then◌else◌, length, codes, ℤ, pos, neg, minus_one,
  is_negative, is_positive,
}
use epoll_http_server.Exec.Data.{ProxyParameters, SocketType, connection_none, connection_clear}
use epoll_http_server.Exec.Response.{decimal}
use epoll_http_server.Http.Libc.{stoi}
use epoll_http_server.Config.{ConfigMap, find, config_read_file, key_less}

-- `Log::Level` and `Log::Type`
pub data LogLevel : Type 0 where
  debug info warning error : LogLevel

pub data LogType : Type 0 where
  stdout mmap : LogType

pub record ServerParameters : Type 0 where
  pub root_folder : Bytes
  pub log_folder : Bytes
  pub thread_count : ℤ
  pub executor_timeout_millis : ℤ
  pub log_level : LogLevel
  pub log_type : LogType
  pub log_file_size : ℤ
  pub log_archive_count : ℤ
  pub log_stats : Bool
  pub http_ports : List ℤ
  pub proxies : List ProxyParameters

-- What `setDefaults` leaves, which sets every field.
abbrev pub defaults : ServerParameters
defaults = record {
  root_folder = codes "./data";
  log_folder = codes "./log";
  thread_count = pos 1;
  executor_timeout_millis = pos 10000;
  log_level = LogLevel.info;
  log_type = LogType.stdout;
  log_file_size = pos (1024 * 1024);
  log_archive_count = pos 10;
  log_stats = true;
  http_ports = [];
  proxies = [];
}

-- `getOptionalInt`: the parameter as it is then, and the result.
unfoldable pub converted : ℤ → Option ℤ → ℤ × Bool
converted param none = (param, false)
converted param (some z) = (z, true)

unfoldable pub optional_int : ℤ → Option Bytes → ℤ × Bool
unfolding converted
optional_int param none = (param, true)
optional_int param (some text) = converted param (stoi text)

unfoldable pub get_optional_int : ConfigMap → Bytes → ℤ → ℤ × Bool
unfolding optional_int
get_optional_int m name param = optional_int param (find name m)

-- What follows a step of `load`, unless that returns -1. The Boolean is whether 0 is returned.
abbrev pub Loaded : Type 0
Loaded = ServerParameters × Bool

abbrev pub then_load : Loaded → (ServerParameters → Loaded) → Loaded
then_load (p, true) f = f p
then_load (p, false) f = (p, false)

abbrev pub same_text : Bytes → Bytes → Bool
same_text a b = not (key_less a b) && not (key_less b a)

-- The numbers that are not parts of a list.
unfoldable pub load_numbers : ConfigMap → ServerParameters → Loaded
unfolding get_optional_int
load_numbers m p =
    let (threads, ok1) = get_optional_int m (codes "threadCount") p.thread_count in
    let p1 = record p { thread_count = threads } in
    let (timeout, ok2) =
      get_optional_int m (codes "executorTimeoutMillis") p.executor_timeout_millis in
    let p2 = record p1 { executor_timeout_millis = timeout } in
    let (size, ok3) = get_optional_int m (codes "logFileSize") p.log_file_size in
    let p3 = record p2 { log_file_size = size } in
    let (count, ok4) = get_optional_int m (codes "logArchiveCount") p.log_archive_count in
    let p4 = record p3 { log_archive_count = count } in
    if not ok1
    then (p1, false)
    else if not ok2
    then (p2, false)
    else if not ok3
    then (p3, false)
    else (p4, ok4)

-- Both settings go to `rootFolder`.
abbrev pub set_root : Option Bytes → ServerParameters → ServerParameters
set_root none p = p
set_root (some folder) p = record p { root_folder = folder }

unfoldable pub load_folders : ConfigMap → ServerParameters → ServerParameters
load_folders m p = set_root (find (codes "logFolder") m) (set_root (find (codes "rootFolder") m) p)

unfoldable pub load_level : Option Bytes → ServerParameters → Loaded
unfolding key_less
load_level none p = (p, true)
load_level (some text) p =
    if same_text text (codes "debug")
    then (record p { log_level = LogLevel.debug }, true)
    else if same_text text (codes "info")
    then (record p { log_level = LogLevel.info }, true)
    else if same_text text (codes "warning")
    then (record p { log_level = LogLevel.warning }, true)
    else if same_text text (codes "error")
    then (record p { log_level = LogLevel.error }, true)
    else (p, false)

unfoldable pub load_type : Option Bytes → ServerParameters → Loaded
unfolding key_less
load_type none p = (p, true)
load_type (some text) p =
    if same_text text (codes "stdout")
    then (record p { log_type = LogType.stdout }, true)
    else if same_text text (codes "mmap")
    then (record p { log_type = LogType.mmap }, true)
    else (p, false)

abbrev pub port_key : ℕ → Bytes
port_key n = codes "httpPort" ++ decimal n

-- A round of the loop over the ports, with what `getOptionalInt` leaves, and the rest of the loop.
unfoldable pub add_port : ℤ × Bool → ServerParameters → (ServerParameters → Loaded) → Loaded
add_port (port, false) p rest = (p, false)
add_port (port, true) p rest =
    if is_negative port
    then (p, true)
    else rest (record p { http_ports = p.http_ports ++ port ∷ [] })

-- The loop over `httpPort0`, `httpPort1`, …, from `n` on for `count` rounds.
unfoldable pub load_ports : ℕ → ℕ → ConfigMap → ServerParameters → Loaded
unfolding add_port
load_ports zero n m p = (p, true)
load_ports (suc count) n m p =
    add_port (get_optional_int m (port_key n) minus_one) p (load_ports count (suc n) m)

abbrev pub proxy_key : ℕ → Bytes → Bytes
proxy_key n field = codes "proxy" ++ (decimal n ++ field)

-- `none` for a text that is no socket type
unfoldable pub socket_of : Option Bytes → Option SocketType
unfolding key_less
socket_of none = some SocketType.tcp
socket_of (some text) =
    if same_text text (codes "tcp")
    then some SocketType.tcp
    else if same_text text (codes "unix")
    then some SocketType.unix
    else none

-- A chain ends at the first setting that is missing.
infixl 20 ◌>>=◌
abbrev ◌>>=◌ {ℓ} : {A B : Type ℓ} → Option A → (A → Option B) → Option B
none >>= f = none
some a >>= f = f a

-- The rest of a proxy's settings; `none` where `load` returns -1.
unfoldable pub proxy_of : ConfigMap → ℕ → ℤ → Option ProxyParameters
unfolding socket_of
proxy_of m n port = do
  address ← find (proxy_key n (codes ".address")) m
  prefix ← find (proxy_key n (codes ".prefix")) m
  socket ← socket_of (find (proxy_key n (codes ".socket")) m)
  some (record {
    prefix = prefix;
    address = address;
    port = port;
    connection_type = connection_clear;
    socket_type = socket;
  })

-- What follows the other settings of a proxy, or their lack.
unfoldable pub push_proxy :
    Option ProxyParameters → ServerParameters → (ServerParameters → Loaded) → Loaded
push_proxy none p rest = (p, false)
push_proxy (some proxy) p rest = rest (record p { proxies = p.proxies ++ proxy ∷ [] })

unfoldable pub add_proxy :
    ConfigMap → ℕ → ℤ × Bool → ServerParameters → (ServerParameters → Loaded) → Loaded
unfolding push_proxy
add_proxy m n (port, false) p rest = (p, false)
add_proxy m n (port, true) p rest =
    if is_positive port then push_proxy (proxy_of m n port) p rest else (p, true)

unfoldable pub load_proxies : ℕ → ℕ → ConfigMap → ServerParameters → Loaded
unfolding add_proxy
load_proxies zero n m p = (p, true)
load_proxies (suc count) n m p =
    add_proxy m n (get_optional_int m (proxy_key n (codes ".port")) (pos 0)) p
      (load_proxies count (suc n) m)

-- The tests between the loops.
abbrev pub has_port : ServerParameters → Loaded
has_port p = (p, not (length p.http_ports == 0))

unfoldable pub load_map : ConfigMap → ServerParameters → Loaded
unfolding load_numbers load_level load_type load_folders load_ports load_proxies
load_map m p = then_load (load_numbers m p) (λ p1.
    then_load (load_level (find (codes "logLevel") m) (load_folders m p1)) (λ p2.
      then_load (load_type (find (codes "logType") m) p2) (λ p3.
        then_load (load_ports 100 0 m p3) (λ p4. then_load (has_port p4) (load_proxies 100 0 m)))))

-- `load`, over the lines of the file.
unfoldable pub load_read : Option (ConfigMap × Bool) → Option Loaded
unfolding load_map
load_read none = none
load_read (some (m, true)) = some (load_map m defaults)
load_read (some (m, false)) = some (defaults, false)

unfoldable pub load : Option (List Bytes) → Option Loaded
unfolding load_read
load file = load_read (config_read_file file [])

-- ===== src/Params/Tests.antt =====
-- Runs of `load`, and the theorem at a concrete file.
use epoll_http_server.Base.{◌≡◌, refl, true, none, some, List, [], ◌∷◌, Bytes, codes, pos, negsuc}
use epoll_http_server.Http.Libc.{c_str}
use epoll_http_server.Exec.Response.{decimal}
use epoll_http_server.Http.Libc.{stoi}
use epoll_http_server.Config.{
  ConfigMap, config_read_file, on_line, passed, on_separator, on_value, trim_end, taken, find,
  insert,
}
use epoll_http_server.Params.{ServerParameters, defaults, load}
use epoll_http_server.Params.Valid.{IsLoadedFrom, load-IsLoadedFrom}

negative : stoi (codes " -12x") ≡ some (negsuc 11)
unfolding stoi
negative = refl

too_large : stoi (codes "2147483648") ≡ none
unfolding stoi
too_large = refl

abbrev small_file : List Bytes
small_file = codes "httpPort0 = 7000" ∷ codes "logFolder = /var/log" ∷ []

-- The folder for logs becomes the root folder.
abbrev small_parameters : ServerParameters
small_parameters = record defaults { root_folder = codes "/var/log"; http_ports = pos 7000 ∷ [] }

load_small : load (some small_file) ≡ some (small_parameters, true)
unfolding load config_read_file on_line passed c_str on_separator on_value trim_end taken find
    insert decimal stoi
load_small = refl

load-IsLoadedFrom_example :
    (m : ConfigMap) × (config_read_file (some small_file) [] ≡ some (m, true))
    × IsLoadedFrom m small_parameters
load-IsLoadedFrom_example = load-IsLoadedFrom (some small_file) small_parameters load_small

-- ===== src/Config/Tests.antt =====
-- Runs of the configuration reader, and the theorems at concrete texts.
use epoll_http_server.Base.{◌≡◌, refl, Bool, true, false, some, List, [], ◌∷◌, Bytes, codes, arith}
use epoll_http_server.Http.Libc.{c_str}
use epoll_http_server.Config.{
  ConfigMap, key_less, insert, config_read_string, config_read_file, read_file_lines,
  config_to_string, taken, passed, on_line, on_separator, on_value, trim_end,
}
use epoll_http_server.Config.Ascending.{IsAscending}
use epoll_http_server.Config.Returns.{config_read_string-returns}
use epoll_http_server.Config.Lines.{AreText, join_lines, read_file_lines_iff}
use epoll_http_server.Config.RoundTrip.{
  IsEntry, AreEntries, config_read_string-config_to_string, config_read_string-nine,
}

-- The second value ends with a space.
abbrev two_entries : ConfigMap
two_entries = (codes "httpPort0", codes "7000") ∷ (codes "rootFolder", codes "./data ") ∷ []

comments :
    config_read_string (codes "# ports\nhttpPort0 =  7000\n\nrootFolder=./data \n") []
    ≡ some (two_entries, true)
unfolding config_read_string passed taken on_line on_separator on_value trim_end insert c_str
comments = refl

no_separator :
    config_read_file (some (codes "a = 1" ∷ codes "b 2" ∷ codes "c = 3" ∷ [])) []
    ≡ some ((codes "a", codes "1") ∷ [], false)
unfolding config_read_file passed taken on_line on_separator on_value trim_end insert c_str
no_separator = refl

config_read_string-config_to_string_example :
    config_read_string (config_to_string two_entries) [] ≡ some (two_entries, true)
unfolding AreEntries IsEntry IsAscending key_less
config_read_string-config_to_string_example =
    config_read_string-config_to_string two_entries (ground arith) (ground arith)

config_read_string-nine_example :
    config_read_string (codes "httpPort9 = 7009") two_entries ≡ some (two_entries, false)
config_read_string-nine_example =
    config_read_string-nine (codes "httpPort") (codes " = 7009") two_entries (ground arith)

abbrev three_lines : List Bytes
three_lines = codes "# ports" ∷ codes "a = 1" ∷ codes "b 2" ∷ []

read_file_lines_iff_example :
    read_file_lines three_lines [] ≡ config_read_string (join_lines three_lines) []
unfolding AreText
read_file_lines_iff_example = read_file_lines_iff three_lines [] (ground arith)

config_read_string-returns_example :
    (out : ConfigMap × Bool) × (config_read_string (codes "a = 1") [] ≡ some out)
config_read_string-returns_example = config_read_string-returns (codes "a = 1") []

-- ===== src/Net.antt =====
-- src/utils/NetworkUtils.cpp: the sockets that the executors listen on and connect.
mod Sockets
mod Tests
use epoll_http_server.Base.{
  ℕ, Bool, true, false, not, List, [], ◌∷◌, Bytes, leb, length, if◌then◌else◌, ℤ, pos, is_negative,
  minus_one,
}
use epoll_http_server.Exec.Sys.{Errno}

-- connect(2) succeeds, or fails with an error.
pub data Connect : Type 0 where
  connected : Connect
  refused : Errno → Connect

-- What the system answers: socket(2) a descriptor or -1; setsockopt(2), bind(2) and listen(2) whether
-- they succeed.
pub record SocketAnswers : Type 0 where
  pub socket : ℤ
  pub setsockopt : Bool
  pub bind : Bool
  pub listen : Bool
  pub connect : Connect

-- The result of a function, whether it has connected, and the descriptors that it has closed.
pub record Opened : Type 0 where
  pub result : ℤ
  pub is_connected : Bool
  pub closed : List ℤ

abbrev pub gone : List ℤ → Opened
gone fds = record { result = minus_one; is_connected = false; closed = fds }

abbrev is_in_progress : Errno → Bool
is_in_progress Errno.einprogress = true
is_in_progress _ = false

-- What both functions that connect do behind socket(2).
unfoldable pub connecting : ℤ → Connect → Opened
connecting sock Connect.connected = record { result = sock; is_connected = true; closed = [] }
connecting sock (Connect.refused e) =
    if not (is_in_progress e)
    then gone (sock ∷ [])
    else record { result = sock; is_connected = false; closed = [] }

unfoldable pub socket_connect_non_block : SocketAnswers → Opened
unfolding connecting
socket_connect_non_block a = if is_negative a.socket then gone [] else connecting a.socket a.connect

-- `sizeof(addr.sun_path)`
abbrev pub sun_path_size : ℕ
sun_path_size = 108

unfoldable pub socket_connect_unix_non_block : SocketAnswers → Bytes → Opened
unfolding connecting
socket_connect_unix_non_block a path =
    if leb sun_path_size (length path)
    then gone []
    else if is_negative a.socket
    then gone []
    else connecting a.socket a.connect

unfoldable pub socket_listen : SocketAnswers → Opened
socket_listen a =
    if is_negative a.socket
    then gone []
    else if not a.setsockopt
    then gone (a.socket ∷ [])
    else if not a.bind
    then gone (a.socket ∷ [])
    else if not a.listen
    then gone (a.socket ∷ [])
    else record { result = a.socket; is_connected = false; closed = [] }

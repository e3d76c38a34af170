-- ===== src/Net/Tests.antt =====
-- The theorem on sockets where bind(2) fails.
use epoll_http_server.Base.{◌≡◌, true, false, [], codes, pos, is_negative, arith}
use epoll_http_server.Exec.Sys.{Errno}
use epoll_http_server.Net.{
  Connect, SocketAnswers, gone, socket_connect_non_block, socket_connect_unix_non_block,
  socket_listen,
}
use epoll_http_server.Net.Sockets.{IsNotLost, socket_functions-keep}

abbrev no_bind : SocketAnswers
no_bind = record {
  socket = pos 4;
  setsockopt = true;
  bind = false;
  listen = true;
  connect = Connect.refused Errno.einprogress;
}

socket_functions-keep_example :
    (is_negative (pos 4) ≡ false
      → IsNotLost (pos 4) (socket_connect_non_block no_bind)
        × IsNotLost (pos 4) (socket_connect_unix_non_block no_bind (codes "/run/app"))
        × IsNotLost (pos 4) (socket_listen no_bind))
    × (is_negative (pos 4) ≡ true
        → (socket_connect_non_block no_bind ≡ gone [])
          × (socket_connect_unix_non_block no_bind (codes "/run/app") ≡ gone [])
          × (socket_listen no_bind ≡ gone []))
socket_functions-keep_example = socket_functions-keep no_bind (codes "/run/app") (omega arith)

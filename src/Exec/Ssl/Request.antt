-- ===== src/Exec/Ssl/Request.antt =====
-- src/executors/SslRequestExecutor.cpp, of the build with USE_SSL: the handshake, and the reading of
-- an encrypted request.
use epoll_http_server.Base.{ℕ, Bool, true, false, not, Option, none, some, Bytes, if◌then◌else◌}
use epoll_http_server.Ring.{TransferRingBuffer, Region, start_write}
use epoll_http_server.Exec.Data.{State, ProcessResult}
use epoll_http_server.Exec.Sys.{Sys, Read, Errno}
use epoll_http_server.Exec.PollFds.{
  Conn, add_poll_fd, edit_poll_fd, retry, with_state, with_buffer, epollin, epollout,
}
use epoll_http_server.Exec.Request.{prepared, request_read}
use epoll_http_server.Exec.Ssl.{epoll_both}

-- `data.ssl` is not null when `has_ssl`; the state is sslHandshake when `handshaking`, and else that
-- of the connection.
pub record SslConn : Type 0 where
  pub c : Conn
  pub has_ssl : Bool
  pub handshaking : Bool

-- `ConnectionType::ssl`
abbrev pub connection_ssl : ℕ
connection_ssl = 2

-- SSL_do_handshake with SSL_get_error
pub data Handshake : Type 0 where
  done want_write want_read failed : Handshake

-- `HandleHandshakeResult`
pub data HandleHandshakeResult : Type 0 where
  ok again error : HandleHandshakeResult

-- `addPollFd` the first time, `editPollFd` later; the results are ignored.
unfoldable pub wait_for : Sys → Bool → ℕ → Conn → Conn
wait_for sys first events c =
    if first then (add_poll_fd sys c c.d.fd0 events).0 else (edit_poll_fd sys c c.d.fd0 events).0

unfoldable pub handle_handshake : Sys → Handshake → Bool → Conn → Conn × HandleHandshakeResult
unfolding wait_for
handle_handshake sys Handshake.done first c = (c, HandleHandshakeResult.ok)
handle_handshake sys Handshake.want_write first c =
    (wait_for sys first epollout c, HandleHandshakeResult.again)
handle_handshake sys Handshake.want_read first c =
    (wait_for sys first epollin c, HandleHandshakeResult.again)
handle_handshake sys Handshake.failed first c = (c, HandleHandshakeResult.error)

-- `sslInit`; `made` is whether SSL_new succeeds, `bound` whether SSL_set_fd does.
unfoldable pub ssl_init : Bool → Bool → SslConn → SslConn × Bool
ssl_init made bound s =
    if not made
    then (s, false)
    else if not bound
    then (s, false)
    else (record s { has_ssl = true }, true)

-- The end of `up`, by the result of the handshake. The Boolean is whether 0 is returned.
unfoldable pub shaken : Sys → SslConn → Conn × HandleHandshakeResult → SslConn × Bool
shaken sys s (c, HandleHandshakeResult.ok) =
    let (c', added) = add_poll_fd sys c c.d.fd0 epollin in
    if not added
    then (record s { c = c' }, false)
    else (record s { c = with_state State.read_request c' }, true)
shaken sys s (c, HandleHandshakeResult.again) = (record s { c = c; handshaking = true }, true)
shaken sys s (c, HandleHandshakeResult.error) = (record s { c = c }, false)

abbrev pub ssl_prepared : SslConn → SslConn
ssl_prepared s =
    let c = prepared s.c in
    record s { c = record c { d = record c.d { connection_type = connection_ssl } } }

unfoldable pub up : Sys → Bool → Bool → Handshake → SslConn → SslConn × Bool
unfolding ssl_init shaken handle_handshake
up sys made bound h s =
    let (s', inited) = ssl_init made bound (ssl_prepared s) in
    if not inited then (s', false) else shaken sys s' (handle_handshake sys h true s'.c)

-- `process_handshake`, by the result of the handshake.
unfoldable pub handshake_done :
    Sys → SslConn → Conn × HandleHandshakeResult → SslConn × ProcessResult
handshake_done sys s (c, HandleHandshakeResult.ok) =
    let (c', edited) = edit_poll_fd sys c c.d.fd0 epollin in
    if not edited
    then (record s { c = c' }, ProcessResult.remove_executor_error)
    else (record s { c = with_state State.read_request c'; handshaking = false }, ProcessResult.ok)
handshake_done sys s (c, HandleHandshakeResult.again) = (record s { c = retry c }, ProcessResult.ok)
handshake_done sys s (c, HandleHandshakeResult.error) =
    (record s { c = c }, ProcessResult.remove_executor_error)

unfoldable pub process_handshake : Sys → Handshake → SslConn → SslConn × ProcessResult
unfolding handshake_done handle_handshake
process_handshake sys h s = handshake_done sys s (handle_handshake sys h false s.c)

-- SSL_read with SSL_get_error
pub data SslRead : Type 0 where
  got : ℕ → Bytes → SslRead
  want_write want_read failed : SslRead

-- `readFd0`: what it leaves of the connection, and what it returns.
unfoldable pub read_fd0 : Sys → SslRead → Conn → Conn × Read
read_fd0 sys (SslRead.got b bs) c = (c, Read.got b bs)
read_fd0 sys SslRead.want_read c = (c, Read.failed Errno.eagain)
read_fd0 sys SslRead.want_write c =
    let (c', edited) = edit_poll_fd sys c c.d.fd0 epoll_both in
    (c', Read.failed (if edited then Errno.eagain else Errno.other 22))
read_fd0 sys SslRead.failed c = (c, Read.failed (Errno.other 22))

-- `readRequest`, with this `readFd0`.
unfoldable pub read_place : Sys → SslRead → Conn → TransferRingBuffer × Option Region → Conn × Bool
unfolding read_fd0 request_read
read_place sys r c (b, none) = (with_buffer b c, false)
read_place sys r c (b, some g) =
    let (c', x) = read_fd0 sys r (with_buffer b c) in request_read c' g x

unfoldable pub read_request : Sys → SslRead → Conn → Conn × Bool
unfolding read_place
read_request sys r c = read_place sys r c (start_write c.d.buffer)

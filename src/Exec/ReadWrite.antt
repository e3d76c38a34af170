-- ===== src/Exec/ReadWrite.antt =====
-- src/executors/ProxyExecutorReadWrite.cpp: a connection that is handed on to another server, through
-- the ring buffer.
pub mod Forward
pub mod Receive
pub mod Stall
use epoll_http_server.Base.{
  ℕ, ◌+◌, Bool, true, false, not, ◌&&◌, ◌||◌, Option, none, some, ◌∷◌, ◌==◌, if◌then◌else◌, ℤ,
  is_negative, int_eq,
}
use epoll_http_server.Ring.{
  TransferRingBuffer, Region, clear, start_write, end_write, start_read, end_read, read_available,
  store,
}
use epoll_http_server.Exec.Data.{State, ProcessResult, ProxyParameters, SocketType, is_state}
use epoll_http_server.Exec.Sys.{Sys, Read, Write, Errno, would_block, read_length}
use epoll_http_server.Exec.PollFds.{
  Conn, add_poll_fd, edit_poll_fd, remove_poll_fd, close_fd, retry, no_retry, with_state,
  with_buffer, is_null, has_in, has_out, epollin, epollout,
}

abbrev ok : Conn → Conn × ProcessResult
ok c = (c, ProcessResult.ok)

abbrev error : Conn → Conn × ProcessResult
error c = (c, ProcessResult.remove_executor_error)

-- A call that returns 0 on success: go on, or return `removeExecutorError`.
abbrev pub or_error : Conn × Bool → (Conn → Conn × ProcessResult) → Conn × ProcessResult
or_error (c, true) f = f c
or_error (c, false) f = (c, ProcessResult.remove_executor_error)

-- The part of `up` behind the connection's test of the socket type.
unfoldable pub connected_up : Sys → Conn → ℤ × Bool → Conn × Bool
connected_up sys c (fd, connected) =
    let c1 = record c { d = record c.d { fd1 = fd } } in
    if is_negative fd
    then (c1, false)
    else (let (c2, added) = add_poll_fd sys c1 fd epollout in
        if not added
        then (c2, false)
        else (let (c3, removed) = remove_poll_fd sys c2 c2.d.fd0 in
            if not removed then (c3, false) else (
              with_state (if connected then State.forward_request else State.wait_connect) c3,
              true,
            )))

unfoldable pub up_by_type : Sys → Conn → SocketType → Conn × Bool
up_by_type sys c SocketType.none = (c, false)
up_by_type sys c _ = connected_up sys c sys.connect

unfoldable pub up_by_proxy : Sys → Conn → Option ProxyParameters → Conn × Bool
unfolding up_by_type connected_up
up_by_proxy sys c none = (c, false)
up_by_proxy sys c (some p) = up_by_type sys c p.socket_type

-- The Boolean is whether the method returns 0.
unfoldable pub up : Sys → Conn → Conn × Bool
unfolding up_by_proxy
up sys c =
    let c' = record c { d = record c.d { remove_on_timeout = true } } in
    up_by_proxy sys c' c'.d.proxy

-- `process_forwardRequest`, by what write(2) returned for the region.
unfoldable pub request_written : Sys → Conn → Region → Write → Conn × ProcessResult
request_written sys c g (Write.moved n) =
    let sent = no_retry (with_buffer (end_read c.d.buffer (n + 1)) c) in
    if n + 1 == g.size
    then or_error
        (let c' = with_state State.forward_response (with_buffer (clear sent.d.buffer) sent) in
          edit_poll_fd sys c' c'.d.fd1 epollin)
        (λ c'. ok c')
    else ok sent
request_written sys c g (Write.nothing e) = if would_block e then ok (retry c) else error c
request_written sys c g (Write.failed e) = if would_block e then ok (retry c) else error c

unfoldable pub request_region : Sys → Conn → Option Region → Conn × ProcessResult
unfolding request_written
request_region sys c none = error c
request_region sys c (some g) = request_written sys c g sys.write

unfoldable pub process_forward_request : Sys → Conn → Conn × ProcessResult
unfolding request_region
process_forward_request sys c = request_region sys c (start_read c.d.buffer)

abbrev only_write : Conn → Bool
only_write c = is_state c.d.state State.forward_response_only_write

-- `addPollFd`, if the descriptor's `PollData` is null
abbrev pub add_if_null : Sys → Conn → Option ℕ → ℤ → ℕ → Conn × Bool
add_if_null sys c p fd events = if is_null p then add_poll_fd sys c fd events else (c, true)

-- `removePollFd`, unless the descriptor's `PollData` is null
abbrev pub remove_unless_null : Sys → Conn → Option ℕ → ℤ → Conn × Bool
remove_unless_null sys c p fd = if not (is_null p) then remove_poll_fd sys c fd else (c, true)

-- `process_forwardResponseWrite`, by what `writeFd0` returned for the region.
unfoldable pub response_refused : Sys → Conn → Errno → Conn × ProcessResult
response_refused sys c e =
    if would_block e
    then or_error (add_if_null sys c c.d.poll_data0 c.d.fd0 epollout) (λ c'. ok (retry c'))
    else error c

-- the part behind `data.buffer.endRead(bytesWritten)`
unfoldable pub response_sent : Sys → Conn → Conn × ProcessResult
response_sent sys c =
    if only_write c && not (read_available c.d.buffer)
    then (c, ProcessResult.remove_executor_ok)
    else if is_null c.d.poll_data1 && is_state c.d.state State.forward_response
    then or_error (add_poll_fd sys c c.d.fd1 epollin) (λ c'. ok c')
    else ok c

unfoldable pub response_written : Sys → Conn → Write → Conn × ProcessResult
unfolding response_refused
response_written sys c (Write.moved n) =
    response_sent sys (no_retry (with_buffer (end_read c.d.buffer (n + 1)) c))
response_written sys c (Write.nothing e) = response_refused sys c e
response_written sys c (Write.failed e) = response_refused sys c e

unfoldable pub response_region : Sys → Conn → Option Region → Conn × ProcessResult
unfolding response_written
response_region sys c (some g) = response_written sys c sys.write
response_region sys c none =
    if only_write c
    then (c, ProcessResult.remove_executor_ok)
    else or_error (remove_unless_null sys c c.d.poll_data0 c.d.fd0) (λ c'. ok (retry c'))

unfoldable pub process_forward_response_write : Sys → Conn → Conn × ProcessResult
unfolding response_region
process_forward_response_write sys c = response_region sys c (start_read c.d.buffer)

-- `process_forwardResponseRead`, by what read(2) returned for the region.
unfoldable pub response_read : Sys → Conn → Region → Read → Conn × ProcessResult
response_read sys c g (Read.got b bs) =
    let filled = end_write (store c.d.buffer g.offset (b ∷ bs)) (read_length b bs) in
    process_forward_response_write sys (no_retry (with_buffer filled c))
response_read sys c g (Read.eof e) =
    let c' = (close_fd sys c c.d.fd1).0 in
    process_forward_response_write sys (with_state State.forward_response_only_write c')
response_read sys c g (Read.failed e) = if would_block e then ok (retry c) else error c

-- The branch for a full buffer.
unfoldable pub no_place : Sys → Conn → Conn × ProcessResult
no_place sys c =
    or_error (remove_unless_null sys c c.d.poll_data1 c.d.fd1)
      (λ c1. or_error (add_if_null sys c1 c1.d.poll_data0 c1.d.fd0 epollout) (λ c2. ok (retry c2)))

unfoldable pub response_place :
    Sys → Conn → TransferRingBuffer × Option Region → Conn × ProcessResult
unfolding response_read no_place
response_place sys c (b, some g) = response_read sys (with_buffer b c) g sys.read
response_place sys c (b, none) = no_place sys (with_buffer b c)

unfoldable pub process_forward_response_read : Sys → Conn → Conn × ProcessResult
unfolding response_place
process_forward_response_read sys c = response_place sys c (start_write c.d.buffer)

-- By the result of `socketConnectNonBlockCheck`.
unfoldable pub connect_checked : Sys → Conn → Errno → Conn × ProcessResult
connect_checked sys c Errno.no_error =
    process_forward_request sys (with_state State.forward_request c)
connect_checked sys c Errno.einprogress = ok (retry c)
connect_checked sys c _ = error c

unfoldable pub process_wait_connect : Sys → Conn → Conn × ProcessResult
unfolding connect_checked
process_wait_connect sys c = connect_checked sys c sys.connect_error

unfoldable pub process : Sys → Conn → ℤ → ℕ → Conn × ProcessResult
process sys c fd events =
    let s = c.d.state in
    if is_state s State.wait_connect && int_eq fd c.d.fd1 && has_out events
    then process_wait_connect sys c
    else if is_state s State.forward_request && int_eq fd c.d.fd1 && has_out events
    then process_forward_request sys c
    else if is_state s State.forward_response && int_eq fd c.d.fd1 && has_in events
    then process_forward_response_read sys c
    else if (is_state s State.forward_response || is_state s State.forward_response_only_write)
        && int_eq fd c.d.fd0
        && has_out events
    then process_forward_response_write sys c
    else error c

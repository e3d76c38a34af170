-- ===== src/Exec/Splice.antt =====
-- src/executors/ProxyExecutorSplice.cpp: a connection that is handed on to another server; the
-- response passes through a pipe.
pub mod Waits
pub mod Watched
use epoll_http_server.Base.{
  ℕ, ◌+◌, Bool, true, false, not, ◌&&◌, ◌||◌, Option, none, some, ◌==◌, if◌then◌else◌, ℤ,
  is_negative, is_positive, is_zero, add_int, sub_int, int_eq,
}
use epoll_http_server.Ring.{Region, clear, start_read, end_read}
use epoll_http_server.Exec.Data.{State, ProcessResult, ProxyParameters, SocketType, is_state}
use epoll_http_server.Exec.Sys.{Sys, Write, Errno, would_block}
use epoll_http_server.Exec.PollFds.{
  Conn, add_poll_fd, edit_poll_fd, remove_poll_fd, close_fd, retry, no_retry, with_state,
  with_buffer, is_null, has_in, has_out, epollin, epollout,
}
use epoll_http_server.Exec.ReadWrite.{or_error, add_if_null, remove_unless_null}

abbrev ok : Conn → Conn × ProcessResult
ok c = (c, ProcessResult.ok)

abbrev error : Conn → Conn × ProcessResult
error c = (c, ProcessResult.remove_executor_error)

-- The part of `up` behind the test of the socket type.
unfoldable pub connected_up : Sys → Conn → ℤ × Bool → Conn × Bool
connected_up sys c (fd, connected) =
    let c1 = record c { d = record c.d { fd1 = fd } } in
    if is_negative fd
    then (c1, false)
    else (let (c2, added) = add_poll_fd sys c1 fd epollout in
        if not added
        then (c2, false)
        else (let (c3, removed) = remove_poll_fd sys c2 c2.d.fd0 in
            if not removed then (c3, false) else (
              with_state (if connected then State.forward_request else State.wait_connect) c3,
              true,
            )))

unfoldable pub up_by_type : Sys → Conn → SocketType → Conn × Bool
up_by_type sys c SocketType.none = (c, false)
up_by_type sys c _ = connected_up sys c sys.connect

unfoldable pub up_by_proxy : Sys → Conn → Option ProxyParameters → Conn × Bool
unfolding up_by_type connected_up
up_by_proxy sys c none = (c, false)
up_by_proxy sys c (some p) = up_by_type sys c p.socket_type

-- The Boolean is whether the method returns 0.
unfoldable pub up : Sys → Conn → Conn × Bool
unfolding up_by_proxy
up sys c =
    let c' = record c { d = record c.d { remove_on_timeout = true } } in
    up_by_proxy sys c' c'.d.proxy

-- By the result of pipe2(2). The Boolean is whether the method returns 0.
unfoldable pub open_pipe : Sys → Conn → Conn × Bool
open_pipe sys c = elim sys.pipe2 [
  | none ↦ (c, false)
  | some (reads, writes) ↦
      (record c { d = record c.d { pipe_read_fd = reads; pipe_write_fd = writes } }, true)
]

-- `process_forwardRequest`, by what write(2) returned for the region.
unfoldable pub request_written : Sys → Conn → Region → Write → Conn × ProcessResult
unfolding open_pipe
request_written sys c g (Write.moved n) =
    let sent = no_retry (with_buffer (end_read c.d.buffer (n + 1)) c) in
    if n + 1 == g.size
    then (let c' = with_state State.forward_response (with_buffer (clear sent.d.buffer) sent) in
        or_error (edit_poll_fd sys c' c'.d.fd1 epollin)
          (λ c1. or_error (open_pipe sys c1) (λ c2. ok c2)))
    else ok sent
request_written sys c g (Write.nothing e) = if would_block e then ok (retry c) else error c
request_written sys c g (Write.failed e) = if would_block e then ok (retry c) else error c

unfoldable pub request_region : Sys → Conn → Option Region → Conn × ProcessResult
unfolding request_written
request_region sys c none = error c
request_region sys c (some g) = request_written sys c g sys.write

unfoldable pub process_forward_request : Sys → Conn → Conn × ProcessResult
unfolding request_region
process_forward_request sys c = request_region sys c (start_read c.d.buffer)

-- By the result of `socketConnectNonBlockCheck`.
unfoldable pub connect_checked : Sys → Conn → Errno → Conn × ProcessResult
connect_checked sys c Errno.no_error =
    process_forward_request sys (with_state State.forward_request c)
connect_checked sys c Errno.einprogress = ok (retry c)
connect_checked sys c _ = error c

unfoldable pub process_wait_connect : Sys → Conn → Conn × ProcessResult
unfolding connect_checked
process_wait_connect sys c = connect_checked sys c sys.connect_error

abbrev only_write : Conn → Bool
only_write c = is_state c.d.state State.forward_response_only_write

-- What `process_forwardResponseWrite` does with the poll once bytes have left the pipe.
unfoldable pub pipe_left : Sys → Conn → Conn × ProcessResult
pipe_left sys c =
    if is_positive c.d.bytes_in_pipe
    then or_error (add_if_null sys c c.d.poll_data0 c.d.fd0 epollout) (λ c1. ok (retry c1))
    else if is_zero c.d.bytes_in_pipe
    then or_error (remove_unless_null sys c c.d.poll_data0 c.d.fd0)
        (λ c1. or_error (add_if_null sys c1 c1.d.poll_data1 c1.d.fd1 epollin) (λ c2. ok (retry c2)))
    else ok (retry c)

-- `process_forwardResponseWrite`, by what splice(2) returned.
unfoldable pub pipe_written : Sys → Conn → Write → Conn × ProcessResult
unfolding pipe_left
pipe_written sys c (Write.nothing e) = ok (retry c)
pipe_written sys c (Write.failed e) =
    if would_block e
    then (let c' = retry c in
        or_error (add_if_null sys c' c'.d.poll_data0 c'.d.fd0 epollout) (λ c1. ok c1))
    else error c
pipe_written sys c (Write.moved n) =
    let sent =
      no_retry
        (record c { d = record c.d { bytes_in_pipe = sub_int c.d.bytes_in_pipe (n + 1) } }) in
    if is_negative sent.d.bytes_in_pipe
    then error sent
    else if only_write sent && is_zero sent.d.bytes_in_pipe
    then (sent, ProcessResult.remove_executor_ok)
    else pipe_left sys sent

unfoldable pub process_forward_response_write : Sys → Conn → Conn × ProcessResult
unfolding pipe_written
process_forward_response_write sys c =
    if is_positive c.d.bytes_in_pipe
    then pipe_written sys c sys.splice_out
    else if only_write c
    then (c, ProcessResult.remove_executor_ok)
    else ok (retry c)

-- `process_forwardResponseRead`, by what splice(2) returned.
unfoldable pub response_spliced : Sys → Conn → Write → Conn × ProcessResult
response_spliced sys c (Write.nothing e) =
    let c' = (close_fd sys c c.d.fd1).0 in
    process_forward_response_write sys (with_state State.forward_response_only_write c')
response_spliced sys c (Write.failed e) =
    if would_block e
    then (let c' = retry c in
        or_error
          (if is_positive c'.d.bytes_in_pipe && not (is_null c'.d.poll_data1)
            then remove_poll_fd sys c' c'.d.fd1
            else (c', true))
          (λ c1. ok c1))
    else error c
response_spliced sys c (Write.moved n) =
    process_forward_response_write sys
      (no_retry (record c { d = record c.d { bytes_in_pipe = add_int c.d.bytes_in_pipe (n + 1) } }))

unfoldable pub process_forward_response_read : Sys → Conn → Conn × ProcessResult
unfolding response_spliced
process_forward_response_read sys c = response_spliced sys c sys.splice_in

unfoldable pub process : Sys → Conn → ℤ → ℕ → Conn × ProcessResult
process sys c fd events =
    let s = c.d.state in
    if is_state s State.wait_connect && int_eq fd c.d.fd1 && has_out events
    then process_wait_connect sys c
    else if is_state s State.forward_request && int_eq fd c.d.fd1 && has_out events
    then process_forward_request sys c
    else if is_state s State.forward_response && int_eq fd c.d.fd1 && has_in events
    then process_forward_response_read sys c
    else if (is_state s State.forward_response || is_state s State.forward_response_only_write)
        && int_eq fd c.d.fd0
        && has_out events
    then process_forward_response_write sys c
    else error c

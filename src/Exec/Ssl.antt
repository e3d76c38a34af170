-- ===== src/Exec/Ssl.antt =====
-- src/executors/SslFileExecutor.cpp and src/utils/SslUtils.cpp, of the build with USE_SSL: a file that
-- is copied through the ring buffer into an encrypted connection.
mod Handshaking
mod Passed
mod Request
mod Tests
use epoll_http_server.Base.{
  ℕ, suc, ◌+◌, Bool, true, false, not, ◌&&◌, ◌||◌, Option, none, some, List, [], ◌∷◌, Bytes,
  if◌then◌else◌, ℤ, int_eq, is_positive, is_zero, sub_int,
}
use epoll_http_server.Ring.{
  TransferRingBuffer, Region, start_write, end_write, start_read, end_read, store,
}
use epoll_http_server.Exec.Data.{State, ProcessResult, is_state}
use epoll_http_server.Exec.Sys.{Sys, Read, Write, Errno, read_length}
use epoll_http_server.Exec.PollFds.{
  Conn, edit_poll_fd, close_fd, retry, no_retry, with_buffer, has_in, has_out,
}
use epoll_http_server.Exec.File
use epoll_http_server.Exec.File.{headers_written}

-- SSL_write with SSL_get_error: `moved n` are n + 1 bytes.
pub data SslWrite : Type 0 where
  moved : ℕ → SslWrite
  want_write want_read failed : SslWrite

-- EPOLLIN | EPOLLOUT
abbrev pub epoll_both : ℕ
epoll_both = 5

-- `sslWriteFd0`: what it leaves of the connection, and what it returns.
unfoldable pub ssl_write_fd0 : Sys → Conn → SslWrite → Conn × Write
ssl_write_fd0 sys c (SslWrite.moved n) = (c, Write.moved n)
ssl_write_fd0 sys c SslWrite.want_write = (c, Write.failed Errno.eagain)
ssl_write_fd0 sys c SslWrite.want_read =
    let (c', done) = edit_poll_fd sys c c.d.fd0 epoll_both in
    (c', Write.failed (if done then Errno.eagain else Errno.other 22))
ssl_write_fd0 sys c SslWrite.failed = (c, Write.failed (Errno.other 22))

-- `FileExecutor::process_sendHeaders`, with this `writeFd0`.
unfoldable pub send_headers_region : Sys → SslWrite → Conn → Option Region → Conn × ProcessResult
unfolding ssl_write_fd0
send_headers_region sys w c none = (c, ProcessResult.remove_executor_error)
send_headers_region sys w c (some g) =
    let (c', result) = ssl_write_fd0 sys c w in headers_written c' g result

unfoldable pub process_send_headers : Sys → SslWrite → Conn → Conn × ProcessResult
unfolding send_headers_region
process_send_headers sys w c = send_headers_region sys w c (start_read c.d.buffer)

-- The first part of `process_sendFile`: the file is read. The Boolean is `operationOk`; `none` is the
-- return with an error.
unfoldable pub file_read : Sys → Conn → Region → Read → Conn × Option Bool
file_read sys c g (Read.got b bs) =
    (with_buffer (end_write (store c.d.buffer g.offset (b ∷ bs)) (read_length b bs)) c, some true)
file_read sys c g (Read.eof e) = ((close_fd sys c c.d.fd1).0, some false)
file_read sys c g (Read.failed e) = (c, none)

unfoldable pub file_place : Sys → Conn → TransferRingBuffer × Option Region → Conn × Option Bool
unfolding file_read
file_place sys c (b, some g) = file_read sys (with_buffer b c) g sys.read
file_place sys c (b, none) = (with_buffer b c, some false)

unfoldable pub fill : Sys → Conn → Conn × Option Bool
unfolding file_place
fill sys c =
    if is_positive c.d.fd1 then file_place sys c (start_write c.d.buffer) else (c, some false)

-- The end of `process_sendFile`.
abbrev pub counted : Bool → Conn → Conn × ProcessResult
counted operation c = (if operation then no_retry c else retry c, ProcessResult.ok)

-- The second part: the region is written.
unfoldable pub region_sent : Sys → Bool → Conn → SslWrite → Conn × ProcessResult
region_sent sys operation c (SslWrite.moved n) =
    let sent = record c {
      d = record c.d {
        buffer = end_read c.d.buffer (n + 1);
        bytes_to_send = sub_int c.d.bytes_to_send (n + 1);
      };
    } in
    if is_zero sent.d.bytes_to_send
    then (sent, ProcessResult.remove_executor_ok)
    else counted true sent
region_sent sys operation c SslWrite.want_write = (c, ProcessResult.ok)
region_sent sys operation c SslWrite.want_read =
    let (c', done) = edit_poll_fd sys c c.d.fd0 epoll_both in
    if not done then (c', ProcessResult.remove_executor_error) else counted operation c'
region_sent sys operation c SslWrite.failed = (c, ProcessResult.remove_executor_error)

unfoldable pub send_region : Sys → SslWrite → Bool → Conn → Option Region → Conn × ProcessResult
unfolding region_sent
send_region sys w operation c (some g) = region_sent sys operation c w
send_region sys w operation c none =
    if is_positive c.d.fd1 then (c, ProcessResult.remove_executor_error) else counted operation c

-- `process_sendFile`
unfoldable pub send_filled : Sys → SslWrite → Conn × Option Bool → Conn × ProcessResult
unfolding send_region
send_filled sys w (c, none) = (c, ProcessResult.remove_executor_error)
send_filled sys w (c, some operation) = send_region sys w operation c (start_read c.d.buffer)

unfoldable pub process_send_file : Sys → SslWrite → Conn → Conn × ProcessResult
unfolding send_filled fill
process_send_file sys w c = send_filled sys w (fill sys c)

-- `process`, with that of `FileExecutor` behind it.
unfoldable pub process : Sys → SslWrite → Conn → ℤ → ℕ → Conn × ProcessResult
unfolding process_send_file process_send_headers
process sys w c fd events =
    let s = c.d.state in
    if is_state s State.send_file && int_eq fd c.d.fd0 && (has_in events || has_out events)
    then process_send_file sys w c
    else if (is_state s State.send_headers || is_state s State.send_only_headers)
        && int_eq fd c.d.fd0
        && has_out events
    then process_send_headers sys w c
    else (c, ProcessResult.remove_executor_error)

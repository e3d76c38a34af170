-- ===== src/Exec/File.antt =====
-- src/executors/FileExecutor.cpp: a connection that is sent a file.
pub mod Created
pub mod Answer
pub mod Body
use epoll_http_server.Base.{
  ℕ, ◌+◌, Bool, true, false, not, ◌&&◌, ◌||◌, Option, none, some, Bytes, ◌==◌, leb, if◌then◌else◌,
  ℤ, pos, pos_part, sub_int, is_negative, is_zero, int_eq, negsuc,
}
use epoll_http_server.Ring
use epoll_http_server.Ring.{
  TransferRingBuffer, Region, start_write, end_write, start_read, end_read, store,
}
use epoll_http_server.Http.Methods.{get_if_modified_since}
use epoll_http_server.Exec.Data.{State, ProcessResult, is_state}
use epoll_http_server.Exec.Sys.{Sys, Write, Errno, would_block, is_transient}
use epoll_http_server.Exec.PollFds.{
  Conn, edit_poll_fd, retry, no_retry, with_state, with_buffer, has_out, epollout,
}
use epoll_http_server.Exec.Response.{Printed, ok200, not_found404, not_modified304}

abbrev ok : Conn → Conn × ProcessResult
ok c = (c, ProcessResult.ok)

abbrev error : Conn → Conn × ProcessResult
error c = (c, ProcessResult.remove_executor_error)

-- `createOkResponse` and `createResponse`: what is printed into the region that `startWrite` gives
-- after `clear`. The Boolean is whether the method returns 0.
unfoldable pub put_response : Conn → Region → Printed → Conn × Bool
put_response c g p =
    let written = store c.d.buffer g.offset p.bytes in
    elim p.result [
      | none ↦ (with_buffer written c, false)
      | some n ↦ (with_buffer (end_write written n) c, true)
    ]

unfoldable pub response_place :
    (ℕ → Printed) → Conn → TransferRingBuffer × Option Region → Conn × Bool
unfolding put_response
response_place print c (b, none) = (with_buffer b c, false)
response_place print c (b, some g) = put_response (with_buffer b c) g (print g.size)

unfoldable pub create : (ℕ → Printed) → Conn → Conn × Bool
unfolding response_place Ring.clear
create print c = response_place print c (start_write (Ring.clear c.d.buffer))

-- The status codes that `createResponse` knows.
pub data HttpCode : Type 0 where
  not_found not_modified : HttpCode

abbrev pub print_code : HttpCode → ℕ → Printed
print_code HttpCode.not_found = not_found404
print_code HttpCode.not_modified = not_modified304

unfoldable pub create_response : Conn → HttpCode → Conn × Bool
unfolding create
create_response c code = create (print_code code) c

-- Calls in sequence, each of which returns 0 on success.
abbrev pub and_then : Conn × Bool → (Conn → Conn × Bool) → Conn × Bool
and_then (c, true) f = f c
and_then (c, false) f = (c, false)

-- `<=` on `time_t`, for the time of a file
abbrev pub not_after : ℕ → ℤ → Bool
not_after last_modified (pos t) = leb last_modified t
not_after last_modified (negsuc t) = false

-- `strptime` with `timegm`, and `strftime`, of the C library, are the parameters.
module _ (strptime_gmt : Bytes → Option ℤ) (strftime_gmt : ℕ → Bytes) where
  unfoldable pub create_ok_response : Conn → ℕ → Conn × Bool
  unfolding create
  create_ok_response c last_modified =
      create (λ size. ok200 size (pos_part c.d.bytes_to_send) (strftime_gmt last_modified)) c

  -- the part of `up` behind a successful open(2)
  unfoldable pub opened : Sys → Conn → Option (ℕ × ℕ) → Conn × Bool
  opened sys c none = (c, false)
  opened sys c (some (size, last_modified)) =
      let c1 = record c { d = record c.d { bytes_to_send = pos size } } in
      let made =
        if not_after last_modified (get_if_modified_since strptime_gmt c1.d.request)
        then and_then (create_response c1 HttpCode.not_modified)
            (λ c2. (with_state State.send_only_headers c2, true))
        else and_then (create_ok_response c1 last_modified)
            (λ c2. (with_state State.send_headers c2, true)) in
      and_then made (λ c3. edit_poll_fd sys c3 c3.d.fd0 epollout)

  -- the branch for a failing open(2)
  unfoldable pub not_opened : Sys → Conn → Errno → Conn × Bool
  not_opened sys c Errno.enoent = and_then (create_response c HttpCode.not_found) (λ c1.
      and_then (edit_poll_fd sys c1 c1.d.fd0 epollout)
        (λ c2. (with_state State.send_only_headers c2, true)))
  not_opened sys c _ = (c, false)

  -- The Boolean is whether the method returns 0.
  unfoldable pub up : Sys → Conn → Conn × Bool
  unfolding opened not_opened
  up sys c =
      let (fd, errno) = sys.open_file in
      let c' = record c { d = record c.d { remove_on_timeout = true; fd1 = fd } } in
      if is_negative fd then not_opened sys c' errno else opened sys c' sys.fstat

-- `process_sendHeaders`, by what `writeFd0` returned for the region.
unfoldable pub headers_written : Conn → Region → Write → Conn × ProcessResult
headers_written c g (Write.moved n) =
    let sent = no_retry (with_buffer (end_read c.d.buffer (n + 1)) c) in
    if n + 1 == g.size
    then (let cleared = with_buffer (Ring.clear sent.d.buffer) sent in
        if is_state cleared.d.state State.send_only_headers
        then (cleared, ProcessResult.remove_executor_ok)
        else ok (with_state State.send_file cleared))
    else ok sent
headers_written c g (Write.nothing e) = if not (is_transient e) then error c else ok (retry c)
headers_written c g (Write.failed e) = if not (is_transient e) then error c else ok (retry c)

unfoldable pub headers_region : Sys → Conn → Option Region → Conn × ProcessResult
unfolding headers_written Ring.clear
headers_region sys c none = error c
headers_region sys c (some g) = headers_written c g sys.write

unfoldable pub process_send_headers : Sys → Conn → Conn × ProcessResult
unfolding headers_region
process_send_headers sys c = headers_region sys c (start_read c.d.buffer)

-- sendfile(2) advances `filePosition` by what it sent.
unfoldable pub file_sent : Conn → Write → Conn × ProcessResult
file_sent c (Write.moved n) =
    let sent = no_retry (record c {
      d = record c.d {
        file_position = c.d.file_position + (n + 1);
        bytes_to_send = sub_int c.d.bytes_to_send (n + 1);
      };
    }) in
    if is_zero sent.d.bytes_to_send then (sent, ProcessResult.remove_executor_ok) else ok sent
file_sent c (Write.nothing e) = if would_block e then ok (retry c) else error c
file_sent c (Write.failed e) = if would_block e then ok (retry c) else error c

unfoldable pub process_send_file : Sys → Conn → Conn × ProcessResult
unfolding file_sent
process_send_file sys c = file_sent c sys.sendfile

unfoldable pub process : Sys → Conn → ℤ → ℕ → Conn × ProcessResult
process sys c fd events =
    let s = c.d.state in
    if (is_state s State.send_headers || is_state s State.send_only_headers)
      && int_eq fd c.d.fd0
      && has_out events
    then process_send_headers sys c
    else if is_state s State.send_file && int_eq fd c.d.fd0 && has_out events
    then process_send_file sys c
    else error c

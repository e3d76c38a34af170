-- ===== src/Exec/File/Body.antt =====
-- src/executors/FileExecutor.cpp: one call of sendfile(2) in `process_sendFile`, and the end of the
-- connection.
use epoll_http_server.Base.{ℕ, ◌+◌, ◌-◌, ◌<◌, ◌≡◌, ◌↔◌, arith, pos}
use epoll_http_server.Exec.Data.{ProcessResult}
use epoll_http_server.Exec.Sys.{Sys, Write}
use epoll_http_server.Exec.PollFds.{Conn}
use epoll_http_server.Exec.ReadWrite.Forward.{AtMost, taken_by}
use epoll_http_server.Exec.File.{file_sent, process_send_file}

-- `n` of the `k` bytes that were left have been sent, from the position on.
pub record SendsPart (k n : ℕ) (c : Conn) (out : Conn × ProcessResult) : Type 0 where
  pub left : out.0.d.bytes_to_send ≡ pos (k - n)
  pub position : out.0.d.file_position ≡ c.d.file_position + n
  pub finished : (out.1 ≡ ProcessResult.remove_executor_ok) ↔ ((0 < k) × (n ≡ k))

sent-SendsPart :
    (c : Conn) (w : Write) (k : ℕ)
    → c.d.bytes_to_send ≡ pos k
    → AtMost w k
    → SendsPart k (taken_by w) c (file_sent c w)
unfolding file_sent
sent-SendsPart c (Write.moved n) k e le = ground arith
sent-SendsPart c (Write.nothing x) k e le = ground arith
sent-SendsPart c (Write.failed x) k e le = ground arith

-- `process_sendFile`, with `k` bytes left, of which sendfile(2) takes no more than there are: the
-- count and the position in the file move by what was taken, and the handler ends the connection as
-- served exactly if this was all of them and there were some.
pub process_send_file-SendsPart :
    (sys : Sys) (c : Conn) (k : ℕ)
    → c.d.bytes_to_send ≡ pos k
    → AtMost sys.sendfile k
    → SendsPart k (taken_by sys.sendfile) c (process_send_file sys c)
unfolding process_send_file
process_send_file-SendsPart sys c k e le = sent-SendsPart c sys.sendfile k e le

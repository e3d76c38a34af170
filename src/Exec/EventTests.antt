-- ===== src/Exec/EventTests.antt =====
-- The events that the proxies wait for, at concrete connections.
use epoll_http_server.Base.{none, some, [], ◌∷◌, ◌≡◌, refl, arith, pos, inl}
use epoll_http_server.Ring.{Region, start_read}
use epoll_http_server.Exec.Data.{State}
use epoll_http_server.Exec.Sys.{Sys, Read, Write, Errno}
use epoll_http_server.Exec.PollFds.{Conn}
use epoll_http_server.Exec.PollFds.Registered.{Apart}
use epoll_http_server.Exec.Splice
use epoll_http_server.Exec.Splice.Waits.{Watched, LeavesWatched}
use epoll_http_server.Exec.Splice.Watched.{process-Watched}
use epoll_http_server.Exec.ReadWrite.{process}
use epoll_http_server.Exec.ReadWrite.Stall.{Stalled, process-Stalled}
use epoll_http_server.Exec.Tests.{answers, forwarding}

-- The server's end delivers 100 bytes, and the client takes 40.
abbrev pipe_answers : Sys
pipe_answers = record answers { splice_in = Write.moved 99; splice_out = Write.moved 39 }

-- No byte is in the pipe, and the server's descriptor is registered.
abbrev piped : Conn
piped = record forwarding { d = record forwarding.d { poll_data0 = none } }

piped-Apart : Apart piped
piped-Apart = record { open0 = refl; fds = refl; pointers = λ e. refl }

piped-Watched : Watched piped
piped-Watched = record { count = refl; client = λ e. absurd (cc e); server = λ z s. refl }

process-Watched_example : LeavesWatched (Splice.process pipe_answers piped (pos 6) 1)
process-Watched_example =
    process-Watched pipe_answers piped (pos 6) 1 (inl refl) piped-Apart piped-Watched tt

-- Two bytes of a request wait for the server.
abbrev requesting : Conn
requesting = record forwarding {
  d = record forwarding.d { state = State.forward_request; poll_data0 = none };
}

abbrev both : Region
both = record { offset = 0; size = 2 }

requesting-start_read : start_read requesting.d.buffer ≡ some both
unfolding start_read
requesting-start_read = refl

-- The server takes both, then sends three bytes, and then closes its end; the client takes one byte
-- each time.
abbrev takes_both : Sys
takes_both = record answers { write = Write.moved 1 }

abbrev sends_three : Sys
sends_three = record answers { read = Read.got 7 (8 ∷ 9 ∷ []); write = Write.moved 0 }

abbrev sends_end : Sys
sends_end = record answers { read = Read.eof Errno.no_error; write = Write.moved 0 }

process-Stalled_example :
    let c1 = (process takes_both requesting requesting.d.fd1 4).0 in
    let c2 = (process sends_three c1 c1.d.fd1 1).0 in Stalled (process sends_end c2 c2.d.fd1 1)
process-Stalled_example =
    process-Stalled takes_both sends_three sends_end requesting both 1 7 0 0 (8 ∷ 9 ∷ [])
      Errno.no_error refl refl refl refl requesting-start_read refl refl refl refl refl
      (omega arith) refl refl (omega arith) (λ fd. refl)

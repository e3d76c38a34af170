-- ===== src/Exec/Ssl/Tests.antt =====
-- The executors of encrypted connections at concrete answers.
use epoll_http_server.Base.{true, false, pos, [], ◌∷◌, refl, arith}
use epoll_http_server.Storage.{allocate}
use epoll_http_server.Ring.{start_write, end_write, start_read}
use epoll_http_server.Exec.Data.{new_data}
use epoll_http_server.Exec.Sys.{Sys}
use epoll_http_server.Exec.Ssl.Request.{SslConn, Handshake, process_handshake, up}
use epoll_http_server.Exec.Ssl.Handshaking.{Advances, process_handshake-Advances, Starts, up-Starts}
use epoll_http_server.Exec.Tests.{
  answers, two_waiting, forwarding, room, two_waiting-IsValid, two_waiting-start_write,
}
use epoll_http_server.Exec.ReadWrite.Receive.{Passes, filled}
use epoll_http_server.Exec.Ssl.{SslWrite, process_send_file}
use epoll_http_server.Exec.Ssl.Passed.{SslFits, process_send_file-Passes}

taken-fits : SslFits (SslWrite.moved 0) (filled answers.read (start_write two_waiting).0 room)
unfolding start_write end_write start_read
taken-fits g h = ground (arith, h)

process_send_file-Passes_example :
    Passes 1 two_waiting
      (3 ∷ 4 ∷ [])
      (process_send_file answers (SslWrite.moved 0) forwarding).0.d.buffer
process_send_file-Passes_example =
    process_send_file-Passes answers (SslWrite.moved 0) forwarding room refl two_waiting-IsValid
      two_waiting-start_write (omega arith) taken-fits

-- A connection that waits in the handshake, and one that comes up while epoll_ctl(2) refuses it.
abbrev shaking : SslConn
shaking = record { c = forwarding; has_ssl = true; handshaking = true }

abbrev coming : SslConn
coming = record {
  c = record forwarding { d = record new_data { fd0 = pos 5 } };
  has_ssl = false;
  handshaking = false;
}

abbrev refusing : Sys
refusing = record answers { epoll_add = λ fd. false }

process_handshake-Advances_example :
    Advances Handshake.want_write shaking (process_handshake answers Handshake.want_write shaking)
process_handshake-Advances_example =
    process_handshake-Advances answers Handshake.want_write shaking refl refl

up-Starts_example :
    Starts refusing Handshake.want_read coming (up refusing true true Handshake.want_read coming)
unfolding allocate
up-Starts_example = up-Starts refusing Handshake.want_read coming 0 refl refl refl refl

-- ===== src/Exec/FileTests.antt =====
-- The file executor at concrete answers of the operating system.
use epoll_http_server.Base.{
  ℕ, Bytes, Option, none, some, ◌≡◌, refl, arith, pos, true, codes, replicate, minus_one, ℤ,
}
use epoll_http_server.Ring.{start_write, end_write, store, clear}
use epoll_http_server.Ring.Bounds.{IsValid}
use epoll_http_server.Http.Methods.{get_if_modified_since, get_header_value, find_header}
use epoll_http_server.Exec.Data.{State}
use epoll_http_server.Exec.Sys.{Sys, Write, Errno}
use epoll_http_server.Exec.PollFds.{Conn, edit_poll_fd}
use epoll_http_server.Exec.Response.{snprintf, digits, decimal, ok200_text, ok200}
use epoll_http_server.Exec.File.{
  up, process_send_file, opened, create_ok_response, create, response_place, put_response,
}
use epoll_http_server.Exec.File.Answer.{Answered, answer, up-Answered}
use epoll_http_server.Exec.File.Body.{SendsPart, process_send_file-SendsPart}
use epoll_http_server.Exec.Tests.{answers, forwarding}

abbrev no_time : Bytes → Option ℤ
no_time text = none

abbrev some_day : ℕ → Bytes
some_day t = codes "Thu, 01 Jan 1970 00:00:00 GMT"

-- A file of seven bytes, of which sendfile(2) takes three.
abbrev file_answers : Sys
file_answers = record answers {
  open_file = (pos 9, Errno.no_error);
  fstat = some (7, 1);
  sendfile = Write.moved 2;
}

abbrev asked : Conn
asked = record forwarding {
  d = record forwarding.d {
    buffer = record { buf = replicate 200 0; read_head = 0; write_head = 0; buf_size = 200 };
    poll_data1 = none;
    fd1 = minus_one;
  };
}

asked-IsValid : IsValid asked.d.buffer
asked-IsValid = record { allocated = refl; write_in = omega arith; read_in = omega arith }

asked-up : (up no_time some_day file_answers asked).1 ≡ true
unfolding up opened create_ok_response create response_place put_response edit_poll_fd ok200
    ok200_text snprintf decimal digits get_if_modified_since get_header_value find_header
    start_write end_write store clear
asked-up = refl

up-Answered_example :
    Answered
      (up no_time some_day file_answers asked).0
      (answer no_time some_day file_answers asked.d.request)
up-Answered_example = up-Answered no_time some_day file_answers asked asked-IsValid asked-up

abbrev sending : Conn
sending = record forwarding {
  d = record forwarding.d { state = State.send_file; bytes_to_send = pos 7 };
}

process_send_file-SendsPart_example : SendsPart 7 3 sending (process_send_file file_answers sending)
process_send_file-SendsPart_example =
    process_send_file-SendsPart file_answers sending 7 refl (omega arith)

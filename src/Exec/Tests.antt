-- ===== src/Exec/Tests.antt =====
-- The proxy at concrete answers of the operating system.
use epoll_http_server.Base.{
  codes, ◌++◌, Bytes, Option, true, false, none, some, [], ◌∷◌, ◌≡◌, refl, arith, pos, minus_one,
}
use epoll_http_server.Ring.{TransferRingBuffer, Region, start_write, end_write, start_read, store}
use epoll_http_server.Ring.Bounds.{IsValid}
use epoll_http_server.Storage.{BlockStorage}
use epoll_http_server.Storage
use epoll_http_server.Exec.Data.{State, new_data}
use epoll_http_server.Exec.Sys.{Sys, Read, Write, Errno}
use epoll_http_server.Exec.PollFds.{Conn, poll_down}
use epoll_http_server.Http.Chars.{check_url_symbols, read_url_symbols, read_header_key_symbols}
use epoll_http_server.Http.Libc.{c_str, atoi, strncasecmp, to_lower}
use epoll_http_server.Http.Readers.{
  read_method, read_spaces, read_url, read_to_next_line, read_header_key, read_header_space,
  read_header_value, read_header_line_break, pass_breaks, next_line, line_break,
}
use epoll_http_server.Http.Parser.{
  parse_internal, step_in, on_method, on_space_after_method, on_url, on_space_after_url,
  on_header_key, on_header_space, on_header_value, on_header_line_break,
}
use epoll_http_server.Http.Methods.{parse, get_url, after_internal, post_parse}
use epoll_http_server.Http.Url.{
  check_url, check_chars, decode_pair, hex2int, reserve, decode_url, percent_decode,
}
use epoll_http_server.Exec.Request.{
  LoopNames, ParseRequestResult, parse_request, parse_region, parsed, accepted, name_file, strcmp,
  find_proxy,
}
use epoll_http_server.Exec.Request.Served.{Serves, parse_request-Serves}
use epoll_http_server.Exec.ReadWrite.{process_forward_response_read, process_forward_response_write}
use epoll_http_server.Exec.ReadWrite.Forward.{
  WriteFits, Sends, process_forward_response_write-Sends,
}
use epoll_http_server.Exec.ReadWrite.Receive.{Passes, filled, process_forward_response_read-Passes}

-- read(2) delivers 3 and 4, and write(2) takes one byte.
abbrev pub answers : Sys
answers = record {
  read = Read.got 3 (4 ∷ []);
  write = Write.moved 0;
  splice_in = Write.nothing Errno.no_error;
  splice_out = Write.nothing Errno.no_error;
  epoll_add = λ fd. true;
  epoll_mod = λ fd. true;
  epoll_del = λ fd. true;
  connect = (minus_one, false);
  connect_error = Errno.no_error;
  pipe2 = none;
  open_file = (minus_one, Errno.enoent);
  fstat = none;
  sendfile = Write.nothing Errno.no_error;
  listen = minus_one;
  accept = none;
  eventfd_read = false;
}

abbrev pub two_waiting : TransferRingBuffer
two_waiting = record { buf = 1 ∷ 2 ∷ 0 ∷ 0 ∷ 0 ∷ []; read_head = 0; write_head = 2; buf_size = 5 }

abbrev pub forwarding : Conn
forwarding = record {
  self = 1;
  d = record new_data {
    state = State.forward_response;
    fd0 = pos 5;
    fd1 = pos 6;
    poll_data0 = some 0;
    poll_data1 = some 1;
    buffer = two_waiting;
  };
  polls = record {
    storage = Storage.empty;
    item = λ p. poll_down;
    num_of_poll_fds = pos 2;
    interest = λ fd. none;
  };
}

pub two_waiting-IsValid : IsValid two_waiting
two_waiting-IsValid = omega arith

abbrev pub room : Region
room = record { offset = 2; size = 3 }

pub two_waiting-start_write : (start_write two_waiting).1 ≡ some room
unfolding start_write
two_waiting-start_write = refl

waiting-fits : WriteFits answers two_waiting
unfolding start_read
waiting-fits g e = ground arith

filled-fits : WriteFits answers (filled answers.read (start_write two_waiting).0 room)
unfolding start_write start_read end_write store
filled-fits g e = ground arith

process_forward_response_write-Sends_example :
    Sends 1 two_waiting (process_forward_response_write answers forwarding).0.d.buffer
process_forward_response_write-Sends_example =
    process_forward_response_write-Sends answers forwarding two_waiting-IsValid waiting-fits

process_forward_response_read-Passes_example :
    Passes 1 two_waiting (3 ∷ 4 ∷ []) (process_forward_response_read answers forwarding).0.d.buffer
process_forward_response_read-Passes_example =
    process_forward_response_read-Passes answers forwarding room two_waiting-IsValid
      two_waiting-start_write (omega arith) filled-fits

-- The loop names a file for a request that waits in the buffer.
abbrev request_text : Bytes
request_text =
    codes "GET /a HTTP/1.1"
    ++ b'\r' ∷ b'\n' ∷ (codes "Host: b" ++ b'\r' ∷ b'\n' ∷ b'\r' ∷ b'\n' ∷ [])

abbrev requesting : Conn
requesting = record forwarding {
  d = record new_data {
    state = State.read_request;
    buffer = record { buf = request_text; read_head = 0; write_head = 28; buf_size = 28 };
  };
}

abbrev names : LoopNames
names = record { proxies = []; file_name = codes "/srv/www/old"; root_folder_length = 9 }

-- `parse_request`, opened down to its last helper, for the tests.
computed : Conn → LoopNames → Option (Conn × LoopNames × ParseRequestResult)
unfolding parse_request parse_region parsed accepted name_file start_read strcmp find_proxy parse
    parse_internal step_in on_method read_method on_space_after_method read_spaces on_url read_url
    read_url_symbols on_space_after_url read_to_next_line next_line pass_breaks on_header_key
    read_header_key check_url_symbols read_header_key_symbols atoi c_str strncasecmp to_lower
    after_internal post_parse on_header_line_break on_header_space on_header_value line_break
    read_header_line_break read_header_space read_header_value check_chars check_url decode_pair
    decode_url hex2int percent_decode reserve get_url
computed c ns = parse_request c ns

served : Conn × LoopNames × ParseRequestResult
unfolding computed
served = elim (parse_request requesting names) [
  | none ↦ (requesting, names, ParseRequestResult.again)
  | some out ↦ out
]

parse_request-served : parse_request requesting names ≡ some served
unfolding computed served
parse_request-served = refl

served-file : (served.2 ≡ ParseRequestResult.file) × (served.1.file_name ≡ codes "/srv/www//a")
unfolding computed served
served-file = (refl, refl)

parse_request-Serves_example : Serves names served.1
parse_request-Serves_example =
    parse_request-Serves requesting names parse_request-served served-file.0

-- ===== src/Exec/Request.antt =====
-- src/executors/RequestExecutor.cpp: a connection whose request is being read.
pub mod Served
use Prim.Native.Nat.{bit_and}
use epoll_http_server.Base.{
  ℕ, ◌+◌, ◌*◌, Bool, true, false, not, ◌&&◌, Option, none, some, List, [], ◌∷◌, ◌++◌, Bytes, ◌==◌,
  leb, if◌then◌else◌, ℤ, int_eq, codes, length, take,
}
use epoll_http_server.Ring
use epoll_http_server.Ring.{
  TransferRingBuffer, Region, start_write, end_write, start_read, store, load,
}
use epoll_http_server.Http.Request.{HttpRequest, ParseResult, reset}
use epoll_http_server.Http.Methods.{parse, get_url}
use epoll_http_server.Http.Url.{is_url_prefix}
use epoll_http_server.Exec.Data.{
  State, ProcessResult, ProxyParameters, Executor, ExecutorType, is_state, request_buffer_size,
  connection_clear,
}
use epoll_http_server.Exec.Sys.{Sys, Read, is_transient, read_length}
use epoll_http_server.Exec.PollFds.{
  Conn, add_poll_fd, retry, no_retry, with_state, with_buffer, has_in, epollin,
}
use epoll_http_server.Exec.File
use epoll_http_server.Exec.Splice

-- What the handler reads and writes of the loop: `parameters->proxies`, the C string in
-- `fileNameBuffer`, and `rootFolderLength`.
pub record LoopNames : Type 0 where
  pub proxies : List ProxyParameters
  pub file_name : Bytes
  pub root_folder_length : ℕ

abbrev pub max_file_name : ℕ
max_file_name = 300

pub data ParseRequestResult : Type 0 where
  again file proxy invalid : ParseRequestResult

abbrev error : Conn → Conn × ProcessResult
error c = (c, ProcessResult.remove_executor_error)

-- The connection as `up` prepares it.
abbrev pub prepared : Conn → Conn
prepared c = record c {
  d = record c.d {
    remove_on_timeout = true;
    connection_type = connection_clear;
    buffer = Ring.init c.d.buffer request_buffer_size;
    request = reset c.d.request;
  };
}

-- The Boolean is whether the method returns 0.
unfoldable pub up : Sys → Conn → Conn × Bool
unfolding Ring.init reset
up sys c =
    let c1 = prepared c in
    let (c2, added) = add_poll_fd sys c1 c1.d.fd0 epollin in
    if not added then (c2, false) else (with_state State.read_request c2, true)

-- `readRequest`, by what `readFd0` returned for the region. The Boolean is whether it returns 0.
unfoldable pub request_read : Conn → Region → Read → Conn × Bool
request_read c g (Read.got b bs) =
    let filled = end_write (store c.d.buffer g.offset (b ∷ bs)) (read_length b bs) in
    (no_retry (with_buffer filled c), true)
request_read c g (Read.eof e) = if not (is_transient e) then (c, false) else (retry c, true)
request_read c g (Read.failed e) = if not (is_transient e) then (c, false) else (retry c, true)

unfoldable pub request_place : Sys → Conn → TransferRingBuffer × Option Region → Conn × Bool
unfolding request_read
request_place sys c (b, some g) = request_read (with_buffer b c) g sys.read
request_place sys c (b, none) = (with_buffer b c, false)

unfoldable pub read_request : Sys → Conn → Conn × Bool
unfolding request_place
read_request sys c = request_place sys c (start_write c.d.buffer)

unfoldable pub find_proxy : HttpRequest → List ProxyParameters → Option ProxyParameters
find_proxy r [] = none
find_proxy r (p ∷ ps) =
    let rest = find_proxy r ps in if is_url_prefix r p.prefix then some p else rest

-- `strcmp(s, t) == 0`
unfoldable pub strcmp : Bytes → Bytes → Bool
strcmp [] [] = true
strcmp (a ∷ s) (b ∷ t) = a == b && strcmp s t
strcmp _ _ = false

abbrev pub root_folder : LoopNames → Bytes
root_folder names = take names.root_folder_length names.file_name

-- The part of `parseRequest` that names the file. The name is kept whole, also where the source
-- writes "index.html" behind the end of its buffer.
unfoldable pub name_file : LoopNames → Option Bytes → LoopNames × ParseRequestResult
unfolding strcmp
name_file names none = (names, ParseRequestResult.invalid)
name_file names (some url) =
    let cut = record names { file_name = root_folder names } in
    if strcmp url (codes "/")
    then (
      record names { file_name = root_folder names ++ codes "index.html" },
      ParseRequestResult.file,
    )
    else if leb (names.root_folder_length + length url) max_file_name
    then (record names { file_name = root_folder names ++ url }, ParseRequestResult.file)
    else (cut, ParseRequestResult.invalid)

abbrev pub with_request : HttpRequest → Conn → Conn
with_request r c = record c { d = record c.d { request = r } }

-- the branch for an accepted request, by the proxy that was found
unfoldable pub accepted :
    Conn → LoopNames → Option ProxyParameters → Conn × LoopNames × ParseRequestResult
unfolding name_file
accepted c names (some p) =
    if bit_and c.d.connection_type p.connection_type == 0
    then (c, names, ParseRequestResult.invalid)
    else (record c { d = record c.d { proxy = some p } }, names, ParseRequestResult.proxy)
accepted c names none =
    let (names', result) = name_file names (get_url c.d.request) in (c, names', result)

unfoldable pub parsed :
    Conn → LoopNames → HttpRequest × ParseResult → Conn × LoopNames × ParseRequestResult
unfolding accepted find_proxy
parsed c names (r, ParseResult.finish_ok) =
    accepted (with_request r c) names (find_proxy r names.proxies)
parsed c names (r, ParseResult.need_more_data) = (with_request r c, names, ParseRequestResult.again)
parsed c names (r, ParseResult.finish_invalid) =
    (with_request r c, names, ParseRequestResult.invalid)

-- Iterations enough for any input of this length that does not hang.
abbrev pub parse_fuel : ℕ → ℕ
parse_fuel size = 6 * size + 12

-- `none` means that the parser does not return.
unfoldable pub parse_region :
    Conn → LoopNames → Option Region → Option (Conn × LoopNames × ParseRequestResult)
unfolding parsed
parse_region c names none = some (c, names, ParseRequestResult.again)
parse_region c names (some g) =
    elim (parse (parse_fuel g.size) c.d.request (load c.d.buffer g.offset g.size)) [
      | none ↦ none
      | some out ↦ some (parsed c names out)
    ]

unfoldable pub parse_request : Conn → LoopNames → Option (Conn × LoopNames × ParseRequestResult)
unfolding parse_region
parse_request c names = parse_region c names (start_read c.d.buffer)

-- `setExecutor`, with the executor's `up`, which is virtual, as an argument.
unfoldable pub set_executor : Conn → ExecutorType → (Conn → Conn × Bool) → Conn × ProcessResult
set_executor c t up_of =
    let (c', done) = up_of (record c { d = record c.d { executor = some (Executor.of_type t) } }) in
    if not done then error c' else (c', ProcessResult.ok)

-- `PollLoop::getExecutor` gives `FileExecutor` for a file and `ProxyExecutorSplice` for a proxy.
-- `strptime` with `timegm`, and `strftime`, of the C library, are the parameters.
module _ (strptime_gmt : Bytes → Option ℤ) (strftime_gmt : ℕ → Bytes) where
  unfoldable pub dispatch :
      Sys → Conn × LoopNames × ParseRequestResult → Conn × LoopNames × ProcessResult
  unfolding set_executor
  dispatch sys (c, names, ParseRequestResult.file) =
      let (c', result) = set_executor c ExecutorType.file (File.up strptime_gmt strftime_gmt sys) in
      (c', names, result)
  dispatch sys (c, names, ParseRequestResult.proxy) =
      let (c', result) = set_executor c ExecutorType.proxy (Splice.up sys) in (c', names, result)
  dispatch sys (c, names, ParseRequestResult.invalid) =
      (c, names, ProcessResult.remove_executor_error)
  dispatch sys (c, names, ParseRequestResult.again) = (c, names, ProcessResult.ok)

  -- `none` means that the parser does not return.
  unfoldable pub process_read_request :
      Sys → Conn → LoopNames → Option (Conn × LoopNames × ProcessResult)
  unfolding dispatch
  process_read_request sys c names =
      let (c', done) = read_request sys c in
      if not done
      then some (c', names, ProcessResult.remove_executor_error)
      else elim (parse_request c' names) [ none ↦ none | some out ↦ some (dispatch sys out) ]

  unfoldable pub process :
      Sys → Conn → LoopNames → ℤ → ℕ → Option (Conn × LoopNames × ProcessResult)
  process sys c names fd events =
      if is_state c.d.state State.read_request && int_eq fd c.d.fd0 && has_in events
      then process_read_request sys c names
      else some (c, names, ProcessResult.remove_executor_error)

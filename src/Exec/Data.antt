-- ===== src/Exec/Data.antt =====
-- src/ExecutorData.h, src/ExecutorData.cpp, src/ProxyParameters.h and the enumerations: the state of
-- one connection. The build is the default one, without USE_SSL.
use epoll_http_server.Base.{
  ℕ, ◌*◌, Bool, true, false, Option, Bytes, ℤ, pos, minus_one, is_positive, if◌then◌else◌,
}
use epoll_http_server.Ring
use epoll_http_server.Ring.{TransferRingBuffer}
use epoll_http_server.Http.Request.{HttpRequest, fresh}

pub data ProcessResult : Type 0 where
  ok remove_executor_ok remove_executor_error shutdown : ProcessResult

pub data ExecutorType : Type 0 where
  server request file proxy : ExecutorType

pub data SocketType : Type 0 where
  none tcp unix : SocketType

-- The values of `ConnectionType`; the source keeps them in an `int`.
abbrev pub connection_none : ℕ
connection_none = 0

abbrev pub connection_clear : ℕ
connection_clear = 1

pub record ProxyParameters : Type 0 where
  pub prefix : Bytes
  pub address : Bytes
  pub port : ℤ
  pub connection_type : ℕ
  pub socket_type : SocketType

-- `ExecutorData::State`
pub data State : Type 0 where
  invalid read_request send_headers send_file : State
  forward_request forward_response forward_response_only_write : State
  wait_connect send_only_headers ok : State

abbrev pub request_buffer_size : ℕ
request_buffer_size = 10000

abbrev pub max_retry_counter : ℕ
max_retry_counter = 1000

abbrev pub max_time_to_live_millis : ℕ
max_time_to_live_millis = 1000 * 60 * 30

-- A null `pExecutor` is `none`. `NewFdExecutor` has no `ExecutorType`: it is `new_fd`.
pub data Executor : Type 0 where
  of_type : ExecutorType → Executor
  new_fd : Executor

pub record ExecutorData : Type 0 where
  pub executor : Option Executor
  pub state : State
  pub fd0 : ℤ
  pub fd1 : ℤ
  pub poll_data0 : Option ℕ
  pub poll_data1 : Option ℕ
  pub pipe_read_fd : ℤ
  pub pipe_write_fd : ℤ
  pub bytes_in_pipe : ℤ
  pub bytes_to_send : ℤ
  pub file_position : ℕ
  pub buffer : TransferRingBuffer
  pub port : ℕ
  pub create_time : ℕ
  pub last_process_time : ℕ
  pub remove_on_timeout : Bool
  pub connection_type : ℕ
  pub retry_counter : ℕ
  pub request : HttpRequest
  pub proxy : Option ProxyParameters

-- The default values of the fields.
abbrev pub new_data : ExecutorData
new_data = record {
  executor = Option.none;
  state = State.invalid;
  fd0 = minus_one;
  fd1 = minus_one;
  poll_data0 = Option.none;
  poll_data1 = Option.none;
  pipe_read_fd = minus_one;
  pipe_write_fd = minus_one;
  bytes_in_pipe = pos 0;
  bytes_to_send = pos 0;
  file_position = 0;
  buffer = Ring.empty;
  port = 0;
  create_time = 0;
  last_process_time = 0;
  remove_on_timeout = true;
  connection_type = connection_none;
  retry_counter = 0;
  request = fresh;
  proxy = Option.none;
}

-- `if(fd > 0) { close(fd); fd = -1; }`
abbrev pub closed : ℤ → ℤ
closed fd = if is_positive fd then minus_one else fd

-- `ExecutorData::down`. The request, the port and the memory of the buffer are kept.
unfoldable pub down : ExecutorData → ExecutorData
unfolding Ring.clear
down d = record d {
  fd0 = closed d.fd0;
  fd1 = closed d.fd1;
  poll_data0 = Option.none;
  poll_data1 = Option.none;
  pipe_read_fd = closed d.pipe_read_fd;
  pipe_write_fd = closed d.pipe_write_fd;
  bytes_in_pipe = pos 0;
  state = State.invalid;
  executor = Option.none;
  bytes_to_send = pos 0;
  file_position = 0;
  buffer = Ring.clear d.buffer;
  create_time = 0;
  last_process_time = 0;
  remove_on_timeout = true;
  connection_type = connection_none;
  retry_counter = 0;
  proxy = Option.none;
}

-- `data.state == s`, for the states that the code compares with.
abbrev pub is_state : State → State → Bool
is_state State.read_request State.read_request = true
is_state State.send_headers State.send_headers = true
is_state State.send_only_headers State.send_only_headers = true
is_state State.send_file State.send_file = true
is_state State.wait_connect State.wait_connect = true
is_state State.forward_request State.forward_request = true
is_state State.forward_response State.forward_response = true
is_state State.forward_response_only_write State.forward_response_only_write = true
is_state State.invalid State.invalid = true
is_state State.ok State.ok = true
is_state _ _ = false

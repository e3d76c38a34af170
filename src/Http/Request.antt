-- ===== src/Http/Request.antt =====
-- The class's enumerations and fields, and `reset`.
use epoll_http_server.Base.{ℕ, List, [], Bytes, ℤ, pos, drop}

pub data ParseResult : Type 0 where
  finish_ok finish_invalid need_more_data : ParseResult

pub data State : Type 0 where
  method space_after_method url url_parameters space_after_url : State
  header_key header_space header_value header_line_break : State
  finish_ok content invalid : State

pub data ReadResult : Type 0 where
  invalid need_more_data ok question end_of_headers : ReadResult

pub record Field : Type 0 where
  pub start : ℕ
  pub length : ℕ

pub record Header : Type 0 where
  pub key : Field
  pub value : Field

-- `input` is the `size` bytes at `data`. `url_buffer` is the `urlBufferSize` bytes at `urlBuffer`,
-- none for a null pointer.
pub record HttpRequest : Type 0 where
  pub cur : ℕ
  pub input : Bytes
  pub state : State
  pub method_start : ℕ
  pub method_length : ℕ
  pub url_start : ℕ
  pub url_length : ℕ
  pub url_parameters_start : ℕ
  pub url_parameters_length : ℕ
  pub content_start : ℕ
  pub content_length : ℤ
  pub cur_key : Field
  pub headers : List Header
  pub url_buffer : Bytes

-- the unread bytes
abbrev pub unread : HttpRequest → Bytes
unread r = drop r.cur r.input

abbrev no_field : Field
no_field = record { start = 0; length = 0 }

-- `reset` keeps the memory of the URL.
unfoldable pub reset : HttpRequest → HttpRequest
reset r = record {
  cur = 0;
  input = [];
  state = State.method;
  method_start = 0;
  method_length = 0;
  url_start = 0;
  url_length = 0;
  url_parameters_start = 0;
  url_parameters_length = 0;
  content_start = 0;
  content_length = pos 0;
  cur_key = no_field;
  headers = [];
  url_buffer = r.url_buffer;
}

-- a new object
abbrev pub fresh : HttpRequest
fresh = record {
  cur = 0;
  input = [];
  state = State.method;
  method_start = 0;
  method_length = 0;
  url_start = 0;
  url_length = 0;
  url_parameters_start = 0;
  url_parameters_length = 0;
  content_start = 0;
  content_length = pos 0;
  cur_key = no_field;
  headers = [];
  url_buffer = [];
}

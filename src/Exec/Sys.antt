-- ===== src/Exec/Sys.antt =====
-- What the operating system answers to the calls that one invocation of a handler makes. None of
-- these calls is the program's code: a handler takes the answers as its argument.
use epoll_http_server.Base.{◌∷◌, ℕ, Bool, true, false, Option, Bytes, ℤ, length}

-- The values of `errno` that the code looks at.
pub data Errno : Type 0 where
  no_error eagain ewouldblock eintr enoent einprogress : Errno
  other : ℕ → Errno

-- `e == EAGAIN || e == EWOULDBLOCK`
abbrev pub would_block : Errno → Bool
would_block Errno.eagain = true
would_block Errno.ewouldblock = true
would_block _ = false

-- `e == EWOULDBLOCK || e == EAGAIN || e == EINTR`
abbrev pub is_transient : Errno → Bool
is_transient Errno.eintr = true
is_transient e = would_block e

-- The result of read(2): bytes, of which there is at least one; the end of the stream; or -1. With
-- the last two comes the value of `errno`, which the end of the stream leaves as it was.
pub data Read : Type 0 where
  got : ℕ → Bytes → Read
  eof : Errno → Read
  failed : Errno → Read

-- The bytes of `got c cs` are `c ∷ cs`.
abbrev pub read_length : ℕ → Bytes → ℕ
read_length c cs = length (c ∷ cs)

-- The result of write(2), splice(2) or sendfile(2): `moved n` for `n + 1` bytes, or as above.
pub data Write : Type 0 where
  moved : ℕ → Write
  nothing : Errno → Write
  failed : Errno → Write

-- The answers in one invocation. Each call occurs at most once in it, but for epoll_ctl, which
-- has one answer for each of its operations and each of the connection's two descriptors. `connect`
-- is the descriptor that `socketConnectNonBlock` or `socketConnectUnixNonBlock` returns and its
-- `connected`; `open_file` is the result of open(2) and `errno`; `fstat` is the size and the time of the
-- last change; `connect_error` is the result of `socketConnectNonBlockCheck`, `no_error` for 0; `listen`
-- is the descriptor that `socketListen` returns, `accept` the one of accept4(2), `none` for -1, and
-- `eventfd_read` whether eventfd_read(3) returns 0.
pub record Sys : Type 0 where
  pub read : Read
  pub write : Write
  pub splice_in : Write
  pub splice_out : Write
  pub epoll_add : ℤ → Bool
  pub epoll_mod : ℤ → Bool
  pub epoll_del : ℤ → Bool
  pub connect : ℤ × Bool
  pub connect_error : Errno
  pub pipe2 : Option (ℤ × ℤ)
  pub open_file : ℤ × Errno
  pub fstat : Option (ℕ × ℕ)
  pub sendfile : Write
  pub listen : ℤ
  pub accept : Option ℤ
  pub eventfd_read : Bool

-- ===== src/Loop/Handlers.antt =====
-- src/executors/ServerExecutor.cpp and src/executors/NewFdExecutor.cpp, whose `process` works on the
-- loop itself, and the call of a handler by `PollLoop::run`.
use epoll_http_server.Base.{
  ℕ, not, Option, none, some, [], ◌∷◌, ◌++◌, if◌then◌else◌, Bytes, ℤ, pos, int_eq,
}
use epoll_http_server.Exec.Data.{ExecutorType, Executor, ProcessResult}
use epoll_http_server.Exec.Sys.{Sys}
use epoll_http_server.Exec.PollFds.{Conn}
use epoll_http_server.Exec.Request.{LoopNames, max_file_name}
use epoll_http_server.Exec.Request
use epoll_http_server.Exec.File
use epoll_http_server.Exec.Splice
use epoll_http_server.Loop.{Loop, conn_of, put_conn, create_request_executor_internal, check_new_fd}

-- `strptime` with `timegm`, and `strftime`, of the C library, are the parameters.
module _ (strptime_gmt : Bytes → Option ℤ) (strftime_gmt : ℕ → Bytes) where
  -- `createRequestExecutor`: with one thread here, with more by the server.
  unfoldable pub create_request_executor : Sys → ℕ → ℤ → ExecutorType → Loop → Loop
  create_request_executor sys now fd t l =
      if int_eq l.thread_count (pos 1)
      then (create_request_executor_internal strptime_gmt strftime_gmt sys now fd t l).0
      else record l { handed = l.handed ++ record { exec_type = t; fd = fd } ∷ [] }

  -- `ServerExecutor::process`, behind accept4(2)
  unfoldable pub accepted : Sys → ℕ → Option ℤ → Loop → Loop × ProcessResult
  unfolding create_request_executor
  accepted sys now none l = (l, ProcessResult.shutdown)
  accepted sys now (some fd) l =
      (create_request_executor sys now fd ExecutorType.request l, ProcessResult.ok)

  unfoldable pub server_process : Sys → ℕ → ℕ → ℤ → Loop → Loop × ProcessResult
  unfolding accepted
  server_process sys now p fd l =
      if not (int_eq fd (l.exec p).fd0)
      then (l, ProcessResult.ok)
      else accepted sys now sys.accept l

  -- `NewFdExecutor::process`
  unfoldable pub new_fd_process : Sys → ℕ → Loop → Loop × ProcessResult
  new_fd_process sys now l =
      if not sys.eventfd_read
      then (l, ProcessResult.shutdown)
      else (check_new_fd strptime_gmt strftime_gmt sys now l, ProcessResult.ok)

  -- What a handler of a connection returns, put back into the loop.
  abbrev pub back :
      Loop → ℕ → Option (Conn × LoopNames × ProcessResult) → Option (Loop × ProcessResult)
  back l p none = none
  back l p (some (c, names, r)) = some (record (put_conn l p c) { names = names }, r)

  -- `execData->pExecutor->process(…)`. `none` means that it does not return: the parser goes round for
  -- ever, or there is no executor.
  unfoldable pub process_by :
      Sys → ℕ → ℕ → ℤ → ℕ → Loop → Option Executor → Option (Loop × ProcessResult)
  unfolding server_process new_fd_process
  process_by sys now p fd bits l none = none
  process_by sys now p fd bits l (some Executor.new_fd) = some (new_fd_process sys now l)
  process_by sys now p fd bits l (some (Executor.of_type ExecutorType.server)) =
      some (server_process sys now p fd l)
  process_by sys now p fd bits l (some (Executor.of_type ExecutorType.request)) =
      back l p (Request.process strptime_gmt strftime_gmt sys (conn_of l p) l.names fd bits)
  process_by sys now p fd bits l (some (Executor.of_type ExecutorType.file)) =
      (let (c, r) = File.process sys (conn_of l p) fd bits in back l p (some (c, l.names, r)))
  process_by sys now p fd bits l (some (Executor.of_type ExecutorType.proxy)) =
      (let (c, r) = Splice.process sys (conn_of l p) fd bits in back l p (some (c, l.names, r)))

-- ===== src/Loop.antt =====
-- src/PollLoop.cpp: the loop that waits for events and hands them to the executors. Its state, and
-- how connections come and go.
pub mod Events
pub mod Handlers
mod Forget
mod Handover
pub mod Tests
mod Shutdown
mod Timeout
use epoll_http_server.Base.{
  ℕ, ◌*◌, Bool, true, false, not, Option, none, some, List, [], ◌∷◌, ◌++◌, ◌==◌, if◌then◌else◌,
  Bytes, ℤ, pos, negsuc, suc, ◌+◌, ltb, leb, is_positive, is_negative, minus_one,
}
use epoll_http_server.Storage
use epoll_http_server.Storage.{BlockStorage, allocate, free, walk}
use epoll_http_server.Exec.Data.{
  ExecutorData, ExecutorType, Executor, State, new_data, down, max_time_to_live_millis,
}
use epoll_http_server.Exec.Sys.{Sys}
use epoll_http_server.Exec.PollFds.{
  Conn, Polls, PollData, add_poll_fd, remove_poll_fd, is_null, epollin, with_state,
}
use epoll_http_server.Exec.Request.{LoopNames}
use epoll_http_server.Exec.Request
use epoll_http_server.Exec.File
use epoll_http_server.Exec.Splice

-- `PollLoop::NewFdData`
pub record NewFd : Type 0 where
  pub exec_type : ExecutorType
  pub fd : ℤ

-- `execs` and `exec` are `execDatas` and what its items hold; `handed` is what the loop has given to
-- `srv->createRequestExecutor`, in order; `closed` the descriptors closed by `removeExecutorData` and
-- `checkNewFd`. `is_open` is whether `epollFd` and `eventFd` are.
pub record Loop : Type 0 where
  pub execs : BlockStorage
  pub exec : ℕ → ExecutorData
  pub polls : Polls
  pub names : LoopNames
  pub new_fds : List NewFd
  pub handed : List NewFd
  pub closed : List ℤ
  pub thread_count : ℤ
  pub executor_timeout_millis : ℤ
  pub last_check_timeout_millis : ℕ
  pub is_open : Bool

abbrev pub exec_block_size : ℕ
exec_block_size = 0x400

abbrev pub update_exec : (ℕ → ExecutorData) → ℕ → ExecutorData → ℕ → ExecutorData
update_exec f p v q = if p == q then v else f q

-- A connection taken out of the loop for a handler, and put back.
abbrev pub conn_of : Loop → ℕ → Conn
conn_of l p = record { self = p; d = l.exec p; polls = l.polls }

abbrev pub put_conn : Loop → ℕ → Conn → Loop
put_conn l p c = record l { exec = update_exec l.exec p c.d; polls = c.polls }

-- What follows `execDatas.allocate()`, which returns no null pointer.
unfoldable pub allocated_exec : ℕ → Loop → BlockStorage × Option ℕ → Loop × Option ℕ
allocated_exec now l (s, none) = (record l { execs = s }, none)
allocated_exec now l (s, some p) = (
  record l {
    execs = s;
    exec = update_exec l.exec p (record (l.exec p) { create_time = now; last_process_time = now });
  },
  some p,
)

unfoldable pub create_executor_data : ℕ → Loop → Loop × Option ℕ
unfolding allocated_exec
create_executor_data now l = allocated_exec now l (allocate exec_block_size l.execs)

-- The descriptors that `ExecutorData::down` closes.
abbrev pub open_fds : List ℤ → List ℤ
open_fds [] = []
open_fds (fd ∷ fds) = if is_positive fd then fd ∷ open_fds fds else open_fds fds

abbrev pub down_closes : ExecutorData → List ℤ
down_closes d = open_fds (d.fd0 ∷ d.fd1 ∷ d.pipe_read_fd ∷ d.pipe_write_fd ∷ [])

-- The two calls of `removePollFd` in `removeExecutorData`, whose results are ignored.
unfoldable pub remove_fd0 : Sys → Conn → Conn
remove_fd0 sys c = if not (is_null c.d.poll_data0) then (remove_poll_fd sys c c.d.fd0).0 else c

unfoldable pub remove_fd1 : Sys → Conn → Conn
remove_fd1 sys c = if not (is_null c.d.poll_data1) then (remove_poll_fd sys c c.d.fd1).0 else c

unfoldable pub remove_executor_data : Sys → ℕ → Loop → Loop
unfolding remove_fd0 remove_fd1 down
remove_executor_data sys p l =
    let c = remove_fd1 sys (remove_fd0 sys (conn_of l p)) in
    record l {
      execs = free l.execs p;
      exec = update_exec l.exec p (down c.d);
      polls = c.polls;
      closed = l.closed ++ down_closes c.d;
    }

-- `ServerExecutor::up`
unfoldable pub server_up : Sys → Conn → Conn × Bool
server_up sys c =
    let c1 = record c {
      d = record c.d { remove_on_timeout = false; state = State.ok; fd0 = sys.listen };
    } in
    if is_negative sys.listen then (c1, false) else add_poll_fd sys c1 c1.d.fd0 epollin

-- `NewFdExecutor::up`
unfoldable pub new_fd_up : Conn → Conn
new_fd_up c = record c { d = record c.d { remove_on_timeout = false; state = State.ok } }

-- `strptime` with `timegm`, and `strftime`, of the C library, are the parameters.
module _ (strptime_gmt : Bytes → Option ℤ) (strftime_gmt : ℕ → Bytes) where
  -- `pExecutor->up`, by what `getExecutor` returns for the type.
  unfoldable pub up_of : Sys → ExecutorType → Conn → Conn × Bool
  unfolding server_up Request.up
  up_of sys ExecutorType.request c = Request.up sys c
  up_of sys ExecutorType.file c = File.up strptime_gmt strftime_gmt sys c
  up_of sys ExecutorType.proxy c = Splice.up sys c
  up_of sys ExecutorType.server c = server_up sys c

  -- The end of `createRequestExecutorInternal` and of `listenPort`. The Boolean is whether they
  -- return 0.
  unfoldable pub brought_up : Sys → ℕ → Loop → Conn × Bool → Loop × Bool
  brought_up sys p l (c, true) = (put_conn l p c, true)
  brought_up sys p l (c, false) = (remove_executor_data sys p (put_conn l p c), false)

  unfoldable pub start_request : Sys → ℤ → ExecutorType → Loop × Option ℕ → Loop × Bool
  unfolding brought_up
  start_request sys fd t (l, none) = (l, false)
  start_request sys fd t (l, some p) =
      let d = record (l.exec p) { executor = some (Executor.of_type t); fd0 = fd } in
      brought_up sys p l (up_of sys t (record { self = p; d = d; polls = l.polls }))

  unfoldable pub create_request_executor_internal : Sys → ℕ → ℤ → ExecutorType → Loop → Loop × Bool
  unfolding start_request
  create_request_executor_internal sys now fd t l =
      start_request sys fd t (create_executor_data now l)

  -- `listenPort` does not test for a null pointer, which `allocate` never returns.
  unfoldable pub start_listening : Sys → ℕ → ExecutorType → Loop × Option ℕ → Loop × Bool
  unfolding brought_up
  start_listening sys port t (l, none) = (l, false)
  start_listening sys port t (l, some p) =
      let d = record (l.exec p) { executor = some (Executor.of_type t); port = port } in
      brought_up sys p l (up_of sys t (record { self = p; d = d; polls = l.polls }))

  unfoldable pub listen_port : Sys → ℕ → ℕ → ExecutorType → Loop → Loop × Bool
  unfolding start_listening
  listen_port sys now port t l = start_listening sys port t (create_executor_data now l)

  -- `checkNewFd`, over the queue; a descriptor whose executor does not come up is closed.
  unfoldable pub take_new_fds : Sys → ℕ → List NewFd → Loop → Loop
  take_new_fds sys now [] l = l
  take_new_fds sys now (n ∷ ns) l =
      let (l', done) = create_request_executor_internal sys now n.fd n.exec_type l in
      let l'' = if done then l' else record l' { closed = l'.closed ++ n.fd ∷ [] } in
      take_new_fds sys now ns l''

  unfoldable pub check_new_fd : Sys → ℕ → Loop → Loop
  unfolding take_new_fds
  check_new_fd sys now l = take_new_fds sys now l.new_fds (record l { new_fds = [] })

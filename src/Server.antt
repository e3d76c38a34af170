-- ===== src/Server.antt =====
-- src/Server.cpp: the server, which starts the loops and hands new connections to them. The
-- state is that of the default build, without USE_SSL.
mod Choice
mod Open
mod Start
mod Tests
use epoll_http_server.Base.{
  ℕ, zero, suc, ◌-◌, ◌^◌, ◌%◌, Bool, true, false, not, Option, none, some, List, [], ◌∷◌, ◌++◌,
  Bytes, if◌then◌else◌, length, get_elem?, replicate, ltb, ◌==◌, ℤ, pos, negsuc, pos_part,
}
use epoll_http_server.Exec.Data.{ExecutorType}
use epoll_http_server.Exec.Sys.{Sys}
use epoll_http_server.Loop.{NewFd, Loop, listen_port}
use epoll_http_server.Loop.Events.{init}
use epoll_http_server.Params.{ServerParameters}

-- `loops` is `none` for a null pointer, `threads` the number of the threads that run, `has_log`
-- whether the log is there; `closed` are the descriptors that `createRequestExecutor` has closed.
pub record Server : Type 0 where
  pub parameters : ServerParameters
  pub loops : Option (List Loop)
  pub threads : ℕ
  pub has_log : Bool
  pub closed : List ℤ

-- `a < b`
unfoldable pub int_less : ℤ → ℤ → Bool
int_less (pos n) (pos m) = ltb n m
int_less (pos n) (negsuc m) = false
int_less (negsuc n) (pos m) = true
int_less (negsuc n) (negsuc m) = ltb m n

abbrev pub int_max : ℤ
int_max = pos (2 ^ 31 - 1)

-- The loop of `createRequestExecutor` over the loops from the i-th on: `minIndex`.
unfoldable pub min_index_from : ℕ → ℤ → ℕ → List Loop → ℕ
unfolding int_less
min_index_from i least index [] = index
min_index_from i least index (l ∷ ls) =
    let fewer = min_index_from (suc i) l.polls.num_of_poll_fds i ls in
    let other = min_index_from (suc i) least index ls in
    if int_less l.polls.num_of_poll_fds least then fewer else other

abbrev pub min_index : List Loop → ℕ
min_index loops = min_index_from 0 int_max 0 loops

abbrev pub set_loop : List Loop → ℕ → Loop → List Loop
set_loop [] i l = []
set_loop (k ∷ ks) zero l = l ∷ ks
set_loop (k ∷ ks) (suc i) l = k ∷ set_loop ks i l

-- `push` of `boost::lockfree::spsc_queue`, which fails on a full queue, is the parameter.
module _ (push : List NewFd → NewFd → Option (List NewFd)) where
  -- `PollLoop::enqueueClientFd`; the Boolean is whether it returns 0.
  unfoldable pub pushed : Loop → Option (List NewFd) → Loop × Bool
  pushed l none = (l, false)
  pushed l (some queue) = (record l { new_fds = queue }, true)

  unfoldable pub enqueue_client_fd : ℤ → ExecutorType → Loop → Loop × Bool
  unfolding pushed
  enqueue_client_fd fd t l = pushed l (push l.new_fds (record { exec_type = t; fd = fd }))

  -- `createRequestExecutor`, with the loop that is chosen; `none` is an access outside the array.
  unfoldable pub hand_over :
      ℤ → ExecutorType → Server → List Loop → ℕ → Option Loop → Option (Server × Bool)
  unfolding enqueue_client_fd
  hand_over fd t srv loops i none = none
  hand_over fd t srv loops i (some l) =
      let (l', done) = enqueue_client_fd fd t l in
      if done
      then some (record srv { loops = some (set_loop loops i l') }, true)
      else some (record srv { closed = srv.closed ++ fd ∷ [] }, false)

  unfoldable pub choose : ℤ → ExecutorType → Server → Option (List Loop) → Option (Server × Bool)
  unfolding hand_over
  choose fd t srv none = none
  choose fd t srv (some loops) =
      hand_over fd t srv loops (min_index loops) (get_elem? loops (min_index loops))

  unfoldable pub create_request_executor : ℤ → ExecutorType → Server → Option (Server × Bool)
  unfolding choose
  create_request_executor fd t srv = choose fd t srv srv.loops

-- `stop`, which waits for the threads and frees the loops, the threads and the log.
unfoldable pub stop : Server → Server
stop srv = record srv { loops = none; threads = 0; has_log = false }

-- What the system answers to `init` of a loop: the calls, the time, whether epoll_create1(2)
-- succeeds and the result of eventfd(2).
pub record Answers : Type 0 where
  pub sys : Sys
  pub now : ℕ
  pub epoll : Bool
  pub event_fd : ℤ

-- The loops `init` in turn, up to the first that fails.
unfoldable pub init_loops : (ℕ → Answers) → ℕ → ServerParameters → List Loop → List Loop × Bool
init_loops answers i params [] = ([], true)
init_loops answers i params (l ∷ ls) =
    let a = answers i in
    let (l', done) = init a.sys a.now params a.epoll a.event_fd l in
    let (ls', all) = init_loops answers (suc i) params ls in
    if done then (l' ∷ ls', all) else (l' ∷ ls, false)

-- `strptime` with `timegm`, and `strftime`, of the C library, are the parameters.
module _ (strptime_gmt : Bytes → Option ℤ) (strftime_gmt : ℕ → Bytes) where
  -- A port listened on by the loop that is next in turn, and what follows if it does; `none` is a
  -- division by zero.
  unfoldable pub listen_on :
      Answers
      → ℤ
      → List Loop
      → ℕ
      → Option Loop
      → (List Loop → Option (List Loop × Bool))
      → Option (List Loop × Bool)
  listen_on a port loops i none rest = none
  listen_on a port loops i (some l) rest =
      let (l', done) =
        listen_port strptime_gmt strftime_gmt a.sys a.now (pos_part port) ExecutorType.server l in
      if done then rest (set_loop loops i l') else some (set_loop loops i l', false)

  -- The ports in turn.
  unfoldable pub listen_in_turn : (ℕ → Answers) → ℕ → List ℤ → List Loop → Option (List Loop × Bool)
  unfolding listen_on
  listen_in_turn answers counter [] loops = some (loops, true)
  listen_in_turn answers counter (port ∷ ports) loops =
      let i = counter % length loops in
      listen_on (answers counter) port loops i (get_elem? loops i)
        (listen_in_turn answers (suc counter) ports)

  -- What `start` does with the loops when they listen, or do not.
  unfoldable pub listened : Server → Option (List Loop × Bool) → Option (Server × Bool)
  unfolding stop
  listened srv none = none
  listened srv (some (loops, true)) =
      some (record srv { loops = some loops; threads = pos_part srv.parameters.thread_count }, true)
  listened srv (some (loops, false)) = some (stop srv, false)

  unfoldable pub start_loops :
      (ℕ → Answers) → (ℕ → Answers) → Server → List Loop → Option (Server × Bool)
  unfolding listened init_loops listen_in_turn
  start_loops inits listens srv fresh =
      let (loops, all) = init_loops inits 0 srv.parameters fresh in
      if all
      then listened srv (listen_in_turn listens 0 srv.parameters.http_ports loops)
      else some (stop srv, false)

  -- `new PollLoop[threadCount]` and what follows; `none` is an array of negative size.
  unfoldable pub started :
      (ℕ → Answers) → (ℕ → Answers) → Loop → Server → ℤ → Option (Server × Bool)
  unfolding start_loops
  started inits listens fresh srv (pos n) = start_loops inits listens srv (replicate n fresh)
  started inits listens fresh srv (negsuc n) = none

  -- `start`; `log` is whether the log's `init` returns 0, `fresh` a loop as it is constructed.
  unfoldable pub start :
      Bool
      → (ℕ → Answers)
      → (ℕ → Answers)
      → Loop
      → ServerParameters
      → Server
      → Option (Server × Bool)
  unfolding started
  start log inits listens fresh parameters srv =
      let srv' = record srv { parameters = parameters; has_log = true } in
      if not log
      then some (stop srv', false)
      else started inits listens fresh srv' parameters.thread_count

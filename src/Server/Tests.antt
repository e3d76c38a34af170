-- ===== src/Server/Tests.antt =====
-- The theorems on the server at concrete loops.
use epoll_http_server.Base.{
  ℕ, ◌≡◌, refl, true, false, Option, none, some, List, [], ◌∷◌, Bytes, pos, minus_one, get_elem?,
  ltb, if◌then◌else◌, ℤ,
}
use epoll_http_server.Storage.{allocate}
use epoll_http_server.Exec.Data.{ExecutorType}
use epoll_http_server.Exec.PollFds.{add_poll_fd}
use epoll_http_server.Exec.Tests.{answers}
use epoll_http_server.Loop.{Loop, NewFd, create_executor_data}
use epoll_http_server.Loop.Tests.{fresh_loop}
use epoll_http_server.Loop.Events.{init}
use epoll_http_server.Params.{defaults}
use epoll_http_server.Server.{
  Server, Answers, int_less, min_index_from, min_index, start, create_request_executor,
}
use epoll_http_server.Server.Choice.{AtLeast, count_of, handed, create_request_executor-least}
use epoll_http_server.Server.Start.{IsStarted, start-IsStarted}

abbrev with_fds : ℕ → Loop
with_fds n = record fresh_loop { polls = record fresh_loop.polls { num_of_poll_fds = pos n } }

abbrev two_loops : Server
two_loops = record {
  parameters = defaults;
  loops = some (with_fds 5 ∷ with_fds 3 ∷ []);
  threads = 2;
  has_log = true;
  closed = [];
}

-- A queue of one place.
abbrev push_one : List NewFd → NewFd → Option (List NewFd)
push_one [] n = some (n ∷ [])
push_one (m ∷ ms) n = none

second_loop : min_index (with_fds 5 ∷ with_fds 3 ∷ with_fds 3 ∷ []) ≡ 1
unfolding min_index_from
second_loop = refl

create_request_executor-least_example :
    (i : ℕ) × (k : Loop) × (get_elem? (with_fds 5 ∷ with_fds 3 ∷ []) i ≡ some k)
    × AtLeast (count_of k) (with_fds 5 ∷ with_fds 3 ∷ [])
    × (create_request_executor push_one (pos 9) ExecutorType.request two_loops
        ≡ some (
            handed push_one
              (pos 9)
              two_loops
              (with_fds 5 ∷ with_fds 3 ∷ [])
              i
              k
              (push_one k.new_fds (record { exec_type = ExecutorType.request; fd = pos 9 }))))
unfolding int_less
create_request_executor-least_example =
    create_request_executor-least push_one (pos 9) ExecutorType.request two_loops (with_fds 5)
      (with_fds 3 ∷ []) refl (refl, (refl, tt))

-- The system answers well; eventfd(2) returns 4.
abbrev well : ℕ → Answers
well i = record { sys = record answers { listen = pos 5 }; now = 0; epoll = true; event_fd = pos 4 }

-- eventfd(2) fails for the second loop.
abbrev second_fails : ℕ → Answers
second_fails i = if ltb 0 i then record (well i) { event_fd = minus_one } else well i

abbrev no_dates : Bytes → Option ℤ
no_dates s = none

abbrev no_text : ℕ → Bytes
no_text n = []

abbrev not_started : Server
not_started = record two_loops {
  parameters = record defaults { thread_count = pos 2 };
  loops = none;
  threads = 0;
  has_log = false;
}

start-IsStarted_example : IsStarted no_dates no_text 2 (not_started, false)
unfolding start init create_executor_data allocate add_poll_fd
start-IsStarted_example =
    start-IsStarted no_dates no_text true second_fails well fresh_loop
      (record defaults { thread_count = pos 2 }) two_loops (not_started, false) refl

-- ===== src/Loop/Tests.antt =====
-- The theorems on the loop at concrete states.
use epoll_http_server.Base.{
  ℕ, ◌≡◌, true, inl, refl, false, Option, none, some, List, [], ◌∷◌, ◌++◌, Bytes, ℤ, pos,
}
use epoll_http_server.Storage
use epoll_http_server.Storage.{BlockStorage, allocate}
use epoll_http_server.Storage.Chains.{Absent}
use epoll_http_server.Storage.Allocate.{Represents}
use epoll_http_server.Storage.Blocks.{available, allocate-Represents}
use epoll_http_server.Exec.Data.{Executor, ExecutorType, new_data, State}
use epoll_http_server.Exec.Sys.{Sys}
use epoll_http_server.Exec.PollFds.{poll_down}
use epoll_http_server.Exec.Tests.{answers}
use epoll_http_server.Loop.{Loop, NewFd, remove_executor_data, exec_block_size, check_new_fd}
use epoll_http_server.Loop.Events.{Wait, destroy, run_round, Event, check_timeout, handle_events}
use epoll_http_server.Loop.Shutdown.{run_round-destroys}
use epoll_http_server.Loop.Forget.{IsOf, AllOf, handle_events-removed}
use epoll_http_server.Loop.Handover.{check_new_fd-closes_twice}
use epoll_http_server.Loop.Timeout.{Over, Survives, check_timeout-Represents}

-- A loop as it is constructed.
abbrev pub fresh_loop : Loop
fresh_loop = record {
  execs = Storage.empty;
  exec = λ p. new_data;
  polls = record {
    storage = Storage.empty;
    item = λ p. poll_down;
    num_of_poll_fds = pos 0;
    interest = λ fd. none;
  };
  names = record { proxies = []; file_name = []; root_folder_length = 0 };
  new_fds = [];
  handed = [];
  closed = [];
  thread_count = pos 2;
  executor_timeout_millis = pos 10000;
  last_check_timeout_millis = 0;
  is_open = false;
}

abbrev behind : List NewFd
behind = record { exec_type = ExecutorType.request; fd = pos 8 } ∷ []

-- Two new descriptors wait, and epoll_ctl(2) refuses all.
abbrev waiting : Loop
waiting = record fresh_loop {
  new_fds = record { exec_type = ExecutorType.request; fd = pos 7 } ∷ behind;
}

abbrev refusing : Sys
refusing = record answers { epoll_add = λ fd. false }

abbrev no_dates : Bytes → Option ℤ
no_dates s = none

abbrev no_text : ℕ → Bytes
no_text n = []

check_new_fd-closes_twice_example :
    (others : List ℤ) × (later : List ℤ) × ((check_new_fd no_dates no_text refusing 0
        waiting).closed
      ≡ [] ++ pos 7 ∷ (others ++ pos 7 ∷ later))
unfolding allocate
check_new_fd-closes_twice_example =
    check_new_fd-closes_twice no_dates no_text refusing 0 (pos 7) waiting 0 behind refl refl refl
      refl

empty-Represents : Represents exec_block_size Storage.empty [] []
empty-Represents = record { used_list = refl; free_list = refl; distinct = tt; in_blocks = tt }

-- The pool after its first executor, which has been idle since 5.
abbrev one_used : BlockStorage
one_used = (allocate exec_block_size Storage.empty).0

abbrev idle : Loop
idle = record fresh_loop {
  execs = one_used;
  exec =
      λ p. record new_data { create_time = 5; last_process_time = 5; state = State.read_request };
}

one_used-Represents :
    (p : ℕ) × (rest : List ℕ) × (available exec_block_size Storage.empty [] ≡ p ∷ rest)
    × ((allocate exec_block_size Storage.empty).1 ≡ some p)
    × (Absent p [])
    × Represents exec_block_size one_used (p ∷ []) rest
one_used-Represents = allocate-Represents 1023 Storage.empty [] [] empty-Represents

check_timeout-Represents_example :
    ((stay : List ℕ) × (rest : List ℕ) × Survives 20000 idle (one_used-Represents.0 ∷ []) stay
      × Represents exec_block_size (check_timeout answers 20000 idle).execs stay rest)
    × ((q : ℕ)
        → ¬ (Over 20000 (pos 10000) (idle.exec q))
        → (check_timeout answers 20000 idle).exec q ≡ idle.exec q)
check_timeout-Represents_example =
    check_timeout-Represents answers 20000 idle (one_used-Represents.0 ∷ []) one_used-Represents.1
      one_used-Represents.5

-- An executor with one descriptor, which is registered by the PollData 0.
abbrev registered : Loop
registered = record idle {
  exec = λ p. record new_data { fd0 = pos 7; poll_data0 = some 0; state = State.read_request };
  polls = record fresh_loop.polls {
    storage = one_used;
    item = λ a. record { fd = pos 7; exec_data = some 0 };
    num_of_poll_fds = pos 1;
  };
}

-- EPOLLIN for it
abbrev readable : Event
readable = record { pointer = 0; bits = 1 }

handle_events-removed_example :
    handle_events no_dates no_text 20000
      ((answers, readable) ∷ (answers, readable) ∷ [])
      (remove_executor_data answers 0 registered)
    ≡ some (remove_executor_data answers 0 registered, true)
unfolding handle_events AllOf IsOf
handle_events-removed_example =
    handle_events-removed no_dates no_text answers 20000 0 registered
      ((answers, readable) ∷ (answers, readable) ∷ []) [] (inl refl, (inl refl, tt)) refl refl refl

-- A loop that listens with the descriptor 7, and an event of a client behind the one of the listener.
abbrev listening : Loop
listening = record registered {
  exec = λ p. record new_data {
    executor = some (Executor.of_type ExecutorType.server);
    fd0 = pos 7;
    poll_data0 = some 0;
    state = State.ok;
  };
}

run_round-destroys_example :
    run_round no_dates no_text
      (Wait.delivered 20000 answers ((answers, readable) ∷ (answers, readable) ∷ []))
      listening
    ≡ some (destroy listening, false)
run_round-destroys_example =
    run_round-destroys no_dates no_text answers answers 20000 0 listening readable
      ((answers, readable) ∷ [])
      (record {
        owner = refl;
        fd = refl;
        executor = refl;
        is_up = refl;
        no_rdhup = refl;
        no_err = refl;
      })
      refl

-- ===== src/Server/Open.antt =====
-- src/PollLoop.cpp: what opens a loop, and what leaves it open.
use epoll_http_server.Base.{
  ℕ, ◌≡◌, refl, ◌∙◌, inl, inr, Bool, true, false, Option, none, some, Bytes, length, ℤ, pos, arith,
  Bool-cases, is_negative,
}
use epoll_http_server.Storage.{BlockStorage, allocate}
use epoll_http_server.Exec.Data.{Executor, ExecutorType}
use epoll_http_server.Exec.Sys.{Sys}
use epoll_http_server.Exec.PollFds.{Conn}
use epoll_http_server.Params.{ServerParameters}
use epoll_http_server.Loop.{
  Loop, exec_block_size, allocated_exec, create_executor_data, remove_executor_data, brought_up,
  up_of, start_listening, listen_port,
}
use epoll_http_server.Loop.Events.{root_name, event_fd_created, create_event_fd, init}

allocated_exec-is_open :
    (now : ℕ) (l : Loop) (out : BlockStorage × Option ℕ)
    → (allocated_exec now l out).0.is_open ≡ l.is_open
unfolding allocated_exec
allocated_exec-is_open now l (s, none) = refl
allocated_exec-is_open now l (s, some p) = refl

create_executor_data-is_open :
    (now : ℕ) (l : Loop) → (create_executor_data now l).0.is_open ≡ l.is_open
unfolding create_executor_data
create_executor_data-is_open now l = allocated_exec-is_open now l (allocate exec_block_size l.execs)

event_fd_created-is_open :
    (sys : Sys) (fd : ℤ) (out : Loop × Option ℕ)
    → (event_fd_created sys fd out).0.is_open ≡ out.0.is_open
unfolding event_fd_created remove_executor_data
event_fd_created-is_open sys fd (l, none) = refl
event_fd_created-is_open sys fd (l, some p) = ground arith

create_event_fd-is_open :
    (sys : Sys) (now : ℕ) (fd : ℤ) (l : Loop)
    → (create_event_fd sys now fd l).1 ≡ true
    → (create_event_fd sys now fd l).0.is_open ≡ l.is_open
unfolding create_event_fd
create_event_fd-is_open sys now fd l ok = elim (Bool-cases (is_negative fd)) [
  | inl e ↦ absurd (ground (arith, e, ok))
  | inr e ↦ rw e (
      event_fd_created-is_open sys fd (create_executor_data now l)
      ∙ create_executor_data-is_open now l)
]

pub init-is_open :
    (sys : Sys) (now : ℕ) (params : ServerParameters) (epoll : Bool) (fd : ℤ) (l : Loop)
    → (init sys now params epoll fd l).1 ≡ true
    → (init sys now params epoll fd l).0.is_open ≡ true
unfolding init
init-is_open sys now params false fd l ok = absurd (cc ok)
init-is_open sys now params true fd l ok =
    let opened = record l {
      thread_count = params.thread_count;
      executor_timeout_millis = params.executor_timeout_millis;
      names = record {
        proxies = params.proxies;
        file_name = root_name params.root_folder;
        root_folder_length = length (root_name params.root_folder);
      };
      polls = record l.polls { num_of_poll_fds = pos 0 };
      is_open = true;
    } in
    elim (Bool-cases (create_event_fd sys now fd opened).1) [
      | inl e ↦ rw e (create_event_fd-is_open sys now fd opened e)
      | inr e ↦ absurd (ground (arith, e, ok))
    ]

module _ (strptime_gmt : Bytes → Option ℤ) (strftime_gmt : ℕ → Bytes) where
  brought_up-is_open :
      (sys : Sys) (p : ℕ) (l : Loop) (out : Conn × Bool)
      → (brought_up strptime_gmt strftime_gmt sys p l out).0.is_open ≡ l.is_open
  unfolding brought_up remove_executor_data
  brought_up-is_open sys p l (c, true) = refl
  brought_up-is_open sys p l (c, false) = refl

  start_listening-is_open :
      (sys : Sys) (port : ℕ) (t : ExecutorType) (out : Loop × Option ℕ)
      → (start_listening strptime_gmt strftime_gmt sys port t out).0.is_open ≡ out.0.is_open
  unfolding start_listening
  start_listening-is_open sys port t (l, none) = refl
  start_listening-is_open sys port t (l, some p) =
      let d = record (l.exec p) { executor = some (Executor.of_type t); port = port } in
      brought_up-is_open sys p l
        (up_of strptime_gmt strftime_gmt sys t (record { self = p; d = d; polls = l.polls }))

  pub listen_port-is_open :
      (sys : Sys) (now port : ℕ) (t : ExecutorType) (l : Loop)
      → (listen_port strptime_gmt strftime_gmt sys now port t l).0.is_open ≡ l.is_open
  unfolding listen_port
  listen_port-is_open sys now port t l =
      start_listening-is_open sys port t (create_executor_data now l)
      ∙ create_executor_data-is_open now l

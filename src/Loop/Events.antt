-- ===== src/Loop/Events.antt =====
-- src/PollLoop.cpp: `run`, `checkTimeout`, `destroy` and `init`.
use epoll_http_server.Base.{
  ℕ, suc, ◌+◌, ◌*◌, ◌/◌, ◌%◌, Bool, true, false, not, ◌&&◌, ◌||◌, Option, none, some, List, [], ◌∷◌,
  ◌++◌, ◌==◌, if◌then◌else◌, Bytes, ℤ, pos, negsuc, ltb, leb, length, take, codes, int_eq,
  is_negative,
}
use epoll_http_server.Storage
use epoll_http_server.Storage.{walk}
use epoll_http_server.Exec.Data.{
  ExecutorData, Executor, State, ProcessResult, is_state, max_retry_counter,
  max_time_to_live_millis,
}
use epoll_http_server.Exec.Sys.{Sys}
use epoll_http_server.Exec.PollFds.{PollData, add_poll_fd, epollin}
use epoll_http_server.Loop.{
  Loop, put_conn, update_exec, exec_block_size, create_executor_data, remove_executor_data,
  new_fd_up,
}
use epoll_http_server.Params.{ServerParameters}
use epoll_http_server.Loop.Handlers.{process_by}

-- `events[i]`: the pointer to the `PollData` that was registered, and the bits.
pub record Event : Type 0 where
  pub pointer : ℕ
  pub bits : ℕ

-- `events & EPOLLRDHUP` and `events & EPOLLERR`
abbrev pub has_rdhup : ℕ → Bool
has_rdhup bits = bits / 0x2000 % 2 == 1

abbrev pub has_err : ℕ → Bool
has_err bits = bits / 8 % 2 == 1

-- `cur - last > t` and `cur - last >= t` on `long long int`
abbrev pub later_than : ℕ → ℕ → ℤ → Bool
later_than cur last (pos t) = ltb (last + t) cur
later_than cur last (negsuc t) = ltb last (cur + suc t)

abbrev pub later_or_at : ℕ → ℕ → ℤ → Bool
later_or_at cur last (pos t) = leb (last + t) cur
later_or_at cur last (negsuc t) = leb last (cur + suc t)

-- The executors' memory is freed, which closes all descriptors, and so are the pool's.
unfoldable pub destroy : Loop → Loop
unfolding Storage.destroy
destroy l = record l {
  execs = Storage.destroy l.execs;
  polls = record l.polls { storage = Storage.destroy l.polls.storage };
  is_open = false;
}

unfoldable pub is_expired : ℕ → ℤ → ExecutorData → Bool
is_expired cur timeout d =
    d.remove_on_timeout
    && (later_than cur d.last_process_time timeout
        || later_than cur d.create_time (pos max_time_to_live_millis))

-- `removeExecDatas`, from the list of the executors in use
unfoldable pub expired : ℕ → Loop → List ℕ → List ℕ
unfolding is_expired
expired cur l [] = []
expired cur l (p ∷ ps) =
    let rest = expired cur l ps in
    if is_expired cur l.executor_timeout_millis (l.exec p) then p ∷ rest else rest

unfoldable pub remove_all : Sys → List ℕ → Loop → Loop
remove_all sys [] l = l
remove_all sys (p ∷ ps) l = remove_all sys ps (remove_executor_data sys p l)

-- The executors in use; a pool holds no more items than its blocks.
abbrev pub used_execs : Loop → List ℕ
used_execs l = walk (l.execs.block_count * exec_block_size) l.execs.links l.execs.used_head

unfoldable pub check_timeout : Sys → ℕ → Loop → Loop
unfolding remove_all expired
check_timeout sys cur l = record (remove_all sys (expired cur l (used_execs l)) l) {
  last_check_timeout_millis = cur;
}

-- `createEventFd`, behind eventfd(2).
unfoldable pub event_fd_created : Sys → ℤ → Loop × Option ℕ → Loop × Bool
unfolding new_fd_up
event_fd_created sys fd (l, none) = (l, false)
event_fd_created sys fd (l, some p) =
    let d = record (l.exec p) { fd0 = fd; executor = some Executor.new_fd } in
    let (c, added) = add_poll_fd sys (record { self = p; d = d; polls = l.polls }) fd epollin in
    if not added
    then (remove_executor_data sys p (put_conn l p c), false)
    else (put_conn l p (new_fd_up c), true)

unfoldable pub create_event_fd : Sys → ℕ → ℤ → Loop → Loop × Bool
unfolding event_fd_created
create_event_fd sys now fd l =
    if is_negative fd
    then (destroy l, false)
    else event_fd_created sys fd (create_executor_data now l)

-- `snprintf(fileNameBuffer, MAX_FILE_NAME, "%s/", …)`
abbrev pub root_name : Bytes → Bytes
root_name root = take 299 (root ++ codes "/")

-- `init`, which keeps the parameters; `epoll` is whether epoll_create1(2) succeeds, `fd` the result of eventfd(2).
unfoldable pub init : Sys → ℕ → ServerParameters → Bool → ℤ → Loop → Loop × Bool
unfolding create_event_fd
init sys now params epoll fd l =
    let named = record l {
      thread_count = params.thread_count;
      executor_timeout_millis = params.executor_timeout_millis;
      names = record {
        proxies = params.proxies;
        file_name = root_name params.root_folder;
        root_folder_length = length (root_name params.root_folder);
      };
      polls = record l.polls { num_of_poll_fds = pos 0 };
    } in
    if not epoll
    then (destroy named, false)
    else (let (l', done) = create_event_fd sys now fd (record named { is_open = true }) in
        if not done then (destroy l', false) else (l', true))

-- One round of `run`: `runFlag` is found reset; epoll_wait(2) is interrupted, or fails; or it
-- delivers events, at a time, with the answers to the calls of `checkTimeout`.
pub data Wait : Type 0 where
  stopped interrupted failed : Wait
  delivered : ℕ → Sys → List (Sys × Event) → Wait

-- `strptime` with `timegm`, and `strftime`, of the C library, are the parameters.
module _ (strptime_gmt : Bytes → Option ℤ) (strftime_gmt : ℕ → Bytes) where
  -- What `run` does with the result. The Boolean is whether the loop goes on.
  unfoldable pub processed : Sys → ℕ → ℕ → Loop × ProcessResult → Loop × Bool
  processed sys now p (l, ProcessResult.remove_executor_ok) = (remove_executor_data sys p l, true)
  processed sys now p (l, ProcessResult.remove_executor_error) =
      (remove_executor_data sys p l, true)
  processed sys now p (l, ProcessResult.shutdown) = (destroy l, false)
  processed sys now p (l, ProcessResult.ok) =
      if ltb max_retry_counter (l.exec p).retry_counter
      then (remove_executor_data sys p l, true)
      else (
        record l { exec = update_exec l.exec p (record (l.exec p) { last_process_time = now }) },
        true,
      )

  unfoldable pub handle_exec : Sys → ℕ → ℕ → ℤ → ℕ → Loop → Option (Loop × Bool)
  unfolding process_by processed
  handle_exec sys now p fd bits l =
      let d = l.exec p in
      if is_state d.state State.invalid
      then some (l, true)
      else if (has_rdhup bits || has_err bits) && int_eq fd d.fd0
      then some (remove_executor_data sys p l, true)
      else (elim (process_by strptime_gmt strftime_gmt sys now p fd bits l d.executor) [
        | none ↦ none
        | some out ↦ some (processed sys now p out)
      ])

  unfoldable pub handle_data : Sys → ℕ → ℕ → PollData → Loop → Option (Loop × Bool)
  unfolding handle_exec
  handle_data sys now bits pd l = elim pd.exec_data [
    | none ↦ some (l, true)
    | some p ↦ handle_exec sys now p pd.fd bits l
  ]

  unfoldable pub handle_event : Sys → ℕ → Event → Loop → Option (Loop × Bool)
  unfolding handle_data
  handle_event sys now e l = handle_data sys now e.bits (l.polls.item e.pointer) l

  -- What follows an event, if the loop goes on.
  abbrev pub then_events :
      Option (Loop × Bool) → (Loop → Option (Loop × Bool)) → Option (Loop × Bool)
  then_events none rest = none
  then_events (some (l, true)) rest = rest l
  then_events (some (l, false)) rest = some (l, false)

  -- The loop over the events, each with the answers of the system to the calls of its handler.
  unfoldable pub handle_events : ℕ → List (Sys × Event) → Loop → Option (Loop × Bool)
  handle_events now [] l = some (l, true)
  handle_events now ((sys, e) ∷ es) l =
      then_events (handle_event sys now e l) (handle_events now es)

  -- The end of a round of `run`: `checkTimeout`, if it is due.
  unfoldable pub timed : Sys → ℕ → Loop → Loop
  unfolding check_timeout
  timed sys now l =
      if later_or_at now l.last_check_timeout_millis l.executor_timeout_millis
      then check_timeout sys now l
      else l

  abbrev pub after_events : Sys → ℕ → Option (Loop × Bool) → Option (Loop × Bool)
  after_events sys now none = none
  after_events sys now (some (l, true)) = some (timed sys now l, true)
  after_events sys now (some (l, false)) = some (l, false)

  unfoldable pub run_round : Wait → Loop → Option (Loop × Bool)
  unfolding timed handle_events
  run_round Wait.stopped l = some (destroy l, false)
  run_round Wait.interrupted l = some (l, true)
  run_round Wait.failed l = some (destroy l, false)
  run_round (Wait.delivered now sys es) l = after_events sys now (handle_events now es l)

  -- `run`, over the rounds that the system makes.
  unfoldable pub run : List Wait → Loop → Option Loop
  run [] l = some l
  run (w ∷ ws) l = elim (run_round w l) [
    | none ↦ none
    | some (l', true) ↦ run ws l'
    | some (l', false) ↦ some l'
  ]

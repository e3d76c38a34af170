-- ===== src/Exec/PollFds.antt =====
-- `PollLoop::addPollFd`, `editPollFd`, `removePollFd` and `closeFd`, over a connection and the loop's
-- pool of `PollData`.
pub mod Frame
pub mod Registered
use Prim.Native.Nat.{bit_or}
use epoll_http_server.Base.{
  ℕ, ◌+◌, ◌/◌, ◌%◌, Bool, true, false, not, ◌&&◌, Option, none, some, ◌==◌, if◌then◌else◌, ℤ,
  int_eq, minus_one, add_int, sub_int,
}
use epoll_http_server.Storage.{BlockStorage, allocate, free}
use epoll_http_server.Ring.{TransferRingBuffer}
use epoll_http_server.Exec.Data.{ExecutorData, State}
use epoll_http_server.Exec.Sys.{Sys}

-- src/PollData.h; `exec_data` is the address of the connection's `ExecutorData`.
pub record PollData : Type 0 where
  pub fd : ℤ
  pub exec_data : Option ℕ

-- `PollData::down`
abbrev pub poll_down : PollData
poll_down = record { fd = minus_one; exec_data = none }

-- The loop's `pollDatas`, with what its items hold, and `numOfPollFds`; and the events for which the
-- kernel watches each descriptor.
pub record Polls : Type 0 where
  pub storage : BlockStorage
  pub item : ℕ → PollData
  pub num_of_poll_fds : ℤ
  pub interest : ℤ → Option ℕ

-- A connection at work: its address, its data, and the loop's pool.
pub record Conn : Type 0 where
  pub self : ℕ
  pub d : ExecutorData
  pub polls : Polls

abbrev pub update_item : (ℕ → PollData) → ℕ → PollData → ℕ → PollData
update_item f p v q = if p == q then v else f q

abbrev pub update_fd : (ℤ → Option ℕ) → ℤ → Option ℕ → ℤ → Option ℕ
update_fd f fd v x = if int_eq fd x then v else f x

abbrev pub is_null : Option ℕ → Bool
is_null none = true
is_null (some p) = false

-- `p == q` on pointers
abbrev pub same_pointer : Option ℕ → Option ℕ → Bool
same_pointer none none = true
same_pointer (some p) (some q) = p == q
same_pointer _ _ = false

abbrev pub epollin : ℕ
epollin = 1

abbrev pub epollout : ℕ
epollout = 4

-- EPOLLRDHUP | EPOLLERR
abbrev pub epoll_always : ℕ
epoll_always = 0x2008

abbrev pub poll_block_size : ℕ
poll_block_size = 0x400

-- `data.pollData0 = …` or `data.pollData1 = …`, by the descriptor
abbrev pub set_poll_data : ExecutorData → ℤ → Option ℕ → ExecutorData
set_poll_data d fd v =
    if int_eq fd d.fd0
    then record d { poll_data0 = v }
    else if int_eq fd d.fd1
    then record d { poll_data1 = v }
    else d

-- the pointer that `editPollFd` and `removePollFd` look up
abbrev pub find_poll_data : ExecutorData → ℤ → Option ℕ
find_poll_data d fd =
    if int_eq fd d.fd0 then d.poll_data0 else if int_eq fd d.fd1 then d.poll_data1 else none

-- What follows `pollDatas.allocate()`, by its result. The Boolean is whether the method returns 0.
unfoldable pub add_allocated : Sys → Conn → ℤ → ℕ → BlockStorage × Option ℕ → Conn × Bool
add_allocated sys c fd events (storage, none) =
    (record c { polls = record c.polls { storage = storage } }, false)
add_allocated sys c fd events (storage, some p) =
    if not (sys.epoll_add fd)
    then (record c { polls = record c.polls { storage = free storage p } }, false)
    else (
      record c {
        d = set_poll_data c.d fd (some p);
        polls = record {
          storage = storage;
          item = update_item c.polls.item p (record { fd = fd; exec_data = some c.self });
          num_of_poll_fds = add_int c.polls.num_of_poll_fds 1;
          interest = update_fd c.polls.interest fd (some (bit_or events epoll_always));
        };
      },
      true,
    )

unfoldable pub add_poll_fd : Sys → Conn → ℤ → ℕ → Conn × Bool
unfolding add_allocated
add_poll_fd sys c fd events =
    if not (int_eq fd c.d.fd0) && not (int_eq fd c.d.fd1)
    then (c, false)
    else if int_eq fd c.d.fd0 && not (is_null c.d.poll_data0)
    then (c, false)
    else if int_eq fd c.d.fd1 && not (is_null c.d.poll_data1)
    then (c, false)
    else add_allocated sys c fd events (allocate poll_block_size c.polls.storage)

unfoldable pub edit_poll_fd : Sys → Conn → ℤ → ℕ → Conn × Bool
edit_poll_fd sys c fd events =
    if is_null (find_poll_data c.d fd)
    then (c, false)
    else if not (sys.epoll_mod fd)
    then (c, false)
    else (
      record c {
        polls = record c.polls {
          interest = update_fd c.polls.interest fd (some (bit_or events epoll_always));
        };
      },
      true,
    )

-- `if(pollData == data.pollData0) … else if(pollData == data.pollData1) …`
abbrev pub clear_poll_data : ExecutorData → Option ℕ → ExecutorData
clear_poll_data d p =
    if same_pointer p d.poll_data0
    then record d { poll_data0 = none }
    else if same_pointer p d.poll_data1
    then record d { poll_data1 = none }
    else d

unfoldable pub remove_found : Sys → Conn → ℤ → Option ℕ → Conn × Bool
remove_found sys c fd none = (c, false)
remove_found sys c fd (some p) = if not (sys.epoll_del fd) then (c, false) else (
  record c {
    d = clear_poll_data c.d (some p);
    polls = record {
      storage = free c.polls.storage p;
      item = update_item c.polls.item p poll_down;
      num_of_poll_fds = sub_int c.polls.num_of_poll_fds 1;
      interest = update_fd c.polls.interest fd none;
    };
  },
  true,
)

unfoldable pub remove_poll_fd : Sys → Conn → ℤ → Conn × Bool
unfolding remove_found
remove_poll_fd sys c fd = remove_found sys c fd (find_poll_data c.d fd)

-- `closeFd` ignores the result of `removePollFd`.
unfoldable pub close_fd : Sys → Conn → ℤ → Conn × Bool
close_fd sys c fd =
    if int_eq fd c.d.fd0
    then (let c' = if not (is_null c.d.poll_data0) then (remove_poll_fd sys c c.d.fd0).0 else c in
        (record c' { d = record c'.d { fd0 = minus_one } }, true))
    else if int_eq fd c.d.fd1
    then (let c' = if not (is_null c.d.poll_data1) then (remove_poll_fd sys c c.d.fd1).0 else c in
        (record c' { d = record c'.d { fd1 = minus_one } }, true))
    else (c, false)

-- Changes of the connection's data that the handlers share: `++data.retryCounter`,
-- `data.retryCounter = 0`, and the assignments of the state and of the buffer.
abbrev pub retry : Conn → Conn
retry c = record c { d = record c.d { retry_counter = c.d.retry_counter + 1 } }

abbrev pub no_retry : Conn → Conn
no_retry c = record c { d = record c.d { retry_counter = 0 } }

abbrev pub with_state : State → Conn → Conn
with_state s c = record c { d = record c.d { state = s } }

abbrev pub with_buffer : TransferRingBuffer → Conn → Conn
with_buffer b c = record c { d = record c.d { buffer = b } }

-- `events & EPOLLIN` and `events & EPOLLOUT`
abbrev pub has_in : ℕ → Bool
has_in events = events % 2 == 1

abbrev pub has_out : ℕ → Bool
has_out events = events / 4 % 2 == 1

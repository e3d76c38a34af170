-- ===== src/Exec/PollFds/Frame.antt =====
-- What the poll operations leave alone: all of a connection but the pointers to its `PollData`, and
-- for `closeFd` the descriptor.
use epoll_http_server.Base.{ℕ, Option, none, some, ◌≡◌, refl, arith, ℤ}
use epoll_http_server.Storage.{BlockStorage, allocate}
use epoll_http_server.Exec.Sys.{Sys}
use epoll_http_server.Exec.PollFds.{
  Conn, add_poll_fd, add_allocated, edit_poll_fd, remove_poll_fd, remove_found, close_fd,
  find_poll_data, poll_block_size,
}

-- The two connections agree but for the pointers.
pub record Keeps (c c' : Conn) : Type 0 where
  pub same_buffer : c'.d.buffer ≡ c.d.buffer
  pub same_state : c'.d.state ≡ c.d.state
  pub same_fd0 : c'.d.fd0 ≡ c.d.fd0
  pub same_fd1 : c'.d.fd1 ≡ c.d.fd1
  pub same_pipe : c'.d.bytes_in_pipe ≡ c.d.bytes_in_pipe
  pub same_retry : c'.d.retry_counter ≡ c.d.retry_counter

pub Keeps-refl : (c : Conn) → Keeps c c
Keeps-refl c = record {
  same_buffer = refl;
  same_state = refl;
  same_fd0 = refl;
  same_fd1 = refl;
  same_pipe = refl;
  same_retry = refl;
}

add_allocated-Keeps :
    (sys : Sys) (c : Conn) (fd : ℤ) (events : ℕ) (a : BlockStorage × Option ℕ)
    → Keeps c (add_allocated sys c fd events a).0
unfolding add_allocated
add_allocated-Keeps sys c fd events (s, none) = ground arith
add_allocated-Keeps sys c fd events (s, some p) = ground arith

pub add_poll_fd-Keeps :
    (sys : Sys) (c : Conn) (fd : ℤ) (events : ℕ) → Keeps c (add_poll_fd sys c fd events).0
unfolding add_poll_fd
add_poll_fd-Keeps sys c fd events = ground (
  arith,
  add_allocated-Keeps sys c fd events (allocate poll_block_size c.polls.storage),
  Keeps-refl c,
)

remove_found-Keeps :
    (sys : Sys) (c : Conn) (fd : ℤ) (p : Option ℕ) → Keeps c (remove_found sys c fd p).0
unfolding remove_found
remove_found-Keeps sys c fd none = Keeps-refl c
remove_found-Keeps sys c fd (some p) = ground arith

pub remove_poll_fd-Keeps : (sys : Sys) (c : Conn) (fd : ℤ) → Keeps c (remove_poll_fd sys c fd).0
unfolding remove_poll_fd
remove_poll_fd-Keeps sys c fd = remove_found-Keeps sys c fd (find_poll_data c.d fd)

pub edit_poll_fd-Keeps :
    (sys : Sys) (c : Conn) (fd : ℤ) (events : ℕ) → Keeps c (edit_poll_fd sys c fd events).0
unfolding edit_poll_fd
edit_poll_fd-Keeps sys c fd events = ground arith

pub close_fd-buffer : (sys : Sys) (c : Conn) (fd : ℤ) → (close_fd sys c fd).0.d.buffer ≡ c.d.buffer
unfolding close_fd
close_fd-buffer sys c fd =
    ground (arith, remove_poll_fd-Keeps sys c c.d.fd0, remove_poll_fd-Keeps sys c c.d.fd1)

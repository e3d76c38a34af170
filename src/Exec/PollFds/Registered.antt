-- ===== src/Exec/PollFds/Registered.antt =====
-- Which of a connection's two descriptors are registered after the poll operations.
use epoll_http_server.Base.{
  ℕ, true, false, Option, none, some, ◌≡◌, refl, arith, ℤ, pos, negsuc, int_eq, is_negative,
  minus_one,
}
use epoll_http_server.Storage.{BlockStorage, allocate}
use epoll_http_server.Exec.Sys.{Sys}
use epoll_http_server.Exec.PollFds.Frame.{remove_poll_fd-Keeps}
use epoll_http_server.Exec.PollFds.{
  Conn, add_poll_fd, add_allocated, remove_poll_fd, remove_found, close_fd, is_null,
  poll_block_size, same_pointer,
}

-- The client's descriptor is open, the descriptors differ, and so do the pointers, unless both are
-- null.
pub record Apart (c : Conn) : Type 0 where
  pub open0 : is_negative c.d.fd0 ≡ false
  pub fds : int_eq c.d.fd0 c.d.fd1 ≡ false
  pub pointers : is_null c.d.poll_data0 ≡ false → same_pointer c.d.poll_data1 c.d.poll_data0 ≡ false

pub int_eq_self : (x : ℤ) → int_eq x x ≡ true
int_eq_self (pos n) = ground arith
int_eq_self (negsuc n) = ground arith

pub int_eq_comm : (x y : ℤ) → int_eq x y ≡ int_eq y x
int_eq_comm (pos n) (pos m) = ground arith
int_eq_comm (pos n) (negsuc m) = refl
int_eq_comm (negsuc n) (pos m) = refl
int_eq_comm (negsuc n) (negsuc m) = ground arith

add_allocated-fd0 :
    (sys : Sys) (c : Conn) (events : ℕ) (a : BlockStorage × Option ℕ)
    → (add_allocated sys c c.d.fd0 events a).1 ≡ true
    → is_null (add_allocated sys c c.d.fd0 events a).0.d.poll_data0 ≡ false
unfolding add_allocated
add_allocated-fd0 sys c events (s, none) h = absurd (ground arith)
add_allocated-fd0 sys c events (s, some p) h = ground (arith, int_eq_self c.d.fd0)

-- A descriptor that `addPollFd` accepts is registered.
pub add_poll_fd-fd0 :
    (sys : Sys) (c : Conn) (events : ℕ)
    → (add_poll_fd sys c c.d.fd0 events).1 ≡ true
    → is_null (add_poll_fd sys c c.d.fd0 events).0.d.poll_data0 ≡ false
unfolding add_poll_fd
add_poll_fd-fd0 sys c events h = ground (
  arith,
  int_eq_self c.d.fd0,
  add_allocated-fd0 sys c events (allocate poll_block_size c.polls.storage),
)

add_allocated-fd1 :
    (sys : Sys) (c : Conn) (events : ℕ) (a : BlockStorage × Option ℕ)
    → int_eq c.d.fd0 c.d.fd1 ≡ false
    → (add_allocated sys c c.d.fd1 events a).1 ≡ true
    → is_null (add_allocated sys c c.d.fd1 events a).0.d.poll_data1 ≡ false
unfolding add_allocated
add_allocated-fd1 sys c events (s, none) k h = absurd (ground arith)
add_allocated-fd1 sys c events (s, some p) k h =
    ground (arith, int_eq_self c.d.fd1, int_eq_comm c.d.fd0 c.d.fd1)

pub add_poll_fd-fd1 :
    (sys : Sys) (c : Conn) (events : ℕ)
    → int_eq c.d.fd0 c.d.fd1 ≡ false
    → (add_poll_fd sys c c.d.fd1 events).1 ≡ true
    → is_null (add_poll_fd sys c c.d.fd1 events).0.d.poll_data1 ≡ false
unfolding add_poll_fd
add_poll_fd-fd1 sys c events k h = ground (
  arith,
  int_eq_self c.d.fd1,
  int_eq_comm c.d.fd0 c.d.fd1,
  add_allocated-fd1 sys c events (allocate poll_block_size c.polls.storage),
)

remove_found-fd0 :
    (sys : Sys) (c : Conn) (fd : ℤ) (p : Option ℕ)
    → (is_null c.d.poll_data0 ≡ false → same_pointer p c.d.poll_data0 ≡ false)
    → is_null (remove_found sys c fd p).0.d.poll_data0 ≡ is_null c.d.poll_data0
unfolding remove_found
remove_found-fd0 sys c fd none k = refl
remove_found-fd0 sys c fd (some p) k = ground arith

-- Removing the second descriptor leaves the first.
pub remove_poll_fd-fd0 :
    (sys : Sys) (c : Conn)
    → Apart c
    → is_null (remove_poll_fd sys c c.d.fd1).0.d.poll_data0 ≡ is_null c.d.poll_data0
unfolding remove_poll_fd
remove_poll_fd-fd0 sys c a = ground (
  arith,
  int_eq_self c.d.fd1,
  int_eq_comm c.d.fd0 c.d.fd1,
  remove_found-fd0 sys c c.d.fd1 c.d.poll_data1 a.pointers,
)

-- Closing the second descriptor leaves the first and the count of bytes in the pipe.
pub close_fd-Keeps :
    (sys : Sys) (c : Conn)
    → int_eq c.d.fd0 c.d.fd1 ≡ false
    → ((close_fd sys c c.d.fd1).0.d.fd0 ≡ c.d.fd0)
      × ((close_fd sys c c.d.fd1).0.d.fd1 ≡ minus_one)
      × ((close_fd sys c c.d.fd1).0.d.bytes_in_pipe ≡ c.d.bytes_in_pipe)
unfolding close_fd
close_fd-Keeps sys c k =
    let r = remove_poll_fd-Keeps sys c c.d.fd1 in
    ground (arith, int_eq_self c.d.fd1, int_eq_comm c.d.fd0 c.d.fd1, r.same_fd0, r.same_pipe)

pub Apart-closed : (x : ℤ) → is_negative x ≡ false → int_eq x minus_one ≡ false
Apart-closed (pos n) h = refl
Apart-closed (negsuc n) h = absurd (ground arith)

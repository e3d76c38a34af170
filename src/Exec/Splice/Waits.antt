-- ===== src/Exec/Splice/Waits.antt =====
-- When a connection whose response passes through the pipe has an event to wait for, and that the
-- registrations at the end of a handler provide for it.
use epoll_http_server.Base.{
  ℕ, zero, suc, ◌⊎◌, Bool, true, false, Option, none, some, ◌≡◌, refl, ap, ◌∙◌, arith, ℤ, pos,
  negsuc, int_eq, is_positive, is_zero, is_negative, inl, inr,
}
use epoll_http_server.Exec.Data.{State, ProcessResult, is_state}
use epoll_http_server.Exec.Sys.{Sys, Write}
use epoll_http_server.Exec.PollFds.{Conn, is_null, retry, epollin, epollout}
use epoll_http_server.Exec.PollFds.Frame.{
  Keeps, add_poll_fd-Keeps, remove_poll_fd-Keeps, Keeps-refl,
}
use epoll_http_server.Exec.PollFds.Registered.{add_poll_fd-fd0, add_poll_fd-fd1}
use epoll_http_server.Exec.ReadWrite.{or_error, add_if_null, remove_unless_null}
use epoll_http_server.Exec.Splice.{pipe_left}

-- The count of bytes in the pipe is not negative; while there are some the client's descriptor is
-- registered, and while there are none and the response goes on, the server's is.
pub record Watched (c : Conn) : Type 0 where
  pub count : is_negative c.d.bytes_in_pipe ≡ false
  pub client : is_positive c.d.bytes_in_pipe ≡ true → is_null c.d.poll_data0 ≡ false
  pub server :
      is_zero c.d.bytes_in_pipe ≡ true
      → is_state c.d.state State.forward_response ≡ true
      → is_null c.d.poll_data1 ≡ false

-- If the handler asks for the connection to be kept, it is watched.
abbrev pub LeavesWatched : Conn × ProcessResult → Type 0
LeavesWatched out = out.1 ≡ ProcessResult.ok → Watched out.0

-- splice(2) does not return 0 when the pipe that it reads from holds bytes.
abbrev pub Moves : Write → Type 0
Moves (Write.nothing e) = ⊥
Moves _ = Unit {0}

add_client :
    (sys : Sys) (c : Conn)
    → (add_if_null sys c c.d.poll_data0 c.d.fd0 epollout).1 ≡ true
    → is_null (add_if_null sys c c.d.poll_data0 c.d.fd0 epollout).0.d.poll_data0 ≡ false
add_client sys c h = ground (arith, add_poll_fd-fd0 sys c epollout)

add_server :
    (sys : Sys) (c : Conn)
    → int_eq c.d.fd0 c.d.fd1 ≡ false
    → (add_if_null sys c c.d.poll_data1 c.d.fd1 epollin).1 ≡ true
    → is_null (add_if_null sys c c.d.poll_data1 c.d.fd1 epollin).0.d.poll_data1 ≡ false
add_server sys c k h = ground (arith, add_poll_fd-fd1 sys c epollin k)

add_if_null-Keeps :
    (sys : Sys) (c : Conn) (p : Option ℕ) (fd : ℤ) (events : ℕ)
    → Keeps c (add_if_null sys c p fd events).0
add_if_null-Keeps sys c none fd events = add_poll_fd-Keeps sys c fd events
add_if_null-Keeps sys c (some p) fd events = Keeps-refl c

remove_unless_null-Keeps :
    (sys : Sys) (c : Conn) (p : Option ℕ) (fd : ℤ) → Keeps c (remove_unless_null sys c p fd).0
remove_unless_null-Keeps sys c none fd = Keeps-refl c
remove_unless_null-Keeps sys c (some p) fd = remove_poll_fd-Keeps sys c fd

positive_count : (x : ℤ) → is_positive x ≡ true → is_negative x ≡ false
positive_count (pos n) h = refl
positive_count (negsuc n) h = absurd (ground arith)

zero_count : (x : ℤ) → is_zero x ≡ true → is_negative x ≡ false
zero_count (pos n) h = refl
zero_count (negsuc n) h = absurd (ground arith)

pub positive-Watched :
    (c : Conn) → is_positive c.d.bytes_in_pipe ≡ true → is_null c.d.poll_data0 ≡ false → Watched c
positive-Watched c h k = record {
  count = positive_count c.d.bytes_in_pipe h;
  client = λ e. k;
  server = λ z f. absurd (ground arith);
}

zero-Watched :
    (c : Conn) → is_zero c.d.bytes_in_pipe ≡ true → is_null c.d.poll_data1 ≡ false → Watched c
zero-Watched c h k = record {
  count = zero_count c.d.bytes_in_pipe h;
  client = λ e. absurd (ground arith);
  server = λ z f. k;
}

pub or_error-Watched :
    (out : Conn × Bool) (f : Conn → Conn × ProcessResult)
    → (out.1 ≡ true → LeavesWatched (f out.0))
    → LeavesWatched (or_error out f)
or_error-Watched (c, true) f h = h refl
or_error-Watched (c, false) f h = λ e. absurd (ground arith)

pub retry-Watched : (c : Conn) → Watched c → Watched (retry c)
retry-Watched c w = record { count = w.count; client = w.client; server = w.server }

-- The client's descriptor is registered while bytes are left in the pipe.
pub left-Watched :
    (sys : Sys) (c : Conn)
    → is_positive c.d.bytes_in_pipe ≡ true
    → (add_if_null sys c c.d.poll_data0 c.d.fd0 epollout).1 ≡ true
    → Watched (add_if_null sys c c.d.poll_data0 c.d.fd0 epollout).0
left-Watched sys c h added =
    let q = add_if_null sys c c.d.poll_data0 c.d.fd0 epollout in
    let k = add_if_null-Keeps sys c c.d.poll_data0 c.d.fd0 epollout in
    positive-Watched q.0 (ap is_positive k.same_pipe ∙ h) (add_client sys c added)

-- The server's is registered once the pipe is empty.
drained-Watched :
    (sys : Sys) (c : Conn)
    → int_eq c.d.fd0 c.d.fd1 ≡ false
    → is_zero c.d.bytes_in_pipe ≡ true
    → (add_if_null sys c c.d.poll_data1 c.d.fd1 epollin).1 ≡ true
    → Watched (add_if_null sys c c.d.poll_data1 c.d.fd1 epollin).0
drained-Watched sys c apart z added =
    let q = add_if_null sys c c.d.poll_data1 c.d.fd1 epollin in
    let k = add_if_null-Keeps sys c c.d.poll_data1 c.d.fd1 epollin in
    zero-Watched q.0 (ap is_zero k.same_pipe ∙ z) (add_server sys c apart added)

pub pipe_left-Watched :
    (sys : Sys) (c : Conn)
    → int_eq c.d.fd0 c.d.fd1 ≡ false
    → is_negative c.d.bytes_in_pipe ≡ false
    → LeavesWatched (pipe_left sys c)
unfolding pipe_left
pipe_left-Watched sys c apart n = elim (sign-cases c.d.bytes_in_pipe n) [
  | inl h ↦ rw h (
      or_error-Watched (add_if_null sys c c.d.poll_data0 c.d.fd0 epollout)
        (λ c1. (retry c1, ProcessResult.ok))
        (λ added e. retry-Watched _ (left-Watched sys c h added)))
  | inr (h, z) ↦
      let a = remove_unless_null sys c c.d.poll_data0 c.d.fd0 in
      let k = remove_unless_null-Keeps sys c c.d.poll_data0 c.d.fd0 in
      rw (h, z)
        (or_error-Watched a _ (λ removed.
          or_error-Watched (add_if_null sys a.0 a.0.d.poll_data1 a.0.d.fd1 epollin)
            (λ c2. (retry c2, ProcessResult.ok))
            (λ added e. retry-Watched _ (
              drained-Watched sys a.0 (rw (k.same_fd0, k.same_fd1) apart)
                (ap is_zero k.same_pipe ∙ z) added))))
]
  where
    sign-cases :
        (x : ℤ)
        → is_negative x ≡ false
        → (is_positive x ≡ true) ⊎ ((is_positive x ≡ false) × (is_zero x ≡ true))
    sign-cases (pos zero) n = inr (refl, refl)
    sign-cases (pos (suc m)) n = inl (ground arith)
    sign-cases (negsuc m) n = absurd (ground arith)

-- ===== src/Exec/Ssl/Handshaking.antt =====
-- src/executors/SslRequestExecutor.cpp: what a connection waits for while the handshake goes on.
use epoll_http_server.Base.{
  ℕ, ◌+◌, ◌≡◌, refl, ap, ◌∙◌, true, false, Option, none, some, arith, Bool, sym, if◌then◌else◌,
  Bool-cases, inl, inr,
}
use Prim.Native.Nat.{bit_or}
use epoll_http_server.Exec.Data.{State, ProcessResult}
use epoll_http_server.Exec.Sys.{Sys}
use epoll_http_server.Exec.PollFds.{
  Conn, epollin, epollout, epoll_always, is_null, add_poll_fd, add_allocated, poll_block_size,
  edit_poll_fd,
}
use epoll_http_server.Storage.{BlockStorage, allocate}
use epoll_http_server.Exec.PollFds.Frame.{edit_poll_fd-Keeps}
use epoll_http_server.Exec.PollFds.Registered.{int_eq_self}
use epoll_http_server.Exec.Ssl.Request.{
  SslConn, Handshake, wait_for, handle_handshake, handshake_done, process_handshake, up, ssl_init,
  ssl_prepared, shaken,
}

-- The events that OpenSSL asks for.
abbrev pub wanted : Handshake → ℕ
wanted Handshake.want_write = epollout
wanted _ = epollin

-- editPollFd of the registered first descriptor, when epoll_ctl(2) succeeds.
edit_poll_fd-interest :
    (sys : Sys) (c : Conn) (events : ℕ)
    → is_null c.d.poll_data0 ≡ false
    → sys.epoll_mod c.d.fd0 ≡ true
    → ((edit_poll_fd sys c c.d.fd0 events).1 ≡ true)
      × ((edit_poll_fd sys c c.d.fd0 events).0.polls.interest c.d.fd0
          ≡ some (bit_or events epoll_always))
unfolding edit_poll_fd
edit_poll_fd-interest sys c events registered mod_ok =
    ground (arith, int_eq_self c.d.fd0, registered, mod_ok)

-- What a step of the handshake leaves: at its end the request is read, before it the wait is counted;
-- in both cases the descriptor is watched for what is needed next.
unfoldable pub Advances : Handshake → SslConn → SslConn × ProcessResult → Type 0
Advances Handshake.done s out =
    out.1 ≡ ProcessResult.ok
    × out.0.handshaking ≡ false
    × out.0.c.d.state ≡ State.read_request
    × out.0.c.polls.interest s.c.d.fd0 ≡ some (bit_or epollin epoll_always)
Advances Handshake.failed s out = out.1 ≡ ProcessResult.remove_executor_error × out.0.c ≡ s.c
Advances h s out =
    out.1 ≡ ProcessResult.ok
    × out.0.handshaking ≡ s.handshaking
    × out.0.c.d.retry_counter ≡ s.c.d.retry_counter + 1
    × out.0.c.polls.interest s.c.d.fd0 ≡ some (bit_or (wanted h) epoll_always)

-- If the first descriptor is registered and epoll_ctl(2) changes its events without an error, then
-- process_handshake goes on to read the request when the handshake is done, and watches for input;
-- it stays in the handshake, counts the try and watches for the event that OpenSSL asks for when it
-- is not; and it asks for the removal of the executor when it has failed.
pub process_handshake-Advances :
    (sys : Sys) (h : Handshake) (s : SslConn)
    → is_null s.c.d.poll_data0 ≡ false
    → sys.epoll_mod s.c.d.fd0 ≡ true
    → Advances h s (process_handshake sys h s)
unfolding process_handshake handle_handshake handshake_done wait_for Advances
process_handshake-Advances sys Handshake.done s registered mod_ok =
    let (edited, interest) = edit_poll_fd-interest sys s.c epollin registered mod_ok in
    rw edited (refl, refl, refl, interest)
process_handshake-Advances sys Handshake.want_write s registered mod_ok =
    let kept = edit_poll_fd-Keeps sys s.c s.c.d.fd0 epollout in
    let (edited, interest) = edit_poll_fd-interest sys s.c epollout registered mod_ok in
    (refl, refl, ap (λ n. n + 1) kept.same_retry, interest)
process_handshake-Advances sys Handshake.want_read s registered mod_ok =
    let kept = edit_poll_fd-Keeps sys s.c s.c.d.fd0 epollin in
    let (edited, interest) = edit_poll_fd-interest sys s.c epollin registered mod_ok in
    (refl, refl, ap (λ n. n + 1) kept.same_retry, interest)
process_handshake-Advances sys Handshake.failed s registered mod_ok = (refl, refl)

add_allocated-interest :
    (sys : Sys) (c : Conn) (events p : ℕ) (a : BlockStorage × Option ℕ)
    → c.polls.interest c.d.fd0 ≡ none
    → a.1 ≡ some p
    → ((add_allocated sys c c.d.fd0 events a).1 ≡ sys.epoll_add c.d.fd0)
      × ((add_allocated sys c c.d.fd0 events a).0.polls.interest c.d.fd0
          ≡ (if sys.epoll_add c.d.fd0 then some (bit_or events epoll_always) else none))
unfolding add_allocated
add_allocated-interest sys c events p (s, none) free room = absurd (cc room)
add_allocated-interest sys c events p (s, some q) free room =
    ground (arith, int_eq_self c.d.fd0, free)

-- addPollFd of the first descriptor, when nothing is registered and a PollData is allocated.
add_poll_fd-interest :
    (sys : Sys) (c : Conn) (events p : ℕ)
    → c.d.poll_data0 ≡ none
    → c.d.poll_data1 ≡ none
    → c.polls.interest c.d.fd0 ≡ none
    → (allocate poll_block_size c.polls.storage).1 ≡ some p
    → ((add_poll_fd sys c c.d.fd0 events).1 ≡ sys.epoll_add c.d.fd0)
      × ((add_poll_fd sys c c.d.fd0 events).0.polls.interest c.d.fd0
          ≡ (if sys.epoll_add c.d.fd0 then some (bit_or events epoll_always) else none))
unfolding add_poll_fd
add_poll_fd-interest sys c events p null0 null1 free room =
    let self = int_eq_self c.d.fd0 in
    let all =
      add_allocated-interest sys c events p (allocate poll_block_size c.polls.storage) free room in
    let is_null0 : is_null c.d.poll_data0 ≡ true = ap is_null null0 in
    let is_null1 : is_null c.d.poll_data1 ≡ true = ap is_null null1 in
    ground (arith, self, is_null0, is_null1, all)

-- What `up` leaves, by the handshake, when SSL_new and SSL_set_fd succeed: the descriptor is watched
-- if epoll_ctl(2) takes it. The result says so when the handshake is done, but not before that.
unfoldable pub Starts : Sys → Handshake → SslConn → SslConn × Bool → Type 0
Starts sys Handshake.done s out =
    out.1 ≡ sys.epoll_add s.c.d.fd0
    × out.0.c.polls.interest s.c.d.fd0
      ≡ (if sys.epoll_add s.c.d.fd0 then some (bit_or epollin epoll_always) else none)
Starts sys Handshake.failed s out = out.1 ≡ false × out.0.c.polls.interest s.c.d.fd0 ≡ none
Starts sys h s out =
    out.1 ≡ true
    × out.0.handshaking ≡ true
    × out.0.c.polls.interest s.c.d.fd0
      ≡ (if sys.epoll_add s.c.d.fd0 then some (bit_or (wanted h) epoll_always) else none)

-- If SSL_new and SSL_set_fd succeed, nothing of the connection is registered, and a PollData is
-- allocated, then up, when the handshake is done, returns 0 exactly if epoll_ctl(2) takes the
-- descriptor; when it has failed, -1; and when it has to wait, 0 in the handshake, whether or not
-- epoll_ctl(2) takes the descriptor. The descriptor is watched, for what is needed next, exactly if
-- the handshake has not failed and epoll_ctl(2) takes it.
pub up-Starts :
    (sys : Sys) (h : Handshake) (s : SslConn) (p : ℕ)
    → s.c.d.poll_data0 ≡ none
    → s.c.d.poll_data1 ≡ none
    → s.c.polls.interest s.c.d.fd0 ≡ none
    → (allocate poll_block_size s.c.polls.storage).1 ≡ some p
    → Starts sys h s (up sys true true h s)
unfolding up ssl_init shaken handle_handshake wait_for Starts
up-Starts sys Handshake.done s p null0 null1 free room =
    let c = (ssl_prepared s).c in
    let (added, interest) = add_poll_fd-interest sys c epollin p null0 null1 free room in
    elim (Bool-cases (add_poll_fd sys c c.d.fd0 epollin).1) [
      | inl e ↦ rw e (sym e ∙ added, interest)
      | inr e ↦ rw e (sym e ∙ added, interest)
    ]
up-Starts sys Handshake.want_write s p null0 null1 free room =
    let c = (ssl_prepared s).c in
    (refl, refl, (add_poll_fd-interest sys c epollout p null0 null1 free room).1)
up-Starts sys Handshake.want_read s p null0 null1 free room =
    let c = (ssl_prepared s).c in
    (refl, refl, (add_poll_fd-interest sys c epollin p null0 null1 free room).1)
up-Starts sys Handshake.failed s p null0 null1 free room = (refl, free)

-- ===== src/Loop/Handover.antt =====
-- src/PollLoop.cpp: what becomes of a descriptor that `checkNewFd` takes from the queue when its
-- connection does not come up.
use epoll_http_server.Base.{
  ℕ, ◌≡◌, refl, ap, ◌∙◌, inl, inr, Bool, true, false, Option, none, some, List, [], ◌∷◌, ◌++◌,
  append_assoc, Bytes, arith, Bool-cases, ℤ, is_positive, sym, append-nil,
}
use mathlib.Core.Path.{subst}
use epoll_http_server.Storage.{BlockStorage, allocate}
use epoll_http_server.Exec.Data.{Executor, ExecutorType}
use epoll_http_server.Exec.Sys.{Sys}
use epoll_http_server.Exec.PollFds.{
  Conn, epollin, is_null, add_allocated, add_poll_fd, poll_block_size,
}
use epoll_http_server.Exec.PollFds.Frame.{add_poll_fd-Keeps, remove_poll_fd-Keeps}
use epoll_http_server.Exec.Request
use epoll_http_server.Loop.{
  Loop, NewFd, exec_block_size, conn_of, put_conn, open_fds, down_closes, remove_fd0, remove_fd1,
  remove_executor_data, up_of, brought_up, allocated_exec, create_executor_data, start_request,
  create_request_executor_internal, take_new_fds, check_new_fd,
}

-- epoll_ctl(2) does not add a descriptor, so neither does addPollFd.
add_allocated-refused :
    (sys : Sys) (c : Conn) (fd : ℤ) (events : ℕ) (a : BlockStorage × Option ℕ)
    → sys.epoll_add fd ≡ false
    → (add_allocated sys c fd events a).1 ≡ false
unfolding add_allocated
add_allocated-refused sys c fd events (s, none) refused = refl
add_allocated-refused sys c fd events (s, some p) refused = rw refused refl

add_poll_fd-refused :
    (sys : Sys) (c : Conn) (fd : ℤ) (events : ℕ)
    → sys.epoll_add fd ≡ false
    → (add_poll_fd sys c fd events).1 ≡ false
unfolding add_poll_fd
add_poll_fd-refused sys c fd events refused = ground (
  arith,
  add_allocated-refused sys c fd events (allocate poll_block_size c.polls.storage) refused,
)

up-refused :
    (sys : Sys) (c : Conn)
    → sys.epoll_add c.d.fd0 ≡ false
    → ((Request.up sys c).1 ≡ false) × ((Request.up sys c).0.d.fd0 ≡ c.d.fd0)
unfolding Request.up
up-refused sys c refused =
    let c1 = Request.prepared c in
    rw (add_poll_fd-refused sys c1 c.d.fd0 epollin refused)
      (refl, (add_poll_fd-Keeps sys c1 c.d.fd0 epollin).same_fd0)

remove_fd0-fd0 : (sys : Sys) (c : Conn) → (remove_fd0 sys c).d.fd0 ≡ c.d.fd0
unfolding remove_fd0
remove_fd0-fd0 sys c = elim (Bool-cases (is_null c.d.poll_data0)) [
  | inl e ↦ rw e refl
  | inr e ↦ rw e ((remove_poll_fd-Keeps sys c c.d.fd0).same_fd0)
]

remove_fd1-fd0 : (sys : Sys) (c : Conn) → (remove_fd1 sys c).d.fd0 ≡ c.d.fd0
unfolding remove_fd1
remove_fd1-fd0 sys c = elim (Bool-cases (is_null c.d.poll_data1)) [
  | inl e ↦ rw e refl
  | inr e ↦ rw e ((remove_poll_fd-Keeps sys c c.d.fd1).same_fd0)
]

open_fds-first :
    (fd : ℤ) (fds : List ℤ) → is_positive fd ≡ true → open_fds (fd ∷ fds) ≡ fd ∷ open_fds fds
open_fds-first fd fds positive = rw positive refl

-- removeExecutorData closes the first descriptor of an executor first.
remove_executor_data-closed :
    (sys : Sys) (p : ℕ) (l : Loop) (fd : ℤ)
    → (l.exec p).fd0 ≡ fd
    → is_positive fd ≡ true
    → (others : List ℤ) × ((remove_executor_data sys p l).closed ≡ l.closed ++ fd ∷ others)
unfolding remove_executor_data
remove_executor_data-closed sys p l fd same positive =
    let c = remove_fd1 sys (remove_fd0 sys (conn_of l p)) in
    let kept : c.d.fd0 ≡ fd =
      remove_fd1-fd0 sys (remove_fd0 sys (conn_of l p)) ∙ remove_fd0-fd0 sys (conn_of l p) ∙ same in
    let rest = c.d.fd1 ∷ c.d.pipe_read_fd ∷ c.d.pipe_write_fd ∷ [] in
    (
      open_fds rest,
      ap (λ x. l.closed ++ open_fds (x ∷ rest)) kept
          ∙ ap (λ fds. l.closed ++ fds) (open_fds-first fd rest positive),
    )

-- One list goes on from the other.
record Grows (fds gds : List ℤ) : Type 0 where
  more : List ℤ
  same : gds ≡ fds ++ more

Grows-self : (fds : List ℤ) → Grows fds fds
Grows-self fds = record { more = []; same = sym (append-nil fds) }

Grows-trans : {a b c : List ℤ} → Grows a b → Grows b c → Grows a c
Grows-trans {a} g h = record {
  more = g.more ++ h.more;
  same = h.same ∙ ap (λ x. x ++ h.more) g.same ∙ append_assoc a g.more h.more;
}

-- A connection that is put back and removed.
module _ (strptime_gmt : Bytes → Option ℤ) (strftime_gmt : ℕ → Bytes) where
  brought_up-closed :
      (sys : Sys) (p : ℕ) (l : Loop) (out : Conn × Bool) (fd : ℤ)
      → out.1 ≡ false
      → out.0.d.fd0 ≡ fd
      → is_positive fd ≡ true
      → ((brought_up strptime_gmt strftime_gmt sys p l out).1 ≡ false)
        × ((others : List ℤ) × ((brought_up strptime_gmt strftime_gmt sys p l out).0.closed
              ≡ l.closed ++ fd ∷ others))
  unfolding brought_up
  brought_up-closed sys p l (c, true) fd down same positive = absurd (cc down)
  brought_up-closed sys p l (c, false) fd down same positive =
      let here : ((put_conn l p c).exec p).fd0 ≡ fd = ground (arith, same) in
      (refl, remove_executor_data-closed sys p (put_conn l p c) fd here positive)

  start_request-closed :
      (sys : Sys) (fd : ℤ) (l : Loop) (p : ℕ)
      → sys.epoll_add fd ≡ false
      → is_positive fd ≡ true
      → let out = start_request strptime_gmt strftime_gmt sys fd ExecutorType.request (l, some p) in
        (out.1 ≡ false) × ((others : List ℤ) × (out.0.closed ≡ l.closed ++ fd ∷ others))
  unfolding start_request up_of
  start_request-closed sys fd l p refused positive =
      let d = record (l.exec p) {
        executor = some (Executor.of_type ExecutorType.request);
        fd0 = fd;
      } in
      let c : Conn = record { self = p; d = d; polls = l.polls } in
      let (down, kept) = up-refused sys c refused in
      brought_up-closed sys p l (Request.up sys c) fd down kept positive

  created-closed :
      (sys : Sys) (now : ℕ) (fd : ℤ) (l : Loop) (p : ℕ) (out : BlockStorage × Option ℕ)
      → sys.epoll_add fd ≡ false
      → is_positive fd ≡ true
      → out.1 ≡ some p
      → let result =
          start_request strptime_gmt strftime_gmt sys fd ExecutorType.request
            (allocated_exec now l out) in
        (result.1 ≡ false) × ((others : List ℤ) × (result.0.closed ≡ l.closed ++ fd ∷ others))
  unfolding allocated_exec
  created-closed sys now fd l p (s, none) refused positive room = absurd (cc room)
  created-closed sys now fd l p (s, some q) refused positive room =
      start_request-closed sys fd (allocated_exec now l (s, some q)).0 q refused positive

  brought_up-Grows :
      (sys : Sys) (p : ℕ) (l : Loop) (out : Conn × Bool)
      → Grows l.closed (brought_up strptime_gmt strftime_gmt sys p l out).0.closed
  unfolding brought_up remove_executor_data
  brought_up-Grows sys p l (c, true) = Grows-self l.closed
  brought_up-Grows sys p l (c, false) = record {
    more = down_closes (remove_fd1 sys (remove_fd0 sys (conn_of (put_conn l p c) p))).d;
    same = refl;
  }

  start_request-Grows :
      (sys : Sys) (fd : ℤ) (t : ExecutorType) (out : Loop × Option ℕ)
      → Grows out.0.closed (start_request strptime_gmt strftime_gmt sys fd t out).0.closed
  unfolding start_request
  start_request-Grows sys fd t (l, none) = Grows-self l.closed
  start_request-Grows sys fd t (l, some p) =
      let d = record (l.exec p) { executor = some (Executor.of_type t); fd0 = fd } in
      brought_up-Grows sys p l
        (up_of strptime_gmt strftime_gmt sys t (record { self = p; d = d; polls = l.polls }))

  allocated_exec-closed :
      (now : ℕ) (l : Loop) (out : BlockStorage × Option ℕ)
      → (allocated_exec now l out).0.closed ≡ l.closed
  unfolding allocated_exec
  allocated_exec-closed now l (s, none) = refl
  allocated_exec-closed now l (s, some p) = refl

  created-Grows :
      (sys : Sys) (now : ℕ) (fd : ℤ) (t : ExecutorType) (l : Loop)
      → Grows l.closed
          (create_request_executor_internal strptime_gmt strftime_gmt sys now fd t l).0.closed
  unfolding create_request_executor_internal create_executor_data
  created-Grows sys now fd t l =
      let out = allocate exec_block_size l.execs in
      subst
        (λ fds.
          Grows fds
            (start_request strptime_gmt strftime_gmt sys fd t (allocated_exec now l out)).0.closed)
        (allocated_exec-closed now l out) (start_request-Grows sys fd t (allocated_exec now l out))

  -- No descriptor that was closed is taken from the list again.
  take_new_fds-Grows :
      (sys : Sys) (now : ℕ) (ns : List NewFd) (l : Loop)
      → Grows l.closed (take_new_fds strptime_gmt strftime_gmt sys now ns l).closed
  unfolding take_new_fds
  take_new_fds-Grows sys now [] l = Grows-self l.closed
  take_new_fds-Grows sys now (n ∷ ns) l =
      let made =
        create_request_executor_internal strptime_gmt strftime_gmt sys now n.fd n.exec_type l in
      let first = created-Grows sys now n.fd n.exec_type l in
      elim (Bool-cases made.1) [
        | inl e ↦ rw (e, take_new_fds) (Grows-trans first (take_new_fds-Grows sys now ns made.0))
        | inr e ↦
            rw (e, take_new_fds)
              (Grows-trans first (
                Grows-trans (record { more = n.fd ∷ []; same = refl })
                  (take_new_fds-Grows sys now ns
                    (record made.0 { closed = made.0.closed ++ n.fd ∷ [] }))))
      ]

  take_first :
      (sys : Sys) (now : ℕ) (fd : ℤ) (l : Loop) (ns : List NewFd)
      → let made =
          create_request_executor_internal strptime_gmt strftime_gmt sys now fd ExecutorType.request
            l in
        made.1 ≡ false
        → Grows
            (made.0.closed ++ fd ∷ [])
            (take_new_fds strptime_gmt strftime_gmt sys now
              (record { exec_type = ExecutorType.request; fd = fd } ∷ ns)
              l).closed
  unfolding take_new_fds
  take_first sys now fd l ns down =
      let made =
        create_request_executor_internal strptime_gmt strftime_gmt sys now fd ExecutorType.request
          l in
      let l'' = record made.0 { closed = made.0.closed ++ fd ∷ [] } in
      rw (down, take_new_fds) (take_new_fds-Grows sys now ns l'')

  -- If epoll_ctl(2) does not accept a positive descriptor that is the first of the queue of
  -- checkNewFd, for a request, and an executor is allocated for it, then, whatever stands behind it
  -- in the queue, the descriptor is closed twice: with the executor, and then by checkNewFd.
  pub check_new_fd-closes_twice :
      (sys : Sys) (now : ℕ) (fd : ℤ) (l : Loop) (p : ℕ) (ns : List NewFd)
      → sys.epoll_add fd ≡ false
      → is_positive fd ≡ true
      → l.new_fds ≡ record { exec_type = ExecutorType.request; fd = fd } ∷ ns
      → (allocate exec_block_size l.execs).1 ≡ some p
      → (others : List ℤ) × (later : List ℤ) × ((check_new_fd strptime_gmt strftime_gmt sys now
            l).closed
          ≡ l.closed ++ fd ∷ (others ++ fd ∷ later))
  unfolding check_new_fd create_request_executor_internal create_executor_data
  check_new_fd-closes_twice sys now fd l p ns refused positive queue room =
      let l' = record l { new_fds = [] } in
      let (down, both) =
        created-closed sys now fd l' p (allocate exec_block_size l.execs) refused positive room in
      let (others, closed) = both in
      let grows = take_first sys now fd l' ns down in
      let later = grows.more in
      (
        others,
        later,
        ap (λ ns. (take_new_fds strptime_gmt strftime_gmt sys now ns l').closed) queue
            ∙ grows.same
            ∙ ap (λ fds. (fds ++ fd ∷ []) ++ later) closed
            ∙ append_assoc (l.closed ++ fd ∷ others) (fd ∷ []) later
            ∙ append_assoc l.closed (fd ∷ others) (fd ∷ later),
      )

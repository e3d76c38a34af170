-- ===== src/Loop/Forget.antt =====
-- src/PollLoop.cpp: what the removal of an executor leaves of its two PollData, and what becomes of
-- events that were registered with them.
use epoll_http_server.Base.{
  ℕ, ◌≡◌, refl, ap, ap₂, ◌∙◌, ◌⊎◌, inl, inr, true, false, Option, none, some, arith, ℤ, int_eq,
  Bool-cases, Bytes, List, [], ◌∷◌, ◌++◌,
}
use epoll_http_server.Exec.Data.{ExecutorData}
use epoll_http_server.Exec.Sys.{Sys}
use epoll_http_server.Exec.PollFds.{
  Conn, poll_down, is_null, same_pointer, find_poll_data, remove_found, remove_poll_fd,
}
use epoll_http_server.Exec.PollFds.Frame.{remove_poll_fd-Keeps}
use epoll_http_server.Exec.PollFds.Registered.{int_eq_self, int_eq_comm}
use epoll_http_server.Loop.{Loop, conn_of, remove_fd0, remove_fd1, remove_executor_data}
use epoll_http_server.Loop.Events.{Event, handle_data, handle_event, handle_events}

-- removePollFd of a pointer that was looked up takes the PollData down.
remove_found-down :
    (sys : Sys) (c : Conn) (fd : ℤ) (a : ℕ)
    → sys.epoll_del fd ≡ true
    → (remove_found sys c fd (some a)).0.polls.item a ≡ poll_down
unfolding remove_found
remove_found-down sys c fd a del = ground (arith, del)

-- A PollData that is down stays so.
remove_found-stays :
    (sys : Sys) (c : Conn) (fd : ℤ) (o : Option ℕ) (a : ℕ)
    → c.polls.item a ≡ poll_down
    → (remove_found sys c fd o).0.polls.item a ≡ poll_down
unfolding remove_found
remove_found-stays sys c fd none a stays = stays
remove_found-stays sys c fd (some b) a stays = ground (arith, stays)

remove_fd0-down :
    (sys : Sys) (c : Conn) (a : ℕ)
    → c.d.poll_data0 ≡ some a
    → sys.epoll_del c.d.fd0 ≡ true
    → (remove_fd0 sys c).polls.item a ≡ poll_down
unfolding remove_fd0 remove_poll_fd
remove_fd0-down sys c a here del =
    let found : find_poll_data c.d c.d.fd0 ≡ some a = rw (int_eq_self c.d.fd0) here in
    let full : is_null c.d.poll_data0 ≡ false = ap is_null here in
    rw (full, found) (remove_found-down sys c c.d.fd0 a del)

remove_fd1-down :
    (sys : Sys) (c : Conn) (a : ℕ)
    → c.d.poll_data1 ≡ some a
    → int_eq c.d.fd0 c.d.fd1 ≡ false
    → sys.epoll_del c.d.fd1 ≡ true
    → (remove_fd1 sys c).polls.item a ≡ poll_down
unfolding remove_fd1 remove_poll_fd
remove_fd1-down sys c a here apart del =
    let found : find_poll_data c.d c.d.fd1 ≡ some a =
      rw (int_eq_comm c.d.fd1 c.d.fd0) (rw (apart, int_eq_self c.d.fd1) here) in
    let full : is_null c.d.poll_data1 ≡ false = ap is_null here in
    rw (full, found) (remove_found-down sys c c.d.fd1 a del)

remove_fd1-stays :
    (sys : Sys) (c : Conn) (a : ℕ)
    → c.polls.item a ≡ poll_down
    → (remove_fd1 sys c).polls.item a ≡ poll_down
unfolding remove_fd1 remove_poll_fd
remove_fd1-stays sys c a stays = elim (Bool-cases (is_null c.d.poll_data1)) [
  | inl e ↦ rw e stays
  | inr e ↦ rw e (remove_found-stays sys c c.d.fd1 (find_poll_data c.d c.d.fd1) a stays)
]

-- The first removal leaves the descriptors and the second pointer.
remove_found-poll_data1 :
    (sys : Sys) (c : Conn) (fd : ℤ) (o : Option ℕ)
    → same_pointer o c.d.poll_data0 ≡ true
    → (remove_found sys c fd o).0.d.poll_data1 ≡ c.d.poll_data1
unfolding remove_found
remove_found-poll_data1 sys c fd none same = refl
remove_found-poll_data1 sys c fd (some b) same = ground (arith, same)

same_pointer_self : (o : Option ℕ) → same_pointer o o ≡ true
same_pointer_self none = refl
same_pointer_self (some a) = ground arith

remove_fd0-keeps :
    (sys : Sys) (c : Conn)
    → ((remove_fd0 sys c).d.poll_data1 ≡ c.d.poll_data1)
      × ((remove_fd0 sys c).d.fd0 ≡ c.d.fd0)
      × ((remove_fd0 sys c).d.fd1 ≡ c.d.fd1)
unfolding remove_fd0 remove_poll_fd
remove_fd0-keeps sys c = elim (Bool-cases (is_null c.d.poll_data0)) [
  | inl e ↦ rw e (refl, refl, refl)
  | inr e ↦
      (let found : find_poll_data c.d c.d.fd0 ≡ c.d.poll_data0 = rw (int_eq_self c.d.fd0) refl in
        let keeps = remove_poll_fd-Keeps sys c c.d.fd0 in
        rw e (
          remove_found-poll_data1 sys c c.d.fd0 (find_poll_data c.d c.d.fd0)
              (ap (λ o. same_pointer o c.d.poll_data0) found ∙ same_pointer_self c.d.poll_data0),
          keeps.same_fd0,
          keeps.same_fd1,
        ))
]

-- Both PollData of an executor are down when it is removed.
remove_executor_data-down :
    (sys : Sys) (p a : ℕ) (l : Loop)
    → ((l.exec p).poll_data0 ≡ some a) ⊎ ((l.exec p).poll_data1 ≡ some a)
    → int_eq (l.exec p).fd0 (l.exec p).fd1 ≡ false
    → sys.epoll_del (l.exec p).fd0 ≡ true
    → sys.epoll_del (l.exec p).fd1 ≡ true
    → (remove_executor_data sys p l).polls.item a ≡ poll_down
unfolding remove_executor_data
remove_executor_data-down sys p a l (inl here) apart del0 del1 =
    remove_fd1-stays sys (remove_fd0 sys (conn_of l p)) a
      (remove_fd0-down sys (conn_of l p) a here del0)
remove_executor_data-down sys p a l (inr here) apart del0 del1 =
    let (pointer, fd0, fd1) = remove_fd0-keeps sys (conn_of l p) in
    remove_fd1-down sys (remove_fd0 sys (conn_of l p)) a (pointer ∙ here)
      (ap₂ int_eq fd0 fd1 ∙ apart) (ap sys.epoll_del fd1 ∙ del1)

-- The event was registered with one of the two PollData of an executor.
unfoldable pub IsOf : ExecutorData → Event → Type 0
IsOf d e = (d.poll_data0 ≡ some e.pointer) ⊎ (d.poll_data1 ≡ some e.pointer)

unfoldable pub AllOf : ExecutorData → List (Sys × Event) → Type 0
AllOf d [] = Unit {0}
AllOf d ((sys, e) ∷ es) = IsOf d e × AllOf d es

module _ (strptime_gmt : Bytes → Option ℤ) (strftime_gmt : ℕ → Bytes) where
  down-ignored :
      (sys : Sys) (now : ℕ) (l : Loop) (e : Event)
      → l.polls.item e.pointer ≡ poll_down
      → handle_event strptime_gmt strftime_gmt sys now e l ≡ some (l, true)
  unfolding handle_event handle_data
  down-ignored sys now l e gone = rw gone refl

  -- If an executor, whose descriptors differ and are removed from epoll without an error, is removed,
  -- then the events of a batch that directly follow and were registered with one of its two PollData
  -- are passed over: the loop goes on as it is with the events behind them.
  pub handle_events-removed :
      (sys : Sys) (now p : ℕ) (l : Loop) (es rest : List (Sys × Event))
      → AllOf (l.exec p) es
      → int_eq (l.exec p).fd0 (l.exec p).fd1 ≡ false
      → sys.epoll_del (l.exec p).fd0 ≡ true
      → sys.epoll_del (l.exec p).fd1 ≡ true
      → handle_events strptime_gmt strftime_gmt now (es ++ rest) (remove_executor_data sys p l)
        ≡ handle_events strptime_gmt strftime_gmt now rest (remove_executor_data sys p l)
  unfolding handle_events AllOf IsOf
  handle_events-removed sys now p l [] rest all apart del0 del1 = refl
  handle_events-removed sys now p l ((sys', e) ∷ es) rest all apart del0 del1 =
      let gone = remove_executor_data-down sys p e.pointer l all.0 apart del0 del1 in
      rw (down-ignored sys' now (remove_executor_data sys p l) e gone)
        (handle_events-removed sys now p l es rest all.1 apart del0 del1)

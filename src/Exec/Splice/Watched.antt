-- ===== src/Exec/Splice/Watched.antt =====
-- src/executors/ProxyExecutorSplice.cpp: the events that a connection whose response passes through
-- the pipe waits for when a handler has returned.
use epoll_http_server.Base.{
  ℕ, ◌⊎◌, ◌+◌, Bool, true, false, ◌≡◌, refl, ap, ◌∙◌, arith, ℤ, pos, negsuc, int_eq, is_positive,
  is_zero, is_negative, add_int, sub_int, Bool-cases, inl, inr, if◌then◌else◌, ◌&&◌, not,
}
use epoll_http_server.Exec.Data.{State, ProcessResult, is_state}
use epoll_http_server.Exec.Sys.{Sys, Write, would_block}
use epoll_http_server.Exec.PollFds.{
  has_in, has_out, Conn, remove_poll_fd, close_fd, is_null, retry, no_retry, with_state,
}
use epoll_http_server.Exec.PollFds.Frame.{remove_poll_fd-Keeps}
use epoll_http_server.Exec.PollFds.Registered.{
  Apart, close_fd-Keeps, Apart-closed, remove_poll_fd-fd0,
}
use epoll_http_server.Exec.Splice.{
  process, pipe_written, process_forward_response_write, response_spliced,
  process_forward_response_read,
}
use epoll_http_server.Exec.Splice.Waits.{
  Watched, LeavesWatched, Moves, or_error-Watched, left-Watched, retry-Watched, pipe_left-Watched,
  positive-Watched,
}

written-Watched :
    (sys : Sys) (c : Conn) (w : Write)
    → int_eq c.d.fd0 c.d.fd1 ≡ false
    → is_positive c.d.bytes_in_pipe ≡ true
    → Moves w
    → LeavesWatched (pipe_written sys c w)
unfolding pipe_written
written-Watched sys c (Write.nothing e) apart h m = absurd m
written-Watched sys c (Write.failed e) apart h m = elim (Bool-cases (would_block e)) [
  | inl block ↦ rw block (
      or_error-Watched _ (λ c1. (c1, ProcessResult.ok))
        (λ added k. left-Watched sys (retry c) h added))
  | inr other ↦ rw other (λ k. absurd (ground arith))
]
written-Watched sys c (Write.moved n) apart h m =
    let left = sub_int c.d.bytes_in_pipe (n + 1) in
    elim (Bool-cases (is_negative left)) [
      | inl under ↦ rw under (λ k. absurd (ground arith))
      | inr count ↦
          elim (Bool-cases (is_state c.d.state State.forward_response_only_write && is_zero left)) [
            | inl last ↦ rw (count, last) (λ k. absurd (ground arith))
            | inr more ↦
                rw (count, more)
                  (pipe_left-Watched sys
                    (no_retry (record c { d = record c.d { bytes_in_pipe = left } })) apart count)
          ]
    ]

-- `process_forwardResponseWrite` keeps a connection watched.
pub process_forward_response_write-Watched :
    (sys : Sys) (c : Conn)
    → int_eq c.d.fd0 c.d.fd1 ≡ false
    → (is_positive c.d.bytes_in_pipe ≡ false
        → is_state c.d.state State.forward_response_only_write ≡ false
        → Watched c)
    → Moves sys.splice_out
    → LeavesWatched (process_forward_response_write sys c)
unfolding process_forward_response_write
process_forward_response_write-Watched sys c apart w m =
    elim (Bool-cases (is_positive c.d.bytes_in_pipe)) [
      | inl h ↦ rw h (written-Watched sys c sys.splice_out apart h m)
      | inr none_left ↦ elim (Bool-cases (is_state c.d.state State.forward_response_only_write)) [
        | inl last ↦ rw (none_left, last) (λ k. absurd (ground arith))
        | inr goes_on ↦ rw (none_left, goes_on) (λ k. retry-Watched c (w none_left goes_on))
      ]
    ]

add_int_positive : (x : ℤ) (n : ℕ) → is_negative x ≡ false → is_positive (add_int x (n + 1)) ≡ true
add_int_positive (pos m) n h = ground arith
add_int_positive (negsuc m) n h = absurd (ground arith)

-- Nothing can be read at the moment: with bytes in the pipe the server's descriptor is removed.
blocked-Watched :
    (sys : Sys) (c : Conn)
    → Apart c
    → Watched c
    → Watched
        (if◌then◌else◌ {A = Conn × Bool}
          (is_positive c.d.bytes_in_pipe && not (is_null c.d.poll_data1))
          (remove_poll_fd sys c c.d.fd1)
          (c, true)).0
blocked-Watched sys c a w =
    elim (Bool-cases (is_positive c.d.bytes_in_pipe && not (is_null c.d.poll_data1))) [
      | inl both ↦
          let k = remove_poll_fd-Keeps sys c c.d.fd1 in
          let h : is_positive c.d.bytes_in_pipe ≡ true = ground arith in
          rw both (
            positive-Watched _ (ap is_positive k.same_pipe ∙ h)
              (remove_poll_fd-fd0 sys c a ∙ w.client h))
      | inr other ↦ rw other w
    ]

spliced-Watched :
    (sys : Sys) (c : Conn) (r : Write)
    → Apart c
    → Watched c
    → Moves sys.splice_out
    → LeavesWatched (response_spliced sys c r)
unfolding response_spliced
spliced-Watched sys c (Write.nothing e) a w m =
    let c1 = (close_fd sys c c.d.fd1).0 in
    let (fd0, fd1, pipe) = close_fd-Keeps sys c a.fds in
    process_forward_response_write-Watched sys (with_state State.forward_response_only_write c1)
      (rw (fd0, fd1) (Apart-closed c.d.fd0 a.open0)) (λ p s. absurd (ground arith)) m
spliced-Watched sys c (Write.failed e) a w m = elim (Bool-cases (would_block e)) [
  | inl block ↦ rw block (
      or_error-Watched _ (λ c1. (c1, ProcessResult.ok))
        (λ removed k.
          blocked-Watched sys (retry c)
            (record { open0 = a.open0; fds = a.fds; pointers = a.pointers }) (retry-Watched c w)))
  | inr other ↦ rw other (λ k. absurd (ground arith))
]
spliced-Watched sys c (Write.moved n) a w m =
    process_forward_response_write-Watched sys _ a.fds
      (λ p s. absurd (ground (arith, add_int_positive c.d.bytes_in_pipe n w.count))) m

-- `process_forwardResponseRead`: if it returns `ok`, the connection has an event to wait for, either
-- that the client takes more bytes or that the server sends some, and `bytesInPipe` is not negative,
-- provided that this was so before, that the two descriptors and their `PollData` differ, and that
-- splice(2) does not return 0 on a pipe that holds bytes.
pub process_forward_response_read-Watched :
    (sys : Sys) (c : Conn)
    → Apart c
    → Watched c
    → Moves sys.splice_out
    → LeavesWatched (process_forward_response_read sys c)
unfolding process_forward_response_read
process_forward_response_read-Watched sys c a w m = spliced-Watched sys c sys.splice_in a w m

choice-Watched :
    (b b' : Bool) (x y : Conn × ProcessResult) (c : Conn)
    → LeavesWatched x
    → LeavesWatched y
    → LeavesWatched (if b then x else if b' then y else (c, ProcessResult.remove_executor_error))
choice-Watched true b' x y c h k = h
choice-Watched false true x y c h k = k
choice-Watched false false x y c h k = λ e. absurd (ground arith)

-- A connection that forwards the response and is watched, whose descriptors and their `PollData`
-- differ, for any event: if `process` returns `ok`, it is watched again, provided that splice(2) does
-- not return 0 on a pipe that holds bytes.
pub process-Watched :
    (sys : Sys) (c : Conn) (fd : ℤ) (events : ℕ)
    → (c.d.state ≡ State.forward_response) ⊎ (c.d.state ≡ State.forward_response_only_write)
    → Apart c
    → Watched c
    → Moves sys.splice_out
    → LeavesWatched (process sys c fd events)
unfolding process
process-Watched sys c fd events s a w m =
    let reads = process_forward_response_read-Watched sys c a w m in
    let writes = process_forward_response_write-Watched sys c a.fds (λ p k. w) m in
    let test : State → Bool = is_state c.d.state in
    elim s [
      | inl e ↦
          let connect : test State.wait_connect ≡ false = rw e refl in
          let request : test State.forward_request ≡ false = rw e refl in
          let response : test State.forward_response ≡ true = rw e refl in
          rw (connect, request, response)
            (choice-Watched (int_eq fd c.d.fd1 && has_in events)
              (int_eq fd c.d.fd0 && has_out events) _ _ c reads writes)
      | inr e ↦
          let connect : test State.wait_connect ≡ false = rw e refl in
          let request : test State.forward_request ≡ false = rw e refl in
          let response : test State.forward_response ≡ false = rw e refl in
          let only : test State.forward_response_only_write ≡ true = rw e refl in
          rw (connect, request, response, only)
            (choice-Watched false (int_eq fd c.d.fd0 && has_out events)
              (process_forward_response_read sys c) _ c reads writes)
    ]

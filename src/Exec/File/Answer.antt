-- ===== src/Exec/File/Answer.antt =====
-- What waits to be sent once the file executor has taken a connection over.
use epoll_http_server.Base.{
  ℕ, Bool, true, false, Option, none, some, Bytes, ◌≡◌, refl, sym, ap, ◌∙◌, arith, ℤ, pos, pos_part,
  is_negative, Bool-cases, inl, inr, if◌then◌else◌,
}
use epoll_http_server.Ring.Bounds.{IsValid}
use epoll_http_server.Ring.Fifo.{contents}
use epoll_http_server.Http.Request.{HttpRequest}
use epoll_http_server.Http.Methods.{get_if_modified_since}
use epoll_http_server.Exec.Data.{State}
use epoll_http_server.Exec.Sys.{Sys, Errno}
use epoll_http_server.Exec.PollFds.{Conn, edit_poll_fd, with_state, epollout}
use epoll_http_server.Exec.PollFds.Frame.{edit_poll_fd-Keeps}
use epoll_http_server.Exec.Response.{
  ok200, not_found404, not_modified304, ok200_text, not_found404_text, not_modified304_text,
}
use epoll_http_server.Exec.File.{
  and_then, create_response, create_ok_response, opened, not_opened, up, HttpCode, not_after,
}
use epoll_http_server.Exec.File.Created.{create-contents}

-- The state and the bytes are those of an answer.
abbrev pub Answered : Conn → Option (Bytes × State) → Type 0
Answered c a = a ≡ some (contents c.d.buffer, c.d.state)

and_then-Answered :
    (out : Conn × Bool) (f : Conn → Conn × Bool) (a : Option (Bytes × State))
    → (out.1 ≡ true → (f out.0).1 ≡ true → Answered (f out.0).0 a)
    → (and_then out f).1 ≡ true
    → Answered (and_then out f).0 a
and_then-Answered (c, true) f a k h = k refl h
and_then-Answered (c, false) f a k h = absurd (ground arith)

edited-Answered :
    (sys : Sys) (c : Conn) (fd : ℤ) (events : ℕ) (a : Option (Bytes × State))
    → Answered c a
    → Answered (edit_poll_fd sys c fd events).0 a
edited-Answered sys c fd events a e =
    let k = edit_poll_fd-Keeps sys c fd events in
    e ∙ sym (ap (λ x. some x) (pair (ap contents k.same_buffer) k.same_state))
  where
    pair : {x y : Bytes} {s t : State} → x ≡ y → s ≡ t → ◌≡◌ {A = Bytes × State} (x, s) (y, t)
    pair e f = cc

made-Answered :
    (out : Conn × Bool) (text : Bytes) (s : State)
    → (out.1 ≡ true → contents out.0.d.buffer ≡ text)
    → (and_then out (λ c. (with_state s c, true))).1 ≡ true
    → Answered (and_then out (λ c. (with_state s c, true))).0 (some (text, s))
made-Answered out text s k h =
    and_then-Answered out (λ c. (with_state s c, true)) _
      (λ made h1. ap (λ b. some (b, s)) (sym (k made))) h

-- What a connection that the file executor has taken over is to send first, and whether a file
-- follows, by what open(2) and fstat(2) answer. `none` is a connection to be removed.
module _ (strptime_gmt : Bytes → Option ℤ) (strftime_gmt : ℕ → Bytes) where
  abbrev pub answer_found : HttpRequest → Option (ℕ × ℕ) → Option (Bytes × State)
  answer_found r none = none
  answer_found r (some (size, last_modified)) =
      if not_after last_modified (get_if_modified_since strptime_gmt r)
      then some (not_modified304_text, State.send_only_headers)
      else some (ok200_text size (strftime_gmt last_modified), State.send_headers)

  abbrev pub answer_missing : Errno → Option (Bytes × State)
  answer_missing Errno.enoent = some (not_found404_text, State.send_only_headers)
  answer_missing _ = none

  abbrev pub answer : Sys → HttpRequest → Option (Bytes × State)
  answer sys r =
      if is_negative sys.open_file.0
      then answer_missing sys.open_file.1
      else answer_found r sys.fstat

  created-304 :
      (c : Conn)
      → IsValid c.d.buffer
      → (create_response c HttpCode.not_modified).1 ≡ true
      → contents (create_response c HttpCode.not_modified).0.d.buffer ≡ not_modified304_text
  unfolding create_response not_modified304
  created-304 c v h = create-contents not_modified304 not_modified304_text c (λ n. refl) v h

  created-404 :
      (c : Conn)
      → IsValid c.d.buffer
      → (create_response c HttpCode.not_found).1 ≡ true
      → contents (create_response c HttpCode.not_found).0.d.buffer ≡ not_found404_text
  unfolding create_response not_found404
  created-404 c v h = create-contents not_found404 not_found404_text c (λ n. refl) v h

  created-200 :
      (c : Conn) (t : ℕ)
      → IsValid c.d.buffer
      → (create_ok_response strptime_gmt strftime_gmt c t).1 ≡ true
      → contents (create_ok_response strptime_gmt strftime_gmt c t).0.d.buffer
        ≡ ok200_text (pos_part c.d.bytes_to_send) (strftime_gmt t)
  unfolding create_ok_response ok200
  created-200 c t v h =
      create-contents _ (ok200_text (pos_part c.d.bytes_to_send) (strftime_gmt t)) c (λ n. refl) v h

  not_opened-Answered :
      (sys : Sys) (c : Conn) (e : Errno)
      → IsValid c.d.buffer
      → (not_opened strptime_gmt strftime_gmt sys c e).1 ≡ true
      → Answered (not_opened strptime_gmt strftime_gmt sys c e).0 (answer_missing e)
  unfolding not_opened
  not_opened-Answered sys c Errno.enoent v h =
      let made = create_response c HttpCode.not_found in
      and_then-Answered made
        (λ c1.
          and_then (edit_poll_fd sys c1 c1.d.fd0 epollout)
            (λ c2. (with_state State.send_only_headers c2, true)))
        _
        (λ m h1.
          made-Answered (edit_poll_fd sys made.0 made.0.d.fd0 epollout) not_found404_text
            State.send_only_headers
            (λ edited.
              ap contents (edit_poll_fd-Keeps sys made.0 made.0.d.fd0 epollout).same_buffer
              ∙ created-404 c v m)
            h1)
        h
  not_opened-Answered sys c e v h = absurd (ground arith)

  opened-Answered :
      (sys : Sys) (c : Conn) (st : Option (ℕ × ℕ))
      → IsValid c.d.buffer
      → (opened strptime_gmt strftime_gmt sys c st).1 ≡ true
      → Answered (opened strptime_gmt strftime_gmt sys c st).0 (answer_found c.d.request st)
  unfolding opened
  opened-Answered sys c none v h = absurd (ground arith)
  opened-Answered sys c (some (size, t)) v h =
      let c1 = record c { d = record c.d { bytes_to_send = pos size } } in
      elim (Bool-cases (not_after t (get_if_modified_since strptime_gmt c.d.request))) [
        | inl old ↦ rw old (
            and_then-Answered _ (λ c3. edit_poll_fd sys c3 c3.d.fd0 epollout) _
              (λ made edited. edited-Answered sys _ _ epollout _ (
                made-Answered (create_response c1 HttpCode.not_modified) not_modified304_text
                  State.send_only_headers (created-304 c1 v) made))
              (rw old at h))
        | inr new ↦ rw new (
            and_then-Answered _ (λ c3. edit_poll_fd sys c3 c3.d.fd0 epollout) _
              (λ made edited. edited-Answered sys _ _ epollout _ (
                made-Answered (create_ok_response strptime_gmt strftime_gmt c1 t)
                  (ok200_text size (strftime_gmt t)) State.send_headers (created-200 c1 t v) made))
              (rw new at h))
      ]

  -- `FileExecutor::up`, with a valid buffer: if it returns 0, then what waits in the buffer, and the
  -- state, are what `answer` says of the results of open(2) and fstat(2) and of the request's
  -- If-Modified-Since: the response 404 for a file that does not exist, 304 for one that has not
  -- changed, and else 200 with the file's size and time, after which the file is to follow.
  pub up-Answered :
      (sys : Sys) (c : Conn)
      → IsValid c.d.buffer
      → (up strptime_gmt strftime_gmt sys c).1 ≡ true
      → Answered (up strptime_gmt strftime_gmt sys c).0 (answer sys c.d.request)
  unfolding up
  up-Answered sys c v h =
      let c1 = record c { d = record c.d { remove_on_timeout = true; fd1 = sys.open_file.0 } } in
      elim (Bool-cases (is_negative sys.open_file.0)) [
        | inl missing ↦ rw missing (not_opened-Answered sys c1 sys.open_file.1 v (rw missing at h))
        | inr found ↦ rw found (opened-Answered sys c1 sys.fstat v (rw found at h))
      ]

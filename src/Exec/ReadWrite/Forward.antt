-- ===== src/Exec/ReadWrite/Forward.antt =====
-- src/executors/ProxyExecutorReadWrite.cpp: which bytes of the response are passed on.
use epoll_http_server.Base.{
  ℕ, ◌+◌, ◌≤◌, Option, none, some, [], ◌∷◌, Bytes, ◌≡◌, refl, sym, ap, ◌∙◌, arith, length, drop,
  zero, suc, ℤ,
}
use mathlib.Core.Path.{subst}
use epoll_http_server.Ring.{TransferRingBuffer, Region, start_read, end_read}
use epoll_http_server.Ring.Bounds.{IsValid, end_read-IsValid}
use epoll_http_server.Ring.Fifo.{contents, drop-contents, start_read-none}
use epoll_http_server.Exec.Sys.{Sys, Write, Errno}
use epoll_http_server.Exec.PollFds.{Conn, no_retry, with_buffer, epollin, epollout}
use epoll_http_server.Exec.PollFds.Frame.{add_poll_fd-Keeps, remove_poll_fd-Keeps}
use epoll_http_server.Exec.ReadWrite.{
  add_if_null, remove_unless_null, response_refused, response_written, response_sent,
  response_region, no_place, process_forward_response_write,
}

-- write(2) takes no more than it is given.
abbrev pub AtMost : Write → ℕ → Type 0
AtMost (Write.moved n) k = n + 1 ≤ k
AtMost _ k = Unit {0}

-- the bytes that write(2) took
abbrev pub taken_by : Write → ℕ
taken_by (Write.moved n) = n + 1
taken_by _ = 0

-- The kernel's answer to the one write(2) of the invocation fits the region that it was given.
abbrev pub WriteFits : Sys → TransferRingBuffer → Type 0
WriteFits sys b = (g : Region) → start_read b ≡ some g → AtMost sys.write g.size

-- The bytes that waited in `b` less the first `n` wait in `b'`.
pub record Sends (n : ℕ) (b b' : TransferRingBuffer) : Type 0 where
  pub valid : IsValid b'
  pub bytes : contents b' ≡ drop n (contents b)

add_if_null-buffer :
    (sys : Sys) (c : Conn) (p : Option ℕ) (fd : ℤ) (events : ℕ)
    → (add_if_null sys c p fd events).0.d.buffer ≡ c.d.buffer
add_if_null-buffer sys c none fd events = (add_poll_fd-Keeps sys c fd events).same_buffer
add_if_null-buffer sys c (some p) fd events = refl

remove_unless_null-buffer :
    (sys : Sys) (c : Conn) (p : Option ℕ) (fd : ℤ)
    → (remove_unless_null sys c p fd).0.d.buffer ≡ c.d.buffer
remove_unless_null-buffer sys c none fd = refl
remove_unless_null-buffer sys c (some p) fd = (remove_poll_fd-Keeps sys c fd).same_buffer

response_refused-buffer :
    (sys : Sys) (c : Conn) (e : Errno) → (response_refused sys c e).0.d.buffer ≡ c.d.buffer
unfolding response_refused
response_refused-buffer sys c e =
    ground (arith, add_if_null-buffer sys c c.d.poll_data0 c.d.fd0 epollout)

response_sent-buffer : (sys : Sys) (c : Conn) → (response_sent sys c).0.d.buffer ≡ c.d.buffer
unfolding response_sent
response_sent-buffer sys c = ground (arith, add_poll_fd-Keeps sys c c.d.fd1 epollin)

empty-buffer : (sys : Sys) (c : Conn) → (response_region sys c none).0.d.buffer ≡ c.d.buffer
unfolding response_region
empty-buffer sys c = ground (arith, remove_unless_null-buffer sys c c.d.poll_data0 c.d.fd0)

no_place-buffer : (sys : Sys) (c : Conn) → (no_place sys c).0.d.buffer ≡ c.d.buffer
unfolding no_place
no_place-buffer sys c =
    let (c1, done) = remove_unless_null sys c c.d.poll_data1 c.d.fd1 in
    ground (
      arith,
      remove_unless_null-buffer sys c c.d.poll_data1 c.d.fd1,
      add_if_null-buffer sys c1 c1.d.poll_data0 c1.d.fd0 epollout,
    )

pub Sends-none : (b b' : TransferRingBuffer) → IsValid b → b' ≡ b → Sends 0 b b'
Sends-none b b' v e = record { valid = subst IsValid (sym e) v; bytes = ap contents e }

pub Sends-empty :
    (n : ℕ) (b b' : TransferRingBuffer) → IsValid b → start_read b ≡ none → b' ≡ b → Sends n b b'
Sends-empty n b b' v h e = record {
  valid = subst IsValid (sym e) v;
  bytes = ap contents e ∙ nothing n (contents b) ((start_read-none b v).0 h);
}
  where
    nothing : (n : ℕ) (xs : Bytes) → length xs ≡ 0 → xs ≡ drop n xs
    nothing zero xs l = refl
    nothing (suc n) [] l = refl
    nothing (suc n) (x ∷ xs) l = absurd (omega arith)

pub Sends-region :
    (n : ℕ) (b b' : TransferRingBuffer) {g : Region}
    → IsValid b
    → start_read b ≡ some g
    → n ≤ g.size
    → b' ≡ end_read b n
    → Sends n b b'
Sends-region n b b' {g} v h le e = record {
  valid = subst IsValid (sym e) (end_read-IsValid b g n v h le);
  bytes = ap contents e ∙ drop-contents b n v h le;
}

written-Sends :
    (sys : Sys) (c : Conn) (g : Region) (w : Write)
    → IsValid c.d.buffer
    → start_read c.d.buffer ≡ some g
    → AtMost w g.size
    → Sends (taken_by w) c.d.buffer (response_written sys c w).0.d.buffer
written-Sends sys c g (Write.moved n) v h le = Sends-region (n + 1) c.d.buffer _ v h le (
    unfold response_written in
    response_sent-buffer sys (no_retry (with_buffer (end_read c.d.buffer (n + 1)) c)))
written-Sends sys c g (Write.nothing e) v h le =
    Sends-none c.d.buffer _ v (unfold response_written in response_refused-buffer sys c e)
written-Sends sys c g (Write.failed e) v h le =
    Sends-none c.d.buffer _ v (unfold response_written in response_refused-buffer sys c e)

region-Sends :
    (sys : Sys) (c : Conn) (g : Option Region)
    → IsValid c.d.buffer
    → start_read c.d.buffer ≡ g
    → WriteFits sys c.d.buffer
    → Sends (taken_by sys.write) c.d.buffer (response_region sys c g).0.d.buffer
unfolding response_region
region-Sends sys c (some g) v h fits = written-Sends sys c g sys.write v h (fits g h)
region-Sends sys c none v h fits =
    Sends-empty (taken_by sys.write) c.d.buffer _ v h (empty-buffer sys c)

-- If write(2) takes no more than it is given, `process_forwardResponseWrite` keeps a valid buffer
-- valid, and the bytes that the client's socket took, and no others, leave it, from the front.
pub process_forward_response_write-Sends :
    (sys : Sys) (c : Conn)
    → IsValid c.d.buffer
    → WriteFits sys c.d.buffer
    → Sends (taken_by sys.write) c.d.buffer (process_forward_response_write sys c).0.d.buffer
unfolding process_forward_response_write
process_forward_response_write-Sends sys c v fits =
    region-Sends sys c (start_read c.d.buffer) v refl fits

-- ===== src/Exec/ReadWrite/Receive.antt =====
-- src/executors/ProxyExecutorReadWrite.cpp: which bytes of the response are taken in and passed on.
use epoll_http_server.Base.{
  ℕ, ◌≤◌, Option, none, some, [], ◌∷◌, ◌++◌, Bytes, ◌≡◌, refl, sym, ap, ◌∙◌, arith, drop,
  append-nil, if◌then◌else◌,
}
use mathlib.Core.Path.{subst}
use epoll_http_server.Ring.{TransferRingBuffer, Region, start_write, end_write, store}
use epoll_http_server.Ring.Bounds.{IsValid, end_write-IsValid, start_write-IsValid}
use epoll_http_server.Ring.Fifo.{contents, contents-end_write, contents-start_write}
use epoll_http_server.Exec.Data.{State, ProcessResult}
use epoll_http_server.Exec.Sys.{Sys, Read, Write, Errno, read_length, would_block}
use epoll_http_server.Exec.PollFds.{Conn, no_retry, close_fd, retry, with_state, with_buffer}
use epoll_http_server.Exec.PollFds.Frame.{close_fd-buffer}
use epoll_http_server.Exec.ReadWrite.{response_read, response_place, process_forward_response_read}
use epoll_http_server.Exec.ReadWrite.Forward.{
  Sends, WriteFits, taken_by, process_forward_response_write-Sends,
}

-- What read(2) delivers fits the region that it was given.
abbrev pub ReadAtMost : Read → ℕ → Type 0
ReadAtMost (Read.got b bs) k = read_length b bs ≤ k
ReadAtMost _ k = Unit {0}

-- the bytes that read(2) delivers
abbrev pub received : Read → Bytes
received (Read.got b bs) = b ∷ bs
received _ = []

-- The buffer when write(2) is called: what read(2) delivered has been stored.
abbrev pub filled : Read → TransferRingBuffer → Region → TransferRingBuffer
filled (Read.got b bs) r g = end_write (store r g.offset (b ∷ bs)) (read_length b bs)
filled _ r g = r

-- After a failing read(2) there is no write(2).
abbrev pub sent_after : Read → Write → ℕ
sent_after (Read.failed e) w = 0
sent_after _ w = taken_by w

-- The bytes that waited, and behind them those that were read, less the first `n`, wait in `b'`.
pub record Passes (n : ℕ) (b : TransferRingBuffer) (xs : Bytes) (b' : TransferRingBuffer)
    : Type 0 where
  pub valid : IsValid b'
  pub bytes : contents b' ≡ drop n (contents b ++ xs)

pub Passes-through :
    (n : ℕ) (xs : Bytes) (b m b' : TransferRingBuffer)
    → contents m ≡ contents b ++ xs
    → Sends n m b'
    → Passes n b xs b'
Passes-through n xs b m b' e s = record { valid = s.valid; bytes = s.bytes ∙ ap (drop n) e }

failed-buffer :
    (c : Conn) (x : Errno)
    → (if◌then◌else◌ {A = Conn × ProcessResult}
        (would_block x)
        (retry c, ProcessResult.ok)
        (c, ProcessResult.remove_executor_error)).0.d.buffer
      ≡ c.d.buffer
failed-buffer c x = ground arith

read-Passes :
    (sys : Sys) (c : Conn) (b : TransferRingBuffer) (g : Region) (x : Read)
    → IsValid b
    → (start_write b).1 ≡ some g
    → c.d.buffer ≡ (start_write b).0
    → ReadAtMost x g.size
    → WriteFits sys (filled x (start_write b).0 g)
    → Passes (sent_after x sys.write) b (received x) (response_read sys c g x).0.d.buffer
unfolding response_read
read-Passes sys c b g (Read.got y ys) v h e le fits =
    let m = filled (Read.got y ys) (start_write b).0 g in
    let c' = no_retry (with_buffer (filled (Read.got y ys) c.d.buffer g) c) in
    let same : c'.d.buffer ≡ m = ap (λ r. filled (Read.got y ys) r g) e in
    let s =
      process_forward_response_write-Sends sys c'
        (subst IsValid (sym same) (end_write-IsValid b (y ∷ ys) v h le))
        (subst (WriteFits sys) (sym same) fits) in
    Passes-through (taken_by sys.write) (y ∷ ys) b c'.d.buffer _
      (ap contents same ∙ contents-end_write b (y ∷ ys) v h le) s
read-Passes sys c b g (Read.eof x) v h e le fits =
    let c' = with_state State.forward_response_only_write (close_fd sys c c.d.fd1).0 in
    let same : c'.d.buffer ≡ (start_write b).0 = close_fd-buffer sys c c.d.fd1 ∙ e in
    let s =
      process_forward_response_write-Sends sys c'
        (subst IsValid (sym same) (start_write-IsValid b v))
        (subst (WriteFits sys) (sym same) fits) in
    Passes-through (taken_by sys.write) [] b c'.d.buffer _
      (ap contents same ∙ contents-start_write b v ∙ sym (append-nil (contents b))) s
read-Passes sys c b g (Read.failed x) v h e le fits =
    let same = failed-buffer c x ∙ e in
    record {
      valid = subst IsValid (sym same) (start_write-IsValid b v);
      bytes = ap contents same ∙ contents-start_write b v ∙ sym (append-nil (contents b));
    }

place-Passes :
    (sys : Sys) (c : Conn) (g : Option Region) {h : Region}
    → IsValid c.d.buffer
    → (start_write c.d.buffer).1 ≡ g
    → g ≡ some h
    → ReadAtMost sys.read h.size
    → WriteFits sys (filled sys.read (start_write c.d.buffer).0 h)
    → Passes
        (sent_after sys.read sys.write)
        c.d.buffer
        (received sys.read)
        (response_place sys c ((start_write c.d.buffer).0, g)).0.d.buffer
unfolding response_place
place-Passes sys c none v e k le fits = absurd (cc k)
place-Passes sys c (some g) {h} v e k le fits =
    let same : g ≡ h = ground arith in
    read-Passes sys (with_buffer (start_write c.d.buffer).0 c) c.d.buffer g sys.read v e refl
      (subst (λ x. ReadAtMost sys.read x.size) (sym same) le)
      (subst (λ x. WriteFits sys (filled sys.read (start_write c.d.buffer).0 x)) (sym same) fits)

-- `process_forwardResponseRead`, where the buffer is valid and has room, and read(2) and write(2) move
-- no more than they are given: the buffer stays valid, and of the bytes that waited followed by
-- those that read(2) delivered, exactly the ones that the client's socket took are gone, from the
-- front.
pub process_forward_response_read-Passes :
    (sys : Sys) (c : Conn) (g : Region)
    → IsValid c.d.buffer
    → (start_write c.d.buffer).1 ≡ some g
    → ReadAtMost sys.read g.size
    → WriteFits sys (filled sys.read (start_write c.d.buffer).0 g)
    → Passes
        (sent_after sys.read sys.write)
        c.d.buffer
        (received sys.read)
        (process_forward_response_read sys c).0.d.buffer
unfolding process_forward_response_read
process_forward_response_read-Passes sys c g v e le fits =
    place-Passes sys c (start_write c.d.buffer).1 v refl e le fits

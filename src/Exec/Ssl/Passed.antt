-- ===== src/Exec/Ssl/Passed.antt =====
-- src/executors/SslFileExecutor.cpp: the bytes of the file on their way through the buffer.
use epoll_http_server.Base.{
  ℕ, ◌+◌, ◌≤◌, ◌≡◌, refl, sym, ap, ◌∙◌, Bool, true, false, Option, none, some, [], ◌∷◌, ◌++◌, Bytes,
  append-nil, is_positive, arith,
}
use mathlib.Core.Path.{subst}
use epoll_http_server.Ring.{TransferRingBuffer, Region, start_write, start_read}
use epoll_http_server.Ring.Bounds.{IsValid, end_write-IsValid, start_write-IsValid}
use epoll_http_server.Ring.Fifo.{contents, contents-end_write, contents-start_write}
use epoll_http_server.Exec.Sys.{Sys, Read}
use epoll_http_server.Exec.PollFds.{Conn, with_buffer, close_fd}
use epoll_http_server.Exec.PollFds.Frame.{close_fd-buffer, edit_poll_fd-Keeps}
use epoll_http_server.Exec.ReadWrite.Forward.{Sends, Sends-none, Sends-empty, Sends-region}
use epoll_http_server.Exec.ReadWrite.Receive.{ReadAtMost, received, filled, Passes, Passes-through}
use epoll_http_server.Exec.Ssl.{
  SslWrite, epoll_both, file_read, file_place, fill, region_sent, send_region, send_filled,
  process_send_file,
}

-- SSL_write takes no more than it is given.
abbrev pub SslAtMost : SslWrite → ℕ → Type 0
SslAtMost (SslWrite.moved n) k = n + 1 ≤ k
SslAtMost _ k = Unit {0}

-- the bytes that SSL_write took
abbrev pub ssl_taken : SslWrite → ℕ
ssl_taken (SslWrite.moved n) = n + 1
ssl_taken _ = 0

abbrev pub SslFits : SslWrite → TransferRingBuffer → Type 0
SslFits w b = (g : Region) → start_read b ≡ some g → SslAtMost w g.size

region_sent-Sends :
    (sys : Sys) (operation : Bool) (c : Conn) (w : SslWrite) (g : Region)
    → IsValid c.d.buffer
    → start_read c.d.buffer ≡ some g
    → SslAtMost w g.size
    → Sends (ssl_taken w) c.d.buffer (region_sent sys operation c w).0.d.buffer
unfolding region_sent
region_sent-Sends sys operation c (SslWrite.moved n) g v h le =
    Sends-region (n + 1) c.d.buffer _ v h le (ground arith)
region_sent-Sends sys operation c SslWrite.want_write g v h le = Sends-none c.d.buffer _ v refl
region_sent-Sends sys operation c SslWrite.want_read g v h le =
    Sends-none c.d.buffer _ v
      (ground (arith, (edit_poll_fd-Keeps sys c c.d.fd0 epoll_both).same_buffer))
region_sent-Sends sys operation c SslWrite.failed g v h le = Sends-none c.d.buffer _ v refl

send_region-Sends :
    (sys : Sys) (w : SslWrite) (operation : Bool) (c : Conn) (o : Option Region)
    → IsValid c.d.buffer
    → start_read c.d.buffer ≡ o
    → SslFits w c.d.buffer
    → Sends (ssl_taken w) c.d.buffer (send_region sys w operation c o).0.d.buffer
unfolding send_region
send_region-Sends sys w operation c (some g) v h fits =
    region_sent-Sends sys operation c w g v h (fits g h)
send_region-Sends sys w operation c none v h fits =
    Sends-empty (ssl_taken w) c.d.buffer _ v h (ground arith)

-- After a failing read(2) nothing is written.
abbrev pub ssl_sent_after : Read → SslWrite → ℕ
ssl_sent_after (Read.failed e) w = 0
ssl_sent_after _ w = ssl_taken w

-- A filled buffer `m`, which is that of a connection, is sent.
filled-Passes :
    (sys : Sys) (w : SslWrite) (c : Conn) (operation : Bool) (b m : TransferRingBuffer) (xs : Bytes)
    → IsValid m
    → contents m ≡ contents b ++ xs
    → c.d.buffer ≡ m
    → SslFits w m
    → Passes (ssl_taken w) b xs (send_filled sys w (c, some operation)).0.d.buffer
unfolding send_filled
filled-Passes sys w c operation b m xs v holds same fits =
    let s =
      send_region-Sends sys w operation c (start_read c.d.buffer) (subst IsValid (sym same) v) refl
        (subst (SslFits w) (sym same) fits) in
    Passes-through (ssl_taken w) xs b c.d.buffer _ (ap contents same ∙ holds) s

read-Passes :
    (sys : Sys) (w : SslWrite) (c : Conn) (b : TransferRingBuffer) (g : Region) (x : Read)
    → IsValid b
    → (start_write b).1 ≡ some g
    → c.d.buffer ≡ (start_write b).0
    → ReadAtMost x g.size
    → SslFits w (filled x (start_write b).0 g)
    → Passes
        (ssl_sent_after x w)
        b
        (received x)
        (send_filled sys w (file_read sys c g x)).0.d.buffer
unfolding file_read
read-Passes sys w c b g (Read.got y ys) v h e le fits =
    filled-Passes sys w (with_buffer (filled (Read.got y ys) c.d.buffer g) c) true b
      (filled (Read.got y ys) (start_write b).0 g) (y ∷ ys) (end_write-IsValid b (y ∷ ys) v h le)
      (contents-end_write b (y ∷ ys) v h le) (ap (λ r. filled (Read.got y ys) r g) e) fits
read-Passes sys w c b g (Read.eof x) v h e le fits =
    filled-Passes sys w (close_fd sys c c.d.fd1).0 false b (start_write b).0 []
      (start_write-IsValid b v) (contents-start_write b v ∙ sym (append-nil (contents b)))
      (close_fd-buffer sys c c.d.fd1 ∙ e) fits
read-Passes sys w c b g (Read.failed x) v h e le fits =
    unfold send_filled in
    record {
      valid = subst IsValid (sym e) (start_write-IsValid b v);
      bytes = ap contents e ∙ contents-start_write b v ∙ sym (append-nil (contents b));
    }

place-Passes :
    (sys : Sys) (w : SslWrite) (c : Conn) (g : Region) (o : Option Region)
    → IsValid c.d.buffer
    → (start_write c.d.buffer).1 ≡ o
    → o ≡ some g
    → ReadAtMost sys.read g.size
    → SslFits w (filled sys.read (start_write c.d.buffer).0 g)
    → Passes
        (ssl_sent_after sys.read w)
        c.d.buffer
        (received sys.read)
        (send_filled sys w (file_place sys c ((start_write c.d.buffer).0, o))).0.d.buffer
unfolding file_place
place-Passes sys w c g none v e k le fits = absurd (cc k)
place-Passes sys w c g (some h) v e k le fits =
    let same : h ≡ g = ground arith in
    rw same (
      read-Passes sys w (with_buffer (start_write c.d.buffer).0 c) c.d.buffer g sys.read v (e ∙ k)
        refl le fits)

-- If the file is open, the buffer is valid and has room, and read(2) and SSL_write move no more than
-- they are given, then process_sendFile of the encrypted connection keeps the buffer valid and leaves
-- the bytes that waited followed by those of the file that were read, less those that SSL_write took,
-- from the front.
pub process_send_file-Passes :
    (sys : Sys) (w : SslWrite) (c : Conn) (g : Region)
    → is_positive c.d.fd1 ≡ true
    → IsValid c.d.buffer
    → (start_write c.d.buffer).1 ≡ some g
    → ReadAtMost sys.read g.size
    → SslFits w (filled sys.read (start_write c.d.buffer).0 g)
    → Passes
        (ssl_sent_after sys.read w)
        c.d.buffer
        (received sys.read)
        (process_send_file sys w c).0.d.buffer
unfolding process_send_file fill
process_send_file-Passes sys w c g opened v e le fits =
    rw opened (place-Passes sys w c g (start_write c.d.buffer).1 v refl e le fits)

-- ===== src/Exec/ReadWrite/Stall.antt =====
-- src/executors/ProxyExecutorReadWrite.cpp: what becomes of a connection when the server closes its
-- end while bytes still wait for the client.
use epoll_http_server.Base.{
  ℕ, ◌+◌, ◌-◌, ◌<◌, false, true, none, some, ◌≡◌, refl, ap, ◌∙◌, ◌==◌, arith, Bytes, ◌∷◌, length, ℤ,
  int_eq,
}
use epoll_http_server.Ring.{
  TransferRingBuffer, Region, start_write, end_write, start_read, end_read, store, read_available,
  clear,
}
use epoll_http_server.Exec.Data.{State, ProcessResult}
use epoll_http_server.Exec.Sys.{Sys, Read, Write, Errno}
use epoll_http_server.Exec.PollFds.{
  Conn, is_null, no_retry, with_buffer, with_state, close_fd, remove_poll_fd, remove_found,
  edit_poll_fd,
}
use epoll_http_server.Exec.PollFds.Registered.{int_eq_self, int_eq_comm}
use epoll_http_server.Exec.ReadWrite.{
  process, process_forward_response_read, response_place, response_read, process_forward_request,
  request_region, request_written, process_forward_response_write, response_region,
  response_written, response_sent,
}

-- The server's descriptor is registered and the client's is not; `n` bytes wait in the buffer, from
-- the position `i` on, and there is room behind them.
pub record Streaming (i n : ℕ) (c : Conn) : Type 0 where
  pub state : c.d.state ≡ State.forward_response
  pub client : c.d.poll_data0 ≡ none
  pub server : is_null c.d.poll_data1 ≡ false
  pub fds : int_eq c.d.fd0 c.d.fd1 ≡ false
  pub read_head : c.d.buffer.read_head ≡ i
  pub write_head : c.d.buffer.write_head ≡ i + n
  pub room : i + n < c.d.buffer.buf_size

-- The connection is to be kept, bytes wait for the client, and neither descriptor is registered.
pub record Stalled (out : Conn × ProcessResult) : Type 0 where
  pub kept : out.1 ≡ ProcessResult.ok
  pub waiting : read_available out.0.d.buffer ≡ true
  pub client : out.0.d.poll_data0 ≡ none
  pub server : out.0.d.poll_data1 ≡ none

process-read :
    (sys : Sys) (i n : ℕ) (c : Conn)
    → Streaming i n c
    → process sys c c.d.fd1 1 ≡ process_forward_response_read sys c
unfolding process
process-read sys i n c s = rw (s.state, int_eq_self c.d.fd1) refl

Streaming-start_write :
    (i n : ℕ) (c : Conn)
    → Streaming i n c
    → start_write c.d.buffer
      ≡ (c.d.buffer, some (record { offset = i + n; size = c.d.buffer.buf_size - (i + n) }))
unfolding start_write
Streaming-start_write i n c s = ground (arith, s.read_head, s.write_head, s.room)

-- A part of `n` bytes that wait is written.
Streaming-start_read :
    (b : TransferRingBuffer) (i n : ℕ)
    → b.read_head ≡ i
    → b.write_head ≡ i + n
    → 0 < n
    → start_read b ≡ some (record { offset = i; size = n })
unfolding start_read
Streaming-start_read b i n r w some_bytes = ground (arith, r, w, some_bytes)

-- The client takes a part of what waits, after the bytes that were read, if any, have been put in.
sent-part :
    (sys : Sys) (c : Conn) (i n k : ℕ)
    → c.d.buffer.read_head ≡ i
    → c.d.buffer.write_head ≡ i + n
    → k + 1 < n
    → sys.write ≡ Write.moved k
    → process_forward_response_write sys c
      ≡ response_sent sys (no_retry (with_buffer (end_read c.d.buffer (k + 1)) c))
unfolding process_forward_response_write response_region response_written
sent-part sys c i n k r w part write =
    let region = Streaming-start_read c.d.buffer i n r w (omega (arith, part)) in
    rw (region, write) refl

-- An event of the server, by what read(2) returns.
process-response_read :
    (sys : Sys) (i n : ℕ) (c : Conn) (r : Read)
    → Streaming i n c
    → sys.read ≡ r
    → process sys c c.d.fd1 1
      ≡ response_read sys c (record { offset = i + n; size = c.d.buffer.buf_size - (i + n) }) r
unfolding process_forward_response_read response_place
process-response_read sys i n c r s read =
    let g : Region = record { offset = i + n; size = c.d.buffer.buf_size - (i + n) } in
    process-read sys i n c s
    ∙ ap (λ x. response_place sys c x) (Streaming-start_write i n c s)
    ∙ ap (λ x. response_read sys c g x) read

sent-Streaming :
    (sys : Sys) (c : Conn)
    → c.d.state ≡ State.forward_response
    → is_null c.d.poll_data1 ≡ false
    → response_sent sys c ≡ (c, ProcessResult.ok)
unfolding response_sent
sent-Streaming sys c state server = rw (state, server) refl

end_read-inside :
    (b : TransferRingBuffer) (m : ℕ)
    → b.read_head + m < b.buf_size
    → end_read b m ≡ record b { read_head = b.read_head + m }
unfolding end_read
end_read-inside b m inside =
    let e : (b.read_head + m == b.buf_size) ≡ false = ground (arith, inside) in rw e refl

-- An event with data from the server, of which, with the bytes that wait, the client takes a part.
streams :
    (sys : Sys) (c : Conn) (i n b k : ℕ) (bs : Bytes)
    → Streaming i n c
    → sys.read ≡ Read.got b bs
    → i + n + length (b ∷ bs) < c.d.buffer.buf_size
    → sys.write ≡ Write.moved k
    → k + 1 < n + length (b ∷ bs)
    → Streaming (i + (k + 1)) (n + length (b ∷ bs) - (k + 1)) (process sys c c.d.fd1 1).0
      × (process sys c c.d.fd1 1).1 ≡ ProcessResult.ok
unfolding response_read end_write store
streams sys c i n b k bs s read room write part =
    let l = length (b ∷ bs) in
    let c1 = no_retry (with_buffer (end_write (store c.d.buffer (i + n) (b ∷ bs)) l) c) in
    let c2 = no_retry (with_buffer (end_read c1.d.buffer (k + 1)) c1) in
    let out : process sys c c.d.fd1 1 ≡ (c2, ProcessResult.ok) =
      process-response_read sys i n c (Read.got b bs) s read
      ∙ sent-part sys c1 i (n + l) k s.read_head (omega (arith, s.write_head)) part write
      ∙ sent-Streaming sys c2 s.state s.server in
    let inside = end_read-inside c1.d.buffer (k + 1) (omega (arith, s.read_head, room, part)) in
    rw (out, inside)
      (
        record {
          state = s.state;
          client = s.client;
          server = s.server;
          fds = s.fds;
          read_head = omega (arith, s.read_head);
          write_head = omega (arith, s.write_head, part);
          room = omega (arith, room, part);
        },
        refl,
      )

sent-Stalled :
    (sys : Sys) (c : Conn)
    → c.d.state ≡ State.forward_response_only_write
    → read_available c.d.buffer ≡ true
    → c.d.poll_data1 ≡ none
    → response_sent sys c ≡ (c, ProcessResult.ok)
unfolding response_sent
sent-Stalled sys c state more server =
    let null : is_null c.d.poll_data1 ≡ true = ap is_null server in rw (state, more, null) refl

left-available :
    (b : TransferRingBuffer) (i n : ℕ)
    → b.read_head ≡ i
    → b.write_head ≡ i + n
    → 0 < n
    → read_available b ≡ true
unfolding read_available
left-available b i n r w some_bytes =
    rw (Streaming-start_read b i n r w some_bytes, read_available) refl

-- closeFd of the server's descriptor.
closed-server :
    (sys : Sys) (c : Conn)
    → c.d.poll_data0 ≡ none
    → is_null c.d.poll_data1 ≡ false
    → int_eq c.d.fd0 c.d.fd1 ≡ false
    → sys.epoll_del c.d.fd1 ≡ true
    → ((close_fd sys c c.d.fd1).0.d.poll_data0 ≡ none)
      × ((close_fd sys c c.d.fd1).0.d.poll_data1 ≡ none)
      × ((close_fd sys c c.d.fd1).0.d.buffer ≡ c.d.buffer)
unfolding close_fd remove_poll_fd remove_found
closed-server sys c null0 full1 apart del =
    ground (arith, null0, full1, apart, del, int_eq_self c.d.fd1, int_eq_comm c.d.fd1 c.d.fd0)

-- The event at the end of the server's response.
ends :
    (sys : Sys) (c : Conn) (i n k : ℕ) (e : Errno)
    → Streaming i n c
    → sys.read ≡ Read.eof e
    → sys.epoll_del c.d.fd1 ≡ true
    → sys.write ≡ Write.moved k
    → k + 1 < n
    → Stalled (process sys c c.d.fd1 1)
unfolding response_read
ends sys c i n k e s read del write part =
    let (null0, null1, same) = closed-server sys c s.client s.server s.fds del in
    let c1 = with_state State.forward_response_only_write (close_fd sys c c.d.fd1).0 in
    let head = ap (λ b. b.read_head) same ∙ s.read_head in
    let tail = ap (λ b. b.write_head) same ∙ s.write_head in
    let size = ap (λ b. b.buf_size) same in
    let c2 = no_retry (with_buffer (end_read c1.d.buffer (k + 1)) c1) in
    let inside = end_read-inside c1.d.buffer (k + 1) (omega (arith, head, size, s.room, part)) in
    let more : read_available c2.d.buffer ≡ true = rw inside (
      left-available (record c1.d.buffer { read_head = c1.d.buffer.read_head + (k + 1) })
        (i + (k + 1)) (n - (k + 1)) (omega (arith, head)) (omega (arith, tail, part))
        (omega (arith, part))) in
    let out : process sys c c.d.fd1 1 ≡ (c2, ProcessResult.ok) =
      process-response_read sys i n c (Read.eof e) s read
      ∙ sent-part sys c1 i n k head tail part write
      ∙ sent-Stalled sys c2 refl more null1 in
    rw out (record { kept = refl; waiting = more; client = null0; server = null1 })

end_read-buf_size : (b : TransferRingBuffer) (m : ℕ) → (end_read b m).buf_size ≡ b.buf_size
unfolding end_read
end_read-buf_size b m = ground arith

-- A request that is forwarded to its end.
forwards :
    (sys : Sys) (c : Conn) (g : Region) (k : ℕ)
    → c.d.state ≡ State.forward_request
    → c.d.poll_data0 ≡ none
    → is_null c.d.poll_data1 ≡ false
    → int_eq c.d.fd0 c.d.fd1 ≡ false
    → start_read c.d.buffer ≡ some g
    → sys.write ≡ Write.moved k
    → k + 1 ≡ g.size
    → sys.epoll_mod c.d.fd1 ≡ true
    → 0 < c.d.buffer.buf_size
    → Streaming 0 0 (process sys c c.d.fd1 4).0
      × (process sys c c.d.fd1 4).0.d.buffer.buf_size ≡ c.d.buffer.buf_size
unfolding process process_forward_request request_region request_written clear edit_poll_fd
forwards sys c g k state client server fds waiting write all mod_ok large =
    let out : process sys c c.d.fd1 4 ≡ request_written sys c g (Write.moved k) =
      rw (state, int_eq_self c.d.fd1) refl
      ∙ ap (λ x. request_region sys c x) waiting
      ∙ ap (λ x. request_written sys c g x) write in
    let whole : (k + 1 == g.size) ≡ true = ground (arith, all) in
    let other : int_eq c.d.fd1 c.d.fd0 ≡ false = int_eq_comm c.d.fd1 c.d.fd0 ∙ fds in
    rw (out, whole, other, int_eq_self c.d.fd1, server, mod_ok)
      (
        record {
          state = refl;
          client = client;
          server = server;
          fds = fds;
          read_head = refl;
          write_head = omega arith;
          room = omega (arith, large, end_read-buf_size c.d.buffer (k + 1));
        },
        end_read-buf_size c.d.buffer (k + 1),
      )

-- A request of which the rest is forwarded, then data of the server of which the client takes a
-- part only, then the end of the response, at which the client again takes a part only: if the two
-- descriptors differ, the server's is registered and the client's is not at the start, the data are
-- fewer bytes than the buffer has, and epoll_ctl(2) changes and removes descriptors without an
-- error, then the executor asks for the connection to be kept, with bytes for the client, but
-- neither descriptor is registered any more.
pub process-Stalled :
    (sys0 sys1 sys2 : Sys) (c : Conn) (g : Region) (k0 b k1 k2 : ℕ) (bs : Bytes) (e : Errno)
    → c.d.state ≡ State.forward_request
    → c.d.poll_data0 ≡ none
    → is_null c.d.poll_data1 ≡ false
    → int_eq c.d.fd0 c.d.fd1 ≡ false
    → start_read c.d.buffer ≡ some g
    → sys0.write ≡ Write.moved k0
    → k0 + 1 ≡ g.size
    → sys0.epoll_mod c.d.fd1 ≡ true
    → sys1.read ≡ Read.got b bs
    → sys1.write ≡ Write.moved k1
    → length (b ∷ bs) < c.d.buffer.buf_size
    → sys2.read ≡ Read.eof e
    → sys2.write ≡ Write.moved k2
    → (k1 + 1) + (k2 + 1) < length (b ∷ bs)
    → ((fd : ℤ) → sys2.epoll_del fd ≡ true)
    → let c1 = (process sys0 c c.d.fd1 4).0 in
      let c2 = (process sys1 c1 c1.d.fd1 1).0 in Stalled (process sys2 c2 c2.d.fd1 1)
process-Stalled sys0 sys1 sys2 c g k0 b k1 k2 bs e state client server fds waiting write0 all mod_ok
      read1 write1 room read2 write2 part del =
    let c1 = (process sys0 c c.d.fd1 4).0 in
    let c2 = (process sys1 c1 c1.d.fd1 1).0 in
    let (s1, size) =
      forwards sys0 c g k0 state client server fds waiting write0 all mod_ok
        (omega (arith, room)) in
    let (s2, ok) =
      streams sys1 c1 0 0 b k1 bs s1 read1 (omega (arith, room, size)) write1
        (omega (arith, part)) in
    ends sys2 c2 (0 + (k1 + 1)) (0 + length (b ∷ bs) - (k1 + 1)) k2 e s2 read2 (del c2.d.fd1) write2
      (omega (arith, part))

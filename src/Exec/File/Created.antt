-- ===== src/Exec/File/Created.antt =====
-- What waits in the buffer once a response has been printed.
use epoll_http_server.Base.{
  ℕ, zero, suc, ◌-◌, ◌≤◌, ◌<◌, true, Option, none, some, [], ◌∷◌, ◌++◌, Bytes, ◌≡◌, refl, sym, ap,
  arith, length, take, leb, slice, slice_self, overwrite, Bool-cases, inl, inr,
}
use mathlib.Core.Path.{subst}
use epoll_http_server.Ring.{TransferRingBuffer, Region, start_write, end_write, store, clear}
use epoll_http_server.Ring.Bounds.{IsValid}
use epoll_http_server.Ring.Fifo.{contents}
use epoll_http_server.Exec.PollFds.{Conn, with_buffer}
use epoll_http_server.Exec.Response.{Printed, snprintf}
use epoll_http_server.Exec.File.{create, response_place, put_response}

take_all : (n : ℕ) (xs : Bytes) → length xs ≤ n → take n xs ≡ xs
take_all zero [] le = refl
take_all zero (x ∷ xs) le = absurd (omega arith)
take_all (suc n) [] le = refl
take_all (suc n) (x ∷ xs) le = ap (λ l. x ∷ l) (take_all n xs (omega arith))

-- The front of what is written at the start of the memory.
slice-overwrite_front :
    (buf xs ys : Bytes)
    → length xs ≤ length buf
    → slice 0 (length xs) (overwrite buf 0 (xs ++ ys)) ≡ xs
slice-overwrite_front buf [] ys le = slice_self 0 (overwrite buf 0 ys)
slice-overwrite_front [] (x ∷ xs) ys le = absurd (omega arith)
slice-overwrite_front (b ∷ buf) (x ∷ xs) ys le =
    ap (λ l. x ∷ l) (slice-overwrite_front buf xs ys (omega arith))

-- A text that fits, printed at the start of an empty buffer, is what waits in it.
printed-contents :
    (b : TransferRingBuffer) (size : ℕ) (text : Bytes)
    → b.read_head ≡ 0
    → b.write_head ≡ 0
    → size ≤ length b.buf
    → length text < size
    → contents (end_write (store b 0 (snprintf size text).bytes) (length text)) ≡ text
unfolding snprintf store end_write
printed-contents b size text r w le fits =
    ground (arith, take_all (size - 1) text, slice-overwrite_front b.buf text (0 ∷ []))

put-contents :
    (c : Conn) (g : Region) (text : Bytes)
    → c.d.buffer.read_head ≡ 0
    → c.d.buffer.write_head ≡ 0
    → g.offset ≡ 0
    → g.size ≤ length c.d.buffer.buf
    → (put_response c g (snprintf g.size text)).1 ≡ true
    → contents (put_response c g (snprintf g.size text)).0.d.buffer ≡ text
unfolding put_response snprintf
put-contents c g text r w o le h = elim (Bool-cases (leb g.size (length text))) [
  | inl long ↦ absurd (ground arith)
  | inr fits ↦ rw (fits, o) (printed-contents c.d.buffer g.size text r w le (ground arith))
]

-- An empty buffer offers its start.
cleared_buffer : (b : TransferRingBuffer) → (start_write (clear b)).0 ≡ clear b
unfolding start_write clear
cleared_buffer b = ground arith

cleared_place :
    (b : TransferRingBuffer) (g : Region)
    → IsValid b
    → (start_write (clear b)).1 ≡ some g
    → (g.offset ≡ 0) × (g.size ≤ length b.buf)
unfolding start_write clear
cleared_place b g v h = ground arith

place-contents :
    (print : ℕ → Printed) (text : Bytes) (c : Conn) (b : TransferRingBuffer) (g : Option Region)
    → ((size : ℕ) → print size ≡ snprintf size text)
    → b.read_head ≡ 0
    → b.write_head ≡ 0
    → ((h : Region) → g ≡ some h → (h.offset ≡ 0) × (h.size ≤ length b.buf))
    → (response_place print c (b, g)).1 ≡ true
    → contents (response_place print c (b, g)).0.d.buffer ≡ text
unfolding response_place
place-contents print text c b none p r w k h = absurd (ground arith)
place-contents print text c b (some g) p r w k h =
    let (o, le) = k g refl in
    rw (p g.size) (put-contents (with_buffer b c) g text r w o le (rw (p g.size) at h))

-- `createResponse` and `createOkResponse`: if they return 0, the text is all that waits in the
-- buffer.
pub create-contents :
    (print : ℕ → Printed) (text : Bytes) (c : Conn)
    → ((size : ℕ) → print size ≡ snprintf size text)
    → IsValid c.d.buffer
    → (create print c).1 ≡ true
    → contents (create print c).0.d.buffer ≡ text
unfolding create clear
create-contents print text c p v h =
    let same = cleared_buffer c.d.buffer in
    place-contents print text c (start_write (clear c.d.buffer)).0
      (start_write (clear c.d.buffer)).1 p (ap (λ b. b.read_head) same)
      (ap (λ b. b.write_head) same)
      (λ g e.
        let (o, le) = cleared_place c.d.buffer g v e in
        (o, subst (λ b. g.size ≤ length b.buf) (sym same) le))
      h

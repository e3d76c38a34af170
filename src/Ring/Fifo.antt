-- ===== src/Ring/Fifo.antt =====
-- src/utils/TransferRingBuffer.h: the ring buffer as a queue of bytes.
use epoll_http_server.Base.{
  ℕ, ◌+◌, ◌-◌, ◌≤◌, ◌<◌, ◌≡◌, ◌↔◌, refl, sym, ◌∙◌, ap, none, some, [], ◌++◌, arith, Bytes, leb,
  if◌then◌else◌, length, length-append, slice, overwrite, slice_self, length-slice, slice-append,
  slice-overwrite, slice-overwrite_before, slice-overwrite_after, append-nil, append_assoc, drop,
  take, drop-append, take-append,
}
use epoll_http_server.Ring.{
  TransferRingBuffer, Region, clear, start_write, end_write, start_read, end_read, store, load,
}
use epoll_http_server.Ring.Bounds.{
  IsValid, start_write-IsValid, start_write_bounds, start_read_bounds,
}

-- The bytes that wait to be read, oldest first.
abbrev pub contents : TransferRingBuffer → Bytes
contents r =
    if leb r.read_head r.write_head
    then slice r.read_head r.write_head r.buf
    else slice r.read_head r.buf_size r.buf ++ slice 0 r.write_head r.buf

-- Making room for a write loses nothing.
pub contents-start_write :
    (r : TransferRingBuffer) → IsValid r → contents (start_write r).0 ≡ contents r
unfolding start_write
contents-start_write r v = ground (arith, append-nil (slice r.read_head r.buf_size r.buf))

length-start_write : (r : TransferRingBuffer) → length (start_write r).0.buf ≡ length r.buf
unfolding start_write
length-start_write r = ground arith

pub contents-clear : (r : TransferRingBuffer) → contents (clear r) ≡ []
unfolding clear
contents-clear r = refl

pub length-contents :
    (r : TransferRingBuffer)
    → IsValid r
    → length (contents r) ≡ (
        if leb r.read_head r.write_head
        then r.write_head - r.read_head
        else r.buf_size - r.read_head + r.write_head)
length-contents r v = ground (
  arith,
  length-slice r.read_head r.write_head r.buf,
  length-slice r.read_head r.buf_size r.buf,
  length-slice 0 r.write_head r.buf,
  length-append (slice r.read_head r.buf_size r.buf) (slice 0 r.write_head r.buf),
)

-- `startRead` returns false exactly when no byte waits.
pub start_read-none :
    (r : TransferRingBuffer) → IsValid r → (start_read r ≡ none) ↔ (length (contents r) ≡ 0)
unfolding start_read
start_read-none r v = (ground (arith, length-contents r v), ground (arith, length-contents r v))

-- A buffer that holds fewer than `bufSize - 1` bytes offers room, and one that holds `bufSize`
-- offers none.
pub start_write-none :
    (r : TransferRingBuffer)
    → IsValid r
    → (start_write r).1 ≡ none
    → r.buf_size ≤ length (contents r) + 1
unfolding start_write
start_write-none r v h = ground (arith, length-contents r v)

pub start_write-full :
    (r : TransferRingBuffer)
    → IsValid r
    → length (contents r) ≡ r.buf_size
    → (start_write r).1 ≡ none
unfolding start_write
start_write-full r v h = ground (arith, length-contents r v)

-- Bytes written at the write head, short of the read head, extend the queue.
contents-store :
    (r : TransferRingBuffer) (xs : Bytes)
    → IsValid r
    → r.write_head + length xs ≤ r.buf_size
    → (r.write_head < r.read_head → r.write_head + length xs < r.read_head)
    → contents (end_write (store r r.write_head xs) (length xs)) ≡ contents r ++ xs
unfolding store end_write
contents-store r xs v fits short = ground (
  arith,
  slice-append r.read_head w k new,
  slice-append 0 w k new,
  slice-overwrite r.buf w k xs refl,
  slice-overwrite_before r.buf r.read_head w w xs,
  slice-overwrite_before r.buf 0 w w xs,
  slice-overwrite_after r.buf r.read_head r.buf_size w xs,
  append_assoc (slice r.read_head r.buf_size r.buf) (slice 0 w r.buf) xs,
)
  where
    w : ℕ
    w = r.write_head

    k : ℕ
    k = r.write_head + length xs

    new : Bytes
    new = overwrite r.buf r.write_head xs

-- For a valid buffer, bytes that are stored in the region that `startWrite` offers, no more than fit
-- it, and reported by `endWrite`, are appended to the queue.
pub contents-end_write :
    (r : TransferRingBuffer) (xs : Bytes) {g : Region}
    → IsValid r
    → (start_write r).1 ≡ some g
    → length xs ≤ g.size
    → contents (end_write (store (start_write r).0 g.offset xs) (length xs)) ≡ contents r ++ xs
contents-end_write r xs {g} v h le =
    let s = (start_write r).0 in
    let vs = start_write-IsValid r v in
    let b = start_write_bounds r v h in
    ap (λ o. contents (end_write (store s o xs) (length xs))) b.1
    ∙ contents-store s xs vs (omega (arith, vs.allocated, length-start_write r))
        (λ p. omega (arith, b.3 p))
    ∙ ap (λ q. q ++ xs) (contents-start_write r v)

-- For a valid buffer, the first bytes of the region that `startRead` offers are the front of the
-- queue, and what `endRead` leaves after as many is the rest of it.
pub contents-end_read :
    (r : TransferRingBuffer) (n : ℕ) {g : Region}
    → IsValid r
    → start_read r ≡ some g
    → n ≤ g.size
    → contents r ≡ load r g.offset n ++ contents (end_read r n)
unfolding start_read end_read
contents-end_read r n {g} v h le = ground (
  arith,
  slice-append r.read_head (r.read_head + n) r.write_head r.buf,
  slice-append r.read_head (r.read_head + n) r.buf_size r.buf,
  slice_self r.buf_size r.buf,
  slice_self r.write_head r.buf,
  slice_self (r.read_head + n) r.buf,
  append_assoc (slice r.read_head (r.read_head + n) r.buf)
      (slice (r.read_head + n) r.buf_size r.buf) (slice 0 r.write_head r.buf),
)

-- The bytes at the front, as the pointer of `startRead` shows them, and what is left behind them.
module _ (r : TransferRingBuffer) (n : ℕ) {g : Region} where
  length-load : IsValid r → start_read r ≡ some g → n ≤ g.size → length (load r g.offset n) ≡ n
  length-load v h le =
      let b = start_read_bounds r v h in omega (arith, length-slice g.offset (g.offset + n) r.buf)

  pub drop-contents :
      IsValid r → start_read r ≡ some g → n ≤ g.size → contents (end_read r n) ≡ drop n (contents r)
  drop-contents v h le = sym (
      ap (drop n) (contents-end_read r n v h le)
      ∙ ap (λ k. drop k (load r g.offset n ++ contents (end_read r n))) (sym (length-load v h le))
      ∙ drop-append (load r g.offset n) (contents (end_read r n)))

  pub take-contents :
      IsValid r → start_read r ≡ some g → n ≤ g.size → load r g.offset n ≡ take n (contents r)
  take-contents v h le = sym (
      ap (take n) (contents-end_read r n v h le)
      ∙ ap (λ k. take k (load r g.offset n ++ contents (end_read r n))) (sym (length-load v h le))
      ∙ take-append (load r g.offset n) (contents (end_read r n)))

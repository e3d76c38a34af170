-- ===== src/Ring/Bounds.antt =====
-- The ring buffer's invariant, and that the regions it hands out lie inside its memory.
use epoll_http_server.Base.{
  ℕ, ◌+◌, ◌-◌, ◌≤◌, ◌<◌, ◌≡◌, some, arith, Bytes, length, length-replicate, length-overwrite,
}
use epoll_http_server.Ring.{
  TransferRingBuffer, Region, init, clear, start_write, end_write, start_read, end_read, store,
}

pub record IsValid (r : TransferRingBuffer) : Type 0 where
  pub allocated : length r.buf ≡ r.buf_size
  pub write_in : r.write_head ≤ r.buf_size
  pub read_in : r.read_head ≤ r.buf_size - 1

pub init-IsValid : (r : TransferRingBuffer) (n : ℕ) → IsValid r → IsValid (init r n)
unfolding init
init-IsValid r n v = ground (arith, length-replicate {A = ℕ} n 0)

pub clear-IsValid : (r : TransferRingBuffer) → IsValid r → IsValid (clear r)
unfolding clear
clear-IsValid r v = ground arith

pub start_write-IsValid : (r : TransferRingBuffer) → IsValid r → IsValid (start_write r).0
unfolding start_write
start_write-IsValid r v = ground arith

pub store-IsValid :
    (r : TransferRingBuffer) (o : ℕ) (xs : Bytes) → IsValid r → IsValid (store r o xs)
unfolding store
store-IsValid r o xs v = ground (arith, length-overwrite r.buf o xs)

-- For a valid buffer, the region that `startWrite` hands out is not empty, begins at the write head
-- of the buffer as the call leaves it, lies inside the memory, and ends before the read head if that
-- is in front of it.
pub start_write_bounds :
    (r : TransferRingBuffer) {g : Region}
    → IsValid r
    → (start_write r).1 ≡ some g
    → (0 < g.size)
      × (g.offset ≡ (start_write r).0.write_head)
      × (g.offset + g.size ≤ length r.buf)
      × ((start_write r).0.write_head < (start_write r).0.read_head
          → g.offset + g.size < (start_write r).0.read_head)
unfolding start_write
start_write_bounds r v h = ground arith

pub start_read_bounds :
    (r : TransferRingBuffer) {g : Region}
    → IsValid r
    → start_read r ≡ some g
    → (0 < g.size) × (g.offset ≡ r.read_head) × (g.offset + g.size ≤ length r.buf)
unfolding start_read
start_read_bounds r v h = ground arith

-- A caller that stores and reports no more bytes than it was offered keeps the invariant.
pub end_write-IsValid :
    (r : TransferRingBuffer) (xs : Bytes) {g : Region}
    → IsValid r
    → (start_write r).1 ≡ some g
    → length xs ≤ g.size
    → IsValid (end_write (store (start_write r).0 g.offset xs) (length xs))
unfolding start_write store end_write
end_write-IsValid r xs {g} v h le = ground (arith, length-overwrite r.buf g.offset xs)

pub end_read-IsValid :
    (r : TransferRingBuffer) (g : Region) (n : ℕ)
    → IsValid r
    → start_read r ≡ some g
    → n ≤ g.size
    → IsValid (end_read r n)
unfolding start_read end_read
end_read-IsValid r g n v h le = ground arith

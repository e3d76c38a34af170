-- ===== src/Ring.antt =====
-- src/utils/TransferRingBuffer.h: the ring buffer through which a connection's bytes pass.
pub mod Bounds
pub mod Fifo
pub mod Transfer
mod Tests
use epoll_http_server.Base.{
  ℕ, ◌+◌, ◌-◌, Bool, true, false, not, ◌&&◌, Option, none, some, [], Bytes, ltb, leb, ◌==◌,
  if◌then◌else◌, length, replicate, slice, overwrite,
}

-- The class's fields. `buf` is the allocated memory, empty for a null pointer.
pub record TransferRingBuffer : Type 0 where
  pub buf : Bytes
  pub read_head : ℕ
  pub write_head : ℕ
  pub buf_size : ℕ

-- The two out-parameters of `startRead` and `startWrite`: the pointer, as an offset from `buf`,
-- and the size. The result is `none` where the method returns false.
pub record Region : Type 0 where
  pub offset : ℕ
  pub size : ℕ

abbrev region? : ℕ → ℕ → Option Region
region? offset size = if ltb 0 size then some (record { offset = offset; size = size }) else none

-- the default constructor
abbrev pub empty : TransferRingBuffer
empty = record { buf = []; read_head = 0; write_head = 0; buf_size = 0 }

-- The new memory has no known content; zeros stand for it.
unfoldable pub init : TransferRingBuffer → ℕ → TransferRingBuffer
init r new_size =
    if not (new_size == r.buf_size)
    then record { buf = replicate new_size 0; read_head = 0; write_head = 0; buf_size = new_size }
    else record r { read_head = 0; write_head = 0 }

unfoldable pub clear : TransferRingBuffer → TransferRingBuffer
clear r = record r { read_head = 0; write_head = 0 }

-- the second part of `startWrite`, from `data = buf + writeHead` on
write_region : TransferRingBuffer → Option Region
write_region r = region? r.write_head (
    if leb r.read_head r.write_head
    then r.buf_size - r.write_head
    else r.read_head - r.write_head - 1)

unfoldable pub start_write : TransferRingBuffer → TransferRingBuffer × Option Region
unfolding write_region
start_write r =
    if r.write_head == r.buf_size
    then (if r.read_head == 0
        then (r, none)
        else (let r' = record r { write_head = 0 } in (r', write_region r')))
    else (r, write_region r)

unfoldable pub end_write : TransferRingBuffer → ℕ → TransferRingBuffer
end_write r size = record r { write_head = r.write_head + size }

unfoldable pub start_read : TransferRingBuffer → Option Region
start_read r = region? r.read_head (
    if ltb r.read_head r.write_head
    then r.write_head - r.read_head
    else if ltb r.write_head r.read_head
    then r.buf_size - r.read_head
    else 0)

unfoldable pub end_read : TransferRingBuffer → ℕ → TransferRingBuffer
end_read r size =
    let head = r.read_head + size in
    if head == r.buf_size
    then record r {
      read_head = 0;
      write_head = if r.write_head == r.buf_size then 0 else r.write_head;
    }
    else record r { read_head = head }

unfoldable pub read_available : TransferRingBuffer → Bool
unfolding start_read
read_available r = elim (start_read r) [ some _ ↦ true | none ↦ false ]

-- A caller's write of bytes through the pointer that `startWrite` gave it.
unfoldable pub store : TransferRingBuffer → ℕ → Bytes → TransferRingBuffer
store r offset xs = record r { buf = overwrite r.buf offset xs }

-- The bytes that a caller reads through the pointer that `startRead` gave it.
abbrev pub load : TransferRingBuffer → ℕ → ℕ → Bytes
load r offset size = slice offset (offset + size) r.buf

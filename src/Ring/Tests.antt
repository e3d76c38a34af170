-- ===== src/Ring/Tests.antt =====
-- The ring buffer at concrete inputs.
use epoll_http_server.Base.{ℕ, ◌+◌, ◌≤◌, ◌<◌, some, List, [], ◌∷◌, ◌++◌, ◌≡◌, refl, arith}
use epoll_http_server.Ring.{
  TransferRingBuffer, Region, start_write, end_write, start_read, end_read, store, load,
}
use epoll_http_server.Ring.Bounds.{IsValid, start_write_bounds}
use epoll_http_server.Ring.Fifo.{contents, contents-end_write, contents-end_read}
use epoll_http_server.Ring.Transfer.{
  Transfer, receive, send, Conserves, transfer, run, run-Conserves,
}

-- The write head has come round: 7 and 8 wait at the end, 9 at the start.
abbrev wrapped : TransferRingBuffer
wrapped = record { buf = 9 ∷ 0 ∷ 0 ∷ 7 ∷ 8 ∷ []; read_head = 3; write_head = 1; buf_size = 5 }

-- Full up to the end, with two bytes read.
abbrev at_end : TransferRingBuffer
at_end = record { buf = 1 ∷ 2 ∷ 3 ∷ 4 ∷ 5 ∷ []; read_head = 2; write_head = 5; buf_size = 5 }

abbrev script : List Transfer
script = receive (1 ∷ 2 ∷ []) ∷ send 2 ∷ send 5 ∷ receive (3 ∷ []) ∷ []

wrapped-IsValid : IsValid wrapped
wrapped-IsValid = omega arith

at_end-IsValid : IsValid at_end
at_end-IsValid = omega arith

contents-wrapped : contents wrapped ≡ 7 ∷ 8 ∷ 9 ∷ []
contents-wrapped = refl

abbrev room : Region
room = record { offset = 0; size = 1 }

at_end-start_write : (start_write at_end).1 ≡ some room
unfolding start_write
at_end-start_write = refl

abbrev front : Region
front = record { offset = 3; size = 2 }

wrapped-start_read : start_read wrapped ≡ some front
unfolding start_read
wrapped-start_read = refl

run-script :
    ((run wrapped script).given ≡ 7 ∷ 8 ∷ 9 ∷ 1 ∷ []) × ((run wrapped script).taken ≡ 1 ∷ 3 ∷ [])
unfolding run transfer start_write start_read end_write store end_read
run-script = (refl, refl)

run-Conserves_example : Conserves wrapped (run wrapped script)
run-Conserves_example = run-Conserves script wrapped wrapped-IsValid

start_write_bounds_example :
    (0 < 1)
    × (◌≡◌ {A = ℕ} 0 (start_write at_end).0.write_head)
    × (0 + 1 ≤ 5)
    × ((start_write at_end).0.write_head < (start_write at_end).0.read_head
        → 0 + 1 < (start_write at_end).0.read_head)
start_write_bounds_example = start_write_bounds at_end {g = room} at_end-IsValid at_end-start_write

contents-end_write_example :
    contents (end_write (store (start_write at_end).0 0 (6 ∷ [])) 1) ≡ 3 ∷ 4 ∷ 5 ∷ 6 ∷ []
contents-end_write_example =
    contents-end_write at_end (6 ∷ []) {g = room} at_end-IsValid at_end-start_write (omega arith)

contents-end_read_example : 7 ∷ 8 ∷ 9 ∷ [] ≡ load wrapped 3 2 ++ contents (end_read wrapped 2)
contents-end_read_example =
    contents-end_read wrapped 2 {g = front} wrapped-IsValid wrapped-start_read (omega arith)

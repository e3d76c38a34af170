-- ===== src/Log/Write.antt =====
-- src/log/LogMmap.cpp: `writeLog`, where a message goes, with a rotation when the file is full.
use epoll_http_server.Base.{
  ℕ, ◌+◌, ◌≤◌, ◌≡◌, ◌⊎◌, refl, ap, sym, ◌∙◌, inl, inr, true, [], ◌++◌, Bytes, length, take,
  length-append, length-take, length-replicate, replicate, slice, arith, Bool-cases, suc, ◌<◌,
  false,
}
use epoll_http_server.Log.{
  LogMmap, Mapping, TransferBuffer, content, resized, init_buffer, start_write, end_write,
  open_file, close_file, rotated, rotate, has_room, message_head, put_message, write_log,
}
use epoll_http_server.Log.Rotation.{log_file, rotate-shifts}
use epoll_http_server.Log.Append.{put_message-appends}

-- What has been written to the mapped file.
abbrev pub written : TransferBuffer → Bytes
written b = slice 0 b.write_head b.buf

-- The buffer has its size, and its head lies inside.
unfoldable pub IsValid : TransferBuffer → Type 0
IsValid b = b.write_head ≤ b.buf_size × length b.buf ≡ b.buf_size

length-resized : (size : ℕ) (file : Bytes) → length (resized size file) ≡ size
unfolding resized
length-resized size file = omega (
  arith,
  length-take size (file ++ replicate size 0),
  length-append file (replicate size 0),
  length-replicate {A = ℕ} size 0,
)

put_message-buf_size :
    (head text : Bytes) (b : TransferBuffer) → (put_message head text b).buf_size ≡ b.buf_size
unfolding put_message end_write
put_message-buf_size head text b = ground arith

-- A message in a buffer with room.
put_message-IsValid :
    (head text : Bytes) (b : TransferBuffer)
    → IsValid b
    → has_room (start_write b) ≡ true
    → (written (put_message head text b) ≡ written b ++ take 1023 (head ++ text))
      × IsValid (put_message head text b)
unfolding IsValid start_write
put_message-IsValid head text b (inside, size) room =
    let space : b.write_head + 1024 ≤ b.buf_size = ground (arith, room) in
    let (appended, below, kept) = put_message-appends head text b (omega (arith, space, size)) in
    (
      appended,
      (
        omega (arith, below, space, put_message-buf_size head text b),
        kept ∙ size ∙ sym (put_message-buf_size head text b),
      ),
    )

-- The buffer behind a rotation that succeeds.
abbrev Fresh : ℕ → TransferBuffer → Type 0
Fresh size b = (b.write_head ≡ 0) × (b.buf_size ≡ size) × (length b.buf ≡ size)

open_file-Fresh :
    (m : Mapping) (log : LogMmap)
    → (open_file m log).1 ≡ true
    → Fresh log.log_file_size (open_file m log).0.buffer
unfolding open_file init_buffer
open_file-Fresh m log done =
    ground (arith, done, length-resized log.log_file_size (content log.current))

rotated-log_file_size :
    (log : LogMmap) → (rotated (close_file log)).log_file_size ≡ log.log_file_size
unfolding rotated close_file
rotated-log_file_size log = ground arith

rotate-Fresh :
    (m : Mapping) (log : LogMmap)
    → (rotate m log).1 ≡ true
    → Fresh log.log_file_size (rotate m log).0.buffer
unfolding rotate
rotate-Fresh m log done =
    let (empty, size, all) = open_file-Fresh m (rotated (close_file log)) done in
    (empty, size ∙ rotated-log_file_size log, all ∙ rotated-log_file_size log)

Fresh-IsValid : (size : ℕ) (b : TransferBuffer) → Fresh size b → IsValid b
unfolding IsValid
Fresh-IsValid size b (empty, same, all) = (omega (arith, empty), all ∙ sym same)

Fresh-room :
    (size : ℕ) (b : TransferBuffer) → 1024 ≤ size → Fresh size b → has_room (start_write b) ≡ true
unfolding start_write
Fresh-room size b large (empty, same, all) = ground (arith, large, empty, same)

rotate-opens :
    (m : Mapping) (log : LogMmap)
    → m.open_file ≡ true
    → m.ftruncate ≡ true
    → m.mmap ≡ true
    → (rotate m log).1 ≡ true
unfolding rotate open_file
rotate-opens m log opened cut mapped = rw (opened, cut, mapped) refl

-- Where a message stands when it has been logged. With room for 1024 bytes it is behind what was
-- written before, and no archive changes.
pub record Behind (message : Bytes) (log log' : LogMmap) : Type 0 where
  pub room : log.buffer.write_head + 1024 ≤ log.buffer.buf_size
  pub text : written log'.buffer ≡ written log.buffer ++ message
  pub archives : (k : ℕ) → log'.archive k ≡ log.archive k

-- Without that room it is all that is written to a new file; the log up to then is the archive 1, and
-- the archives 1 to n are the next ones.
pub record InNewFile (n : ℕ) (message : Bytes) (log log' : LogMmap) : Type 0 where
  pub full : log.buffer.buf_size < log.buffer.write_head + 1024
  pub text : written log'.buffer ≡ message
  pub newest : log'.archive 1 ≡ log_file log
  pub older : (j : ℕ) → j < n → log'.archive (suc (suc j)) ≡ log.archive (suc j)

-- A message in the buffer behind a rotation that succeeds.
put_message-Fresh :
    (size : ℕ) (head text : Bytes) (b : TransferBuffer)
    → 1024 ≤ size
    → Fresh size b
    → (written (put_message head text b) ≡ take 1023 (head ++ text))
      × IsValid (put_message head text b)
put_message-Fresh size head text b large (empty, same, all) =
    let fresh : Fresh size b = (empty, same, all) in
    let (appended, valid) =
      put_message-IsValid head text b (Fresh-IsValid size b fresh)
        (Fresh-room size b large fresh) in
    let nothing : written b ≡ [] = ap (λ k. slice 0 k b.buf) empty in
    (appended ∙ ap (λ zs. zs ++ take 1023 (head ++ text)) nothing, valid)

has_room-false :
    (b : TransferBuffer)
    → IsValid b
    → has_room (start_write b) ≡ false
    → b.buf_size < b.write_head + 1024
unfolding start_write IsValid
has_room-false b valid e = ground (arith, e, valid.0)

has_room-true :
    (b : TransferBuffer) → has_room (start_write b) ≡ true → b.write_head + 1024 ≤ b.buf_size
unfolding start_write
has_room-true b e = ground (arith, e)

-- If the buffer of the log is valid, n + 1 archives are kept, a log file has room for one message,
-- and the calls to open, cut and map a file succeed, then writeLog leaves the buffer valid; with room
-- for maxMessageSize bytes the message, cut to maxMessageSize - 1 bytes with its head, goes behind
-- what was written before, and the archives stay; without it, the message is all that is written to
-- a new file, what was the log is the archive 1, and each archive from 1 to n is the next.
pub write_log-Appends :
    (m : Mapping) (prefix time text : Bytes) (log : LogMmap) (n : ℕ)
    → IsValid log.buffer
    → log.log_archive_count ≡ suc n
    → 1024 ≤ log.log_file_size
    → m.open_file ≡ true
    → m.ftruncate ≡ true
    → m.mmap ≡ true
    → let log' = write_log m prefix time text log in
      let message = take 1023 (message_head prefix time ++ text) in
      (Behind message log log' ⊎ InNewFile n message log log') × IsValid log'.buffer
unfolding write_log
write_log-Appends m prefix time text log n valid count large opened cut mapped =
    let head = message_head prefix time in
    let message = take 1023 (head ++ text) in
    elim (Bool-cases (has_room (start_write log.buffer))) [
      | inl e ↦
          (let (appended, valid') = put_message-IsValid head text log.buffer valid e in
            let behind : Behind message log
                (record log { buffer = put_message head text log.buffer }) =
              record { room = has_room-true log.buffer e; text = appended; archives = λ k. refl } in
            rw e (inl behind, valid'))
      | inr e ↦
          (let b = (rotate m log).0.buffer in
            let done = rotate-opens m log opened cut mapped in
            let fresh = rotate-Fresh m log done in
            let (newest, older, kept) = rotate-shifts m log n count in
            let (only, valid') = put_message-Fresh log.log_file_size head text b large fresh in
            let renewed : InNewFile n message log
                (record (rotate m log).0 { buffer = put_message head text b }) =
              record {
                full = has_room-false log.buffer valid e;
                text = only;
                newest = newest;
                older = older;
              } in
            let room = Fresh-room log.log_file_size b large fresh in
            rw (e, done, room) (inr renewed, valid'))
    ]

-- ===== src/Log.antt =====
-- src/log/LogBase.cpp, src/log/LogMmap.cpp and src/utils/TransferBuffer.h: the log, written through a
-- mapped file that is rotated when it is full.
mod Append
mod Rotation
mod Tests
mod Write
use epoll_http_server.Base.{
  ℕ, zero, suc, ◌+◌, ◌-◌, Bool, true, false, not, ◌||◌, ◌&&◌, Option, none, some, List, [], ◌∷◌,
  ◌++◌, Bytes, codes, ltb, leb, ◌==◌, if◌then◌else◌, length, take, replicate, overwrite, pos_part,
  is_negative,
}
use epoll_http_server.Params.{LogLevel, ServerParameters}

-- `TransferBuffer`; `buf` is the mapped file, and a position in it.
pub record TransferBuffer : Type 0 where
  pub buf : Bytes
  pub read_head : ℕ
  pub write_head : ℕ
  pub buf_size : ℕ

abbrev pub no_buffer : TransferBuffer
no_buffer = record { buf = []; read_head = 0; write_head = 0; buf_size = 0 }

-- `init`, with `clear`
unfoldable pub init_buffer : Bytes → ℕ → TransferBuffer
init_buffer buf size = record { buf = buf; read_head = 0; write_head = 0; buf_size = size }

-- `startWrite`: the size of the region at `write_head`; `none` is the result false.
unfoldable pub start_write : TransferBuffer → Option ℕ
start_write b = if leb b.buf_size b.write_head then none else some (b.buf_size - b.write_head)

unfoldable pub end_write : TransferBuffer → ℕ → TransferBuffer
end_write b size = record b { write_head = b.write_head + size }

-- `LogMmap`. `archive i` is the file `logFileName.i`, `current` the file `logFileName` while it is not
-- mapped; `fd` is open exactly while `is_open`, and then `buffer.buf` is the file.
pub record LogMmap : Type 0 where
  pub level : LogLevel
  pub log_file_size : ℕ
  pub log_archive_count : ℕ
  pub buffer : TransferBuffer
  pub is_open : Bool
  pub current : Option Bytes
  pub archive : ℕ → Option Bytes

-- Whether open(2), ftruncate(2) and mmap(2) succeed.
pub record Mapping : Type 0 where
  pub open_file : Bool
  pub ftruncate : Bool
  pub mmap : Bool

abbrev pub update_file : (ℕ → Option Bytes) → ℕ → Option Bytes → ℕ → Option Bytes
update_file f i v j = if i == j then v else f j

-- `ftruncate` of a file: cut, or filled up with zeros.
unfoldable pub resized : ℕ → Bytes → Bytes
resized size file = take size (file ++ replicate size 0)

abbrev pub content : Option Bytes → Bytes
content none = []
content (some file) = file

unfoldable pub open_file : Mapping → LogMmap → LogMmap × Bool
unfolding resized init_buffer
open_file m log =
    let file = resized log.log_file_size (content log.current) in
    if not m.open_file
    then (log, false)
    else if not m.ftruncate
    then (record log { current = some (content log.current) }, false)
    else if not m.mmap
    then (record log { current = some file }, false)
    else (
      record log { current = none; buffer = init_buffer file log.log_file_size; is_open = true },
      true,
    )

unfoldable pub close_file : LogMmap → LogMmap
close_file log =
    if log.is_open
    then record log { current = some log.buffer.buf; buffer = no_buffer; is_open = false }
    else log

-- `rename` between two archives, and of the log to an archive; a file that is not there is not moved.
abbrev pub rename : ℕ → ℕ → (ℕ → Option Bytes) → ℕ → Option Bytes
rename i j f = elim (f i) [
  | none ↦ f
  | some file ↦ update_file (update_file f j (some file)) i none
]

-- The loop of `rotate`, for the archives from the i-th down.
unfoldable pub shift : ℕ → (ℕ → Option Bytes) → ℕ → Option Bytes
shift zero f = f
shift (suc i) f = shift i (rename (suc i) (suc (suc i)) f)

-- The archive that `p1` names in the end.
abbrev pub last_index : ℕ → ℕ
last_index count = if ltb 1 count then 1 else count

abbrev pub move_current : Option Bytes → ℕ → (ℕ → Option Bytes) → ℕ → Option Bytes
move_current none i f = f
move_current (some file) i f = update_file f i (some file)

unfoldable pub rotated : LogMmap → LogMmap
unfolding shift
rotated log =
    let removed = update_file log.archive log.log_archive_count none in
    let shifted = shift (log.log_archive_count - 1) removed in
    record log {
      archive = move_current log.current (last_index log.log_archive_count) shifted;
      current = none;
    }

unfoldable pub rotate : Mapping → LogMmap → LogMmap × Bool
unfolding rotated open_file close_file
rotate m log = open_file m (rotated (close_file log))

-- `init`. A negative logFileSize is one that ftruncate(2) refuses; a negative logArchiveCount, of
-- which only the name of the one archive has the number, is taken as 0. `stat` and `mkdir` are whether the calls succeed. The
-- folder's name has to leave room for that of the file.
unfoldable pub init : Bool → Bool → Mapping → ServerParameters → LogMmap → LogMmap × Bool
unfolding rotate
init stat mkdir m params log =
    let log' = record log {
      level = params.log_level;
      log_file_size = pos_part params.log_file_size;
      log_archive_count = pos_part params.log_archive_count;
    } in
    let m' = record m { ftruncate = m.ftruncate && not (is_negative params.log_file_size) } in
    if ltb 270 (length params.log_folder + 2)
    then (log, false)
    else if not stat && not mkdir
    then (log', false)
    else rotate m' log'

abbrev pub max_message_size : ℕ
max_message_size = 1024

-- `snprintf` of a text to a position, with the terminating zero.
abbrev pub printed : Bytes → ℕ → ℕ → Bytes → Bytes
printed buf at size text = overwrite buf at (take (size - 1) text ++ 0 ∷ [])

-- The end of `writeLog`: `head` is the text of the prefix and the time, `text` that of the message.
unfoldable pub put_message : Bytes → Bytes → TransferBuffer → TransferBuffer
unfolding end_write
put_message head text b =
    let b1 = record b { buf = printed b.buf b.write_head max_message_size head } in
    let left = max_message_size - length head in
    let b2 = record b1 { buf = printed b1.buf (b.write_head + length head) left text } in
    let count = if leb left (length text) then left - 1 else length text in
    if leb max_message_size (length head)
    then end_write b1 (max_message_size - 1)
    else end_write b2 (length head + count)

-- Whether `startWrite` offers room for a message.
abbrev pub has_room : Option ℕ → Bool
has_room none = false
has_room (some size) = not (ltb size max_message_size)

unfoldable pub message_head : Bytes → Bytes → Bytes
message_head prefix time = prefix ++ (codes " " ++ (time ++ codes "   "))

-- `writeLog` of `LogMmap`; `time` is what `getCurrentTimeString` returns, `text` what the format and
-- its arguments give.
unfoldable pub write_log : Mapping → Bytes → Bytes → Bytes → LogMmap → LogMmap
unfolding put_message message_head start_write rotate
write_log m prefix time text log =
    let (log', done) = rotate m log in
    let head = message_head prefix time in
    if has_room (start_write log.buffer)
    then record log { buffer = put_message head text log.buffer }
    else if not done
    then log'
    else if not (has_room (start_write log'.buffer))
    then log'
    else record log' { buffer = put_message head text log'.buffer }

-- `Log::Level` as a number, and the prefixes.
abbrev pub level_number : LogLevel → ℕ
level_number LogLevel.debug = 1
level_number LogLevel.info = 2
level_number LogLevel.warning = 3
level_number LogLevel.error = 4

abbrev pub level_prefix : LogLevel → Bytes
level_prefix LogLevel.debug = codes "[DEBUG]  "
level_prefix LogLevel.info = codes "[INFO]   "
level_prefix LogLevel.warning = codes "[WARNING]"
level_prefix LogLevel.error = codes "[ERROR]  "

-- `LogBase::writeLog` at a level.
unfoldable pub write_level : LogLevel → Mapping → Bytes → Bytes → LogMmap → LogMmap
unfolding write_log
write_level level m time text log =
    if leb (level_number log.level) (level_number level)
    then write_log m (level_prefix level) time text log
    else log

-- ===== src/Log/Tests.antt =====
-- The theorems on the log at concrete states.
use epoll_http_server.Base.{
  ℕ, suc, ◌≤◌, ◌<◌, ◌≡◌, ◌⊎◌, refl, true, false, none, some, [], ◌++◌, codes, take, arith,
  replicate, length-replicate, if◌then◌else◌, ◌==◌,
}
use epoll_http_server.Params.{LogLevel}
use epoll_http_server.Log.{
  LogMmap, Mapping, no_buffer, rotate, message_head, write_log, write_level,
}
use epoll_http_server.Log.Rotation.{log_file, rotate-shifts}
use epoll_http_server.Log.Write.{IsValid, Behind, InNewFile, write_log-Appends}

abbrev mapped : Mapping
mapped = record { open_file = true; ftruncate = true; mmap = true }

-- Two archives are kept; the log of an earlier run is there.
abbrev earlier : LogMmap
earlier = record {
  level = LogLevel.warning;
  log_file_size = 2048;
  log_archive_count = 2;
  buffer = no_buffer;
  is_open = false;
  current = some (codes "old");
  archive = λ i. if i == 1 then some (codes "older") else none;
}

moved_on : (rotate mapped earlier).0.archive 2 ≡ some (codes "older")
unfolding rotate
moved_on = refl

not_logged : write_level LogLevel.info mapped [] (codes "a") earlier ≡ earlier
unfolding write_level
not_logged = refl

rotate-shifts_example :
    ((rotate mapped earlier).0.archive 1 ≡ log_file earlier)
    × ((j : ℕ) → j < 1 → (rotate mapped earlier).0.archive (suc (suc j)) ≡ earlier.archive (suc j))
    × ((j : ℕ)
        → 1 ≤ j
        → (rotate mapped earlier).0.archive (suc (suc j)) ≡ earlier.archive (suc (suc j)))
rotate-shifts_example = rotate-shifts mapped earlier 1 refl

-- The file is open, and full but for 24 bytes.
abbrev full : LogMmap
full = record earlier {
  buffer = record { buf = replicate 2048 0; read_head = 0; write_head = 2024; buf_size = 2048 };
  is_open = true;
  current = none;
}

abbrev logged : LogMmap
logged = write_log mapped (codes "[INFO]   ") (codes "12:00") (codes "up") full

write_log-Appends_example :
    let message = take 1023 (message_head (codes "[INFO]   ") (codes "12:00") ++ codes "up") in
    (Behind message full logged ⊎ InNewFile 1 message full logged) × IsValid logged.buffer
unfolding IsValid
write_log-Appends_example =
    write_log-Appends mapped (codes "[INFO]   ") (codes "12:00") (codes "up") full 1
      (omega arith, length-replicate {A = ℕ} 2048 0) refl (omega arith) refl refl refl

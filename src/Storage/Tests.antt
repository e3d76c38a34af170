-- ===== src/Storage/Tests.antt =====
-- A pool with blocks of two items.
use epoll_http_server.Base.{ℕ, ◌==◌, if◌then◌else◌, none, some, List, [], ◌∷◌, ◌≡◌, refl, arith}
use epoll_http_server.Storage
use epoll_http_server.Storage.{BlockStorage, allocate, free, allocated_count}
use epoll_http_server.Storage.Chains.{Absent}
use epoll_http_server.Storage.Allocate.{Represents}
use epoll_http_server.Storage.Blocks.{available, allocate-Represents}
use epoll_http_server.Storage.Release.{free-Represents}
use epoll_http_server.Storage.Count.{allocated_count_lem}

empty-Represents : Represents 2 Storage.empty [] []
empty-Represents = record { used_list = refl; free_list = refl; distinct = tt; in_blocks = tt }

allocate-Represents_example :
    (p : ℕ) × (rest : List ℕ) × (available 2 Storage.empty [] ≡ p ∷ rest)
    × ((allocate 2 Storage.empty).1 ≡ some p)
    × Absent p []
    × Represents 2 (allocate 2 Storage.empty).0 (p ∷ []) rest
allocate-Represents_example = allocate-Represents 1 Storage.empty [] [] empty-Represents

-- Both items are in use, the second in front.
abbrev both_used : BlockStorage
both_used = record {
  links = λ p.
      if p == 1
      then record { next = some 0; prev = none }
      else record { next = none; prev = some 1 };
  block_count = 1;
  free_head = none;
  used_head = some 1;
}

both_used-Represents : Represents 2 both_used (1 ∷ 0 ∷ []) []
both_used-Represents = record {
  used_list = (refl, refl, (refl, refl, refl));
  free_list = refl;
  distinct = omega arith;
  in_blocks = omega arith;
}

free-Represents_example : Represents 2 (free both_used 0) (1 ∷ []) (0 ∷ [])
free-Represents_example = free-Represents 2 both_used 0 (1 ∷ []) [] [] both_used-Represents

allocated_count_lem_example : allocated_count 5 both_used ≡ 2
allocated_count_lem_example =
    allocated_count_lem 2 5 both_used (1 ∷ 0 ∷ []) [] both_used-Represents (omega arith)

-- ===== src/Storage.antt =====
-- src/utils/BlockStorage.h: a pool of items that are never moved, with a list of the free ones and a
-- doubly linked list of those in use.
-- A pointer to an item is its address, `none` for a null pointer. The items of the n-th block have
-- the addresses `n * block_size` to `n * block_size + block_size - 1`; what an item holds beside its
-- links is the client's.
pub mod Capacity
pub mod Chains
pub mod Count
pub mod Tests
pub mod Release
pub mod Unlink
pub mod Blocks
pub mod Allocate
use epoll_http_server.Base.{
  ℕ, zero, suc, ◌+◌, ◌-◌, ◌*◌, Bool, true, false, Option, none, some, List, [], ◌∷◌, length, ◌==◌,
  if◌then◌else◌,
}

-- `ServiceData`
pub record Links : Type 0 where
  pub next : Option ℕ
  pub prev : Option ℕ

abbrev pub Memory : Type 0
Memory = ℕ → Links

-- `block_count` is the length of the list of blocks.
pub record BlockStorage : Type 0 where
  pub links : Memory
  pub block_count : ℕ
  pub free_head : Option ℕ
  pub used_head : Option ℕ

abbrev pub empty : BlockStorage
empty = record {
  links = λ p. record { next = none; prev = none };
  block_count = 0;
  free_head = none;
  used_head = none;
}

abbrev pub set_next : Memory → ℕ → Option ℕ → Memory
set_next m p v q = if p == q then record { next = v; prev = (m q).prev } else m q

abbrev pub set_prev : Memory → ℕ → Option ℕ → Memory
set_prev m p v q = if p == q then record { next = (m q).next; prev = v } else m q

-- `p->…next = v` and `p->…prev = v` behind a test that `p` is not null
abbrev pub set_next? : Memory → Option ℕ → Option ℕ → Memory
set_next? m none v = m
set_next? m (some p) v = set_next m p v

abbrev pub set_prev? : Memory → Option ℕ → Option ℕ → Memory
set_prev? m none v = m
set_prev? m (some p) v = set_prev m p v

-- `item == usedListHead`
abbrev pub is_pointer : ℕ → Option ℕ → Bool
is_pointer p none = false
is_pointer p (some q) = p == q

-- the loop of `allocateBlock`, over the items `i`, `i + 1`, … up to the last but one
unfoldable pub link_items : ℕ → ℕ → Memory → Memory
link_items zero p m = m
link_items (suc n) p m = link_items n (p + 1) (set_next m p (some (p + 1)))

module _ (block_size : ℕ) where
  unfoldable pub allocate_block : BlockStorage → BlockStorage
  allocate_block s =
      let first = s.block_count * block_size in
      let ended = set_next s.links (first + block_size - 1) none in
      record s {
        links = link_items (block_size - 1) first ended;
        block_count = s.block_count + 1;
        free_head = some first;
      }

unfoldable pub add_to_used_list : BlockStorage → ℕ → BlockStorage
add_to_used_list s p =
    let m = set_prev? s.links s.used_head (some p) in
    record s { links = set_next (set_prev m p none) p s.used_head; used_head = some p }

unfoldable pub remove_from_used_list : BlockStorage → ℕ → BlockStorage
remove_from_used_list s p =
    let here = s.links p in
    let m = set_next? s.links here.prev here.next in
    record s {
      used_head = if is_pointer p s.used_head then here.next else s.used_head;
      links = set_prev? m (m p).next (m p).prev;
    }

-- the part of `allocate` behind the test of the free list
unfoldable pub take_free : BlockStorage → Option ℕ → BlockStorage × Option ℕ
unfolding add_to_used_list
take_free s none = (s, none)
take_free s (some p) = (add_to_used_list (record s { free_head = (s.links p).next }) p, some p)

abbrev pub is_none : Option ℕ → Bool
is_none none = true
is_none (some p) = false

-- The pointer that `allocate` returns is never null; a failing `new` throws.
unfoldable pub allocate : ℕ → BlockStorage → BlockStorage × Option ℕ
unfolding take_free allocate_block
allocate block_size s =
    let s' = if is_none s.free_head then allocate_block block_size s else s in
    take_free s' s'.free_head

unfoldable pub free : BlockStorage → ℕ → BlockStorage
unfolding remove_from_used_list
free s p =
    let s' = remove_from_used_list s p in
    record s' { links = set_next s'.links p s'.free_head; free_head = some p }

unfoldable pub destroy : BlockStorage → BlockStorage
destroy s = record s { block_count = 0; free_head = none; used_head = none }

-- the walk that `head` and `next` serve, on fuel
unfoldable pub walk : ℕ → Memory → Option ℕ → List ℕ
walk zero m p = []
walk (suc fuel) m none = []
walk (suc fuel) m (some p) = p ∷ walk fuel m (m p).next

-- `getStorageInfo`
unfoldable pub allocated_count : ℕ → BlockStorage → ℕ
unfolding walk
allocated_count fuel s = length (walk fuel s.links s.used_head)

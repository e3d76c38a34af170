-- ===== src/Storage/Blocks.antt =====
-- `allocateBlock` adds the items of a new block to an empty free list.
use epoll_http_server.Base.{
  true, false, ℕ, ◌+◌, ◌-◌, ◌*◌, ◌<◌, ◌≤◌, zero, suc, none, some, List, [], ◌∷◌, ◌++◌, ◌≡◌, refl,
  sym, ap, ◌∙◌, arith, append-nil,
}
use mathlib.Core.Path.{subst}
use epoll_http_server.Storage.{
  BlockStorage, Memory, set_next, take_free, allocate, allocate_block, link_items, is_none,
}
use epoll_http_server.Storage.Chains.{
  Distinct-front, Absent-append, Absent, Distinct, Below, Free, Used, Same, Used-Same,
}
use epoll_http_server.Storage.Allocate.{Represents, take_free-Represents}

-- The addresses from `p` on.
abbrev pub items : ℕ → ℕ → List ℕ
items p zero = []
items p (suc n) = p ∷ items (p + 1) n

items-Absent : (q p n : ℕ) → q < p → Absent q (items p n)
items-Absent q p zero h = tt
items-Absent q p (suc n) h = (λ e. omega arith, items-Absent q (p + 1) n (omega arith))

items-Distinct : (p n : ℕ) → Distinct (items p n)
items-Distinct p zero = tt
items-Distinct p (suc n) = (items-Absent p (p + 1) n (omega arith), items-Distinct (p + 1) n)

items-Below : (p n m : ℕ) → p + n ≤ m → Below m (items p n)
items-Below p zero m h = tt
items-Below p (suc n) m h = (omega arith, items-Below (p + 1) n m (omega arith))

Absent-items : (q p n : ℕ) (xs : List ℕ) → q < p → Absent q xs → Absent q (xs ++ items p n)
Absent-items q p n [] h a = items-Absent q p n h
Absent-items q p n (x ∷ xs) h (k, a) = (k, Absent-items q p n xs h a)

Distinct-items : (p n : ℕ) (xs : List ℕ) → Below p xs → Distinct xs → Distinct (xs ++ items p n)
Distinct-items p n [] b d = items-Distinct p n
Distinct-items p n (x ∷ xs) (h, b) (a, d) = (Absent-items x p n xs h a, Distinct-items p n xs b d)

Below-items : (p n m : ℕ) (xs : List ℕ) → p + n ≤ m → Below p xs → Below m (xs ++ items p n)
Below-items p n m [] h b = items-Below p n m h
Below-items p n m (x ∷ xs) h (k, b) = (omega arith, Below-items p n m xs h b)

linked-below : (n p q : ℕ) (m : Memory) → q < p → link_items n p m q ≡ m q
unfolding link_items
linked-below zero p q m h = refl
linked-below (suc n) p q m h =
    linked-below n (p + 1) q (set_next m p (some (p + 1))) (omega arith) ∙ ground arith

linked-Free :
    (n p : ℕ) (m : Memory)
    → (m (p + n)).next ≡ none
    → Free (link_items n p m) (some p) (items p (suc n))
unfolding link_items
linked-Free zero p m h = (refl, subst (λ q. (m q).next ≡ none) (omega arith) h)
linked-Free (suc n) p m h =
    let m' = set_next m p (some (p + 1)) in
    let rest = linked-Free n (p + 1) m' (ground arith) in
    let here : (link_items n (p + 1) m' p).next ≡ some (p + 1) =
      ap (λ l. l.next) (linked-below n (p + 1) p m' (omega arith)) ∙ ground arith in
    (refl, subst (λ q. Free (link_items n (p + 1) m') q (items (p + 1) (suc n))) (sym here) rest)

block-Same :
    (n p : ℕ) (m : Memory) (xs : List ℕ)
    → Below p xs
    → Same m (link_items n p (set_next m (p + n) none)) xs
block-Same n p m [] b = tt
block-Same n p m (x ∷ xs) (h, b) =
    (linked-below n p x (set_next m (p + n) none) h ∙ ground arith, block-Same n p m xs b)

-- The links of the pool, with the index of the last item written as a sum.
block_links :
    (size p : ℕ) (m : Memory)
    → link_items (suc size - 1) p (set_next m (p + (suc size) - 1) none)
      ≡ link_items size p (set_next m (p + size) none)
block_links size p m =
    let count : suc size - 1 ≡ size = omega arith in
    let last : p + (suc size) - 1 ≡ p + size = omega arith in rw (count, last) refl

-- After the block has been added, all its items are free.
pub allocate_block-Represents :
    (size : ℕ) (s : BlockStorage) (used : List ℕ)
    → Represents (suc size) s used []
    → Represents
        (suc size)
        (allocate_block (suc size) s)
        used
        (items (s.block_count * (suc size)) (suc size))
unfolding allocate_block
allocate_block-Represents size s used r =
    let first = s.block_count * (suc size) in
    let d : Distinct used = subst Distinct (append-nil used) r.distinct in
    let b : Below first used = subst (Below first) (append-nil used) r.in_blocks in
    record {
      used_list =
          subst (λ m. Used m none s.used_head used) (sym (block_links size first s.links))
            (Used-Same s.links _ none s.used_head used (block-Same size first s.links used b)
              r.used_list);
      free_list =
          subst (λ m. Free m (some first) (items first (suc size)))
            (sym (block_links size first s.links))
            (linked-Free size first (set_next s.links (first + size) none) (ground arith));
      distinct = Distinct-items first (suc size) used b d;
      in_blocks = Below-items first (suc size) _ used (omega arith) b;
    }

-- The items that `allocate` takes from: those of a new block, if none is free.
abbrev pub available : ℕ → BlockStorage → List ℕ → List ℕ
available size s [] = items (s.block_count * size) size
available size s (p ∷ free) = p ∷ free

taken-Represents :
    (size : ℕ) (s : BlockStorage) (p : ℕ) (used rest : List ℕ)
    → Represents size s used (p ∷ rest)
    → ((take_free s s.free_head).1 ≡ some p)
      × Represents size (take_free s s.free_head).0 (p ∷ used) rest
unfolding take_free
taken-Represents size s p used rest r =
    let out = take_free-Represents size s p used rest r in
    subst (λ h. ((take_free s h).1 ≡ some p) × Represents size (take_free s h).0 (p ∷ used) rest)
      (sym r.free_list.0) (refl, out)

first-Absent : (p : ℕ) (used rest : List ℕ) → Distinct (used ++ p ∷ rest) → Absent p used
first-Absent p used rest d = (Absent-append p used rest (Distinct-front p used rest d).0).0

-- `allocate`, of a pool with blocks of `suc size` items: it returns the first of the available items,
-- which was not in use, puts it in front of the used list, and leaves the others free.
pub allocate-Represents :
    (size : ℕ) (s : BlockStorage) (used free : List ℕ)
    → Represents (suc size) s used free
    → (p : ℕ) × (rest : List ℕ) × (available (suc size) s free ≡ p ∷ rest)
      × ((allocate (suc size) s).1 ≡ some p)
      × Absent p used
      × Represents (suc size) (allocate (suc size) s).0 (p ∷ used) rest
unfolding allocate
allocate-Represents size s used [] r =
    let first = s.block_count * suc size in
    let s' = allocate_block (suc size) s in
    let empty : is_none s.free_head ≡ true = ap is_none r.free_list in
    let full = allocate_block-Represents size s used r in
    let (found, out) = taken-Represents (suc size) s' first used (items (first + 1) size) full in
    rw empty (
      first,
      items (first + 1) size,
      refl,
      found,
      first-Absent first used (items (first + 1) size) full.distinct,
      out,
    )
allocate-Represents size s used (p ∷ free) r =
    let some_free : is_none s.free_head ≡ false = ap is_none r.free_list.0 in
    let (found, out) = taken-Represents (suc size) s p used free r in
    rw some_free (p, free, refl, found, first-Absent p used free r.distinct, out)

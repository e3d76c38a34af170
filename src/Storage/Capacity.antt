-- ===== src/Storage/Capacity.antt =====
-- src/utils/BlockStorage.h: the blocks bound the number of items in use, so that walking over as many
-- items goes through all that are in use.
use epoll_http_server.Base.{
  ℕ, zero, suc, ◌*◌, ◌≤◌, ◌<◌, List, [], ◌∷◌, ◌++◌, ◌≡◌, refl, ap, ◌==◌, if◌then◌else◌, Bool-cases,
  inl, inr, arith, length, length-append, none, false,
}
use mathlib.Core.Path.{subst}
use epoll_http_server.Storage.{BlockStorage, walk}
use epoll_http_server.Storage.Chains.{Absent, Distinct, Below}
use epoll_http_server.Storage.Allocate.{Represents}
use epoll_http_server.Storage.Count.{walk_lem}

-- The items but `n`.
without : ℕ → List ℕ → List ℕ
without n [] = []
without n (x ∷ xs) = let rest = without n xs in if x == n then rest else x ∷ rest

without-Absent : (n : ℕ) (xs : List ℕ) → Absent n xs → without n xs ≡ xs
unfolding without
without-Absent n [] absent = refl
without-Absent n (x ∷ xs) (other, absent) =
    let e : (x == n) ≡ false = ground (arith, other) in
    rw e (ap (λ ys. x ∷ ys) (without-Absent n xs absent))

-- Of different items at most one is left out.
length-without : (n : ℕ) (xs : List ℕ) → Distinct xs → length xs ≤ suc (length (without n xs))
unfolding without
length-without n [] distinct = omega arith
length-without n (x ∷ xs) (absent, distinct) = elim (Bool-cases (x == n)) [
  | inl e ↦
      (let same : x ≡ n = ground (arith, e) in
        let kept : without n xs ≡ xs = without-Absent n xs (subst (λ y. Absent y xs) same absent) in
        rw e (rw kept (omega arith)))
  | inr e ↦ rw e (omega (arith, length-without n xs distinct))
]

Absent-without : (p n : ℕ) (xs : List ℕ) → Absent p xs → Absent p (without n xs)
unfolding without
Absent-without p n [] absent = tt
Absent-without p n (x ∷ xs) (other, absent) = elim (Bool-cases (x == n)) [
  | inl e ↦ rw e (Absent-without p n xs absent)
  | inr e ↦ rw e (other, Absent-without p n xs absent)
]

Distinct-without : (n : ℕ) (xs : List ℕ) → Distinct xs → Distinct (without n xs)
unfolding without
Distinct-without n [] distinct = tt
Distinct-without n (x ∷ xs) (absent, distinct) = elim (Bool-cases (x == n)) [
  | inl e ↦ rw e (Distinct-without n xs distinct)
  | inr e ↦ rw e (Absent-without x n xs absent, Distinct-without n xs distinct)
]

Below-without : (n : ℕ) (xs : List ℕ) → Below (suc n) xs → Below n (without n xs)
unfolding without
Below-without n [] below = tt
Below-without n (x ∷ xs) (less, below) = elim (Bool-cases (x == n)) [
  | inl e ↦ rw e (Below-without n xs below)
  | inr e ↦ (let less' : x < n = ground (arith, e, less) in rw e (less', Below-without n xs below))
]

length-Below : (n : ℕ) (xs : List ℕ) → Distinct xs → Below n xs → length xs ≤ n
length-Below zero [] distinct below = omega arith
length-Below zero (x ∷ xs) distinct (less, below) = absurd (omega (arith, less))
length-Below (suc n) xs distinct below = omega (
  arith,
  length-without n xs distinct,
  length-Below n (without n xs) (Distinct-without n xs distinct) (Below-without n xs below),
)

-- The walk over the items in use, on the capacity of the blocks.
pub used_items :
    (size : ℕ) (s : BlockStorage) (used available : List ℕ)
    → Represents size s used available
    → walk (s.block_count * size) s.links s.used_head ≡ used
used_items size s used available r =
    walk_lem (s.block_count * size) s.links none s.used_head used r.used_list (
      omega (
        arith,
        length-append used available,
        length-Below (s.block_count * size) (used ++ available) r.distinct r.in_blocks,
      ))

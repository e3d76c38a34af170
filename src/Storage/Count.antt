-- ===== src/Storage/Count.antt =====
-- src/utils/BlockStorage.h: `getStorageInfo` and the items in use.
use epoll_http_server.Base.{
  ℕ, zero, suc, ◌≤◌, Option, none, some, List, [], ◌∷◌, ◌≡◌, refl, ap, arith, length,
}
use epoll_http_server.Storage.{BlockStorage, Memory, walk, allocated_count}
use epoll_http_server.Storage.Chains.{Used}
use epoll_http_server.Storage.Allocate.{Represents}

pub walk_lem :
    (fuel : ℕ) (m : Memory) (b p : Option ℕ) (xs : List ℕ)
    → Used m b p xs
    → length xs ≤ fuel
    → walk fuel m p ≡ xs
unfolding walk
walk_lem zero m b p [] u le = refl
walk_lem zero m b p (x ∷ xs) u le = absurd (omega arith)
walk_lem (suc fuel) m b none [] u le = refl
walk_lem (suc fuel) m b (some q) [] u le = absurd (cc u)
walk_lem (suc fuel) m b none (x ∷ xs) (h, k, u) le = absurd (cc h)
walk_lem (suc fuel) m b (some q) (x ∷ xs) (h, k, u) le =
    let same : q ≡ x = ground arith in
    rw same (ap (λ l. x ∷ l) (walk_lem fuel m (some x) (m x).next xs u (omega arith)))

-- With enough fuel for the list, the walk over the used items returns their number.
pub allocated_count_lem :
    (size fuel : ℕ) (s : BlockStorage) (used free : List ℕ)
    → Represents size s used free
    → length used ≤ fuel
    → allocated_count fuel s ≡ length used
unfolding allocated_count
allocated_count_lem size fuel s used free r le =
    ap length (walk_lem fuel s.links none s.used_head used r.used_list le)

-- ===== src/Storage/Allocate.antt =====
-- `allocate` takes the first free item to the front of the used list.
use epoll_http_server.Base.{
  ℕ, ◌*◌, Option, none, some, List, [], ◌∷◌, ◌++◌, ◌≡◌, ◌≢◌, refl, sym, ap, ◌∙◌, arith,
}
use mathlib.Core.Path.{subst}
use epoll_http_server.Storage.{
  BlockStorage, Memory, set_next, set_prev, set_prev?, add_to_used_list, take_free,
}
use epoll_http_server.Storage.Chains.{
  Absent, Distinct, Below, Free, Used, Same, SameNext, Used-Same, Free-SameNext, Distinct-front,
  Below-front, Absent-append, Distinct-left,
}

-- The pool with the used items `used`, from `head` on, and the free items `free`.
pub record Represents (size : ℕ) (s : BlockStorage) (used free : List ℕ) : Type 0 where
  pub used_list : Used s.links none s.used_head used
  pub free_list : Free s.links s.free_head free
  pub distinct : Distinct (used ++ free)
  pub in_blocks : Below (s.block_count * size) (used ++ free)

-- The links after `addToUsedList`.
abbrev added : Memory → Option ℕ → ℕ → Memory
added m u p = set_next (set_prev (set_prev? m u (some p)) p none) p u

added-here : (m : Memory) (u : Option ℕ) (p : ℕ) → added m u p p ≡ record { next = u; prev = none }
added-here m none p = ground arith
added-here m (some y) p = ground arith

added-next : (m : Memory) (u : Option ℕ) (p x : ℕ) → p ≢ x → (added m u p x).next ≡ (m x).next
added-next m none p x n = ground arith
added-next m (some y) p x n = ground arith

added-head :
    (m : Memory) (p y : ℕ)
    → p ≢ y
    → added m (some y) p y ≡ record { next = (m y).next; prev = some p }
added-head m p y n = ground arith

added-else : (m : Memory) (p x y : ℕ) → p ≢ x → y ≢ x → added m (some y) p x ≡ m x
added-else m p x y n k = ground arith

added-Same :
    (m : Memory) (p y : ℕ) (xs : List ℕ)
    → Absent p xs
    → Absent y xs
    → Same m (added m (some y) p) xs
added-Same m p y [] a b = tt
added-Same m p y (x ∷ xs) (n, a) (k, b) = (added-else m p x y n k, added-Same m p y xs a b)

added-SameNext :
    (m : Memory) (u : Option ℕ) (p : ℕ) (xs : List ℕ) → Absent p xs → SameNext m (added m u p) xs
added-SameNext m u p [] a = tt
added-SameNext m u p (x ∷ xs) (n, a) = (added-next m u p x n, added-SameNext m u p xs a)

added-Used :
    (m : Memory) (u : Option ℕ) (p : ℕ) (xs : List ℕ)
    → Used m none u xs
    → Absent p xs
    → Distinct xs
    → Used (added m u p) none (some p) (p ∷ xs)
added-Used m u p [] h a d =
    (refl, ap (λ l. l.prev) (added-here m u p), ap (λ l. l.next) (added-here m u p) ∙ h)
added-Used m none p (y ∷ ys) (h, k, us) a d = absurd (cc h)
added-Used m (some z) p (y ∷ ys) (h, k, us) (n, a) (b, d) =
    let same : z ≡ y = ground arith in
    let here = added-here m (some z) p in
    let m3 = added m (some z) p in
    let head : m3 y ≡ record { next = (m y).next; prev = some p } = rw same (added-head m p y n) in
    let tail =
      subst (λ q. Used m3 (some y) q ys) (sym (ap (λ l. l.next) head))
        (Used-Same m m3 (some y) (m y).next ys (added-Same m p z ys a (rw same b)) us) in
    let list : Used m3 (some p) (some z) (y ∷ ys) = (h, ap (λ l. l.prev) head, tail) in
    (
      refl,
      ap (λ l. l.prev) here,
      subst (λ q. Used m3 (some p) q (y ∷ ys)) (sym (ap (λ l. l.next) here)) list,
    )

pub take_free-Represents :
    (size : ℕ) (s : BlockStorage) (p : ℕ) (used rest : List ℕ)
    → Represents size s used (p ∷ rest)
    → Represents size (take_free s (some p)).0 (p ∷ used) rest
unfolding take_free add_to_used_list
take_free-Represents size s p used rest r =
    let d = Distinct-front p used rest r.distinct in
    let (a, b) = Absent-append p used rest d.0 in
    record {
      used_list = added-Used s.links s.used_head p used r.used_list a (Distinct-left used rest d.1);
      free_list =
          Free-SameNext s.links (added s.links s.used_head p) _ rest
            (added-SameNext s.links s.used_head p rest b) r.free_list.1;
      distinct = d;
      in_blocks = Below-front (s.block_count * size) p used rest r.in_blocks;
    }

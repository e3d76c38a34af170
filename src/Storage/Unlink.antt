-- ===== src/Storage/Unlink.antt =====
-- `removeFromUsedList` takes an item out of the doubly linked list.
use epoll_http_server.Base.{
  ℕ, Option, none, some, List, [], ◌∷◌, ◌++◌, ◌≡◌, ◌≢◌, refl, sym, ap, ◌∙◌, arith,
}
use mathlib.Core.Path.{subst}
use epoll_http_server.Storage.{Memory, set_next?, set_prev?}
use epoll_http_server.Storage.Chains.{Absent, Distinct, Used, Same, Used-Same, Absent-middle}

-- The links with the neighbours `before` and `after` joined.
abbrev pub unlinked : Memory → Option ℕ → Option ℕ → Memory
unlinked m before after = set_prev? (set_next? m before after) after before

-- The pointer is to none of the items.
abbrev pub Other : Option ℕ → List ℕ → Type 0
Other b [] = Unit {0}
Other b (x ∷ xs) = (b ≢ some x) × Other b xs

abbrev pub last_or : Option ℕ → List ℕ → Option ℕ
last_or b [] = b
last_or b (x ∷ xs) = last_or (some x) xs

abbrev pub head_of : List ℕ → Option ℕ
head_of [] = none
head_of (x ∷ xs) = some x

-- The start of the list: it moves if the item was the first.
abbrev pub start_of : List ℕ → Option ℕ → Option ℕ → Option ℕ
start_of [] q after = after
start_of (x ∷ xs) q after = q

pub unlinked-prev :
    (m : Memory) (b a : Option ℕ) (x : ℕ) → a ≢ some x → (unlinked m b a x).prev ≡ (m x).prev
unlinked-prev m none none x n = refl
unlinked-prev m (some y) none x n = ground arith
unlinked-prev m none (some z) x n = ground arith
unlinked-prev m (some y) (some z) x n = ground arith

pub unlinked-next :
    (m : Memory) (b a : Option ℕ) (x : ℕ) → b ≢ some x → (unlinked m b a x).next ≡ (m x).next
unlinked-next m none none x n = refl
unlinked-next m (some y) none x n = ground arith
unlinked-next m none (some z) x n = ground arith
unlinked-next m (some y) (some z) x n = ground arith

unlinked-here : (m : Memory) (x : ℕ) (a : Option ℕ) → (unlinked m (some x) a x).next ≡ a
unlinked-here m x none = ground arith
unlinked-here m x (some z) = ground arith

unlinked-head :
    (m : Memory) (b : Option ℕ) (y : ℕ)
    → b ≢ some y
    → unlinked m b (some y) y ≡ record { next = (m y).next; prev = b }
unlinked-head m none y n = ground arith
unlinked-head m (some x) y n = ground arith

unlinked-else :
    (m : Memory) (b a : Option ℕ) (x : ℕ) → b ≢ some x → a ≢ some x → unlinked m b a x ≡ m x
unlinked-else m none none x n k = refl
unlinked-else m (some y) none x n k = ground arith
unlinked-else m none (some z) x n k = ground arith
unlinked-else m (some y) (some z) x n k = ground arith

pub Absent-Other : (p : ℕ) (xs : List ℕ) → Absent p xs → Other (some p) xs
Absent-Other p [] a = tt
Absent-Other p (x ∷ xs) (n, a) = (λ e. n (ground arith), Absent-Other p xs a)

unlinked-Same :
    (m : Memory) (b a : Option ℕ) (xs : List ℕ)
    → Other b xs
    → Other a xs
    → Same m (unlinked m b a) xs
unlinked-Same m b a [] h k = tt
unlinked-Same m b a (x ∷ xs) (n, h) (l, k) = (unlinked-else m b a x n l, unlinked-Same m b a xs h k)

-- The links of the item are to its neighbours.
pub prev_of :
    (m : Memory) (b q : Option ℕ) (p : ℕ) (xs ys : List ℕ)
    → Used m b q (xs ++ p ∷ ys)
    → (m p).prev ≡ last_or b xs
prev_of m b q p [] ys (h, k, u) = k
prev_of m b q p (x ∷ xs) ys (h, k, u) = prev_of m (some x) (m x).next p xs ys u

pub next_of :
    (m : Memory) (b q : Option ℕ) (p : ℕ) (xs ys : List ℕ)
    → Used m b q (xs ++ p ∷ ys)
    → (m p).next ≡ head_of ys
next_of m b q p [] [] (h, k, u) = u
next_of m b q p [] (y ∷ ys) (h, k, u) = u.0
next_of m b q p (x ∷ xs) ys (h, k, u) = next_of m (some x) (m x).next p xs ys u

head-other : (x : ℕ) (ys : List ℕ) → Absent x ys → head_of ys ≢ some x
head-other x [] a = λ e. cc e
head-other x (y ∷ ys) (n, a) = λ e. n (ground arith)

pub last-other : (x z : ℕ) (zs : List ℕ) → Absent x (z ∷ zs) → last_or (some z) zs ≢ some x
last-other x z [] (n, a) = λ e. n (ground arith)
last-other x z (y ∷ zs) (n, a) = last-other x y zs a

Absent-ends : (x p : ℕ) (xs ys : List ℕ) → Absent x (xs ++ p ∷ ys) → Absent x xs × Absent x ys
Absent-ends x p [] ys (n, a) = (tt, a)
Absent-ends x p (z ∷ xs) ys (n, a) = let (b, c) = Absent-ends x p xs ys a in ((n, b), c)

next_before :
    (m : Memory) (x : ℕ) (xs : List ℕ) (a : Option ℕ)
    → Absent x xs
    → (unlinked m (last_or (some x) xs) a x).next ≡ start_of xs (m x).next a
next_before m x [] a h = unlinked-here m x a
next_before m x (z ∷ zs) a h = unlinked-next m (last_or (some z) zs) a x (last-other x z zs h)

-- Joined, the neighbours make a list of the other items.
pub unlinked-Used :
    (m : Memory) (b q : Option ℕ) (p : ℕ) (xs ys : List ℕ)
    → Used m b q (xs ++ p ∷ ys)
    → Distinct (xs ++ p ∷ ys)
    → Other b (xs ++ ys)
    → Used (unlinked m (last_or b xs) (head_of ys)) b (start_of xs q (head_of ys)) (xs ++ ys)
unlinked-Used m b q p [] [] u d o = refl
unlinked-Used m b q p [] (y ∷ ys) (h, k, (e, l, u)) (a, (c, d)) (n, o) =
    let m' = unlinked m b (some y) in
    let head = unlinked-head m b y n in
    let tail =
      subst (λ r. Used m' (some y) r ys) (sym (ap (λ z. z.next) head))
        (Used-Same m m' (some y) (m y).next ys
          (unlinked-Same m b (some y) ys o (Absent-Other y ys c)) u) in
    (refl, ap (λ z. z.prev) head, tail)
unlinked-Used m b q p (x ∷ xs) ys (h, k, u) (a, d) (n, o) =
    let (ax, ay) = Absent-ends x p xs ys a in
    let m' = unlinked m (last_or (some x) xs) (head_of ys) in
    let rest =
      unlinked-Used m (some x) (m x).next p xs ys u d
        (Absent-Other x (xs ++ ys) (Absent-middle x p xs ys a).1) in
    let tail =
      subst (λ r. Used m' (some x) r (xs ++ ys)) (sym (next_before m x xs (head_of ys) ax)) rest in
    (h, unlinked-prev m (last_or (some x) xs) (head_of ys) x (head-other x ys ay) ∙ k, tail)

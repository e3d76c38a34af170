-- ===== src/Storage/Chains.antt =====
-- The two lists that the links of a pool stand for.
use epoll_http_server.Base.{
  ℕ, ◌<◌, Option, none, some, List, [], ◌∷◌, ◌++◌, ◌≡◌, ◌≢◌, sym, ap, ◌∙◌, arith,
}
use epoll_http_server.Storage.{Memory}

abbrev pub Absent : ℕ → List ℕ → Type 0
Absent p [] = Unit {0}
Absent p (x ∷ xs) = (p ≢ x) × Absent p xs

abbrev pub Distinct : List ℕ → Type 0
Distinct [] = Unit {0}
Distinct (x ∷ xs) = Absent x xs × Distinct xs

abbrev pub Below : ℕ → List ℕ → Type 0
Below n [] = Unit {0}
Below n (x ∷ xs) = (x < n) × Below n xs

-- From `p` the `next` pointers go through the items of the list, and end.
abbrev pub Free : Memory → Option ℕ → List ℕ → Type 0
Free m p [] = p ≡ none
Free m p (x ∷ xs) = (p ≡ some x) × Free m (m x).next xs

-- The same, and the `prev` pointers go back, the first of them to `before`.
abbrev pub Used : Memory → Option ℕ → Option ℕ → List ℕ → Type 0
Used m before p [] = p ≡ none
Used m before p (x ∷ xs) = (p ≡ some x) × ((m x).prev ≡ before) × Used m (some x) (m x).next xs

-- Two memories agree on the items.
abbrev pub Same : Memory → Memory → List ℕ → Type 0
Same m m' [] = Unit {0}
Same m m' (x ∷ xs) = (m' x ≡ m x) × Same m m' xs

abbrev pub SameNext : Memory → Memory → List ℕ → Type 0
SameNext m m' [] = Unit {0}
SameNext m m' (x ∷ xs) = ((m' x).next ≡ (m x).next) × SameNext m m' xs

pub Used-Same :
    (m m' : Memory) (before p : Option ℕ) (xs : List ℕ)
    → Same m m' xs
    → Used m before p xs
    → Used m' before p xs
Used-Same m m' before p [] s u = u
Used-Same m m' before p (x ∷ xs) (e, s) (h, k, u) =
    (h, ap (λ l. l.prev) e ∙ k, rw e (Used-Same m m' (some x) (m x).next xs s u))

pub Free-SameNext :
    (m m' : Memory) (p : Option ℕ) (xs : List ℕ) → SameNext m m' xs → Free m p xs → Free m' p xs
Free-SameNext m m' p [] s f = f
Free-SameNext m m' p (x ∷ xs) (e, s) (h, f) = (h, rw e (Free-SameNext m m' (m x).next xs s f))

pub Absent-middle :
    (q p : ℕ) (xs ys : List ℕ) → Absent q (xs ++ p ∷ ys) → (q ≢ p) × Absent q (xs ++ ys)
Absent-middle q p [] ys a = a
Absent-middle q p (x ∷ xs) ys (n, a) = let (k, b) = Absent-middle q p xs ys a in (k, (n, b))

pub Absent-insert :
    (q p : ℕ) (xs ys : List ℕ) → q ≢ p → Absent q (xs ++ ys) → Absent q (xs ++ p ∷ ys)
Absent-insert q p [] ys n a = (n, a)
Absent-insert q p (x ∷ xs) ys n (k, a) = (k, Absent-insert q p xs ys n a)

-- An item in the middle of a list may as well stand in front.
pub Distinct-front : (p : ℕ) (xs ys : List ℕ) → Distinct (xs ++ p ∷ ys) → Distinct (p ∷ (xs ++ ys))
Distinct-front p [] ys d = d
Distinct-front p (x ∷ xs) ys (a, d) =
    let (n, b) = Absent-middle x p xs ys a in
    let (c, e) = Distinct-front p xs ys d in ((λ k. n (sym k), c), (b, e))

pub Distinct-back : (p : ℕ) (xs ys : List ℕ) → Distinct (p ∷ (xs ++ ys)) → Distinct (xs ++ p ∷ ys)
Distinct-back p [] ys d = d
Distinct-back p (x ∷ xs) ys ((n, c), (b, e)) =
    (Absent-insert x p xs ys (λ k. n (sym k)) b, Distinct-back p xs ys (c, e))

pub Below-front : (n p : ℕ) (xs ys : List ℕ) → Below n (xs ++ p ∷ ys) → Below n (p ∷ (xs ++ ys))
Below-front n p [] ys b = b
Below-front n p (x ∷ xs) ys (k, b) = let (h, c) = Below-front n p xs ys b in (h, (k, c))

pub Below-back : (n p : ℕ) (xs ys : List ℕ) → Below n (p ∷ (xs ++ ys)) → Below n (xs ++ p ∷ ys)
Below-back n p [] ys b = b
Below-back n p (x ∷ xs) ys (h, (k, c)) = (k, Below-back n p xs ys (h, c))

pub Absent-append : (p : ℕ) (xs ys : List ℕ) → Absent p (xs ++ ys) → Absent p xs × Absent p ys
Absent-append p [] ys a = (tt, a)
Absent-append p (x ∷ xs) ys (n, a) = let (b, c) = Absent-append p xs ys a in ((n, b), c)

pub Distinct-left : (xs ys : List ℕ) → Distinct (xs ++ ys) → Distinct xs
Distinct-left [] ys d = tt
Distinct-left (x ∷ xs) ys (a, d) = ((Absent-append x xs ys a).0, Distinct-left xs ys d)

-- An item that is below all addresses in use is none of them.
pub Below-Absent : (n p : ℕ) (xs : List ℕ) → Below n xs → ¬ (p < n) → Absent p xs
Below-Absent n p [] b k = tt
Below-Absent n p (x ∷ xs) (h, b) k = (λ e. k (omega arith), Below-Absent n p xs b k)

-- ===== src/Base/Slices.antt =====
-- The part of a buffer between two offsets, and the write of a part.
use Prim.Native.Nat.{ℕ, zero, suc, ◌+◌, ◌≤◌}
use mathlib.Core.Path.{◌≡◌, refl, ap}
use mathlib.Core.List.{List, [], ◌∷◌, ◌++◌}
use native.Mathlib.Omega.{arith}
use epoll_http_server.Base.Lists.{length, take, drop}

module _ {ℓ} {A : Type ℓ} where
  -- the elements at `i`, `i + 1`, … below `j`
  abbrev pub slice : ℕ → ℕ → List A → List A
  slice zero zero xs = []
  slice zero (suc j) [] = []
  slice zero (suc j) (x ∷ xs) = x ∷ slice zero j xs
  slice (suc i) zero xs = []
  slice (suc i) (suc j) [] = []
  slice (suc i) (suc j) (x ∷ xs) = slice i j xs

  -- the buffer with `ys` written from `w` on; what would fall behind its end is dropped
  abbrev pub overwrite : List A → ℕ → List A → List A
  overwrite [] w ys = []
  overwrite (x ∷ xs) (suc w) ys = x ∷ overwrite xs w ys
  overwrite (x ∷ xs) zero [] = x ∷ xs
  overwrite (x ∷ xs) zero (y ∷ ys) = y ∷ overwrite xs zero ys

module _ {ℓ} {A : Type ℓ} where
  pub slice_self : (i : ℕ) (xs : List A) → slice i i xs ≡ []
  slice_self zero xs = refl
  slice_self (suc i) [] = refl
  slice_self (suc i) (x ∷ xs) = slice_self i xs

  pub length-slice : (i j : ℕ) (xs : List A) → i ≤ j → j ≤ length xs → length (slice i j xs) + i ≡ j
  length-slice zero zero xs h k = omega arith
  length-slice zero (suc j) [] h k = absurd (omega arith)
  length-slice zero (suc j) (x ∷ xs) h k = omega (arith, length-slice zero j xs)
  length-slice (suc i) zero xs h k = absurd (omega arith)
  length-slice (suc i) (suc j) [] h k = absurd (omega arith)
  length-slice (suc i) (suc j) (x ∷ xs) h k = omega (arith, length-slice i j xs)

  pub length-slice-le : (i j : ℕ) (xs : List A) → i ≤ j → length (slice i j xs) + i ≤ j
  length-slice-le zero zero xs h = omega arith
  length-slice-le zero (suc j) [] h = omega arith
  length-slice-le zero (suc j) (x ∷ xs) h = omega (arith, length-slice-le zero j xs)
  length-slice-le (suc i) zero xs h = absurd (omega arith)
  length-slice-le (suc i) (suc j) [] h = omega arith
  length-slice-le (suc i) (suc j) (x ∷ xs) h = omega (arith, length-slice-le i j xs)

  pub slice-take : (i n j : ℕ) (xs : List A) → j ≡ i + n → slice i j xs ≡ take n (drop i xs)
  slice-take zero zero zero xs e = refl
  slice-take zero zero (suc j) xs e = absurd (omega arith)
  slice-take zero (suc n) zero xs e = absurd (omega arith)
  slice-take zero (suc n) (suc j) [] e = refl
  slice-take zero (suc n) (suc j) (x ∷ xs) e = ap (◌∷◌ x) (slice-take zero n j xs (omega arith))
  slice-take (suc i) n zero xs e = absurd (omega arith)
  slice-take (suc i) zero (suc j) [] e = refl
  slice-take (suc i) (suc n) (suc j) [] e = refl
  slice-take (suc i) n (suc j) (x ∷ xs) e = slice-take i n j xs (omega arith)

  pub slice-append :
      (i j k : ℕ) (xs : List A) → i ≤ j → j ≤ k → slice i k xs ≡ slice i j xs ++ slice j k xs
  slice-append zero zero k xs h g = refl
  slice-append zero (suc j) zero xs h g = absurd (omega arith)
  slice-append zero (suc j) (suc k) [] h g = refl
  slice-append zero (suc j) (suc k) (x ∷ xs) h g =
      ap (◌∷◌ x) (slice-append zero j k xs (omega arith) (omega arith))
  slice-append (suc i) zero k xs h g = absurd (omega arith)
  slice-append (suc i) (suc j) zero xs h g = absurd (omega arith)
  slice-append (suc i) (suc j) (suc k) [] h g = refl
  slice-append (suc i) (suc j) (suc k) (x ∷ xs) h g =
      slice-append i j k xs (omega arith) (omega arith)

  pub length-overwrite :
      (xs : List A) (w : ℕ) (ys : List A) → length (overwrite xs w ys) ≡ length xs
  length-overwrite [] w ys = refl
  length-overwrite (x ∷ xs) (suc w) ys = ap suc (length-overwrite xs w ys)
  length-overwrite (x ∷ xs) zero [] = refl
  length-overwrite (x ∷ xs) zero (y ∷ ys) = ap suc (length-overwrite xs zero ys)

  pub overwrite-nil : (xs : List A) (w : ℕ) → overwrite xs w [] ≡ xs
  overwrite-nil [] w = refl
  overwrite-nil (x ∷ xs) zero = refl
  overwrite-nil (x ∷ xs) (suc w) = ap (◌∷◌ x) (overwrite-nil xs w)

  -- What was written is there.
  pub slice-overwrite :
      (xs : List A) (w k : ℕ) (ys : List A)
      → k ≡ w + length ys
      → k ≤ length xs
      → slice w k (overwrite xs w ys) ≡ ys
  slice-overwrite [] zero zero [] e h = refl
  slice-overwrite [] zero zero (y ∷ ys) e h = absurd (omega arith)
  slice-overwrite [] zero (suc k) ys e h = absurd (omega arith)
  slice-overwrite [] (suc w) k ys e h = absurd (omega arith)
  slice-overwrite (x ∷ xs) zero zero [] e h = refl
  slice-overwrite (x ∷ xs) zero (suc k) [] e h = absurd (omega arith)
  slice-overwrite (x ∷ xs) zero zero (y ∷ ys) e h = absurd (omega arith)
  slice-overwrite (x ∷ xs) zero (suc k) (y ∷ ys) e h =
      ap (◌∷◌ y) (slice-overwrite xs zero k ys (omega arith) (omega arith))
  slice-overwrite (x ∷ xs) (suc w) zero ys e h = absurd (omega arith)
  slice-overwrite (x ∷ xs) (suc w) (suc k) ys e h =
      slice-overwrite xs w k ys (omega arith) (omega arith)

  -- What lies before the write, or behind it, stays.
  pub slice-overwrite_before :
      (xs : List A) (i j w : ℕ) (ys : List A) → j ≤ w → slice i j (overwrite xs w ys) ≡ slice i j xs
  slice-overwrite_before xs zero zero w ys h = refl
  slice-overwrite_before xs zero (suc j) zero ys h = absurd (omega arith)
  slice-overwrite_before [] zero (suc j) (suc w) ys h = refl
  slice-overwrite_before (x ∷ xs) zero (suc j) (suc w) ys h =
      ap (◌∷◌ x) (slice-overwrite_before xs zero j w ys (omega arith))
  slice-overwrite_before xs (suc i) zero w ys h = refl
  slice-overwrite_before xs (suc i) (suc j) zero ys h = absurd (omega arith)
  slice-overwrite_before [] (suc i) (suc j) (suc w) ys h = refl
  slice-overwrite_before (x ∷ xs) (suc i) (suc j) (suc w) ys h =
      slice-overwrite_before xs i j w ys (omega arith)

  pub slice-overwrite_after :
      (xs : List A) (i j w : ℕ) (ys : List A)
      → w + length ys ≤ i
      → slice i j (overwrite xs w ys) ≡ slice i j xs
  slice-overwrite_after [] i j w ys h = refl
  slice-overwrite_after (x ∷ xs) zero j zero [] h = refl
  slice-overwrite_after (x ∷ xs) zero j zero (y ∷ ys) h = absurd (omega arith)
  slice-overwrite_after (x ∷ xs) zero j (suc w) ys h = absurd (omega arith)
  slice-overwrite_after (x ∷ xs) (suc i) zero w ys h = refl
  slice-overwrite_after (x ∷ xs) (suc i) (suc j) zero [] h = refl
  slice-overwrite_after (x ∷ xs) (suc i) (suc j) zero (y ∷ ys) h =
      slice-overwrite_after xs i j zero ys (omega arith)
  slice-overwrite_after (x ∷ xs) (suc i) (suc j) (suc w) ys h =
      slice-overwrite_after xs i j w ys (omega arith)

-- ===== src/Log/Rotation.antt =====
-- src/log/LogMmap.cpp: the archives that `rotate` leaves.
use epoll_http_server.Base.{
  ℕ, zero, suc, ◌-◌, ◌≤◌, ◌<◌, ◌≡◌, refl, ap, sym, ◌∙◌, inl, inr, true, false, Option, none, some,
  Bytes, ltb, ◌==◌, if◌then◌else◌, arith, Bool-cases,
}
use epoll_http_server.Log.{
  LogMmap, Mapping, update_file, rename, shift, last_index, move_current, open_file, close_file,
  rotated, rotate,
}

-- What a chain of moves leaves: number n + 1 is overwritten, and number 1 is free.
moved : ℕ → (ℕ → Option Bytes) → ℕ → Option Bytes
moved n f zero = f zero
moved n f (suc zero) = none
moved n f (suc (suc j)) = if ltb j n then f (suc j) else f (suc (suc j))

rename-from : (i : ℕ) (f : ℕ → Option Bytes) → rename i (suc i) f i ≡ none
rename-from i f = by_file (f i) refl
  where
    by_file :
        (o : Option Bytes)
        → f i ≡ o
        → (elim o as (λ x. ℕ → Option Bytes) [
          | none ↦ f
          | some file ↦ update_file (update_file f (suc i) (some file)) i none
        ])
            i
          ≡ none
    by_file none e = e
    by_file (some file) e = ground arith

rename-to : (i : ℕ) (f : ℕ → Option Bytes) → f (suc i) ≡ none → rename i (suc i) f (suc i) ≡ f i
rename-to i f free = by_file (f i) refl
  where
    by_file :
        (o : Option Bytes)
        → f i ≡ o
        → (elim o as (λ x. ℕ → Option Bytes) [
          | none ↦ f
          | some file ↦ update_file (update_file f (suc i) (some file)) i none
        ])
            (suc i)
          ≡ f i
    by_file none e = free ∙ sym e
    by_file (some file) e = ground (arith, e)

rename-other :
    (i k : ℕ) (f : ℕ → Option Bytes)
    → (i == k) ≡ false
    → (suc i == k) ≡ false
    → rename i (suc i) f k ≡ f k
rename-other i k f from to = by_file (f i)
  where
    by_file :
        (o : Option Bytes)
        → (elim o as (λ x. ℕ → Option Bytes) [
          | none ↦ f
          | some file ↦ update_file (update_file f (suc i) (some file)) i none
        ])
            k
          ≡ f k
    by_file none = refl
    by_file (some file) = rw (from, to) refl

moved-rename :
    (i k : ℕ) (f : ℕ → Option Bytes)
    → f (suc (suc i)) ≡ none
    → moved i (rename (suc i) (suc (suc i)) f) k ≡ moved (suc i) f k
unfolding moved
moved-rename i zero f free = rename-other (suc i) zero f (ground arith) (ground arith)
moved-rename i (suc zero) f free = refl
moved-rename i (suc (suc j)) f free = elim (Bool-cases (ltb j i)) [
  | inl e ↦
      (let more : ltb j (suc i) ≡ true = ground (arith, e) in
        rw (e, more) (rename-other (suc i) (suc j) f (ground (arith, e)) (ground (arith, e))))
  | inr e ↦ rw e (elim (Bool-cases (ltb j (suc i))) [
    | inl g ↦ rw g (let same : j ≡ i = ground (arith, e, g) in rw same (rename-to (suc i) f free))
    | inr g ↦ rw g (rename-other (suc i) (suc (suc j)) f (ground (arith, g)) (ground (arith, g)))
  ])
]

shift-moved : (n k : ℕ) (f : ℕ → Option Bytes) → f (suc n) ≡ none → shift n f k ≡ moved n f k
unfolding shift moved
shift-moved zero zero f free = refl
shift-moved zero (suc zero) f free = free
shift-moved zero (suc (suc j)) f free = let e : ltb j 0 ≡ false = ground arith in rw e refl
shift-moved (suc i) k f free =
    shift-moved i k (rename (suc i) (suc (suc i)) f) (rename-from (suc i) f)
    ∙ moved-rename i k f free

open_file-archive : (m : Mapping) (log : LogMmap) → (open_file m log).0.archive ≡ log.archive
unfolding open_file
open_file-archive m log = ground arith

-- The file that is rotated away.
abbrev pub log_file : LogMmap → Option Bytes
log_file log = if log.is_open then some log.buffer.buf else log.current

close_file-keeps :
    (log : LogMmap)
    → ((close_file log).current ≡ log_file log)
      × ((close_file log).archive ≡ log.archive)
      × ((close_file log).log_archive_count ≡ log.log_archive_count)
unfolding close_file
close_file-keeps log = ground arith

move_current-first :
    (o : Option Bytes) (f : ℕ → Option Bytes) → f 1 ≡ none → move_current o 1 f 1 ≡ o
move_current-first none f free = free
move_current-first (some file) f free = refl

move_current-other :
    (o : Option Bytes) (f : ℕ → Option Bytes) (k : ℕ)
    → (1 == k) ≡ false
    → move_current o 1 f k ≡ f k
move_current-other none f k other = refl
move_current-other (some file) f k other = rw other refl

-- The archives after the moves, for n + 1 archives.
rotated-archive :
    (n k : ℕ) (log : LogMmap)
    → log.log_archive_count ≡ suc n
    → (rotated log).archive k
      ≡ move_current log.current 1 (shift n (update_file log.archive (suc n) none)) k
unfolding rotated
rotated-archive n k log count =
    let last : last_index (suc n) ≡ 1 = ground arith in
    let less : suc n - 1 ≡ n = omega arith in rw count (rw (last, less) refl)

-- rotate, with a setting of n + 1 archives, makes the log file the archive 1, if there is one, and
-- each archive from 1 to n the next; the archive n + 1 is lost, and those behind it are kept.
-- Whether the new file can be opened does not matter.
pub rotate-shifts :
    (m : Mapping) (log : LogMmap) (n : ℕ)
    → log.log_archive_count ≡ suc n
    → ((rotate m log).0.archive 1 ≡ log_file log)
      × ((j : ℕ) → j < n → (rotate m log).0.archive (suc (suc j)) ≡ log.archive (suc j))
      × ((j : ℕ) → n ≤ j → (rotate m log).0.archive (suc (suc j)) ≡ log.archive (suc (suc j)))
unfolding rotate moved
rotate-shifts m log n count =
    let (current, archive, same_count) = close_file-keeps log in
    let closed = close_file log in
    let f = update_file closed.archive (suc n) none in
    let free : f (suc n) ≡ none = ground arith in
    let at : (k : ℕ) → (rotate m log).0.archive k ≡ move_current closed.current 1 (shift n f) k =
      λ k.
        ap (λ a. a k) (open_file-archive m (rotated closed))
        ∙ rotated-archive n k closed (same_count ∙ count) in
    let other : (j : ℕ) → (1 == suc (suc j)) ≡ false = λ j. ground arith in
    (
      at 1 ∙ move_current-first closed.current (shift n f) (shift-moved n 1 f free) ∙ current,
      (λ j less.
          let e : ltb j n ≡ true = ground (arith, less) in
          let not_last : (suc n == suc j) ≡ false = ground (arith, less) in
          at (suc (suc j))
          ∙ move_current-other closed.current (shift n f) (suc (suc j)) (other j)
          ∙ shift-moved n (suc (suc j)) f free
          ∙ rw (e, not_last) (ap (λ a. a (suc j)) archive)),
      (λ j more.
          let e : ltb j n ≡ false = ground (arith, more) in
          let behind : (suc n == suc (suc j)) ≡ false = ground (arith, more) in
          at (suc (suc j))
          ∙ move_current-other closed.current (shift n f) (suc (suc j)) (other j)
          ∙ shift-moved n (suc (suc j)) f free
          ∙ rw (e, behind) (ap (λ a. a (suc (suc j))) archive)),
    )

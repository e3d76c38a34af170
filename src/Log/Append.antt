-- ===== src/Log/Append.antt =====
-- src/log/LogMmap.cpp: the end of `writeLog`, which prints one message into the buffer.
use epoll_http_server.Base.{
  ℕ, zero, suc, ◌+◌, ◌-◌, ◌≤◌, ◌<◌, ◌≡◌, refl, ap, ap₂, sym, ◌∙◌, inl, inr, List, [], ◌∷◌, ◌++◌,
  append_assoc, Bytes, leb, length, take, length-append, length-take, slice, slice-append,
  overwrite, length-overwrite, slice-overwrite_before, arith, Bool-cases,
}
use Prim.Native.Nat.{min}
use epoll_http_server.Log.{TransferBuffer, end_write, printed, put_message, max_message_size}

module _ {ℓ} {A : Type ℓ} where
  take-append_front : (n : ℕ) (xs ys : List A) → n ≤ length xs → take n (xs ++ ys) ≡ take n xs
  take-append_front zero xs ys le = refl
  take-append_front (suc n) [] ys le = absurd (omega (arith, le))
  take-append_front (suc n) (x ∷ xs) ys le =
      ap (λ zs. x ∷ zs) (take-append_front n xs ys (omega (arith, le)))

  take-append_back :
      (n : ℕ) (xs ys : List A) → length xs ≤ n → take n (xs ++ ys) ≡ xs ++ take (n - length xs) ys
  take-append_back n [] ys le = let e : n - 0 ≡ n = omega arith in rw e refl
  take-append_back zero (x ∷ xs) ys le = absurd (omega (arith, le))
  take-append_back (suc n) (x ∷ xs) ys le =
      let e : suc n - suc (length xs) ≡ n - length xs = omega arith in
      rw e (ap (λ zs. x ∷ zs) (take-append_back n xs ys (omega (arith, le))))

  take-whole : (n : ℕ) (xs : List A) → length xs ≤ n → take n xs ≡ xs
  take-whole zero [] le = refl
  take-whole zero (x ∷ xs) le = absurd (omega (arith, le))
  take-whole (suc n) [] le = refl
  take-whole (suc n) (x ∷ xs) le = ap (λ zs. x ∷ zs) (take-whole n xs (omega (arith, le)))

  take-take : (n k : ℕ) (xs : List A) → n ≤ k → take n (take k xs) ≡ take n xs
  take-take zero k xs le = refl
  take-take (suc n) zero xs le = absurd (omega (arith, le))
  take-take (suc n) (suc k) [] le = refl
  take-take (suc n) (suc k) (x ∷ xs) le = ap (λ zs. x ∷ zs) (take-take n k xs (omega (arith, le)))

  -- The front of what was written is there.
  slice-overwrite_front :
      (xs : List A) (w n k : ℕ) (ys : List A)
      → k ≡ w + n
      → n ≤ length ys
      → w + length ys ≤ length xs
      → slice w k (overwrite xs w ys) ≡ take n ys
  slice-overwrite_front [] zero zero zero ys e le room = refl
  slice-overwrite_front [] zero (suc n) k ys e le room = absurd (omega (arith, le, room))
  slice-overwrite_front [] zero zero (suc k) ys e le room = absurd (omega (arith, e))
  slice-overwrite_front [] (suc w) n k ys e le room = absurd (omega (arith, room))
  slice-overwrite_front (x ∷ xs) zero zero zero ys e le room = refl
  slice-overwrite_front (x ∷ xs) zero zero (suc k) ys e le room = absurd (omega (arith, e))
  slice-overwrite_front (x ∷ xs) zero (suc n) zero ys e le room = absurd (omega (arith, e))
  slice-overwrite_front (x ∷ xs) zero (suc n) (suc k) [] e le room = absurd (omega (arith, le))
  slice-overwrite_front (x ∷ xs) zero (suc n) (suc k) (y ∷ ys) e le room =
      ap (λ zs. y ∷ zs)
        (slice-overwrite_front xs zero n k ys (omega (arith, e)) (omega (arith, le))
          (omega (arith, room)))
  slice-overwrite_front (x ∷ xs) (suc w) n zero ys e le room = absurd (omega (arith, e))
  slice-overwrite_front (x ∷ xs) (suc w) n (suc k) ys e le room =
      slice-overwrite_front xs w n k ys (omega (arith, e)) le (omega (arith, room))

-- What a print leaves of the buffer up to the end of its text.
printed-slice :
    (buf : Bytes) (at size n : ℕ) (text : Bytes)
    → n ≤ size - 1
    → n ≤ length text
    → at + size ≤ length buf
    → 0 < size
    → slice 0 (at + n) (printed buf at size text) ≡ slice 0 at buf ++ take n text
printed-slice buf at size n text small le room some_room =
    let cut = take (size - 1) text in
    let ys = cut ++ 0 ∷ [] in
    let count : length cut ≡ min (size - 1) (length text) = length-take (size - 1) text in
    let all : length ys ≡ length cut + 1 = length-append cut (0 ∷ []) in
    slice-append 0 at (at + n) (overwrite buf at ys) (omega arith) (omega arith)
    ∙ ap₂ (λ front back. front ++ back) (slice-overwrite_before buf 0 at at ys (omega arith))
        (slice-overwrite_front buf at n (at + n) ys refl (omega (arith, count, all, small, le))
            (omega (arith, count, all, room, some_room))
          ∙ take-append_front n cut (0 ∷ []) (omega (arith, count, small, le))
          ∙ take-take n (size - 1) text small)

-- A message whose head is not cut, of whose text `count` bytes are.
short-slice :
    (head text buf : Bytes) (at count : ℕ)
    → at + 1024 ≤ length buf
    → length head < 1024
    → count ≤ 1024 - length head - 1
    → count ≤ length text
    → take count text ≡ take (1023 - length head) text
    → slice 0
        (at + (length head + count))
        (printed (printed buf at 1024 head) (at + length head) (1024 - length head) text)
      ≡ slice 0 at buf ++ take 1023 (head ++ text)
short-slice head text buf at count room short small le same =
    let first = printed buf at 1024 head in
    let kept : length first ≡ length buf = length-overwrite buf at (take 1023 head ++ 0 ∷ []) in
    let sum : at + (length head + count) ≡ at + length head + count = omega arith in
    ap (λ k. slice 0 k (printed first (at + length head) (1024 - length head) text)) sum
    ∙ printed-slice first (at + length head) (1024 - length head) count text small le
        (omega (arith, kept, room, short)) (omega (arith, short))
    ∙ ap (λ front. front ++ take count text)
        (printed-slice buf at 1024 (length head) head (omega (arith, short)) (omega arith) room
            (omega arith)
          ∙ ap (λ zs. slice 0 at buf ++ zs) (take-whole (length head) head (omega arith)))
    ∙ append_assoc (slice 0 at buf) head (take count text)
    ∙ ap (λ zs. slice 0 at buf ++ zs)
        (ap (λ zs. head ++ zs) same ∙ sym (take-append_back 1023 head text (omega (arith, short))))

-- A message, which has a head and a text, is put behind what was written before, cut to
-- maxMessageSize - 1 bytes, and the head moves behind it, if there is room for maxMessageSize
-- bytes; the length of the file stays.
pub put_message-appends :
    (head text : Bytes) (b : TransferBuffer)
    → b.write_head + max_message_size ≤ length b.buf
    → let b' = put_message head text b in
      (slice 0 b'.write_head b'.buf ≡ slice 0 b.write_head b.buf ++ take 1023 (head ++ text))
      × (b'.write_head < b.write_head + max_message_size)
      × (length b'.buf ≡ length b.buf)
unfolding put_message end_write
put_message-appends head text b room = elim (Bool-cases (leb max_message_size (length head))) [
  | inl e ↦
      (let long : 1024 ≤ length head = ground (arith, e) in
        rw e (
          printed-slice b.buf b.write_head 1024 1023 head (omega arith) (omega (arith, long)) room
                (omega arith)
              ∙ ap (λ zs. slice 0 b.write_head b.buf ++ zs)
                  (sym (take-append_front 1023 head text (omega (arith, long)))),
          omega arith,
          length-overwrite b.buf b.write_head (take 1023 head ++ 0 ∷ []),
        ))
  | inr e ↦
      (let short : length head < 1024 = ground (arith, e) in
        let first = printed b.buf b.write_head 1024 head in
        let left = 1024 - length head in
        let kept : length (printed first (b.write_head + length head) left text) ≡ length b.buf =
          length-overwrite first (b.write_head + length head) (take (left - 1) text ++ 0 ∷ [])
          ∙ length-overwrite b.buf b.write_head (take 1023 head ++ 0 ∷ []) in
        rw e (elim (Bool-cases (leb left (length text))) [
          | inl g ↦
              (let cut : left ≤ length text = ground (arith, g) in
                let same : left - 1 ≡ 1023 - length head = omega arith in
                rw g (
                  short-slice head text b.buf b.write_head (left - 1) room short (omega arith)
                      (omega (arith, cut)) (ap (λ k. take k text) same),
                  omega (arith, short),
                  kept,
                ))
          | inr g ↦
              (let fits : length text < left = ground (arith, g) in
                let whole : take (length text) text ≡ take (1023 - length head) text =
                  take-whole (length text) text (omega arith)
                  ∙ sym (take-whole (1023 - length head) text (omega (arith, fits))) in
                rw g (
                  short-slice head text b.buf b.write_head (length text) room short
                      (omega (arith, fits)) (omega arith) whole,
                  omega (arith, fits),
                  kept,
                ))
        ]))
]

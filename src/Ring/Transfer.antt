-- ===== src/Ring/Transfer.antt =====
-- The buffer between a producer and a consumer that use it by the protocol of its four methods:
-- `startWrite`, a read(2) of at most `size` bytes, `endWrite`; `startRead`, a write(2) of at most
-- `size` bytes, `endRead`.
use Prim.Native.Nat.{min}
use epoll_http_server.Base.{
  ℕ, ◌≤◌, ◌≡◌, refl, sym, ap, ◌∙◌, Option, none, some, List, [], ◌∷◌, ◌++◌, arith, Bytes, length,
  take, length-take, append-nil, append_assoc,
}
use epoll_http_server.Ring.{
  TransferRingBuffer, Region, start_write, end_write, start_read, end_read, store, load,
}
use epoll_http_server.Ring.Bounds.{
  IsValid, start_write-IsValid, end_write-IsValid, end_read-IsValid,
}
use epoll_http_server.Ring.Fifo.{
  contents, contents-start_write, contents-end_write, contents-end_read,
}

pub data Transfer : Type 0 where
  receive : Bytes → Transfer
  send : ℕ → Transfer

-- What a transfer takes in, what it gives out, and the buffer behind it.
pub record Step : Type 0 where
  pub taken : Bytes
  pub given : Bytes
  pub after : TransferRingBuffer

receive_into : TransferRingBuffer → Bytes → Option Region → Step
receive_into r xs none = record { taken = []; given = []; after = r }
receive_into r xs (some g) =
    let ys = take g.size xs in
    record { taken = ys; given = []; after = end_write (store r g.offset ys) (length ys) }

send_from : TransferRingBuffer → ℕ → Option Region → Step
send_from r n none = record { taken = []; given = []; after = r }
send_from r n (some g) =
    let k = min n g.size in record { taken = []; given = load r g.offset k; after = end_read r k }

unfoldable pub transfer : TransferRingBuffer → Transfer → Step
unfolding receive_into send_from
transfer r (receive xs) = receive_into (start_write r).0 xs (start_write r).1
transfer r (send n) = send_from r n (start_read r)

unfoldable pub run : TransferRingBuffer → List Transfer → Step
run r [] = record { taken = []; given = []; after = r }
run r (t ∷ ts) =
    let s = transfer r t in
    let rest = run s.after ts in
    record { taken = s.taken ++ rest.taken; given = s.given ++ rest.given; after = rest.after }

-- A step keeps the invariant, and neither loses, doubles nor reorders a byte.
pub record Conserves (r : TransferRingBuffer) (s : Step) : Type 0 where
  pub valid : IsValid s.after
  pub bytes : contents r ++ s.taken ≡ s.given ++ contents s.after

receive_into-Conserves :
    (r : TransferRingBuffer) (xs : Bytes) (g : Option Region)
    → IsValid r
    → (start_write r).1 ≡ g
    → Conserves r (receive_into (start_write r).0 xs g)
unfolding receive_into
receive_into-Conserves r xs none v e = record {
  valid = start_write-IsValid r v;
  bytes = append-nil (contents r) ∙ sym (contents-start_write r v);
}
receive_into-Conserves r xs (some g) v e =
    let ys = take g.size xs in
    let le : length ys ≤ g.size = omega (arith, length-take g.size xs) in
    record { valid = end_write-IsValid r ys v e le; bytes = sym (contents-end_write r ys v e le) }

send_from-Conserves :
    (r : TransferRingBuffer) (n : ℕ) (g : Option Region)
    → IsValid r
    → start_read r ≡ g
    → Conserves r (send_from r n g)
unfolding send_from
send_from-Conserves r n none v e = record { valid = v; bytes = append-nil (contents r) }
send_from-Conserves r n (some g) v e = record {
  valid = end_read-IsValid r g (min n g.size) v e (omega arith);
  bytes = append-nil (contents r) ∙ contents-end_read r (min n g.size) v e (omega arith);
}

pub transfer-Conserves :
    (r : TransferRingBuffer) (t : Transfer) → IsValid r → Conserves r (transfer r t)
unfolding transfer
transfer-Conserves r (receive xs) v = receive_into-Conserves r xs (start_write r).1 v refl
transfer-Conserves r (send n) v = send_from-Conserves r n (start_read r) v refl

-- Whatever the sequence of transfers, a valid buffer stays valid, and the bytes that waited followed
-- by the bytes taken in are the bytes given out followed by those that still wait.
pub run-Conserves :
    (ts : List Transfer) (r : TransferRingBuffer) → IsValid r → Conserves r (run r ts)
unfolding run
run-Conserves [] r v = record { valid = v; bytes = append-nil (contents r) }
run-Conserves (t ∷ ts) r v =
    let s = transfer-Conserves r t v in
    let rest = run-Conserves ts (transfer r t).after s.valid in
    record {
      valid = rest.valid;
      bytes =
          sym (append_assoc (contents r) _ _)
          ∙ ap (λ q. q ++ (run (transfer r t).after ts).taken) s.bytes
          ∙ append_assoc (transfer r t).given _ _
          ∙ ap (λ q. (transfer r t).given ++ q) rest.bytes
          ∙ sym (append_assoc (transfer r t).given _ _);
    }

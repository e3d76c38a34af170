-- ===== src/Server/Choice.antt =====
-- src/Server.cpp: the loop that `createRequestExecutor` chooses.
use epoll_http_server.Base.{
  ℕ, zero, suc, ◌+◌, ◌≡◌, refl, ap, ◌∙◌, ◌⊎◌, inl, inr, Bool, true, false, not, Option, none, some,
  List, [], ◌∷◌, ◌++◌, if◌then◌else◌, get_elem?, All, ℤ, pos, negsuc, arith, Bool-cases,
}
use epoll_http_server.Exec.Data.{ExecutorType}
use epoll_http_server.Loop.{NewFd, Loop}
use epoll_http_server.Server.{
  Server, int_less, int_max, min_index_from, min_index, set_loop, pushed, enqueue_client_fd,
  hand_over, choose, create_request_executor,
}

int_less_irrefl : (a : ℤ) → int_less a a ≡ false
unfolding int_less
int_less_irrefl (pos n) = ground arith
int_less_irrefl (negsuc n) = ground arith

int_less_asym : (a b : ℤ) → int_less a b ≡ true → int_less b a ≡ false
unfolding int_less
int_less_asym (pos n) (pos m) less = ground (arith, less)
int_less_asym (pos n) (negsuc m) less = absurd (cc less)
int_less_asym (negsuc n) (pos m) less = refl
int_less_asym (negsuc n) (negsuc m) less = ground (arith, less)

int_less_trans : (a b c : ℤ) → int_less a b ≡ true → int_less b c ≡ true → int_less a c ≡ true
unfolding int_less
int_less_trans (pos n) (pos m) (pos k) less less' = ground (arith, less, less')
int_less_trans (pos n) (pos m) (negsuc k) less less' = absurd (cc less')
int_less_trans (pos n) (negsuc m) c less less' = absurd (cc less)
int_less_trans (negsuc n) (pos m) (pos k) less less' = refl
int_less_trans (negsuc n) (pos m) (negsuc k) less less' = absurd (cc less')
int_less_trans (negsuc n) (negsuc m) (pos k) less less' = refl
int_less_trans (negsuc n) (negsuc m) (negsuc k) less less' = ground (arith, less, less')

-- Below something that is not more than c.
int_less_below : (a b c : ℤ) → int_less a b ≡ true → int_less c b ≡ false → int_less c a ≡ false
int_less_below a b c less not_less = elim (Bool-cases (int_less c a)) [
  | inl e ↦ absurd (cc (int_less_trans c a b e less, not_less))
  | inr e ↦ e
]

-- `numberOfPollFds`
abbrev pub count_of : Loop → ℤ
count_of l = l.polls.num_of_poll_fds

-- No loop has fewer descriptors than `c`.
abbrev pub AtLeast : ℤ → List Loop → Type 0
AtLeast c loops = All (λ l. not (int_less (count_of l) c)) loops

-- The index is kept, or is that of a loop with fewer descriptors than `least`, and the fewest.
abbrev Chosen : ℕ → ℤ → ℕ → List Loop → ℕ → Type 0
Chosen i least index loops r =
    (r ≡ index × AtLeast least loops)
    ⊎ ((j : ℕ) × (l : Loop) × (r ≡ i + j)
        × (get_elem? loops j ≡ some l)
        × (int_less (count_of l) least ≡ true)
        × AtLeast (count_of l) loops)

min_index_from-Chosen :
    (i : ℕ) (least : ℤ) (index : ℕ) (loops : List Loop)
    → Chosen i least index loops (min_index_from i least index loops)
unfolding min_index_from
min_index_from-Chosen i least index [] = inl (refl, tt)
min_index_from-Chosen i least index (l ∷ ls) = elim (Bool-cases (int_less (count_of l) least)) [
  | inl e ↦ rw e (elim (min_index_from-Chosen (suc i) (count_of l) i ls) [
    | inl (kept, least_of) ↦
        inr
          (zero, l, omega (arith, kept), refl, e, (ap not (int_less_irrefl (count_of l)), least_of))
    | inr (j, k, at, get, less, least_of) ↦ inr (
      suc j,
      k,
      omega (arith, at),
      get,
      int_less_trans (count_of k) (count_of l) least less e,
      (ap not (int_less_asym (count_of k) (count_of l) less), least_of),
    )
  ])
  | inr e ↦ rw e (elim (min_index_from-Chosen (suc i) least index ls) [
    | inl (kept, least_of) ↦ inl (kept, (refl, least_of))
    | inr (j, k, at, get, less, least_of) ↦ inr (
      suc j,
      k,
      omega (arith, at),
      get,
      less,
      (ap not (int_less_below (count_of k) least (count_of l) less e), least_of),
    )
  ])
]

int_less_negtrans : (a b c : ℤ) → int_less a b ≡ false → int_less b c ≡ false → int_less a c ≡ false
unfolding int_less
int_less_negtrans (pos n) (pos m) (pos k) e f = ground (arith, e, f)
int_less_negtrans (pos n) (pos m) (negsuc k) e f = refl
int_less_negtrans (pos n) (negsuc m) (pos k) e f = absurd (cc f)
int_less_negtrans (pos n) (negsuc m) (negsuc k) e f = refl
int_less_negtrans (negsuc n) (pos m) c e f = absurd (cc e)
int_less_negtrans (negsuc n) (negsuc m) (pos k) e f = absurd (cc f)
int_less_negtrans (negsuc n) (negsuc m) (negsuc k) e f = ground (arith, e, f)

-- The counts are values of `int`.
abbrev pub AreInts : List Loop → Type 0
AreInts loops = All (λ l. not (int_less int_max (count_of l))) loops

AtLeast-below :
    (c : ℤ) (loops : List Loop)
    → AtLeast int_max loops
    → int_less int_max c ≡ false
    → AtLeast c loops
AtLeast-below c [] all below = tt
AtLeast-below c (l ∷ ls) (most, all) below =
    let most' : int_less (count_of l) int_max ≡ false = ground (arith, most) in
    (ap not (int_less_negtrans (count_of l) int_max c most' below), AtLeast-below c ls all below)

-- The chosen loop is there, and none has fewer descriptors.
min_index-least :
    (l : Loop) (ls : List Loop)
    → AreInts (l ∷ ls)
    → (k : Loop) × (get_elem? (l ∷ ls) (min_index (l ∷ ls)) ≡ some k)
      × AtLeast (count_of k) (l ∷ ls)
min_index-least l ls (int, ints) = elim (min_index_from-Chosen 0 int_max 0 (l ∷ ls)) [
  | inl (kept, all) ↦
      (let below : int_less int_max (count_of l) ≡ false = ground (arith, int) in
        (l, ap (get_elem? (l ∷ ls)) kept, AtLeast-below (count_of l) (l ∷ ls) all below))
  | inr (j, k, at, get, less, all) ↦ (k, ap (get_elem? (l ∷ ls)) (omega (arith, at)) ∙ get, all)
]

module _ (push : List NewFd → NewFd → Option (List NewFd)) where
  -- What becomes of the server when the queue of a loop takes the descriptor, or does not.
  unfoldable pub handed : ℤ → Server → List Loop → ℕ → Loop → Option (List NewFd) → Server × Bool
  handed fd srv loops i l none = (record srv { closed = srv.closed ++ fd ∷ [] }, false)
  handed fd srv loops i l (some queue) =
      (record srv { loops = some (set_loop loops i (record l { new_fds = queue })) }, true)

  hand_over-handed :
      (fd : ℤ) (t : ExecutorType) (srv : Server) (loops : List Loop) (i : ℕ) (l : Loop)
      → hand_over push fd t srv loops i (some l)
        ≡ some (handed fd srv loops i l (push l.new_fds (record { exec_type = t; fd = fd })))
  unfolding hand_over enqueue_client_fd handed
  hand_over-handed fd t srv loops i l = by_push (push l.new_fds (record { exec_type = t; fd = fd }))
    where
      by_push :
          (o : Option (List NewFd))
          → (let (l', done) = pushed push l o in
              if done
              then some (record srv { loops = some (set_loop loops i l') }, true)
              else some (record srv { closed = srv.closed ++ fd ∷ [] }, false))
            ≡ some (handed fd srv loops i l o)
      by_push none = refl
      by_push (some queue) = refl

  -- createRequestExecutor of a server with a loop, the counts of whose descriptors are of type int,
  -- gives the descriptor to a loop than which none has fewer: it is put into the queue of that loop,
  -- or closed if the queue refuses it, and nothing else changes.
  pub create_request_executor-least :
      (fd : ℤ) (t : ExecutorType) (srv : Server) (l : Loop) (ls : List Loop)
      → srv.loops ≡ some (l ∷ ls)
      → AreInts (l ∷ ls)
      → (i : ℕ) × (k : Loop) × (get_elem? (l ∷ ls) i ≡ some k)
        × AtLeast (count_of k) (l ∷ ls)
        × (create_request_executor push fd t srv
            ≡ some
                (handed fd srv (l ∷ ls) i k (push k.new_fds (record { exec_type = t; fd = fd }))))
  unfolding create_request_executor choose
  create_request_executor-least fd t srv l ls loops ints =
      let (k, get, all) = min_index-least l ls ints in
      let i = min_index (l ∷ ls) in
      (
        i,
        k,
        get,
        all,
        ap (choose push fd t srv) loops
            ∙ ap (hand_over push fd t srv (l ∷ ls) i) get
            ∙ hand_over-handed fd t srv (l ∷ ls) i k,
      )

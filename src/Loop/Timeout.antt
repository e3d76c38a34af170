-- ===== src/Loop/Timeout.antt =====
-- src/PollLoop.cpp: which executors `checkTimeout` removes.
use epoll_http_server.Base.{
  ℕ, ◌≡◌, refl, sym, ◌∙◌, inl, inr, false, List, [], ◌∷◌, ◌++◌, append_assoc, ◌==◌, arith,
  Bool-cases, ℤ, pos, negsuc, suc, ◌+◌, ◌<◌, ◌⊎◌, ◌↔◌, true, ltb,
}
use mathlib.Core.Path.{subst}
use epoll_http_server.Storage.{free}
use epoll_http_server.Storage.Allocate.{Represents}
use epoll_http_server.Storage.Capacity.{used_items}
use epoll_http_server.Storage.Release.{free-Represents}
use epoll_http_server.Exec.Data.{ExecutorData}
use epoll_http_server.Exec.Sys.{Sys}
use epoll_http_server.Loop.{Loop, exec_block_size, remove_executor_data}
use epoll_http_server.Loop.Events.{
  later_than, is_expired, expired, remove_all, used_execs, check_timeout,
}

-- More than `t` has passed from `last` to `cur`.
pub Passed : ℕ → ℕ → ℤ → Type 0
Passed last cur (pos t) = last + t < cur
Passed last cur (negsuc t) = last < cur + suc t

-- The executor's time is over: it may be removed, and its last activity is longer ago than the
-- timeout, or its creation longer than half an hour.
pub Over : ℕ → ℤ → ExecutorData → Type 0
Over cur timeout d =
    (d.remove_on_timeout ≡ true)
    × (Passed d.last_process_time cur timeout ⊎ Passed d.create_time cur (pos 1800000))

-- `qs` are those of `ps` whose time is not over, in their order.
pub data Survives (cur : ℕ) (l : Loop) : List ℕ → List ℕ → Type 0 where
  nothing : Survives cur l [] []
  removed :
      {p : ℕ} {ps qs : List ℕ}
      → Over cur l.executor_timeout_millis (l.exec p)
      → Survives cur l ps qs
      → Survives cur l (p ∷ ps) qs
  kept :
      {p : ℕ} {ps qs : List ℕ}
      → ¬ (Over cur l.executor_timeout_millis (l.exec p))
      → Survives cur l ps qs
      → Survives cur l (p ∷ ps) (p ∷ qs)

ltb_iff : (a b : ℕ) → (ltb a b ≡ true) ↔ (a < b)
ltb_iff a b = (λ h. ground (arith, h), λ h. ground (arith, h))

later_than_iff : (cur last : ℕ) (t : ℤ) → (later_than cur last t ≡ true) ↔ Passed last cur t
unfolding Passed
later_than_iff cur last (pos t) = ltb_iff (last + t) cur
later_than_iff cur last (negsuc t) = ltb_iff last (cur + suc t)

is_expired_iff : (cur : ℕ) (t : ℤ) (d : ExecutorData) → (is_expired cur t d ≡ true) ↔ Over cur t d
unfolding is_expired Over
is_expired_iff cur t d =
    let idle = later_than_iff cur d.last_process_time t in
    let old = later_than_iff cur d.create_time (pos 1800000) in
    (
      λ h. (
        ground (arith, h),
        elim (Bool-cases (later_than cur d.last_process_time t)) [
          | inl e ↦ inl (idle.0 e)
          | inr e ↦ inr (old.0 (ground (arith, h, e)))
        ],
      ),
      λ over. elim over.1 [
        | inl late ↦ ground (arith, over.0, idle.1 late)
        | inr late ↦ ground (arith, over.0, old.1 late)
      ],
    )

is_expired-false :
    (cur : ℕ) (t : ℤ) (d : ExecutorData) → is_expired cur t d ≡ false → ¬ (Over cur t d)
is_expired-false cur t d e over =
    let h : false ≡ true = sym e ∙ (is_expired_iff cur t d).1 over in cc h

Over-false : (cur : ℕ) (t : ℤ) (d : ExecutorData) → ¬ (Over cur t d) → is_expired cur t d ≡ false
Over-false cur t d stays = elim (Bool-cases (is_expired cur t d)) [
  | inl e ↦ absurd (stays ((is_expired_iff cur t d).0 e))
  | inr e ↦ e
]

remove-execs :
    (sys : Sys) (p : ℕ) (l : Loop) → (remove_executor_data sys p l).execs ≡ free l.execs p
unfolding remove_executor_data
remove-execs sys p l = refl

remove-exec :
    (sys : Sys) (p q : ℕ) (l : Loop)
    → (p == q) ≡ false
    → (remove_executor_data sys p l).exec q ≡ l.exec q
unfolding remove_executor_data
remove-exec sys p q l other = rw other refl

-- The removal of the expired ones among `ps`, by the times and data of `l`, behind ones that stay.
remove_all-Represents :
    (sys : Sys) (cur size : ℕ) (l l' : Loop) (pre ps available : List ℕ)
    → Represents size l'.execs (pre ++ ps) available
    → (stay : List ℕ) × (rest : List ℕ) × Survives cur l ps stay
      × Represents size (remove_all sys (expired cur l ps) l').execs (pre ++ stay) rest
unfolding remove_all expired
remove_all-Represents sys cur size l l' pre [] available r = ([], available, Survives.nothing, r)
remove_all-Represents sys cur size l l' pre (p ∷ ps) available r =
    let t = l.executor_timeout_millis in
    elim (Bool-cases (is_expired cur t (l.exec p))) [
      | inl e ↦
          (let (stay, rest, survives, r') =
              remove_all-Represents sys cur size l (remove_executor_data sys p l') pre ps
                (p ∷ available)
                (subst (λ s. Represents size s (pre ++ ps) (p ∷ available))
                  (sym (remove-execs sys p l'))
                  (free-Represents size l'.execs p pre ps available r)) in
            let over = (is_expired_iff cur t (l.exec p)).0 e in
            rw e (stay, rest, Survives.removed over survives, r'))
      | inr e ↦
          (let (stay, rest, survives, r') =
              remove_all-Represents sys cur size l l' (pre ++ p ∷ []) ps available (
                subst (λ xs. Represents size l'.execs xs available)
                  (sym (append_assoc pre (p ∷ []) ps)) r) in
            let stays = is_expired-false cur t (l.exec p) e in
            let same = append_assoc pre (p ∷ []) stay in
            let r'' =
              subst (λ xs. Represents size (remove_all sys (expired cur l ps) l').execs xs rest)
                same r' in
            rw e (p ∷ stay, rest, Survives.kept stays survives, r''))
    ]

-- An executor that is not expired keeps its data.
remove_all-exec :
    (sys : Sys) (cur : ℕ) (l l' : Loop) (ps : List ℕ) (q : ℕ)
    → is_expired cur l.executor_timeout_millis (l.exec q) ≡ false
    → (remove_all sys (expired cur l ps) l').exec q ≡ l'.exec q
unfolding remove_all expired
remove_all-exec sys cur l l' [] q stays = refl
remove_all-exec sys cur l l' (p ∷ ps) q stays =
    elim (Bool-cases (is_expired cur l.executor_timeout_millis (l.exec p))) [
      | inl e ↦
          (let other : (p == q) ≡ false = elim (Bool-cases (p == q)) [
            | inl same ↦ absurd (ground (arith, e, stays, same))
            | inr other ↦ other
          ] in
            rw e (
              remove_all-exec sys cur l (remove_executor_data sys p l') ps q stays
              ∙ remove-exec sys p q l' other))
      | inr e ↦ rw e (remove_all-exec sys cur l l' ps q stays)
    ]

-- checkTimeout, on a pool of executors whose items in use and free items are known, frees those
-- whose time is over: in use stay, in their order, exactly those that do not allow their removal, or
-- whose last activity is at most executorTimeoutMillis and whose creation at most half an hour ago;
-- and these keep their data.
pub check_timeout-Represents :
    (sys : Sys) (cur : ℕ) (l : Loop) (used available : List ℕ)
    → Represents exec_block_size l.execs used available
    → ((stay : List ℕ) × (rest : List ℕ) × Survives cur l used stay
        × Represents exec_block_size (check_timeout sys cur l).execs stay rest)
      × ((q : ℕ)
          → ¬ (Over cur l.executor_timeout_millis (l.exec q))
          → (check_timeout sys cur l).exec q ≡ l.exec q)
unfolding check_timeout
check_timeout-Represents sys cur l used available r =
    let walked : used_execs l ≡ used = used_items exec_block_size l.execs used available r in
    let t = l.executor_timeout_millis in
    rw walked (
      remove_all-Represents sys cur exec_block_size l l [] used available r,
      λ q stays. remove_all-exec sys cur l l used q (Over-false cur t (l.exec q) stays),
    )

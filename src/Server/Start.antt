-- ===== src/Server/Start.antt =====
-- src/Server.cpp, src/PollLoop.cpp: the loops that `start` leaves.
use epoll_http_server.Base.{
  ℕ, zero, suc, ◌%◌, ◌≡◌, refl, ap, ◌∙◌, inl, inr, Bool, true, false, Option, none, some, List, [],
  ◌∷◌, Bytes, length, get_elem?, replicate, length-replicate, All, ℤ, pos, negsuc, arith,
  Bool-cases, pos_part,
}
use mathlib.Core.Path.{subst}
use mathlib.Core.Option.{some-injective}
use epoll_http_server.Exec.Data.{ExecutorType}
use epoll_http_server.Loop.{Loop, listen_port}
use epoll_http_server.Loop.Events.{init}
use epoll_http_server.Params.{ServerParameters}
use epoll_http_server.Server.{
  Server, Answers, set_loop, stop, init_loops, listen_on, listen_in_turn, listened, start_loops,
  started, start,
}
use epoll_http_server.Server.Open.{init-is_open, listen_port-is_open}

abbrev pub AreOpen : List Loop → Type 0
AreOpen loops = All (λ l. l.is_open) loops

AreOpen-set_loop :
    (loops : List Loop) (i : ℕ) (l : Loop)
    → AreOpen loops
    → l.is_open ≡ true
    → AreOpen (set_loop loops i l)
AreOpen-set_loop [] i l all opened = tt
AreOpen-set_loop (k ∷ ks) zero l (first, all) opened = (opened, all)
AreOpen-set_loop (k ∷ ks) (suc i) l (first, all) opened =
    (first, AreOpen-set_loop ks i l all opened)

length-set_loop :
    (loops : List Loop) (i : ℕ) (l : Loop) → length (set_loop loops i l) ≡ length loops
length-set_loop [] i l = refl
length-set_loop (k ∷ ks) zero l = refl
length-set_loop (k ∷ ks) (suc i) l = ap suc (length-set_loop ks i l)

AreOpen-get :
    (loops : List Loop) (i : ℕ) (l : Loop)
    → AreOpen loops
    → get_elem? loops i ≡ some l
    → l.is_open ≡ true
AreOpen-get [] i l all get = absurd (cc get)
AreOpen-get (k ∷ ks) zero l (first, all) get = cc (first, get)
AreOpen-get (k ∷ ks) (suc i) l (first, all) get = AreOpen-get ks i l all get

-- All of some loops are open, and they are `n`.
abbrev pub IsUp : ℕ → List Loop → Type 0
IsUp n loops = AreOpen loops × length loops ≡ n

init_loops-IsUp :
    (answers : ℕ → Answers) (i : ℕ) (params : ServerParameters) (loops : List Loop)
    → (init_loops answers i params loops).1 ≡ true
    → IsUp (length loops) (init_loops answers i params loops).0
unfolding init_loops
init_loops-IsUp answers i params [] ok = (tt, refl)
init_loops-IsUp answers i params (l ∷ ls) ok =
    let a = answers i in
    elim (Bool-cases (init a.sys a.now params a.epoll a.event_fd l).1) [
      | inl e ↦
          (let all : (init_loops answers (suc i) params ls).1 ≡ true = ground (arith, e, ok) in
            let (opened, count) = init_loops-IsUp answers (suc i) params ls all in
            rw e ((init-is_open a.sys a.now params a.epoll a.event_fd l e, opened), ap suc count))
      | inr e ↦ absurd (ground (arith, e, ok))
    ]

module _ (strptime_gmt : Bytes → Option ℤ) (strftime_gmt : ℕ → Bytes) where
  -- The loops that listen, if no division by zero comes first.
  abbrev AreUp : ℕ → Option (List Loop × Bool) → Type 0
  AreUp n none = Unit {0}
  AreUp n (some (loops, done)) = IsUp n loops

  listen_on-AreUp :
      (a : Answers) (port : ℤ) (loops : List Loop) (i : ℕ) (o : Option Loop)
      (rest : List Loop → Option (List Loop × Bool))
      → get_elem? loops i ≡ o
      → ((loops' : List Loop) → AreOpen loops' → AreUp (length loops') (rest loops'))
      → AreOpen loops
      → AreUp (length loops) (listen_on strptime_gmt strftime_gmt a port loops i o rest)
  unfolding listen_on
  listen_on-AreUp a port loops i none rest get more opened = tt
  listen_on-AreUp a port loops i (some l) rest get more opened =
      let out =
        listen_port strptime_gmt strftime_gmt a.sys a.now (pos_part port) ExecutorType.server l in
      let kept : out.0.is_open ≡ true =
        listen_port-is_open strptime_gmt strftime_gmt a.sys a.now (pos_part port)
          ExecutorType.server l
        ∙ AreOpen-get loops i l opened get in
      let opened' : AreOpen (set_loop loops i out.0) = AreOpen-set_loop loops i out.0 opened kept in
      elim (Bool-cases out.1) [
        | inl e ↦ rw e (
            subst (λ n. AreUp n (rest (set_loop loops i out.0))) (length-set_loop loops i out.0)
              (more (set_loop loops i out.0) opened'))
        | inr e ↦ rw e (opened', length-set_loop loops i out.0)
      ]

  listen_in_turn-AreUp :
      (answers : ℕ → Answers) (counter : ℕ) (ports : List ℤ) (loops : List Loop)
      → AreOpen loops
      → AreUp (length loops) (listen_in_turn strptime_gmt strftime_gmt answers counter ports loops)
  unfolding listen_in_turn
  listen_in_turn-AreUp answers counter [] loops opened = (opened, refl)
  listen_in_turn-AreUp answers counter (port ∷ ports) loops opened =
      listen_on-AreUp (answers counter) port loops (counter % length loops)
        (get_elem? loops (counter % length loops))
        (listen_in_turn strptime_gmt strftime_gmt answers (suc counter) ports) refl
        (listen_in_turn-AreUp answers (suc counter) ports) opened

  -- The server as `start` leaves it, by what it returns: with `n` loops, all open, and as many
  -- threads, or with neither loops nor threads nor a log.
  unfoldable pub IsStarted : ℕ → Server × Bool → Type 0
  IsStarted n (srv, true) =
      (loops : List Loop) × (srv.loops ≡ some loops) × IsUp n loops × (srv.threads ≡ n)
  IsStarted n (srv, false) = srv.loops ≡ none × srv.threads ≡ 0 × srv.has_log ≡ false

  listened-IsStarted :
      (n : ℕ) (srv : Server) (o : Option (List Loop × Bool)) (out : Server × Bool)
      → pos_part srv.parameters.thread_count ≡ n
      → AreUp n o
      → listened strptime_gmt strftime_gmt srv o ≡ some out
      → IsStarted n out
  unfolding listened IsStarted
  listened-IsStarted n srv none out set up e = absurd (cc e)
  listened-IsStarted n srv (some (loops, false)) out set up e =
      subst (IsStarted n) (some-injective _ out e) (refl, refl, refl)
  listened-IsStarted n srv (some (loops, true)) out set (opened, count) e =
      subst (IsStarted n) (some-injective _ out e) (loops, refl, (opened, count), set)

  stopped : (n : ℕ) (srv : Server) → IsStarted n (stop srv, false)
  unfolding stop IsStarted
  stopped n srv = (refl, refl, refl)

  start_loops-IsStarted :
      (n : ℕ) (inits listens : ℕ → Answers) (srv : Server) (fresh : List Loop) (out : Server × Bool)
      → pos_part srv.parameters.thread_count ≡ n
      → length fresh ≡ n
      → start_loops strptime_gmt strftime_gmt inits listens srv fresh ≡ some out
      → IsStarted n out
  unfolding start_loops
  start_loops-IsStarted n inits listens srv fresh out set count e =
      let inited = init_loops inits 0 srv.parameters fresh in
      let listening =
        listen_in_turn strptime_gmt strftime_gmt listens 0 srv.parameters.http_ports inited.0 in
      elim (Bool-cases inited.1) [
        | inl f ↦
            (let (opened, same) = init_loops-IsUp inits 0 srv.parameters fresh f in
              let up : AreUp n listening =
                subst (λ k. AreUp k listening) (same ∙ count)
                  (listen_in_turn-AreUp listens 0 srv.parameters.http_ports inited.0 opened) in
              let e' : listened strptime_gmt strftime_gmt srv listening ≡ some out =
                ground (arith, e, f) in
              listened-IsStarted n srv listening out set up e')
        | inr f ↦
            (let e' : some (stop srv, false) ≡ some out = ground (arith, e, f) in
              subst (IsStarted n) (some-injective _ out e') (stopped n srv))
      ]

  -- If start returns 0, there are as many loops as threads and as the setting threadCount says, and
  -- all of them are open; if it returns -1, there are neither loops nor threads nor a log. What the
  -- system answers to the calls is arbitrary, and a fault, such as the division by threadCount 0, is
  -- no return.
  pub start-IsStarted :
      (log : Bool) (inits listens : ℕ → Answers) (fresh : Loop) (parameters : ServerParameters)
      (srv : Server) (out : Server × Bool)
      → start strptime_gmt strftime_gmt log inits listens fresh parameters srv ≡ some out
      → IsStarted (pos_part parameters.thread_count) out
  unfolding start started IsStarted
  start-IsStarted false inits listens fresh parameters srv out e =
      subst (IsStarted (pos_part parameters.thread_count)) (some-injective _ out e)
        (refl, refl, refl)
  start-IsStarted true inits listens fresh parameters srv out e =
      by_count parameters.thread_count refl e
    where
      srv' : Server
      srv' = record srv { parameters = parameters; has_log = true }

      by_count :
          (count : ℤ)
          → parameters.thread_count ≡ count
          → started strptime_gmt strftime_gmt inits listens fresh srv' count ≡ some out
          → IsStarted (pos_part count) out
      by_count (pos n) same e' =
          start_loops-IsStarted n inits listens srv' (replicate n fresh) out (ap pos_part same)
            (length-replicate n fresh) e'
      by_count (negsuc n) same e' = absurd (cc e')

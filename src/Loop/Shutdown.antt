-- ===== src/Loop/Shutdown.antt =====
-- src/executors/ServerExecutor.cpp, src/PollLoop.cpp: what becomes of the loop when accept4(2) fails.
use epoll_http_server.Base.{
  true, ◌∙◌, ℕ, ◌≡◌, refl, ap, false, Option, none, some, ◌∷◌, List, Bytes, ℤ,
}
use epoll_http_server.Exec.Data.{Executor, ExecutorType, State, is_state}
use epoll_http_server.Exec.Sys.{Sys}
use epoll_http_server.Exec.PollFds.{PollData}
use epoll_http_server.Exec.PollFds.Registered.{int_eq_self}
use epoll_http_server.Loop.{Loop}
use epoll_http_server.Loop.Handlers.{accepted, server_process, process_by}
use epoll_http_server.Loop.Events.{
  Event, has_rdhup, has_err, destroy, Wait, processed, handle_exec, handle_data, handle_event,
  handle_events, then_events, after_events, run_round,
}

-- The event is one of a listening descriptor, whose executor is the p-th, without an error.
pub record IsListening (l : Loop) (p : ℕ) (e : Event) : Type 0 where
  pub owner : (l.polls.item e.pointer).exec_data ≡ some p
  pub fd : (l.polls.item e.pointer).fd ≡ (l.exec p).fd0
  pub executor : (l.exec p).executor ≡ some (Executor.of_type ExecutorType.server)
  pub is_up : is_state (l.exec p).state State.invalid ≡ false
  pub no_rdhup : has_rdhup e.bits ≡ false
  pub no_err : has_err e.bits ≡ false

module _ (strptime_gmt : Bytes → Option ℤ) (strftime_gmt : ℕ → Bytes) where
  server_process-fails :
      (sys : Sys) (now p : ℕ) (l : Loop)
      → sys.accept ≡ none
      → processed strptime_gmt strftime_gmt sys now p
          (server_process strptime_gmt strftime_gmt sys now p (l.exec p).fd0 l)
        ≡ (destroy l, false)
  unfolding server_process accepted processed
  server_process-fails sys now p l refused = rw (int_eq_self (l.exec p).fd0, refused) refl

  handle_exec-fails :
      (sys : Sys) (now p : ℕ) (l : Loop) (e : Event)
      → IsListening l p e
      → sys.accept ≡ none
      → handle_exec strptime_gmt strftime_gmt sys now p (l.exec p).fd0 e.bits l
        ≡ some (destroy l, false)
  unfolding handle_exec process_by
  handle_exec-fails sys now p l e listening refused =
      rw (listening.is_up, listening.no_rdhup, listening.no_err, listening.executor)
        (ap some (server_process-fails sys now p l refused))

  -- The executor that a PollData names handles its events.
  handle_data-owner :
      (sys : Sys) (now p bits : ℕ) (pd : PollData) (l : Loop)
      → pd.exec_data ≡ some p
      → handle_data strptime_gmt strftime_gmt sys now bits pd l
        ≡ handle_exec strptime_gmt strftime_gmt sys now p pd.fd bits l
  unfolding handle_data
  handle_data-owner sys now p bits pd l owner =
      ap
        (λ o. elim o [
          | none ↦ some (l, true)
          | some q ↦ handle_exec strptime_gmt strftime_gmt sys now q pd.fd bits l
        ])
        owner

  handle_event-fails :
      (sys : Sys) (now p : ℕ) (l : Loop) (e : Event)
      → IsListening l p e
      → sys.accept ≡ none
      → handle_event strptime_gmt strftime_gmt sys now e l ≡ some (destroy l, false)
  unfolding handle_event
  handle_event-fails sys now p l e listening refused =
      handle_data-owner sys now p e.bits (l.polls.item e.pointer) l listening.owner
      ∙ ap (λ fd. handle_exec strptime_gmt strftime_gmt sys now p fd e.bits l) listening.fd
      ∙ handle_exec-fails sys now p l e listening refused

  -- If the first event of a round is one of a listening descriptor, without an error, and accept4(2)
  -- fails, for whatever reason, then the round destroys the loop as it was at its start and ends run;
  -- the events that follow are not handled.
  pub run_round-destroys :
      (sys sys' : Sys) (now p : ℕ) (l : Loop) (e : Event) (es : List (Sys × Event))
      → IsListening l p e
      → sys.accept ≡ none
      → run_round strptime_gmt strftime_gmt (Wait.delivered now sys' ((sys, e) ∷ es)) l
        ≡ some (destroy l, false)
  unfolding run_round handle_events
  run_round-destroys sys sys' now p l e es listening refused =
      ap
        (λ o. after_events strptime_gmt strftime_gmt sys' now (
          then_events strptime_gmt strftime_gmt o (handle_events strptime_gmt strftime_gmt now es)))
        (handle_event-fails sys now p l e listening refused)

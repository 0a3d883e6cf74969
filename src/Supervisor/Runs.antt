-- ===== src/Supervisor/Runs.antt =====
-- What holds along every run of the supervisor of runtime_supervisor.rs.
use kanai.Base.{
  ℕ, true, false, ◌&&◌, ◌||◌, ◌≡◌, refl, sym, subst, ap, if-cases, arith, ok, err, Result-cases,
  inl, inr,
}
use kanai.Supervisor.Policy.{RuntimeSupervisorConfig, validate}
use kanai.Supervisor.Lifecycle.{
  failed, invalid_state, Shared, publish, new_shared, new_supervisor, start_from, start, stop_from,
  request_stop, drop_supervisor,
}
use kanai.Supervisor.Exits.{
  is_starting, is_backing_off, is_failed, is_running, names, owned, awaits, finish_start,
  fail_start, is_cancel_or_stop, stop_late_child, record_stop_error, cleared, ExitNext, done,
  handle_child_exit, may_restart, begin_restart, fail_restart, clear_backoff,
  cancel_start_after_caller_drop,
}
use kanai.Supervisor.Steps.{
  Step, Steps, starts, asks_stop, drops, caller_drops, child_starts, child_fails, late_stops,
  stop_fails, child_exits, restarts, restart_fails, backoff_ends, stays, moves,
}
use kanai.Supervisor.Consistent.{IsConsistent}
use kanai.Supervisor.Kept.{
  start_from-IsConsistent, stop_from-IsConsistent, finish_start-IsConsistent,
  fail_start-IsConsistent, stop_late_child-IsConsistent, record_stop_error-IsConsistent,
}
use kanai.Supervisor.Exited.{
  handle_child_exit-IsConsistent, begin_restart-IsConsistent, fail_restart-IsConsistent,
  clear_backoff-IsConsistent, cancel_start-IsConsistent,
}

module _ (config : RuntimeSupervisorConfig) where
  new_shared-IsConsistent : IsConsistent config.max_restarts new_shared
  unfolding new_shared
  new_shared-IsConsistent = record {
    sent = refl;
    budget = omega arith;
    parts = (refl, refl, refl);
    terminal = refl;
  }

  Step-IsConsistent :
      {self after : Shared}
      → IsConsistent config.max_restarts self
      → Step config self after
      → IsConsistent config.max_restarts after
  unfolding start request_stop drop_supervisor
  Step-IsConsistent {self = self} h (starts signal) =
      start_from-IsConsistent config.max_restarts self h self.lifecycle.snapshot.state signal
  Step-IsConsistent {self = self} h (asks_stop requested) =
      stop_from-IsConsistent config.max_restarts self h self.lifecycle.snapshot.state requested refl
  Step-IsConsistent h drops = record {
    sent = h.sent;
    budget = h.budget;
    parts = h.parts;
    terminal = h.terminal;
  }
  Step-IsConsistent {self = self} h (caller_drops generation) =
      cancel_start-IsConsistent config self h generation
  Step-IsConsistent {self = self} h (child_starts generation child signal) =
      finish_start-IsConsistent config.max_restarts self h generation child signal
  Step-IsConsistent {self = self} h (child_fails generation source) =
      fail_start-IsConsistent config.max_restarts self h generation source
  Step-IsConsistent {self = self} h (late_stops generation result) =
      stop_late_child-IsConsistent config.max_restarts self h generation result
  Step-IsConsistent {self = self} h (stop_fails generation error) =
      record_stop_error-IsConsistent config.max_restarts self h generation error
  Step-IsConsistent {self = self} h (child_exits generation first cause signal) =
      handle_child_exit-IsConsistent config self h generation first cause signal
  Step-IsConsistent {self = self} h (restarts generation signal) =
      begin_restart-IsConsistent config self h generation signal
  Step-IsConsistent {self = self} h (restart_fails generation replacement source signal) =
      fail_restart-IsConsistent config self h generation replacement source signal
  Step-IsConsistent {self = self} h (backoff_ends generation) =
      clear_backoff-IsConsistent config self h generation

  Steps-IsConsistent :
      {self after : Shared}
      → IsConsistent config.max_restarts self
      → Steps config self after
      → IsConsistent config.max_restarts after
  Steps-IsConsistent h stays = h
  Steps-IsConsistent h (moves steps step) = Step-IsConsistent (Steps-IsConsistent h steps) step

  -- Whatever callers and tasks do to a new supervisor, in whatever order and whatever the adapter
  -- answers: the snapshot that was sent last is that of the lifecycle; the automatic restarts are at
  -- most the configured number; a child is there in the running and stopping states and not in the
  -- idle, starting and backing-off ones, an owner of the back-off in the backing-off state alone, and
  -- a start in the starting state alone; and a failed stop or a cancelled start is reported by the
  -- failed state alone.
  pub new_supervisor-Steps :
      {self after : Shared}
      → new_supervisor config ≡ ok self
      → Steps config self after
      → IsConsistent config.max_restarts after
  unfolding new_supervisor
  new_supervisor-Steps e steps = elim (Result-cases (validate config)) [
    | inr (error, f) ↦ absurd (ground (arith, e, f))
    | inl (tt, f) ↦
        Steps-IsConsistent
          (subst (IsConsistent config.max_restarts) (ground (arith, e, f)) new_shared-IsConsistent)
          steps
  ]

  abbrev IsFailed : Shared → Type 0
  IsFailed self = self.lifecycle.snapshot.state ≡ failed

  -- A failed state is none of those that a guard asks for.
  refused :
      (self : Shared) (generation : ℕ)
      → IsFailed self
      → (awaits self generation ≡ false)
        × (may_restart self generation ≡ false)
        × (is_starting self.lifecycle.snapshot.state ≡ false)
        × (is_backing_off self.lifecycle.snapshot.state ≡ false)
        × (is_running self.lifecycle.snapshot.state ≡ false)
        × (is_failed self.lifecycle.snapshot.state ≡ true)
  refused self generation e =
      let s = ap is_starting e in
      let b = ap is_backing_off e in
      (ground (arith, s), ground (arith, b), s, b, ap is_running e, ap is_failed e)

  Step-IsFailed : {self after : Shared} → IsFailed self → Step config self after → IsFailed after
  unfolding start request_stop drop_supervisor cancel_start_after_caller_drop finish_start
      fail_start stop_late_child record_stop_error handle_child_exit begin_restart fail_restart
      clear_backoff publish cleared
  Step-IsFailed {self = self} e (starts signal) =
      subst (λ s. IsFailed (start_from s self signal).0) (sym e) e
  Step-IsFailed {self = self} e (asks_stop requested) =
      subst (λ s. IsFailed (stop_from s self requested).0) (sym e) e
  Step-IsFailed e drops = e
  Step-IsFailed {self = self} e (caller_drops generation) =
      let (a, m, s, b, r, f) = refused self generation e in
      rw (s, r, cancel_start_after_caller_drop) e
  Step-IsFailed {self = self} e (child_starts generation child signal) =
      let (a, m, s, b, r, f) = refused self generation e in rw (a, finish_start) e
  Step-IsFailed {self = self} e (child_fails generation source) =
      let (a, m, s, b, r, f) = refused self generation e in rw (a, fail_start) e
  Step-IsFailed {self = self} e (late_stops generation result) =
      if-cases IsFailed
        (names self.lifecycle.starting_generation generation
          || is_cancel_or_stop self.lifecycle.snapshot.last_error)
        _ self (λ t. refl) (λ t. e)
  Step-IsFailed {self = self} e (stop_fails generation error) =
      if-cases IsFailed (owned self.lifecycle.active generation) _ self (λ t. refl) (λ t. e)
  Step-IsFailed {self = self} e (child_exits generation first cause signal) =
      let (a, m, s, b, r, f) = refused self generation e in
      let Kept : Shared × ExitNext → Type 0 = λ x. IsFailed x.0 in
      if-cases Kept self.closed (self, done) _ (λ t. e)
        (λ undropped.
          if-cases Kept (is_failed self.lifecycle.snapshot.state)
            (record self { lifecycle = cleared self.lifecycle }, done) _ (λ t. e)
            (λ t. absurd (ground (arith, t, f))))
  Step-IsFailed {self = self} e (restarts generation signal) =
      let (a, m, s, b, r, f) = refused self generation e in rw (m, begin_restart) e
  Step-IsFailed {self = self} e (restart_fails generation replacement source signal) =
      let (a, m, s, b, r, f) = refused self replacement e in rw (a, fail_restart) e
  Step-IsFailed {self = self} e (backoff_ends generation) =
      if-cases IsFailed
        (names self.lifecycle.backoff_owner generation
          && is_backing_off self.lifecycle.snapshot.state)
        _ self
        (λ t. let (a, m, s, b, r, f) = refused self generation e in absurd (ground (arith, t, b)))
        (λ t. e)

  Steps-IsFailed : {self after : Shared} → IsFailed self → Steps config self after → IsFailed after
  Steps-IsFailed e stays = e
  Steps-IsFailed e (moves steps step) = Step-IsFailed (Steps-IsFailed e steps) step

  -- A supervisor that has failed stays failed, whatever callers and tasks do from then on: every
  -- later `start` is refused, and no child that a factory returns is attached.
  pub failed-Steps :
      {self after : Shared} (signal generation child : ℕ)
      → IsFailed self
      → Steps config self after
      → (after.lifecycle.snapshot.state ≡ failed)
        × ((start after signal).1 ≡ err (invalid_state failed))
        × ((finish_start after generation child signal).1 ≡ false)
  unfolding start finish_start
  failed-Steps {after = after} signal generation child e steps =
      let f : IsFailed after = Steps-IsFailed e steps in
      let (a, m, s, b, r, t) = refused after generation f in
      (f, ap (λ s. (start_from s after signal).1) f, rw (a, finish_start) refl)

-- ===== src/Supervisor/Exits.antt =====
-- What the tasks of runtime_supervisor.rs do to the lifecycle: the end of a start, the exit of a
-- child, the back-off and the restart.
use kanai.Base.{
  ℕ, ◌+◌, Bool, true, false, ◌&&◌, ◌||◌, not, Option, none, some, ◌==◌, leb, if◌then◌else◌, Result,
  ok, err,
}
use kanai.Supervisor.Policy.{RuntimeSupervisorConfig, delay_for}
use kanai.Supervisor.Lifecycle.{
  RuntimeProcessError, RuntimeSupervisorState, idle, starting, running, backing_off, stopping,
  failed, RuntimeFailure, start_failure, unexpected_exit, start_cancelled, restart_failure,
  restart_limit_exceeded, stop_failure, RuntimeSupervisorError, start_failed, start_was_cancelled,
  ActiveChild, Lifecycle, Shared, publish, with_error, with_restarts, next_after, start_dropped,
  stop_none, stop_force, backoff_dropped,
}

abbrev pub is_starting : RuntimeSupervisorState → Bool
is_starting starting = true
is_starting _ = false

abbrev pub is_backing_off : RuntimeSupervisorState → Bool
is_backing_off backing_off = true
is_backing_off _ = false

abbrev pub is_failed : RuntimeSupervisorState → Bool
is_failed failed = true
is_failed _ = false

abbrev pub is_stopping : RuntimeSupervisorState → Bool
is_stopping stopping = true
is_stopping _ = false

abbrev pub is_running : RuntimeSupervisorState → Bool
is_running running = true
is_running _ = false

abbrev pub names : Option ℕ → ℕ → Bool
names none generation = false
names (some g) generation = g == generation

abbrev pub owned : Option ActiveChild → ℕ → Bool
owned none generation = false
owned (some a) generation = a.child_generation == generation

-- The lifecycle of a child that is attached; the monitor's task is not part of it.
unfoldable pub attached : Lifecycle → ℕ → ℕ → ℕ → Lifecycle
attached l generation child signal = record l {
  active = some (record {
    child = child;
    child_generation = generation;
    stop_mode = stop_none;
    stop_signal = signal;
  });
  starting_generation = none;
  start_signal = none;
  backoff_owner = none;
  backoff_signal = none;
  stop_error = none;
}

unfoldable pub attach_child : Shared → ℕ → ℕ → ℕ → Shared
attach_child self generation child signal =
    publish self (attached self.lifecycle generation child signal) running

-- The guard of the end of a start of this generation.
abbrev pub awaits : Shared → ℕ → Bool
awaits self generation =
    not self.closed
    && (is_starting self.lifecycle.snapshot.state
        && names self.lifecycle.starting_generation generation)

-- A factory returned a child, for the first start and for a restart: whether it is attached. One
-- that is not is stopped without the lock.
unfoldable pub finish_start : Shared → ℕ → ℕ → ℕ → Shared × Bool
finish_start self generation child signal =
    if awaits self generation
    then (attach_child self generation child signal, true)
    else (self, false)

-- `finish_initial_start` where the factory failed.
unfoldable pub fail_start : Shared → ℕ → RuntimeProcessError → Shared × RuntimeSupervisorError
fail_start self generation source =
    if awaits self generation
    then (
      publish self
          (with_error (record (self.lifecycle) { starting_generation = none; start_signal = none })
            (some (start_failure source)))
          failed,
      start_failed source,
    )
    else (self, start_was_cancelled)

abbrev pub is_cancel_or_stop : Option RuntimeFailure → Bool
is_cancel_or_stop (some start_cancelled) = true
is_cancel_or_stop (some (stop_failure source)) = true
is_cancel_or_stop _ = false

abbrev pub late_error :
    Result RuntimeProcessError (Unit {0}) → Option RuntimeFailure → Option RuntimeFailure
late_error (err source) error = some (stop_failure source)
late_error (ok _) (some (stop_failure source)) = some (stop_failure source)
late_error (ok _) error = some start_cancelled

-- `stop_late_child`, once the forced stop of the child has answered.
unfoldable pub stop_late_child : Shared → ℕ → Result RuntimeProcessError (Unit {0}) → Shared
stop_late_child self generation result =
    let l = self.lifecycle in
    if names l.starting_generation generation || is_cancel_or_stop l.snapshot.last_error
    then publish self
        (with_error
          (record l {
            starting_generation = none;
            start_signal = none;
            backoff_owner = none;
            backoff_signal = none;
          })
          (late_error result l.snapshot.last_error))
        failed
    else self

unfoldable pub record_stop_error : Shared → ℕ → RuntimeProcessError → Shared
record_stop_error self generation error =
    if owned self.lifecycle.active generation
    then publish self
        (with_error (record (self.lifecycle) { stop_error = some error })
          (some (stop_failure error)))
        failed
    else self

-- What a monitor does after its turn: it is done, or it waits for so long.
pub data ExitNext : Type 0 where
  done : ExitNext
  backs_off : ℕ → ExitNext

-- A lifecycle without child, back-off and start.
unfoldable pub cleared : Lifecycle → Lifecycle
cleared l = record l {
  active = none;
  backoff_owner = none;
  backoff_signal = none;
  starting_generation = none;
  start_signal = none;
}

abbrev pub stopped : Shared → Option RuntimeProcessError → Shared
stopped self (some source) =
    publish self
      (with_error (record (cleared self.lifecycle) { stop_error = none })
        (some (stop_failure source)))
      failed
stopped self none =
    publish self
      (with_error (with_restarts (record (cleared self.lifecycle) { stop_error = none }) 0) none)
      idle

unfoldable pub exit_failure : Bool → Option RuntimeProcessError → RuntimeFailure
exit_failure true cause = unexpected_exit cause
exit_failure false cause = restart_failure cause

-- The branch of a child that nobody asked to stop.
unfoldable pub restart_later :
    RuntimeSupervisorConfig → Shared → ℕ → Bool → Option RuntimeProcessError → ℕ → Shared × ExitNext
restart_later config self generation first_restart cause signal =
    let l : Lifecycle = record (self.lifecycle) { active = none; stop_error = none } in
    let attempt = l.snapshot.automatic_restarts + 1 in
    if leb config.max_restarts l.snapshot.automatic_restarts
    then (
      publish self
          (with_error (record l { backoff_owner = none; backoff_signal = none })
            (some (restart_limit_exceeded config.max_restarts cause)))
          failed,
      done,
    )
    else (
      publish self
          (with_error
            (with_restarts
              (record l { backoff_owner = some generation; backoff_signal = some signal }) attempt)
            (some (exit_failure first_restart cause)))
          backing_off,
      backs_off (delay_for config attempt),
    )

abbrev pub owns_exit : Lifecycle → ℕ → Bool
owns_exit l generation =
    owned l.active generation
    || (is_backing_off l.snapshot.state && names l.backoff_owner generation)

-- The first part of a turn of the loop of `handle_child_exit`.
unfoldable pub handle_child_exit :
    RuntimeSupervisorConfig → Shared → ℕ → Bool → Option RuntimeProcessError → ℕ → Shared × ExitNext
handle_child_exit config self generation first_restart cause signal =
    if self.closed
    then (self, done)
    else if is_failed self.lifecycle.snapshot.state
    then (record self { lifecycle = cleared self.lifecycle }, done)
    else if not (owns_exit self.lifecycle generation)
    then (self, done)
    else if is_stopping self.lifecycle.snapshot.state
    then (stopped self self.lifecycle.stop_error, done)
    else restart_later config self generation first_restart cause signal

-- The guard of a monitor whose back-off is over.
abbrev pub may_restart : Shared → ℕ → Bool
may_restart self generation =
    not self.closed
    && (is_backing_off self.lifecycle.snapshot.state
        && names self.lifecycle.backoff_owner generation)

-- After the back-off: the generation of the replacement, if one is started.
unfoldable pub begin_restart : Shared → ℕ → ℕ → Shared × Option ℕ
begin_restart self generation signal =
    let l = self.lifecycle in
    if may_restart self generation
    then (
      publish self
          (with_error
            (record l {
              starting_generation = some l.next_generation;
              next_generation = next_after l.next_generation;
              start_signal = some signal;
              backoff_owner = none;
              backoff_signal = none;
            })
            none)
          starting,
      some l.next_generation,
    )
    else (self, none)

-- The factory of the replacement failed: whether the loop goes on.
unfoldable pub fail_restart :
    RuntimeSupervisorConfig → Shared → ℕ → ℕ → RuntimeProcessError → ℕ → Shared × Bool
fail_restart config self generation replacement source signal =
    let l : Lifecycle = record (self.lifecycle) {
      starting_generation = none;
      start_signal = none;
    } in
    if not (awaits self replacement)
    then (self, false)
    else if leb config.max_restarts l.snapshot.automatic_restarts
    then (
      publish self
          (with_error (record l { backoff_owner = none; backoff_signal = none })
            (some (restart_limit_exceeded config.max_restarts (some source))))
          failed,
      false,
    )
    else (
      publish self
          (with_error (record l { backoff_owner = some generation; backoff_signal = some signal })
            (some (restart_failure (some source))))
          backing_off,
      true,
    )

unfoldable pub clear_backoff : Shared → ℕ → Shared
clear_backoff self generation =
    if names self.lifecycle.backoff_owner generation && is_backing_off self.lifecycle.snapshot.state
    then publish self (backoff_dropped self.lifecycle) idle
    else self

abbrev pub force_active : Option ActiveChild → Option ActiveChild
force_active none = none
force_active (some a) = some (record a { stop_mode = stop_force })

-- The caller of `start` was dropped while it waited.
unfoldable pub cancel_start_after_caller_drop : Shared → ℕ → Shared
cancel_start_after_caller_drop self generation =
    let l = self.lifecycle in
    if is_starting l.snapshot.state && names l.starting_generation generation
    then publish self (start_dropped l) failed
    else if is_running l.snapshot.state && owned l.active generation
    then publish self (record l { active = force_active l.active }) stopping
    else self

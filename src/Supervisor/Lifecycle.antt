-- ===== src/Supervisor/Lifecycle.antt =====
-- The lifecycle of runtime_supervisor.rs, and what its callers do to it. A function is what one
-- holder of the lock does. A child and a signal (`Notify`) are numbers, new ones are arguments.
use kanai.Base.{
  ℕ, ◌+◌, ◌%◌, Bool, true, false, ◌||◌, Option, none, some, ◌==◌, if◌then◌else◌, Result, ok, err,
  usize_mod,
}
use kanai.Supervisor.Policy.{RuntimeSupervisorConfig, RuntimeSupervisorConfigError, validate}

pub data RuntimeProcessError : Type 0 where
  unavailable_process rejected_request wait_failed : RuntimeProcessError

pub data RuntimeSupervisorState : Type 0 where
  idle starting running backing_off stopping failed : RuntimeSupervisorState

pub data RuntimeFailure : Type 0 where
  start_failure : RuntimeProcessError → RuntimeFailure
  unexpected_exit : Option RuntimeProcessError → RuntimeFailure
  start_cancelled : RuntimeFailure
  restart_failure : Option RuntimeProcessError → RuntimeFailure
  restart_limit_exceeded : ℕ → Option RuntimeProcessError → RuntimeFailure
  stop_failure : RuntimeProcessError → RuntimeFailure

pub record RuntimeStateSnapshot : Type 0 where
  pub state : RuntimeSupervisorState
  pub automatic_restarts : ℕ
  pub last_error : Option RuntimeFailure

pub data RuntimeSupervisorError : Type 0 where
  already_running : RuntimeSupervisorError
  invalid_state : RuntimeSupervisorState → RuntimeSupervisorError
  start_failed : RuntimeProcessError → RuntimeSupervisorError
  start_was_cancelled : RuntimeSupervisorError
  stop_failed : RuntimeProcessError → RuntimeSupervisorError
  no_runtime unavailable : RuntimeSupervisorError

-- The modes of a stop.
abbrev pub stop_none : ℕ
stop_none = 0

abbrev pub stop_graceful : ℕ
stop_graceful = 1

abbrev pub stop_force : ℕ
stop_force = 2

pub record ActiveChild : Type 0 where
  pub child : ℕ
  pub child_generation : ℕ
  pub stop_mode : ℕ
  pub stop_signal : ℕ

pub record Lifecycle : Type 0 where
  pub snapshot : RuntimeStateSnapshot
  pub active : Option ActiveChild
  pub next_generation : ℕ
  pub backoff_owner : Option ℕ
  pub backoff_signal : Option ℕ
  pub starting_generation : Option ℕ
  pub start_signal : Option ℕ
  pub stop_error : Option RuntimeProcessError

-- The lifecycle behind its lock, the snapshot that was sent last, and whether the supervisor was
-- dropped.
pub record Shared : Type 0 where
  pub lifecycle : Lifecycle
  pub states : RuntimeStateSnapshot
  pub closed : Bool

-- The state is set, and the snapshot sent.
unfoldable pub publish : Shared → Lifecycle → RuntimeSupervisorState → Shared
publish shared l state =
    let snapshot : RuntimeStateSnapshot = record (l.snapshot) { state = state } in
    record shared { lifecycle = record l { snapshot = snapshot }; states = snapshot }

-- The snapshot of a lifecycle with another error, or with other counts of restarts.
abbrev pub with_error : Lifecycle → Option RuntimeFailure → Lifecycle
with_error l error = record l { snapshot = record (l.snapshot) { last_error = error } }

abbrev pub with_restarts : Lifecycle → ℕ → Lifecycle
with_restarts l n = record l { snapshot = record (l.snapshot) { automatic_restarts = n } }

abbrev pub initial : RuntimeStateSnapshot
initial = record { state = idle; automatic_restarts = 0; last_error = none }

unfoldable pub new_shared : Shared
new_shared = record {
  lifecycle = record {
    snapshot = initial;
    active = none;
    next_generation = 1;
    backoff_owner = none;
    backoff_signal = none;
    starting_generation = none;
    start_signal = none;
    stop_error = none;
  };
  states = initial;
  closed = false;
}

-- `RuntimeSupervisor::new`
unfoldable pub new_supervisor : RuntimeSupervisorConfig → Result RuntimeSupervisorConfigError Shared
new_supervisor config = elim (validate config) [ err e ↦ err e | ok _ ↦ ok new_shared ]

abbrev pub next_after : ℕ → ℕ
next_after generation = (generation + 1) % usize_mod

-- The lifecycle of a start under way.
unfoldable pub started : Lifecycle → ℕ → Lifecycle
started l signal = record l {
  starting_generation = some l.next_generation;
  next_generation = next_after l.next_generation;
  start_signal = some signal;
  active = none;
  backoff_owner = none;
  backoff_signal = none;
  stop_error = none;
  snapshot = record (l.snapshot) { automatic_restarts = 0; last_error = none };
}

abbrev pub start_from :
    RuntimeSupervisorState → Shared → ℕ → Shared × Result RuntimeSupervisorError ℕ
start_from idle self signal =
    (publish self (started self.lifecycle signal) starting, ok self.lifecycle.next_generation)
start_from running self signal = (self, err already_running)
start_from starting self signal = (self, err (invalid_state starting))
start_from backing_off self signal = (self, err (invalid_state backing_off))
start_from stopping self signal = (self, err (invalid_state stopping))
start_from failed self signal = (self, err (invalid_state failed))

-- The part of `start` under the lock: the generation whose start is spawned, or the error.
unfoldable pub start : Shared → ℕ → Shared × Result RuntimeSupervisorError ℕ
start self signal = start_from self.lifecycle.snapshot.state self signal

-- What `request_stop` does next: it returns, or waits for the end of the stop; and whom it wakes.
pub data StopNext : Type 0 where
  returns : Result RuntimeSupervisorError (Unit {0}) → Option ℕ → StopNext
  waits : ℕ → StopNext

abbrev pub upgraded : ℕ → ℕ → ℕ
upgraded requested current =
    if requested == stop_force || current == stop_force then stop_force else stop_graceful

-- The error of an earlier state is dropped when the stop begins.
abbrev pub forget_error : RuntimeSupervisorState → Lifecycle → Lifecycle
forget_error stopping l = l
forget_error _ l = with_error l none

abbrev pub stop_active : Option ActiveChild → Shared → ℕ → Shared × StopNext
stop_active none self requested = (self, returns (err unavailable) none)
stop_active (some a) self requested =
    let child : ActiveChild = record a { stop_mode = upgraded requested a.stop_mode } in
    (
      publish self
          (forget_error self.lifecycle.snapshot.state
            (record (self.lifecycle) { active = some child }))
          stopping,
      waits a.stop_signal,
    )

-- A start is cancelled: the lifecycle is left failed.
unfoldable pub start_dropped : Lifecycle → Lifecycle
start_dropped l =
    with_error
      (record l {
        start_signal = none;
        starting_generation = none;
        backoff_owner = none;
        backoff_signal = none;
      })
      (some start_cancelled)

unfoldable pub backoff_dropped : Lifecycle → Lifecycle
backoff_dropped l = record l {
  backoff_signal = none;
  backoff_owner = none;
  snapshot = record (l.snapshot) { automatic_restarts = 0; last_error = none };
}

abbrev pub stop_from : RuntimeSupervisorState → Shared → ℕ → Shared × StopNext
stop_from idle self requested = (self, returns (ok tt) none)
stop_from failed self requested = (self, returns (ok tt) none)
stop_from starting self requested = (
  publish self (start_dropped self.lifecycle) failed,
  returns (ok tt) self.lifecycle.start_signal,
)
stop_from backing_off self requested = (
  publish self (backoff_dropped self.lifecycle) idle,
  returns (ok tt) self.lifecycle.backoff_signal,
)
stop_from running self requested = stop_active self.lifecycle.active self requested
stop_from stopping self requested = stop_active self.lifecycle.active self requested

-- The part of `request_stop` under the lock.
unfoldable pub request_stop : Shared → ℕ → Shared × StopNext
request_stop self requested = stop_from self.lifecycle.snapshot.state self requested

abbrev pub stop_verdict : Option RuntimeFailure → Result RuntimeSupervisorError (Unit {0})
stop_verdict (some (stop_failure source)) = err (stop_failed source)
stop_verdict _ = err unavailable

abbrev pub verdict_of :
    RuntimeSupervisorState
    → Option RuntimeFailure
    → Option (Result RuntimeSupervisorError (Unit {0}))
verdict_of stopping error = none
verdict_of idle error = some (ok tt)
verdict_of running error = some (ok tt)
verdict_of backing_off error = some (ok tt)
verdict_of failed error = some (stop_verdict error)
verdict_of starting error = some (err start_was_cancelled)

-- A turn of the loop of `wait_for_stop`: nothing where it waits for the next snapshot.
unfoldable pub wait_for_stop :
    RuntimeStateSnapshot → Option (Result RuntimeSupervisorError (Unit {0}))
wait_for_stop snapshot = verdict_of snapshot.state snapshot.last_error

-- `Drop for RuntimeSupervisor`
unfoldable pub drop_supervisor : Shared → Shared
drop_supervisor self = record self { closed = true }

-- ===== src/Supervisor/Steps.antt =====
-- The steps that callers and tasks of runtime_supervisor.rs take under the lock, in any order.
use kanai.Base.{ℕ, Bool, Option, Result}
use kanai.Supervisor.Policy.{RuntimeSupervisorConfig}
use kanai.Supervisor.Lifecycle.{RuntimeProcessError, Shared, start, request_stop, drop_supervisor}
use kanai.Supervisor.Exits.{
  finish_start, fail_start, stop_late_child, record_stop_error, handle_child_exit, begin_restart,
  fail_restart, clear_backoff, cancel_start_after_caller_drop,
}

-- Tasks may be those of any generation, and the adapter may answer anything.
pub data Step (config : RuntimeSupervisorConfig) (self : Shared) : Shared → Type 0 where
  starts : (signal : ℕ) → Step config self (start self signal).0
  asks_stop : (requested : ℕ) → Step config self (request_stop self requested).0
  drops : Step config self (drop_supervisor self)
  caller_drops :
      (generation : ℕ) → Step config self (cancel_start_after_caller_drop self generation)
  child_starts :
      (generation child signal : ℕ) → Step config self (finish_start self generation child signal).0
  child_fails :
      (generation : ℕ) (source : RuntimeProcessError)
      → Step config self (fail_start self generation source).0
  late_stops :
      (generation : ℕ) (result : Result RuntimeProcessError (Unit {0}))
      → Step config self (stop_late_child self generation result)
  stop_fails :
      (generation : ℕ) (error : RuntimeProcessError)
      → Step config self (record_stop_error self generation error)
  child_exits :
      (generation : ℕ) (first_restart : Bool) (cause : Option RuntimeProcessError) (signal : ℕ)
      → Step config self (handle_child_exit config self generation first_restart cause signal).0
  restarts : (generation signal : ℕ) → Step config self (begin_restart self generation signal).0
  restart_fails :
      (generation replacement : ℕ) (source : RuntimeProcessError) (signal : ℕ)
      → Step config self (fail_restart config self generation replacement source signal).0
  backoff_ends : (generation : ℕ) → Step config self (clear_backoff self generation)

pub data Steps (config : RuntimeSupervisorConfig) (self : Shared) : Shared → Type 0 where
  stays : Steps config self self
  moves : {m r : Shared} → Steps config self m → Step config m r → Steps config self r

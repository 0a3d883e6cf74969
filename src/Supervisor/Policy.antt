-- ===== src/Supervisor/Policy.antt =====
-- The restart, back-off and stop policy of runtime_supervisor.rs. Durations are in nanoseconds.
use kanai.Base.{ℕ, ◌-◌, ◌*◌, ◌^◌, min, ◌||◌, ltb, ◌==◌, if◌then◌else◌, Result, ◌>>◌, fail_if}

abbrev pub second : ℕ
second = 1000000000

abbrev pub max_runtime_restarts : ℕ
max_runtime_restarts = 16

abbrev pub max_runtime_backoff : ℕ
max_runtime_backoff = 60 * second

abbrev pub max_stop_confirm_timeout : ℕ
max_stop_confirm_timeout = 300 * second

abbrev pub default_stop_confirm_timeout : ℕ
default_stop_confirm_timeout = 30 * second

pub data RuntimeSupervisorConfigError : Type 0 where
  invalid_restart_limit invalid_backoff invalid_stop_confirm_timeout : RuntimeSupervisorConfigError

pub record RuntimeSupervisorConfig : Type 0 where
  pub max_restarts : ℕ
  pub initial_backoff : ℕ
  pub max_backoff : ℕ
  pub stop_confirm_timeout : ℕ

abbrev pub default_config : RuntimeSupervisorConfig
default_config = record {
  max_restarts = 3;
  initial_backoff = 100 * 1000000;
  max_backoff = 2 * second;
  stop_confirm_timeout = default_stop_confirm_timeout;
}

unfoldable pub validate : RuntimeSupervisorConfig → Result RuntimeSupervisorConfigError (Unit {0})
validate self = do
  fail_if (ltb max_runtime_restarts self.max_restarts) invalid_restart_limit
  fail_if
      (ltb max_runtime_backoff self.initial_backoff
        || (ltb max_runtime_backoff self.max_backoff || ltb self.max_backoff self.initial_backoff))
      invalid_backoff
  fail_if (self.stop_confirm_timeout == 0 || ltb max_stop_confirm_timeout self.stop_confirm_timeout)
      invalid_stop_confirm_timeout

-- `Duration::MAX`
abbrev pub duration_max : ℕ
duration_max = 2 ^ 64 * second - 1

-- `saturating_sub(1)` stops at 0, as subtraction does here.
unfoldable pub delay_for : RuntimeSupervisorConfig → ℕ → ℕ
delay_for self restart_attempt =
    if self.initial_backoff == 0 || self.max_backoff == 0
    then 0
    else min (min (self.initial_backoff * 2 ^ min (restart_attempt - 1) 31) duration_max)
        self.max_backoff

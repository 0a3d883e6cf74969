-- ===== src/Supervisor/Examples.antt =====
-- Tests and examples of the supervisor of runtime_supervisor.rs.
use kanai.Base.{◌≤◌, true, false, none, some, ◌≡◌, refl, arith, ok, err}
use kanai.Supervisor.Policy.{default_config, max_runtime_backoff, validate, delay_for}
use kanai.Supervisor.Lifecycle.{
  start_dropped, publish, started, failed, wait_failed, invalid_state, Shared, new_shared,
  new_supervisor, start, request_stop, stop_graceful, stop_none,
}
use kanai.Supervisor.Exits.{attached, attach_child, finish_start, handle_child_exit, begin_restart}
use kanai.Supervisor.Steps.{Steps, starts, child_starts, child_exits, restarts, stays, moves}
use kanai.Supervisor.Consistent.{IsConsistent}
use kanai.Supervisor.Runs.{new_supervisor-Steps, failed-Steps}
use kanai.Supervisor.Delays.{delay_for_bounds}
use kanai.Supervisor.Stops.{Asked, request_stop-Asked}
use kanai.Supervisor.Crashes.{crashes, after_starts, Runs, Ended, crashes-Ended}

abbrev started_once : Shared
started_once = (start new_shared 1).0

-- A supervisor with a child of the first generation.
abbrev with_child : Shared
with_child = (finish_start started_once 1 7 2).0

-- Its child has exited, and the back-off is over.
abbrev exited : Shared
exited = (handle_child_exit default_config with_child 1 true none 3).0

abbrev restarting : Shared
restarting = (begin_restart exited 1 4).0

made : new_supervisor default_config ≡ ok new_shared
unfolding new_supervisor validate
made = refl

to_child : Steps default_config new_shared with_child
to_child = moves (moves stays (starts 1)) (child_starts 1 7 2)

new_supervisor-Steps_example : IsConsistent 3 restarting
new_supervisor-Steps_example =
    new_supervisor-Steps default_config made
      (moves (moves to_child (child_exits 1 true none 3)) (restarts 1 4))

abbrev cancelled : Shared
cancelled = (request_stop started_once stop_graceful).0

cancelled_failed : cancelled.lifecycle.snapshot.state ≡ failed
unfolding start started publish new_shared request_stop start_dropped
cancelled_failed = refl

abbrev still_cancelled : Shared
still_cancelled = (start cancelled 5).0

failed-Steps_example :
    (still_cancelled.lifecycle.snapshot.state ≡ failed)
    × ((start still_cancelled 6).1 ≡ err (invalid_state failed))
    × ((finish_start still_cancelled 1 7 6).1 ≡ false)
failed-Steps_example = failed-Steps default_config 6 1 7 cancelled_failed (moves stays (starts 5))

valid : validate default_config ≡ ok tt
unfolding validate
valid = refl

delay_for_bounds_example :
    (delay_for default_config 2 ≤ default_config.max_backoff)
    × (delay_for default_config 2 ≤ max_runtime_backoff)
    × (delay_for default_config 2 ≤ delay_for default_config 9)
    × (default_config.initial_backoff ≤ delay_for default_config 2)
delay_for_bounds_example = delay_for_bounds default_config 2 9 valid (omega arith)

doubled : delay_for default_config 3 ≡ 400000000
unfolding delay_for
doubled = refl

child-IsConsistent : IsConsistent 3 with_child
child-IsConsistent = new_supervisor-Steps default_config made to_child

request_stop-Asked_example : Asked with_child stop_graceful (request_stop with_child stop_graceful)
request_stop-Asked_example = request_stop-Asked 3 with_child stop_graceful child-IsConsistent

child-Runs : Runs with_child 0
unfolding start started publish new_shared finish_start attach_child attached
child-Runs = record {
  state = refl;
  undropped = refl;
  active = record { child = 7; child_generation = 1; stop_mode = stop_none; stop_signal = 2 };
  child = refl;
  count = refl;
  newest = refl;
}

crashes-Ended_example :
    Runs (crashes default_config (some wait_failed) 8 9 2 with_child) 2
    × ((crashes default_config (some wait_failed) 8 9 2 with_child).lifecycle.next_generation
        ≡ after_starts 2 with_child.lifecycle.next_generation)
    × Ended default_config
        (some wait_failed)
        8
        9
        (crashes default_config (some wait_failed) 8 9 4 with_child)
crashes-Ended_example =
    crashes-Ended default_config (some wait_failed) 8 9 3 2 with_child 0 refl (omega arith)
      child-Runs

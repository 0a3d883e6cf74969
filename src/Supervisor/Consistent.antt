-- ===== src/Supervisor/Consistent.antt =====
-- The invariant of the lifecycle of runtime_supervisor.rs.
use kanai.Base.{ℕ, ◌≤◌, Bool, true, false, Option, none, some, ◌≡◌}
use kanai.Supervisor.Lifecycle.{
  RuntimeSupervisorState, idle, starting, running, backing_off, stopping, failed, RuntimeFailure,
  Shared,
}
use kanai.Supervisor.Exits.{is_cancel_or_stop}

abbrev pub is_some {ℓ} : {A : Type ℓ} → Option A → Bool
is_some none = false
is_some (some a) = true

-- Which parts of the lifecycle a state has: a child, an owner of the back-off, and a start.
abbrev pub Parts : RuntimeSupervisorState → Bool → Bool → Bool → Type 0
Parts idle child owner start = (child ≡ false) × (owner ≡ false) × (start ≡ false)
Parts starting child owner start = (child ≡ false) × (owner ≡ false) × (start ≡ true)
Parts running child owner start = (child ≡ true) × (owner ≡ false) × (start ≡ false)
Parts backing_off child owner start = (child ≡ false) × (owner ≡ true) × (start ≡ false)
Parts stopping child owner start = (child ≡ true) × (owner ≡ false) × (start ≡ false)
Parts failed child owner start = (owner ≡ false) × (start ≡ false)

-- A failed stop and a cancelled start are errors of the failed state alone.
abbrev pub Terminal : RuntimeSupervisorState → Option RuntimeFailure → Type 0
Terminal failed error = Unit {0}
Terminal _ error = is_cancel_or_stop error ≡ false

pub record IsConsistent (max_restarts : ℕ) (self : Shared) : Type 0 where
  pub sent : self.states ≡ self.lifecycle.snapshot
  pub budget : self.lifecycle.snapshot.automatic_restarts ≤ max_restarts
  pub parts :
      Parts self.lifecycle.snapshot.state
        (is_some self.lifecycle.active)
        (is_some self.lifecycle.backoff_owner)
        (is_some self.lifecycle.starting_generation)
  pub terminal : Terminal self.lifecycle.snapshot.state self.lifecycle.snapshot.last_error

-- ===== src/Supervisor/Delays.antt =====
-- The back-off delays of runtime_supervisor.rs.
use kanai.Base.{ℕ, ◌-◌, ◌*◌, ◌^◌, ◌≤◌, min, ◌||◌, ◌≡◌, ◌==◌, arith, ok, Bool-cases, inl, inr}
use native.Mathlib.Nat.{pow-le-pow_right}
use kanai.Supervisor.Policy.{
  RuntimeSupervisorConfig, max_runtime_backoff, duration_max, validate, delay_for,
}

scaled_mono : (d a b : ℕ) → a ≤ b → d * 2 ^ a ≤ d * 2 ^ b
scaled_mono d a b h = let p : 2 ^ a ≤ 2 ^ b = pow-le-pow_right (omega arith) h in grind arith

scaled-le : (d a : ℕ) → d ≤ d * 2 ^ a
scaled-le d a =
    let z : 0 ≤ a = omega arith in
    let p : 2 ^ 0 ≤ 2 ^ a = pow-le-pow_right (omega arith) z in grind arith

-- The cap of a scaled delay, for two attempts.
capped :
    (d top x y : ℕ)
    → d ≤ top
    → top ≤ max_runtime_backoff
    → d ≤ x
    → x ≤ y
    → (min (min x duration_max) top ≤ top)
      × (min (min x duration_max) top ≤ max_runtime_backoff)
      × (min (min x duration_max) top ≤ min (min y duration_max) top)
      × (d ≤ min (min x duration_max) top)
capped d top x y h k l n = (omega arith, omega arith, omega arith, omega arith)

-- With a configuration that passes `validate`, every delay is at most the configured maximum and so
-- at most 60 seconds; a later attempt never waits for less than an earlier one; and no attempt waits
-- for less than the initial delay.
pub delay_for_bounds :
    (self : RuntimeSupervisorConfig) (attempt later : ℕ)
    → validate self ≡ ok tt
    → attempt ≤ later
    → (delay_for self attempt ≤ self.max_backoff)
      × (delay_for self attempt ≤ max_runtime_backoff)
      × (delay_for self attempt ≤ delay_for self later)
      × (self.initial_backoff ≤ delay_for self attempt)
unfolding delay_for validate
delay_for_bounds self attempt later v h =
    let low : self.initial_backoff ≤ self.max_backoff = ground (arith, v) in
    let high : self.max_backoff ≤ max_runtime_backoff = ground (arith, v) in
    elim (Bool-cases (self.initial_backoff == 0 || self.max_backoff == 0)) [
      | inl e ↦
          let zero_first : self.initial_backoff ≡ 0 = ground (arith, e, low) in
          rw (e, delay_for) (omega arith, omega arith, omega arith, omega (arith, zero_first))
      | inr e ↦
          rw (e, delay_for)
            (capped self.initial_backoff self.max_backoff
              (self.initial_backoff * 2 ^ min (attempt - 1) 31)
              (self.initial_backoff * 2 ^ min (later - 1) 31) low high
              (scaled-le self.initial_backoff (min (attempt - 1) 31))
              (scaled_mono self.initial_backoff (min (attempt - 1) 31) (min (later - 1) 31)
                (omega (arith, h))))
    ]

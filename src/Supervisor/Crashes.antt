-- ===== src/Supervisor/Crashes.antt =====
-- A child of runtime_supervisor.rs that exits again and again while its factory always returns.
use kanai.Base.{
  ℕ, zero, suc, ◌+◌, ◌<◌, ◌≤◌, Bool, true, false, ◌&&◌, not, Option, none, some, ◌≡◌, refl, sym,
  subst, ◌∙◌, ap, ◌==◌, ==_iff, leb, arith, if-cases,
}
use kanai.Supervisor.Policy.{RuntimeSupervisorConfig}
use kanai.Supervisor.Lifecycle.{
  RuntimeProcessError, next_after, running, failed, restart_limit_exceeded, ActiveChild, Shared,
  publish, stop_none,
}
use kanai.Supervisor.Exits.{
  is_failed, is_stopping, owned, attached, attach_child, finish_start, ExitNext, done, backs_off,
  restart_later, handle_child_exit, begin_restart,
}

-- The restart behind a back-off that is over: the factory returns a child at once.
abbrev pub attach_next : Shared × Option ℕ → ℕ → ℕ → Shared
attach_next (self, none) child signal = self
attach_next (self, some generation) child signal = (finish_start self generation child signal).0

abbrev pub after_exit : Shared × ExitNext → ℕ → ℕ → ℕ → Shared
after_exit (self, done) generation child signal = self
after_exit (self, backs_off delay) generation child signal =
    attach_next (begin_restart self generation signal) child signal

-- The child exits, and a new one is attached after the back-off if there is one.
unfoldable pub crash :
    RuntimeSupervisorConfig
    → Option RuntimeProcessError
    → ℕ
    → ℕ
    → Option ActiveChild
    → Shared
    → Shared
crash config cause child signal none self = self
crash config cause child signal (some a) self =
    after_exit (handle_child_exit config self a.child_generation true cause signal)
      a.child_generation child signal

unfoldable pub crashes :
    RuntimeSupervisorConfig → Option RuntimeProcessError → ℕ → ℕ → ℕ → Shared → Shared
crashes config cause child signal zero self = self
crashes config cause child signal (suc n) self =
    crashes config cause child signal n (crash config cause child signal self.lifecycle.active self)

-- A supervisor with a child that nobody stops, after so many restarts.
pub record Runs (self : Shared) (n : ℕ) : Type 0 where
  pub state : self.lifecycle.snapshot.state ≡ running
  pub undropped : self.closed ≡ false
  pub active : ActiveChild
  pub child : self.lifecycle.active ≡ some active
  pub count : self.lifecycle.snapshot.automatic_restarts ≡ n
  pub newest : next_after active.child_generation ≡ self.lifecycle.next_generation

-- The next generation after so many starts.
unfoldable pub after_starts : ℕ → ℕ → ℕ
after_starts zero generation = generation
after_starts (suc n) generation = after_starts n (next_after generation)

module _ (config : RuntimeSupervisorConfig) (cause : Option RuntimeProcessError)
    (child signal : ℕ) where
  same : (n : ℕ) → (n == n) ≡ true
  same n = (==_iff n n).1 refl

  exits_later :
      (self : Shared) (n : ℕ) (r : Runs self n)
      → handle_child_exit config self r.active.child_generation true cause signal
        ≡ restart_later config self r.active.child_generation true cause signal
  unfolding handle_child_exit
  exits_later self n r =
      let owns : owned self.lifecycle.active r.active.child_generation ≡ true =
        rw r.child (same r.active.child_generation) in
      ground (arith, r.undropped, owns, ap is_failed r.state, ap is_stopping r.state)

  crash_later :
      (self : Shared) (n : ℕ) (r : Runs self n)
      → crash config cause child signal self.lifecycle.active self
        ≡ after_exit
            (restart_later config self r.active.child_generation true cause signal)
            r.active.child_generation
            child
            signal
  unfolding crash
  crash_later self n r =
      ap (λ o. crash config cause child signal o self) r.child
      ∙ ap (λ x. after_exit x r.active.child_generation child signal) (exits_later self n r)

  -- The supervisor has a child of the generation behind `generation`, after `n` restarts.
  abbrev Replaced : ℕ → ℕ → Shared → Type 0
  Replaced generation n s = Runs s n × (s.lifecycle.next_generation ≡ next_after generation)

  -- A child that exits below the limit is replaced, and the restart is counted.
  crash-Replaced :
      (self : Shared) (n : ℕ)
      → n < config.max_restarts
      → Runs self n
      → Replaced self.lifecycle.next_generation
          (suc n)
          (crash config cause child signal self.lifecycle.active self)
  unfolding restart_later begin_restart finish_start attach_child attached publish
  crash-Replaced self n h r =
      let g = r.active.child_generation in
      let next = self.lifecycle.next_generation in
      subst (Replaced next (suc n)) (sym (crash_later self n r)) (
        if-cases (λ x. Replaced next (suc n) (after_exit x g child signal))
          (leb config.max_restarts self.lifecycle.snapshot.automatic_restarts) _ _
          (λ e. absurd (ground (arith, e, h, r.count)))
          (λ e.
            if-cases (λ x. Replaced next (suc n) (attach_next x child signal))
              (not self.closed && (true && g == g)) _ _
              (λ f.
                if-cases (λ (x : Shared × Bool). Replaced next (suc n) x.0)
                  (not self.closed && (true && next == next)) _ _
                  (λ k. (
                    record {
                      state = refl;
                      undropped = r.undropped;
                      active = record {
                        child = child;
                        child_generation = next;
                        stop_mode = stop_none;
                        stop_signal = signal;
                      };
                      child = refl;
                      count = omega (arith, r.count);
                      newest = refl;
                    },
                    refl,
                  ))
                  (λ k. absurd (ground (arith, k, r.undropped, same next))))
              (λ f. absurd (ground (arith, f, r.undropped, same g)))))

  abbrev pub Ended : Shared → Type 0
  Ended s =
      (s.lifecycle.snapshot.state ≡ failed)
      × (s.lifecycle.active ≡ none)
      × (s.lifecycle.snapshot.automatic_restarts ≡ config.max_restarts)
      × (s.lifecycle.snapshot.last_error ≡ some (restart_limit_exceeded config.max_restarts cause))

  crash-Ended :
      (self : Shared)
      → Runs self config.max_restarts
      → Ended (crash config cause child signal self.lifecycle.active self)
  unfolding restart_later publish
  crash-Ended self r = subst Ended (sym (crash_later self config.max_restarts r)) (
      if-cases (λ x. Ended (after_exit x r.active.child_generation child signal))
        (leb config.max_restarts self.lifecycle.snapshot.automatic_restarts) _ _
        (λ e. (refl, refl, r.count, refl)) (λ e. absurd (ground (arith, e, r.count))))

  crashes-Runs :
      (k : ℕ) (self : Shared) (n : ℕ)
      → n + k ≤ config.max_restarts
      → Runs self n
      → Runs (crashes config cause child signal k self) (n + k)
        × ((crashes config cause child signal k self).lifecycle.next_generation
            ≡ after_starts k self.lifecycle.next_generation)
  unfolding crashes after_starts
  crashes-Runs zero self n h r = (subst (Runs self) (omega arith) r, refl)
  crashes-Runs (suc k) self n h r =
      let next = crash config cause child signal self.lifecycle.active self in
      let (runs, advanced) = crash-Replaced self n (omega (arith, h)) r in
      let (later, counted) = crashes-Runs k next (suc n) (omega (arith, h)) runs in
      (
        subst (Runs (crashes config cause child signal k next)) (omega arith) later,
        counted ∙ ap (after_starts k) advanced,
      )

  crashes-Ended_after :
      (left : ℕ) (self : Shared) (n : ℕ)
      → n + left ≡ config.max_restarts
      → Runs self n
      → Ended (crashes config cause child signal (suc left) self)
  unfolding crashes
  crashes-Ended_after zero self n h r = crash-Ended self (subst (Runs self) (omega (arith, h)) r)
  crashes-Ended_after (suc left) self n h r =
      crashes-Ended_after left (crash config cause child signal self.lifecycle.active self) (suc n)
        (omega (arith, h)) (crash-Replaced self n (omega (arith, h)) r).0

  -- A child that exits unexpectedly every time, while its factory always returns another, is
  -- replaced exactly as often as the configuration allows. From a supervisor that has restarted `n`
  -- times, after each of the exits that the limit leaves it runs again, with every exit counted and
  -- with a child of the newest generation, one generation later per exit; one exit more, and it has
  -- failed because of the limit, without a child.
  pub crashes-Ended :
      (left k : ℕ) (self : Shared) (n : ℕ)
      → n + left ≡ config.max_restarts
      → k ≤ left
      → Runs self n
      → Runs (crashes config cause child signal k self) (n + k)
        × ((crashes config cause child signal k self).lifecycle.next_generation
            ≡ after_starts k self.lifecycle.next_generation)
        × Ended (crashes config cause child signal (suc left) self)
  crashes-Ended left k self n h few r =
      let (runs, counted) = crashes-Runs k self n (omega (arith, h, few)) r in
      (runs, counted, crashes-Ended_after left self n h r)

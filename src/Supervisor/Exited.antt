-- ===== src/Supervisor/Exited.antt =====
-- Exits and restarts of runtime_supervisor.rs, and the invariant of its lifecycle.
use kanai.Base.{
  ℕ, Bool, true, false, ◌&&◌, not, Option, none, some, ◌≡◌, refl, sym, subst, ◌∙◌, leb, if-cases,
  arith, Bool-cases, inl, inr,
}
use kanai.Supervisor.Policy.{RuntimeSupervisorConfig}
use kanai.Supervisor.Lifecycle.{
  RuntimeProcessError, idle, starting, running, backing_off, stopping, failed, ActiveChild, Shared,
  start, start_dropped, backoff_dropped,
}
use kanai.Supervisor.Exits.{
  is_starting, is_backing_off, is_failed, is_stopping, is_running, names, owned, awaits,
  is_cancel_or_stop, ExitNext, done, cleared, stopped, exit_failure, restart_later, owns_exit,
  handle_child_exit, may_restart, begin_restart, fail_restart, clear_backoff, force_active,
  cancel_start_after_caller_drop,
}
use kanai.Supervisor.Consistent.{is_some, Parts, IsConsistent}
use kanai.Supervisor.Kept.{
  failed_test, backing_off_test, running_test, owned-is_some, with_child, publish-IsConsistent,
  Parts-at, Terminal-at, awaits_starting,
}

exit_failure_plain :
    (first : Bool) (cause : Option RuntimeProcessError)
    → is_cancel_or_stop (some (exit_failure first cause)) ≡ false
unfolding exit_failure
exit_failure_plain true cause = refl
exit_failure_plain false cause = refl

module _ (config : RuntimeSupervisorConfig) (self : Shared)
    (h : IsConsistent config.max_restarts self) where
  restart_later-IsConsistent :
      (generation : ℕ) (first : Bool) (cause : Option RuntimeProcessError) (signal : ℕ)
      → is_some self.lifecycle.starting_generation ≡ false
      → IsConsistent config.max_restarts (restart_later config self generation first cause signal).0
  unfolding restart_later
  restart_later-IsConsistent generation first cause signal start =
      elim (Bool-cases (leb config.max_restarts self.lifecycle.snapshot.automatic_restarts)) [
        | inl e ↦
            rw (e, restart_later)
              (publish-IsConsistent config.max_restarts self _ failed h.budget (refl, start) tt)
        | inr e ↦
            rw (e, restart_later)
              (publish-IsConsistent config.max_restarts self _ backing_off (ground (arith, e))
                (refl, refl, start) (exit_failure_plain first cause))
      ]

  stopped-IsConsistent :
      (error : Option RuntimeProcessError) → IsConsistent config.max_restarts (stopped self error)
  unfolding cleared
  stopped-IsConsistent (some source) =
      publish-IsConsistent config.max_restarts self _ failed h.budget (refl, refl) tt
  stopped-IsConsistent none =
      publish-IsConsistent config.max_restarts self _ idle (omega arith) (refl, refl, refl) refl

  -- A child that exits, or whose back-off it is, has no start.
  no_start :
      (generation : ℕ)
      → owns_exit self.lifecycle generation ≡ true
      → is_some self.lifecycle.starting_generation ≡ false
  no_start generation e = elim (Bool-cases (owned self.lifecycle.active generation)) [
    | inl o ↦
        let (owner, start) =
          with_child self.lifecycle.snapshot.state (is_some self.lifecycle.backoff_owner)
            (is_some self.lifecycle.starting_generation)
            (subst
              (λ c.
                Parts self.lifecycle.snapshot.state c (is_some self.lifecycle.backoff_owner)
                  (is_some self.lifecycle.starting_generation))
              (owned-is_some self.lifecycle.active generation o) h.parts) in
        start
    | inr o ↦
        let (c, owner, start) =
          Parts-at config.max_restarts self h backing_off
            (backing_off_test self.lifecycle.snapshot.state (ground (arith, e, o))) in
        start
  ]

  cleared-IsConsistent :
      self.lifecycle.snapshot.state ≡ failed
      → IsConsistent config.max_restarts (record self { lifecycle = cleared self.lifecycle })
  unfolding cleared
  cleared-IsConsistent e = record {
    sent = h.sent;
    budget = h.budget;
    parts = subst (λ s. Parts s false false false) (sym e) (refl, refl);
    terminal = h.terminal;
  }

  pub handle_child_exit-IsConsistent :
      (generation : ℕ) (first : Bool) (cause : Option RuntimeProcessError) (signal : ℕ)
      → IsConsistent config.max_restarts
          (handle_child_exit config self generation first cause signal).0
  unfolding handle_child_exit
  handle_child_exit-IsConsistent generation first cause signal =
      let Kept : Shared × ExitNext → Type 0 = λ r. IsConsistent config.max_restarts r.0 in
      if-cases Kept self.closed (self, done) _ (λ e. h)
        (λ undropped.
          if-cases Kept (is_failed self.lifecycle.snapshot.state)
            (record self { lifecycle = cleared self.lifecycle }, done) _
            (λ e. cleared-IsConsistent (failed_test self.lifecycle.snapshot.state e))
            (λ alive.
              if-cases Kept (not (owns_exit self.lifecycle generation)) (self, done) _ (λ e. h)
                (λ owns.
                  if-cases Kept (is_stopping self.lifecycle.snapshot.state)
                    (stopped self self.lifecycle.stop_error, done)
                    (restart_later config self generation first cause signal)
                    (λ e. stopped-IsConsistent self.lifecycle.stop_error)
                    (λ e.
                      restart_later-IsConsistent generation first cause signal
                        (no_start generation (ground (arith, owns)))))))

  pub begin_restart-IsConsistent :
      (generation signal : ℕ)
      → IsConsistent config.max_restarts (begin_restart self generation signal).0
  unfolding begin_restart
  begin_restart-IsConsistent generation signal = elim (Bool-cases (may_restart self generation)) [
    | inr e ↦ rw (e, begin_restart) h
    | inl e ↦
        let (c, o, t) =
          Parts-at config.max_restarts self h backing_off
            (backing_off_test self.lifecycle.snapshot.state (ground (arith, e))) in
        rw (e, begin_restart)
          (publish-IsConsistent config.max_restarts self _ starting h.budget (c, refl, refl) refl)
  ]

  pub fail_restart-IsConsistent :
      (generation replacement : ℕ) (source : RuntimeProcessError) (signal : ℕ)
      → IsConsistent config.max_restarts
          (fail_restart config self generation replacement source signal).0
  unfolding fail_restart
  fail_restart-IsConsistent generation replacement source signal =
      elim (Bool-cases (awaits self replacement)) [
        | inr a ↦ rw (a, fail_restart) h
        | inl a ↦
            let (c, o, t) =
              Parts-at config.max_restarts self h starting
                (awaits_starting config.max_restarts self h replacement a) in
            elim (Bool-cases (leb config.max_restarts self.lifecycle.snapshot.automatic_restarts)) [
              | inl e ↦
                  rw (a, e, fail_restart)
                    (publish-IsConsistent config.max_restarts self _ failed h.budget (refl, refl)
                      tt)
              | inr e ↦
                  rw (a, e, fail_restart)
                    (publish-IsConsistent config.max_restarts self _ backing_off h.budget
                      (c, refl, refl) refl)
            ]
      ]

  pub clear_backoff-IsConsistent :
      (generation : ℕ) → IsConsistent config.max_restarts (clear_backoff self generation)
  unfolding clear_backoff backoff_dropped
  clear_backoff-IsConsistent generation =
      elim (Bool-cases (
        names self.lifecycle.backoff_owner generation
        && is_backing_off self.lifecycle.snapshot.state)) [
          | inr e ↦ rw (e, clear_backoff) h
          | inl e ↦
              let (c, o, t) =
                Parts-at config.max_restarts self h backing_off
                  (backing_off_test self.lifecycle.snapshot.state (ground (arith, e))) in
              rw (e, clear_backoff)
                (publish-IsConsistent config.max_restarts self (backoff_dropped self.lifecycle) idle
                  (omega arith) (c, refl, t) refl)
        ]

  force_active-is_some : (o : Option ActiveChild) → is_some (force_active o) ≡ is_some o
  force_active-is_some none = refl
  force_active-is_some (some a) = refl

  pub cancel_start-IsConsistent :
      (generation : ℕ)
      → IsConsistent config.max_restarts (cancel_start_after_caller_drop self generation)
  unfolding cancel_start_after_caller_drop start_dropped
  cancel_start-IsConsistent generation =
      let l = self.lifecycle in
      elim (Bool-cases (is_starting l.snapshot.state && names l.starting_generation generation)) [
        | inl e ↦
            rw (e, cancel_start_after_caller_drop)
              (publish-IsConsistent config.max_restarts self (start_dropped l) failed h.budget
                (refl, refl) tt)
        | inr e ↦ elim (Bool-cases (is_running l.snapshot.state && owned l.active generation)) [
          | inr f ↦ rw (e, f, cancel_start_after_caller_drop) h
          | inl f ↦
              let at = running_test l.snapshot.state (ground (arith, f)) in
              let (c, o, t) = Parts-at config.max_restarts self h running at in
              rw (e, f, cancel_start_after_caller_drop)
                (publish-IsConsistent config.max_restarts self
                  (record l { active = force_active l.active }) stopping h.budget
                  (force_active-is_some l.active ∙ c, o, t)
                  (Terminal-at config.max_restarts self h running at))
        ]
      ]

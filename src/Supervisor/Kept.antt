-- ===== src/Supervisor/Kept.antt =====
-- The steps of runtime_supervisor.rs and the invariant of its lifecycle.
use kanai.Base.{
  ℕ, ◌≤◌, Bool, true, false, ◌||◌, Option, none, some, ◌≡◌, refl, subst, if-cases, arith, Result,
  Bool-cases, inl, inr,
}
use kanai.Supervisor.Lifecycle.{
  RuntimeProcessError, RuntimeSupervisorState, idle, starting, running, backing_off, stopping,
  failed, ActiveChild, Lifecycle, Shared, publish, with_error, started, start_from, start,
  forget_error, stop_active, start_dropped, backoff_dropped, stop_from, upgraded,
}
use kanai.Supervisor.Exits.{
  is_starting, is_backing_off, is_failed, is_running, names, owned, attached, attach_child, awaits,
  finish_start, fail_start, is_cancel_or_stop, stop_late_child, record_stop_error,
}
use kanai.Supervisor.Consistent.{is_some, Parts, Terminal, IsConsistent}

pub starting_test : (s : RuntimeSupervisorState) → is_starting s ≡ true → s ≡ starting
starting_test starting e = refl
starting_test idle e = absurd (ground (arith, e))
starting_test running e = absurd (ground (arith, e))
starting_test backing_off e = absurd (ground (arith, e))
starting_test stopping e = absurd (ground (arith, e))
starting_test failed e = absurd (ground (arith, e))

pub backing_off_test : (s : RuntimeSupervisorState) → is_backing_off s ≡ true → s ≡ backing_off
backing_off_test backing_off e = refl
backing_off_test idle e = absurd (ground (arith, e))
backing_off_test running e = absurd (ground (arith, e))
backing_off_test starting e = absurd (ground (arith, e))
backing_off_test stopping e = absurd (ground (arith, e))
backing_off_test failed e = absurd (ground (arith, e))

pub running_test : (s : RuntimeSupervisorState) → is_running s ≡ true → s ≡ running
running_test running e = refl
running_test idle e = absurd (ground (arith, e))
running_test backing_off e = absurd (ground (arith, e))
running_test starting e = absurd (ground (arith, e))
running_test stopping e = absurd (ground (arith, e))
running_test failed e = absurd (ground (arith, e))

pub failed_test : (s : RuntimeSupervisorState) → is_failed s ≡ true → s ≡ failed
failed_test failed e = refl
failed_test idle e = absurd (ground (arith, e))
failed_test running e = absurd (ground (arith, e))
failed_test backing_off e = absurd (ground (arith, e))
failed_test starting e = absurd (ground (arith, e))
failed_test stopping e = absurd (ground (arith, e))

pub owned-is_some :
    (o : Option ActiveChild) (generation : ℕ) → owned o generation ≡ true → is_some o ≡ true
owned-is_some none generation e = ground (arith, e)
owned-is_some (some a) generation e = refl

-- A state with a child has no back-off and no start.
pub with_child :
    (s : RuntimeSupervisorState) (owner start : Bool)
    → Parts s true owner start
    → (owner ≡ false) × (start ≡ false)
with_child idle owner start (c, o, t) = absurd (ground (arith, c))
with_child starting owner start (c, o, t) = absurd (ground (arith, c))
with_child running owner start (c, o, t) = (o, t)
with_child backing_off owner start (c, o, t) = absurd (ground (arith, c))
with_child stopping owner start (c, o, t) = (o, t)
with_child failed owner start p = p

module _ (m : ℕ) (self : Shared) where
  pub publish-IsConsistent :
      (l : Lifecycle) (s : RuntimeSupervisorState)
      → l.snapshot.automatic_restarts ≤ m
      → Parts s (is_some l.active) (is_some l.backoff_owner) (is_some l.starting_generation)
      → Terminal s l.snapshot.last_error
      → IsConsistent m (publish self l s)
  unfolding publish
  publish-IsConsistent l s b p t = record { sent = refl; budget = b; parts = p; terminal = t }

  forget-IsConsistent :
      (s : RuntimeSupervisorState) (l : Lifecycle)
      → l.snapshot.automatic_restarts ≤ m
      → Parts stopping (is_some l.active) (is_some l.backoff_owner) (is_some l.starting_generation)
      → Terminal s l.snapshot.last_error
      → IsConsistent m (publish self (forget_error s l) stopping)
  forget-IsConsistent stopping l b p t = publish-IsConsistent l stopping b p t
  forget-IsConsistent idle l b p t = publish-IsConsistent (with_error l none) stopping b p refl
  forget-IsConsistent starting l b p t = publish-IsConsistent (with_error l none) stopping b p refl
  forget-IsConsistent running l b p t = publish-IsConsistent (with_error l none) stopping b p refl
  forget-IsConsistent backing_off l b p t =
      publish-IsConsistent (with_error l none) stopping b p refl
  forget-IsConsistent failed l b p t = publish-IsConsistent (with_error l none) stopping b p refl

  module _ (h : IsConsistent m self) where
    -- The parts and the error of a known state.
    pub Parts-at :
        (s : RuntimeSupervisorState)
        → self.lifecycle.snapshot.state ≡ s
        → Parts s
            (is_some self.lifecycle.active)
            (is_some self.lifecycle.backoff_owner)
            (is_some self.lifecycle.starting_generation)
    Parts-at s e =
        subst
          (λ t.
            Parts t (is_some self.lifecycle.active) (is_some self.lifecycle.backoff_owner)
              (is_some self.lifecycle.starting_generation))
          e h.parts

    pub Terminal-at :
        (s : RuntimeSupervisorState)
        → self.lifecycle.snapshot.state ≡ s
        → Terminal s self.lifecycle.snapshot.last_error
    Terminal-at s e = subst (λ t. Terminal t self.lifecycle.snapshot.last_error) e h.terminal

    pub start_from-IsConsistent :
        (s : RuntimeSupervisorState) (signal : ℕ) → IsConsistent m (start_from s self signal).0
    unfolding started
    start_from-IsConsistent idle signal =
        publish-IsConsistent (started self.lifecycle signal) starting (omega arith)
          (refl, refl, refl) refl
    start_from-IsConsistent starting signal = h
    start_from-IsConsistent running signal = h
    start_from-IsConsistent backing_off signal = h
    start_from-IsConsistent stopping signal = h
    start_from-IsConsistent failed signal = h

    stop_active-IsConsistent :
        (o : Option ActiveChild) (requested : ℕ)
        → is_some self.lifecycle.backoff_owner ≡ false
        → is_some self.lifecycle.starting_generation ≡ false
        → IsConsistent m (stop_active o self requested).0
    stop_active-IsConsistent none requested owner start = h
    stop_active-IsConsistent (some a) requested owner start =
        let child : ActiveChild = record a { stop_mode = upgraded requested a.stop_mode } in
        let l : Lifecycle = record (self.lifecycle) { active = some child } in
        forget-IsConsistent self.lifecycle.snapshot.state l h.budget (refl, owner, start) h.terminal

    pub stop_from-IsConsistent :
        (s : RuntimeSupervisorState) (requested : ℕ)
        → self.lifecycle.snapshot.state ≡ s
        → IsConsistent m (stop_from s self requested).0
    unfolding start_dropped backoff_dropped
    stop_from-IsConsistent idle requested e = h
    stop_from-IsConsistent failed requested e = h
    stop_from-IsConsistent starting requested e =
        publish-IsConsistent (start_dropped self.lifecycle) failed h.budget (refl, refl) tt
    stop_from-IsConsistent backing_off requested e =
        let (c, o, t) = Parts-at backing_off e in
        publish-IsConsistent (backoff_dropped self.lifecycle) idle (omega arith) (c, refl, t) refl
    stop_from-IsConsistent running requested e =
        let (c, o, t) = Parts-at running e in
        stop_active-IsConsistent self.lifecycle.active requested o t
    stop_from-IsConsistent stopping requested e =
        let (c, o, t) = Parts-at stopping e in
        stop_active-IsConsistent self.lifecycle.active requested o t

    -- A start that is awaited is under way.
    pub awaits_starting :
        (generation : ℕ) → awaits self generation ≡ true → self.lifecycle.snapshot.state ≡ starting
    awaits_starting generation e = starting_test self.lifecycle.snapshot.state (ground (arith, e))

    pub finish_start-IsConsistent :
        (generation child signal : ℕ) → IsConsistent m (finish_start self generation child signal).0
    unfolding finish_start attach_child attached
    finish_start-IsConsistent generation child signal = elim (Bool-cases (awaits self generation)) [
      | inr e ↦ rw (e, finish_start) h
      | inl e ↦
          rw (e, finish_start)
            (publish-IsConsistent (attached self.lifecycle generation child signal) running h.budget
              (refl, refl, refl) (Terminal-at starting (awaits_starting generation e)))
    ]

    pub fail_start-IsConsistent :
        (generation : ℕ) (source : RuntimeProcessError)
        → IsConsistent m (fail_start self generation source).0
    unfolding fail_start
    fail_start-IsConsistent generation source = elim (Bool-cases (awaits self generation)) [
      | inr e ↦ rw (e, fail_start) h
      | inl e ↦
          let (c, o, t) = Parts-at starting (awaits_starting generation e) in
          rw (e, fail_start) (publish-IsConsistent _ failed h.budget (o, refl) tt)
    ]

    pub stop_late_child-IsConsistent :
        (generation : ℕ) (result : Result RuntimeProcessError (Unit {0}))
        → IsConsistent m (stop_late_child self generation result)
    unfolding stop_late_child
    stop_late_child-IsConsistent generation result =
        if-cases (IsConsistent m)
          (names self.lifecycle.starting_generation generation
            || is_cancel_or_stop self.lifecycle.snapshot.last_error)
          _ self (λ e. publish-IsConsistent _ failed h.budget (refl, refl) tt) (λ e. h)

    pub record_stop_error-IsConsistent :
        (generation : ℕ) (error : RuntimeProcessError)
        → IsConsistent m (record_stop_error self generation error)
    unfolding record_stop_error
    record_stop_error-IsConsistent generation error =
        elim (Bool-cases (owned self.lifecycle.active generation)) [
          | inr e ↦ rw (e, record_stop_error) h
          | inl e ↦
              let (o, t) =
                with_child self.lifecycle.snapshot.state (is_some self.lifecycle.backoff_owner)
                  (is_some self.lifecycle.starting_generation)
                  (subst
                    (λ c.
                      Parts self.lifecycle.snapshot.state c (is_some self.lifecycle.backoff_owner)
                        (is_some self.lifecycle.starting_generation))
                    (owned-is_some self.lifecycle.active generation e) h.parts) in
              rw (e, record_stop_error) (publish-IsConsistent _ failed h.budget (o, t) tt)
        ]

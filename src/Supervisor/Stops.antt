-- ===== src/Supervisor/Stops.antt =====
-- What a request to stop leaves behind in runtime_supervisor.rs.
use kanai.Base.{◌≢◌, ℕ, true, Option, none, some, ◌≡◌, ◌⊎◌, inl, inr, refl, arith, ok}
use kanai.Supervisor.Lifecycle.{
  RuntimeSupervisorState, idle, starting, running, backing_off, stopping, failed, ActiveChild,
  Lifecycle, Shared, publish, forget_error, StopNext, start_cancelled, start_dropped,
  backoff_dropped, stop_graceful, returns, waits, upgraded, stop_force, stop_active, stop_from,
  request_stop,
}
use kanai.Supervisor.Consistent.{is_some, IsConsistent}
use kanai.Supervisor.Kept.{Parts-at}

-- The mode of a stop is raised to the one that is asked for, and never lowered.
pub record IsRaised (requested earlier mode : ℕ) : Type 0 where
  pub force : requested ≡ stop_force → mode ≡ stop_force
  pub kept : earlier ≡ stop_force → mode ≡ stop_force
  pub graceful : requested ≡ stop_graceful → earlier ≢ stop_force → mode ≡ stop_graceful

-- The child of before, told to stop in the raised mode, and nothing else of it changed.
abbrev pub IsTold : ℕ → ActiveChild → ActiveChild → Type 0
IsTold requested before child =
    (child ≡ record before { stop_mode = child.stop_mode })
    × IsRaised requested before.stop_mode child.stop_mode

-- A request that finds no child to wait for has returned without an error: a supervisor that is idle
-- or failed is left as it was (also one that failed with its child still attached), a start is
-- cancelled, a back-off is dropped. A request that finds a running or stopping child waits, with that
-- child told to stop.
abbrev pub Asked : Shared → ℕ → Shared × StopNext → Type 0
Asked self requested answer =
    ((woken : Option ℕ) × (answer.1 ≡ returns (ok tt) woken)
      × (((answer.0 ≡ self)
            × ((self.lifecycle.snapshot.state ≡ idle) ⊎ (self.lifecycle.snapshot.state ≡ failed)))
          ⊎ (((self.lifecycle.snapshot.state ≡ starting)
                × (answer.0.lifecycle.snapshot.state ≡ failed)
                × (answer.0.lifecycle.snapshot.last_error ≡ some start_cancelled)
                × (answer.0.lifecycle.starting_generation ≡ none))
              ⊎ ((self.lifecycle.snapshot.state ≡ backing_off)
                  × (answer.0.lifecycle.snapshot.state ≡ idle)
                  × (answer.0.lifecycle.snapshot.automatic_restarts ≡ 0)
                  × (answer.0.lifecycle.backoff_owner ≡ none)))))
    ⊎ ((before : ActiveChild) × (child : ActiveChild) × ((self.lifecycle.snapshot.state ≡ running)
          ⊎ (self.lifecycle.snapshot.state ≡ stopping))
        × (self.lifecycle.active ≡ some before)
        × (answer.1 ≡ waits before.stop_signal)
        × (answer.0.lifecycle.active ≡ some child)
        × (answer.0.lifecycle.snapshot.state ≡ stopping)
        × IsTold requested before child)

upgraded-IsRaised :
    (requested current : ℕ) → IsRaised requested current (upgraded requested current)
upgraded-IsRaised requested current = record {
  force = λ e. ground (arith, e);
  kept = λ e. ground (arith, e);
  graceful = λ e k. ground (arith, e, k);
}

module _ (m : ℕ) (self : Shared) (requested : ℕ) where
  kept_child : (s : RuntimeSupervisorState) (l : Lifecycle) → (forget_error s l).active ≡ l.active
  kept_child stopping l = refl
  kept_child idle l = refl
  kept_child starting l = refl
  kept_child running l = refl
  kept_child backing_off l = refl
  kept_child failed l = refl

  stop_active-Asked :
      (o : Option ActiveChild)
      → is_some o ≡ true
      → self.lifecycle.active ≡ o
      → (self.lifecycle.snapshot.state ≡ running) ⊎ (self.lifecycle.snapshot.state ≡ stopping)
      → Asked self requested (stop_active o self requested)
  unfolding publish
  stop_active-Asked none e same live = absurd (ground (arith, e))
  stop_active-Asked (some a) e same live =
      let child : ActiveChild = record a { stop_mode = upgraded requested a.stop_mode } in
      inr (
        a,
        child,
        live,
        same,
        refl,
        kept_child self.lifecycle.snapshot.state (record (self.lifecycle) { active = some child }),
        refl,
        (refl, upgraded-IsRaised requested a.stop_mode),
      )

  stop_from-Asked :
      (s : RuntimeSupervisorState)
      → IsConsistent m self
      → self.lifecycle.snapshot.state ≡ s
      → Asked self requested (stop_from s self requested)
  unfolding publish start_dropped backoff_dropped
  stop_from-Asked idle h e = inl (none, refl, inl (refl, inl e))
  stop_from-Asked failed h e = inl (none, refl, inl (refl, inr e))
  stop_from-Asked starting h e =
      inl (self.lifecycle.start_signal, refl, inr (inl (e, refl, refl, refl)))
  stop_from-Asked backing_off h e =
      inl (self.lifecycle.backoff_signal, refl, inr (inr (e, refl, refl, refl)))
  stop_from-Asked running h e =
      let (c, o, t) = Parts-at m self h running e in
      stop_active-Asked self.lifecycle.active c refl (inl e)
  stop_from-Asked stopping h e =
      let (c, o, t) = Parts-at m self h stopping e in
      stop_active-Asked self.lifecycle.active c refl (inr e)

  -- In a consistent state, a request to stop never finds its child missing. When the supervisor is
  -- running or stopping, the request waits, the supervisor is stopping, and the child's stop mode is
  -- raised to the requested one: a graceful stop to a forced one, never back, and nothing else of
  -- the child changes. Otherwise it returns successfully: a start is cancelled and leaves a failed
  -- supervisor, a back-off is dropped and leaves an idle one with no restarts counted, and a
  -- supervisor that is idle or has failed stays exactly as it was.
  pub request_stop-Asked : IsConsistent m self → Asked self requested (request_stop self requested)
  unfolding request_stop
  request_stop-Asked h = stop_from-Asked self.lifecycle.snapshot.state h refl

-- ===== src/Session/Isolation/Starts.antt =====
-- The parts of the operations of session.rs before the backend is awaited, and the entries of
-- other sessions.
use kanai.Base.{
  ℕ, ◌==◌, Bool, true, false, Option, none, some, ◌≡◌, lookup, inl, inr, Bool-cases, Option-cases,
  Result-cases, ok, err,
}
use kanai.Protocol.Requests.{CancelRequest, FocusLostRequest}
use kanai.Session.State.{SessionBroker, SessionEntry, write, register, cancel_request}
use kanai.Session.Begin.{
  Phase, begin_state_change, begin_cancel, begin_operation, begin_cancel_operation,
  begin_focus_lost, next_generation, next_after_cancel, registered, finish_on_error, after_cancel,
  cancel_target, deactivate_on_ok, release, remove_if_same,
}
use kanai.Session.Isolation.{Holds, write-Holds, remove-Holds}

module _ (e : SessionEntry) (x id : ℕ) where
  pub register-Holds : (b : SessionBroker) (r : ℕ) → Holds e x id b → Holds e x id (register b r).0
  unfolding register
  register-Holds b r h = elim (Option-cases (lookup r b.cancellations)) [
    | inl f ↦ rw (f, register) h
    | inr (t, f) ↦ rw (f, register) h
  ]

  cancel_target-Holds :
      (target : Option ℕ) (b : SessionBroker)
      → Holds e x id b
      → Holds e x id (cancel_target target b)
  unfolding cancel_request
  cancel_target-Holds none b h = h
  cancel_target-Holds (some r) b h = elim (Option-cases (lookup r b.cancellations)) [
    | inl f ↦ rw (f, cancel_target, cancel_request) h
    | inr (t, f) ↦ rw (f, cancel_target, cancel_request) h
  ]

  begin_state_change-Holds :
      (b : SessionBroker) (r j a g : ℕ)
      → a == x ≡ false
      → Holds e x id b
      → Holds e x id (begin_state_change b r j a g).0
  unfolding begin_state_change
  begin_state_change-Holds b r j a g other h = elim (Result-cases (next_generation b r j a g)) [
    | inl (n, f) ↦ rw (f, begin_state_change) (write-Holds e x id b a _ other h)
    | inr (y, f) ↦ rw (f, begin_state_change) h
  ]

  begin_cancel-Holds :
      (b : SessionBroker) (r j a : ℕ) (g : Option ℕ)
      → a == x ≡ false
      → Holds e x id b
      → Holds e x id (begin_cancel b r j a g).0
  unfolding begin_cancel
  begin_cancel-Holds b r j a g other h = elim (Result-cases (next_after_cancel b r j a g)) [
    | inl (n, f) ↦ rw (f, begin_cancel) (write-Holds e x id b a _ other h)
    | inr (y, f) ↦ rw (f, begin_cancel) h
  ]

  finish_on_error-Holds :
      (p : Phase ℕ) (r : ℕ) → Holds e x id p.0 → Holds e x id (finish_on_error p r).0
  finish_on_error-Holds (c, ok n) r h = h
  finish_on_error-Holds (c, err y) r h = h

  after_cancel-Holds :
      (target : Option ℕ) (p : Phase ℕ) → Holds e x id p.0 → Holds e x id (after_cancel target p).0
  after_cancel-Holds target (c, ok n) h = cancel_target-Holds target c h
  after_cancel-Holds target (c, err y) h = h

  registered-Holds :
      (p : SessionBroker × Bool) (r : ℕ) (next : SessionBroker → Phase ℕ)
      → Holds e x id p.0
      → ((c : SessionBroker) → Holds e x id c → Holds e x id (next c).0)
      → Holds e x id (registered p r next).0
  registered-Holds (c, true) r next h k = k c h
  registered-Holds (c, false) r next h k = h

  pub begin_operation-Holds :
      (b : SessionBroker) (r j a g : ℕ)
      → a == x ≡ false
      → Holds e x id b
      → Holds e x id (begin_operation b r j a g).0
  unfolding begin_operation
  begin_operation-Holds b r j a g other h =
      registered-Holds (register b r) r (λ c. finish_on_error (begin_state_change c r j a g) r)
        (register-Holds b r h)
        (λ c k.
          finish_on_error-Holds (begin_state_change c r j a g) r
            (begin_state_change-Holds c r j a g other k))

  pub begin_cancel_operation-Holds :
      (b : SessionBroker) (r a : ℕ) (c : CancelRequest)
      → a == x ≡ false
      → Holds e x id b
      → Holds e x id (begin_cancel_operation b r a c).0
  unfolding begin_cancel_operation
  begin_cancel_operation-Holds b r a c other h =
      let p =
        λ (d : SessionBroker). finish_on_error (begin_cancel d r c.session_id a c.generation) r in
      registered-Holds (register b r) r (λ d. after_cancel c.target_request_id (p d))
        (register-Holds b r h)
        (λ d k. after_cancel-Holds c.target_request_id (p d) (
          finish_on_error-Holds (begin_cancel d r c.session_id a c.generation) r
            (begin_cancel-Holds d r c.session_id a c.generation other k)))

  deactivate_on_ok-Holds :
      (a : ℕ) (p : Phase ℕ)
      → a == x ≡ false
      → Holds e x id p.0
      → Holds e x id (deactivate_on_ok a p).0
  deactivate_on_ok-Holds a (c, ok n) other h = write-Holds e x id c a _ other h
  deactivate_on_ok-Holds a (c, err y) other h = h

  release-Holds :
      (b : SessionBroker) (j a : ℕ)
      → j == id ≡ false
      → a == x ≡ false
      → Holds e x id b
      → Holds e x id (release b j a)
  unfolding release
  release-Holds b j a away other h =
      let c = write b a (record (b.store a) { active = false }) in
      let k = write-Holds e x id b a (record (b.store a) { active = false }) other h in
      elim (Option-cases (lookup j b.sessions)) [
        | inl f ↦ rw (f, remove_if_same) k
        | inr (d, f) ↦ elim (Bool-cases (d == a)) [
          | inl g ↦ rw (f, g, remove_if_same) (remove-Holds e x id c j away k)
          | inr g ↦ rw (f, g, remove_if_same) k
        ]
      ]

  pub begin_focus_lost-Holds :
      (b : SessionBroker) (r a : ℕ) (c : FocusLostRequest)
      → c.session_id == id ≡ false
      → a == x ≡ false
      → Holds e x id b
      → Holds e x id (begin_focus_lost b r a c).0
  unfolding begin_focus_lost
  begin_focus_lost-Holds b r a c away other h = elim (Bool-cases (b.store a).rerank_only) [
    | inr f ↦
        rw (f, begin_focus_lost)
          (deactivate_on_ok-Holds a (begin_operation b r c.session_id a c.generation) other
            (begin_operation-Holds b r c.session_id a c.generation other h))
    | inl f ↦ elim (Bool-cases ((b.store a).clock == c.generation)) [
      | inl g ↦ rw (f, g, begin_focus_lost) (release-Holds b c.session_id a away other h)
      | inr g ↦ rw (f, g, begin_focus_lost) h
    ]
  ]

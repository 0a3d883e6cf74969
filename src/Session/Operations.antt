-- ===== src/Session/Operations.antt =====
-- The writes of the operations of session.rs before the backend is awaited.
use kanai.Base.{
  ℕ, Bool, true, false, Option, none, some, List, [], map, ◌≡◌, refl, length, lookup, contains, ok,
  err, inl, inr, Bool-cases, Option-cases, Result-cases, arith, ◌==◌, ltb, leb,
}
use kanai.Protocol.Requests.{
  CancelRequest, FocusLostRequest, CreateSessionRequest, PrepareRerankSessionRequest,
}
use kanai.Session.State.{
  SessionBroker, invalidate_all_sessions, write, register, finish, cancel_request, new_entry,
  new_rerank_only,
}
use kanai.Session.Begin.{
  Phase, begin_state_change, begin_cancel, begin_operation, begin_cancel_operation, next_generation,
  next_after_cancel, registered, finish_on_error, after_cancel, deactivate_on_ok, remove_if_same,
  release, begin_focus_lost,
}
use kanai.Session.Create.{
  register_created, register_inserted, insert_created, insert_prepared, begin_create, prepare_entry,
  prepare_locked, prepare_registered, adopt_generation, adopted, field_class_eq,
}
use kanai.Session.Changes.{
  Change, registers, advances, activates, inserts, removes, drains, deactivates, tombstones,
  Changes, done, more,
}

pub one : {late : List ℕ} {b c : SessionBroker} → Change late b c → Changes late b c
one s = more done s

pub append :
    {late : List ℕ} {b m c : SessionBroker} → Changes late b m → Changes late m c → Changes late b c
append p done = p
append p (more q s) = more (append p q) s

-- When the backend is lost.
pub invalidate_all_sessions-Changes : (b : SessionBroker) → Changes [] b (invalidate_all_sessions b)
unfolding invalidate_all_sessions
invalidate_all_sessions-Changes b =
    more (more (one drains) (deactivates b.sessions)) (tombstones (map (λ s. s.0) b.sessions))

pub register-Changes : (b : SessionBroker) (r : ℕ) → Changes [] b (register b r).0
unfolding register
register-Changes b r = elim (Option-cases (lookup r b.cancellations)) [
  | inl e ↦ rw (e, register) (one (registers _))
  | inr (t, e) ↦ rw (e, register) done
]

begin_state_change-Changes :
    (b : SessionBroker) (r id a g : ℕ) → Changes [] b (begin_state_change b r id a g).0
unfolding begin_state_change
begin_state_change-Changes b r id a g = elim (Result-cases (next_generation b r id a g)) [
  | inl (n, e) ↦ rw (e, begin_state_change) (one (advances a n))
  | inr (x, e) ↦ rw (e, begin_state_change) done
]

begin_cancel-Changes :
    (b : SessionBroker) (r id a : ℕ) (g : Option ℕ) → Changes [] b (begin_cancel b r id a g).0
unfolding begin_cancel
begin_cancel-Changes b r id a g = elim (Result-cases (next_after_cancel b r id a g)) [
  | inl (n, e) ↦ rw (e, begin_cancel) (one (advances a n))
  | inr (x, e) ↦ rw (e, begin_cancel) done
]

finish_on_error-Changes {ℓ} :
    {A : Type ℓ} (b : SessionBroker) (p : Phase A) (r : ℕ)
    → Changes [] b p.0
    → Changes [] b (finish_on_error p r).0
finish_on_error-Changes b (c, ok a) r h = h
finish_on_error-Changes b (c, err x) r h = more h (registers _)

registered-Changes {ℓ} :
    {A : Type ℓ} (b : SessionBroker) (p : SessionBroker × Bool) (r : ℕ)
    (next : SessionBroker → Phase A)
    → Changes [] b p.0
    → ((c : SessionBroker) → Changes [] c (next c).0)
    → Changes [] b (registered p r next).0
registered-Changes b (c, true) r next h k = append h (k c)
registered-Changes b (c, false) r next h k = h

pub begin_operation-Changes :
    (b : SessionBroker) (r id a g : ℕ) → Changes [] b (begin_operation b r id a g).0
unfolding begin_operation
begin_operation-Changes b r id a g =
    registered-Changes b (register b r) r _ (register-Changes b r) (λ c.
      finish_on_error-Changes c (begin_state_change c r id a g) r
        (begin_state_change-Changes c r id a g))

pub cancel_request-Changes : (b : SessionBroker) (r : ℕ) → Changes [] b (cancel_request b r).0
unfolding cancel_request
cancel_request-Changes b r = elim (Option-cases (lookup r b.cancellations)) [
  | inl e ↦ rw (e, cancel_request) done
  | inr (t, e) ↦ rw (e, cancel_request) (one (registers _))
]

after_cancel-Changes :
    (b : SessionBroker) (target : Option ℕ) (p : Phase ℕ)
    → Changes [] b p.0
    → Changes [] b (after_cancel target p).0
after_cancel-Changes b none (c, ok n) h = h
after_cancel-Changes b (some target) (c, ok n) h = append h (cancel_request-Changes c target)
after_cancel-Changes b target (c, err x) h = h

deactivate_on_ok-Changes :
    (b : SessionBroker) (a : ℕ) (p : Phase ℕ)
    → Changes [] b p.0
    → Changes [] b (deactivate_on_ok a p).0
deactivate_on_ok-Changes b a (c, ok n) h = more h (activates a false)
deactivate_on_ok-Changes b a (c, err x) h = h

pub begin_cancel_operation-Changes :
    (b : SessionBroker) (r a : ℕ) (command : CancelRequest)
    → Changes [] b (begin_cancel_operation b r a command).0
unfolding begin_cancel_operation
begin_cancel_operation-Changes b r a command =
    registered-Changes b (register b r) r _ (register-Changes b r) λ c.
      let p = finish_on_error (begin_cancel c r command.session_id a command.generation) r in
      let h =
        finish_on_error-Changes c (begin_cancel c r command.session_id a command.generation) r
          (begin_cancel-Changes c r command.session_id a command.generation) in
      after_cancel-Changes c command.target_request_id p h

remove_if_same-Changes : (b : SessionBroker) (id a : ℕ) → Changes [] b (remove_if_same b id a)
remove_if_same-Changes b id a = elim (Option-cases (lookup id b.sessions)) [
  | inl e ↦ rw (e, remove_if_same) done
  | inr (c, e) ↦ elim (Bool-cases (c == a)) [
    | inl f ↦ rw (e, f, remove_if_same) (one (removes id))
    | inr f ↦ rw (e, f, remove_if_same) done
  ]
]

release-Changes : (b : SessionBroker) (id a : ℕ) → Changes [] b (release b id a)
unfolding release
release-Changes b id a =
    append (one (activates a false))
      (remove_if_same-Changes (write b a (record (b.store a) { active = false })) id a)

pub begin_focus_lost-Changes :
    (b : SessionBroker) (r a : ℕ) (command : FocusLostRequest)
    → Changes [] b (begin_focus_lost b r a command).0
unfolding begin_focus_lost
begin_focus_lost-Changes b r a command = elim (Bool-cases (b.store a).rerank_only) [
  | inl e ↦ elim (Bool-cases ((b.store a).clock == command.generation)) [
    | inr f ↦ rw (e, f, begin_focus_lost) done
    | inl f ↦ rw (e, f, begin_focus_lost) (release-Changes b command.session_id a)
  ]
  | inr e ↦
      rw (e, begin_focus_lost)
        (deactivate_on_ok-Changes b a (begin_operation b r command.session_id a command.generation)
          (begin_operation-Changes b r command.session_id a command.generation))
]

pub register_created-Changes :
    (b : SessionBroker) (p : SessionBroker × Bool) (r id a : ℕ)
    → Changes [] b p.0
    → Changes [] b (register_created p r id a).0
register_created-Changes b (c, true) r id a h = h
register_created-Changes b (c, false) r id a h = more h (removes id)

-- An id may be inserted that is not tombstoned, or whose request tested the tombstones earlier.
abbrev pub MayInsert : List ℕ → ℕ → SessionBroker → Type 0
MayInsert late id b = contains id late ≡ false → contains id b.invalidated ≡ false

pub insert_created-Changes :
    (late : List ℕ) (b : SessionBroker) (r : ℕ) (command : CreateSessionRequest)
    → MayInsert late command.session_id b
    → Changes late b (insert_created b r command).0
insert_created-Changes late b r command may =
    elim (Option-cases (lookup command.session_id b.sessions)) [
      | inr (a, f) ↦ rw (f, insert_created) done
      | inl f ↦ elim (Bool-cases (leb b.config.max_sessions (length b.sessions))) [
        | inl g ↦ rw (f, g, insert_created) done
        | inr g ↦
            rw (f, g, insert_created)
              (one (
                inserts command.session_id (new_entry command.field_class) may f (ground arith)
                  refl))
      ]
    ]

register_inserted-Changes :
    (b : SessionBroker) (p : Phase ℕ) (r id : ℕ)
    → Changes [] b p.0
    → Changes [] b (register_inserted p r id).0
register_inserted-Changes b (c, ok a) r id h =
    append h (register_created-Changes c (register c r) r id a (register-Changes c r))
register_inserted-Changes b (c, err x) r id h = h

pub begin_create-Changes :
    (b : SessionBroker) (r : ℕ) (command : CreateSessionRequest)
    → Changes [] b (begin_create b r command).0
unfolding begin_create
begin_create-Changes b r command = elim (Bool-cases (contains command.session_id b.invalidated)) [
  | inl e ↦ rw (e, begin_create) done
  | inr e ↦
      rw (e, begin_create)
        (register_inserted-Changes b (insert_created b r command) r command.session_id
          (insert_created-Changes [] b r command (λ k. e)))
]

pub insert_prepared-Changes :
    (late : List ℕ) (b : SessionBroker) (r : ℕ) (command : PrepareRerankSessionRequest)
    → MayInsert late command.session_id b
    → Changes late b (insert_prepared b r command).0
insert_prepared-Changes late b r command may =
    elim (Option-cases (lookup command.session_id b.sessions)) [
      | inr (a, f) ↦ rw (f, insert_prepared) done
      | inl f ↦ elim (Bool-cases (leb b.config.max_sessions (length b.sessions))) [
        | inl g ↦ rw (f, g, insert_prepared) done
        | inr g ↦
            rw (f, g, insert_prepared)
              (one (
                inserts command.session_id (new_rerank_only command.field_class) may f
                  (ground arith) refl))
      ]
    ]

pub prepare_entry-Changes :
    (b : SessionBroker) (r : ℕ) (command : PrepareRerankSessionRequest)
    → Changes [] b (prepare_entry b r command).0
unfolding prepare_entry
prepare_entry-Changes b r command = elim (Bool-cases (contains command.session_id b.invalidated)) [
  | inl e ↦ rw (e, prepare_entry) done
  | inr e ↦ rw (e, prepare_entry) (insert_prepared-Changes [] b r command (λ k. e))
]

adopted-Changes : (b : SessionBroker) (a g : ℕ) → Changes [] b (adopted b a g)
unfolding adopted
adopted-Changes b a g = elim (Bool-cases (ltb (b.store a).clock g)) [
  | inl e ↦ rw (e, adopted) (more (one (advances a g)) (activates a true))
  | inr e ↦ rw (e, adopted) done
]

adopt_generation-Changes :
    (b : SessionBroker) (r a : ℕ) (command : PrepareRerankSessionRequest)
    → Changes [] b (adopt_generation b r a command).0
unfolding adopt_generation
adopt_generation-Changes b r a command =
    elim (Bool-cases (ltb command.generation (b.store a).clock)) [
      | inl e ↦ rw (e, adopt_generation) done
      | inr e ↦ rw (e, adopt_generation) (adopted-Changes b a command.generation)
    ]

prepare_registered-Changes :
    (b : SessionBroker) (p : SessionBroker × Bool) (r a : ℕ) (command : PrepareRerankSessionRequest)
    → Changes [] b p.0
    → Changes [] b (prepare_registered p r a command).0
prepare_registered-Changes b (c, true) r a command h =
    append (more h (registers _)) (adopt_generation-Changes (finish c r) r a command)
prepare_registered-Changes b (c, false) r a command h = h

pub prepare_locked-Changes :
    (b : SessionBroker) (r a : ℕ) (command : PrepareRerankSessionRequest)
    → Changes [] b (prepare_locked b r a command).0
unfolding prepare_locked
prepare_locked-Changes b r a command = elim (Bool-cases (b.store a).rerank_only) [
  | inr e ↦ rw (e, prepare_locked) done
  | inl e ↦ elim (Bool-cases (field_class_eq (b.store a).field_class command.field_class)) [
    | inr f ↦ rw (e, f, prepare_locked) done
    | inl f ↦
        rw (e, f, prepare_locked)
          (prepare_registered-Changes b (register b r) r a command (register-Changes b r))
  ]
]

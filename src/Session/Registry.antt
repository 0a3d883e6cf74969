-- ===== src/Session/Registry.antt =====
-- The cancellation registry of broker.rs under the requests of session.rs: what registers a
-- request.
pub mod Ends
pub mod Creation
pub mod Requests
use kanai.Base.{
  ℕ, ◌==◌, ==_iff, Bool, true, false, Option, none, some, List, ◌≡◌, refl, sym, ap, ◌∙◌, lookup,
  lookup-insert, lookup-remove, insert, remove, ◌⊎◌, inl, inr, Bool-cases, Option-cases,
  Result-cases, arith, if◌then◌else◌, Result, ok, err,
}
use kanai.Protocol.Requests.{CancelRequest}
use kanai.Session.State.{SessionBroker, register, finish, cancel_request}
use kanai.Session.Begin.{
  Phase, begin_cancel, next_after_cancel, begin_operation, begin_cancel_operation, registered,
  finish_on_error, after_cancel, cancel_target, deactivate_on_ok, advance,
}
use kanai.Session.Beginnings.{
  active_with, register_absent, remove-insert, Begins, began, refused, begin_operation-Begins,
}

abbrev pub is_some : Option Bool → Bool
is_some none = false
is_some (some token) = true

-- The request is active: its registration has not been finished.
abbrev pub is_active : ℕ → List (ℕ × Bool) → Bool
is_active j requests = is_some (lookup j requests)

-- The same requests are active.
abbrev pub Alike : SessionBroker → SessionBroker → Type 0
Alike b c = (j : ℕ) → is_active j c.cancellations ≡ is_active j b.cancellations

-- The request `r` is active besides the others, and was not before.
abbrev pub Entered : SessionBroker → ℕ → SessionBroker → Type 0
Entered b r c =
    (lookup r b.cancellations ≡ none)
    × ((j : ℕ)
        → is_active j c.cancellations ≡ (if r == j then true else is_active j b.cancellations))

-- An operation that begins has entered its request, one that is refused has not.
abbrev pub Enters : SessionBroker → ℕ → Phase ℕ → Type 0
Enters b r (c, ok n) = Entered b r c
Enters b r (c, err response) = Alike b c

pub active_with-Entered :
    (b : SessionBroker) (r : ℕ) → lookup r b.cancellations ≡ none → Entered b r (active_with b r)
active_with-Entered b r free = (free, λ j. ground (arith, lookup-insert r j false b.cancellations))

-- A request that was entered and is finished leaves the requests as they were.
pub finish-Alike : (b c : SessionBroker) (r : ℕ) → Entered b r c → Alike b (finish c r)
finish-Alike b c r (free, h) j = elim (Bool-cases (r == j)) [
  | inl same ↦ ground (
    arith,
    lookup-remove r j c.cancellations,
    same,
    free,
    ap (λ i. is_active i b.cancellations) ((==_iff r j).0 same),
  )
  | inr other ↦ ground (arith, lookup-remove r j c.cancellations, other, h j)
]

pub begin_operation-Enters :
    (b : SessionBroker) (r id a g : ℕ) → Enters b r (begin_operation b r id a g)
begin_operation-Enters b r id a g = elim (begin_operation-Begins b r id a g) [
  | began free admits e ↦ rw e (active_with-Entered b r free)
  | refused response e ↦ rw e (λ j. refl)
]

cancel_target-Alike : (target : Option ℕ) (b : SessionBroker) → Alike b (cancel_target target b)
unfolding cancel_request
cancel_target-Alike none b j = refl
cancel_target-Alike (some r) b j = elim (Option-cases (lookup r b.cancellations)) [
  | inl e ↦ rw (e, cancel_target, cancel_request) refl
  | inr (t, e) ↦ rw (e, cancel_target, cancel_request) (cancelled j t e)
]
  where
    cancelled :
        (i : ℕ) (t : Bool)
        → lookup r b.cancellations ≡ some t
        → is_active i (insert r true b.cancellations) ≡ is_active i b.cancellations
    cancelled i t e = elim (Bool-cases (r == i)) [
      | inl same ↦ ground (
        arith,
        lookup-insert r i true b.cancellations,
        same,
        e,
        ap (λ k. is_active k b.cancellations) ((==_iff r i).0 same),
      )
      | inr other ↦ ground (arith, lookup-insert r i true b.cancellations, other)
    ]

begin_cancel-cancellations :
    (b : SessionBroker) (r id a : ℕ) (g : Option ℕ)
    → (begin_cancel b r id a g).0.cancellations ≡ b.cancellations
unfolding begin_cancel
begin_cancel-cancellations b r id a g = elim (Result-cases (next_after_cancel b r id a g)) [
  | inl (n, e) ↦ rw (e, begin_cancel) refl
  | inr (x, e) ↦ rw (e, begin_cancel) refl
]

after_cancel-Enters :
    (b c : SessionBroker) (r : ℕ) (target : Option ℕ) (p : Phase ℕ)
    → Entered b r c
    → p.0.cancellations ≡ c.cancellations
    → Enters b r (after_cancel target (finish_on_error p r))
after_cancel-Enters b c r target (d, ok n) (free, h) same =
    (free, λ j. cancel_target-Alike target d j ∙ ap (is_active j) same ∙ h j)
after_cancel-Enters b c r target (d, err x) entered same =
    λ j. ap (λ m. is_active j (remove r m)) same ∙ finish-Alike b c r entered j

pub begin_cancel_operation-Enters :
    (b : SessionBroker) (r a : ℕ) (command : CancelRequest)
    → Enters b r (begin_cancel_operation b r a command)
unfolding begin_cancel_operation register
begin_cancel_operation-Enters b r a command = elim (Option-cases (lookup r b.cancellations)) [
  | inr (t, e) ↦ rw (e, register) (λ j. refl)
  | inl e ↦
      let c = active_with b r in
      rw (e, register)
        (after_cancel-Enters b c r command.target_request_id
          (begin_cancel c r command.session_id a command.generation) (active_with-Entered b r e)
          (begin_cancel-cancellations c r command.session_id a command.generation))
]

-- ===== src/Session/Beginnings.antt =====
-- The cases in which the operations of session.rs begin, and the state with which they begin.
use kanai.Base.{
  ℕ, ◌+◌, ◌<◌, Bool, true, false, none, some, ◌≡◌, refl, ap, ◌∙◌, inl, inr, Option-cases,
  Result-cases, arith, insert, remove, remove_absent, Result, ok, err, usize_mod, lookup, List,
}
use kanai.Protocol.Responses.{ResponseEnvelope}
use kanai.Session.State.{SessionBroker, register, duplicate_request}
use kanai.Session.Begin.{
  Phase, advance, begin_operation, begin_state_change, next_generation, registered, finish_on_error,
  ensure_entry,
}

-- What `begin_state_change` checks: the entry is the session's, is active and for composition,
-- and its generation is the expected one, which has a successor.
pub record Admits (b : SessionBroker) (id a g : ℕ) : Type 0 where
  pub here : lookup id b.sessions ≡ some a
  pub composes : (b.store a).rerank_only ≡ false
  pub is_active : (b.store a).active ≡ true
  pub expected : (b.store a).clock ≡ g
  pub fits : g + 1 < usize_mod

next_generation_accepts :
    (b : SessionBroker) (r id a g : ℕ) → Admits b id a g → next_generation b r id a g ≡ ok (g + 1)
unfolding next_generation ensure_entry
next_generation_accepts b r id a g h =
    ground (arith, h.here, h.composes, h.is_active, h.expected, h.fits)

next_generation_ok :
    (b : SessionBroker) (r id a g n : ℕ)
    → next_generation b r id a g ≡ ok n
    → Admits b id a g × (n ≡ g + 1)
unfolding next_generation ensure_entry
next_generation_ok b r id a g n h = (
  record {
    here = ground (arith, h);
    composes = ground (arith, h);
    is_active = ground (arith, h);
    expected = ground (arith, h);
    fits = ground (arith, h);
  },
  ground (arith, h),
)

-- `register` on a request that is not active.
abbrev pub active_with : SessionBroker → ℕ → SessionBroker
active_with b r = record b { cancellations = insert r false b.cancellations }

pub remove-insert :
    (r : ℕ) (on : Bool) (m : List (ℕ × Bool)) → lookup r m ≡ none → remove r (insert r on m) ≡ m
unfolding remove insert
remove-insert r on m h = rw (remove_absent r m h) (ground (arith, remove_absent r m h))

pub register_present :
    (b : SessionBroker) (r : ℕ) (t : Bool)
    → lookup r b.cancellations ≡ some t
    → register b r ≡ (b, false)
unfolding register
register_present b r t e = rw (e, register) refl

pub register_absent :
    (b : SessionBroker) (r : ℕ)
    → lookup r b.cancellations ≡ none
    → register b r ≡ (active_with b r, true)
unfolding register
register_absent b r e = rw (e, register) refl

abbrev begun : SessionBroker → ℕ → Result ResponseEnvelope ℕ → Phase ℕ
begun b a (ok n) = (advance b a n, ok n)
begun b a (err response) = (b, err response)

begin_state_change-begun :
    (b : SessionBroker) (r id a g : ℕ)
    → begin_state_change b r id a g ≡ begun b a (next_generation b r id a g)
unfolding begin_state_change
begin_state_change-begun b r id a g = elim (Result-cases (next_generation b r id a g)) [
  | inl (n, f) ↦ rw (f, begin_state_change) refl
  | inr (x, f) ↦ rw (f, begin_state_change) refl
]

-- Admitted with a request id that is not active, the operation begins: the clock and the epoch
-- advance. Otherwise it is refused, and the broker is as it was.
pub data Begins (b : SessionBroker) (r id a g : ℕ) : Type 0 where
  began :
      lookup r b.cancellations ≡ none
      → Admits b id a g
      → begin_operation b r id a g ≡ (advance (active_with b r) a (g + 1), ok (g + 1))
      → Begins b r id a g
  refused :
      (response : ResponseEnvelope)
      → begin_operation b r id a g ≡ (b, err response)
      → Begins b r id a g

begin_operation_absent :
    (b : SessionBroker) (r id a g : ℕ) (result : Result ResponseEnvelope ℕ)
    → lookup r b.cancellations ≡ none
    → next_generation (active_with b r) r id a g ≡ result
    → begin_operation b r id a g ≡ finish_on_error (begun (active_with b r) a result) r
unfolding begin_operation
begin_operation_absent b r id a g result e f =
    ap (λ p. registered p r (λ b1. finish_on_error (begin_state_change b1 r id a g) r))
      (register_absent b r e)
    ∙ ap (λ p. finish_on_error p r)
        (begin_state_change-begun (active_with b r) r id a g ∙ ap (begun (active_with b r) a) f)

pub begin_operation-Begins : (b : SessionBroker) (r id a g : ℕ) → Begins b r id a g
unfolding begin_operation
begin_operation-Begins b r id a g = elim (Option-cases (lookup r b.cancellations)) [
  | inr (t, e) ↦ refused (duplicate_request r) (rw (register_present b r t e) refl)
  | inl e ↦ elim (Result-cases (next_generation (active_with b r) r id a g)) [
    | inl (n, f) ↦
        let (h, same) = next_generation_ok (active_with b r) r id a g n f in
        began e
          (record {
            here = h.here;
            composes = h.composes;
            is_active = h.is_active;
            expected = h.expected;
            fits = h.fits;
          })
          (begin_operation_absent b r id a g _ e f ∙ rw same refl)
    | inr (x, f) ↦ refused x (
        begin_operation_absent b r id a g _ e f
        ∙ ap (λ m. (record b { cancellations = m }, err x))
            (remove-insert r false b.cancellations e))
  ]
]

-- ===== src/Session/Coherence/Starts.antt =====
-- The errors and the generations of the operations of session.rs before the backend is awaited.
use kanai.Base.{
  ℕ, ◌==◌, Bool, true, false, not, Option, none, some, ◌≡◌, refl, ap, subst, ◌∙◌, inl, inr,
  Option-cases, Result-cases, arith, Result, ok, err, ◌>>=◌, ◌>>◌, fail_if, ok_or, lookup,
  checked_add,
}
use kanai.Protocol.Requests.{CancelRequest}
use kanai.Protocol.Responses.{ResponseEnvelope, success, failure}
use kanai.Session.State.{SessionBroker, register, cancel_request, fail, unknown_session}
use kanai.Session.Begin.{
  Phase, ensure_entry, next_generation, next_after_cancel, begin_state_change, begin_cancel,
  begin_operation, begin_cancel_operation, registered, finish_on_error, after_cancel, cancel_target,
  differs,
}

abbrev pub IsFailure : ResponseEnvelope → Type 0
IsFailure response = elim response.outcome [ success payload ↦ ⊥ | failure error ↦ Unit ]

abbrev Fails {ℓ} : {A : Type ℓ} → Result ResponseEnvelope A → Type 0
Fails (ok a) = Unit
Fails (err response) = IsFailure response

bind-Fails {ℓ κ} :
    {A : Type ℓ} {B : Type κ} (m : Result ResponseEnvelope A) (k : A → Result ResponseEnvelope B)
    → Fails m
    → ((a : A) → Fails (k a))
    → Fails (m >>= k)
bind-Fails (ok a) k h f = f a
bind-Fails (err x) k h f = h

fail_if-Fails {ℓ} :
    {A : Type ℓ} (test : Bool) (x : ResponseEnvelope) (k : Result ResponseEnvelope A)
    → IsFailure x
    → Fails k
    → Fails (fail_if test x >> k)
fail_if-Fails true x k h f = h
fail_if-Fails false x k h f = f

ok_or-Fails : (o : Option ℕ) (x : ResponseEnvelope) → IsFailure x → Fails (ok_or o x)
ok_or-Fails none x h = h
ok_or-Fails (some n) x h = tt

fail_if_only-Fails : (test : Bool) (x : ResponseEnvelope) → IsFailure x → Fails (fail_if test x)
fail_if_only-Fails true x h = h
fail_if_only-Fails false x h = tt

ensure_entry-Fails : (b : SessionBroker) (r id a : ℕ) → Fails (ensure_entry b r id a)
unfolding ensure_entry fail
ensure_entry-Fails b r id a = elim (Option-cases (lookup id b.sessions)) [
  | inl e ↦ rw (e, ensure_entry) tt
  | inr (c, e) ↦
      rw (e, ensure_entry) (fail_if_only-Fails (not (c == a)) (unknown_session r id 0) tt)
]

next_generation-Fails : (b : SessionBroker) (r id a g : ℕ) → Fails (next_generation b r id a g)
unfolding next_generation fail
next_generation-Fails b r id a g =
    let e = b.store a in
    bind-Fails (ensure_entry b r id a) _ (ensure_entry-Fails b r id a) λ u.
      fail_if-Fails e.rerank_only _ _ tt (
        fail_if-Fails (not e.active) _ _ tt
          (fail_if-Fails (not (e.clock == g)) _ _ tt (ok_or-Fails (checked_add e.clock 1) _ tt)))

next_after_cancel-Fails :
    (b : SessionBroker) (r id a : ℕ) (g : Option ℕ) → Fails (next_after_cancel b r id a g)
unfolding next_after_cancel fail
next_after_cancel-Fails b r id a g =
    let e = b.store a in
    bind-Fails (ensure_entry b r id a) _ (ensure_entry-Fails b r id a) λ u.
      fail_if-Fails e.rerank_only _ _ tt (
        fail_if-Fails (not e.active) _ _ tt
          (fail_if-Fails (differs g e.clock) _ _ tt (ok_or-Fails (checked_add e.clock 1) _ tt)))

-- The operation is refused with an error, or begun with the entry's generation at the address.
abbrev pub Started : SessionBroker → ℕ → Phase ℕ → Type 0
Started b a (c, ok n) = ((c.store a).clock ≡ n) × (c.sessions ≡ b.sessions)
Started b a (c, err response) = IsFailure response

begin_state_change-Started :
    (b : SessionBroker) (r id a g : ℕ) → Started b a (begin_state_change b r id a g)
unfolding begin_state_change
begin_state_change-Started b r id a g =
    let h = next_generation-Fails b r id a g in
    elim (Result-cases (next_generation b r id a g)) [
      | inl (n, e) ↦ rw (e, begin_state_change) (ground arith, refl)
      | inr (x, e) ↦ rw (e, begin_state_change) (subst Fails e h)
    ]

begin_cancel-Started :
    (b : SessionBroker) (r id a : ℕ) (g : Option ℕ) → Started b a (begin_cancel b r id a g)
unfolding begin_cancel
begin_cancel-Started b r id a g =
    let h = next_after_cancel-Fails b r id a g in
    elim (Result-cases (next_after_cancel b r id a g)) [
      | inl (n, e) ↦ rw (e, begin_cancel) (ground arith, refl)
      | inr (x, e) ↦ rw (e, begin_cancel) (subst Fails e h)
    ]

finish_on_error-Started :
    (b : SessionBroker) (a : ℕ) (p : Phase ℕ) (r : ℕ)
    → Started b a p
    → Started b a (finish_on_error p r)
finish_on_error-Started b a (c, ok n) r h = h
finish_on_error-Started b a (c, err x) r h = h

registered-Started :
    (b : SessionBroker) (a r : ℕ) (next : SessionBroker → Phase ℕ)
    → ((c : SessionBroker) → c.sessions ≡ b.sessions → Started b a (next c))
    → Started b a (registered (register b r) r next)
unfolding register fail
registered-Started b a r next h = elim (Option-cases (lookup r b.cancellations)) [
  | inl e ↦ rw (e, register) (h _ refl)
  | inr (t, e) ↦ rw (e, register) tt
]

Started-same :
    (b c : SessionBroker) (a : ℕ) (p : Phase ℕ)
    → c.sessions ≡ b.sessions
    → Started c a p
    → Started b a p
Started-same b c a (d, ok n) same h = (h.0, h.1 ∙ same)
Started-same b c a (d, err x) same h = h

pub begin_operation-Started :
    (b : SessionBroker) (r id a g : ℕ) → Started b a (begin_operation b r id a g)
unfolding begin_operation
begin_operation-Started b r id a g = registered-Started b a r _ λ c same.
    Started-same b c a (finish_on_error (begin_state_change c r id a g) r) same (
      finish_on_error-Started c a (begin_state_change c r id a g) r
        (begin_state_change-Started c r id a g))

cancel_target-same :
    (target : Option ℕ) (b : SessionBroker)
    → ((cancel_target target b).store ≡ b.store) × ((cancel_target target b).sessions ≡ b.sessions)
unfolding cancel_request
cancel_target-same none b = (refl, refl)
cancel_target-same (some r) b = elim (Option-cases (lookup r b.cancellations)) [
  | inl e ↦ rw (e, cancel_target, cancel_request) (refl, refl)
  | inr (t, e) ↦ rw (e, cancel_target, cancel_request) (refl, refl)
]

after_cancel-Started :
    (b : SessionBroker) (a : ℕ) (target : Option ℕ) (p : Phase ℕ)
    → Started b a p
    → Started b a (after_cancel target p)
after_cancel-Started b a target (c, ok n) (h, k) =
    let (same_store, same) = cancel_target-same target c in
    (ap (λ store. (store a).clock) same_store ∙ h, same ∙ k)
after_cancel-Started b a target (c, err x) h = h

pub begin_cancel_operation-Started :
    (b : SessionBroker) (r a : ℕ) (command : CancelRequest)
    → Started b a (begin_cancel_operation b r a command)
unfolding begin_cancel_operation
begin_cancel_operation-Started b r a command = registered-Started b a r _ λ c same.
    let p = finish_on_error (begin_cancel c r command.session_id a command.generation) r in
    Started-same b c a (after_cancel command.target_request_id p) same (
      after_cancel-Started c a command.target_request_id p (
        finish_on_error-Started c a (begin_cancel c r command.session_id a command.generation) r
          (begin_cancel-Started c r command.session_id a command.generation)))

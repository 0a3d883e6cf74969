-- ===== src/Session/Begin.antt =====
-- The parts of the operations of session.rs before the backend is awaited.
use kanai.Base.{
  ℕ, ◌+◌, ◌%◌, Bool, true, false, not, Option, none, some, ◌==◌, if◌then◌else◌, Result, ok, err,
  ◌>>◌, fail_if, ok_or, checked_add, usize_mod, lookup, remove,
}
use kanai.Protocol.Requests.{CancelRequest, FocusLostRequest}
use kanai.Protocol.Responses.{
  invalid_request, generation_exhausted, no_fallback, literal, ResponseEnvelope,
}
use kanai.Session.State.{
  SessionBroker, write, register, finish, cancel_request, fail, duplicate_request, unknown_session,
  stale_failure,
}

-- An operation is over with a response, or it goes on with a value.
abbrev pub Phase {ℓ} : Type ℓ → Type ℓ
Phase A = SessionBroker × Result ResponseEnvelope A

-- `ensure_entry`: the session is still in the map, and is still this entry.
unfoldable pub ensure_entry : SessionBroker → ℕ → ℕ → ℕ → Result ResponseEnvelope (Unit {0})
ensure_entry b request_id session_id address = elim (lookup session_id b.sessions) [
  | none ↦ err (unknown_session request_id session_id 0)
  | some current ↦ fail_if (not (current == address)) (unknown_session request_id session_id 0)
]

-- `clock.store(next)` and `epoch.fetch_add(1)`, which wraps.
abbrev pub advance : SessionBroker → ℕ → ℕ → SessionBroker
advance b address next =
    write b address
      (record (b.store address) { clock = next; epoch = ((b.store address).epoch + 1) % usize_mod })

abbrev pub rerank_only_error : ℕ → Option ℕ → ResponseEnvelope
rerank_only_error request_id generation =
    fail request_id generation invalid_request
      (literal "rerank-only session cannot execute composition operations") no_fallback

abbrev pub exhausted : ℕ → ℕ → ResponseEnvelope
exhausted request_id current =
    fail request_id (some current) generation_exhausted (literal "session generation is exhausted")
      no_fallback

-- The checks of `begin_state_change`, and the next generation.
unfoldable pub next_generation : SessionBroker → ℕ → ℕ → ℕ → ℕ → Result ResponseEnvelope ℕ
unfolding ensure_entry
next_generation b request_id session_id address expected = do
  let e = b.store address
  ensure_entry b request_id session_id address
  fail_if e.rerank_only (rerank_only_error request_id (some expected))
  fail_if (not e.active) (unknown_session request_id session_id expected)
  fail_if (not (e.clock == expected)) (stale_failure request_id session_id expected e.clock)
  ok_or (checked_add e.clock 1) (exhausted request_id e.clock)

unfoldable pub begin_state_change : SessionBroker → ℕ → ℕ → ℕ → ℕ → Phase ℕ
begin_state_change b request_id session_id address expected =
    elim (next_generation b request_id session_id address expected) [
      | err response ↦ (b, err response)
      | ok next ↦ (advance b address next, ok next)
    ]

abbrev pub unwrap_or_zero : Option ℕ → ℕ
unwrap_or_zero none = 0
unwrap_or_zero (some n) = n

-- `expected.is_some_and(|expected| expected != current)`
abbrev pub differs : Option ℕ → ℕ → Bool
differs none current = false
differs (some expected) current = not (expected == current)

-- The checks of `begin_cancel`, and the next generation.
unfoldable pub next_after_cancel : SessionBroker → ℕ → ℕ → ℕ → Option ℕ → Result ResponseEnvelope ℕ
unfolding ensure_entry
next_after_cancel b request_id session_id address expected = do
  let e = b.store address
  ensure_entry b request_id session_id address
  fail_if e.rerank_only (rerank_only_error request_id expected)
  fail_if (not e.active) (unknown_session request_id session_id (unwrap_or_zero expected))
  fail_if (differs expected e.clock)
      (stale_failure request_id session_id (unwrap_or_zero expected) e.clock)
  ok_or (checked_add e.clock 1) (exhausted request_id e.clock)

unfoldable pub begin_cancel : SessionBroker → ℕ → ℕ → ℕ → Option ℕ → Phase ℕ
begin_cancel b request_id session_id address expected =
    elim (next_after_cancel b request_id session_id address expected) [
      | err response ↦ (b, err response)
      | ok next ↦ (advance b address next, ok next)
    ]

-- `if !self.register(request_id, cancellation) { return duplicate_request(request_id); }`
abbrev pub registered {ℓ} :
    {A : Type ℓ} → SessionBroker × Bool → ℕ → (SessionBroker → Phase A) → Phase A
registered (b, true) request_id next = next b
registered (b, false) request_id next = (b, err (duplicate_request request_id))

-- `Err(response) => { self.cancellations.finish(request_id); return response; }`
abbrev pub finish_on_error {ℓ} : {A : Type ℓ} → Phase A → ℕ → Phase A
finish_on_error (b, ok a) request_id = (b, ok a)
finish_on_error (b, err response) request_id = (finish b request_id, err response)

-- The common beginning of `key`, `edit`, `convert` and `commit`, once the operation lock is held:
-- `register`, then `begin_state_change`, and `finish` on its error.
unfoldable pub begin_operation : SessionBroker → ℕ → ℕ → ℕ → ℕ → Phase ℕ
unfolding register begin_state_change
begin_operation b request_id session_id address expected =
    registered (register b request_id) request_id λ b1.
      finish_on_error (begin_state_change b1 request_id session_id address expected) request_id

abbrev pub cancel_target : Option ℕ → SessionBroker → SessionBroker
cancel_target none b = b
cancel_target (some target) b = (cancel_request b target).0

abbrev pub after_cancel : Option ℕ → Phase ℕ → Phase ℕ
after_cancel target (b, ok next) = (cancel_target target b, ok next)
after_cancel target (b, err response) = (b, err response)

-- The beginning of `cancel`, once the operation lock is held.
unfoldable pub begin_cancel_operation : SessionBroker → ℕ → ℕ → CancelRequest → Phase ℕ
unfolding register begin_cancel cancel_request
begin_cancel_operation b request_id address command =
    registered (register b request_id) request_id λ b1. after_cancel command.target_request_id (
      finish_on_error (begin_cancel b1 request_id command.session_id address command.generation)
        request_id)

-- What `focus_lost` goes on with: it is done, or the backend has to tear the session down.
pub data FocusPhase : Type 0 where
  released : ℕ → FocusPhase
  teardown : ℕ → FocusPhase

abbrev pub deactivate_on_ok : ℕ → Phase ℕ → Phase FocusPhase
deactivate_on_ok address (b, ok next) =
    (write b address (record (b.store address) { active = false }), ok (teardown next))
deactivate_on_ok address (b, err response) = (b, err response)

abbrev pub remove_if_same : SessionBroker → ℕ → ℕ → SessionBroker
remove_if_same b session_id address = elim (lookup session_id b.sessions) [
  | none ↦ b
  | some current ↦
      if current == address then record b { sessions = remove session_id b.sessions } else b
]

-- What `focus_lost` does to a session that is only for reranking.
unfoldable pub release : SessionBroker → ℕ → ℕ → SessionBroker
release b session_id address =
    remove_if_same (write b address (record (b.store address) { active = false })) session_id
      address

-- The beginning of `focus_lost`, once the operation lock is held.
unfoldable pub begin_focus_lost : SessionBroker → ℕ → ℕ → FocusLostRequest → Phase FocusPhase
unfolding begin_operation
begin_focus_lost b request_id address command =
    let e = b.store address in
    if e.rerank_only
    then if e.clock == command.generation
      then (release b command.session_id address, ok (released e.clock))
      else (b, err (stale_failure request_id command.session_id command.generation e.clock))
    else deactivate_on_ok address
        (begin_operation b request_id command.session_id address command.generation)

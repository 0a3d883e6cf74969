-- ===== src/Session/Wire/Requests.antt =====
-- The checks of the wire on the replies of session.rs to whole requests.
use kanai.Base.{
  not, ◌>>◌, fail_if, ◌≢◌, ℕ, ◌==◌, true, ◌≡◌, refl, ap, lookup, ok, err, inl, inr, Bool-cases,
  Option-cases, Result-cases,
}
use kanai.Protocol.Requests.{
  RequestCommand, RequestEnvelope, FocusLostRequest, CancelRequest, GenerationRequest,
  validate_request,
}
use kanai.Protocol.Responses.{ResponseEnvelope, success, failure, succeed}
use kanai.Session.State.{SessionBroker, fail, validation_failure}
use kanai.Session.Begin.{
  Phase, begin_operation, begin_cancel_operation, begin_focus_lost, deactivate_on_ok,
}
use kanai.Session.Finish.{
  Reply, finish_key, finish_edit, finish_convert, finish_commit, finish_cancel,
}
use kanai.Session.Handle.{
  Backend, unwrap_or, proceed, with_entry, handle_key, handle_edit, handle_convert, handle_commit,
  handle_cancel, handle_focus_lost, tear_down, handle_generation, dispatch, handle,
}
use kanai.Protocol.Text.{Check, validate_id}
use kanai.Protocol.Requests.{GenerationRequest, protocol_version, validate_target, validate_command}
use kanai.Protocol.Responses.{validate_payload}
use kanai.Session.Finish.{passes}
use kanai.Session.Coherence.Starts.{
  IsFailure, Started, begin_operation-Started, begin_cancel_operation-Started,
}
use kanai.Session.Operations.{begin_operation-Changes, begin_cancel_operation-Changes}
use kanai.Session.Replies.{passes-left, passes-right}
use kanai.Session.Invariant.{IsValid, Changes-IsValid}
use kanai.Session.Wire.{Encodable, IsId}
use kanai.Session.Wire.Creation.{create-Encodable, prepare-Encodable}
use kanai.Session.Wire.Ends.{
  finish_key-Encodable, finish_edit-Encodable, finish_convert-Encodable, finish_commit-Encodable,
  finish_cancel-Encodable, finish_focus_lost-Encodable,
}

IsFailure-Encodable : (x : ResponseEnvelope) → IsFailure x → Encodable x
IsFailure-Encodable x h =
    elim x.outcome
        as (λ o. IsFailure (record x { outcome = o }) → Encodable (record x { outcome = o })) [
          | success payload ↦ λ k. absurd k
          | failure error ↦ λ k. tt
        ]
      h

Started-Encodable :
    (b : SessionBroker) (a : ℕ) (p : Phase ℕ) (next : SessionBroker → ℕ → Reply)
    → Started b a p
    → IsValid p.0
    → ((c : SessionBroker) (n : ℕ) → IsValid c → Encodable (next c n).1)
    → Encodable (proceed p next).1
Started-Encodable b a (c, ok n) next s v h = h c n v
Started-Encodable b a (c, err x) next fails v h = IsFailure-Encodable x fails

with_entry-Encodable :
    (b : SessionBroker) (r id hint : ℕ) (next : ℕ → Reply)
    → ((a : ℕ) → Encodable (next a).1)
    → Encodable (with_entry b r id hint next).1
unfolding fail
with_entry-Encodable b r id hint next h = elim (Option-cases (lookup id b.sessions)) [
  | inl e ↦ rw (e, with_entry) tt
  | inr (a, e) ↦ rw (e, with_entry) (h a)
]

begun-Encodable :
    (b : SessionBroker) (r id g : ℕ) (next : ℕ → SessionBroker → ℕ → Reply)
    → IsValid b
    → ((a : ℕ) (c : SessionBroker) (n : ℕ) → IsValid c → Encodable (next a c n).1)
    → Encodable (with_entry b r id g λ a. proceed (begin_operation b r id a g) (next a)).1
begun-Encodable b r id g next v h =
    with_entry-Encodable b r id g (λ a. proceed (begin_operation b r id a g) (next a))
      λ a.
        Started-Encodable b a (begin_operation b r id a g) (next a)
          (begin_operation-Started b r id a g)
          (Changes-IsValid b _ (begin_operation-Changes b r id a g) v) (h a)

cancel-Encodable :
    (backend : Backend) (b : SessionBroker) (r : ℕ) (c : CancelRequest)
    → IsId c.session_id
    → passes (validate_target c.target_request_id) ≡ true
    → IsValid b
    → Encodable (handle_cancel backend b r c).1
unfolding handle_cancel
cancel-Encodable backend b r c known target v =
    let expected = λ (a : ℕ). unwrap_or c.generation (b.store a).clock in
    let next = λ (a : ℕ) (b1 : SessionBroker) (n : ℕ).
      finish_cancel b1 r a c (expected a) n (backend.execute (RequestCommand.cancel c)) in
    with_entry-Encodable b r c.session_id (unwrap_or c.generation 0)
      (λ a. proceed (begin_cancel_operation b r a c) (next a))
      λ a.
        Started-Encodable b a (begin_cancel_operation b r a c) (next a)
          (begin_cancel_operation-Started b r a c)
          (Changes-IsValid b _ (begin_cancel_operation-Changes b r a c) v)
          (λ b1 n w. finish_cancel-Encodable b1 r a c (expected a) n _ known target)

teardown-Encodable :
    (backend : Backend) (b : SessionBroker) (r a : ℕ) (c : FocusLostRequest) (p : Phase ℕ)
    → IsId c.session_id
    → Started b a p
    → Encodable (proceed (deactivate_on_ok a p) (tear_down backend r c)).1
unfolding tear_down
teardown-Encodable backend b r a c (d, ok n) known h = finish_focus_lost-Encodable _ r c n _ known
teardown-Encodable backend b r a c (d, err x) known h = IsFailure-Encodable x h

released-Encodable :
    (backend : Backend) (b : SessionBroker) (r a : ℕ) (c : FocusLostRequest)
    → IsId c.session_id
    → Encodable (proceed (begin_focus_lost b r a c) (tear_down backend r c)).1
unfolding begin_focus_lost tear_down succeed validate_payload fail
released-Encodable backend b r a c known = elim (Bool-cases (b.store a).rerank_only) [
  | inr e ↦
      rw (e, begin_focus_lost)
        (teardown-Encodable backend b r a c (begin_operation b r c.session_id a c.generation) known
          (begin_operation-Started b r c.session_id a c.generation))
  | inl e ↦ elim (Bool-cases ((b.store a).clock == c.generation)) [
    | inr f ↦ rw (e, f, begin_focus_lost) tt
    | inl f ↦ rw (e, f, begin_focus_lost) known
  ]
]

generation-Encodable :
    (backend : Backend) (b : SessionBroker) (r : ℕ) (c : GenerationRequest)
    → IsId c.session_id
    → Encodable (handle_generation backend b r c).1
unfolding handle_generation succeed validate_payload fail
generation-Encodable backend b r c known = elim (Option-cases (lookup c.session_id b.sessions)) [
  | inl e ↦ rw (e, handle_generation) tt
  | inr (a, e) ↦ rw (e, handle_generation) known
]

first : (id : ℕ) (k : Check) → passes (validate_id "sessionId" id >> k) ≡ true → IsId id
first id k h = passes-left (validate_id "sessionId" id) k h

validate_request-command :
    (envelope : RequestEnvelope) (u : Unit {0})
    → validate_request envelope ≡ ok u
    → passes (validate_command envelope.command) ≡ true
unfolding validate_request
validate_request-command envelope u e =
    passes-right (validate_id "requestId" envelope.request_id) _
      (passes-right (fail_if (not (envelope.version == protocol_version)) _) _ (ap passes e))

dispatch-Encodable :
    (backend : Backend) (b : SessionBroker) (r : ℕ) (command : RequestCommand)
    → passes (validate_command command) ≡ true
    → IsValid b
    → command ≢ RequestCommand.health
    → Encodable (dispatch backend b r command).1
unfolding dispatch handle_key handle_edit handle_convert handle_commit handle_focus_lost
    validate_command fail
dispatch-Encodable backend b r (RequestCommand.create_session c) h v other =
    create-Encodable backend b r c (first c.session_id _ h)
dispatch-Encodable backend b r (RequestCommand.prepare_rerank_session c) h v other =
    prepare-Encodable backend b r c (first c.session_id _ h)
dispatch-Encodable backend b r (RequestCommand.key c) h v other =
    begun-Encodable b r c.session_id c.generation
      (λ a b1 n. finish_key b1 r a c n (backend.execute (RequestCommand.key c))) v
      (λ a b1 n w. finish_key-Encodable b1 r a c n _ (first c.session_id _ h) w)
dispatch-Encodable backend b r (RequestCommand.edit c) h v other =
    begun-Encodable b r c.session_id c.generation
      (λ a b1 n. finish_edit b1 r a c n (backend.execute (RequestCommand.edit c))) v
      (λ a b1 n w. finish_edit-Encodable b1 r a c n _ (first c.session_id _ h) w)
dispatch-Encodable backend b r (RequestCommand.convert c) h v other =
    begun-Encodable b r c.session_id c.generation
      (λ a b1 n.
        finish_convert b1 r a c n
          (backend.execute (RequestCommand.convert (record c { generation = n }))))
      v
      (λ a b1 n w.
        finish_convert-Encodable b1 r a c n _ (first c.session_id _ h)
          (passes-right (validate_id "sessionId" c.session_id) _ h) w)
dispatch-Encodable backend b r (RequestCommand.commit c) h v other =
    begun-Encodable b r c.session_id c.generation
      (λ a b1 n. finish_commit b1 r a c n (backend.execute (RequestCommand.commit c))) v
      (λ a b1 n w. finish_commit-Encodable b1 r a c n _)
dispatch-Encodable backend b r (RequestCommand.cancel c) h v other =
    cancel-Encodable backend b r c (first c.session_id _ h)
      (passes-right (validate_id "sessionId" c.session_id) _ h) v
dispatch-Encodable backend b r (RequestCommand.focus_lost c) h v other =
    with_entry-Encodable b r c.session_id c.generation
      (λ a. proceed (begin_focus_lost b r a c) (tear_down backend r c))
      (λ a. released-Encodable backend b r a c h)
dispatch-Encodable backend b r RequestCommand.health h v other = absurd (other refl)
dispatch-Encodable backend b r (RequestCommand.generation c) h v other =
    generation-Encodable backend b r c h
dispatch-Encodable backend b r (RequestCommand.rerank_candidates c) h v other = tt
dispatch-Encodable backend b r (RequestCommand.semantic_assist c) h v other = tt

-- In every valid state, whatever the backend answers: a success with which the broker replies to
-- any request but `health` passes the payload checks of the wire, so that it can be encoded; the
-- fallbacks from an earlier state are among them.
pub handle-Encodable :
    (backend : Backend) (b : SessionBroker) (envelope : RequestEnvelope)
    → IsValid b
    → envelope.command ≢ RequestCommand.health
    → Encodable (handle backend b envelope).1
unfolding handle validation_failure fail validate_request
handle-Encodable backend b envelope v other = elim (Result-cases (validate_request envelope)) [
  | inr (x, e) ↦ rw (e, handle) tt
  | inl (u, e) ↦
      rw (e, handle)
        (dispatch-Encodable backend b envelope.request_id envelope.command
          (validate_request-command envelope u e) v other)
]

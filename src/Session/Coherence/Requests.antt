-- ===== src/Session/Coherence/Requests.antt =====
-- The generations in the replies of session.rs to whole requests.
use kanai.Base.{
  ℕ, ◌==◌, none, some, ◌≡◌, refl, ap, subst, ◌∙◌, lookup, lookup-remove, ok, err, inl, inr,
  Bool-cases, Option-cases, Result-cases, arith,
}
use kanai.Protocol.Requests.{
  RequestCommand, RequestEnvelope, session_id, FocusLostRequest, CancelRequest, GenerationRequest,
  validate_request,
}
use kanai.Protocol.Responses.{ResponseEnvelope, success, failure, succeed, payload_generation}
use kanai.Session.State.{SessionBroker, fail, validation_failure}
use kanai.Session.Begin.{
  Phase, begin_operation, begin_cancel_operation, begin_focus_lost, release, remove_if_same,
  deactivate_on_ok,
}
use kanai.Session.Finish.{
  Reply, finish_key, finish_edit, finish_convert, finish_commit, finish_cancel,
}
use kanai.Session.Handle.{
  Backend, unwrap_or, proceed, with_entry, handle_create, handle_prepare, handle_key, handle_edit,
  handle_convert, handle_commit, handle_cancel, handle_focus_lost, tear_down, handle_generation,
  dispatch, handle,
}
use kanai.Session.Coherence.{Coherent}
use kanai.Session.Coherence.Starts.{
  IsFailure, Started, begin_operation-Started, begin_cancel_operation-Started,
}
use kanai.Session.Coherence.Creation.{create-Coherent, prepare-Coherent}
use kanai.Session.Coherence.Ends.{
  At, At-Names, finish_key-Coherent, finish_edit-Coherent, finish_convert-Coherent,
  finish_commit-Coherent, finish_cancel-Coherent, finish_focus_lost-Coherent,
}

IsFailure-Coherent :
    (id : ℕ) (b : SessionBroker) (x : ResponseEnvelope) → IsFailure x → Coherent id (b, x)
IsFailure-Coherent id b x h =
    elim x.outcome
        as (λ o. IsFailure (record x { outcome = o }) → Coherent id (b, record x { outcome = o })) [
          | success payload ↦ λ k. absurd k
          | failure error ↦ λ k. tt
        ]
      h

Started-Coherent :
    (b : SessionBroker) (id a : ℕ) (p : Phase ℕ) (next : SessionBroker → ℕ → Reply)
    → lookup id b.sessions ≡ some a
    → Started b a p
    → ((c : SessionBroker) (n : ℕ) → At c id a n → Coherent id (next c n))
    → Coherent id (proceed p next)
Started-Coherent b id a (c, ok n) next live (clock, same) h =
    h c n (ap (λ m. lookup id m) same ∙ live, clock)
Started-Coherent b id a (c, err x) next live fails h = IsFailure-Coherent id c x fails

with_entry-Coherent :
    (b : SessionBroker) (r id hint : ℕ) (next : ℕ → Reply)
    → ((a : ℕ) → lookup id b.sessions ≡ some a → Coherent id (next a))
    → Coherent id (with_entry b r id hint next)
unfolding fail
with_entry-Coherent b r id hint next h = elim (Option-cases (lookup id b.sessions)) [
  | inl e ↦ rw (e, with_entry) tt
  | inr (a, e) ↦ rw (e, with_entry) (h a e)
]

begun-Coherent :
    (b : SessionBroker) (r id g : ℕ) (next : ℕ → SessionBroker → ℕ → Reply)
    → ((a : ℕ) (c : SessionBroker) (n : ℕ) → At c id a n → Coherent id (next a c n))
    → Coherent id (with_entry b r id g λ a. proceed (begin_operation b r id a g) (next a))
begun-Coherent b r id g next h =
    with_entry-Coherent b r id g (λ a. proceed (begin_operation b r id a g) (next a))
      λ a live.
        Started-Coherent b id a (begin_operation b r id a g) (next a) live
          (begin_operation-Started b r id a g) (h a)

cancel-Coherent :
    (backend : Backend) (b : SessionBroker) (r : ℕ) (c : CancelRequest)
    → Coherent c.session_id (handle_cancel backend b r c)
unfolding handle_cancel
cancel-Coherent backend b r c =
    let expected = λ (a : ℕ). unwrap_or c.generation (b.store a).clock in
    let next = λ (a : ℕ) (b1 : SessionBroker) (n : ℕ).
      finish_cancel b1 r a c (expected a) n (backend.execute (RequestCommand.cancel c)) in
    with_entry-Coherent b r c.session_id (unwrap_or c.generation 0)
      (λ a. proceed (begin_cancel_operation b r a c) (next a))
      λ a live.
        Started-Coherent b c.session_id a (begin_cancel_operation b r a c) (next a) live
          (begin_cancel_operation-Started b r a c)
          (λ b1 n h. finish_cancel-Coherent b1 r a c (expected a) n _ h)

release-gone :
    (b : SessionBroker) (id a : ℕ)
    → lookup id b.sessions ≡ some a
    → lookup id (release b id a).sessions ≡ none
unfolding release
release-gone b id a live =
    rw (live, remove_if_same) (ground (arith, lookup-remove id id b.sessions))

teardown-Coherent :
    (backend : Backend) (r a : ℕ) (c : FocusLostRequest) (b : SessionBroker) (p : Phase ℕ)
    → Started b a p
    → Coherent c.session_id (proceed (deactivate_on_ok a p) (tear_down backend r c))
unfolding tear_down
teardown-Coherent backend r a c b (d, ok n) h = finish_focus_lost-Coherent _ r c n _
teardown-Coherent backend r a c b (d, err x) h = IsFailure-Coherent c.session_id d x h

released-Coherent :
    (backend : Backend) (b : SessionBroker) (r a : ℕ) (c : FocusLostRequest)
    → lookup c.session_id b.sessions ≡ some a
    → Coherent c.session_id (proceed (begin_focus_lost b r a c) (tear_down backend r c))
unfolding begin_focus_lost tear_down succeed payload_generation fail
released-Coherent backend b r a c live = elim (Bool-cases (b.store a).rerank_only) [
  | inr e ↦
      rw (e, begin_focus_lost)
        (teardown-Coherent backend r a c b (begin_operation b r c.session_id a c.generation)
          (begin_operation-Started b r c.session_id a c.generation))
  | inl e ↦ elim (Bool-cases ((b.store a).clock == c.generation)) [
    | inr f ↦ rw (e, f, begin_focus_lost) tt
    | inl f ↦
        let gone = release-gone b c.session_id a live in
        rw (e, f, begin_focus_lost) (λ d still. absurd (ground (arith, gone, still)))
  ]
]

focus_lost-Coherent :
    (backend : Backend) (b : SessionBroker) (r : ℕ) (c : FocusLostRequest)
    → Coherent c.session_id (handle_focus_lost backend b r c)
unfolding handle_focus_lost
focus_lost-Coherent backend b r c =
    with_entry-Coherent b r c.session_id c.generation
      (λ a. proceed (begin_focus_lost b r a c) (tear_down backend r c))
      (λ a live. released-Coherent backend b r a c live)

generation-Coherent :
    (backend : Backend) (b : SessionBroker) (r : ℕ) (c : GenerationRequest)
    → Coherent c.session_id (handle_generation backend b r c)
unfolding handle_generation succeed payload_generation fail
generation-Coherent backend b r c = elim (Option-cases (lookup c.session_id b.sessions)) [
  | inl e ↦ rw (e, handle_generation) tt
  | inr (a, e) ↦ rw (e, handle_generation) (At-Names b c.session_id a (b.store a).clock (e, refl))
]

-- The session that a command is about, if any, is the one of the coherence.
abbrev CommandCoherent : RequestCommand → Reply → Type 0
CommandCoherent command reply = (id : ℕ) → session_id command ≡ some id → Coherent id reply

about : (id : ℕ) (reply : Reply) → Coherent id reply → (j : ℕ) → some id ≡ some j → Coherent j reply
about id reply h j e = subst (λ k. Coherent k reply) (ground arith) h

dispatch-Coherent :
    (backend : Backend) (b : SessionBroker) (r : ℕ) (command : RequestCommand)
    → CommandCoherent command (dispatch backend b r command)
unfolding dispatch handle_key handle_edit handle_convert handle_commit session_id fail
dispatch-Coherent backend b r (RequestCommand.create_session c) =
    about c.session_id (handle_create backend b r c) (create-Coherent backend b r c)
dispatch-Coherent backend b r (RequestCommand.prepare_rerank_session c) =
    about c.session_id (handle_prepare backend b r c) (prepare-Coherent backend b r c)
dispatch-Coherent backend b r (RequestCommand.key c) =
    about c.session_id (handle_key backend b r c) (
      begun-Coherent b r c.session_id c.generation
        (λ a b1 n. finish_key b1 r a c n (backend.execute (RequestCommand.key c)))
        (λ a b1 n. finish_key-Coherent b1 r a c n _))
dispatch-Coherent backend b r (RequestCommand.edit c) =
    about c.session_id (handle_edit backend b r c) (
      begun-Coherent b r c.session_id c.generation
        (λ a b1 n. finish_edit b1 r a c n (backend.execute (RequestCommand.edit c)))
        (λ a b1 n. finish_edit-Coherent b1 r a c n _))
dispatch-Coherent backend b r (RequestCommand.convert c) =
    about c.session_id (handle_convert backend b r c) (
      begun-Coherent b r c.session_id c.generation
        (λ a b1 n.
          finish_convert b1 r a c n
            (backend.execute (RequestCommand.convert (record c { generation = n }))))
        (λ a b1 n. finish_convert-Coherent b1 r a c n _))
dispatch-Coherent backend b r (RequestCommand.commit c) =
    about c.session_id (handle_commit backend b r c) (
      begun-Coherent b r c.session_id c.generation
        (λ a b1 n. finish_commit b1 r a c n (backend.execute (RequestCommand.commit c)))
        (λ a b1 n. finish_commit-Coherent b1 r a c n _))
dispatch-Coherent backend b r (RequestCommand.cancel c) =
    about c.session_id (handle_cancel backend b r c) (cancel-Coherent backend b r c)
dispatch-Coherent backend b r (RequestCommand.focus_lost c) =
    about c.session_id (handle_focus_lost backend b r c) (focus_lost-Coherent backend b r c)
dispatch-Coherent backend b r RequestCommand.health = λ id e. absurd (ground arith)
dispatch-Coherent backend b r (RequestCommand.generation c) =
    about c.session_id (handle_generation backend b r c) (generation-Coherent backend b r c)
dispatch-Coherent backend b r (RequestCommand.rerank_candidates c) = λ id e. tt
dispatch-Coherent backend b r (RequestCommand.semantic_assist c) = λ id e. tt

-- For every request about a session, in every state and with every answer of the backend: when
-- the reply is a success that names a generation and the session is live behind the request, then
-- its entry is at that generation (also when the operation was rolled back).
pub handle-Coherent :
    (backend : Backend) (b : SessionBroker) (envelope : RequestEnvelope) (id : ℕ)
    → session_id envelope.command ≡ some id
    → Coherent id (handle backend b envelope)
unfolding handle validation_failure fail
handle-Coherent backend b envelope id about_id = elim (Result-cases (validate_request envelope)) [
  | inl (u, e) ↦
      rw (e, handle) (dispatch-Coherent backend b envelope.request_id envelope.command id about_id)
  | inr (x, e) ↦ rw (e, handle) tt
]

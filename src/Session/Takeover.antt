-- ===== src/Session/Takeover.antt =====
-- `prepare_rerank_session` of session.rs as `handle_for_peer` runs it for any peer.
use kanai.Base.{
  ℕ, ◌<◌, true, false, none, some, ◌≡◌, refl, ap, ◌∙◌, lookup, contains, ok, inl, inr, Bool-cases,
  Option-cases, arith,
}
use kanai.Protocol.Text.{Text}
use kanai.Protocol.Requests.{
  RequestCommand, RequestEnvelope, PrepareRerankSessionRequest, validate_request,
}
use kanai.Protocol.Responses.{ResponsePayload, success}
use kanai.Session.State.{SessionBroker, finish}
use kanai.Session.Tokens.{bind_session_owner, text_empty}
use kanai.Session.Create.{
  insert_prepared, prepare_entry, prepare_locked, prepare_registered, adopt_generation, adopted,
  field_class_eq,
}
use kanai.Session.Finish.{Reply}
use kanai.Session.Handle.{
  Backend, handle, handle_prepare, handle_for_peer, dispatch, bind_created, guarded_session,
  makes_session,
}
use kanai.Session.Changes.Kept.{kept}
use kanai.Session.Beginnings.{active_with, register_absent}

abbrev pub preparing : ℕ → PrepareRerankSessionRequest → RequestEnvelope
preparing r c = record {
  version = 1;
  request_id = r;
  command = RequestCommand.prepare_rerank_session c;
}

bind_session_owner-clock :
    (b : SessionBroker) (j x : ℕ) (peer : Text)
    → ((bind_session_owner b j peer).0.store x).clock ≡ (b.store x).clock
unfolding bind_session_owner
bind_session_owner-clock b j x peer = elim (Bool-cases (text_empty peer)) [
  | inl f ↦ rw (f, bind_session_owner) refl
  | inr f ↦ elim (Option-cases (lookup j b.sessions)) [
    | inl g ↦ rw (f, g, bind_session_owner) refl
    | inr (a, g) ↦ elim (Option-cases (b.store a).owner) [
      | inr (o, k) ↦ rw (f, g, k, bind_session_owner) refl
      | inl k ↦ rw (f, g, k, bind_session_owner) (kept (λ e. e.clock) b.store a _ x refl)
    ]
  ]
]

bind_created-clock :
    (peer : Text) (reply : Reply) (x : ℕ)
    → ((bind_created peer reply).0.store x).clock ≡ (reply.0.store x).clock
bind_created-clock peer (c, response) x =
    elim response.outcome
      as (λ o.
        ((bind_created peer (c, record response { outcome = o })).0.store x).clock
        ≡ (c.store x).clock) [
          | success (ResponsePayload.created r) ↦ bind_session_owner-clock c r.session_id x peer
          | success (ResponsePayload.generation r) ↦ bind_session_owner-clock c r.session_id x peer
          | _ ↦ refl
        ]

adopt_generation-clock :
    (b : SessionBroker) (r x : ℕ) (c : PrepareRerankSessionRequest)
    → (b.store x).clock < c.generation
    → ((adopt_generation b r x c).0.store x).clock ≡ c.generation
unfolding adopt_generation adopted
adopt_generation-clock b r x c later = ground (arith, later)

prepare-clock :
    (backend : Backend) (b : SessionBroker) (r x : ℕ) (c : PrepareRerankSessionRequest)
    → contains c.session_id b.invalidated ≡ false
    → lookup c.session_id b.sessions ≡ some x
    → (b.store x).rerank_only ≡ true
    → field_class_eq (b.store x).field_class c.field_class ≡ true
    → lookup r b.cancellations ≡ none
    → (b.store x).clock < c.generation
    → ((handle_prepare backend b r c).0.store x).clock ≡ c.generation
unfolding handle_prepare prepare_entry prepare_locked
prepare-clock backend b r x c valid live rerank same free later =
    rw (valid, live, insert_prepared, prepare_entry, rerank, same, prepare_locked)
      (ap (λ p. ((prepare_registered p r x c).0.store x).clock) (register_absent b r free)
        ∙ adopt_generation-clock (finish (active_with b r) r) r x c later)

-- Any peer, whoever owns the rerank session, moves it to a later generation by preparing it: a
-- valid request with a request id that is not active and with the field class of the session,
-- which is live, for reranking, and not invalidated, is enough.
pub handle_for_peer-prepare :
    (backend : Backend) (b : SessionBroker) (r x : ℕ) (c : PrepareRerankSessionRequest)
    (peer : Text)
    → validate_request (preparing r c) ≡ ok tt
    → contains c.session_id b.invalidated ≡ false
    → lookup c.session_id b.sessions ≡ some x
    → (b.store x).rerank_only ≡ true
    → field_class_eq (b.store x).field_class c.field_class ≡ true
    → lookup r b.cancellations ≡ none
    → (b.store x).clock < c.generation
    → ((handle_for_peer backend b (preparing r c) peer).0.store x).clock ≡ c.generation
unfolding handle_for_peer guarded_session makes_session handle dispatch
handle_for_peer-prepare backend b r x c peer checked valid live rerank same free later =
    bind_created-clock peer (handle backend b (preparing r c)) x
    ∙ rw (checked, handle) (prepare-clock backend b r x c valid live rerank same free later)

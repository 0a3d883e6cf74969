-- ===== src/Session/Handled.antt =====
-- The writes of `SessionBroker::handle` and `handle_for_peer` in session.rs as wholes.
use kanai.Base.{[], ℕ, lookup, ok, err, inl, inr, Bool-cases, Option-cases, Result-cases}
use kanai.Protocol.Text.{Text}
use kanai.Protocol.Requests.{RequestCommand, RequestEnvelope, validate_request, FocusLostRequest}
use kanai.Protocol.Responses.{ResponsePayload, success}
use kanai.Session.State.{SessionBroker}
use kanai.Session.Tokens.{bind_session_owner, text_empty}
use kanai.Session.Begin.{
  Phase, FocusPhase, released, teardown, begin_operation, begin_cancel_operation, begin_focus_lost,
}
use kanai.Session.Create.{begin_create, prepare_entry, prepare_locked}
use kanai.Session.Finish.{
  Reply, finish_create, finish_key, finish_edit, finish_convert, finish_commit, finish_cancel,
}
use kanai.Session.Handle.{
  Backend, unwrap_or, proceed, with_entry, handle_create, handle_prepare, handle_key, handle_edit,
  handle_convert, handle_commit, handle_cancel, handle_focus_lost, tear_down, handle_health,
  handle_generation, dispatch, handle, handle_for_peer, bind_created, is_unavailable, checked_limit,
  reported, owned_by, guarded_session,
}
use kanai.Session.Changes.{owns, Changes, done}
use kanai.Session.Operations.{
  invalidate_all_sessions-Changes, one, append, begin_operation-Changes,
  begin_cancel_operation-Changes, begin_focus_lost-Changes, begin_create-Changes,
  prepare_entry-Changes, prepare_locked-Changes,
}
use kanai.Session.Replies.{
  finish_key-Changes, finish_edit-Changes, finish_convert-Changes, finish_commit-Changes,
  finish_cancel-Changes, finish_focus_lost-Changes, finish_create-Changes,
}

proceed-Changes {ℓ} :
    {A : Type ℓ} (b : SessionBroker) (p : Phase A) (next : SessionBroker → A → Reply)
    → Changes [] b p.0
    → ((c : SessionBroker) (x : A) → Changes [] c (next c x).0)
    → Changes [] b (proceed p next).0
proceed-Changes b (c, ok x) next h k = append h (k c x)
proceed-Changes b (c, err response) next h k = h

with_entry-Changes :
    (b : SessionBroker) (r id hint : ℕ) (next : ℕ → Reply)
    → ((a : ℕ) → Changes [] b (next a).0)
    → Changes [] b (with_entry b r id hint next).0
with_entry-Changes b r id hint next h = elim (Option-cases (lookup id b.sessions)) [
  | inl e ↦ rw (e, with_entry) done
  | inr (a, e) ↦ rw (e, with_entry) (h a)
]

-- The operations that begin a state change with the generation of the request.
begun-Changes :
    (b : SessionBroker) (r id g : ℕ) (next : ℕ → SessionBroker → ℕ → Reply)
    → ((a : ℕ) (c : SessionBroker) (n : ℕ) → Changes [] c (next a c n).0)
    → Changes [] b (with_entry b r id g λ a. proceed (begin_operation b r id a g) (next a)).0
begun-Changes b r id g next h =
    with_entry-Changes b r id g (λ a. proceed (begin_operation b r id a g) (next a))
      λ a.
        proceed-Changes b (begin_operation b r id a g) (next a) (begin_operation-Changes b r id a g)
          (h a)

tear_down-Changes :
    (backend : Backend) (r : ℕ) (c : FocusLostRequest) (b : SessionBroker) (phase : FocusPhase)
    → Changes [] b (tear_down backend r c b phase).0
unfolding tear_down
tear_down-Changes backend r c b (released n) = done
tear_down-Changes backend r c b (teardown n) = finish_focus_lost-Changes b r c n _

dispatch-Changes :
    (backend : Backend) (b : SessionBroker) (r : ℕ) (command : RequestCommand)
    → Changes [] b (dispatch backend b r command).0
unfolding dispatch handle_create handle_prepare handle_key handle_edit handle_convert handle_commit
    handle_cancel handle_focus_lost handle_health handle_generation
dispatch-Changes backend b r (RequestCommand.create_session c) =
    proceed-Changes b (begin_create b r c)
      (λ b1 a. finish_create b1 r c (backend.execute (RequestCommand.create_session c)))
      (begin_create-Changes b r c) (λ b1 a. finish_create-Changes b1 r c _)
dispatch-Changes backend b r (RequestCommand.prepare_rerank_session c) =
    proceed-Changes b (prepare_entry b r c) (λ b1 a. prepare_locked b1 r a c)
      (prepare_entry-Changes b r c) (λ b1 a. prepare_locked-Changes b1 r a c)
dispatch-Changes backend b r (RequestCommand.key c) =
    begun-Changes b r c.session_id c.generation
      (λ a b1 n. finish_key b1 r a c n (backend.execute (RequestCommand.key c)))
      (λ a b1 n. finish_key-Changes b1 r a c n _)
dispatch-Changes backend b r (RequestCommand.edit c) =
    begun-Changes b r c.session_id c.generation
      (λ a b1 n. finish_edit b1 r a c n (backend.execute (RequestCommand.edit c)))
      (λ a b1 n. finish_edit-Changes b1 r a c n _)
dispatch-Changes backend b r (RequestCommand.convert c) =
    begun-Changes b r c.session_id c.generation
      (λ a b1 n.
        finish_convert b1 r a c n
          (backend.execute (RequestCommand.convert (record c { generation = n }))))
      (λ a b1 n. finish_convert-Changes b1 r a c n _)
dispatch-Changes backend b r (RequestCommand.commit c) =
    begun-Changes b r c.session_id c.generation
      (λ a b1 n. finish_commit b1 r a c n (backend.execute (RequestCommand.commit c)))
      (λ a b1 n. finish_commit-Changes b1 r a c n _)
dispatch-Changes backend b r (RequestCommand.cancel c) =
    with_entry-Changes b r c.session_id (unwrap_or c.generation 0)
      (λ a. proceed (begin_cancel_operation b r a c) (λ b1 n.
        finish_cancel b1 r a c (unwrap_or c.generation (b.store a).clock) n
          (backend.execute (RequestCommand.cancel c))))
      λ a.
        let expected = unwrap_or c.generation (b.store a).clock in
        proceed-Changes b (begin_cancel_operation b r a c)
          (λ b1 n. finish_cancel b1 r a c expected n (backend.execute (RequestCommand.cancel c)))
          (begin_cancel_operation-Changes b r a c)
          (λ b1 n. finish_cancel-Changes b1 r a c expected n _)
dispatch-Changes backend b r (RequestCommand.focus_lost c) =
    with_entry-Changes b r c.session_id c.generation
      (λ a. proceed (begin_focus_lost b r a c) (tear_down backend r c))
      λ a.
        proceed-Changes b (begin_focus_lost b r a c) (tear_down backend r c)
          (begin_focus_lost-Changes b r a c) (tear_down-Changes backend r c)
dispatch-Changes backend b r RequestCommand.health =
    elim (Bool-cases (is_unavailable (checked_limit (reported backend)).status)) [
      | inl e ↦ rw (e, handle_health) (invalidate_all_sessions-Changes b)
      | inr e ↦ rw (e, handle_health) done
    ]
dispatch-Changes backend b r (RequestCommand.generation c) =
    elim (Option-cases (lookup c.session_id b.sessions)) [
      | inl e ↦ rw (e, handle_generation) done
      | inr (a, e) ↦ rw (e, handle_generation) done
    ]
dispatch-Changes backend b r (RequestCommand.rerank_candidates c) = done
dispatch-Changes backend b r (RequestCommand.semantic_assist c) = done

pub handle-Changes :
    (backend : Backend) (b : SessionBroker) (envelope : RequestEnvelope)
    → Changes [] b (handle backend b envelope).0
unfolding handle
handle-Changes backend b envelope = elim (Result-cases (validate_request envelope)) [
  | inl (u, e) ↦ rw (e, handle) (dispatch-Changes backend b envelope.request_id envelope.command)
  | inr (x, e) ↦ rw (e, handle) done
]

pub bind_session_owner-Changes :
    (b : SessionBroker) (id : ℕ) (owner : Text) → Changes [] b (bind_session_owner b id owner).0
unfolding bind_session_owner
bind_session_owner-Changes b id owner = elim (Bool-cases (text_empty owner)) [
  | inl e ↦ rw (e, bind_session_owner) done
  | inr e ↦ elim (Option-cases (lookup id b.sessions)) [
    | inl f ↦ rw (e, f, bind_session_owner) done
    | inr (a, f) ↦ elim (Option-cases (b.store a).owner) [
      | inl g ↦ rw (e, f, g, bind_session_owner) (one (owns a owner g))
      | inr (o, g) ↦ rw (e, f, g, bind_session_owner) done
    ]
  ]
]

bind_created-Changes :
    (b : SessionBroker) (owner : Text) (reply : Reply)
    → Changes [] b reply.0
    → Changes [] b (bind_created owner reply).0
bind_created-Changes b owner (c, response) h =
    elim response.outcome
      as (λ o. Changes [] b (bind_created owner (c, record response { outcome = o })).0) [
        | success (ResponsePayload.created r) ↦
            append h (bind_session_owner-Changes c r.session_id owner)
        | success (ResponsePayload.generation r) ↦
            append h (bind_session_owner-Changes c r.session_id owner)
        | _ ↦ h
      ]

pub handle_for_peer-Changes :
    (backend : Backend) (b : SessionBroker) (envelope : RequestEnvelope) (owner : Text)
    → Changes [] b (handle_for_peer backend b envelope owner).0
unfolding handle_for_peer
handle_for_peer-Changes backend b envelope owner =
    elim (Bool-cases (owned_by b (guarded_session envelope.command) owner)) [
      | inl e ↦
          rw (e, handle_for_peer)
            (bind_created-Changes b owner (handle backend b envelope)
              (handle-Changes backend b envelope))
      | inr e ↦ rw (e, handle_for_peer) done
    ]

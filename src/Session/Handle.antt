-- ===== src/Session/Handle.antt =====
-- `SessionBroker::handle` of session.rs and its wrapper for authenticated peers, for one request
-- that runs without another one in between.
use kanai.Base.{ℕ, Bool, true, false, Option, none, some, ◌==◌, if◌then◌else◌, ltb, ok, err, lookup}
use kanai.Protocol.Text.{Text, codes, byte_len, any_control, truncate, is_empty}
use kanai.Protocol.Requests.{
  RequestCommand, RequestEnvelope, create_session, prepare_rerank_session, key, edit, convert,
  commit, cancel, focus_lost, health, generation, rerank_candidates, semantic_assist,
  CreateSessionRequest, PrepareRerankSessionRequest, KeyRequest, EditRequest, ConvertRequest,
  CommitRequest, CancelRequest, FocusLostRequest, GenerationRequest, protocol_version,
  expected_generation, session_id, validate_request,
}
use kanai.Protocol.Responses.{
  unknown_session_code, enhancement_requires_async, no_fallback, literal, ResponsePayload,
  ResponseEnvelope, success, succeed, HealthResponse, HealthStatus, unavailable,
}
use kanai.Session.State.{
  SessionBroker, fail, unknown_session, validation_failure, invalidate_all_sessions,
}
use kanai.Session.Tokens.{bind_session_owner, session_owned_by}
use kanai.Session.Begin.{
  Phase, begin_operation, begin_cancel_operation, begin_focus_lost, FocusPhase, released, teardown,
}
use kanai.Session.Create.{begin_create, prepare_entry, prepare_locked}
use kanai.Session.Finish.{
  BackendResult, Reply, finish_key, finish_edit, finish_convert, finish_commit, finish_cancel,
  finish_focus_lost, finish_create,
}

-- What the backend answers. It is not part of the repository's code.
pub record Backend : Type 0 where
  pub execute : RequestCommand → BackendResult
  pub report : HealthResponse

-- `health.protocol_version = PROTOCOL_VERSION`
abbrev pub reported : Backend → HealthResponse
reported backend = record backend.report { protocol_version = protocol_version }

-- An early return, or the rest of the operation.
abbrev pub proceed {ℓ} : {A : Type ℓ} → Phase A → (SessionBroker → A → Reply) → Reply
proceed (b, ok a) next = next b a
proceed (b, err response) next = (b, response)

-- `let Some(entry) = self.entry(session_id).await else { return unknown_session(..) }`
abbrev pub with_entry : SessionBroker → ℕ → ℕ → ℕ → (ℕ → Reply) → Reply
with_entry b request_id id hint next = elim (lookup id b.sessions) [
  | none ↦ (b, unknown_session request_id id hint)
  | some address ↦ next address
]

abbrev pub unwrap_or : Option ℕ → ℕ → ℕ
unwrap_or none n = n
unwrap_or (some m) n = m

abbrev pub is_unavailable : HealthStatus → Bool
is_unavailable unavailable = true
is_unavailable _ = false

-- The corrections that `health` makes to the backend's report, in their order.
abbrev pub checked_limit : HealthResponse → HealthResponse
checked_limit h =
    if h.max_frame_bytes == 0
    then record h { status = unavailable; detail = codes "backend returned an invalid frame limit" }
    else h

abbrev pub checked_detail : HealthResponse → HealthResponse
checked_detail h =
    let h1 = if is_empty h.detail then record h { detail = codes "ready" } else h in
    let h2 =
      if any_control h1.detail
      then record h1 {
        status = unavailable;
        detail = codes "backend returned invalid health details";
      }
      else h1 in
    if ltb 512 (byte_len h2.detail) then record h2 { detail = truncate 512 h2.detail } else h2

-- `focus_lost` behind its beginning.
unfoldable pub tear_down : Backend → ℕ → FocusLostRequest → SessionBroker → FocusPhase → Reply
unfolding finish_focus_lost succeed
tear_down backend request_id command b (released current) = (
  b,
  succeed request_id (
      ResponsePayload.focus_lost
        (record { session_id = command.session_id; generation = current })),
)
tear_down backend request_id command b (teardown next) =
    finish_focus_lost b request_id command next (backend.execute (focus_lost command))

module _ (backend : Backend) (b : SessionBroker) (request_id : ℕ) where
  unfoldable pub handle_create : CreateSessionRequest → Reply
  unfolding begin_create finish_create
  handle_create command =
      proceed (begin_create b request_id command)
        λ b1 address. finish_create b1 request_id command (backend.execute (create_session command))

  unfoldable pub handle_prepare : PrepareRerankSessionRequest → Reply
  unfolding prepare_entry prepare_locked
  handle_prepare command =
      proceed (prepare_entry b request_id command)
        λ b1 address. prepare_locked b1 request_id address command

  unfoldable pub handle_key : KeyRequest → Reply
  unfolding begin_operation finish_key
  handle_key command = with_entry b request_id command.session_id command.generation λ address.
      proceed (begin_operation b request_id command.session_id address command.generation)
        λ b1 next. finish_key b1 request_id address command next (backend.execute (key command))

  unfoldable pub handle_edit : EditRequest → Reply
  unfolding begin_operation finish_edit
  handle_edit command = with_entry b request_id command.session_id command.generation λ address.
      proceed (begin_operation b request_id command.session_id address command.generation)
        λ b1 next. finish_edit b1 request_id address command next (backend.execute (edit command))

  -- The backend is asked with the generation that the conversion began.
  unfoldable pub handle_convert : ConvertRequest → Reply
  unfolding begin_operation finish_convert
  handle_convert command = with_entry b request_id command.session_id command.generation λ address.
      proceed (begin_operation b request_id command.session_id address command.generation)
        λ b1 next.
          finish_convert b1 request_id address command next
            (backend.execute (convert (record command { generation = next })))

  unfoldable pub handle_commit : CommitRequest → Reply
  unfolding begin_operation finish_commit
  handle_commit command = with_entry b request_id command.session_id command.generation λ address.
      proceed (begin_operation b request_id command.session_id address command.generation)
        λ b1 next.
          finish_commit b1 request_id address command next (backend.execute (commit command))

  unfoldable pub handle_cancel : CancelRequest → Reply
  unfolding begin_cancel_operation finish_cancel
  handle_cancel command =
      with_entry b request_id command.session_id (unwrap_or command.generation 0) λ address.
        let expected = unwrap_or command.generation (b.store address).clock in
        proceed (begin_cancel_operation b request_id address command) λ b1 next.
          finish_cancel b1 request_id address command expected next
            (backend.execute (cancel command))

  unfoldable pub handle_focus_lost : FocusLostRequest → Reply
  unfolding begin_focus_lost tear_down
  handle_focus_lost command =
      with_entry b request_id command.session_id command.generation λ address.
        proceed (begin_focus_lost b request_id address command)
          (tear_down backend request_id command)

  unfoldable pub handle_health : Reply
  unfolding succeed invalidate_all_sessions
  handle_health =
      let h = checked_limit (reported backend) in
      let b1 = if is_unavailable h.status then invalidate_all_sessions b else b in
      (b1, succeed request_id (ResponsePayload.health (checked_detail h)))

  unfoldable pub handle_generation : GenerationRequest → Reply
  unfolding succeed
  handle_generation command = elim (lookup command.session_id b.sessions) [
    | none ↦ (
      b,
      fail request_id none unknown_session_code (literal "session does not exist") no_fallback,
    )
    | some address ↦ (
      b,
      succeed request_id (
          ResponsePayload.generation
            (record { session_id = command.session_id; generation = (b.store address).clock })),
    )
  ]

  abbrev requires_async : Option ℕ → Reply
  requires_async hint = (
    b,
    fail request_id hint enhancement_requires_async
        (literal "optional enhancements require the async queue") no_fallback,
  )

  unfoldable pub dispatch : RequestCommand → Reply
  dispatch (create_session command) = handle_create command
  dispatch (prepare_rerank_session command) = handle_prepare command
  dispatch (key command) = handle_key command
  dispatch (edit command) = handle_edit command
  dispatch (convert command) = handle_convert command
  dispatch (commit command) = handle_commit command
  dispatch (cancel command) = handle_cancel command
  dispatch (focus_lost command) = handle_focus_lost command
  dispatch health = handle_health
  dispatch (generation command) = handle_generation command
  dispatch (rerank_candidates command) = requires_async (some command.generation)
  dispatch (semantic_assist command) = requires_async (some command.generation)

unfoldable pub handle : Backend → SessionBroker → RequestEnvelope → Reply
handle backend b envelope = elim (validate_request envelope) [
  | err error ↦
      (b, validation_failure envelope.request_id (expected_generation envelope.command) error)
  | ok u ↦ dispatch backend b envelope.request_id envelope.command
]

-- The commands that need no owner: they make sessions.
unfoldable pub makes_session : RequestCommand → Bool
makes_session (create_session command) = true
makes_session (prepare_rerank_session command) = true
makes_session _ = false

-- The session that a request needs the peer to own.
unfoldable pub guarded_session : RequestCommand → Option ℕ
unfolding makes_session
guarded_session command = if makes_session command then none else session_id command

abbrev pub bind_created : Text → Reply → Reply
bind_created owner (b, response) = elim response.outcome [
  | success (ResponsePayload.created r) ↦ ((bind_session_owner b r.session_id owner).0, response)
  | success (ResponsePayload.generation r) ↦ ((bind_session_owner b r.session_id owner).0, response)
  | _ ↦ (b, response)
]

abbrev pub owned_by : SessionBroker → Option ℕ → Text → Bool
owned_by b none owner = true
owned_by b (some id) owner = session_owned_by b id owner

abbrev pub not_yours : RequestEnvelope → ResponseEnvelope
not_yours envelope =
    fail envelope.request_id (expected_generation envelope.command) unknown_session_code
      (literal "session does not exist for this authenticated peer") no_fallback

unfoldable pub handle_for_peer : Backend → SessionBroker → RequestEnvelope → Text → Reply
unfolding handle guarded_session session_owned_by bind_session_owner
handle_for_peer backend b envelope owner =
    if owned_by b (guarded_session envelope.command) owner
    then bind_created owner (handle backend b envelope)
    else (b, not_yours envelope)

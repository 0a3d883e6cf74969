-- ===== src/Session/Finish.antt =====
-- The parts of the operations of session.rs behind the answer of the backend.
use kanai.Base.{ℕ, Bool, true, false, not, some, ◌==◌, if◌then◌else◌, Result, ok, err, remove}
use kanai.Protocol.Text.{Check}
use kanai.Protocol.Candidates.{CompositionState}
use kanai.Protocol.Requests.{
  CreateSessionRequest, KeyRequest, EditRequest, ConvertRequest, CommitRequest, CancelRequest,
  FocusLostRequest,
}
use kanai.Protocol.Responses.{
  ErrorCode, invalid_request, cancelled_code, FallbackMode, no_fallback, direct_input, literal,
  Message, ResponsePayload, ResponseEnvelope, succeed, validate_payload, KeyResponse, EditResponse,
  ConvertResponse,
}
use kanai.Session.State.{
  SessionBroker, finish, fail, invalidate_session, rollback_state_change, remember_state,
  clear_state, fallback_state,
}
use kanai.Session.Fallback.{fallback_convert, fallback_edit, fallback_key}

-- The texts of the errors are left out.
pub data BackendError : Type 0 where
  unavailable_error timeout cancelled protocol rejected session_invalidated : BackendError

abbrev pub BackendResult : Type 0
BackendResult = Result BackendError ResponsePayload

abbrev pub Reply : Type 0
Reply = SessionBroker × ResponseEnvelope

-- `validate().is_ok()`
abbrev pub passes : Check → Bool
passes (ok u) = true
passes (err e) = false

abbrev pub state_from_key : KeyResponse → CompositionState
state_from_key r = record {
  preedit = r.preedit;
  consumed = r.consumed;
  candidates = r.candidates;
  focused_index = r.focused_index;
}

abbrev pub state_from_edit : EditResponse → CompositionState
state_from_edit r = record {
  preedit = r.preedit;
  consumed = r.consumed;
  candidates = r.candidates;
  focused_index = r.focused_index;
}

abbrev pub state_from_convert : ConvertResponse → CompositionState
state_from_convert r = record {
  preedit = r.preedit;
  consumed = r.consumed;
  candidates = r.candidates;
  focused_index = r.focused_index;
}

-- `key` behind the answer, where `next` is the generation that the operation began.
unfoldable pub finish_key : SessionBroker → ℕ → ℕ → KeyRequest → ℕ → BackendResult → Reply
unfolding invalidate_session rollback_state_change remember_state fallback_state fallback_key
    succeed
finish_key b0 request_id address command next result =
    let b = finish b0 request_id in
    let fallback = fallback_state b command.session_id in
    elim result [
      | ok (ResponsePayload.key r) ↦
          let r' = record r { generation = next; fallback = no_fallback } in
          if not (r.session_id == command.session_id)
          then invalidate_session b request_id next
          else if passes (validate_payload (ResponsePayload.key r'))
          then (
            remember_state b command.session_id (state_from_key r'),
            succeed request_id (ResponsePayload.key r'),
          )
          else invalidate_session b request_id next
      | err cancelled ↦ (
        rollback_state_change b address command.generation next,
        fallback_key request_id command.session_id command.generation fallback,
      )
      | err rejected ↦ (
        rollback_state_change b address command.generation next,
        fallback_key request_id command.session_id command.generation fallback,
      )
      | _ ↦ invalidate_session b request_id next
    ]

unfoldable pub finish_edit : SessionBroker → ℕ → ℕ → EditRequest → ℕ → BackendResult → Reply
unfolding invalidate_session rollback_state_change remember_state fallback_state fallback_edit
    succeed
finish_edit b0 request_id address command next result =
    let b = finish b0 request_id in
    let fallback = fallback_state b command.session_id in
    elim result [
      | ok (ResponsePayload.edit r) ↦
          let r' = record r { generation = next; fallback = no_fallback } in
          if not (r.session_id == command.session_id)
          then invalidate_session b request_id next
          else if passes (validate_payload (ResponsePayload.edit r'))
          then (
            remember_state b command.session_id (state_from_edit r'),
            succeed request_id (ResponsePayload.edit r'),
          )
          else invalidate_session b request_id next
      | err cancelled ↦ (
        rollback_state_change b address command.generation next,
        fallback_edit request_id command.session_id command.generation fallback,
      )
      | err rejected ↦ (
        rollback_state_change b address command.generation next,
        fallback_edit request_id command.session_id command.generation fallback,
      )
      | _ ↦ invalidate_session b request_id next
    ]

unfoldable pub finish_convert : SessionBroker → ℕ → ℕ → ConvertRequest → ℕ → BackendResult → Reply
unfolding invalidate_session rollback_state_change remember_state fallback_convert succeed
finish_convert b0 request_id address command next result =
    let b = finish b0 request_id in
    elim result [
      | ok (ResponsePayload.convert r) ↦
          let r' = record r { generation = next; fallback = no_fallback } in
          if not (r.session_id == command.session_id)
          then invalidate_session b request_id next
          else if passes (validate_payload (ResponsePayload.convert r'))
          then (
            remember_state b command.session_id (state_from_convert r'),
            succeed request_id (ResponsePayload.convert r'),
          )
          else invalidate_session b request_id next
      | err cancelled ↦
          let b' = rollback_state_change b address command.generation next in
          (b', fallback_convert b' request_id command command.generation)
      | err rejected ↦
          let b' = rollback_state_change b address command.generation next in
          (b', fallback_convert b' request_id command command.generation)
      | _ ↦ invalidate_session b request_id next
    ]

-- The error of `commit` and `cancel` for an operation that the backend did not carry out, with
-- the code and message of `backend_error_code` and `public_backend_message`.
abbrev not_done : ℕ → ℕ → ErrorCode → Message → ResponseEnvelope
not_done request_id generation code message =
    fail request_id (some generation) code message direct_input

abbrev was_cancelled : ℕ → ℕ → ResponseEnvelope
was_cancelled request_id generation =
    not_done request_id generation cancelled_code (literal "conversion backend was cancelled")

abbrev was_rejected : ℕ → ℕ → ResponseEnvelope
was_rejected request_id generation =
    not_done request_id generation invalid_request (literal "conversion backend failed")

unfoldable pub finish_commit : SessionBroker → ℕ → ℕ → CommitRequest → ℕ → BackendResult → Reply
unfolding invalidate_session rollback_state_change clear_state succeed
finish_commit b0 request_id address command next result =
    let b = finish b0 request_id in
    elim result [
      | ok (ResponsePayload.commit r) ↦
          let r' = record r { generation = next } in
          if not (r.session_id == command.session_id)
          then invalidate_session b request_id next
          else if passes (validate_payload (ResponsePayload.commit r'))
          then (
            clear_state b command.session_id address,
            succeed request_id (ResponsePayload.commit r'),
          )
          else invalidate_session b request_id next
      | err cancelled ↦ (
        rollback_state_change b address command.generation next,
        was_cancelled request_id command.generation,
      )
      | err rejected ↦ (
        rollback_state_change b address command.generation next,
        was_rejected request_id command.generation,
      )
      | _ ↦ invalidate_session b request_id next
    ]

-- `expected` is the generation that `cancel` read before it began.
unfoldable pub finish_cancel : SessionBroker → ℕ → ℕ → CancelRequest → ℕ → ℕ → BackendResult → Reply
unfolding invalidate_session rollback_state_change succeed
finish_cancel b0 request_id address command expected next result =
    let b = finish b0 request_id in
    elim result [
      | ok payload ↦ (
        b,
        succeed request_id (
            ResponsePayload.cancel (record {
              session_id = command.session_id;
              generation = next;
              target_request_id = command.target_request_id;
            })),
      )
      | err cancelled ↦
          (rollback_state_change b address expected next, was_cancelled request_id expected)
      | err rejected ↦
          (rollback_state_change b address expected next, was_rejected request_id expected)
      | _ ↦ invalidate_session b request_id next
    ]

unfoldable pub finish_focus_lost : SessionBroker → ℕ → FocusLostRequest → ℕ → BackendResult → Reply
unfolding invalidate_session succeed
finish_focus_lost b0 request_id command next result =
    let b = finish b0 request_id in
    let left = succeed request_id (
      ResponsePayload.focus_lost (record { session_id = command.session_id; generation = next })) in
    elim result [
      | err session_invalidated ↦ invalidate_session b request_id next
      | _ ↦ (record b { sessions = remove command.session_id b.sessions }, left)
    ]

-- `create_session` behind the answer.
unfoldable pub finish_create : SessionBroker → ℕ → CreateSessionRequest → BackendResult → Reply
unfolding invalidate_session succeed
finish_create b0 request_id command result =
    let b = finish b0 request_id in
    let reply = λ (fallback : FallbackMode). succeed request_id (
      ResponsePayload.created
        (record { session_id = command.session_id; generation = 0; fallback = fallback })) in
    elim result [
      | ok (ResponsePayload.created r) ↦
          if r.session_id == command.session_id
          then (b, reply no_fallback)
          else (b, reply direct_input)
      | err session_invalidated ↦ invalidate_session b request_id 0
      | _ ↦ (b, reply direct_input)
    ]

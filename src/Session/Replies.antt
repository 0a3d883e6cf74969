-- ===== src/Session/Replies.antt =====
-- The writes of the operations of session.rs behind the answer of the backend.
use kanai.Base.{
  [], ℕ, true, ◌≡◌, refl, lookup, ok, err, inl, inr, ◌>>◌, Bool-cases, Option-cases, arith, ◌==◌,
}
use kanai.Protocol.Candidates.{CompositionState, validate_state, validate_composition_response}
use kanai.Protocol.Text.{Check, validate_id}
use kanai.Protocol.Requests.{
  KeyRequest, EditRequest, ConvertRequest, CommitRequest, CancelRequest, FocusLostRequest,
  CreateSessionRequest, validate_paging,
}
use kanai.Protocol.Responses.{
  ResponsePayload, KeyResponse, EditResponse, ConvertResponse, CommitResponse, validate_payload,
  no_fallback,
}
use kanai.Session.State.{SessionBroker, finish, invalidate_session, remember_state, clear_state}
use kanai.Session.Finish.{
  BackendResult, cancelled, rejected, session_invalidated, passes, finish_key, finish_edit,
  finish_convert, finish_commit, finish_cancel, finish_focus_lost, finish_create, state_from_key,
  state_from_edit, state_from_convert,
}
use kanai.Session.Changes.{registers, rolls_back, remembers, forgets, removes, Changes, done}
use kanai.Session.Operations.{invalidate_all_sessions-Changes, one, append}

invalidate_session-Changes :
    (b : SessionBroker) (r g : ℕ) → Changes [] b (invalidate_session b r g).0
unfolding invalidate_session
invalidate_session-Changes b r g = invalidate_all_sessions-Changes b

remember_state-Changes :
    (b : SessionBroker) (id : ℕ) (state : CompositionState)
    → passes (validate_state state) ≡ true
    → Changes [] b (remember_state b id state)
unfolding remember_state
remember_state-Changes b id state h = elim (Option-cases (lookup id b.sessions)) [
  | inl e ↦ rw (e, remember_state) done
  | inr (a, e) ↦ rw (e, remember_state) (one (remembers a state h))
]

clear_state-Changes : (b : SessionBroker) (id a : ℕ) → Changes [] b (clear_state b id a)
unfolding clear_state
clear_state-Changes b id a = elim (Option-cases (lookup id b.sessions)) [
  | inl e ↦ rw (e, clear_state) done
  | inr (c, e) ↦ elim (Bool-cases (c == a)) [
    | inl f ↦ rw (e, f, clear_state) (one (forgets c))
    | inr f ↦ rw (e, f, clear_state) done
  ]
]

finished : {b c : SessionBroker} (r : ℕ) → Changes [] (finish b r) c → Changes [] b c
finished r h = append (one (registers _)) h

pub passes-left : (m k : Check) → passes (m >> k) ≡ true → passes m ≡ true
passes-left (ok u) k h = refl
passes-left (err e) k h = h

pub passes-right : (m k : Check) → passes (m >> k) ≡ true → passes k ≡ true
passes-right (ok tt) k h = h
passes-right (err e) k h = absurd (ground arith)

-- The composition checks of a response are those of the state that is remembered.
passes_key :
    (r : KeyResponse)
    → passes (validate_payload (ResponsePayload.key r)) ≡ true
    → passes (validate_state (state_from_key r)) ≡ true
unfolding validate_payload validate_state
passes_key r h = passes-right (validate_id "sessionId" r.session_id) _ h

passes_edit :
    (r : EditResponse)
    → passes (validate_payload (ResponsePayload.edit r)) ≡ true
    → passes (validate_state (state_from_edit r)) ≡ true
unfolding validate_payload validate_state
passes_edit r h = passes-right (validate_id "sessionId" r.session_id) _ h

passes_convert :
    (r : ConvertResponse)
    → passes (validate_payload (ResponsePayload.convert r)) ≡ true
    → passes (validate_state (state_from_convert r)) ≡ true
unfolding validate_payload validate_state
passes_convert r h =
    passes-left (validate_composition_response r.preedit r.candidates r.focused_index)
      (validate_paging r.page r.page_size) (passes-right (validate_id "sessionId" r.session_id) _ h)

pub finish_key-Changes :
    (b : SessionBroker) (r a : ℕ) (command : KeyRequest) (n : ℕ) (result : BackendResult)
    → Changes [] b (finish_key b r a command n result).0
unfolding finish_key
finish_key-Changes b r a command n (ok (ResponsePayload.key p)) =
    elim (Bool-cases (p.session_id == command.session_id)) [
      | inr e ↦ rw (e, finish_key) (finished r (invalidate_session-Changes (finish b r) r n))
      | inl e ↦
          let p' : KeyResponse = record p { generation = n; fallback = no_fallback } in
          elim (Bool-cases (passes (validate_payload (ResponsePayload.key p')))) [
            | inr f ↦
                rw (e, f, finish_key) (finished r (invalidate_session-Changes (finish b r) r n))
            | inl f ↦
                rw (e, f, finish_key)
                  (finished r (
                    remember_state-Changes (finish b r) command.session_id (state_from_key p')
                      (passes_key p' f)))
          ]
    ]
finish_key-Changes b r a command n (err cancelled) =
    finished r (one (rolls_back a command.generation n))
finish_key-Changes b r a command n (err rejected) =
    finished r (one (rolls_back a command.generation n))
finish_key-Changes b r a command n _ = finished r (invalidate_session-Changes (finish b r) r n)

pub finish_edit-Changes :
    (b : SessionBroker) (r a : ℕ) (command : EditRequest) (n : ℕ) (result : BackendResult)
    → Changes [] b (finish_edit b r a command n result).0
unfolding finish_edit
finish_edit-Changes b r a command n (ok (ResponsePayload.edit p)) =
    elim (Bool-cases (p.session_id == command.session_id)) [
      | inr e ↦ rw (e, finish_edit) (finished r (invalidate_session-Changes (finish b r) r n))
      | inl e ↦
          let p' : EditResponse = record p { generation = n; fallback = no_fallback } in
          elim (Bool-cases (passes (validate_payload (ResponsePayload.edit p')))) [
            | inr f ↦
                rw (e, f, finish_edit) (finished r (invalidate_session-Changes (finish b r) r n))
            | inl f ↦
                rw (e, f, finish_edit)
                  (finished r (
                    remember_state-Changes (finish b r) command.session_id (state_from_edit p')
                      (passes_edit p' f)))
          ]
    ]
finish_edit-Changes b r a command n (err cancelled) =
    finished r (one (rolls_back a command.generation n))
finish_edit-Changes b r a command n (err rejected) =
    finished r (one (rolls_back a command.generation n))
finish_edit-Changes b r a command n _ = finished r (invalidate_session-Changes (finish b r) r n)

pub finish_convert-Changes :
    (b : SessionBroker) (r a : ℕ) (command : ConvertRequest) (n : ℕ) (result : BackendResult)
    → Changes [] b (finish_convert b r a command n result).0
unfolding finish_convert
finish_convert-Changes b r a command n (ok (ResponsePayload.convert p)) =
    elim (Bool-cases (p.session_id == command.session_id)) [
      | inr e ↦ rw (e, finish_convert) (finished r (invalidate_session-Changes (finish b r) r n))
      | inl e ↦
          let p' : ConvertResponse = record p { generation = n; fallback = no_fallback } in
          elim (Bool-cases (passes (validate_payload (ResponsePayload.convert p')))) [
            | inr f ↦
                rw (e, f, finish_convert) (finished r (invalidate_session-Changes (finish b r) r n))
            | inl f ↦
                rw (e, f, finish_convert)
                  (finished r (
                    remember_state-Changes (finish b r) command.session_id (state_from_convert p')
                      (passes_convert p' f)))
          ]
    ]
finish_convert-Changes b r a command n (err cancelled) =
    finished r (one (rolls_back a command.generation n))
finish_convert-Changes b r a command n (err rejected) =
    finished r (one (rolls_back a command.generation n))
finish_convert-Changes b r a command n _ = finished r (invalidate_session-Changes (finish b r) r n)

pub finish_commit-Changes :
    (b : SessionBroker) (r a : ℕ) (command : CommitRequest) (n : ℕ) (result : BackendResult)
    → Changes [] b (finish_commit b r a command n result).0
unfolding finish_commit
finish_commit-Changes b r a command n (ok (ResponsePayload.commit p)) =
    elim (Bool-cases (p.session_id == command.session_id)) [
      | inr e ↦ rw (e, finish_commit) (finished r (invalidate_session-Changes (finish b r) r n))
      | inl e ↦
          let p' : CommitResponse = record p { generation = n } in
          elim (Bool-cases (passes (validate_payload (ResponsePayload.commit p')))) [
            | inr f ↦
                rw (e, f, finish_commit) (finished r (invalidate_session-Changes (finish b r) r n))
            | inl f ↦
                rw (e, f, finish_commit)
                  (finished r (clear_state-Changes (finish b r) command.session_id a))
          ]
    ]
finish_commit-Changes b r a command n (err cancelled) =
    finished r (one (rolls_back a command.generation n))
finish_commit-Changes b r a command n (err rejected) =
    finished r (one (rolls_back a command.generation n))
finish_commit-Changes b r a command n _ = finished r (invalidate_session-Changes (finish b r) r n)

pub finish_cancel-Changes :
    (b : SessionBroker) (r a : ℕ) (command : CancelRequest) (g n : ℕ) (result : BackendResult)
    → Changes [] b (finish_cancel b r a command g n result).0
unfolding finish_cancel
finish_cancel-Changes b r a command g n (ok payload) = one (registers _)
finish_cancel-Changes b r a command g n (err cancelled) = finished r (one (rolls_back a g n))
finish_cancel-Changes b r a command g n (err rejected) = finished r (one (rolls_back a g n))
finish_cancel-Changes b r a command g n _ = finished r (invalidate_session-Changes (finish b r) r n)

pub finish_focus_lost-Changes :
    (b : SessionBroker) (r : ℕ) (command : FocusLostRequest) (n : ℕ) (result : BackendResult)
    → Changes [] b (finish_focus_lost b r command n result).0
unfolding finish_focus_lost
finish_focus_lost-Changes b r command n (err session_invalidated) =
    finished r (invalidate_session-Changes (finish b r) r n)
finish_focus_lost-Changes b r command n _ = finished r (one (removes command.session_id))

pub finish_create-Changes :
    (b : SessionBroker) (r : ℕ) (command : CreateSessionRequest) (result : BackendResult)
    → Changes [] b (finish_create b r command result).0
unfolding finish_create
finish_create-Changes b r command (ok (ResponsePayload.created p)) =
    elim (Bool-cases (p.session_id == command.session_id)) [
      | inl e ↦ rw (e, finish_create) (one (registers _))
      | inr e ↦ rw (e, finish_create) (one (registers _))
    ]
finish_create-Changes b r command (err session_invalidated) =
    finished r (invalidate_session-Changes (finish b r) r 0)
finish_create-Changes b r command _ = one (registers _)

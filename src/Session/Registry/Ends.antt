-- ===== src/Session/Registry/Ends.antt =====
-- The cancellation registry behind the answer of the backend in session.rs.
use kanai.Base.{remove, ℕ, ◌==◌, ◌≡◌, refl, lookup, ok, err, inl, inr, Bool-cases, Option-cases}
use kanai.Protocol.Candidates.{CompositionState}
use kanai.Protocol.Requests.{
  KeyRequest, EditRequest, ConvertRequest, CommitRequest, CancelRequest, FocusLostRequest,
  CreateSessionRequest,
}
use kanai.Protocol.Responses.{
  ResponsePayload, KeyResponse, EditResponse, ConvertResponse, CommitResponse, validate_payload,
  no_fallback,
}
use kanai.Session.State.{
  SessionBroker, finish, remember_state, clear_state, rollback_state_change, invalidate_session,
  invalidate_all_sessions,
}
use kanai.Session.Finish.{
  BackendResult, cancelled, rejected, session_invalidated, passes, finish_key, finish_edit,
  finish_convert, finish_commit, finish_cancel, finish_focus_lost, finish_create, state_from_key,
  state_from_edit, state_from_convert,
}

remember_state-cancellations :
    (b : SessionBroker) (j : ℕ) (state : CompositionState)
    → (remember_state b j state).cancellations ≡ b.cancellations
unfolding remember_state
remember_state-cancellations b j state = elim (Option-cases (lookup j b.sessions)) [
  | inl f ↦ rw (f, remember_state) refl
  | inr (d, f) ↦ rw (f, remember_state) refl
]

clear_state-cancellations :
    (b : SessionBroker) (j a : ℕ) → (clear_state b j a).cancellations ≡ b.cancellations
unfolding clear_state
clear_state-cancellations b j a = elim (Option-cases (lookup j b.sessions)) [
  | inl f ↦ rw (f, clear_state) refl
  | inr (d, f) ↦ elim (Bool-cases (d == a)) [
    | inl g ↦ rw (f, g, clear_state) refl
    | inr g ↦ rw (f, g, clear_state) refl
  ]
]

rollback_state_change-cancellations :
    (b : SessionBroker) (a g n : ℕ)
    → (rollback_state_change b a g n).cancellations ≡ b.cancellations
unfolding rollback_state_change
rollback_state_change-cancellations b a g n = elim (Bool-cases ((b.store a).clock == n)) [
  | inl f ↦ rw (f, rollback_state_change) refl
  | inr f ↦ rw (f, rollback_state_change) refl
]

pub finish_key-cancellations :
    (b : SessionBroker) (r a : ℕ) (c : KeyRequest) (n : ℕ) (result : BackendResult)
    → (finish_key b r a c n result).0.cancellations ≡ remove r b.cancellations
unfolding finish_key invalidate_session invalidate_all_sessions
finish_key-cancellations b r a c n (ok (ResponsePayload.key p)) =
    elim (Bool-cases (p.session_id == c.session_id)) [
      | inr f ↦ rw (f, finish_key) refl
      | inl f ↦
          let p' : KeyResponse = record p { generation = n; fallback = no_fallback } in
          elim (Bool-cases (passes (validate_payload (ResponsePayload.key p')))) [
            | inr g ↦ rw (f, g, finish_key) refl
            | inl g ↦
                rw (f, g, finish_key)
                  (remember_state-cancellations (finish b r) c.session_id (state_from_key p'))
          ]
    ]
finish_key-cancellations b r a c n (err cancelled) =
    rollback_state_change-cancellations (finish b r) a c.generation n
finish_key-cancellations b r a c n (err rejected) =
    rollback_state_change-cancellations (finish b r) a c.generation n
finish_key-cancellations b r a c n _ = refl

pub finish_edit-cancellations :
    (b : SessionBroker) (r a : ℕ) (c : EditRequest) (n : ℕ) (result : BackendResult)
    → (finish_edit b r a c n result).0.cancellations ≡ remove r b.cancellations
unfolding finish_edit invalidate_session invalidate_all_sessions
finish_edit-cancellations b r a c n (ok (ResponsePayload.edit p)) =
    elim (Bool-cases (p.session_id == c.session_id)) [
      | inr f ↦ rw (f, finish_edit) refl
      | inl f ↦
          let p' : EditResponse = record p { generation = n; fallback = no_fallback } in
          elim (Bool-cases (passes (validate_payload (ResponsePayload.edit p')))) [
            | inr g ↦ rw (f, g, finish_edit) refl
            | inl g ↦
                rw (f, g, finish_edit)
                  (remember_state-cancellations (finish b r) c.session_id (state_from_edit p'))
          ]
    ]
finish_edit-cancellations b r a c n (err cancelled) =
    rollback_state_change-cancellations (finish b r) a c.generation n
finish_edit-cancellations b r a c n (err rejected) =
    rollback_state_change-cancellations (finish b r) a c.generation n
finish_edit-cancellations b r a c n _ = refl

pub finish_convert-cancellations :
    (b : SessionBroker) (r a : ℕ) (c : ConvertRequest) (n : ℕ) (result : BackendResult)
    → (finish_convert b r a c n result).0.cancellations ≡ remove r b.cancellations
unfolding finish_convert invalidate_session invalidate_all_sessions
finish_convert-cancellations b r a c n (ok (ResponsePayload.convert p)) =
    elim (Bool-cases (p.session_id == c.session_id)) [
      | inr f ↦ rw (f, finish_convert) refl
      | inl f ↦
          let p' : ConvertResponse = record p { generation = n; fallback = no_fallback } in
          elim (Bool-cases (passes (validate_payload (ResponsePayload.convert p')))) [
            | inr g ↦ rw (f, g, finish_convert) refl
            | inl g ↦
                rw (f, g, finish_convert)
                  (remember_state-cancellations (finish b r) c.session_id (state_from_convert p'))
          ]
    ]
finish_convert-cancellations b r a c n (err cancelled) =
    rollback_state_change-cancellations (finish b r) a c.generation n
finish_convert-cancellations b r a c n (err rejected) =
    rollback_state_change-cancellations (finish b r) a c.generation n
finish_convert-cancellations b r a c n _ = refl

pub finish_commit-cancellations :
    (b : SessionBroker) (r a : ℕ) (c : CommitRequest) (n : ℕ) (result : BackendResult)
    → (finish_commit b r a c n result).0.cancellations ≡ remove r b.cancellations
unfolding finish_commit invalidate_session invalidate_all_sessions
finish_commit-cancellations b r a c n (ok (ResponsePayload.commit p)) =
    elim (Bool-cases (p.session_id == c.session_id)) [
      | inr f ↦ rw (f, finish_commit) refl
      | inl f ↦
          let p' : CommitResponse = record p { generation = n } in
          elim (Bool-cases (passes (validate_payload (ResponsePayload.commit p')))) [
            | inr g ↦ rw (f, g, finish_commit) refl
            | inl g ↦
                rw (f, g, finish_commit) (clear_state-cancellations (finish b r) c.session_id a)
          ]
    ]
finish_commit-cancellations b r a c n (err cancelled) =
    rollback_state_change-cancellations (finish b r) a c.generation n
finish_commit-cancellations b r a c n (err rejected) =
    rollback_state_change-cancellations (finish b r) a c.generation n
finish_commit-cancellations b r a c n _ = refl

pub finish_cancel-cancellations :
    (b : SessionBroker) (r a : ℕ) (c : CancelRequest) (g n : ℕ) (result : BackendResult)
    → (finish_cancel b r a c g n result).0.cancellations ≡ remove r b.cancellations
unfolding finish_cancel invalidate_session invalidate_all_sessions
finish_cancel-cancellations b r a c g n (ok payload) = refl
finish_cancel-cancellations b r a c g n (err cancelled) =
    rollback_state_change-cancellations (finish b r) a g n
finish_cancel-cancellations b r a c g n (err rejected) =
    rollback_state_change-cancellations (finish b r) a g n
finish_cancel-cancellations b r a c g n _ = refl

pub finish_focus_lost-cancellations :
    (b : SessionBroker) (r : ℕ) (c : FocusLostRequest) (n : ℕ) (result : BackendResult)
    → (finish_focus_lost b r c n result).0.cancellations ≡ remove r b.cancellations
unfolding finish_focus_lost invalidate_session invalidate_all_sessions
finish_focus_lost-cancellations b r c n (err session_invalidated) = refl
finish_focus_lost-cancellations b r c n _ = refl

pub finish_create-cancellations :
    (b : SessionBroker) (r : ℕ) (c : CreateSessionRequest) (result : BackendResult)
    → (finish_create b r c result).0.cancellations ≡ remove r b.cancellations
unfolding finish_create invalidate_session invalidate_all_sessions
finish_create-cancellations b r c (ok (ResponsePayload.created p)) =
    elim (Bool-cases (p.session_id == c.session_id)) [
      | inl f ↦ rw (f, finish_create) refl
      | inr f ↦ rw (f, finish_create) refl
    ]
finish_create-cancellations b r c (err session_invalidated) = refl
finish_create-cancellations b r c _ = refl

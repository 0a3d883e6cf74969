-- ===== src/Session/Wire/Ends.antt =====
-- The checks of the wire on the replies of session.rs behind the answer of the backend.
use kanai.Base.{ℕ, ◌==◌, true, ◌≡◌, ok, err, inl, inr, Bool-cases}
use kanai.Protocol.Text.{validate_id}
use kanai.Protocol.Requests.{
  KeyRequest, EditRequest, ConvertRequest, CommitRequest, CancelRequest, FocusLostRequest,
  CreateSessionRequest, validate_paging, validate_target,
}
use kanai.Protocol.Responses.{
  ResponsePayload, KeyResponse, EditResponse, ConvertResponse, CommitResponse, validate_payload,
  no_fallback, succeed,
}
use kanai.Session.State.{SessionBroker, finish, fail, invalidate_session, rollback_state_change}
use kanai.Session.Finish.{
  BackendResult, cancelled, rejected, passes, finish_key, finish_edit, finish_convert,
  finish_commit, finish_cancel, finish_focus_lost, finish_create, session_invalidated,
}
use kanai.Session.Invariant.{IsValid}
use kanai.Session.Wire.{
  Encodable, IsId, passes-both, fallback_key-Encodable, fallback_edit-Encodable,
  fallback_convert-Encodable, fallback_state-Fallback, finished-IsValid, rolled_back-IsValid,
}

pub finish_key-Encodable :
    (b : SessionBroker) (r a : ℕ) (c : KeyRequest) (n : ℕ) (result : BackendResult)
    → IsId c.session_id
    → IsValid b
    → Encodable (finish_key b r a c n result).1
unfolding finish_key succeed invalidate_session fail
finish_key-Encodable b r a c n (ok (ResponsePayload.key p)) known v =
    elim (Bool-cases (p.session_id == c.session_id)) [
      | inr e ↦ rw (e, finish_key) tt
      | inl e ↦
          let p' : KeyResponse = record p { generation = n; fallback = no_fallback } in
          elim (Bool-cases (passes (validate_payload (ResponsePayload.key p')))) [
            | inr f ↦ rw (e, f, finish_key) tt
            | inl f ↦ rw (e, f, finish_key) f
          ]
    ]
finish_key-Encodable b r a c n (err cancelled) known v =
    fallback_key-Encodable r c.session_id c.generation _ known
      (fallback_state-Fallback (finish b r) c.session_id (finished-IsValid b r v))
finish_key-Encodable b r a c n (err rejected) known v =
    fallback_key-Encodable r c.session_id c.generation _ known
      (fallback_state-Fallback (finish b r) c.session_id (finished-IsValid b r v))
finish_key-Encodable b r a c n _ known v = tt

pub finish_edit-Encodable :
    (b : SessionBroker) (r a : ℕ) (c : EditRequest) (n : ℕ) (result : BackendResult)
    → IsId c.session_id
    → IsValid b
    → Encodable (finish_edit b r a c n result).1
unfolding finish_edit succeed invalidate_session fail
finish_edit-Encodable b r a c n (ok (ResponsePayload.edit p)) known v =
    elim (Bool-cases (p.session_id == c.session_id)) [
      | inr e ↦ rw (e, finish_edit) tt
      | inl e ↦
          let p' : EditResponse = record p { generation = n; fallback = no_fallback } in
          elim (Bool-cases (passes (validate_payload (ResponsePayload.edit p')))) [
            | inr f ↦ rw (e, f, finish_edit) tt
            | inl f ↦ rw (e, f, finish_edit) f
          ]
    ]
finish_edit-Encodable b r a c n (err cancelled) known v =
    fallback_edit-Encodable r c.session_id c.generation _ known
      (fallback_state-Fallback (finish b r) c.session_id (finished-IsValid b r v))
finish_edit-Encodable b r a c n (err rejected) known v =
    fallback_edit-Encodable r c.session_id c.generation _ known
      (fallback_state-Fallback (finish b r) c.session_id (finished-IsValid b r v))
finish_edit-Encodable b r a c n _ known v = tt

pub finish_convert-Encodable :
    (b : SessionBroker) (r a : ℕ) (c : ConvertRequest) (n : ℕ) (result : BackendResult)
    → IsId c.session_id
    → passes (validate_paging c.page c.page_size) ≡ true
    → IsValid b
    → Encodable (finish_convert b r a c n result).1
unfolding finish_convert succeed invalidate_session fail
finish_convert-Encodable b r a c n (ok (ResponsePayload.convert p)) known paged v =
    elim (Bool-cases (p.session_id == c.session_id)) [
      | inr e ↦ rw (e, finish_convert) tt
      | inl e ↦
          let p' : ConvertResponse = record p { generation = n; fallback = no_fallback } in
          elim (Bool-cases (passes (validate_payload (ResponsePayload.convert p')))) [
            | inr f ↦ rw (e, f, finish_convert) tt
            | inl f ↦ rw (e, f, finish_convert) f
          ]
    ]
finish_convert-Encodable b r a c n (err cancelled) known paged v =
    fallback_convert-Encodable (rollback_state_change (finish b r) a c.generation n) r c
      c.generation known paged (rolled_back-IsValid b r a c.generation n v)
finish_convert-Encodable b r a c n (err rejected) known paged v =
    fallback_convert-Encodable (rollback_state_change (finish b r) a c.generation n) r c
      c.generation known paged (rolled_back-IsValid b r a c.generation n v)
finish_convert-Encodable b r a c n _ known paged v = tt

pub finish_commit-Encodable :
    (b : SessionBroker) (r a : ℕ) (c : CommitRequest) (n : ℕ) (result : BackendResult)
    → Encodable (finish_commit b r a c n result).1
unfolding finish_commit succeed invalidate_session fail
finish_commit-Encodable b r a c n (ok (ResponsePayload.commit p)) =
    elim (Bool-cases (p.session_id == c.session_id)) [
      | inr e ↦ rw (e, finish_commit) tt
      | inl e ↦
          let p' : CommitResponse = record p { generation = n } in
          elim (Bool-cases (passes (validate_payload (ResponsePayload.commit p')))) [
            | inr f ↦ rw (e, f, finish_commit) tt
            | inl f ↦ rw (e, f, finish_commit) f
          ]
    ]
finish_commit-Encodable b r a c n (err cancelled) = tt
finish_commit-Encodable b r a c n (err rejected) = tt
finish_commit-Encodable b r a c n _ = tt

pub finish_cancel-Encodable :
    (b : SessionBroker) (r a : ℕ) (c : CancelRequest) (g n : ℕ) (result : BackendResult)
    → IsId c.session_id
    → passes (validate_target c.target_request_id) ≡ true
    → Encodable (finish_cancel b r a c g n result).1
unfolding finish_cancel succeed invalidate_session fail validate_payload
finish_cancel-Encodable b r a c g n (ok payload) known target =
    passes-both (validate_id "sessionId" c.session_id) _ known target
finish_cancel-Encodable b r a c g n (err cancelled) known target = tt
finish_cancel-Encodable b r a c g n (err rejected) known target = tt
finish_cancel-Encodable b r a c g n _ known target = tt

pub finish_focus_lost-Encodable :
    (b : SessionBroker) (r : ℕ) (c : FocusLostRequest) (n : ℕ) (result : BackendResult)
    → IsId c.session_id
    → Encodable (finish_focus_lost b r c n result).1
unfolding finish_focus_lost succeed invalidate_session fail validate_payload
finish_focus_lost-Encodable b r c n (err session_invalidated) known = tt
finish_focus_lost-Encodable b r c n _ known = known

pub finish_create-Encodable :
    (b : SessionBroker) (r : ℕ) (c : CreateSessionRequest) (result : BackendResult)
    → IsId c.session_id
    → Encodable (finish_create b r c result).1
unfolding finish_create succeed invalidate_session fail validate_payload
finish_create-Encodable b r c (ok (ResponsePayload.created p)) known =
    elim (Bool-cases (p.session_id == c.session_id)) [
      | inl e ↦ rw (e, finish_create) known
      | inr e ↦ rw (e, finish_create) known
    ]
finish_create-Encodable b r c (err session_invalidated) known = tt
finish_create-Encodable b r c _ known = known

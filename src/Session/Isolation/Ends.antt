-- ===== src/Session/Isolation/Ends.antt =====
-- The parts of the operations of session.rs behind the answer of the backend, and the entries of
-- other sessions.
use kanai.Base.{
  ℕ, ◌==◌, true, false, ◌≡◌, refl, lookup, ok, err, inl, inr, Bool-cases, Option-cases, arith,
}
use kanai.Protocol.Candidates.{CompositionState}
use kanai.Protocol.Requests.{
  RequestCommand, KeyRequest, EditRequest, ConvertRequest, CommitRequest, CancelRequest,
  FocusLostRequest, CreateSessionRequest,
}
use kanai.Protocol.Responses.{
  ResponsePayload, KeyResponse, EditResponse, ConvertResponse, CommitResponse, validate_payload,
  no_fallback,
}
use kanai.Session.State.{
  SessionBroker, SessionEntry, finish, remember_state, clear_state, rollback_state_change,
  invalidate_session,
}
use kanai.Session.Finish.{
  BackendResult, cancelled, rejected, session_invalidated, passes, finish_key, finish_edit,
  finish_convert, finish_commit, finish_cancel, finish_focus_lost, finish_create, state_from_key,
  state_from_edit, state_from_convert,
}
use kanai.Session.Isolation.Loss.{gives_up}
use kanai.Session.Isolation.{
  invalidate_all_sessions-GivenUp, Holds, Spared, Apart, write-Holds, remove-Holds,
}

module _ (e : SessionEntry) (x id : ℕ) where
  lost :
      {Loss : Type 0} (b : SessionBroker) (r n : ℕ)
      → Loss
      → Holds e x id b
      → Spared Loss e x id (invalidate_session b r n).0
  unfolding invalidate_session
  lost b r n loss (live, same) = inl (loss, invalidate_all_sessions-GivenUp b id x live)

  remember_state-Holds :
      (b : SessionBroker) (j : ℕ) (state : CompositionState)
      → Apart j x b
      → Holds e x id b
      → Holds e x id (remember_state b j state)
  unfolding remember_state
  remember_state-Holds b j state apart h = elim (Option-cases (lookup j b.sessions)) [
    | inl f ↦ rw (f, remember_state) h
    | inr (d, f) ↦ rw (f, remember_state) (write-Holds e x id b d _ (apart d f) h)
  ]

  clear_state-Holds :
      (b : SessionBroker) (j a : ℕ)
      → a == x ≡ false
      → Holds e x id b
      → Holds e x id (clear_state b j a)
  unfolding clear_state
  clear_state-Holds b j a other h = elim (Option-cases (lookup j b.sessions)) [
    | inl f ↦ rw (f, clear_state) h
    | inr (d, f) ↦ elim (Bool-cases (d == a)) [
      | inl g ↦ rw (f, g, clear_state) (write-Holds e x id b d _ (ground (arith, g, other)) h)
      | inr g ↦ rw (f, g, clear_state) h
    ]
  ]

  rollback_state_change-Holds :
      (b : SessionBroker) (a g n : ℕ)
      → a == x ≡ false
      → Holds e x id b
      → Holds e x id (rollback_state_change b a g n)
  unfolding rollback_state_change
  rollback_state_change-Holds b a g n other h = elim (Bool-cases ((b.store a).clock == n)) [
    | inl f ↦ rw (f, rollback_state_change) (write-Holds e x id b a _ other h)
    | inr f ↦ rw (f, rollback_state_change) h
  ]

  pub finish_key-Spared :
      (b : SessionBroker) (r a : ℕ) (c : KeyRequest) (n : ℕ) (result : BackendResult)
      → Apart c.session_id x b
      → a == x ≡ false
      → Holds e x id b
      → Spared
          (gives_up (RequestCommand.key c) n result ≡ true)
          e
          x
          id
          (finish_key b r a c n result).0
  unfolding finish_key
  finish_key-Spared b r a c n (ok (ResponsePayload.key p)) apart other h =
      elim (Bool-cases (p.session_id == c.session_id)) [
        | inr f ↦ rw (f, finish_key) (lost (finish b r) r n refl h)
        | inl f ↦
            let p' : KeyResponse = record p { generation = n; fallback = no_fallback } in
            elim (Bool-cases (passes (validate_payload (ResponsePayload.key p')))) [
              | inr g ↦ rw (f, g, finish_key) (lost (finish b r) r n refl h)
              | inl g ↦
                  rw (f, g, finish_key)
                    (inr
                      (remember_state-Holds (finish b r) c.session_id (state_from_key p') apart h))
            ]
      ]
  finish_key-Spared b r a c n (err cancelled) apart other h =
      inr (rollback_state_change-Holds (finish b r) a c.generation n other h)
  finish_key-Spared b r a c n (err rejected) apart other h =
      inr (rollback_state_change-Holds (finish b r) a c.generation n other h)
  finish_key-Spared b r a c n _ apart other h = lost (finish b r) r n refl h

  pub finish_edit-Spared :
      (b : SessionBroker) (r a : ℕ) (c : EditRequest) (n : ℕ) (result : BackendResult)
      → Apart c.session_id x b
      → a == x ≡ false
      → Holds e x id b
      → Spared
          (gives_up (RequestCommand.edit c) n result ≡ true)
          e
          x
          id
          (finish_edit b r a c n result).0
  unfolding finish_edit
  finish_edit-Spared b r a c n (ok (ResponsePayload.edit p)) apart other h =
      elim (Bool-cases (p.session_id == c.session_id)) [
        | inr f ↦ rw (f, finish_edit) (lost (finish b r) r n refl h)
        | inl f ↦
            let p' : EditResponse = record p { generation = n; fallback = no_fallback } in
            elim (Bool-cases (passes (validate_payload (ResponsePayload.edit p')))) [
              | inr g ↦ rw (f, g, finish_edit) (lost (finish b r) r n refl h)
              | inl g ↦
                  rw (f, g, finish_edit)
                    (inr
                      (remember_state-Holds (finish b r) c.session_id (state_from_edit p') apart h))
            ]
      ]
  finish_edit-Spared b r a c n (err cancelled) apart other h =
      inr (rollback_state_change-Holds (finish b r) a c.generation n other h)
  finish_edit-Spared b r a c n (err rejected) apart other h =
      inr (rollback_state_change-Holds (finish b r) a c.generation n other h)
  finish_edit-Spared b r a c n _ apart other h = lost (finish b r) r n refl h

  pub finish_convert-Spared :
      (b : SessionBroker) (r a : ℕ) (c : ConvertRequest) (n : ℕ) (result : BackendResult)
      → Apart c.session_id x b
      → a == x ≡ false
      → Holds e x id b
      → Spared
          (gives_up (RequestCommand.convert c) n result ≡ true)
          e
          x
          id
          (finish_convert b r a c n result).0
  unfolding finish_convert
  finish_convert-Spared b r a c n (ok (ResponsePayload.convert p)) apart other h =
      elim (Bool-cases (p.session_id == c.session_id)) [
        | inr f ↦ rw (f, finish_convert) (lost (finish b r) r n refl h)
        | inl f ↦
            let p' : ConvertResponse = record p { generation = n; fallback = no_fallback } in
            elim (Bool-cases (passes (validate_payload (ResponsePayload.convert p')))) [
              | inr g ↦ rw (f, g, finish_convert) (lost (finish b r) r n refl h)
              | inl g ↦
                  rw (f, g, finish_convert)
                    (inr (
                      remember_state-Holds (finish b r) c.session_id (state_from_convert p') apart
                        h))
            ]
      ]
  finish_convert-Spared b r a c n (err cancelled) apart other h =
      inr (rollback_state_change-Holds (finish b r) a c.generation n other h)
  finish_convert-Spared b r a c n (err rejected) apart other h =
      inr (rollback_state_change-Holds (finish b r) a c.generation n other h)
  finish_convert-Spared b r a c n _ apart other h = lost (finish b r) r n refl h

  pub finish_commit-Spared :
      (b : SessionBroker) (r a : ℕ) (c : CommitRequest) (n : ℕ) (result : BackendResult)
      → a == x ≡ false
      → Holds e x id b
      → Spared
          (gives_up (RequestCommand.commit c) n result ≡ true)
          e
          x
          id
          (finish_commit b r a c n result).0
  unfolding finish_commit
  finish_commit-Spared b r a c n (ok (ResponsePayload.commit p)) other h =
      elim (Bool-cases (p.session_id == c.session_id)) [
        | inr f ↦ rw (f, finish_commit) (lost (finish b r) r n refl h)
        | inl f ↦
            let p' : CommitResponse = record p { generation = n } in
            elim (Bool-cases (passes (validate_payload (ResponsePayload.commit p')))) [
              | inr g ↦ rw (f, g, finish_commit) (lost (finish b r) r n refl h)
              | inl g ↦
                  rw (f, g, finish_commit)
                    (inr (clear_state-Holds (finish b r) c.session_id a other h))
            ]
      ]
  finish_commit-Spared b r a c n (err cancelled) other h =
      inr (rollback_state_change-Holds (finish b r) a c.generation n other h)
  finish_commit-Spared b r a c n (err rejected) other h =
      inr (rollback_state_change-Holds (finish b r) a c.generation n other h)
  finish_commit-Spared b r a c n _ other h = lost (finish b r) r n refl h

  pub finish_cancel-Spared :
      (b : SessionBroker) (r a : ℕ) (c : CancelRequest) (g n : ℕ) (result : BackendResult)
      → a == x ≡ false
      → Holds e x id b
      → Spared
          (gives_up (RequestCommand.cancel c) n result ≡ true)
          e
          x
          id
          (finish_cancel b r a c g n result).0
  unfolding finish_cancel
  finish_cancel-Spared b r a c g n (ok payload) other h = inr h
  finish_cancel-Spared b r a c g n (err cancelled) other h =
      inr (rollback_state_change-Holds (finish b r) a g n other h)
  finish_cancel-Spared b r a c g n (err rejected) other h =
      inr (rollback_state_change-Holds (finish b r) a g n other h)
  finish_cancel-Spared b r a c g n _ other h = lost (finish b r) r n refl h

  pub finish_focus_lost-Spared :
      (b : SessionBroker) (r : ℕ) (c : FocusLostRequest) (n : ℕ) (result : BackendResult)
      → c.session_id == id ≡ false
      → Holds e x id b
      → Spared
          (gives_up (RequestCommand.focus_lost c) n result ≡ true)
          e
          x
          id
          (finish_focus_lost b r c n result).0
  unfolding finish_focus_lost
  finish_focus_lost-Spared b r c n (err session_invalidated) away h = lost (finish b r) r n refl h
  finish_focus_lost-Spared b r c n _ away h =
      inr (remove-Holds e x id (finish b r) c.session_id away h)

  pub finish_create-Spared :
      (b : SessionBroker) (r : ℕ) (c : CreateSessionRequest) (result : BackendResult)
      → Holds e x id b
      → Spared
          (gives_up (RequestCommand.create_session c) 0 result ≡ true)
          e
          x
          id
          (finish_create b r c result).0
  unfolding finish_create
  finish_create-Spared b r c (ok (ResponsePayload.created p)) h =
      elim (Bool-cases (p.session_id == c.session_id)) [
        | inl f ↦ rw (f, finish_create) (inr h)
        | inr f ↦ rw (f, finish_create) (inr h)
      ]
  finish_create-Spared b r c (err session_invalidated) h = lost (finish b r) r 0 refl h
  finish_create-Spared b r c _ h = inr h

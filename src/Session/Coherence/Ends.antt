-- ===== src/Session/Coherence/Ends.antt =====
-- The generations in the replies of session.rs behind the answer of the backend.
use kanai.Base.{
  ℕ, ◌==◌, Option, none, some, ◌≡◌, refl, sym, ap, subst, ◌∙◌, lookup, lookup-remove, ok, err, inl,
  inr, Bool-cases, Option-cases, arith,
}
use kanai.Protocol.Candidates.{CompositionState}
use kanai.Protocol.Requests.{
  KeyRequest, EditRequest, ConvertRequest, CommitRequest, CancelRequest, FocusLostRequest,
  CreateSessionRequest,
}
use kanai.Protocol.Responses.{
  ResponsePayload, KeyResponse, EditResponse, ConvertResponse, CommitResponse, validate_payload,
  no_fallback, succeed, payload_generation,
}
use kanai.Session.State.{
  SessionBroker, finish, fail, invalidate_session, remember_state, clear_state,
  rollback_state_change,
}
use kanai.Session.Finish.{
  BackendResult, cancelled, rejected, session_invalidated, passes, finish_key, finish_edit,
  finish_convert, finish_commit, finish_cancel, finish_focus_lost, finish_create, state_from_key,
  state_from_edit, state_from_convert,
}
use kanai.Session.Fallback.{fallback_key, fallback_edit, fallback_convert}
use kanai.Session.Changes.Kept.{kept}
use kanai.Session.Coherence.{Names, Coherent}

-- The session is this entry, at this generation.
abbrev pub At : SessionBroker → ℕ → ℕ → ℕ → Type 0
At b id a n = (lookup id b.sessions ≡ some a) × ((b.store a).clock ≡ n)

-- Writes that keep the sessions and the clock.
abbrev Same : SessionBroker → SessionBroker → Type 0
Same b c = (c.sessions ≡ b.sessions) × ((a : ℕ) → (c.store a).clock ≡ (b.store a).clock)

pub At-Names : (b : SessionBroker) (id a n : ℕ) → At b id a n → Names (some n) id b
At-Names b id a n (live, clock) c h =
    subst (λ d. (b.store d).clock ≡ n) (ground (arith, live, h)) clock

remember_state-Same :
    (b : SessionBroker) (id : ℕ) (state : CompositionState) → Same b (remember_state b id state)
unfolding remember_state
remember_state-Same b id state = elim (Option-cases (lookup id b.sessions)) [
  | inl e ↦ rw (e, remember_state) (refl, λ c. refl)
  | inr (a, e) ↦ rw (e, remember_state) (refl, λ c. kept (λ e. e.clock) b.store a _ c refl)
]

clear_state-Same : (b : SessionBroker) (id a : ℕ) → Same b (clear_state b id a)
unfolding clear_state
clear_state-Same b id a = elim (Option-cases (lookup id b.sessions)) [
  | inl e ↦ rw (e, clear_state) (refl, λ c. refl)
  | inr (d, e) ↦ elim (Bool-cases (d == a)) [
    | inl f ↦ rw (e, f, clear_state) (refl, λ c. kept (λ e. e.clock) b.store d _ c refl)
    | inr f ↦ rw (e, f, clear_state) (refl, λ c. refl)
  ]
]

Same-Names : (b c : SessionBroker) (id : ℕ) (n : Option ℕ) → Same b c → Names n id b → Names n id c
Same-Names b c id none h k = tt
Same-Names b c id (some n) (same, clocks) k =
    λ a live. clocks a ∙ k a (ap (λ m. lookup id m) (sym same) ∙ live)

-- From the generation that the operation began, the clock goes back to the earlier one.
rollback_state_change-At :
    (b : SessionBroker) (id a g n : ℕ) → At b id a n → At (rollback_state_change b a g n) id a g
unfolding rollback_state_change
rollback_state_change-At b id a g n (live, clock) = ground (arith, live, clock)

invalidate_session-Coherent :
    (b : SessionBroker) (id r n : ℕ) → Coherent id (invalidate_session b r n)
unfolding invalidate_session fail
invalidate_session-Coherent b id r n = tt

remembered-Names :
    (b : SessionBroker) (id a n : ℕ) (state : CompositionState)
    → At b id a n
    → Names (some n) id (remember_state b id state)
remembered-Names b id a n state h =
    Same-Names b (remember_state b id state) id (some n) (remember_state-Same b id state)
      (At-Names b id a n h)

cleared-Names :
    (b : SessionBroker) (id a n : ℕ) → At b id a n → Names (some n) id (clear_state b id a)
cleared-Names b id a n h =
    Same-Names b (clear_state b id a) id (some n) (clear_state-Same b id a) (At-Names b id a n h)

rolled_back-Names :
    (b : SessionBroker) (id a g n : ℕ)
    → At b id a n
    → Names (some g) id (rollback_state_change b a g n)
rolled_back-Names b id a g n h =
    At-Names (rollback_state_change b a g n) id a g (rollback_state_change-At b id a g n h)

pub finish_key-Coherent :
    (b : SessionBroker) (r a : ℕ) (c : KeyRequest) (n : ℕ) (result : BackendResult)
    → At b c.session_id a n
    → Coherent c.session_id (finish_key b r a c n result)
unfolding finish_key succeed payload_generation fallback_key
finish_key-Coherent b r a c n (ok (ResponsePayload.key p)) h =
    elim (Bool-cases (p.session_id == c.session_id)) [
      | inr e ↦ rw (e, finish_key) (invalidate_session-Coherent (finish b r) c.session_id r n)
      | inl e ↦
          let p' : KeyResponse = record p { generation = n; fallback = no_fallback } in
          elim (Bool-cases (passes (validate_payload (ResponsePayload.key p')))) [
            | inr f ↦
                rw (e, f, finish_key) (invalidate_session-Coherent (finish b r) c.session_id r n)
            | inl f ↦
                rw (e, f, finish_key)
                  (remembered-Names (finish b r) c.session_id a n (state_from_key p') h)
          ]
    ]
finish_key-Coherent b r a c n (err cancelled) h =
    rolled_back-Names (finish b r) c.session_id a c.generation n h
finish_key-Coherent b r a c n (err rejected) h =
    rolled_back-Names (finish b r) c.session_id a c.generation n h
finish_key-Coherent b r a c n _ h = invalidate_session-Coherent (finish b r) c.session_id r n

pub finish_edit-Coherent :
    (b : SessionBroker) (r a : ℕ) (c : EditRequest) (n : ℕ) (result : BackendResult)
    → At b c.session_id a n
    → Coherent c.session_id (finish_edit b r a c n result)
unfolding finish_edit succeed payload_generation fallback_edit
finish_edit-Coherent b r a c n (ok (ResponsePayload.edit p)) h =
    elim (Bool-cases (p.session_id == c.session_id)) [
      | inr e ↦ rw (e, finish_edit) (invalidate_session-Coherent (finish b r) c.session_id r n)
      | inl e ↦
          let p' : EditResponse = record p { generation = n; fallback = no_fallback } in
          elim (Bool-cases (passes (validate_payload (ResponsePayload.edit p')))) [
            | inr f ↦
                rw (e, f, finish_edit) (invalidate_session-Coherent (finish b r) c.session_id r n)
            | inl f ↦
                rw (e, f, finish_edit)
                  (remembered-Names (finish b r) c.session_id a n (state_from_edit p') h)
          ]
    ]
finish_edit-Coherent b r a c n (err cancelled) h =
    rolled_back-Names (finish b r) c.session_id a c.generation n h
finish_edit-Coherent b r a c n (err rejected) h =
    rolled_back-Names (finish b r) c.session_id a c.generation n h
finish_edit-Coherent b r a c n _ h = invalidate_session-Coherent (finish b r) c.session_id r n

pub finish_convert-Coherent :
    (b : SessionBroker) (r a : ℕ) (c : ConvertRequest) (n : ℕ) (result : BackendResult)
    → At b c.session_id a n
    → Coherent c.session_id (finish_convert b r a c n result)
unfolding finish_convert succeed payload_generation fallback_convert
finish_convert-Coherent b r a c n (ok (ResponsePayload.convert p)) h =
    elim (Bool-cases (p.session_id == c.session_id)) [
      | inr e ↦ rw (e, finish_convert) (invalidate_session-Coherent (finish b r) c.session_id r n)
      | inl e ↦
          let p' : ConvertResponse = record p { generation = n; fallback = no_fallback } in
          elim (Bool-cases (passes (validate_payload (ResponsePayload.convert p')))) [
            | inr f ↦
                rw (e, f, finish_convert)
                  (invalidate_session-Coherent (finish b r) c.session_id r n)
            | inl f ↦
                rw (e, f, finish_convert)
                  (remembered-Names (finish b r) c.session_id a n (state_from_convert p') h)
          ]
    ]
finish_convert-Coherent b r a c n (err cancelled) h =
    rolled_back-Names (finish b r) c.session_id a c.generation n h
finish_convert-Coherent b r a c n (err rejected) h =
    rolled_back-Names (finish b r) c.session_id a c.generation n h
finish_convert-Coherent b r a c n _ h = invalidate_session-Coherent (finish b r) c.session_id r n

pub finish_commit-Coherent :
    (b : SessionBroker) (r a : ℕ) (c : CommitRequest) (n : ℕ) (result : BackendResult)
    → At b c.session_id a n
    → Coherent c.session_id (finish_commit b r a c n result)
unfolding finish_commit succeed payload_generation fail
finish_commit-Coherent b r a c n (ok (ResponsePayload.commit p)) h =
    elim (Bool-cases (p.session_id == c.session_id)) [
      | inr e ↦ rw (e, finish_commit) (invalidate_session-Coherent (finish b r) c.session_id r n)
      | inl e ↦
          let p' : CommitResponse = record p { generation = n } in
          elim (Bool-cases (passes (validate_payload (ResponsePayload.commit p')))) [
            | inr f ↦
                rw (e, f, finish_commit) (invalidate_session-Coherent (finish b r) c.session_id r n)
            | inl f ↦ rw (e, f, finish_commit) (cleared-Names (finish b r) c.session_id a n h)
          ]
    ]
finish_commit-Coherent b r a c n (err cancelled) h = tt
finish_commit-Coherent b r a c n (err rejected) h = tt
finish_commit-Coherent b r a c n _ h = invalidate_session-Coherent (finish b r) c.session_id r n

pub finish_cancel-Coherent :
    (b : SessionBroker) (r a : ℕ) (c : CancelRequest) (g n : ℕ) (result : BackendResult)
    → At b c.session_id a n
    → Coherent c.session_id (finish_cancel b r a c g n result)
unfolding finish_cancel succeed payload_generation fail
finish_cancel-Coherent b r a c g n (ok payload) h = At-Names (finish b r) c.session_id a n h
finish_cancel-Coherent b r a c g n (err cancelled) h = tt
finish_cancel-Coherent b r a c g n (err rejected) h = tt
finish_cancel-Coherent b r a c g n _ h = invalidate_session-Coherent (finish b r) c.session_id r n

pub finish_focus_lost-Coherent :
    (b : SessionBroker) (r : ℕ) (c : FocusLostRequest) (n : ℕ) (result : BackendResult)
    → Coherent c.session_id (finish_focus_lost b r c n result)
unfolding finish_focus_lost succeed payload_generation
finish_focus_lost-Coherent b r c n (err session_invalidated) =
    invalidate_session-Coherent (finish b r) c.session_id r n
finish_focus_lost-Coherent b r c n _ =
    λ a h. absurd (ground (arith, h, lookup-remove c.session_id c.session_id b.sessions))

pub finish_create-Coherent :
    (b : SessionBroker) (r a : ℕ) (c : CreateSessionRequest) (result : BackendResult)
    → At b c.session_id a 0
    → Coherent c.session_id (finish_create b r c result)
unfolding finish_create succeed payload_generation
finish_create-Coherent b r a c (ok (ResponsePayload.created p)) h =
    elim (Bool-cases (p.session_id == c.session_id)) [
      | inl e ↦ rw (e, finish_create) (At-Names (finish b r) c.session_id a 0 h)
      | inr e ↦ rw (e, finish_create) (At-Names (finish b r) c.session_id a 0 h)
    ]
finish_create-Coherent b r a c (err session_invalidated) h =
    invalidate_session-Coherent (finish b r) c.session_id r 0
finish_create-Coherent b r a c _ h = At-Names (finish b r) c.session_id a 0 h

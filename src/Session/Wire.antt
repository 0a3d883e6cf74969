-- ===== src/Session/Wire.antt =====
-- The replies of session.rs and the checks of `ResponsePayload::validate` in protocol.rs, which
-- stand before every encoding.
pub mod Ends
pub mod Creation
pub mod Requests
use kanai.Base.{
  [], ℕ, ◌==◌, Bool, true, false, Option, none, some, ◌≡◌, refl, sym, ap, ◌∙◌, lookup, Result, ok,
  err, ◌>>◌, ◌⊎◌, inl, inr, Bool-cases, Option-cases, Result-cases, arith,
}
use kanai.Protocol.Text.{Check, validate_id, validate_text_allow_empty, byte_len, any_control}
use kanai.Protocol.Candidates.{
  CompositionState, validate_state, validate_composition_response, validate_each,
}
use kanai.Protocol.Requests.{
  KeyRequest, EditRequest, ConvertRequest, CommitRequest, CancelRequest, FocusLostRequest,
  CreateSessionRequest, validate_paging, validate_target,
}
use kanai.Protocol.Responses.{
  ResponsePayload, ResponseEnvelope, success, failure, KeyResponse, EditResponse, ConvertResponse,
  CommitResponse, validate_payload, no_fallback, succeed,
}
use kanai.Session.State.{
  SessionBroker, FallbackPolicy, to_direct_input, to_last_valid_preedit, finish, fail,
  invalidate_session, rollback_state_change, fallback_state,
}
use kanai.Session.Finish.{
  BackendResult, cancelled, rejected, passes, finish_key, finish_edit, finish_convert,
  finish_commit, finish_cancel, finish_focus_lost, finish_create, session_invalidated,
}
use kanai.Session.Fallback.{fallback_key, fallback_edit, fallback_convert, default_state}
use kanai.Session.Changes.{registers, rolls_back, done, more}
use kanai.Session.Invariant.{IsValid, Changes-IsValid}

-- A success that `encode_response` does not refuse for its payload.
abbrev pub Encodable : ResponseEnvelope → Type 0
Encodable response = elim response.outcome [
  | success payload ↦ passes (validate_payload payload) ≡ true
  | failure error ↦ Unit
]

pub passes-both : (m k : Check) → passes m ≡ true → passes k ≡ true → passes (m >> k) ≡ true
passes-both (ok u) k h g = g
passes-both (err e) k h g = h

abbrev Fallback : Option CompositionState → Type 0
Fallback o = (state : CompositionState) → o ≡ some state → passes (validate_state state) ≡ true

pub fallback_state-Fallback :
    (b : SessionBroker) (id : ℕ) → IsValid b → Fallback (fallback_state b id)
unfolding fallback_state
fallback_state-Fallback b id v state h =
    elim b.config.fallback
        as (λ p.
          (elim p as (λ _. Option CompositionState) [
            | to_direct_input ↦ none
            | to_last_valid_preedit ↦ elim (lookup id b.sessions) [
              | none ↦ none
              | some a ↦ (b.store a).last_valid
            ]
          ])
            ≡ some state
          → passes (validate_state state) ≡ true) [
            | to_direct_input ↦ λ k. absurd (ground arith)
            | to_last_valid_preedit ↦ λ k. elim (Option-cases (lookup id b.sessions)) [
              | inl e ↦ absurd (ground (arith, e, k))
              | inr (a, e) ↦ v.remembered a state (ground (arith, e, k))
            ]
          ]
      h

abbrev pub IsId : ℕ → Type 0
IsId id = passes (validate_id "sessionId" id) ≡ true

default_state-passes : passes (validate_state default_state) ≡ true
unfolding validate_state validate_composition_response validate_text_allow_empty byte_len
    any_control validate_each
default_state-passes = refl

pub fallback_key-Encodable :
    (r id g : ℕ) (o : Option CompositionState)
    → IsId id
    → Fallback o
    → Encodable (fallback_key r id g o)
unfolding fallback_key succeed validate_payload validate_composition_response validate_state
fallback_key-Encodable r id g none known h =
    passes-both (validate_id "sessionId" id) _ known default_state-passes
fallback_key-Encodable r id g (some s) known h =
    passes-both (validate_id "sessionId" id) _ known (h s refl)

pub fallback_edit-Encodable :
    (r id g : ℕ) (o : Option CompositionState)
    → IsId id
    → Fallback o
    → Encodable (fallback_edit r id g o)
unfolding fallback_edit succeed validate_payload validate_composition_response validate_state
fallback_edit-Encodable r id g none known h =
    passes-both (validate_id "sessionId" id) _ known default_state-passes
fallback_edit-Encodable r id g (some s) known h =
    passes-both (validate_id "sessionId" id) _ known (h s refl)

pub finished-IsValid : (b : SessionBroker) (r : ℕ) → IsValid b → IsValid (finish b r)
finished-IsValid b r v = Changes-IsValid {late = []} b (finish b r) (more done (registers _)) v

pub rolled_back-IsValid :
    (b : SessionBroker) (r a g n : ℕ)
    → IsValid b
    → IsValid (rollback_state_change (finish b r) a g n)
rolled_back-IsValid b r a g n v =
    Changes-IsValid {late = []} b _ (more (more done (registers _)) (rolls_back a g n)) v

pub fallback_convert-Encodable :
    (b : SessionBroker) (r : ℕ) (c : ConvertRequest) (g : ℕ)
    → IsId c.session_id
    → passes (validate_paging c.page c.page_size) ≡ true
    → IsValid b
    → Encodable (fallback_convert b r c g)
unfolding fallback_convert succeed validate_payload validate_state
fallback_convert-Encodable b r c g known paged v =
    let h = fallback_state-Fallback b c.session_id v in
    elim (Option-cases (fallback_state b c.session_id)) [
      | inl e ↦
          rw (e, fallback_convert)
            (passes-both (validate_id "sessionId" c.session_id) _ known
              (passes-both (validate_state default_state) _ default_state-passes paged))
      | inr (s, e) ↦
          rw (e, fallback_convert)
            (passes-both (validate_id "sessionId" c.session_id) _ known
              (passes-both (validate_state s) _ (h s e) paged))
    ]

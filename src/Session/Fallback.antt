-- ===== src/Session/Fallback.antt =====
-- The replies of session.rs from an earlier state, when the backend cancelled or rejected an operation.
use kanai.Base.{ℕ, false, Option, none, some, []}
use kanai.Protocol.Candidates.{CompositionState}
use kanai.Protocol.Requests.{ConvertRequest}
use kanai.Protocol.Responses.{
  FallbackMode, direct_input, last_valid_preedit, ResponsePayload, ResponseEnvelope, succeed,
}
use kanai.Session.State.{SessionBroker, fallback_state}

abbrev pub default_state : CompositionState
default_state = record { preedit = []; consumed = false; candidates = []; focused_index = none }

abbrev pub fallback_state_owned : Option CompositionState → CompositionState × FallbackMode
fallback_state_owned (some state) = (state, last_valid_preedit)
fallback_state_owned none = (default_state, direct_input)

unfoldable pub fallback_key : ℕ → ℕ → ℕ → Option CompositionState → ResponseEnvelope
unfolding succeed
fallback_key request_id session_id generation state =
    let (s, fallback) = fallback_state_owned state in
    succeed request_id (
      ResponsePayload.key (record {
        session_id = session_id;
        generation = generation;
        preedit = s.preedit;
        consumed = false;
        candidates = s.candidates;
        focused_index = s.focused_index;
        fallback = fallback;
      }))

unfoldable pub fallback_edit : ℕ → ℕ → ℕ → Option CompositionState → ResponseEnvelope
unfolding succeed
fallback_edit request_id session_id generation state =
    let (s, fallback) = fallback_state_owned state in
    succeed request_id (
      ResponsePayload.edit (record {
        session_id = session_id;
        generation = generation;
        preedit = s.preedit;
        consumed = false;
        candidates = s.candidates;
        focused_index = s.focused_index;
        fallback = fallback;
      }))

unfoldable pub fallback_convert : SessionBroker → ℕ → ConvertRequest → ℕ → ResponseEnvelope
unfolding succeed fallback_state
fallback_convert b request_id command generation =
    let (s, fallback) = fallback_state_owned (fallback_state b command.session_id) in
    succeed request_id (
      ResponsePayload.convert (record {
        session_id = command.session_id;
        generation = generation;
        preedit = s.preedit;
        consumed = false;
        candidates = s.candidates;
        focused_index = s.focused_index;
        page = command.page;
        page_size = command.page_size;
        has_more = false;
        fallback = fallback;
      }))

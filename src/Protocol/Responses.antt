-- ===== src/Protocol/Responses.antt =====
-- The responses of protocol.rs and their validation.
use Prim.Native.String.{String}
use kanai.Base.{
  ℕ, Bool, true, false, ◌||◌, ◌&&◌, not, Option, none, some, List, ◌==◌, length, ok, ◌>>◌, fail_if,
}
use kanai.Protocol.Text.{
  Text, Check, ValidationError, validate_id, validate_text, validate_text_allow_empty,
  unsupported_version, invalid_frame_limit, invalid_enhancement_metrics, missing_assist_text,
}
use kanai.Protocol.Candidates.{
  Candidate, validate_candidate_list, validate_ai_candidates, validate_composition_response,
  max_edit_text_bytes,
}
use kanai.Protocol.Requests.{
  protocol_version, max_assist_text_bytes, validate_paging, validate_target,
}
use kanai.Protocol.Metrics.{
  EnhancementFeature, EnhancementMetrics, EnhancementReason, EnhancementStatus, candidate_rerank,
  semantic_assist_feature, validate_metrics,
}

pub data FallbackMode : Type 0 where
  no_fallback direct_input last_valid_preedit : FallbackMode

pub data ErrorCode : Type 0 where
  invalid_request wrong_version unauthenticated unknown_session_code already_exists : ErrorCode
  stale_generation generation_exhausted cancelled_code : ErrorCode
  backend_unavailable backend_timeout backend_protocol : ErrorCode
  enhancement_requires_async internal : ErrorCode

-- The text of an error, before `format!` puts its arguments in.
pub data Message : Type 0 where
  literal : String → Message
  -- "request {} is already active"
  request_active : ℕ → Message
  -- "session {} does not exist"
  session_missing : ℕ → Message
  -- "stale generation {} for session {}; current generation is {}"
  generation_is_stale : ℕ → ℕ → ℕ → Message
  -- The `Display` of a validation error.
  invalid : ValidationError → Message

pub record ErrorResponse : Type 0 where
  pub code : ErrorCode
  pub message : Message
  pub retryable : Bool
  pub fallback : FallbackMode
  pub current_generation : Option ℕ

pub record SessionCreated : Type 0 where
  pub session_id : ℕ
  pub generation : ℕ
  pub fallback : FallbackMode

pub record KeyResponse : Type 0 where
  pub session_id : ℕ
  pub generation : ℕ
  pub preedit : Text
  pub consumed : Bool
  pub candidates : List Candidate
  pub focused_index : Option ℕ
  pub fallback : FallbackMode

pub record EditResponse : Type 0 where
  pub session_id : ℕ
  pub generation : ℕ
  pub preedit : Text
  pub consumed : Bool
  pub candidates : List Candidate
  pub focused_index : Option ℕ
  pub fallback : FallbackMode

pub record ConvertResponse : Type 0 where
  pub session_id : ℕ
  pub generation : ℕ
  pub preedit : Text
  pub consumed : Bool
  pub candidates : List Candidate
  pub focused_index : Option ℕ
  pub page : ℕ
  pub page_size : ℕ
  pub has_more : Bool
  pub fallback : FallbackMode

pub record CommitResponse : Type 0 where
  pub session_id : ℕ
  pub generation : ℕ
  pub text : Text
  pub consumed : Bool

pub record CancelResponse : Type 0 where
  pub session_id : ℕ
  pub generation : ℕ
  pub target_request_id : Option ℕ

pub record FocusLostResponse : Type 0 where
  pub session_id : ℕ
  pub generation : ℕ

pub data HealthStatus : Type 0 where
  ready degraded unavailable : HealthStatus

pub record HealthResponse : Type 0 where
  pub status : HealthStatus
  pub protocol_version : ℕ
  pub max_frame_bytes : ℕ
  pub fallback : FallbackMode
  pub detail : Text

pub record GenerationResponse : Type 0 where
  pub session_id : ℕ
  pub generation : ℕ

pub record CandidateRerankResponse : Type 0 where
  pub session_id : ℕ
  pub generation : ℕ
  pub status : EnhancementStatus
  pub baseline : List Candidate
  pub ai : List Candidate
  pub adopted : Bool
  pub metrics : EnhancementMetrics
  pub fallback : FallbackMode
  pub reason : EnhancementReason

pub record SemanticAssistResponse : Type 0 where
  pub session_id : ℕ
  pub generation : ℕ
  pub status : EnhancementStatus
  pub baseline_text : Text
  pub assist : Option Text
  pub applied : Bool
  pub metrics : EnhancementMetrics
  pub fallback : FallbackMode
  pub reason : EnhancementReason

pub data ResponsePayload : Type 0 where
  created : SessionCreated → ResponsePayload
  key : KeyResponse → ResponsePayload
  edit : EditResponse → ResponsePayload
  convert : ConvertResponse → ResponsePayload
  commit : CommitResponse → ResponsePayload
  cancel : CancelResponse → ResponsePayload
  focus_lost : FocusLostResponse → ResponsePayload
  health : HealthResponse → ResponsePayload
  generation : GenerationResponse → ResponsePayload
  rerank_candidates : CandidateRerankResponse → ResponsePayload
  semantic_assist : SemanticAssistResponse → ResponsePayload

unfoldable pub payload_generation : ResponsePayload → Option ℕ
payload_generation (created r) = some r.generation
payload_generation (key r) = some r.generation
payload_generation (edit r) = some r.generation
payload_generation (convert r) = some r.generation
payload_generation (commit r) = some r.generation
payload_generation (cancel r) = some r.generation
payload_generation (focus_lost r) = some r.generation
payload_generation (health r) = none
payload_generation (generation r) = some r.generation
payload_generation (rerank_candidates r) = some r.generation
payload_generation (semantic_assist r) = some r.generation

pub data ResponseOutcome : Type 0 where
  success : ResponsePayload → ResponseOutcome
  failure : ErrorResponse → ResponseOutcome

pub record ResponseEnvelope : Type 0 where
  pub version : ℕ
  pub request_id : ℕ
  pub generation : Option ℕ
  pub outcome : ResponseOutcome

-- `ResponseEnvelope::success`
unfoldable pub succeed : ℕ → ResponsePayload → ResponseEnvelope
unfolding payload_generation
succeed request_id payload = record {
  version = protocol_version;
  request_id = request_id;
  generation = payload_generation payload;
  outcome = success payload;
}

abbrev is_feature : EnhancementFeature → EnhancementFeature → Bool
is_feature candidate_rerank candidate_rerank = true
is_feature semantic_assist_feature semantic_assist_feature = true
is_feature _ _ = false

abbrev is_none : Option Text → Bool
is_none none = true
is_none (some text) = false

pub validate_assist_text : Option Text → Check
validate_assist_text none = ok tt
validate_assist_text (some assist) = validate_text "assist.assist" assist max_assist_text_bytes

unfoldable pub validate_payload : ResponsePayload → Check
unfolding validate_assist_text
validate_payload (created r) = validate_id "sessionId" r.session_id
validate_payload (key r) = do
  validate_id "sessionId" r.session_id
  validate_composition_response r.preedit r.candidates r.focused_index
validate_payload (edit r) = do
  validate_id "sessionId" r.session_id
  validate_composition_response r.preedit r.candidates r.focused_index
validate_payload (convert r) = do
  validate_id "sessionId" r.session_id
  validate_composition_response r.preedit r.candidates r.focused_index
  validate_paging r.page r.page_size
validate_payload (commit r) = do
  validate_id "sessionId" r.session_id
  validate_text "commit.text" r.text max_edit_text_bytes
validate_payload (cancel r) = do
  validate_id "sessionId" r.session_id
  validate_target r.target_request_id
validate_payload (focus_lost r) = validate_id "sessionId" r.session_id
validate_payload (health r) = do
  fail_if (not (r.protocol_version == protocol_version))
      (unsupported_version protocol_version r.protocol_version)
  fail_if (r.max_frame_bytes == 0) (invalid_frame_limit r.max_frame_bytes)
  validate_text "health.detail" r.detail 512
validate_payload (generation r) = validate_id "sessionId" r.session_id
validate_payload (rerank_candidates r) = do
  validate_id "sessionId" r.session_id
  validate_candidate_list r.baseline
  validate_candidate_list r.ai
  validate_ai_candidates r.baseline r.ai
  fail_if
      (not (is_feature r.metrics.feature candidate_rerank)
        || (not (r.metrics.baseline_candidate_count == length r.baseline)
            || not (r.metrics.ai_candidate_count == length r.ai)))
      invalid_enhancement_metrics
  validate_metrics r.metrics
validate_payload (semantic_assist r) = do
  validate_id "sessionId" r.session_id
  validate_text_allow_empty "assist.baselineText" r.baseline_text max_assist_text_bytes
  validate_assist_text r.assist
  fail_if (r.applied && is_none r.assist) missing_assist_text
  fail_if
      (not (is_feature r.metrics.feature semantic_assist_feature)
        || (not (r.metrics.baseline_candidate_count == 0)
            || not (r.metrics.ai_candidate_count == 0)))
      invalid_enhancement_metrics
  validate_metrics r.metrics

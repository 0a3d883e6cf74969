-- ===== src/Protocol/Requests.antt =====
-- The requests of protocol.rs and their validation.
use kanai.Base.{
  ℕ, ◌*◌, Bool, true, false, ◌&&◌, ◌||◌, not, Option, none, some, List, ltb, ◌==◌, ok, ◌>>◌,
  fail_if,
}
use kanai.Protocol.Text.{
  Text, Check, validate_id, validate_text, validate_text_allow_empty, invalid_range,
  page_out_of_range, page_size_out_of_range, invalid_deadline, unsupported_version,
  invalid_secure_field_policy,
}
use kanai.Protocol.Candidates.{Candidate, validate_candidate_list, max_edit_text_bytes}

abbrev pub protocol_version : ℕ
protocol_version = 1

abbrev pub max_locale_bytes : ℕ
max_locale_bytes = 32

abbrev pub max_field_class_bytes : ℕ
max_field_class_bytes = 64

abbrev pub max_key_bytes : ℕ
max_key_bytes = 64

abbrev pub max_page_size : ℕ
max_page_size = 64

abbrev pub max_page : ℕ
max_page = 16384

abbrev pub max_enhancement_deadline_ms : ℕ
max_enhancement_deadline_ms = 2000

abbrev pub max_provider_id_bytes : ℕ
max_provider_id_bytes = 64

abbrev pub max_assist_text_bytes : ℕ
max_assist_text_bytes = 4 * 1024

abbrev pub max_assist_context_bytes : ℕ
max_assist_context_bytes = 512

pub data FieldClass : Type 0 where
  regular password protected search_field email number : FieldClass
  other : Text → FieldClass

unfoldable pub is_secure : FieldClass → Bool
is_secure password = true
is_secure protected = true
is_secure _ = false

unfoldable pub validate_field_class : FieldClass → Check
validate_field_class (other label) = validate_text "fieldClass" label max_field_class_bytes
validate_field_class _ = ok tt

pub data SecureFieldPolicy : Type 0 where
  prohibit allow_local_only : SecureFieldPolicy

-- What the broker admits an optional job with.
pub record EnhancementAdmission : Type 0 where
  pub session_id : ℕ
  pub generation : ℕ
  pub field_class : FieldClass
  pub secure_field_policy : SecureFieldPolicy

abbrev is_prohibit : SecureFieldPolicy → Bool
is_prohibit prohibit = true
is_prohibit allow_local_only = false

unfoldable pub validate_admission : EnhancementAdmission → Check
validate_admission self = do
  validate_id "sessionId" self.session_id
  validate_field_class self.field_class
  fail_if (is_secure self.field_class && not (is_prohibit self.secure_field_policy))
      invalid_secure_field_policy

pub data KeyEvent : Type 0 where
  character : Text → KeyEvent
  enter space backspace delete escape tab left right up down : KeyEvent
  function : ℕ → KeyEvent
  named : Text → KeyEvent

unfoldable pub validate_key : KeyEvent → Check
validate_key (character value) = validate_text "key.value" value max_key_bytes
validate_key (named name) = validate_text "key.name" name max_key_bytes
validate_key _ = ok tt

pub record TextRange : Type 0 where
  pub start : ℕ
  pub end : ℕ

unfoldable pub validate_range : TextRange → Check
validate_range self = fail_if (ltb self.end self.start) (invalid_range self.start self.end)

pub data EditAction : Type 0 where
  insert : Text → EditAction
  replace : TextRange → Text → EditAction
  delete_range : TextRange → EditAction
  reset_text : EditAction

unfoldable pub validate_action : EditAction → Check
validate_action (insert text) = validate_text "edit.text" text max_edit_text_bytes
validate_action (replace range text) = do
  validate_range range
  validate_text "edit.text" text max_edit_text_bytes
validate_action (delete_range range) = validate_range range
validate_action reset_text = ok tt

pub record CreateSessionRequest : Type 0 where
  pub session_id : ℕ
  pub locale : Text
  pub field_class : FieldClass

pub record PrepareRerankSessionRequest : Type 0 where
  pub session_id : ℕ
  pub generation : ℕ
  pub field_class : FieldClass

pub record KeyRequest : Type 0 where
  pub session_id : ℕ
  pub generation : ℕ
  pub key : KeyEvent

pub record EditRequest : Type 0 where
  pub session_id : ℕ
  pub generation : ℕ
  pub action : EditAction

pub record ConvertRequest : Type 0 where
  pub session_id : ℕ
  pub generation : ℕ
  pub page : ℕ
  pub page_size : ℕ

pub record CommitRequest : Type 0 where
  pub session_id : ℕ
  pub generation : ℕ
  pub candidate_id : ℕ

pub record CancelRequest : Type 0 where
  pub session_id : ℕ
  pub target_request_id : Option ℕ
  pub generation : Option ℕ

pub record FocusLostRequest : Type 0 where
  pub session_id : ℕ
  pub generation : ℕ

pub record GenerationRequest : Type 0 where
  pub session_id : ℕ

pub record CandidateRerankRequest : Type 0 where
  pub session_id : ℕ
  pub generation : ℕ
  pub candidates : List Candidate
  pub context_before : Text
  pub context_after : Text
  pub policy_version : Text
  pub deadline_ms : ℕ
  pub baseline_latency_micros : ℕ

pub data SemanticIntent : Type 0 where
  rewrite explain suggest repair : SemanticIntent

pub record SemanticAssistRequest : Type 0 where
  pub session_id : ℕ
  pub generation : ℕ
  pub intent : SemanticIntent
  pub text : Text
  pub instruction : Text
  pub context_before : Text
  pub context_after : Text
  pub policy_version : Text
  pub deadline_ms : ℕ
  pub baseline_latency_micros : ℕ
  pub consent : Bool

unfoldable pub validate_deadline : ℕ → Check
validate_deadline deadline_ms =
    fail_if (deadline_ms == 0 || ltb max_enhancement_deadline_ms deadline_ms)
      (invalid_deadline deadline_ms max_enhancement_deadline_ms)

unfoldable pub validate_rerank : CandidateRerankRequest → Check
validate_rerank self = do
  validate_id "sessionId" self.session_id
  validate_candidate_list self.candidates
  validate_text_allow_empty "rerank.contextBefore" self.context_before max_assist_context_bytes
  validate_text_allow_empty "rerank.contextAfter" self.context_after max_assist_context_bytes
  validate_text "rerank.policyVersion" self.policy_version max_provider_id_bytes
  validate_deadline self.deadline_ms

unfoldable pub validate_assist : SemanticAssistRequest → Check
validate_assist self = do
  validate_id "sessionId" self.session_id
  validate_text "assist.text" self.text max_assist_text_bytes
  validate_text_allow_empty "assist.instruction" self.instruction max_assist_context_bytes
  validate_text_allow_empty "assist.contextBefore" self.context_before max_assist_context_bytes
  validate_text_allow_empty "assist.contextAfter" self.context_after max_assist_context_bytes
  validate_text "assist.policyVersion" self.policy_version max_provider_id_bytes
  validate_deadline self.deadline_ms

pub data RequestCommand : Type 0 where
  create_session : CreateSessionRequest → RequestCommand
  prepare_rerank_session : PrepareRerankSessionRequest → RequestCommand
  key : KeyRequest → RequestCommand
  edit : EditRequest → RequestCommand
  convert : ConvertRequest → RequestCommand
  commit : CommitRequest → RequestCommand
  cancel : CancelRequest → RequestCommand
  focus_lost : FocusLostRequest → RequestCommand
  health : RequestCommand
  generation : GenerationRequest → RequestCommand
  rerank_candidates : CandidateRerankRequest → RequestCommand
  semantic_assist : SemanticAssistRequest → RequestCommand

unfoldable pub session_id : RequestCommand → Option ℕ
session_id (create_session r) = some r.session_id
session_id (prepare_rerank_session r) = some r.session_id
session_id (key r) = some r.session_id
session_id (edit r) = some r.session_id
session_id (convert r) = some r.session_id
session_id (commit r) = some r.session_id
session_id (cancel r) = some r.session_id
session_id (focus_lost r) = some r.session_id
session_id health = none
session_id (generation r) = some r.session_id
session_id (rerank_candidates r) = some r.session_id
session_id (semantic_assist r) = some r.session_id

unfoldable pub expected_generation : RequestCommand → Option ℕ
expected_generation (create_session r) = none
expected_generation (prepare_rerank_session r) = some r.generation
expected_generation (key r) = some r.generation
expected_generation (edit r) = some r.generation
expected_generation (convert r) = some r.generation
expected_generation (commit r) = some r.generation
expected_generation (cancel r) = r.generation
expected_generation (focus_lost r) = some r.generation
expected_generation health = none
expected_generation (generation r) = none
expected_generation (rerank_candidates r) = some r.generation
expected_generation (semantic_assist r) = some r.generation

unfoldable pub validate_paging : ℕ → ℕ → Check
validate_paging page page_size = do
  fail_if (ltb max_page page) (page_out_of_range page max_page)
  fail_if (page_size == 0 || ltb max_page_size page_size)
      (page_size_out_of_range page_size max_page_size)

unfoldable pub validate_target : Option ℕ → Check
validate_target none = ok tt
validate_target (some target) = validate_id "targetRequestId" target

unfoldable pub validate_command : RequestCommand → Check
validate_command (create_session r) = do
  validate_id "sessionId" r.session_id
  validate_text "locale" r.locale max_locale_bytes
  validate_field_class r.field_class
validate_command (prepare_rerank_session r) = do
  validate_id "sessionId" r.session_id
  validate_field_class r.field_class
validate_command (key r) = do validate_id "sessionId" r.session_id; validate_key r.key
validate_command (edit r) = do validate_id "sessionId" r.session_id; validate_action r.action
validate_command (convert r) = do
  validate_id "sessionId" r.session_id
  validate_paging r.page r.page_size
validate_command (commit r) = do
  validate_id "sessionId" r.session_id
  validate_id "candidateId" r.candidate_id
validate_command (cancel r) = do
  validate_id "sessionId" r.session_id
  validate_target r.target_request_id
validate_command (focus_lost r) = validate_id "sessionId" r.session_id
validate_command health = ok tt
validate_command (generation r) = validate_id "sessionId" r.session_id
validate_command (rerank_candidates r) = validate_rerank r
validate_command (semantic_assist r) = validate_assist r

pub record RequestEnvelope : Type 0 where
  pub version : ℕ
  pub request_id : ℕ
  pub command : RequestCommand

unfoldable pub validate_request : RequestEnvelope → Check
validate_request self = do
  fail_if (not (self.version == protocol_version))
      (unsupported_version protocol_version self.version)
  validate_id "requestId" self.request_id
  validate_command self.command

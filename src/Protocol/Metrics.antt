-- ===== src/Protocol/Metrics.antt =====
-- The metrics of optional work in protocol.rs.
use kanai.Base.{ℕ, ◌||◌, ltb, ◌==◌, max, ◌>>◌, fail_if}
use kanai.Protocol.Text.{
  Text, Check, validate_text, too_many_candidates, invalid_enhancement_metrics, invalid_deadline,
}
use kanai.Protocol.Candidates.{max_candidates}
use kanai.Protocol.Requests.{max_enhancement_deadline_ms, max_provider_id_bytes}

pub data ProviderLocality : Type 0 where
  local remote : ProviderLocality

pub data EnhancementFeature : Type 0 where
  candidate_rerank semantic_assist_feature : EnhancementFeature

pub data EnhancementStatus : Type 0 where
  applied fallen_back skipped timed_out cancelled rejected : EnhancementStatus

pub data EnhancementReason : Type 0 where
  no_reason secure_field policy_disabled consent_required no_baseline no_change : EnhancementReason
  provider_timeout provider_unavailable provider_rejected invalid_result : EnhancementReason
  stale was_cancelled : EnhancementReason

pub record EnhancementMetrics : Type 0 where
  pub feature : EnhancementFeature
  pub provider : Text
  pub locality : ProviderLocality
  pub baseline_latency_micros : ℕ
  pub ai_latency_micros : ℕ
  pub baseline_candidate_count : ℕ
  pub ai_candidate_count : ℕ
  pub changed_positions : ℕ
  pub adopted_count : ℕ
  pub deadline_ms : ℕ

pub validate_metrics : EnhancementMetrics → Check
validate_metrics self = do
  fail_if
      (ltb max_candidates self.baseline_candidate_count
        || ltb max_candidates self.ai_candidate_count)
      (too_many_candidates (max self.baseline_candidate_count self.ai_candidate_count)
        max_candidates)
  fail_if
      (ltb max_candidates self.changed_positions || ltb self.ai_candidate_count self.adopted_count)
      invalid_enhancement_metrics
  fail_if (self.deadline_ms == 0 || ltb max_enhancement_deadline_ms self.deadline_ms)
      (invalid_deadline self.deadline_ms max_enhancement_deadline_ms)
  validate_text "enhancement.provider" self.provider max_provider_id_bytes

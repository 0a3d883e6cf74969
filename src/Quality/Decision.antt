-- ===== src/Quality/Decision.antt =====
-- Semantic rerank decisions, snapshots and plans of ai.rs.
pub mod Applied
pub mod Outcome
pub mod Reordered
use kanai.Base.{
  ℕ, zero, suc, ◌+◌, Bool, true, false, ◌&&◌, ◌||◌, not, Option, none, some, List, [], ◌∷◌, ltb,
  leb, ◌==◌, length, if◌then◌else◌, Result, ok, err, ◌>>=◌, ◌>>◌, fail_if,
}
use kanai.Quality.Limits.{ModelTier}
use kanai.Quality.Order.{
  CandidateIdOrder, IndexOrder, RerankRejection, as_slice, resolve, apply_index_order,
  stale_generation, wrong_model_revision, wrong_learning_version, wrong_model_tier,
  wrong_input_revision, invalid_confidence, low_confidence, invalid_reason, candidate_patch,
  unexpected_candidates, candidate_set_changed,
}
use kanai.Quality.Floats.{is_finite, in_unit, float_lt, three_quarters}
use kanai.Quality.Window.{
  PersonalizedCandidate, CacheKey, CandidateFingerprint, Write, candidate_fingerprint,
  model_tier_code,
}

pub data SemanticRerankAction : Type 0 where
  rerank abstain_action : SemanticRerankAction

pub data SemanticRerankReason : Type 0 where
  semantic_context ambiguous_homophone domain_term intent_fit abstain : SemanticRerankReason

-- The confidence is the bit pattern of an `f64`; a patch that is there carries nothing.
pub record SemanticRerankDecision : Type 0 where
  pub action : SemanticRerankAction
  pub candidate_ids : CandidateIdOrder
  pub patch : Bool
  pub confidence : ℕ
  pub reason : SemanticRerankReason
  pub model_tier : ModelTier
  pub expires_at_generation : ℕ
  pub input_revision : ℕ
  pub model_revision : ℕ
  pub learning_version : ℕ

pub data SemanticProviderError : Type 0 where
  timed_out unavailable cancelled malformed_response : SemanticProviderError

-- The fingerprints are those of the candidates whose ids count.
pub record SemanticRerankSnapshot : Type 0 where
  pub session_id : ℕ
  pub generation : ℕ
  pub tier : ModelTier
  pub model_revision : ℕ
  pub learning_version : ℕ
  pub input_revision : ℕ
  pub candidate_ids : CandidateIdOrder
  pub candidate_fingerprints : List CandidateFingerprint
  pub max_rank_shift : ℕ
  pub uses_context : Bool
  pub cache_key : CacheKey

pub record SemanticRerankPlan : Type 0 where
  pub snapshot : SemanticRerankSnapshot
  pub candidate_ids : CandidateIdOrder
  pub changed_positions : ℕ

-- `candidates` is a borrow of the caller's slice.
pub record SemanticRerankAdmission : Type 0 where
  pub current_generation : Option ℕ
  pub current_model_revision : ℕ
  pub current_learning_version : ℕ
  pub candidates : List PersonalizedCandidate

pub data SemanticRerankApply : Type 0 where
  applied : ℕ → SemanticRerankApply
  abstained : SemanticRerankApply

unfoldable pub is_abstain : SemanticRerankPlan → Bool
is_abstain self = self.candidate_ids.len == 0

abbrev pub fingerprint_eq : CandidateFingerprint → CandidateFingerprint → Bool
fingerprint_eq a b = a.primary_print == b.primary_print && a.secondary_print == b.secondary_print

abbrev pub is_generation : Option ℕ → ℕ → Bool
is_generation none n = false
is_generation (some m) n = m == n

abbrev pub tier_eq : ModelTier → ModelTier → Bool
tier_eq a b = model_tier_code a == model_tier_code b

abbrev pub is_abstain_reason : SemanticRerankReason → Bool
is_abstain_reason abstain = true
is_abstain_reason _ = false

abbrev pub apply_resolved :
    List PersonalizedCandidate
    → Result RerankRejection IndexOrder
    → List PersonalizedCandidate × Result RerankRejection SemanticRerankApply
apply_resolved candidates (err rejection) = (candidates, err rejection)
apply_resolved candidates (ok order) = (
  (apply_index_order candidates order).0,
  (apply_index_order candidates order).1 >>= λ changed. ok (applied changed),
)

unfoldable pub validate_action :
    SemanticRerankAction
    → SemanticRerankDecision
    → SemanticRerankSnapshot
    → Result RerankRejection SemanticRerankPlan
validate_action abstain_action decision snapshot = do
  fail_if (not (decision.candidate_ids.len == 0)) unexpected_candidates
  fail_if (not (is_abstain_reason decision.reason)) invalid_reason
  ok (record { snapshot = snapshot; candidate_ids = decision.candidate_ids; changed_positions = 0 })
validate_action rerank decision snapshot = do
  fail_if (is_abstain_reason decision.reason) invalid_reason
  fail_if (float_lt decision.confidence three_quarters) low_confidence
  order ← resolve decision.candidate_ids (as_slice snapshot.candidate_ids) snapshot.max_rank_shift
  ok (record {
    snapshot = snapshot;
    candidate_ids = decision.candidate_ids;
    changed_positions = order.changed_positions;
  })

module _ (digest : List Write → ℕ) where
  -- The ids and fingerprints of a snapshot against the first candidates.
  unfoldable pub all_match : List ℕ → List CandidateFingerprint → List PersonalizedCandidate → Bool
  all_match [] prints candidates = true
  all_match (id ∷ ids) prints [] = false
  all_match (id ∷ ids) [] (c ∷ cs) = false
  all_match (id ∷ ids) (p ∷ ps) (c ∷ cs) =
      c.candidate.id == id
      && (fingerprint_eq (candidate_fingerprint digest c) p && all_match ids ps cs)

  unfoldable pub matches_candidates : SemanticRerankSnapshot → List PersonalizedCandidate → Bool
  matches_candidates self candidates =
      not (ltb (length candidates) self.candidate_ids.len)
      && all_match (as_slice self.candidate_ids) self.candidate_fingerprints candidates

  unfoldable pub check_admission :
      SemanticRerankSnapshot → SemanticRerankAdmission → Result RerankRejection (Unit {0})
  check_admission self admission = do
    fail_if (not (is_generation admission.current_generation self.generation)) stale_generation
    fail_if (not (admission.current_model_revision == self.model_revision)) wrong_model_revision
    fail_if (not (admission.current_learning_version == self.learning_version))
        wrong_learning_version
    fail_if (not (matches_candidates self admission.candidates)) candidate_set_changed

  -- The candidates afterwards, and the result.
  unfoldable pub apply :
      SemanticRerankPlan
      → SemanticRerankAdmission
      → List PersonalizedCandidate × Result RerankRejection SemanticRerankApply
  apply self admission = elim (check_admission self.snapshot admission) [
    | err rejection ↦ (admission.candidates, err rejection)
    | ok _ ↦
        if is_abstain self
        then (admission.candidates, ok abstained)
        else apply_resolved admission.candidates (
            resolve self.candidate_ids (as_slice self.snapshot.candidate_ids)
              self.snapshot.max_rank_shift)
  ]

  unfoldable pub validate_semantic_rerank :
      SemanticRerankDecision
      → SemanticRerankSnapshot
      → SemanticRerankAdmission
      → Result RerankRejection SemanticRerankPlan
  validate_semantic_rerank decision snapshot admission = do
    check_admission snapshot admission
    fail_if (not (decision.expires_at_generation == snapshot.generation)) stale_generation
    fail_if (not (decision.input_revision == snapshot.input_revision)) wrong_input_revision
    fail_if (not (decision.model_revision == snapshot.model_revision)) wrong_model_revision
    fail_if (not (decision.learning_version == snapshot.learning_version)) wrong_learning_version
    fail_if (not (tier_eq decision.model_tier snapshot.tier)) wrong_model_tier
    fail_if (not (is_finite decision.confidence) || not (in_unit decision.confidence))
        invalid_confidence
    fail_if decision.patch candidate_patch
    validate_action decision.action decision snapshot

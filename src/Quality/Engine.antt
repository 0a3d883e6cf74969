-- ===== src/Quality/Engine.antt =====
-- `LocalQualityEngine` of ai.rs: its state, and the semantic rerank.
pub mod Fast
pub mod Sound
pub mod Semantic
pub mod Baseline
pub mod Reached
pub mod Captured
use kanai.Base.{
  ℕ, zero, suc, ◌+◌, ◌-◌, ◌/◌, min, Bool, true, false, ◌&&◌, ◌||◌, not, Option, none, some, List,
  [], ◌∷◌, ltb, leb, ◌==◌, length, map, take, if◌then◌else◌, Result, ok, err, ◌>>=◌, ◌>>◌, fail_if,
}
use kanai.Quality.Limits.{
  ModelTier, LocalDataPolicy, mozc_baseline, candidate_features, bounded_context,
  LocalQualityConfig, new_config,
}
use kanai.Quality.Order.{
  CandidateIdOrder, RerankRejection, policy_disabled, stale_generation, invalid_input,
  insufficient_candidates, usize_max,
}
use kanai.Quality.Context.{BoundedLocalContext, bound_context}
use kanai.Quality.Window.{
  PersonalizedCandidate, LocalQualityRequest, Write, CacheKey, CandidateFingerprint, valid_reading,
  validate_candidate_window, candidate_ids, candidate_fingerprint, input_cache_key, semantic_rerank,
  model_tier_code,
}
use kanai.Quality.Decision.{
  SemanticRerankDecision, SemanticProviderError, SemanticRerankSnapshot, SemanticRerankPlan,
  SemanticRerankAdmission, SemanticRerankApply, applied, abstained, is_generation, apply,
  validate_semantic_rerank,
}
use kanai.Quality.Cache.{key_eq, lookup_cache, insert_cache}

pub record LocalQualityEngine : Type 0 where
  pub config : LocalQualityConfig
  pub fast_cache : List (CacheKey × CandidateIdOrder)
  pub semantic_cache : List (CacheKey × SemanticRerankPlan)
  pub fast_cache_limit : ℕ
  pub semantic_cache_limit : ℕ

unfoldable pub new_engine : LocalQualityConfig → LocalQualityEngine
new_engine config = record {
  config = config;
  fast_cache = [];
  semantic_cache = [];
  fast_cache_limit = config.cache_capacity - config.cache_capacity / 2;
  semantic_cache_limit = config.cache_capacity / 2;
}

unfoldable pub mozc_only_engine : LocalQualityEngine
mozc_only_engine = new_engine (new_config mozc_baseline)

-- `saturating_add`
unfoldable pub cache_entries : LocalQualityEngine → ℕ
cache_entries self = min (length self.fast_cache + length self.semantic_cache) usize_max

unfoldable pub clear_cache : LocalQualityEngine → LocalQualityEngine
clear_cache self = record self { fast_cache = []; semantic_cache = [] }

abbrev pub is_mozc_only : ModelTier → Bool
is_mozc_only tier = model_tier_code tier == 0

abbrev pub is_mozc_baseline : LocalDataPolicy → Bool
is_mozc_baseline mozc_baseline = true
is_mozc_baseline candidate_features = false
is_mozc_baseline bounded_context = false

abbrev pub context_for : LocalQualityEngine → LocalQualityRequest → BoundedLocalContext
context_for self request = bound_context self.config request.context_before request.context_after

abbrev pub is_empty_context : BoundedLocalContext → Bool
is_empty_context context = length context.values == 0

pub data SemanticRerankResolution : Type 0 where
  resolution_applied : ℕ → SemanticRerankResolution
  resolution_abstained : SemanticRerankResolution
  fallback : SemanticProviderError → SemanticRerankResolution
  rejected : RerankRejection → SemanticRerankResolution

abbrev pub preserved_baseline : SemanticRerankResolution → Bool
preserved_baseline (resolution_applied changed_positions) = changed_positions == 0
preserved_baseline resolution_abstained = true
preserved_baseline (fallback error) = true
preserved_baseline (rejected rejection) = true

abbrev pub resolution_of : Result RerankRejection SemanticRerankApply → SemanticRerankResolution
resolution_of (ok (applied changed_positions)) = resolution_applied changed_positions
resolution_of (ok abstained) = resolution_abstained
resolution_of (err rejection) = rejected rejection

-- `(plan.snapshot.cache_key == snapshot.cache_key).then_some(plan)`
abbrev pub same_snapshot : CacheKey → Option SemanticRerankPlan → Option SemanticRerankPlan
same_snapshot key none = none
same_snapshot key (some plan) = if key_eq plan.snapshot.cache_key key then some plan else none

-- The engine afterwards, and the plan.
unfoldable pub cached_semantic_rerank :
    LocalQualityEngine → SemanticRerankSnapshot → LocalQualityEngine × Option SemanticRerankPlan
cached_semantic_rerank self snapshot =
    let (cache, found) = lookup_cache self.semantic_cache snapshot.cache_key in
    (record self { semantic_cache = cache }, same_snapshot snapshot.cache_key found)

abbrev pub window_of : LocalQualityEngine → List PersonalizedCandidate → List PersonalizedCandidate
window_of self candidates = take (min (length candidates) self.config.max_candidates) candidates

module _ (digest : List Write → ℕ) where
  unfoldable pub snapshot_of :
      LocalQualityEngine → LocalQualityRequest → List PersonalizedCandidate → SemanticRerankSnapshot
  snapshot_of self request window =
      let context = context_for self request in
      let ids = candidate_ids window in
      let key = input_cache_key digest semantic_rerank request self.config context ids window in
      record {
        session_id = request.session_id;
        generation = request.generation;
        tier = request.tier;
        model_revision = request.model_revision;
        learning_version = request.learning_version;
        input_revision = key.primary;
        candidate_ids = ids;
        candidate_fingerprints = map (candidate_fingerprint digest) window;
        max_rank_shift = self.config.max_rank_shift;
        uses_context = not (is_empty_context context);
        cache_key = key;
      }

  unfoldable pub capture_semantic_rerank :
      LocalQualityEngine
      → LocalQualityRequest
      → List PersonalizedCandidate
      → Result RerankRejection SemanticRerankSnapshot
  capture_semantic_rerank self request candidates = do
    fail_if (is_mozc_only request.tier) RerankRejection.mozc_only
    fail_if (is_mozc_baseline self.config.data_policy) policy_disabled
    fail_if (not (is_generation request.current_generation request.generation)) stale_generation
    fail_if (not (valid_reading request.reading)) invalid_input
    fail_if (ltb (min (length candidates) self.config.max_candidates) 2) insufficient_candidates
    validate_candidate_window (window_of self candidates)
    ok (snapshot_of self request (window_of self candidates))

  -- The engine, the candidates and the resolution after the plan was applied; a plan that is
  -- refused is not kept.
  abbrev pub keep_plan :
      LocalQualityEngine
      → SemanticRerankSnapshot
      → SemanticRerankPlan
      → List PersonalizedCandidate × Result RerankRejection SemanticRerankApply
      → LocalQualityEngine × List PersonalizedCandidate × SemanticRerankResolution
  keep_plan self snapshot plan (candidates, err rejection) = (self, candidates, rejected rejection)
  keep_plan self snapshot plan (candidates, ok outcome) = (
    record self {
      semantic_cache =
          insert_cache self.semantic_cache self.semantic_cache_limit snapshot.cache_key plan;
    },
    candidates,
    resolution_of (ok outcome),
  )

  unfoldable pub resolve_decision :
      LocalQualityEngine
      → SemanticRerankSnapshot
      → SemanticRerankAdmission
      → Result SemanticProviderError SemanticRerankDecision
      → LocalQualityEngine × List PersonalizedCandidate × SemanticRerankResolution
  resolve_decision self snapshot admission (err error) =
      (self, admission.candidates, fallback error)
  resolve_decision self snapshot admission (ok decision) =
      elim (validate_semantic_rerank digest decision snapshot admission) [
        | err rejection ↦ (self, admission.candidates, rejected rejection)
        | ok plan ↦ keep_plan self snapshot plan (apply digest plan admission)
      ]

  -- The engine, the candidates, and the resolution.
  unfoldable pub resolve_semantic_rerank :
      LocalQualityEngine
      → SemanticRerankSnapshot
      → SemanticRerankAdmission
      → Result SemanticProviderError SemanticRerankDecision
      → LocalQualityEngine × List PersonalizedCandidate × SemanticRerankResolution
  resolve_semantic_rerank self snapshot admission provider_result =
      let looked = cached_semantic_rerank self snapshot in
      elim looked.1 [
        | some plan ↦
            let outcome = apply digest plan admission in
            (looked.0, outcome.0, resolution_of outcome.1)
        | none ↦ resolve_decision looked.0 snapshot admission provider_result
      ]
